-- ===== src/PeerManager/Redial.antt =====
-- peer_manager.rs: which peers `get_best_peers_for_redial` and `get_new_peers_for_dialling` choose.
use mathlib.Core.List.{Perm, append-nil, append_assoc}
use mathlib.Core.List.Perm
use cl_p2p_setup.Base.{
  ℕ, zero, suc, ◌+◌, ◌≤◌, ◌≡◌, refl, sym, ap, ◌⊎◌, inl, inr, true, List, [], ◌∷◌, ◌++◌, map, length,
  take, leb, arith, Bool-cases, length-take, length-append,
}
use cl_p2p_setup.Base.Lists.{drop, take-append-drop, All, All-take, All-drop, length-map}
use cl_p2p_setup.PeerManager.{PeerData, PeerManager}
use cl_p2p_setup.PeerManager.Dialling.{
  get_peer_score, is_redialable, candidates, insert_sorted, sort_by_score, take_new,
  get_best_peers_for_redial, get_new_peers_for_dialling,
}

module _ {PeerId Multiaddr : Type 0} where
  -- No score before is above a score behind.
  abbrev pub IsAscending : List (PeerId × PeerData Multiaddr) → Type 0
  IsAscending [] = Unit
  IsAscending (a ∷ rest) =
      All (λ (b : PeerId × PeerData Multiaddr). get_peer_score a.1 ≤ get_peer_score b.1) rest
      × IsAscending rest

  abbrev pub IsRedialable : PeerId × PeerData Multiaddr → Type 0
  IsRedialable a = is_redialable a.1 ≡ true

  insert_sorted-perm :
      (a : PeerId × PeerData Multiaddr) (l : List (PeerId × PeerData Multiaddr))
      → Perm (insert_sorted a l) (a ∷ l)
  unfolding insert_sorted
  insert_sorted-perm a [] = Perm.refl _
  insert_sorted-perm a (b ∷ rest) =
      elim (Bool-cases (leb (get_peer_score a.1) (get_peer_score b.1))) [
        | inl e ↦ rw e (Perm.refl _)
        | inr e ↦ rw e (Perm.trans (Perm.cons b (insert_sorted-perm a rest)) (Perm.swap a b rest))
      ]

  sort_by_score-perm : (l : List (PeerId × PeerData Multiaddr)) → Perm (sort_by_score l) l
  unfolding sort_by_score
  sort_by_score-perm [] = Perm.refl _
  sort_by_score-perm (a ∷ rest) =
      Perm.trans (insert_sorted-perm a (sort_by_score rest)) (Perm.cons a (sort_by_score-perm rest))

  insert_sorted-All :
      (P : PeerId × PeerData Multiaddr → Type 0) (a : PeerId × PeerData Multiaddr)
      (l : List (PeerId × PeerData Multiaddr))
      → P a
      → All P l
      → All P (insert_sorted a l)
  unfolding insert_sorted
  insert_sorted-All P a [] pa h = (pa, tt)
  insert_sorted-All P a (b ∷ rest) pa h =
      elim (Bool-cases (leb (get_peer_score a.1) (get_peer_score b.1))) [
        | inl e ↦ rw e (pa, h)
        | inr e ↦ rw e (h.0, insert_sorted-All P a rest pa h.1)
      ]

  pub sort_by_score-All :
      (P : PeerId × PeerData Multiaddr → Type 0) (l : List (PeerId × PeerData Multiaddr))
      → All P l
      → All P (sort_by_score l)
  unfolding sort_by_score
  sort_by_score-All P [] h = tt
  sort_by_score-All P (a ∷ rest) h = insert_sorted-All P a _ h.0 (sort_by_score-All P rest h.1)

  All-le_trans :
      (m n : ℕ) (l : List (PeerId × PeerData Multiaddr))
      → m ≤ n
      → All (λ (b : PeerId × PeerData Multiaddr). n ≤ get_peer_score b.1) l
      → All (λ (b : PeerId × PeerData Multiaddr). m ≤ get_peer_score b.1) l
  All-le_trans m n [] le h = tt
  All-le_trans m n (b ∷ rest) le h = (omega arith, All-le_trans m n rest le h.1)

  insert_sorted-IsAscending :
      (a : PeerId × PeerData Multiaddr) (l : List (PeerId × PeerData Multiaddr))
      → IsAscending l
      → IsAscending (insert_sorted a l)
  unfolding insert_sorted
  insert_sorted-IsAscending a [] h = (tt, tt)
  insert_sorted-IsAscending a (b ∷ rest) h =
      elim (Bool-cases (leb (get_peer_score a.1) (get_peer_score b.1))) [
        | inl e ↦ rw e ((ground arith, All-le_trans _ _ rest (ground arith) h.0), h)
        | inr e ↦ rw e (
          insert_sorted-All (λ c. get_peer_score b.1 ≤ get_peer_score c.1) a rest (ground arith)
              h.0,
          insert_sorted-IsAscending a rest h.1,
        )
      ]

  sort_by_score-IsAscending :
      (l : List (PeerId × PeerData Multiaddr)) → IsAscending (sort_by_score l)
  unfolding sort_by_score
  sort_by_score-IsAscending [] = tt
  sort_by_score-IsAscending (a ∷ rest) =
      insert_sorted-IsAscending a _ (sort_by_score-IsAscending rest)

  pub candidates-All :
      (P : PeerId × PeerData Multiaddr → Type 0) (m : List (PeerId × PeerData Multiaddr))
      → All P m
      → All P (candidates m)
  unfolding candidates
  candidates-All P [] h = tt
  candidates-All P ((p, d) ∷ m) h = elim (Bool-cases (is_redialable d)) [
    | inl e ↦ rw e (h.0, candidates-All P m h.1)
    | inr e ↦ rw e (candidates-All P m h.1)
  ]

  candidates-IsRedialable :
      (l : List (PeerId × PeerData Multiaddr)) → All IsRedialable (candidates l)
  unfolding candidates
  candidates-IsRedialable [] = tt
  candidates-IsRedialable ((p, d) ∷ rest) = elim (Bool-cases (is_redialable d)) [
    | inl e ↦ rw e (e, candidates-IsRedialable rest)
    | inr e ↦ rw e (candidates-IsRedialable rest)
  ]

  -- Along an ascending list, what the first n entries hold is no more than what is behind them.
  take-IsAscending :
      (n : ℕ) (l : List (PeerId × PeerData Multiaddr))
      → IsAscending l
      → All
          (λ (a : PeerId × PeerData Multiaddr).
            All
              (λ (b : PeerId × PeerData Multiaddr). get_peer_score a.1 ≤ get_peer_score b.1)
              (drop n l))
          (take n l)
  take-IsAscending zero l h = tt
  take-IsAscending (suc n) [] h = tt
  take-IsAscending (suc n) (a ∷ rest) h = (All-drop _ n rest h.0, take-IsAscending n rest h.1)

-- `result` names at most `n` of the peers that may be redialled, and less than `n` only if these are
-- all: the `chosen`. No peer that is `left` has a lower score than one that is chosen.
pub record HasLowestScores {PeerId Multiaddr : Type 0} (n : ℕ)
    (peers : List (PeerId × PeerData Multiaddr)) (result : List PeerId) : Type 0 where
  pub chosen : List (PeerId × PeerData Multiaddr)
  pub left : List (PeerId × PeerData Multiaddr)
  pub named : map (λ a. a.0) chosen ≡ result
  pub perm : Perm (chosen ++ left) (candidates peers)
  pub redialable : All IsRedialable chosen
  pub bounded : length chosen ≤ n
  pub full : (left ≡ []) ⊎ (length chosen ≡ n)
  pub lowest :
      All
        (λ (a : PeerId × PeerData Multiaddr).
          All (λ (b : PeerId × PeerData Multiaddr). get_peer_score a.1 ≤ get_peer_score b.1) left)
        chosen

pub length-take-le : {A : Type 0} (n : ℕ) (l : List A) → length (take n l) ≤ n
length-take-le n l = omega (arith, length-take n l)

take_full : {A : Type 0} (n : ℕ) (l : List A) → (drop n l ≡ []) ⊎ (length (take n l) ≡ n)
take_full zero l = inr refl
take_full (suc n) [] = inl refl
take_full (suc n) (x ∷ l) = elim (take_full n l) [ inl e ↦ inl e | inr e ↦ inr (ap suc e) ]

take_new-take :
    {K : Type 0} (n m : ℕ) (taken ks : List K)
    → length taken + m ≡ n
    → take_new n taken ks ≡ taken ++ take m ks
unfolding take_new
take_new-take n zero taken [] h = sym (append-nil taken)
take_new-take n (suc m) taken [] h = sym (append-nil taken)
take_new-take n zero taken (k ∷ ks) h = ground (arith, append-nil taken)
take_new-take n (suc m) taken (k ∷ ks) h =
    let next : length (taken ++ k ∷ []) + m ≡ n = omega (arith, length-append taken (k ∷ [])) in
    ground
      (arith, take_new-take n m (taken ++ k ∷ []) ks next, append_assoc taken (k ∷ []) (take m ks))

module _ {PeerId Multiaddr IdentifyInfo : Type 0} where
  -- `get_best_peers_for_redial` returns at most `num_peers` peers, each of which failed or was
  -- disconnected at its last attempt and has an average connection of more than
  -- `MIN_AVERAGE_CONNECTION_DURATION`, and all such peers if they are no more than that. Its choice
  -- has the lowest averages: no such peer that is left out has a lower score than one returned.
  pub get_best_peers_for_redial-HasLowestScores :
      (s : PeerManager PeerId Multiaddr IdentifyInfo) (num_peers : ℕ)
      → HasLowestScores num_peers s.peer_data (get_best_peers_for_redial s num_peers)
  unfolding get_best_peers_for_redial
  get_best_peers_for_redial-HasLowestScores s n =
      let sorted = sort_by_score (candidates s.peer_data) in
      record {
        chosen = take n sorted;
        left = drop n sorted;
        named = refl;
        perm = rw (take-append-drop n sorted) (sort_by_score-perm (candidates s.peer_data));
        redialable = All-take IsRedialable n sorted (
            sort_by_score-All IsRedialable (candidates s.peer_data)
              (candidates-IsRedialable s.peer_data));
        bounded = length-take-le n sorted;
        full = take_full n sorted;
        lowest = take-IsAscending n sorted (sort_by_score-IsAscending (candidates s.peer_data));
      }

  pub length-get_best_peers_for_redial :
      (s : PeerManager PeerId Multiaddr IdentifyInfo) (n : ℕ)
      → length (get_best_peers_for_redial s n) ≤ n
  length-get_best_peers_for_redial s n =
      let h = get_best_peers_for_redial-HasLowestScores s n in
      rw (← h.named) (rw (length-map (λ (a : PeerId × PeerData Multiaddr). a.0) h.chosen) h.bounded)

  -- The loop of `get_new_peers_for_dialling` returns the first peers of the set of new peers.
  pub get_new_peers_for_dialling-take :
      (s : PeerManager PeerId Multiaddr IdentifyInfo) (n : ℕ)
      → get_new_peers_for_dialling s n ≡ take n s.new_peers
  unfolding get_new_peers_for_dialling
  get_new_peers_for_dialling-take s n = take_new-take n n [] s.new_peers (omega arith)
