-- ===== src/Rpc/Handler/Table.antt =====
-- rpc/handler.rs: the two maps of streams by id, with a statement that holds of each entry.
use cl_p2p_setup.Base.{
  suc, ◌≤◌, length, ◌≡◌, ◌≢◌, sym, Option, none, some, List, [], ◌∷◌, ite, subst, ap, ℕ_discrete,
  arith,
}
use cl_p2p_setup.Base.Lists.{All}
use cl_p2p_setup.Base.Tables.{lookup, insert, remove}
use cl_p2p_setup.Rpc.Handler.{SubstreamId}

ite_elim :
    {A X : Type 0} (d : Dec A) (P : X → Type 0) {x y : X} → (A → P x) → (¬ A → P y) → P (ite d x y)
ite_elim (yes a) P f g = f a
ite_elim (no n) P f g = g n

module _ {V : Type 0} where
  -- `P` holds of each key.
  abbrev pub AllKeys : (SubstreamId → Type 0) → List (SubstreamId × V) → Type 0
  AllKeys P m = All (λ (e : SubstreamId × V). P e.0) m

  -- `id` is not a key of the map.
  abbrev pub IsAbsent : SubstreamId → List (SubstreamId × V) → Type 0
  IsAbsent id m = AllKeys (λ j. j ≢ id) m

  -- The keys are distinct, and `P` holds of each entry.
  abbrev pub IsTable : (SubstreamId → V → Type 0) → List (SubstreamId × V) → Type 0
  IsTable P [] = Unit
  IsTable P ((id, v) ∷ m) = P id v × IsAbsent id m × IsTable P m

  -- What holds of an entry `(id, v)` carries over from `P` to `Q`, but for the key `id`.
  abbrev pub Carries : (P Q : SubstreamId → V → Type 0) → SubstreamId → Type 0
  Carries P Q id = (j : SubstreamId) (v : V) → j ≢ id → P j v → Q j v

  pub absent-IsTable :
      (P Q : SubstreamId → V → Type 0) (id : SubstreamId) (m : List (SubstreamId × V))
      → Carries P Q id
      → IsAbsent id m
      → IsTable P m
      → IsTable Q m
  absent-IsTable P Q id [] f a h = tt
  absent-IsTable P Q id ((j, v) ∷ m) f a h = (f j v a.0 h.0, h.1, absent-IsTable P Q id m f a.1 h.2)

  lookup-none-IsAbsent :
      (id : SubstreamId) (m : List (SubstreamId × V))
      → lookup ℕ_discrete id m ≡ none
      → IsAbsent id m
  unfolding lookup
  lookup-none-IsAbsent id [] h = tt
  lookup-none-IsAbsent id ((j, v) ∷ m) h = (ground arith, lookup-none-IsAbsent id m (ground arith))

  pub map-IsTable :
      (P Q : SubstreamId → V → Type 0) (m : List (SubstreamId × V))
      → ((j : SubstreamId) (v : V) → P j v → Q j v)
      → IsTable P m
      → IsTable Q m
  map-IsTable P Q [] f h = tt
  map-IsTable P Q ((j, v) ∷ m) f h = (f j v h.0, h.1, map-IsTable P Q m f h.2)

  pub lookup-none-IsTable :
      (P Q : SubstreamId → V → Type 0) (id : SubstreamId) (m : List (SubstreamId × V))
      → Carries P Q id
      → lookup ℕ_discrete id m ≡ none
      → IsTable P m
      → IsTable Q m
  lookup-none-IsTable P Q id m f e h = absent-IsTable P Q id m f (lookup-none-IsAbsent id m e) h

  pub insert-AllKeys :
      (P : SubstreamId → Type 0) (id : SubstreamId) (v : V) (m : List (SubstreamId × V))
      → P id
      → AllKeys P m
      → AllKeys P (insert ℕ_discrete id v m)
  unfolding insert
  insert-AllKeys P id v [] p a = (p, tt)
  insert-AllKeys P id v ((j, w) ∷ m) p a =
      ite_elim (ℕ_discrete j id) (AllKeys P) (λ e. (p, a.1))
        (λ ne. (a.0, insert-AllKeys P id v m p a.1))

  pub remove-AllKeys :
      (P : SubstreamId → Type 0) (id : SubstreamId) (m : List (SubstreamId × V))
      → AllKeys P m
      → AllKeys P (remove ℕ_discrete id m)
  unfolding remove
  remove-AllKeys P id [] a = tt
  remove-AllKeys P id ((j, w) ∷ m) a =
      ite_elim (ℕ_discrete j id) (AllKeys P) (λ e. remove-AllKeys P id m a.1)
        (λ ne. (a.0, remove-AllKeys P id m a.1))

  -- The key of an entry that is there satisfies what all do.
  pub lookup-AllKeys :
      (P : SubstreamId → Type 0) (id : SubstreamId) (v : V) (m : List (SubstreamId × V))
      → lookup ℕ_discrete id m ≡ some v
      → AllKeys P m
      → P id
  unfolding lookup
  lookup-AllKeys P id v [] e a = cc
  lookup-AllKeys P id v ((j, w) ∷ m) e a =
      found (ℕ_discrete j id) e (λ e'. lookup-AllKeys P id v m e' a.1)
    where
      found :
          (d : Dec (j ≡ id))
          → ite d (some w) (lookup ℕ_discrete id m) ≡ some v
          → (lookup ℕ_discrete id m ≡ some v → P id)
          → P id
      found (yes k) e' later = subst P k a.0
      found (no ne) e' later = later e'

  pub length-insert_le :
      (id : SubstreamId) (v : V) (m : List (SubstreamId × V))
      → length (insert ℕ_discrete id v m) ≤ suc (length m)
  unfolding insert
  length-insert_le id v [] = ground arith
  length-insert_le id v ((j, w) ∷ m) = ground (arith, length-insert_le id v m)

  pub length-insert_found :
      (id : SubstreamId) (u v : V) (m : List (SubstreamId × V))
      → lookup ℕ_discrete id m ≡ some u
      → length (insert ℕ_discrete id v m) ≡ length m
  unfolding insert lookup
  length-insert_found id u v [] e = cc
  length-insert_found id u v ((j, w) ∷ m) e = ground (arith, length-insert_found id u v m)

  pub insert-IsTable :
      (P Q : SubstreamId → V → Type 0) (id : SubstreamId) (v : V) (m : List (SubstreamId × V))
      → Carries P Q id
      → Q id v
      → IsTable P m
      → IsTable Q (insert ℕ_discrete id v m)
  unfolding insert
  insert-IsTable P Q id v [] f q h = (q, tt, tt)
  insert-IsTable P Q id v ((j, w) ∷ m) f q h =
      ite_elim (ℕ_discrete j id) (IsTable Q)
        (λ e.
          let a : IsAbsent id m = subst (λ k. IsAbsent k m) e h.1 in
          (q, a, absent-IsTable P Q id m f a h.2))
        (λ ne. (
          f j w ne h.0,
          insert-AllKeys (λ i. i ≢ j) id v m (λ e. ne (sym e)) h.1,
          insert-IsTable P Q id v m f q h.2,
        ))

  pub remove-IsTable :
      (P Q : SubstreamId → V → Type 0) (id : SubstreamId) (m : List (SubstreamId × V))
      → Carries P Q id
      → IsTable P m
      → IsTable Q (remove ℕ_discrete id m)
  unfolding remove
  remove-IsTable P Q id [] f h = tt
  remove-IsTable P Q id ((j, w) ∷ m) f h =
      ite_elim (ℕ_discrete j id) (IsTable Q) (λ e. remove-IsTable P Q id m f h.2)
        (λ ne. (f j w ne h.0, remove-AllKeys (λ i. i ≢ j) id m h.1, remove-IsTable P Q id m f h.2))

  pub lookup-IsTable :
      (P : SubstreamId → V → Type 0) (id : SubstreamId) (v : V) (m : List (SubstreamId × V))
      → lookup ℕ_discrete id m ≡ some v
      → IsTable P m
      → P id v
  unfolding lookup
  lookup-IsTable P id v [] e h = cc
  lookup-IsTable P id v ((j, w) ∷ m) e h =
      found (ℕ_discrete j id) e (λ e'. lookup-IsTable P id v m e' h.2)
    where
      value : Option V → V
      value none = v
      value (some u) = u

      found :
          (d : Dec (j ≡ id))
          → ite d (some w) (lookup ℕ_discrete id m) ≡ some v
          → (lookup ℕ_discrete id m ≡ some v → P id v)
          → P id v
      found (yes k) e' later = subst (λ i. P i v) k (subst (P j) (ap value e') h.0)
      found (no ne) e' later = later e'
