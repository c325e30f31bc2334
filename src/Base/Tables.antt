-- ===== src/Base/Tables.antt =====
-- The hash maps and hash sets of the source, as lists in the order in which they iterate. The keys
-- of a map and the members of a set are distinct in the source; the operations keep them so.
use mathlib.Core.Path.{◌≡◌, refl}
use mathlib.Core.Logic.{ite, ◌≢◌, ◌⊎◌}
use mathlib.Core.Bool.{Bool, true, false}
use mathlib.Core.Option.{Option, none, some}
use mathlib.Core.List.{List, [], ◌∷◌, ◌++◌}
use native.Mathlib.Omega.{arith}
use cl_p2p_setup.Base.Lists.{All, All-map, is_some}
use cl_p2p_setup.Base.Tests.{if◌then◌else◌}

module _ {K V : Type 0} (eq : Discrete K) where
  -- `HashMap::get`.
  unfoldable pub lookup : K → List (K × V) → Option V
  lookup k [] = none
  lookup k ((j, v) ∷ m) = ite (eq j k) (some v) (lookup k m)

  -- `HashMap::insert`.
  unfoldable pub insert : K → V → List (K × V) → List (K × V)
  insert k v [] = (k, v) ∷ []
  insert k v ((j, w) ∷ m) = ite (eq j k) ((k, v) ∷ m) ((j, w) ∷ insert k v m)

  -- `HashMap::remove`.
  unfoldable pub remove : K → List (K × V) → List (K × V)
  remove k [] = []
  remove k ((j, w) ∷ m) = ite (eq j k) (remove k m) ((j, w) ∷ remove k m)

  pub lookup-insert :
      (k j : K) (v : V) (m : List (K × V))
      → lookup j (insert k v m) ≡ ite (eq k j) (some v) (lookup j m)
  unfolding lookup insert
  lookup-insert k j v [] = refl
  lookup-insert k j v ((i, w) ∷ m) = ground (arith, lookup-insert k j v m)

  pub lookup-insert_self : (k : K) (v : V) (m : List (K × V)) → lookup k (insert k v m) ≡ some v
  lookup-insert_self k v m = ground (arith, lookup-insert k k v m)

  pub lookup-insert_ne :
      (k j : K) (v : V) (m : List (K × V)) → k ≢ j → lookup j (insert k v m) ≡ lookup j m
  lookup-insert_ne k j v m h = ground (arith, lookup-insert k j v m)

  pub lookup-remove :
      (k j : K) (m : List (K × V)) → lookup j (remove k m) ≡ ite (eq k j) none (lookup j m)
  unfolding lookup remove
  lookup-remove k j [] = ground arith
  lookup-remove k j ((i, w) ∷ m) = ground (arith, lookup-remove k j m)

module _ {K : Type 0} (eq : Discrete K) where
  -- `HashSet::contains`.
  unfoldable pub contains : K → List K → Bool
  contains k [] = false
  contains k (j ∷ s) = ite (eq j k) true (contains k s)

  -- `HashSet::insert`.
  unfoldable pub add : K → List K → List K
  unfolding contains
  add k s = if contains k s then s else s ++ k ∷ []

  -- `HashSet::remove`.
  unfoldable pub discard : K → List K → List K
  discard k [] = []
  discard k (j ∷ s) = ite (eq j k) (discard k s) (j ∷ discard k s)

  -- `HashSet::extend`.
  unfoldable pub extend : List K → List K → List K
  extend s [] = s
  extend s (k ∷ ks) = extend (add k s) ks

  contains-snoc :
      (k j : K) (s : List K) → contains j (s ++ k ∷ []) ≡ ite (eq k j) true (contains j s)
  unfolding contains
  contains-snoc k j [] = refl
  contains-snoc k j (i ∷ s) = ground (arith, contains-snoc k j s)

  pub contains-add :
      (k j : K) (s : List K) → contains j (add k s) ≡ ite (eq k j) true (contains j s)
  unfolding add
  contains-add k j s = ground (arith, contains-snoc k j s)

  pub contains-discard :
      (k j : K) (s : List K) → contains j (discard k s) ≡ ite (eq k j) false (contains j s)
  unfolding contains discard
  contains-discard k j [] = ground arith
  contains-discard k j (i ∷ s) = ground (arith, contains-discard k j s)

  pub contains_of_discard :
      (k j : K) (s : List K) → contains j (discard k s) ≡ true → contains j s ≡ true
  contains_of_discard k j s h = ground (arith, contains-discard k j s)

  pub contains_of_add :
      (k j : K) (s : List K) → contains j (add k s) ≡ true → (contains j s ≡ true) ⊎ (k ≡ j)
  contains_of_add k j s h = ground (arith, contains-add k j s)

  pub contains-All : (s : List K) → All (λ k. contains k s ≡ true) s
  unfolding contains
  contains-All [] = tt
  contains-All (k ∷ s) = (ground arith, All-map _ _ s (λ j h. ground arith) (contains-All s))

module _ {K V : Type 0} (eq : Discrete K) where
  -- Each entry's key is found.
  pub lookup-All : (m : List (K × V)) → All (λ (e : K × V). is_some (lookup eq e.0 m) ≡ true) m
  unfolding lookup
  lookup-All [] = tt
  lookup-All ((k, v) ∷ m) = (ground arith, All-map _ _ m (λ e h. ground arith) (lookup-All m))
