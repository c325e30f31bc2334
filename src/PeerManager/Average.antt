-- ===== src/PeerManager/Average.antt =====
-- peer_manager.rs: the average connection duration.
use Prim.Native.Nat.{min, max}
use native.Mathlib.Nat.{mod-eq_of_lt, mul-le-mul_right}
use cl_p2p_setup.Base.{
  ℕ, zero, suc, ◌+◌, ◌-◌, ◌*◌, ◌/◌, ◌≤◌, ◌<◌, ◌≡◌, some, List, [], ◌∷◌, length, last, arith, dec_lt,
}
use cl_p2p_setup.Base.Machine.{
  returns, Profile, usize_mod, add_word-returns, mul_word-returns, sub_word-returns,
}
use cl_p2p_setup.PeerManager.{
  ConnectionData, PeerData, as_millis, new_duration, average_with,
  update_average_connection_duration,
}

-- `q` is the mean, rounded down, of `attempts - 1` durations of `old` and one of `millis`.
abbrev pub IsMean : ℕ → ℕ → ℕ → ℕ → Type 0
IsMean old millis attempts q =
    (q * attempts ≤ old * (attempts - 1) + millis)
    × (old * (attempts - 1) + millis < (q + 1) * attempts)

average_with-returns :
    (profile : Profile) (old attempts millis : ℕ)
    → 0 < attempts
    → old * (attempts - 1) + millis < usize_mod
    → average_with profile (some old) attempts millis
      ≡ returns ((old * (attempts - 1) + millis) / attempts)
unfolding average_with
average_with-returns profile old attempts millis pos fits = rw (
  sub_word-returns usize_mod profile attempts 1 pos,
  mul_word-returns usize_mod profile old (attempts - 1) (omega arith),
  mod-eq_of_lt {n = millis} {m = usize_mod} (omega arith),
  add_word-returns usize_mod profile (old * (attempts - 1)) millis fits,
)

IsMean-of_div :
    (old millis attempts : ℕ)
    → 0 < attempts
    → IsMean old millis attempts ((old * (attempts - 1) + millis) / attempts)
IsMean-of_div old millis attempts pos = (grind arith, grind arith)

mean_between :
    (old millis k q lo hi : ℕ)
    → q * suc k ≤ old * k + millis
    → old * k + millis < (q + 1) * suc k
    → lo ≤ old
    → lo ≤ millis
    → old ≤ hi
    → millis ≤ hi
    → (lo ≤ q) × (q ≤ hi)
mean_between old millis k q lo hi below above a b c d = (
  elim (dec_lt q lo) [
    | yes h ↦ absurd (omega (arith, mul-le-mul_right (suc k) h, mul-le-mul_right k a))
    | no h ↦ omega arith
  ],
  elim (dec_lt hi q) [
    | yes h ↦ absurd (omega (arith, mul-le-mul_right (suc k) h, mul-le-mul_right k c))
    | no h ↦ omega arith
  ],
)

pos-length : {A : Type 0} (l : List A) {a : A} → last l ≡ some a → 0 < length l
pos-length [] e = cc
pos-length (x ∷ l) e = omega arith

mean_in_range :
    (old millis attempts q : ℕ)
    → 0 < attempts
    → IsMean old millis attempts q
    → (min old millis ≤ q) × (q ≤ max old millis)
mean_in_range old millis zero q pos mean = absurd (omega arith)
mean_in_range old millis (suc k) q pos mean =
    let e : suc k - 1 ≡ k = omega arith in
    let (below, above) = rw e at mean in
    mean_between old millis k q (min old millis) (max old millis) below above (omega arith)
      (omega arith) (omega arith) (omega arith)

module _ {Multiaddr : Type 0} where
  -- For a peer that has an average, and whose last attempt has ended, with a duration of `nanos`
  -- (zero for a failure), `update_average_connection_duration` does not panic as long as the sum
  -- fits a `usize`, in either build, and writes only the average: the mean of the old average,
  -- counted for all attempts but the last, and the new duration in milliseconds, rounded down. It
  -- lies between the two.
  pub update_average_connection_duration-IsMean :
      (profile : Profile) (d : PeerData Multiaddr) (c : ConnectionData) (nanos old : ℕ)
      → last d.connection_history ≡ some c
      → new_duration c ≡ returns nanos
      → d.average_connection_duration ≡ some old
      → old * (length d.connection_history - 1) + as_millis nanos < usize_mod
      → (q : ℕ) × (update_average_connection_duration profile d
          ≡ returns (record d { average_connection_duration = some q }))
        × IsMean old (as_millis nanos) (length d.connection_history) q
        × (min old (as_millis nanos) ≤ q)
        × (q ≤ max old (as_millis nanos))
  unfolding update_average_connection_duration
  update_average_connection_duration-IsMean profile d c nanos old e e' e'' fits =
      let attempts = length d.connection_history in
      let pos = pos-length d.connection_history e in
      let mean = IsMean-of_div old (as_millis nanos) attempts pos in
      let range = mean_in_range old (as_millis nanos) attempts _ pos mean in
      (
        (old * (attempts - 1) + as_millis nanos) / attempts,
        ground (arith, average_with-returns profile old attempts (as_millis nanos) pos fits),
        mean,
        range.0,
        range.1,
      )
