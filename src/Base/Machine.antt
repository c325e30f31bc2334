-- ===== src/Base/Machine.antt =====
-- Code that may panic, and the machine integers of the source: `u8`, `u32`, and `usize` of 64 bits.
use cl_p2p_setup.Base.Tests.{ltb, leb, if◌then◌else◌}
use Prim.Native.Nat.{ℕ, ◌+◌, ◌-◌, ◌*◌, ◌%◌, ◌^◌, ◌≤◌, ◌<◌}
use mathlib.Core.Path.{◌≡◌, refl, ap}
use native.Mathlib.Omega.{arith}

-- A call returns a value, or panics: a failed `unwrap`, `expect`, a `panic!`, an overflow.
pub data Outcome {ℓ} (A : Type ℓ) : Type ℓ where
  returns : A → Outcome A
  panics : Outcome A

infixl 5 ◌>>=◌
abbrev pub ◌>>=◌ {ℓ κ} : {A : Type ℓ} {B : Type κ} → Outcome A → (A → Outcome B) → Outcome B
returns a >>= f = f a
panics >>= f = panics

pub >>=-eq-returns {ℓ κ} :
    {A : Type ℓ} {B : Type κ} (m : Outcome A) (f : A → Outcome B) {b : B}
    → (m >>= f) ≡ returns b
    → (a : A) × (m ≡ returns a) × (f a ≡ returns b)
>>=-eq-returns (returns a) f h = (a, refl, h)
>>=-eq-returns panics f h = cc

pub returns-injective {ℓ} : {A : Type ℓ} {a b : A} → returns a ≡ returns b → a ≡ b
returns-injective {A} {a} h = ap (value a) h
  where
    value : A → Outcome A → A
    value d (returns x) = x
    value d panics = d

-- Whether the build checks arithmetic for overflow: rustc's default for a debug build, not for a
-- release build, where the result wraps around.
pub data Profile : Type 0 where
  checked wrapping : Profile

abbrev pub u8_mod : ℕ
u8_mod = 2 ^ 8

abbrev pub u32_mod : ℕ
u32_mod = 2 ^ 32

abbrev pub usize_mod : ℕ
usize_mod = 2 ^ 64

-- The value of an overflowing operation: `wrapped`, or a panic.
abbrev pub overflow : Profile → ℕ → Outcome ℕ
overflow checked wrapped = panics
overflow wrapping wrapped = returns wrapped

-- `a + b`, `a * b` and `a - b` on a machine integer type with `modulus` values.
abbrev pub add_word : ℕ → Profile → ℕ → ℕ → Outcome ℕ
add_word modulus profile a b =
    if ltb (a + b) modulus then returns (a + b) else overflow profile ((a + b) % modulus)

abbrev pub mul_word : ℕ → Profile → ℕ → ℕ → Outcome ℕ
mul_word modulus profile a b =
    if ltb (a * b) modulus then returns (a * b) else overflow profile ((a * b) % modulus)

abbrev pub sub_word : ℕ → Profile → ℕ → ℕ → Outcome ℕ
sub_word modulus profile a b =
    if leb b a then returns (a - b) else overflow profile ((a + modulus - b) % modulus)

module _ (modulus : ℕ) (profile : Profile) (a b : ℕ) where
  pub add_word-returns : a + b < modulus → add_word modulus profile a b ≡ returns (a + b)
  add_word-returns h = ground arith

  pub mul_word-returns : a * b < modulus → mul_word modulus profile a b ≡ returns (a * b)
  mul_word-returns h = ground arith

  pub sub_word-returns : b ≤ a → sub_word modulus profile a b ≡ returns (a - b)
  sub_word-returns h = ground arith

  pub sub_word-overflow :
      a < b → sub_word modulus profile a b ≡ overflow profile ((a + modulus - b) % modulus)
  sub_word-overflow h = ground arith
