-- ===== src/Base/Bits.antt =====
-- Bitwise operations, one binary digit at a time: masks and disjoint unions.
use Prim.Native.Nat.{
  ℕ, zero, suc, ◌+◌, ◌*◌, ◌/◌, ◌%◌, ◌^◌, ◌≤◌, ◌<◌, min, max, bit_and, bit_or, digits,
  bit_and-bitwise, bit_or-bitwise,
}
use mathlib.Core.Path.{◌≡◌, refl}
use mathlib.Core.Bool.{Bool, true, ◌&&◌}
use c_roblib.Base.Tests.{◌==◌, ==_iff}
use native.Mathlib.Omega.{arith}
use native.Mathlib.Decide.{dec_lt}

-- Every value from `from` on, for `count` values: a table that evaluation goes through.
passes : (ℕ → Bool) → ℕ → ℕ → Bool
passes p from zero = true
passes p from (suc count) = p from && passes p (from + 1) count

passes_at :
    (p : ℕ → Bool) (from count : ℕ) {x : ℕ}
    → passes p from count ≡ true
    → from ≤ x
    → x < from + count
    → p x ≡ true
unfolding passes
passes_at p from zero table lo hi = absurd (omega arith)
passes_at p from (suc count) {x = x} table lo hi = elim (dec_lt from x) [
  | yes later ↦ passes_at p (from + 1) count (ground arith) (omega arith) (omega arith)
  | no same ↦ let e : x ≡ from = omega arith in rw e (ground arith)
]

-- The native operations count the digits of their first number down from that number itself. Any
-- count from there on gives the same, and so the lowest digit can be taken off.
module _ (z : ℕ → ℕ) (f : ℕ → ℕ → ℕ) where
  spare_count : (a b k : ℕ) {n : ℕ} → a ≤ k → k ≤ n → digits z f n a b ≡ digits z f k a b
  spare_count zero b zero {n = zero} lo hi = refl
  spare_count zero b zero {n = suc n} lo hi = refl
  spare_count zero b (suc k) {n = zero} lo hi = refl
  spare_count zero b (suc k) {n = suc n} lo hi = refl
  spare_count (suc a) b zero lo hi = absurd (omega arith)
  spare_count (suc a) b (suc k) {n = zero} lo hi = absurd (omega arith)
  spare_count (suc a) b (suc k) {n = suc n} lo hi =
      let half = spare_count (suc a / 2) (b / 2) k {n = n} (omega arith) (omega arith) in
      omega (arith, half)

  lowest_digit :
      (a b : ℕ)
      → z b ≡ z (b / 2) * 2 + f 0 (b % 2)
      → digits z f a a b ≡ digits z f (a / 2) (a / 2) (b / 2) * 2 + f (a % 2) (b % 2)
  lowest_digit zero b run_out = run_out
  lowest_digit (suc a) b run_out =
      let rest = spare_count (suc a / 2) (b / 2) (suc a / 2) {n = a} (omega arith) (omega arith) in
      omega (arith, rest)

pub bit_and_step : (a b : ℕ) → bit_and a b ≡ bit_and (a / 2) (b / 2) * 2 + min (a % 2) (b % 2)
bit_and_step a b =
    rw (bit_and-bitwise a b, bit_and-bitwise (a / 2) (b / 2))
      (lowest_digit (λ _. 0) min a b (omega arith))

pub bit_and-zero : (a : ℕ) → bit_and a 0 ≡ 0
bit_and-zero a = halve (suc a) a (omega arith)
  where
    halve : (bound a : ℕ) → a < bound → bit_and a 0 ≡ 0
    halve zero a h = absurd (omega arith)
    halve (suc bound) a h = elim (dec_lt 0 a) [
      | yes some_left ↦ omega (arith, bit_and_step a 0, halve bound (a / 2) (omega arith))
      | no none_left ↦ let e : a ≡ 0 = omega arith in rw e refl
    ]

-- A mask of k ones is a remainder.
bit_and-one : (a : ℕ) → bit_and a 1 ≡ a % 2
bit_and-one a = omega (arith, bit_and_step a 1, bit_and-zero (a / 2))

bit_and-three : (a : ℕ) → bit_and a 3 ≡ a % 4
bit_and-three a = omega (arith, bit_and_step a 3, bit_and-one (a / 2))

pub bit_and-seven : (a : ℕ) → bit_and a 7 ≡ a % 8
bit_and-seven a = omega (arith, bit_and_step a 7, bit_and-three (a / 2))

pub bit_and-fifteen : (a : ℕ) → bit_and a 15 ≡ a % 16
bit_and-fifteen a = omega (arith, bit_and_step a 15, bit_and-seven (a / 2))

pub bit_and-31 : (a : ℕ) → bit_and a 31 ≡ a % 32
bit_and-31 a = omega (arith, bit_and_step a 31, bit_and-fifteen (a / 2))

pub bit_and-63 : (a : ℕ) → bit_and a 63 ≡ a % 64
bit_and-63 a = omega (arith, bit_and_step a 63, bit_and-31 (a / 2))

pub bit_or_step : (a b : ℕ) → bit_or a b ≡ bit_or (a / 2) (b / 2) * 2 + max (a % 2) (b % 2)
bit_or_step a b =
    rw (bit_or-bitwise a b, bit_or-bitwise (a / 2) (b / 2))
      (lowest_digit (λ c. c) max a b (omega arith))

pub bit_or-zero : (a : ℕ) → bit_or a 0 ≡ a
bit_or-zero a = halve (suc a) a (omega arith)
  where
    halve : (bound a : ℕ) → a < bound → bit_or a 0 ≡ a
    halve zero a h = absurd (omega arith)
    halve (suc bound) a h = elim (dec_lt 0 a) [
      | yes some_left ↦ omega (arith, bit_or_step a 0, halve bound (a / 2) (omega arith))
      | no none_left ↦ let e : a ≡ 0 = omega arith in rw e refl
    ]

pub zero-bit_or : (b : ℕ) → bit_or 0 b ≡ b
zero-bit_or b = bit_or-bitwise 0 b

bit_or-double : (n a b : ℕ) → n ≡ a * 2 → bit_or n b ≡ bit_or a (b / 2) * 2 + b % 2
bit_or-double n a b e = let h : n / 2 ≡ a = omega arith in omega (arith, rw h at (bit_or_step n b))

-- Fields of six bits that do not overlap add up.
pub bit_or-disjoint : (a b : ℕ) → b < 64 → bit_or (a * 64) b ≡ a * 64 + b
bit_or-disjoint a b h = omega (
  arith,
  bit_or-double (a * 64) (a * 32) b (omega arith),
  bit_or-double (a * 32) (a * 16) (b / 2) (omega arith),
  bit_or-double (a * 16) (a * 8) (b / 2 / 2) (omega arith),
  bit_or-double (a * 8) (a * 4) (b / 2 / 2 / 2) (omega arith),
  bit_or-double (a * 4) (a * 2) (b / 2 / 2 / 2 / 2) (omega arith),
  bit_or-double (a * 2) a (b / 2 / 2 / 2 / 2 / 2) (omega arith),
  small,
)
  where
    small : bit_or a (b / 2 / 2 / 2 / 2 / 2 / 2) ≡ a
    small = let e : b / 2 / 2 / 2 / 2 / 2 / 2 ≡ 0 = omega arith in rw e (bit_or-zero a)

-- Likewise for a field of four bits.
pub bit_or-disjoint_4 : (a b : ℕ) → b < 16 → bit_or (a * 16) b ≡ a * 16 + b
bit_or-disjoint_4 a b h = omega (
  arith,
  bit_or-double (a * 16) (a * 8) b (omega arith),
  bit_or-double (a * 8) (a * 4) (b / 2) (omega arith),
  bit_or-double (a * 4) (a * 2) (b / 2 / 2) (omega arith),
  bit_or-double (a * 2) a (b / 2 / 2 / 2) (omega arith),
  small,
)
  where
    small : bit_or a (b / 2 / 2 / 2 / 2) ≡ a
    small = let e : b / 2 / 2 / 2 / 2 ≡ 0 = omega arith in rw e (bit_or-zero a)

bit_or-even : (n m a b : ℕ) → n ≡ a * 2 → m ≡ b * 2 → bit_or n m ≡ bit_or a b * 2
bit_or-even n m a b e f =
    let g : n / 2 ≡ a = omega arith in
    let h : m / 2 ≡ b = omega arith in omega (arith, rw (g, h) at (bit_or_step n m))

-- A shift by six places.
pub bit_or-shift : (a b : ℕ) → bit_or (a * 64) (b * 64) ≡ bit_or a b * 64
bit_or-shift a b = omega (
  arith,
  bit_or-even (a * 64) (b * 64) (a * 32) (b * 32) (omega arith) (omega arith),
  bit_or-even (a * 32) (b * 32) (a * 16) (b * 16) (omega arith) (omega arith),
  bit_or-even (a * 16) (b * 16) (a * 8) (b * 8) (omega arith) (omega arith),
  bit_or-even (a * 8) (b * 8) (a * 4) (b * 4) (omega arith) (omega arith),
  bit_or-even (a * 4) (b * 4) (a * 2) (b * 2) (omega arith) (omega arith),
  bit_or-even (a * 2) (b * 2) a b (omega arith) (omega arith),
)

mark_table : passes (λ x. bit_or 0x80 x == 0x80 + x) 0 64 ≡ true
unfolding passes
mark_table = refl

-- The marks of UTF-8 bytes, over the values that they are put on.
pub bit_or-0x80 : (x : ℕ) → x < 64 → bit_or 0x80 x ≡ 0x80 + x
bit_or-0x80 x h = (==_iff _ _).0 (passes_at _ 0 64 mark_table (omega arith) h)

lead2_table : passes (λ x. bit_or 0xc0 x == 0xc0 + x) 0 32 ≡ true
unfolding passes
lead2_table = refl

pub bit_or-0xc0 : (x : ℕ) → x < 32 → bit_or 0xc0 x ≡ 0xc0 + x
bit_or-0xc0 x h = (==_iff _ _).0 (passes_at _ 0 32 lead2_table (omega arith) h)

lead3_table : passes (λ x. bit_or 0xe0 x == 0xe0 + x) 0 16 ≡ true
unfolding passes
lead3_table = refl

pub bit_or-0xe0 : (x : ℕ) → x < 16 → bit_or 0xe0 x ≡ 0xe0 + x
bit_or-0xe0 x h = (==_iff _ _).0 (passes_at _ 0 16 lead3_table (omega arith) h)

lead4_table : passes (λ x. bit_or 0xf0 x == 0xf0 + x) 0 8 ≡ true
unfolding passes
lead4_table = refl

pub bit_or-0xf0 : (x : ℕ) → x < 8 → bit_or 0xf0 x ≡ 0xf0 + x
bit_or-0xf0 x h = (==_iff _ _).0 (passes_at _ 0 8 lead4_table (omega arith) h)

low_table :
    passes
      (λ x. (bit_and 0x3f x == x % 64) && (bit_and 0x1f x == x % 32) && (bit_and 0x0f x == x % 16))
      0
      256
    ≡ true
unfolding passes
low_table = refl

-- The masks that the decoder puts on a byte.
pub byte_masks :
    (x : ℕ)
    → x < 256
    → (bit_and 0x3f x ≡ x % 64) × (bit_and 0x1f x ≡ x % 32) × (bit_and 0x0f x ≡ x % 16)
byte_masks x h = let t = passes_at _ 0 256 low_table (omega arith) h in ground arith

-- A mask bounds what it leaves.
pub bit_and_bound : (a b : ℕ) → bit_and a b ≤ b
bit_and_bound a b = halve (suc b) a b (omega arith)
  where
    halve : (bound a b : ℕ) → b < bound → bit_and a b ≤ b
    halve zero a b h = absurd (omega arith)
    halve (suc bound) a b h = elim (dec_lt 0 b) [
      | yes some_left ↦ omega (arith, bit_and_step a b, halve bound (a / 2) (b / 2) (omega arith))
      | no none_left ↦ let e : b ≡ 0 = omega arith in rw (e, bit_and-zero a) (omega arith)
    ]

-- A union is at least its first part, and below any power of two that its parts are below.
pub bit_or_least : (a b : ℕ) → a ≤ bit_or a b
bit_or_least a b = halve (suc a) a b (omega arith)
  where
    halve : (bound a b : ℕ) → a < bound → a ≤ bit_or a b
    halve zero a b h = absurd (omega arith)
    halve (suc bound) a b h = elim (dec_lt 0 a) [
      | yes some_left ↦ omega (arith, bit_or_step a b, halve bound (a / 2) (b / 2) (omega arith))
      | no none_left ↦ omega arith
    ]

pub bit_or_below : (k a b : ℕ) → a < 2 ^ k → b < 2 ^ k → bit_or a b < 2 ^ k
bit_or_below zero a b h g =
    let e : a ≡ 0 = omega arith in let f : b ≡ 0 = omega arith in rw (e, f) (omega arith)
bit_or_below (suc k) a b h g =
    let half = bit_or_below k (a / 2) (b / 2) (omega arith) (omega arith) in
    omega (arith, bit_or_step a b, half)
