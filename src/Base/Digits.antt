-- ===== src/Base/Digits.antt =====
-- Words, one binary digit at a time.
use Prim.Native.Nat.{
  ℕ, zero, suc, ◌-◌, ◌+◌, ◌*◌, ◌/◌, ◌%◌, ◌^◌, ◌≤◌, ◌<◌, min, max, bit_and, bit_or,
}
use mathlib.Core.Path.{◌≡◌, refl, sym, ap, ◌∙◌}
use mathlib.Core.Logic.{◌≢◌}
use native.Mathlib.Omega.{arith}
use native.Mathlib.Decide.{dec_lt}
use native.Mathlib.Nat.{
  div-mul-le_self, one-le-pow, pow-succ', div-div-eq-div-mul, mul_assoc, mul_comm, pow-le-pow_right,
}
use c_roblib.Base.Bits.{bit_and_bound, bit_and_step, bit_and-zero, bit_or_step}

unfoldable pub digit : ℕ → ℕ → ℕ
digit word zero = word % 2
digit word (suc i) = digit (word / 2) i

pub digit_below : (word i : ℕ) → digit word i < 2
unfolding digit
digit_below word zero = omega arith
digit_below word (suc i) = digit_below (word / 2) i

pub bit_and-power : (word i : ℕ) → bit_and word (2 ^ i) ≡ digit word i * 2 ^ i
unfolding digit
bit_and-power word zero = rw (bit_and_step word 1, bit_and-zero (word / 2)) (omega arith)
bit_and-power word (suc i) =
    let half : 2 ^ suc i / 2 ≡ 2 ^ i = omega arith in
    rw (bit_and_step word (2 ^ suc i), half, bit_and-power (word / 2) i) (grind arith)

pub digit-bit_or : (a b i : ℕ) → digit (bit_or a b) i ≡ max (digit a i) (digit b i)
unfolding digit
digit-bit_or a b zero = rw (bit_or_step a b) (omega arith)
digit-bit_or a b (suc i) =
    let half : bit_or a b / 2 ≡ bit_or (a / 2) (b / 2) = rw (bit_or_step a b) (omega arith) in
    rw half (digit-bit_or (a / 2) (b / 2) i)

pub digit-bit_and : (a b i : ℕ) → digit (bit_and a b) i ≡ min (digit a i) (digit b i)
unfolding digit
digit-bit_and a b zero = rw (bit_and_step a b) (omega arith)
digit-bit_and a b (suc i) =
    let half : bit_and a b / 2 ≡ bit_and (a / 2) (b / 2) = rw (bit_and_step a b) (omega arith) in
    rw half (digit-bit_and (a / 2) (b / 2) i)

pub digit-power_self : (i : ℕ) → digit (2 ^ i) i ≡ 1
unfolding digit
digit-power_self zero = refl
digit-power_self (suc i) =
    let half : 2 ^ suc i / 2 ≡ 2 ^ i = omega arith in rw half (digit-power_self i)

digit-zero : (i : ℕ) → digit 0 i ≡ 0
unfolding digit
digit-zero zero = refl
digit-zero (suc i) = digit-zero i

pub digit-power_ne : (i j : ℕ) → i ≢ j → digit (2 ^ i) j ≡ 0
unfolding digit
digit-power_ne zero zero h = absurd (h refl)
digit-power_ne zero (suc j) h = digit-zero j
digit-power_ne (suc i) zero h = omega arith
digit-power_ne (suc i) (suc j) h =
    let half : 2 ^ suc i / 2 ≡ 2 ^ i = omega arith in
    rw half (digit-power_ne i j (λ e. h (ap suc e)))

pub digit-complement : (k m i : ℕ) → m < 2 ^ k → i < k → digit (2 ^ k - 1 - m) i ≡ 1 - digit m i
unfolding digit
digit-complement zero m i small h = absurd (omega arith)
digit-complement (suc k) m zero small h = omega arith
digit-complement (suc k) m (suc i) small h =
    let half : (2 ^ suc k - 1 - m) / 2 ≡ 2 ^ k - 1 - m / 2 = omega arith in
    rw half (digit-complement k (m / 2) i (omega arith) (omega arith))

-- Numbers below 2 ^ k with the same digits are equal.
pub digit_ext :
    (k a b : ℕ) → a < 2 ^ k → b < 2 ^ k → ((i : ℕ) → i < k → digit a i ≡ digit b i) → a ≡ b
unfolding digit
digit_ext zero a b ha hb same = omega arith
digit_ext (suc k) a b ha hb same =
    let low : a % 2 ≡ b % 2 = same 0 (omega arith) in
    let high =
      digit_ext k (a / 2) (b / 2) (omega arith) (omega arith) (λ i h. same (suc i) (omega arith)) in
    omega (arith, high)

-- The digits of 2 ^ n - 1.
pub digit-ones_low : (n i : ℕ) → i < n → digit (2 ^ n - 1) i ≡ 1
unfolding digit
digit-ones_low zero i h = absurd (omega arith)
digit-ones_low (suc n) zero h = omega (arith, one-le-pow n 2 (omega arith))
digit-ones_low (suc n) (suc i) h =
    let half : (2 ^ suc n - 1) / 2 ≡ 2 ^ n - 1 = omega (arith, one-le-pow n 2 (omega arith)) in
    rw half (digit-ones_low n i (omega arith))

pub digit_beyond : (n w i : ℕ) → w < 2 ^ n → n ≤ i → digit w i ≡ 0
unfolding digit
digit_beyond zero w zero h k = omega arith
digit_beyond zero w (suc i) h k = digit_beyond zero (w / 2) i (omega arith) (omega arith)
digit_beyond (suc n) w zero h k = absurd (omega arith)
digit_beyond (suc n) w (suc i) h k = digit_beyond n (w / 2) i (omega arith) (omega arith)

pub digit-ones_high : (n i : ℕ) → n ≤ i → digit (2 ^ n - 1) i ≡ 0
digit-ones_high n i h = digit_beyond n (2 ^ n - 1) i (omega (arith, one-le-pow n 2 (omega arith))) h

-- The digits of a quotient by a power.
pub digit-shift : (w s i k : ℕ) → k ≡ i + s → digit (w / 2 ^ s) i ≡ digit w k
unfolding digit
digit-shift w zero i k e =
    let e' : i ≡ k = omega arith in let one : w / 2 ^ 0 ≡ w = omega arith in rw (one, e') refl
digit-shift w (suc s) i zero e = absurd (omega arith)
digit-shift w (suc s) i (suc k) e =
    let half : w / 2 ^ suc s ≡ w / 2 / 2 ^ s =
      rw (pow-succ' 2 s) (sym (div-div-eq-div-mul w 2 (2 ^ s))) in
    rw half (digit-shift (w / 2) s i k (omega arith))

double-scaled : (y k : ℕ) → y * 2 ^ suc k ≡ y * 2 ^ k * 2
double-scaled y k = rw (pow-succ' 2 k, mul_comm 2 (2 ^ k)) (sym (mul_assoc y (2 ^ k) 2))

-- The digits of a multiple of a power.
pub digit-scaled_low : (y k i : ℕ) → i < k → digit (y * 2 ^ k) i ≡ 0
unfolding digit
digit-scaled_low y zero i h = absurd (omega arith)
digit-scaled_low y (suc k) zero h = rw (double-scaled y k) (omega arith)
digit-scaled_low y (suc k) (suc i) h =
    let half : y * 2 ^ suc k / 2 ≡ y * 2 ^ k = rw (double-scaled y k) (omega arith) in
    rw half (digit-scaled_low y k i (omega arith))

pub digit-scaled_high : (y k i j : ℕ) → i ≡ j + k → digit (y * 2 ^ k) i ≡ digit y j
unfolding digit
digit-scaled_high y zero i j e =
    let one : y * 2 ^ 0 ≡ y = omega arith in let same : i ≡ j = omega arith in rw (one, same) refl
digit-scaled_high y (suc k) zero j e = absurd (omega arith)
digit-scaled_high y (suc k) (suc i) j e =
    let half : y * 2 ^ suc k / 2 ≡ y * 2 ^ k = rw (double-scaled y k) (omega arith) in
    rw half (digit-scaled_high y k i j (omega arith))

-- `x & ~(2 ^ k - 1)` on 64 bits.
pub bit_and-clear_low :
    (k x : ℕ) → k < 64 → x < 2 ^ 64 → bit_and x (2 ^ 64 - 1 - (2 ^ k - 1)) ≡ x / 2 ^ k * 2 ^ k
bit_and-clear_low k x hk hx =
    let small : 2 ^ k - 1 < 2 ^ 64 =
      let power : 2 ^ k ≤ 2 ^ 64 =
        pow-le-pow_right {n = 2} (omega arith) {i = k} {j = 64} (omega arith) in
      omega (arith, power, one-le-pow k 2 (omega arith)) in
    digit_ext 64 (bit_and x (2 ^ 64 - 1 - (2 ^ k - 1))) (x / 2 ^ k * 2 ^ k)
      (omega (arith, bit_and_bound x (2 ^ 64 - 1 - (2 ^ k - 1))))
      (omega (arith, div-mul-le_self x (2 ^ k)))
      λ i h.
        digit-bit_and x (2 ^ 64 - 1 - (2 ^ k - 1)) i
        ∙ ap (min (digit x i)) (digit-complement 64 (2 ^ k - 1) i small h)
        ∙ elim (dec_lt i k) [
          | yes low ↦
              rw (digit-ones_low k i low, digit-scaled_low (x / 2 ^ k) k i low) (omega arith)
          | no high ↦
              rw
                (
                  digit-scaled_high (x / 2 ^ k) k i (i - k) (omega arith),
                  digit-shift x k (i - k) i (omega arith),
                  digit-ones_high k i (omega arith),
                )
                (omega (arith, digit_below x i))
        ]
