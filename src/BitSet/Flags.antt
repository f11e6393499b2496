-- ===== src/BitSet/Flags.antt =====
-- Single flags and lists of flags, as `bitset_test` reads them.
use c_roblib.Base.{
  ℕ, zero, suc, ◌*◌, ◌/◌, ◌%◌, ◌^◌, ◌<◌, bit_and, bit_or, ◌≡◌, ◌≢◌, refl, sym, ap, ◌∙◌, arith, Bool,
  true, false, not, ◌&&◌, ◌||◌, List, [], ◌∷◌, length, get_or, set, ◌==◌, get_or-set_self,
  get_or-set_ne, length-set, eq-or-ne, inl, inr,
}
use c_roblib.BitSet.{
  BitSet, complement, flag_mask, set_flag, clear_flag, test, test_all, test_any, set_multiple,
}
use c_roblib.Base.Digits.{
  digit, digit_below, bit_and-power, digit-bit_or, digit-bit_and, digit-power_self, digit-power_ne,
  digit-complement,
}

power-pos : (i : ℕ) → 0 < 2 ^ i
power-pos zero = omega arith
power-pos (suc i) = let rest = power-pos i in omega (arith, rest)

power_below : (k i : ℕ) → i < k → 2 ^ i < 2 ^ k
power_below zero i h = absurd (omega arith)
power_below (suc k) zero h = let rest = power-pos k in omega (arith, rest)
power_below (suc k) (suc i) h = let rest = power_below k i (omega arith) in omega (arith, rest)

product_zero : (d p : ℕ) → d < 2 → 0 < p → not (d * p == 0) ≡ (d == 1)
product_zero zero p small some = ground arith
product_zero (suc zero) p small some = ground arith
product_zero (suc (suc d)) p small some = absurd (omega arith)

-- The word and the digit of a flag.
pub test-digit :
    (b : BitSet) (flag : ℕ) → test b flag ≡ (digit (get_or b (flag / 64) 0) (flag % 64) == 1)
unfolding test flag_mask
test-digit b flag =
    let word = get_or b (flag / 64) 0 in
    rw (bit_and-power word (flag % 64)) (
      product_zero (digit word (flag % 64)) (2 ^ (flag % 64)) (digit_below word (flag % 64))
        (power-pos (flag % 64)))

digit_set : (w i j : ℕ) → (digit (bit_or w (2 ^ i)) j == 1) ≡ (i == j) || (digit w j == 1)
digit_set w i j = elim (eq-or-ne i j) [
  | inl e ↦
      let bit = digit_below w j in
      rw (digit-bit_or w (2 ^ i) j, e, digit-power_self j) (ground arith)
  | inr ne ↦ rw (digit-bit_or w (2 ^ i) j, digit-power_ne i j ne) (ground arith)
]

digit_clear :
    (w i j : ℕ)
    → i < 64
    → j < 64
    → (digit (bit_and w (complement (2 ^ i))) j == 1) ≡ not (i == j) && (digit w j == 1)
digit_clear w i j hi hj = elim (eq-or-ne i j) [
  | inl e ↦
      let bit = digit_below w j in
      rw
        (
          digit-bit_and w (complement (2 ^ i)) j,
          digit-complement 64 (2 ^ i) j (power_below 64 i hi) hj,
          e,
          digit-power_self j,
        )
        (ground arith)
  | inr ne ↦
      let bit = digit_below w j in
      rw
        (
          digit-bit_and w (complement (2 ^ i)) j,
          digit-complement 64 (2 ^ i) j (power_below 64 i hi) hj,
          digit-power_ne i j ne,
        )
        (ground arith)
]

same_word : (f g : ℕ) → f / 64 ≡ g / 64 → (f % 64 == g % 64) ≡ (f == g)
same_word f g e = ground arith

other_word : (f g : ℕ) → f / 64 ≢ g / 64 → (f == g) ≡ false
other_word f g ne = ground arith

-- A flag after its word, or another one, was written.
module _ (b : BitSet) (f g word : ℕ) where
  test-set_same :
      f / 64 < length b
      → f / 64 ≡ g / 64
      → test (set b (f / 64) word) g ≡ (digit word (g % 64) == 1)
  test-set_same h e =
      test-digit (set b (f / 64) word) g
      ∙ ap (λ w. digit w (g % 64) == 1) (rw (sym e) (get_or-set_self b (f / 64) word 0 h))

  test-set_other : f / 64 ≢ g / 64 → test (set b (f / 64) word) g ≡ test b g
  test-set_other ne =
      test-digit (set b (f / 64) word) g
      ∙ ap (λ w. digit w (g % 64) == 1) (get_or-set_ne b word 0 ne)
      ∙ sym (test-digit b g)

-- After `bitset_set` of a flag inside the words, that flag is set and every other flag is as before.
pub test-set_flag :
    (b : BitSet) (f g : ℕ) → f / 64 < length b → test (set_flag b f) g ≡ (f == g) || test b g
unfolding set_flag flag_mask
test-set_flag b f g h = elim (eq-or-ne (f / 64) (g / 64)) [
  | inl e ↦
      let word = get_or b (f / 64) 0 in
      test-set_same b f g (bit_or word (2 ^ (f % 64))) h e
      ∙ digit_set word (f % 64) (g % 64)
      ∙ rw (same_word f g e, test-digit b g, e) refl
  | inr ne ↦
      test-set_other b f g (bit_or (get_or b (f / 64) 0) (2 ^ (f % 64))) ne
      ∙ rw (other_word f g ne) refl
]

-- After `bitset_clear` of a flag inside the words, that flag is not set and every other flag is as
-- before.
pub test-clear_flag :
    (b : BitSet) (f g : ℕ) → f / 64 < length b → test (clear_flag b f) g ≡ not (f == g) && test b g
unfolding clear_flag flag_mask
test-clear_flag b f g h = elim (eq-or-ne (f / 64) (g / 64)) [
  | inl e ↦
      let word = get_or b (f / 64) 0 in
      test-set_same b f g (bit_and word (complement (2 ^ (f % 64)))) h e
      ∙ digit_clear word (f % 64) (g % 64) (omega arith) (omega arith)
      ∙ rw (same_word f g e, test-digit b g, e) refl
  | inr ne ↦
      test-set_other b f g (bit_and (get_or b (f / 64) 0) (complement (2 ^ (f % 64)))) ne
      ∙ rw (other_word f g ne) refl
]

-- Flags that have one of `count` words.
unfoldable pub Fits : ℕ → List ℕ → Type 0
Fits count [] = Unit
Fits count (flag ∷ flags) = (flag / 64 < count) × Fits count flags

unfoldable pub includes : List ℕ → ℕ → Bool
includes [] g = false
includes (flag ∷ flags) g = (flag == g) || includes flags g

||_swap : (x y z : Bool) → x || (y || z) ≡ (y || x) || z
||_swap true true z = refl
||_swap true false z = refl
||_swap false true z = refl
||_swap false false z = refl

length-set_flag : (b : BitSet) (f : ℕ) → length (set_flag b f) ≡ length b
unfolding set_flag
length-set_flag b f = length-set b (f / 64) _

-- After `bitset_set_multiple` of flags inside the words, exactly those flags and the ones that were
-- set before are set.
pub test-set_multiple :
    (b : BitSet) (flags : List ℕ) (g : ℕ)
    → Fits (length b) flags
    → test (set_multiple b flags) g ≡ includes flags g || test b g
unfolding set_multiple Fits includes
test-set_multiple b [] g fits = refl
test-set_multiple b (flag ∷ flags) g (here, fits) =
    let rest : Fits (length (set_flag b flag)) flags = rw (length-set_flag b flag) fits in
    test-set_multiple (set_flag b flag) flags g rest
    ∙ ap (λ t. includes flags g || t) (test-set_flag b flag g here)
    ∙ ||_swap (includes flags g) (flag == g) (test b g)

-- `bitset_test_any` is the negation of `bitset_test_all`: it asks for a flag that is not set.
pub test_any-not_all : (b : BitSet) (flags : List ℕ) → test_any b flags ≡ not (test_all b flags)
unfolding test_any test_all
test_any-not_all b [] = refl
test_any-not_all b (flag ∷ flags) = ground (arith, test_any-not_all b flags)
