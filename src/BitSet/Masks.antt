-- ===== src/BitSet/Masks.antt =====
-- Masks, as `bitset_test` reads them.
use c_roblib.Base.{
  ℕ, zero, suc, ◌-◌, ◌/◌, ◌%◌, ◌^◌, ◌<◌, min, max, bit_and, bit_or, ◌≡◌, refl, arith, not, ◌&&◌,
  ◌||◌, [], ◌∷◌, length, get_or, ◌==◌,
}
use c_roblib.BitSet.{BitSet, complement, test, set_mask, clear_mask}
use c_roblib.Base.Digits.{digit, digit_below, digit-bit_or, digit-bit_and, digit-complement}
use c_roblib.BitSet.Flags.{test-digit}

get_or-set_mask :
    (b m : BitSet) (i : ℕ)
    → length b ≡ length m
    → get_or (set_mask b m) i 0 ≡ bit_or (get_or b i 0) (get_or m i 0)
unfolding set_mask
get_or-set_mask [] [] i e = refl
get_or-set_mask [] (m ∷ ms) i e = absurd (omega arith)
get_or-set_mask (w ∷ ws) [] i e = absurd (omega arith)
get_or-set_mask (w ∷ ws) (m ∷ ms) zero e = refl
get_or-set_mask (w ∷ ws) (m ∷ ms) (suc i) e = get_or-set_mask ws ms i (omega arith)

get_or-clear_mask :
    (b m : BitSet) (i : ℕ)
    → length b ≡ length m
    → get_or (clear_mask b m) i 0 ≡ bit_and (get_or b i 0) (complement (get_or m i 0))
unfolding clear_mask
get_or-clear_mask [] [] i e = refl
get_or-clear_mask [] (m ∷ ms) i e = absurd (omega arith)
get_or-clear_mask (w ∷ ws) [] i e = absurd (omega arith)
get_or-clear_mask (w ∷ ws) (m ∷ ms) zero e = refl
get_or-clear_mask (w ∷ ws) (m ∷ ms) (suc i) e = get_or-clear_mask ws ms i (omega arith)

max_is_one : (x y : ℕ) → x < 2 → y < 2 → (max x y == 1) ≡ (x == 1) || (y == 1)
max_is_one x y hx hy = ground arith

min_is_one : (x y : ℕ) → x < 2 → y < 2 → (min x (1 - y) == 1) ≡ (x == 1) && not (y == 1)
min_is_one x y hx hy = ground arith

-- After `bitset_set_mask` with a mask of as many words, exactly the flags of the mask and the ones
-- that were set before are set.
pub test-set_mask :
    (b m : BitSet) (g : ℕ) → length b ≡ length m → test (set_mask b m) g ≡ test b g || test m g
test-set_mask b m g e =
    let i = g / 64 in
    let j = g % 64 in
    rw
      (
        test-digit (set_mask b m) g,
        test-digit b g,
        test-digit m g,
        get_or-set_mask b m i e,
        digit-bit_or (get_or b i 0) (get_or m i 0) j,
      )
      (max_is_one (digit (get_or b i 0) j) (digit (get_or m i 0) j) (digit_below _ j)
        (digit_below _ j))

-- After `bitset_clear_mask` with a mask of as many words, a flag whose word in the mask has 64 bits is
-- set exactly where it was set before and is not in the mask.
pub test-clear_mask :
    (b m : BitSet) (g : ℕ)
    → length b ≡ length m
    → get_or m (g / 64) 0 < 2 ^ 64
    → test (clear_mask b m) g ≡ test b g && not (test m g)
test-clear_mask b m g e word =
    let i = g / 64 in
    let j = g % 64 in
    rw
      (
        test-digit (clear_mask b m) g,
        test-digit b g,
        test-digit m g,
        get_or-clear_mask b m i e,
        digit-bit_and (get_or b i 0) (complement (get_or m i 0)) j,
        digit-complement 64 (get_or m i 0) j word (omega arith),
      )
      (min_is_one (digit (get_or b i 0) j) (digit (get_or m i 0) j) (digit_below _ j)
        (digit_below _ j))
