-- ===== src/Collections/Power.antt =====
-- The smearing of a number's highest digit, as `col_next_power_of_two` and
-- `round_up_to_power_of_two` do it.
use native.Mathlib.Nat.{div-le_self, pow-le-pow_right}
use c_roblib.Base.{
  ℕ, suc, ◌+◌, ◌-◌, ◌/◌, ◌^◌, ◌≤◌, ◌<◌, ◌≡◌, max, refl, sym, ap, ◌∙◌, arith, leb, Bool-cases, inl,
  inr,
}
use c_roblib.Base.Bits.{bit_or_below}
use c_roblib.Base.Digits.{
  digit, digit_below, digit-bit_or, digit-shift, digit_beyond, digit-ones_low, digit-ones_high,
  digit_ext,
}
use c_roblib.Collections.{smear, fill_below}

-- The place of the highest digit of a number.
pub record Top (w t : ℕ) : Type 0 where
  pub below : w < 2 ^ suc t
  pub highest : digit w t ≡ 1

-- The digits from some places below the highest one on are set.
record Spread (n t v : ℕ) : Type 0 where
  bound : v < 2 ^ 64
  filled : (i : ℕ) → i ≤ t → t < i + n → digit v i ≡ 1
  rest : (i : ℕ) → t < i → digit v i ≡ 0

smear-Spread : (n t v : ℕ) → Spread n t v → Spread (n + n) t (smear n v)
smear-Spread n t v s = record {
  bound = bit_or_below 64 v (v / 2 ^ n) s.bound (omega (arith, s.bound, div-le_self v (2 ^ n)));
  filled = λ i le reach. at i ∙ elim (Bool-cases (leb (t + 1) (i + n))) [
    | inl near ↦ rw (s.filled i le (ground arith)) (omega (arith, digit_below v (i + n)))
    | inr far ↦ rw (s.filled (i + n) (ground arith) (omega arith)) (omega (arith, digit_below v i))
  ];
  rest = λ i more. at i ∙ (rw (s.rest i more, s.rest (i + n) (omega arith)) refl);
}
  where
    at : (i : ℕ) → digit (smear n v) i ≡ max (digit v i) (digit v (i + n))
    at i = digit-bit_or v (v / 2 ^ n) i ∙ ap (max (digit v i)) (digit-shift v n i (i + n) refl)

pub fill_below_lem : (w t : ℕ) → t < 64 → Top w t → fill_below w ≡ 2 ^ suc t - 1
unfolding fill_below
fill_below_lem w t h top =
    let power : 2 ^ suc t ≤ 2 ^ 64 =
      pow-le-pow_right {n = 2} (omega arith) {i = suc t} {j = 64} (omega arith) in
    let start : Spread 1 t w = record {
      bound = omega (arith, top.below, power);
      filled = λ i le near. let same : i ≡ t = omega arith in rw same top.highest;
      rest = λ i more. digit_beyond (suc t) w i top.below (omega arith);
    } in
    let s = smear-Spread 32 t _ (
      smear-Spread 16 t _ (
        smear-Spread 8 t _ (smear-Spread 4 t _ (smear-Spread 2 t _ (smear-Spread 1 t w start))))) in
    digit_ext 64 (fill_below w) (2 ^ suc t - 1) s.bound (omega (arith, power)) λ i inside.
      elim (Bool-cases (leb i t)) [
        | inl low ↦
            s.filled i (ground arith) (omega arith) ∙ sym (digit-ones_low (suc t) i (ground arith))
        | inr high ↦ s.rest i (ground arith) ∙ sym (digit-ones_high (suc t) i (ground arith))
      ]
