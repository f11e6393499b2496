-- ===== src/Allocator/Round.antt =====
-- `round_up_to_power_of_two` and `col_next_power_of_two`.
use native.Mathlib.Nat.{pow-le-pow_right, one-le-pow}
use c_roblib.Base.{
  ℕ, zero, suc, ◌+◌, ◌-◌, ◌*◌, ◌/◌, ◌%◌, ◌^◌, ◌≤◌, ◌<◌, ◌≡◌, refl, sym, ap, ◌∙◌, arith, true, false,
  some, max, eq-or-ne, ltb, leb, ◌==◌, Bool-cases, inl, inr,
}
use c_roblib.Base.Digits.{digit, digit_beyond}
use c_roblib.Collections.{fill_below, next_power_of_two}
use c_roblib.Collections.Power.{Top, fill_below_lem}
use c_roblib.Allocator.{bit_width, round_up, round_up_portable, round_up_msvc, bit_scan_reverse}

-- The width that is counted is that of the number.
record Counted (w width : ℕ) : Type 0 where
  place : ℕ
  width_at : width ≡ suc place
  top : Top w place

bit_width-zero : (rounds : ℕ) → bit_width rounds 0 ≡ 0
unfolding bit_width
bit_width-zero zero = refl
bit_width-zero (suc rounds) = refl

bit_width-Counted : (rounds w : ℕ) → 0 < w → w < 2 ^ rounds → Counted w (bit_width rounds w)
unfolding bit_width digit
bit_width-Counted zero w pos h = absurd (omega arith)
bit_width-Counted (suc rounds) w pos h =
    let some_left : (w == 0) ≡ false = ground arith in
    rw (some_left, bit_width)
      (elim (Bool-cases (w / 2 == 0)) [
        | inl last ↦
            let half : w / 2 ≡ 0 = ground arith in
            record {
              place = 0;
              width_at = rw half (ap suc (bit_width-zero rounds));
              top = record { below = omega (arith, half); highest = omega (arith, half) };
            }
        | inr more ↦
            let c = bit_width-Counted rounds (w / 2) (ground arith) (omega arith) in
            record {
              place = suc c.place;
              width_at = ap suc c.width_at;
              top = record { below = omega (arith, c.top.below); highest = c.top.highest };
            }
      ])

Top-le : {w t : ℕ} → Top w t → 2 ^ t ≤ w
Top-le {w} {t} top = elim (Bool-cases (leb (2 ^ t) w)) [
  | inl le ↦ ground arith
  | inr less ↦
      let none_there = digit_beyond t w t (ground arith) (omega arith) in
      absurd (omega (arith, none_there, top.highest))
]

-- The least power of two that is not below a number.
pub record LeastPower (x out : ℕ) : Type 0 where
  pub exponent : ℕ
  pub power : out ≡ 2 ^ exponent
  pub enough : x ≤ out
  pub least : out < 2 * x

module _ (x : ℕ) (some_bits : 1 < x) (word : x ≤ 2 ^ 63) where
  counted : Counted (x - 1) (bit_width 64 (x - 1))
  counted = bit_width-Counted 64 (x - 1) (omega arith) (omega arith)

  place_below : counted.place < 63
  place_below = elim (Bool-cases (ltb counted.place 63)) [
    | inl less ↦ ground arith
    | inr more ↦ absurd (
        omega (
          arith,
          Top-le counted.top,
          pow-le-pow_right {n = 2} (omega arith) {i = 63} {j = counted.place} (ground arith),
        ))
  ]

  fits : 2 ^ suc counted.place ≤ 2 ^ 63
  fits = pow-le-pow_right {n = 2} (omega arith) {i = suc counted.place} {j = 63} place_below

  filled : (fill_below (x - 1) + 1) % 2 ^ 64 ≡ 2 ^ suc counted.place
  filled = omega (
    arith,
    fill_below_lem (x - 1) counted.place (omega (arith, place_below)) counted.top,
    fits,
    one-le-pow (suc counted.place) 2 (omega arith),
  )

  power-LeastPower : LeastPower x (2 ^ suc counted.place)
  power-LeastPower = record {
    exponent = suc counted.place;
    power = refl;
    enough = omega (arith, counted.top.below);
    least = omega (arith, Top-le counted.top);
  }

  round_up_at : round_up x ≡ 2 ^ suc counted.place
  unfolding round_up
  round_up_at =
      let more : leb x 1 ≡ false = ground arith in rw (more, counted.width_at) (omega (arith, fits))

-- The scan finds the highest bit that is set.
bit_scan_reverse-Top : (rounds w t : ℕ) → t < rounds → Top w t → bit_scan_reverse rounds w ≡ some t
unfolding bit_scan_reverse
bit_scan_reverse-Top zero w t h top = absurd (omega arith)
bit_scan_reverse-Top (suc index) w t h top = elim (eq-or-ne index t) [
  | inl same ↦
      let hit : (digit w index == 1) ≡ true = rw same (ground (arith, top.highest)) in
      rw (hit, bit_scan_reverse) (ap some same)
  | inr apart ↦
      let clear : digit w index ≡ 0 = digit_beyond (suc t) w index top.below (ground arith) in
      let miss : (digit w index == 1) ≡ false = ground (arith, clear) in
      rw (miss, bit_scan_reverse) (bit_scan_reverse-Top index w t (omega arith) top)
]

module _ (x : ℕ) (some_bits : 1 < x) (word : x ≤ 2 ^ 63) where
  round_up_msvc_at : round_up_msvc x ≡ 2 ^ suc (counted x some_bits word).place
  unfolding round_up_msvc
  round_up_msvc_at =
      let more : leb x 1 ≡ false = ground arith in
      let c = counted x some_bits word in
      let found =
        bit_scan_reverse-Top 64 (x - 1) c.place (omega (arith, place_below x some_bits word))
          c.top in
      rw (more, found) (omega (arith, fits x some_bits word))

-- Up to 2^63, the three variants of `round_up_to_power_of_two`, of GCC and Clang, of MSVC and of
-- other compilers, give the same: the least power of two that is not below the argument, and 1 for 0.
pub round_up_lem :
    (x : ℕ)
    → x ≤ 2 ^ 63
    → (round_up x ≡ round_up_portable x)
      × (round_up x ≡ round_up_msvc x)
      × LeastPower (max x 1) (round_up x)
unfolding round_up round_up_portable round_up_msvc
round_up_lem x word = elim (Bool-cases (leb x 1)) [
  | inl few ↦ rw few (
    refl,
    refl,
    record { exponent = 0; power = refl; enough = ground arith; least = ground arith },
  )
  | inr more ↦
      let many : 1 < x = ground arith in
      let self : max x 1 ≡ x = ground arith in
      (
        round_up_at x many word ∙ sym (rw more (filled x many word)),
        round_up_at x many word ∙ sym (round_up_msvc_at x many word),
        rw (self, round_up_at x many word) (power-LeastPower x many word),
      )
]

-- For a size from 2 to 2^63 that is not below the least size and below the greatest,
-- `col_next_power_of_two` gives the least power of two that is not below it.
pub next_power_of_two-LeastPower :
    (wanted_size min_size max_size : ℕ)
    → 1 < wanted_size
    → min_size ≤ wanted_size
    → wanted_size < max_size
    → wanted_size ≤ 2 ^ 63
    → LeastPower wanted_size (next_power_of_two wanted_size min_size max_size)
unfolding next_power_of_two
next_power_of_two-LeastPower wanted_size min_size max_size many low high word =
    let unclamped : leb max_size wanted_size ≡ false = ground arith in
    let enough : ltb wanted_size min_size ≡ false = ground arith in
    let less : (wanted_size + 2 ^ 64 - 1) % 2 ^ 64 ≡ wanted_size - 1 = omega arith in
    rw (unclamped, enough, less, filled wanted_size many word)
      (power-LeastPower wanted_size many word)
