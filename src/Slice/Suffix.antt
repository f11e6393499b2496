-- ===== src/Slice/Suffix.antt =====
-- `slice_ends_with` reads from one byte behind the end on.
use c_roblib.Base.{
  ℕ, zero, suc, ◌+◌, ◌-◌, ◌≤◌, ◌≡◌, refl, ap, ap₂, Bool, true, false, arith, ltb, if◌then◌else◌,
  ◌==◌, get_or, set, get_or-set_ne,
}
use c_roblib.Slice.{StringSlice, ends_loop, ends_with}

-- The slice with another first byte.
abbrev pub with_first : ℕ → StringSlice → StringSlice
with_first c s = record s { bytes = set s.bytes 0 c }

-- One round of the loop, from its two bytes and the rounds behind it.
abbrev round : ℕ → Bool → ℕ → Bool
round a rest b = elim (a == b) [ true ↦ rest | false ↦ false ]

ends_loop-with_first :
    (rounds i c : ℕ) (s suffix : StringSlice)
    → rounds + i ≤ suffix.length
    → ends_loop (λ b. b) rounds i s (with_first c suffix) ≡ ends_loop (λ b. b) rounds i s suffix
unfolding ends_loop
ends_loop-with_first zero i c s suffix h = refl
ends_loop-with_first (suc rounds) i c s suffix h =
    let read = get_or-set_ne suffix.bytes {i = 0} {j = suffix.length - i} c 0 (omega arith) in
    let rest = ends_loop-with_first rounds (suc i) c s suffix (omega arith) in
    ap₂ (λ (b : ℕ) (more : Bool). round (get_or s.bytes (s.length - i) 0) more b) read rest

-- `slice_ends_with` never looks at the first byte of the suffix: whatever it is, the answer is the
-- same.
pub ends_with-with_first :
    (c : ℕ) (s suffix : StringSlice) → ends_with s (with_first c suffix) ≡ ends_with s suffix
unfolding ends_with
ends_with-with_first c s suffix =
    ap (λ (b : Bool). if ltb s.length suffix.length then false else b)
      (ends_loop-with_first suffix.length 0 c s suffix (omega arith))
