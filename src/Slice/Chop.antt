-- ===== src/Slice/Chop.antt =====
-- `slice_chop_by_delimiter` and its variant for a C string.
use c_roblib.Base.{
  ℕ, zero, suc, ◌+◌, ◌-◌, ◌≤◌, ◌<◌, ◌≡◌, refl, sym, ap, ◌∙◌, true, false, ◌||◌, List, ◌++◌, arith,
  if◌then◌else◌, ltb, ◌==◌, length, take, drop, Bool-cases, inl, inr, length-take, drop-drop,
  eq-or-ne, take-append-drop,
}
use c_roblib.Slice.{
  StringSlice, items, starts_with, slice_drop, slice_take, slice_equal, empty_string_slice,
  from_cstring,
}
use c_roblib.Slice.Equal.{IsInside, length-items, slice_equal_lem, take-take}
use c_roblib.Slice.Search.{
  OccursAt, starts-occurs, items-slice_drop, slice_drop-IsInside, clamp_lem,
}

-- The loop over the places before the last one.
chop_loop : ℕ → ℕ → StringSlice → StringSlice → StringSlice × StringSlice
unfolding slice_drop slice_take starts_with
chop_loop zero i s delimiter = (s, empty_string_slice)
chop_loop (suc rounds) i s delimiter = elim (starts_with (slice_drop s i) delimiter) [
  | true ↦ (slice_take s i, slice_drop s (i + delimiter.length))
  | false ↦ chop_loop rounds (suc i) s delimiter
]

-- `slice_chop_by_delimiter`: the piece, and what `*s` is afterwards.
unfoldable pub chop_by_delimiter : StringSlice → StringSlice → StringSlice × StringSlice
unfolding chop_loop slice_equal
chop_by_delimiter s delimiter =
    if delimiter.length == 0 || (s.length == 0 || ltb s.length delimiter.length)
    then (s, empty_string_slice)
    else if delimiter.length == s.length
    then (if slice_equal s delimiter
        then (empty_string_slice, empty_string_slice)
        else chop_loop (s.length - delimiter.length) 0 s delimiter)
    else chop_loop (s.length - delimiter.length) 0 s delimiter

unfoldable pub chop_by_delimiter_str : StringSlice → List ℕ → StringSlice × StringSlice
unfolding chop_by_delimiter from_cstring
chop_by_delimiter_str s delimiter = chop_by_delimiter s (from_cstring delimiter)

-- What a chop does. A slice that is the delimiter is chopped to two empty ones. Where the delimiter stands at the very end and nowhere before, it is not found.
pub data Chopped (s d : StringSlice) : StringSlice × StringSlice → Type 0 where
  only_delimiter :
      {piece rest : StringSlice}
      → items s ≡ items d
      → piece.length ≡ 0
      → rest.length ≡ 0
      → Chopped s d (piece, rest)
  chopped :
      {piece rest : StringSlice}
      → items s ≡ items piece ++ (items d ++ items rest)
      → 0 < rest.length
      → IsInside rest
      → rest.length < s.length
      → ((j : ℕ) → j < length (items piece) → ¬ OccursAt s d j)
      → Chopped s d (piece, rest)
  not_found :
      {rest : StringSlice}
      → rest.length ≡ 0
      → (0 < d.length → ¬ (items s ≡ items d))
      → ((j : ℕ) → 0 < d.length → j + d.length < s.length → ¬ OccursAt s d j)
      → Chopped s d (s, rest)

module _ (s : StringSlice) (i : ℕ) (h : i ≤ s.length) where
  pub items-slice_take : items (slice_take s i) ≡ take i (items s)
  unfolding slice_take
  items-slice_take = rw (clamp_lem s.length i h) (sym (take-take i s.length s.bytes h))

  length-slice_drop : (slice_drop s i).length ≡ s.length - i
  unfolding slice_drop
  length-slice_drop = rw (clamp_lem s.length i h) refl

module _ (s d : StringSlice) (hs : IsInside s) (hd : IsInside d) (some_bytes : 0 < d.length) where
  occurs_apart :
      (i : ℕ)
      → OccursAt s d i
      → i + d.length ≤ s.length
      → items s ≡ take i (items s) ++ (items d ++ drop (i + d.length) (items s))
  occurs_apart i o h =
      sym (take-append-drop i (items s))
      ∙ ap (λ l. take i (items s) ++ l)
          (sym (take-append-drop d.length (drop i (items s)))
            ∙ rw (o, drop-drop d.length i (i + d.length) (items s) (omega arith)) refl)

  chop_loop-Chopped :
      (rounds i : ℕ)
      → rounds + i + d.length ≡ s.length
      → ¬ (items s ≡ items d)
      → ((j : ℕ) → j < i → ¬ OccursAt s d j)
      → Chopped s d (chop_loop rounds i s d)
  unfolding chop_loop slice_take
  chop_loop-Chopped zero i e differs before =
      not_found refl (λ h. differs) (λ j h k. before j (omega arith))
  chop_loop-Chopped (suc rounds) i e differs before =
      elim (Bool-cases (starts_with (slice_drop s i) d)) [
        | inl yes_here ↦
            let o = (starts-occurs s d hs hd i (omega arith)).0 yes_here in
            let j = i + d.length in
            let left = items-slice_take s i (omega arith) in
            let right = items-slice_drop s j (omega arith) in
            rw (yes_here, chop_loop)
              (chopped (occurs_apart i o (omega arith) ∙ rw (left, right) refl)
                (omega (arith, length-slice_drop s j (omega arith)))
                (slice_drop-IsInside s j (omega arith) hs)
                (omega (arith, length-slice_drop s j (omega arith)))
                (λ k h. before k (
                  omega
                    (arith, ap (λ l. length l) left, length-take i (items s), length-items s hs))))
        | inr no_here ↦
            rw (no_here, chop_loop)
              (chop_loop-Chopped rounds (suc i) (omega arith) differs λ j h o. elim (eq-or-ne j i) [
                | inl same ↦
                    absurd
                      (cc (no_here, (starts-occurs s d hs hd i (omega arith)).1 (rw same at o)))
                | inr other ↦ before j (omega arith) o
              ])
      ]

-- `slice_chop_by_delimiter` of any slice and delimiter that lie inside their memory: a slice that is
-- the delimiter gives two empty ones. Else, where the delimiter stands before the very end, the
-- piece, the delimiter and the rest make the slice again, the delimiter does not stand before, and
-- the rest is not empty and shorter. Else, or where the delimiter is empty, the slice is the piece,
-- and nothing is left.
pub chop-Chopped :
    (s d : StringSlice) → IsInside s → IsInside d → Chopped s d (chop_by_delimiter s d)
unfolding chop_by_delimiter
chop-Chopped s d hs hd =
    let apart : ¬ (s.length ≡ d.length) → ¬ (items s ≡ items d) =
      λ ne e. ne (sym (length-items s hs) ∙ ap (λ l. length l) e ∙ length-items d hd) in
    elim (Bool-cases (d.length == 0 || (s.length == 0 || ltb s.length d.length))) [
      | inl trivial ↦ rw trivial (
          not_found refl (λ h. apart (λ e. absurd (ground arith))) (λ j h k. absurd (ground arith)))
      | inr proper ↦
          let some_bytes : 0 < d.length = ground arith in
          let fits : d.length ≤ s.length = ground arith in
          let looped : ¬ (items s ≡ items d) → Chopped s d (chop_loop (s.length - d.length) 0 s d) =
            λ differs.
              chop_loop-Chopped s d hs hd some_bytes (s.length - d.length) 0 (omega arith) differs
                (λ j h. absurd (omega arith)) in
          elim (Bool-cases (d.length == s.length)) [
            | inr differ ↦ rw (proper, differ) (looped (apart (λ e. absurd (ground arith))))
            | inl same ↦ elim (Bool-cases (slice_equal s d)) [
              | inl e ↦
                  rw (proper, same, e) (only_delimiter ((slice_equal_lem s d hs hd).0 e) refl refl)
              | inr ne ↦
                  rw (proper, same, ne)
                    (looped (λ e. absurd (cc (ne, (slice_equal_lem s d hs hd).1 e))))
            ]
          ]
    ]
