-- ===== src/Slice/Search.antt =====
-- `slice_index_of` and `slice_rindex_of`, and their variants by case.
use c_roblib.Base.{
  ℕ, zero, suc, ◌+◌, ◌-◌, ◌≤◌, ◌<◌, ◌≡◌, ◌↔◌, refl, sym, ap, Bool, true, false, Option, none, some,
  List, [], ◌∷◌, arith, if◌then◌else◌, ltb, ◌==◌, length, take, drop, Bool-cases, inl, inr, ==_iff,
  tests, length-drop, length-take, eq-or-ne,
}
use c_roblib.Slice.{StringSlice, items, starts_with, starts_with_by_case, slice_drop}
use c_roblib.Slice.Equal.{IsInside, starts_with_lem, length-items}

-- The loops over the places, from the first to the last and back. They differ in the test.
index_loop : (StringSlice → Bool) → ℕ → ℕ → StringSlice → Option ℕ
unfolding slice_drop
index_loop test zero i s = none
index_loop test (suc rounds) i s = elim (test (slice_drop s i)) [
  | true ↦ some i
  | false ↦ index_loop test rounds (suc i) s
]

rindex_loop : (StringSlice → Bool) → ℕ → StringSlice → Option ℕ
unfolding slice_drop
rindex_loop test zero s = none
rindex_loop test (suc i) s = elim (test (slice_drop s i)) [
  | true ↦ some i
  | false ↦ rindex_loop test i s
]

-- `none` is -1.
index_through : (StringSlice → Bool) → StringSlice → StringSlice → Option ℕ
unfolding index_loop
index_through test s subs =
    if ltb s.length subs.length
    then none
    else if subs.length == 0
    then some 0
    else index_loop test (s.length - subs.length + 1) 0 s

rindex_through : (StringSlice → Bool) → StringSlice → StringSlice → Option ℕ
unfolding rindex_loop
rindex_through test s subs =
    if ltb s.length subs.length
    then none
    else if subs.length == 0
    then some s.length
    else rindex_loop test (s.length - subs.length + 1) s

unfoldable pub index_of : StringSlice → StringSlice → Option ℕ
unfolding index_through starts_with
index_of s subs = index_through (λ rest. starts_with rest subs) s subs

unfoldable pub index_of_by_case : StringSlice → StringSlice → Bool → Option ℕ
unfolding index_through index_of starts_with_by_case
index_of_by_case s subs false = index_of s subs
index_of_by_case s subs true = index_through (λ rest. starts_with_by_case rest subs true) s subs

unfoldable pub rindex_of : StringSlice → StringSlice → Option ℕ
unfolding rindex_through starts_with
rindex_of s subs = rindex_through (λ rest. starts_with rest subs) s subs

unfoldable pub rindex_of_by_case : StringSlice → StringSlice → Bool → Option ℕ
unfolding rindex_through rindex_of starts_with_by_case
rindex_of_by_case s subs false = rindex_of s subs
rindex_of_by_case s subs true = rindex_through (λ rest. starts_with_by_case rest subs true) s subs

-- The bytes of the one slice stand in the other at a place.
abbrev pub OccursAt : StringSlice → StringSlice → ℕ → Type 0
OccursAt s subs i = take subs.length (drop i (items s)) ≡ items subs

-- The least place of a slice at which something holds, or none; and the greatest one up to a bound.
pub data Least (Q : ℕ → Type 0) : Option ℕ → Type 0 where
  found : (i : ℕ) → Q i → ((j : ℕ) → j < i → ¬ Q j) → Least Q (some i)
  missing : ((j : ℕ) → ¬ Q j) → Least Q none

pub data Greatest (Q : ℕ → Type 0) (bound : ℕ) : Option ℕ → Type 0 where
  found :
      (i : ℕ) → i ≤ bound → Q i → ((j : ℕ) → i < j → j ≤ bound → ¬ Q j) → Greatest Q bound (some i)
  missing : ((j : ℕ) → j ≤ bound → ¬ Q j) → Greatest Q bound none

pub drop-take : (i n k : ℕ) (xs : List ℕ) → k ≡ n - i → drop i (take n xs) ≡ take k (drop i xs)
drop-take zero n k xs e = let f : n ≡ k = omega arith in rw f refl
drop-take (suc i) zero k xs e = let f : k ≡ 0 = omega arith in rw f refl
drop-take (suc i) (suc n) zero [] e = refl
drop-take (suc i) (suc n) (suc k) [] e = refl
drop-take (suc i) (suc n) k (x ∷ xs) e = drop-take i n k xs (omega arith)

pub clamp_lem : (n i : ℕ) → i ≤ n → (if ltb n i then n else i) ≡ i
clamp_lem n i h = ground arith

module _ (s : StringSlice) (i : ℕ) (h : i ≤ s.length) where
  pub items-slice_drop : items (slice_drop s i) ≡ drop i (items s)
  unfolding slice_drop
  items-slice_drop =
      rw (clamp_lem s.length i h) (sym (drop-take i s.length (s.length - i) s.bytes refl))

  pub slice_drop-IsInside : IsInside s → IsInside (slice_drop s i)
  unfolding slice_drop
  slice_drop-IsInside inside = rw (clamp_lem s.length i h) (omega (arith, length-drop i s.bytes))

module _ (s subs : StringSlice) (hs : IsInside s) (hd : IsInside subs) where
  pub starts-occurs :
      (i : ℕ) → i ≤ s.length → (starts_with (slice_drop s i) subs ≡ true) ↔ OccursAt s subs i
  starts-occurs i h =
      rw (← items-slice_drop s i h)
        (starts_with_lem (slice_drop s i) subs (slice_drop-IsInside s i h hs) hd)

  -- An occurrence of some bytes lies inside.
  pub occurs-le : (i : ℕ) → 0 < subs.length → OccursAt s subs i → i + subs.length ≤ s.length
  occurs-le i some_bytes e =
      let lengths : length (take subs.length (drop i (items s))) ≡ length (items subs) =
        ap (λ l. length l) e in
      omega (
        arith,
        lengths,
        length-take subs.length (drop i (items s)),
        length-drop i (items s),
        length-items s hs,
        length-items subs hd,
      )

  index_loop-Least :
      (rounds i : ℕ)
      → 0 < subs.length
      → rounds + i + subs.length ≡ s.length + 1
      → ((j : ℕ) → j < i → ¬ OccursAt s subs j)
      → Least (OccursAt s subs) (index_loop (λ rest. starts_with rest subs) rounds i s)
  unfolding index_loop
  index_loop-Least zero i some_bytes e before =
      missing (λ j o. before j (omega (arith, occurs-le j some_bytes o)) o)
  index_loop-Least (suc rounds) i some_bytes e before =
      elim (Bool-cases (starts_with (slice_drop s i) subs)) [
        | inl yes_here ↦
            rw (yes_here, index_loop) (found i ((starts-occurs i (omega arith)).0 yes_here) before)
        | inr no_here ↦
            rw (no_here, index_loop)
              (index_loop-Least rounds (suc i) some_bytes (omega arith) λ j h o.
                elim (eq-or-ne j i) [
                  | inl same ↦
                      absurd (cc (no_here, (starts-occurs i (omega arith)).1 (rw same at o)))
                  | inr other ↦ before j (omega arith) o
                ])
      ]

  rindex_loop-Greatest :
      (i : ℕ)
      → i ≤ s.length + 1
      → ((j : ℕ) → i ≤ j → j ≤ s.length → ¬ OccursAt s subs j)
      → Greatest (OccursAt s subs) s.length (rindex_loop (λ rest. starts_with rest subs) i s)
  unfolding rindex_loop
  rindex_loop-Greatest zero e after = missing (λ j h. after j (omega arith) h)
  rindex_loop-Greatest (suc i) e after = elim (Bool-cases (starts_with (slice_drop s i) subs)) [
    | inl yes_here ↦
        rw (yes_here, rindex_loop)
          (found i (omega arith) ((starts-occurs i (omega arith)).0 yes_here)
            (λ j h. after j (omega arith)))
    | inr no_here ↦
        rw (no_here, rindex_loop)
          (rindex_loop-Greatest i (omega arith) λ j h k o. elim (eq-or-ne j i) [
            | inl same ↦ absurd (cc (no_here, (starts-occurs i (omega arith)).1 (rw same at o)))
            | inr other ↦ after j (omega arith) k o
          ])
  ]

  -- `slice_index_of` gives the least place at which the bytes of `subs` stand in the slice, and -1
  -- exactly where there is none.
  pub index_of-Least : Least (OccursAt s subs) (index_of s subs)
  unfolding index_of index_through
  index_of-Least = elim (Bool-cases (ltb s.length subs.length)) [
    | inl short ↦ rw short (missing (λ j o. absurd (grind (tests, occurs-le j))))
    | inr long ↦ elim (eq-or-ne subs.length 0) [
      | inl none_here ↦
          rw (long, (==_iff subs.length 0).1 none_here)
            (found 0 (rw none_here refl) (λ j h. absurd (omega arith)))
      | inr some_bytes ↦
          let not_empty : (subs.length == 0) ≡ false = ground arith in
          let fits : subs.length ≤ s.length = ground arith in
          rw (long, not_empty)
            (index_loop-Least (s.length - subs.length + 1) 0 (omega arith) (omega arith)
              (λ j h. absurd (omega arith)))
    ]
  ]

  -- `slice_rindex_of` gives the greatest place up to the slice's end at which the bytes of `subs`
  -- stand in the slice, and -1 exactly where there is none.
  pub rindex_of-Greatest : Greatest (OccursAt s subs) s.length (rindex_of s subs)
  unfolding rindex_of rindex_through
  rindex_of-Greatest = elim (Bool-cases (ltb s.length subs.length)) [
    | inl short ↦ rw short (missing (λ j h o. absurd (grind (tests, occurs-le j))))
    | inr long ↦ elim (eq-or-ne subs.length 0) [
      | inl none_here ↦
          rw (long, (==_iff subs.length 0).1 none_here)
            (found s.length (omega arith) (rw none_here refl) (λ j h k. absurd (omega arith)))
      | inr some_bytes ↦
          let not_empty : (subs.length == 0) ≡ false = ground arith in
          let fits : subs.length ≤ s.length = ground arith in
          rw (long, not_empty)
            (rindex_loop-Greatest (s.length - subs.length + 1) (omega arith)
              (λ j h k o. absurd (omega (arith, occurs-le j (omega arith) o))))
    ]
  ]
