-- ===== src/Slice/Trim.antt =====
-- `slice_trim`, `slice_trim_left` and `slice_trim_right`.
use c_roblib.Base.{
  ℕ, zero, suc, ◌+◌, ◌-◌, ◌%◌, ◌^◌, ◌≤◌, ◌<◌, ◌≡◌, refl, sym, Bool, true, false, arith, ltb, take,
  drop, get_or, Bool-cases, inl, inr, eq-or-ne,
}
use c_roblib.Slice.{StringSlice, items, isspace}
use c_roblib.Slice.Equal.{take-take}
use c_roblib.Slice.Search.{drop-take}

-- `while (index < s.length && isspace(s.data[index])) index++`, with the rounds that are left.
left_loop : ℕ → ℕ → StringSlice → ℕ
left_loop zero index s = index
left_loop (suc rounds) index s = elim (isspace (get_or s.bytes index 0)) [
  | true ↦ left_loop rounds (suc index) s
  | false ↦ index
]

-- `while (index-- > start && isspace(s.data[index]))`: the index behind the loop, which has wrapped
-- if it was 0.
right_loop : ℕ → ℕ → StringSlice → ℕ
right_loop zero start s = 2 ^ 64 - 1
right_loop (suc index) start s = elim (ltb start (suc index)) [
  | true ↦ elim (isspace (get_or s.bytes index 0)) [
    | true ↦ right_loop index start s
    | false ↦ index
  ]
  | false ↦ index
]

unfoldable pub trim_left : StringSlice → StringSlice
unfolding left_loop isspace
trim_left s =
    let index = left_loop s.length 0 s in
    record { bytes = drop index s.bytes; length = s.length - index }

unfoldable pub trim_right : StringSlice → StringSlice
unfolding right_loop isspace
trim_right s = record s { length = (right_loop s.length 0 s + 1) % 2 ^ 64 }

unfoldable pub trim : StringSlice → StringSlice
unfolding left_loop right_loop isspace
trim s =
    let start = left_loop s.length 0 s in
    let end = right_loop s.length start s in
    record { bytes = drop start s.bytes; length = (end + 2 ^ 64 - start + 1) % 2 ^ 64 }

-- The slice without the white space on its left and its right, and with nothing else lost.
pub record Trimmed (s : StringSlice) (left right : Bool) (t : StringSlice) : Type 0 where
  pub start : ℕ
  pub within : start + t.length ≤ s.length
  pub same : items t ≡ take t.length (drop start (items s))
  pub before : (j : ℕ) → j < start → (left ≡ true) × (isspace (get_or s.bytes j 0) ≡ true)
  pub behind :
      (j : ℕ)
      → start + t.length ≤ j
      → j < s.length
      → (right ≡ true) × (isspace (get_or s.bytes j 0) ≡ true)
  pub first : left ≡ true → 0 < t.length → isspace (get_or s.bytes start 0) ≡ false
  pub last : right ≡ true → 0 < t.length → isspace (get_or s.bytes (start + t.length - 1) 0) ≡ false

record FromLeft (s : StringSlice) (from k : ℕ) : Type 0 where
  low : from ≤ k
  high : k ≤ s.length
  blank : (j : ℕ) → from ≤ j → j < k → isspace (get_or s.bytes j 0) ≡ true
  stop : k < s.length → isspace (get_or s.bytes k 0) ≡ false

record FromRight (s : StringSlice) (start from end : ℕ) : Type 0 where
  word : end < 2 ^ 64
  low : start ≤ (end + 1) % 2 ^ 64
  high : (end + 1) % 2 ^ 64 ≤ from
  blank : (j : ℕ) → (end + 1) % 2 ^ 64 ≤ j → j < from → isspace (get_or s.bytes j 0) ≡ true
  stop : start < (end + 1) % 2 ^ 64 → isspace (get_or s.bytes end 0) ≡ false

module _ (s : StringSlice) where
  left_loop-FromLeft :
      (rounds index : ℕ) → rounds + index ≡ s.length → FromLeft s index (left_loop rounds index s)
  unfolding left_loop
  left_loop-FromLeft zero index e = record {
    low = omega arith;
    high = omega arith;
    blank = λ j h k. absurd (omega arith);
    stop = λ h. absurd (omega arith);
  }
  left_loop-FromLeft (suc rounds) index e = elim (Bool-cases (isspace (get_or s.bytes index 0))) [
    | inr solid ↦
        rw (solid, left_loop)
          (record {
            low = omega arith;
            high = omega arith;
            blank = λ j h k. absurd (omega arith);
            stop = λ h. solid;
          })
    | inl space ↦
        let more = left_loop-FromLeft rounds (suc index) (omega arith) in
        rw (space, left_loop)
          (record {
            low = omega (arith, more.low);
            high = more.high;
            blank = λ j h k. elim (eq-or-ne j index) [
              | inl here ↦ rw here space
              | inr other ↦ more.blank j (omega arith) k
            ];
            stop = more.stop;
          })
  ]

  right_loop-FromRight :
      (index start : ℕ)
      → start ≤ index
      → index < 2 ^ 64
      → FromRight s start index (right_loop index start s)
  unfolding right_loop
  right_loop-FromRight zero start h w = record {
    word = omega arith;
    low = omega arith;
    high = omega arith;
    blank = λ j h k. absurd (omega arith);
    stop = λ h. absurd (omega arith);
  }
  right_loop-FromRight (suc index) start h w = elim (Bool-cases (ltb start (suc index))) [
    | inr ended ↦
        rw (ended, right_loop)
          (record {
            word = omega arith;
            low = omega arith;
            high = omega arith;
            blank = λ j h k. absurd (omega arith);
            stop = λ h. absurd (ground arith);
          })
    | inl more_left ↦ elim (Bool-cases (isspace (get_or s.bytes index 0))) [
      | inr solid ↦
          rw (more_left, solid, right_loop)
            (record {
              word = omega arith;
              low = omega arith;
              high = omega arith;
              blank = λ j h k. absurd (omega arith);
              stop = λ h. solid;
            })
      | inl space ↦
          let more = right_loop-FromRight index start (ground arith) (omega arith) in
          rw (more_left, space, right_loop)
            (record {
              word = more.word;
              low = more.low;
              high = omega (arith, more.high);
              blank = λ j h k. elim (eq-or-ne j index) [
                | inl here ↦ rw here space
                | inr other ↦ more.blank j h (omega arith)
              ];
              stop = more.stop;
            })
    ]
  ]

window-items :
    (s : StringSlice) (start n : ℕ)
    → start + n ≤ s.length
    → take n (drop start s.bytes) ≡ take n (drop start (items s))
window-items s start n h = sym (
    rw (drop-take start s.length (s.length - start) s.bytes refl)
      (take-take n (s.length - start) (drop start s.bytes) (omega arith)))

-- `slice_trim` takes off exactly the white space at both ends, also where the slice is empty or all
-- white space.
pub trim-Trimmed : (s : StringSlice) → s.length < 2 ^ 64 → Trimmed s true true (trim s)
unfolding trim
trim-Trimmed s w =
    let start = left_loop s.length 0 s in
    let end = right_loop s.length start s in
    let left = left_loop-FromLeft s s.length 0 (omega arith) in
    let right = right_loop-FromRight s s.length start left.high w in
    let n = (end + 2 ^ 64 - start + 1) % 2 ^ 64 in
    let size : start + n ≡ (end + 1) % 2 ^ 64 =
      omega (arith, right.word, right.low, right.high, left.high) in
    record {
      start = start;
      within = omega (arith, size, right.high);
      same = window-items s start n (omega (arith, size, right.high));
      before = λ j h. (refl, left.blank j (omega arith) h);
      behind = λ j h k. (refl, right.blank j (omega (arith, size)) k);
      first = λ e h. left.stop (omega (arith, size, right.high));
      last = λ e h.
          let some_left : 0 < n = h in
          let at_end : start + n - 1 ≡ end = omega (arith, size, right.word) in
          rw at_end (right.stop (omega (arith, size)));
    }

pub trim_left-Trimmed : (s : StringSlice) → Trimmed s true false (trim_left s)
unfolding trim_left
trim_left-Trimmed s =
    let start = left_loop s.length 0 s in
    let left = left_loop-FromLeft s s.length 0 (omega arith) in
    record {
      start = start;
      within = omega (arith, left.high);
      same = window-items s start (s.length - start) (omega (arith, left.high));
      before = λ j h. (refl, left.blank j (omega arith) h);
      behind = λ j h k. absurd (omega (arith, left.high));
      first = λ e h. left.stop (omega arith);
      last = λ e h. absurd (cc e);
    }

pub trim_right-Trimmed : (s : StringSlice) → s.length < 2 ^ 64 → Trimmed s false true (trim_right s)
unfolding trim_right
trim_right-Trimmed s w =
    let end = right_loop s.length 0 s in
    let right = right_loop-FromRight s s.length 0 (omega arith) w in
    record {
      start = 0;
      within = omega (arith, right.high);
      same = window-items s 0 ((end + 1) % 2 ^ 64) (omega (arith, right.high));
      before = λ j h. absurd (omega arith);
      behind = λ j h k. (refl, right.blank j (omega arith) k);
      first = λ e h. absurd (cc e);
      last = λ e h.
          let some_left : 0 < (end + 1) % 2 ^ 64 = h in
          let at_end : 0 + (end + 1) % 2 ^ 64 - 1 ≡ end = omega (arith, right.word) in
          rw at_end (right.stop some_left);
    }
