-- ===== src/ArrayList/Remove.antt =====
-- `list_remove` and `list_contains` over the list of the values held.
use c_roblib.Base.{
  ℕ, zero, suc, ◌+◌, ◌-◌, ◌%◌, ◌^◌, ◌≤◌, ◌<◌, ◌≡◌, ◌↔◌, refl, ◌∙◌, true, false, ◌&&◌, ◌||◌, ltb,
  leb, ◌==◌, arith, Bool-cases, inl, inr, get_or, eq-or-ne,
}
use c_roblib.Base.Shift.{shift_down, erase_at, length-shift_down, get_or-shift_down, take-erase_at}
use c_roblib.Collections.{ColValue, value_none, value_null, equals_value}
use c_roblib.ArrayList.{ArrayList, remove, get, contains, contains_loop}
use c_roblib.ArrayList.Insert.{IsValid, items}

-- How `list_remove` ends.
pub data Removed (list : ArrayList) (index : ℕ) : ColValue × ArrayList → Type 0 where
  removed :
      {value : ColValue} {after : ArrayList}
      → index < list.size
      → value ≡ get list index
      → IsValid after
      → items after ≡ erase_at index (items list)
      → Removed list index (value, after)
  out_of_range : list.size ≤ index → Removed list index (value_null, list)

-- `list_remove` takes out the value that `list_get` reads at the index, and the values behind it
-- move up; past the end, it gives the null value and the list stays as it was.
pub remove-Removed :
    (list : ArrayList) (index : ℕ)
    → IsValid list
    → list.capacity < 2 ^ 64
    → index < 2 ^ 64
    → Removed list index (remove list index)
unfolding remove get
remove-Removed list index valid small word =
    let past =
      (list.size == 0 && ltb 0 index)
      || (list.size == index || ltb ((list.size + 2 ^ 64 - 1) % 2 ^ 64) index) in
    elim (Bool-cases past) [
      | inl e ↦ rw e (out_of_range (ground (arith, valid.within)))
      | inr e ↦
          let inside : index < list.size = ground (arith, valid.within) in
          let inside' : leb list.size index ≡ false = ground arith in
          let rest = shift_down value_none (list.size - (index + 1)) (index + 1) list.elements in
          let size =
            length-shift_down value_none (list.size - (index + 1)) (index + 1) list.elements in
          rw e (
            removed inside (rw inside' refl)
              (record { whole = size ∙ valid.whole; within = omega (arith, valid.within) })
              (take-erase_at list.elements rest index list.size value_none
                (omega (arith, valid.whole, valid.within)) inside
                (omega (arith, size, valid.whole, valid.within))
                λ j h. ground (
                  arith,
                  valid.whole,
                  valid.within,
                  get_or-shift_down value_none (list.size - (index + 1)) (index + 1) j list.elements
                      (omega arith) (omega (arith, valid.whole, valid.within)),
                )))
    ]

later :
    (list : ArrayList) (value : ColValue) (i j : ℕ)
    → i ≤ j
    → equals_value (get_or list.elements i value_none) value ≡ false
    → equals_value (get_or list.elements j value_none) value ≡ true
    → suc i ≤ j
later list value i j l not_here here = elim (eq-or-ne i j) [
  | inl same ↦ absurd (cc (not_here, here, same))
  | inr other ↦ omega arith
]

contains_loop-lem :
    (rounds i : ℕ) (list : ArrayList) (value : ColValue)
    → (contains_loop rounds i list value ≡ true) ↔ (
        (j : ℕ) × (i ≤ j)
        × (j < i + rounds)
        × (equals_value (get_or list.elements j value_none) value ≡ true))
unfolding contains_loop
contains_loop-lem zero i list value = (λ h. absurd (cc h), λ (j, l, h, e). absurd (omega arith))
contains_loop-lem (suc rounds) i list value =
    let (there, back) = contains_loop-lem rounds (suc i) list value in
    elim (Bool-cases (equals_value (get_or list.elements i value_none) value)) [
      | inl here ↦ rw (here, contains_loop) (λ h. (i, omega arith, omega arith, here), λ h. refl)
      | inr not_here ↦
          rw (not_here, contains_loop)
            (
              λ h. let (j, l, k, e) = there h in (j, omega arith, omega arith, e),
              λ (j, l, k, e). back (j, later list value i j l not_here e, omega arith, e),
            )
    ]

-- `list_contains` holds exactly where some value of the list equals the given one.
pub contains_lem :
    (list : ArrayList) (value : ColValue)
    → (contains list value ≡ true)
      ↔ ((j : ℕ) × (j < list.size) × (equals_value (get list j) value ≡ true))
unfolding contains get
contains_lem list value =
    let (there, back) = contains_loop-lem list.size 0 list value in
    (
      λ h.
          let (j, l, k, e) = there h in
          let inside : leb list.size j ≡ false = ground arith in (j, omega arith, rw inside e),
      λ (j, l, e).
          let inside : leb list.size j ≡ false = ground arith in
          back (j, omega arith, omega arith, rw inside at e),
    )
