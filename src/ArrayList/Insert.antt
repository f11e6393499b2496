-- ===== src/ArrayList/Insert.antt =====
-- `list_insert` and `list_append` over the list of the values held.
use c_roblib.Base.{
  ℕ, ◌+◌, ◌-◌, ◌*◌, ◌%◌, ◌^◌, ◌≤◌, ◌<◌, ◌≡◌, refl, ap, ◌∙◌, Bool, false, List, none, Option, some,
  if◌then◌else◌, ltb, leb, ◌==◌, length, take, arith, Bool-cases, if_cases, inl, inr, length-append,
  take-append, length-replicate, length-set, set, replicate,
}
use c_roblib.Base.Shift.{
  shift_up, insert_at, length-shift_up, get_or-shift_up, get_or-set, take-insert_at,
}
use c_roblib.Base.Doubling.{doubled, doubled-Doubled, Doubled}
use c_roblib.Collections.{
  ColValue, value_none, CollectionsError, col_ok, out_of_mem, index_out_of_range,
}
use c_roblib.ArrayList.{ArrayList, ensure_capacity, reallocated, with_room, insert, append}

-- The buffer is as long as the list says, and the values lie inside.
pub record IsValid (list : ArrayList) : Type 0 where
  pub whole : length list.elements ≡ list.capacity
  pub within : list.size ≤ list.capacity

-- The values that a list holds.
abbrev pub items : ArrayList → List ColValue
items list = take list.size list.elements

-- How `list_ensure_capacity` ends, where it is asked for the size.
data Room (allocated : Bool) (list : ArrayList)
    : Option (CollectionsError × ArrayList) → Type 0 where
  roomy :
      {room : ArrayList}
      → IsValid room
      → room.size ≡ list.size
      → room.size < room.capacity
      → items room ≡ items list
      → room.value_policy ≡ list.value_policy
      → Room allocated list (some (col_ok, room))
  no_memory :
      allocated ≡ false → list.size ≡ list.capacity → Room allocated list (some (out_of_mem, list))

module _ (allocated : Bool) (list : ArrayList) (valid : IsValid list) where
  reallocated-Room :
      (n : ℕ) → list.capacity < n → Room allocated list (some (col_ok, reallocated list n))
  reallocated-Room n more =
      let spare = replicate (n - list.capacity) value_none in
      roomy
        (record {
          whole = omega (
            arith,
            valid.whole,
            length-append list.elements spare,
            length-replicate (n - list.capacity) value_none,
          );
          within = omega (arith, valid.within);
        })
        refl (omega (arith, valid.within))
        (take-append list.size list.elements spare (omega (arith, valid.whole, valid.within))) refl

  grown-Room :
      (wanted : ℕ) (out : Option ℕ)
      → list.size ≡ list.capacity
      → list.capacity < wanted
      → Doubled wanted list.size out
      → Room allocated list (elim out [
        | none ↦ none
        | some n ↦ if allocated then some (col_ok, reallocated list n) else some (out_of_mem, list)
      ])
  grown-Room wanted out full less grown = rw grown.ends (
      if_cases (Room allocated list) allocated
        (λ granted. reallocated-Room grown.result (omega (arith, grown.grown)))
        (λ refused. no_memory refused full))

  ensure_capacity-Room :
      list.capacity < 2 ^ 61 → Room allocated list (ensure_capacity allocated list list.size)
  unfolding ensure_capacity
  ensure_capacity-Room small =
      let below : ltb (2 ^ 63) list.size ≡ false = ground (arith, valid.within) in
      elim (Bool-cases (leb list.capacity list.size)) [
        | inr spare ↦ rw (below, spare) (roomy valid refl (ground arith) refl refl)
        | inl full ↦
            let wanted = if list.capacity == 0 then 1 else list.capacity * 2 % 2 ^ 64 in
            let same : list.size ≡ list.capacity = ground (arith, valid.within) in
            let more : (list.capacity < wanted) × (wanted < 2 ^ 63) × (0 < wanted) = ground arith in
            rw (below, full)
              (grown-Room wanted (doubled 64 wanted list.size) same more.0
                (doubled-Doubled 64 wanted list.size more.1 (omega arith) (omega (arith, more))))
      ]

-- How `list_insert` ends.
pub data Inserted (allocated : Bool) (list : ArrayList) (index : ℕ) (value : ColValue)
    : Option (CollectionsError × ArrayList) → Type 0 where
  inserted :
      {after : ArrayList}
      → IsValid after
      → items after ≡ insert_at index value (items list)
      → after.value_policy ≡ list.value_policy
      → Inserted allocated list index value (some (col_ok, after))
  out_of_range :
      list.size < index → Inserted allocated list index value (some (index_out_of_range, list))
  no_room :
      allocated ≡ false
      → list.size ≡ list.capacity
      → Inserted allocated list index value (some (out_of_mem, list))

-- The loop and the store behind it, in a buffer with room.
module _ (room : ArrayList) (valid : IsValid room) (spare : room.size < room.capacity) (index : ℕ)
    (value : ColValue) (inside : index ≤ room.size) where
  abbrev moved : List ColValue
  moved = shift_up value_none (room.size - index) room.size room.elements

  stored_lem : take (room.size + 1) (set moved index value) ≡ insert_at index value (items room)
  stored_lem =
      let size = length-shift_up value_none (room.size - index) room.size room.elements in
      take-insert_at room.elements (set moved index value) index room.size value_none
        (omega (arith, valid.whole)) value inside
        (omega (arith, length-set moved index value, size, valid.whole))
        λ j h. ground (
          arith,
          get_or-set moved index j value value_none (omega (arith, size, valid.whole)),
          get_or-shift_up value_none (room.size - index) room.size j room.elements
              (omega (arith, valid.whole)) (omega arith),
        )

within_room :
    (allocated : Bool) (list : ArrayList) (index : ℕ) (value : ColValue)
    → index ≤ list.size
    → (out : Option (CollectionsError × ArrayList)) → Room allocated list out
    → Inserted allocated list index value (
        with_room out λ room. record room {
          elements =
              set (shift_up value_none (room.size - index) room.size room.elements) index value;
          size = room.size + 1;
        })
within_room allocated list index value inside (some (_, room))
      (roomy valid same spare held policy) =
    let size = length-shift_up value_none (room.size - index) room.size room.elements in
    inserted
      (record {
        whole = omega (
          arith,
          length-set (moved room valid spare index value (omega arith)) index value,
          size,
          valid.whole,
        );
        within = omega arith;
      })
      (stored_lem room valid spare index value (omega arith) ∙ ap (insert_at index value) held)
      policy
within_room allocated list index value inside _ (no_memory refused full) = no_room refused full

-- `list_insert` puts the value between those before and those from its index on, through growth of
-- the buffer; an index past the end is refused, and where a full list gets no memory, the list stays
-- as it was.
pub insert-Inserted :
    (allocated : Bool) (list : ArrayList) (index : ℕ) (value : ColValue)
    → IsValid list
    → list.capacity < 2 ^ 61
    → Inserted allocated list index value (insert allocated list index value)
unfolding insert
insert-Inserted allocated list index value valid small = elim (Bool-cases (ltb list.size index)) [
  | inl past ↦ rw past (out_of_range (ground arith))
  | inr inside ↦ rw inside (
      within_room allocated list index value (ground arith) _
        (ensure_capacity-Room allocated list valid small))
]

append_room :
    (allocated : Bool) (list : ArrayList) (value : ColValue)
    (out : Option (CollectionsError × ArrayList))
    → Room allocated list out
    → with_room out
        (λ room. record room { elements = set room.elements room.size value; size = room.size + 1 })
      ≡ with_room out (λ room. record room {
        elements =
            set
              (shift_up value_none (room.size - list.size) room.size room.elements)
              list.size
              value;
        size = room.size + 1;
      })
unfolding shift_up
append_room allocated list value (some (_, room)) (roomy valid same spare held policy) =
    let none_moved : room.size - list.size ≡ 0 = omega arith in rw (none_moved, ← same) refl
append_room allocated list value _ (no_memory refused full) = refl

-- `list_append` does what `list_insert` does at the end of the list, errors included.
pub append-insert :
    (allocated : Bool) (list : ArrayList) (value : ColValue)
    → IsValid list
    → list.capacity < 2 ^ 61
    → append allocated list value ≡ insert allocated list list.size value
unfolding append insert
append-insert allocated list value valid small =
    let inside : ltb list.size list.size ≡ false = ground arith in
    rw inside (append_room allocated list value _ (ensure_capacity-Room allocated list valid small))
