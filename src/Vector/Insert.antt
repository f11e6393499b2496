-- ===== src/Vector/Insert.antt =====
-- `vector_insert`, `vector_append` and `vector_append_all` over the list of the elements held.
use c_roblib.Base.{
  ℕ, ◌+◌, ◌-◌, ◌*◌, ◌%◌, ◌^◌, ◌≤◌, ◌<◌, ◌≡◌, refl, ap, ◌∙◌, Bool, false, ◌||◌, List, Option, none,
  some, if◌then◌else◌, ltb, leb, ◌==◌, length, take, arith, Bool-cases, if_cases, inl, inr,
  length-append, take-append, length-replicate, length-set, set, replicate,
}
use c_roblib.Base.Shift.{
  memmove, insert_at, length-memmove, get_or-memmove, get_or-set, take-insert_at,
}
use c_roblib.Base.Doubling.{doubled, doubled-Doubled, Doubled}
use c_roblib.Vector.{
  Vector, VecError, vec_ok, overflow, out_of_mem, index_out_of_range, ensure_capacity, reallocated,
  with_room, insert,
}

-- The buffer is as long as the vector says, and the elements lie inside.
pub record IsValid {A : Type 0} (v : Vector A) : Type 0 where
  pub whole : length v.buffer ≡ v.capacity
  pub within : v.length ≤ v.capacity

-- The elements that a vector holds.
abbrev pub items : {A : Type 0} → Vector A → List A
items v = take v.length v.buffer

module _ {A : Type 0} (blank : A) where
  -- How `vector_ensure_capacity` ends.
  pub data Room (allocated : Bool) (v : Vector A) (wanted : ℕ)
      : Option (VecError × Vector A) → Type 0 where
    roomy :
        {room : Vector A}
        → IsValid room
        → room.length ≡ v.length
        → wanted ≤ room.capacity
        → v.length < room.capacity
        → items room ≡ items v
        → Room allocated v wanted (some (vec_ok, room))
    no_memory :
        (allocated ≡ false) → v.capacity ≤ wanted → Room allocated v wanted (some (out_of_mem, v))

  module _ (allocated : Bool) (v : Vector A) (valid : IsValid v) (wanted : ℕ)
      (some_room : v.length ≤ wanted) where
    reallocated-Room :
        (n : ℕ)
        → v.capacity < n
        → wanted ≤ n
        → Room allocated v wanted (some (vec_ok, reallocated blank v n))
    reallocated-Room n more enough =
        let spare = replicate (n - v.capacity) blank in
        roomy
          (record {
            whole = omega (
              arith,
              valid.whole,
              length-append v.buffer spare,
              length-replicate (n - v.capacity) blank,
            );
            within = omega (arith, valid.within);
          })
          refl enough (omega (arith, valid.within))
          (take-append v.length v.buffer spare (omega (arith, valid.whole, valid.within)))

    grown-Room :
        (start : ℕ) (out : Option ℕ)
        → v.capacity < start
        → start < 2 ^ 61
        → wanted < 2 ^ 60
        → v.capacity ≤ wanted
        → Doubled start wanted out
        → Room allocated v wanted (elim out [
          | none ↦ none
          | some new_capacity ↦
              if ltb (2 ^ 63 - 1) v.capacity || ltb (2 ^ 62 - 1) new_capacity
              then some (overflow, v)
              else if allocated
              then some (vec_ok, reallocated blank v new_capacity)
              else some (out_of_mem, v)
        ])
    grown-Room start out less small word full grown =
        let n = grown.result in
        let tight : n < 2 ^ 62 = elim grown.tight [
          | inl e ↦ omega arith
          | inr below ↦ omega arith
        ] in
        let fits : (ltb (2 ^ 63 - 1) v.capacity || ltb (2 ^ 62 - 1) n) ≡ false = ground arith in
        rw (grown.ends, fits)
          (if_cases (Room allocated v wanted) allocated
            (λ granted. reallocated-Room n (omega (arith, grown.grown)) grown.enough)
            (λ refused. no_memory refused full))

    pub ensure_capacity-Room :
        v.capacity < 2 ^ 60
        → wanted < 2 ^ 60
        → Room allocated v wanted (ensure_capacity blank allocated v wanted)
    unfolding ensure_capacity
    ensure_capacity-Room small word = elim (Bool-cases (leb v.capacity wanted)) [
      | inr spare ↦ rw spare (roomy valid refl (ground arith) (ground arith) refl)
      | inl full ↦
          let start = if v.capacity == 0 then 1 else v.capacity * 2 % 2 ^ 64 in
          let more : (v.capacity < start) × (start < 2 ^ 61) × (0 < start) = ground arith in
          rw full (
            grown-Room start (doubled 64 start wanted) more.0 more.1 word (ground arith) (
              doubled-Doubled 64 start wanted (omega (arith, more)) (omega arith)
                (omega (arith, more))))
    ]

  -- How `vector_insert` ends.
  pub data Inserted (allocated : Bool) (v : Vector A) (element : A) (index : ℕ)
      : Option (VecError × Vector A) → Type 0 where
    inserted :
        {after : Vector A}
        → IsValid after
        → items after ≡ insert_at index element (items v)
        → Inserted allocated v element index (some (vec_ok, after))
    out_of_range :
        v.length < index → Inserted allocated v element index (some (index_out_of_range, v))
    no_room :
        allocated ≡ false
        → v.capacity ≡ v.length
        → Inserted allocated v element index (some (out_of_mem, v))

  -- The move and the store behind it, in a buffer with room.
  module _ (room : Vector A) (valid : IsValid room) (spare : room.length < room.capacity)
      (index : ℕ) (element : A) (inside : index ≤ room.length) where
    abbrev moved : List A
    moved = memmove (index + 1) index (room.length - index) room.buffer

    length-moved : length moved ≡ length room.buffer
    length-moved =
        length-memmove (index + 1) index (room.length - index) room.buffer
          (omega (arith, valid.whole)) (omega (arith, valid.whole))

    stored_lem :
        take (room.length + 1) (set moved index element) ≡ insert_at index element (items room)
    stored_lem =
        take-insert_at room.buffer (set moved index element) index room.length blank
          (omega (arith, valid.whole)) element inside
          (omega (arith, length-set moved index element, length-moved, valid.whole))
          λ j h. ground (
            arith,
            get_or-set moved index j element blank (omega (arith, length-moved, valid.whole)),
            get_or-memmove (index + 1) index (room.length - index) j room.buffer blank
                (omega (arith, valid.whole)) (omega (arith, valid.whole)),
          )

  within_room :
      (allocated : Bool) (v : Vector A) (element : A) (index : ℕ)
      → IsValid v
      → index ≤ v.length
      → (out : Option (VecError × Vector A)) → Room allocated v v.length out
      → Inserted allocated v element index (
          with_room blank out λ room. record room {
            buffer =
                set (memmove (index + 1) index (room.length - index) room.buffer) index element;
            length = room.length + 1;
          })
  within_room allocated v element index before inside (some (_, room))
        (roomy valid same enough spare held) =
      let room_left : room.length < room.capacity = omega arith in
      let inside' : index ≤ room.length = omega arith in
      inserted
        (record {
          whole = omega (
            arith,
            length-set (moved room valid room_left index element inside') index element,
            length-moved room valid room_left index element inside',
            valid.whole,
          );
          within = omega arith;
        })
        (stored_lem room valid room_left index element inside' ∙ ap (insert_at index element) held)
  within_room allocated v element index before inside _ (no_memory refused full) =
      no_room refused (omega (arith, before.within))

  -- `vector_insert` puts the element between those before and those from its index on, through
  -- growth of the buffer; an index past the end is refused, and where a full vector gets no memory,
  -- it stays as it was.
  pub insert_lem :
      (allocated : Bool) (v : Vector A) (element : A) (index : ℕ)
      → IsValid v
      → v.capacity < 2 ^ 60
      → Inserted allocated v element index (insert blank allocated v element index)
  unfolding insert
  insert_lem allocated v element index valid small = elim (Bool-cases (ltb v.length index)) [
    | inl past ↦ rw past (out_of_range (ground arith))
    | inr inside ↦ rw inside (
        within_room allocated v element index valid (ground arith) _ (
          ensure_capacity-Room allocated v valid v.length (omega arith) small
            (omega (arith, valid.within))))
  ]
