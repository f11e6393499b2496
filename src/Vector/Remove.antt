-- ===== src/Vector/Remove.antt =====
-- `vector_remove`, `vector_append` and `vector_pop` over the list of the elements held.
use c_roblib.Base.{
  ℕ, zero, suc, ◌+◌, ◌-◌, ◌^◌, ◌≤◌, ◌<◌, ◌≡◌, refl, ap, ◌∙◌, Bool, false, List, [], ◌∷◌, Option,
  none, some, if◌then◌else◌, ltb, ◌==◌, length, take, arith, Bool-cases, if_cases, inl, inr, set,
  get_or, get_or-set_self,
}
use c_roblib.Base.Shift.{memmove, erase_at, length-memmove, get_or-memmove, take-erase_at}
use c_roblib.Vector.{
  Vector, VecError, vec_ok, empty, index_out_of_range, with_room, append, remove, pop, get,
}
use c_roblib.Vector.Insert.{IsValid, items, Room, roomy, no_memory, ensure_capacity-Room}

abbrev vector_or : {A : Type 0} → Vector A → Option (VecError × Vector A) → Vector A
vector_or default none = default
vector_or default (some (error, v)) = v

module _ {A : Type 0} (blank : A) where
  -- How `vector_remove` ends.
  pub data Removed (v : Vector A) (index : ℕ) : VecError × Option A × Vector A → Type 0 where
    removed :
        {after : Vector A} {element : A}
        → index < v.length
        → get blank v index ≡ (vec_ok, some element)
        → IsValid after
        → items after ≡ erase_at index (items v)
        → Removed v index (vec_ok, some element, after)
    nothing : v.length ≡ 0 → Removed v index (empty, none, v)
    out_of_range : 0 < v.length → v.length ≤ index → Removed v index (index_out_of_range, none, v)

  -- The move, where there is something behind the index.
  module _ (v : Vector A) (index : ℕ) (valid : IsValid v) (inside : index < v.length) where
    abbrev rest : List A
    rest =
        if ltb (index + 1) v.length
        then memmove index (index + 1) (v.length - index - 1) v.buffer
        else v.buffer

    length-rest : length rest ≡ length v.buffer
    length-rest =
        if_cases (λ l. length l ≡ length v.buffer) (ltb (index + 1) v.length)
          (λ more.
            length-memmove index (index + 1) (v.length - index - 1) v.buffer
              (omega (arith, valid.whole, valid.within)) (omega (arith, valid.whole, valid.within)))
          (λ last. refl)

    get_or-rest :
        (j : ℕ)
        → j < v.length - 1
        → get_or rest j blank
          ≡ (if ltb j index then get_or v.buffer j blank else get_or v.buffer (j + 1) blank)
    get_or-rest j h =
        if_cases
          (λ l.
            get_or l j blank
            ≡ (if ltb j index then get_or v.buffer j blank else get_or v.buffer (j + 1) blank))
          (ltb (index + 1) v.length)
          (λ more. ground (
            arith,
            get_or-memmove index (index + 1) (v.length - index - 1) j v.buffer blank
                (omega (arith, valid.whole, valid.within))
                (omega (arith, valid.whole, valid.within)),
          ))
          (λ last. ground arith)

  -- `vector_remove` takes out the element that `vector_get` reads at the index, and those behind it
  -- move up; on an empty vector and past the end it reports that and changes nothing.
  pub remove_lem : (v : Vector A) (index : ℕ) → IsValid v → Removed v index (remove blank v index)
  unfolding remove get
  remove_lem v index valid = elim (Bool-cases (v.length == 0)) [
    | inl none_left ↦ rw none_left (nothing (ground arith))
    | inr some_left ↦ elim (Bool-cases (ltb (v.length - 1) index)) [
      | inl past ↦ rw (some_left, past) (out_of_range (ground arith) (ground arith))
      | inr inside ↦
          let before : index < v.length = ground arith in
          rw (some_left, inside)
            (removed before (rw (some_left, inside) refl)
              (record {
                whole = length-rest v index valid before ∙ valid.whole;
                within = omega (arith, valid.within);
              })
              (take-erase_at v.buffer (rest v index valid before) index v.length blank
                (omega (arith, valid.whole, valid.within)) before
                (omega (arith, length-rest v index valid before, valid.whole, valid.within))
                (get_or-rest v index valid before)))
    ]
  ]

  take-set : (xs : List A) (n : ℕ) (a : A) → take n (set xs n a) ≡ take n xs
  take-set [] zero a = refl
  take-set [] (suc n) a = refl
  take-set (x ∷ xs) zero a = refl
  take-set (x ∷ xs) (suc n) a = ap (◌∷◌ x) (take-set xs n a)

  -- What a pop gives.
  pub record Popped (v : Vector A) (element : A) (out : VecError × Option A × Vector A)
      : Type 0 where
    pub error : out.0 ≡ vec_ok
    pub popped : out.1 ≡ some element
    pub left : items out.2 ≡ items v

  pop_stored :
      (v room : Vector A) (element : A)
      → IsValid room
      → room.length < room.capacity
      → items room ≡ items v
      → Popped v element (
          pop blank (record room {
            buffer = set room.buffer room.length element;
            length = room.length + 1;
          }))
  unfolding pop
  pop_stored v room element valid spare held =
      let more : (room.length + 1 == 0) ≡ false = ground arith in
      let back : room.length + 1 - 1 ≡ room.length = omega arith in
      rw (more, back)
        (record {
          error = refl;
          popped =
              ap some (
                get_or-set_self room.buffer room.length element blank (omega (arith, valid.whole)));
          left = take-set room.buffer room.length element ∙ held;
        })

  pop_room :
      (allocated : Bool) (v : Vector A) (element : A) (after : Vector A)
      (out : Option (VecError × Vector A))
      → Room blank allocated v v.length out
      → with_room blank out (λ room. record room {
        buffer = set room.buffer room.length element;
        length = room.length + 1;
      })
        ≡ some (vec_ok, after)
      → Popped v element (pop blank after)
  pop_room allocated v element after (some (_, room)) (roomy valid same enough spare held) done =
      let stored = record room {
        buffer = set room.buffer room.length element;
        length = room.length + 1;
      } in
      let is_after : stored ≡ after = ap (vector_or stored) done in
      rw (← is_after) (pop_stored v room element valid (omega arith) held)
  pop_room allocated v element after _ (no_memory refused full) done = absurd (cc done)

  -- `vector_pop` behind a `vector_append` that succeeded gives the element back, and the vector
  -- then holds what it held before.
  pub pop-append :
      (allocated : Bool) (v : Vector A) (element : A) (after : Vector A)
      → IsValid v
      → v.capacity < 2 ^ 60
      → append blank allocated v element ≡ some (vec_ok, after)
      → Popped v element (pop blank after)
  unfolding append
  pop-append allocated v element after valid small done =
      pop_room allocated v element after _
        (ensure_capacity-Room blank allocated v valid v.length (omega arith) small
          (omega (arith, valid.within)))
        done
