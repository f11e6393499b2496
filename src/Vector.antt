-- ===== src/Vector.antt =====
-- The vector: src/vector/vector.c and src/vector/vector.h. The element type is a parameter, as in
-- src/vector/vec_template.inc; `buffer` is all of `v->v`, of which the vector uses the first
-- `length`. `allocated` says whether the allocator has room, `none` that a call never returns, and
-- `blank` is what memory holds that is not written. The pointers are not null.
pub mod Insert
pub mod Remove
use c_roblib.Base.{
  ℕ, zero, suc, ◌+◌, ◌-◌, ◌*◌, ◌/◌, ◌%◌, ◌^◌, Bool, true, false, ◌||◌, List, [], ◌∷◌, ◌++◌, Option,
  none, some, if◌then◌else◌, ltb, leb, ◌==◌, get_or, set, take, drop, replicate, length,
}
use c_roblib.Base.Shift.{memmove}
use c_roblib.Base.Doubling.{doubled}

-- `VecError`
pub data VecError : Type 0 where
  vec_ok null_arg zero_cap overflow out_of_mem empty index_out_of_range : VecError

pub record Vector (A : Type 0) : Type 0 where
  pub buffer : List A
  pub length : ℕ
  pub capacity : ℕ

module _ {A : Type 0} (blank : A) where
  -- `realloc` to `new_capacity` elements.
  abbrev reallocated : Vector A → ℕ → Vector A
  reallocated v new_capacity = record v {
    buffer = v.buffer ++ replicate (new_capacity - v.capacity) blank;
    capacity = new_capacity;
  }

  -- `vector_ensure_capacity`; `SIZE_MAX / sizeof(int)` is 2 ^ 62 - 1.
  unfoldable pub ensure_capacity : Bool → Vector A → ℕ → Option (VecError × Vector A)
  ensure_capacity allocated v capacity =
      if leb v.capacity capacity
      then elim (doubled 64 (if v.capacity == 0 then 1 else v.capacity * 2 % 2 ^ 64) capacity) [
        | none ↦ none
        | some new_capacity ↦
            if ltb (2 ^ 63 - 1) v.capacity || ltb (2 ^ 62 - 1) new_capacity
            then some (overflow, v)
            else if allocated
            then some (vec_ok, reallocated v new_capacity)
            else some (out_of_mem, v)
      ]
      else some (vec_ok, v)

  -- What a call does once there is room.
  abbrev with_room :
      Option (VecError × Vector A) → (Vector A → Vector A) → Option (VecError × Vector A)
  with_room none store = none
  with_room (some (vec_ok, v)) store = some (vec_ok, store v)
  with_room (some (error, v)) store = some (error, v)

  -- `vector_append`
  unfoldable pub append : Bool → Vector A → A → Option (VecError × Vector A)
  unfolding ensure_capacity
  append allocated v element =
      with_room (ensure_capacity allocated v v.length) λ room. record room {
        buffer = set room.buffer room.length element;
        length = room.length + 1;
      }

  -- `memcpy` of elements behind those of the vector.
  abbrev copied : List A → ℕ → List A → List A
  copied buffer at elements = take at buffer ++ (elements ++ drop (at + length elements) buffer)

  -- `vector_append_all`
  unfoldable pub append_all : Bool → Vector A → List A → Option (VecError × Vector A)
  unfolding ensure_capacity
  append_all allocated v elements =
      with_room (ensure_capacity allocated v ((v.length + length elements) % 2 ^ 64)) λ room.
        record room {
          buffer = copied room.buffer room.length elements;
          length = (room.length + length elements) % 2 ^ 64;
        }

  -- `vector_insert`
  unfoldable pub insert : Bool → Vector A → A → ℕ → Option (VecError × Vector A)
  unfolding ensure_capacity memmove
  insert allocated v element index =
      if ltb v.length index
      then some (index_out_of_range, v)
      else with_room (ensure_capacity allocated v v.length) λ room. record room {
        buffer = set (memmove (index + 1) index (room.length - index) room.buffer) index element;
        length = room.length + 1;
      }

  -- `vector_get`: the error, and the element written to `*out`, if any.
  unfoldable pub get : Vector A → ℕ → VecError × Option A
  get v index =
      if v.length == 0
      then (empty, none)
      else if ltb (v.length - 1) index
      then (index_out_of_range, none)
      else (vec_ok, some (get_or v.buffer index blank))

  -- `vector_get_or`
  unfoldable pub get_or_fallback : Vector A → ℕ → A → VecError × Option A
  get_or_fallback v index fallback =
      if v.length == 0
      then (empty, none)
      else if ltb (v.length - 1) index
      then (vec_ok, some fallback)
      else (vec_ok, some (get_or v.buffer index blank))

  -- `vector_pop`, `vector_pop_or`
  unfoldable pub pop : Vector A → VecError × Option A × Vector A
  pop v =
      if v.length == 0
      then (empty, none, v)
      else (vec_ok, some (get_or v.buffer (v.length - 1) blank), record v { length = v.length - 1 })

  unfoldable pub pop_or : Vector A → A → A × Vector A
  pop_or v fallback =
      if v.length == 0
      then (fallback, v)
      else (get_or v.buffer (v.length - 1) blank, record v { length = v.length - 1 })

  -- `vector_remove`
  unfoldable pub remove : Vector A → ℕ → VecError × Option A × Vector A
  unfolding memmove
  remove v index =
      if v.length == 0
      then (empty, none, v)
      else if ltb (v.length - 1) index
      then (index_out_of_range, none, v)
      else (
        vec_ok,
        some (get_or v.buffer index blank),
        record v {
          buffer =
              if ltb (index + 1) v.length
              then memmove index (index + 1) (v.length - index - 1) v.buffer
              else v.buffer;
          length = v.length - 1;
        },
      )

  -- `vector_init`
  unfoldable pub init : Bool → ℕ → VecError × Option (Vector A)
  init allocated initial_capacity =
      if ltb (2 ^ 62 - 1) initial_capacity
      then (overflow, none)
      else if allocated
      then (
        vec_ok,
        some (record {
          buffer = replicate initial_capacity blank;
          length = 0;
          capacity = initial_capacity;
        }),
      )
      else (out_of_mem, none)
