-- ===== src/StringBuilder.antt =====
-- `StringBuilder` and its operations (src/string/string_builder.c). The buffer has its `capacity + 1`
-- bytes; `place` is where it stands in its arena, `none` where it came from `malloc`. A C string is
-- the list of its bytes before the terminator. The product with `CAPACITY_FACTOR`, the double next to
-- 4 / 3, is rounded to a double, from which the conversion drops the fraction: below 2^32 that is
-- the whole part of 4 n / 3. `convert` is what a conversion out of range gives, which C leaves open.
pub mod Text
pub mod Append
pub mod Insert
pub mod Replace
pub mod Grow
pub mod Copy
use c_roblib.Base.{
  ℕ, zero, suc, ◌+◌, ◌-◌, ◌*◌, ◌/◌, ◌%◌, ◌^◌, Bool, true, false, ◌&&◌, ◌||◌, List, [], ◌∷◌, ◌++◌,
  Option, none, some, if◌then◌else◌, ltb, leb, ◌==◌, length, get_or, set, take, drop, replicate,
}
use c_roblib.Base.Shift.{memmove}
use c_roblib.Allocator.{Arena, arena_alloc, top_pointer}

pub record StringBuilder : Type 0 where
  pub capacity : ℕ
  pub length : ℕ
  pub place : Option (ℕ × ℕ)
  pub buffer : List ℕ

-- What the operating system, the C library and the compiler decide.
pub record System : Type 0 where
  pub page_size : ℕ
  pub granted : Bool
  pub convert : ℕ → ℕ

-- `(uint32_t)(n * CAPACITY_FACTOR)`
unfoldable pub scaled : System → ℕ → ℕ
scaled system n = if ltb (n * 4 / 3) (2 ^ 32) then n * 4 / 3 else system.convert (n * 4 / 3)

-- The capacity that `sb_init` and `sb_from_cstring` choose.
unfoldable pub chosen_capacity : System → ℕ → ℕ → ℕ
unfolding scaled
chosen_capacity system capacity str_len =
    let max_len = if ltb str_len capacity then capacity else str_len in
    let ideal_capacity = if scaled system max_len == 0 then 16 else scaled system max_len in
    if ltb capacity ideal_capacity then ideal_capacity else capacity

-- `sb_init`
unfoldable pub init : System → ℕ → List ℕ → Option StringBuilder
unfolding chosen_capacity
init system capacity str =
    let str_len = length str % 2 ^ 32 in
    let capacity = chosen_capacity system capacity str_len in
    if system.granted
    then some (record {
      capacity = capacity;
      length = str_len;
      place = none;
      buffer = take str_len str ++ replicate (capacity + 1 - str_len) 0;
    })
    else none

-- `sb_from_cstring`; the arena gives zero bytes.
unfoldable pub from_cstring : System → Arena → List ℕ → ℕ → Option StringBuilder × Arena
unfolding chosen_capacity arena_alloc
from_cstring system arena cstring capacity =
    let str_len = if leb (2 ^ 32 - 1) (length cstring) then 2 ^ 32 - 2 else length cstring in
    let capacity = chosen_capacity system capacity str_len in
    let sb = arena_alloc system.page_size system.granted arena 24 8 in
    let buf = arena_alloc system.page_size system.granted sb.1 ((capacity + 1) % 2 ^ 32) 1 in
    elim sb.0 [
      | none ↦ (none, buf.1)
      | some header ↦ elim buf.0 [
        | none ↦ (none, buf.1)
        | some place ↦ (
          some (record {
            capacity = capacity;
            length = str_len;
            place = some place;
            buffer = take str_len cstring ++ replicate (capacity + 1 - str_len) 0;
          }),
          buf.1,
        )
      ]
    ]

-- The result of an operation that may fail, with the arena and the builder behind it.
abbrev pub Outcome : Type 0
Outcome = Bool × (Arena × StringBuilder)

-- The buffer behind the arena's first free byte, and any other buffer in the arena.
unfoldable pub grow_in_place : System → Arena → StringBuilder → ℕ → Outcome
unfolding arena_alloc
grow_in_place system arena sb new_capacity =
    let more = new_capacity - sb.capacity in
    let (new_mem, arena) = arena_alloc system.page_size system.granted arena more 1 in
    elim new_mem [
      | none ↦ (false, (arena, sb))
      | some place ↦ (
        true,
        (arena, record sb { capacity = new_capacity; buffer = sb.buffer ++ replicate more 0 }),
      )
    ]

unfoldable pub grow_elsewhere : System → Arena → StringBuilder → ℕ → Outcome
unfolding arena_alloc
grow_elsewhere system arena sb new_capacity =
    let size = (new_capacity + 1) % 2 ^ 32 in
    let (new_buf, arena) = arena_alloc system.page_size system.granted arena size 1 in
    elim new_buf [
      | none ↦ (false, (arena, sb))
      | some place ↦ (
        true,
        (
          arena,
          record sb {
            capacity = new_capacity;
            place = some place;
            buffer = take (sb.capacity + 1) sb.buffer ++ replicate (new_capacity - sb.capacity) 0;
          },
        ),
      )
    ]

-- `realloc`, and the `memset` behind it.
unfoldable pub reallocated : System → Arena → StringBuilder → ℕ → Outcome
reallocated system arena sb new_capacity =
    if system.granted
    then (
      true,
      (
        arena,
        record sb {
          capacity = new_capacity;
          buffer = take sb.capacity sb.buffer ++ replicate (new_capacity - sb.capacity + 1) 0;
        },
      ),
    )
    else (false, (arena, sb))

-- The part of `sb_ensure_capacity` that finds the new buffer, by where the old one is.
unfoldable pub grow_buffer : System → Arena → StringBuilder → ℕ → Option (ℕ × ℕ) → Outcome
unfolding grow_in_place grow_elsewhere reallocated top_pointer
grow_buffer system arena sb new_capacity none = reallocated system arena sb new_capacity
grow_buffer system arena sb new_capacity (some (block, start)) =
    let (top_block, top) = top_pointer arena in
    if top_block == block && top == start + sb.capacity + 1
    then grow_in_place system arena sb new_capacity
    else grow_elsewhere system arena sb new_capacity

-- `sb_ensure_capacity`
unfoldable pub ensure_capacity : System → Arena → StringBuilder → ℕ → Outcome
unfolding scaled grow_buffer
ensure_capacity system arena sb capacity_wanted =
    let new_capacity = scaled system capacity_wanted in
    if leb capacity_wanted sb.capacity
    then (true, (arena, sb))
    else if ltb new_capacity sb.capacity
    then (false, (arena, sb))
    else grow_buffer system arena sb new_capacity sb.place

-- The rest of an operation, where there is room.
abbrev pub with_room : Outcome → (StringBuilder → StringBuilder) → Outcome
with_room (false, state) body = (false, state)
with_room (true, (arena, sb)) body = (true, (arena, body sb))

-- The bytes from a place on replaced by others, as `strcpy`, `strncpy` and assignments do.
unfoldable pub overwrite : ℕ → List ℕ → List ℕ → List ℕ
overwrite at str bytes = take at bytes ++ (str ++ drop (at + length str) bytes)

-- `sb_append_char`
unfoldable pub append_char : System → Arena → StringBuilder → ℕ → Outcome
unfolding ensure_capacity overwrite
append_char system arena sb c =
    if c == 0
    then (true, (arena, sb))
    else with_room (ensure_capacity system arena sb ((sb.length + 1) % 2 ^ 32)) λ sb. record sb {
      buffer = overwrite sb.length (c ∷ 0 ∷ []) sb.buffer;
      length = sb.length + 1;
    }

-- `sb_append_str`
unfoldable pub append_str : System → Arena → StringBuilder → List ℕ → Outcome
unfolding ensure_capacity overwrite
append_str system arena sb str =
    let new_length = (sb.length + length str) % 2 ^ 32 in
    if length str == 0
    then (true, (arena, sb))
    else with_room (ensure_capacity system arena sb new_length) λ sb. record sb {
      buffer = overwrite sb.length (str ++ 0 ∷ []) sb.buffer;
      length = new_length;
    }

-- `sb_insert_char`
unfoldable pub insert_char : System → Arena → StringBuilder → ℕ → ℕ → Outcome
unfolding ensure_capacity overwrite memmove
insert_char system arena sb c index =
    let new_length = (sb.length + 1) % 2 ^ 32 in
    if c == 0
    then (true, (arena, sb))
    else with_room (ensure_capacity system arena sb new_length) λ sb. record sb {
      buffer = overwrite index (c ∷ []) (memmove (index + 1) index (new_length - index) sb.buffer);
      length = new_length;
    }

-- `sb_insert_str`
unfoldable pub insert_str : System → Arena → StringBuilder → List ℕ → ℕ → Outcome
unfolding ensure_capacity overwrite memmove
insert_str system arena sb str index =
    let new_length = (sb.length + length str) % 2 ^ 32 in
    if length str == 0
    then (true, (arena, sb))
    else with_room (ensure_capacity system arena sb new_length) λ sb. record sb {
      buffer =
          overwrite index str (memmove (index + length str) index (sb.length - index) sb.buffer);
      length = new_length;
    }

-- `strncpy`
unfoldable pub strncpy : ℕ → List ℕ → List ℕ
strncpy zero src = []
strncpy (suc n) [] = replicate (suc n) 0
strncpy (suc n) (c ∷ src) = if c == 0 then replicate (suc n) 0 else c ∷ strncpy n src

-- `sb_copy_to`, over the bytes of the buffer it is given
unfoldable pub copy_to : StringBuilder → ℕ → List ℕ → List ℕ
unfolding strncpy overwrite
copy_to sb buf_size out_buffer =
    let copy_len = if ltb sb.length buf_size then sb.length else buf_size in
    set (overwrite 0 (strncpy copy_len sb.buffer) out_buffer) (buf_size - 1) 0

-- Whether the character is among those, as `strstr` finds it.
unfoldable pub has_char : List ℕ → ℕ → Bool
has_char [] c = false
has_char (x ∷ xs) c = (x == c) || has_char xs c

-- The loops of `sb_replace_match_chars`: for one character, and for several.
unfoldable pub is_match : List ℕ → ℕ → Bool
unfolding has_char
is_match match_chars c =
    if length match_chars == 1 then c == get_or match_chars 0 0 else has_char match_chars c

unfoldable pub replace_loop : List ℕ → ℕ → List ℕ → ℕ × List ℕ
unfolding is_match
replace_loop match_chars replacement_char [] = (0, [])
replace_loop match_chars replacement_char (c ∷ rest) =
    let (num_replacements, replaced) = replace_loop match_chars replacement_char rest in
    if c == 0
    then (0, c ∷ rest)
    else if is_match match_chars c
    then (num_replacements + 1, replacement_char ∷ replaced)
    else (num_replacements, c ∷ replaced)

-- `sb_replace_match_chars`; `none` is a null pointer.
unfoldable pub replace_match_chars : StringBuilder → Option (List ℕ) → ℕ → ℕ × StringBuilder
unfolding replace_loop
replace_match_chars sb none replacement_char = (0, sb)
replace_match_chars sb (some match_chars) replacement_char =
    let (num_replacements, buffer) = replace_loop match_chars replacement_char sb.buffer in
    if length match_chars == 0 || replacement_char == 0
    then (0, sb)
    else (num_replacements, record sb { buffer = buffer })
