-- ===== src/Ring.antt =====
-- A ring of characters: src/string/char_ring_buffer.c and include/roblib/char_ring_buffer.h.
-- A byte is a number below 256, as the code reads it back through `unsigned char`. `size_t`
-- additions wrap at 2 ^ 64. A function that changes `*crb` returns the new ring.
pub mod Inv
pub mod Refine
pub mod Strict
pub mod Print
use c_roblib.Base.{
  ℕ, zero, suc, ◌+◌, ◌-◌, ◌%◌, ◌^◌, Bool, true, false, ◌&&◌, List, [], ◌∷◌, ◌++◌, Option, none,
  some, ltb, leb, ◌==◌, if◌then◌else◌, length, get_or, set, drop, replicate,
}

-- `CharRingBuffer`
pub record Ring : Type 0 where
  pub length : ℕ
  pub capacity : ℕ
  pub start_index : ℕ
  pub end_index : ℕ
  pub buffer : List ℕ

abbrev pub add_size : ℕ → ℕ → ℕ
add_size a b = (a + b) % 2 ^ 64

abbrev pub sub_size : ℕ → ℕ → ℕ
sub_size a b = (a + 2 ^ 64 - b) % 2 ^ 64

-- `(i + n) % capacity`
abbrev pub forward : Ring → ℕ → ℕ → ℕ
forward r i n = add_size i n % r.capacity

-- `crb_new_CharRingBuffer`: the arena hands out zeroed storage.
unfoldable pub new : ℕ → Ring
new capacity = record {
  length = 0;
  capacity = capacity;
  start_index = 0;
  end_index = 0;
  buffer = replicate capacity 0;
}

-- `crb_add_char_to_buffer_CharRingBuffer`, which is also the body of the loop in
-- `crb_add_str_to_buffer_CharRingBuffer`: a full ring forgets its oldest byte.
unfoldable pub add_char : Ring → ℕ → Ring
add_char r c =
    if r.length == r.capacity
    then record r {
      start_index = forward r r.start_index 1;
      end_index = forward r r.end_index 1;
      buffer = set r.buffer r.end_index c;
    }
    else record r {
      length = add_size r.length 1;
      end_index = forward r r.end_index 1;
      buffer = set r.buffer r.end_index c;
    }

unfoldable pub add_each : Ring → List ℕ → Ring
add_each r [] = r
add_each r (c ∷ cs) = add_each (add_char r c) cs

-- `crb_add_str_to_buffer_CharRingBuffer`; the list is `src_chars[0..count)`.
unfoldable pub add_str : Ring → List ℕ → Ring
add_str r src =
    if ltb r.capacity (length src)
    then add_each r (drop (length src - r.capacity) src)
    else add_each r src

-- The `long` that the strict functions return.
pub data Reply : Type 0 where
  buffer_full : Reply
  added : ℕ → Reply

-- One round of the strict loop, and the whole of `crb_add_char_to_buffer_strict` past its guard.
append : Ring → ℕ → Ring
append r c = record r {
  length = add_size r.length 1;
  end_index = forward r r.end_index 1;
  buffer = set r.buffer r.end_index c;
}

-- `crb_add_char_to_buffer_strict_CharRingBuffer`
unfoldable pub add_char_strict : Ring → ℕ → Reply × Ring
unfolding append
add_char_strict r c = if leb r.capacity r.length then (buffer_full, r) else (added 1, append r c)

strict_loop : Ring → List ℕ → ℕ → ℕ × Ring
unfolding append
strict_loop r [] n = (n, r)
strict_loop r (c ∷ cs) n = elim (ltb r.length r.capacity) [
  | true ↦ strict_loop (append r c) cs (n + 1)
  | false ↦ (n, r)
]

-- `crb_add_str_to_buffer_strict_CharRingBuffer`
unfoldable pub add_str_strict : Ring → List ℕ → Reply × Ring
unfolding strict_loop
add_str_strict r src =
    if ltb 0 (length src) && leb r.capacity r.length
    then (buffer_full, r)
    else let (n, r') = strict_loop r src 0 in (added n, r')

-- `crb_get_next_char_CharRingBuffer`; `none` is EOF. `length--` runs only at a length above 0.
unfoldable pub get_next_char : Ring → Option ℕ × Ring
get_next_char r = if r.length == 0 then (none, r) else (
  some (get_or r.buffer r.start_index 0),
  record r { length = r.length - 1; start_index = forward r r.start_index 1 },
)

-- `crb_peek_char_CharRingBuffer`; `none` is EOF.
unfoldable pub peek_char : Ring → ℕ → Option ℕ
peek_char r offset =
    if leb r.length offset then none else some (get_or r.buffer (forward r r.start_index offset) 0)

-- `(int) n` widened to `size_t` again
abbrev pub through_int : ℕ → ℕ
through_int n = let w = n % 2 ^ 32 in if ltb w (2 ^ 31) then w else w + 2 ^ 64 - 2 ^ 32

-- `crb_advance_buffer_CharRingBuffer`. The count is computed as the source computes it, also where
-- fewer bytes are stored than are asked for.
unfoldable pub advance_buffer : Ring → ℕ → Option ℕ × Ring
advance_buffer r byte_count =
    if r.length == 0
    then (none, r)
    else (let n =
          through_int (if ltb r.length byte_count then byte_count - r.length else byte_count) in
        (
          some n,
          record r { length = sub_size r.length n; start_index = forward r r.start_index n },
        ))

-- `while (index < bound && bytes_written < length) buffer[bytes_written++] = crb->buffer[index++];`
-- The fuel is `bound - index`, the most rounds that the loop makes.
print_loop : ℕ → Ring → ℕ → List ℕ → ℕ × List ℕ
print_loop zero r index out = (index, out)
print_loop (suc rounds) r index out = elim (ltb (length out) r.length) [
  | true ↦ print_loop rounds r (index + 1) (out ++ get_or r.buffer index 0 ∷ [])
  | false ↦ (index, out)
]

-- `crb_sprint_buffer_CharRingBuffer`: the text written before the terminator.
unfoldable pub sprint_buffer : Ring → List ℕ
unfolding print_loop
sprint_buffer r =
    let (_, out) = print_loop (r.capacity - r.start_index) r r.start_index [] in
    if leb r.end_index r.start_index then (print_loop (r.end_index + 1) r 0 out).1 else out
