-- ===== src/Json/Scan.antt =====
-- The string source (`string_current_char` to `string_sprint_n_lookahead_chars`), the moves of the
-- scanner over it, white space, configuration flags and error records.
pub mod Moves
pub mod Ends
pub mod Total
use c_roblib.Base.{
  ℕ, zero, suc, ◌+◌, ◌-◌, ◌*◌, ◌/◌, ◌%◌, ◌^◌, min, Bool, true, false, not, ◌&&◌, ◌||◌, List, [],
  ◌∷◌, ◌++◌, Option, none, some, ltb, leb, ◌==◌, if◌then◌else◌, length, get_or, take, drop,
  replicate, bit_and, bit_or,
}
use c_roblib.Json.Error.{ErrType, ParseError}
use c_roblib.Json.Parser.{
  Parser, Outcome, ok, null, out_of_fuel, M, ◌>>=◌, ◌>>◌, return, fail, modify, get, add_u32,
  sub_u32,
}
use c_roblib.Ring
use c_roblib.Ring.{Ring}

-- The byte at an index of `json_text`, and the C string that starts there.
abbrev pub byte_at : Parser → ℕ → ℕ
byte_at p i = get_or p.text i 0

unfoldable pub until_nul : List ℕ → List ℕ
until_nul [] = []
until_nul (c ∷ cs) = if c == 0 then [] else c ∷ until_nul cs

-- `string_current_char`: both of its returns read the same byte.
abbrev pub current_char : Parser → ℕ
current_char p = byte_at p p.current_byte_index

-- `string_peek_next_char` and `string_peek_lookahead_chars`; `none` is EOF.
unfoldable pub peek_next_char : Parser → Option ℕ
peek_next_char p =
    if leb p.length_bytes (add_u32 p.current_byte_index 1)
    then none
    else some (byte_at p (add_u32 p.current_byte_index 1))

unfoldable pub peek_lookahead_chars : Parser → ℕ → Option ℕ
peek_lookahead_chars p lookahead =
    if leb p.length_bytes (add_u32 p.current_byte_index lookahead)
    then none
    else some (byte_at p (add_u32 p.current_byte_index lookahead))

-- What `snprintf(cb, n + 1, "%s", start)` leaves in the first `n` bytes of the zeroed `cb`.
copied : ℕ → List ℕ → List ℕ
copied n start = take n (take n (until_nul start) ++ replicate n 0)

-- The look-behind part of `string_advance_n_bytes`.
unfoldable pub remember : Ring → List ℕ → ℕ → Ring
unfolding copied
remember r start num_bytes =
    if num_bytes == 1
    then Ring.add_char r (get_or start 0 0)
    else if ltb 1 num_bytes
    then (let clamped = if ltb r.capacity num_bytes then min r.capacity 128 else num_bytes in
        let from = drop (num_bytes - clamped) start in
        if get_or from 0 0 == 0 then r else Ring.add_str r (copied clamped from))
    else r

-- `string_advance_n_bytes`: the parser after it, and the count that it returns.
unfoldable pub string_advance_n_bytes : Parser → ℕ → ℕ × Parser
string_advance_n_bytes p num_bytes =
    let behind = remember p.look_behind (drop p.current_byte_index p.text) num_bytes in
    if ltb p.length_bytes (add_u32 p.current_byte_index num_bytes)
    then (0, record p { look_behind = behind; current_byte_index = p.length_bytes })
    else (
      num_bytes,
      record p {
        look_behind = behind;
        current_byte_index = add_u32 p.current_byte_index num_bytes;
      },
    )

-- `pvt_advance`
unfoldable pub advanced : Parser → ℕ → Parser
unfolding string_advance_n_bytes
advanced p char_count =
    let (bytes_advanced, p') = string_advance_n_bytes p char_count in
    record p' { column = add_u32 p'.column bytes_advanced }

abbrev pub advance : ℕ → M (Unit {0})
advance n = modify (λ p. advanced p n)

-- `jsonp_is_context_config_flag_set`: `1 << flag` for the flags of `JsonConfigFlag`.
unfoldable pub is_flag_set : ℕ → Parser → Bool
is_flag_set flag p = not (bit_and p.config_flags (2 ^ flag) == 0)

abbrev pub allow_trailing_commas_in_arrays : ℕ
allow_trailing_commas_in_arrays = 0

abbrev pub allow_trailing_commas_in_objects : ℕ
allow_trailing_commas_in_objects = 1

abbrev pub allow_unicode_u_escape : ℕ
allow_unicode_u_escape = 2

abbrev pub fail_on_initial_bom : ℕ
fail_on_initial_bom = 7

-- One round of the loop in `pvt_skip_whitespace`.
unfoldable pub skip_one : Parser → Parser
skip_one p =
    if current_char p == b'\n' || current_char p == b'\r'
    then record (advanced (record p { line = add_u32 p.line 1 }) 1) { column = 0 }
    else advanced p 1

unfoldable pub skip_loop : ℕ → M (Unit {0})
skip_loop zero p = (out_of_fuel, p)
skip_loop (suc fuel) p = elim (p.ws_table (current_char p)) [
  | true ↦ skip_loop fuel (skip_one p)
  | false ↦ (ok tt, p)
]

-- `pvt_skip_whitespace`. Each round moves by a byte, so the fuel is the length and one more.
unfoldable pub skip_whitespace : M (Unit {0})
unfolding skip_loop
skip_whitespace p = skip_loop (suc p.length_bytes) p

-- `string_sprint_n_lookahead_chars` writes over the front of the buffer and leaves the rest.
unfoldable pub sprint_lookahead : Parser → ℕ → List ℕ → List ℕ
sprint_lookahead p n buffer =
    let s = take n (until_nul (drop p.current_byte_index p.text)) in s ++ drop (length s) buffer

-- `pvt_record_error`
unfoldable pub recorded : ErrType → Parser → Parser
recorded err_type p = record p {
  parse_end = p.current_byte_index;
  error = record p.error {
    err_type = err_type;
    first_bad_char = p.current_byte_index;
    line = p.line;
    column = p.column;
    parse_start = p.parse_start;
    parse_end = p.current_byte_index;
    look_behind_buffer = Ring.sprint_buffer p.look_behind;
    look_ahead_buffer = sprint_lookahead p 40 p.error.look_ahead_buffer;
  };
}

-- `pvt_record_error(…); return nullptr;`
abbrev pub record_error {ℓ} : {A : Type ℓ} → ErrType → M A
record_error err_type p = (null, recorded err_type p)

-- The correction of the place that some callers make behind `pvt_record_error`.
unfoldable pub blame : ℕ → Parser → Parser
blame index p = record p {
  error = record p.error {
    first_bad_char = index;
    column = index;
    lab_offset = sub_u32 p.current_byte_index index;
  };
}
