-- ===== src/Json/Value.antt =====
-- Values, arrays and objects: `pvt_parse_value`, `pvt_parse_array`, `pvt_parse_object` and
-- `pvt_parse_one_entry`. The recursion takes fuel, one unit for each call and each round of a loop.
pub mod Parts
pub mod Total
pub mod Limits
use c_roblib.Base.{
  ℕ, zero, suc, ◌+◌, ◌*◌, Bool, true, false, not, ◌&&◌, ◌||◌, List, [], ◌∷◌, ltb, leb, ◌==◌,
  if◌then◌else◌,
}
use c_roblib.Json.Error.{ErrType, ParseError}
use c_roblib.Json.Parser.{
  Parser, M, stop, Outcome, ok, null, out_of_fuel, ◌>>=◌, ◌>>◌, return, get, modify, add_u32,
  sub_u32,
}
use c_roblib.Json.Scan.{
  current_char, advance, record_error, recorded, blame, skip_whitespace, is_flag_set,
  allow_trailing_commas_in_arrays, allow_trailing_commas_in_objects,
}
use c_roblib.Json.Text.{parse_string}
use c_roblib.Json.Number.{parse_number}
use c_roblib.Json.Tree.{
  JsonValue, json_null, json_boolean, json_string, json_array, json_object, Elements, no_elements,
  element, Entries, no_entries, entry, copy_elements, copy_entries,
}

-- `pvt_parse_literal_impl`: the keyword left, against the text.
unfoldable pub parse_literal : JsonValue → List ℕ → M JsonValue
parse_literal literal [] = return literal
parse_literal literal (k ∷ ks) = do
  c ← get current_char
  (if c == 0
      then record_error ErrType.unexpected_eof
      else if not (k == c)
      then record_error ErrType.unexpected_text
      else (do advance 1; parse_literal literal ks))

abbrev keyword_true : List ℕ
keyword_true = b't' ∷ b'r' ∷ b'u' ∷ b'e' ∷ []

abbrev keyword_false : List ℕ
keyword_false = b'f' ∷ b'a' ∷ b'l' ∷ b's' ∷ b'e' ∷ []

abbrev keyword_null : List ℕ
keyword_null = b'n' ∷ b'u' ∷ b'l' ∷ b'l' ∷ []

-- `context->depth_current++`, the check of `pvt_max_depth_exceeded`, and the `depth_current--` that
-- stands before each return of `pvt_parse_array` and `pvt_parse_object`.
unfoldable pub max_depth_exceeded : M (Unit {0})
max_depth_exceeded p =
    if ltb p.depth_max p.depth_current
    then record_error ErrType.max_nested_depth_exceeded p
    else (ok tt, p)

abbrev pub enter : Parser → Parser
enter p = record p { depth_current = add_u32 p.depth_current 1 }

abbrev pub leave : Parser → Parser
leave p = record p { depth_current = sub_u32 p.depth_current 1 }

abbrev pub left {ℓ} : {A : Type ℓ} → Outcome A × Parser → Outcome A × Parser
left (out, p) = (out, leave p)

unfoldable pub nested {ℓ} : {A : Type ℓ} → M A → M A
unfolding max_depth_exceeded
nested body p = left ((max_depth_exceeded >> body) (enter p))

-- `pvt_parse_value` as an element: an unexpected text is a missing element.
abbrev pub missing_type : ErrType → ErrType
missing_type ErrType.unexpected_text = ErrType.missing_array_element
missing_type e = e

abbrev pub missing_element : Outcome JsonValue × Parser → Outcome JsonValue × Parser
missing_element (null, p) =
    (null, record p { error = record p.error { err_type = missing_type p.error.err_type } })
missing_element (ok v, p) = (ok v, p)
missing_element (out_of_fuel, p) = (out_of_fuel, p)

-- A comma with nothing behind it: `parse_start` and the place reported are the comma's.
unfoldable pub trailing_comma : {A : Type 0} → ℕ → M A
trailing_comma comma_index p = (
  null,
  blame comma_index
      (recorded ErrType.trailing_comma_not_allowed (record p { parse_start = comma_index })),
)

-- The comma between two items. The result says that an allowed trailing comma was read instead.
unfoldable pub behind_comma : ℕ → ℕ → ℕ → M Bool
unfolding trailing_comma
behind_comma close flag comma_index = do
  skip_whitespace
  d ← get current_char
  allowed ← get (is_flag_set flag)
  (if not (d == close)
      then return false
      else if allowed
      then return true
      else trailing_comma comma_index)

unfoldable pub separator : ℕ → ℕ → M Bool
unfolding behind_comma
separator close flag = do
  skip_whitespace
  c ← get current_char
  (if not (c == b',') then record_error ErrType.missing_comma else (do
    comma_index ← get (λ p. p.current_byte_index)
    advance 1
    behind_comma close flag comma_index))

-- Behind the elements.
unfoldable pub close_array : Elements → M JsonValue
close_array nodes = do
  c ← get current_char
  (if not (c == b']')
      then record_error ErrType.unterminated_array
      else (do advance 1; skip_whitespace; return (json_array (copy_elements nodes no_elements))))

unfoldable pub close_object : Entries → M JsonValue
close_object nodes = do
  c ← get current_char
  (if not (c == b'}')
      then record_error ErrType.unterminated_object
      else (do advance 1; return (json_object (copy_entries nodes no_entries))))

-- `pvt_parse_one_entry` up to the value: the key, the colon, and a byte to start the value.
unfoldable pub parse_key : M (List ℕ)
parse_key = do
  skip_whitespace
  modify (λ p. record p { parse_start = p.current_byte_index })
  c ← get current_char
  (if not (c == b'"') then record_error ErrType.missing_object_key else (do
    key ← parse_string
    skip_whitespace
    d ← get current_char
    (if not (d == b':') then record_error ErrType.missing_colon else (do
      advance 1
      skip_whitespace
      e ← get current_char
      (if e == 0 then record_error ErrType.missing_object_value else return key)))))

-- The cases of `pvt_parse_value` that do not recur.
unfoldable pub parse_scalar : ℕ → M JsonValue
unfolding parse_literal
parse_scalar c =
    if c == b'"'
    then (do s ← parse_string; return (json_string s))
    else if c == b'-' || c == b'.' || leb b'0' c && leb c b'9'
    then parse_number
    else if c == b't'
    then parse_literal (json_boolean true) keyword_true
    else if c == b'f'
    then parse_literal (json_boolean false) keyword_false
    else if c == b'n'
    then parse_literal json_null keyword_null
    else record_error ErrType.unexpected_text

unfoldable mutual
  -- `pvt_parse_value`
  pub parse_value : ℕ → M JsonValue
  parse_value zero = stop
  parse_value (suc fuel) = do
    skip_whitespace
    modify (λ q. record q { parse_start = q.current_byte_index })
    c ← get current_char
    (if c == b'{'
        then nested (parse_object fuel)
        else if c == b'['
        then nested (parse_array fuel)
        else parse_scalar c)

  -- `pvt_parse_array`, inside the depth count
  pub parse_array : ℕ → M JsonValue
  parse_array zero = stop
  parse_array (suc fuel) = do
    advance 1
    skip_whitespace
    c ← get current_char
    (if not (c == 0) && not (c == b']')
        then (do
          value ← λ q. missing_element (parse_value fuel q)
          skip_whitespace
          elements_loop fuel (element value no_elements))
        else elements_loop fuel no_elements)

  pub elements_loop : ℕ → Elements → M JsonValue
  elements_loop zero nodes = stop
  elements_loop (suc fuel) nodes = do
    c ← get current_char
    (if not (c == 0) && not (c == b']')
        then (do
          trailing ← separator b']' allow_trailing_commas_in_arrays
          (if trailing then close_array nodes else (do
            value ← λ q. missing_element (parse_value fuel q)
            skip_whitespace
            elements_loop fuel (element value nodes))))
        else close_array nodes)

  -- `pvt_parse_object`, inside the depth count
  pub parse_object : ℕ → M JsonValue
  parse_object zero = stop
  parse_object (suc fuel) = do
    advance 1
    skip_whitespace
    c ← get current_char
    (if not (c == 0) && not (c == b'}')
        then (do
          key ← parse_key
          value ← parse_value fuel
          skip_whitespace
          entries_loop fuel (entry key value no_entries))
        else entries_loop fuel no_entries)

  pub entries_loop : ℕ → Entries → M JsonValue
  entries_loop zero nodes = stop
  entries_loop (suc fuel) nodes = do
    c ← get current_char
    (if not (c == 0) && not (c == b'}')
        then (do
          trailing ← separator b'}' allow_trailing_commas_in_objects
          (if trailing then close_object nodes else (do
            key ← parse_key
            value ← parse_value fuel
            skip_whitespace
            entries_loop fuel (entry key value nodes))))
        else close_object nodes)
