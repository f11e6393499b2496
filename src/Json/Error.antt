-- ===== src/Json/Error.antt =====
-- `JsonParseErrType` and `JsonParseError` of include/roblib/json_parser.h. The message text is left
-- out: the parser writes it and never reads it.
use Prim.Native.Nat.{ℕ}
use mathlib.Core.List.{List}
use mathlib.Core.Bool.{Bool, true, false}

pub data ErrType : Type 0 where
  none null_text empty_text unexpected_text unescaped_control_char unexpected_eof : ErrType
  unterminated_array unterminated_string unterminated_object missing_comma missing_colon : ErrType
  invalid_number_format invalid_escape_sequence invalid_unicode_escape : ErrType
  no_preceding_high_surrogate no_following_low_surrogate : ErrType
  reserved_for_high_surrogate reserved_for_low_surrogate codepoint_out_of_range : ErrType
  invalid_utf8_start_byte invalid_utf8_continuation_byte overlong_sequence : ErrType
  max_nested_depth_exceeded unexpected_utf16_encoding unexpected_utf32_encoding : ErrType
  bom_not_allowed trailing_comma_not_allowed missing_object_key missing_object_value : ErrType
  missing_array_element out_of_memory file_not_found file_access_error file_open_failed : ErrType
  expected_eof count : ErrType

pub record ParseError : Type 0 where
  pub err_type : ErrType
  pub first_bad_char : ℕ
  pub line : ℕ
  pub column : ℕ
  pub parse_start : ℕ
  pub parse_end : ℕ
  pub lab_offset : ℕ
  pub look_behind_buffer : List ℕ
  pub look_ahead_buffer : List ℕ

-- `err_type != JSON_ERR_NONE`
abbrev pub is_error : ErrType → Bool
is_error ErrType.none = false
is_error _ = true
