-- ===== src/StringUtils.antt =====
-- The functions on ASCII strings of src/string/string_utils.c. A string is the list of its bytes before
-- the terminator, `none` a null pointer, for which the assertions stop a debug build. `allocated` says
-- whether `malloc` gives memory. A `char` is signed, as on x86-64; `tolower` and `toupper` are those
-- of the C locale.
pub mod Search
pub mod Strip
pub mod Stripped
pub mod Affix
pub mod Utf8
use c_roblib.Base.{
  ℕ, zero, suc, ◌+◌, ◌-◌, ◌*◌, ◌/◌, ◌%◌, ◌^◌, Bool, true, false, ◌&&◌, ◌||◌, not, List, [], ◌∷◌,
  ◌++◌, map, Option, none, some, if◌then◌else◌, ltb, leb, ◌==◌, length, get_or, take, drop,
  replicate,
}
use c_roblib.Base.Int.{ℤ, pos, negsuc}
use c_roblib.Slice.{toupper}
use c_roblib.StringBuilder.{replace_loop}

abbrev pub CString : Type 0
CString = Option (List ℕ)

abbrev pub int_max : ℕ
int_max = 2 ^ 31 - 1

-- A `char`, converted to `uint32_t`.
unfoldable pub from_char : ℕ → ℕ
from_char c = if ltb c 128 then c else c + 2 ^ 32 - 256

-- `sutil_char_at` and `sutil_char_count`
unfoldable pub char_at : CString → ℕ → ℕ
char_at none index = 2 ^ 32 - 1
char_at (some str) index = if leb (length str) index then 2 ^ 32 - 1 else get_or str index 0

unfoldable pub char_count : CString → ℕ
char_count none = 0
char_count (some str) = length str

-- `sutil_char_in`
unfoldable pub char_in : ℕ → List ℕ → Bool
unfolding from_char
char_in c [] = false
char_in c (x ∷ chars) = elim (c == from_char x) [ true ↦ true | false ↦ char_in c chars ]

-- A string that `malloc` gave.
abbrev pub new_string : Bool → List ℕ → CString
new_string allocated text = if allocated then some text else none

-- `sutil_copy_char`
unfoldable pub copy_char : Bool → CString → CString
copy_char allocated none = none
copy_char allocated (some str) = new_string allocated str

-- `sutil_concat_strings`: the second loop of the two, over the arguments that the first one collects,
-- at most `SUTIL_MAX_ARGS` and up to the first null pointer.
unfoldable pub collect : ℕ → List CString → List ℕ
collect zero args = []
collect (suc rounds) [] = []
collect (suc rounds) (none ∷ args) = []
collect (suc rounds) (some next ∷ args) = next ++ collect rounds args

unfoldable pub concat_strings : Bool → CString → List CString → CString
unfolding collect copy_char
concat_strings allocated none args = copy_char allocated (some [])
concat_strings allocated (some str1) args = new_string allocated (str1 ++ collect 1023 args)

-- `sutil_ends_with`, from the last byte on.
unfoldable pub ends_loop : ℕ → ℕ → List ℕ → List ℕ → Bool
ends_loop zero index str suffix = true
ends_loop (suc rounds) index str suffix =
    elim (get_or str (length str - index - 1) 0 == get_or suffix (length suffix - index - 1) 0) [
      | true ↦ ends_loop rounds (suc index) str suffix
      | false ↦ false
    ]

unfoldable pub ends_with : CString → CString → Bool
unfolding ends_loop
ends_with none suffix = false
ends_with (some str) none = false
ends_with (some str) (some suffix) =
    if ltb (length str) (length suffix) then false else ends_loop (length suffix) 0 str suffix

-- Whether `strncmp` is 0.
unfoldable pub strncmp_same : ℕ → List ℕ → List ℕ → Bool
strncmp_same zero a b = true
strncmp_same (suc n) [] [] = true
strncmp_same (suc n) [] (y ∷ b) = false
strncmp_same (suc n) (x ∷ a) [] = false
strncmp_same (suc n) (x ∷ a) (y ∷ b) = elim (x == y) [ true ↦ strncmp_same n a b | false ↦ false ]

-- `sutil_index_start_end_impl_`
unfoldable pub index_loop : ℕ → ℕ → List ℕ → List ℕ → ℤ
unfolding strncmp_same
index_loop zero i str substring = negsuc 0
index_loop (suc rounds) i str substring =
    elim (strncmp_same (length substring) (drop i str) substring) [
      | true ↦ if leb i int_max then pos i else negsuc 0
      | false ↦ index_loop rounds (suc i) str substring
    ]

unfoldable pub index_impl : List ℕ → List ℕ → ℕ → ℕ → ℤ
unfolding index_loop
index_impl str substring start end =
    let str_len = length str in
    let substring_len = length substring in
    let max_index = (str_len + 2 ^ 64 - substring_len) % 2 ^ 64 in
    if ltb str_len substring_len
      || (str_len == 0
          || (ltb int_max str_len
              || (substring_len == 0 || (ltb max_index start || ltb str_len end))))
    then negsuc 0
    else index_loop (end + 1 - start) start str substring

-- `sutil_index_start_end_`, `sutil_index_start_` and `sutil_index_`
unfoldable pub index_start_end : CString → CString → ℕ → ℕ → ℤ
unfolding index_impl
index_start_end none substring start end = negsuc 0
index_start_end (some str) none start end = negsuc 0
index_start_end (some str) (some substring) start end = index_impl str substring start end

unfoldable pub index_start : CString → CString → ℕ → ℤ
unfolding index_start_end
index_start str substring start = index_start_end str substring start (char_count str)

unfoldable pub index : CString → CString → ℤ
unfolding index_start
index str substring = index_start str substring 0

-- `sutil_lower` and `sutil_upper`
unfoldable pub tolower : ℕ → ℕ
tolower c = if leb b'A' c && leb c b'Z' then c + 32 else c

unfoldable pub lower : Bool → CString → CString
unfolding tolower
lower allocated none = none
lower allocated (some str) = new_string allocated (map tolower str)

unfoldable pub upper : Bool → CString → CString
unfolding toupper
upper allocated none = none
upper allocated (some str) = new_string allocated (map toupper str)

-- `sutil_replace_match_chars`: its loops are those of `sb_replace_match_chars`.
unfoldable pub replace_chars : List ℕ → CString → ℕ → ℕ × List ℕ
unfolding replace_loop
replace_chars mutable_str none replacement_char = (0, mutable_str)
replace_chars mutable_str (some match_chars) replacement_char =
    if length match_chars == 0 || replacement_char == 0
    then (0, mutable_str)
    else replace_loop match_chars replacement_char mutable_str
