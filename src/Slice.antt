-- ===== src/Slice.antt =====
-- String slices: src/string/string_slice.c and include/roblib/string_slice.h. A slice is the bytes
-- at and behind its pointer, as far as the memory goes, and its length; a read behind that memory
-- gives 0. Two slices of one length with the same pointer have the same bytes, so the tests for
-- identity change nothing. `toupper` and `isspace` are those of the C locale.
pub mod Equal
pub mod Search
pub mod Chop
pub mod Split
pub mod Trim
pub mod Suffix
use c_roblib.Base.{
  ℕ, zero, suc, ◌+◌, ◌-◌, ◌%◌, ◌^◌, Bool, true, false, ◌&&◌, ◌||◌, List, [], ◌∷◌, Option, none,
  some, if◌then◌else◌, ltb, leb, ◌==◌, length, take, drop, get_or,
}
use c_roblib.Base.Int.{ℤ, pos, negsuc, sub_ℕ}

pub record StringSlice : Type 0 where
  pub bytes : List ℕ
  pub length : ℕ

-- The bytes of a slice.
abbrev pub items : StringSlice → List ℕ
items s = take s.length s.bytes

abbrev pub empty_string_slice : StringSlice
empty_string_slice = record { bytes = 0 ∷ []; length = 0 }

unfoldable pub toupper : ℕ → ℕ
toupper c = if leb b'a' c && leb c b'z' then c - 32 else c

unfoldable pub isspace : ℕ → Bool
isspace c = c == 32 || leb 9 c && leb c 13

-- `slice_from_cstring` of the bytes before the terminator.
unfoldable pub from_cstring : List ℕ → StringSlice
from_cstring text = record { bytes = text; length = length text }

-- The loops over two slices, which differ in what they do to a byte.
unfoldable pub bytes_agree : (ℕ → ℕ) → ℕ → ℕ → StringSlice → StringSlice → Bool
bytes_agree f zero i s1 s2 = true
bytes_agree f (suc rounds) i s1 s2 = elim (f (get_or s1.bytes i 0) == f (get_or s2.bytes i 0)) [
  | true ↦ bytes_agree f rounds (suc i) s1 s2
  | false ↦ false
]

unfoldable pub compare_loop : (ℕ → ℕ) → ℕ → ℕ → StringSlice → StringSlice → ℤ
compare_loop f zero i s1 s2 = pos 0
compare_loop f (suc rounds) i s1 s2 =
    let a = f (get_or s1.bytes i 0) in
    let b = f (get_or s2.bytes i 0) in
    elim (a == b) [ true ↦ compare_loop f rounds (suc i) s1 s2 | false ↦ sub_ℕ a b ]

compare_through : (ℕ → ℕ) → StringSlice → StringSlice → ℤ
unfolding compare_loop
compare_through f s1 s2 =
    if ltb s1.length s2.length
    then negsuc 0
    else if ltb s2.length s1.length
    then pos 1
    else compare_loop f s1.length 0 s1 s2

unfoldable pub slice_compare : StringSlice → StringSlice → ℤ
unfolding compare_through
slice_compare s1 s2 = compare_through (λ c. c) s1 s2

unfoldable pub slice_compare_by_case : StringSlice → StringSlice → Bool → ℤ
unfolding slice_compare compare_through toupper
slice_compare_by_case s1 s2 false = slice_compare s1 s2
slice_compare_by_case s1 s2 true = compare_through toupper s1 s2

unfoldable pub slice_equal : StringSlice → StringSlice → Bool
unfolding bytes_agree
slice_equal s1 s2 = if s1.length == s2.length then bytes_agree (λ c. c) s1.length 0 s1 s2 else false

unfoldable pub slice_equal_by_case : StringSlice → StringSlice → Bool → Bool
unfolding slice_equal bytes_agree toupper
slice_equal_by_case s1 s2 false = slice_equal s1 s2
slice_equal_by_case s1 s2 true =
    if s1.length == s2.length then bytes_agree toupper s1.length 0 s1 s2 else false

unfoldable pub starts_with : StringSlice → StringSlice → Bool
unfolding bytes_agree
starts_with s prefix =
    if ltb s.length prefix.length then false else bytes_agree (λ c. c) prefix.length 0 s prefix

-- This one does not compare the lengths.
unfoldable pub starts_with_by_case : StringSlice → StringSlice → Bool → Bool
unfolding starts_with bytes_agree toupper
starts_with_by_case s prefix false = starts_with s prefix
starts_with_by_case s prefix true = bytes_agree toupper prefix.length 0 s prefix

-- `s.data[s.length - i] != suffix.data[suffix.length - i]` for each i below the suffix's length.
ends_loop : (ℕ → ℕ) → ℕ → ℕ → StringSlice → StringSlice → Bool
ends_loop f zero i s suffix = true
ends_loop f (suc rounds) i s suffix =
    let a = f (get_or s.bytes (s.length - i) 0) in
    let b = f (get_or suffix.bytes (suffix.length - i) 0) in
    elim (a == b) [ true ↦ ends_loop f rounds (suc i) s suffix | false ↦ false ]

unfoldable pub ends_with : StringSlice → StringSlice → Bool
unfolding ends_loop
ends_with s suffix =
    if ltb s.length suffix.length then false else ends_loop (λ c. c) suffix.length 0 s suffix

unfoldable pub ends_with_by_case : StringSlice → StringSlice → Bool → Bool
unfolding ends_with ends_loop toupper
ends_with_by_case s suffix false = ends_with s suffix
ends_with_by_case s suffix true =
    if ltb s.length suffix.length then false else ends_loop toupper suffix.length 0 s suffix

unfoldable pub slice_take : StringSlice → ℕ → StringSlice
slice_take s n = record s { length = if ltb s.length n then s.length else n }

unfoldable pub slice_drop : StringSlice → ℕ → StringSlice
slice_drop s n =
    let m = if ltb s.length n then s.length else n in
    record { bytes = drop m s.bytes; length = s.length - m }

unfoldable pub substring : StringSlice → ℕ → ℕ → StringSlice
substring s start end =
    if ltb s.length start
    then empty_string_slice
    else (let end' = if ltb s.length end then s.length else end in
        if leb end' start
        then empty_string_slice
        else record { bytes = drop start s.bytes; length = end' - start })

-- `slice_snprint`: the bytes written before the terminator.
unfoldable pub snprint : StringSlice → ℕ → List ℕ
snprint s n = take (if ltb s.length n then s.length else n) s.bytes
