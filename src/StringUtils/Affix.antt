-- ===== src/StringUtils/Affix.antt =====
-- Prefixes, comparisons and padding: `sutil_starts_with` to `sutil_strings_equal_case`, the pads and
-- `sutil_zfill`.
use c_roblib.Base.{
  ℕ, ◌-◌, ◌/◌, ◌<◌, ◌≡◌, ◌↔◌, refl, arith, Bool, true, false, ◌||◌, List, [], ◌∷◌, ◌++◌, none, some,
  if◌then◌else◌, leb, ◌==◌, length, get_or, take, drop, replicate, inl, inr, eq-or-ne, ==_iff,
}
use c_roblib.Base.Int.{ℤ, pos, negsuc}
use c_roblib.Slice.{toupper}
use c_roblib.StringUtils.{CString, copy_char, new_string, strncmp_same, tolower}
use c_roblib.StringUtils.Search.{strncmp_same-take, take-strncmp_same}

-- `sutil_starts_with`
unfoldable pub starts_with : CString → CString → Bool
unfolding strncmp_same
starts_with str none = false
starts_with none (some prefix) = false
starts_with (some str) (some prefix) =
    if length prefix == 0 || length str == 0 then false else strncmp_same (length prefix) str prefix

-- The loop of `sutil_starts_with_ignore_case`.
unfoldable pub upper_loop : List ℕ → List ℕ → Bool
unfolding toupper
upper_loop str [] = true
upper_loop [] (p ∷ prefix) = false
upper_loop (c ∷ str) (p ∷ prefix) = elim (toupper p == toupper c) [
  | true ↦ upper_loop str prefix
  | false ↦ false
]

unfoldable pub starts_with_ignore_case : CString → CString → Bool
unfolding upper_loop
starts_with_ignore_case str none = false
starts_with_ignore_case none (some prefix) = false
starts_with_ignore_case (some str) (some prefix) =
    if length prefix == 0 || length str == 0 then false else upper_loop str prefix

-- Whether `strcmp` is 0, and `strcasecmp`.
unfoldable pub same_through : (ℕ → ℕ) → List ℕ → List ℕ → Bool
same_through f [] [] = true
same_through f [] (y ∷ b) = false
same_through f (x ∷ a) [] = false
same_through f (x ∷ a) (y ∷ b) = elim (f x == f y) [ true ↦ same_through f a b | false ↦ false ]

-- `sutil_strings_equal`; one pointer has one string.
unfoldable pub strings_equal : CString → CString → Bool
unfolding same_through
strings_equal none none = true
strings_equal none (some str2) = false
strings_equal (some str1) none = false
strings_equal (some str1) (some str2) = same_through (λ c. c) str1 str2

-- `Case`
pub data Case : Type 0 where
  case_insensitive case_sensitive : Case

-- `sutil_strings_equal_case`
unfoldable pub strings_equal_case : CString → CString → Case → Bool
unfolding strings_equal same_through tolower
strings_equal_case str1 str2 case_sensitive = strings_equal str1 str2
strings_equal_case none none case_insensitive = true
strings_equal_case none (some str2) case_insensitive = false
strings_equal_case (some str1) none case_insensitive = false
strings_equal_case (some str1) (some str2) case_insensitive = same_through tolower str1 str2

-- `width <= 0 || width <= (int)string_length`, for strings below 2^31 bytes.
unfoldable pub no_padding : ℤ → List ℕ → Bool
no_padding (negsuc n) str = true
no_padding (pos width) str = width == 0 || leb width (length str)

-- The width as a `size_t`, where it is not negative.
abbrev pub width_size : ℤ → ℕ
width_size (negsuc n) = 0
width_size (pos width) = width

-- `sutil_pad_center`, `sutil_pad_left` and `sutil_pad_right`
unfoldable pub pad_center : Bool → CString → ℤ → ℕ → CString
unfolding copy_char no_padding
pad_center allocated none width fill_char = none
pad_center allocated (some str) width fill_char =
    let string_length = length str in
    let left_index = (width_size width - string_length) / 2 in
    if no_padding width str
    then copy_char allocated (some str)
    else new_string allocated (
        replicate left_index fill_char
        ++ (str ++ replicate (width_size width - string_length - left_index) fill_char))

unfoldable pub pad_left : Bool → CString → ℤ → ℕ → CString
unfolding copy_char no_padding
pad_left allocated none width fill_char = none
pad_left allocated (some str) width fill_char =
    if no_padding width str
    then copy_char allocated (some str)
    else new_string allocated (replicate (width_size width - length str) fill_char ++ str)

unfoldable pub pad_right : Bool → CString → ℤ → ℕ → CString
unfolding copy_char no_padding
pad_right allocated none width fill_char = none
pad_right allocated (some str) width fill_char =
    if no_padding width str
    then copy_char allocated (some str)
    else new_string allocated (str ++ replicate (width_size width - length str) fill_char)

-- `sutil_zfill`
unfoldable pub zfill : Bool → CString → ℤ → CString
zfill allocated none width = none
zfill allocated (some str) (negsuc n) = new_string allocated str
zfill allocated (some str) (pos width) =
    let padding = width - length str in
    let sign = get_or str 0 0 in
    let offset = if sign == 45 || sign == 43 then 1 else 0 in
    if leb width (length str)
    then new_string allocated str
    else new_string allocated (take offset str ++ (replicate padding 48 ++ drop offset str))

-- A string that is not empty starts with another that is not exactly where something follows that one.
pub starts_with_lem :
    (str prefix : List ℕ)
    → 0 < length str
    → 0 < length prefix
    → starts_with (some str) (some prefix) ≡ true ↔ (take (length prefix) str ≡ prefix)
unfolding starts_with
starts_with_lem str prefix h k =
    let guard : (length prefix == 0 || length str == 0) ≡ false = ground arith in
    rw guard (strncmp_same-take str prefix, take-strncmp_same str prefix)

same_through_refl : (f : ℕ → ℕ) (a : List ℕ) → same_through f a a ≡ true
unfolding same_through
same_through_refl f [] = refl
same_through_refl f (x ∷ a) = rw ((==_iff (f x) (f x)).1 refl, same_through) (same_through_refl f a)

same_through-eq : (a b : List ℕ) → same_through (λ c. c) a b ≡ true → a ≡ b
unfolding same_through
same_through-eq [] [] h = refl
same_through-eq [] (y ∷ b) h = absurd cc
same_through-eq (x ∷ a) [] h = absurd cc
same_through-eq (x ∷ a) (y ∷ b) h = elim (eq-or-ne x y) [
  | inl same ↦
      let rest : same_through (λ c. c) a b ≡ true = rw ((==_iff x y).1 same, same_through) at h in
      rw (same, same_through-eq a b rest) refl
  | inr other ↦ absurd (ground arith)
]
