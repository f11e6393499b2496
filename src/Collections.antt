-- ===== src/Collections.antt =====
-- What the collections share: src/collections.c and include/roblib/collections.h. A double is its
-- 64-bit pattern, a string the bytes before its terminator, a pointer its address.
pub mod Power
use c_roblib.Base.{
  ℕ, ◌+◌, ◌-◌, ◌/◌, ◌%◌, ◌^◌, Bool, true, false, ◌&&◌, ◌||◌, List, [], ◌∷◌, ltb, bit_or, leb, ◌==◌,
  if◌then◌else◌,
}

-- `ColValue`; a `RefObject` is the string that it holds.
pub data ColValue : Type 0 where
  value_none : ColValue
  value_long : ℕ → ColValue
  value_double : ℕ → ColValue
  value_string : List ℕ → ColValue
  value_ref_object : List ℕ → ColValue
  value_void_ptr : ℕ → ColValue
  value_null : ColValue

-- `strcmp(s1, s2) == 0`
unfoldable pub equal_strings : List ℕ → List ℕ → Bool
equal_strings [] [] = true
equal_strings [] (d ∷ ds) = false
equal_strings (c ∷ cs) [] = false
equal_strings (c ∷ cs) (d ∷ ds) = (c == d) && equal_strings cs ds

-- `isnan`, and `if (d == 0.0) d = 0.0;`, which turns -0.0 into 0.0.
abbrev pub is_nan : ℕ → Bool
is_nan d = ltb 0x7ff0000000000000 (d % 2 ^ 63)

abbrev pub one_zero : ℕ → ℕ
one_zero d = if d == 2 ^ 63 then 0 else d

-- `col_equals_double`
unfoldable pub equals_double : ℕ → ℕ → Bool
equals_double d1 d2 = if is_nan d1 || is_nan d2 then false else one_zero d1 == one_zero d2

-- `col_equals_ColValue`
unfoldable pub equals_value : ColValue → ColValue → Bool
unfolding equal_strings equals_double
equals_value (value_long a) (value_long b) = a == b
equals_value (value_double a) (value_double b) = equals_double a b
equals_value (value_string a) (value_string b) = equal_strings a b
equals_value (value_ref_object a) (value_ref_object b) = equal_strings a b
equals_value (value_void_ptr a) (value_void_ptr b) = a == b
equals_value value_null value_null = true
equals_value _ _ = false

-- `wanted_size |= wanted_size >> places`
abbrev pub smear : ℕ → ℕ → ℕ
smear places w = bit_or w (w / 2 ^ places)

unfoldable pub fill_below : ℕ → ℕ
fill_below w = smear 32 (smear 16 (smear 8 (smear 4 (smear 2 (smear 1 w)))))

-- `col_next_power_of_two`
unfoldable pub next_power_of_two : ℕ → ℕ → ℕ → ℕ
next_power_of_two wanted_size min_size max_size =
    let clamped = if leb max_size wanted_size then max_size - 1 else wanted_size in
    if ltb wanted_size min_size
    then min_size
    else (fill_below ((clamped + 2 ^ 64 - 1) % 2 ^ 64) + 1) % 2 ^ 64

-- `CollectionsError`
pub data CollectionsError : Type 0 where
  col_ok null_arg zero_cap overflow out_of_mem empty index_out_of_range : CollectionsError

-- `ColValuePolicyType`
pub data ColValuePolicyType : Type 0 where
  policy_none policy_copy policy_take policy_shared : ColValuePolicyType
