-- ===== src/HashMap/Keys.antt =====
-- Keys of the hash map, their hash and their equality: `map_hash_mix64`, `map_hash_string`,
-- `map_hash_function` and `map_equals_MapKey`.
use c_roblib.Base.{ℕ, ◌+◌, ◌*◌, ◌/◌, ◌%◌, ◌^◌, Bool, true, false, List, [], ◌∷◌, ◌==◌, bit_xor}
use c_roblib.Collections.{equal_strings, equals_double, one_zero}

-- `MapKey`, with the key types that `key_type` can be; a long is its 64-bit pattern.
pub data MapKey : Type 0 where
  key_none : MapKey
  key_long : ℕ → MapKey
  key_double : ℕ → MapKey
  key_string : List ℕ → MapKey
  key_void_ptr : ℕ → MapKey
  key_null : MapKey

-- `map_hash_mix64`
abbrev pub fold_high : ℕ → ℕ
fold_high x = bit_xor x (x / 2 ^ 33)

unfoldable pub hash_mix64 : ℕ → ℕ
hash_mix64 x =
    let y = fold_high x * 0xff51afd7ed558ccd % 2 ^ 64 in
    let z = fold_high y * 0xc4ceb9fe1a85ec53 % 2 ^ 64 in fold_high z

-- `map_hash_string`, from a hash on
unfoldable pub hash_string : ℕ → List ℕ → ℕ
hash_string hash [] = hash
hash_string hash (c ∷ str) = hash_string ((hash * 2 ^ 5 + hash + c) % 2 ^ 64) str

unfoldable pub raw_hash : MapKey → ℕ
unfolding hash_string
raw_hash key_none = 0
raw_hash (key_long k) = k * 0x9e3779b97f4a7c15 % 2 ^ 64
raw_hash (key_double d) = one_zero d
raw_hash (key_string str) = hash_string 5381 str
raw_hash (key_void_ptr p) = p
raw_hash key_null = 0

-- `map_hash_function`
unfoldable pub hash_function : MapKey → ℕ
unfolding hash_mix64 raw_hash
hash_function key = hash_mix64 (raw_hash key)

-- `map_equals_MapKey`
unfoldable pub equals_key : MapKey → MapKey → Bool
equals_key (key_long a) (key_long b) = a == b
equals_key (key_double a) (key_double b) = equals_double a b
equals_key (key_string a) (key_string b) = equal_strings a b
equals_key (key_void_ptr a) (key_void_ptr b) = a == b
equals_key key_null key_null = true
equals_key _ _ = false
