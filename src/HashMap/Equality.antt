-- ===== src/HashMap/Equality.antt =====
-- `map_equals_MapKey` and the hash.
use c_roblib.Base.{ℕ, ◌≡◌, refl, sym, ap, ◌∙◌, true, List, [], ◌∷◌, arith}
use c_roblib.Collections.{equal_strings, equals_double, one_zero}
use c_roblib.HashMap.Keys.{
  MapKey, key_none, key_long, key_double, key_string, key_void_ptr, key_null, hash_function,
  equals_key, raw_hash, hash_mix64,
}

equal_strings-eq : (a b : List ℕ) → equal_strings a b ≡ true → a ≡ b
unfolding equal_strings
equal_strings-eq [] [] h = refl
equal_strings-eq [] (d ∷ ds) h = absurd (cc h)
equal_strings-eq (c ∷ cs) [] h = absurd (cc h)
equal_strings-eq (c ∷ cs) (d ∷ ds) h = ground (arith, equal_strings-eq cs ds)

-- Both zeros are stored as one.
abbrev canonical : MapKey → MapKey
canonical (key_double d) = key_double (one_zero d)
canonical key = key

equal-canonical : (a b : MapKey) → equals_key a b ≡ true → canonical a ≡ canonical b
unfolding equals_key equals_double
equal-canonical (key_long a) (key_long b) h = ap key_long (ground arith)
equal-canonical (key_double a) (key_double b) h = ap key_double (ground arith)
equal-canonical (key_string a) (key_string b) h = ap key_string (equal_strings-eq a b h)
equal-canonical (key_void_ptr a) (key_void_ptr b) h = ap key_void_ptr (ground arith)
equal-canonical key_null key_null h = refl
equal-canonical _ _ h = absurd (cc h)

equals_key-canonical_left : (a c : MapKey) → equals_key (canonical a) c ≡ equals_key a c
unfolding equals_key equals_double
equals_key-canonical_left (key_double a) (key_double c) = ground arith
equals_key-canonical_left _ _ = refl

equals_key-canonical_right : (c a : MapKey) → equals_key c (canonical a) ≡ equals_key c a
unfolding equals_key equals_double
equals_key-canonical_right (key_double c) (key_double a) = ground arith
equals_key-canonical_right _ (key_double a) = refl
equals_key-canonical_right c key_none = refl
equals_key-canonical_right c (key_long a) = refl
equals_key-canonical_right c (key_string a) = refl
equals_key-canonical_right c (key_void_ptr a) = refl
equals_key-canonical_right c key_null = refl

hash_function-canonical : (a : MapKey) → hash_function (canonical a) ≡ hash_function a
unfolding hash_function raw_hash
hash_function-canonical (key_double a) = ap hash_mix64 (ground arith)
hash_function-canonical _ = refl

-- Keys that `map_equals_MapKey` calls equal have the same hash, and compare alike with every other
-- key, on either side.
pub equals_key_lem :
    (a b c : MapKey)
    → equals_key a b ≡ true
    → (hash_function a ≡ hash_function b)
      × (equals_key a c ≡ equals_key b c)
      × (equals_key c a ≡ equals_key c b)
equals_key_lem a b c h =
    let same = equal-canonical a b h in
    (
      sym (hash_function-canonical a) ∙ ap hash_function same ∙ hash_function-canonical b,
      sym (equals_key-canonical_left a c)
          ∙ ap (λ k. equals_key k c) same
          ∙ equals_key-canonical_left b c,
      sym (equals_key-canonical_right c a)
          ∙ ap (equals_key c) same
          ∙ equals_key-canonical_right c b,
    )
