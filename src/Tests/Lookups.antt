-- ===== src/Tests/Lookups.antt =====
-- An object with two entries, {"a": true, "b": null}, and a search for its first key.
use c_roblib.Base.{ℕ, List, [], ◌∷◌, ◌≢◌, refl, true}
use c_roblib.Json.Tree.{json_null, json_boolean, Entries, no_entries, entry}
use c_roblib.Json.Lookup.{entry_for_key, entry_for_key_other}

abbrev key_a : List ℕ
key_a = b'a' ∷ []

abbrev key_b : List ℕ
key_b = b'b' ∷ []

abbrev entries : Entries
entries = entry key_a (json_boolean true) (entry key_b json_null no_entries)

entry_for_key_other_example : key_b ≢ key_a
unfolding entry_for_key
entry_for_key_other_example = entry_for_key_other entries key_a key_b json_null refl
