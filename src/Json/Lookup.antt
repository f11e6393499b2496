-- ===== src/Json/Lookup.antt =====
-- `jsonp_entry_for_key`, over the slices of string_slice.c.
use c_roblib.Base.{
  ℕ, List, ◌≡◌, ◌≢◌, ◌∙◌, inl, inr, sym, ap, true, Option, some, none, if◌then◌else◌, arith,
  Bool-cases, take_all,
}
use c_roblib.Json.Tree.{JsonValue, Entries, no_entries, entry}
use c_roblib.Slice.{from_cstring, slice_equal}
use c_roblib.Slice.Equal.{slice_equal_lem}

-- `jsonp_entry_for_key`: the key and the value of the entry, or `nullptr`. A key of the tree is the
-- bytes of its slice.
unfoldable pub entry_for_key : Entries → List ℕ → Option (List ℕ × JsonValue)
unfolding slice_equal from_cstring
entry_for_key no_entries key = none
entry_for_key (entry entry_key value entries) key =
    let rest = entry_for_key entries key in
    if slice_equal (from_cstring entry_key) (from_cstring key)
    then rest
    else some (entry_key, value)

same_key : (k key : List ℕ) → k ≡ key → slice_equal (from_cstring k) (from_cstring key) ≡ true
unfolding from_cstring
same_key k key e =
    (slice_equal_lem (from_cstring k) (from_cstring key) (omega arith) (omega arith)).1
      (rw (take_all k, take_all key) e)

abbrev key_or : List ℕ → Option (List ℕ × JsonValue) → List ℕ
key_or default none = default
key_or default (some (k, v)) = k

-- The entry that `jsonp_entry_for_key` returns has another key than the one asked for.
pub entry_for_key_other :
    (entries : Entries) (key k : List ℕ) (v : JsonValue)
    → entry_for_key entries key ≡ some (k, v)
    → k ≢ key
unfolding entry_for_key
entry_for_key_other no_entries key k v h = absurd (cc h)
entry_for_key_other (entry k' v' entries) key k v h =
    elim (Bool-cases (slice_equal (from_cstring k') (from_cstring key))) [
      | inl e ↦ entry_for_key_other entries key k v (rw e at h)
      | inr e ↦ λ same.
          let found : some (k', v') ≡ some (k, v) = rw e at h in
          let here : k' ≡ k = ap (key_or key) found in
          absurd (cc (sym e ∙ same_key k' key (here ∙ same)))
    ]
