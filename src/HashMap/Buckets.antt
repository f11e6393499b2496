-- ===== src/HashMap/Buckets.antt =====
-- Buckets: what the loops over one find before and after an update.
use c_roblib.Base.{
  ◌≡◌, refl, sym, ap, ◌∙◌, true, false, List, [], ◌∷◌, none, some, Bool-cases, inl, inr,
  if◌then◌else◌,
}
use c_roblib.Collections.{ColValue}
use c_roblib.HashMap.{MapNode, find, value_of, replace, unlink}
use c_roblib.HashMap.Keys.{MapKey, equals_key}
use c_roblib.HashMap.Equality.{equals_key_lem}

-- The node that a bucket's loop finds, read for its value.
abbrev pub value_in : MapKey → List MapNode → ColValue
value_in key bucket = value_of (find key bucket)

-- No two nodes of a bucket have the same key.
unfoldable pub Distinct : List MapNode → Type 0
Distinct [] = Unit
Distinct (node ∷ next) = (find node.key next ≡ none) × Distinct next

-- Equal keys find the same.
pub find-equal :
    (k k' : MapKey) (bucket : List MapNode)
    → equals_key k k' ≡ true
    → find k bucket ≡ find k' bucket
unfolding find
find-equal k k' [] h = refl
find-equal k k' (node ∷ next) h =
    let same = (equals_key_lem k k' node.key h).1 in rw (same, find-equal k k' next h) refl

symmetric : (k k' : MapKey) → equals_key k k' ≡ true → equals_key k' k ≡ true
symmetric k k' h = sym (equals_key_lem k k' k h).1 ∙ (equals_key_lem k k' k h).2 ∙ h

pub different : (k k' : MapKey) → equals_key k k' ≡ false → equals_key k' k ≡ false
different k k' h = elim (Bool-cases (equals_key k' k)) [
  | inl e ↦ absurd (cc (h, symmetric k' k e))
  | inr e ↦ e
]

-- Replacing a value changes what the key finds, and only that.
pub find-replace_same :
    (k k' : MapKey) (v : ColValue) (bucket : List MapNode) {found : MapNode}
    → find k bucket ≡ some found
    → equals_key k' k ≡ true
    → value_in k' (replace k v bucket) ≡ v
unfolding find replace
find-replace_same k k' v [] f h = absurd (cc f)
find-replace_same k k' v (node ∷ next) f h = elim (Bool-cases (equals_key k node.key)) [
  | inl e ↦
      let e' : equals_key k' node.key ≡ true = (equals_key_lem k' k node.key h).1 ∙ e in
      rw (e, e') refl
  | inr e ↦
      let e' : equals_key k' node.key ≡ false = (equals_key_lem k' k node.key h).1 ∙ e in
      rw (e, e') (find-replace_same k k' v next (rw e at f) h)
]

pub find-replace_other :
    (k k' : MapKey) (v : ColValue) (bucket : List MapNode)
    → equals_key k' k ≡ false
    → find k' (replace k v bucket) ≡ find k' bucket
unfolding find replace
find-replace_other k k' v [] h = refl
find-replace_other k k' v (node ∷ next) h = elim (Bool-cases (equals_key k node.key)) [
  | inl e ↦
      let e' : equals_key k' node.key ≡ false = sym (equals_key_lem k node.key k' e).2 ∙ h in
      rw (e, e') refl
  | inr e ↦
      rw e (
        ap (λ r. if equals_key k' node.key then some node else r)
          (find-replace_other k k' v next h))
]

-- Unlinking the node with a key hides that key, and only that.
pub find-unlink_same :
    (k k' : MapKey) (bucket : List MapNode)
    → Distinct bucket
    → equals_key k' k ≡ true
    → find k' (unlink k bucket) ≡ none
unfolding find unlink Distinct
find-unlink_same k k' [] d h = refl
find-unlink_same k k' (node ∷ next) (fresh, d) h = elim (Bool-cases (equals_key k node.key)) [
  | inl e ↦ rw e (find-equal k' node.key next ((equals_key_lem k' k node.key h).1 ∙ e) ∙ fresh)
  | inr e ↦
      let e' : equals_key k' node.key ≡ false = (equals_key_lem k' k node.key h).1 ∙ e in
      rw (e, e') (find-unlink_same k k' next d h)
]

pub find-unlink_other :
    (k k' : MapKey) (bucket : List MapNode)
    → equals_key k' k ≡ false
    → find k' (unlink k bucket) ≡ find k' bucket
unfolding find unlink
find-unlink_other k k' [] h = refl
find-unlink_other k k' (node ∷ next) h = elim (Bool-cases (equals_key k node.key)) [
  | inl e ↦
      let e' : equals_key k' node.key ≡ false = sym (equals_key_lem k node.key k' e).2 ∙ h in
      rw (e, e') refl
  | inr e ↦
      rw e
        (ap (λ r. if equals_key k' node.key then some node else r) (find-unlink_other k k' next h))
]

-- Both keep the keys of a bucket apart.
pub replace-Distinct :
    (k : MapKey) (v : ColValue) (bucket : List MapNode)
    → Distinct bucket
    → Distinct (replace k v bucket)
unfolding Distinct replace
replace-Distinct k v [] d = tt
replace-Distinct k v (node ∷ next) (fresh, d) = elim (Bool-cases (equals_key k node.key)) [
  | inl e ↦ rw e (fresh, d)
  | inr e ↦ rw e (
    find-replace_other k node.key v next (different k node.key e) ∙ fresh,
    replace-Distinct k v next d,
  )
]

pub unlink-Distinct :
    (k : MapKey) (bucket : List MapNode) → Distinct bucket → Distinct (unlink k bucket)
unfolding Distinct unlink
unlink-Distinct k [] d = tt
unlink-Distinct k (node ∷ next) (fresh, d) = elim (Bool-cases (equals_key k node.key)) [
  | inl e ↦ rw e d
  | inr e ↦
      rw e (
        find-unlink_other k node.key next (different k node.key e) ∙ fresh,
        unlink-Distinct k next d,
      )
]
