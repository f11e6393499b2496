-- ===== src/HashMap/Updates.antt =====
-- Updates of one bucket: what they keep, and how they change the count.
use c_roblib.Base.{
  ℕ, suc, ◌+◌, ◌≡◌, refl, ap, List, [], ◌∷◌, some, Bool-cases, inl, inr, arith, length,
}
use c_roblib.Collections.{ColValue}
use c_roblib.HashMap.{MapNode, find, replace, unlink}
use c_roblib.HashMap.Keys.{MapKey, equals_key}
use c_roblib.HashMap.Buckets.{replace-Distinct, unlink-Distinct}
use c_roblib.HashMap.Placed.{Hashed, InBucket, Bucket}

module _ (k : MapKey) (v : ColValue) where
  replace-Hashed : (b : List MapNode) → Hashed b → Hashed (replace k v b)
  unfolding Hashed replace
  replace-Hashed [] h = tt
  replace-Hashed (x ∷ xs) (h, hs) = elim (Bool-cases (equals_key k x.key)) [
    | inl e ↦ rw e (h, hs)
    | inr e ↦ rw e (h, replace-Hashed xs hs)
  ]

  replace-InBucket : (n i : ℕ) (b : List MapNode) → InBucket n i b → InBucket n i (replace k v b)
  unfolding InBucket replace
  replace-InBucket n i [] h = tt
  replace-InBucket n i (x ∷ xs) (h, hs) = elim (Bool-cases (equals_key k x.key)) [
    | inl e ↦ rw e (h, hs)
    | inr e ↦ rw e (h, replace-InBucket n i xs hs)
  ]

  pub length-replace : (b : List MapNode) → length (replace k v b) ≡ length b
  unfolding replace
  length-replace [] = refl
  length-replace (x ∷ xs) = elim (Bool-cases (equals_key k x.key)) [
    | inl e ↦ rw e refl
    | inr e ↦ rw e (ap suc (length-replace xs))
  ]

  pub replace-Bucket : (n i : ℕ) (b : List MapNode) → Bucket n i b → Bucket n i (replace k v b)
  replace-Bucket n i b q = record {
    hashed = replace-Hashed b q.hashed;
    here = replace-InBucket n i b q.here;
    distinct = replace-Distinct k v b q.distinct;
  }

module _ (k : MapKey) where
  unlink-Hashed : (b : List MapNode) → Hashed b → Hashed (unlink k b)
  unfolding Hashed unlink
  unlink-Hashed [] h = tt
  unlink-Hashed (x ∷ xs) (h, hs) = elim (Bool-cases (equals_key k x.key)) [
    | inl e ↦ rw e hs
    | inr e ↦ rw e (h, unlink-Hashed xs hs)
  ]

  unlink-InBucket : (n i : ℕ) (b : List MapNode) → InBucket n i b → InBucket n i (unlink k b)
  unfolding InBucket unlink
  unlink-InBucket n i [] h = tt
  unlink-InBucket n i (x ∷ xs) (h, hs) = elim (Bool-cases (equals_key k x.key)) [
    | inl e ↦ rw e hs
    | inr e ↦ rw e (h, unlink-InBucket n i xs hs)
  ]

  pub length-unlink :
      (b : List MapNode) {x : MapNode} → find k b ≡ some x → length (unlink k b) + 1 ≡ length b
  unfolding find unlink
  length-unlink [] f = absurd (cc f)
  length-unlink (x ∷ xs) f = elim (Bool-cases (equals_key k x.key)) [
    | inl e ↦ rw e (omega arith)
    | inr e ↦ rw e (omega (arith, length-unlink xs (rw e at f)))
  ]

  pub unlink-Bucket : (n i : ℕ) (b : List MapNode) → Bucket n i b → Bucket n i (unlink k b)
  unlink-Bucket n i b q = record {
    hashed = unlink-Hashed b q.hashed;
    here = unlink-InBucket n i b q.here;
    distinct = unlink-Distinct k b q.distinct;
  }
