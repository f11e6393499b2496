-- ===== src/HashMap/Insert.antt =====
-- The bucket part of `map_put`: a new value for a key that is there, or a new node.
use c_roblib.Base.{
  ℕ, ◌+◌, ◌≡◌, ◌≤◌, ◌⊎◌, inl, inr, refl, ◌∙◌, true, false, List, ◌∷◌, none, some, Option-cases,
  if◌then◌else◌, arith, set, length-set,
}
use c_roblib.Collections.{ColValue}
use c_roblib.HashMap.{
  HashMap, MapNode, find, get, index_for, bucket_for, replace, put_node, max_num_buckets,
  recalc_load,
}
use c_roblib.HashMap.Keys.{MapKey, hash_function, equals_key}
use c_roblib.HashMap.Buckets.{Distinct, value_in, find-replace_same, find-replace_other}
use c_roblib.HashMap.Placed.{Hashed, InBucket, Bucket}
use c_roblib.HashMap.Updates.{length-replace, replace-Bucket}
use c_roblib.HashMap.Inv.{IsValid}
use c_roblib.HashMap.Rewritten.{rewritten_reads, rewritten_total, old-Bucket, rewritten-Placed}

-- The bucket part of `map_put`.
module _ (map : HashMap) (k : MapKey) (w : ColValue) where
  abbrev replaced : HashMap
  replaced = record map {
    buckets =
        set map.buckets (index_for k map.num_buckets)
          (replace k w (bucket_for map.buckets map.num_buckets k));
  }

  abbrev new_node : MapNode
  new_node = record { key = k; value = w; hash = hash_function k }

  abbrev pushed : HashMap
  pushed = recalc_load (record map {
    buckets =
        set map.buckets (index_for k map.num_buckets)
          (new_node ∷ bucket_for map.buckets map.num_buckets k);
    size = map.size + 1;
  })

  put_node-present :
      {x : MapNode}
      → find k (bucket_for map.buckets map.num_buckets k) ≡ some x
      → put_node true map k w ≡ replaced
  unfolding put_node
  put_node-present e = rw (e, put_node) refl

  put_node-absent :
      find k (bucket_for map.buckets map.num_buckets k) ≡ none → put_node true map k w ≡ pushed
  unfolding put_node
  put_node-absent e = rw (e, put_node) refl

  find-pushed_same :
      (k' : MapKey) (b : List MapNode) → equals_key k' k ≡ true → value_in k' (new_node ∷ b) ≡ w
  unfolding find
  find-pushed_same k' b e = rw e refl

  find-pushed_other :
      (k' : MapKey) (b : List MapNode)
      → equals_key k' k ≡ false
      → find k' (new_node ∷ b) ≡ find k' b
  unfolding find
  find-pushed_other k' b e = rw e refl

  pushed-Bucket :
      (n : ℕ) (b : List MapNode)
      → find k b ≡ none
      → Bucket n (index_for k n) b
      → Bucket n (index_for k n) (new_node ∷ b)
  unfolding Hashed InBucket Distinct
  pushed-Bucket n b e q = record {
    hashed = (refl, q.hashed);
    here = (refl, q.here);
    distinct = (e, q.distinct);
  }

  pub put_node_refines :
      (k' : MapKey)
      → IsValid map
      → (map.size + 1 ≤ map.fill_capacity) ⊎ (map.num_buckets ≡ max_num_buckets)
      → IsValid (put_node true map k w)
        × (get (put_node true map k w) k' ≡ (if equals_key k' k then w else get map k'))
  unfolding get
  put_node_refines k' v room =
      let old = bucket_for map.buckets map.num_buckets k in
      elim (Option-cases (find k old)) [
        | inr (x, e) ↦
            let q = old-Bucket map k (replace k w old) v in
            rw (put_node-present e) (
              record {
                count = length-set map.buckets _ _ ∙ v.count;
                many = v.many;
                bounded = v.bounded;
                placed = rewritten-Placed map k (replace k w old) v (replace-Bucket k w _ _ old q);
                sized = omega (
                  arith,
                  v.sized,
                  rewritten_total map k (replace k w old) v,
                  length-replace k w old,
                );
                filled = v.filled;
                in_capacity = v.in_capacity;
              },
              rewritten_reads map k (replace k w old) v w k'
                  (λ same. find-replace_same k k' w old e same)
                  (λ other. find-replace_other k k' w old other),
            )
        | inl e ↦
            let q = old-Bucket map k (new_node ∷ old) v in
            rw (put_node-absent e) (
              record {
                count = length-set map.buckets _ _ ∙ v.count;
                many = v.many;
                bounded = v.bounded;
                placed =
                    rewritten-Placed map k (new_node ∷ old) v
                      (pushed-Bucket map.num_buckets old e q);
                sized = omega (arith, v.sized, rewritten_total map k (new_node ∷ old) v);
                filled = v.filled;
                in_capacity = room;
              },
              rewritten_reads map k (new_node ∷ old) v w k' (λ same. find-pushed_same k' old same)
                  (λ other. find-pushed_other k' old other),
            )
      ]
