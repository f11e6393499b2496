-- ===== src/HashMap/Remove.antt =====
-- `map_remove`, over what each key finds.
use c_roblib.Base.{
  ◌-◌, ◌≡◌, inl, inr, refl, ap, ◌∙◌, none, some, Bool-cases, Option-cases, if◌then◌else◌, arith,
  set, length-set,
}
use c_roblib.Collections.{value_null}
use c_roblib.HashMap.{
  HashMap, MapNode, find, value_of, get, calc_bucket_index, index_for, bucket_for, unlink, remove,
  recalc_load,
}
use c_roblib.HashMap.Keys.{MapKey, equals_key}
use c_roblib.HashMap.Equality.{equals_key_lem}
use c_roblib.HashMap.Buckets.{value_in, find-equal, find-unlink_same, find-unlink_other}
use c_roblib.HashMap.Updates.{length-unlink, unlink-Bucket}
use c_roblib.HashMap.Inv.{IsValid}
use c_roblib.HashMap.Rewritten.{rewritten_reads, rewritten_total, old-Bucket, rewritten-Placed}

-- A key that its bucket does not hold reads as null.
absent :
    (map : HashMap) (k k' : MapKey)
    → find k (bucket_for map.buckets map.num_buckets k) ≡ none
    → value_in k' (bucket_for map.buckets map.num_buckets k') ≡ (
        if equals_key k' k
        then value_null
        else value_in k' (bucket_for map.buckets map.num_buckets k'))
absent map k k' none_there = elim (Bool-cases (equals_key k' k)) [
  | inr e ↦ rw e refl
  | inl e ↦
      let same : index_for k' map.num_buckets ≡ index_for k map.num_buckets =
        ap (λ h. calc_bucket_index h map.num_buckets) (equals_key_lem k' k k e).0 in
      rw (e, same) (ap value_of (find-equal k' k _ e ∙ none_there))
]

module _ (map : HashMap) (k : MapKey) where
  abbrev without : HashMap
  without = recalc_load (record map {
    buckets =
        set map.buckets (index_for k map.num_buckets)
          (unlink k (bucket_for map.buckets map.num_buckets k));
    size = map.size - 1;
  })

  remove-absent : find k (bucket_for map.buckets map.num_buckets k) ≡ none → remove map k ≡ map
  unfolding remove
  remove-absent e = rw (e, remove) refl

  remove-present :
      {x : MapNode}
      → find k (bucket_for map.buckets map.num_buckets k) ≡ some x
      → remove map k ≡ without
  unfolding remove
  remove-present e = rw (e, remove) refl

-- `map_remove` keeps the map valid; the key, and every key equal to it, then reads as null, and
-- every other key as before.
pub remove_refines :
    (map : HashMap) (k k' : MapKey)
    → IsValid map
    → IsValid (remove map k)
      × (get (remove map k) k' ≡ (if equals_key k' k then value_null else get map k'))
unfolding get
remove_refines map k k' v =
    let old = bucket_for map.buckets map.num_buckets k in
    elim (Option-cases (find k old)) [
      | inl e ↦ rw (remove-absent map k e) (v, absent map k k' e)
      | inr (x, e) ↦
          let q = old-Bucket map k (unlink k old) v in
          let fewer = length-unlink k old e in
          let left_over = rewritten_total map k (unlink k old) v in
          rw (remove-present map k e) (
            record {
              count = length-set map.buckets _ _ ∙ v.count;
              many = v.many;
              bounded = v.bounded;
              placed = rewritten-Placed map k (unlink k old) v (unlink-Bucket k _ _ old q);
              sized = omega (arith, v.sized);
              filled = v.filled;
              in_capacity = elim v.in_capacity [ inl h ↦ inl (omega arith) | inr h ↦ inr h ];
            },
            rewritten_reads map k (unlink k old) v value_null k'
                (λ same. ap value_of (find-unlink_same k k' old q.distinct same))
                (λ other. find-unlink_other k k' old other),
          )
    ]
