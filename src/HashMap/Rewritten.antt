-- ===== src/HashMap/Rewritten.antt =====
-- A map with one bucket rewritten, read through every key.
use c_roblib.Base.{
  ◌+◌, ◌≡◌, ◌<◌, inl, inr, refl, sym, ap, ◌∙◌, true, false, List, [], Bool-cases, eq-or-ne,
  if◌then◌else◌, arith, length, set, get_or-set_self, get_or-set_ne,
}
use c_roblib.Collections.{ColValue}
use c_roblib.HashMap.{HashMap, MapNode, find, value_of, calc_bucket_index, index_for, bucket_for}
use c_roblib.HashMap.Keys.{MapKey, hash_function, equals_key}
use c_roblib.HashMap.Equality.{equals_key_lem}
use c_roblib.HashMap.Buckets.{value_in}
use c_roblib.HashMap.Placed.{Bucket, Placed, total, get_or-Bucket, set-Placed, total-set}
use c_roblib.HashMap.Growth.{index-lt}
use c_roblib.HashMap.Inv.{IsValid}

-- A map whose bucket for `k` was rewritten, read through every key.
module _ (map : HashMap) (k : MapKey) (b' : List MapNode) (v : IsValid map) where
  pub inside : index_for k map.num_buckets < length map.buckets
  inside =
      omega (arith, index-lt (hash_function k) map.num_buckets (omega (arith, v.many)), v.count)

  pub rewritten_reads :
      (w : ColValue) (k' : MapKey)
      → (equals_key k' k ≡ true → value_in k' b' ≡ w)
      → (equals_key k' k ≡ false → find k' b' ≡ find k' (bucket_for map.buckets map.num_buckets k))
      → value_in k'
          (bucket_for (set map.buckets (index_for k map.num_buckets) b') map.num_buckets k')
        ≡ (if equals_key k' k then w else value_in k' (bucket_for map.buckets map.num_buckets k'))
  rewritten_reads w k' same other =
      elim (eq-or-ne (index_for k' map.num_buckets) (index_for k map.num_buckets)) [
        | inl together ↦
            let hit : value_in k'
                  (bucket_for (set map.buckets (index_for k map.num_buckets) b') map.num_buckets k')
                ≡ value_in k' b' =
              rw together (
                ap (value_in k')
                  (get_or-set_self map.buckets (index_for k map.num_buckets) b' [] inside)) in
            hit ∙ (elim (Bool-cases (equals_key k' k)) [
              | inl e ↦ rw e (same e)
              | inr e ↦ rw e (ap value_of (other e) ∙ rw together refl)
            ])
        | inr apart ↦ elim (Bool-cases (equals_key k' k)) [
          | inl e ↦
              absurd
                (apart (ap (λ h. calc_bucket_index h map.num_buckets) (equals_key_lem k' k k e).0))
          | inr e ↦ rw e (ap (value_in k') (get_or-set_ne map.buckets b' [] (λ s. apart (sym s))))
        ]
      ]

  pub rewritten_total :
      total (set map.buckets (index_for k map.num_buckets) b')
        + length (bucket_for map.buckets map.num_buckets k)
      ≡ total map.buckets + length b'
  rewritten_total = total-set map.buckets (index_for k map.num_buckets) b' inside

  pub old-Bucket :
      Bucket map.num_buckets
        (index_for k map.num_buckets)
        (bucket_for map.buckets map.num_buckets k)
  old-Bucket = get_or-Bucket map.num_buckets 0 _ _ map.buckets (omega arith) v.placed

  pub rewritten-Placed :
      Bucket map.num_buckets (index_for k map.num_buckets) b'
      → Placed map.num_buckets 0 (set map.buckets (index_for k map.num_buckets) b')
  rewritten-Placed q = set-Placed map.num_buckets 0 _ _ map.buckets b' (omega arith) v.placed q
