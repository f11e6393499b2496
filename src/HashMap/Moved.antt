-- ===== src/HashMap/Moved.antt =====
-- `map_ensure_capacity` and the place of every node.
use c_roblib.Base.{
  ℕ, ◌+◌, ◌≡◌, ◌≢◌, ◌<◌, refl, sym, ap, ◌∙◌, List, [], ◌∷◌, none, Bool-cases, inl, inr, arith,
  length, get_or, replicate, length-replicate, get_or-replicate,
}
use c_roblib.HashMap.{
  MapNode, find, calc_bucket_index, index_for, bucket_for, move_node, move_bucket, rehash,
}
use c_roblib.HashMap.Keys.{hash_function, equals_key}
use c_roblib.HashMap.Buckets.{Distinct, different}
use c_roblib.HashMap.Placed.{
  Hashed, InBucket, Bucket, Placed, total, replicate-Placed, total-replicate, get_or-Bucket,
  set-Placed, total-set,
}
use c_roblib.HashMap.Growth.{
  index-lt, length-move_node, length-move_bucket, find-move_node, find-move_bucket,
  latest-elsewhere,
}

-- None of the keys is among the nodes moved so far.
unfoldable Fresh : ℕ → List (List MapNode) → List MapNode → Type 0
Fresh n acc [] = Unit
Fresh n acc (y ∷ ys) = (find y.key (bucket_for acc n y.key) ≡ none) × Fresh n acc ys

unfoldable AllFresh : ℕ → List (List MapNode) → List (List MapNode) → Type 0
unfolding Fresh
AllFresh n acc [] = Unit
AllFresh n acc (b ∷ bs) = Fresh n acc b × AllFresh n acc bs

module _ (n : ℕ) (some_buckets : 0 < n) where
  Fresh-replicate : (ys : List MapNode) → Fresh n (replicate n []) ys
  unfolding Fresh find
  Fresh-replicate [] = tt
  Fresh-replicate (y ∷ ys) =
      (ap (find y.key) (get_or-replicate n (index_for y.key n) []), Fresh-replicate ys)

  AllFresh-replicate : (bs : List (List MapNode)) → AllFresh n (replicate n []) bs
  unfolding AllFresh
  AllFresh-replicate [] = tt
  AllFresh-replicate (b ∷ bs) = (Fresh-replicate b, AllFresh-replicate bs)

  -- A node of the same bucket goes.
  move_node-Fresh :
      (acc : List (List MapNode)) (x : MapNode) (ys : List MapNode)
      → length acc ≡ n
      → x.hash ≡ hash_function x.key
      → find x.key ys ≡ none
      → Fresh n acc ys
      → Fresh n (move_node n acc x) ys
  unfolding Fresh find
  move_node-Fresh acc x [] size h apart f = tt
  move_node-Fresh acc x (y ∷ ys) size h apart (f, fs) = elim (Bool-cases (equals_key x.key y.key)) [
    | inl e ↦ absurd (cc (rw e at apart))
    | inr e ↦ (
      find-move_node n y.key some_buckets acc x size h ∙ (rw (different x.key y.key e) f),
      move_node-Fresh acc x ys size h (rw e at apart) fs,
    )
  ]

  -- The nodes of another bucket go.
  move_bucket-Fresh :
      (m i j : ℕ) (acc : List (List MapNode)) (xs ys : List MapNode)
      → length acc ≡ n
      → Bucket m i xs
      → Hashed ys
      → InBucket m j ys
      → i ≢ j
      → Fresh n acc ys
      → Fresh n (move_bucket n acc xs) ys
  unfolding Fresh Hashed InBucket
  move_bucket-Fresh m i j acc xs [] size b hs here apart f = tt
  move_bucket-Fresh m i j acc xs (y ∷ ys) size b (h, hs) (at, here) apart (f, fs) = (
    find-move_bucket n y.key some_buckets acc xs size b.hashed
        ∙ latest-elsewhere y.key m _ i xs b.hashed b.here
            (λ e. apart (e ∙ ap (λ c. calc_bucket_index c m) (sym h) ∙ at))
        ∙ f,
    move_bucket-Fresh m i j acc xs ys size b hs here apart fs,
  )

  move_bucket-AllFresh :
      (m i s : ℕ) (acc : List (List MapNode)) (xs : List MapNode) (bs : List (List MapNode))
      → length acc ≡ n
      → Bucket m i xs
      → Placed m s bs
      → i < s
      → AllFresh n acc bs
      → AllFresh n (move_bucket n acc xs) bs
  unfolding AllFresh Placed
  move_bucket-AllFresh m i s acc xs [] size b p lt f = tt
  move_bucket-AllFresh m i s acc xs (c ∷ cs) size b (here, later) lt (f, fs) = (
    move_bucket-Fresh m i s acc xs c size b here.hashed here.here (λ e. omega arith) f,
    move_bucket-AllFresh m i (s + 1) acc xs cs size b later (omega arith) fs,
  )

  move_node-Placed :
      (acc : List (List MapNode)) (x : MapNode)
      → length acc ≡ n
      → x.hash ≡ hash_function x.key
      → find x.key (bucket_for acc n x.key) ≡ none
      → Placed n 0 acc
      → Placed n 0 (move_node n acc x) × (total (move_node n acc x) ≡ total acc + 1)
  unfolding move_node Hashed InBucket Distinct
  move_node-Placed acc x size h fresh p =
      let i = calc_bucket_index x.hash n in
      let old = get_or-Bucket n 0 i i acc (omega arith) p in
      (
        set-Placed n 0 i i acc (x ∷ get_or acc i []) (omega arith) p (record {
          hashed = (h, old.hashed);
          here = (refl, old.here);
          distinct = (rw h fresh, old.distinct);
        }),
        omega (
          arith,
          total-set acc i (x ∷ get_or acc i [])
              (omega (arith, index-lt x.hash n some_buckets, size)),
        ),
      )

  move_bucket-Placed :
      (acc : List (List MapNode)) (xs : List MapNode)
      → length acc ≡ n
      → Hashed xs
      → Distinct xs
      → Fresh n acc xs
      → Placed n 0 acc
      → Placed n 0 (move_bucket n acc xs) × (total (move_bucket n acc xs) ≡ total acc + length xs)
  unfolding move_bucket Hashed Distinct Fresh
  move_bucket-Placed acc [] size hs d f p = (p, omega arith)
  move_bucket-Placed acc (x ∷ xs) size (h, hs) (apart, d) (f, fs) p =
      let (p', more) = move_node-Placed acc x size h f p in
      let (p'', most) =
        move_bucket-Placed (move_node n acc x) xs (length-move_node n acc x ∙ size) hs d
          (move_node-Fresh acc x xs size h apart fs) p' in
      (p'', omega arith)

  rehash-Placed :
      (m s : ℕ) (acc bs : List (List MapNode))
      → length acc ≡ n
      → Placed m s bs
      → AllFresh n acc bs
      → Placed n 0 acc
      → Placed n 0 (rehash n acc bs) × (total (rehash n acc bs) ≡ total acc + total bs)
  unfolding rehash Placed AllFresh total
  rehash-Placed m s acc [] size q f p = (p, omega arith)
  rehash-Placed m s acc (b ∷ bs) size (here, later) (f, fs) p =
      let (p', more) = move_bucket-Placed acc b size here.hashed here.distinct f p in
      let (p'', most) =
        rehash-Placed m (s + 1) (move_bucket n acc b) bs (length-move_bucket n acc b ∙ size) later
          (move_bucket-AllFresh m s (s + 1) acc b bs size here later (omega arith) fs) p' in
      (p'', omega arith)

-- The buckets after a rehash.
pub grown-Placed :
    (n m : ℕ) (bs : List (List MapNode))
    → 0 < n
    → Placed m 0 bs
    → Placed n 0 (rehash n (replicate n []) bs) × (total (rehash n (replicate n []) bs) ≡ total bs)
grown-Placed n m bs h p =
    let (q, count) =
      rehash-Placed n h m 0 (replicate n []) bs (length-replicate {A = List MapNode} n []) p
        (AllFresh-replicate n h bs) (replicate-Placed n 0 n) in
    (q, omega (arith, count, total-replicate n))
