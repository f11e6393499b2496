-- ===== src/HashMap/Growth.antt =====
-- `map_ensure_capacity` and what every key finds.
use c_roblib.Base.{
  ℕ, zero, suc, ◌+◌, ◌-◌, ◌≡◌, ◌≢◌, ◌<◌, refl, sym, ap, ◌∙◌, List, [], ◌∷◌, Option, none, some,
  eq-or-ne, Bool-cases, inl, inr, if◌then◌else◌, arith, length, get_or, replicate, length-set,
  length-replicate, get_or-replicate, get_or-set_self, get_or-set_ne,
}
use c_roblib.Base.Bits.{bit_and_bound}
use c_roblib.HashMap.{
  MapNode, find, calc_bucket_index, index_for, bucket_for, move_node, move_bucket, rehash,
}
use c_roblib.HashMap.Keys.{MapKey, hash_function, equals_key}
use c_roblib.HashMap.Equality.{equals_key_lem}
use c_roblib.HashMap.Buckets.{Distinct, find-equal}
use c_roblib.HashMap.Placed.{Hashed, InBucket, Placed}

pub index-lt : (hashcode n : ℕ) → 0 < n → calc_bucket_index hashcode n < n
index-lt hashcode n h = omega (arith, bit_and_bound hashcode (n - 1))

-- The last of the nodes with a key, or what was found before.
unfoldable pub latest : MapKey → Option MapNode → List MapNode → Option MapNode
latest k o [] = o
latest k o (node ∷ next) = latest k (if equals_key k node.key then some node else o) next

unfoldable pub latest_all : MapKey → Option MapNode → List (List MapNode) → Option MapNode
unfolding latest
latest_all k o [] = o
latest_all k o (bucket ∷ buckets) = latest_all k (latest k o bucket) buckets

pub length-move_node :
    (n : ℕ) (acc : List (List MapNode)) (x : MapNode) → length (move_node n acc x) ≡ length acc
unfolding move_node
length-move_node n acc x = length-set acc _ _

pub length-move_bucket :
    (n : ℕ) (acc : List (List MapNode)) (xs : List MapNode)
    → length (move_bucket n acc xs) ≡ length acc
unfolding move_bucket
length-move_bucket n acc [] = refl
length-move_bucket n acc (x ∷ xs) =
    length-move_bucket n (move_node n acc x) xs ∙ length-move_node n acc x

pub length-rehash : (n : ℕ) (acc bs : List (List MapNode)) → length (rehash n acc bs) ≡ length acc
unfolding rehash
length-rehash n acc [] = refl
length-rehash n acc (b ∷ bs) = length-rehash n (move_bucket n acc b) bs ∙ length-move_bucket n acc b

module _ (n : ℕ) (k : MapKey) (some_buckets : 0 < n) where
  pub find-move_node :
      (acc : List (List MapNode)) (x : MapNode)
      → length acc ≡ n
      → x.hash ≡ hash_function x.key
      → find k (bucket_for (move_node n acc x) n k)
        ≡ (if equals_key k x.key then some x else find k (bucket_for acc n k))
  unfolding move_node find
  find-move_node acc x size hashed = elim (eq-or-ne (index_for k n) (calc_bucket_index x.hash n)) [
    | inl same ↦
        rw
          (
            same,
            get_or-set_self acc (calc_bucket_index x.hash n)
                (x ∷ get_or acc (calc_bucket_index x.hash n) []) [] inside,
          )
          refl
    | inr apart ↦ elim (Bool-cases (equals_key k x.key)) [
      | inl e ↦
          absurd
            (apart (ap (λ h. calc_bucket_index h n) ((equals_key_lem k x.key k e).0 ∙ sym hashed)))
      | inr e ↦ rw e (ap (find k) (get_or-set_ne acc _ [] (λ s. apart (sym s))))
    ]
  ]
    where
      inside : calc_bucket_index x.hash n < length acc
      inside = omega (arith, index-lt x.hash n some_buckets, size)

  pub find-move_bucket :
      (acc : List (List MapNode)) (xs : List MapNode)
      → length acc ≡ n
      → Hashed xs
      → find k (bucket_for (move_bucket n acc xs) n k) ≡ latest k (find k (bucket_for acc n k)) xs
  unfolding move_bucket latest Hashed
  find-move_bucket acc [] size hashed = refl
  find-move_bucket acc (x ∷ xs) size (h, hs) =
      find-move_bucket (move_node n acc x) xs (length-move_node n acc x ∙ size) hs
      ∙ ap (λ o. latest k o xs) (find-move_node acc x size h)

  pub find-rehash :
      (m s : ℕ) (acc bs : List (List MapNode))
      → length acc ≡ n
      → Placed m s bs
      → find k (bucket_for (rehash n acc bs) n k) ≡ latest_all k (find k (bucket_for acc n k)) bs
  unfolding rehash latest_all Placed
  find-rehash m s acc [] size p = refl
  find-rehash m s acc (b ∷ bs) size (here, later) =
      find-rehash m (s + 1) (move_bucket n acc b) bs (length-move_bucket n acc b ∙ size) later
      ∙ ap (λ o. latest_all k o bs) (find-move_bucket acc b size here.hashed)

abbrev or_else : Option MapNode → Option MapNode → Option MapNode
or_else (some node) o = some node
or_else none o = o

module _ (k : MapKey) (m : ℕ) where
  -- A bucket that is not the key's holds nothing for it.
  pub latest-elsewhere :
      (o : Option MapNode) (i : ℕ) (xs : List MapNode)
      → Hashed xs
      → InBucket m i xs
      → i ≢ index_for k m
      → latest k o xs ≡ o
  unfolding latest Hashed InBucket
  latest-elsewhere o i [] hs here apart = refl
  latest-elsewhere o i (x ∷ xs) (h, hs) (at, here) apart = elim (Bool-cases (equals_key k x.key)) [
    | inl e ↦
        absurd (
          apart (sym at ∙ ap (λ c. calc_bucket_index c m) (h ∙ sym (equals_key_lem k x.key k e).0)))
    | inr e ↦ rw e (latest-elsewhere o i xs hs here apart)
  ]

  latest-Distinct :
      (o : Option MapNode) (xs : List MapNode) → Distinct xs → latest k o xs ≡ or_else (find k xs) o
  unfolding latest find Distinct
  latest-Distinct o [] d = refl
  latest-Distinct o (x ∷ xs) (fresh, d) = elim (Bool-cases (equals_key k x.key)) [
    | inl e ↦ rw e (
        latest-Distinct (some x) xs d
        ∙ ap (λ r. or_else r (some x)) (find-equal k x.key xs e ∙ fresh))
    | inr e ↦ rw e (latest-Distinct o xs d)
  ]

  latest_all-passed :
      (o : Option MapNode) (s : ℕ) (bs : List (List MapNode))
      → Placed m s bs
      → index_for k m < s
      → latest_all k o bs ≡ o
  unfolding latest_all Placed
  latest_all-passed o s [] p h = refl
  latest_all-passed o s (b ∷ bs) (here, later) h =
      ap (λ r. latest_all k r bs) (latest-elsewhere o s b here.hashed here.here (omega arith))
      ∙ latest_all-passed o (s + 1) bs later (omega arith)

  pub latest_all-find :
      (o : Option MapNode) (s i : ℕ) (bs : List (List MapNode))
      → Placed m s bs
      → index_for k m ≡ s + i
      → latest_all k o bs ≡ or_else (find k (get_or bs i [])) o
  unfolding latest_all Placed find
  latest_all-find o s i [] p e = refl
  latest_all-find o s zero (b ∷ bs) (here, later) e =
      latest_all-passed (latest k o b) (s + 1) bs later (omega arith)
      ∙ latest-Distinct o b here.distinct
  latest_all-find o s (suc i) (b ∷ bs) (here, later) e =
      ap (λ r. latest_all k r bs) (latest-elsewhere o s b here.hashed here.here (omega arith))
      ∙ latest_all-find o (s + 1) i bs later (omega arith)

-- Moved to `n` buckets, every key finds what it found among the `m` buckets before.
pub find-grown :
    (n m : ℕ) (bs : List (List MapNode)) (k : MapKey)
    → 0 < n
    → Placed m 0 bs
    → find k (bucket_for (rehash n (replicate n []) bs) n k) ≡ find k (bucket_for bs m k)
unfolding find
find-grown n m bs k h p =
    find-rehash n k h m 0 (replicate n []) bs (length-replicate {A = List MapNode} n []) p
    ∙ ap (λ o. latest_all k o bs) (ap (find k) (get_or-replicate n (index_for k n) []))
    ∙ latest_all-find k m none 0 (index_for k m) bs p (omega arith)
    ∙ or_else-none (find k (bucket_for bs m k))
  where
    or_else-none : (o : Option MapNode) → or_else o none ≡ o
    or_else-none none = refl
    or_else-none (some node) = refl
