-- ===== src/HashMap/Placed.antt =====
-- Where nodes stand: each in the bucket of its hash, and no key twice.
use c_roblib.Base.{
  ℕ, zero, suc, ◌+◌, ◌≡◌, ◌<◌, refl, List, [], ◌∷◌, arith, length, get_or, set, replicate,
}
use c_roblib.HashMap.{MapNode, calc_bucket_index}
use c_roblib.HashMap.Keys.{hash_function}
use c_roblib.HashMap.Buckets.{Distinct}

-- The hashes stored are those of the keys.
unfoldable pub Hashed : List MapNode → Type 0
Hashed [] = Unit
Hashed (node ∷ next) = (node.hash ≡ hash_function node.key) × Hashed next

-- And, of `n` buckets, bucket `i` is theirs.
unfoldable pub InBucket : ℕ → ℕ → List MapNode → Type 0
InBucket n i [] = Unit
InBucket n i (node ∷ next) = (calc_bucket_index node.hash n ≡ i) × InBucket n i next

pub record Bucket (n i : ℕ) (bucket : List MapNode) : Type 0 where
  pub hashed : Hashed bucket
  pub here : InBucket n i bucket
  pub distinct : Distinct bucket

-- The buckets from the `i`th on.
unfoldable pub Placed : ℕ → ℕ → List (List MapNode) → Type 0
Placed n i [] = Unit
Placed n i (bucket ∷ buckets) = Bucket n i bucket × Placed n (i + 1) buckets

unfoldable pub total : List (List MapNode) → ℕ
total [] = 0
total (bucket ∷ buckets) = length bucket + total buckets

pub empty-Bucket : (n i : ℕ) → Bucket n i []
unfolding Hashed InBucket Distinct
empty-Bucket n i = record { hashed = tt; here = tt; distinct = tt }

pub replicate-Placed : (n i count : ℕ) → Placed n i (replicate count [])
unfolding Placed
replicate-Placed n i zero = tt
replicate-Placed n i (suc count) = (empty-Bucket n i, replicate-Placed n (i + 1) count)

pub total-replicate : (count : ℕ) → total (replicate count []) ≡ 0
unfolding total
total-replicate zero = refl
total-replicate (suc count) = omega (arith, total-replicate count)

pub get_or-Bucket :
    (n s i j : ℕ) (buckets : List (List MapNode))
    → j ≡ s + i
    → Placed n s buckets
    → Bucket n j (get_or buckets i [])
unfolding Placed
get_or-Bucket n s i j [] e p = empty-Bucket n j
get_or-Bucket n s zero j (b ∷ bs) e (here, later) = let e' : j ≡ s = omega arith in rw e' here
get_or-Bucket n s (suc i) j (b ∷ bs) e (here, later) =
    get_or-Bucket n (s + 1) i j bs (omega arith) later

pub set-Placed :
    (n s i j : ℕ) (buckets : List (List MapNode)) (b' : List MapNode)
    → j ≡ s + i
    → Placed n s buckets
    → Bucket n j b'
    → Placed n s (set buckets i b')
unfolding Placed
set-Placed n s i j [] b' e p q = tt
set-Placed n s zero j (b ∷ bs) b' e (here, later) q =
    let e' : s ≡ j = omega arith in (rw e' q, later)
set-Placed n s (suc i) j (b ∷ bs) b' e (here, later) q =
    (here, set-Placed n (s + 1) i j bs b' (omega arith) later q)

pub total-set :
    (buckets : List (List MapNode)) (i : ℕ) (b' : List MapNode)
    → i < length buckets
    → total (set buckets i b') + length (get_or buckets i []) ≡ total buckets + length b'
unfolding total
total-set [] i b' h = absurd (omega arith)
total-set (b ∷ bs) zero b' h = omega arith
total-set (b ∷ bs) (suc i) b' h = omega (arith, total-set bs i b' (omega arith))
