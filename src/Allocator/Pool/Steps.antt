-- ===== src/Allocator/Pool/Steps.antt =====
-- The states of a pool under allocations, releases and the client's writes into its own slots.
use c_roblib.Base.{
  ℕ, ◌+◌, ◌≤◌, ◌<◌, ◌≡◌, ◌⊎◌, inl, inr, refl, sym, ap, ◌∙◌, arith, List, [], ◌∷◌, length,
  Bool-cases, ◌==◌, Option, none, some, false,
}
use c_roblib.Allocator.Pool.{Bytes, Pool, load_bytes, pool_alloc, pool_free}
use c_roblib.Allocator.Pool.Slots.{count, without, slots, count-without, length-without, IsSlot}
use c_roblib.Allocator.Pool.Inv.{Chain, frame, push, Kept, clear, listed, once, inside, head_word}

pub data Step (pool : Pool) (live : List ℕ) (next : Pool) (after : List ℕ) : Type 0 where
  allocate :
      (a : ℕ)
      → (pool_alloc pool).0 ≡ some a
      → next ≡ (pool_alloc pool).1
      → after ≡ a ∷ live
      → Step pool live next after
  release :
      (a : ℕ)
      → 0 < count a live
      → next ≡ pool_free pool a
      → after ≡ without a live
      → Step pool live next after
  write :
      (a : ℕ) (bytes : Bytes)
      → 0 < count a live
      → ((place : ℕ) → (place < a) ⊎ (a + pool.slot_size ≤ place) → pool.bytes place ≡ bytes place)
      → next ≡ record pool { bytes = bytes }
      → after ≡ live
      → Step pool live next after

-- The pools that a client can come to, with the slots that it then has.
pub data Reach (start : Pool) : Pool → List ℕ → Type 0 where
  created : Reach start start []
  step :
      {pool next : Pool} {live after : List ℕ}
      → Reach start pool live
      → Step pool live next after
      → Reach start next after

-- An allocation gives the first of the free slots.
pub record Taken (pool : Pool) (live : List ℕ) (a : ℕ) (next : Pool) : Type 0 where
  pub slot : IsSlot pool.pool_memory pool.slot_size pool.num_slots a
  pub fresh : count a live ≡ 0
  pub kept : Kept next (a ∷ live)

-- The outcomes of an allocation.
pub data Allocated (pool : Pool) (live : List ℕ) (out : Option ℕ × Pool) : Type 0 where
  full : length live ≡ pool.num_slots → out ≡ (none, pool) → Allocated pool live out
  taken :
      (a : ℕ) (next : Pool)
      → out ≡ (some a, next)
      → Taken pool live a next
      → Allocated pool live out

module _ {pool : Pool} {live : List ℕ} (k : Kept pool live) where
  outcome :
      (free : List ℕ)
      → free ≡ k.free
      → Chain pool.bytes pool.free_list free
      → Allocated pool live (pool_alloc pool)
  unfolding pool_alloc count
  outcome [] e c = full (omega (arith, k.total, ap length e)) (rw c refl)
  outcome (x ∷ xs) e (at, pos, rest) =
      let head : (pool.free_list == 0) ≡ false = ground arith in
      let whole : (b : ℕ)
          → count b (x ∷ xs) + count b live
            ≡ count b (slots pool.pool_memory pool.slot_size pool.num_slots) =
        λ b. ap (λ f. count b f + count b live) e ∙ k.whole b in
      let some_times : 0 < count x (x ∷ xs) = ground arith in
      let one : count x (x ∷ xs) + count x live ≤ 1 =
        rw (ap (λ f. count x f + count x live) e) (once k x) in
      taken x (record pool { free_list = load_bytes 8 pool.bytes x }) (rw (head, at) refl)
        (record {
          slot = listed k x (omega (arith, some_times, ap (λ f. count x f) e));
          fresh = ground (arith, one);
          kept = record {
            free = xs;
            roomy = k.roomy;
            start = k.start;
            word = k.word;
            fits = k.fits;
            chain = rest;
            whole = λ b. ground (arith, whole b);
            total = omega (arith, k.total, ap length e);
          };
        })

  release_Kept : (a : ℕ) → 0 < count a live → Kept (pool_free pool a) (without a live)
  unfolding pool_free count
  release_Kept a h = record {
    free = a ∷ k.free;
    roomy = k.roomy;
    start = k.start;
    word = k.word;
    fits = k.fits;
    chain =
        push pool.bytes pool.free_list a k.free k.chain (head_word k)
          (inside k (listed k a (omega arith))).0
          (λ b g. elim (clear k a b h g) [
            | inl before ↦ inl (omega (arith, before, k.roomy))
            | inr behind ↦ inr (omega (arith, behind, k.roomy))
          ]);
    whole = λ b. ground (arith, count-without a b live h, k.whole b);
    total = omega (arith, length-without a live h, k.total);
  }

  write_Kept :
      (a : ℕ) (bytes : Bytes)
      → 0 < count a live
      → ((place : ℕ) → (place < a) ⊎ (a + pool.slot_size ≤ place) → pool.bytes place ≡ bytes place)
      → Kept (record pool { bytes = bytes }) live
  write_Kept a bytes h same = record {
    free = k.free;
    roomy = k.roomy;
    start = k.start;
    word = k.word;
    fits = k.fits;
    whole = k.whole;
    total = k.total;
    chain = frame pool.free_list k.free k.chain λ b g place low high.
        same place (elim (clear k a b h g) [
          | inl before ↦ inl (omega (arith, before, k.roomy))
          | inr behind ↦ inr (omega (arith, behind, k.roomy))
        ]);
  }

-- A client that starts with no slot of a sound pool, takes and gives back slots and writes only
-- into those it has, never breaks the pool: every slot is free or live, never both or twice, and the
-- links in memory lead through exactly the free ones.
pub Reach-Kept :
    {start pool : Pool} {live : List ℕ} → Kept start [] → Reach start pool live → Kept pool live
Reach-Kept k created = k
Reach-Kept k (step r (allocate a got e f)) =
    elim (outcome (Reach-Kept k r) (Reach-Kept k r).free refl (Reach-Kept k r).chain) [
      | full all none_left ↦
          let never : none ≡ some a = ap (λ o. o.0) (sym none_left) ∙ got in absurd cc
      | taken b next there t ↦
          let given : some b ≡ some a = ap (λ o. o.0) (sym there) ∙ got in
          let same : b ≡ a = cc in rw (e, ap (λ o. o.1) there, f, sym same) t.kept
    ]
Reach-Kept k (step r (release a h e f)) = rw (e, f) (release_Kept (Reach-Kept k r) a h)
Reach-Kept k (step r (write a bytes h same e f)) =
    rw (e, f) (write_Kept (Reach-Kept k r) a bytes h same)

-- In every such state an allocation gives one of the pool's slots that is not live, or fails because
-- all slots are live.
pub pool_alloc-Allocated :
    {start pool : Pool} {live : List ℕ}
    → Kept start []
    → Reach start pool live
    → Allocated pool live (pool_alloc pool)
pool_alloc-Allocated k r = let kept = Reach-Kept k r in outcome kept kept.free refl kept.chain

-- What no operation changes.
abbrev pub Laid : Pool → ℕ → ℕ → Type 0
Laid pool memory size = (pool.pool_memory ≡ memory) × (pool.slot_size ≡ size)

pub Reach-Laid :
    {start pool : Pool} {live : List ℕ} (memory size : ℕ)
    → Laid start memory size
    → Reach start pool live
    → Laid pool memory size
unfolding pool_free pool_alloc
Reach-Laid memory size l created = l
Reach-Laid memory size l (step {pool} r (allocate a got e f)) =
    let before = Reach-Laid memory size l r in
    rw e (elim (Bool-cases (pool.free_list == 0)) [
      | inl none_left ↦ rw none_left before
      | inr more ↦ rw more before
    ])
Reach-Laid memory size l (step r (release a h e f)) = rw e (Reach-Laid memory size l r)
Reach-Laid memory size l (step r (write a bytes h same e f)) = rw e (Reach-Laid memory size l r)
