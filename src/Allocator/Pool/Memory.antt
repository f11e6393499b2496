-- ===== src/Allocator/Pool/Memory.antt =====
-- Loading and storing the links of the free list.
use c_roblib.Base.{ℕ, zero, suc, ◌+◌, ◌/◌, ◌%◌, ◌^◌, ◌≤◌, ◌<◌, ◌≡◌, ◌⊎◌, refl, ◌∙◌, arith}
use c_roblib.Allocator.Pool.{Bytes, load_bytes, store_bytes}

pub outside :
    (n : ℕ) (bytes : Bytes) (at value place : ℕ)
    → (place < at) ⊎ (at + n ≤ place)
    → store_bytes n bytes at value place ≡ bytes place
unfolding store_bytes
outside zero bytes at value place out = refl
outside (suc n) bytes at value place out =
    ground (arith, outside n bytes (at + 1) (value / 256) place)

pub agree :
    (n : ℕ) {bytes other : Bytes} (at : ℕ)
    → ((place : ℕ) → at ≤ place → place < at + n → bytes place ≡ other place)
    → load_bytes n bytes at ≡ load_bytes n other at
unfolding load_bytes
agree zero at same = refl
agree (suc n) at same =
    let here = same at (omega arith) (omega arith) in
    let rest = agree n (at + 1) (λ place low high. same place (omega arith) (omega arith)) in
    rw (here, rest) refl

pub load_bytes-store_bytes :
    (n : ℕ) (bytes : Bytes) (at value : ℕ)
    → value < 256 ^ n
    → load_bytes n (store_bytes n bytes at value) at ≡ value
unfolding load_bytes store_bytes
load_bytes-store_bytes zero bytes at value h = omega arith
load_bytes-store_bytes (suc n) bytes at value h =
    let inner = load_bytes-store_bytes n bytes (at + 1) (value / 256) (omega (arith, h)) in
    let rest : load_bytes n (store_bytes (suc n) bytes at value) (at + 1) ≡ value / 256 =
      agree n (at + 1) (λ place low high. ground arith) ∙ inner in
    let here : store_bytes (suc n) bytes at value at ≡ value % 256 = ground arith in
    rw (here, rest) (omega arith)
