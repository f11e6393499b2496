-- ===== src/Base/Doubling.antt =====
-- `do { capacity *= 2; } while (capacity < wanted);` on `size_t`, of the list and the vector.
use Prim.Native.Nat.{ℕ, zero, suc, ◌*◌, ◌%◌, ◌^◌, ◌≤◌, ◌<◌}
use mathlib.Core.Path.{◌≡◌, refl}
use mathlib.Core.Bool.{true, false}
use mathlib.Core.Logic.{◌⊎◌, inl, inr}
use mathlib.Core.Option.{Option, none, some}
use native.Mathlib.Omega.{arith}
use native.Mathlib.Nat.{mul_assoc, pow-succ'}
use c_roblib.Base.Tests.{ltb, Bool-cases}

-- `none` after more rounds than the word has bits: the capacity is 0 from then on.
unfoldable pub doubled : ℕ → ℕ → ℕ → Option ℕ
doubled zero capacity wanted = none
doubled (suc rounds) capacity wanted =
    let next = capacity * 2 % 2 ^ 64 in
    elim (ltb next wanted) [ true ↦ doubled rounds next wanted | false ↦ some next ]

pub record Doubled (capacity wanted : ℕ) (out : Option ℕ) : Type 0 where
  pub result : ℕ
  pub ends : out ≡ some result
  pub enough : wanted ≤ result
  pub grown : capacity * 2 ≤ result
  pub word : result < 2 ^ 64
  pub tight : (result ≡ capacity * 2) ⊎ (result < wanted * 2)

-- A capacity that is not 0 is doubled in time, where half a word is wanted at most.
pub doubled-Doubled :
    (rounds capacity wanted : ℕ)
    → capacity < 2 ^ 63
    → wanted ≤ 2 ^ 63
    → 2 ^ 63 ≤ capacity * 2 ^ rounds
    → Doubled capacity wanted (doubled rounds capacity wanted)
unfolding doubled
doubled-Doubled zero capacity wanted h w k = absurd (grind arith)
doubled-Doubled (suc rounds) capacity wanted h w k =
    let next : capacity * 2 % 2 ^ 64 ≡ capacity * 2 = omega arith in
    elim (Bool-cases (ltb (capacity * 2 % 2 ^ 64) wanted)) [
      | inr enough ↦
          rw (enough, doubled)
            (record {
              result = capacity * 2 % 2 ^ 64;
              ends = refl;
              enough = ground arith;
              grown = omega arith;
              word = omega arith;
              tight = inl next;
            })
      | inl short ↦
          let left : 2 ^ 63 ≤ capacity * 2 % 2 ^ 64 * 2 ^ rounds =
            rw (next, mul_assoc capacity 2 (2 ^ rounds), ← pow-succ' 2 rounds) k in
          let below : capacity * 2 % 2 ^ 64 < wanted = ground arith in
          let more = doubled-Doubled rounds (capacity * 2 % 2 ^ 64) wanted (ground arith) w left in
          rw (short, doubled)
            (record {
              result = more.result;
              ends = more.ends;
              enough = more.enough;
              grown = omega (arith, more.grown);
              word = more.word;
              tight = inr (elim more.tight [ inl e ↦ omega arith | inr less ↦ less ]);
            })
    ]
