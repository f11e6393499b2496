-- ===== src/Allocator/Align.antt =====
-- `alok_align_up` and `round_up_to_power_of_two`.
use native.Mathlib.Nat.{one-le-pow, pow-le-pow_right, div-mul-le_self, lt-div-mul-add, mul-mod_left}
use c_roblib.Base.{
  ℕ, ◌+◌, ◌-◌, ◌*◌, ◌/◌, ◌%◌, ◌^◌, ◌≤◌, ◌<◌, ◌≡◌, refl, ap, ◌∙◌, arith, bit_and, true, Option, some,
}
use c_roblib.Base.Digits.{bit_and-clear_low}
use c_roblib.Allocator.{Block, align_up, less_one, invert, new_os_block, header_size}

-- The value up to the next multiple of a power of two.
align_up-div :
    (k value : ℕ)
    → k < 64
    → value + 2 ^ k ≤ 2 ^ 64
    → align_up value (2 ^ k) ≡ (value + 2 ^ k - 1) / 2 ^ k * 2 ^ k
unfolding align_up
align_up-div k value h fits =
    let power : 2 ^ k ≤ 2 ^ 63 =
      pow-le-pow_right {n = 2} (omega arith) {i = k} {j = 63} (omega arith) in
    let pos = one-le-pow k 2 (omega arith) in
    let mask : less_one (2 ^ k) ≡ 2 ^ k - 1 = omega (arith, pos, power) in
    let sum : less_one ((value + 2 ^ k) % 2 ^ 64) ≡ value + 2 ^ k - 1 = omega (arith, pos, power) in
    rw (mask, sum) (bit_and-clear_low k (value + 2 ^ k - 1) h (omega (arith, pos)))

pub record AlignedUp (value alignment out : ℕ) : Type 0 where
  pub aligned : out % alignment ≡ 0
  pub low : value ≤ out
  pub high : out < value + alignment

-- `alok_align_up` gives the least multiple of the alignment, a power of two, that is not below the
-- value, where the sum of both fits into `size_t`.
pub align_up-AlignedUp :
    (k value : ℕ)
    → k < 64
    → value + 2 ^ k ≤ 2 ^ 64
    → AlignedUp value (2 ^ k) (align_up value (2 ^ k))
align_up-AlignedUp k value h fits =
    let a = value + 2 ^ k - 1 in
    let pos : 0 < 2 ^ k = one-le-pow k 2 (omega arith) in
    rw (align_up-div k value h fits) (record {
      aligned = mul-mod_left (a / 2 ^ k) (2 ^ k);
      low = omega (arith, lt-div-mul-add {a = a} pos);
      high = omega (arith, div-mul-le_self a (2 ^ k));
    })

-- A block of whole pages, with room for what was asked for.
pub record Pages (page_size asked : ℕ) (out : Option Block) : Type 0 where
  pub block : Block
  pub given : out ≡ some block
  pub whole : block.block_size % page_size ≡ 0
  pub room : asked ≤ block.block_size
  pub usable : block.usable_size ≡ block.block_size - header_size

pub new_os_block-Pages :
    (k asked : ℕ)
    → k < 64
    → asked + 2 ^ k ≤ 2 ^ 64
    → Pages (2 ^ k) asked (new_os_block (2 ^ k) true asked)
unfolding new_os_block
new_os_block-Pages k asked h fits =
    let a = asked + (2 ^ k - 1) in
    let pos : 0 < 2 ^ k = one-le-pow k 2 (omega arith) in
    let sum : a % 2 ^ 64 ≡ a = omega (arith, pos) in
    let size : bit_and (a % 2 ^ 64) (invert (2 ^ k - 1)) ≡ a / 2 ^ k * 2 ^ k =
      ap (λ w. bit_and w (invert (2 ^ k - 1))) sum ∙ bit_and-clear_low k a h (omega (arith, pos)) in
    rw size (record {
      block = record {
        block_size = a / 2 ^ k * 2 ^ k;
        usable_size = a / 2 ^ k * 2 ^ k - header_size;
      };
      given = refl;
      whole = mul-mod_left (a / 2 ^ k) (2 ^ k);
      room = omega (arith, lt-div-mul-add {a = a} pos);
      usable = refl;
    })
