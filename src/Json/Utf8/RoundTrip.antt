-- ===== src/Json/Utf8/RoundTrip.antt =====
-- `pvt_decode_utf8` on what `pvt_encode_utf8` writes.
use c_roblib.Base.{
  ℕ, ◌+◌, ◌*◌, ◌/◌, ◌%◌, ◌^◌, ◌≤◌, ◌<◌, ◌≡◌, refl, ◌∙◌, List, [], ◌∷◌, arith, length, leb,
  if◌then◌else◌, bit_and, bit_or,
}
use c_roblib.Base.Bits.{
  bit_and-63, bit_or-0x80, bit_or-0xc0, bit_or-0xe0, bit_or-0xf0, byte_masks, bit_or-disjoint,
  bit_or-shift, zero-bit_or,
}
use c_roblib.Json.Utf8.{encoded, decode_utf8}

-- The encoding in plain arithmetic.
unfoldable pub utf8 : ℕ → List ℕ
utf8 c =
    if leb c 127
    then c ∷ []
    else if leb c 0x7ff
    then (0xc0 + c / 64) ∷ (0x80 + c % 64) ∷ []
    else if leb c 0xffff
    then (0xe0 + c / 4096) ∷ (0x80 + c / 64 % 64) ∷ (0x80 + c % 64) ∷ []
    else (0xf0 + c / 262144) ∷ (0x80 + c / 4096 % 64) ∷ (0x80 + c / 64 % 64) ∷ (0x80 + c % 64) ∷ []

-- A continuation byte for the low six bits of a number.
mark_lem : (x : ℕ) → bit_or 0x80 (bit_and x 0x3f % 256) ≡ 0x80 + x % 64
mark_lem x =
    let e : bit_and x 0x3f % 256 ≡ x % 64 = omega (arith, bit_and-63 x) in
    rw e (bit_or-0x80 (x % 64) (omega arith))

lead2 : (c : ℕ) → c ≤ 0x7ff → bit_or 0xc0 (c / 2 ^ 6 % 256) ≡ 0xc0 + c / 64
lead2 c h = let e : c / 64 % 256 ≡ c / 64 = omega arith in rw e (bit_or-0xc0 (c / 64) (omega arith))

lead3 : (c : ℕ) → c ≤ 0xffff → bit_or 0xe0 (c / 2 ^ 12 % 256) ≡ 0xe0 + c / 4096
lead3 c h =
    let e : c / 4096 % 256 ≡ c / 4096 = omega arith in rw e (bit_or-0xe0 (c / 4096) (omega arith))

lead4 : (c : ℕ) → c ≤ 0x10ffff → bit_or 0xf0 (c / 2 ^ 18 % 256) ≡ 0xf0 + c / 262144
lead4 c h =
    let e : c / 262144 % 256 ≡ c / 262144 = omega arith in
    rw e (bit_or-0xf0 (c / 262144) (omega arith))

pub encoded-utf8 : (c : ℕ) → c ≤ 0x10ffff → encoded c ≡ utf8 c
unfolding encoded utf8
encoded-utf8 c h =
    ground (arith, mark_lem c, mark_lem (c / 64), mark_lem (c / 4096), lead2 c, lead3 c, lead4 c)

low6 : (x : ℕ) → x < 64 → bit_and 0x3f (0x80 + x) ≡ x
low6 x h = omega (arith, (byte_masks (0x80 + x) (omega arith)).0)

decode2 : (a b : ℕ) → a < 32 → b < 64 → decode_utf8 2 ((0xc0 + a) ∷ (0x80 + b) ∷ []) ≡ a * 64 + b
unfolding decode_utf8
decode2 a b ha hb =
    let lead : bit_and 0x3f (0xc0 + a) ≡ a =
      omega (arith, (byte_masks (0xc0 + a) (omega arith)).0) in
    rw (lead, low6 b hb, zero-bit_or) (bit_or-disjoint a b hb)

-- Two fields of six bits under a third.
or3 : (a b d : ℕ) → b < 64 → d < 64 → bit_or (bit_or (a * 4096) (b * 64)) d ≡ a * 4096 + b * 64 + d
or3 a b d hb hd =
    let e : a * 4096 ≡ a * 64 * 64 = omega arith in
    rw (e, bit_or-shift (a * 64) b, bit_or-disjoint a b hb)
      (bit_or-disjoint (a * 64 + b) d hd ∙ omega arith)

decode3 :
    (a b d : ℕ)
    → a < 16
    → b < 64
    → d < 64
    → decode_utf8 3 ((0xe0 + a) ∷ (0x80 + b) ∷ (0x80 + d) ∷ []) ≡ a * 4096 + b * 64 + d
unfolding decode_utf8
decode3 a b d ha hb hd =
    let lead : bit_and 0x1f (0xe0 + a) ≡ a =
      omega (arith, (byte_masks (0xe0 + a) (omega arith)).1) in
    rw (lead, low6 b hb, low6 d hd, zero-bit_or) (or3 a b d hb hd)

or4 :
    (a b d e : ℕ)
    → b < 64
    → d < 64
    → e < 64
    → bit_or (bit_or (bit_or (a * 262144) (b * 4096)) (d * 64)) e
      ≡ a * 262144 + b * 4096 + d * 64 + e
or4 a b d e hb hd he =
    let p : a * 262144 ≡ a * 4096 * 64 = omega arith in
    let q : b * 4096 ≡ b * 64 * 64 = omega arith in
    rw (p, q, bit_or-shift (a * 4096) (b * 64), bit_or-shift (bit_or (a * 4096) (b * 64)) d)
      (rw (or3 a b d hb hd) (bit_or-disjoint (a * 4096 + b * 64 + d) e he ∙ omega arith))

decode4 :
    (a b d e : ℕ)
    → a < 8
    → b < 64
    → d < 64
    → e < 64
    → decode_utf8 4 ((0xf0 + a) ∷ (0x80 + b) ∷ (0x80 + d) ∷ (0x80 + e) ∷ [])
      ≡ a * 262144 + b * 4096 + d * 64 + e
unfolding decode_utf8
decode4 a b d e ha hb hd he =
    let lead : bit_and 0x0f (0xf0 + a) ≡ a =
      omega (arith, (byte_masks (0xf0 + a) (omega arith)).2) in
    rw (lead, low6 b hb, low6 d hd, low6 e he, zero-bit_or) (or4 a b d e hb hd he)

decode1 : (a : ℕ) → decode_utf8 1 (a ∷ []) ≡ a
unfolding decode_utf8
decode1 a = refl

decode-utf8 : (c : ℕ) → c ≤ 0x10ffff → decode_utf8 (length (utf8 c)) (utf8 c) ≡ c
unfolding utf8
decode-utf8 c h = ground (
  arith,
  decode1 c,
  decode2 (c / 64) (c % 64),
  decode3 (c / 4096) (c / 64 % 64) (c % 64),
  decode4 (c / 262144) (c / 4096 % 64) (c / 64 % 64) (c % 64),
)

-- `pvt_decode_utf8` of the bytes that `pvt_encode_utf8` appends for a code point gives that code
-- point back, up to the last of Unicode.
pub decode-encoded :
    (codepoint : ℕ)
    → codepoint ≤ 0x10ffff
    → decode_utf8 (length (encoded codepoint)) (encoded codepoint) ≡ codepoint
decode-encoded codepoint h = rw (encoded-utf8 codepoint h) (decode-utf8 codepoint h)
