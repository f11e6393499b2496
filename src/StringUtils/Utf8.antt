-- ===== src/StringUtils/Utf8.antt =====
-- `sutil8_char_at` and `sutil8_char_count` (src/string/string_utils_utf8.c). A signed `char` below 0 is
-- written as its byte, from 128 on.
use c_roblib.Base.{
  ℕ, zero, suc, ◌+◌, ◌-◌, ◌*◌, ◌/◌, ◌%◌, ◌^◌, ◌≤◌, ◌<◌, ◌≡◌, refl, ◌∙◌, arith, true, ◌&&◌, List, [],
  ◌∷◌, ◌++◌, Option, none, some, if◌then◌else◌, ltb, leb, if_cases, length, get_or, bit_and, bit_or,
}
use c_roblib.Base.Bits.{bit_and-seven, bit_and-fifteen, bit_and-31, bit_and-63, bit_or-disjoint}
use c_roblib.Json.Utf8.{encoded}
use c_roblib.Json.Utf8.RoundTrip.{utf8, encoded-utf8}
use c_roblib.StringUtils.{CString}

-- The first bits of a code point and the number of its bytes, by the first of them.
unfoldable pub lead : ℕ → Option (ℕ × ℕ)
lead b =
    if ltb b 128
    then some (b, 1)
    else if ltb b 192
    then none
    else if ltb b 224
    then some (bit_and b 0x1f, 2)
    else if ltb b 240
    then some (bit_and b 0x0f, 3)
    else if ltb b 248
    then some (bit_and b 0x07, 4)
    else none

abbrev pub uint32_max : ℕ
uint32_max = 2 ^ 32 - 1

-- The loop that decodes, with the rounds that are left.
unfoldable pub decode_loop : ℕ → ℕ → List ℕ → ℕ
decode_loop zero code_point p = code_point
decode_loop (suc rounds) code_point [] = uint32_max
decode_loop (suc rounds) code_point (cb ∷ p) =
    if leb 128 cb && ltb cb 192
    then decode_loop rounds (bit_or (code_point * 64 % 2 ^ 32) (bit_and cb 0x3f)) p
    else uint32_max

-- The loop that passes a character.
unfoldable pub pass : ℕ → List ℕ → Option (List ℕ)
pass zero p = some p
pass (suc bytes) [] = none
pass (suc bytes) (c ∷ p) = pass bytes p

-- The outer loop of `sutil8_char_at`, with the number of characters up to the index.
unfoldable pub at_loop : ℕ → List ℕ → ℕ
unfolding lead decode_loop pass
at_loop index [] = uint32_max
at_loop zero (b ∷ p) = elim (lead b) [
  | none ↦ uint32_max
  | some start ↦ decode_loop (start.1 - 1) start.0 p
]
at_loop (suc index) (b ∷ p) = elim (lead b) [
  | none ↦ uint32_max
  | some start ↦ elim (pass start.1 (b ∷ p)) [ none ↦ uint32_max | some rest ↦ at_loop index rest ]
]

-- `sutil8_char_at`
unfoldable pub utf8_char_at : CString → ℕ → ℕ
unfolding at_loop
utf8_char_at none index = uint32_max
utf8_char_at (some utf8_str) index = at_loop index utf8_str

-- `sutil8_char_count`
unfoldable pub count_loop : List ℕ → ℕ
count_loop [] = 0
count_loop (c ∷ p) = count_loop p + (if leb 128 c && ltb c 192 then 0 else 1)

unfoldable pub utf8_char_count : CString → ℕ
unfolding count_loop
utf8_char_count none = 0
utf8_char_count (some utf8_str) = count_loop utf8_str

-- Code points, none of which is the terminator.
abbrev pub Codes : List ℕ → Type 0
Codes [] = Unit
Codes (c ∷ cs) = (0 < c) × (c ≤ 0x10ffff) × Codes cs

-- The text that `pvt_encode_utf8` writes for code points.
abbrev pub encoded_text : List ℕ → List ℕ
encoded_text [] = []
encoded_text (c ∷ cs) = encoded c ++ encoded_text cs

count_loop-utf8 :
    (c : ℕ) (rest : List ℕ) → c ≤ 0x10ffff → count_loop (utf8 c ++ rest) ≡ count_loop rest + 1
unfolding count_loop utf8
count_loop-utf8 c rest h = ground arith

-- On what the JSON parser encodes, `sutil8_char_count` gives the number of the code points.
pub utf8_char_count-encoded_text :
    (cs : List ℕ) → Codes cs → utf8_char_count (some (encoded_text cs)) ≡ length cs
unfolding utf8_char_count
utf8_char_count-encoded_text [] v = refl
utf8_char_count-encoded_text (c ∷ cs) (pos, range, v) =
    let rest = utf8_char_count-encoded_text cs v in
    rw (encoded-utf8 c range, count_loop-utf8 c (encoded_text cs) range, rest) (omega arith)

decode_step :
    (rounds code_point x : ℕ) (p : List ℕ)
    → code_point < 2 ^ 20
    → x < 64
    → decode_loop (suc rounds) code_point ((0x80 + x) ∷ p)
      ≡ decode_loop rounds (code_point * 64 + x) p
unfolding decode_loop
decode_step rounds code_point x p h k =
    let mark : (leb 128 (0x80 + x) && ltb (0x80 + x) 192) ≡ true = ground arith in
    let word : code_point * 64 % 2 ^ 32 ≡ code_point * 64 = omega arith in
    let bits : bit_and (0x80 + x) 0x3f ≡ x = omega (arith, bit_and-63 (0x80 + x)) in
    rw (mark, word, bits, bit_or-disjoint code_point x k) refl

-- The lead bytes of two, three and four bytes.
lead2 : (a : ℕ) → a < 32 → lead (0xc0 + a) ≡ some (a, 2)
unfolding lead
lead2 a h =
    let bits : bit_and (0xc0 + a) 0x1f ≡ a = omega (arith, bit_and-31 (0xc0 + a)) in
    rw bits (ground arith)

lead3 : (a : ℕ) → a < 16 → lead (0xe0 + a) ≡ some (a, 3)
unfolding lead
lead3 a h =
    let bits : bit_and (0xe0 + a) 0x0f ≡ a = omega (arith, bit_and-fifteen (0xe0 + a)) in
    rw bits (ground arith)

lead4 : (a : ℕ) → a < 8 → lead (0xf0 + a) ≡ some (a, 4)
unfolding lead
lead4 a h =
    let bits : bit_and (0xf0 + a) 0x07 ≡ a = omega (arith, bit_and-seven (0xf0 + a)) in
    rw bits (ground arith)

lead1 : (a : ℕ) → a ≤ 127 → lead a ≡ some (a, 1)
unfolding lead
lead1 a h = ground arith

-- The bytes of a character, which is decoded or passed.
abbrev Reads : ℕ → List ℕ → Type 0
Reads c bytes =
    (rest : List ℕ)
    → (at_loop 0 (bytes ++ rest) ≡ c)
      × ((index : ℕ) → at_loop (suc index) (bytes ++ rest) ≡ at_loop index rest)

reads1 : (a : ℕ) → a ≤ 127 → Reads a (a ∷ [])
unfolding at_loop decode_loop pass
reads1 a h rest = (rw (lead1 a h, at_loop) refl, λ index. rw (lead1 a h, at_loop) refl)

reads2 : (c a b : ℕ) → a < 32 → b < 64 → a * 64 + b ≡ c → Reads c ((0xc0 + a) ∷ (0x80 + b) ∷ [])
unfolding at_loop pass
reads2 c a b ha hb e rest = (
  rw (lead2 a ha, at_loop) (decode_step 0 a b rest (omega arith) hb ∙ omega (arith, e)),
  λ index. rw (lead2 a ha, at_loop) refl,
)

reads3 :
    (c a b d : ℕ)
    → a < 16
    → b < 64
    → d < 64
    → (a * 64 + b) * 64 + d ≡ c
    → Reads c ((0xe0 + a) ∷ (0x80 + b) ∷ (0x80 + d) ∷ [])
unfolding at_loop pass
reads3 c a b d ha hb hd e rest =
    let last = decode_step 0 (a * 64 + b) d rest (omega arith) hd in
    (
      rw (lead3 a ha, at_loop) (decode_step 1 a b ((0x80 + d) ∷ rest) (omega arith) hb ∙ last ∙ e),
      λ index. rw (lead3 a ha, at_loop) refl,
    )

reads4 :
    (c a b d f : ℕ)
    → a < 8
    → b < 64
    → d < 64
    → f < 64
    → ((a * 64 + b) * 64 + d) * 64 + f ≡ c
    → Reads c ((0xf0 + a) ∷ (0x80 + b) ∷ (0x80 + d) ∷ (0x80 + f) ∷ [])
unfolding at_loop pass
reads4 c a b d f ha hb hd hf e rest =
    let third = decode_step 1 (a * 64 + b) d ((0x80 + f) ∷ rest) (omega arith) hd in
    let last = decode_step 0 ((a * 64 + b) * 64 + d) f rest (omega arith) hf in
    (
      rw (lead4 a ha, at_loop)
          (decode_step 2 a b ((0x80 + d) ∷ (0x80 + f) ∷ rest) (omega arith) hb ∙ third ∙ last ∙ e),
      λ index. rw (lead4 a ha, at_loop) refl,
    )

utf8-Reads : (c : ℕ) → c ≤ 0x10ffff → Reads c (utf8 c)
unfolding utf8
utf8-Reads c h =
    if_cases (Reads c) (leb c 127) (λ small. reads1 c (ground arith))
      (λ big.
        if_cases (Reads c) (leb c 0x7ff)
          (λ two. reads2 c (c / 64) (c % 64) (ground arith) (omega arith) (omega arith))
          (λ more.
            if_cases (Reads c) (leb c 0xffff)
              (λ three.
                reads3 c (c / 4096) (c / 64 % 64) (c % 64) (ground arith) (omega arith)
                  (omega arith) (omega arith))
              (λ four.
                reads4 c (c / 262144) (c / 4096 % 64) (c / 64 % 64) (c % 64) (omega arith)
                  (omega arith) (omega arith) (omega arith) (omega arith))))

at_end : (index : ℕ) → at_loop index [] ≡ uint32_max
unfolding at_loop
at_end zero = refl
at_end (suc index) = refl

-- On what the JSON parser encodes, `sutil8_char_at` gives the code point of each index, and
-- UINT32_MAX behind the last one.
pub utf8_char_at-encoded_text :
    (cs : List ℕ) (index : ℕ)
    → Codes cs
    → utf8_char_at (some (encoded_text cs)) index ≡ get_or cs index uint32_max
unfolding utf8_char_at
utf8_char_at-encoded_text [] zero v = at_end 0
utf8_char_at-encoded_text [] (suc index) v = at_end (suc index)
utf8_char_at-encoded_text (c ∷ cs) zero (pos, range, v) =
    rw (encoded-utf8 c range) (utf8-Reads c range (encoded_text cs)).0
utf8_char_at-encoded_text (c ∷ cs) (suc index) (pos, range, v) =
    rw (encoded-utf8 c range)
      ((utf8-Reads c range (encoded_text cs)).1 index ∙ utf8_char_at-encoded_text cs index v)
