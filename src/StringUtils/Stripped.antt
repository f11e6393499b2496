-- ===== src/StringUtils/Stripped.antt =====
-- What `sutil_strip` takes off, over the characters of the set.
use c_roblib.Base.{
  ℕ, zero, suc, ◌+◌, ◌-◌, ◌≤◌, ◌<◌, ◌≡◌, sym, ap, arith, true, false, List, [], ◌∷◌, some, ◌==◌,
  length, get_or, take, drop, Bool-cases, inl, inr,
}
use c_roblib.StringUtils.{char_in, from_char}
use c_roblib.StringUtils.Strip.{is_stripped, strip_in, strip_in-Cut}

-- A character of the set.
pub record Among (c : ℕ) (set : List ℕ) : Type 0 where
  pub index : ℕ
  pub inside : index < length set
  pub here : get_or set index 0 ≡ c

-- The characters of a string are bytes.
abbrev pub AreBytes : List ℕ → Type 0
AreBytes str = (j : ℕ) → j < length str → get_or str j 0 < 256

-- The conversion of `char` to `int` keeps bytes apart.
from_char_lem : (c d : ℕ) → c < 256 → d < 256 → from_char c ≡ from_char d → c ≡ d
unfolding from_char
from_char_lem c d hc hd e = ground arith

module _ (c : ℕ) (byte : c < 256) where
  is_stripped-Among : (set : List ℕ) → AreBytes set → is_stripped set c ≡ true → Among c set
  unfolding is_stripped char_in
  is_stripped-Among [] bytes hit = absurd (ground arith)
  is_stripped-Among (x ∷ set) bytes hit = elim (Bool-cases (from_char c == from_char x)) [
    | inl e ↦ record {
      index = 0;
      inside = omega arith;
      here = sym (from_char_lem c x byte (bytes 0 (omega arith)) (ground arith));
    }
    | inr ne ↦
        let later : is_stripped set c ≡ true = ground arith in
        let a = is_stripped-Among set (λ j h. bytes (suc j) (omega arith)) later in
        record { index = suc a.index; inside = omega (arith, a.inside); here = a.here }
  ]

  Among-is_stripped :
      (set : List ℕ) (k : ℕ) → k < length set → get_or set k 0 ≡ c → is_stripped set c ≡ true
  unfolding is_stripped char_in
  Among-is_stripped [] k h e = absurd (omega arith)
  Among-is_stripped (x ∷ set) zero h e =
      let same : (from_char c == from_char x) ≡ true = ground (arith, ap from_char e) in
      ground arith
  Among-is_stripped (x ∷ set) (suc k) h e =
      let later = Among-is_stripped set k (omega arith) e in ground arith

  not-Among : (set : List ℕ) → is_stripped set c ≡ false → ¬ Among c set
  not-Among set miss a = absurd (cc (miss, Among-is_stripped set a.index a.inside a.here))

-- The string without the characters of the set at both ends, and nothing else lost.
pub record Stripped (set str : List ℕ) (out : List ℕ) : Type 0 where
  pub left : ℕ
  pub within : left + length out ≤ length str
  pub part : out ≡ take (length out) (drop left str)
  pub before : (j : ℕ) → j < left → Among (get_or str j 0) set
  pub behind : (j : ℕ) → left + length out ≤ j → j < length str → Among (get_or str j 0) set
  pub first : 0 < length out → ¬ Among (get_or str left 0) set
  pub last : 0 < length out → ¬ Among (get_or str (left + length out - 1) 0) set

-- `sutil_strip` with memory, of a string and a set of bytes, takes off exactly the bytes of the set
-- at both ends, also those from 128 on, for which a `char` is negative.
pub strip_in-Stripped :
    (set str : List ℕ)
    → AreBytes set
    → AreBytes str
    → (out : List ℕ) × (strip_in true set str ≡ some out) × Stripped set str out
strip_in-Stripped set str members bytes =
    let (out, e, cut) = strip_in-Cut set str in
    (
      out,
      e,
      record {
        left = cut.left;
        within = cut.within;
        part = cut.part;
        before = λ j h.
            is_stripped-Among (get_or str j 0) (bytes j (omega (arith, cut.within))) set members
              (cut.before j h);
        behind =
            λ j a b. is_stripped-Among (get_or str j 0) (bytes j b) set members (cut.behind j a b);
        first = λ h.
            not-Among (get_or str cut.left 0) (bytes cut.left (omega (arith, cut.within))) set
              (cut.first h);
        last = λ h.
            let j = cut.left + length out - 1 in
            not-Among (get_or str j 0) (bytes j (omega (arith, cut.within))) set (cut.last h);
      },
    )
