-- ===== src/Tests/StringUtilities.antt =====
-- Runs of the string utilities.
use c_roblib.Base.{ℕ, zero, suc, ◌≡◌, refl, List, [], ◌∷◌, arith, true, some}
use c_roblib.Base.Int.{pos}
use c_roblib.StringUtils.Strip.{strip_in}
use c_roblib.StringUtils.Stripped.{AreBytes, Stripped, strip_in-Stripped}
use c_roblib.StringUtils.Affix.{zfill, pad_center}
use c_roblib.StringUtils.Utf8.{utf8_char_at, encoded_text, utf8_char_at-encoded_text}

-- A full stop, and a byte of a longer character.
abbrev marks : List ℕ
marks = b'.' ∷ 0xa0 ∷ []

abbrev marked : List ℕ
marked = 0xa0 ∷ b'.' ∷ b'a' ∷ b'.' ∷ []

marks-AreBytes : AreBytes marks
marks-AreBytes zero h = omega arith
marks-AreBytes (suc zero) h = omega arith
marks-AreBytes (suc (suc j)) h = absurd (omega arith)

marked-AreBytes : AreBytes marked
marked-AreBytes zero h = omega arith
marked-AreBytes (suc zero) h = omega arith
marked-AreBytes (suc (suc zero)) h = omega arith
marked-AreBytes (suc (suc (suc zero))) h = omega arith
marked-AreBytes (suc (suc (suc (suc j)))) h = absurd (omega arith)

strip_in-Stripped_example :
    (out : List ℕ) × (strip_in true marks marked ≡ some out) × Stripped marks marked out
strip_in-Stripped_example = strip_in-Stripped marks marked marks-AreBytes marked-AreBytes

-- -7 filled to four characters.
zfill_minus : zfill true (some (b'-' ∷ b'7' ∷ [])) (pos 4) ≡ some (b'-' ∷ b'0' ∷ b'0' ∷ b'7' ∷ [])
unfolding zfill
zfill_minus = refl

pad_center_odd :
    pad_center true (some (b'a' ∷ [])) (pos 4) b'.' ≡ some (b'.' ∷ b'a' ∷ b'.' ∷ b'.' ∷ [])
unfolding pad_center
pad_center_odd = refl

-- An ASCII letter, and the euro sign of three bytes.
abbrev euro : List ℕ
euro = b'a' ∷ 0x20ac ∷ []

utf8_char_at-encoded_text_example : utf8_char_at (some (encoded_text euro)) 1 ≡ 0x20ac
utf8_char_at-encoded_text_example =
    utf8_char_at-encoded_text euro 1 (omega arith, omega arith, (omega arith, omega arith, tt))
