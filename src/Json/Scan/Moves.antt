-- ===== src/Json/Scan/Moves.antt =====
-- What the scanner keeps: indices inside the text, and the parts of the state that never change.
use c_roblib.Base.{
  ℕ, ◌+◌, ◌-◌, ◌^◌, ◌≤◌, ◌<◌, ◌≡◌, ◌≢◌, refl, ap, ◌∙◌, false, arith, length, get_or, eq-or-ne, inl,
  inr,
}
use c_roblib.Json.Error.{ErrType}
use c_roblib.Json.Parser.{Parser}
use c_roblib.Json.Scan.{current_char, advanced, recorded, skip_one}

-- `json_text` has `length_bytes` bytes, few enough for `uint32_t` indices, and a terminator behind
-- them, which is no white space; the nesting is in its limit, which leaves room for the check.
pub record IsReady (p : Parser) : Type 0 where
  pub whole : p.length_bytes ≤ length p.text
  pub closed : get_or p.text p.length_bytes 0 ≡ 0
  pub small : p.length_bytes < 2 ^ 31
  pub within : p.current_byte_index ≤ p.length_bytes
  pub stops : p.ws_table 0 ≡ false
  pub shallow : p.depth_max < 2 ^ 32 - 1
  pub depth : p.depth_current ≤ p.depth_max

-- `q` is a later state of the same parse, at the same depth.
pub record Onward (p q : Parser) : Type 0 where
  pub text : q.text ≡ p.text
  pub length_bytes : q.length_bytes ≡ p.length_bytes
  pub depth_current : q.depth_current ≡ p.depth_current
  pub depth_max : q.depth_max ≡ p.depth_max
  pub config_flags : q.config_flags ≡ p.config_flags
  pub ws_table : q.ws_table ≡ p.ws_table
  pub later : p.current_byte_index ≤ q.current_byte_index
  pub within : q.current_byte_index ≤ q.length_bytes

pub Onward-refl : {p : Parser} → IsReady p → Onward p p
Onward-refl r = record {
  text = refl;
  length_bytes = refl;
  depth_current = refl;
  depth_max = refl;
  config_flags = refl;
  ws_table = refl;
  later = omega arith;
  within = r.within;
}

pub Onward-trans : {p q s : Parser} → Onward p q → Onward q s → Onward p s
Onward-trans f g = record {
  text = g.text ∙ f.text;
  length_bytes = g.length_bytes ∙ f.length_bytes;
  depth_current = g.depth_current ∙ f.depth_current;
  depth_max = g.depth_max ∙ f.depth_max;
  config_flags = g.config_flags ∙ f.config_flags;
  ws_table = g.ws_table ∙ f.ws_table;
  later = omega arith;
  within = g.within;
}

pub Onward-IsReady : {p q : Parser} → IsReady p → Onward p q → IsReady q
Onward-IsReady r o = record {
  whole = rw (o.length_bytes, o.text) r.whole;
  closed = rw (o.length_bytes, o.text) r.closed;
  small = omega arith;
  within = o.within;
  stops = ap (λ t. t 0) o.ws_table ∙ r.stops;
  shallow = omega arith;
  depth = omega arith;
}

-- A byte that is not the terminator lies inside the text.
pub current-lt :
    {p : Parser} → IsReady p → current_char p ≢ 0 → p.current_byte_index < p.length_bytes
current-lt {p} r h = elim (eq-or-ne p.current_byte_index p.length_bytes) [
  | inl at_end ↦ absurd (h (ap (λ i. get_or p.text i 0) at_end ∙ r.closed))
  | inr before ↦ omega (arith, r.within, before)
]

-- A move inside the text.
pub record Moves (n : ℕ) (p q : Parser) : Type 0 where
  pub onward : Onward p q
  pub error : q.error ≡ p.error
  pub at : q.current_byte_index ≡ p.current_byte_index + n

pub advanced-Moves :
    {p : Parser} (n : ℕ)
    → IsReady p
    → p.current_byte_index + n ≤ p.length_bytes
    → Moves n p (advanced p n)
unfolding advanced
advanced-Moves {p} n r h = ground arith

-- Wherever the parser is asked to go, it stays inside the text.
pub advanced-Onward : {p : Parser} (n : ℕ) → n < 2 ^ 31 → IsReady p → Onward p (advanced p n)
unfolding advanced
advanced-Onward {p} n h r = ground arith

pub recorded-Onward : {p : Parser} (e : ErrType) → IsReady p → Onward p (recorded e p)
unfolding recorded
recorded-Onward {p} e r = ground arith

pub err_type-recorded : (p : Parser) (e : ErrType) → (recorded e p).error.err_type ≡ e
unfolding recorded
err_type-recorded p e = refl

pub skip_one-Moves :
    {p : Parser} → IsReady p → p.current_byte_index < p.length_bytes → Moves 1 p (skip_one p)
unfolding skip_one advanced
skip_one-Moves {p} r h = ground arith
