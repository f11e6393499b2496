-- ===== src/Json/Parser.antt =====
-- The state that the parse functions share, and the monad that they run in.
use c_roblib.Base.{ℕ, ◌+◌, ◌-◌, ◌%◌, ◌^◌, Bool, List}
use c_roblib.Json.Error.{ParseError}
use c_roblib.Ring.{Ring}

-- `JsonContext` with its `Input`, the `StringSourceInputContext` behind that, and the
-- `JsonParseError` that is passed along with it. `text` holds what stands in memory from `json_text`
-- on, of which `length_bytes` bytes are parsed; past it the memory reads as the terminator.
pub record Parser : Type 0 where
  pub text : List ℕ
  pub length_bytes : ℕ
  pub look_behind : Ring
  pub current_byte_index : ℕ
  pub line : ℕ
  pub column : ℕ
  pub parse_start : ℕ
  pub parse_end : ℕ
  pub depth_current : ℕ
  pub depth_max : ℕ
  pub config_flags : ℕ
  pub decimal_separator : ℕ
  pub ws_table : ℕ → Bool
  pub error : ParseError

-- `uint32_t` arithmetic
abbrev pub add_u32 : ℕ → ℕ → ℕ
add_u32 a b = (a + b) % 2 ^ 32

abbrev pub sub_u32 : ℕ → ℕ → ℕ
sub_u32 a b = (a + 2 ^ 32 - b) % 2 ^ 32

-- What a parse function returns: a value, `nullptr` (or `false`), or nothing because the model's
-- fuel ran out, which does not happen in the code.
pub data Outcome {ℓ} (A : Type ℓ) : Type ℓ where
  ok : A → Outcome A
  null : Outcome A
  out_of_fuel : Outcome A

abbrev pub M {ℓ} : Type ℓ → Type ℓ
M A = Parser → Outcome A × Parser

abbrev pub continue {ℓ κ} :
    {A : Type ℓ} {B : Type κ} → Outcome A × Parser → (A → M B) → Outcome B × Parser
continue (ok a, p) f = f a p
continue (null, p) f = (null, p)
continue (out_of_fuel, p) f = (out_of_fuel, p)

infixl 5 ◌>>=◌ ◌>>◌
abbrev pub ◌>>=◌ {ℓ κ} : {A : Type ℓ} {B : Type κ} → M A → (A → M B) → M B
◌>>=◌ m f p = continue (m p) f

abbrev pub ◌>>◌ {ℓ} : {B : Type ℓ} → M (Unit {0}) → M B → M B
m >> k = m >>= λ _. k

abbrev pub return {ℓ} : {A : Type ℓ} → A → M A
return a p = (ok a, p)

abbrev pub fail {ℓ} : {A : Type ℓ} → M A
fail p = (null, p)

abbrev pub modify : (Parser → Parser) → M (Unit {0})
modify f p = (ok tt, f p)

abbrev pub get {ℓ} : {A : Type ℓ} → (Parser → A) → M A
get f p = (ok (f p), p)

abbrev pub stop {ℓ} : {A : Type ℓ} → M A
stop p = (out_of_fuel, p)
