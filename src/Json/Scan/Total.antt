-- ===== src/Json/Scan/Total.antt =====
-- The structure of parse functions that come to an end.
use c_roblib.Base.{ℕ, ◌^◌, ◌<◌, ◌≡◌, ◌≢◌, refl, ap, Bool, true, false, arith, if◌then◌else◌}
use c_roblib.Json.Error.{ErrType, is_error}
use c_roblib.Json.Parser.{Parser, M, ◌>>=◌, ◌>>◌, return, get}
use c_roblib.Json.Scan.{current_char, advanced, advance, record_error, skip_whitespace}
use c_roblib.Json.Scan.Moves.{
  IsReady, Onward-refl, Onward-IsReady, advanced-Moves, advanced-Onward, current-lt,
}
use c_roblib.Json.Scan.Ends.{
  Ends, done, Anything, Ends-Onward, Ends-record, Ends-continue, Ends-weaken, skip_whitespace-Ends,
}

-- The parse ends, inside the text.
pub record Total {ℓ} {A : Type ℓ} (m : M A) : Type ℓ where
  pub run : (p : Parser) → IsReady p → Ends p Anything (m p)

-- Started at a byte of the text, it also passes one if it succeeds.
pub record Passes {ℓ} {A : Type ℓ} (m : M A) : Type ℓ where
  pub pass :
      (p : Parser)
      → IsReady p
      → current_char p ≢ 0
      → Ends p (λ _ q. p.current_byte_index < q.current_byte_index) (m p)

pub is_error-≢ : {e : ErrType} → is_error e ≡ true → e ≢ ErrType.none
is_error-≢ h same = cc (h, ap is_error same)

pub not_error : (e : ErrType) → is_error e ≡ false → e ≡ ErrType.none
not_error ErrType.none h = refl
not_error _ h = absurd (cc h)

module _ {ℓ} {A : Type ℓ} where
  pub Total-return : {a : A} → Total (return a)
  Total-return = record { run = λ p r. done (Onward-refl r) tt }

  pub Total-error : (e : ErrType) → is_error e ≡ true → Total (record_error {A = A} e)
  Total-error e h = record { run = λ p r. Ends-record e (is_error-≢ h) r }

  Total-advance_by : {k : M A} (n : ℕ) → n < 2 ^ 31 → Total k → Total (advance n >> k)
  Total-advance_by n h t = record {
    run = λ p r.
        let o = advanced-Onward n h r in Ends-Onward o (t.run (advanced p n) (Onward-IsReady r o));
  }

  pub Total-advance : {k : M A} → Total k → Total (advance 1 >> k)
  Total-advance t = Total-advance_by 1 (omega arith) t

  pub Total-advance_2 : {k : M A} → Total k → Total (advance 2 >> k)
  Total-advance_2 t = Total-advance_by 2 (omega arith) t

  pub Total-advance_3 : {k : M A} → Total k → Total (advance 3 >> k)
  Total-advance_3 t = Total-advance_by 3 (omega arith) t

  pub Total-advance_4 : {k : M A} → Total k → Total (advance 4 >> k)
  Total-advance_4 t = Total-advance_by 4 (omega arith) t

  pub Total-if : (b : Bool) {m k : M A} → Total m → Total k → Total (if b then m else k)
  Total-if true t s = t
  Total-if false t s = s

  pub Passes-if : (b : Bool) {m k : M A} → Passes m → Passes k → Passes (if b then m else k)
  Passes-if true t s = t
  Passes-if false t s = s

  pub Passes-error : (e : ErrType) → is_error e ≡ true → Passes (record_error {A = A} e)
  Passes-error e h = record { pass = λ p r n. Ends-record e (is_error-≢ h) r }

  pub Passes-advance : {k : M A} → Total k → Passes (advance 1 >> k)
  Passes-advance t = record {
    pass = λ p r n.
        let move = advanced-Moves 1 r (omega (arith, current-lt r n)) in
        Ends-Onward move.onward (
          Ends-weaken (t.run (advanced p 1) (Onward-IsReady r move.onward))
            (λ _ q o _. omega (arith, move.at, o.later)));
  }

module _ {ℓ κ} {A : Type ℓ} {B : Type κ} where
  pub Total-bind : {m : M A} {f : A → M B} → Total m → ((a : A) → Total (f a)) → Total (m >>= f)
  Total-bind {f} t s = record {
    run = λ p r. Ends-continue f (t.run p r) (λ a q o _. (s a).run q (Onward-IsReady r o));
  }

  pub Total-get : {g : Parser → A} {f : A → M B} → ((a : A) → Total (f a)) → Total (get g >>= f)
  Total-get {g} s = record { run = λ p r. (s (g p)).run p r }

  pub Passes-bind : {m : M A} {f : A → M B} → Passes m → ((a : A) → Total (f a)) → Passes (m >>= f)
  Passes-bind {f} t s = record {
    pass = λ p r n. Ends-continue f (t.pass p r n) (λ a q o h.
        Ends-weaken ((s a).run q (Onward-IsReady r o)) (λ _ q' o' _. omega (arith, o'.later)));
  }

  pub Passes-get : {g : Parser → A} {f : A → M B} → ((a : A) → Passes (f a)) → Passes (get g >>= f)
  Passes-get {g} s = record { pass = λ p r n. (s (g p)).pass p r n }

pub Total-skip_whitespace : Total skip_whitespace
Total-skip_whitespace = record { run = λ p r. Ends-weaken (skip_whitespace-Ends r) (λ _ _ _ _. tt) }

pub ruleset totality = (
  Total-return, Total-error, Total-advance, Total-advance_2, Total-advance_3, Total-advance_4,
  Total-if, Total-bind, Total-get, Total-skip_whitespace, Passes-if, Passes-error, Passes-advance,
  Passes-bind, Passes-get,
)
