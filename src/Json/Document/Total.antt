-- ===== src/Json/Document/Total.antt =====
-- How the parse of a document ends.
use c_roblib.Base.{
  ℕ, ◌-◌, ◌^◌, ◌<◌, ◌≡◌, ◌≢◌, refl, ap, ◌∙◌, arith, false, ◌==◌, Bool-cases, inl, inr, ltb, List,
  [], ◌∷◌, length, get_or, get_or_beyond, ◌≤◌, Option, none, some,
}
use c_roblib.Json.Error.{ErrType, ParseError, is_error}
use c_roblib.Json.Parser.{Parser, M, Outcome, ok, null}
use c_roblib.Json.Scan.{current_char, until_nul}
use c_roblib.Json.Scan.Moves.{IsReady, Onward, Onward-refl, Onward-IsReady}
use c_roblib.Json.Scan.Ends.{
  Ends, done, failed, Ends-record, Ends-Onward, Ends-if, Ends-continue, skip_whitespace-Ends,
}
use c_roblib.Json.Scan.Total.{Total, totality, is_error-≢, not_error}
use c_roblib.Json.Tree.{JsonValue}
use c_roblib.Json.Value.Total.{parse_value-Ends}
use c_roblib.Json.Document.{
  check_bom, finish_document, clear_error, document_fuel, at_end, parse_document, Config,
  in_whitespace, start, Parsed, answer, text_is_null_or_empty, parse_checked, parse_string_document,
  expect_end, parse_string_ex,
}

check_bom-Total : Total check_bom
unfolding check_bom
check_bom-Total = search totality depth 12

-- A document's value comes without an error.
finish_document-Ends :
    {p : Parser} (value : JsonValue)
    → IsReady p
    → Ends p (λ _ q. q.error.err_type ≡ ErrType.none) (finish_document value p)
unfolding finish_document
finish_document-Ends {p} value r = elim (Bool-cases (is_error p.error.err_type)) [
  | inl e ↦ rw e (failed (Onward-refl r) (is_error-≢ e))
  | inr e ↦ rw e (
      Ends-continue _ (skip_whitespace-Ends r) λ _ q o s.
        let ready = Onward-IsReady r o in
        Ends-if (at_end (current_char q)) _ _
          (done (Onward-refl ready) (ap (λ x. x.err_type) s.error ∙ not_error _ e))
          (Ends-record ErrType.unexpected_text (is_error-≢ refl) ready))
]

parse_document-Ends :
    (p : Parser) → IsReady p → Ends p (λ _ q. q.error.err_type ≡ ErrType.none) (parse_document p)
unfolding parse_document
parse_document-Ends p r = Ends-continue _ (check_bom-Total.run p r) λ _ q o _.
    let ready = Onward-IsReady r o in
    Ends-continue _ (skip_whitespace-Ends ready) λ _ q' o' _.
      let ready' = Onward-IsReady ready o' in
      Ends-if (at_end (current_char q')) _ _
        (Ends-record ErrType.empty_text (is_error-≢ refl) ready')
        (let cleared : Onward q' (clear_error q') = ground arith in
          let again = Onward-IsReady ready' cleared in
          Ends-Onward cleared (
            Ends-continue _
              (parse_value-Ends (document_fuel q') (clear_error q') again (omega arith))
              λ v s f _. finish_document-Ends v (Onward-IsReady again f)))

-- The terminator is no white space, whatever the white-space characters of a context are.
in_whitespace-until_nul : (ws : List ℕ) → in_whitespace (until_nul ws) 0 ≡ false
unfolding in_whitespace until_nul
in_whitespace-until_nul [] = refl
in_whitespace-until_nul (w ∷ ws) = elim (Bool-cases (w == 0)) [
  | inl e ↦ rw e refl
  | inr e ↦ rw (e, e) (in_whitespace-until_nul ws)
]

pub start_at-IsReady :
    (config : Config) (text : List ℕ) (size : ℕ) (error : ParseError)
    → config.depth_max < 2 ^ 32 - 1
    → size < 2 ^ 31
    → size ≤ length text
    → get_or text size 0 ≡ 0
    → IsReady (start config text size error)
unfolding start
start_at-IsReady config text size error d h long closed = record {
  whole = long;
  closed = closed;
  small = h;
  within = omega arith;
  stops = in_whitespace-until_nul config.whitespace_chars;
  shallow = d;
  depth = omega arith;
}

pub start-IsReady :
    (config : Config) (text : List ℕ) (error : ParseError)
    → config.depth_max < 2 ^ 32 - 1
    → length text < 2 ^ 31
    → IsReady (start config text (length text) error)
start-IsReady config text error d h =
    start_at-IsReady config text (length text) error d h (omega arith)
      (get_or_beyond text (length text) 0 (omega arith))

-- A value and no error, or `nullptr` and an error.
pub data Settled : Parsed → Type 0 where
  found : {v : JsonValue} {e : ParseError} → e.err_type ≡ ErrType.none → Settled (ok v, e)
  refused : {e : ParseError} → e.err_type ≢ ErrType.none → Settled (null, e)

answer-Settled :
    {p : Parser} {out : Outcome JsonValue × Parser}
    → Ends p (λ _ q. q.error.err_type ≡ ErrType.none) out
    → Settled (answer out)
answer-Settled (done _ h) = found h
answer-Settled (failed _ h) = refused h

expect_end-Ends :
    {p : Parser} (size : ℕ) (value : JsonValue)
    → IsReady p
    → p.error.err_type ≡ ErrType.none
    → Ends p (λ _ q. q.error.err_type ≡ ErrType.none) (expect_end size value p)
unfolding expect_end
expect_end-Ends {p} size value r h = elim (Bool-cases (ltb p.current_byte_index size)) [
  | inl e ↦ rw e (Ends-record ErrType.expected_eof (is_error-≢ refl) r)
  | inr e ↦ rw e (done (Onward-refl r) h)
]

-- A text is null, or its first bytes are few enough for `uint32_t` indices, lie in memory and have a
-- terminator behind them.
abbrev pub IsClosed : Option (List ℕ) → (List ℕ → ℕ) → Type 0
IsClosed none size = Unit
IsClosed (some text) size =
    (size text < 2 ^ 31) × (size text ≤ length text) × (get_or text (size text) 0 ≡ 0)

abbrev pub text_size : Option (List ℕ) → ℕ
text_size none = 0
text_size (some text) = length text

text-IsClosed :
    (json_text : Option (List ℕ)) → text_size json_text < 2 ^ 31 → IsClosed json_text length
text-IsClosed none h = tt
text-IsClosed (some text) h = (h, omega arith, get_or_beyond text (length text) 0 (omega arith))

parse_checked-Settled :
    (config : Config) (json_text : Option (List ℕ)) (error : ParseError)
    (run : List ℕ → M JsonValue) (size : List ℕ → ℕ)
    → config.depth_max < 2 ^ 32 - 1
    → IsClosed json_text size
    → ((text : List ℕ) (p : Parser)
        → IsReady p
        → Ends p (λ _ q. q.error.err_type ≡ ErrType.none) (run text p))
    → Settled (parse_checked config json_text error run size)
unfolding parse_checked text_is_null_or_empty
parse_checked-Settled config none error run size d h ends = refused (is_error-≢ refl)
parse_checked-Settled config (some []) error run size d h ends = refused (is_error-≢ refl)
parse_checked-Settled config (some (c ∷ cs)) error run size d (small, long, closed) ends =
    elim (Bool-cases (c == 0)) [
      | inl e ↦ rw (e, parse_checked) (refused (is_error-≢ refl))
      | inr e ↦
          let ready = start_at-IsReady config (c ∷ cs) (size (c ∷ cs)) error d small long closed in
          rw (e, parse_checked) (answer-Settled (ends (c ∷ cs) _ ready))
    ]

-- `jsonp_parse_string` ends on every text shorter than 2^31 bytes, the null text included, at every
-- nesting limit but the greatest `uint32_t`: with a value and no error, or with `nullptr` and an
-- error.
pub parse_string_document-Settled :
    (config : Config) (json_text : Option (List ℕ)) (error : ParseError)
    → config.depth_max < 2 ^ 32 - 1
    → text_size json_text < 2 ^ 31
    → Settled (parse_string_document config json_text error)
unfolding parse_string_document
parse_string_document-Settled config json_text error d h =
    parse_checked-Settled config json_text error _ length d (text-IsClosed json_text h)
      (λ _. parse_document-Ends)

-- `jsonp_parse_string_ex` ends, with a value and no error or with `nullptr` and an error, where the
-- `buffer_size` bytes of the text lie in memory, are fewer than 2^31 and have a terminator behind
-- them, or the text is null, at every nesting limit but the greatest `uint32_t`.
pub parse_string_ex-Settled :
    (config : Config) (json_text : Option (List ℕ)) (error : ParseError) (buffer_size : ℕ)
    → config.depth_max < 2 ^ 32 - 1
    → IsClosed json_text (λ _. buffer_size)
    → Settled (parse_string_ex config json_text error buffer_size)
unfolding parse_string_ex
parse_string_ex-Settled config json_text error buffer_size d h =
    parse_checked-Settled config json_text error _ (λ _. buffer_size) d h
      λ _ p r.
        Ends-continue _ (parse_document-Ends p r)
          λ v q o e. expect_end-Ends buffer_size v (Onward-IsReady r o) e
