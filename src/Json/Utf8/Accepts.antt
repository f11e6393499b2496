-- ===== src/Json/Utf8/Accepts.antt =====
-- `pvt_validate_utf8` and `pvt_encode_utf8`: how they end, and where.
use c_roblib.Base.{◌≢◌, ◌<◌}
use c_roblib.Json.Parser.{Parser}
use c_roblib.Json.Scan.{current_char}
use c_roblib.Json.Scan.Moves.{IsReady}
use c_roblib.Json.Scan.Ends.{Ends}
use c_roblib.Base.{ℕ, List}
use c_roblib.Json.Scan.Total.{Total, Passes, totality}
use c_roblib.Json.Utf8.{
  continuation, reject_between, two_bytes, three_bytes_from, three_bytes_e0, three_bytes,
  three_bytes_ed, four_bytes_from, four_bytes_f0, four_bytes, four_bytes_f4, one_byte, sequence,
  validate_utf8, validate_continuation_byte, encode_utf8,
}

pub encode_utf8-Total : (codepoint : ℕ) (sb : List ℕ) → Total (encode_utf8 codepoint sb)
unfolding encode_utf8
encode_utf8-Total codepoint sb = search totality

continuation-Total : (low high : ℕ) → Total (continuation low high)
unfolding continuation validate_continuation_byte
continuation-Total low high = search totality

two_bytes-Passes : (lead_byte : ℕ) → Passes (two_bytes lead_byte)
unfolding two_bytes
two_bytes-Passes lead_byte = search (totality, continuation-Total)

three_bytes_from-Total : (lead_byte low high : ℕ) → Total (three_bytes_from lead_byte low high)
unfolding three_bytes_from
three_bytes_from-Total lead_byte low high = search (totality, continuation-Total)

four_bytes_from-Total : (lead_byte low high : ℕ) → Total (four_bytes_from lead_byte low high)
unfolding four_bytes_from
four_bytes_from-Total lead_byte low high = search (totality, continuation-Total) depth 9

three_bytes-Passes : (lead_byte : ℕ) → Passes (three_bytes lead_byte)
unfolding three_bytes
three_bytes-Passes lead_byte = search (totality, three_bytes_from-Total)

three_bytes_e0-Passes : (lead_byte : ℕ) → Passes (three_bytes_e0 lead_byte)
unfolding three_bytes_e0 reject_between
three_bytes_e0-Passes lead_byte = search (totality, three_bytes_from-Total) depth 9

three_bytes_ed-Passes : (lead_byte : ℕ) → Passes (three_bytes_ed lead_byte)
unfolding three_bytes_ed reject_between
three_bytes_ed-Passes lead_byte = search (totality, three_bytes_from-Total) depth 9

four_bytes-Passes : (lead_byte : ℕ) → Passes (four_bytes lead_byte)
unfolding four_bytes
four_bytes-Passes lead_byte = search (totality, four_bytes_from-Total)

four_bytes_f0-Passes : (lead_byte : ℕ) → Passes (four_bytes_f0 lead_byte)
unfolding four_bytes_f0 reject_between
four_bytes_f0-Passes lead_byte = search (totality, four_bytes_from-Total) depth 9

four_bytes_f4-Passes : (lead_byte : ℕ) → Passes (four_bytes_f4 lead_byte)
unfolding four_bytes_f4 reject_between
four_bytes_f4-Passes lead_byte = search (totality, four_bytes_from-Total) depth 9

sequence-Passes : (lead_byte : ℕ) → Passes (sequence lead_byte)
unfolding sequence one_byte
sequence-Passes lead_byte =
    search
      (
        totality, two_bytes-Passes, three_bytes-Passes, three_bytes_e0-Passes,
        three_bytes_ed-Passes, four_bytes-Passes, four_bytes_f0-Passes, four_bytes_f4-Passes,
      )
      depth 15 fits 2000

pub validate_utf8-Passes : (sb : List ℕ) → Passes (validate_utf8 sb)
unfolding validate_utf8
validate_utf8-Passes sb = search (totality, sequence-Passes)

-- At a byte of the text, `pvt_validate_utf8` either moves forward and gives a string builder, or
-- records an error; in both cases it stays inside the text.
pub validate_utf8-Ends :
    (sb : List ℕ) (p : Parser)
    → IsReady p
    → current_char p ≢ 0
    → Ends p (λ _ q. p.current_byte_index < q.current_byte_index) (validate_utf8 sb p)
validate_utf8-Ends sb p r h = (validate_utf8-Passes sb).pass p r h
