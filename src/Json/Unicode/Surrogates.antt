-- ===== src/Json/Unicode/Surrogates.antt =====
-- Surrogate pairs, as `pvt_parse_unicode_escape` combines them and as UTF-16 makes them.
use c_roblib.Base.{ℕ, ◌+◌, ◌-◌, ◌/◌, ◌%◌, ◌≤◌, ◌≡◌, arith, true}
use c_roblib.Json.Unicode.{combine, is_high_surrogate, is_low_surrogate}

-- UTF-16 of a code point above 0xffff (RFC 2781).
abbrev pub high_half : ℕ → ℕ
high_half c = 0xd800 + (c - 0x10000) / 1024

abbrev pub low_half : ℕ → ℕ
low_half c = 0xdc00 + (c - 0x10000) % 1024

-- For every code point from 0x10000 to 0x10ffff, its two UTF-16 halves pass the tests for a high
-- and a low surrogate, and combined they give that code point.
pub combine-halves :
    (c : ℕ)
    → 0x10000 ≤ c
    → c ≤ 0x10ffff
    → (is_high_surrogate (high_half c) ≡ true)
      × (is_low_surrogate (low_half c) ≡ true)
      × (combine (high_half c) (low_half c) ≡ c)
unfolding combine
combine-halves c lo hi = ground arith
