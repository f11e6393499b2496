-- ===== src/Json.antt =====
-- The JSON parser, src/json_parser/json_parser.c, over its string source.
pub mod Error
pub mod Parser
pub mod Scan
pub mod Utf8
pub mod Unicode
pub mod Tree
pub mod Text
pub mod Number
pub mod Value
pub mod Lookup
pub mod Document
