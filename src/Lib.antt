-- ===== src/Lib.antt =====
-- Verification of roblib, a library of C data structures and a JSON parser.
--
-- The parts and how they interact. The JSON parser (src/json_parser/json_parser.c) reads a text
-- through an `Input`, an interface of functions with a string source behind it; it keeps the last
-- 40 bytes read in a character ring buffer (src/string/char_ring_buffer.c) for its error records,
-- collects strings in a string builder (src/string/string_builder.c), and builds a tree of values
-- in an arena (include/roblib/json_parser.h has the types). The hash map (src/map/hashmap.c) stands
-- beside it, with buckets of linked nodes that it rehashes as it grows, and so do the bit set
-- (src/set/bitset.c), the array list (src/list/array_list.c) and the vector (src/vector/vector.c).
-- Keys of JSON objects are string slices (src/string/string_slice.c). The arenas and pools of
-- src/memory/allocator.c give the parser's values and the string builder their memory, and the
-- functions of src/string/string_utils.c and src/string/string_utils_utf8.c work on C strings.
--
-- Which file models what.
-- - Ring: `CharRingBuffer` and its operations. A ring is a record of the struct's fields; an
--   operation that changes `*crb` returns the new ring. Ring/Inv has the invariant and the list of
--   stored bytes, Ring/Refine, Ring/Strict and Ring/Print the operations over that list.
-- - Json/Error, Json/Parser: the error types and record; `JsonContext`, `Input` and the string
--   source as one record; a parse function as a function from that record to an outcome and the
--   next record.
-- - Json/Scan: `string_current_char` to `string_sprint_n_lookahead_chars`, `pvt_advance`,
--   `pvt_skip_whitespace`, `pvt_record_error`. Json/Scan/Moves, Ends and Total say how the scanner
--   moves and how a parse function ends.
-- - Json/Utf8: `pvt_decode_utf8`, `pvt_encode_utf8`, `pvt_validate_utf8`; RoundTrip
--   is about decoding and encoding, the other children about the sequences that are accepted.
-- - Json/Unicode: `pvt_parse_hex_impl`, `pvt_parse_unicode_escape`, `pvt_parse_backlash_escapes`.
-- - Json/Text, Json/Number: `pvt_parse_string`, `pvt_parse_number`.
-- - Json/Value: `pvt_parse_value`, `pvt_parse_array`, `pvt_parse_object`, `pvt_parse_one_entry`,
--   literals, and the limit on the nesting. Json/Tree has the values.
-- - Json/Lookup: `jsonp_entry_for_key`.
-- - Json/Document: the byte order marks, `pvt_jsonp_parse_impl`, `jsonp_parse_string`,
--   `jsonp_parse_string_using_context` and `jsonp_parse_string_ex`.
-- - Collections: `ColValue`, its equality and `col_next_power_of_two` (src/collections.c).
-- - HashMap: `HashMap` and its operations (src/map/hashmap.c), HashMap/Keys the keys with their hash
--   and equality. HashMap/Inv has the invariant, HashMap/Placed the place of every node,
--   HashMap/Growth and Moved the rehash, HashMap/Buckets, Updates and Rewritten one bucket, and
--   HashMap/Create, Insert, Put, Remove and Stuck the operations.
-- - BitSet: src/set/bitset.c with the inline functions of include/roblib/bitset.h; BitSet/Flags and
--   Masks the operations over the digits of Base/Digits.
-- - Slice: `StringSlice` (src/string/string_slice.c) with its comparisons and parts; Slice/Search has
--   `slice_index_of` and `slice_rindex_of`, Slice/Chop `slice_chop_by_delimiter`, Slice/Split
--   `slice_split`, Slice/Trim the trims; Slice/Equal and Slice/Suffix are about comparing.
-- - ArrayList: `List` and its operations (src/list/array_list.c), over the list of its values in
--   ArrayList/Insert and ArrayList/Remove.
-- - Vector: `VectorInt` and its operations (src/vector/vector.c), in Vector/Insert and Vector/Remove.
--   Both grow by the loop in Base/Doubling and move elements by those in Base/Shift.
-- - Allocator: the arena and the pool (src/memory/allocator.c). Allocator/Align has `alok_align_up` and
--   the blocks of the operating system, Allocator/Round the powers of two of
--   src/platform_specific.c, as each compiler has them, and src/collections.c with Collections/Power,
--   Allocator/Serve and Placed `pvt_alok_arena_alloc_impl`. Allocator/Pool has `AlokPool` with the bytes of its block; its children have the bytes of a link, the places of
--   the slots, the states, what a client does to them, and creation.
-- - StringBuilder: the builder (src/string/string_builder.c); StringBuilder/Text has its text and its
--   capacity, Append, Insert, Replace and Copy the operations, Grow its growth in an arena of
--   Allocator.
-- - StringUtils: the functions on C strings (src/string/string_utils.c); StringUtils/Search is about
--   `sutil_index`, StringUtils/Strip and Stripped have the strips, StringUtils/Affix prefixes, comparisons and pads,
--   StringUtils/Utf8 the functions of src/string/string_utils_utf8.c.
-- - Base: tests, lists, bits and integers that these share. Tests: runs on concrete inputs.
--
-- Numbers. A byte is a number below 256. `uint32_t` and `size_t` sums and differences are written
-- with their wrap-around where they can reach it. A double of the JSON parser stands for the text
-- that is given to `strtod`, a double of the hash map is its 64-bit pattern. The string builder's
-- product with `CAPACITY_FACTOR` is the whole part of 4 n / 3.
--
-- Fuel. Loops and the recursion of the parser run on fuel, one unit for a round or a call. White
-- space, digits and strings have the length of the text and one more, since each round passes a
-- byte. `pvt_parse_value` has twice the length and two more: a nested value costs two units, its
-- own call and its array or object, and passes a bracket. `jsonp_parse_string_ex` takes its size apart
-- from the memory, and the scanner may read the byte behind it: the fuel is enough where that byte is
-- a NUL. The loop of `map_ensure_capacity` has its rounds as an argument: one is enough for a valid map,
-- and no number is where the map is stuck.
--
-- Not modelled. The texts of error messages; the parser's use of an arena, from which every
-- allocation succeeds; the contents of an arena, its scratch and temporary arenas; the
-- file, stream and URL sources; the global state, which is an argument of the entry points; the
-- ownership of the keys and values of a map; the printing functions; src/memory/memory_pool.c,
-- src/set/set.c, src/set/bitset_dynamic.c, src/map/string_counter.c, the arrays of src/array and
-- src/carray, and the JSON pretty printer.
pub mod Allocator
pub mod ArrayList
pub mod Base
pub mod BitSet
pub mod Collections
pub mod HashMap
pub mod Json
pub mod Ring
pub mod Slice
pub mod StringBuilder
pub mod StringUtils
pub mod Vector
mod Tests
