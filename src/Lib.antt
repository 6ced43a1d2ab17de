-- ===== src/Lib.antt =====
-- fluent-uri: a library that parses, takes apart, builds, resolves and normalizes URI references as
-- of RFC 3986.
--
-- The text of a reference is parsed once (src/parser.rs) into offsets (`Meta`, src/internal.rs); the
-- accessors of `Uri` and `Authority` (src/lib.rs, src/component.rs) cut the text at these offsets.
-- The builder, the resolver and the normalizer write a new text and compute its offsets themselves.
-- All of them test bytes by the tables of src/encoding/table.rs.
--
-- A `str`, a `String` and a `&[u8]` are lists of bytes (`Bytes`), a byte and a `usize` are native
-- numbers. Offsets are bounded by the length of the input and are not reduced. Unwraps, assertions and
-- the indices and slices of the methods that return a `Run` (Base/Run.antt) or a `Result` (Error.antt)
-- give the value `panic` where the code panics. Four kinds of panic have no such value: the slice
-- `self.bytes[self.pos..]` of `read_str` and the `debug_assert!` of `skip`, where the position is
-- behind the end of the input; the slice of the host in the third branch of the authority, where its
-- bounds are inverted; the subtractions of `push_authority` of src/resolver.rs, where the bounds of a
-- host begin before its authority; and a slice of a `str` inside a character. There the model takes
-- what a slice that stops at the end, or a subtraction that stops at 0, gives.
--
--   Base, Base/*          shared names, Boolean tests, lists and ASCII
--   Table, Table/*        src/encoding/table.rs: `Table`, the predefined tables (Consts), `validate`
--   Encoding              src/encoding/imp.rs: `decode_octet`, `decode`
--   EStr, EStr/*          src/encoding/mod.rs and src/encoding/estring.rs: `EStr`, `EString`
--   Error                 src/error.rs
--   Component, Component/* src/component.rs: `Scheme`
--   Net                   src/internal.rs: `Meta`, `AuthMeta`, `HostMeta`, with the feature `net`
--   Reader, Reader/*      src/parser.rs: `Reader` (V4, V6 and Host hold the hosts)
--   Parser, Parser/*      src/parser.rs: `Parser` and `parse`
--   Grammar               the texts of IPv4 and IPv6 addresses of RFC 3986
--   Spec                  the components of a reference and its text; a host of it refers to the
--                         classes that `parse_v4_or_reg_name` and `read_v6` give (see below)
--   Uri, Uri/*            src/lib.rs: `Uri`; src/component.rs: `Authority`
--   Resolver, Resolver/*  src/resolver.rs
--   Normalizer, Normalizer/* src/normalizer.rs: `normalize`; Octets holds the normal form of a text
--   Fmt                   src/fmt.rs: `Display`
--   Builder, Builder/*    src/builder/mod.rs and src/builder/state.rs
--   Tests/*               runs on concrete inputs, and the theorems at concrete inputs
--
-- A method `f(&mut self)` of the reader or parser is a function from the state before to the state
-- behind. A `while` loop over an index is a recursion on the bytes from that index on. The loop of
-- `read_v6` alone has fuel, ten rounds: every round but one raises the number of segments read,
-- which is below eight before a round.
--
-- In Spec, a host is a registered name with the class that `parse_v4_or_reg_name` gives to its text,
-- an address of a future version, or an IPv6 address of which that `read_v6` takes it up to a closing
-- bracket is asked. The grammar of addresses stands apart, in Grammar.
--
-- Not modelled: `Debug` (src/fmt.rs), `to_socket_addrs`, `into_string_lossy`, and the builds without
-- the feature `net`.
pub mod Base
pub mod Table
pub mod Error
pub mod Encoding
pub mod EStr
pub mod Component
pub mod Net
pub mod Grammar
pub mod Reader
pub mod Spec
pub mod Parser
pub mod Uri
pub mod Resolver
pub mod Normalizer
pub mod Fmt
pub mod Builder
pub mod Tests
