-- ===== src/Parser.antt =====
-- `Parser` of src/parser.rs: the methods that read a whole URI reference.
pub mod Finish
pub mod Path
pub mod Host
pub mod Authority
pub mod WholeAuthority
pub mod AuthorityStart
pub mod Behind
pub mod Branches
pub mod Write
pub mod Total
use fluent_uri_rs.Base.{
  ℕ, zero, suc, ◌+◌, Bool, false, not, Option, none, some, [], ◌∷◌, ltb, ◌==◌, if◌then◌else◌, Bytes,
  get_elem?, slice, is_ascii_alphabetic, is_ascii_digit,
}
use fluent_uri_rs.Error.{Result, ok, err, panic, ◌>>=◌, unexpected_char}
use fluent_uri_rs.Net.{reg_name, AuthMeta, Meta, default_meta, non_zero}
use fluent_uri_rs.Reader.{Reader, new, has_remaining, peek, skip, read_enc, read, read_str}
use fluent_uri_rs.Reader.V4.{parse_v4_or_reg_name, read_port}
use fluent_uri_rs.Reader.Host.{read_host, read_ip_literal}
use fluent_uri_rs.Table.Consts

pub record Parser : Type 0 where
  pub reader : Reader
  pub out : Meta

pub data PathKind : Type 0 where
  general ab_empty continued_no_scheme : PathKind

-- `Reader::get`: out of range it panics.
unfoldable pub get : Reader → ℕ → Result ℕ
get r i = elim (get_elem? r.bytes i) [ none ↦ panic | some x ↦ ok x ]

-- `self.peek(0) == Some(c)`
unfoldable pub peek_is : Reader → ℕ → Bool
unfolding peek
peek_is r c = elim (peek r 0) [ none ↦ false | some x ↦ x == c ]

-- `self.read(PATH)? && self.get(start) != b'/'`, and the error.
ab_empty_check : Reader → Bool × Reader → Result Reader
unfolding get
ab_empty_check r (any, r1) =
    if any
    then (get r1 r.pos >>= λ x. if not (x == b'/') then err r.pos unexpected_char else ok r1)
    else ok r1

-- After `self.read(SEGMENT_NZ_NC)?`: the check for a colon, and the rest of the path.
pub no_scheme_rest : Bool × Reader → Result Reader
unfolding peek_is
no_scheme_rest (_, r1) =
    if peek_is r1 b':'
    then err r1.pos unexpected_char
    else (read Consts.path r1 >>= λ (_, r2). ok r2)

-- The `match kind`: `path_bounds`, and the reader behind the path.
unfoldable pub read_path : PathKind → Reader → Result ((ℕ × ℕ) × Reader)
unfolding ab_empty_check no_scheme_rest
read_path general r = read Consts.path r >>= λ (_, r1). ok ((r.pos, r1.pos), r1)
read_path ab_empty r = (read Consts.path r >>= ab_empty_check r) >>= λ r1. ok ((r.pos, r1.pos), r1)
read_path continued_no_scheme r =
    (read Consts.segment_nz_nc r >>= no_scheme_rest) >>= λ r2. ok ((0, r2.pos), r2)

-- `if self.read_str("?")`: `query_end`, and the reader behind the query.
unfoldable pub read_query : Reader → Result (Option ℕ × Reader)
read_query r =
    let (mark, r1) = read_str (b'?' ∷ []) r in
    if mark then (read Consts.query r1 >>= λ (_, r2). ok (non_zero r2.pos, r2)) else ok (none, r1)

-- `if self.read_str("#")`
unfoldable pub read_fragment : Reader → Result Reader
read_fragment r =
    let (mark, r1) = read_str (b'#' ∷ []) r in
    if mark then (read Consts.fragment r1 >>= λ (_, r2). ok r2) else ok r1

unfoldable pub parse_from_path : PathKind → Parser → Result Parser
unfolding read_path read_query read_fragment has_remaining
parse_from_path kind p = do
  (bounds, r1) ← read_path kind p.reader
  (query_end, r2) ← read_query r1
  r3 ← read_fragment r2
  if has_remaining r3
      then err r3.pos unexpected_char
      else ok (record {
        reader = r3;
        out = record p.out { path_bounds = bounds; query_end = query_end };
      })

-- The closure of `read_enc` in `parse_from_authority`: (`colon_cnt`, `colon_i`).
unfoldable pub note_colon : ℕ → ℕ → ℕ × ℕ → ℕ × ℕ
note_colon i x (cnt, colon_i) = if x == b':' then (cnt + 1, i) else (cnt, colon_i)

-- `for i in colon_i + 1..self.pos`, on the bytes of that range.
unfoldable pub check_port : Bytes → ℕ → Result (Unit {0})
check_port [] i = ok tt
check_port (x ∷ s) i =
    let rest = check_port s (i + 1) in
    if not (is_ascii_digit x) then err i unexpected_char else rest

-- `match colon_cnt`: `host_end`.
unfoldable pub find_host_end : Reader → ℕ × ℕ → Result ℕ
unfolding check_port
find_host_end r (zero, colon_i) = ok r.pos
find_host_end r (suc zero, colon_i) = do
  _ ← check_port (slice (colon_i + 1) r.pos r.bytes) (colon_i + 1)
  ok colon_i
find_host_end r (suc (suc n), colon_i) = err colon_i unexpected_char

-- The first branch: the reader stands at `@`.
pub read_after_userinfo : Reader → Result (AuthMeta × Reader)
read_after_userinfo r = do
  let r1 = skip 1 r
  (meta, r2) ← read_host r1
  ok (record { host_bounds = (r1.pos, r2.pos); host_meta = meta }, read_port r2)

-- The second branch: an IP literal, or an empty authority.
pub read_literal_or_empty : Reader → Result (AuthMeta × Reader)
read_literal_or_empty r = do
  (literal, r1) ← read_ip_literal r
  elim literal [
    | some meta ↦ ok (record { host_bounds = (r.pos, r1.pos); host_meta = meta }, read_port r1)
    | none ↦ ok (record { host_bounds = (r1.pos, r1.pos); host_meta = reg_name }, r1)
  ]

-- The third branch: the whole authority is read, from `start` on.
pub split_authority : ℕ → ℕ × ℕ → Reader → Result (AuthMeta × Reader)
unfolding find_host_end
split_authority start colons r = do
  host_end ← find_host_end r colons
  let meta = parse_v4_or_reg_name (slice start host_end r.bytes)
  ok (record { host_bounds = (start, host_end); host_meta = meta }, r)

unfoldable pub read_authority : Reader → Result (AuthMeta × Reader)
unfolding note_colon peek_is read_after_userinfo read_literal_or_empty split_authority
read_authority r = do
  (colons, r1) ← read_enc Consts.userinfo note_colon (0, 0) r
  if peek_is r1 b'@'
      then read_after_userinfo r1
      else if r1.pos == r.pos
      then read_literal_or_empty r1
      else split_authority r.pos colons r1

unfoldable pub parse_from_authority : Parser → Result Parser
unfolding read_authority parse_from_path
parse_from_authority p = do
  (auth, r) ← read_authority p.reader
  parse_from_path ab_empty (record { reader = r; out = record p.out { auth_meta = some auth } })

-- After the colon of the scheme, which `r` stands at.
pub after_scheme : Parser → Result Parser
after_scheme p =
    let (slashes, r1) = read_str (b'/' ∷ b'/' ∷ []) (skip 1 p.reader) in
    if slashes
    then parse_from_authority (record p { reader = r1 })
    else parse_from_path general (record p { reader = r1 })

-- Where no colon follows the scheme characters read.
pub no_scheme : Parser → Result Parser
no_scheme p =
    let (slashes, r1) = read_str (b'/' ∷ b'/' ∷ []) p.reader in
    if p.reader.pos == 0
    then (if slashes
        then parse_from_authority (record p { reader = r1 })
        else parse_from_path continued_no_scheme (record p { reader = r1 }))
    else parse_from_path continued_no_scheme p

-- `self.pos > 0 && self.get(0).is_ascii_alphabetic()`
pub scheme_starts : Reader → Result Bool
unfolding get
scheme_starts r = if ltb 0 r.pos then (get r 0 >>= λ x. ok (is_ascii_alphabetic x)) else ok false

unfoldable pub parse_from_scheme : Parser → Result Parser
unfolding parse_from_authority parse_from_path after_scheme no_scheme scheme_starts peek_is
parse_from_scheme p = do
  (_, r) ← read Consts.scheme p.reader
  if peek_is r b':'
      then (do
        starts ← scheme_starts r
        if starts
            then after_scheme
                (record { reader = r; out = record p.out { scheme_end = non_zero r.pos } })
            else err 0 unexpected_char)
      else no_scheme (record p { reader = r })

unfoldable pub parse : Bytes → Result Meta
unfolding parse_from_scheme
parse bytes = do p ← parse_from_scheme (record { reader = new bytes; out = default_meta }); ok p.out
