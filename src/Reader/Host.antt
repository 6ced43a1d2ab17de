-- ===== src/Reader/Host.antt =====
-- `read_v4_or_reg_name`, `read_ip_literal`, `read_ipv_future` and `read_host` of src/parser.rs.
pub mod Literal
pub mod Future
pub mod Brackets
pub mod Total
use fluent_uri_rs.Base.{
  ℕ, Bool, false, not, ◌||◌, Option, none, some, List, [], ◌∷◌, ◌==◌, if◌then◌else◌,
}
use fluent_uri_rs.Error.{Result, ok, err, ◌>>=◌, unexpected_char, invalid_ipv6_addr}
use fluent_uri_rs.Net.{HostMeta, ipv4, ipv6, ipv_future, reg_name}
use fluent_uri_rs.Reader.{Reader, peek, skip, read, read_str}
use fluent_uri_rs.Reader.V4.{read_v4}
use fluent_uri_rs.Reader.V6.{read_v6}
use fluent_uri_rs.Table.Consts

unfoldable pub v4_or_reg_name : Option ℕ → Bool → HostMeta
v4_or_reg_name (some addr) false = ipv4 addr
v4_or_reg_name _ _ = reg_name

unfoldable pub read_v4_or_reg_name : Reader → Result (HostMeta × Reader)
unfolding v4_or_reg_name
read_v4_or_reg_name r = do
  let (addr, r1) = read_v4 r
  (more, r2) ← read Consts.reg_name r1
  ok (v4_or_reg_name addr more, r2)

pub is_v : Option ℕ → Bool
is_v none = false
is_v (some x) = x == b'v' || x == b'V'

-- `self.read(IPV_FUTURE)?` in the inner condition, and what follows it.
future_addr : Bool × Reader → Result Reader
future_addr (addr, r) = if addr then ok r else err r.pos unexpected_char

-- The three conditions of the inner `if`, in turn.
future_tail : Bool × Reader → Result Reader
unfolding future_addr
future_tail (hex, r1) =
    let (dot, r2) = read_str (b'.' ∷ []) r1 in
    if not hex
    then err r1.pos unexpected_char
    else if not dot
    then err r2.pos unexpected_char
    else (read Consts.ipv_future r2 >>= future_addr)

unfoldable pub read_ipv_future : Reader → Result Reader
unfolding is_v future_tail
read_ipv_future r =
    if is_v (peek r 0)
    then (read Consts.hexdig (skip 1 r) >>= future_tail)
    else err r.pos unexpected_char

-- The `if let` of `read_ip_literal`, after `[`.
pub ip_addr : Reader → Option (List ℕ) × Reader → Result (HostMeta × Reader)
unfolding read_ipv_future
ip_addr r (some addr, r1) = ok (ipv6 addr, r1)
ip_addr r (none, r1) =
    if r1.pos == r.pos
    then (read_ipv_future r1 >>= λ r2. ok (ipv_future, r2))
    else err r.pos invalid_ipv6_addr

unfoldable pub read_ip_literal : Reader → Result (Option HostMeta × Reader)
unfolding ip_addr
read_ip_literal r0 =
    let (bracket, r) = read_str (b'[' ∷ []) r0 in
    if bracket
    then (do
      (meta, r1) ← ip_addr r (read_v6 r)
      let (close, r2) = read_str (b']' ∷ []) r1
      if close then ok (some meta, r2) else err r2.pos unexpected_char)
    else ok (none, r)

unfoldable pub read_host : Reader → Result (HostMeta × Reader)
unfolding read_ip_literal read_v4_or_reg_name
read_host r = do
  (host, r1) ← read_ip_literal r
  elim host [ none ↦ read_v4_or_reg_name r1 | some h ↦ ok (h, r1) ]
