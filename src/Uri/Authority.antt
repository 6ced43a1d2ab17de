-- ===== src/Uri/Authority.antt =====
-- `Authority` of src/component.rs: a `Uri` whose `auth_meta` is present.
use fluent_uri_rs.Base.{
  ℕ, zero, suc, ◌+◌, ◌-◌, ◌*◌, not, Option, none, some, List, [], ◌∷◌, leb, ◌==◌, if◌then◌else◌,
  is_some, Bytes, is_ascii_digit,
}
use fluent_uri_rs.Base.Run.{Run, done, panic, ◌>>=◌, unwrap}
use fluent_uri_rs.Net.{AuthMeta, ipv4, ipv6, ipv_future, reg_name}
use fluent_uri_rs.Uri.{Uri, uri_slice, str_slice}

-- `Authority::meta`
abbrev pub auth_meta : Uri → Run AuthMeta
auth_meta u = unwrap u.meta.auth_meta

unfoldable pub start : Uri → ℕ
start u = elim u.meta.scheme_end [ none ↦ 2 | some i ↦ i + 3 ]

abbrev pub end_of : Uri → ℕ
end_of u = u.meta.path_bounds.0

unfoldable pub as_str : Uri → Run Bytes
unfolding str_slice start
as_str u = uri_slice u (start u) (end_of u)

-- `host_start - 1`, which is computed only where it differs from `start`.
unfoldable pub before : ℕ → Run ℕ
before zero = panic
before (suc n) = done n

unfoldable pub userinfo : Uri → Run (Option Bytes)
unfolding str_slice start before
userinfo u = do
  m ← auth_meta u
  let host_start = m.host_bounds.0
  let info = (before host_start >>= λ e. uri_slice u (start u) e) >>= λ s. done (some s)
  if not (start u == host_start) then info else done none

-- `Uri::authority`
unfoldable pub authority : Uri → Option Uri
authority u = if is_some u.meta.auth_meta then some u else none

-- `Authority::host_bounds`
unfoldable pub host_bounds : Uri → Run (ℕ × ℕ)
host_bounds u = do m ← auth_meta u; done m.host_bounds

unfoldable pub host : Uri → Run Bytes
unfolding str_slice
host u = do m ← auth_meta u; uri_slice u m.host_bounds.0 m.host_bounds.1

-- `Host<'a>`
pub data Host : Type 0 where
  host_ipv4 : ℕ → Host
  host_ipv6 : List ℕ → Host
  host_ipv_future : Host
  host_reg_name : Bytes → Host

-- `IpAddr`, and the conversions into a `Host`.
pub data IpAddr : Type 0 where
  v4 : ℕ → IpAddr
  v6 : List ℕ → IpAddr

unfoldable pub from_v4 : ℕ → Host
from_v4 addr = host_ipv4 addr

unfoldable pub from_v6 : List ℕ → Host
from_v6 addr = host_ipv6 addr

unfoldable pub from_ip : IpAddr → Host
from_ip (v4 addr) = host_ipv4 addr
from_ip (v6 addr) = host_ipv6 addr

unfoldable pub from_estr : Bytes → Host
from_estr value = host_reg_name value

unfoldable pub from_estring : Bytes → Host
from_estring value = host_reg_name value

unfoldable pub host_parsed : Uri → Run Host
unfolding host
host_parsed u = do
  m ← auth_meta u
  elim m.host_meta [
    | ipv4 addr ↦ done (host_ipv4 addr)
    | ipv6 addr ↦ done (host_ipv6 addr)
    | ipv_future ↦ done host_ipv_future
    | reg_name ↦ (host u >>= λ name. done (host_reg_name name))
  ]

unfoldable pub port : Uri → Run (Option Bytes)
unfolding str_slice
port u = do
  m ← auth_meta u
  let host_end = m.host_bounds.1
  let digits = uri_slice u (host_end + 1) (end_of u) >>= λ s. done (some s)
  if not (host_end == end_of u) then digits else done none

-- `str::parse::<u16>` on a nonempty string of digits, from the value of the digits before it:
-- `none` is the `ParseIntError`.
unfoldable pub parse_u16 : ℕ → Bytes → Option ℕ
parse_u16 n [] = some n
parse_u16 n (x ∷ s) =
    let n' = n * 10 + (x - b'0') in
    let rest = parse_u16 n' s in
    if not (is_ascii_digit x) then none else if leb n' 65535 then rest else none

-- `none` is `Err`, and `some none` is `Ok(None)`.
unfoldable pub to_u16 : Option Bytes → Option (Option ℕ)
to_u16 none = some none
to_u16 (some []) = some none
to_u16 (some (x ∷ s)) = elim (parse_u16 0 (x ∷ s)) [ none ↦ none | some n ↦ some (some n) ]

unfoldable pub port_to_u16 : Uri → Run (Option (Option ℕ))
unfolding port parse_u16 to_u16
port_to_u16 u = port u >>= λ p. done (to_u16 p)
