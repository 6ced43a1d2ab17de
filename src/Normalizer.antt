-- ===== src/Normalizer.antt =====
-- src/normalizer.rs.
pub mod Write
pub mod Octets
pub mod Rewrites
pub mod Pieces
pub mod Total
pub mod Parses
pub mod Fronts
use fluent_uri_rs.Base.{
  ℕ, ◌+◌, ◌-◌, Bool, true, false, not, ◌&&◌, Option, none, some, List, [], ◌∷◌, ◌++◌, map, ltb,
  ◌==◌, if◌then◌else◌, is_some, Bytes, ascii, starts_with, length, drop, to_ascii_lowercase,
  to_ascii_uppercase,
}
use fluent_uri_rs.Base.Run.{Run, done, panic, ◌>>=◌, unwrap}
use fluent_uri_rs.Encoding.{decode_octet}
use fluent_uri_rs.Net.{HostMeta, ipv4, ipv6, ipv_future, reg_name, AuthMeta, Meta, non_zero}
use fluent_uri_rs.Normalizer.Write.{write_v6}
use fluent_uri_rs.Reader.V4.{parse_v4_or_reg_name}
use fluent_uri_rs.Resolver.Segments.{remove_dot_segments}
use fluent_uri_rs.Table.{allows}
use fluent_uri_rs.Table.Consts
use fluent_uri_rs.Uri.{Uri, scheme, path, query, fragment}
use fluent_uri_rs.Uri.Authority

-- `if to_lowercase { x = x.to_ascii_lowercase() }`
abbrev pub lower_if : Bool → ℕ → ℕ
lower_if to_lowercase x = if to_lowercase then to_ascii_lowercase x else x

-- What `normalize_estr` appends for an octet.
unfoldable pub normalize_octet : Bool → ℕ → ℕ → Bytes
normalize_octet low hi lo =
    let octet = decode_octet hi lo in
    if allows Consts.unreserved octet
    then lower_if low octet ∷ []
    else b'%' ∷ to_ascii_uppercase hi ∷ to_ascii_uppercase lo ∷ []

-- `normalize_estr` on `s[i..]`. An octet that is cut short is an index out of range.
unfoldable pub normalize_estr : Bytes → Bytes → Bool → Run Bytes
unfolding normalize_octet
normalize_estr buf [] low = done buf
normalize_estr buf (x ∷ []) low = if x == b'%' then panic else done (buf ++ (lower_if low x ∷ []))
normalize_estr buf (x ∷ y ∷ []) low =
    let rest = normalize_estr (buf ++ (lower_if low x ∷ [])) (y ∷ []) low in
    if x == b'%' then panic else rest
normalize_estr buf (x ∷ hi ∷ lo ∷ s) low =
    let octet = normalize_estr (buf ++ normalize_octet low hi lo) s low in
    let plain = normalize_estr (buf ++ (lower_if low x ∷ [])) (hi ∷ lo ∷ s) low in
    if x == b'%' then octet else plain

-- `path_buf`
unfoldable pub normalize_path : Uri → Bytes → Run Bytes
unfolding normalize_estr
normalize_path u path_text =
    if is_some u.meta.scheme_end && starts_with path_text (b'/' ∷ [])
    then (normalize_estr [] path_text false >>= λ buf. remove_dot_segments [] buf)
    else normalize_estr [] path_text false

-- `if let Some(scheme)`: the buffer and `scheme_end`.
pub push_scheme : Option Bytes → Bytes × Option ℕ
push_scheme none = ([], none)
push_scheme (some s) =
    let buf = map to_ascii_lowercase s in (buf ++ (b':' ∷ []), non_zero (length buf))

pub push_userinfo : Bytes → Option Bytes → Run Bytes
unfolding normalize_estr
push_userinfo buf none = done buf
push_userinfo buf (some info) = normalize_estr buf info false >>= λ b. done (b ++ (b'@' ∷ []))

-- The arm `HostMeta::RegName`.
push_reg_name : Bytes → Bytes → Run (Bytes × HostMeta)
unfolding normalize_estr
push_reg_name buf host = do
  buf1 ← normalize_estr buf host true
  let start = length buf
  done (
    buf1,
    if ltb (length buf1) (start + length host)
        then parse_v4_or_reg_name (drop start buf1)
        else reg_name,
  )

-- The `match auth_meta.host_meta`.
unfoldable pub push_host : Bytes → Bytes → HostMeta → Run (Bytes × HostMeta)
unfolding push_reg_name
push_host buf host (ipv4 addr) = done (buf ++ host, ipv4 addr)
push_host buf host (ipv6 segs) = done ((buf ++ (b'[' ∷ write_v6 segs)) ++ (b']' ∷ []), ipv6 segs)
push_host buf host ipv_future = done (buf ++ map to_ascii_lowercase host, ipv_future)
push_host buf host reg_name = push_reg_name buf host

pub push_port : Bytes → Option Bytes → Bytes
push_port buf none = buf
push_port buf (some []) = buf
push_port buf (some (x ∷ p)) = (buf ++ (b':' ∷ [])) ++ (x ∷ p)

-- `if let Some(auth)`: the buffer and `auth_meta`.
unfoldable pub push_authority : Bytes → Uri → Run (Bytes × Option AuthMeta)
unfolding push_host push_userinfo push_port
push_authority buf u = elim u.meta.auth_meta [
  | none ↦ done (buf, none)
  | some m ↦ (do
    info ← Authority.userinfo u
    buf1 ← push_userinfo (buf ++ (b'/' ∷ b'/' ∷ [])) info
    host ← Authority.host u
    (buf2, host_meta) ← push_host buf1 host m.host_meta
    port ← Authority.port u
    done (
      push_port buf2 port,
      some (record { host_bounds = (length buf1, length buf2); host_meta = host_meta }),
    ))
]

pub push_query : Bytes → Option Bytes → Run (Bytes × Option ℕ)
unfolding normalize_estr
push_query buf none = done (buf, none)
push_query buf (some q) =
    normalize_estr (buf ++ (b'?' ∷ [])) q false >>= λ b. done (b, non_zero (length b))

pub push_fragment : Bytes → Option Bytes → Run Bytes
unfolding normalize_estr
push_fragment buf none = done buf
push_fragment buf (some f) = normalize_estr (buf ++ (b'#' ∷ [])) f false

unfoldable pub normalize : Uri → Run Uri
unfolding normalize_path push_scheme push_authority push_query push_fragment
normalize u = do
  path_text ← path u
  path_buf ← normalize_path u path_text
  s ← scheme u
  let (buf1, scheme_end) = push_scheme s
  (buf2, auth_meta) ← push_authority buf1 u
  let dotted =
      is_some u.meta.scheme_end
      && not (is_some u.meta.auth_meta)
      && starts_with path_buf (b'/' ∷ b'/' ∷ [])
  let buf3 = (if dotted then buf2 ++ (b'/' ∷ b'.' ∷ []) else buf2) ++ path_buf
  q ← query u
  (buf4, query_end) ← push_query buf3 q
  f ← fragment u
  buf5 ← push_fragment buf4 f
  done (record {
    val = buf5;
    meta = record {
      scheme_end = scheme_end;
      auth_meta = auth_meta;
      path_bounds = (length buf2, length buf3);
      query_end = query_end;
    };
  })
