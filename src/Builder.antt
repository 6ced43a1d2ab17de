-- ===== src/Builder.antt =====
-- `BuilderInner` of src/builder/mod.rs: the pushes onto the buffer, and the final validation.
pub mod State
pub mod Fits
use fluent_uri_rs.Base.{
  ℕ, Bool, true, false, not, ◌&&◌, ◌||◌, Option, none, some, [], ◌∷◌, ◌++◌, ◌==◌, if◌then◌else◌,
  is_some, Bytes, starts_with, length,
}
use fluent_uri_rs.Base.Run.{Run, done, panic, ◌>>=◌, unwrap}
use fluent_uri_rs.Error.{
  BuildErrorKind, non_abempty_path, path_starting_with_double_slash, colon_in_first_path_segment,
}
use fluent_uri_rs.Net.{HostMeta, ipv4, ipv6, AuthMeta, Meta, default_auth, default_meta, non_zero}
use fluent_uri_rs.Normalizer.Write.{write_v4, write_v6, write_decimal}
use fluent_uri_rs.Reader.V4.{parse_v4_or_reg_name}
use fluent_uri_rs.Uri.{Uri, str_slice}
use fluent_uri_rs.Uri.Authority.{Host, host_ipv4, host_ipv6, host_ipv_future, host_reg_name}

pub record BuilderInner : Type 0 where
  pub buf : Bytes
  pub meta : Meta

-- The inner builder of `Builder::new`.
abbrev pub new_inner : BuilderInner
new_inner = record { buf = []; meta = default_meta }

unfoldable pub push_scheme : BuilderInner → Bytes → BuilderInner
push_scheme b v =
    let buf = b.buf ++ v in
    record { buf = buf ++ (b':' ∷ []); meta = record b.meta { scheme_end = non_zero (length buf) } }

unfoldable pub start_authority : BuilderInner → BuilderInner
start_authority b = record {
  buf = b.buf ++ (b'/' ∷ b'/' ∷ []);
  meta = record b.meta { auth_meta = some default_auth };
}

unfoldable pub push_userinfo : BuilderInner → Bytes → BuilderInner
push_userinfo b v = record b { buf = (b.buf ++ v) ++ (b'@' ∷ []) }

-- The `match host`: the text pushed and the `host_meta`. `IpvFuture` is unreachable.
host_text : Host → Run (Bytes × HostMeta)
host_text (host_ipv4 addr) = done (write_v4 addr, ipv4 addr)
host_text (host_ipv6 addr) = done ((b'[' ∷ write_v6 addr) ++ (b']' ∷ []), ipv6 addr)
host_text (host_reg_name name) = done (name, parse_v4_or_reg_name name)
host_text host_ipv_future = panic

unfoldable pub push_host : BuilderInner → Host → Run BuilderInner
unfolding host_text
push_host b h = do
  auth_meta ← unwrap b.meta.auth_meta
  (text, host_meta) ← host_text h
  let buf = b.buf ++ text
  done (record {
    buf = buf;
    meta = record b.meta {
      auth_meta = some (record { host_bounds = (length b.buf, length buf); host_meta = host_meta });
    };
  })

-- `AsPort`: a `u16`, or a string of digits.
pub data AsPort : Type 0 where
  port_u16 : ℕ → AsPort
  port_estr : Bytes → AsPort

unfoldable pub push_port : BuilderInner → AsPort → BuilderInner
push_port b (port_u16 n) = record b { buf = b.buf ++ (b':' ∷ write_decimal n) }
push_port b (port_estr s) = record b { buf = (b.buf ++ (b':' ∷ [])) ++ s }

unfoldable pub push_path : BuilderInner → Bytes → BuilderInner
push_path b v =
    let buf = b.buf ++ v in
    record { buf = buf; meta = record b.meta { path_bounds = (length b.buf, length buf) } }

unfoldable pub push_query : BuilderInner → Bytes → BuilderInner
push_query b v =
    let buf = (b.buf ++ (b'?' ∷ [])) ++ v in
    record { buf = buf; meta = record b.meta { query_end = non_zero (length buf) } }

unfoldable pub push_fragment : BuilderInner → Bytes → BuilderInner
push_fragment b v = record b { buf = (b.buf ++ (b'#' ∷ [])) ++ v }

-- `path.split_once('/').map_or(path, |x| x.0).contains(':')`
unfoldable pub first_segment_contains_colon : Bytes → Bool
first_segment_contains_colon [] = false
first_segment_contains_colon (x ∷ p) =
    let rest = first_segment_contains_colon p in
    if x == b'/' then false else if x == b':' then true else rest

-- The checks of `validate` on the path: `none` is `Ok(())`.
unfoldable pub validate_path : Bool → Bool → Bytes → Option BuildErrorKind
unfolding first_segment_contains_colon
validate_path has_auth has_scheme path =
    if has_auth
    then (if not (length path == 0) && not (starts_with path (b'/' ∷ []))
        then some non_abempty_path
        else none)
    else if starts_with path (b'/' ∷ b'/' ∷ [])
    then some path_starting_with_double_slash
    else if not has_scheme && first_segment_contains_colon path
    then some colon_in_first_path_segment
    else none

unfoldable pub validate : BuilderInner → Run (Option BuildErrorKind)
unfolding validate_path str_slice
validate b = do
  path ← str_slice b.buf b.meta.path_bounds.0 b.meta.path_bounds.1
  done (validate_path (is_some b.meta.auth_meta) (is_some b.meta.scheme_end) path)

-- `Result<Uri<String>, BuildError>`
pub data Built : Type 0 where
  ok : Uri → Built
  err : BuildErrorKind → Built

unfoldable pub build_inner : BuilderInner → Run Built
unfolding validate
build_inner b = do
  e ← validate b
  elim e [ none ↦ done (ok (record { val = b.buf; meta = b.meta })) | some k ↦ done (err k) ]
