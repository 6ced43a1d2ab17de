-- ===== src/Resolver.antt =====
-- src/resolver.rs: removal of dot segments, and reference resolution.
pub mod Segments
pub mod Length
pub mod Paths
pub mod Recompose
pub mod Targets
pub mod Total
pub mod Hits
use fluent_uri_rs.Base.{
  ℕ, ◌+◌, ◌-◌, Bool, true, false, not, ◌&&◌, ◌||◌, Option, none, some, [], ◌∷◌, ◌++◌, ◌==◌,
  if◌then◌else◌, is_some, Bytes, starts_with, length, take, drop,
}
use fluent_uri_rs.Base.Run.{Run, done, ◌>>=◌, unwrap}
use fluent_uri_rs.Error.{ResolveErrorKind, non_absolute_base, non_hierarchical_base}
use fluent_uri_rs.Net.{AuthMeta, Meta, non_zero}
use fluent_uri_rs.Resolver.Segments.{
  SegKind, dot, double_dot, normal, classify_segment, rfind, remove_dot_segments,
}
use fluent_uri_rs.Uri.{Uri, scheme, path, query, fragment, is_absolute_uri}
use fluent_uri_rs.Uri.Authority

-- `Result<_, ResolveError>`
pub data Resolved (A : Type 0) : Type 0 where
  ok : A → Resolved A
  err : ResolveErrorKind → Resolved A

-- An authority: its text, its `AuthMeta`, and the offsets of its host.
pub record Auth : Type 0 where
  pub text : Bytes
  pub meta : AuthMeta
  pub start : ℕ

-- `t_scheme`, `t_authority`, `t_path`, `t_query`, `t_fragment`; so too the components of `r`.
pub record Target : Type 0 where
  pub t_scheme : Bytes
  pub t_authority : Option Auth
  pub t_path : Bytes
  pub t_query : Option Bytes
  pub t_fragment : Option Bytes

-- `u.authority()`, with what `resolve` later reads of it.
unfoldable pub authority : Uri → Run (Option Auth)
authority u = elim u.meta.auth_meta [
  | none ↦ done none
  | some m ↦
      (Authority.as_str u >>= λ s.
      done (some (record { text = s; meta = m; start = Authority.start u })))
]

-- `path.is_absolute()` of src/encoding/mod.rs
abbrev pub is_absolute : Bytes → Bool
is_absolute p = starts_with p (b'/' ∷ [])

-- `EStr::<Path>::is_rootless`
abbrev pub is_rootless : Bytes → Bool
is_rootless p = not (starts_with p (b'/' ∷ []))

-- Where the base path is not empty: what the segments of the reference are added to.
merge_base : Bytes → Run Bytes
merge_base base_path = do
  last_slash_i ← unwrap (rfind base_path)
  let last_seg = drop (last_slash_i + 1) base_path
  let stripped = take (last_slash_i + 1) base_path
  remove_dot_segments []
      (elim (classify_segment last_seg) [ double_dot ↦ base_path | _ ↦ stripped ])

-- `t_path` where the reference has a path that is not absolute.
unfoldable pub merge_path : Bytes → Bytes → Run Bytes
unfolding merge_base
merge_path base_path r_path = do
  buf ←
      (let merged = merge_base base_path in
        elim base_path [ [] ↦ done (b'/' ∷ []) | _ ∷ _ ↦ merged ])
  remove_dot_segments buf r_path

-- `t_path` where the reference has neither scheme nor authority.
unfoldable pub relative_path : Bytes → Bytes → Run Bytes
unfolding merge_path
relative_path base_path [] = done base_path
relative_path base_path (x ∷ p) =
    if is_absolute (x ∷ p) then remove_dot_segments [] (x ∷ p) else merge_path base_path (x ∷ p)

-- The assignment of the target's components.
unfoldable pub target : Uri → Uri → Run Target
unfolding relative_path
target base r = do
  r_scheme ← scheme r
  r_authority ← authority r
  r_path ← path r
  r_query ← query r
  r_fragment ← fragment r
  elim r_scheme [
    | some s ↦ (do
      t_path ← (if is_absolute r_path then remove_dot_segments [] r_path else done r_path)
      done (record {
        t_scheme = s;
        t_authority = r_authority;
        t_path = t_path;
        t_query = r_query;
        t_fragment = r_fragment;
      }))
    | none ↦ (do
      base-IsScheme ← scheme base
      t_scheme ← unwrap base-IsScheme
      elim r_authority [
        | some a ↦ (do
          t_path ← remove_dot_segments [] r_path
          done (record {
            t_scheme = t_scheme;
            t_authority = some a;
            t_path = t_path;
            t_query = r_query;
            t_fragment = r_fragment;
          }))
        | none ↦ (do
          base_path ← path base
          base_query ← query base
          base_authority ← authority base
          t_path ← relative_path base_path r_path
          done (record {
            t_scheme = t_scheme;
            t_authority = base_authority;
            t_path = t_path;
            t_query = (elim r_path [
              | [] ↦ (if is_some r_query then r_query else base_query)
              | _ ∷ _ ↦ r_query
            ]);
            t_fragment = r_fragment;
          }))
      ])
  ]

-- `if t_authority.is_none() && t_path.starts_with("//")`
unfoldable pub needs_dot : Target → Bool
needs_dot t = not (is_some t.t_authority) && starts_with t.t_path (b'/' ∷ b'/' ∷ [])

-- `len`, the output length computed in advance.
unfoldable pub output_len : Target → ℕ
unfolding needs_dot
output_len t =
    let l0 = length t.t_scheme + 1 in
    let l1 : ℕ = elim t.t_authority [ none ↦ l0 | some a ↦ l0 + (length a.text + 2) ] in
    let l2 = if needs_dot t then l1 + 2 else l1 in
    let l3 = l2 + length t.t_path in
    let l4 : ℕ = elim t.t_query [ none ↦ l3 | some q ↦ l3 + (length q + 1) ] in
    elim t.t_fragment [ none ↦ l4 | some f ↦ l4 + (length f + 1) ]

-- `if let Some(authority) = t_authority`, on the buffer.
push_authority : Bytes → Option Auth → Bytes × Option AuthMeta
push_authority buf none = (buf, none)
push_authority buf (some a) =
    let m = a.meta in
    let buf1 = buf ++ (b'/' ∷ b'/' ∷ []) in
    let bounds : ℕ × ℕ =
      (length buf1 + (m.host_bounds.0 - a.start), length buf1 + (m.host_bounds.1 - a.start)) in
    (buf1 ++ a.text, some (record m { host_bounds = bounds }))

push_query : Bytes → Option Bytes → Bytes × Option ℕ
push_query buf none = (buf, none)
push_query buf (some q) = let buf1 = (buf ++ (b'?' ∷ [])) ++ q in (buf1, non_zero (length buf1))

push_fragment : Bytes → Option Bytes → Bytes
push_fragment buf none = buf
push_fragment buf (some f) = (buf ++ (b'#' ∷ [])) ++ f

-- From `let mut buf = String::with_capacity(len)` on.
unfoldable pub recompose : Target → Uri
unfolding needs_dot push_authority push_query push_fragment
recompose t =
    let scheme_end = non_zero (length t.t_scheme) in
    let (buf1, auth_meta) = push_authority (t.t_scheme ++ (b':' ∷ [])) t.t_authority in
    let buf2 = if needs_dot t then buf1 ++ (b'/' ∷ b'.' ∷ []) else buf1 in
    let buf3 = buf2 ++ t.t_path in
    let (buf4, query_end) = push_query buf3 t.t_query in
    record {
      val = push_fragment buf4 t.t_fragment;
      meta = record {
        scheme_end = scheme_end;
        auth_meta = auth_meta;
        path_bounds = (length buf1, length buf3);
        query_end = query_end;
      };
    }

-- `matches!(r.as_str().bytes().next(), None | Some(b'#'))`
is_same_document : Bytes → Bool
is_same_document [] = true
is_same_document (x ∷ s) = x == b'#'

unfoldable pub resolve : Uri → Uri → Run (Resolved Uri)
unfolding target recompose is_same_document
resolve base r =
    let solved = target base r >>= λ t. done (ok (recompose t)) in
    let rooted = (do
      base_path ← path base
      if is_rootless base_path && not (is_some r.meta.scheme_end) && not (is_same_document r.val)
          then done (err non_hierarchical_base)
          else solved) in
    if not (is_absolute_uri base)
    then done (err non_absolute_base)
    else if is_some base.meta.auth_meta
    then solved
    else rooted
