-- ===== src/Normalizer/Fronts.antt =====
-- The scheme and the authority that `normalize` of src/normalizer.rs writes.
use mathlib.Core.Path.{ap₂}
use fluent_uri_rs.Base.{
  ◌+◌, Option, none, some, [], ◌∷◌, ◌++◌, map, append-nil, append_assoc, Bytes, length,
  length-append, to_ascii_lowercase, ◌≡◌, refl, sym, ap, ◌∙◌, arith,
}
use fluent_uri_rs.Base.Run.{done}
use fluent_uri_rs.Net.{HostMeta}
use fluent_uri_rs.Normalizer.{push_scheme, push_userinfo, push_host, push_port, push_authority}
use fluent_uri_rs.Normalizer.Pieces.{push_userinfo-Normal, push_host-HostRewrites, push_port_lem}
use fluent_uri_rs.Normalizer.Rewrites.{AuthRewrites, kept_port}
use fluent_uri_rs.Parser.Finish.{non_zero_pos}
use fluent_uri_rs.Parser.Host.{port_text}
use fluent_uri_rs.Parser.AuthorityStart.{userinfo_text}
use fluent_uri_rs.Spec.{
  AuthParts, Parts, host_start, auth_meta_of, map_some, meta_of, OnSome, IsScheme, IsAuth,
}
use fluent_uri_rs.Uri.AuthorityParts.{with_auth, userinfo-write, host-write, port-write}
use fluent_uri_rs.Uri.Parts.{uri_of, scheme_text, auth_text}

abbrev pub lower_scheme : Option Bytes → Option Bytes
lower_scheme = map_some (map to_ascii_lowercase)

pub push_scheme_lem :
    (s : Option Bytes)
    → OnSome IsScheme s
    → push_scheme s ≡ (scheme_text (lower_scheme s), map_some length (lower_scheme s))
unfolding push_scheme
push_scheme_lem none v = refl
push_scheme_lem (some []) v = absurd v
push_scheme_lem (some (x ∷ s)) v =
    ap (λ i. (map to_ascii_lowercase (x ∷ s) ++ (b':' ∷ []), i))
      (non_zero_pos (length (map to_ascii_lowercase (x ∷ s))) (omega arith))

host_begins :
    (buf : Bytes) (b : AuthParts)
    → length ((buf ++ (b'/' ∷ b'/' ∷ [])) ++ userinfo_text b.userinfo) ≡ host_start (length buf) b
host_begins buf b = by b.userinfo
  where
    by :
        (u : Option Bytes)
        → length ((buf ++ (b'/' ∷ b'/' ∷ [])) ++ userinfo_text u)
          ≡ elim u [ none ↦ length buf + 2 | some u ↦ length buf + 2 + length u + 1 ]
    by none =
        ap length (append-nil (buf ++ (b'/' ∷ b'/' ∷ []))) ∙ length-append buf (b'/' ∷ b'/' ∷ [])
    by (some u) =
        rw
          (
            length-append (buf ++ (b'/' ∷ b'/' ∷ [])) (u ++ (b'@' ∷ [])),
            length-append u (b'@' ∷ []),
            length-append buf (b'/' ∷ b'/' ∷ []),
          )
          (omega arith)

push_authority_by :
    (buf : Bytes) (p : Parts) (a : AuthParts) {buf1 buf2 : Bytes} {m : HostMeta}
    → push_userinfo (buf ++ (b'/' ∷ b'/' ∷ [])) a.userinfo ≡ done buf1
    → push_host buf1 a.host a.host_meta ≡ done (buf2, m)
    → push_authority buf (uri_of (with_auth p a))
      ≡ done (
        push_port buf2 a.port,
        some (record { host_bounds = (length buf1, length buf2); host_meta = m }),
      )
unfolding push_authority meta_of
push_authority_by buf p a e f =
    rw (push_authority, userinfo-write p a, e, host-write p a, f, port-write p a) refl

pub push_authority-AuthRewrites :
    (buf : Bytes) (p : Parts) (a : Option AuthParts)
    → OnSome IsAuth a
    → (b : Option AuthParts) × AuthRewrites a b
      × (push_authority buf (uri_of (record p { auth = a }))
          ≡ done (buf ++ auth_text b, map_some (auth_meta_of (length buf)) b))
unfolding push_authority meta_of
push_authority-AuthRewrites buf p none v =
    (none, tt, ap (λ l. done (l, none)) (sym (append-nil buf)))
push_authority-AuthRewrites buf p (some a) v =
    let (u, k, w) = push_userinfo-Normal a.userinfo v.userinfo_valid in
    let slashes = buf ++ (b'/' ∷ b'/' ∷ []) in
    let buf1 = slashes ++ userinfo_text u in
    let (h, m, g, z) = push_host-HostRewrites buf1 a.host a.host_meta v.host_valid in
    let b : AuthParts = record { userinfo = u; host = h; host_meta = m; port = kept_port a.port } in
    let text : push_port (buf1 ++ h) a.port ≡ buf ++ auth_text (some b) =
      push_port_lem (buf1 ++ h) a.port
      ∙ append_assoc buf1 h (port_text b.port)
      ∙ append_assoc slashes (userinfo_text u) (h ++ port_text b.port)
      ∙ append_assoc buf (b'/' ∷ b'/' ∷ []) (userinfo_text u ++ (h ++ port_text b.port)) in
    (
      some b,
      (k, z, refl),
      push_authority_by buf p a (w slashes) g
          ∙ ap₂ (λ l m. done (l, some m)) text
              (ap₂ (λ i j. record { host_bounds = (i, j); host_meta = m }) (host_begins buf b)
                (length-append buf1 h ∙ ap (λ n. n + length h) (host_begins buf b))),
    )
