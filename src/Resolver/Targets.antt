-- ===== src/Resolver/Targets.antt =====
-- The components that `resolve` of src/resolver.rs assigns to the target, on parsed references.
use mathlib.Core.Path.{ap₂}
use fluent_uri_rs.Base.{
  ℕ, ◌+◌, Option, none, some, [], ◌∷◌, ◌++◌, append_assoc, if◌then◌else◌, is_some, Bytes, length,
  starts_with, Bool-cases, ◌≡◌, refl, sym, ap, ◌∙◌, inl, inr, arith,
}
use fluent_uri_rs.Base.Run.{done}
use fluent_uri_rs.Net.{AuthMeta}
use fluent_uri_rs.Parser.Host.{port_text}
use fluent_uri_rs.Parser.AuthorityStart.{userinfo_text}
use fluent_uri_rs.Resolver.{Auth, authority, is_absolute, relative_path, target}
use fluent_uri_rs.Resolver.Recompose.{auth_of, dotted}
use fluent_uri_rs.Resolver.Segments.{remove_dot_segments}
use fluent_uri_rs.Resolver.Segments.Step.{IsRooted}
use fluent_uri_rs.Spec.{
  AuthParts, Parts, OnSome, write, write_port, write_userinfo, scheme_len, auth_end, map_some,
  meta_of, IsScheme, IsAuth, IsAbEmpty, PathFits, IsWellFormed,
}
use fluent_uri_rs.Table.{allows}
use fluent_uri_rs.Table.Consts
use fluent_uri_rs.Table.Validate.{Valid, byte}
use fluent_uri_rs.Uri.{Uri, scheme, path, query, fragment, str_slice}
use fluent_uri_rs.Uri.Authority
use fluent_uri_rs.Uri.AuthorityParts.{
  with_auth, to_slashes, rest_of, to_slashes-write, length-to_slashes, start-write,
}
use fluent_uri_rs.Uri.Parts.{
  uri_of, str_slice-at, write_userinfo-text, write_port-text, length-auth_text,
}

-- The text of the authority.
authority_cut :
    (p : Parts) (a : AuthParts)
    → Authority.as_str (uri_of (with_auth p a)) ≡ done (auth_of (scheme_len p.scheme) a).text
unfolding Authority.as_str meta_of
authority_cut p a =
    let n = scheme_len p.scheme in
    let w = userinfo_text a.userinfo ++ (a.host ++ port_text a.port) in
    let end : n + 2 + length w ≡ auth_end n (some a) = omega (arith, length-auth_text n (some a)) in
    let text : write_userinfo a.userinfo (a.host ++ write_port a.port (rest_of p))
        ≡ w ++ rest_of p =
      rw
        (
          write_userinfo-text a.userinfo (a.host ++ write_port a.port (rest_of p)),
          write_port-text a.port (rest_of p),
        )
        (simp append_assoc) in
    ap₂ (λ i j. str_slice (write (with_auth p a)) i j) (start-write p a) (sym end)
    ∙ str_slice-at (to_slashes p) w (rest_of p)
        (to_slashes-write p a ∙ ap (λ l. to_slashes p ++ l) text) (length-to_slashes p)

authority-some :
    (u : Uri) {m : AuthMeta} {s : Bytes} {i : ℕ}
    → u.meta.auth_meta ≡ some m
    → Authority.as_str u ≡ done s
    → Authority.start u ≡ i
    → authority u ≡ done (some (record { text = s; meta = m; start = i }))
unfolding authority
authority-some u e f g = rw (authority, e, f, g) refl

pub authority-uri_of :
    (p : Parts) → authority (uri_of p) ≡ done (map_some (auth_of (scheme_len p.scheme)) p.auth)
authority-uri_of p = cases p.auth
  where
    cases :
        (o : Option AuthParts)
        → authority (uri_of (record p { auth = o }))
          ≡ done (map_some (auth_of (scheme_len p.scheme)) o)
    cases none = unfold authority meta_of in refl
    cases (some a) =
        authority-some (uri_of (with_auth p a)) (unfold meta_of in refl) (authority_cut p a)
          (start-write p a)

-- The three ways to the target.
module _ (base r : Uri) {p : Bytes} {q f : Option Bytes} (ep : path r ≡ done p)
    (eq : query r ≡ done q) (ef : fragment r ≡ done f) where
  pub target_scheme :
      {s t : Bytes} {a : Option Auth}
      → scheme r ≡ done (some s)
      → authority r ≡ done a
      → (if is_absolute p then remove_dot_segments [] p else done p) ≡ done t
      → target base r
        ≡ done (record { t_scheme = s; t_authority = a; t_path = t; t_query = q; t_fragment = f })
  unfolding target
  target_scheme es ea et = rw (target, es, ea, ep, eq, ef, et) refl

  pub target-authority :
      {s t : Bytes} {a : Auth}
      → scheme r ≡ done none
      → authority r ≡ done (some a)
      → scheme base ≡ done (some s)
      → remove_dot_segments [] p ≡ done t
      → target base r
        ≡ done
            (record { t_scheme = s; t_authority = some a; t_path = t; t_query = q; t_fragment = f })
  unfolding target
  target-authority es ea eb et = rw (target, es, ea, ep, eq, ef, eb, et) refl

  pub target_relative :
      {s t bp : Bytes} {a : Option Auth} {bq : Option Bytes}
      → scheme r ≡ done none
      → authority r ≡ done none
      → scheme base ≡ done (some s)
      → path base ≡ done bp
      → query base ≡ done bq
      → authority base ≡ done a
      → relative_path bp p ≡ done t
      → target base r
        ≡ done (record {
          t_scheme = s;
          t_authority = a;
          t_path = t;
          t_query = (elim p [ [] ↦ (if is_some q then q else bq) | _ ∷ _ ↦ q ]);
          t_fragment = f;
        })
  unfolding target
  target_relative es ea eb ebp ebq eba et =
      rw (target, es, ea, ep, eq, ef, eb, ebp, ebq, eba, et) refl

-- A path that may stand behind an authority, if there is one.
abbrev pub AuthFits : Option AuthParts → Bytes → Type 0
AuthFits none p = Unit
AuthFits (some a) p = IsAbEmpty p

pub rooted-AuthFits : (a : Option AuthParts) (out : Bytes) → IsRooted out → AuthFits a out
rooted-AuthFits none out r = tt
rooted-AuthFits (some a) [] (m, e) = tt
rooted-AuthFits (some a) (x ∷ out) (m, e) = cc

dotted-Valid :
    (a : Option AuthParts) {p : Bytes} → Valid Consts.path p → Valid Consts.path (dotted a p)
unfolding allows Consts.path
dotted-Valid (some a) v = v
dotted-Valid none {p} v = elim (Bool-cases (starts_with p (b'/' ∷ b'/' ∷ []))) [
  | inl h ↦ rw h (byte refl refl (byte refl refl v))
  | inr h ↦ rw h v
]

dotted-PathFits :
    (s : Bytes) (a : Option AuthParts) (p : Bytes) → AuthFits a p → PathFits (some s) a (dotted a p)
dotted-PathFits s (some a) p f = f
dotted-PathFits s none p f = elim (Bool-cases (starts_with p (b'/' ∷ b'/' ∷ []))) [
  | inl h ↦ rw h refl
  | inr h ↦ rw h h
]

-- The target's components are well formed.
pub out-IsWellFormed :
    (s : Bytes) (p : Parts)
    → IsScheme s
    → OnSome IsAuth p.auth
    → Valid Consts.path p.path
    → AuthFits p.auth p.path
    → OnSome (Valid Consts.query) p.query
    → OnSome (Valid Consts.fragment) p.fragment
    → IsWellFormed (record p { scheme = some s; path = dotted p.auth p.path })
out-IsWellFormed s p vs va vp fits vq vf = record {
  scheme_valid = vs;
  auth_valid = va;
  path_valid = dotted-Valid p.auth vp;
  path_fits = dotted-PathFits s p.auth p.path fits;
  query_valid = vq;
  fragment_valid = vf;
}
