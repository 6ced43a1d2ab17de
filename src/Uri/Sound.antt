-- ===== src/Uri/Sound.antt =====
-- The accessors of `Uri` and `Authority` (src/lib.rs, src/component.rs) on every text that parses.
use mathlib.Core.Path.{ap₂, subst}
use fluent_uri_rs.Base.{Option, none, some, ◌++◌, Bytes, ◌≡◌, refl, sym, ap, ◌∙◌}
use fluent_uri_rs.Base.Run.{done}
use fluent_uri_rs.Error.{Result, ok, err}
use fluent_uri_rs.Net.{Meta, AuthMeta}
use fluent_uri_rs.Parser.{parse}
use fluent_uri_rs.Parser.Total.{parse_sound}
use fluent_uri_rs.Spec.{Parts, AuthParts, write, IsWellFormed, meta_of, auth_meta_of, scheme_len}
use fluent_uri_rs.Uri.{Uri, to_uri, scheme, path, query, fragment}
use fluent_uri_rs.Uri.Authority.{
  userinfo, host, port, as_str, host_bounds, host_parsed, port_to_u16,
}
use fluent_uri_rs.Uri.AuthorityViews.{
  host_of, port_number, as_str-write, host_bounds-write, host_parsed-write, port_to_u16-write,
}
use fluent_uri_rs.Parser.AuthorityStart.{userinfo_text}
use fluent_uri_rs.Parser.Host.{port_text}
use fluent_uri_rs.Uri.AuthorityParts.{with_auth, userinfo-write, host-write, port-write}
use fluent_uri_rs.Uri.Components.{scheme-write, path-write, query-write, fragment-write}
use fluent_uri_rs.Uri.Parts.{uri_of}

to_uri_cases :
    (s : Bytes) (o : Result Meta) {u : Uri}
    → parse s ≡ o
    → to_uri s ≡ ok u
    → (m : Meta) × (parse s ≡ ok m) × (u ≡ record { val = s; meta = m })
unfolding to_uri
to_uri_cases s (ok m) {u} e h =
    let same : ◌≡◌ {A = Result Uri} (ok u) (ok (record { val = s; meta = m })) =
      sym h ∙ rw (to_uri, e) refl in
    (m, e, cc)
to_uri_cases s (err i k) {u} e h =
    absurd (let c : ◌≡◌ {A = Result Uri} (ok u) (err i k) = sym h ∙ rw (to_uri, e) refl in cc)
to_uri_cases s Result.panic {u} e h =
    absurd (let c : ◌≡◌ {A = Result Uri} (ok u) Result.panic = sym h ∙ rw (to_uri, e) refl in cc)

-- What parses is written from well-formed components, with the offsets that describe them.
pub to_uri_sound :
    (s : Bytes) (u : Uri)
    → to_uri s ≡ ok u
    → (p : Parts) × IsWellFormed p × (s ≡ write p) × (u ≡ uri_of p)
to_uri_sound s u h =
    let (m, e, f) = to_uri_cases s (parse s) refl h in
    let (p, v, _, t, g) = parse_sound s m e in
    (p, v, t, f ∙ ap₂ (λ s m. record { val = s; meta = m }) t g)

-- On whatever parses, no accessor panics, and what they return is well formed and, written one
-- behind the other, is the text that was parsed.
pub accessors_sound :
    (s : Bytes) (u : Uri)
    → to_uri s ≡ ok u
    → (p : Parts) × IsWellFormed p
      × (s ≡ write p)
      × (scheme u ≡ done p.scheme)
      × (path u ≡ done p.path)
      × (query u ≡ done p.query)
      × (fragment u ≡ done p.fragment)
accessors_sound s u h =
    let (p, v, t, e) = to_uri_sound s u h in
    (
      p,
      v,
      t,
      ap scheme e ∙ scheme-write p,
      ap path e ∙ path-write p,
      ap query e ∙ query-write p,
      ap fragment e ∙ fragment-write p,
    )

with_meta :
    (s : Bytes) (m : AuthMeta) (p : Parts) (o : Option AuthParts) {u : Uri}
    → p.auth ≡ o
    → IsWellFormed p
    → s ≡ write p
    → u ≡ uri_of p
    → u.meta.auth_meta ≡ some m
    → (a : AuthParts) × IsWellFormed (with_auth p a)
      × (s ≡ write (with_auth p a))
      × (u ≡ uri_of (with_auth p a))
unfolding meta_of
with_meta s m p none o v t e h =
    absurd (let c : none ≡ some m = sym (ap (λ u. u.meta.auth_meta) e ∙ rw o refl) ∙ h in cc)
with_meta s m p (some a) o v t e h =
    let same : p ≡ with_auth p a = ap (λ o. record p { auth = o }) o in
    (a, subst IsWellFormed same v, t ∙ ap write same, e ∙ ap uri_of same)

-- On whatever parses with an authority, none of these methods of the authority panics: what
-- `userinfo`, `host` and `port` return is the well-formed authority of the text, `as_str` returns the text of these
-- together, `host_bounds` the bounds of the host, `host_parsed` the host by its kind, and
-- `port_to_u16` the number of the port, or an error from 65536 on.
pub authority_sound :
    (s : Bytes) (u : Uri) (m : AuthMeta)
    → to_uri s ≡ ok u
    → u.meta.auth_meta ≡ some m
    → (p : Parts) × (a : AuthParts) × IsWellFormed (with_auth p a)
      × (s ≡ write (with_auth p a))
      × (userinfo u ≡ done a.userinfo)
      × (host u ≡ done a.host)
      × (port u ≡ done a.port)
      × (as_str u ≡ done (userinfo_text a.userinfo ++ (a.host ++ port_text a.port)))
      × (host_bounds u ≡ done (auth_meta_of (scheme_len p.scheme) a).host_bounds)
      × (host_parsed u ≡ done (host_of a.host_meta a.host))
      × (port_to_u16 u ≡ done (port_number a.port))
authority_sound s u m h g =
    let (p, v, t, e) = to_uri_sound s u h in
    let (a, w, k, f) = with_meta s m p p.auth refl v t e g in
    (
      p,
      a,
      w,
      k,
      ap userinfo f ∙ userinfo-write p a,
      ap host f ∙ host-write p a,
      ap port f ∙ port-write p a,
      ap as_str f ∙ as_str-write p a,
      ap host_bounds f ∙ host_bounds-write p a,
      ap host_parsed f ∙ host_parsed-write p a,
      ap port_to_u16 f ∙ port_to_u16-write p a w.auth_valid.port_valid,
    )
