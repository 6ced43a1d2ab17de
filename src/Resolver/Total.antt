-- ===== src/Resolver/Total.antt =====
-- `resolve` of src/resolver.rs on references that parse.
use mathlib.Core.Path.{subst}
use fluent_uri_rs.Base.{
  ℕ, Bool, true, false, not, ◌&&◌, Option, none, some, [], ◌∷◌, ◌++◌, if◌then◌else◌, is_some, Bytes,
  length, Bool-cases, ==_iff, ◌≡◌, refl, sym, ap, ◌∙◌, ◌⊎◌, inl, inr, arith,
}
use fluent_uri_rs.Base.Run.{Run, done, ◌>>=◌}
use fluent_uri_rs.Error.{ok, ResolveErrorKind, non_absolute_base, non_hierarchical_base}
use fluent_uri_rs.Resolver.{Resolved, is_rootless, target, recompose, is_same_document, resolve}
use fluent_uri_rs.Resolver.Recompose.{dotted, recompose_lem}
use fluent_uri_rs.Spec.{
  AuthParts, Parts, OnSome, write, write_query, write_fragment, scheme_len, map_some, meta_of,
  IsScheme, IsAuth, IsAbEmpty, PathFits, IsWellFormed,
}
use fluent_uri_rs.Table.{allows}
use fluent_uri_rs.Table.Consts
use fluent_uri_rs.Table.Relate.{allows-ne_byte}
use fluent_uri_rs.Table.Validate.{Valid, byte, octet}
use fluent_uri_rs.Uri.{Uri, to_uri, path, fragment_start, is_absolute_uri}
use fluent_uri_rs.Uri.Components.{to_uri-write, path-write}
use fluent_uri_rs.Uri.Parts.{uri_of}
use fluent_uri_rs.Uri.Sound.{to_uri_sound}
use fluent_uri_rs.Resolver.Hits.{Hits, Hits-authority, Hits-relative, Hierarchical, Hits-scheme}

-- The branches of the method.
abbrev solved : Uri → Uri → Run (Resolved Uri)
solved base r = target base r >>= λ t. done (Resolved.ok (recompose t))

module _ (base r : Uri) where
  resolve_not_absolute :
      is_absolute_uri base ≡ false → resolve base r ≡ done (Resolved.err non_absolute_base)
  unfolding resolve
  resolve_not_absolute h = rw (resolve, h) refl

  module _ (h : is_absolute_uri base ≡ true) where
    resolve_authority : is_some base.meta.auth_meta ≡ true → resolve base r ≡ solved base r
    unfolding resolve
    resolve_authority a = rw (resolve, h, a) refl

    resolve_path :
        {p : Bytes} {c : Bool}
        → is_some base.meta.auth_meta ≡ false
        → path base ≡ done p
        → (is_rootless p && not (is_some r.meta.scheme_end) && not (is_same_document r.val)) ≡ c
        → resolve base r ≡ (if c then done (Resolved.err non_hierarchical_base) else solved base r)
    unfolding resolve
    resolve_path a e c = rw (resolve, h, a, e, c) refl

-- What `resolve` does: it fails, or it returns what parses to itself.
abbrev Resolves : Run (Resolved Uri) → Type 0
Resolves r =
    ((k : ResolveErrorKind) × (r ≡ done (Resolved.err k)))
    ⊎ ((u : Uri) × (r ≡ done (Resolved.ok u)) × (to_uri u.val ≡ ok u))

Resolves-by : {a b : Run (Resolved Uri)} → a ≡ b → Resolves b → Resolves a
Resolves-by e (inl (k, f)) = inl (k, e ∙ f)
Resolves-by e (inr (u, f, g)) = inr (u, e ∙ f, g)

Hits-Resolves : (base r : Uri) → Hits (target base r) → Resolves (solved base r)
Hits-Resolves base r (x, s, n, p, e, v) =
    let out : Parts = record p { scheme = some (x ∷ s); path = dotted p.auth p.path } in
    inr (
      uri_of out,
      ap (λ r. r >>= λ t. done (Resolved.ok (recompose t))) e
          ∙ ap (λ u. done (Resolved.ok u)) (recompose_lem x s n p),
      to_uri-write out v,
    )

-- A path begins no fragment.
path_no_document :
    (x : ℕ) (p l : Bytes) → Valid Consts.path (x ∷ p) → is_same_document ((x ∷ p) ++ l) ≡ false
unfolding is_same_document allows Consts.path
path_no_document x p l (byte n a v) = allows-ne_byte Consts.path x b'#' a refl
path_no_document x p l (octet e h k v) = refl

absolute_parts :
    (s : Option Bytes) (c : Bool)
    → (is_some (map_some length s) && not c) ≡ true
    → is_some (map_some length s) ≡ true
absolute_parts none c h = h
absolute_parts (some s) c h = refl

module _ (b q : Parts) (vb : IsWellFormed b) (vq : IsWellFormed q) where
  -- With the scheme and the authority of the reference, and the path where it is resolved.
  by_parts :
      (o : Option Bytes) (a : Option AuthParts) {x : ℕ} {s : Bytes}
      → b.scheme ≡ some (x ∷ s)
      → q.scheme ≡ o
      → q.auth ≡ a
      → (o ≡ none → a ≡ none → Hierarchical b q.path)
      → Resolves (solved (uri_of b) (uri_of q))
  by_parts (some t) a eb eq ea h =
      Hits-Resolves (uri_of b) (uri_of q) (Hits-scheme b q vb vq (some t) eq refl)
  by_parts none (some a) {x} {s} eb eq ea h =
      Hits-Resolves (uri_of b) (uri_of q) (Hits-authority b q vb vq x s eb eq a ea)
  by_parts none none {x} {s} eb eq ea h =
      Hits-Resolves (uri_of b) (uri_of q) (Hits-relative b q vb vq x s eb eq ea (h refl refl))

  abempty_base : (a : Option AuthParts) → b.auth ≡ a → is_some a ≡ true → IsAbEmpty b.path
  abempty_base none e h = absurd cc
  abempty_base (some a) e h = subst (λ o. PathFits b.scheme o b.path) e vb.path_fits

  any_path : (p : Bytes) → IsAbEmpty b.path → Hierarchical b p
  any_path [] h = tt
  any_path (x ∷ p) h = h

  rooted_base : (p : Bytes) → is_rootless p ≡ false → IsAbEmpty p
  rooted_base [] h = tt
  rooted_base (x ∷ p) h = (==_iff x b'/').0 (ground (arith, h))

  -- Where the base is no hierarchy, the reference has no path of its own.
  same_document :
      (p l : Bytes)
      → Valid Consts.path p
      → write q ≡ p ++ l
      → is_same_document (write q) ≡ true
      → Hierarchical b p
  same_document [] l v e h = tt
  same_document (x ∷ p) l v e h =
      absurd (let c : true ≡ false = sym h ∙ ap is_same_document e ∙ path_no_document x p l v in cc)

  hierarchical :
      (is_rootless b.path
          && not (is_some (map_some length q.scheme))
          && not (is_same_document (write q)))
        ≡ false
      → q.scheme ≡ none
      → q.auth ≡ none
      → Hierarchical b q.path
  hierarchical c es ea = elim (Bool-cases (is_rootless b.path)) [
    | inr r ↦ any_path q.path (rooted_base b.path r)
    | inl r ↦
        same_document q.path (write_query q.query (write_fragment q.fragment)) vq.path_valid
          (text es ea) (ground (arith, c, r, ap (λ o. is_some (map_some length o)) es))
  ]
    where
      text :
          q.scheme ≡ none
          → q.auth ≡ none
          → write q ≡ q.path ++ write_query q.query (write_fragment q.fragment)
      text es ea = rw (es, ea) refl

  from_scheme :
      (s : Option Bytes)
      → b.scheme ≡ s
      → is_some (map_some length s) ≡ true
      → is_absolute_uri (uri_of b) ≡ true
      → Resolves (resolve (uri_of b) (uri_of q))
  unfolding meta_of
  from_scheme none e h abs = absurd cc
  from_scheme (some []) e h abs = absurd (subst (OnSome IsScheme) e vb.scheme_valid)
  from_scheme (some (x ∷ s)) e h abs = elim (Bool-cases (is_some (uri_of b).meta.auth_meta)) [
    | inl a ↦ Resolves-by (resolve_authority (uri_of b) (uri_of q) abs a) (
        by_parts q.scheme q.auth e refl refl
          (λ es ea. any_path q.path (abempty_base b.auth refl (with_auth b.auth a))))
    | inr a ↦
        elim (Bool-cases (
          is_rootless b.path
          && not (is_some (map_some length q.scheme))
          && not (is_same_document (write q)))) [
            | inl c ↦
                inl
                  (non_hierarchical_base, resolve_path (uri_of b) (uri_of q) abs a (path-write b) c)
            | inr c ↦
                Resolves-by (resolve_path (uri_of b) (uri_of q) abs a (path-write b) c)
                  (by_parts q.scheme q.auth e refl refl (λ es ea. hierarchical c es ea))
          ]
  ]
    where
      with_auth :
          (o : Option AuthParts)
          → is_some (map_some (fluent_uri_rs.Spec.auth_meta_of (scheme_len b.scheme)) o) ≡ true
          → is_some o ≡ true
      with_auth none h = h
      with_auth (some a) h = refl

  parts-Resolves : Resolves (resolve (uri_of b) (uri_of q))
  unfolding is_absolute_uri meta_of
  parts-Resolves = elim (Bool-cases (is_absolute_uri (uri_of b))) [
    | inr n ↦ inl (non_absolute_base, resolve_not_absolute (uri_of b) (uri_of q) n)
    | inl abs ↦ from_scheme b.scheme refl (has_scheme abs) abs
  ]
    where
      has_scheme : is_absolute_uri (uri_of b) ≡ true → is_some (map_some length b.scheme) ≡ true
      has_scheme abs = absolute_parts b.scheme (is_some (fragment_start (uri_of b))) abs

-- On a base and a reference that parse, `resolve` never panics: it fails with an error of its own, or
-- it returns a reference whose text parses, with exactly the offsets that `resolve` computed.
pub resolve_total :
    (s t : Bytes) (base r : Uri)
    → to_uri s ≡ ok base
    → to_uri t ≡ ok r
    → ((k : ResolveErrorKind) × (resolve base r ≡ done (Resolved.err k)))
      ⊎ ((u : Uri) × (resolve base r ≡ done (Resolved.ok u)) × (to_uri u.val ≡ ok u))
resolve_total s t base r h g =
    let (b, vb, eb, fb) = to_uri_sound s base h in
    let (q, vq, eq, fq) = to_uri_sound t r g in
    subst (λ base. Resolves (resolve base r)) (sym fb)
      (subst (λ r. Resolves (resolve (uri_of b) r)) (sym fq) (parts-Resolves b q vb vq))
