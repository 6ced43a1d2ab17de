-- ===== src/Resolver/Hits.antt =====
-- The target that `resolve` of src/resolver.rs computes for references that parse.
use mathlib.Core.Path.{subst}
use fluent_uri_rs.Base.{
  ℕ, true, Option, none, some, [], ◌∷◌, ◌==◌, if◌then◌else◌, is_some, Bytes, Bool-cases, ==_iff,
  ◌≡◌, refl, ap, ◌∙◌, inl, inr,
}
use fluent_uri_rs.Base.Run.{Run, done}
use fluent_uri_rs.Resolver.{Target, is_absolute, relative_path, target}
use fluent_uri_rs.Resolver.Paths.{absolute-GivesPath, relative_path-GivesPath}
use fluent_uri_rs.Resolver.Recompose.{auth_of, dotted, target_of}
use fluent_uri_rs.Resolver.Segments.{remove_dot_segments, push_segments, split_inclusive}
use fluent_uri_rs.Resolver.Targets.{
  authority-uri_of, target_scheme, target-authority, target_relative, AuthFits, rooted-AuthFits,
  out-IsWellFormed,
}
use fluent_uri_rs.Spec.{
  AuthParts, Parts, OnSome, scheme_len, map_some, IsScheme, IsAuth, IsAbEmpty, PathFits,
  IsWellFormed,
}
use fluent_uri_rs.Table.Consts
use fluent_uri_rs.Table.Validate.{Valid}
use fluent_uri_rs.Uri.Components.{scheme-write, path-write, query-write, fragment-write}
use fluent_uri_rs.Uri.Parts.{uri_of}

-- The target is put together to a well-formed reference.
abbrev pub Hits : Run Target → Type 0
Hits r =
    (x : ℕ) × (s : Bytes) × (n : ℕ) × (p : Parts) × (r ≡ done (target_of (x ∷ s) n p))
    × IsWellFormed (record p { scheme = some (x ∷ s); path = dotted p.auth p.path })

path_or :
    (p : Bytes) (a : Option AuthParts)
    → Valid Consts.path p
    → AuthFits a p
    → (t : Bytes) × ((if is_absolute p then remove_dot_segments [] p else done p) ≡ done t)
      × Valid Consts.path t
      × AuthFits a t
path_or [] a v f = ([], refl, v, f)
path_or (x ∷ p) a v f = elim (Bool-cases (x == b'/')) [
  | inr s ↦ (x ∷ p, rw s refl, v, f)
  | inl s ↦
      let e = (==_iff x b'/').0 s in
      let (out, g, r, w) = absolute-GivesPath p (subst (λ x. Valid Consts.path (x ∷ p)) e v) in
      (out, rw s (ap (λ x. remove_dot_segments [] (x ∷ p)) e ∙ g), w, rooted-AuthFits a out r)
]

abempty_path :
    (p : Bytes) (a : AuthParts)
    → Valid Consts.path p
    → IsAbEmpty p
    → (t : Bytes) × (remove_dot_segments [] p ≡ done t) × Valid Consts.path t × AuthFits (some a) t
abempty_path [] a v f =
    ([], unfold remove_dot_segments push_segments split_inclusive in refl, v, tt)
abempty_path (x ∷ p) a v f =
    let (out, g, r, w) = absolute-GivesPath p (subst (λ x. Valid Consts.path (x ∷ p)) f v) in
    (out, ap (λ x. remove_dot_segments [] (x ∷ p)) f ∙ g, w, rooted-AuthFits (some a) out r)

fits-AuthFits :
    (s : Option Bytes) (a : Option AuthParts) (p : Bytes) → PathFits s a p → AuthFits a p
fits-AuthFits s none p f = tt
fits-AuthFits s (some a) p f = f

-- The base path, where the reference has a path to resolve.
abbrev pub Hierarchical : Parts → Bytes → Type 0
Hierarchical b [] = Unit
Hierarchical b (x ∷ p) = IsAbEmpty b.path

relative_or :
    (b : Parts) (p : Bytes)
    → IsWellFormed b
    → Hierarchical b p
    → Valid Consts.path p
    → (t : Bytes) × (relative_path b.path p ≡ done t) × Valid Consts.path t × AuthFits b.auth t
relative_or b [] w h v = (
  b.path,
  unfold relative_path in refl,
  w.path_valid,
  fits-AuthFits b.scheme b.auth b.path w.path_fits,
)
relative_or b (x ∷ p) w h v =
    let (out, g, r, u) = relative_path-GivesPath b.path x p h w.path_valid v in
    (out, g, u, rooted-AuthFits b.auth out r)

merged_query : Bytes → Option Bytes → Option Bytes → Option Bytes
merged_query p q bq = elim p [ [] ↦ (if is_some q then q else bq) | _ ∷ _ ↦ q ]

merged_query-Valid :
    (p : Bytes) (q bq : Option Bytes)
    → OnSome (Valid Consts.query) q
    → OnSome (Valid Consts.query) bq
    → OnSome (Valid Consts.query) (merged_query p q bq)
unfolding merged_query
merged_query-Valid [] none bq v w = w
merged_query-Valid [] (some q) bq v w = v
merged_query-Valid (x ∷ p) q bq v w = v

module _ (b q : Parts) (vb : IsWellFormed b) (vq : IsWellFormed q) where
  pub Hits-scheme :
      (s : Option Bytes) → q.scheme ≡ s → is_some s ≡ true → Hits (target (uri_of b) (uri_of q))
  Hits-scheme none e h = absurd cc
  Hits-scheme (some []) e h = absurd (subst (OnSome IsScheme) e vq.scheme_valid)
  Hits-scheme (some (x ∷ s)) e h =
      let (t, g, v, f) =
        path_or q.path q.auth vq.path_valid (fits-AuthFits q.scheme q.auth q.path vq.path_fits) in
      (
        x,
        s,
        scheme_len q.scheme,
        record q { path = t },
        target_scheme (uri_of b) (uri_of q) (path-write q) (query-write q) (fragment-write q)
            (scheme-write q ∙ ap done e) (authority-uri_of q) g,
        out-IsWellFormed (x ∷ s) (record q { path = t }) (subst (OnSome IsScheme) e vq.scheme_valid)
            vq.auth_valid v f vq.query_valid vq.fragment_valid,
      )

  module _ (x : ℕ) (s : Bytes) (eb : b.scheme ≡ some (x ∷ s)) (eq : q.scheme ≡ none) where
    base-IsScheme : IsScheme (x ∷ s)
    base-IsScheme = subst (OnSome IsScheme) eb vb.scheme_valid

    pub Hits-authority : (a : AuthParts) → q.auth ≡ some a → Hits (target (uri_of b) (uri_of q))
    Hits-authority a ea =
        let fits = subst (λ o. PathFits q.scheme o q.path) ea vq.path_fits in
        let (t, g, v, f) =
          abempty_path q.path a vq.path_valid (fits-AuthFits q.scheme (some a) q.path fits) in
        let out : Parts = record q { auth = some a; path = t } in
        (
          x,
          s,
          scheme_len q.scheme,
          out,
          target-authority (uri_of b) (uri_of q) (path-write q) (query-write q) (fragment-write q)
              (scheme-write q ∙ ap done eq)
              (authority-uri_of q ∙ ap (λ o. done (map_some (auth_of (scheme_len q.scheme)) o)) ea)
              (scheme-write b ∙ ap done eb) g,
          out-IsWellFormed (x ∷ s) out base-IsScheme (subst (OnSome IsAuth) ea vq.auth_valid) v f
              vq.query_valid vq.fragment_valid,
        )

    pub Hits-relative : q.auth ≡ none → Hierarchical b q.path → Hits (target (uri_of b) (uri_of q))
    unfolding merged_query
    Hits-relative ea h =
        let (t, g, v, f) = relative_or b q.path vb h vq.path_valid in
        let out : Parts = record b {
          path = t;
          query = merged_query q.path q.query b.query;
          fragment = q.fragment;
        } in
        (
          x,
          s,
          scheme_len b.scheme,
          out,
          target_relative (uri_of b) (uri_of q) (path-write q) (query-write q) (fragment-write q)
              (scheme-write q ∙ ap done eq)
              (authority-uri_of q ∙ ap (λ o. done (map_some (auth_of (scheme_len q.scheme)) o)) ea)
              (scheme-write b ∙ ap done eb) (path-write b) (query-write b) (authority-uri_of b) g,
          out-IsWellFormed (x ∷ s) out base-IsScheme vb.auth_valid v f
              (merged_query-Valid q.path q.query b.query vq.query_valid vb.query_valid)
              vq.fragment_valid,
        )
