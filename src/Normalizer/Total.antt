-- ===== src/Normalizer/Total.antt =====
-- `normalize` of src/normalizer.rs on every reference that parses.
use fluent_uri_rs.Base.{
  ℕ, ◌+◌, not, ◌&&◌, Option, none, some, [], ◌∷◌, ◌++◌, append_assoc, if◌then◌else◌, is_some, Bytes,
  length, starts_with, length-append, Bool-cases, ◌≡◌, refl, sym, ap, ◌∙◌, inl, inr,
}
use fluent_uri_rs.Base.Run.{done}
use fluent_uri_rs.Net.{AuthMeta}
use fluent_uri_rs.Normalizer.{
  normalize_path, push_scheme, push_authority, push_query, push_fragment, normalize,
}
use fluent_uri_rs.Normalizer.Rewrites.{dotted, Rewrites}
use fluent_uri_rs.Normalizer.Pieces.{
  KeepsFits, normalize_path-PathRewrites, push_query-Normal, push_fragment-Normal,
}
use fluent_uri_rs.Resolver.Recompose.{query_text}
use fluent_uri_rs.Spec.{
  Parts, write, write_query, write_fragment, auth_meta_of, map_some, path_start, meta_of,
  IsWellFormed,
}
use fluent_uri_rs.Table.{allows}
use fluent_uri_rs.Table.Consts
use fluent_uri_rs.Table.Validate.{Valid, byte}
use fluent_uri_rs.Uri.{Uri, scheme, path, query, fragment}
use fluent_uri_rs.Uri.Components.{scheme-write, path-write, query-write, fragment-write}
use fluent_uri_rs.Uri.Parts.{
  uri_of, scheme_text, length-scheme_text, front, front-write, length-front,
}
use fluent_uri_rs.Normalizer.Fronts.{lower_scheme, push_scheme_lem, push_authority-AuthRewrites}

normalize_by :
    (u : Uri) {t n buf2 buf3 buf4 buf5 : Bytes} {s q f : Option Bytes} {b : Bytes × Option ℕ}
    {m : Option AuthMeta} {end : Option ℕ}
    → path u ≡ done t
    → normalize_path u t ≡ done n
    → scheme u ≡ done s
    → push_scheme s ≡ b
    → push_authority b.0 u ≡ done (buf2, m)
    → (if is_some u.meta.scheme_end
            && not (is_some u.meta.auth_meta)
            && starts_with n (b'/' ∷ b'/' ∷ [])
          then buf2 ++ (b'/' ∷ b'.' ∷ [])
          else buf2)
        ++ n
      ≡ buf3
    → query u ≡ done q
    → push_query buf3 q ≡ done (buf4, end)
    → fragment u ≡ done f
    → push_fragment buf4 f ≡ done buf5
    → normalize u
      ≡ done (record {
        val = buf5;
        meta = record {
          scheme_end = b.1;
          auth_meta = m;
          path_bounds = (length buf2, length buf3);
          query_end = end;
        };
      })
unfolding normalize
normalize_by u e1 e2 e3 e4 e5 e6 e7 e8 e9 e10 =
    rw (normalize, e1, e2, e3, e4, e5, e6, e7, e8, e9, e10) refl

dot_word : (n : Bytes) → Valid Consts.path n → Valid Consts.path (b'/' ∷ b'.' ∷ n)
unfolding Consts.path allows
dot_word n v = byte refl refl (byte refl refl v)

dotted-Valid : (p : Parts) (n : Bytes) → Valid Consts.path n → Valid Consts.path (dotted p n)
dotted-Valid p n v =
    elim (Bool-cases
      (is_some p.scheme && not (is_some p.auth) && starts_with n (b'/' ∷ b'/' ∷ []))) [
        | inl h ↦ rw h (dot_word n v)
        | inr h ↦ rw h v
      ]

is_some-map_some : {A B : Type 0} (f : A → B) (o : Option A) → is_some (map_some f o) ≡ is_some o
is_some-map_some f none = refl
is_some-map_some f (some a) = refl

push_path_lem :
    (p : Parts) (buf n : Bytes)
    → (if is_some (uri_of p).meta.scheme_end
            && not (is_some (uri_of p).meta.auth_meta)
            && starts_with n (b'/' ∷ b'/' ∷ [])
          then buf ++ (b'/' ∷ b'.' ∷ [])
          else buf)
        ++ n
      ≡ buf ++ dotted p n
unfolding meta_of
push_path_lem p buf n =
    rw (is_some-map_some, is_some-map_some)
      (elim (Bool-cases
        (is_some p.scheme && not (is_some p.auth) && starts_with n (b'/' ∷ b'/' ∷ []))) [
          | inl h ↦ rw h (append_assoc buf (b'/' ∷ b'.' ∷ []) n)
          | inr h ↦ rw h refl
        ])

-- The text and the offsets put together are those of the components.
uri_by :
    (q : Parts)
    → record {
      val = ((front q ++ q.path) ++ write_query q.query []) ++ write_fragment q.fragment;
      meta = record {
        scheme_end = map_some length q.scheme;
        auth_meta = map_some (auth_meta_of (length (scheme_text q.scheme))) q.auth;
        path_bounds = (length (front q), length (front q ++ q.path));
        query_end = map_some (λ w. length (front q ++ q.path) + 1 + length w) q.query;
      };
    }
      ≡ uri_of q
unfolding meta_of
uri_by q =
    let text : ((front q ++ q.path) ++ write_query q.query []) ++ write_fragment q.fragment
        ≡ write q =
      append_assoc (front q ++ q.path) (write_query q.query []) (write_fragment q.fragment)
      ∙ ap (λ l. (front q ++ q.path) ++ l) (query_text q.query q.fragment)
      ∙ append_assoc (front q) q.path (write_query q.query (write_fragment q.fragment))
      ∙ sym (front-write q) in
    let len3 : length (front q ++ q.path) ≡ path_start q + length q.path =
      length-append (front q) q.path ∙ ap (λ k. k + length q.path) (length-front q) in
    rw (text, len3, length-front q, length-scheme_text q.scheme) refl

pub rewritten :
    (p : Parts)
    → IsWellFormed p
    → (q : Parts) × Rewrites p q
      × (normalize (uri_of p) ≡ done (uri_of q))
      × (n : Bytes) × (q.path ≡ dotted p n)
      × KeepsFits (is_some p.scheme) p.path n
unfolding meta_of
rewritten p v =
    let (n, e, w, z) = normalize_path-PathRewrites (uri_of p) p.path v.path_valid in
    let s = lower_scheme p.scheme in
    let (b, k, g) = push_authority-AuthRewrites (scheme_text s) p p.auth v.auth_valid in
    let (r, i, f) = push_query-Normal p.query v.query_valid in
    let (x, j, h) = push_fragment-Normal p.fragment v.fragment_valid in
    let q : Parts = record { scheme = s; auth = b; path = dotted p n; query = r; fragment = x } in
    let buf3 = front q ++ q.path in
    (
      q,
      record {
        scheme_lower = refl;
        auth_rewrites = k;
        path_rewrites = (n, rw (is_some-map_some length p.scheme) at w, refl);
        path_valid = dotted-Valid p n w.0;
        query_normal = i;
        fragment_normal = j;
      },
      normalize_by (uri_of p) (path-write p) e (scheme-write p)
            (push_scheme_lem p.scheme v.scheme_valid) g (push_path_lem p (front q) n)
            (query-write p) (f buf3) (fragment-write p) (h (buf3 ++ write_query r []))
          ∙ ap done (uri_by q),
      n,
      refl,
      rw (is_some-map_some length p.scheme) at z,
    )
