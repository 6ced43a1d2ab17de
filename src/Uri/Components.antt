-- ===== src/Uri/Components.antt =====
-- The accessors of `Uri` on the text of components, with the `Meta` that describes it.
use fluent_uri_rs.Base.{
  ℕ, ◌+◌, true, false, not, Option, none, some, [], ◌∷◌, ◌++◌, append-nil, append_assoc, ◌==◌,
  if◌then◌else◌, Bytes, length, length-append, ◌≡◌, refl, sym, ap, ◌∙◌, arith,
}
use fluent_uri_rs.Base.Run.{done}
use fluent_uri_rs.Error.{ok}
use fluent_uri_rs.Parser.{parse}
use fluent_uri_rs.Parser.Write.{parse-write}
use fluent_uri_rs.Spec.{
  Parts, write_scheme, write_auth, write_query, write_fragment, write, path_start, map_some,
  meta_of, IsWellFormed,
}
use fluent_uri_rs.Net.{Meta}
use fluent_uri_rs.Uri.Parts.{
  uri_of, str_slice-at, query_text, write_query-text, front, length-front, front-write,
}
use fluent_uri_rs.Uri.{
  Uri, on_some, str_slice, to_uri, scheme, path, query, fragment_start, fragment,
}

pub path-write : (p : Parts) → path (uri_of p) ≡ done p.path
unfolding path meta_of
path-write p =
    str_slice-at (front p) p.path (write_query p.query (write_fragment p.fragment)) (front-write p)
      (length-front p)

pub scheme-write : (p : Parts) → scheme (uri_of p) ≡ done p.scheme
unfolding scheme meta_of
scheme-write p =
    cases p.scheme (write_auth p.auth (p.path ++ write_query p.query (write_fragment p.fragment)))
  where
    cases :
        (s : Option Bytes) (r : Bytes)
        → on_some (λ i. str_slice (write_scheme s r) 0 i) (map_some length s) ≡ done s
    cases none r = refl
    cases (some s) r =
        let from_zero : length s ≡ 0 + length s = omega arith in
        let cut : str_slice (s ++ (b':' ∷ r)) 0 (length s) ≡ done s =
          ap (str_slice (s ++ (b':' ∷ r)) 0) from_zero ∙ str_slice-at [] s (b':' ∷ r) refl refl in
        rw cut refl

-- Up to the query, with what is behind the path.
abbrev to_path : Parts → Bytes
to_path p = front p ++ p.path

length-to_path : (p : Parts) → length (to_path p) ≡ path_start p + length p.path
length-to_path p = length-append (front p) p.path ∙ ap (λ n. n + length p.path) (length-front p)

to_path-write : (p : Parts) → write p ≡ to_path p ++ write_query p.query (write_fragment p.fragment)
to_path-write p =
    front-write p
    ∙ sym (append_assoc (front p) p.path (write_query p.query (write_fragment p.fragment)))

pub query-write : (p : Parts) → query (uri_of p) ≡ done p.query
unfolding query meta_of
query-write p =
    cases (write p) (to_path p) p.query (write_fragment p.fragment) (to_path-write p)
      (length-to_path p)
  where
    cases :
        {n : ℕ} (text pre : Bytes) (q : Option Bytes) (r : Bytes)
        → text ≡ pre ++ write_query q r
        → length pre ≡ n
        → on_some (λ i. str_slice text (n + 1) i) (map_some (λ q. n + 1 + length q) q) ≡ done q
    cases text pre none r e k = refl
    cases {n} text pre (some q) r e k =
        let behind : length (pre ++ (b'?' ∷ [])) ≡ n + 1 =
          length-append pre (b'?' ∷ []) ∙ ap (λ n. n + 1) k in
        let cut : str_slice text (n + 1) (n + 1 + length q) ≡ done q =
          str_slice-at (pre ++ (b'?' ∷ [])) q r (e ∙ sym (append_assoc pre (b'?' ∷ []) (q ++ r)))
            behind in
        rw cut refl

-- Where the query, or the path, ends.
abbrev query_or_path_end : ℕ → Option Bytes → ℕ
query_or_path_end n q = elim (map_some (λ (q : Bytes). n + 1 + length q) q) [
  | none ↦ n
  | some i ↦ i
]

length-to_query :
    {n : ℕ} (pre : Bytes) (q : Option Bytes)
    → length pre ≡ n
    → length (pre ++ query_text q) ≡ query_or_path_end n q
length-to_query pre none k = rw (append-nil pre) k
length-to_query pre (some q) k = rw (length-append pre (b'?' ∷ q), k) (omega arith)

fragment_cases :
    {n : ℕ} (text pre : Bytes) (f : Option Bytes)
    → text ≡ pre ++ write_fragment f
    → length pre ≡ n
    → on_some
        (λ i. str_slice text i (length text))
        (if not (n == length text) then some (n + 1) else none)
      ≡ done f
fragment_cases {n} text pre none e k =
    let same : (n == length text) ≡ true = rw (← k, e, append-nil pre) (ground arith) in
    rw same refl
fragment_cases {n} text pre (some f) e k =
    let long : length text ≡ n + 1 + length f =
      rw (e, length-append pre (b'#' ∷ f), k) (omega arith) in
    let other : (n == length text) ≡ false = rw long (ground arith) in
    let behind : length (pre ++ (b'#' ∷ [])) ≡ n + 1 =
      length-append pre (b'#' ∷ []) ∙ ap (λ n. n + 1) k in
    let whole : text ≡ (pre ++ (b'#' ∷ [])) ++ (f ++ []) =
      e
      ∙ ap (λ l. pre ++ (b'#' ∷ l)) (sym (append-nil f))
      ∙ sym (append_assoc pre (b'#' ∷ []) (f ++ [])) in
    let cut : str_slice text (n + 1) (length text) ≡ done f =
      ap (str_slice text (n + 1)) long ∙ str_slice-at (pre ++ (b'#' ∷ [])) f [] whole behind in
    rw (other, cut) refl

pub fragment-write : (p : Parts) → fragment (uri_of p) ≡ done p.fragment
unfolding fragment fragment_start meta_of
fragment-write p =
    fragment_cases (write p) (to_path p ++ query_text p.query) p.fragment
      (to_path-write p
        ∙ ap (λ l. to_path p ++ l) (write_query-text p.query (write_fragment p.fragment))
        ∙ sym (append_assoc (to_path p) (query_text p.query) (write_fragment p.fragment)))
      (length-to_query (to_path p) p.query (length-to_path p))

to_uri_by : (s : Bytes) {m : Meta} → parse s ≡ ok m → to_uri s ≡ ok (record { val = s; meta = m })
unfolding to_uri
to_uri_by s e = rw (to_uri, e) refl

pub to_uri-write : (p : Parts) → IsWellFormed p → to_uri (write p) ≡ ok (uri_of p)
to_uri-write p v = to_uri_by (write p) (parse-write p v)

-- A text written from well-formed components parses, and the accessors of the `Uri` that it gives
-- return these components: the scheme, the path, the query and the fragment.
pub components-write :
    (p : Parts)
    → IsWellFormed p
    → (u : Uri) × (to_uri (write p) ≡ ok u)
      × (scheme u ≡ done p.scheme)
      × (path u ≡ done p.path)
      × (query u ≡ done p.query)
      × (fragment u ≡ done p.fragment)
components-write p v =
    (uri_of p, to_uri-write p v, scheme-write p, path-write p, query-write p, fragment-write p)
