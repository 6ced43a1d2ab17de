-- ===== src/Parser/Finish.antt =====
-- `parse_from_path` from behind the path on: the query and the fragment.
use fluent_uri_rs.Base.{
  ℕ, ◌+◌, ◌<◌, Option, none, some, [], ◌∷◌, ◌++◌, append-nil, Bytes, length, length-append, ◌≡◌,
  refl, arith,
}
use fluent_uri_rs.Error.{ok}
use fluent_uri_rs.Net.{non_zero}
use fluent_uri_rs.Parser.{Parser, PathKind, read_path, read_query, read_fragment, parse_from_path}
use fluent_uri_rs.Reader.{Reader}
use fluent_uri_rs.Reader.Reads.{read-Valid}
use fluent_uri_rs.Reader.Span.{Stops}
use fluent_uri_rs.Reader.View.{at, read_str-hit, read_str-miss, has_remaining-at_nil}
use fluent_uri_rs.Spec.{write_query, write_fragment, OnSome, map_some}
use fluent_uri_rs.Table.{allows}
use fluent_uri_rs.Table.Consts
use fluent_uri_rs.Table.Facts
use fluent_uri_rs.Table.Laws.{IsTable}
use fluent_uri_rs.Table.Validate.{Valid}

pub path-Stops : (q f : Option Bytes) → Stops Consts.path (write_query q (write_fragment f))
unfolding allows Consts.path
path-Stops none none = tt
path-Stops none (some f) = refl
path-Stops (some q) f = refl

pub segment-Stops :
    (q f : Option Bytes) → Stops Consts.segment_nz_nc (write_query q (write_fragment f))
unfolding allows Consts.segment_nz_nc
segment-Stops none none = tt
segment-Stops none (some f) = refl
segment-Stops (some q) f = refl

query-Stops : (f : Option Bytes) → Stops Consts.query (write_fragment f)
unfolding allows Consts.query
query-Stops none = tt
query-Stops (some f) = refl

pub non_zero_pos : (n : ℕ) → 0 < n → non_zero n ≡ some n
non_zero_pos n h = ground arith

fragment-IsTable : IsTable Consts.fragment
unfolding Consts.fragment
fragment-IsTable = Facts.query-IsTable

read_query_lem :
    (q f : Option Bytes) (pre : Bytes)
    → OnSome (Valid Consts.query) q
    → (pre' : Bytes) × (read_query (at pre (write_query q (write_fragment f)))
        ≡ ok (map_some (λ w. length pre + 1 + length w) q, at pre' (write_fragment f)))
unfolding read_query
read_query_lem none none pre v = (pre, rw (read_str-miss pre (b'?' ∷ []) [] refl))
read_query_lem none (some f) pre v = (pre, rw (read_str-miss pre (b'?' ∷ []) (b'#' ∷ f) refl))
read_query_lem (some q) f pre v =
    let mid = pre ++ (b'?' ∷ []) in
    (
      mid ++ q,
      rw
          (
            read_str-hit pre (b'?' ∷ []) (q ++ write_fragment f),
            read-Valid mid (write_fragment f) Facts.query-IsTable v (query-Stops f),
          )
          (let end : length (mid ++ q) ≡ length pre + 1 + length q =
              rw (length-append mid q, length-append pre (b'?' ∷ [])) in
            rw (end, non_zero_pos (length pre + 1 + length q) (omega arith))),
    )

read_fragment_lem :
    (f : Option Bytes) (pre : Bytes)
    → OnSome (Valid Consts.fragment) f
    → (pre' : Bytes) × (read_fragment (at pre (write_fragment f)) ≡ ok (at pre' []))
unfolding read_fragment
read_fragment_lem none pre v = (pre, rw (read_str-miss pre (b'#' ∷ []) [] refl))
read_fragment_lem (some f) pre v =
    let mid = pre ++ (b'#' ∷ []) in
    let run = rw (append-nil f) at (read-Valid mid [] fragment-IsTable v tt) in
    (mid ++ f, rw (read_str-hit pre (b'#' ∷ []) f, run))

-- From behind the path on.
pub finish_path :
    (kind : PathKind) (p : Parser) (bounds : ℕ × ℕ) (pre : Bytes) (q f : Option Bytes)
    → OnSome (Valid Consts.query) q
    → OnSome (Valid Consts.fragment) f
    → read_path kind p.reader ≡ ok (bounds, at pre (write_query q (write_fragment f)))
    → (r : Reader) × (parse_from_path kind p
        ≡ ok (record {
          reader = r;
          out = record p.out {
            path_bounds = bounds;
            query_end = map_some (λ w. length pre + 1 + length w) q;
          };
        }))
unfolding parse_from_path
finish_path kind p bounds pre q f vq vf e =
    let (pre1, e1) = read_query_lem q f pre vq in
    let (pre2, e2) = read_fragment_lem f pre1 vf in
    (at pre2 [], rw (e, e1, e2, has_remaining-at_nil))
