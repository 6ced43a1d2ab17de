-- ===== src/Parser/Total/Query.antt =====
-- The query and the fragment that `Parser` of src/parser.rs reads.
use fluent_uri_rs.Base.{
  ℕ, ◌+◌, true, false, Option, none, some, [], ◌∷◌, ◌++◌, Bytes, length, ◌≡◌, refl, ap, ◌∙◌, ◌⊎◌,
  inl, inr, arith,
}
use fluent_uri_rs.Error.{ok, ◌>>=◌}
use fluent_uri_rs.Net.{non_zero}
use fluent_uri_rs.Parser.{read_query, read_fragment}
use fluent_uri_rs.Reader.{Reader, read, read_str}
use fluent_uri_rs.Reader.Total.{
  Fails, Fails-by, Fails-le, Fails-bind, length-whole, read_total, read_str_total,
}
use fluent_uri_rs.Reader.View.{at}
use fluent_uri_rs.Spec.{OnSome, write_query, write_fragment}
use fluent_uri_rs.Table.Consts
use fluent_uri_rs.Table.Facts
use fluent_uri_rs.Table.Laws.{IsTable}
use fluent_uri_rs.Table.Validate.{Valid}

-- A query or none, in front of `tail`.
pub record QueryRead (pre l : Bytes) : Type 0 where
  pub query : Option Bytes
  pub passed : Bytes
  pub tail : Bytes
  pub end : Option ℕ
  pub valid : OnSome (Valid Consts.query) query
  pub splits : l ≡ write_query query tail
  pub same : length passed + length tail ≡ length pre + length l
  pub runs : read_query (at pre l) ≡ ok (end, at passed tail)

query_hit :
    (r : Reader) {r1 : Reader}
    → read_str (b'?' ∷ []) r ≡ (true, r1)
    → read_query r ≡ (read Consts.query r1 >>= λ (_, r2). ok (non_zero r2.pos, r2))
unfolding read_query
query_hit r e = rw e refl

query_miss : (r : Reader) → read_str (b'?' ∷ []) r ≡ (false, r) → read_query r ≡ ok (none, r)
unfolding read_query
query_miss r e = rw e refl

pub query_total :
    (pre l : Bytes) → QueryRead pre l ⊎ Fails (length pre + length l) (read_query (at pre l))
query_total pre l = elim (read_str_total b'?' pre l) [
  | inr miss ↦ inl (record {
    query = none;
    passed = pre;
    tail = l;
    end = none;
    valid = tt;
    splits = refl;
    same = refl;
    runs = query_miss _ miss;
  })
  | inl (t, e, hit) ↦
      let mid = pre ++ (b'?' ∷ []) in
      let taken = length-whole pre (b'?' ∷ []) t e in
      elim (read_total Consts.query mid t Facts.query-IsTable) [
        | inr f ↦ inr (
            Fails-by (query_hit _ hit) (
              Fails-le (omega (arith, taken)) (Fails-bind (λ (_, r2). ok (non_zero r2.pos, r2)) f)))
        | inl (s, g) ↦ inl (record {
          query = some s.word;
          passed = mid ++ s.word;
          tail = s.tail;
          end = non_zero (length (mid ++ s.word));
          valid = s.valid;
          splits = e ∙ ap (◌∷◌ b'?') s.splits;
          same = omega (arith, taken, length-whole mid s.word s.tail s.splits);
          runs = query_hit _ hit ∙ ap (λ o. o >>= λ (_, r2). ok (non_zero r2.pos, r2)) g;
        })
      ]
]

pub record FragmentRead (pre l : Bytes) : Type 0 where
  pub fragment : Option Bytes
  pub passed : Bytes
  pub tail : Bytes
  pub valid : OnSome (Valid Consts.fragment) fragment
  pub splits : l ≡ write_fragment fragment ++ tail
  pub same : length passed + length tail ≡ length pre + length l
  pub runs : read_fragment (at pre l) ≡ ok (at passed tail)

fragment_hit :
    (r : Reader) {r1 : Reader}
    → read_str (b'#' ∷ []) r ≡ (true, r1)
    → read_fragment r ≡ (read Consts.fragment r1 >>= λ (_, r2). ok r2)
unfolding read_fragment
fragment_hit r e = rw e refl

fragment_miss : (r : Reader) → read_str (b'#' ∷ []) r ≡ (false, r) → read_fragment r ≡ ok r
unfolding read_fragment
fragment_miss r e = rw e refl

fragment-IsTable : IsTable Consts.fragment
unfolding Consts.fragment
fragment-IsTable = Facts.query-IsTable

pub fragment_total :
    (pre l : Bytes) → FragmentRead pre l ⊎ Fails (length pre + length l) (read_fragment (at pre l))
fragment_total pre l = elim (read_str_total b'#' pre l) [
  | inr miss ↦ inl (record {
    fragment = none;
    passed = pre;
    tail = l;
    valid = tt;
    splits = refl;
    same = refl;
    runs = fragment_miss _ miss;
  })
  | inl (t, e, hit) ↦
      let mid = pre ++ (b'#' ∷ []) in
      let taken = length-whole pre (b'#' ∷ []) t e in
      elim (read_total Consts.fragment mid t fragment-IsTable) [
        | inr f ↦ inr (
            Fails-by (fragment_hit _ hit)
              (Fails-le (omega (arith, taken)) (Fails-bind (λ (_, r2). ok r2) f)))
        | inl (s, g) ↦ inl (record {
          fragment = some s.word;
          passed = mid ++ s.word;
          tail = s.tail;
          valid = s.valid;
          splits = e ∙ ap (◌∷◌ b'#') s.splits;
          same = omega (arith, taken, length-whole mid s.word s.tail s.splits);
          runs = fragment_hit _ hit ∙ ap (λ o. o >>= λ (_, r2). ok r2) g;
        })
      ]
]
