-- ===== src/Parser/Total/Finish.antt =====
-- `parse_from_path` of src/parser.rs on every input.
use fluent_uri_rs.Base.{
  ℕ, ◌+◌, true, Option, [], ◌∷◌, ◌++◌, append-nil, Bytes, length, ◌≡◌, refl, ap, ◌∙◌, ◌⊎◌, inl, inr,
  arith,
}
use fluent_uri_rs.Error.{ok, err, ParseErrorKind, unexpected_char}
use fluent_uri_rs.Net.{Meta}
use fluent_uri_rs.Parser.{Parser, PathKind, read_path, read_query, read_fragment, parse_from_path}
use fluent_uri_rs.Parser.Behind.{tail_text}
use fluent_uri_rs.Parser.Total.Path.{KindNeeds, path_total}
use fluent_uri_rs.Parser.Total.PathKinds.{KindFits}
use fluent_uri_rs.Reader.{Reader, has_remaining}
use fluent_uri_rs.Reader.Total.{Fails, length-whole}
use fluent_uri_rs.Reader.View.{at, has_remaining-at_cons}
use fluent_uri_rs.Spec.{OnSome, write_query, write_fragment}
use fluent_uri_rs.Table.Consts
use fluent_uri_rs.Table.Validate.{Valid}
use fluent_uri_rs.Parser.Total.Query.{QueryRead, query_total, FragmentRead, fragment_total}

-- The ways to fail.
module _ (kind : PathKind) (p : Parser) where
  path_fails :
      {i : ℕ} {k : ParseErrorKind}
      → read_path kind p.reader ≡ err i k
      → parse_from_path kind p ≡ err i k
  unfolding parse_from_path
  path_fails e = rw e refl

  module _ {bounds : ℕ × ℕ} {r1 : Reader} (e : read_path kind p.reader ≡ ok (bounds, r1)) where
    query_fails :
        {i : ℕ} {k : ParseErrorKind} → read_query r1 ≡ err i k → parse_from_path kind p ≡ err i k
    unfolding parse_from_path
    query_fails f = rw (e, f) refl

    module _ {end : Option ℕ} {r2 : Reader} (f : read_query r1 ≡ ok (end, r2)) where
      fragment_fails :
          {i : ℕ} {k : ParseErrorKind}
          → read_fragment r2 ≡ err i k
          → parse_from_path kind p ≡ err i k
      unfolding parse_from_path
      fragment_fails g = rw (e, f, g) refl

      end_fails :
          {r3 : Reader}
          → read_fragment r2 ≡ ok r3
          → has_remaining r3 ≡ true
          → parse_from_path kind p ≡ err r3.pos unexpected_char
      unfolding parse_from_path
      end_fails g h = rw (e, f, g, h) refl

-- From the path to the end.
pub record Ending (kind : PathKind) (pre l : Bytes) : Type 0 where
  pub path : Bytes
  pub query : Option Bytes
  pub fragment : Option Bytes
  pub path_valid : Valid Consts.path path
  pub fits : KindFits kind pre path
  pub query_valid : OnSome (Valid Consts.query) query
  pub fragment_valid : OnSome (Valid Consts.fragment) fragment
  pub splits : l ≡ path ++ tail_text query fragment

pub Ending-total :
    (kind : PathKind) (out : Meta) (pre l : Bytes)
    → KindNeeds kind pre
    → Ending kind pre l
      ⊎ Fails
          (length pre + length l)
          (parse_from_path kind (record { reader = at pre l; out = out }))
Ending-total kind out pre l n = elim (path_total kind pre l n) [
  | inr (i, k, e, h) ↦ inr (i, k, path_fails kind p e, h)
  | inl w ↦
      let whole = length-whole pre w.word w.tail w.splits in
      elim (query_total (pre ++ w.word) w.tail) [
        | inr (i, k, e, h) ↦ inr (i, k, query_fails kind p w.runs e, omega (arith, h, whole))
        | inl q ↦ elim (fragment_total q.passed q.tail) [
          | inr (i, k, e, h) ↦
              inr (i, k, fragment_fails kind p w.runs q.runs e, omega (arith, h, whole, q.same))
          | inl f ↦
              last w.word w.tail w.bounds w.valid w.fits w.splits w.runs q f f.tail refl
                (omega (arith, whole, q.same, f.same))
        ]
      ]
]
  where
    p : Parser
    p = record { reader = at pre l; out = out }

    last :
        (word behind : Bytes) (bounds : ℕ × ℕ)
        → Valid Consts.path word
        → KindFits kind pre word
        → l ≡ word ++ behind
        → read_path kind (at pre l) ≡ ok (bounds, at (pre ++ word) behind)
        → (q : QueryRead (pre ++ word) behind) (f : FragmentRead q.passed q.tail) (left : Bytes)
        → f.tail ≡ left
        → length f.passed + length f.tail ≡ length pre + length l
        → Ending kind pre l
          ⊎ Fails
              (length pre + length l)
              (parse_from_path kind (record { reader = at pre l; out = out }))
    last word behind bounds v fits e run q f [] g same = inl (record {
      path = word;
      query = q.query;
      fragment = f.fragment;
      path_valid = v;
      fits = fits;
      query_valid = q.valid;
      fragment_valid = f.valid;
      splits =
          e
          ∙ ap (λ l. word ++ l)
              (q.splits
                ∙ ap (write_query q.query) (
                    f.splits
                    ∙ ap (λ l. write_fragment f.fragment ++ l) g
                    ∙ append-nil (write_fragment f.fragment)));
    })
    last word behind bounds v fits e run q f (x ∷ left) g same = inr (
      length f.passed,
      unexpected_char,
      end_fails kind (record { reader = at pre l; out = out }) run q.runs f.runs
          (ap (λ l. has_remaining (at f.passed l)) g ∙ has_remaining-at_cons f.passed x left),
      omega (arith, same),
    )
