-- ===== src/Parser/Total/Path.antt =====
-- `read_path` of src/parser.rs on every input.
use mathlib.Core.Path.{subst}
use fluent_uri_rs.Base.{
  ◌+◌, Bool, true, false, [], ◌∷◌, ◌++◌, append_assoc, ◌==◌, Bytes, length, Bool-cases, ◌≡◌, refl,
  sym, ap, ◌∙◌, ◌⊎◌, inl, inr, arith,
}
use fluent_uri_rs.Error.{ok, err, ◌>>=◌, unexpected_char}
use fluent_uri_rs.Parser.{
  PathKind, general, ab_empty, continued_no_scheme, peek_is, no_scheme_rest, read_path,
}
use fluent_uri_rs.Parser.Path.{peek_is-at_cons, colon_first-append}
use fluent_uri_rs.Reader.{Reader, read}
use fluent_uri_rs.Reader.Reads.{is_nonempty}
use fluent_uri_rs.Reader.Span.{Stops}
use fluent_uri_rs.Reader.Total.{Fails, Fails-by, Fails-le, Fails-bind, length-whole, read_total}
use fluent_uri_rs.Reader.View.{at}
use fluent_uri_rs.Spec.{colon_first}
use fluent_uri_rs.Table.{allows}
use fluent_uri_rs.Table.Consts
use fluent_uri_rs.Table.Facts
use fluent_uri_rs.Table.Relate.{path_cases, scheme_in_segment, segment_in_path}
use fluent_uri_rs.Table.Validate.{Valid, nil, byte, octet, Valid-append}
use fluent_uri_rs.Parser.Total.PathKinds.{
  PathRead, Outcome, with_bounds, continued_begins, general_total, ab_empty_total,
}

-- Behind the first segment.
at_colon :
    (b : Bool) (r : Reader)
    → peek_is r b':' ≡ true
    → no_scheme_rest (b, r) ≡ err r.pos unexpected_char
unfolding no_scheme_rest
at_colon b r h = rw h refl

no_colon :
    (b : Bool) (r : Reader)
    → peek_is r b':' ≡ false
    → no_scheme_rest (b, r) ≡ (read Consts.path r >>= λ (_, r2). ok r2)
unfolding no_scheme_rest
no_colon b r h = rw h refl

-- What stops a first segment and goes on as a path is a slash, or else a colon.
no_colon_first :
    (pre tail : Bytes) {w : Bytes}
    → Valid Consts.path w
    → Stops Consts.segment_nz_nc (w ++ tail)
    → peek_is (at pre (w ++ tail)) b':' ≡ false
    → colon_first w ≡ false
no_colon_first pre tail nil s p = refl
no_colon_first pre tail (byte {x} {w} n a v) s p =
    let colon : (x == b':') ≡ false = sym (peek_is-at_cons pre (w ++ tail) x b':') ∙ p in
    elim (path_cases x a) [
      | inl b ↦ absurd (ground (arith, s, b))
      | inr (inl c) ↦ absurd (ground arith)
      | inr (inr c) ↦ rw c refl
    ]
no_colon_first pre tail (octet {hi} {lo} {w} e a b v) s p = absurd (no_stop s)
  where
    no_stop : Stops Consts.segment_nz_nc (b'%' ∷ []) → ⊥
    no_stop s = unfold allows Consts.segment_nz_nc in cc

continued_rest :
    (pre l first behind : Bytes) (b : Bool)
    → Valid Consts.scheme pre
    → l ≡ first ++ behind
    → Valid Consts.segment_nz_nc first
    → Stops Consts.segment_nz_nc behind
    → peek_is (at (pre ++ first) behind) b':' ≡ false
    → read Consts.segment_nz_nc (at pre l) ≡ ok (b, at (pre ++ first) behind)
    → Outcome continued_no_scheme pre l
continued_rest pre l first behind b vp e v st p r =
    let run =
      continued_begins _
      ∙ ap (λ o. (o >>= no_scheme_rest) >>= with_bounds 0) r
      ∙ ap (λ o. o >>= with_bounds 0) (no_colon b _ p) in
    elim (read_total Consts.path (pre ++ first) behind Facts.path-IsTable) [
      | inr f ↦ inr (
          Fails-by run (
            Fails-le (omega (arith, length-whole pre first behind e))
              (Fails-bind (with_bounds 0) (Fails-bind (λ (_, r2). ok r2) f))))
      | inl (s, g) ↦
          let clear =
            no_colon_first (pre ++ first) s.tail s.valid
              (subst (Stops Consts.segment_nz_nc) s.splits st)
              (ap (λ l. peek_is (at (pre ++ first) l) b':') (sym s.splits) ∙ p) in
          inl (record {
            word = first ++ s.word;
            tail = s.tail;
            bounds = (0, length ((pre ++ first) ++ s.word));
            valid = Valid-append (segment_in_path v) s.valid;
            fits =
                ap colon_first (sym (append_assoc pre first s.word))
                ∙ colon_first-append s.word (Valid-append (scheme_in_segment vp) v)
                ∙ clear;
            splits = e ∙ ap (λ l. first ++ l) s.splits ∙ sym (append_assoc first s.word s.tail);
            runs =
                run
                ∙ ap (λ o. (o >>= λ (_, r2). ok r2) >>= with_bounds 0) g
                ∙ ap (λ q. ok ((0, length ((pre ++ first) ++ s.word)), at q s.tail))
                    (append_assoc pre first s.word);
          })
    ]

continued_total : (pre l : Bytes) → Valid Consts.scheme pre → Outcome continued_no_scheme pre l
continued_total pre l vp =
    elim (read_total Consts.segment_nz_nc pre l Facts.segment_nz_nc-IsTable) [
      | inr f ↦
          inr (
            Fails-by (continued_begins _)
              (Fails-bind (with_bounds 0) (Fails-bind no_scheme_rest f)))
      | inl (s, e) ↦ elim (Bool-cases (peek_is (at (pre ++ s.word) s.tail) b':')) [
        | inl c ↦ inr (
          length (pre ++ s.word),
          unexpected_char,
          continued_begins _
              ∙ ap (λ o. (o >>= no_scheme_rest) >>= with_bounds 0) e
              ∙ ap (λ o. o >>= with_bounds 0) (at_colon (is_nonempty s.word) _ c),
          omega (arith, length-whole pre s.word s.tail s.splits),
        )
        | inr c ↦
            continued_rest pre l s.word s.tail (is_nonempty s.word) vp s.splits s.valid s.stops c e
      ]
    ]

-- What must have been passed in front of each kind of path.
abbrev pub KindNeeds : PathKind → Bytes → Type 0
KindNeeds general pre = Unit
KindNeeds ab_empty pre = Unit
KindNeeds continued_no_scheme pre = Valid Consts.scheme pre

pub path_total :
    (kind : PathKind) (pre l : Bytes)
    → KindNeeds kind pre
    → PathRead kind pre l ⊎ Fails (length pre + length l) (read_path kind (at pre l))
path_total general pre l n = general_total pre l
path_total ab_empty pre l n = ab_empty_total pre l
path_total continued_no_scheme pre l n = continued_total pre l n
