-- ===== src/Parser/Total/PathKinds.antt =====
-- The kinds of path in `Parser` of src/parser.rs: the general one, and the one behind an authority.
use fluent_uri_rs.Base.{
  ℕ, ◌+◌, true, false, not, [], ◌∷◌, ◌++◌, ◌==◌, if◌then◌else◌, Bytes, length, Bool-cases, ==_iff,
  ◌≡◌, refl, ap, ◌∙◌, ◌⊎◌, inl, inr, arith,
}
use fluent_uri_rs.Error.{Result, ok, err, ◌>>=◌, unexpected_char}
use fluent_uri_rs.Parser.{
  PathKind, general, ab_empty, continued_no_scheme, get, ab_empty_check, no_scheme_rest, read_path,
}
use fluent_uri_rs.Parser.Path.{get-at}
use fluent_uri_rs.Reader.{Reader, read}
use fluent_uri_rs.Reader.Reads.{is_nonempty}
use fluent_uri_rs.Reader.Total.{Fails, Fails-by, Fails-bind, read_total}
use fluent_uri_rs.Reader.View.{at}
use fluent_uri_rs.Spec.{IsAbEmpty, colon_first}
use fluent_uri_rs.Table.Consts
use fluent_uri_rs.Table.Facts
use fluent_uri_rs.Table.Validate.{Valid}

-- What each kind of path promises.
abbrev pub KindFits : PathKind → Bytes → Bytes → Type 0
KindFits general pre word = Unit
KindFits ab_empty pre word = IsAbEmpty word
KindFits continued_no_scheme pre word = colon_first (pre ++ word) ≡ false

-- A path, in front of `tail`.
pub record PathRead (kind : PathKind) (pre l : Bytes) : Type 0 where
  pub word : Bytes
  pub tail : Bytes
  pub bounds : ℕ × ℕ
  pub valid : Valid Consts.path word
  pub fits : KindFits kind pre word
  pub splits : l ≡ word ++ tail
  pub runs : read_path kind (at pre l) ≡ ok (bounds, at (pre ++ word) tail)

abbrev pub Outcome : PathKind → Bytes → Bytes → Type 0
Outcome kind pre l = PathRead kind pre l ⊎ Fails (length pre + length l) (read_path kind (at pre l))

-- How the methods begin.
abbrev pub with_bounds : ℕ → Reader → Result ((ℕ × ℕ) × Reader)
with_bounds start r = ok ((start, r.pos), r)

module _ (r : Reader) where
  general_begins :
      read_path general r ≡ (read Consts.path r >>= λ (_, r1). ok ((r.pos, r1.pos), r1))
  unfolding read_path
  general_begins = refl

  ab_empty_begins :
      read_path ab_empty r ≡ ((read Consts.path r >>= ab_empty_check r) >>= with_bounds r.pos)
  unfolding read_path
  ab_empty_begins = refl

  pub continued_begins :
      read_path continued_no_scheme r
      ≡ ((read Consts.segment_nz_nc r >>= no_scheme_rest) >>= with_bounds 0)
  unfolding read_path
  continued_begins = refl

pub general_total : (pre l : Bytes) → Outcome general pre l
general_total pre l = elim (read_total Consts.path pre l Facts.path-IsTable) [
  | inr f ↦
      inr (Fails-by (general_begins _) (Fails-bind (λ (_, r1). ok ((length pre, r1.pos), r1)) f))
  | inl (s, e) ↦ inl (record {
    word = s.word;
    tail = s.tail;
    bounds = (length pre, length (pre ++ s.word));
    valid = s.valid;
    fits = tt;
    splits = s.splits;
    runs = general_begins _ ∙ ap (λ o. o >>= λ (_, r1). ok ((length pre, r1.pos), r1)) e;
  })
]

-- The check of the first byte.
check_empty : (r r1 : Reader) → ab_empty_check r (false, r1) ≡ ok r1
unfolding ab_empty_check
check_empty r r1 = refl

check_first :
    (r r1 : Reader) {x : ℕ}
    → get r1 r.pos ≡ ok x
    → ab_empty_check r (true, r1) ≡ (if not (x == b'/') then err r.pos unexpected_char else ok r1)
unfolding ab_empty_check
check_first r r1 e = rw e refl

ab_empty_word :
    (pre l word tail : Bytes)
    → l ≡ word ++ tail
    → Valid Consts.path word
    → read Consts.path (at pre l) ≡ ok (is_nonempty word, at (pre ++ word) tail)
    → Outcome ab_empty pre l
ab_empty_word pre l [] tail e v r = inl (record {
  word = [];
  tail = tail;
  bounds = (length pre, length (pre ++ []));
  valid = v;
  fits = tt;
  splits = e;
  runs =
      ab_empty_begins _
      ∙ ap (λ o. (o >>= ab_empty_check (at pre l)) >>= with_bounds (length pre)) r
      ∙ ap (λ o. o >>= with_bounds (length pre)) (check_empty (at pre l) _);
})
ab_empty_word pre l (x ∷ w) tail e v r =
    let run =
      ab_empty_begins _
      ∙ ap (λ o. (o >>= ab_empty_check (at pre l)) >>= with_bounds (length pre)) r
      ∙ ap (λ o. o >>= with_bounds (length pre)) (check_first (at pre l) _ (get-at pre x w tail)) in
    elim (Bool-cases (x == b'/')) [
      | inl s ↦ inl (record {
        word = x ∷ w;
        tail = tail;
        bounds = (length pre, length (pre ++ (x ∷ w)));
        valid = v;
        fits = (==_iff x b'/').0 s;
        splits = e;
        runs = run ∙ rw s refl;
      })
      | inr s ↦ inr (length pre, unexpected_char, run ∙ rw s refl, omega arith)
    ]

pub ab_empty_total : (pre l : Bytes) → Outcome ab_empty pre l
ab_empty_total pre l = elim (read_total Consts.path pre l Facts.path-IsTable) [
  | inr f ↦ inr (
      Fails-by (ab_empty_begins _)
        (Fails-bind (with_bounds (length pre)) (Fails-bind (ab_empty_check (at pre l)) f)))
  | inl (s, e) ↦ ab_empty_word pre l s.word s.tail s.splits s.valid e
]
