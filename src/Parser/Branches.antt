-- ===== src/Parser/Branches.antt =====
-- The branches of `parse_from_scheme`, and what follows the bytes read as a scheme.
use fluent_uri_rs.Base.{
  ℕ, ◌+◌, Bool, true, false, Option, none, some, [], ◌∷◌, ◌++◌, append-nil, append_assoc, ltb, ◌==◌,
  Bytes, starts_with, length, get_elem?, length-append, is_ascii_alphabetic, ◌≡◌, refl, sym, ap,
  ◌∙◌, ◌⊎◌, inl, inr, arith,
}
use fluent_uri_rs.Error.{ok}
use fluent_uri_rs.Net.{non_zero}
use fluent_uri_rs.Parser.{
  Parser, general, continued_no_scheme, peek_is, parse_from_path, parse_from_authority,
  after_scheme, no_scheme, scheme_starts, get, parse_from_scheme,
}
use fluent_uri_rs.Parser.Behind.{tail_text}
use fluent_uri_rs.Parser.Path.{peek_is-at_nil, peek_is-at_cons}
use fluent_uri_rs.Reader.{Reader, skip, read, read_str}
use fluent_uri_rs.Reader.Span.{Stops, Span, split}
use fluent_uri_rs.Reader.View.{at}
use fluent_uri_rs.Spec.{write_fragment, colon_first}
use fluent_uri_rs.Table.{Table, allows}
use fluent_uri_rs.Table.Consts
use fluent_uri_rs.Table.Facts
use fluent_uri_rs.Table.Validate.{Valid, nil, byte, octet}

-- The branches.
module _ (p : Parser) {b : Bool} {r : Reader} (run : read Consts.scheme p.reader ≡ ok (b, r)) where
  pub branch_scheme :
      peek_is r b':' ≡ true
      → scheme_starts r ≡ ok true
      → parse_from_scheme p
        ≡ after_scheme (record { reader = r; out = record p.out { scheme_end = non_zero r.pos } })
  unfolding parse_from_scheme
  branch_scheme h s = rw (run, h, s)

  pub branch_no_scheme :
      peek_is r b':' ≡ false → parse_from_scheme p ≡ no_scheme (record p { reader = r })
  unfolding parse_from_scheme
  branch_no_scheme h = rw (run, h)

pub scheme_authority :
    (p : Parser) {r0 r1 : Reader}
    → skip 1 p.reader ≡ r0
    → read_str (b'/' ∷ b'/' ∷ []) r0 ≡ (true, r1)
    → after_scheme p ≡ parse_from_authority (record p { reader = r1 })
unfolding after_scheme
scheme_authority p {r0} e h = rw (e, h)

pub scheme_path :
    (p : Parser) {r0 r1 : Reader}
    → skip 1 p.reader ≡ r0
    → read_str (b'/' ∷ b'/' ∷ []) r0 ≡ (false, r1)
    → after_scheme p ≡ parse_from_path general (record p { reader = r1 })
unfolding after_scheme
scheme_path p e h = rw (e, h)

pub only_authority :
    (p : Parser) {r1 : Reader}
    → (p.reader.pos == 0) ≡ true
    → read_str (b'/' ∷ b'/' ∷ []) p.reader ≡ (true, r1)
    → no_scheme p ≡ parse_from_authority (record p { reader = r1 })
unfolding no_scheme
only_authority p z h = rw (z, h)

pub only_path :
    (p : Parser)
    → ((p.reader.pos == 0) ≡ false) ⊎ (read_str (b'/' ∷ b'/' ∷ []) p.reader ≡ (false, p.reader))
    → no_scheme p ≡ parse_from_path continued_no_scheme p
unfolding no_scheme
only_path p (inl z) = rw z refl
only_path p (inr h) = elim (fluent_uri_rs.Base.Bool-cases (p.reader.pos == 0)) [
  | inl e ↦ rw (h, e)
  | inr e ↦ rw (h, e)
]

-- The scheme.
pub starts-at :
    (x : ℕ) (s l : Bytes) → is_ascii_alphabetic x ≡ true → scheme_starts (at (x ∷ s) l) ≡ ok true
unfolding scheme_starts get
starts-at x s l h = let longer : ltb 0 (length (x ∷ s)) ≡ true = ground arith in rw (longer, h)

pub scheme-colon : (l : Bytes) → Stops Consts.scheme (b':' ∷ l)
unfolding allows Consts.scheme
scheme-colon l = refl

pub scheme-slash : (l : Bytes) → Stops Consts.scheme (b'/' ∷ l)
unfolding allows Consts.scheme
scheme-slash l = refl

pub scheme_span : (l : Bytes) → Span Consts.scheme l
scheme_span l = elim (split Consts.scheme l Facts.scheme-IsTable) [
  | inl s ↦ s
  | inr b ↦ record {
    word = b.word;
    tail = b'%' ∷ b.tail;
    splits = b.splits;
    valid = b.valid;
    stops = percent;
  }
]
  where
    percent : Stops Consts.scheme (b'%' ∷ [])
    percent = unfold allows Consts.scheme in refl

pub scheme-rest :
    (l : Bytes) (q f : Option Bytes)
    → Stops Consts.scheme l
    → Stops Consts.scheme (l ++ tail_text q f)
unfolding allows Consts.scheme
scheme-rest (x ∷ l) q f s = s
scheme-rest [] none none s = tt
scheme-rest [] none (some f) s = refl
scheme-rest [] (some q) f s = refl

-- Behind scheme characters, the rest of a valid word is valid.
byte-or-octet : {t : Table} {x : ℕ} {l : Bytes} → Valid t (x ∷ l) → (x == b'%') ≡ false → Valid t l
byte-or-octet (byte n a v) h = v
byte-or-octet (octet e a b v) h = absurd (let c : (b'%' == b'%') ≡ false = h in ground arith)

pub Valid-behind :
    {t : Table} {w : Bytes} (l : Bytes) → Valid Consts.scheme w → Valid t (w ++ l) → Valid t l
Valid-behind l nil v = v
Valid-behind l (byte n a w) v = Valid-behind l w (byte-or-octet v n)
Valid-behind l (octet e a b w) v = absurd (no_octet e)
  where
    no_octet : (Consts.scheme).allows_enc ≡ true → ⊥
    no_octet e = unfold Consts.scheme in cc

pub no_colon :
    (pre l : Bytes) (q f : Option Bytes)
    → colon_first l ≡ false
    → peek_is (at pre (l ++ tail_text q f)) b':' ≡ false
no_colon pre [] none none h = peek_is-at_nil pre b':'
no_colon pre [] none (some f) h = peek_is-at_cons pre f b'#' b':'
no_colon pre [] (some q) f h = peek_is-at_cons pre (q ++ write_fragment f) b'?' b':'
no_colon pre (x ∷ l) q f h = peek_is-at_cons pre (l ++ tail_text q f) x b':' ∙ ground arith
