-- ===== src/Parser/Total.antt =====
-- `parse` of src/parser.rs on every input.
pub mod Host
pub mod Path
pub mod PathKinds
pub mod Finish
pub mod Query
pub mod Colons
pub mod Scan
pub mod Authority
pub mod Rest
pub mod Address
use mathlib.Core.Path.{subst}
use fluent_uri_rs.Base.{
  ℕ, ◌+◌, ◌≤◌, Bool, true, false, ltb, Option, none, some, [], ◌∷◌, ◌++◌, append-nil, append_assoc,
  ◌==◌, if◌then◌else◌, Bytes, length, starts_with, is_ascii_alphabetic, length-append, Bool-cases,
  ==_iff, &&-eq-true, ◌≡◌, ◌↔◌, refl, sym, ap, ◌∙◌, ◌⊎◌, inl, inr, arith,
}
use fluent_uri_rs.Error.{Result, ok, err, ParseErrorKind, ◌>>=◌, unexpected_char}
use fluent_uri_rs.Net.{Meta, default_meta, non_zero}
use fluent_uri_rs.Parser.{
  Parser, general, continued_no_scheme, peek_is, parse_from_authority, parse_from_path,
  after_scheme, no_scheme, scheme_starts, get, parse_from_scheme, parse,
}
use fluent_uri_rs.Parser.Branches.{
  branch_scheme, branch_no_scheme, scheme_authority, scheme_path, only_authority, only_path,
  starts-at, scheme_span,
}
use fluent_uri_rs.Parser.Path.{peek_is-at_cons}
use fluent_uri_rs.Parser.Total.Finish.{Ending, Ending-total}
use fluent_uri_rs.Parser.Total.Address.{HasAddress, IsAuth-HasAddress}
use fluent_uri_rs.Parser.Total.Rest.{
  Good, Good-Authority, Good-general, Good-continued, Authority-total, slashes_total, at_peek,
  no_slash,
}
use fluent_uri_rs.Parser.Write.{parse-write}
use fluent_uri_rs.Reader.{Reader, new, read}
use fluent_uri_rs.Reader.Reads.{read-Valid, is_nonempty}
use fluent_uri_rs.Reader.Total.{Fails, Fails-by, Fails-le, length-splits, length-whole}
use fluent_uri_rs.Reader.View.{at, at-skip}
use fluent_uri_rs.Spec.{AuthParts, Parts, write, OnSome, IsWellFormed, meta_of}
use fluent_uri_rs.Table.Consts
use fluent_uri_rs.Table.Facts
use fluent_uri_rs.Table.Validate.{Valid}

-- The branches that need no more than what was read.
module _ (p : Parser) {b : Bool} {r : Reader} (run : read Consts.scheme p.reader ≡ ok (b, r)) where
  branch_bad_scheme :
      peek_is r b':' ≡ true
      → scheme_starts r ≡ ok false
      → parse_from_scheme p ≡ err 0 unexpected_char
  unfolding parse_from_scheme
  branch_bad_scheme h s = rw (run, h, s) refl

starts_not :
    (pre l : Bytes) (x : ℕ)
    → is_ascii_alphabetic x ≡ false
    → scheme_starts (at (x ∷ pre) l) ≡ ok false
unfolding scheme_starts get
starts_not pre l x h =
    let longer : ltb 0 (length (x ∷ pre)) ≡ true = ground arith in rw (longer, h) refl

starts_empty : (l : Bytes) → scheme_starts (at [] l) ≡ ok false
unfolding scheme_starts
starts_empty l = refl

-- Behind `scheme:`.
after_total :
    (out : Meta) (x : ℕ) (w t : Bytes)
    → is_ascii_alphabetic x ≡ true
    → Valid Consts.scheme (x ∷ w)
    → Good ((x ∷ w) ++ (b':' ∷ t))
      ⊎ Fails
          (length ((x ∷ w) ++ (b':' ∷ t)))
          (after_scheme (record { reader = at (x ∷ w) (b':' ∷ t); out = out }))
after_total out x w t a v =
    let s = x ∷ w in
    let pre = s ++ (b':' ∷ []) in
    let p : Parser = record { reader = at s (b':' ∷ t); out = out } in
    let moved = at-skip s (b':' ∷ []) t in
    let whole : length pre + length t ≡ length (s ++ (b':' ∷ t)) =
      omega (arith, length-append s (b':' ∷ t), length-append s (b':' ∷ [])) in
    elim (slashes_total pre t) [
      | inl (l, e, hit) ↦
          let taken = length-whole pre (b'/' ∷ b'/' ∷ []) l e in
          elim (Authority-total out (pre ++ (b'/' ∷ b'/' ∷ [])) l) [
            | inl g ↦ inl (Good-Authority (some s) (a, v) g (ap (λ t. s ++ (b':' ∷ t)) e))
            | inr (i, k, f, h) ↦
                inr (i, k, scheme_authority p moved hit ∙ f, omega (arith, h, taken, whole))
          ]
      | inr (none_here, miss) ↦ elim (Ending-total general out pre t tt) [
        | inl n ↦ inl (Good-general s (a, v) n none_here refl)
        | inr (i, k, f, h) ↦ inr (i, k, scheme_path p moved miss ∙ f, omega (arith, h, whole))
      ]
    ]

-- Without a scheme.
continued_case :
    (out : Meta) (w l : Bytes)
    → Valid Consts.scheme w
    → starts_with (w ++ l) (b'/' ∷ b'/' ∷ []) ≡ false
    → no_scheme (record { reader = at w l; out = out })
      ≡ parse_from_path continued_no_scheme (record { reader = at w l; out = out })
    → Good (w ++ l) ⊎ Fails (length (w ++ l)) (no_scheme (record { reader = at w l; out = out }))
continued_case out w l v slashes begins = elim (Ending-total continued_no_scheme out w l v) [
  | inl n ↦ inl (Good-continued w v n slashes refl)
  | inr (i, k, f, h) ↦ inr (i, k, begins ∙ f, omega (arith, h, length-append w l))
]

no_scheme_total :
    (out : Meta) (w l : Bytes)
    → Valid Consts.scheme w
    → Good (w ++ l) ⊎ Fails (length (w ++ l)) (no_scheme (record { reader = at w l; out = out }))
no_scheme_total out (x ∷ w) l v =
    continued_case out (x ∷ w) l v (no_slash x w l v) (only_path _ (inl (ground arith)))
no_scheme_total out [] l v = elim (slashes_total [] l) [
  | inr (none_here, miss) ↦ continued_case out [] l v none_here (only_path _ (inr miss))
  | inl (t, e, hit) ↦ elim (Authority-total out (b'/' ∷ b'/' ∷ []) t) [
    | inl g ↦ inl (Good-Authority none tt g e)
    | inr (i, k, f, h) ↦ inr (i, k, only_authority _ refl hit ∙ f, omega (arith, h, ap length e))
  ]
]

with_colon :
    (out : Meta) (w t : Bytes)
    → Valid Consts.scheme w
    → read Consts.scheme (new (w ++ (b':' ∷ t))) ≡ ok (is_nonempty w, at w (b':' ∷ t))
    → peek_is (at w (b':' ∷ t)) b':' ≡ true
    → Good (w ++ (b':' ∷ t))
      ⊎ Fails
          (length (w ++ (b':' ∷ t)))
          (parse_from_scheme (record { reader = new (w ++ (b':' ∷ t)); out = out }))
with_colon out [] t v run p =
    inr (0, unexpected_char, branch_bad_scheme _ run p (starts_empty (b':' ∷ t)), omega arith)
with_colon out (x ∷ w) t v run p = elim (Bool-cases (is_ascii_alphabetic x)) [
  | inr n ↦
      inr (0, unexpected_char, branch_bad_scheme _ run p (starts_not w (b':' ∷ t) x n), omega arith)
  | inl a ↦ elim (after_total (record out { scheme_end = non_zero (length (x ∷ w)) }) x w t a v) [
    | inl g ↦ inl g
    | inr f ↦ inr (Fails-by (branch_scheme _ run p (starts-at x w (b':' ∷ t) a)) f)
  ]
]

from_scheme_total :
    (out : Meta) (s : Bytes)
    → Good s ⊎ Fails (length s) (parse_from_scheme (record { reader = new s; out = out }))
from_scheme_total out s =
    let sp = scheme_span s in
    subst
      (λ s. Good s ⊎ Fails (length s) (parse_from_scheme (record { reader = new s; out = out })))
      (sym sp.splits)
      (words sp.word sp.tail sp.valid
        (read-Valid [] sp.tail Facts.scheme-IsTable sp.valid sp.stops))
  where
    words :
        (w l : Bytes)
        → Valid Consts.scheme w
        → read Consts.scheme (new (w ++ l)) ≡ ok (is_nonempty w, at w l)
        → Good (w ++ l)
          ⊎ Fails
              (length (w ++ l))
              (parse_from_scheme (record { reader = new (w ++ l); out = out }))
    words w l v run = elim (at_peek w l) [
      | inr n ↦ elim (no_scheme_total out w l v) [
        | inl g ↦ inl g
        | inr f ↦ inr (Fails-by (branch_no_scheme _ run n) f)
      ]
      | inl (t, e) ↦ colon w l t v e run
    ]
      where
        colon :
            (w l t : Bytes)
            → Valid Consts.scheme w
            → l ≡ b':' ∷ t
            → read Consts.scheme (new (w ++ l)) ≡ ok (is_nonempty w, at w l)
            → Good (w ++ l)
              ⊎ Fails
                  (length (w ++ l))
                  (parse_from_scheme (record { reader = new (w ++ l); out = out }))
        colon w l t v e =
            subst
              (λ l.
                read Consts.scheme (new (w ++ l)) ≡ ok (is_nonempty w, at w l)
                → Good (w ++ l)
                  ⊎ Fails (length (w ++ l))
                      (parse_from_scheme (record { reader = new (w ++ l); out = out })))
              (sym e) (λ run. with_colon out w t v run (peek_is-at_cons w t b':' b':'))

parse_fails :
    (s : Bytes) {i : ℕ} {k : ParseErrorKind}
    → parse_from_scheme (record { reader = new s; out = default_meta }) ≡ err i k
    → parse s ≡ err i k
unfolding parse
parse_fails s e = rw e refl

-- On every text the parser returns: either the text is written from well-formed components, and the
-- result describes them, or the result is an error at an index of at most the length of the text.
-- It never panics.
pub parse-total :
    (s : Bytes)
    → ((p : Parts) × IsWellFormed p × (s ≡ write p) × (parse s ≡ ok (meta_of p)))
      ⊎ ((i : ℕ) × (k : ParseErrorKind) × (parse s ≡ err i k) × (i ≤ length s))
parse-total s = elim (from_scheme_total default_meta s) [
  | inl (p, v, e) ↦ inl (p, v, e, ap parse e ∙ parse-write p v)
  | inr (i, k, e, h) ↦ inr (i, k, parse_fails s e, h)
]

-- What the parser accepts is written from well-formed components, an IPv4 or IPv6 host among them
-- is an address by the grammar of RFC 3986, and what the parser returns describes the components.
pub parse_sound :
    (s : Bytes) (m : Meta)
    → parse s ≡ ok m
    → (p : Parts) × IsWellFormed p
      × OnSome (λ (a : AuthParts). HasAddress a.host a.host_meta) p.auth
      × (s ≡ write p)
      × (m ≡ meta_of p)
parse_sound s m h = elim (parse-total s) [
  | inl (p, v, e, f) ↦ (p, v, IsAuth-HasAddress p.auth v.auth_valid, e, same (sym h ∙ f))
  | inr (i, k, e, g) ↦ absurd (let c : ok m ≡ err i k = sym h ∙ e in cc)
]
  where
    same : {a b : Meta} → ◌≡◌ {A = Result Meta} (ok a) (ok b) → a ≡ b
    same e = cc
