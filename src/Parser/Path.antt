-- ===== src/Parser/Path.antt =====
-- `parse_from_path` on each kind of well-formed path, up to the query.
use mathlib.Core.Path.{subst}
use fluent_uri_rs.Base.{
  ℕ, ◌+◌, true, false, Option, none, some, [], ◌∷◌, ◌++◌, append_assoc, ◌==◌, Bytes, length,
  length-append, ◌≡◌, refl, sym, ap, ◌∙◌, ◌⊎◌, inl, inr, arith, get_elem?,
}
use fluent_uri_rs.Error.{ok}
use fluent_uri_rs.Parser.Finish.{path-Stops, segment-Stops}
use fluent_uri_rs.Parser.{peek_is, get, general, ab_empty, continued_no_scheme, read_path}
use fluent_uri_rs.Reader.Reads.{read-Valid}
use fluent_uri_rs.Reader.Span.{Stops}
use fluent_uri_rs.Reader.View.{at, get_elem?-append}
use fluent_uri_rs.Spec.{write_query, write_fragment, colon_first, IsAbEmpty}
use fluent_uri_rs.Table.{allows}
use fluent_uri_rs.Table.Consts
use fluent_uri_rs.Table.Facts
use fluent_uri_rs.Table.Relate.{path_cases, scheme_in_segment, allows-ne_byte}
use fluent_uri_rs.Table.Validate.{Valid, nil, byte, octet, Valid-append}

-- A path is a word of first-segment bytes, and a rest that begins with a slash or a colon, if at all.
abbrev IsCut : Bytes → Type 0
IsCut [] = Unit
IsCut (x ∷ l) = (x ≡ b':') ⊎ (x ≡ b'/')

record PathSplit (p : Bytes) : Type 0 where
  first : Bytes
  rest : Bytes
  splits : p ≡ first ++ rest
  first_valid : Valid Consts.segment_nz_nc first
  rest_valid : Valid Consts.path rest
  cut : IsCut rest

path_split : {p : Bytes} → Valid Consts.path p → PathSplit p
path_split nil = record {
  first = [];
  rest = [];
  splits = refl;
  first_valid = nil;
  rest_valid = nil;
  cut = tt;
}
path_split (byte {x} {w} n a v) = elim (path_cases x a) [
  | inl s ↦
      let r = path_split v in
      record {
        first = x ∷ r.first;
        rest = r.rest;
        splits = ap (◌∷◌ x) r.splits;
        first_valid = byte n s r.first_valid;
        rest_valid = r.rest_valid;
        cut = r.cut;
      }
  | inr c ↦ record {
    first = [];
    rest = x ∷ w;
    splits = refl;
    first_valid = nil;
    rest_valid = byte n a v;
    cut = c;
  }
]
path_split (octet {hi} {lo} {w} e h k v) =
    let r = path_split v in
    record {
      first = b'%' ∷ hi ∷ lo ∷ r.first;
      rest = r.rest;
      splits = ap (λ l. b'%' ∷ hi ∷ lo ∷ l) r.splits;
      first_valid = octet (unfold Consts.segment_nz_nc in refl) h k r.first_valid;
      rest_valid = r.rest_valid;
      cut = r.cut;
    }

pub read_path-general :
    (p : Bytes) (q f : Option Bytes) (pre : Bytes)
    → Valid Consts.path p
    → read_path general (at pre (p ++ write_query q (write_fragment f)))
      ≡ ok ((length pre, length pre + length p), at (pre ++ p) (write_query q (write_fragment f)))
unfolding read_path
read_path-general p q f pre v = rw (
  read-Valid pre (write_query q (write_fragment f)) Facts.path-IsTable v (path-Stops q f),
  length-append pre p,
)

pub get-at :
    (pre : Bytes) (x : ℕ) (l tail : Bytes) → get (at (pre ++ (x ∷ l)) tail) (length pre) ≡ ok x
unfolding get
get-at pre x l tail =
    let zero_more : length pre ≡ length pre + 0 = omega arith in
    let found : get_elem? ((pre ++ (x ∷ l)) ++ tail) (length pre) ≡ some x =
      rw (append_assoc pre (x ∷ l) tail, zero_more) (get_elem?-append pre ((x ∷ l) ++ tail) 0) in
    rw (found, get)

pub read_path-ab_empty :
    (p : Bytes) (q f : Option Bytes) (pre : Bytes)
    → Valid Consts.path p
    → IsAbEmpty p
    → read_path ab_empty (at pre (p ++ write_query q (write_fragment f)))
      ≡ ok ((length pre, length pre + length p), at (pre ++ p) (write_query q (write_fragment f)))
unfolding read_path
read_path-ab_empty [] q f pre v h =
    rw (read-Valid pre (write_query q (write_fragment f)) Facts.path-IsTable v (path-Stops q f))
      (rw (length-append pre []))
read_path-ab_empty (x ∷ p) q f pre v h =
    let t = write_query q (write_fragment f) in
    let slash : (x == b'/') ≡ true = rw h refl in
    rw (read-Valid pre t Facts.path-IsTable v (path-Stops q f), get-at pre x p t, slash)
      (rw (length-append pre (x ∷ p)))

pub peek_is-at_nil : (pre : Bytes) (c : ℕ) → peek_is (at pre []) c ≡ false
unfolding peek_is
peek_is-at_nil pre c = rw (get_elem?-append pre [] 0, peek_is)

pub peek_is-at_cons : (pre l : Bytes) (x c : ℕ) → peek_is (at pre (x ∷ l)) c ≡ (x == c)
unfolding peek_is
peek_is-at_cons pre l x c =
    let found : get_elem? (pre ++ (x ∷ l)) (length pre + 0) ≡ some x =
      get_elem?-append pre (x ∷ l) 0 in
    rw (found, peek_is)

cut-Stops :
    (rest : Bytes) (q f : Option Bytes)
    → IsCut rest
    → Stops Consts.segment_nz_nc (rest ++ write_query q (write_fragment f))
unfolding allows Consts.segment_nz_nc
cut-Stops [] q f c = segment-Stops q f
cut-Stops (x ∷ l) q f (inl c) = rw c refl
cut-Stops (x ∷ l) q f (inr c) = rw c refl

hex_slash : allows Consts.hexdig b'/' ≡ false
unfolding allows Consts.hexdig
hex_slash = refl

pub hex_colon : allows Consts.hexdig b':' ≡ false
unfolding allows Consts.hexdig
hex_colon = refl

-- Bytes of a first segment are neither slashes nor colons, so only the rest may show a colon.
pub colon_first-append :
    {w : Bytes} (l : Bytes) → Valid Consts.segment_nz_nc w → colon_first (w ++ l) ≡ colon_first l
unfolding allows Consts.segment_nz_nc
colon_first-append l nil = refl
colon_first-append l (byte {x} n a v) =
    let no_slash = allows-ne_byte Consts.segment_nz_nc x b'/' a refl in
    let no_colon = allows-ne_byte Consts.segment_nz_nc x b':' a refl in
    rw (no_slash, no_colon) (colon_first-append l v)
colon_first-append l (octet {hi} {lo} e h k v) =
    rw
      (
        allows-ne_byte Consts.hexdig hi b'/' h hex_slash,
        allows-ne_byte Consts.hexdig hi b':' h hex_colon,
        allows-ne_byte Consts.hexdig lo b'/' k hex_slash,
        allows-ne_byte Consts.hexdig lo b':' k hex_colon,
      )
      (colon_first-append l v)

no_colon_next :
    (pre rest : Bytes) (q f : Option Bytes)
    → IsCut rest
    → colon_first rest ≡ false
    → peek_is (at pre (rest ++ write_query q (write_fragment f))) b':' ≡ false
no_colon_next pre [] none none c h = peek_is-at_nil pre b':'
no_colon_next pre [] none (some f) c h = peek_is-at_cons pre f b'#' b':'
no_colon_next pre [] (some q) f c h = peek_is-at_cons pre (q ++ write_fragment f) b'?' b':'
no_colon_next pre (x ∷ l) q f (inl c) h = absurd (ground arith)
no_colon_next pre (x ∷ l) q f (inr c) h =
    peek_is-at_cons pre (l ++ write_query q (write_fragment f)) x b':' ∙ rw c refl

read_path-words :
    (w first rest : Bytes) (q f : Option Bytes)
    → Valid Consts.segment_nz_nc first
    → Valid Consts.path rest
    → IsCut rest
    → colon_first rest ≡ false
    → read_path continued_no_scheme (at w ((first ++ rest) ++ write_query q (write_fragment f)))
      ≡ ok (
        (0, length (w ++ (first ++ rest))),
        at (w ++ (first ++ rest)) (write_query q (write_fragment f)),
      )
unfolding read_path
read_path-words w first rest q f vf vr c h =
    let t = write_query q (write_fragment f) in
    rw (
      append_assoc first rest t,
      read-Valid w (rest ++ t) Facts.segment_nz_nc-IsTable vf (cut-Stops rest q f c),
      no_colon_next (w ++ first) rest q f c h,
      read-Valid (w ++ first) t Facts.path-IsTable vr (path-Stops q f),
      append_assoc w first rest,
    )

-- The scheme characters that are already passed are the beginning of the path.
pub read_path-continued :
    (w p : Bytes) (q f : Option Bytes)
    → Valid Consts.scheme w
    → Valid Consts.path p
    → colon_first (w ++ p) ≡ false
    → read_path continued_no_scheme (at w (p ++ write_query q (write_fragment f)))
      ≡ ok ((0, length (w ++ p)), at (w ++ p) (write_query q (write_fragment f)))
read_path-continued w p q f vw vp h =
    let s = path_split vp in
    let clear : colon_first s.rest ≡ false =
      sym (colon_first-append s.rest (Valid-append (scheme_in_segment vw) s.first_valid))
      ∙ ap colon_first (append_assoc w s.first s.rest ∙ ap (λ l. w ++ l) (sym s.splits))
      ∙ h in
    subst
      (λ l.
        read_path continued_no_scheme (at w (l ++ write_query q (write_fragment f)))
        ≡ ok ((0, length (w ++ l)), at (w ++ l) (write_query q (write_fragment f))))
      (sym s.splits) (read_path-words w s.first s.rest q f s.first_valid s.rest_valid s.cut clear)
