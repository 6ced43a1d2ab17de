-- ===== src/Parser/Total/Rest.antt =====
-- What is parsed behind a scheme or in its place, as the components of a whole reference.
use fluent_uri_rs.Base.{
  ℕ, ◌+◌, true, false, Option, none, some, [], ◌∷◌, ◌++◌, append_assoc, ◌==◌, Bytes, length,
  starts_with, Bool-cases, ==_iff, ◌≡◌, refl, sym, ap, ◌∙◌, ◌⊎◌, inl, inr, arith,
}
use fluent_uri_rs.Error.{ok, err, ParseErrorKind}
use fluent_uri_rs.Net.{AuthMeta, Meta}
use fluent_uri_rs.Parser.{
  Parser, general, ab_empty, continued_no_scheme, peek_is, read_authority, parse_from_path,
  parse_from_authority,
}
use fluent_uri_rs.Parser.Behind.{tail_text}
use fluent_uri_rs.Parser.Path.{peek_is-at_nil, peek_is-at_cons}
use fluent_uri_rs.Parser.Total.Authority.{authority_total}
use fluent_uri_rs.Parser.Total.Finish.{Ending, Ending-total}
use fluent_uri_rs.Reader.{Reader, read_str}
use fluent_uri_rs.Reader.Total.{Fails}
use fluent_uri_rs.Reader.View.{at, read_str-hit, read_str-miss}
use fluent_uri_rs.Spec.{
  Parts, AuthParts, write, write_auth, write_scheme, OnSome, IsScheme, IsAuth, IsWellFormed,
}
use fluent_uri_rs.Table.{allows}
use fluent_uri_rs.Table.Consts
use fluent_uri_rs.Table.Relate.{allows-ne_byte, scheme_in_segment, segment_in_path}
use fluent_uri_rs.Table.Validate.{Valid, byte, octet, Valid-append}

-- The text is written from well-formed components.
abbrev pub Good : Bytes → Type 0
Good s = (p : Parts) × IsWellFormed p × (s ≡ write p)

-- Behind the two slashes: an authority and what follows it.
pub record Authority (pre l : Bytes) : Type 0 where
  pub auth : AuthParts
  pub passed : Bytes
  pub tail : Bytes
  pub is_auth : IsAuth auth
  pub ending : Ending ab_empty passed tail
  pub splits : b'/' ∷ b'/' ∷ l ≡ write_auth (some auth) tail

authority_fails :
    (p : Parser) {i : ℕ} {k : ParseErrorKind}
    → read_authority p.reader ≡ err i k
    → parse_from_authority p ≡ err i k
unfolding parse_from_authority
authority_fails p e = rw e refl

authority_step :
    (p : Parser) {auth : AuthMeta} {r : Reader}
    → read_authority p.reader ≡ ok (auth, r)
    → parse_from_authority p
      ≡ parse_from_path ab_empty
          (record { reader = r; out = record p.out { auth_meta = some auth } })
unfolding parse_from_authority
authority_step p e = rw e refl

pub Authority-total :
    (out : Meta) (pre l : Bytes)
    → Authority pre l
      ⊎ Fails
          (length pre + length l)
          (parse_from_authority (record { reader = at pre l; out = out }))
Authority-total out pre l = elim (authority_total pre l) [
  | inr (i, k, e, h) ↦ inr (i, k, authority_fails _ e, h)
  | inl a ↦
      elim (Ending-total ab_empty (record out { auth_meta = some a.meta }) a.passed a.tail tt) [
        | inr (i, k, e, h) ↦ inr (i, k, authority_step _ a.runs ∙ e, omega (arith, h, a.same))
        | inl n ↦ inl (record {
          auth = a.auth;
          passed = a.passed;
          tail = a.tail;
          is_auth = a.is_auth;
          ending = n;
          splits = ap (λ l. b'/' ∷ b'/' ∷ l) a.splits;
        })
      ]
]

pub Good-Authority :
    (s : Option Bytes) {pre l text : Bytes}
    → OnSome IsScheme s
    → Authority pre l
    → text ≡ write_scheme s (b'/' ∷ b'/' ∷ l)
    → Good text
Good-Authority s v a e =
    let n = a.ending in
    (
      record {
        scheme = s;
        auth = some a.auth;
        path = n.path;
        query = n.query;
        fragment = n.fragment;
      },
      record {
        scheme_valid = v;
        auth_valid = a.is_auth;
        path_valid = n.path_valid;
        path_fits = fits s n.path n.fits;
        query_valid = n.query_valid;
        fragment_valid = n.fragment_valid;
      },
      e ∙ ap (write_scheme s) (a.splits ∙ ap (write_auth (some a.auth)) n.splits),
    )
  where
    fits :
        (s : Option Bytes) (path : Bytes)
        → fluent_uri_rs.Spec.IsAbEmpty path
        → fluent_uri_rs.Spec.PathFits s (some a.auth) path
    fits none path f = f
    fits (some s) path f = f

-- What a longer text does not begin with, a shorter one does not.
starts_with-front : (p l s : Bytes) → starts_with (p ++ l) s ≡ false → starts_with p s ≡ false
starts_with-front p l [] h = absurd (no_empty (p ++ l) h)
  where
    no_empty : (w : Bytes) → starts_with w [] ≡ false → ⊥
    no_empty [] h = cc
    no_empty (x ∷ w) h = cc
starts_with-front [] l (c ∷ s) h = refl
starts_with-front (x ∷ p) l (c ∷ s) h = elim (Bool-cases (x == c)) [
  | inl e ↦ rw e (starts_with-front p l s (ground (arith, h, e)))
  | inr e ↦ rw e refl
]

pub Good-general :
    (s : Bytes) {pre l text : Bytes}
    → IsScheme s
    → Ending general pre l
    → starts_with l (b'/' ∷ b'/' ∷ []) ≡ false
    → text ≡ s ++ (b':' ∷ l)
    → Good text
Good-general s v n h e = (
  record { scheme = some s; auth = none; path = n.path; query = n.query; fragment = n.fragment },
  record {
    scheme_valid = v;
    auth_valid = tt;
    path_valid = n.path_valid;
    path_fits =
        starts_with-front n.path (tail_text n.query n.fragment) (b'/' ∷ b'/' ∷ [])
          (ap (λ l. starts_with l (b'/' ∷ b'/' ∷ [])) (sym n.splits) ∙ h);
    query_valid = n.query_valid;
    fragment_valid = n.fragment_valid;
  },
  e ∙ ap (λ l. s ++ (b':' ∷ l)) n.splits,
)

-- A scheme character is no slash.
pub no_slash :
    (x : ℕ) (w l : Bytes)
    → Valid Consts.scheme (x ∷ w)
    → starts_with ((x ∷ w) ++ l) (b'/' ∷ b'/' ∷ []) ≡ false
no_slash x w l (byte n a v) = rw (allows-ne_byte Consts.scheme x b'/' a out) refl
  where
    out : allows Consts.scheme b'/' ≡ false
    out = unfold allows Consts.scheme in refl
no_slash x w l (octet e a b v) = refl

pub Good-continued :
    (w : Bytes) {l text : Bytes}
    → Valid Consts.scheme w
    → Ending continued_no_scheme w l
    → starts_with (w ++ l) (b'/' ∷ b'/' ∷ []) ≡ false
    → text ≡ w ++ l
    → Good text
Good-continued w v n h e = (
  record { scheme = none; auth = none; path = w ++ n.path; query = n.query; fragment = n.fragment },
  record {
    scheme_valid = tt;
    auth_valid = tt;
    path_valid = Valid-append (segment_in_path (scheme_in_segment v)) n.path_valid;
    path_fits = (
      starts_with-front (w ++ n.path) (tail_text n.query n.fragment) (b'/' ∷ b'/' ∷ []) (
          ap (λ l. starts_with l (b'/' ∷ b'/' ∷ []))
            (append_assoc w n.path (tail_text n.query n.fragment) ∙ ap (λ l. w ++ l) (sym n.splits))
          ∙ h),
      n.fits,
    );
    query_valid = n.query_valid;
    fragment_valid = n.fragment_valid;
  },
  e ∙ ap (λ l. w ++ l) n.splits ∙ sym (append_assoc w n.path (tail_text n.query n.fragment)),
)

-- Two slashes are taken, or nothing.
pub slashes_total :
    (pre l : Bytes)
    → ((t : Bytes) × (l ≡ b'/' ∷ b'/' ∷ t)
        × (read_str (b'/' ∷ b'/' ∷ []) (at pre l) ≡ (true, at (pre ++ (b'/' ∷ b'/' ∷ [])) t)))
      ⊎ ((starts_with l (b'/' ∷ b'/' ∷ []) ≡ false)
          × (read_str (b'/' ∷ b'/' ∷ []) (at pre l) ≡ (false, at pre l)))
slashes_total pre l = elim (two l) [
  | inl (t, e) ↦ inl (
    t,
    e,
    ap (λ l. read_str (b'/' ∷ b'/' ∷ []) (at pre l)) e ∙ read_str-hit pre (b'/' ∷ b'/' ∷ []) t,
  )
  | inr h ↦ inr (h, read_str-miss pre (b'/' ∷ b'/' ∷ []) l h)
]
  where
    two :
        (l : Bytes)
        → ((t : Bytes) × (l ≡ b'/' ∷ b'/' ∷ t)) ⊎ (starts_with l (b'/' ∷ b'/' ∷ []) ≡ false)
    two [] = inr refl
    two (x ∷ []) = inr (ground arith)
    two (x ∷ y ∷ l) = elim (Bool-cases (x == b'/')) [
      | inr e ↦ inr (rw e refl)
      | inl e ↦ elim (Bool-cases (y == b'/')) [
        | inr f ↦ inr (ground arith)
        | inl f ↦ inl (l, rw ((==_iff x b'/').0 e, (==_iff y b'/').0 f) refl)
      ]
    ]

-- What comes next is a colon, or is not.
pub at_peek : (pre l : Bytes) → ((t : Bytes) × (l ≡ b':' ∷ t)) ⊎ (peek_is (at pre l) b':' ≡ false)
at_peek pre [] = inr (peek_is-at_nil pre b':')
at_peek pre (x ∷ l) = elim (Bool-cases (x == b':')) [
  | inl e ↦ inl (l, ap (λ x. x ∷ l) ((==_iff x b':').0 e))
  | inr e ↦ inr (peek_is-at_cons pre l x b':' ∙ e)
]
