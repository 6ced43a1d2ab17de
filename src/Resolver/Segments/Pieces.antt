-- ===== src/Resolver/Segments/Pieces.antt =====
-- The pieces of `split_inclusive` of a path, in src/resolver.rs.
use mathlib.Core.Path.{subst}
use fluent_uri_rs.Base.{
  ℕ, ◌+◌, true, false, none, some, List, [], ◌∷◌, ◌++◌, ◌==◌, Bytes, Bool-cases, ==_iff, ◌≡◌, refl,
  sym, ap, ◌∙◌, inl, inr,
}
use fluent_uri_rs.Resolver.Segments.{
  double_dot, normal, strip_slash, classify_segment, rfind, cons_piece, split_inclusive,
}
use fluent_uri_rs.Table.{allows}
use fluent_uri_rs.Table.Consts
use fluent_uri_rs.Table.Validate.{Valid, nil, byte, octet}
use fluent_uri_rs.Resolver.Segments.Step.{rfind_cases, IsClosed, IsDir, hex_slash_absurd}

-- The segments of a path: all but the last are closed.
pub data Segs : List Bytes → Type 0 where
  no_more : Segs []
  last : (s : Bytes) → Segs (s ∷ [])
  more : {s : Bytes} {ss : List Bytes} → IsClosed s → Segs ss → Segs (s ∷ ss)

cons_piece-Segs : (x : ℕ) {ss : List Bytes} → Segs ss → Segs (cons_piece x ss)
unfolding cons_piece
cons_piece-Segs x no_more = last (x ∷ [])
cons_piece-Segs x (last s) = last (x ∷ s)
cons_piece-Segs x (more (a, e) r) = more (x ∷ a, ap (λ l. x ∷ l) e) r

at_slash :
    (x : ℕ) (p : Bytes)
    → (x == b'/') ≡ true
    → split_inclusive (x ∷ p) ≡ (b'/' ∷ []) ∷ split_inclusive p
unfolding split_inclusive
at_slash x p h =
    rw (split_inclusive, h) (ap (λ x. (x ∷ []) ∷ split_inclusive p) ((==_iff x b'/').0 h))

at_other :
    (x : ℕ) (p : Bytes)
    → (x == b'/') ≡ false
    → split_inclusive (x ∷ p) ≡ cons_piece x (split_inclusive p)
unfolding split_inclusive
at_other x p h = rw (split_inclusive, h) refl

pub split_inclusive-Segs : (p : Bytes) → Segs (split_inclusive p)
unfolding split_inclusive
split_inclusive-Segs [] = no_more
split_inclusive-Segs (x ∷ p) = elim (Bool-cases (x == b'/')) [
  | inl h ↦ rw (at_slash x p h) (more ([], refl) (split_inclusive-Segs p))
  | inr h ↦ rw (at_other x p h) (cons_piece-Segs x (split_inclusive-Segs p))
]

-- The last segment too leaves a directory behind.
abbrev pub Ends : List Bytes → Type 0
Ends [] = Unit
Ends (s ∷ []) = IsDir s
Ends (s ∷ t ∷ ss) = Ends (t ∷ ss)

pub Ends-tail : (s : Bytes) (ss : List Bytes) → Ends (s ∷ ss) → Ends ss
Ends-tail s [] e = tt
Ends-tail s (t ∷ ss) e = e

-- The pieces are valid.
abbrev pub AllValid : List Bytes → Type 0
AllValid [] = Unit
AllValid (s ∷ ss) = Valid Consts.path s × AllValid ss

cons_byte :
    (x : ℕ) (ss : List Bytes)
    → (x == b'%') ≡ false
    → allows Consts.path x ≡ true
    → AllValid ss
    → AllValid (cons_piece x ss)
unfolding cons_piece
cons_byte x [] n a v = (byte n a nil, tt)
cons_byte x (s ∷ ss) n a (v, w) = (byte n a v, w)

cons_octet :
    (hi lo : ℕ) (ss : List Bytes)
    → (Consts.path).allows_enc ≡ true
    → allows Consts.hexdig hi ≡ true
    → allows Consts.hexdig lo ≡ true
    → AllValid ss
    → AllValid (cons_piece b'%' (cons_piece hi (cons_piece lo ss)))
unfolding cons_piece
cons_octet hi lo [] e h k v = (octet e h k nil, tt)
cons_octet hi lo (s ∷ ss) e h k (v, w) = (octet e h k v, w)

hex_no_slash : (x : ℕ) → allows Consts.hexdig x ≡ true → (x == b'/') ≡ false
hex_no_slash x h = elim (Bool-cases (x == b'/')) [
  | inl e ↦ absurd (hex_slash_absurd ((==_iff x b'/').0 e) h)
  | inr e ↦ e
]

pub split_inclusive-AllValid : {p : Bytes} → Valid Consts.path p → AllValid (split_inclusive p)
unfolding split_inclusive
split_inclusive-AllValid nil = tt
split_inclusive-AllValid (byte {x} {w} n a v) = elim (Bool-cases (x == b'/')) [
  | inl h ↦ rw (at_slash x w h) (
    subst (λ c. Valid Consts.path (c ∷ [])) ((==_iff x b'/').0 h) (byte n a nil),
    split_inclusive-AllValid v,
  )
  | inr h ↦ rw (at_other x w h) (cons_byte x (split_inclusive w) n a (split_inclusive-AllValid v))
]
split_inclusive-AllValid (octet {hi} {lo} {w} e h k v) =
    rw
      (
        at_other b'%' (hi ∷ lo ∷ w) refl,
        at_other hi (lo ∷ w) (hex_no_slash hi h),
        at_other lo w (hex_no_slash lo k),
      )
      (cons_octet hi lo (split_inclusive w) e h k (split_inclusive-AllValid v))

-- A text with a slash in it has a closed piece first.
record FirstClosed (ss : List Bytes) : Type 0 where
  first : Bytes
  others : List Bytes
  splits : ss ≡ first ∷ others
  closed : IsClosed first
  ends : Ends others

cons_piece-FirstClosed : (x : ℕ) {ss : List Bytes} → FirstClosed ss → FirstClosed (cons_piece x ss)
unfolding cons_piece
cons_piece-FirstClosed x f = record {
  first = x ∷ f.first;
  others = f.others;
  splits = ap (cons_piece x) f.splits;
  closed = (x ∷ f.closed.0, ap (λ l. x ∷ l) f.closed.1);
  ends = f.ends;
}

FirstClosed-Ends : {ss : List Bytes} → FirstClosed ss → Ends ss
FirstClosed-Ends f = subst Ends (sym f.splits) (joined f.first f.others f.closed f.ends)
  where
    joined : (s : Bytes) (ss : List Bytes) → IsClosed s → Ends ss → Ends (s ∷ ss)
    joined s [] c e = inl c
    joined s (t ∷ ss) c e = e

split_inclusive-FirstClosed :
    (b c : Bytes) → Ends (split_inclusive c) → FirstClosed (split_inclusive (b ++ (b'/' ∷ c)))
split_inclusive-FirstClosed [] c e = record {
  first = b'/' ∷ [];
  others = split_inclusive c;
  splits = at_slash b'/' c refl;
  closed = ([], refl);
  ends = e;
}
split_inclusive-FirstClosed (x ∷ b) c e =
    let rest = split_inclusive-FirstClosed b c e in
    elim (Bool-cases (x == b'/')) [
      | inl h ↦ record {
        first = b'/' ∷ [];
        others = split_inclusive (b ++ (b'/' ∷ c));
        splits = at_slash x (b ++ (b'/' ∷ c)) h;
        closed = ([], refl);
        ends = FirstClosed-Ends rest;
      }
      | inr h ↦
          subst FirstClosed (sym (at_other x (b ++ (b'/' ∷ c)) h)) (cons_piece-FirstClosed x rest)
    ]

-- Behind a slash, what the last segment leaves is what the whole path leaves.
pub split_inclusive-Ends :
    (b c : Bytes) → Ends (split_inclusive c) → Ends (split_inclusive (b ++ (b'/' ∷ c)))
split_inclusive-Ends b c e = FirstClosed-Ends (split_inclusive-FirstClosed b c e)

-- A segment without a slash is one piece.
found_here : (x : ℕ) (c : Bytes) → rfind c ≡ none → (x == b'/') ≡ true → rfind (x ∷ c) ≡ some 0
unfolding rfind
found_here x c e s = rw (rfind, e, s) refl

found_behind : (x : ℕ) (c : Bytes) {i : ℕ} → rfind c ≡ some i → rfind (x ∷ c) ≡ some (i + 1)
unfolding rfind
found_behind x c e = rw (rfind, e) refl

none_next : (x : ℕ) (c : Bytes) → rfind (x ∷ c) ≡ none → (rfind c ≡ none) × ((x == b'/') ≡ false)
none_next x c h = elim (rfind_cases c) [
  | inr (b, d, e, f, n) ↦ absurd (let g = sym (found_behind x c e) ∙ h in cc)
  | inl e ↦ elim (Bool-cases (x == b'/')) [
    | inl s ↦ absurd (let g = sym (found_here x c e s) ∙ h in cc)
    | inr s ↦ (e, s)
  ]
]

one_piece : (x : ℕ) (c : Bytes) → rfind (x ∷ c) ≡ none → split_inclusive (x ∷ c) ≡ (x ∷ c) ∷ []
unfolding split_inclusive cons_piece
one_piece x [] h = at_other x [] (none_next x [] h).1
one_piece x (y ∷ c) h =
    let n = none_next x (y ∷ c) h in at_other x (y ∷ c) n.1 ∙ ap (cons_piece x) (one_piece y c n.0)

strip_slash-none : (c : Bytes) → rfind c ≡ none → strip_slash c ≡ c
unfolding strip_slash
strip_slash-none [] h = refl
strip_slash-none (x ∷ []) h = rw (none_next x [] h).1 refl
strip_slash-none (x ∷ y ∷ c) h =
    ap (λ l. x ∷ l) (strip_slash-none (y ∷ c) (none_next x (y ∷ c) h).0)

-- A last segment that goes up leaves a directory behind.
pub double_dot-Ends :
    (c : Bytes) → rfind c ≡ none → classify_segment c ≡ double_dot → Ends (split_inclusive c)
unfolding split_inclusive
double_dot-Ends [] h k = tt
double_dot-Ends (x ∷ c) h k = rw (one_piece x c h) (
    inr (λ n.
      let same : double_dot ≡ normal =
        sym k ∙ ap classify_segment (sym (strip_slash-none (x ∷ c) h)) ∙ n in
      cc))
