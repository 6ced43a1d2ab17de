-- ===== src/Reader/V6/Segments.antt =====
-- `read_v6_segment` of src/parser.rs, in front of the end of the input, or of a byte that no address contains.
use mathlib.Core.Path.{ap₂}
use fluent_uri_rs.Base.{
  Option, sym, ◌⊎◌, ℕ, Bool, true, false, not, none, some, [], ◌∷◌, ◌++◌, append-nil, append_assoc,
  ◌==◌, if◌then◌else◌, Bytes, starts_with, Bool-cases, ==_iff, ◌≡◌, refl, ap, ◌∙◌, inl, inr, arith,
}
use fluent_uri_rs.Encoding.{octet_table_lo}
use fluent_uri_rs.Reader.{Reader, skip, peek, read_str}
use fluent_uri_rs.Grammar.{IsH16}
use fluent_uri_rs.Reader.V6.{
  Seg, normal, maybe_v4, ellipsis, single_colon, read_v6_digits, read_v6_segment,
}
use fluent_uri_rs.Reader.View.{at, peek-at, at-skip, read_str-hit, read_str-miss}
use fluent_uri_rs.Reader.V6.Runs.{is_hex, TailIs, Passes, DigitShape, hex_word, digits-Passes}

-- The branches of `read_v6_segment`.
module _ (r0 : Reader) {colon : Bool} {r : Reader} (e : read_str (b':' ∷ []) r0 ≡ (colon, r)) where
  segment_none :
      peek r 0 ≡ none → read_v6_segment r0 ≡ (if colon then some single_colon else none, r)
  unfolding read_v6_segment
  segment_none p = rw (read_v6_segment, e, p) (rw e refl)

  segment_digits :
      (b : ℕ)
      → peek r 0 ≡ some b
      → is_hex b ≡ true
      → read_v6_segment r0 ≡ read_v6_digits 3 1 (octet_table_lo b) colon r
  unfolding read_v6_segment read_v6_digits
  segment_digits b p h = rw (read_v6_segment, e, p, h) (rw e refl)

  segment_other :
      (b : ℕ)
      → peek r 0 ≡ some b
      → is_hex b ≡ false
      → read_v6_segment r0 ≡ (
          if not colon
          then (none, r)
          else if b == b':'
          then (some ellipsis, skip 1 r)
          else (some single_colon, r))
  unfolding read_v6_segment
  segment_other b p h = rw (read_v6_segment, e, p, h) (rw e refl)

colon_miss : (e : Bool) (tail : Bytes) → TailIs e tail → starts_with tail (b':' ∷ []) ≡ false
colon_miss true tail t = rw t refl
colon_miss false [] t = elim t [ ]
colon_miss false (x ∷ tail) t = ground (arith, t)

-- Where nothing is left of `h`, without and with a colon read.
end_plain :
    (e : Bool) (pre tail : Bytes)
    → TailIs e tail
    → read_v6_segment (at pre tail) ≡ (none, at pre tail)
end_plain true pre tail t =
    segment_none (at pre tail) (read_str-miss pre (b':' ∷ []) tail (colon_miss true tail t))
      (peek-at pre tail 0 ∙ rw t refl)
end_plain false pre [] t = elim t [ ]
end_plain false pre (x ∷ tail) t =
    segment_other (at pre (x ∷ tail))
      (read_str-miss pre (b':' ∷ []) (x ∷ tail) (colon_miss false (x ∷ tail) t)) x
      (peek-at pre (x ∷ tail) 0) (ground (arith, t))

end_colon :
    (e : Bool) (pre tail : Bytes)
    → TailIs e tail
    → read_v6_segment (at pre (b':' ∷ tail)) ≡ (some single_colon, at (pre ++ (b':' ∷ [])) tail)
end_colon true pre tail t =
    segment_none _ (read_str-hit pre (b':' ∷ []) tail)
      (peek-at (pre ++ (b':' ∷ [])) tail 0 ∙ rw t refl)
end_colon false pre [] t = elim t [ ]
end_colon false pre (x ∷ tail) t =
    let other : (x == b':') ≡ false = ground (arith, t) in
    segment_other _ (read_str-hit pre (b':' ∷ []) (x ∷ tail)) x
      (peek-at (pre ++ (b':' ∷ [])) (x ∷ tail) 0) (ground (arith, t))
    ∙ rw other refl

-- A piece, with the colon in front of it.
abbrev pub lead : Bool → Bytes → Bytes
lead colon g = if colon then b':' ∷ g else g

-- What has been passed over for a segment.
abbrev pub SegShape : Bool → Option Seg → Bytes → Type 0
SegShape e none w = (e ≡ true) ⊎ (w ≡ [])
SegShape e (some (normal x c)) w = (g : Bytes) × IsH16 g × (w ≡ lead c g)
SegShape e (some (maybe_v4 c)) w = w ≡ lead c []
SegShape e (some ellipsis) w = w ≡ b':' ∷ b':' ∷ []
SegShape e (some single_colon) w = Unit

digit_shape :
    (e colon : Bool) (o : Option Seg) (w : Bytes)
    → DigitShape e colon o w
    → SegShape e o (lead colon w)
digit_shape e colon none w s = inl s
digit_shape e colon (some (normal x c)) w (q, h) = (w, h, ap (λ c. lead c w) (sym q))
digit_shape e colon (some (maybe_v4 c)) w (q, h) = ap₂ lead (sym q) h
digit_shape e colon (some ellipsis) w s = absurd s
digit_shape e colon (some single_colon) w s = absurd s

after_colon : (e : Bool) (h : Bytes) → Passes e (SegShape e) read_v6_segment (b':' ∷ h)
after_colon e [] = record {
  res = some single_colon;
  shape = tt;
  front = b':' ∷ [];
  back = [];
  splits = refl;
  runs = λ pre tail t. end_colon e pre tail t;
}
after_colon e (b ∷ h) = elim (Bool-cases (is_hex b)) [
  | inl hex ↦
      let m =
        digits-Passes e 3 (octet_table_lo b) true (b ∷ []) h (hex_word b hex) (omega arith) refl in
      record {
        res = m.res;
        shape = digit_shape e true m.res m.front m.shape;
        front = b':' ∷ m.front;
        back = m.back;
        splits = ap (◌∷◌ b':') m.splits;
        runs = λ pre tail t.
            segment_digits _ (read_str-hit pre (b':' ∷ []) (b ∷ (h ++ tail))) b
              (peek-at (pre ++ (b':' ∷ [])) (b ∷ (h ++ tail)) 0) hex
            ∙ m.runs (pre ++ (b':' ∷ [])) tail t
            ∙ ap (λ l. (m.res, at l (m.back ++ tail))) (append_assoc pre (b':' ∷ []) m.front);
      }
  | inr no_hex ↦ elim (Bool-cases (b == b':')) [
    | inl c ↦ record {
      res = some ellipsis;
      shape = ap (λ b. b':' ∷ b ∷ []) ((==_iff b b':').0 c);
      front = b':' ∷ b ∷ [];
      back = h;
      splits = refl;
      runs = λ pre tail t.
          segment_other _ (read_str-hit pre (b':' ∷ []) (b ∷ (h ++ tail))) b
            (peek-at (pre ++ (b':' ∷ [])) (b ∷ (h ++ tail)) 0) no_hex
          ∙ rw c (
              ap (λ r. (some ellipsis, r))
                (at-skip (pre ++ (b':' ∷ [])) (b ∷ []) (h ++ tail)
                  ∙ ap (λ l. at l (h ++ tail)) (append_assoc pre (b':' ∷ []) (b ∷ []))));
    }
    | inr c ↦ record {
      res = some single_colon;
      shape = tt;
      front = b':' ∷ [];
      back = b ∷ h;
      splits = refl;
      runs = λ pre tail t.
          segment_other _ (read_str-hit pre (b':' ∷ []) (b ∷ (h ++ tail))) b
            (peek-at (pre ++ (b':' ∷ [])) (b ∷ (h ++ tail)) 0) no_hex
          ∙ rw c refl;
    }
  ]
]

pub segment-Passes : (e : Bool) (h : Bytes) → Passes e (SegShape e) read_v6_segment h
segment-Passes e [] = record {
  res = none;
  shape = inr refl;
  front = [];
  back = [];
  splits = refl;
  runs = λ pre tail t. rw (append-nil pre) (end_plain e pre tail t);
}
segment-Passes e (b ∷ h) = elim (Bool-cases (b == b':')) [
  | inl c ↦ rw ((==_iff b b':').0 c) (after_colon e h)
  | inr c ↦ elim (Bool-cases (is_hex b)) [
    | inl hex ↦
        let m =
          digits-Passes e 3 (octet_table_lo b) false (b ∷ []) h (hex_word b hex) (omega arith)
            refl in
        record {
          res = m.res;
          shape = digit_shape e false m.res m.front m.shape;
          front = m.front;
          back = m.back;
          splits = m.splits;
          runs = λ pre tail t.
              segment_digits _ (read_str-miss pre (b':' ∷ []) (b ∷ (h ++ tail)) (rw c refl)) b
                (peek-at pre (b ∷ (h ++ tail)) 0) hex
              ∙ m.runs pre tail t;
        }
    | inr no_hex ↦ record {
      res = none;
      shape = inr refl;
      front = [];
      back = b ∷ h;
      splits = refl;
      runs = λ pre tail t.
          segment_other _ (read_str-miss pre (b':' ∷ []) (b ∷ (h ++ tail)) (rw c refl)) b
            (peek-at pre (b ∷ (h ++ tail)) 0) no_hex
          ∙ rw (append-nil pre) refl;
    }
  ]
]
