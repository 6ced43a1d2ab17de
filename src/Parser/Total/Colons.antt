-- ===== src/Parser/Total/Colons.antt =====
-- The third branch of `parse_from_authority` of src/parser.rs: the colons of a text that may be userinfo.
use fluent_uri_rs.Base.{
  ℕ, suc, ◌+◌, Option, none, some, [], ◌∷◌, ◌++◌, append_assoc, Bytes, length, length-append,
  is_ascii_digit, slice, Bool-cases, ◌≡◌, refl, sym, ap, ◌∙◌, ◌⊎◌, inl, inr, arith,
}
use fluent_uri_rs.Error.{ok, err, ParseErrorKind, unexpected_char}
use fluent_uri_rs.Net.{AuthMeta}
use fluent_uri_rs.Parser.{note_colon, check_port, split_authority}
use fluent_uri_rs.Parser.Authority.{scan-named, colon-reg_name, split-none, split-some, port_slice}
use fluent_uri_rs.Reader.{Reader}
use fluent_uri_rs.Reader.Reads.{scan}
use fluent_uri_rs.Reader.Total.{Fails}
use fluent_uri_rs.Reader.V4.{parse_v4_or_reg_name}
use fluent_uri_rs.Reader.View.{at}
use fluent_uri_rs.Spec.{OnSome, write_port}
use fluent_uri_rs.Table.Consts
use fluent_uri_rs.Table.Relate.{allows-digit}
use fluent_uri_rs.Table.Validate.{Valid, nil, byte}
use fluent_uri_rs.Parser.Total.Scan.{first-Colon, scan-colon, scan-many}

-- The port is checked byte by byte.
check_port-total :
    (p : Bytes) (i : ℕ) → (Valid Consts.digit p) ⊎ Fails (i + length p) (check_port p i)
unfolding check_port
check_port-total [] i = inl nil
check_port-total (x ∷ p) i = elim (Bool-cases (is_ascii_digit x)) [
  | inr n ↦ inr (i, unexpected_char, rw n refl, omega arith)
  | inl d ↦ elim (check_port-total p (i + 1)) [
    | inl v ↦ inl (byte (ground (arith, d)) (allows-digit x ∙ d) v)
    | inr (j, k, e, h) ↦ inr (j, k, rw d e, omega (arith, h))
  ]
]

-- The ways to fail.
bad_port :
    (start n : ℕ) (r : Reader) {i : ℕ} {k : ParseErrorKind}
    → check_port (slice (n + 1) r.pos r.bytes) (n + 1) ≡ err i k
    → split_authority start (1, n) r ≡ err i k
unfolding split_authority
bad_port start n r e = rw e refl

many_colons :
    (start n c : ℕ) (r : Reader) → split_authority start (suc (suc n), c) r ≡ err c unexpected_char
unfolding split_authority
many_colons start n c r = refl

-- A name and a port or none.
pub record NameRead (pre w tail : Bytes) : Type 0 where
  pub host : Bytes
  pub port : Option Bytes
  pub meta : AuthMeta
  pub host_valid : Valid Consts.reg_name host
  pub port_valid : OnSome (Valid Consts.digit) port
  pub splits : w ++ tail ≡ host ++ write_port port tail
  pub runs :
      split_authority (length pre) (scan note_colon w (length pre) (0, 0)) (at (pre ++ w) tail)
      ≡ ok (meta, at (pre ++ w) tail)

abbrev Outcome : Bytes → Bytes → Bytes → Type 0
Outcome pre w tail =
    NameRead pre w tail
    ⊎ Fails (length pre + length w)
        (split_authority (length pre) (scan note_colon w (length pre) (0, 0)) (at (pre ++ w) tail))

only_name : (pre w tail : Bytes) → Valid Consts.reg_name w → NameRead pre w tail
only_name pre w tail v = record {
  host = w;
  port = none;
  meta = record {
    host_bounds = (length pre, length pre + length w);
    host_meta = parse_v4_or_reg_name w;
  };
  host_valid = v;
  port_valid = tt;
  splits = refl;
  runs =
      ap (λ s. split_authority (length pre) s (at (pre ++ w) tail))
        (scan-named (length pre) (0, 0) colon-reg_name v)
      ∙ split-none pre w tail;
}

name_length : (h p : Bytes) → length (h ++ (b':' ∷ p)) ≡ length h + 1 + length p
name_length h p = length-append h (b':' ∷ p) ∙ omega arith

with_port :
    (pre h p tail : Bytes)
    → Valid Consts.reg_name h
    → Valid Consts.reg_name p
    → Outcome pre (h ++ (b':' ∷ p)) tail
with_port pre h p tail v u =
    let w = h ++ (b':' ∷ p) in
    let once : scan note_colon w (length pre) (0, 0) ≡ (1, length pre + length h) =
      scan-colon h p (length pre) 0 0 v
      ∙ scan-named (length pre + length h + 1) (1, length pre + length h) colon-reg_name u in
    let counted = ap (λ s. split_authority (length pre) s (at (pre ++ w) tail)) once in
    elim (check_port-total p (length pre + length h + 1)) [
      | inl d ↦ inl (record {
        host = h;
        port = some p;
        meta = record {
          host_bounds = (length pre, length pre + length h);
          host_meta = parse_v4_or_reg_name h;
        };
        host_valid = v;
        port_valid = d;
        splits = append_assoc h (b':' ∷ p) tail;
        runs = counted ∙ split-some pre h p tail d;
      })
      | inr (i, k, e, g) ↦ inr (
        i,
        k,
        counted
            ∙ bad_port (length pre) (length pre + length h) (at (pre ++ w) tail)
                (ap (λ s. check_port s (length pre + length h + 1)) (port_slice pre h p tail) ∙ e),
        omega (arith, g, name_length h p),
      )
    ]

too_many :
    (pre h g p tail : Bytes)
    → Valid Consts.reg_name h
    → Valid Consts.reg_name g
    → Outcome pre (h ++ (b':' ∷ (g ++ (b':' ∷ p)))) tail
too_many pre h g p tail v u =
    let w = h ++ (b':' ∷ (g ++ (b':' ∷ p))) in
    let i = length pre + length h + 1 in
    let (n, c, e, b) = scan-many p (i + length g + 1) 0 (i + length g) (omega arith) in
    let twice : scan note_colon w (length pre) (0, 0) ≡ (suc (suc n), c) =
      scan-colon h (g ++ (b':' ∷ p)) (length pre) 0 0 v
      ∙ scan-colon g p i 1 (length pre + length h) u
      ∙ e in
    inr (
      c,
      unexpected_char,
      ap (λ s. split_authority (length pre) s (at (pre ++ w) tail)) twice
          ∙ many_colons (length pre) n c (at (pre ++ w) tail),
      omega (arith, b, name_length h (g ++ (b':' ∷ p)), name_length g p),
    )

pub name_total : (pre w tail : Bytes) → Valid Consts.userinfo w → Outcome pre w tail
name_total pre w tail v = elim (first-Colon v) [
  | inl u ↦ inl (only_name pre w tail u)
  | inr c ↦ elim (first-Colon c.rest_valid) [
    | inl u ↦ by c.splits (with_port pre c.host c.rest tail c.host_valid u)
    | inr d ↦
        by (c.splits ∙ ap (λ r. c.host ++ (b':' ∷ r)) d.splits)
          (too_many pre c.host d.host d.rest tail c.host_valid d.host_valid)
  ]
]
  where
    by : {w' : Bytes} → w ≡ w' → Outcome pre w' tail → Outcome pre w tail
    by e o = mathlib.Core.Path.subst (λ w. Outcome pre w tail) (sym e) o
