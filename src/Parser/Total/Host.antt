-- ===== src/Parser/Total/Host.antt =====
-- `read_host` and `read_port` of src/parser.rs on every input.
use fluent_uri_rs.Base.{
  ℕ, ◌+◌, true, false, Option, none, some, [], ◌∷◌, ◌++◌, append-nil, ◌==◌, Bytes, length,
  length-append, is_ascii_digit, Bool-cases, ==_iff, ◌≡◌, refl, sym, ap, ◌∙◌, ◌⊎◌, inl, inr, arith,
}
use fluent_uri_rs.Error.{ok, err, ParseErrorKind, invalid_octet}
use fluent_uri_rs.Net.{HostMeta}
use fluent_uri_rs.Parser.Host.{literal_miss, host_by, host_by_name, port_text}
use fluent_uri_rs.Reader.{Reader, read}
use fluent_uri_rs.Reader.Host.{read_v4_or_reg_name, read_ip_literal, read_host}
use fluent_uri_rs.Reader.Host.Total.{Literal-total}
use fluent_uri_rs.Reader.HostReads.{
  Valid-drop, read_v4_or_reg_name-at, read_port-some, read_port-none,
}
use fluent_uri_rs.Reader.Reads.{read-broken}
use fluent_uri_rs.Reader.Span.{Stops, Span, Broken, split}
use fluent_uri_rs.Reader.Total.{Fails, Fails-by, length-splits, starts_with_cases, plain_span}
use fluent_uri_rs.Reader.V4.{read_v4, read_port, parse_v4_or_reg_name}
use fluent_uri_rs.Reader.V4Runs.{v4-Runs}
use fluent_uri_rs.Reader.V4Octet.{V4Stops}
use fluent_uri_rs.Reader.View.{at}
use fluent_uri_rs.Spec.{OnSome, write_port, IsHost, named}
use fluent_uri_rs.Table.{allows, is_subset}
use fluent_uri_rs.Table.Consts
use fluent_uri_rs.Table.Facts
use fluent_uri_rs.Table.Laws.{allows-is_subset}
use fluent_uri_rs.Table.Relate.{allows-digit}
use fluent_uri_rs.Table.Validate.{Valid}
use mathlib.Core.Path.{subst}

-- A host, in front of `tail`.
pub record Host (pre l : Bytes) : Type 0 where
  pub host : Bytes
  pub meta : HostMeta
  pub tail : Bytes
  pub is_host : IsHost host meta
  pub splits : l ≡ host ++ tail
  pub runs : read_host (at pre l) ≡ ok (meta, at (pre ++ host) tail)

digit_in_reg_name : (x : ℕ) → allows Consts.digit x ≡ true → allows Consts.reg_name x ≡ true
unfolding is_subset Consts.digit Consts.reg_name
digit_in_reg_name = allows-is_subset Consts.reg_name Facts.digit-IsTable refl

dot_in_reg_name : allows Consts.reg_name b'.' ≡ true
unfolding allows Consts.reg_name
dot_in_reg_name = refl

-- Digits and dots are characters of a name.
name-V4Stops : (l : Bytes) → Stops Consts.reg_name l → V4Stops l
name-V4Stops [] s = tt
name-V4Stops (x ∷ l) s =
    let out : allows Consts.reg_name x ≡ false = ground (arith, s) in (no_digit out, no_dot out)
  where
    no_digit : allows Consts.reg_name x ≡ false → is_ascii_digit x ≡ false
    no_digit out = elim (Bool-cases (is_ascii_digit x)) [
      | inl d ↦
          absurd (let c : true ≡ false = sym (digit_in_reg_name x (allows-digit x ∙ d)) ∙ out in cc)
      | inr d ↦ d
    ]

    no_dot : allows Consts.reg_name x ≡ false → (x == b'.') ≡ false
    no_dot out = elim (Bool-cases (x == b'.')) [
      | inl d ↦ absurd (
          let c : true ≡ false =
            sym dot_in_reg_name ∙ sym (ap (allows Consts.reg_name) ((==_iff x b'.').0 d)) ∙ out in
          cc)
      | inr d ↦ d
    ]

name_fails :
    (r : Reader) {addr : Option ℕ} {r1 : Reader} {i : ℕ} {k : ParseErrorKind}
    → read_v4 r ≡ (addr, r1)
    → read Consts.reg_name r1 ≡ err i k
    → read_v4_or_reg_name r ≡ err i k
unfolding read_v4_or_reg_name
name_fails r e f = rw (e, f) refl

no_literal : (r : Reader) → read_ip_literal r ≡ ok (none, r) → read_host r ≡ read_v4_or_reg_name r
unfolding read_host
no_literal r e = rw e refl

literal_fails :
    (r : Reader) {i : ℕ} {k : ParseErrorKind} → read_ip_literal r ≡ err i k → read_host r ≡ err i k
unfolding read_host
literal_fails r e = rw e refl

reg_name_enc : (Consts.reg_name).allows_enc ≡ true
unfolding Consts.reg_name
reg_name_enc = refl

broken_name :
    (pre l : Bytes)
    → Broken Consts.reg_name l
    → Fails (length pre + length l) (read_v4_or_reg_name (at pre l))
broken_name pre l b =
    let o = v4-Runs b.word in
    let left = b'%' ∷ b.tail in
    let valid = Valid-drop o.front o.dotted (subst (Valid Consts.reg_name) o.splits b.valid) in
    (
      length (pre ++ o.front) + length o.back,
      invalid_octet,
      ap (λ l. read_v4_or_reg_name (at pre l)) b.splits
          ∙ name_fails _ (o.runs pre left (refl, refl))
              (read-broken (pre ++ o.front) b.tail reg_name_enc valid b.broken),
      omega (
        arith,
        length-splits b.word left b.splits,
        length-splits o.front o.back o.splits,
        length-append pre o.front,
      ),
    )

named_host :
    (pre l : Bytes)
    → read_ip_literal (at pre l) ≡ ok (none, at pre l)
    → Span Consts.reg_name l ⊎ Broken Consts.reg_name l
    → Host pre l ⊎ Fails (length pre + length l) (read_host (at pre l))
named_host pre l e (inr b) = inr (Fails-by (no_literal _ e) (broken_name pre l b))
named_host pre l e (inl s) = inl (record {
  host = s.word;
  meta = parse_v4_or_reg_name s.word;
  tail = s.tail;
  is_host = named s.valid refl;
  splits = s.splits;
  runs = host_by_name _ e (
      ap (λ l. read_v4_or_reg_name (at pre l)) s.splits
      ∙ read_v4_or_reg_name-at pre s.tail s.valid (name-V4Stops s.tail s.stops) s.stops);
})

pub host_total : (pre l : Bytes) → Host pre l ⊎ Fails (length pre + length l) (read_host (at pre l))
host_total pre l = elim (Literal-total pre l) [
  | inl m ↦ inl (record {
    host = m.host;
    meta = m.meta;
    tail = m.tail;
    is_host = m.is_host;
    splits = m.splits;
    runs = host_by _ m.runs;
  })
  | inr (inl s) ↦
      named_host pre l (literal_miss pre l s) (split Consts.reg_name l Facts.reg_name-IsTable)
  | inr (inr (i, k, e, h)) ↦ inr (i, k, literal_fails _ e, h)
]

-- A port or none, in front of `tail`.
pub record Port (pre l : Bytes) : Type 0 where
  pub port : Option Bytes
  pub tail : Bytes
  pub valid : OnSome (Valid Consts.digit) port
  pub splits : l ≡ write_port port tail
  pub runs : read_port (at pre l) ≡ at (pre ++ port_text port) tail

pub Port-total : (pre l : Bytes) → Port pre l
Port-total pre l = elim (starts_with_cases b':' l) [
  | inr miss ↦ record {
    port = none;
    tail = l;
    valid = tt;
    splits = refl;
    runs = read_port-none pre l miss ∙ ap (λ q. at q l) (sym (append-nil pre));
  }
  | inl (t, e) ↦
      let s = plain_span Consts.digit t Facts.digit-IsTable digit_enc in
      record {
        port = some s.word;
        tail = s.tail;
        valid = s.valid;
        splits = e ∙ ap (◌∷◌ b':') s.splits;
        runs =
            ap (λ l. read_port (at pre l)) (e ∙ ap (◌∷◌ b':') s.splits)
            ∙ read_port-some pre s.tail s.valid s.stops;
      }
]
  where
    digit_enc : (Consts.digit).allows_enc ≡ false
    digit_enc = unfold Consts.digit in refl
