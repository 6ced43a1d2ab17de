-- ===== src/Reader/HostReads.antt =====
-- What the methods for hosts and ports return in front of the rest of an authority.
use mathlib.Core.Path.{ap₂, subst}
use fluent_uri_rs.Base.{
  ◌⊎◌, inl, inr, ℕ, ◌+◌, Bool, true, false, ◌||◌, Option, none, some, [], ◌∷◌, ◌++◌, append-nil,
  append_assoc, ◌==◌, Bytes, length, is_ascii_digit, starts_with, ◌≡◌, refl, sym, ap, ◌∙◌, arith,
}
use fluent_uri_rs.Error.{ok}
use fluent_uri_rs.Reader.{Reader, new, read, has_remaining}
use fluent_uri_rs.Reader.Host.{v4_or_reg_name, read_v4_or_reg_name}
use fluent_uri_rs.Reader.Reads.{is_nonempty, read-Valid}
use fluent_uri_rs.Reader.Span.{Stops}
use fluent_uri_rs.Net.{ipv4, reg_name}
use fluent_uri_rs.Reader.V4.{read_v4, whole_v4, parse_v4_or_reg_name, port_loop, read_port}
use fluent_uri_rs.Reader.V4Runs.{V4Shape, v4-Runs}
use fluent_uri_rs.Grammar.{IsIpv4}
use fluent_uri_rs.Reader.V4Octet.{V4Stops, IsDotted}
use fluent_uri_rs.Reader.View.{
  at, remaining-at, at-skip, has_remaining-at_nil, has_remaining-at_cons, read_str-hit,
  read_str-miss,
}
use fluent_uri_rs.Table.{Table}
use fluent_uri_rs.Table.Consts
use fluent_uri_rs.Table.Facts
use fluent_uri_rs.Table.Relate.{allows-digit}
use fluent_uri_rs.Table.Validate.{Valid, nil, byte, octet}

Valid-tail : {t : Table} {x : ℕ} {l : Bytes} → (x == b'%') ≡ false → Valid t (x ∷ l) → Valid t l
Valid-tail h (byte n a v) = v
Valid-tail h (octet e a b v) = cc

dotted-ne : (x : ℕ) → (is_ascii_digit x || x == b'.') ≡ true → (x == b'%') ≡ false
dotted-ne x h = ground arith

-- Digits and dots may be taken off the front of a word.
pub Valid-drop : {t : Table} (w : Bytes) {l : Bytes} → IsDotted w → Valid t (w ++ l) → Valid t l
Valid-drop [] d v = v
Valid-drop (x ∷ w) (dx, d) v = Valid-drop w d (Valid-tail (dotted-ne x dx) v)

has_remaining-at : (pre l : Bytes) → has_remaining (at pre l) ≡ is_nonempty l
has_remaining-at pre [] = has_remaining-at_nil pre
has_remaining-at pre (x ∷ l) = has_remaining-at_cons pre x l

whole_v4-same :
    (res : Option ℕ) (front back : Bytes)
    → v4_or_reg_name res (is_nonempty back) ≡ whole_v4 (res, at front back)
unfolding v4_or_reg_name whole_v4
whole_v4-same none front back = refl
whole_v4-same (some a) front [] = rw (has_remaining-at_nil front)
whole_v4-same (some a) front (x ∷ l) = rw (has_remaining-at_cons front x l)

parse_by :
    (h : Bytes) {o : Option ℕ × Reader} → read_v4 (new h) ≡ o → parse_v4_or_reg_name h ≡ whole_v4 o
unfolding parse_v4_or_reg_name
parse_by h e = ap whole_v4 e

by_parts :
    (r : Reader) {addr : Option ℕ} {r1 r2 : Reader} {more : Bool}
    → read_v4 r ≡ (addr, r1)
    → read Consts.reg_name r1 ≡ ok (more, r2)
    → read_v4_or_reg_name r ≡ ok (v4_or_reg_name addr more, r2)
unfolding read_v4_or_reg_name
by_parts r e f = rw (e, f)

-- What is classified as an address is one of the grammar, and has digits and dots only.
pub parse_v4_or_reg_name_cases :
    (h : Bytes)
    → ((addr : ℕ) × (parse_v4_or_reg_name h ≡ ipv4 addr) × IsIpv4 h × IsDotted h)
      ⊎ (parse_v4_or_reg_name h ≡ reg_name)
unfolding whole_v4 v4_or_reg_name
parse_v4_or_reg_name_cases h =
    let o = v4-Runs h in
    let alone : read_v4 (new h) ≡ (o.res, at o.front o.back) =
      ap (λ l. read_v4 (new l)) (sym (append-nil h))
      ∙ o.runs [] [] tt
      ∙ ap (λ l. (o.res, at o.front l)) (append-nil o.back) in
    by o.res o.front o.back o.shape o.dotted o.splits
      (parse_by h alone ∙ sym (whole_v4-same o.res o.front o.back))
  where
    by :
        (res : Option ℕ) (front back : Bytes)
        → V4Shape res front
        → IsDotted front
        → h ≡ front ++ back
        → parse_v4_or_reg_name h ≡ v4_or_reg_name res (is_nonempty back)
        → ((addr : ℕ) × (parse_v4_or_reg_name h ≡ ipv4 addr) × IsIpv4 h × IsDotted h)
          ⊎ (parse_v4_or_reg_name h ≡ reg_name)
    by (some a) front [] v d s e =
        let whole : front ≡ h = sym (s ∙ append-nil front) in
        inl (a, e, subst IsIpv4 whole v, subst IsDotted whole d)
    by none front back v d s e = inr e
    by (some a) front (x ∷ back) v d s e = inr e

-- A registered name is read whole, and classified as it is on its own.
pub read_v4_or_reg_name-at :
    {h : Bytes} (pre tail : Bytes)
    → Valid Consts.reg_name h
    → V4Stops tail
    → Stops Consts.reg_name tail
    → read_v4_or_reg_name (at pre (h ++ tail)) ≡ ok (parse_v4_or_reg_name h, at (pre ++ h) tail)
read_v4_or_reg_name-at {h} pre tail v s t =
    let o = v4-Runs h in
    let back_valid = Valid-drop o.front o.dotted (subst (Valid Consts.reg_name) o.splits v) in
    let rest = read-Valid (pre ++ o.front) tail Facts.reg_name-IsTable back_valid t in
    let alone : read_v4 (new h) ≡ (o.res, at o.front o.back) =
      ap (λ l. read_v4 (new l)) (sym (append-nil h))
      ∙ o.runs [] [] tt
      ∙ ap (λ l. (o.res, at o.front l)) (append-nil o.back) in
    let meta : v4_or_reg_name o.res (is_nonempty o.back) ≡ parse_v4_or_reg_name h =
      whole_v4-same o.res o.front o.back ∙ sym (parse_by h alone) in
    let end : at ((pre ++ o.front) ++ o.back) tail ≡ at (pre ++ h) tail =
      ap (λ l. at l tail) (append_assoc pre o.front o.back ∙ ap (λ l. pre ++ l) (sym o.splits)) in
    by_parts (at pre (h ++ tail)) (o.runs pre tail s) rest ∙ ap₂ (λ m r. ok (m, r)) meta end

-- The port, or nothing, in front of what is no digit.
port_loop-digits :
    {w : Bytes} (l : Bytes) (i : ℕ)
    → Valid Consts.digit w
    → Stops Consts.digit l
    → port_loop (w ++ l) i ≡ i + length w
unfolding port_loop
port_loop-digits [] i nil s = omega arith
port_loop-digits (x ∷ l) i nil s = ground (arith, allows-digit x)
port_loop-digits l i (byte {x} n a v) s =
    rw (sym (allows-digit x) ∙ a) (port_loop-digits l (i + 1) v s ∙ omega arith)
port_loop-digits l i (octet e a b v) s = absurd (no_octet e)
  where
    no_octet : (Consts.digit).allows_enc ≡ true → ⊥
    no_octet e = unfold Consts.digit in cc

pub read_port-some :
    {w : Bytes} (pre l : Bytes)
    → Valid Consts.digit w
    → Stops Consts.digit l
    → read_port (at pre (b':' ∷ (w ++ l))) ≡ at (pre ++ (b':' ∷ w)) l
unfolding read_port
read_port-some {w} pre l v s =
    let mid = pre ++ (b':' ∷ []) in
    rw (read_str-hit pre (b':' ∷ []) (w ++ l), remaining-at mid (w ++ l), port_loop-digits l 0 v s)
      (let none_before : 0 + length w ≡ length w = omega arith in
        rw none_before (at-skip mid w l ∙ ap (λ m. at m l) (append_assoc pre (b':' ∷ []) w)))

pub read_port-none :
    (pre l : Bytes) → starts_with l (b':' ∷ []) ≡ false → read_port (at pre l) ≡ at pre l
unfolding read_port
read_port-none pre l h = rw (read_str-miss pre (b':' ∷ []) l h)
