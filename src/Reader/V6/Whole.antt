-- ===== src/Reader/V6/Whole.antt =====
-- `read_v6` of src/parser.rs on a text that it takes up to a closing bracket.
use mathlib.Core.Path.{subst}
use fluent_uri_rs.Grammar.{IsIpv6}
use fluent_uri_rs.Base.{
  is_some, ℕ, false, Option, some, List, [], ◌∷◌, ◌++◌, append-nil, Bytes, length, length-append,
  ◌≡◌, refl, sym, ap, ◌∙◌, arith,
}
use fluent_uri_rs.Encoding.{octet_table_lo}
use fluent_uri_rs.Reader.{Reader, new}
use fluent_uri_rs.Reader.V6.{read_v6}
use fluent_uri_rs.Reader.V6.Loop.{v6-Passes}
use fluent_uri_rs.Reader.View.{at}

nothing_left : (l : Bytes) → length l ≡ 0 → l ≡ []
nothing_left [] e = refl
nothing_left (x ∷ l) e = absurd (omega (arith, e))

-- What is read up to a closing bracket is an IPv6 address of the grammar.
pub v6-IsIpv6 :
    (a : Bytes) {segs : List ℕ}
    → read_v6 (new (a ++ (b']' ∷ []))) ≡ (some segs, at a (b']' ∷ []))
    → IsIpv6 a
unfolding octet_table_lo
v6-IsIpv6 a {segs} h =
    let m = v6-Passes false a in
    let once : ◌≡◌ {A = Option (List ℕ) × Reader} (some segs, at a (b']' ∷ []))
        (m.res, at m.front (m.back ++ (b']' ∷ []))) =
      sym h ∙ m.runs [] (b']' ∷ []) refl in
    subst IsIpv6 (whole a m.front m.back m.splits (ap (λ p. p.1.pos) once))
      (m.shape refl (ap is_some (sym (ap (λ p. p.0) once))))
  where
    whole : (a front back : Bytes) → a ≡ front ++ back → length a ≡ length front → front ≡ a
    whole a front back s e =
        let none_left : back ≡ [] =
          nothing_left back (omega (arith, e, ap length s, length-append front back)) in
        sym (s ∙ ap (λ l. front ++ l) none_left ∙ append-nil front)

-- An address that is read in front of a closing bracket is read in front of every closing bracket,
-- whatever comes before it and behind it.
pub v6-everywhere :
    (a : Bytes) {segs : List ℕ}
    → read_v6 (new (a ++ (b']' ∷ []))) ≡ (some segs, at a (b']' ∷ []))
    → (pre tail : Bytes)
    → read_v6 (at pre (a ++ (b']' ∷ tail))) ≡ (some segs, at (pre ++ a) (b']' ∷ tail))
unfolding octet_table_lo
v6-everywhere a {segs} h pre tail =
    let m = v6-Passes false a in
    let once : ◌≡◌ {A = Option (List ℕ) × Reader} (some segs, at a (b']' ∷ []))
        (m.res, at m.front (m.back ++ (b']' ∷ []))) =
      sym h ∙ m.runs [] (b']' ∷ []) refl in
    let res : some segs ≡ m.res = ap (λ p. p.0) once in
    let same : length a ≡ length m.front = ap (λ p. p.1.pos) once in
    let none_left : m.back ≡ [] =
      nothing_left m.back (omega (arith, same, ap length m.splits, length-append m.front m.back)) in
    let front : m.front ≡ a =
      sym (m.splits ∙ ap (λ l. m.front ++ l) none_left ∙ append-nil m.front) in
    m.runs pre (b']' ∷ tail) refl ∙ rw (← res, none_left, front) refl
