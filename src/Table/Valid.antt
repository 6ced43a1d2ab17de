-- ===== src/Table/Valid.antt =====
-- `validate` of src/encoding/table.rs beside the inductive description of what is valid.
use fluent_uri_rs.Base.{
  ℕ, true, false, not, ◌&&◌, [], ◌∷◌, ◌==◌, Bytes, Bool-cases, ==_iff, ◌≡◌, refl, sym, ◌∙◌, ◌↔◌,
  inl, inr, arith, &&-eq-true,
}
use fluent_uri_rs.Table.{Table, allows}
use fluent_uri_rs.Table.Consts.{hexdig}
use fluent_uri_rs.Table.Laws.{IsTable, allows-ne}
use fluent_uri_rs.Table.Validate.{
  is_bad_octet, is_bad_octet_lem, validate_enc, validate_plain, validate, Valid, nil, byte, octet,
}

validate_enc-byte :
    (t : Table) (x : ℕ) (s : Bytes)
    → (x == b'%') ≡ false
    → validate_enc t (x ∷ s) ≡ (allows t x && validate_enc t s)
unfolding validate_enc
validate_enc-byte t x [] h = ground arith
validate_enc-byte t x (y ∷ []) h = ground arith
validate_enc-byte t x (y ∷ z ∷ s) h = ground arith

validate_enc-octet :
    (t : Table) (hi lo : ℕ) (s : Bytes)
    → validate_enc t (b'%' ∷ hi ∷ lo ∷ s) ≡ (not (is_bad_octet hi lo) && validate_enc t s)
unfolding validate_enc
validate_enc-octet t hi lo s = ground arith

-- What a true answer says of the first pattern.
validate_enc-Valid :
    (t : Table) (s : Bytes) → t.allows_enc ≡ true → validate_enc t s ≡ true → Valid t s
validate_enc-Valid t [] e h = nil
validate_enc-Valid t (x ∷ []) e h = elim (Bool-cases (x == b'%')) [
  | inl p ↦ absurd (unfold validate_enc in ground arith)
  | inr p ↦ byte p (unfold validate_enc in ground arith) nil
]
validate_enc-Valid t (x ∷ y ∷ []) e h = elim (Bool-cases (x == b'%')) [
  | inl p ↦ absurd (unfold validate_enc in ground arith)
  | inr p ↦
      let g = &&-eq-true _ _ (sym (validate_enc-byte t x (y ∷ []) p) ∙ h) in
      byte p g.0 (validate_enc-Valid t (y ∷ []) e g.1)
]
validate_enc-Valid t (x ∷ hi ∷ lo ∷ s) e h = elim (Bool-cases (x == b'%')) [
  | inl p ↦ rw ((==_iff x _).0 p) (
      let g =
        &&-eq-true (not (is_bad_octet hi lo)) (validate_enc t s)
          (sym (validate_enc-octet t hi lo s) ∙ rw ((==_iff x _).0 p) at h) in
      let d =
        &&-eq-true (allows hexdig hi) (allows hexdig lo)
          (ground (arith, g.0, is_bad_octet_lem hi lo)) in
      octet e d.0 d.1 (validate_enc-Valid t s e g.1))
  | inr p ↦
      let g = &&-eq-true _ _ (sym (validate_enc-byte t x (hi ∷ lo ∷ s) p) ∙ h) in
      byte p g.0 (validate_enc-Valid t (hi ∷ lo ∷ s) e g.1)
]

Valid-validate_enc : {t : Table} {s : Bytes} → Valid t s → validate_enc t s ≡ true
Valid-validate_enc nil = unfold validate_enc in refl
Valid-validate_enc {t} (byte {x} {w} n a v) =
    rw (validate_enc-byte t x w n, a) (Valid-validate_enc v)
Valid-validate_enc {t} (octet {hi} {lo} {w} e a b v) =
    rw (validate_enc-octet t hi lo w, is_bad_octet_lem, a, b) (Valid-validate_enc v)

validate_plain-Valid : (t : Table) (s : Bytes) → IsTable t → validate_plain t s ≡ true → Valid t s
unfolding validate_plain
validate_plain-Valid t [] i h = nil
validate_plain-Valid t (x ∷ s) i h = elim (Bool-cases (allows t x)) [
  | inl a ↦ byte (allows-ne i x a) a (validate_plain-Valid t s i (ground arith))
  | inr a ↦ absurd (ground arith)
]

Valid-validate_plain :
    {t : Table} {s : Bytes} → t.allows_enc ≡ false → Valid t s → validate_plain t s ≡ true
unfolding validate_plain
Valid-validate_plain n nil = refl
Valid-validate_plain n (byte e a v) = ground (arith, Valid-validate_plain n v)
Valid-validate_plain n (octet e a b v) = absurd (let c : true ≡ false = sym e ∙ n in cc)

-- For a table in which `%` is not an allowed byte, `validate` answers true exactly on the
-- strings made of allowed bytes and, where the table allows them, percent-encoded octets.
pub validate_iff : (t : Table) (s : Bytes) → IsTable t → (validate t s ≡ true) ↔ Valid t s
unfolding validate
validate_iff t s i = elim (Bool-cases t.allows_enc) [
  | inl e ↦ simp e (validate_enc-Valid t s e, Valid-validate_enc)
  | inr e ↦ simp e (validate_plain-Valid t s i, Valid-validate_plain e)
]
