-- ===== src/Normalizer/Octets/Firsts.antt =====
-- Slashes, colons and digits behind a step of `normalize_estr` of src/normalizer.rs.
use fluent_uri_rs.Spec.{colon_first}
use fluent_uri_rs.Table.Relate.{allows-ne_byte}
use fluent_uri_rs.Base.{
  not, ◌&&◌, if◌then◌else◌, starts_with, ◌||◌, is_ascii_digit, arith, ℕ, Bool, true, false, [], ◌∷◌,
  ◌==◌, Bytes, ◌≡◌, refl,
}
use fluent_uri_rs.Normalizer.{lower_if}
use fluent_uri_rs.Table.{allows}
use fluent_uri_rs.Table.Consts.{hexdig, unreserved}

pub not_lowered :
    (low : Bool) (x : ℕ)
    → (is_ascii_digit (lower_if low x) || lower_if low x == b'.') ≡ true
    → lower_if low x ≡ x
not_lowered low x h = ground (arith, h)

pub no_sign : (is_ascii_digit b'%' || b'%' == b'.') ≡ true → ⊥
no_sign h = cc

pub slash_kept : (low : Bool) (x : ℕ) → (lower_if low x == b'/' && true) ≡ (x == b'/' && true)
slash_kept low x = ground arith

pub byte_twice :
    (low : Bool) (x : ℕ) (r s : Bytes)
    → starts_with r (b'/' ∷ []) ≡ starts_with s (b'/' ∷ [])
    → starts_with (lower_if low x ∷ r) (b'/' ∷ b'/' ∷ []) ≡ starts_with (x ∷ s) (b'/' ∷ b'/' ∷ [])
byte_twice low x r s e = by (starts_with r (b'/' ∷ [])) (starts_with s (b'/' ∷ [])) e
  where
    by : (a b : Bool) → a ≡ b → (lower_if low x == b'/' && a) ≡ (x == b'/' && b)
    by a b e = ground (arith, e)

pub byte_colons :
    (low : Bool) (x : ℕ) (r s : Bytes)
    → colon_first r ≡ colon_first s
    → colon_first (lower_if low x ∷ r) ≡ colon_first (x ∷ s)
byte_colons low x r s e = by (colon_first r) (colon_first s) e
  where
    by :
        (a b : Bool)
        → a ≡ b
        → (if lower_if low x == b'/' then false else if lower_if low x == b':' then true else a)
          ≡ (if x == b'/' then false else if x == b':' then true else b)
    by a b e = ground (arith, e)

-- Neither a slash nor a colon.
plain_byte : ℕ → Bool
plain_byte x = not (x == b'/') && not (x == b':')

plain_unreserved : (x : ℕ) → allows unreserved x ≡ true → plain_byte x ≡ true
unfolding plain_byte allows unreserved
plain_unreserved x h =
    rw (allows-ne_byte unreserved x b'/' h refl, allows-ne_byte unreserved x b':' h refl) refl

plain_hexdig : (x : ℕ) → allows hexdig x ≡ true → plain_byte x ≡ true
unfolding plain_byte allows hexdig
plain_hexdig x h =
    rw (allows-ne_byte hexdig x b'/' h refl, allows-ne_byte hexdig x b':' h refl) refl

pub unreserved_first :
    (low : Bool) (x : ℕ) (r : Bytes)
    → allows unreserved x ≡ true
    → (starts_with (lower_if low x ∷ r) (b'/' ∷ []) ≡ false)
      × (starts_with (lower_if low x ∷ r) (b'/' ∷ b'/' ∷ []) ≡ false)
      × (colon_first (lower_if low x ∷ r) ≡ colon_first r)
unfolding plain_byte
unreserved_first low x r u =
    let p : plain_byte x ≡ true = plain_unreserved x u in
    let a : (lower_if low x == b'/') ≡ false = ground (arith, p) in
    let b : (lower_if low x == b':') ≡ false = ground (arith, p) in
    (rw a refl, rw a refl, rw (a, b) refl)

pub octet_colons :
    (hi lo : ℕ) (s : Bytes)
    → allows hexdig hi ≡ true
    → allows hexdig lo ≡ true
    → colon_first (b'%' ∷ hi ∷ lo ∷ s) ≡ colon_first s
unfolding plain_byte
octet_colons hi lo s h k =
    let p : plain_byte hi ≡ true = plain_hexdig hi h in
    let q : plain_byte lo ≡ true = plain_hexdig lo k in
    let a : (hi == b'/') ≡ false = ground (arith, p) in
    let b : (hi == b':') ≡ false = ground (arith, p) in
    let c : (lo == b'/') ≡ false = ground (arith, q) in
    let d : (lo == b':') ≡ false = ground (arith, q) in rw (a, b, c, d) refl
