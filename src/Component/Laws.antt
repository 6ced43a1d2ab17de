-- ===== src/Component/Laws.antt =====
-- `Scheme::new` and `Scheme::eq` of src/component.rs beside the grammar and the case of letters.
use fluent_uri_rs.Base.{
  ℕ, bit_or, Bool, true, false, not, ◌&&◌, ◌||◌, none, some, [], ◌∷◌, ◌==◌, Bytes, length, map,
  bytes_eq, is_ascii_alphabetic, to_ascii_lowercase, all_below, Bool-cases, ==_iff, &&-eq-true, ◌≡◌,
  ◌↔◌, refl, sym, ◌∙◌, inl, inr, arith,
}
use fluent_uri_rs.Component.{is_scheme, new, zip_all, scheme_eq}
use fluent_uri_rs.Spec.{IsScheme}
use fluent_uri_rs.Table.{allows}
use fluent_uri_rs.Table.Consts
use fluent_uri_rs.Table.Facts
use fluent_uri_rs.Table.Laws.{allows-lt, all_below-lt}
use fluent_uri_rs.Table.Valid.{validate_iff}
use fluent_uri_rs.Table.Validate.{validate, Valid, nil, byte, octet}

-- The sixth bit makes a letter lowercase, and leaves the other characters of a scheme.
lowers : ℕ → Bool
unfolding allows Consts.scheme
lowers x = not (allows Consts.scheme x) || bit_or x 0b0010_0000 == to_ascii_lowercase x

all_lowered : all_below 128 lowers ≡ true
unfolding lowers all_below
all_lowered = refl

sixth_bit : (x : ℕ) → allows Consts.scheme x ≡ true → bit_or x 0b0010_0000 ≡ to_ascii_lowercase x
unfolding lowers
sixth_bit x h =
    let low : (not (allows Consts.scheme x) || bit_or x 0b0010_0000 == to_ascii_lowercase x)
        ≡ true =
      all_below-lt 128 lowers x all_lowered (allows-lt Facts.scheme-IsTable x h) in
    (==_iff (bit_or x 0b0010_0000) (to_ascii_lowercase x)).0 (ground (arith, low, h))

no_octet : (Consts.scheme).allows_enc ≡ true → ⊥
no_octet e = unfold Consts.scheme in cc

-- The lengths agree where the lowered texts do, and the bytes that are zipped.
zip_lowered :
    {a b : Bytes}
    → Valid Consts.scheme a
    → Valid Consts.scheme b
    → (length a == length b && zip_all a b)
      ≡ bytes_eq (map to_ascii_lowercase a) (map to_ascii_lowercase b)
unfolding zip_all
zip_lowered nil nil = refl
zip_lowered nil (byte n h v) = ground arith
zip_lowered nil (octet e h k v) = absurd (no_octet e)
zip_lowered (byte n h v) nil = ground arith
zip_lowered (octet e h k v) w = absurd (no_octet e)
zip_lowered (byte n h v) (octet e i k w) = absurd (no_octet e)
zip_lowered (byte {x = x} {w = s} n h v) (byte {x = y} {w = t} m i w) =
    rw (sixth_bit x h, sixth_bit y i)
      (heads (to_ascii_lowercase x == to_ascii_lowercase y) (length s) (length t) (zip_all s t) _
        (zip_lowered v w))
  where
    heads :
        (c : Bool) (m n : ℕ) (z r : Bool)
        → (m == n && z) ≡ r
        → (Prim.Native.Nat.suc m == Prim.Native.Nat.suc n && (c && z)) ≡ (c && r)
    heads c m n z r e = ground (arith, e)

-- Schemes are equal where their texts are equal up to the case of ASCII letters.
pub scheme_eq_lem :
    (a b : Bytes)
    → IsScheme a
    → IsScheme b
    → scheme_eq a b ≡ bytes_eq (map to_ascii_lowercase a) (map to_ascii_lowercase b)
unfolding scheme_eq
scheme_eq_lem (x ∷ a) (y ∷ b) v w = zip_lowered v.1 w.1
scheme_eq_lem [] b v w = absurd v
scheme_eq_lem (x ∷ a) [] v w = absurd w

letter : ℕ → Bool
unfolding allows Consts.scheme
letter x = not (is_ascii_alphabetic x) || allows Consts.scheme x

all_letters : all_below 128 letter ≡ true
unfolding letter all_below
all_letters = refl

letter_allowed : (x : ℕ) → is_ascii_alphabetic x ≡ true → allows Consts.scheme x ≡ true
unfolding letter
letter_allowed x h =
    let low : (not (is_ascii_alphabetic x) || allows Consts.scheme x) ≡ true =
      all_below-lt 128 letter x all_letters (ground (arith, h)) in
    ground (arith, low, h)

is_scheme-IsScheme : (s : Bytes) → is_scheme s ≡ true → IsScheme s
unfolding is_scheme
is_scheme-IsScheme [] h = absurd (let c : false ≡ true = h in cc)
is_scheme-IsScheme (x ∷ s) h =
    let (a, v) = &&-eq-true (is_ascii_alphabetic x) (validate Consts.scheme s) h in
    (
      a,
      byte (ground (arith, a)) (letter_allowed x a)
          ((validate_iff Consts.scheme s Facts.scheme-IsTable).0 v),
    )

IsScheme-is_scheme : (s : Bytes) → IsScheme s → is_scheme s ≡ true
unfolding is_scheme
IsScheme-is_scheme [] v = absurd v
IsScheme-is_scheme (x ∷ s) (a, byte n h v) =
    let t : validate Consts.scheme s ≡ true =
      (validate_iff Consts.scheme s Facts.scheme-IsTable).1 v in
    rw (a, t) refl
IsScheme-is_scheme (x ∷ s) (a, octet e h k v) = absurd (no_octet e)

-- `Scheme::new` accepts exactly the schemes of the grammar, and returns the text.
pub new_iff : (s : Bytes) → (new s ≡ some s) ↔ IsScheme s
unfolding new
new_iff s = elim (Bool-cases (is_scheme s)) [
  | inl h ↦ (λ e. is_scheme-IsScheme s h, λ v. rw h refl)
  | inr h ↦ (
    λ e. absurd (let c : none ≡ some s = rw h at e in cc),
    λ v. absurd (let c : true ≡ false = sym (IsScheme-is_scheme s v) ∙ h in cc),
  )
]
