-- ===== src/Builder/Fits.antt =====
-- `validate` of src/builder/mod.rs beside the paths that RFC 3986 allows.
use fluent_uri_rs.Base.{
  Bool, true, false, Option, none, some, [], ◌∷◌, is_some, Bytes, starts_with, ◌≡◌, refl, ◌↔◌,
  arith,
}
use fluent_uri_rs.Builder.{first_segment_contains_colon, validate_path}
use fluent_uri_rs.Spec.{AuthParts, colon_first, IsAbEmpty, PathFits}

first_segment_lem : (p : Bytes) → first_segment_contains_colon p ≡ colon_first p
unfolding first_segment_contains_colon
first_segment_lem [] = refl
first_segment_lem (x ∷ p) = rw (first_segment_lem p) refl

with_authority : (b : Bool) (p : Bytes) → (validate_path true b p ≡ none) ↔ IsAbEmpty p
unfolding validate_path
with_authority b [] = (λ e. tt, λ u. refl)
with_authority b (x ∷ p) = ground arith

without_authority :
    (p : Bytes) → (validate_path false true p ≡ none) ↔ (starts_with p (b'/' ∷ b'/' ∷ []) ≡ false)
unfolding validate_path
without_authority p = ground arith

relative :
    (p : Bytes)
    → (validate_path false false p ≡ none)
      ↔ ((starts_with p (b'/' ∷ b'/' ∷ []) ≡ false) × (colon_first p ≡ false))
unfolding validate_path
relative p = ground (arith, first_segment_lem p)

-- The builder accepts a path exactly where the path fits beside the other components: it is empty
-- or begins with a slash behind an authority, it does not begin with two slashes where there is no
-- authority, and its first segment has no colon where there is no scheme either.
pub validate_path_iff :
    (s : Option Bytes) (a : Option AuthParts) (p : Bytes)
    → (validate_path (is_some a) (is_some s) p ≡ none) ↔ PathFits s a p
validate_path_iff s (some a) p = with_authority (is_some s) p
validate_path_iff (some s) none p = without_authority p
validate_path_iff none none p = relative p
