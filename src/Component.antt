-- ===== src/Component.antt =====
-- `Scheme` of src/component.rs.
pub mod Laws
use fluent_uri_rs.Base.{
  bit_or, Bool, true, false, ◌&&◌, Option, none, some, [], ◌∷◌, ◌==◌, if◌then◌else◌, Bytes, length,
  is_ascii_alphabetic,
}
use fluent_uri_rs.Base.Run.{Run, done, panic}
use fluent_uri_rs.Table.Consts
use fluent_uri_rs.Table.Validate.{validate}

-- `matches!(s.as_bytes(), [first, rem @ ..] if …)`
is_scheme : Bytes → Bool
is_scheme [] = false
is_scheme (first ∷ rem) = is_ascii_alphabetic first && validate Consts.scheme rem

-- `Scheme::new`
unfoldable pub new : Bytes → Option Bytes
unfolding is_scheme
new s = if is_scheme s then some s else none

-- `Scheme::new_or_panic`
unfoldable pub new_or_panic : Bytes → Run Bytes
unfolding new
new_or_panic s = elim (new s) [ none ↦ panic | some scheme ↦ done scheme ]

-- `Scheme::as_str`
unfoldable pub as_str : Bytes → Bytes
as_str s = s

-- `iter::zip(a, b).all(…)`
unfoldable pub zip_all : Bytes → Bytes → Bool
zip_all (a ∷ s) (b ∷ t) = bit_or a 0b0010_0000 == bit_or b 0b0010_0000 && zip_all s t
zip_all _ _ = true

-- `Scheme::eq`
unfoldable pub scheme_eq : Bytes → Bytes → Bool
unfolding zip_all
scheme_eq a b = length a == length b && zip_all a b
