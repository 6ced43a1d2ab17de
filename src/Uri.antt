-- ===== src/Uri.antt =====
-- `Uri` of src/lib.rs and its accessors. A `&str` and a `String` are the same byte string here. A
-- slice `s[a..b]` panics where it is out of range.
pub mod Authority
pub mod Parts
pub mod Components
pub mod AuthorityParts
pub mod AuthorityViews
pub mod Sound
pub mod Traits
pub mod Convert
use fluent_uri_rs.Base.{
  ℕ, ◌+◌, Bool, not, ◌&&◌, Option, none, some, [], leb, ◌==◌, if◌then◌else◌, is_some, Bytes, length,
  slice,
}
use fluent_uri_rs.Base.Run.{Run, done, panic, ◌>>=◌}
use fluent_uri_rs.Error.{Result, ok, err}
use fluent_uri_rs.Net.{Meta, default_meta}
use fluent_uri_rs.Parser.{parse}

pub record Uri : Type 0 where
  pub val : Bytes
  pub meta : Meta

-- `&s[start..end]`
unfoldable pub str_slice : Bytes → ℕ → ℕ → Run Bytes
str_slice s start end =
    if leb start end && leb end (length s) then done (slice start end s) else panic

-- A fallible step on the value of an option.
abbrev pub on_some : {A B : Type 0} → (A → Run B) → Option A → Run (Option B)
on_some f none = done none
on_some f (some a) = f a >>= λ b. done (some b)

-- `<&str as ToUri>::to_uri` of src/internal.rs, which `Uri::parse` calls.
unfoldable pub to_uri : Bytes → Result Uri
to_uri s = elim (parse s) [
  | ok meta ↦ ok (record { val = s; meta = meta })
  | err i k ↦ err i k
  | Result.panic ↦ Result.panic
]

-- `Uri::default`
abbrev pub default_uri : Uri
default_uri = record { val = []; meta = default_meta }

abbrev pub len : Uri → ℕ
len u = length u.val

-- `Uri::slice`, `Uri::eslice`
abbrev pub uri_slice : Uri → ℕ → ℕ → Run Bytes
uri_slice u start end = str_slice u.val start end

unfoldable pub scheme : Uri → Run (Option Bytes)
unfolding str_slice
scheme u = on_some (λ i. uri_slice u 0 i) u.meta.scheme_end

unfoldable pub path : Uri → Run Bytes
unfolding str_slice
path u = uri_slice u u.meta.path_bounds.0 u.meta.path_bounds.1

unfoldable pub query : Uri → Run (Option Bytes)
unfolding str_slice
query u = on_some (λ i. uri_slice u (u.meta.path_bounds.1 + 1) i) u.meta.query_end

unfoldable pub fragment_start : Uri → Option ℕ
fragment_start u =
    let query_or_path_end : ℕ = elim u.meta.query_end [
      | none ↦ u.meta.path_bounds.1
      | some i ↦ i
    ] in
    if not (query_or_path_end == len u) then some (query_or_path_end + 1) else none

unfoldable pub fragment : Uri → Run (Option Bytes)
unfolding str_slice fragment_start
fragment u = on_some (λ i. uri_slice u i (len u)) (fragment_start u)

unfoldable pub is_relative_reference : Uri → Bool
is_relative_reference u = not (is_some u.meta.scheme_end)

unfoldable pub is_absolute_uri : Uri → Bool
unfolding fragment_start
is_absolute_uri u = is_some u.meta.scheme_end && not (is_some (fragment_start u))
