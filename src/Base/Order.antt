-- ===== src/Base/Order.antt =====
-- `core::cmp::Ordering`, and the lexicographic order of `str`.
use mathlib.Core.List.{[], ◌∷◌}
use fluent_uri_rs.Base.Tests.{ltb, if◌then◌else◌}
use fluent_uri_rs.Base.Text.{Bytes}

pub data Ordering : Type 0 where
  less equal greater : Ordering

-- `str::cmp`
abbrev pub bytes_cmp : Bytes → Bytes → Ordering
bytes_cmp [] [] = equal
bytes_cmp [] (y ∷ t) = less
bytes_cmp (x ∷ s) [] = greater
bytes_cmp (x ∷ s) (y ∷ t) =
    let rest = bytes_cmp s t in if ltb x y then less else if ltb y x then greater else rest
