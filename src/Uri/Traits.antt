-- ===== src/Uri/Traits.antt =====
-- The comparisons and views of `Uri` in src/lib.rs.
use fluent_uri_rs.Base.{Bool, Option, some, Bytes, bytes_eq}
use fluent_uri_rs.Base.Order.{Ordering, bytes_cmp}
use fluent_uri_rs.Uri.{Uri}

unfoldable pub as_str : Uri → Bytes
as_str u = u.val

unfoldable pub eq : Uri → Uri → Bool
unfolding as_str
eq u other = bytes_eq (as_str u) (as_str other)

-- Against a `str`, on either side, by value and by reference.
unfoldable pub eq_str : Uri → Bytes → Bool
unfolding as_str
eq_str u other = bytes_eq (as_str u) other

unfoldable pub str_eq : Bytes → Uri → Bool
unfolding as_str
str_eq s other = bytes_eq s (as_str other)

unfoldable pub eq_str_ref : Uri → Bytes → Bool
unfolding as_str
eq_str_ref u other = bytes_eq (as_str u) other

unfoldable pub str_ref_eq : Bytes → Uri → Bool
unfolding as_str
str_ref_eq s other = bytes_eq s (as_str other)

-- The hasher's state is `H`, and `hash_str` what a `str` does to it.
unfoldable pub hash : {H : Type 0} → (Bytes → H → H) → Uri → H → H
unfolding as_str
hash hash_str u state = hash_str (as_str u) state

unfoldable pub cmp : Uri → Uri → Ordering
unfolding as_str
cmp u other = bytes_cmp (as_str u) (as_str other)

unfoldable pub partial_cmp : Uri → Uri → Option Ordering
unfolding cmp
partial_cmp u other = some (cmp u other)

-- `AsRef<str>` and `Borrow<str>`
unfoldable pub as_ref_str : Uri → Bytes
unfolding as_str
as_ref_str u = as_str u

unfoldable pub borrow_str : Uri → Bytes
unfolding as_str
borrow_str u = as_str u
