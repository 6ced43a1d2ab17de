-- ===== src/EStr/Traits.antt =====
-- The views, comparisons and conversions of `EStr` in src/encoding/mod.rs. A `str` is its bytes, and
-- an `EStr` its text.
use fluent_uri_rs.Base.{
  ℕ, Bool, ◌==◌, if◌then◌else◌, Option, none, some, [], Bytes, bytes_eq, length,
}
use fluent_uri_rs.Base.Order.{Ordering, bytes_cmp}
use fluent_uri_rs.Base.Run.{Run, done, panic}
use fluent_uri_rs.EStr.{new}
use fluent_uri_rs.Table.{Table, is_subset}

-- `EStr::EMPTY`
unfoldable pub empty : Bytes
empty = []

-- `EStr::new_or_panic`
unfoldable pub new_or_panic : Table → Bytes → Run Bytes
unfolding new
new_or_panic e s = elim (new e s) [ none ↦ panic | some s ↦ done s ]

unfoldable pub as_str : Bytes → Bytes
as_str s = s

unfoldable pub len : Bytes → ℕ
len s = length s

unfoldable pub is_empty : Bytes → Bool
is_empty s = length s == 0

-- `EStr::upcast`, with its assertion.
unfoldable pub upcast : Table → Table → Bytes → Run Bytes
unfolding as_str
upcast e super_e s = if is_subset e super_e then done (as_str s) else panic

unfoldable pub as_ref : Bytes → Bytes
as_ref s = s

unfoldable pub as_ref_str : Bytes → Bytes
as_ref_str s = s

unfoldable pub eq : Bytes → Bytes → Bool
eq s other = bytes_eq s other

-- Against a `str`, on either side.
unfoldable pub eq_str : Bytes → Bytes → Bool
eq_str s other = bytes_eq s other

unfoldable pub str_eq : Bytes → Bytes → Bool
str_eq s other = bytes_eq s other

-- The hasher's state is `H`, and `hash_str` what a `str` does to it.
unfoldable pub hash : {H : Type 0} → (Bytes → H → H) → Bytes → H → H
hash hash_str s state = hash_str s state

unfoldable pub cmp : Bytes → Bytes → Ordering
cmp s other = bytes_cmp s other

unfoldable pub partial_cmp : Bytes → Bytes → Option Ordering
unfolding cmp
partial_cmp s other = some (cmp s other)

unfoldable pub default_estr : Bytes
unfolding empty
default_estr = empty

unfoldable pub to_owned : Bytes → Bytes
to_owned s = s

-- `clone_into`: the target is overwritten.
unfoldable pub clone_into : Bytes → Bytes → Bytes
clone_into s target = s
