-- ===== src/EStr/Owned.antt =====
-- The views, comparisons and conversions of `EString` in src/encoding/estring.rs. An `EString` is its
-- buffer.
use fluent_uri_rs.Base.{Bool, Option, some, [], Bytes, bytes_eq}
use fluent_uri_rs.Base.Order.{Ordering, bytes_cmp}
use fluent_uri_rs.EStr.Traits.{as_str, to_owned}

-- `EString::new_validated`
unfoldable pub new_validated : Bytes → Bytes
new_validated buf = buf

-- `EString::new`
unfoldable pub new_estring : Bytes
unfolding new_validated
new_estring = new_validated []

-- `Deref`
unfoldable pub deref : Bytes → Bytes
deref s = s

unfoldable pub as_estr : Bytes → Bytes
unfolding deref
as_estr s = deref s

unfoldable pub into_string : Bytes → Bytes
into_string s = s

unfoldable pub as_ref_estr : Bytes → Bytes
unfolding deref
as_ref_estr s = deref s

unfoldable pub as_ref_buf : Bytes → Bytes
as_ref_buf s = s

unfoldable pub borrow : Bytes → Bytes
unfolding deref
borrow s = deref s

unfoldable pub from_estr : Bytes → Bytes
unfolding to_owned
from_estr s = to_owned s

-- `self.as_str()` goes through `Deref`.
unfoldable pub text : Bytes → Bytes
unfolding deref as_str
text s = as_str (deref s)

unfoldable pub eq : Bytes → Bytes → Bool
unfolding text
eq s other = bytes_eq (text s) (text other)

-- Against an `EStr`, on either side, by value and by reference.
unfoldable pub eq_estr : Bytes → Bytes → Bool
unfolding text as_str
eq_estr s other = bytes_eq (text s) (as_str other)

unfoldable pub estr_eq : Bytes → Bytes → Bool
unfolding text as_str
estr_eq s other = bytes_eq (as_str s) (text other)

unfoldable pub eq_estr_ref : Bytes → Bytes → Bool
unfolding text as_str
eq_estr_ref s other = bytes_eq (text s) (as_str other)

unfoldable pub estr_ref_eq : Bytes → Bytes → Bool
unfolding text as_str
estr_ref_eq s other = bytes_eq (as_str s) (text other)

-- Against a `str`, on either side, by value and by reference.
unfoldable pub eq_str : Bytes → Bytes → Bool
unfolding text
eq_str s other = bytes_eq (text s) other

unfoldable pub str_eq : Bytes → Bytes → Bool
unfolding text
str_eq s other = bytes_eq s (text other)

unfoldable pub eq_str_ref : Bytes → Bytes → Bool
unfolding text
eq_str_ref s other = bytes_eq (text s) other

unfoldable pub str_ref_eq : Bytes → Bytes → Bool
unfolding text
str_ref_eq s other = bytes_eq s (text other)

-- The hasher's state is `H`, and `hash_str` what a `str` does to it.
unfoldable pub hash : {H : Type 0} → (Bytes → H → H) → Bytes → H → H
hash hash_str s state = hash_str s state

-- `self.inner` goes through `Deref`.
unfoldable pub cmp : Bytes → Bytes → Ordering
unfolding deref
cmp s other = bytes_cmp (deref s) (deref other)

unfoldable pub partial_cmp : Bytes → Bytes → Option Ordering
unfolding cmp
partial_cmp s other = some (cmp s other)
