-- ===== src/EStr/Decoded.antt =====
-- What is made of a `Decode` and of a `Split` in src/encoding/mod.rs, with the check of
-- `String::from_utf8`.
use fluent_uri_rs.Base.{
  ℕ, Bool, true, ◌&&◌, Option, none, some, List, [], ◌∷◌, ◌==◌, ltb, if◌then◌else◌, Bytes, within,
}
use fluent_uri_rs.EStr.{Decode, borrowed, owned}

-- A continuation byte.
is_cont : ℕ → Bool
is_cont x = within 0x80 0xBF x

-- The second byte of three and of four, by the first.
second_of_3 : ℕ → ℕ → Bool
unfolding is_cont
second_of_3 x y =
    if x == 0xE0 then within 0xA0 0xBF y else if x == 0xED then within 0x80 0x9F y else is_cont y

second_of_4 : ℕ → ℕ → Bool
unfolding is_cont
second_of_4 x y =
    if x == 0xF0 then within 0x90 0xBF y else if x == 0xF4 then within 0x80 0x8F y else is_cont y

-- The bytes are those of a `str`.
unfoldable pub is_utf8 : Bytes → Bool
unfolding is_cont second_of_3 second_of_4
is_utf8 [] = true
is_utf8 (x ∷ []) = ltb x 0x80
is_utf8 (x ∷ y ∷ []) =
    let one = is_utf8 (y ∷ []) in if ltb x 0x80 then one else within 0xC2 0xDF x && is_cont y
is_utf8 (x ∷ y ∷ z ∷ []) =
    let one = is_utf8 (y ∷ z ∷ []) in
    let two = is_utf8 (z ∷ []) in
    if ltb x 0x80
    then one
    else if within 0xC2 0xDF x
    then is_cont y && two
    else within 0xE0 0xEF x && second_of_3 x y && is_cont z
is_utf8 (x ∷ y ∷ z ∷ w ∷ s) =
    let one = is_utf8 (y ∷ z ∷ w ∷ s) in
    let two = is_utf8 (z ∷ w ∷ s) in
    let three = is_utf8 (w ∷ s) in
    let four = is_utf8 s in
    if ltb x 0x80
    then one
    else if within 0xC2 0xDF x
    then is_cont y && two
    else if within 0xE0 0xEF x
    then second_of_3 x y && is_cont z && three
    else within 0xF0 0xF4 x && second_of_4 x y && is_cont z && is_cont w && four

-- `Cow`
pub data Cow : Type 0 where
  cow_borrowed : Bytes → Cow
  cow_owned : Bytes → Cow

-- What a `Cow` dereferences to.
abbrev pub deref_cow : Cow → Bytes
deref_cow (cow_borrowed s) = s
deref_cow (cow_owned vec) = vec

-- `Decode::into_bytes`
unfoldable pub into_bytes : Decode → Cow
into_bytes (borrowed s) = cow_borrowed s
into_bytes (owned vec) = cow_owned vec

-- `Decode::into_string`: `none` is the `FromUtf8Error`, which keeps the bytes.
unfoldable pub into_string : Decode → Option Cow
unfolding is_utf8
into_string (borrowed s) = some (cow_borrowed s)
into_string (owned vec) = if is_utf8 vec then some (cow_owned vec) else none

-- `Split`: the pieces that are left.
unfoldable pub next : List Bytes → Option Bytes × List Bytes
next [] = (none, [])
next (p ∷ ps) = (some p, ps)

unfoldable pub next_back : List Bytes → Option Bytes × List Bytes
next_back [] = (none, [])
next_back (p ∷ []) = (some p, [])
next_back (p ∷ q ∷ ps) = let (last, rest) = next_back (q ∷ ps) in (last, p ∷ rest)
