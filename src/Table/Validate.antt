-- ===== src/Table/Validate.antt =====
-- `Table::validate` of src/encoding/table.rs, and what it decides: the byte strings that the
-- documentation of `EStr` describes.
use fluent_uri_rs.Base.{
  bit_and, Bool, true, false, not, ◌&&◌, [], ◌∷◌, ◌==◌, if◌then◌else◌, Bytes, ◌≡◌, arith, ℕ, ◌++◌,
}
use fluent_uri_rs.Table.{Table, get, allows}
use fluent_uri_rs.Table.Consts.{hexdig}
use fluent_uri_rs.Table.Facts.{hexdig-IsTable}
use fluent_uri_rs.Table.Laws.{bit_and_binary}

-- `HEXDIG.get(hi) & HEXDIG.get(lo) == 0`
unfoldable pub is_bad_octet : ℕ → ℕ → Bool
is_bad_octet hi lo = bit_and (get hexdig hi) (get hexdig lo) == 0

-- The loop of `validate` on `s[i..]` where the table allows percent-encoded octets.
unfoldable pub validate_enc : Table → Bytes → Bool
validate_enc t [] = true
validate_enc t (x ∷ []) = if x == b'%' then false else allows t x
validate_enc t (x ∷ y ∷ []) =
    let rest = validate_enc t (y ∷ []) in
    if x == b'%' then false else if not (allows t x) then false else rest
validate_enc t (x ∷ hi ∷ lo ∷ s) =
    let plain = validate_enc t (hi ∷ lo ∷ s) in
    let octet = validate_enc t s in
    if x == b'%'
    then (if is_bad_octet hi lo then false else octet)
    else if not (allows t x)
    then false
    else plain

-- The other loop of `validate`.
unfoldable pub validate_plain : Table → Bytes → Bool
validate_plain t [] = true
validate_plain t (x ∷ s) = let rest = validate_plain t s in if not (allows t x) then false else rest

unfoldable pub validate : Table → Bytes → Bool
unfolding validate_enc validate_plain
validate t s = if t.allows_enc then validate_enc t s else validate_plain t s

-- Any number of allowed bytes and percent-encoded octets, in any order.
pub data Valid (t : Table) : Bytes → Type 0 where
  nil : Valid t []
  byte : {x : ℕ} {w : Bytes} → (x == b'%') ≡ false → allows t x ≡ true → Valid t w → Valid t (x ∷ w)
  octet :
      {hi lo : ℕ} {w : Bytes}
      → t.allows_enc ≡ true
      → allows hexdig hi ≡ true
      → allows hexdig lo ≡ true
      → Valid t w
      → Valid t (b'%' ∷ hi ∷ lo ∷ w)

pub is_bad_octet_lem : (hi lo : ℕ) → is_bad_octet hi lo ≡ not (allows hexdig hi && allows hexdig lo)
unfolding is_bad_octet allows
is_bad_octet_lem hi lo = ground (
  arith,
  bit_and_binary (get hexdig hi) (get hexdig lo) (hexdig-IsTable.binary hi)
      (hexdig-IsTable.binary lo),
)

pub Valid-append : {t : Table} {v w : Bytes} → Valid t v → Valid t w → Valid t (v ++ w)
Valid-append nil b = b
Valid-append (byte n h a) b = byte n h (Valid-append a b)
Valid-append (octet e h l a) b = octet e h l (Valid-append a b)
