-- ===== src/Table.antt =====
-- src/encoding/table.rs and `Table` of src/encoding/mod.rs: byte pattern tables, the operations
-- that combine them, and the constants of RFC 3986. An array `[u8; 256]` is a function that is
-- read at bytes; a `while i < 256` loop that writes `arr[i]` is the function of `i` it computes.
pub mod Laws
pub mod Consts
pub mod Facts
pub mod Relate
pub mod Validate
pub mod Valid
use fluent_uri_rs.Base.{
  ℕ, ◌+◌, ◌*◌, ◌/◌, ◌%◌, bit_and, bit_or, Bool, true, false, not, ◌&&◌, ◌||◌, Option, none, some,
  [], ◌∷◌, ◌++◌, ◌==◌, if◌then◌else◌, all_below, Bytes, ascii, is_ascii, get_or,
}

pub record Table : Type 0 where
  pub arr : ℕ → ℕ
  pub allows_enc : Bool

-- `arr[i] = v`
abbrev pub store : (ℕ → ℕ) → ℕ → ℕ → ℕ → ℕ
store arr i v j = if j == i then v else arr j

-- The loop of `Table::gen` on the bytes still to be entered, and the `Table` made after it.
-- `none` is the failed assertion.
gen_loop : Bytes → (ℕ → ℕ) → Option Table
gen_loop [] arr = some (record { arr = arr; allows_enc = false })
gen_loop (cur ∷ rem) arr =
    let rest = gen_loop rem (store arr cur 1) in
    if is_ascii cur && not (cur == b'%') then rest else none

unfoldable pub gen : Bytes → Option Table
unfolding gen_loop
gen bytes = gen_loop bytes (λ i. 0)

-- `Table::enc`
unfoldable pub enc : Table → Table
enc t = record t { allows_enc = true }

-- `Table::or`
unfoldable pub or : Table → Table → Table
or t other = record {
  arr = λ i. bit_or (t.arr i) (other.arr i);
  allows_enc = t.allows_enc || other.allows_enc;
}

-- `Table::sub`
unfoldable pub sub : Table → Table → Table
sub t other = record {
  arr = λ i. if not (other.arr i == 0) then 0 else t.arr i;
  allows_enc = if other.allows_enc then false else t.allows_enc;
}

-- `Table::get`
abbrev pub get : Table → ℕ → ℕ
get t x = t.arr x

-- `Table::allows`
unfoldable pub allows : Table → ℕ → Bool
allows t x = not (get t x == 0)

-- `Table::is_subset`: the loop stops at the first byte that `t` allows and `other` does not.
unfoldable pub is_subset : Table → Table → Bool
unfolding all_below
is_subset t other =
    all_below 256 (λ i. not (not (t.arr i == 0) && other.arr i == 0))
    && (not t.allows_enc || other.allows_enc)

-- `gen_hex_table`: `out[i * 2] = HEX_DIGITS[i >> 4]`, `out[i * 2 + 1] = HEX_DIGITS[i & 0b1111]`,
-- as a function of the index `j`.
unfoldable pub hex_table : ℕ → ℕ
hex_table j =
    let i = j / 2 in
    get_or (ascii "0123456789ABCDEF") (if j % 2 == 0 then i / 16 else bit_and i 0b1111) 0

-- `Table::encode`, which appends to `buf`.
unfoldable pub encode : Table → ℕ → Bytes → Bytes
unfolding hex_table
encode t x buf =
    if allows t x
    then buf ++ (x ∷ [])
    else ((buf ++ (b'%' ∷ [])) ++ (hex_table (x * 2) ∷ [])) ++ (hex_table (x * 2 + 1) ∷ [])
