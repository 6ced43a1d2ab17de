-- ===== src/EStr.antt =====
-- `EStr` and `EString` of src/encoding/mod.rs and src/encoding/estring.rs. A string is its bytes,
-- and the encoder `E` is an argument, its table. `panic` is a failed assertion.
pub mod RoundTrip
pub mod Traits
pub mod Owned
pub mod Decoded
use fluent_uri_rs.Base.{
  ℕ, Bool, ◌&&◌, Option, none, some, List, [], ◌∷◌, ◌++◌, ◌==◌, if◌then◌else◌, Bytes, is_ascii,
  drop,
}
use fluent_uri_rs.Base.Run.{Run, done, panic, ◌>>=◌}
use fluent_uri_rs.Encoding
use fluent_uri_rs.Table.{Table, allows, is_subset}
use fluent_uri_rs.Table
use fluent_uri_rs.Table.Consts
use fluent_uri_rs.Table.Validate.{validate}

-- `EStr::new`
unfoldable pub new : Table → Bytes → Option Bytes
new e s = if validate e s then some s else none

-- `Decode`
pub data Decode : Type 0 where
  borrowed : Bytes → Decode
  owned : Bytes → Decode

unfoldable pub as_bytes : Decode → Bytes
as_bytes (borrowed s) = s
as_bytes (owned vec) = vec

-- `EStr::decode`, with its assertion that `E` allows percent-encoded octets.
unfoldable pub decode : Table → Bytes → Run Decode
decode e s =
    let decoded = Encoding.decode s >>= λ (d : Option Bytes).
    done (elim d [ none ↦ borrowed s | some vec ↦ owned vec ]) in
    if e.allows_enc then decoded else panic

-- `assert!(delim.is_ascii() && table::RESERVED.allows(delim as u8))`
abbrev pub is_delim : ℕ → Bool
is_delim delim = is_ascii delim && allows Consts.reserved delim

-- A byte in front of the first piece.
cons_piece : ℕ → List Bytes → List Bytes
cons_piece x [] = (x ∷ []) ∷ []
cons_piece x (p ∷ ps) = (x ∷ p) ∷ ps

-- All pieces that `str::split` yields.
unfoldable pub pieces : ℕ → Bytes → List Bytes
unfolding cons_piece
pieces delim [] = [] ∷ []
pieces delim (x ∷ s) = let ps = pieces delim s in if x == delim then [] ∷ ps else cons_piece x ps

-- `EStr::split`
unfoldable pub split : ℕ → Bytes → Run (List Bytes)
unfolding pieces
split delim s = if is_delim delim then done (pieces delim s) else panic

-- `str::split_once`
unfoldable pub cut_first : ℕ → Bytes → Option (Bytes × Bytes)
cut_first delim [] = none
cut_first delim (x ∷ s) =
    let later = cut_first delim s in
    if x == delim then some ([], s) else elim later [ none ↦ none | some (a, b) ↦ some (x ∷ a, b) ]

-- `str::rsplit_once`
unfoldable pub cut_last : ℕ → Bytes → Option (Bytes × Bytes)
cut_last delim [] = none
cut_last delim (x ∷ s) = elim (cut_last delim s) [
  | none ↦ if x == delim then some ([], s) else none
  | some (a, b) ↦ some (x ∷ a, b)
]

-- `EStr::split_once`, `EStr::rsplit_once`
unfoldable pub split_once : ℕ → Bytes → Run (Option (Bytes × Bytes))
unfolding cut_first
split_once delim s = if is_delim delim then done (cut_first delim s) else panic

unfoldable pub rsplit_once : ℕ → Bytes → Run (Option (Bytes × Bytes))
unfolding cut_last
rsplit_once delim s = if is_delim delim then done (cut_last delim s) else panic

-- `EStr::<Path>::segments`
unfoldable pub segments : Bytes → Run (List Bytes)
unfolding split
segments [] = split b'/' [] >>= λ ps. done (drop 1 ps)
segments (x ∷ p) = if x == b'/' then split b'/' p else split b'/' (x ∷ p)

-- The loop of `EString::encode`.
unfoldable pub encode_bytes : Table → Bytes → Bytes → Bytes
encode_bytes sub_e [] buf = buf
encode_bytes sub_e (x ∷ s) buf = encode_bytes sub_e s (Table.encode sub_e x buf)

-- `EString::encode`, with its two assertions.
unfoldable pub encode : Table → Table → Bytes → Bytes → Run Bytes
unfolding encode_bytes
encode e sub_e buf s =
    if is_subset sub_e e && sub_e.allows_enc then done (encode_bytes sub_e s buf) else panic

-- `EString::push_byte`
unfoldable pub push_byte : Table → Bytes → ℕ → Run Bytes
push_byte e buf x = if allows e x then done (buf ++ (x ∷ [])) else panic

-- `EString::push_estr`
unfoldable pub push_estr : Bytes → Bytes → Bytes
push_estr buf s = buf ++ s
