-- ===== src/Grammar.antt =====
-- IPv4address and IPv6address of RFC 3986, appendix A, independently of the reader.
use fluent_uri_rs.Base.{
  ℕ, suc, ◌+◌, ◌-◌, ◌*◌, ◌≤◌, true, false, [], ◌∷◌, ◌++◌, ◌==◌, Bytes, length, is_ascii_digit, ◌≡◌,
}
use fluent_uri_rs.Table.Consts
use fluent_uri_rs.Table.Validate.{Valid}

-- dec-octet, with its value: no leading zero, and at most 255.
pub data IsOctet : ℕ → Bytes → Type 0 where
  octet_one : {x : ℕ} → is_ascii_digit x ≡ true → IsOctet (x - b'0') (x ∷ [])
  octet_two :
      {x y : ℕ}
      → is_ascii_digit x ≡ true
      → (x == b'0') ≡ false
      → is_ascii_digit y ≡ true
      → IsOctet ((x - b'0') * 10 + (y - b'0')) (x ∷ y ∷ [])
  octet_three :
      {x y z : ℕ}
      → is_ascii_digit x ≡ true
      → (x == b'0') ≡ false
      → is_ascii_digit y ≡ true
      → is_ascii_digit z ≡ true
      → ((x - b'0') * 10 + (y - b'0')) * 10 + (z - b'0') ≤ 255
      → IsOctet (((x - b'0') * 10 + (y - b'0')) * 10 + (z - b'0')) (x ∷ y ∷ z ∷ [])

-- So many octets, each behind a dot.
pub data IsParts : ℕ → Bytes → Type 0 where
  no_parts : IsParts 0 []
  part : {i n : ℕ} {u s : Bytes} → IsOctet n u → IsParts i s → IsParts (suc i) (b'.' ∷ (u ++ s))

-- IPv4address: four octets between dots.
pub data IsIpv4 : Bytes → Type 0 where
  ipv4_text : {n : ℕ} {u s : Bytes} → IsOctet n u → IsParts 3 s → IsIpv4 (u ++ s)

-- h16
abbrev pub IsH16 : Bytes → Type 0
IsH16 g = Valid Consts.hexdig g × (1 ≤ length g) × (length g ≤ 4)

-- So many pieces h16, with colons between them.
pub data Pieces : Bytes → ℕ → Type 0 where
  no_piece : Pieces [] 0
  piece : {g : Bytes} → IsH16 g → Pieces g 1
  next_piece :
      {s g : Bytes} {n : ℕ} → Pieces s (suc n) → IsH16 g → Pieces (s ++ (b':' ∷ g)) (suc (suc n))

-- Such pieces, of which the last two may be written as an IPv4 address.
pub data Ends : Bytes → ℕ → Type 0 where
  of_pieces : {s : Bytes} {n : ℕ} → Pieces s n → Ends s n
  v4_alone : {v : Bytes} → IsIpv4 v → Ends v 2
  v4_behind :
      {s v : Bytes} {n : ℕ} → Pieces s (suc n) → IsIpv4 v → Ends (s ++ (b':' ∷ v)) (suc n + 2)

-- IPv6address: eight pieces, or at most seven around two colons.
pub data IsIpv6 : Bytes → Type 0 where
  full : {s : Bytes} → Ends s 8 → IsIpv6 s
  compressed :
      {x y : Bytes} {m n : ℕ} → Pieces x m → Ends y n → m + n ≤ 7 → IsIpv6 (x ++ (b':' ∷ b':' ∷ y))
