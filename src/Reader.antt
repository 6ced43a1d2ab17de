-- ===== src/Reader.antt =====
-- `Reader` of src/parser.rs: the position in the input, and what moves it. A loop over an index
-- `i` is a recursion on `bytes[i..]` that carries `i`.
pub mod V4
pub mod V6
pub mod Host
pub mod View
pub mod Span
pub mod Reads
pub mod V4Runs
pub mod V4Octet
pub mod HostReads
pub mod Total
use fluent_uri_rs.Base.{
  ℕ, ◌+◌, ◌-◌, Bool, true, false, not, Option, none, some, [], ◌∷◌, ltb, ◌==◌, if◌then◌else◌, Bytes,
  starts_with, length, get_elem?, drop, is_ascii_digit,
}
use fluent_uri_rs.Error.{Result, ok, err, ◌>>=◌, invalid_octet}
use fluent_uri_rs.Table.{Table, allows}
use fluent_uri_rs.Table.Validate.{is_bad_octet}

pub record Reader : Type 0 where
  pub bytes : Bytes
  pub pos : ℕ

-- `Reader::new`
abbrev pub new : Bytes → Reader
new bytes = record { bytes = bytes; pos = 0 }

abbrev pub len : Reader → ℕ
len r = length r.bytes

unfoldable pub has_remaining : Reader → Bool
has_remaining r = ltb r.pos (len r)

unfoldable pub peek : Reader → ℕ → Option ℕ
peek r i = get_elem? r.bytes (r.pos + i)

abbrev pub skip : ℕ → Reader → Reader
skip n r = record r { pos = r.pos + n }

-- `&self.bytes[self.pos..]`
abbrev pub remaining : Reader → Bytes
remaining r = drop r.pos r.bytes

-- The loop of `read` where the table allows no percent-encoded octets: the final `i`.
unfoldable pub read_loop : Table → Bytes → ℕ → ℕ
read_loop t [] i = i
read_loop t (x ∷ s) i = let rest = read_loop t s (i + 1) in if not (allows t x) then i else rest

-- The loop of `read_enc`: the closure `f` has the state `S`; the final `i` and state.
module _ {S : Type 0} (t : Table) (f : ℕ → ℕ → S → S) where
  unfoldable pub read_enc_loop : Bytes → ℕ → S → Result (ℕ × S)
  read_enc_loop [] i s = ok (i, s)
  read_enc_loop (x ∷ []) i s =
      if x == b'%'
      then err i invalid_octet
      else if not (allows t x)
      then ok (i, s)
      else ok (i + 1, f i x s)
  read_enc_loop (x ∷ y ∷ []) i s =
      let rest = read_enc_loop (y ∷ []) (i + 1) (f i x s) in
      if x == b'%' then err i invalid_octet else if not (allows t x) then ok (i, s) else rest
  read_enc_loop (x ∷ hi ∷ lo ∷ l) i s =
      let plain = read_enc_loop (hi ∷ lo ∷ l) (i + 1) (f i x s) in
      let octet = read_enc_loop l (i + 3) s in
      if x == b'%'
      then (if is_bad_octet hi lo then err i invalid_octet else octet)
      else if not (allows t x)
      then ok (i, s)
      else plain

  unfoldable pub read_enc : S → Reader → Result (S × Reader)
  unfolding read_enc_loop
  read_enc s r = do (i, s') ← read_enc_loop (remaining r) r.pos s; ok (s', record r { pos = i })

-- Whether any byte is read.
unfoldable pub read : Table → Reader → Result (Bool × Reader)
unfolding read_enc read_loop
read t r =
    if t.allows_enc
    then (do (_, r') ← read_enc {S = Unit {0}} t (λ i x s. s) tt r; ok (ltb r.pos r'.pos, r'))
    else (let r' = record r { pos = read_loop t (remaining r) r.pos } in ok (ltb r.pos r'.pos, r'))

unfoldable pub read_str : Bytes → Reader → Bool × Reader
read_str s r = if starts_with (remaining r) s then (true, skip (length s) r) else (false, r)

-- `(x as char).to_digit(10)`
abbrev pub to_digit : ℕ → Option ℕ
to_digit x = if is_ascii_digit x then some (x - b'0') else none

unfoldable pub peek_digit : Reader → ℕ → Option ℕ
unfolding peek
peek_digit r i = elim (peek r i) [ none ↦ none | some x ↦ to_digit x ]
