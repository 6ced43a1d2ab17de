-- ===== src/Reader/V4.antt =====
-- `read_v4_octet`, `read_v4`, `read_port` and `parse_v4_or_reg_name` of src/parser.rs. The methods
-- that return an `Option` keep the position that they reached when they return `None`.
use fluent_uri_rs.Base.{
  ℕ, zero, suc, ◌+◌, ◌*◌, ◌^◌, bit_or, Bool, true, false, not, Option, none, some, [], ◌∷◌, leb,
  ◌==◌, if◌then◌else◌, Bytes, is_ascii_digit,
}
use fluent_uri_rs.Reader.{Reader, new, has_remaining, skip, remaining, read_str, peek_digit}
use fluent_uri_rs.Net.{HostMeta, ipv4, reg_name}

-- `for i in 1..3`, with the rounds left, and what follows the loop.
unfoldable pub read_v4_digits : ℕ → ℕ → ℕ → Reader → Option ℕ × Reader
read_v4_digits zero i res r = (if leb res 255 then some res else none, skip 3 r)
read_v4_digits (suc n) i res r = elim (peek_digit r i) [
  | none ↦ (some res, skip i r)
  | some x ↦ read_v4_digits n (i + 1) (res * 10 + x) r
]

unfoldable pub read_v4_octet : Reader → Option ℕ × Reader
unfolding read_v4_digits peek_digit
read_v4_octet r = elim (peek_digit r 0) [
  | none ↦ (none, r)
  | some res ↦ if res == 0 then (some 0, skip 1 r) else read_v4_digits 2 1 res r
]

-- `?` on what such a method returned.
on_some : Option ℕ × Reader → (ℕ → Reader → Option ℕ × Reader) → Option ℕ × Reader
on_some (none, r) next = (none, r)
on_some (some o, r) next = next o r

-- `if !self.read_str(".") { return None; }`
on_dot : Bool × Reader → (Reader → Option ℕ × Reader) → Option ℕ × Reader
on_dot (true, r) next = next r
on_dot (false, r) next = (none, r)

-- `for i in (0..3).rev()`: the argument is the number of rounds left, `i + 1`.
unfoldable pub read_v4_parts : ℕ → ℕ → Reader → Option ℕ × Reader
unfolding on_some on_dot
read_v4_parts zero addr r = (some addr, r)
read_v4_parts (suc i) addr r =
    on_dot (read_str (b'.' ∷ []) r) (λ r1.
      on_some (read_v4_octet r1) (λ o r2. read_v4_parts i (bit_or addr (o * 2 ^ (i * 8))) r2))

unfoldable pub read_v4 : Reader → Option ℕ × Reader
unfolding read_v4_octet read_v4_parts on_some
read_v4 r = on_some (read_v4_octet r) (λ o r1. read_v4_parts 3 (o * 2 ^ 24) r1)

-- The `match` on `reader.read_v4()`.
unfoldable pub whole_v4 : Option ℕ × Reader → HostMeta
whole_v4 (none, r) = reg_name
whole_v4 (some addr, r) = if not (has_remaining r) then ipv4 addr else reg_name

unfoldable pub parse_v4_or_reg_name : Bytes → HostMeta
unfolding read_v4 whole_v4 has_remaining
parse_v4_or_reg_name bytes = whole_v4 (read_v4 (new bytes))

-- `while self.peek_digit(i).is_some()`, on the bytes from `pos + i` on: the final `i`.
unfoldable pub port_loop : Bytes → ℕ → ℕ
port_loop [] i = i
port_loop (x ∷ s) i = let rest = port_loop s (i + 1) in if is_ascii_digit x then rest else i

unfoldable pub read_port : Reader → Reader
unfolding port_loop
read_port r =
    let (colon, r1) = read_str (b':' ∷ []) r in
    if colon then skip (port_loop (remaining r1) 0) r1 else r1
