-- ===== src/Normalizer/Write.antt =====
-- `write_v6` of src/normalizer.rs, and the `Display` of the numbers and addresses it writes. With
-- the feature `net` the standard library's `Display` of `Ipv6Addr` takes its place, which it copies.
use fluent_uri_rs.Base.{
  ℕ, zero, suc, ◌+◌, ◌/◌, ◌%◌, ◌^◌, ◌&&◌, List, [], ◌∷◌, ◌++◌, ltb, ◌==◌, if◌then◌else◌, Bytes,
  ascii, take, drop,
}

-- A digit in base 10 or 16, lower case.
abbrev pub digit_char : ℕ → ℕ
digit_char d = if ltb d 10 then d + b'0' else d + 87

-- The digits of a number below `base ^ n`, without leading zeros: `n` is the most digits.
unfoldable pub write_digits : ℕ → ℕ → ℕ → Bytes
write_digits base zero x = []
write_digits base (suc n) x =
    let front = write_digits base n (x / base) in
    (if ltb x base then [] else front) ++ (digit_char (x % base) ∷ [])

-- `{}` of a `u8` or a `u16`, and `{:x}` of a `u16`.
unfoldable pub write_decimal : ℕ → Bytes
unfolding write_digits
write_decimal x = write_digits 10 5 x

-- `{}` of a `usize` of 64 bits, which has at most 20 digits.
unfoldable pub write_usize : ℕ → Bytes
unfolding write_digits
write_usize x = write_digits 10 20 x

unfoldable pub write_hex : ℕ → Bytes
unfolding write_digits
write_hex x = write_digits 16 4 x

-- `{}` of an `Ipv4Addr`.
unfoldable pub write_v4 : ℕ → Bytes
unfolding write_decimal
write_v4 a =
    write_decimal (a / 2 ^ 24 % 256)
    ++ (b'.'
        ∷ (write_decimal (a / 2 ^ 16 % 256)
            ++ (b'.' ∷ (write_decimal (a / 2 ^ 8 % 256) ++ (b'.' ∷ write_decimal (a % 256))))))

pub record Span : Type 0 where
  pub start : ℕ
  pub len : ℕ

-- `for (i, &segment) in segments.iter().enumerate()`: the segments from `i` on, `longest`, `current`.
unfoldable pub find_zeroes : List ℕ → ℕ → Span → Span → Span
find_zeroes [] i longest current = longest
find_zeroes (segment ∷ rest) i longest current =
    let start = if current.len == 0 then i else current.start in
    let grown : Span = record { start = start; len = current.len + 1 } in
    let next : Span = if segment == 0 then grown else record { start = 0; len = 0 } in
    find_zeroes rest (i + 1) (if segment == 0 && ltb longest.len grown.len then grown else longest)
      next

write_tail : List ℕ → Bytes
write_tail [] = []
write_tail (segment ∷ tail) = b':' ∷ (write_hex segment ++ write_tail tail)

unfoldable pub write_subslice : List ℕ → Bytes
unfolding write_tail write_hex
write_subslice [] = []
write_subslice (first ∷ tail) = write_hex first ++ write_tail tail

-- The `else` of `write_v6`.
unfoldable pub write_segments : List ℕ → Bytes
unfolding find_zeroes write_subslice
write_segments segments =
    let zeroes =
      find_zeroes segments 0 (record { start = 0; len = 0 }) (record { start = 0; len = 0 }) in
    if ltb 1 zeroes.len
    then write_subslice (take zeroes.start segments)
      ++ (ascii "::" ++ write_subslice (drop (zeroes.start + zeroes.len) segments))
    else write_subslice segments

-- What `write_v6` appends to `buf`, for eight segments.
unfoldable pub write_v6 : List ℕ → Bytes
unfolding write_segments write_decimal
write_v6 (a ∷ b ∷ c ∷ d ∷ e ∷ f ∷ ab ∷ cd ∷ []) =
    let mapped = a == 0 && b == 0 && c == 0 && d == 0 && e == 0 && f == 0xffff in
    if mapped
    then ascii "::ffff:"
      ++ (write_decimal (ab / 256)
          ++ (b'.'
              ∷ (write_decimal (ab % 256)
                  ++ (b'.' ∷ (write_decimal (cd / 256) ++ (b'.' ∷ write_decimal (cd % 256)))))))
    else write_segments (a ∷ b ∷ c ∷ d ∷ e ∷ f ∷ ab ∷ cd ∷ [])
write_v6 segments = write_segments segments
