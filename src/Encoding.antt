-- ===== src/Encoding.antt =====
-- src/encoding/imp.rs: the tables of hexadecimal digits and percent-decoding.
use fluent_uri_rs.Base.{
  ℕ, zero, suc, ◌+◌, ◌-◌, ◌*◌, ◌^◌, bit_or, Bool, Option, none, some, [], ◌∷◌, ◌++◌, ◌==◌,
  if◌then◌else◌, Bytes, take, drop,
}
use fluent_uri_rs.Base.Run.{Run, done, panic, ◌>>=◌}
use fluent_uri_rs.Table.{store}

-- `while i < 10`, with the rounds left.
octet_digits : ℕ → ℕ → ℕ → (ℕ → ℕ) → ℕ → ℕ
octet_digits zero i shift out = out
octet_digits (suc n) i shift out =
    octet_digits n (i + 1) shift (store out (i + b'0') (i * 2 ^ shift))

-- `while i < 16`
octet_letters : ℕ → ℕ → ℕ → (ℕ → ℕ) → ℕ → ℕ
octet_letters zero i shift out = out
octet_letters (suc n) i shift out =
    octet_letters n (i + 1) shift
      (store (store out (i - 10 + b'A') (i * 2 ^ shift)) (i - 10 + b'a') (i * 2 ^ shift))

unfoldable pub gen_octet_table : Bool → ℕ → ℕ
unfolding octet_digits octet_letters
gen_octet_table hi =
    let shift = if hi then 4 else 0 in
    octet_letters 6 10 shift (octet_digits 10 0 shift (λ i. 0xff))

unfoldable pub octet_table_hi : ℕ → ℕ
unfolding gen_octet_table
octet_table_hi = gen_octet_table Bool.true

unfoldable pub octet_table_lo : ℕ → ℕ
unfolding gen_octet_table
octet_table_lo = gen_octet_table Bool.false

unfoldable pub decode_octet : ℕ → ℕ → ℕ
unfolding octet_table_hi octet_table_lo
decode_octet hi lo = bit_or (octet_table_hi hi) (octet_table_lo lo)

-- `s.iter().position(|&x| x == b'%')`
unfoldable pub position : Bytes → Option ℕ
position [] = none
position (x ∷ s) =
    let later = position s in
    if x == b'%' then some 0 else elim later [ none ↦ none | some i ↦ some (i + 1) ]

-- The loop of `decode` on `s[i..]`. An octet that is cut short is an index out of range.
unfoldable pub decode_loop : Bytes → Bytes → Run Bytes
decode_loop [] buf = done buf
decode_loop (x ∷ []) buf = if x == b'%' then panic else done (buf ++ (x ∷ []))
decode_loop (x ∷ y ∷ []) buf =
    let rest = decode_loop (y ∷ []) (buf ++ (x ∷ [])) in if x == b'%' then panic else rest
decode_loop (x ∷ hi ∷ lo ∷ s) buf =
    let plain = decode_loop (hi ∷ lo ∷ s) (buf ++ (x ∷ [])) in
    let octet = decode_loop s (buf ++ (decode_octet hi lo ∷ [])) in
    if x == b'%' then octet else plain

unfoldable pub decode : Bytes → Run (Option Bytes)
unfolding position decode_loop
decode s = elim (position s) [
  | none ↦ done none
  | some i ↦ (decode_loop (drop i s) (take i s) >>= λ buf. done (some buf))
]
