-- ===== src/EStr/RoundTrip.antt =====
-- Percent-decoding (src/encoding/imp.rs) after percent-encoding (src/encoding/estring.rs).
use fluent_uri_rs.Base.{
  ℕ, suc, ◌+◌, ◌*◌, ◌<◌, true, false, none, some, [], ◌∷◌, ◌++◌, append-nil, append_assoc, ◌==◌,
  if◌then◌else◌, Bytes, take, drop, all_below, Bool-cases, ==_iff, ◌≡◌, refl, sym, ap, ◌∙◌, ◌⊎◌,
  inl, inr, arith,
}
use fluent_uri_rs.Base.Run.{Run, done}
use fluent_uri_rs.EStr.{Decode, borrowed, owned, as_bytes, decode, encode_bytes, encode}
use fluent_uri_rs.Encoding
use fluent_uri_rs.Encoding.{decode_octet, position, decode_loop, octet_table_hi, octet_table_lo}
use fluent_uri_rs.Table
use fluent_uri_rs.Table.{Table, allows, is_subset, hex_table}
use fluent_uri_rs.Table.Laws.{IsTable, allows-ne, all_below-lt, is_subset-enc}

-- Every byte is below 256.
abbrev pub AreBytes : Bytes → Type 0
AreBytes [] = Unit
AreBytes (x ∷ s) = (x < 256) × AreBytes s

decode_octet-hex_table :
    (x : ℕ) → x < 256 → decode_octet (hex_table (x * 2)) (hex_table (x * 2 + 1)) ≡ x
decode_octet-hex_table x h =
    (==_iff (decode_octet (hex_table (x * 2)) (hex_table (x * 2 + 1))) x).0 (
      all_below-lt 256 (λ x. decode_octet (hex_table (x * 2)) (hex_table (x * 2 + 1)) == x) x
        all_octets h)
  where
    all_octets :
        all_below 256 (λ x. decode_octet (hex_table (x * 2)) (hex_table (x * 2 + 1)) == x) ≡ true
    all_octets = unfold all_below decode_octet octet_table_hi octet_table_lo hex_table in refl

-- What `encode` writes for a byte.
abbrev enc_text : Table → ℕ → Bytes
enc_text t x = if allows t x then x ∷ [] else b'%' ∷ hex_table (x * 2) ∷ hex_table (x * 2 + 1) ∷ []

abbrev enc_all : Table → Bytes → Bytes
enc_all t [] = []
enc_all t (x ∷ s) = enc_text t x ++ enc_all t s

encode-text : (t : Table) (x : ℕ) (buf : Bytes) → Table.encode t x buf ≡ buf ++ enc_text t x
unfolding Table.encode
encode-text t x buf = elim (Bool-cases (allows t x)) [
  | inl a ↦ rw a refl
  | inr a ↦ rw (a, append_assoc, append_assoc) refl
]

encode_bytes-all : (t : Table) (s buf : Bytes) → encode_bytes t s buf ≡ buf ++ enc_all t s
unfolding encode_bytes
encode_bytes-all t [] buf = sym (append-nil buf)
encode_bytes-all t (x ∷ s) buf =
    encode_bytes-all t s (Table.encode t x buf)
    ∙ ap (λ b. b ++ enc_all t s) (encode-text t x buf)
    ∙ append_assoc buf (enc_text t x) (enc_all t s)

-- A byte that is no percent sign is taken as it is.
pub decode_loop-plain :
    (x : ℕ) (l buf : Bytes)
    → (x == b'%') ≡ false
    → decode_loop (x ∷ l) buf ≡ decode_loop l (buf ++ (x ∷ []))
unfolding decode_loop
decode_loop-plain x [] buf h = rw h refl
decode_loop-plain x (y ∷ []) buf h = rw h refl
decode_loop-plain x (y ∷ z ∷ l) buf h = rw h refl

decode_loop-all :
    {t : Table} (s buf : Bytes)
    → IsTable t
    → AreBytes s
    → decode_loop (enc_all t s) buf ≡ done (buf ++ s)
unfolding decode_loop
decode_loop-all [] buf i h = ap done (sym (append-nil buf))
decode_loop-all {t} (x ∷ s) buf i (h, hs) = elim (Bool-cases (allows t x)) [
  | inl a ↦ rw a (
      decode_loop-plain x (enc_all t s) buf (allows-ne i x a)
      ∙ decode_loop-all s (buf ++ (x ∷ [])) i hs
      ∙ ap done (append_assoc buf (x ∷ []) s))
  | inr a ↦
      rw (a, decode_octet-hex_table x h)
        (decode_loop-all s (buf ++ (x ∷ [])) i hs ∙ ap done (append_assoc buf (x ∷ []) s))
]

-- Where the first percent sign stands.
position-hit : (x : ℕ) (l : Bytes) → (x == b'%') ≡ true → position (x ∷ l) ≡ some 0
unfolding position
position-hit x l h = rw h refl

position-next :
    (x : ℕ) (l : Bytes) {j : ℕ}
    → (x == b'%') ≡ false
    → position l ≡ some j
    → position (x ∷ l) ≡ some (suc j)
unfolding position
position-next x l {j} h e = rw (h, e) (ap some (omega arith))

position-miss :
    (x : ℕ) (l : Bytes) → (x == b'%') ≡ false → position l ≡ none → position (x ∷ l) ≡ none
unfolding position
position-miss x l h e = rw (h, e) refl

-- Up to the first percent sign, or to the end, the loop copies.
Copies : Bytes → Type 0
Copies l =
    ((i : ℕ) × (position l ≡ some i)
      × ((buf : Bytes) → decode_loop l buf ≡ decode_loop (drop i l) (buf ++ take i l)))
    ⊎ ((position l ≡ none) × ((buf : Bytes) → decode_loop l buf ≡ done (buf ++ l)))

decode_loop-Copies : (l : Bytes) → Copies l
unfolding Copies position decode_loop
decode_loop-Copies [] = inr (refl, λ buf. ap done (sym (append-nil buf)))
decode_loop-Copies (x ∷ l) = elim (Bool-cases (x == b'%')) [
  | inl h ↦ inl (0, position-hit x l h, λ buf. ap (decode_loop (x ∷ l)) (sym (append-nil buf)))
  | inr h ↦ elim (decode_loop-Copies l) [
    | inl (i, e, run) ↦ inl (
      suc i,
      position-next x l h e,
      λ buf.
          decode_loop-plain x l buf h
          ∙ run (buf ++ (x ∷ []))
          ∙ ap (decode_loop (drop i l)) (append_assoc buf (x ∷ []) (take i l)),
    )
    | inr (e, run) ↦ inr (
      position-miss x l h e,
      λ buf.
          decode_loop-plain x l buf h
          ∙ run (buf ++ (x ∷ []))
          ∙ ap done (append_assoc buf (x ∷ []) l),
    )
  ]
]

decode-some :
    (l : Bytes) {i : ℕ} {r : Bytes}
    → position l ≡ some i
    → decode_loop (drop i l) (take i l) ≡ done r
    → Encoding.decode l ≡ done (some r)
unfolding Encoding.decode
decode-some l e f = rw (Encoding.decode, e, f) refl

decode-none : (l : Bytes) → position l ≡ none → Encoding.decode l ≡ done none
unfolding Encoding.decode
decode-none l e = rw (Encoding.decode, e) refl

owned_by :
    (e : Table) (l : Bytes) {r : Bytes}
    → e.allows_enc ≡ true
    → Encoding.decode l ≡ done (some r)
    → decode e l ≡ done (owned r)
unfolding decode
owned_by e l a d = rw (a, d) refl

borrowed_by :
    (e : Table) (l : Bytes)
    → e.allows_enc ≡ true
    → Encoding.decode l ≡ done none
    → decode e l ≡ done (borrowed l)
unfolding decode
borrowed_by e l a d = rw (a, d) refl

done-inj : {a b : Bytes} → ◌≡◌ {A = Run Bytes} (done a) (done b) → a ≡ b
done-inj e = cc

decoded :
    (e t : Table) (s : Bytes)
    → e.allows_enc ≡ true
    → IsTable t
    → AreBytes s
    → (d : Decode) × (decode e (encode_bytes t s []) ≡ done d) × (as_bytes d ≡ s)
unfolding Copies as_bytes
decoded e t s a i h =
    let l = encode_bytes t s [] in
    let all : decode_loop l [] ≡ done s =
      ap (λ l. decode_loop l []) (encode_bytes-all t s []) ∙ decode_loop-all s [] i h in
    elim (decode_loop-Copies l) [
      | inl (k, p, run) ↦ (owned s, owned_by e l a (decode-some l p (sym (run []) ∙ all)), refl)
      | inr (p, run) ↦
          (borrowed l, borrowed_by e l a (decode-none l p), done-inj (sym (run []) ∙ all))
    ]

encode_by :
    (e t : Table) (s : Bytes)
    → is_subset t e ≡ true
    → t.allows_enc ≡ true
    → encode e t [] s ≡ done (encode_bytes t s [])
unfolding encode
encode_by e t s b c = rw (b, c) refl

-- Bytes are encoded onto an empty string without a panic, by a table that allows octets but no `%`
-- as a byte and is a subset of the encoder's, and decoding gives these bytes again.
pub decode-encode :
    (e t : Table) (s : Bytes)
    → is_subset t e ≡ true
    → t.allows_enc ≡ true
    → IsTable t
    → AreBytes s
    → (l : Bytes) × (encode e t [] s ≡ done l)
      × (d : Decode) × (decode e l ≡ done d)
      × (as_bytes d ≡ s)
decode-encode e t s b c i h =
    let (d, run, same) = decoded e t s (is_subset-enc t e b c) i h in
    (encode_bytes t s [], encode_by e t s b c, d, run, same)
