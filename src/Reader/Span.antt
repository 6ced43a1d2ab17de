-- ===== src/Reader/Span.antt =====
-- Where `read` and `read_enc` of src/parser.rs are to stop or to fail in a string.
use fluent_uri_rs.Base.{
  ℕ, Bool, true, false, not, ◌&&◌, [], ◌∷◌, ◌++◌, ◌==◌, Bytes, Bool-cases, ==_iff, &&-eq-true, ◌≡◌,
  refl, ap, ◌⊎◌, inl, inr, arith,
}
use fluent_uri_rs.Table.{Table, allows}
use fluent_uri_rs.Table.Consts.{hexdig}
use fluent_uri_rs.Table.Laws.{IsTable, allows-ne}
use fluent_uri_rs.Table.Validate.{is_bad_octet, is_bad_octet_lem, Valid, nil, byte, octet}

-- The byte is neither allowed nor the start of an octet.
abbrev pub stops_at : Table → ℕ → Bool
stops_at t x = not (allows t x) && not (t.allows_enc && x == b'%')

abbrev pub Stops : Table → Bytes → Type 0
Stops t [] = Unit
Stops t (x ∷ l) = stops_at t x ≡ true

-- What follows a `%` that starts no octet.
abbrev pub IsBroken : Bytes → Type 0
IsBroken [] = Unit
IsBroken (hi ∷ []) = Unit
IsBroken (hi ∷ lo ∷ l) = is_bad_octet hi lo ≡ true

pub record Span (t : Table) (l : Bytes) : Type 0 where
  pub word : Bytes
  pub tail : Bytes
  pub splits : l ≡ word ++ tail
  pub valid : Valid t word
  pub stops : Stops t tail

pub record Broken (t : Table) (l : Bytes) : Type 0 where
  pub word : Bytes
  pub tail : Bytes
  pub splits : l ≡ word ++ (b'%' ∷ tail)
  pub valid : Valid t word
  pub broken : IsBroken tail

Span-byte :
    {t : Table} (x : ℕ) {l : Bytes}
    → (x == b'%') ≡ false
    → allows t x ≡ true
    → Span t l ⊎ Broken t l
    → Span t (x ∷ l) ⊎ Broken t (x ∷ l)
Span-byte x n a (inl s) = inl (record {
  word = x ∷ s.word;
  tail = s.tail;
  splits = ap (◌∷◌ x) s.splits;
  valid = byte n a s.valid;
  stops = s.stops;
})
Span-byte x n a (inr s) = inr (record {
  word = x ∷ s.word;
  tail = s.tail;
  splits = ap (◌∷◌ x) s.splits;
  valid = byte n a s.valid;
  broken = s.broken;
})

Span-octet :
    {t : Table} (hi lo : ℕ) {l : Bytes}
    → t.allows_enc ≡ true
    → is_bad_octet hi lo ≡ false
    → Span t l ⊎ Broken t l
    → Span t (b'%' ∷ hi ∷ lo ∷ l) ⊎ Broken t (b'%' ∷ hi ∷ lo ∷ l)
Span-octet hi lo e b r =
    let d =
      &&-eq-true (allows hexdig hi) (allows hexdig lo)
        (ground (arith, b, is_bad_octet_lem hi lo)) in
    elim r [
      | inl s ↦ inl (record {
        word = b'%' ∷ hi ∷ lo ∷ s.word;
        tail = s.tail;
        splits = ap (λ w. b'%' ∷ hi ∷ lo ∷ w) s.splits;
        valid = octet e d.0 d.1 s.valid;
        stops = s.stops;
      })
      | inr s ↦ inr (record {
        word = b'%' ∷ hi ∷ lo ∷ s.word;
        tail = s.tail;
        splits = ap (λ w. b'%' ∷ hi ∷ lo ∷ w) s.splits;
        valid = octet e d.0 d.1 s.valid;
        broken = s.broken;
      })
    ]

stop_here : {t : Table} {l : Bytes} → Stops t l → Span t l ⊎ Broken t l
stop_here {t} {l} s = inl (record { word = []; tail = l; splits = refl; valid = nil; stops = s })

break_here : {t : Table} (l : Bytes) → IsBroken l → Span t (b'%' ∷ l) ⊎ Broken t (b'%' ∷ l)
break_here l b = inr (record { word = []; tail = l; splits = refl; valid = nil; broken = b })

-- One round: the octets are left to `octets`, the bytes to `rest`.
split_at :
    {t : Table} (x : ℕ) (l : Bytes)
    → IsTable t
    → (t.allows_enc ≡ true → Span t (b'%' ∷ l) ⊎ Broken t (b'%' ∷ l))
    → Span t l ⊎ Broken t l
    → Span t (x ∷ l) ⊎ Broken t (x ∷ l)
split_at {t} x l i octets rest = elim (Bool-cases (allows t x)) [
  | inl a ↦ Span-byte x (allows-ne i x a) a rest
  | inr a ↦ elim (Bool-cases (t.allows_enc && x == b'%')) [
    | inl p ↦ let d = &&-eq-true t.allows_enc (x == b'%') p in rw ((==_iff x _).0 d.1) (octets d.0)
    | inr n ↦ stop_here (ground arith)
  ]
]

-- Every string is a valid word up to a stop, or up to a broken octet.
pub split : (t : Table) (l : Bytes) → IsTable t → Span t l ⊎ Broken t l
split t [] i = stop_here tt
split t (x ∷ []) i = split_at x [] i (λ e. break_here [] tt) (split t [] i)
split t (x ∷ y ∷ []) i = split_at x (y ∷ []) i (λ e. break_here (y ∷ []) tt) (split t (y ∷ []) i)
split t (x ∷ hi ∷ lo ∷ l) i =
    let octets = λ (e : t.allows_enc ≡ true). at_octet e (split t l i) in
    split_at x (hi ∷ lo ∷ l) i octets (split t (hi ∷ lo ∷ l) i)
  where
    at_octet :
        t.allows_enc ≡ true
        → Span t l ⊎ Broken t l
        → Span t (b'%' ∷ hi ∷ lo ∷ l) ⊎ Broken t (b'%' ∷ hi ∷ lo ∷ l)
    at_octet e r = elim (Bool-cases (is_bad_octet hi lo)) [
      | inl b ↦ break_here (hi ∷ lo ∷ l) b
      | inr b ↦ Span-octet hi lo e b r
    ]
