-- ===== src/Parser/Total/Scan.antt =====
-- The scan of an authority for colons, in src/parser.rs.
use fluent_uri_rs.Base.{
  ℕ, suc, ◌+◌, ◌≤◌, true, false, [], ◌∷◌, ◌++◌, ◌==◌, Bytes, length, Bool-cases, ◌≡◌, refl, ap, ◌∙◌,
  ◌⊎◌, inl, inr, arith,
}
use fluent_uri_rs.Parser.{note_colon}
use fluent_uri_rs.Parser.Authority.{scan-named, scan-append, colon-reg_name}
use fluent_uri_rs.Reader.Reads.{scan}
use fluent_uri_rs.Table.Consts
use fluent_uri_rs.Table.Relate.{userinfo_cases}
use fluent_uri_rs.Table.Validate.{Valid, nil, byte, octet}

-- The first colon of a word.
pub record Colon (w : Bytes) : Type 0 where
  pub host : Bytes
  pub rest : Bytes
  pub splits : w ≡ host ++ (b':' ∷ rest)
  pub host_valid : Valid Consts.reg_name host
  pub rest_valid : Valid Consts.userinfo rest

Colon-cons :
    (x : ℕ) {w : Bytes}
    → (x == b'%') ≡ false
    → Valid Consts.userinfo w
    → ((Valid Consts.reg_name w) ⊎ Colon w)
    → (fluent_uri_rs.Table.allows Consts.reg_name x ≡ true) ⊎ (x ≡ b':')
    → (Valid Consts.reg_name (x ∷ w)) ⊎ Colon (x ∷ w)
Colon-cons x n v (inl u) (inl a) = inl (byte n a u)
Colon-cons x n v (inr c) (inl a) = inr (record {
  host = x ∷ c.host;
  rest = c.rest;
  splits = ap (◌∷◌ x) c.splits;
  host_valid = byte n a c.host_valid;
  rest_valid = c.rest_valid;
})
Colon-cons x {w} n v r (inr e) =
    inr
      (record { host = []; rest = w; splits = ap (λ x. x ∷ w) e; host_valid = nil; rest_valid = v })

pub first-Colon : {w : Bytes} → Valid Consts.userinfo w → (Valid Consts.reg_name w) ⊎ Colon w
first-Colon nil = inl nil
first-Colon (byte {x} n a v) = Colon-cons x n v (first-Colon v) (userinfo_cases x a)
first-Colon (octet {hi} {lo} e a b v) = elim (first-Colon v) [
  | inl u ↦ inl (octet name_enc a b u)
  | inr c ↦ inr (record {
    host = b'%' ∷ hi ∷ lo ∷ c.host;
    rest = c.rest;
    splits = ap (λ l. b'%' ∷ hi ∷ lo ∷ l) c.splits;
    host_valid = octet name_enc a b c.host_valid;
    rest_valid = c.rest_valid;
  })
]
  where
    name_enc : (Consts.reg_name).allows_enc ≡ true
    name_enc = unfold Consts.reg_name in refl

-- A name, a colon, and the rest.
pub scan-colon :
    (h rest : Bytes) (i n c : ℕ)
    → Valid Consts.reg_name h
    → scan note_colon (h ++ (b':' ∷ rest)) i (n, c)
      ≡ scan note_colon rest (i + length h + 1) (n + 1, i + length h)
unfolding note_colon
scan-colon h rest i n c v =
    scan-append h (b':' ∷ rest) i (n, c)
    ∙ ap (λ s. scan note_colon (b':' ∷ rest) (i + length h) s)
        (scan-named i (n, c) colon-reg_name v)

-- From two colons on, the count stays above one and the last one is noted.
pub scan-many :
    (w : Bytes) (i n c : ℕ)
    → c ≤ i
    → (n' : ℕ) × (c' : ℕ) × (scan note_colon w i (suc (suc n), c) ≡ (suc (suc n'), c'))
      × (c' ≤ i + length w)
unfolding note_colon
scan-many [] i n c h = (n, c, refl, omega (arith, h))
scan-many (x ∷ w) i n c h = elim (Bool-cases (x == b':')) [
  | inl e ↦
      let (n', c', f, g) = scan-many w (i + 1) (suc n) i (omega arith) in
      let more : suc (suc n) + 1 ≡ suc (suc (suc n)) = omega arith in
      (n', c', rw (e, more) f, omega (arith, g))
  | inr e ↦
      let (n', c', f, g) = scan-many w (i + 1) n c (omega (arith, h)) in
      (n', c', rw e f, omega (arith, g))
]
