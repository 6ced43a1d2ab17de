-- ===== src/Reader/Reads.antt =====
-- What `read` and `read_enc` return on a valid word, and on a broken octet.
use fluent_uri_rs.Base.{
  ℕ, ◌+◌, Bool, true, false, [], ◌∷◌, ◌++◌, append-nil, append_assoc, ltb, ◌==◌, Bytes, length,
  length-append, Bool-cases, ◌≡◌, refl, sym, ap, ◌∙◌, inl, inr, arith,
}
use fluent_uri_rs.Error.{ok, err, invalid_octet}
use fluent_uri_rs.Reader.{read_loop, read_enc_loop, read_enc, read}
use fluent_uri_rs.Reader.View.{at, remaining-at}
use fluent_uri_rs.Reader.Span.{Stops, IsBroken}
use fluent_uri_rs.Table.{Table, allows}
use fluent_uri_rs.Table.Consts.{hexdig}
use fluent_uri_rs.Table.Laws.{IsTable}
use fluent_uri_rs.Table.Validate.{is_bad_octet, is_bad_octet_lem, Valid, nil, byte, octet}

-- What the closure makes of a word, byte by byte.
abbrev pub scan : {S : Type 0} → (ℕ → ℕ → S → S) → Bytes → ℕ → S → S
scan f [] i s = s
scan f (x ∷ w) i s = scan f w (i + 1) (f i x s)

abbrev pub is_nonempty : Bytes → Bool
is_nonempty [] = false
is_nonempty (x ∷ w) = true

module _ {S : Type 0} (t : Table) (f : ℕ → ℕ → S → S) where
  loop-byte :
      (x : ℕ) (l : Bytes) (i : ℕ) (s : S)
      → (x == b'%') ≡ false
      → allows t x ≡ true
      → read_enc_loop t f (x ∷ l) i s ≡ read_enc_loop t f l (i + 1) (f i x s)
  unfolding read_enc_loop
  loop-byte x [] i s n a = rw (n, a)
  loop-byte x (y ∷ []) i s n a = rw (n, a)
  loop-byte x (y ∷ z ∷ l) i s n a = rw (n, a)

  loop-octet :
      (hi lo : ℕ) (l : Bytes) (i : ℕ) (s : S)
      → is_bad_octet hi lo ≡ false
      → read_enc_loop t f (b'%' ∷ hi ∷ lo ∷ l) i s ≡ read_enc_loop t f l (i + 3) s
  unfolding read_enc_loop
  loop-octet hi lo l i s b = rw b

  loop-stop :
      (l : Bytes) (i : ℕ) (s : S)
      → t.allows_enc ≡ true
      → Stops t l
      → read_enc_loop t f l i s ≡ ok (i, s)
  unfolding read_enc_loop
  loop-stop [] i s e h = refl
  loop-stop (x ∷ []) i s e h = ground arith
  loop-stop (x ∷ y ∷ []) i s e h = ground arith
  loop-stop (x ∷ y ∷ z ∷ l) i s e h = ground arith

  loop-broken :
      (l : Bytes) (i : ℕ) (s : S)
      → IsBroken l
      → read_enc_loop t f (b'%' ∷ l) i s ≡ err i invalid_octet
  unfolding read_enc_loop
  loop-broken [] i s h = refl
  loop-broken (x ∷ []) i s h = refl
  loop-broken (x ∷ y ∷ l) i s h = rw h

  -- Over a word the loop comes to the state that the closure makes of it, if the closure passes
  -- over the bytes of octets.
  loop-Valid :
      {w : Bytes} (l : Bytes) (i : ℕ) (s : S)
      → ((i : ℕ) (s : S) → f i b'%' s ≡ s)
      → ((i x : ℕ) (s : S) → allows hexdig x ≡ true → f i x s ≡ s)
      → Valid t w
      → read_enc_loop t f (w ++ l) i s ≡ read_enc_loop t f l (i + length w) (scan f w i s)
  loop-Valid l i s p h nil = ap (λ k. read_enc_loop t f l k s) (omega arith)
  loop-Valid l i s p h (byte {x} {w} n a v) =
      loop-byte x (w ++ l) i s n a
      ∙ loop-Valid l (i + 1) (f i x s) p h v
      ∙ ap (λ k. read_enc_loop t f l k (scan f w (i + 1) (f i x s))) (omega arith)
  loop-Valid l i s p h (octet {hi} {lo} {w} e a b v) =
      loop-octet hi lo (w ++ l) i s (rw (is_bad_octet_lem, a, b))
      ∙ loop-Valid l (i + 3) s p h v
      ∙ rw (p i s, h (i + 1) hi s a, h (i + 1 + 1) lo s b)
          (let three : i + 1 + 1 + 1 ≡ i + 3 = omega arith in
            rw three (ap (λ k. read_enc_loop t f l k (scan f w (i + 3) s)) (omega arith)))

  pub read_enc-Valid :
      {w : Bytes} (pre l : Bytes) (s : S)
      → t.allows_enc ≡ true
      → ((i : ℕ) (s : S) → f i b'%' s ≡ s)
      → ((i x : ℕ) (s : S) → allows hexdig x ≡ true → f i x s ≡ s)
      → Valid t w
      → Stops t l
      → read_enc t f s (at pre (w ++ l)) ≡ ok (scan f w (length pre) s, at (pre ++ w) l)
  read_enc-Valid {w} pre l s e p h v st =
      let run = loop-Valid l (length pre) s p h v ∙ loop-stop l _ (scan f w (length pre) s) e st in
      unfold read_enc in rw (remaining-at, run, append_assoc, length-append)

  pub read_enc-broken :
      {w : Bytes} (pre l : Bytes) (s : S)
      → ((i : ℕ) (s : S) → f i b'%' s ≡ s)
      → ((i x : ℕ) (s : S) → allows hexdig x ≡ true → f i x s ≡ s)
      → Valid t w
      → IsBroken l
      → read_enc t f s (at pre (w ++ (b'%' ∷ l))) ≡ err (length pre + length w) invalid_octet
  read_enc-broken {w} pre l s p h v b =
      let run =
        loop-Valid (b'%' ∷ l) (length pre) s p h v ∙ loop-broken l _ (scan f w (length pre) s) b in
      unfold read_enc in rw (remaining-at, run)

module _ (t : Table) (i : IsTable t) where
  read_loop-Valid :
      {w : Bytes} (l : Bytes) (k : ℕ)
      → t.allows_enc ≡ false
      → Valid t w
      → Stops t l
      → read_loop t (w ++ l) k ≡ k + length w
  unfolding read_loop
  read_loop-Valid [] k e nil st = omega arith
  read_loop-Valid (x ∷ l) k e nil st = ground arith
  read_loop-Valid l k e (byte n a v) st = rw a (read_loop-Valid l (k + 1) e v st ∙ omega arith)
  read_loop-Valid l k e (octet e' a b v) st = absurd (let c : true ≡ false = sym e' ∙ e in cc)

grows : (pre w : Bytes) → ltb (length pre) (length (pre ++ w)) ≡ is_nonempty w
grows pre [] = rw append-nil (ground arith)
grows pre (x ∷ w) = rw length-append (ground arith)

-- `read` passes over a valid word up to a stop, and says whether it is empty.
pub read-Valid :
    {t : Table} {w : Bytes} (pre l : Bytes)
    → IsTable t
    → Valid t w
    → Stops t l
    → read t (at pre (w ++ l)) ≡ ok (is_nonempty w, at (pre ++ w) l)
read-Valid {t} {w} pre l i v st = elim (Bool-cases t.allows_enc) [
  | inl e ↦
      unfold read in
      simp (e, read_enc-Valid t (λ i x s. s) pre l tt e (λ i s. refl) (λ i x s h. refl) v st, grows)
  | inr e ↦
      unfold read in
      simp (e, remaining-at, read_loop-Valid t i l (length pre) e v st)
        (rw (← length-append pre w, grows pre w, append_assoc))
]

-- Where the table allows octets, a percent sign that two hexadecimal digits do not follow, behind a
-- valid word, makes `read` fail, and the index of the error is that of the percent sign.
pub read-broken :
    {t : Table} {w : Bytes} (pre l : Bytes)
    → t.allows_enc ≡ true
    → Valid t w
    → IsBroken l
    → read t (at pre (w ++ (b'%' ∷ l))) ≡ err (length pre + length w) invalid_octet
read-broken {t} pre l e v b =
    unfold read in
    simp (e, read_enc-broken t (λ i x s. s) pre l tt (λ i s. refl) (λ i x s h. refl) v b)
