-- ===== src/Reader/Host/Future.antt =====
-- `read_ipv_future` of src/parser.rs on every input.
use fluent_uri_rs.Base.{
  ℕ, ◌+◌, true, false, Option, some, [], ◌∷◌, ◌++◌, append_assoc, if◌then◌else◌, Bytes, length,
  Bool-cases, ◌≡◌, refl, ap, ◌∙◌, ◌⊎◌, inl, inr, arith,
}
use fluent_uri_rs.Error.{ok, err, ◌>>=◌, unexpected_char}
use fluent_uri_rs.Reader.{Reader, peek, skip, read, read_str}
use fluent_uri_rs.Reader.Host.{is_v, future_addr, future_tail, read_ipv_future}
use fluent_uri_rs.Reader.Host.Literal.{future_parts}
use fluent_uri_rs.Reader.Reads.{is_nonempty}
use fluent_uri_rs.Reader.Total.{
  Fails, Fails-by, Fails-le, Fails-bind, length-whole, read_total, read_str_total,
}
use fluent_uri_rs.Reader.View.{at, at-skip, peek-at}
use fluent_uri_rs.Table.Consts
use fluent_uri_rs.Table.Facts
use fluent_uri_rs.Table.Validate.{Valid}

abbrev pub future_body : ℕ → Bytes → Bytes → Bytes
future_body v hex addr = v ∷ (hex ++ (b'.' ∷ addr))

abbrev pub IsWord : fluent_uri_rs.Table.Table → Bytes → Type 0
IsWord t [] = ⊥
IsWord t (x ∷ w) = Valid t (x ∷ w)

-- What the method takes, in front of `tail`.
pub record Future (pre l : Bytes) : Type 0 where
  pub v : ℕ
  pub hex : Bytes
  pub addr : Bytes
  pub tail : Bytes
  pub version : (v ≡ b'v') ⊎ (v ≡ b'V')
  pub hex_valid : IsWord Consts.hexdig hex
  pub addr_valid : IsWord Consts.ipv_future addr
  pub splits : l ≡ future_body v hex addr ++ tail
  pub runs : read_ipv_future (at pre l) ≡ ok (at (pre ++ future_body v hex addr) tail)

module _ (r : Reader) where
  no_version :
      {o : Option ℕ} → peek r 0 ≡ o → is_v o ≡ false → read_ipv_future r ≡ err r.pos unexpected_char
  unfolding read_ipv_future
  no_version {o} p i =
      let guarded = λ (o : Option ℕ).
        if is_v o
        then (read Consts.hexdig (skip 1 r) >>= future_tail)
        else err r.pos unexpected_char in
      ap guarded p ∙ rw i refl

  behind_version :
      {v : ℕ} {r1 : Reader}
      → peek r 0 ≡ some v
      → is_v (some v) ≡ true
      → skip 1 r ≡ r1
      → read_ipv_future r ≡ (read Consts.hexdig r1 >>= future_tail)
  unfolding read_ipv_future
  behind_version p i s =
      let guarded = λ (o : Option ℕ).
        if is_v o
        then (read Consts.hexdig (skip 1 r) >>= future_tail)
        else err r.pos unexpected_char in
      ap guarded p ∙ rw (i, s) refl

  no_dot : read_str (b'.' ∷ []) r ≡ (false, r) → future_tail (true, r) ≡ err r.pos unexpected_char
  unfolding future_tail
  no_dot e = rw e refl

  behind_dot :
      {r1 : Reader}
      → read_str (b'.' ∷ []) r ≡ (true, r1)
      → future_tail (true, r) ≡ (read Consts.ipv_future r1 >>= future_addr)
  unfolding future_tail
  behind_dot e = rw e refl

  no_hex : future_tail (false, r) ≡ err r.pos unexpected_char
  unfolding future_tail
  no_hex = refl

  no_addr : future_addr (false, r) ≡ err r.pos unexpected_char
  unfolding future_addr
  no_addr = refl

is_v-cases : (x : ℕ) → is_v (some x) ≡ true → (x ≡ b'v') ⊎ (x ≡ b'V')
unfolding is_v
is_v-cases x h = ground arith

module _ (pre : Bytes) (x : ℕ) (l : Bytes) (version : is_v (some x) ≡ true) where
  -- Behind the version letter.
  begins :
      read_ipv_future (at pre (x ∷ l))
      ≡ (read Consts.hexdig (at (pre ++ (x ∷ [])) l) >>= future_tail)
  begins = behind_version _ (peek-at pre (x ∷ l) 0) version (at-skip pre (x ∷ []) l)

  passed : length (pre ++ (x ∷ [])) + length l ≡ length pre + length (x ∷ l)
  passed = length-whole pre (x ∷ []) l refl

  Future-addr_part :
      (c : ℕ) (hex behind t : Bytes)
      → l ≡ (c ∷ hex) ++ behind
      → behind ≡ b'.' ∷ t
      → Valid Consts.hexdig (c ∷ hex)
      → read Consts.hexdig (at (pre ++ (x ∷ [])) l)
        ≡ ok (true, at ((pre ++ (x ∷ [])) ++ (c ∷ hex)) behind)
      → read_str (b'.' ∷ []) (at ((pre ++ (x ∷ [])) ++ (c ∷ hex)) behind)
        ≡ (true, at (((pre ++ (x ∷ [])) ++ (c ∷ hex)) ++ (b'.' ∷ [])) t)
      → Future pre (x ∷ l) ⊎ Fails (length pre + length (x ∷ l)) (read_ipv_future (at pre (x ∷ l)))
  Future-addr_part c hex behind t e d vh run dot =
      let p3 = ((pre ++ (x ∷ [])) ++ (c ∷ hex)) ++ (b'.' ∷ []) in
      let whole : length p3 + length t ≡ length pre + length (x ∷ l) = omega (
        arith,
        passed,
        length-whole (pre ++ (x ∷ [])) (c ∷ hex) behind e,
        length-whole ((pre ++ (x ∷ [])) ++ (c ∷ hex)) (b'.' ∷ []) t d,
      ) in
      let to_addr : read_ipv_future (at pre (x ∷ l))
          ≡ (read Consts.ipv_future (at p3 t) >>= future_addr) =
        begins ∙ ap (λ o. o >>= future_tail) run ∙ behind_dot _ dot in
      elim (read_total Consts.ipv_future p3 t Facts.ipv_future-IsTable) [
        | inr f ↦
            inr (Fails-by to_addr (Fails-le (omega (arith, whole)) (Fails-bind future_addr f)))
        | inl (s, r) ↦ last s.word s.tail s.splits s.valid to_addr whole r
      ]
    where
      last :
          (word tail : Bytes)
          → t ≡ word ++ tail
          → Valid Consts.ipv_future word
          → read_ipv_future (at pre (x ∷ l)) ≡ (
              read Consts.ipv_future (at (((pre ++ (x ∷ [])) ++ (c ∷ hex)) ++ (b'.' ∷ [])) t)
              >>= future_addr)
          → length (((pre ++ (x ∷ [])) ++ (c ∷ hex)) ++ (b'.' ∷ [])) + length t
            ≡ length pre + length (x ∷ l)
          → read Consts.ipv_future (at (((pre ++ (x ∷ [])) ++ (c ∷ hex)) ++ (b'.' ∷ [])) t)
            ≡ ok (
              is_nonempty word,
              at ((((pre ++ (x ∷ [])) ++ (c ∷ hex)) ++ (b'.' ∷ [])) ++ word) tail,
            )
          → Future pre (x ∷ l)
            ⊎ Fails (length pre + length (x ∷ l)) (read_ipv_future (at pre (x ∷ l)))
      last [] tail f v to_addr whole r =
          let p4 = (((pre ++ (x ∷ [])) ++ (c ∷ hex)) ++ (b'.' ∷ [])) ++ [] in
          let more = length-whole (((pre ++ (x ∷ [])) ++ (c ∷ hex)) ++ (b'.' ∷ [])) [] tail f in
          inr (
            length p4,
            unexpected_char,
            to_addr ∙ ap (λ o. o >>= future_addr) r ∙ no_addr _,
            omega (arith, whole, more),
          )
      last (y ∷ addr) tail f v to_addr whole r =
          let end : ((((pre ++ (x ∷ [])) ++ (c ∷ hex)) ++ (b'.' ∷ [])) ++ (y ∷ addr))
              ≡ pre ++ future_body x (c ∷ hex) (y ∷ addr) =
            simp append_assoc in
          let text : (x ∷ ((c ∷ hex) ++ (b'.' ∷ ((y ∷ addr) ++ tail))))
              ≡ future_body x (c ∷ hex) (y ∷ addr) ++ tail =
            simp append_assoc in
          inl (record {
            v = x;
            hex = c ∷ hex;
            addr = y ∷ addr;
            tail = tail;
            version = is_v-cases x version;
            hex_valid = vh;
            addr_valid = v;
            splits = ap (◌∷◌ x) (e ∙ ap (λ l. (c ∷ hex) ++ l) (d ∙ ap (◌∷◌ b'.') f)) ∙ text;
            runs =
                future_parts _ (peek-at pre (x ∷ l) 0) version (at-skip pre (x ∷ []) l) run dot r
                ∙ ap (λ w. ok (at w tail)) end;
          })

  Future-hex_part :
      (word behind : Bytes)
      → l ≡ word ++ behind
      → Valid Consts.hexdig word
      → read Consts.hexdig (at (pre ++ (x ∷ [])) l)
        ≡ ok (is_nonempty word, at ((pre ++ (x ∷ [])) ++ word) behind)
      → Future pre (x ∷ l) ⊎ Fails (length pre + length (x ∷ l)) (read_ipv_future (at pre (x ∷ l)))
  Future-hex_part [] behind e v r =
      let more = length-whole (pre ++ (x ∷ [])) [] behind e in
      inr (
        length ((pre ++ (x ∷ [])) ++ []),
        unexpected_char,
        begins ∙ ap (λ o. o >>= future_tail) r ∙ no_hex _,
        omega (arith, passed, more),
      )
  Future-hex_part (c ∷ hex) behind e v r =
      elim (read_str_total b'.' ((pre ++ (x ∷ [])) ++ (c ∷ hex)) behind) [
        | inl (t, d, hit) ↦ Future-addr_part c hex behind t e d v r hit
        | inr miss ↦
            let more = length-whole (pre ++ (x ∷ [])) (c ∷ hex) behind e in
            inr (
              length ((pre ++ (x ∷ [])) ++ (c ∷ hex)),
              unexpected_char,
              begins ∙ ap (λ o. o >>= future_tail) r ∙ no_dot _ miss,
              omega (arith, passed, more),
            )
      ]

pub Future-total :
    (pre l : Bytes) → Future pre l ⊎ Fails (length pre + length l) (read_ipv_future (at pre l))
Future-total pre [] = inr (
  length pre,
  unexpected_char,
  no_version _ (peek-at pre [] 0) (unfold is_v in refl),
  omega arith,
)
Future-total pre (x ∷ l) = elim (Bool-cases (is_v (some x))) [
  | inr n ↦ inr (length pre, unexpected_char, no_version _ (peek-at pre (x ∷ l) 0) n, omega arith)
  | inl y ↦ elim (read_total Consts.hexdig (pre ++ (x ∷ [])) l Facts.hexdig-IsTable) [
    | inr f ↦ inr (
        Fails-by (begins pre x l y)
          (Fails-le (omega (arith, passed pre x l y)) (Fails-bind future_tail f)))
    | inl (s, r) ↦ Future-hex_part pre x l y s.word s.tail s.splits s.valid r
  ]
]
