-- ===== src/Reader/Host/Total.antt =====
-- `read_ip_literal` of src/parser.rs on every input.
use mathlib.Core.Path.{subst}
use fluent_uri_rs.Base.{
  ℕ, ◌+◌, ◌<◌, Bool, true, false, Option, none, some, List, [], ◌∷◌, ◌++◌, append-nil, append_assoc,
  ◌==◌, Bytes, length, starts_with, length-append, ◌≡◌, refl, sym, ap, ◌∙◌, ◌⊎◌, inl, inr, arith,
}
use fluent_uri_rs.Error.{ok, ◌>>=◌, unexpected_char, invalid_ipv6_addr}
use fluent_uri_rs.Net.{HostMeta, ipv6, ipv_future}
use fluent_uri_rs.Reader.{Reader, new, read_str}
use fluent_uri_rs.Reader.Host.{read_ip_literal}
use fluent_uri_rs.Reader.Host.Future.{IsWord, future_body, Future-total}
use fluent_uri_rs.Reader.Total.{
  Fails, Fails-by, Fails-le, Fails-bind, length-whole, read_str_total, starts_with_cases,
}
use fluent_uri_rs.Reader.V6.{read_v6}
use fluent_uri_rs.Reader.V6.Loop.{V6Shape, v6-Passes}
use fluent_uri_rs.Reader.V6.Runs.{TailIs, Passes}
use fluent_uri_rs.Reader.View.{at, read_str-hit}
use fluent_uri_rs.Spec.{future_text, address_text, IsHost, future, address}
use fluent_uri_rs.Table.Consts
use fluent_uri_rs.Reader.Host.Brackets.{
  IsPlain, Cut, cut, IsPlain-back, bracket_stop, plain_closes, close, close_hit, close_miss,
  bracketed, v6_address, bad_address, future_address,
}
use fluent_uri_rs.Base.{Option-cases}

-- A literal, in front of `tail`.
pub record Literal (pre l : Bytes) : Type 0 where
  pub host : Bytes
  pub meta : HostMeta
  pub tail : Bytes
  pub is_host : IsHost host meta
  pub bracket : starts_with host (b'[' ∷ []) ≡ true
  pub splits : l ≡ host ++ tail
  pub runs : read_ip_literal (at pre l) ≡ ok (some meta, at (pre ++ host) tail)

abbrev Outcome : Bytes → Bytes → Type 0
Outcome pre l = Literal pre l ⊎ Fails (length pre + length l) (read_ip_literal (at pre l))

future-IsHost :
    (v : ℕ) (hex addr : Bytes)
    → (v ≡ b'v') ⊎ (v ≡ b'V')
    → IsWord Consts.hexdig hex
    → IsWord Consts.ipv_future addr
    → IsHost (future_text v hex addr) ipv_future
future-IsHost v (c ∷ hex) (d ∷ addr) e h a = future e h a
future-IsHost v [] addr e h a = absurd h
future-IsHost v (c ∷ hex) [] e h a = absurd a

module _ (pre l : Bytes)
    (hit : read_str (b'[' ∷ []) (at pre (b'[' ∷ l)) ≡ (true, at (pre ++ (b'[' ∷ [])) l)) where
  opened : length (pre ++ (b'[' ∷ [])) + length l ≡ length pre + length (b'[' ∷ l)
  opened = length-whole pre (b'[' ∷ []) l refl

  literal_future :
      read_v6 (at (pre ++ (b'[' ∷ [])) l) ≡ (none, at (pre ++ (b'[' ∷ [])) l)
      → Outcome pre (b'[' ∷ l)
  literal_future none_read =
      let p1 = pre ++ (b'[' ∷ []) in
      let same : (length p1 == length p1) ≡ true = ground arith in
      let begins =
        bracketed _ hit ∙ ap (λ o. o >>= close) (future_address (at p1 l) none_read same) in
      elim (Future-total p1 l) [
        | inr f ↦ inr (
            Fails-by begins (
              Fails-le (omega (arith, opened))
                (Fails-bind close (Fails-bind (λ r2. ok (ipv_future, r2)) f))))
        | inl m ↦
            let p2 = p1 ++ future_body m.v m.hex m.addr in
            let ended = begins ∙ ap (λ o. (o >>= λ r2. ok (ipv_future, r2)) >>= close) m.runs in
            elim (read_str_total b']' p2 m.tail) [
              | inr miss ↦ inr (
                length p2,
                unexpected_char,
                ended ∙ close_miss ipv_future _ miss,
                omega
                    (arith, opened, length-whole p1 (future_body m.v m.hex m.addr) m.tail m.splits),
              )
              | inl (t, e, got) ↦
                  let end : p2 ++ (b']' ∷ []) ≡ pre ++ future_text m.v m.hex m.addr =
                    simp append_assoc in
                  let text : b'[' ∷ (future_body m.v m.hex m.addr ++ (b']' ∷ t))
                      ≡ future_text m.v m.hex m.addr ++ t =
                    simp append_assoc in
                  inl (record {
                    host = future_text m.v m.hex m.addr;
                    meta = ipv_future;
                    tail = t;
                    is_host = future-IsHost m.v m.hex m.addr m.version m.hex_valid m.addr_valid;
                    bracket = refl;
                    splits =
                        ap (◌∷◌ b'[') (m.splits ∙ ap (λ l. future_body m.v m.hex m.addr ++ l) e)
                        ∙ text;
                    runs =
                        ended
                        ∙ close_hit ipv_future _ got
                        ∙ ap (λ q. ok (some ipv_future, at q t)) end;
                  })
            ]
      ]

  literal_bad :
      {r : Reader}
      → read_v6 (at (pre ++ (b'[' ∷ [])) l) ≡ (none, r)
      → (r.pos == length (pre ++ (b'[' ∷ []))) ≡ false
      → Outcome pre (b'[' ∷ l)
  literal_bad e ne = inr (
    length (pre ++ (b'[' ∷ [])),
    invalid_ipv6_addr,
    bracketed _ hit ∙ ap (λ o. o >>= close) (bad_address _ e ne),
    omega (arith, opened),
  )

  literal_address :
      (word tail : Bytes) (all : Bool) {segs : List ℕ}
      → l ≡ word ++ tail
      → IsPlain word
      → TailIs all tail
      → (m : Passes all (V6Shape all) read_v6 word) → m.res ≡ some segs
      → Outcome pre (b'[' ∷ l)
  literal_address word tail all {segs} e plain stops m res =
      let p1 = pre ++ (b'[' ∷ []) in
      let p2 = p1 ++ m.front in
      let left : l ≡ m.front ++ (m.back ++ tail) =
        e ∙ ap (λ w. w ++ tail) m.splits ∙ append_assoc m.front m.back tail in
      let run : read_v6 (at p1 l) ≡ (some segs, at p2 (m.back ++ tail)) =
        ap (λ l. read_v6 (at p1 l)) e
        ∙ m.runs p1 tail stops
        ∙ ap (λ o. (o, at p2 (m.back ++ tail))) res in
      let ended : read_ip_literal (at pre (b'[' ∷ l)) ≡ close (ipv6 segs, at p2 (m.back ++ tail)) =
        bracketed _ hit ∙ ap (λ o. o >>= close) (v6_address _ run) in
      elim (read_str_total b']' p2 (m.back ++ tail)) [
        | inr miss ↦ inr (
          length p2,
          unexpected_char,
          ended ∙ close_miss (ipv6 segs) _ miss,
          omega (arith, opened, length-whole p1 m.front (m.back ++ tail) left),
        )
        | inl (t, f, got) ↦
            let (none_left, here) =
              plain_closes m.back tail t
                (IsPlain-back m.front m.back (subst IsPlain m.splits plain)) f in
            inl (
              ends t m none_left here stops res (ap (◌∷◌ b'[') (left ∙ ap (λ l. m.front ++ l) f))
                (ended ∙ close_hit (ipv6 segs) _ got))
      ]
    where
      ends :
          (t : Bytes) (m : Passes all (V6Shape all) read_v6 word)
          → m.back ≡ []
          → tail ≡ b']' ∷ t
          → TailIs all tail
          → m.res ≡ some segs
          → b'[' ∷ l ≡ b'[' ∷ (m.front ++ (b']' ∷ t))
          → read_ip_literal (at pre (b'[' ∷ l))
            ≡ ok (some (ipv6 segs), at (((pre ++ (b'[' ∷ [])) ++ m.front) ++ (b']' ∷ [])) t)
          → Literal pre (b'[' ∷ l)
      ends t m b here stops res text run =
          let whole : word ≡ m.front = m.splits ∙ ap (λ l. m.front ++ l) b ∙ append-nil m.front in
          let end : ((pre ++ (b'[' ∷ [])) ++ m.front) ++ (b']' ∷ []) ≡ pre ++ address_text m.front =
            simp append_assoc in
          let split : b'[' ∷ (m.front ++ (b']' ∷ t)) ≡ address_text m.front ++ t =
            simp append_assoc in
          let alone : read_v6 (new (m.front ++ (b']' ∷ []))) ≡ (some segs, at m.front (b']' ∷ [])) =
            ap (λ l. read_v6 (new (l ++ (b']' ∷ [])))) (sym whole)
            ∙ m.runs [] (b']' ∷ []) (bracket_tail all tail here stops)
            ∙ rw (res, b) refl in
          record {
            host = address_text m.front;
            meta = ipv6 segs;
            tail = t;
            is_host = address m.front alone;
            bracket = refl;
            splits = text ∙ split;
            runs = run ∙ ap (λ q. ok (some (ipv6 segs), at q t)) end;
          }
        where
          bracket_tail :
              (all : Bool) (tail : Bytes)
              → tail ≡ b']' ∷ t
              → TailIs all tail
              → TailIs all (b']' ∷ [])
          bracket_tail true tail e s = absurd (let c : b']' ∷ t ≡ [] = sym e ∙ s in cc)
          bracket_tail false tail e s = bracket_stop

  literal_rest : Outcome pre (b'[' ∷ l)
  literal_rest =
      let c = cut l in
      let m = v6-Passes c.all c.word in
      let p1 = pre ++ (b'[' ∷ []) in
      let run = ap (λ l. read_v6 (at p1 l)) c.splits ∙ m.runs p1 c.tail c.stops in
      elim (Option-cases m.res) [
        | inr (segs, res) ↦ literal_address c.word c.tail c.all c.splits c.plain c.stops m res
        | inl res ↦
            let none_read = run ∙ ap (λ o. (o, at (p1 ++ m.front) (m.back ++ c.tail))) res in
            elim (empty_cases m.front) [
              | inl e ↦ literal_future (none_read ∙ same c m e)
              | inr ne ↦ literal_bad none_read (rw (length-append p1 m.front) (ground (arith, ne)))
            ]
      ]
    where
      empty_cases : (w : Bytes) → (w ≡ []) ⊎ (0 < length w)
      empty_cases [] = inl refl
      empty_cases (x ∷ w) = inr (omega arith)

      same :
          (c : Cut l) (m : Passes c.all (V6Shape c.all) read_v6 c.word)
          → m.front ≡ []
          → ◌≡◌ {A = Option (List ℕ) × Reader}
              (none, at ((pre ++ (b'[' ∷ [])) ++ m.front) (m.back ++ c.tail))
              (none, at (pre ++ (b'[' ∷ [])) l)
      same c m e =
          let back : m.back ++ c.tail ≡ l =
            sym (c.splits ∙ ap (λ w. w ++ c.tail) (m.splits ∙ ap (λ f. f ++ m.back) e)) in
          rw (back, e, append-nil (pre ++ (b'[' ∷ []))) refl

-- A literal is read, or there is none, or the method fails.
pub Literal-total :
    (pre l : Bytes)
    → Literal pre l
      ⊎ (starts_with l (b'[' ∷ []) ≡ false)
      ⊎ Fails (length pre + length l) (read_ip_literal (at pre l))
Literal-total pre l = elim (starts_with_cases b'[' l) [
  | inr e ↦ inr (inl e)
  | inl (t, e) ↦
      subst
        (λ l.
          Literal pre l
          ⊎ (starts_with l (b'[' ∷ []) ≡ false)
          ⊎ Fails (length pre + length l) (read_ip_literal (at pre l)))
        (sym e)
        (elim (literal_rest pre t (read_str-hit pre (b'[' ∷ []) t)) [
          | inl m ↦ inl m
          | inr f ↦ inr (inr f)
        ])
]
