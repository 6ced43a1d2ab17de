-- ===== src/Reader/Host/Literal.antt =====
-- `read_ip_literal` on an address in brackets, whatever comes before and behind it.
use fluent_uri_rs.Base.{
  ℕ, true, false, Option, none, some, List, [], ◌∷◌, ◌++◌, append_assoc, ltb, ◌==◌, if◌then◌else◌,
  Bytes, ◌≡◌, refl, ap, ◌∙◌, ◌⊎◌, inl, inr, arith,
}
use fluent_uri_rs.Encoding.{octet_table_lo}
use fluent_uri_rs.Error.{ok, err, ◌>>=◌, unexpected_char}
use fluent_uri_rs.Net.{HostMeta, ipv6, ipv_future}
use fluent_uri_rs.Reader.{Reader, new, peek, skip, read, read_str}
use fluent_uri_rs.Reader.Host.{
  is_v, future_addr, future_tail, read_ipv_future, ip_addr, read_ip_literal,
}
use fluent_uri_rs.Reader.Reads.{read-Valid}
use fluent_uri_rs.Reader.Span.{Stops}
use fluent_uri_rs.Reader.V6.{read_v6_segment, read_v6_loop, finish_v6, read_v6}
use fluent_uri_rs.Reader.V6.Whole.{v6-everywhere}
use fluent_uri_rs.Reader.View.{at, at-skip, peek-at, read_str-hit, read_str-miss}
use fluent_uri_rs.Spec.{future_text, address_text}
use fluent_uri_rs.Table.{allows}
use fluent_uri_rs.Table.Consts
use fluent_uri_rs.Table.Facts
use fluent_uri_rs.Table.Validate.{Valid}

literal_by :
    (r0 : Reader) {r r1 r2 : Reader} {m : HostMeta}
    → read_str (b'[' ∷ []) r0 ≡ (true, r)
    → ip_addr r (read_v6 r) ≡ ok (m, r1)
    → read_str (b']' ∷ []) r1 ≡ (true, r2)
    → read_ip_literal r0 ≡ ok (some m, r2)
unfolding read_ip_literal
literal_by r0 e f g = rw (e, f, g)

address_by :
    (r : Reader) {segs : List ℕ} {r1 : Reader}
    → read_v6 r ≡ (some segs, r1)
    → ip_addr r (read_v6 r) ≡ ok (ipv6 segs, r1)
unfolding ip_addr
address_by r e = rw e

same_pos : (r : Reader) → (r.pos == r.pos) ≡ true
same_pos r = ground arith

future_by :
    (r : Reader) {r2 : Reader}
    → read_v6 r ≡ (none, r)
    → read_ipv_future r ≡ ok r2
    → ip_addr r (read_v6 r) ≡ ok (ipv_future, r2)
unfolding ip_addr
future_by r e f = rw (e, same_pos r, f)

-- What begins no IPv6 address is left alone.
segment_miss :
    (r : Reader) (x : ℕ)
    → read_str (b':' ∷ []) r ≡ (false, r)
    → peek r 0 ≡ some x
    → ltb (octet_table_lo x) 128 ≡ false
    → read_v6_segment r ≡ (none, r)
unfolding read_v6_segment
segment_miss r x e p h = rw (read_v6_segment, e, p, h) (rw e refl)

v6_miss : (r : Reader) → read_v6_segment r ≡ (none, r) → read_v6 r ≡ (none, r)
unfolding read_v6 read_v6_loop finish_v6
v6_miss r e = rw e

v6-version :
    (pre l : Bytes) (v : ℕ)
    → (v ≡ b'v') ⊎ (v ≡ b'V')
    → read_v6 (at pre (v ∷ l)) ≡ (none, at pre (v ∷ l))
unfolding octet_table_lo
v6-version pre l v (inl e) = rw e (
    v6_miss _ (
      segment_miss _ b'v' (read_str-miss pre (b':' ∷ []) (b'v' ∷ l) refl) (peek-at pre (b'v' ∷ l) 0)
        refl))
v6-version pre l v (inr e) = rw e (
    v6_miss _ (
      segment_miss _ b'V' (read_str-miss pre (b':' ∷ []) (b'V' ∷ l) refl) (peek-at pre (b'V' ∷ l) 0)
        refl))

is_v-version : (v : ℕ) → (v ≡ b'v') ⊎ (v ≡ b'V') → is_v (some v) ≡ true
unfolding is_v
is_v-version v (inl e) = rw e refl
is_v-version v (inr e) = rw e refl

pub future_parts :
    (r : Reader) {v : ℕ} {r1 r2 r3 r4 : Reader}
    → peek r 0 ≡ some v
    → is_v (some v) ≡ true
    → skip 1 r ≡ r1
    → read Consts.hexdig r1 ≡ ok (true, r2)
    → read_str (b'.' ∷ []) r2 ≡ (true, r3)
    → read Consts.ipv_future r3 ≡ ok (true, r4)
    → read_ipv_future r ≡ ok r4
unfolding read_ipv_future future_tail future_addr
future_parts r p i s h d a =
    let guarded = λ (o : Option ℕ).
      if is_v o
      then (read Consts.hexdig (skip 1 r) >>= future_tail)
      else err r.pos unexpected_char in
    ap guarded p ∙ rw (i, s, h, d, a)

dot_stop : (l : Bytes) → Stops Consts.hexdig (b'.' ∷ l)
unfolding allows Consts.hexdig
dot_stop l = refl

bracket_stop : (l : Bytes) → Stops Consts.ipv_future (b']' ∷ l)
unfolding allows Consts.ipv_future
bracket_stop l = refl

-- An IPv6 address in brackets is read whole if `read_v6` takes it alone up to a closing one.
pub literal-address :
    (a : Bytes) (segs : List ℕ)
    → read_v6 (new (a ++ (b']' ∷ []))) ≡ (some segs, at a (b']' ∷ []))
    → (pre tail : Bytes)
    → read_ip_literal (at pre (address_text a ++ tail))
      ≡ ok (some (ipv6 segs), at (pre ++ address_text a) tail)
literal-address a segs h pre tail =
    let p1 = pre ++ (b'[' ∷ []) in
    let text : address_text a ++ tail ≡ (b'[' ∷ []) ++ (a ++ (b']' ∷ tail)) = simp append_assoc in
    let end : (p1 ++ a) ++ (b']' ∷ []) ≡ pre ++ address_text a = simp append_assoc in
    ap (λ l. read_ip_literal (at pre l)) text
    ∙ literal_by _ (read_str-hit pre (b'[' ∷ []) (a ++ (b']' ∷ tail)))
        (address_by _ (v6-everywhere a h p1 tail)) (read_str-hit (p1 ++ a) (b']' ∷ []) tail)
    ∙ ap (λ l. ok (some (ipv6 segs), at l tail)) end

-- An address of a future version in brackets is read whole.
pub literal-future :
    {v c d : ℕ} {hex addr : Bytes}
    → (v ≡ b'v') ⊎ (v ≡ b'V')
    → Valid Consts.hexdig (c ∷ hex)
    → Valid Consts.ipv_future (d ∷ addr)
    → (pre tail : Bytes)
    → read_ip_literal (at pre (future_text v (c ∷ hex) (d ∷ addr) ++ tail))
      ≡ ok (some ipv_future, at (pre ++ future_text v (c ∷ hex) (d ∷ addr)) tail)
literal-future {v} {c} {d} {hex} {addr} e vh va pre tail =
    let behind = b']' ∷ tail in
    let body = (c ∷ hex) ++ (b'.' ∷ ((d ∷ addr) ++ behind)) in
    let p1 = pre ++ (b'[' ∷ []) in
    let p2 = p1 ++ (v ∷ []) in
    let p3 = p2 ++ (c ∷ hex) in
    let p4 = p3 ++ (b'.' ∷ []) in
    let p5 = p4 ++ (d ∷ addr) in
    let text : future_text v (c ∷ hex) (d ∷ addr) ++ tail ≡ (b'[' ∷ []) ++ (v ∷ body) =
      simp append_assoc in
    let end : p5 ++ (b']' ∷ []) ≡ pre ++ future_text v (c ∷ hex) (d ∷ addr) = simp append_assoc in
    let addr_read =
      future_parts (at p1 (v ∷ body)) (peek-at p1 (v ∷ body) 0) (is_v-version v e)
        (at-skip p1 (v ∷ []) body)
        (read-Valid p2 (b'.' ∷ ((d ∷ addr) ++ behind)) Facts.hexdig-IsTable vh
          (dot_stop ((d ∷ addr) ++ behind)))
        (read_str-hit p3 (b'.' ∷ []) ((d ∷ addr) ++ behind))
        (read-Valid p4 behind Facts.ipv_future-IsTable va (bracket_stop tail)) in
    ap (λ l. read_ip_literal (at pre l)) text
    ∙ literal_by _ (read_str-hit pre (b'[' ∷ []) (v ∷ body))
        (future_by _ (v6-version p1 body v e) addr_read) (read_str-hit p5 (b']' ∷ []) tail)
    ∙ ap (λ l. ok (some ipv_future, at l tail)) end
