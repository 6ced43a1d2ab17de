-- ===== src/Reader/Host/Brackets.antt =====
-- The steps of `read_ip_literal` of src/parser.rs, and where an address in its text ends.
use fluent_uri_rs.Base.{
  ℕ, Bool, true, false, Option, none, some, List, [], ◌∷◌, ◌++◌, ◌==◌, if◌then◌else◌, Bytes,
  Bool-cases, ◌≡◌, refl, sym, ap, ◌∙◌, inl, inr,
}
use fluent_uri_rs.Encoding.{octet_table_lo}
use fluent_uri_rs.Error.{Result, ok, err, ◌>>=◌, unexpected_char, invalid_ipv6_addr}
use fluent_uri_rs.Net.{HostMeta, ipv6, ipv_future}
use fluent_uri_rs.Reader.{Reader, read_str}
use fluent_uri_rs.Reader.Host.{read_ipv_future, ip_addr, read_ip_literal}
use fluent_uri_rs.Reader.V6.{read_v6}
use fluent_uri_rs.Reader.V6.Runs.{is_v6_stop, TailIs}

-- The bytes up to the first one that stops an address.
abbrev pub IsPlain : Bytes → Type 0
IsPlain [] = Unit
IsPlain (x ∷ l) = (is_v6_stop x ≡ false) × IsPlain l

pub record Cut (l : Bytes) : Type 0 where
  pub word : Bytes
  pub tail : Bytes
  pub all : Bool
  pub splits : l ≡ word ++ tail
  pub plain : IsPlain word
  pub stops : TailIs all tail

pub cut : (l : Bytes) → Cut l
cut [] = record { word = []; tail = []; all = true; splits = refl; plain = tt; stops = refl }
cut (x ∷ l) = elim (Bool-cases (is_v6_stop x)) [
  | inl s ↦ record { word = []; tail = x ∷ l; all = false; splits = refl; plain = tt; stops = s }
  | inr p ↦
      let c = cut l in
      record {
        word = x ∷ c.word;
        tail = c.tail;
        all = c.all;
        splits = ap (◌∷◌ x) c.splits;
        plain = (p, c.plain);
        stops = c.stops;
      }
]

pub IsPlain-back : (front back : Bytes) → IsPlain (front ++ back) → IsPlain back
IsPlain-back [] back p = p
IsPlain-back (x ∷ front) back p = IsPlain-back front back p.1

pub bracket_stop : is_v6_stop b']' ≡ true
unfolding octet_table_lo
bracket_stop = refl

-- A closing bracket is not among the plain bytes.
pub plain_closes :
    (back tail t : Bytes) → IsPlain back → back ++ tail ≡ b']' ∷ t → (back ≡ []) × (tail ≡ b']' ∷ t)
plain_closes [] tail t p e = (refl, e)
plain_closes (y ∷ back) tail t p e =
    let here : y ≡ b']' = cc in
    let stop : is_v6_stop y ≡ true = rw here bracket_stop in
    absurd (let c : true ≡ false = sym stop ∙ p.0 in cc)

-- `self.read_str("]")` and what depends on it.
abbrev pub close : HostMeta × Reader → Result (Option HostMeta × Reader)
close (meta, r1) =
    let (closed, r2) = read_str (b']' ∷ []) r1 in
    if closed then ok (some meta, r2) else err r2.pos unexpected_char

pub close_hit :
    (meta : HostMeta) (r1 : Reader) {r2 : Reader}
    → read_str (b']' ∷ []) r1 ≡ (true, r2)
    → close (meta, r1) ≡ ok (some meta, r2)
close_hit meta r1 e = rw e refl

pub close_miss :
    (meta : HostMeta) (r1 : Reader)
    → read_str (b']' ∷ []) r1 ≡ (false, r1)
    → close (meta, r1) ≡ err r1.pos unexpected_char
close_miss meta r1 e = rw e refl

pub bracketed :
    (r0 : Reader) {r : Reader}
    → read_str (b'[' ∷ []) r0 ≡ (true, r)
    → read_ip_literal r0 ≡ (ip_addr r (read_v6 r) >>= close)
unfolding read_ip_literal
bracketed r0 e = rw e refl

pub not_bracketed :
    (r0 : Reader) → read_str (b'[' ∷ []) r0 ≡ (false, r0) → read_ip_literal r0 ≡ ok (none, r0)
unfolding read_ip_literal
not_bracketed r0 e = rw e refl

pub v6_address :
    (r : Reader) {segs : List ℕ} {r1 : Reader}
    → read_v6 r ≡ (some segs, r1)
    → ip_addr r (read_v6 r) ≡ ok (ipv6 segs, r1)
unfolding ip_addr
v6_address r e = rw e refl

module _ (r : Reader) {r1 : Reader} (e : read_v6 r ≡ (none, r1)) where
  pub bad_address : (r1.pos == r.pos) ≡ false → ip_addr r (read_v6 r) ≡ err r.pos invalid_ipv6_addr
  unfolding ip_addr
  bad_address p = rw (e, p) refl

  pub future_address :
      (r1.pos == r.pos) ≡ true
      → ip_addr r (read_v6 r) ≡ (read_ipv_future r1 >>= λ r2. ok (ipv_future, r2))
  unfolding ip_addr
  future_address p = rw (e, p) refl
