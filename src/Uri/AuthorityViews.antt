-- ===== src/Uri/AuthorityViews.antt =====
-- `as_str`, `host_bounds`, `host_parsed` and `port_to_u16` of `Authority` (src/component.rs) on the
-- text of components.
use fluent_uri_rs.Base.{
  ℕ, ◌+◌, ◌*◌, ◌-◌, ◌≤◌, Bool, true, false, leb, Option, none, some, [], ◌∷◌, ◌++◌, append_assoc,
  if◌then◌else◌, Bytes, length, is_ascii_digit, Bool-cases, inl, inr, ◌≡◌, refl, sym, ap, ◌∙◌,
  arith,
}
use fluent_uri_rs.Base.Run.{done, ◌>>=◌}
use fluent_uri_rs.Net.{HostMeta, ipv4, ipv6, ipv_future, reg_name}
use fluent_uri_rs.Parser.AuthorityStart.{userinfo_text}
use fluent_uri_rs.Parser.Host.{port_text}
use fluent_uri_rs.Spec.{
  AuthParts, Parts, write, scheme_len, path_start, auth_meta_of, meta_of, OnSome,
}
use fluent_uri_rs.Table.Consts
use fluent_uri_rs.Table.Relate.{allows-digit}
use fluent_uri_rs.Table.Validate.{Valid, nil, byte, octet}
use fluent_uri_rs.Uri.{str_slice}
use fluent_uri_rs.Uri.Authority.{
  Host, host_ipv4, host_ipv6, host_ipv_future, host_reg_name, as_str, host_bounds, host,
  host_parsed, parse_u16, to_u16, port_to_u16,
}
use fluent_uri_rs.Uri.AuthorityParts.{
  with_auth, to_slashes, rest_of, length-to_slashes, host-write, port-write, start-write,
}
use fluent_uri_rs.Uri.Parts.{uri_of, str_slice-at, scheme_text, length-auth_text, front-write}

-- The whole authority.
pub as_str-write :
    (p : Parts) (a : AuthParts)
    → as_str (uri_of (with_auth p a))
      ≡ done (userinfo_text a.userinfo ++ (a.host ++ port_text a.port))
unfolding as_str meta_of
as_str-write p a =
    let w = userinfo_text a.userinfo ++ (a.host ++ port_text a.port) in
    let text : write (with_auth p a) ≡ to_slashes p ++ (w ++ rest_of p) =
      front-write (with_auth p a)
      ∙ append_assoc (scheme_text p.scheme) (b'/' ∷ b'/' ∷ w) (rest_of p)
      ∙ sym (append_assoc (scheme_text p.scheme) (b'/' ∷ b'/' ∷ []) (w ++ rest_of p)) in
    let end : scheme_len p.scheme + 2 + length w ≡ path_start (with_auth p a) =
      omega (arith, length-auth_text (scheme_len p.scheme) (some a)) in
    ap (λ s. str_slice (write (with_auth p a)) s (path_start (with_auth p a))) (start-write p a)
    ∙ ap (str_slice (write (with_auth p a)) (scheme_len p.scheme + 2)) (sym end)
    ∙ str_slice-at (to_slashes p) w (rest_of p) text (length-to_slashes p)

pub host_bounds-write :
    (p : Parts) (a : AuthParts)
    → host_bounds (uri_of (with_auth p a)) ≡ done (auth_meta_of (scheme_len p.scheme) a).host_bounds
unfolding host_bounds meta_of
host_bounds-write p a = refl

-- What a host of a kind and a text is.
abbrev pub host_of : HostMeta → Bytes → Host
host_of (ipv4 addr) name = host_ipv4 addr
host_of (ipv6 addr) name = host_ipv6 addr
host_of ipv_future name = host_ipv_future
host_of reg_name name = host_reg_name name

pub host_parsed-write :
    (p : Parts) (a : AuthParts)
    → host_parsed (uri_of (with_auth p a)) ≡ done (host_of a.host_meta a.host)
unfolding host_parsed meta_of
host_parsed-write p a = by a.host_meta
  where
    by :
        (m : HostMeta)
        → (elim m [
          | ipv4 addr ↦ done (host_ipv4 addr)
          | ipv6 addr ↦ done (host_ipv6 addr)
          | ipv_future ↦ done host_ipv_future
          | reg_name ↦ (host (uri_of (with_auth p a)) >>= λ name. done (host_reg_name name))
        ])
          ≡ done (host_of m a.host)
    by (ipv4 addr) = refl
    by (ipv6 addr) = refl
    by ipv_future = refl
    by reg_name = rw (host-write p a) refl

-- The number that decimal digits write behind `n`.
abbrev pub number : ℕ → Bytes → ℕ
number n [] = n
number n (x ∷ s) = number (n * 10 + (x - b'0')) s

number_le : (n : ℕ) (s : Bytes) → n ≤ number n s
number_le n [] = omega arith
number_le n (x ∷ s) = omega (arith, number_le (n * 10 + (x - b'0')) s)

parse_u16-number :
    (n : ℕ) {s : Bytes}
    → Valid Consts.digit s
    → n ≤ 65535
    → parse_u16 n s ≡ (if leb (number n s) 65535 then some (number n s) else none)
unfolding parse_u16
parse_u16-number n nil h = ground arith
parse_u16-number n (byte {x} {w} m a v) h =
    let d : is_ascii_digit x ≡ true = sym (allows-digit x) ∙ a in
    let n' = n * 10 + (x - b'0') in
    elim (Bool-cases (leb n' 65535)) [
      | inl k ↦ rw (d, k) (parse_u16-number n' v (ground (arith, k)))
      | inr k ↦
          let over = number_le n' w in
          let big : leb (number n' w) 65535 ≡ false = ground (arith, k, over) in rw (d, k, big) refl
    ]
parse_u16-number n (octet e a b v) h = absurd (
    let c : (Consts.digit).allows_enc ≡ false = unfold Consts.digit in refl in
    let b : true ≡ false = sym e ∙ c in cc)

-- The port as a number: absent where there are no digits, and an error from 65536 on.
abbrev pub port_number : Option Bytes → Option (Option ℕ)
port_number none = some none
port_number (some []) = some none
port_number (some (x ∷ s)) =
    if leb (number 0 (x ∷ s)) 65535 then some (some (number 0 (x ∷ s))) else none

to_u16-port_number : (o : Option Bytes) → OnSome (Valid Consts.digit) o → to_u16 o ≡ port_number o
unfolding to_u16
to_u16-port_number none v = refl
to_u16-port_number (some []) v = refl
to_u16-port_number (some (x ∷ s)) v =
    rw (to_u16, parse_u16-number 0 v (omega arith))
      (by (leb (number 0 (x ∷ s)) 65535) (number 0 (x ∷ s)))
  where
    by :
        (b : Bool) (n : ℕ)
        → elim (if b then some n else none) [ none ↦ none | some n ↦ some (some n) ]
          ≡ (if b then some (some n) else none)
    by true n = refl
    by false n = refl

pub port_to_u16-write :
    (p : Parts) (a : AuthParts)
    → OnSome (Valid Consts.digit) a.port
    → port_to_u16 (uri_of (with_auth p a)) ≡ done (port_number a.port)
unfolding port_to_u16
port_to_u16-write p a v = rw (port-write p a) (ap done (to_u16-port_number a.port v))
