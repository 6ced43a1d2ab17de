-- ===== src/Parser/Host.antt =====
-- The host and the port of a well-formed authority, in front of the path.
use fluent_uri_rs.Base.{
  ℕ, false, Option, none, some, [], ◌∷◌, ◌++◌, append-nil, ◌==◌, Bytes, starts_with, ◌≡◌, refl, sym,
  ap, ◌∙◌, ◌⊎◌, inl, inr,
}
use fluent_uri_rs.Error.{ok}
use fluent_uri_rs.Net.{HostMeta}
use fluent_uri_rs.Reader.{Reader}
use fluent_uri_rs.Reader.Host.{read_v4_or_reg_name, read_ip_literal, read_host}
use fluent_uri_rs.Reader.Host.Literal.{literal-future, literal-address}
use fluent_uri_rs.Reader.HostReads.{read_v4_or_reg_name-at, read_port-some, read_port-none}
use fluent_uri_rs.Reader.Span.{Stops}
use fluent_uri_rs.Reader.V4.{read_port}
use fluent_uri_rs.Reader.V4Octet.{V4Stops}
use fluent_uri_rs.Reader.View.{at, read_str-miss}
use fluent_uri_rs.Spec.{OnSome, write_port, IsHost, named, future, address}
use fluent_uri_rs.Table.{allows}
use fluent_uri_rs.Table.Consts
use fluent_uri_rs.Table.Relate.{allows-ne_byte}
use fluent_uri_rs.Table.Validate.{Valid, nil, byte, octet}

-- What may follow an authority.
abbrev pub AuthStops : Bytes → Type 0
AuthStops [] = Unit
AuthStops (x ∷ l) = (x ≡ b'/') ⊎ (x ≡ b'?') ⊎ (x ≡ b'#')

module _ (rest : Bytes) where
  port-V4Stops : (port : Option Bytes) → AuthStops rest → V4Stops (write_port port rest)
  port-V4Stops (some p) s = (refl, refl)
  port-V4Stops none s = rest-V4Stops rest s
    where
      rest-V4Stops : (l : Bytes) → AuthStops l → V4Stops l
      rest-V4Stops [] s = tt
      rest-V4Stops (x ∷ l) (inl e) = rw e (refl, refl)
      rest-V4Stops (x ∷ l) (inr (inl e)) = rw e (refl, refl)
      rest-V4Stops (x ∷ l) (inr (inr e)) = rw e (refl, refl)

pub rest-Stops :
    (t : fluent_uri_rs.Table.Table) (l : Bytes)
    → Stops t (b'/' ∷ [])
    → Stops t (b'?' ∷ [])
    → Stops t (b'#' ∷ [])
    → AuthStops l
    → Stops t l
rest-Stops t [] a b c s = tt
rest-Stops t (x ∷ l) a b c (inl e) = rw e a
rest-Stops t (x ∷ l) a b c (inr (inl e)) = rw e b
rest-Stops t (x ∷ l) a b c (inr (inr e)) = rw e c

port-Stops :
    (port : Option Bytes) (rest : Bytes)
    → AuthStops rest
    → Stops Consts.reg_name (write_port port rest)
unfolding allows Consts.reg_name
port-Stops (some p) rest s = refl
port-Stops none rest s = rest-Stops Consts.reg_name rest refl refl refl s

pub rest-starts :
    (l : Bytes) (c : ℕ)
    → (b'/' == c) ≡ false
    → (b'?' == c) ≡ false
    → (b'#' == c) ≡ false
    → AuthStops l
    → starts_with l (c ∷ []) ≡ false
rest-starts [] c p q r s = refl
rest-starts (x ∷ l) c p q r (inl e) = rw (e, p)
rest-starts (x ∷ l) c p q r (inr (inl e)) = rw (e, q)
rest-starts (x ∷ l) c p q r (inr (inr e)) = rw (e, r)

-- A registered name begins with no bracket, nor does what follows it.
named-starts :
    {h : Bytes} (port : Option Bytes) (rest : Bytes)
    → Valid Consts.reg_name h
    → AuthStops rest
    → starts_with (h ++ write_port port rest) (b'[' ∷ []) ≡ false
unfolding allows Consts.reg_name
named-starts none rest nil s = rest-starts rest b'[' refl refl refl s
named-starts (some p) rest nil s = refl
named-starts port rest (byte {x} n a v) s = rw (allows-ne_byte Consts.reg_name x b'[' a refl)
named-starts port rest (octet e h k v) s = refl

pub literal_miss :
    (pre l : Bytes)
    → starts_with l (b'[' ∷ []) ≡ false
    → read_ip_literal (at pre l) ≡ ok (none, at pre l)
unfolding read_ip_literal
literal_miss pre l h = rw (read_str-miss pre (b'[' ∷ []) l h)

pub host_by :
    (r : Reader) {m : HostMeta} {r1 : Reader}
    → read_ip_literal r ≡ ok (some m, r1)
    → read_host r ≡ ok (m, r1)
unfolding read_host
host_by r e = rw e

pub host_by_name :
    (r : Reader) {m : HostMeta} {r1 : Reader}
    → read_ip_literal r ≡ ok (none, r)
    → read_v4_or_reg_name r ≡ ok (m, r1)
    → read_host r ≡ ok (m, r1)
unfolding read_host
host_by_name r e f = rw (e, f)

-- `read_host` takes a well-formed host up to the port or the path.
pub read_host-at :
    {h : Bytes} {m : HostMeta} (pre : Bytes) (port : Option Bytes) (rest : Bytes)
    → IsHost h m
    → AuthStops rest
    → read_host (at pre (h ++ write_port port rest)) ≡ ok (m, at (pre ++ h) (write_port port rest))
read_host-at pre port rest (future e vh va) s =
    host_by _ (literal-future e vh va pre (write_port port rest))
read_host-at pre port rest (address a {segs} r) s =
    host_by _ (literal-address a segs r pre (write_port port rest))
read_host-at {h} pre port rest (named v e) s =
    let tail = write_port port rest in
    let name =
      read_v4_or_reg_name-at pre tail v (port-V4Stops rest port s) (port-Stops port rest s) in
    host_by_name _ (literal_miss pre (h ++ tail) (named-starts port rest v s))
      (name ∙ ap (λ m. ok (m, at (pre ++ h) tail)) (sym e))

-- Behind the host.
abbrev pub port_text : Option Bytes → Bytes
port_text none = []
port_text (some p) = b':' ∷ p

pub read_port-at :
    (port : Option Bytes) (pre rest : Bytes)
    → OnSome (Valid Consts.digit) port
    → AuthStops rest
    → read_port (at pre (write_port port rest)) ≡ at (pre ++ port_text port) rest
unfolding allows Consts.digit
read_port-at none pre rest v s =
    read_port-none pre rest (rest-starts rest b':' refl refl refl s)
    ∙ ap (λ p. at p rest) (sym (append-nil pre))
read_port-at (some p) pre rest v s =
    read_port-some pre rest v (rest-Stops Consts.digit rest refl refl refl s)
