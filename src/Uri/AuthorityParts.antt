-- ===== src/Uri/AuthorityParts.antt =====
-- The accessors of `Authority` on the text of components, with the `Meta` that describes it.
use fluent_uri_rs.Base.{
  ℕ, suc, ◌+◌, true, false, not, Option, none, some, [], ◌∷◌, ◌++◌, append-nil, append_assoc, ◌==◌,
  if◌then◌else◌, Bytes, length, length-append, ◌≡◌, refl, sym, ap, ◌∙◌, arith,
}
use fluent_uri_rs.Base.Run.{Run, done, ◌>>=◌}
use fluent_uri_rs.Error.{ok}
use fluent_uri_rs.Parser.AuthorityStart.{userinfo_text}
use fluent_uri_rs.Spec.{
  AuthParts, Parts, write_userinfo, write_port, write_auth, write_query, write_fragment, write,
  scheme_len, host_start, map_some, meta_of, IsWellFormed,
}
use fluent_uri_rs.Uri.{Uri, str_slice, to_uri}
use fluent_uri_rs.Uri.Authority.{userinfo, host, port, start, before}
use fluent_uri_rs.Uri.Components.{to_uri-write}
use fluent_uri_rs.Uri.Parts.{
  uri_of, str_slice-at, scheme_text, write_scheme-text, length-scheme_text, write_userinfo-text,
}

-- With an authority.
abbrev pub with_auth : Parts → AuthParts → Parts
with_auth p a = record p { auth = some a }

abbrev pub to_slashes : Parts → Bytes
to_slashes p = scheme_text p.scheme ++ (b'/' ∷ b'/' ∷ [])

abbrev pub rest_of : Parts → Bytes
rest_of p = p.path ++ write_query p.query (write_fragment p.fragment)

pub length-to_slashes : (p : Parts) → length (to_slashes p) ≡ scheme_len p.scheme + 2
length-to_slashes p =
    length-append (scheme_text p.scheme) (b'/' ∷ b'/' ∷ [])
    ∙ ap (λ n. n + 2) (length-scheme_text p.scheme)

pub to_slashes-write :
    (p : Parts) (a : AuthParts)
    → write (with_auth p a)
      ≡ to_slashes p ++ write_userinfo a.userinfo (a.host ++ write_port a.port (rest_of p))
to_slashes-write p a =
    write_scheme-text p.scheme (write_auth (some a) (rest_of p))
    ∙ sym (
        append_assoc (scheme_text p.scheme) (b'/' ∷ b'/' ∷ [])
          (write_userinfo a.userinfo (a.host ++ write_port a.port (rest_of p))))

abbrev to_host : Parts → AuthParts → Bytes
to_host p a = to_slashes p ++ userinfo_text a.userinfo

to_host-write :
    (p : Parts) (a : AuthParts)
    → write (with_auth p a) ≡ to_host p a ++ (a.host ++ write_port a.port (rest_of p))
to_host-write p a =
    to_slashes-write p a
    ∙ ap (λ l. to_slashes p ++ l)
        (write_userinfo-text a.userinfo (a.host ++ write_port a.port (rest_of p)))
    ∙ sym (
        append_assoc (to_slashes p) (userinfo_text a.userinfo)
          (a.host ++ write_port a.port (rest_of p)))

length-to_host :
    (p : Parts) (a : AuthParts) → length (to_host p a) ≡ host_start (scheme_len p.scheme) a
length-to_host p a = cases a.userinfo
  where
    cases :
        (u : Option Bytes)
        → length (to_slashes p ++ userinfo_text u) ≡ elim u [
          | none ↦ scheme_len p.scheme + 2
          | some u ↦ scheme_len p.scheme + 2 + length u + 1
        ]
    cases none = ap length (append-nil (to_slashes p)) ∙ length-to_slashes p
    cases (some u) =
        rw
          (
            length-append (to_slashes p) (u ++ (b'@' ∷ [])),
            length-append u (b'@' ∷ []),
            length-to_slashes p,
          )
          (omega arith)

pub host-write : (p : Parts) (a : AuthParts) → host (uri_of (with_auth p a)) ≡ done a.host
unfolding host meta_of
host-write p a =
    str_slice-at (to_host p a) a.host (write_port a.port (rest_of p)) (to_host-write p a)
      (length-to_host p a)

pub start-write :
    (p : Parts) (a : AuthParts) → start (uri_of (with_auth p a)) ≡ scheme_len p.scheme + 2
unfolding start meta_of
start-write p a = cases p.scheme
  where
    cases :
        (s : Option Bytes)
        → elim (map_some (λ (s : Bytes). length s) s) [ none ↦ 2 | some i ↦ i + 3 ]
          ≡ scheme_len s + 2
    cases none = refl
    cases (some s) = omega arith

-- `userinfo` from `start` and the start of the host.
abbrev info_at : Bytes → ℕ → ℕ → Run (Option Bytes)
info_at text start host_start =
    let info = (before host_start >>= λ e. str_slice text start e) >>= λ s. done (some s) in
    if not (start == host_start) then info else done none

info_cases :
    {n : ℕ} (text pre : Bytes) (u : Option Bytes) (r : Bytes)
    → text ≡ pre ++ write_userinfo u r
    → length pre ≡ n
    → info_at text n (elim u [ none ↦ n | some u ↦ n + length u + 1 ]) ≡ done u
unfolding before
info_cases {n} text pre none r e k = let same : (n == n) ≡ true = ground arith in rw same refl
info_cases {n} text pre (some u) r e k =
    let other : (n == suc (n + length u)) ≡ false = ground arith in
    let next : n + length u + 1 ≡ suc (n + length u) = omega arith in
    let cut : str_slice text n (n + length u) ≡ done u = str_slice-at pre u (b'@' ∷ r) e k in
    rw (next, other, cut) refl

pub userinfo-write :
    (p : Parts) (a : AuthParts) → userinfo (uri_of (with_auth p a)) ≡ done a.userinfo
unfolding userinfo meta_of
userinfo-write p a =
    ap (λ s. info_at (write (with_auth p a)) s (host_start (scheme_len p.scheme) a))
      (start-write p a)
    ∙ info_cases (write (with_auth p a)) (to_slashes p) a.userinfo
        (a.host ++ write_port a.port (rest_of p)) (to_slashes-write p a) (length-to_slashes p)

port_cases :
    {n : ℕ} (text pre : Bytes) (port : Option Bytes) (r : Bytes)
    → text ≡ pre ++ write_port port r
    → length pre ≡ n
    → (let end : ℕ = elim port [ none ↦ n | some p ↦ n + 1 + length p ] in
        let digits = str_slice text (n + 1) end >>= λ s. done (some s) in
        (if not (n == end) then digits else done none) ≡ done port)
port_cases {n} text pre none r e k = let same : (n == n) ≡ true = ground arith in rw same refl
port_cases {n} text pre (some p) r e k =
    let other : (n == n + 1 + length p) ≡ false = ground arith in
    let behind : length (pre ++ (b':' ∷ [])) ≡ n + 1 =
      length-append pre (b':' ∷ []) ∙ ap (λ n. n + 1) k in
    let cut : str_slice text (n + 1) (n + 1 + length p) ≡ done p =
      str_slice-at (pre ++ (b':' ∷ [])) p r (e ∙ sym (append_assoc pre (b':' ∷ []) (p ++ r)))
        behind in
    rw (other, cut) refl

pub port-write : (p : Parts) (a : AuthParts) → port (uri_of (with_auth p a)) ≡ done a.port
unfolding port meta_of
port-write p a =
    port_cases (write (with_auth p a)) (to_host p a ++ a.host) a.port (rest_of p)
      (to_host-write p a ∙ sym (append_assoc (to_host p a) a.host (write_port a.port (rest_of p))))
      (length-append (to_host p a) a.host ∙ ap (λ n. n + length a.host) (length-to_host p a))

-- A text written from well-formed components with an authority parses, and the accessors of the
-- authority of the `Uri` that it gives return its components: the userinfo, the host and the port.
pub authority-write :
    (p : Parts) (a : AuthParts)
    → IsWellFormed (with_auth p a)
    → (u : Uri) × (to_uri (write (with_auth p a)) ≡ ok u)
      × (userinfo u ≡ done a.userinfo)
      × (host u ≡ done a.host)
      × (port u ≡ done a.port)
authority-write p a v = (
  uri_of (with_auth p a),
  to_uri-write (with_auth p a) v,
  userinfo-write p a,
  host-write p a,
  port-write p a,
)
