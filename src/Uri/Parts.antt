-- ===== src/Uri/Parts.antt =====
-- The text of components, cut into the texts of each of them, and the `Uri` of it.
use fluent_uri_rs.Base.{
  ℕ, ◌+◌, true, Option, none, some, [], ◌∷◌, ◌++◌, append-nil, append_assoc, leb, Bytes, length,
  length-append, ◌≡◌, refl, sym, ap, ◌∙◌, arith,
}
use fluent_uri_rs.Base.Run.{done}
use fluent_uri_rs.Parser.Authority.{slice-at}
use fluent_uri_rs.Parser.Host.{port_text}
use fluent_uri_rs.Parser.AuthorityStart.{userinfo_text}
use fluent_uri_rs.Spec.{
  AuthParts, Parts, write_scheme, write_userinfo, write_port, write_auth, write_query,
  write_fragment, write, scheme_len, auth_end, path_start, meta_of,
}
use fluent_uri_rs.Uri.{Uri, str_slice}

abbrev pub uri_of : Parts → Uri
uri_of p = record { val = write p; meta = meta_of p }

pub str_slice-at :
    {text : Bytes} (pre w l : Bytes) {n : ℕ}
    → text ≡ pre ++ (w ++ l)
    → length pre ≡ n
    → str_slice text n (n + length w) ≡ done w
unfolding str_slice
str_slice-at pre w l e k =
    let long : length (pre ++ (w ++ l)) ≡ length pre + (length w + length l) =
      length-append pre (w ++ l) ∙ ap (λ n. length pre + n) (length-append w l) in
    let a : leb (length pre) (length pre + length w) ≡ true = ground arith in
    let b : leb (length pre + length w) (length pre + (length w + length l)) ≡ true =
      ground arith in
    rw (← k, e, long, a, b, slice-at pre w l) refl

-- Each piece, as a text of its own.
abbrev pub scheme_text : Option Bytes → Bytes
scheme_text none = []
scheme_text (some s) = s ++ (b':' ∷ [])

abbrev pub auth_text : Option AuthParts → Bytes
auth_text none = []
auth_text (some a) = b'/' ∷ b'/' ∷ (userinfo_text a.userinfo ++ (a.host ++ port_text a.port))

abbrev pub query_text : Option Bytes → Bytes
query_text none = []
query_text (some q) = b'?' ∷ q

pub write_scheme-text : (s : Option Bytes) (r : Bytes) → write_scheme s r ≡ scheme_text s ++ r
write_scheme-text none r = refl
write_scheme-text (some s) r = sym (append_assoc s (b':' ∷ []) r)

pub write_port-text : (p : Option Bytes) (r : Bytes) → write_port p r ≡ port_text p ++ r
write_port-text none r = refl
write_port-text (some p) r = refl

pub write_userinfo-text : (u : Option Bytes) (r : Bytes) → write_userinfo u r ≡ userinfo_text u ++ r
write_userinfo-text none r = refl
write_userinfo-text (some u) r = sym (append_assoc u (b'@' ∷ []) r)

write_auth-text : (a : Option AuthParts) (r : Bytes) → write_auth a r ≡ auth_text a ++ r
write_auth-text none r = refl
write_auth-text (some a) r =
    rw (write_userinfo-text a.userinfo (a.host ++ write_port a.port r), write_port-text a.port r)
      (simp append_assoc)

pub write_query-text : (q : Option Bytes) (r : Bytes) → write_query q r ≡ query_text q ++ r
write_query-text none r = refl
write_query-text (some q) r = refl

pub length-scheme_text : (s : Option Bytes) → length (scheme_text s) ≡ scheme_len s
length-scheme_text none = refl
length-scheme_text (some s) = length-append s (b':' ∷ [])

length-auth :
    (n : ℕ) (u : Option Bytes) (h : Bytes) (p : Option Bytes)
    → n + length (b'/' ∷ b'/' ∷ (userinfo_text u ++ (h ++ port_text p))) ≡ (
        let s : ℕ = elim u [ none ↦ n + 2 | some u ↦ n + 2 + length u + 1 ] in
        elim p [ none ↦ s + length h | some p ↦ s + length h + 1 + length p ])
length-auth n none h none = rw (append-nil h) (omega arith)
length-auth n none h (some p) = rw (length-append h (b':' ∷ p)) (omega arith)
length-auth n (some u) h none =
    rw (append-nil h, length-append (u ++ (b'@' ∷ [])) h, length-append u (b'@' ∷ [])) (omega arith)
length-auth n (some u) h (some p) =
    rw
      (
        length-append (u ++ (b'@' ∷ [])) (h ++ (b':' ∷ p)),
        length-append u (b'@' ∷ []),
        length-append h (b':' ∷ p),
      )
      (omega arith)

pub length-auth_text : (n : ℕ) (a : Option AuthParts) → n + length (auth_text a) ≡ auth_end n a
length-auth_text n none = omega arith
length-auth_text n (some a) = length-auth n a.userinfo a.host a.port

abbrev pub front : Parts → Bytes
front p = scheme_text p.scheme ++ auth_text p.auth

pub length-front : (p : Parts) → length (front p) ≡ path_start p
length-front p =
    length-append (scheme_text p.scheme) (auth_text p.auth)
    ∙ ap (λ n. n + length (auth_text p.auth)) (length-scheme_text p.scheme)
    ∙ length-auth_text (scheme_len p.scheme) p.auth

pub front-write :
    (p : Parts) → write p ≡ front p ++ (p.path ++ write_query p.query (write_fragment p.fragment))
front-write p =
    let rest = p.path ++ write_query p.query (write_fragment p.fragment) in
    write_scheme-text p.scheme (write_auth p.auth rest)
    ∙ ap (λ l. scheme_text p.scheme ++ l) (write_auth-text p.auth rest)
    ∙ sym (append_assoc (scheme_text p.scheme) (auth_text p.auth) rest)
