-- ===== src/Resolver/Recompose.antt =====
-- What `resolve` of src/resolver.rs puts together from the components of the target.
use mathlib.Core.Path.{ap₂}
use fluent_uri_rs.Base.{
  ℕ, ◌+◌, ◌-◌, Option, none, some, [], ◌∷◌, ◌++◌, append-nil, append_assoc, if◌then◌else◌, Bytes,
  length, starts_with, length-append, Bool-cases, ◌≡◌, refl, sym, ap, ◌∙◌, inl, inr, arith,
}
use fluent_uri_rs.Net.{AuthMeta, non_zero}
use fluent_uri_rs.Parser.Finish.{non_zero_pos}
use fluent_uri_rs.Parser.Host.{port_text}
use fluent_uri_rs.Parser.AuthorityStart.{userinfo_text}
use fluent_uri_rs.Resolver.{
  Auth, Target, needs_dot, push_authority, push_query, push_fragment, recompose,
}
use fluent_uri_rs.Spec.{
  AuthParts, Parts, write, write_query, write_fragment, host_start, auth_meta_of, map_some,
  path_start, meta_of,
}
use fluent_uri_rs.Uri.Parts.{uri_of, auth_text, front, front-write, length-front}

-- The authority of a reference whose scheme takes `n` bytes.
abbrev pub auth_of : ℕ → AuthParts → Auth
auth_of n a = record {
  text = userinfo_text a.userinfo ++ (a.host ++ port_text a.port);
  meta = auth_meta_of n a;
  start = n + 2;
}

-- The path with the dot that keeps two slashes from an authority.
abbrev pub dotted : Option AuthParts → Bytes → Bytes
dotted (some a) path = path
dotted none path = if starts_with path (b'/' ∷ b'/' ∷ []) then b'/' ∷ b'.' ∷ path else path

abbrev pub target_of : Bytes → ℕ → Parts → Target
target_of s n p = record {
  t_scheme = s;
  t_authority = map_some (auth_of n) p.auth;
  t_path = p.path;
  t_query = p.query;
  t_fragment = p.fragment;
}

recompose_by :
    (t : Target) {buf1 buf3 buf4 : Bytes} {m : Option AuthMeta} {begin end : Option ℕ}
    → non_zero (length t.t_scheme) ≡ begin
    → push_authority (t.t_scheme ++ (b':' ∷ [])) t.t_authority ≡ (buf1, m)
    → (if needs_dot t then buf1 ++ (b'/' ∷ b'.' ∷ []) else buf1) ++ t.t_path ≡ buf3
    → push_query buf3 t.t_query ≡ (buf4, end)
    → recompose t ≡ record {
      val = push_fragment buf4 t.t_fragment;
      meta = record {
        scheme_end = begin;
        auth_meta = m;
        path_bounds = (length buf1, length buf3);
        query_end = end;
      };
    }
unfolding recompose
recompose_by t z e f g = rw (recompose, z, e, f, g) refl

-- The offsets of a host move with its authority.
moved_start : (k n : ℕ) (a : AuthParts) → k + 2 + (host_start n a - (n + 2)) ≡ host_start k a
moved_start k n a = by a.userinfo
  where
    by :
        (u : Option Bytes)
        → k + 2 + ((elim u [ none ↦ n + 2 | some u ↦ n + 2 + length u + 1 ]) - (n + 2))
          ≡ elim u [ none ↦ k + 2 | some u ↦ k + 2 + length u + 1 ]
    by none = omega arith
    by (some u) = omega arith

moved_end :
    (k n : ℕ) (a : AuthParts)
    → k + 2 + (host_start n a + length a.host - (n + 2)) ≡ host_start k a + length a.host
moved_end k n a = by a.userinfo
  where
    by :
        (u : Option Bytes)
        → k
            + 2
            + ((elim u [ none ↦ n + 2 | some u ↦ n + 2 + length u + 1 ]) + length a.host - (n + 2))
          ≡ (elim u [ none ↦ k + 2 | some u ↦ k + 2 + length u + 1 ]) + length a.host
    by none = omega arith
    by (some u) = omega arith

push_authority_lem :
    (buf : Bytes) (n : ℕ) (a : Option AuthParts)
    → push_authority buf (map_some (auth_of n) a)
      ≡ (buf ++ auth_text a, map_some (auth_meta_of (length buf)) a)
unfolding push_authority
push_authority_lem buf n none = ap (λ l. (l, none)) (sym (append-nil buf))
push_authority_lem buf n (some a) =
    let k : length (buf ++ (b'/' ∷ b'/' ∷ [])) ≡ length buf + 2 =
      length-append buf (b'/' ∷ b'/' ∷ []) in
    ap₂ (λ l m. (l, some m))
      (append_assoc buf (b'/' ∷ b'/' ∷ [])
        (userinfo_text a.userinfo ++ (a.host ++ port_text a.port)))
      (ap₂ (λ i j. record { host_bounds = (i, j); host_meta = a.host_meta })
        (ap (λ k. k + (host_start n a - (n + 2))) k ∙ moved_start (length buf) n a)
        (ap (λ k. k + (host_start n a + length a.host - (n + 2))) k ∙ moved_end (length buf) n a))

push_path_lem :
    (buf : Bytes) (t : Target) (a : Option AuthParts) (n : ℕ)
    → t.t_authority ≡ map_some (auth_of n) a
    → (if needs_dot t then buf ++ (b'/' ∷ b'.' ∷ []) else buf) ++ t.t_path
      ≡ buf ++ dotted a t.t_path
unfolding needs_dot
push_path_lem buf t (some a) n e = rw (needs_dot, e) refl
push_path_lem buf t none n e = elim (Bool-cases (starts_with t.t_path (b'/' ∷ b'/' ∷ []))) [
  | inl h ↦ rw (needs_dot, e, h) (append_assoc buf (b'/' ∷ b'.' ∷ []) t.t_path)
  | inr h ↦ rw (needs_dot, e, h) refl
]

push_query_lem :
    (buf : Bytes) (k : ℕ) (q : Option Bytes)
    → length buf ≡ k
    → push_query buf q ≡ (buf ++ write_query q [], map_some (λ w. k + 1 + length w) q)
unfolding push_query
push_query_lem buf k none e = ap (λ l. (l, none)) (sym (append-nil buf))
push_query_lem buf k (some q) e =
    let end : length ((buf ++ (b'?' ∷ [])) ++ q) ≡ k + 1 + length q =
      rw (length-append (buf ++ (b'?' ∷ [])) q, length-append buf (b'?' ∷ []), e) refl in
    ap₂ (λ l i. (l, i))
      (append_assoc buf (b'?' ∷ []) q ∙ ap (λ w. buf ++ (b'?' ∷ w)) (sym (append-nil q)))
      (ap non_zero end ∙ non_zero_pos (k + 1 + length q) (omega arith))

push_fragment_lem : (buf : Bytes) (f : Option Bytes) → push_fragment buf f ≡ buf ++ write_fragment f
unfolding push_fragment
push_fragment_lem buf none = sym (append-nil buf)
push_fragment_lem buf (some f) = append_assoc buf (b'#' ∷ []) f

pub query_text :
    (q f : Option Bytes) → write_query q [] ++ write_fragment f ≡ write_query q (write_fragment f)
query_text none f = refl
query_text (some q) f = ap (λ l. b'?' ∷ l) (append_assoc q [] (write_fragment f))

-- The `Uri` put together is the text of the components, with the offsets that describe it.
pub recompose_lem :
    (x : ℕ) (s : Bytes) (n : ℕ) (p : Parts)
    → recompose (target_of (x ∷ s) n p)
      ≡ uri_of (record p { scheme = some (x ∷ s); path = dotted p.auth p.path })
unfolding meta_of
recompose_lem x s n p =
    let scheme = x ∷ s in
    let out : Parts = record p { scheme = some scheme; path = dotted p.auth p.path } in
    let t = target_of scheme n p in
    let colon : length (scheme ++ (b':' ∷ [])) ≡ length scheme + 1 =
      length-append scheme (b':' ∷ []) in
    let buf3 = front out ++ out.path in
    let len3 : length buf3 ≡ path_start out + length out.path =
      length-append (front out) out.path ∙ ap (λ k. k + length out.path) (length-front out) in
    let text : push_fragment (buf3 ++ write_query p.query []) p.fragment ≡ write out =
      push_fragment_lem (buf3 ++ write_query p.query []) p.fragment
      ∙ append_assoc buf3 (write_query p.query []) (write_fragment p.fragment)
      ∙ ap (λ l. buf3 ++ l) (query_text p.query p.fragment)
      ∙ append_assoc (front out) out.path (write_query p.query (write_fragment p.fragment))
      ∙ sym (front-write out) in
    recompose_by t (non_zero_pos (length scheme) (omega arith))
      (push_authority_lem (scheme ++ (b':' ∷ [])) n p.auth
        ∙ ap (λ k. (front out, map_some (auth_meta_of k) p.auth)) colon)
      (push_path_lem (front out) t p.auth n refl)
      (push_query_lem buf3 (path_start out + length out.path) p.query len3)
    ∙ ap₂
        (λ v b. record {
          val = v;
          meta = record {
            scheme_end = some (length scheme);
            auth_meta = map_some (auth_meta_of (length scheme + 1)) p.auth;
            path_bounds = b;
            query_end = map_some (λ w. path_start out + length out.path + 1 + length w) p.query;
          };
        })
        text (ap₂ (λ i j. (i, j)) (length-front out) len3)
