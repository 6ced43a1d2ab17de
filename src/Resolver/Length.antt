-- ===== src/Resolver/Length.antt =====
-- The output length that `resolve` of src/resolver.rs computes in advance.
use fluent_uri_rs.Base.{
  ℕ, ◌+◌, Bool, true, false, Option, none, some, [], ◌∷◌, ◌++◌, Bytes, length, length-append,
  if◌then◌else◌, ◌≡◌, refl, ap, ◌∙◌, arith,
}
use fluent_uri_rs.Resolver.{
  Auth, Target, needs_dot, output_len, push_authority, push_query, push_fragment, recompose,
}

abbrev pub plus : {A : Type 0} → ℕ → (A → ℕ) → Option A → ℕ
plus n f none = n
plus n f (some a) = n + f a

length-push_authority :
    (buf : Bytes) (a : Option Auth)
    → length (push_authority buf a).0 ≡ plus (length buf) (λ (a : Auth). length a.text + 2) a
unfolding push_authority
length-push_authority buf none = refl
length-push_authority buf (some a) =
    rw (length-append (buf ++ (b'/' ∷ b'/' ∷ [])) a.text, length-append buf (b'/' ∷ b'/' ∷ []))
      (omega arith)

length-push_query :
    (buf : Bytes) (q : Option Bytes)
    → length (push_query buf q).0 ≡ plus (length buf) (λ (q : Bytes). length q + 1) q
unfolding push_query
length-push_query buf none = refl
length-push_query buf (some q) =
    rw (length-append (buf ++ (b'?' ∷ [])) q, length-append buf (b'?' ∷ [])) (omega arith)

length-push_fragment :
    (buf : Bytes) (f : Option Bytes)
    → length (push_fragment buf f) ≡ plus (length buf) (λ (f : Bytes). length f + 1) f
unfolding push_fragment
length-push_fragment buf none = refl
length-push_fragment buf (some f) =
    rw (length-append (buf ++ (b'#' ∷ [])) f, length-append buf (b'#' ∷ [])) (omega arith)

-- The dot in front of a path.
length-dot :
    (b : Bool) (buf : Bytes)
    → length (if b then buf ++ (b'/' ∷ b'.' ∷ []) else buf)
      ≡ (if b then length buf + 2 else length buf)
length-dot true buf = length-append buf (b'/' ∷ b'.' ∷ [])
length-dot false buf = refl

abbrev sum_of : Target → ℕ
sum_of t =
    let n = plus (length t.t_scheme + 1) (λ (a : Auth). length a.text + 2) t.t_authority in
    let n = (if needs_dot t then n + 2 else n) + length t.t_path in
    plus (plus n (λ (q : Bytes). length q + 1) t.t_query) (λ (f : Bytes). length f + 1) t.t_fragment

plus_elim :
    (s : Bytes) (a : Option Auth) (p : Bytes) (q f : Option Bytes)
    → (let t : Target = record {
      t_scheme = s;
      t_authority = a;
      t_path = p;
      t_query = q;
      t_fragment = f;
    } in
        sum_of t ≡ output_len t)
unfolding output_len
plus_elim s none p none none = refl
plus_elim s none p none (some f) = refl
plus_elim s none p (some q) none = refl
plus_elim s none p (some q) (some f) = refl
plus_elim s (some a) p none none = refl
plus_elim s (some a) p none (some f) = refl
plus_elim s (some a) p (some q) none = refl
plus_elim s (some a) p (some q) (some f) = refl

-- The text that `resolve` puts together has the length that it computed in advance.
pub length-recompose : (t : Target) → length (recompose t).val ≡ output_len t
unfolding recompose output_len
length-recompose t =
    let (buf1, m) = push_authority (t.t_scheme ++ (b':' ∷ [])) t.t_authority in
    let buf2 = if needs_dot t then buf1 ++ (b'/' ∷ b'.' ∷ []) else buf1 in
    let buf3 = buf2 ++ t.t_path in
    let (buf4, e) = push_query buf3 t.t_query in
    let l1 =
      length-push_authority (t.t_scheme ++ (b':' ∷ [])) t.t_authority
      ∙ ap (λ n. plus n (λ (a : Auth). length a.text + 2) t.t_authority)
          (length-append t.t_scheme (b':' ∷ [])) in
    let l2 = length-dot (needs_dot t) buf1 ∙ ap (λ n. if needs_dot t then n + 2 else n) l1 in
    let l3 = length-append buf2 t.t_path ∙ ap (λ n. n + length t.t_path) l2 in
    let l4 =
      length-push_query buf3 t.t_query
      ∙ ap (λ n. plus n (λ (q : Bytes). length q + 1) t.t_query) l3 in
    length-push_fragment buf4 t.t_fragment
    ∙ ap (λ n. plus n (λ (f : Bytes). length f + 1) t.t_fragment) l4
    ∙ plus_elim t.t_scheme t.t_authority t.t_path t.t_query t.t_fragment
