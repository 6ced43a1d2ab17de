-- ===== src/Parser/Behind.antt =====
-- `parse_from_path` and `parse_from_authority` on what is written behind the scheme: what each finds.

use fluent_uri_rs.Base.{
  ℕ, ◌+◌, Option, none, some, [], ◌∷◌, ◌++◌, Bytes, length, length-append, ◌≡◌, refl, ap, ◌∙◌, inl,
  inr,
}
use fluent_uri_rs.Error.{Result, ok}
use fluent_uri_rs.Net.{Meta, default_meta, non_zero}
use fluent_uri_rs.Parser.{
  Parser, PathKind, general, ab_empty, read_path, parse_from_path, read_authority,
  parse_from_authority,
}
use fluent_uri_rs.Parser.Finish.{finish_path}
use fluent_uri_rs.Parser.Host.{AuthStops}
use fluent_uri_rs.Parser.Path.{read_path-general, read_path-ab_empty}
use fluent_uri_rs.Parser.WholeAuthority.{read_authority-whole, behind, length-behind}
use fluent_uri_rs.Reader.{Reader}
use fluent_uri_rs.Reader.View.{at}
use fluent_uri_rs.Spec.{
  OnSome, AuthParts, write_userinfo, write_port, write_query, write_fragment, auth_end,
  auth_meta_of, map_some, IsAuth, IsAbEmpty,
}
use fluent_uri_rs.Table.Consts
use fluent_uri_rs.Table.Validate.{Valid}

-- The result is `m`, wherever the reader stands.
abbrev pub Finds : Result Parser → Meta → Type 0
Finds res m = (r : Reader) × (res ≡ ok (record { reader = r; out = m }))

pub found : {a b : Result Parser} {m : Meta} → a ≡ b → Finds b m → Finds a m
found e (r, f) = (r, e ∙ f)

-- What a path and a query add.
abbrev pub with_path : Meta → ℕ → Bytes → Option Bytes → Meta
with_path out start path q = record out {
  path_bounds = (start, start + length path);
  query_end = map_some (λ w. start + length path + 1 + length w) q;
}

abbrev pub tail_text : Option Bytes → Option Bytes → Bytes
tail_text q f = write_query q (write_fragment f)

module _ (path : Bytes) (q f : Option Bytes) (vq : OnSome (Valid Consts.query) q)
    (vf : OnSome (Valid Consts.fragment) f) where
  pub parse_from_path-Finds :
      (kind : PathKind) (p : Parser) (start : ℕ) (pre : Bytes)
      → length pre ≡ start + length path
      → read_path kind p.reader ≡ ok ((start, start + length path), at pre (tail_text q f))
      → Finds (parse_from_path kind p) (with_path p.out start path q)
  parse_from_path-Finds kind p start pre e run =
      let (r, fin) = finish_path kind p (start, start + length path) pre q f vq vf run in
      (
        r,
        fin
            ∙ ap
                (λ k. ok (record {
                  reader = r;
                  out = record p.out {
                    path_bounds = (start, start + length path);
                    query_end = map_some (λ w. k + 1 + length w) q;
                  };
                }))
                e,
      )

  module _ (vp : Valid Consts.path path) where
    pub general-Finds :
        (out : Meta) (pre : Bytes) (start : ℕ)
        → length pre ≡ start
        → Finds
            (parse_from_path general
              (record { reader = at pre (path ++ tail_text q f); out = out }))
            (with_path out start path q)
    general-Finds out pre start e =
        parse_from_path-Finds general
          (record { reader = at pre (path ++ tail_text q f); out = out }) start (pre ++ path)
          (length-append pre path ∙ ap (λ k. k + length path) e)
          (read_path-general path q f pre vp
            ∙ ap (λ k. ok ((k, k + length path), at (pre ++ path) (tail_text q f))) e)

    ab_empty-Finds :
        (out : Meta) (pre : Bytes) (start : ℕ)
        → length pre ≡ start
        → IsAbEmpty path
        → Finds
            (parse_from_path ab_empty
              (record { reader = at pre (path ++ tail_text q f); out = out }))
            (with_path out start path q)
    ab_empty-Finds out pre start e a =
        parse_from_path-Finds ab_empty
          (record { reader = at pre (path ++ tail_text q f); out = out }) start (pre ++ path)
          (length-append pre path ∙ ap (λ k. k + length path) e)
          (read_path-ab_empty path q f pre vp a
            ∙ ap (λ k. ok ((k, k + length path), at (pre ++ path) (tail_text q f))) e)

    path-AuthStops : (path : Bytes) → IsAbEmpty path → AuthStops (path ++ tail_text q f)
    path-AuthStops (x ∷ path) a = inl a
    path-AuthStops [] a = tail-AuthStops q f
      where
        tail-AuthStops : (q f : Option Bytes) → AuthStops (tail_text q f)
        tail-AuthStops none none = tt
        tail-AuthStops none (some f) = inr (inr refl)
        tail-AuthStops (some q) f = inr (inl refl)

    authority_by :
        (p : Parser) {auth : fluent_uri_rs.Net.AuthMeta} {r : Reader}
        → read_authority p.reader ≡ ok (auth, r)
        → parse_from_authority p
          ≡ parse_from_path ab_empty
              (record { reader = r; out = record p.out { auth_meta = some auth } })
    unfolding parse_from_authority
    authority_by p e = rw e

    pub authority-Finds :
        (out : Meta) (pre : Bytes) (n : ℕ) (a : AuthParts)
        → length pre ≡ n + 2
        → IsAuth a
        → IsAbEmpty path
        → Finds
            (parse_from_authority (record {
              reader =
                  at pre (
                    write_userinfo a.userinfo
                      (a.host ++ write_port a.port (path ++ tail_text q f)));
              out = out;
            }))
            (with_path
              (record out { auth_meta = some (auth_meta_of n a) })
              (auth_end n (some a))
              path
              q)
    authority-Finds out pre n a e va ab =
        found
          (authority_by _
            (read_authority-whole pre n a (path ++ tail_text q f) e va (path-AuthStops path ab)))
          (ab_empty-Finds (record out { auth_meta = some (auth_meta_of n a) }) (behind pre a)
            (auth_end n (some a)) (length-behind pre n a e) ab)
