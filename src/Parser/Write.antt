-- ===== src/Parser/Write.antt =====
-- `parse` on a text written from well-formed components.
use mathlib.Core.Path.{subst}
use fluent_uri_rs.Base.{
  ℕ, ◌+◌, false, Option, none, some, [], ◌∷◌, ◌++◌, append_assoc, ◌==◌, Bytes, starts_with, length,
  length-append, ◌≡◌, refl, sym, ap, ◌∙◌, ◌⊎◌, inl, inr, arith,
}
use fluent_uri_rs.Error.{ok}
use fluent_uri_rs.Net.{Meta, default_meta}
use fluent_uri_rs.Parser.{continued_no_scheme, after_scheme, parse_from_scheme, parse}
use fluent_uri_rs.Parser.Behind.{
  Finds, found, with_path, tail_text, parse_from_path-Finds, general-Finds, authority-Finds,
}
use fluent_uri_rs.Parser.Branches.{
  branch_scheme, branch_no_scheme, scheme_authority, scheme_path, only_authority, only_path,
  starts-at, scheme-colon, scheme-slash, scheme_span, scheme-rest, Valid-behind, no_colon,
}
use fluent_uri_rs.Parser.Finish.{non_zero_pos}
use fluent_uri_rs.Parser.Path.{read_path-continued, peek_is-at_cons, colon_first-append}
use fluent_uri_rs.Reader.{new, read, read_str}
use fluent_uri_rs.Reader.Reads.{read-Valid}
use fluent_uri_rs.Reader.Span.{Stops}
use fluent_uri_rs.Reader.View.{at, at-skip, read_str-hit, read_str-miss}
use fluent_uri_rs.Spec.{
  OnSome, AuthParts, Parts, write_scheme, write_userinfo, write_port, write_auth, write, auth_end,
  auth_meta_of, map_some, meta_of, IsScheme, IsAuth, colon_first, PathFits, IsWellFormed,
}
use fluent_uri_rs.Table.Consts
use fluent_uri_rs.Table.Facts
use fluent_uri_rs.Table.Relate.{scheme_in_segment}
use fluent_uri_rs.Table.Validate.{Valid, nil}

-- What is written behind a path does not make two slashes of one.
no_slashes :
    (path : Bytes) (q f : Option Bytes)
    → starts_with path (b'/' ∷ b'/' ∷ []) ≡ false
    → starts_with (path ++ tail_text q f) (b'/' ∷ b'/' ∷ []) ≡ false
no_slashes [] none none h = refl
no_slashes [] none (some f) h = refl
no_slashes [] (some q) f h = refl
no_slashes (x ∷ []) none none h = ground arith
no_slashes (x ∷ []) none (some f) h = ground arith
no_slashes (x ∷ []) (some q) f h = ground arith
no_slashes (x ∷ y ∷ path) q f h = ground (arith, h)

-- Scheme characters that are the beginning of the path.
only_words :
    (w l : Bytes) (q f : Option Bytes)
    → OnSome (Valid Consts.query) q
    → OnSome (Valid Consts.fragment) f
    → Valid Consts.scheme w
    → Stops Consts.scheme l
    → Valid Consts.path l
    → starts_with (w ++ l) (b'/' ∷ b'/' ∷ []) ≡ false
    → colon_first (w ++ l) ≡ false
    → Finds
        (parse_from_scheme
          (record { reader = new ((w ++ l) ++ tail_text q f); out = default_meta }))
        (with_path default_meta 0 (w ++ l) q)
only_words w l q f vq vf vw st vl slashes h =
    let t = tail_text q f in
    let run =
      ap (λ b. read Consts.scheme (new b)) (append_assoc w l t)
      ∙ read-Valid [] (l ++ t) Facts.scheme-IsTable vw (scheme-rest l q f st) in
    let clear = sym (colon_first-append l (scheme_in_segment vw)) ∙ h in
    found
      (branch_no_scheme _ run (no_colon w l q f clear)
        ∙ only_path (record { reader = at w (l ++ t); out = default_meta }) (passed w slashes))
      (parse_from_path-Finds (w ++ l) q f vq vf continued_no_scheme
        (record { reader = at w (l ++ t); out = default_meta }) 0 (w ++ l) (omega arith)
        (read_path-continued w l q f vw vl h ∙ ap (λ k. ok ((0, k), at (w ++ l) t)) (omega arith)))
  where
    passed :
        (w : Bytes)
        → starts_with (w ++ l) (b'/' ∷ b'/' ∷ []) ≡ false
        → ((length w == 0) ≡ false)
          ⊎ (read_str (b'/' ∷ b'/' ∷ []) (at w (l ++ tail_text q f))
              ≡ (false, at w (l ++ tail_text q f)))
    passed [] h =
        inr (read_str-miss [] (b'/' ∷ b'/' ∷ []) (l ++ tail_text q f) (no_slashes l q f h))
    passed (x ∷ w) h = inl (ground arith)

module _ (path : Bytes) (q f : Option Bytes) (vp : Valid Consts.path path)
    (vq : OnSome (Valid Consts.query) q) (vf : OnSome (Valid Consts.fragment) f) where
  -- Behind `scheme:`.
  after_scheme-Finds :
      (end : Option ℕ) (s : Bytes) (auth : Option AuthParts)
      → OnSome IsAuth auth
      → PathFits (some s) auth path
      → Finds
          (after_scheme (record {
            reader = at s (b':' ∷ write_auth auth (path ++ tail_text q f));
            out = record default_meta { scheme_end = end };
          }))
          (with_path
            (record default_meta {
              scheme_end = end;
              auth_meta = map_some (auth_meta_of (length s + 1)) auth;
            })
            (auth_end (length s + 1) auth)
            path
            q)
  after_scheme-Finds end s none va fits =
      let pre = s ++ (b':' ∷ []) in
      found
        (scheme_path _ (at-skip s (b':' ∷ []) (path ++ tail_text q f))
          (read_str-miss pre (b'/' ∷ b'/' ∷ []) (path ++ tail_text q f) (no_slashes path q f fits)))
        (general-Finds path q f vq vf vp (record default_meta { scheme_end = end }) pre
          (length s + 1) (length-append s (b':' ∷ [])))
  after_scheme-Finds end s (some a) va fits =
      let pre = s ++ (b':' ∷ []) in
      let slashes = b'/' ∷ b'/' ∷ [] in
      let text = write_userinfo a.userinfo (a.host ++ write_port a.port (path ++ tail_text q f)) in
      found
        (scheme_authority _ (at-skip s (b':' ∷ []) (slashes ++ text))
          (read_str-hit pre slashes text))
        (authority-Finds path q f vq vf vp (record default_meta { scheme_end = end })
          (pre ++ slashes) (length s + 1) a
          (rw (length-append pre slashes, length-append s (b':' ∷ [])) refl) va fits)

  -- Without a scheme.
  no_scheme-Finds :
      (auth : Option AuthParts)
      → OnSome IsAuth auth
      → PathFits none auth path
      → Finds
          (parse_from_scheme
            (record { reader = new (write_auth auth (path ++ tail_text q f)); out = default_meta }))
          (with_path
            (record default_meta { auth_meta = map_some (auth_meta_of 0) auth })
            (auth_end 0 auth)
            path
            q)
  no_scheme-Finds (some a) va fits =
      let slashes = b'/' ∷ b'/' ∷ [] in
      let text = write_userinfo a.userinfo (a.host ++ write_port a.port (path ++ tail_text q f)) in
      found
        (branch_no_scheme _
            (read-Valid [] (slashes ++ text) Facts.scheme-IsTable nil (scheme-slash (b'/' ∷ text)))
            (peek_is-at_cons [] (b'/' ∷ text) b'/' b':')
          ∙ only_authority _ refl (read_str-hit [] slashes text))
        (authority-Finds path q f vq vf vp default_meta slashes 0 a refl va fits)
  no_scheme-Finds none va fits =
      let sp = scheme_span path in
      let valid = Valid-behind sp.tail sp.valid (subst (λ l. Valid Consts.path l) sp.splits vp) in
      subst
        (λ l.
          Finds
            (parse_from_scheme (record { reader = new (l ++ tail_text q f); out = default_meta }))
            (with_path default_meta 0 l q))
        (sym sp.splits)
        (only_words sp.word sp.tail q f vq vf sp.valid sp.stops valid
          (ap (λ l. starts_with l (b'/' ∷ b'/' ∷ [])) (sym sp.splits) ∙ fits.0)
          (ap colon_first (sym sp.splits) ∙ fits.1))

  -- With a scheme.
  scheme-Finds :
      (x : ℕ) (s : Bytes) (auth : Option AuthParts)
      → IsScheme (x ∷ s)
      → OnSome IsAuth auth
      → PathFits (some (x ∷ s)) auth path
      → Finds
          (parse_from_scheme (record {
            reader = new ((x ∷ s) ++ (b':' ∷ write_auth auth (path ++ tail_text q f)));
            out = default_meta;
          }))
          (with_path
            (record default_meta {
              scheme_end = some (length (x ∷ s));
              auth_meta = map_some (auth_meta_of (length (x ∷ s) + 1)) auth;
            })
            (auth_end (length (x ∷ s) + 1) auth)
            path
            q)
  scheme-Finds x s auth vs va fits =
      let l = write_auth auth (path ++ tail_text q f) in
      found
        (branch_scheme _ (read-Valid [] (b':' ∷ l) Facts.scheme-IsTable vs.1 (scheme-colon l))
            (peek_is-at_cons (x ∷ s) l b':' b':') (starts-at x s (b':' ∷ l) vs.0)
          ∙ ap
              (λ e. after_scheme (record {
                reader = at (x ∷ s) (b':' ∷ l);
                out = record default_meta { scheme_end = e };
              }))
              (non_zero_pos (length (x ∷ s)) (omega arith)))
        (after_scheme-Finds (some (length (x ∷ s))) (x ∷ s) auth va fits)

of_result :
    (text : Bytes) {m : Meta}
    → Finds (parse_from_scheme (record { reader = new text; out = default_meta })) m
    → parse text ≡ ok m
unfolding parse
of_result text (r, e) = rw e

-- The parser finds the components of every text that is written from well-formed components, and
-- no others: where the scheme ends, the bounds and the kind of the host, the bounds of the path and
-- where the query ends are those of the components.
pub parse-write : (p : Parts) → IsWellFormed p → parse (write p) ≡ ok (meta_of p)
unfolding meta_of
parse-write p v = parts p.scheme v.scheme_valid v.path_fits
  where
    parts :
        (s : Option Bytes)
        → OnSome IsScheme s
        → PathFits s p.auth p.path
        → parse (write_scheme s (write_auth p.auth (p.path ++ tail_text p.query p.fragment)))
          ≡ ok (meta_of (record p { scheme = s }))
    parts none vs fits = of_result _ (
        no_scheme-Finds p.path p.query p.fragment v.path_valid v.query_valid v.fragment_valid p.auth
          v.auth_valid fits)
    parts (some (x ∷ s)) vs fits = of_result _ (
        scheme-Finds p.path p.query p.fragment v.path_valid v.query_valid v.fragment_valid x s
          p.auth vs v.auth_valid fits)
    parts (some []) vs fits = absurd vs
