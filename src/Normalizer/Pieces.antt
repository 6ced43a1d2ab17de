-- ===== src/Normalizer/Pieces.antt =====
-- What `normalize` of src/normalizer.rs writes for each component.
use mathlib.Core.Path.{ap₂}
use fluent_uri_rs.Base.{
  Bool, ℕ, ◌+◌, true, false, Option, none, some, [], ◌∷◌, ◌++◌, map, append-nil, append_assoc, ltb,
  ◌&&◌, is_some, if◌then◌else◌, Bytes, length, drop, starts_with, length-append, drop-append,
  to_ascii_lowercase, Bool-cases, ◌≡◌, refl, sym, ap, ◌∙◌, inl, inr, arith,
}
use fluent_uri_rs.Base.Run.{Run, done}
use fluent_uri_rs.Net.{HostMeta, ipv4, ipv6, ipv_future, reg_name, non_zero}
use fluent_uri_rs.Normalizer.{
  normalize_path, push_userinfo, push_reg_name, push_host, push_port, push_query, push_fragment,
}
use fluent_uri_rs.Normalizer.Octets.{Normal-Valid}
use fluent_uri_rs.Normalizer.Octets.Step.{Same, keeps_case, lowers_case}
use fluent_uri_rs.Normalizer.Octets.Writes.{normalize_estr-plain}
use fluent_uri_rs.Normalizer.Rewrites.{BothNormalize, HostRewrites, PathRewrites, kept_port}
use fluent_uri_rs.Reader.V4Octet.{IsDotted}
use fluent_uri_rs.Reader.HostReads.{parse_v4_or_reg_name_cases}
use fluent_uri_rs.Normalizer.Write.{write_v6}
use fluent_uri_rs.Parser.Finish.{non_zero_pos}
use fluent_uri_rs.Parser.Host.{port_text}
use fluent_uri_rs.Parser.AuthorityStart.{userinfo_text}
use fluent_uri_rs.Reader.V4.{parse_v4_or_reg_name}
use fluent_uri_rs.Resolver.Paths.{absolute-GivesPath}
use fluent_uri_rs.Resolver.Segments.{remove_dot_segments}
use fluent_uri_rs.Resolver.Segments.Step.{IsRooted}
use fluent_uri_rs.Spec.{
  colon_first, IsAbEmpty, IsHost, named, future, address, OnSome, map_some, write_query,
  write_fragment,
}
use fluent_uri_rs.Table.{is_subset}
use fluent_uri_rs.Table.Consts
use fluent_uri_rs.Table.Facts
use fluent_uri_rs.Table.Validate.{Valid, byte, octet}
use fluent_uri_rs.Uri.{Uri}

of_userinfo : is_subset Consts.unreserved Consts.userinfo ≡ true
unfolding is_subset Consts.unreserved Consts.userinfo
of_userinfo = refl

of_path : is_subset Consts.unreserved Consts.path ≡ true
unfolding is_subset Consts.unreserved Consts.path
of_path = refl

of_query : is_subset Consts.unreserved Consts.query ≡ true
unfolding is_subset Consts.unreserved Consts.query
of_query = refl

-- A path still fits beside the other components.
abbrev pub KeepsFits : Bool → Bytes → Bytes → Type 0
KeepsFits has_scheme p n =
    (IsAbEmpty p → IsAbEmpty n)
    × (has_scheme ≡ false
        → (starts_with n (b'/' ∷ b'/' ∷ []) ≡ starts_with p (b'/' ∷ b'/' ∷ []))
          × (colon_first n ≡ colon_first p))

rooted-IsAbEmpty : (n : Bytes) → IsRooted n → IsAbEmpty n
rooted-IsAbEmpty n (m, e) = rw e refl

Same-IsAbEmpty : (p n : Bytes) → Same p n → IsAbEmpty p → IsAbEmpty n
Same-IsAbEmpty p [] z e = tt
Same-IsAbEmpty [] (y ∷ n) z e = absurd (omega (arith, z.0))
Same-IsAbEmpty (x ∷ p) (y ∷ n) z e = let b = z.1 in ground (arith, b, e)

-- The path, without dot segments where it is absolute and there is a scheme.
absolute_path :
    (u : Uri) (x : ℕ) (p : Bytes)
    → (is_some u.meta.scheme_end && starts_with (x ∷ p) (b'/' ∷ [])) ≡ true
    → Valid Consts.path (x ∷ p)
    → (n : Bytes) × (normalize_path u (x ∷ p) ≡ done n)
      × PathRewrites true (x ∷ p) n
      × KeepsFits (is_some u.meta.scheme_end) (x ∷ p) n
unfolding normalize_path
absolute_path u x p h (byte m a v) =
    let slash : x ≡ b'/' = ground (arith, h) in
    let (r, w, k, z) = keeps_case Facts.path-IsTable of_path v in
    let (s, f, g, z') = keeps_case {s = x ∷ p} Facts.path-IsTable of_path (byte m a v) in
    let both : ◌≡◌ {A = Run Bytes} (done s) (done (x ∷ r)) =
      sym (f []) ∙ normalize_estr-plain [] x p false m ∙ w (x ∷ []) in
    let same : s ≡ b'/' ∷ r = let e : s ≡ x ∷ r = cc in e ∙ ap (λ z. z ∷ r) slash in
    let whole : Valid Consts.path s = Normal-Valid g.0 in
    let (out, e, c, valid) = absolute-GivesPath r (rw same at whole) in
    let run : remove_dot_segments [] s ≡ done out = ap (remove_dot_segments []) same ∙ e in
    (
      out,
      rw (normalize_path, h, f []) run,
      (valid, s, g, run),
      (λ e. rooted-IsAbEmpty out c, λ e. absurd (ground (arith, h, e))),
    )
absolute_path u x p h (octet q a b v) = absurd (ground (arith, h))

pub normalize_path-PathRewrites :
    (u : Uri) (p : Bytes)
    → Valid Consts.path p
    → (n : Bytes) × (normalize_path u p ≡ done n)
      × PathRewrites (is_some u.meta.scheme_end && starts_with p (b'/' ∷ [])) p n
      × KeepsFits (is_some u.meta.scheme_end) p n
unfolding normalize_path
normalize_path-PathRewrites u p v =
    elim (Bool-cases (is_some u.meta.scheme_end && starts_with p (b'/' ∷ []))) [
      | inl h ↦ let (n, e, w, z) = by p h v in (n, e, rw h w, z)
      | inr h ↦
          let (r, w, k, z) = keeps_case Facts.path-IsTable of_path v in
          (
            r,
            rw (normalize_path, h) (w []),
            (Normal-Valid k.0, r, k, rw h refl),
            (Same-IsAbEmpty p r z, λ e. (z.2, z.3)),
          )
    ]
  where
    by :
        (p : Bytes)
        → (is_some u.meta.scheme_end && starts_with p (b'/' ∷ [])) ≡ true
        → Valid Consts.path p
        → (n : Bytes) × (normalize_path u p ≡ done n)
          × PathRewrites true p n
          × KeepsFits (is_some u.meta.scheme_end) p n
    by [] h v = absurd (ground (arith, h))
    by (x ∷ p) h v = absolute_path u x p h v

-- The userinfo with its sign.
pub push_userinfo-Normal :
    (i : Option Bytes)
    → OnSome (Valid Consts.userinfo) i
    → (j : Option Bytes) × BothNormalize Consts.userinfo i j
      × ((buf : Bytes) → push_userinfo buf i ≡ done (buf ++ userinfo_text j))
unfolding push_userinfo
push_userinfo-Normal none v = (none, tt, λ buf. ap done (sym (append-nil buf)))
push_userinfo-Normal (some i) v =
    let (r, w, k, z) = keeps_case Facts.userinfo-IsTable of_userinfo v in
    (some r, k, λ buf. rw (w buf) (ap done (append_assoc buf r (b'@' ∷ []))))

-- A name whose text is as long as before has not become an address.
read_again :
    (b : Bool) (r h : Bytes)
    → parse_v4_or_reg_name h ≡ reg_name
    → (b ≡ false → IsDotted r → r ≡ h)
    → (if b then parse_v4_or_reg_name r else reg_name) ≡ parse_v4_or_reg_name r
read_again true r h e k = refl
read_again false r h e k = elim (parse_v4_or_reg_name_cases r) [
  | inl (a, f, v, d) ↦ sym (ap parse_v4_or_reg_name (k refl d) ∙ e)
  | inr n ↦ sym n
]

push_reg_name-Normalizes :
    (buf h : Bytes)
    → Valid Consts.reg_name h
    → parse_v4_or_reg_name h ≡ reg_name
    → (r : Bytes) × (m : HostMeta) × (push_reg_name buf h ≡ done (buf ++ r, m))
      × HostRewrites h reg_name r m
unfolding push_reg_name
push_reg_name-Normalizes buf h v e =
    let (r, w, k, same) = lowers_case v in
    let behind : drop (length buf) (buf ++ r) ≡ r = drop-append buf r in
    let long : length (buf ++ r) ≡ length buf + length r = length-append buf r in
    let b = ltb (length buf + length r) (length buf + length h) in
    (
      r,
      (if b then parse_v4_or_reg_name r else reg_name),
      rw (push_reg_name, w buf, long, behind) refl,
      (k, read_again b r h e (λ f. same (ground (arith, f)))),
    )

name_valid :
    {h : Bytes} {m : HostMeta}
    → IsHost h m
    → m ≡ reg_name
    → Valid Consts.reg_name h × (parse_v4_or_reg_name h ≡ reg_name)
name_valid (named v e) k = (v, sym e ∙ k)
name_valid (future v c d) k = absurd cc
name_valid (address a e) k = absurd cc

pub push_host-HostRewrites :
    (buf h : Bytes) (m : HostMeta)
    → IsHost h m
    → (r : Bytes) × (n : HostMeta) × (push_host buf h m ≡ done (buf ++ r, n)) × HostRewrites h m r n
unfolding push_host
push_host-HostRewrites buf h (ipv4 a) v = (h, ipv4 a, refl, (refl, refl))
push_host-HostRewrites buf h (ipv6 segs) v = (
  b'[' ∷ (write_v6 segs ++ (b']' ∷ [])),
  ipv6 segs,
  ap (λ l. done (l, ipv6 segs)) (append_assoc buf (b'[' ∷ write_v6 segs) (b']' ∷ [])),
  (refl, refl),
)
push_host-HostRewrites buf h ipv_future v =
    (map to_ascii_lowercase h, ipv_future, refl, (refl, refl))
push_host-HostRewrites buf h reg_name v =
    let (w, e) = name_valid v refl in push_reg_name-Normalizes buf h w e

pub push_port_lem :
    (buf : Bytes) (p : Option Bytes) → push_port buf p ≡ buf ++ port_text (kept_port p)
unfolding push_port
push_port_lem buf none = sym (append-nil buf)
push_port_lem buf (some []) = sym (append-nil buf)
push_port_lem buf (some (x ∷ p)) = append_assoc buf (b':' ∷ []) (x ∷ p)

query_end : (buf r : Bytes) → length ((buf ++ (b'?' ∷ [])) ++ r) ≡ length buf + 1 + length r
query_end buf r =
    length-append (buf ++ (b'?' ∷ [])) r ∙ ap (λ n. n + length r) (length-append buf (b'?' ∷ []))

pub push_query-Normal :
    (q : Option Bytes)
    → OnSome (Valid Consts.query) q
    → (r : Option Bytes) × BothNormalize Consts.query q r
      × ((buf : Bytes)
          → push_query buf q
            ≡ done (buf ++ write_query r [], map_some (λ w. length buf + 1 + length w) r))
unfolding push_query
push_query-Normal none v = (none, tt, λ buf. ap (λ l. done (l, none)) (sym (append-nil buf)))
push_query-Normal (some q) v =
    let (r, w, k, z) = keeps_case Facts.query-IsTable of_query v in
    (
      some r,
      k,
      λ buf. rw (w (buf ++ (b'?' ∷ []))) (
          ap₂ (λ l i. done (l, i))
            (append_assoc buf (b'?' ∷ []) r ∙ ap (λ w. buf ++ (b'?' ∷ w)) (sym (append-nil r)))
            (ap non_zero (query_end buf r)
              ∙ non_zero_pos (length buf + 1 + length r) (omega arith))),
    )

pub push_fragment-Normal :
    (f : Option Bytes)
    → OnSome (Valid Consts.fragment) f
    → (r : Option Bytes) × BothNormalize Consts.fragment f r
      × ((buf : Bytes) → push_fragment buf f ≡ done (buf ++ write_fragment r))
unfolding push_fragment Consts.query Consts.fragment
push_fragment-Normal none v = (none, tt, λ buf. ap done (sym (append-nil buf)))
push_fragment-Normal (some f) v =
    let (r, w, k, z) = keeps_case Facts.query-IsTable of_query v in
    (some r, k, λ buf. w (buf ++ (b'#' ∷ [])) ∙ ap done (append_assoc buf (b'#' ∷ []) r))
