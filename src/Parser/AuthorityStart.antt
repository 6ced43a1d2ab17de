-- ===== src/Parser/AuthorityStart.antt =====
-- The authority up to its userinfo or its literal, in src/parser.rs.
use mathlib.Core.Path.{ap₂}
use fluent_uri_rs.Base.{
  ◌+◌, true, false, Option, none, some, [], ◌∷◌, ◌++◌, append-nil, append_assoc, ◌==◌, Bytes,
  length, starts_with, length-append, ==_iff, &&-eq-true, ◌≡◌, refl, ap, ◌∙◌,
}
use fluent_uri_rs.Error.{Result, ok, ◌>>=◌}
use fluent_uri_rs.Net.{HostMeta, AuthMeta, reg_name}
use fluent_uri_rs.Parser.{peek_is, read_after_userinfo, read_literal_or_empty, read_authority}
use fluent_uri_rs.Parser.Authority.{userinfo_read, same_pos, branch_userinfo, branch_literal}
use fluent_uri_rs.Parser.Host.{AuthStops, read_host-at, port_text, read_port-at}
use fluent_uri_rs.Parser.Path.{peek_is-at_cons}
use fluent_uri_rs.Reader.{Reader}
use fluent_uri_rs.Reader.Host.{read_ip_literal, read_host}
use fluent_uri_rs.Reader.Span.{Stops}
use fluent_uri_rs.Reader.V4.{read_port}
use fluent_uri_rs.Reader.View.{at, at-skip}
use fluent_uri_rs.Spec.{OnSome, write_port, write_userinfo, IsHost}
use fluent_uri_rs.Table.{allows}
use fluent_uri_rs.Table.Consts
use fluent_uri_rs.Table.Validate.{Valid, nil}

-- Where the host begins, behind `pre`.
abbrev pub userinfo_text : Option Bytes → Bytes
userinfo_text none = []
userinfo_text (some u) = u ++ (b'@' ∷ [])

abbrev pub Whole : Bytes → Option Bytes → Bytes → HostMeta → Option Bytes → Bytes → Type 0
Whole pre info h m port rest =
    read_authority (at pre (write_userinfo info (h ++ write_port port rest)))
    ≡ ok (
      record {
        host_bounds =
            (length (pre ++ userinfo_text info), length (pre ++ userinfo_text info) + length h);
        host_meta = m;
      },
      at (((pre ++ userinfo_text info) ++ h) ++ port_text port) rest,
    )

pub after_by :
    (r : Reader) {r1 r2 : Reader} {m : HostMeta}
    → fluent_uri_rs.Reader.skip 1 r ≡ r1
    → read_host r1 ≡ ok (m, r2)
    → read_after_userinfo r
      ≡ ok (record { host_bounds = (r1.pos, r2.pos); host_meta = m }, read_port r2)
unfolding read_after_userinfo
after_by r {r1} {r2} {m} e f =
    ap
      (λ r1. read_host r1 >>= λ (m, r2).
        ok (record { host_bounds = (r1.pos, r2.pos); host_meta = m }, read_port r2))
      e
    ∙ rw f

-- The end of the host, as its length.
host_end :
    (pre h : Bytes) (m : HostMeta) {r r' : Reader}
    → r ≡ r'
    → ◌≡◌ {A = Result (AuthMeta × Reader)}
        (ok (record { host_bounds = (length pre, length (pre ++ h)); host_meta = m }, r))
        (ok (record { host_bounds = (length pre, length pre + length h); host_meta = m }, r'))
host_end pre h m e =
    ap₂ (λ k r. ok (record { host_bounds = (length pre, k); host_meta = m }, r))
      (length-append pre h) e

pub with_userinfo :
    (pre u h : Bytes) (m : HostMeta) (port : Option Bytes) (rest : Bytes)
    → Valid Consts.userinfo u
    → IsHost h m
    → OnSome (Valid Consts.digit) port
    → AuthStops rest
    → Whole pre (some u) h m port rest
unfolding allows Consts.userinfo
with_userinfo pre u h m port rest vu vh vp s =
    let behind = h ++ write_port port rest in
    let mid = (pre ++ u) ++ (b'@' ∷ []) in
    let text : mid ≡ pre ++ (u ++ (b'@' ∷ [])) = append_assoc pre u (b'@' ∷ []) in
    let host = read_host-at mid port rest vh s in
    rw (← text) (
      branch_userinfo _ (userinfo_read pre (b'@' ∷ behind) vu refl)
        (peek_is-at_cons (pre ++ u) behind b'@' b'@')
      ∙ after_by _ (at-skip (pre ++ u) (b'@' ∷ []) behind) host
      ∙ host_end mid h m (read_port-at port (mid ++ h) rest vp s))

pub literal_by :
    (r : Reader) {r1 : Reader} {m : HostMeta}
    → read_ip_literal r ≡ ok (some m, r1)
    → read_literal_or_empty r
      ≡ ok (record { host_bounds = (r.pos, r1.pos); host_meta = m }, read_port r1)
unfolding read_literal_or_empty
literal_by r e = rw e

pub empty_by :
    (r : Reader)
    → read_ip_literal r ≡ ok (none, r)
    → read_literal_or_empty r
      ≡ ok (record { host_bounds = (r.pos, r.pos); host_meta = reg_name }, r)
unfolding read_literal_or_empty
empty_by r e = rw e

bracket_stop : (l : Bytes) → Stops Consts.userinfo (b'[' ∷ l)
unfolding allows Consts.userinfo
bracket_stop l = refl

-- Nothing is read as userinfo.
pub nothing_read :
    (pre l : Bytes)
    → Stops Consts.userinfo l
    → peek_is (at pre l) b'@' ≡ false
    → read_authority (at pre l) ≡ read_literal_or_empty (at pre l)
nothing_read pre l st p =
    branch_literal _ (userinfo_read pre l nil st ∙ ap (λ q. ok ((0, 0), at q l)) (append-nil pre)) p
      (same_pos pre)

pub with_literal :
    (pre h : Bytes) (m : HostMeta) (port : Option Bytes) (rest : Bytes)
    → starts_with h (b'[' ∷ []) ≡ true
    → ((pre tail : Bytes) → read_ip_literal (at pre (h ++ tail)) ≡ ok (some m, at (pre ++ h) tail))
    → OnSome (Valid Consts.digit) port
    → AuthStops rest
    → Whole pre none h m port rest
with_literal pre [] m port rest b r vp s = absurd (let c : false ≡ true = b in cc)
with_literal pre (x ∷ h) m port rest b r vp s =
    let e : x ≡ b'[' = (==_iff x b'[').0 (&&-eq-true (x == b'[') (starts_with h []) b).0 in
    let behind = h ++ write_port port rest in
    rw (append-nil pre) (
      nothing_read pre (x ∷ behind) (rw e (bracket_stop behind))
        (peek_is-at_cons pre behind x b'@' ∙ rw e refl)
      ∙ literal_by _ (r pre (write_port port rest))
      ∙ host_end pre (x ∷ h) m (read_port-at port (pre ++ (x ∷ h)) rest vp s))
