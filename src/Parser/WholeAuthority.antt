-- ===== src/Parser/WholeAuthority.antt =====
-- `read_authority` on a well-formed authority: its branches together.
use mathlib.Core.Path.{subst}
use fluent_uri_rs.Base.{
  ℕ, ◌+◌, true, false, ltb, Option, none, some, [], ◌∷◌, ◌++◌, append-nil, append_assoc, Bytes,
  length, length-append, ◌≡◌, refl, sym, ap, ◌∙◌, arith,
}
use fluent_uri_rs.Error.{ok}
use fluent_uri_rs.Net.{HostMeta, reg_name}
use fluent_uri_rs.Parser.{note_colon, split_authority, read_authority}
use fluent_uri_rs.Parser.Authority.{
  scan-named, scan-append, split-none, split-some, rest-peek, rest-userinfo, colon-reg_name,
  named_split,
}
use fluent_uri_rs.Parser.Host.{AuthStops, rest-starts, literal_miss, port_text}
use fluent_uri_rs.Reader.Host.Literal.{literal-future, literal-address}
use fluent_uri_rs.Reader.Reads.{scan}
use fluent_uri_rs.Reader.V4.{parse_v4_or_reg_name}
use fluent_uri_rs.Reader.View.{at}
use fluent_uri_rs.Spec.{
  OnSome, AuthParts, write_port, write_userinfo, IsHost, named, future, address, IsAuth,
  auth_meta_of, auth_end, host_start,
}
use fluent_uri_rs.Table.{allows}
use fluent_uri_rs.Table.Consts
use fluent_uri_rs.Table.Relate.{reg_name_in_userinfo, digit_in_userinfo}
use fluent_uri_rs.Table.Validate.{Valid, byte, Valid-append}
use fluent_uri_rs.Parser.AuthorityStart.{
  userinfo_text, Whole, with_userinfo, empty_by, nothing_read, with_literal,
}

-- A name without userinfo, where it is empty.
no_name :
    (pre rest : Bytes) → AuthStops rest → Whole pre none [] (parse_v4_or_reg_name []) none rest
unfolding parse_v4_or_reg_name
no_name pre rest s =
    rw (append-nil pre, append-nil pre, append-nil pre)
      (nothing_read pre rest (rest-userinfo rest s) (rest-peek pre rest s)
        ∙ empty_by _ (literal_miss pre rest (rest-starts rest b'[' refl refl refl s))
        ∙ ap (λ k. ok (record { host_bounds = (length pre, k); host_meta = reg_name }, at pre rest))
            (omega arith))

-- A name without userinfo, and a port.
port_word :
    {h p : Bytes}
    → Valid Consts.reg_name h
    → Valid Consts.digit p
    → Valid Consts.userinfo (h ++ (b':' ∷ p))
unfolding allows Consts.userinfo
port_word vh vp = Valid-append (reg_name_in_userinfo vh) (byte refl refl (digit_in_userinfo vp))

port_scan :
    (i : ℕ) {h p : Bytes}
    → Valid Consts.reg_name h
    → Valid Consts.digit p
    → scan note_colon (h ++ (b':' ∷ p)) i (0, 0) ≡ (1, i + length h)
unfolding note_colon
port_scan i {h} {p} vh vp =
    scan-append h (b':' ∷ p) i (0, 0)
    ∙ rw (scan-named i (0, 0) colon-reg_name vh)
        (scan-named (i + length h + 1) (1, i + length h) colon-digit vp)
  where
    colon-digit : allows Consts.digit b':' ≡ false
    colon-digit = unfold allows Consts.digit in refl

with_port :
    (pre h p rest : Bytes)
    → Valid Consts.reg_name h
    → Valid Consts.digit p
    → AuthStops rest
    → Whole pre none h (parse_v4_or_reg_name h) (some p) rest
with_port pre h p rest vh vp s =
    let word = h ++ (b':' ∷ p) in
    let longer : ltb 0 (length word) ≡ true = rw (length-append h (b':' ∷ p)) (ground arith) in
    rw (append-nil pre, append_assoc pre h (b':' ∷ p), ← append_assoc h (b':' ∷ p) rest)
      (named_split pre word rest longer (port_word vh vp) s
        ∙ ap (λ c. split_authority (length pre) c (at (pre ++ word) rest))
            (port_scan (length pre) vh vp)
        ∙ split-some pre h p rest vp)

-- A name without userinfo.
with_name :
    (pre h : Bytes) (port : Option Bytes) (rest : Bytes)
    → Valid Consts.reg_name h
    → OnSome (Valid Consts.digit) port
    → AuthStops rest
    → Whole pre none h (parse_v4_or_reg_name h) port rest
with_name pre [] none rest vh vp s = no_name pre rest s
with_name pre (x ∷ h) none rest vh vp s =
    rw (append-nil pre, append-nil (pre ++ (x ∷ h)))
      (named_split pre (x ∷ h) rest (ground arith) (reg_name_in_userinfo vh) s
        ∙ ap (λ c. split_authority (length pre) c (at (pre ++ (x ∷ h)) rest))
            (scan-named (length pre) (0, 0) colon-reg_name vh)
        ∙ split-none pre (x ∷ h) rest)
with_name pre h (some p) rest vh vp s = with_port pre h p rest vh vp s

pub whole :
    (pre : Bytes) (info : Option Bytes) (h : Bytes) (m : HostMeta) (port : Option Bytes)
    (rest : Bytes)
    → OnSome (Valid Consts.userinfo) info
    → IsHost h m
    → OnSome (Valid Consts.digit) port
    → AuthStops rest
    → Whole pre info h m port rest
whole pre (some u) h m port rest vu vh vp s = with_userinfo pre u h m port rest vu vh vp s
whole pre none h m port rest vu (future e vh va) vp s =
    with_literal pre h m port rest refl (λ pre tail. literal-future e vh va pre tail) vp s
whole pre none h m port rest vu (address a {segs} r) vp s =
    with_literal pre h m port rest refl (literal-address a segs r) vp s
whole pre none h m port rest vu (named v e) vp s =
    subst (λ m. Whole pre none h m port rest) (sym e) (with_name pre h port rest v vp s)

-- The text in front of the path.
abbrev pub behind : Bytes → AuthParts → Bytes
behind pre a = ((pre ++ userinfo_text a.userinfo) ++ a.host) ++ port_text a.port

pub start_of :
    (pre : Bytes) (n : ℕ) (info : Option Bytes)
    → length pre ≡ n + 2
    → length (pre ++ userinfo_text info)
      ≡ elim info [ none ↦ n + 2 | some u ↦ n + 2 + length u + 1 ]
start_of pre n none e = rw (append-nil pre) e
start_of pre n (some u) e =
    rw (length-append pre (u ++ (b'@' ∷ [])), length-append u (b'@' ∷ []), e) (omega arith)

pub end_of :
    (pre h : Bytes) (k : ℕ) (port : Option Bytes)
    → length pre ≡ k
    → length ((pre ++ h) ++ port_text port)
      ≡ elim port [ none ↦ k + length h | some p ↦ k + length h + 1 + length p ]
end_of pre h k none e = rw (append-nil (pre ++ h), length-append pre h, e) refl
end_of pre h k (some p) e =
    rw (length-append (pre ++ h) (b':' ∷ p), length-append pre h, e) (omega arith)

-- A well-formed authority in front of the path is read whole, whatever comes before it, and the
-- bounds and the kind of its host are found.
pub read_authority-whole :
    (pre : Bytes) (n : ℕ) (a : AuthParts) (rest : Bytes)
    → length pre ≡ n + 2
    → IsAuth a
    → AuthStops rest
    → read_authority (at pre (write_userinfo a.userinfo (a.host ++ write_port a.port rest)))
      ≡ ok (auth_meta_of n a, at (behind pre a) rest)
read_authority-whole pre n a rest e v s =
    whole pre a.userinfo a.host a.host_meta a.port rest v.userinfo_valid v.host_valid v.port_valid s
    ∙ ap
        (λ k. ok (
          record { host_bounds = (k, k + length a.host); host_meta = a.host_meta },
          at (behind pre a) rest,
        ))
        (start_of pre n a.userinfo e)

pub length-behind :
    (pre : Bytes) (n : ℕ) (a : AuthParts)
    → length pre ≡ n + 2
    → length (behind pre a) ≡ auth_end n (some a)
length-behind pre n a e =
    end_of (pre ++ userinfo_text a.userinfo) a.host (host_start n a) a.port
      (start_of pre n a.userinfo e)
