-- ===== src/Normalizer/Parses.antt =====
-- `normalize` of src/normalizer.rs, and `parse` of what it returns.
use mathlib.Core.Path.{subst}
use fluent_uri_rs.Base.{
  ℕ, Bool, true, false, not, ◌&&◌, ◌||◌, Option, none, some, [], ◌∷◌, ◌++◌, map, if◌then◌else◌,
  is_some, Bytes, starts_with, to_ascii_lowercase, all_below, Bool-cases, ◌≡◌, ◌⊎◌, refl, sym, ap,
  ◌∙◌, inl, inr, arith,
}
use fluent_uri_rs.Base.Run.{done}
use fluent_uri_rs.Error.{ok}
use fluent_uri_rs.Net.{HostMeta, ipv4, ipv6, ipv_future, reg_name}
use fluent_uri_rs.Normalizer.{normalize}
use fluent_uri_rs.Normalizer.Octets.{Normal-Valid}
use fluent_uri_rs.Normalizer.Pieces.{KeepsFits}
use fluent_uri_rs.Normalizer.Rewrites.{
  BothNormalize, HostRewrites, AuthRewrites, Rewrites, kept_port, dotted,
}
use fluent_uri_rs.Normalizer.Total.{rewritten}
use fluent_uri_rs.Reader.HostReads.{parse_v4_or_reg_name_cases}
use fluent_uri_rs.Spec.{
  AuthParts, Parts, IsScheme, OnSome, IsHost, named, future, address, future_text, IsAuth, PathFits,
  IsWellFormed, map_some, meta_of,
}
use fluent_uri_rs.Table.{Table, allows}
use fluent_uri_rs.Table.Consts
use fluent_uri_rs.Table.Facts
use fluent_uri_rs.Table.Laws.{IsTable, allows-lt, allows-ne, all_below-lt}
use fluent_uri_rs.Table.Validate.{Valid, nil, byte, octet}
use fluent_uri_rs.Uri.{Uri, to_uri}
use fluent_uri_rs.Uri.Components.{to_uri-write}
use fluent_uri_rs.Uri.Parts.{uri_of}
use fluent_uri_rs.Uri.Sound.{to_uri_sound}

-- The tables of schemes, of hexadecimal digits and of addresses of a future version allow what their
-- letters are lowered to.
lowered : Table → ℕ → Bool
lowered t x = not (allows t x) || allows t (to_ascii_lowercase x)

implied : (a b : Bool) → (not a || b) ≡ true → a ≡ true → b ≡ true
implied a b h g = ground arith

lower_word :
    {t : Table} {w : Bytes}
    → IsTable t
    → t.allows_enc ≡ false
    → all_below 128 (lowered t) ≡ true
    → Valid t w
    → Valid t (map to_ascii_lowercase w)
unfolding lowered
lower_word i n l nil = nil
lower_word {t} i n l (byte {x} m a v) =
    let b : allows t (to_ascii_lowercase x) ≡ true =
      implied (allows t x) _ (all_below-lt 128 (lowered t) x l (allows-lt i x a)) a in
    byte (allows-ne i (to_ascii_lowercase x) b) b (lower_word i n l v)
lower_word i n l (octet e a b v) = absurd (let c : true ≡ false = sym e ∙ n in cc)

scheme_lowered : all_below 128 (lowered Consts.scheme) ≡ true
unfolding all_below lowered allows Consts.scheme
scheme_lowered = refl

hexdig-lowered : all_below 128 (lowered Consts.hexdig) ≡ true
unfolding all_below lowered allows Consts.hexdig
hexdig-lowered = refl

future_lowered : all_below 128 (lowered Consts.ipv_future) ≡ true
unfolding all_below lowered allows Consts.ipv_future
future_lowered = refl

no_octets_scheme : (Consts.scheme).allows_enc ≡ false
unfolding Consts.scheme
no_octets_scheme = refl

no_octets_hexdig : (Consts.hexdig).allows_enc ≡ false
unfolding Consts.hexdig
no_octets_hexdig = refl

no_octets_future : (Consts.ipv_future).allows_enc ≡ false
unfolding Consts.ipv_future
no_octets_future = refl

lower-IsScheme :
    (s : Option Bytes) → OnSome IsScheme s → OnSome IsScheme (map_some (map to_ascii_lowercase) s)
lower-IsScheme none v = tt
lower-IsScheme (some []) v = absurd v
lower-IsScheme (some (x ∷ s)) (a, v) =
    (ground (arith, a), lower_word Facts.scheme-IsTable no_octets_scheme scheme_lowered v)

map_text :
    (v w : Bytes)
    → map to_ascii_lowercase (v ++ w) ≡ map to_ascii_lowercase v ++ map to_ascii_lowercase w
map_text [] w = refl
map_text (x ∷ v) w = ap (λ l. to_ascii_lowercase x ∷ l) (map_text v w)

lower_future :
    (v : ℕ) (hex addr : Bytes)
    → map to_ascii_lowercase (future_text v hex addr)
      ≡ future_text
          (to_ascii_lowercase v)
          (map to_ascii_lowercase hex)
          (map to_ascii_lowercase addr)
lower_future v hex addr =
    ap (λ l. b'[' ∷ to_ascii_lowercase v ∷ l)
      (map_text hex (b'.' ∷ (addr ++ (b']' ∷ [])))
        ∙ ap (λ l. map to_ascii_lowercase hex ++ (b'.' ∷ l)) (map_text addr (b']' ∷ [])))

lower_version :
    (v : ℕ)
    → (v ≡ b'v') ⊎ (v ≡ b'V')
    → (to_ascii_lowercase v ≡ b'v') ⊎ (to_ascii_lowercase v ≡ b'V')
lower_version v (inl e) = inl (rw e refl)
lower_version v (inr e) = inl (rw e refl)

abbrev pub is_v6 : HostMeta → Bool
is_v6 (ipv6 segs) = true
is_v6 _ = false

lower-IsHost :
    {h : Bytes} {m : HostMeta}
    → IsHost h m
    → m ≡ ipv_future
    → IsHost (map to_ascii_lowercase h) ipv_future
lower-IsHost (named {h} {m} v e) k = elim (parse_v4_or_reg_name_cases h) [
  | inl (a, f, g, d) ↦ absurd (let c : ipv_future ≡ ipv4 a = sym k ∙ e ∙ f in cc)
  | inr f ↦ absurd (let c : ipv_future ≡ reg_name = sym k ∙ e ∙ f in cc)
]
lower-IsHost (future {v} {c} {d} {hex} {addr} i a b) k =
    subst (λ h. IsHost h ipv_future) (sym (lower_future v (c ∷ hex) (d ∷ addr)))
      (future (lower_version v i)
        (lower_word Facts.hexdig-IsTable no_octets_hexdig hexdig-lowered a)
        (lower_word Facts.ipv_future-IsTable no_octets_future future_lowered b))
lower-IsHost (address a e) k = absurd cc

HostRewrites-IsHost :
    (h : Bytes) (m : HostMeta) (r : Bytes) (n : HostMeta)
    → is_v6 m ≡ false
    → IsHost h m
    → HostRewrites h m r n
    → IsHost r n
HostRewrites-IsHost h (ipv4 a) r n f v (e, g) = rw (e, g) v
HostRewrites-IsHost h (ipv6 segs) r n f v z = absurd cc
HostRewrites-IsHost h ipv_future r n f v (e, g) = rw (e, g) (lower-IsHost v refl)
HostRewrites-IsHost h reg_name r n f v (k, g) = named (Normal-Valid k.0) g

kept-Valid :
    (p : Option Bytes) → OnSome (Valid Consts.digit) p → OnSome (Valid Consts.digit) (kept_port p)
kept-Valid none v = tt
kept-Valid (some []) v = tt
kept-Valid (some (x ∷ p)) v = v

both-Valid : (t : Table) (p q : Option Bytes) → BothNormalize t p q → OnSome (Valid t) q
both-Valid t none none z = tt
both-Valid t none (some r) z = absurd z
both-Valid t (some s) none z = absurd z
both-Valid t (some s) (some r) z = Normal-Valid z.0

abbrev NoV6 : Option AuthParts → Type 0
NoV6 a = OnSome (λ (a : AuthParts). is_v6 a.host_meta ≡ false) a

AuthRewrites-IsAuth :
    (a b : Option AuthParts) → NoV6 a → OnSome IsAuth a → AuthRewrites a b → OnSome IsAuth b
AuthRewrites-IsAuth none none f v z = tt
AuthRewrites-IsAuth none (some b) f v z = absurd z
AuthRewrites-IsAuth (some a) none f v z = absurd z
AuthRewrites-IsAuth (some a) (some b) f v (i, h, k) = record {
  userinfo_valid = both-Valid Consts.userinfo a.userinfo b.userinfo i;
  host_valid = HostRewrites-IsHost a.host a.host_meta b.host b.host_meta f v.host_valid h;
  port_valid = rw k (kept-Valid a.port v.port_valid);
}

path-PathFits :
    (s : Option Bytes) (a b : Option AuthParts) (p n : Bytes)
    → AuthRewrites a b
    → PathFits s a p
    → KeepsFits (is_some s) p n
    → PathFits (map_some (map to_ascii_lowercase) s) b (
        if is_some s && not (is_some a) && starts_with n (b'/' ∷ b'/' ∷ [])
        then b'/' ∷ b'.' ∷ n
        else n)
path-PathFits s none (some b) p n z v k = absurd z
path-PathFits s (some a) none p n z v k = absurd z
path-PathFits none (some a) (some b) p n z v k = k.0 v
path-PathFits (some s) (some a) (some b) p n z v k = k.0 v
path-PathFits none none none p n z v k = ((k.1 refl).0 ∙ v.0, (k.1 refl).1 ∙ v.1)
path-PathFits (some s) none none p n z v k = elim (Bool-cases (starts_with n (b'/' ∷ b'/' ∷ []))) [
  | inl h ↦ rw h refl
  | inr h ↦ rw h h
]

well_formed :
    (p q : Parts)
    → IsWellFormed p
    → NoV6 p.auth
    → Rewrites p q
    → (n : Bytes) → q.path ≡ dotted p n
    → KeepsFits (is_some p.scheme) p.path n
    → IsWellFormed q
well_formed p q v f r n e k = record {
  scheme_valid = rw r.scheme_lower (lower-IsScheme p.scheme v.scheme_valid);
  auth_valid = AuthRewrites-IsAuth p.auth q.auth f v.auth_valid r.auth_rewrites;
  path_valid = r.path_valid;
  path_fits =
      rw (r.scheme_lower, e)
        (path-PathFits p.scheme p.auth q.auth p.path n r.auth_rewrites v.path_fits k);
  query_valid = both-Valid Consts.query p.query q.query r.query_normal;
  fragment_valid = both-Valid Consts.fragment p.fragment q.fragment r.fragment_normal;
}

-- The host is an IPv6 address.
abbrev pub uses_v6 : Uri → Bool
uses_v6 u = elim u.meta.auth_meta [ none ↦ false | some m ↦ is_v6 m.host_meta ]

no_v6 : (p : Parts) (a : Option AuthParts) → p.auth ≡ a → uses_v6 (uri_of p) ≡ false → NoV6 a
unfolding meta_of
no_v6 p none e h = tt
no_v6 p (some a) e h = rw e at h

-- On whatever parses without an IPv6 address for a host, `normalize` returns a reference whose text
-- parses, with exactly the offsets that `normalize` computed.
pub to_uri-normalize :
    (s : Bytes) (u : Uri)
    → to_uri s ≡ ok u
    → uses_v6 u ≡ false
    → (v : Uri) × (normalize u ≡ done v) × (to_uri v.val ≡ ok v)
to_uri-normalize s u h f =
    let (p, v, t, e) = to_uri_sound s u h in
    let (q, r, run, n, g, k) = rewritten p v in
    let w = well_formed p q v (no_v6 p p.auth refl (sym (ap uses_v6 e) ∙ f)) r n g k in
    (uri_of q, ap normalize e ∙ run, to_uri-write q w)
