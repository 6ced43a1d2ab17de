-- ===== src/Normalizer/Rewrites.antt =====
-- What `normalize` of src/normalizer.rs has to make of each component: section 6.2.2 of RFC 3986.
use fluent_uri_rs.Base.{
  Bool, true, false, not, ◌&&◌, Option, none, some, [], ◌∷◌, ◌++◌, map, if◌then◌else◌, is_some,
  Bytes, starts_with, to_ascii_lowercase, ◌≡◌,
}
use fluent_uri_rs.Base.Run.{done}
use fluent_uri_rs.Encoding.{decode_loop}
use fluent_uri_rs.Net.{HostMeta, ipv4, ipv6, ipv_future, reg_name}
use fluent_uri_rs.Normalizer.{lower_if}
use fluent_uri_rs.Normalizer.Octets.{Normal}
use fluent_uri_rs.Normalizer.Write.{write_v6}
use fluent_uri_rs.Reader.V4.{parse_v4_or_reg_name}
use fluent_uri_rs.Resolver.Segments.{remove_dot_segments}
use fluent_uri_rs.Spec.{AuthParts, Parts, map_some}
use fluent_uri_rs.Table.{Table}
use fluent_uri_rs.Table.Consts
use fluent_uri_rs.Table.Validate.{Valid}

-- `r` is in normal form, and decodes to what `s` decodes to, with letters in lowercase where `low`
-- is set.
abbrev pub Normalizes : Table → Bool → Bytes → Bytes → Type 0
Normalizes t low s r =
    Normal t low r
    × (d : Bytes) × (decode_loop s [] ≡ done d)
    × (decode_loop r [] ≡ done (map (lower_if low) d))

-- The same of a component that may be absent.
abbrev pub BothNormalize : Table → Option Bytes → Option Bytes → Type 0
BothNormalize t none none = Unit
BothNormalize t none (some r) = ⊥
BothNormalize t (some s) none = ⊥
BothNormalize t (some s) (some r) = Normalizes t false s r

-- An IPv4 address stays, an IPv6 address is written anew, an address of a future version is put into
-- lowercase, and a name is normalized and classified again.
abbrev pub HostRewrites : Bytes → HostMeta → Bytes → HostMeta → Type 0
HostRewrites h (ipv4 a) r n = (r ≡ h) × (n ≡ ipv4 a)
HostRewrites h (ipv6 segs) r n = (r ≡ b'[' ∷ (write_v6 segs ++ (b']' ∷ []))) × (n ≡ ipv6 segs)
HostRewrites h ipv_future r n = (r ≡ map to_ascii_lowercase h) × (n ≡ ipv_future)
HostRewrites h reg_name r n = Normalizes Consts.reg_name true h r × (n ≡ parse_v4_or_reg_name r)

-- An empty port is dropped with its colon.
abbrev pub kept_port : Option Bytes → Option Bytes
kept_port none = none
kept_port (some []) = none
kept_port (some (x ∷ p)) = some (x ∷ p)

abbrev pub AuthRewrites : Option AuthParts → Option AuthParts → Type 0
AuthRewrites none none = Unit
AuthRewrites none (some b) = ⊥
AuthRewrites (some a) none = ⊥
AuthRewrites (some a) (some b) =
    BothNormalize Consts.userinfo a.userinfo b.userinfo
    × HostRewrites a.host a.host_meta b.host b.host_meta
    × (b.port ≡ kept_port a.port)

-- A path is normalized, and its dot segments are removed where `absolute` is set.
abbrev pub PathRewrites : Bool → Bytes → Bytes → Type 0
PathRewrites absolute p n =
    Valid Consts.path n
    × (m : Bytes) × Normalizes Consts.path false p m
    × ((if absolute then remove_dot_segments [] m else done m) ≡ done n)

-- The path with the dot that keeps two slashes from an authority.
abbrev pub dotted : Parts → Bytes → Bytes
dotted p n =
    if is_some p.scheme && not (is_some p.auth) && starts_with n (b'/' ∷ b'/' ∷ [])
    then b'/' ∷ b'.' ∷ n
    else n

-- `p` is rewritten to `q`.
pub record Rewrites (p q : Parts) : Type 0 where
  pub scheme_lower : q.scheme ≡ map_some (map to_ascii_lowercase) p.scheme
  pub auth_rewrites : AuthRewrites p.auth q.auth
  pub path_rewrites :
      (n : Bytes) × PathRewrites (is_some p.scheme && starts_with p.path (b'/' ∷ [])) p.path n
      × (q.path ≡ dotted p n)
  pub path_valid : Valid Consts.path q.path
  pub query_normal : BothNormalize Consts.query p.query q.query
  pub fragment_normal : BothNormalize Consts.fragment p.fragment q.fragment
