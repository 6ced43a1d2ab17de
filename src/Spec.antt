-- ===== src/Spec.antt =====
-- The URI references of RFC 3986, section 3: the components, how they are written one behind the
-- other (section 5.3), where each stands in the text, and when they are well formed (appendix A). Of
-- the source, only the tables of bytes and, for hosts, `parse_v4_or_reg_name` and `read_v6` are used.
use fluent_uri_rs.Base.{
  ℕ, ◌+◌, Bool, true, false, Option, none, some, [], ◌∷◌, ◌++◌, ◌==◌, if◌then◌else◌, Bytes,
  starts_with, length, is_ascii_alphabetic, ◌≡◌, ◌⊎◌, List,
}
use fluent_uri_rs.Net.{HostMeta, ipv6, ipv_future, AuthMeta, Meta}
use fluent_uri_rs.Reader.{new}
use fluent_uri_rs.Reader.V6.{read_v6}
use fluent_uri_rs.Reader.V4.{parse_v4_or_reg_name}
use fluent_uri_rs.Reader.View.{at}
use fluent_uri_rs.Table.Consts
use fluent_uri_rs.Table.Validate.{Valid}

pub record AuthParts : Type 0 where
  pub userinfo : Option Bytes
  pub host : Bytes
  pub host_meta : HostMeta
  pub port : Option Bytes

pub record Parts : Type 0 where
  pub scheme : Option Bytes
  pub auth : Option AuthParts
  pub path : Bytes
  pub query : Option Bytes
  pub fragment : Option Bytes

-- Each piece is written in front of what follows it.
abbrev pub write_scheme : Option Bytes → Bytes → Bytes
write_scheme none rest = rest
write_scheme (some s) rest = s ++ (b':' ∷ rest)

abbrev pub write_userinfo : Option Bytes → Bytes → Bytes
write_userinfo none rest = rest
write_userinfo (some u) rest = u ++ (b'@' ∷ rest)

abbrev pub write_port : Option Bytes → Bytes → Bytes
write_port none rest = rest
write_port (some p) rest = b':' ∷ (p ++ rest)

abbrev pub write_auth : Option AuthParts → Bytes → Bytes
write_auth none rest = rest
write_auth (some a) rest =
    b'/' ∷ b'/' ∷ write_userinfo a.userinfo (a.host ++ write_port a.port rest)

abbrev pub write_query : Option Bytes → Bytes → Bytes
write_query none rest = rest
write_query (some q) rest = b'?' ∷ (q ++ rest)

abbrev pub write_fragment : Option Bytes → Bytes
write_fragment none = []
write_fragment (some f) = b'#' ∷ f

-- What follows the authority.
abbrev pub write_rest : Parts → Bytes
write_rest p = p.path ++ write_query p.query (write_fragment p.fragment)

abbrev pub write : Parts → Bytes
write p = write_scheme p.scheme (write_auth p.auth (write_rest p))

-- Where the pieces end, from where they begin.
abbrev pub scheme_len : Option Bytes → ℕ
scheme_len none = 0
scheme_len (some s) = length s + 1

abbrev pub host_start : ℕ → AuthParts → ℕ
host_start n a = elim a.userinfo [ none ↦ n + 2 | some u ↦ n + 2 + length u + 1 ]

abbrev pub auth_end : ℕ → Option AuthParts → ℕ
auth_end n none = n
auth_end n (some a) =
    let host_end = host_start n a + length a.host in
    elim a.port [ none ↦ host_end | some p ↦ host_end + 1 + length p ]

abbrev pub auth_meta_of : ℕ → AuthParts → AuthMeta
auth_meta_of n a = record {
  host_bounds = (host_start n a, host_start n a + length a.host);
  host_meta = a.host_meta;
}

abbrev pub map_some : {A B : Type 0} → (A → B) → Option A → Option B
map_some f none = none
map_some f (some a) = some (f a)

abbrev pub path_start : Parts → ℕ
path_start p = auth_end (scheme_len p.scheme) p.auth

-- The `Meta` that describes the text of the components.
unfoldable pub meta_of : Parts → Meta
meta_of p = record {
  scheme_end = map_some length p.scheme;
  auth_meta = map_some (auth_meta_of (scheme_len p.scheme)) p.auth;
  path_bounds = (path_start p, path_start p + length p.path);
  query_end = map_some (λ q. path_start p + length p.path + 1 + length q) p.query;
}

-- scheme = ALPHA *( ALPHA / DIGIT / "+" / "-" / "." )
abbrev pub IsScheme : Bytes → Type 0
IsScheme [] = ⊥
IsScheme (x ∷ s) = (is_ascii_alphabetic x ≡ true) × Valid Consts.scheme (x ∷ s)

abbrev pub OnSome : {A : Type 0} → (A → Type 0) → Option A → Type 0
OnSome P none = Unit
OnSome P (some a) = P a

-- IPvFuture and IPv6address, in brackets.
abbrev pub future_text : ℕ → Bytes → Bytes → Bytes
future_text v hex addr = b'[' ∷ v ∷ (hex ++ (b'.' ∷ (addr ++ (b']' ∷ []))))

abbrev pub address_text : Bytes → Bytes
address_text a = b'[' ∷ (a ++ (b']' ∷ []))

-- A registered name with what its text stands for, an address of a future version, or an IPv6
-- address: a text that `read_v6` takes up to a closing bracket.
pub data IsHost : Bytes → HostMeta → Type 0 where
  named :
      {h : Bytes} {m : HostMeta} → Valid Consts.reg_name h → m ≡ parse_v4_or_reg_name h → IsHost h m
  future :
      {v c d : ℕ} {hex addr : Bytes}
      → (v ≡ b'v') ⊎ (v ≡ b'V')
      → Valid Consts.hexdig (c ∷ hex)
      → Valid Consts.ipv_future (d ∷ addr)
      → IsHost (future_text v (c ∷ hex) (d ∷ addr)) ipv_future
  address :
      (a : Bytes) {segs : List ℕ}
      → read_v6 (new (a ++ (b']' ∷ []))) ≡ (some segs, at a (b']' ∷ []))
      → IsHost (address_text a) (ipv6 segs)

pub record IsAuth (a : AuthParts) : Type 0 where
  pub userinfo_valid : OnSome (Valid Consts.userinfo) a.userinfo
  pub host_valid : IsHost a.host a.host_meta
  pub port_valid : OnSome (Valid Consts.digit) a.port

-- A colon before the first slash.
abbrev pub colon_first : Bytes → Bool
colon_first [] = false
colon_first (x ∷ p) =
    let rest = colon_first p in if x == b'/' then false else if x == b':' then true else rest

-- path-abempty
abbrev pub IsAbEmpty : Bytes → Type 0
IsAbEmpty [] = Unit
IsAbEmpty (x ∷ p) = x ≡ b'/'

-- path-abempty behind an authority, path-absolute, path-rootless or path-empty behind a scheme,
-- and path-absolute, path-noscheme or path-empty where there is neither.
abbrev pub PathFits : Option Bytes → Option AuthParts → Bytes → Type 0
PathFits s (some a) p = IsAbEmpty p
PathFits (some s) none p = starts_with p (b'/' ∷ b'/' ∷ []) ≡ false
PathFits none none p = (starts_with p (b'/' ∷ b'/' ∷ []) ≡ false) × (colon_first p ≡ false)

pub record IsWellFormed (p : Parts) : Type 0 where
  pub scheme_valid : OnSome IsScheme p.scheme
  pub auth_valid : OnSome IsAuth p.auth
  pub path_valid : Valid Consts.path p.path
  pub path_fits : PathFits p.scheme p.auth p.path
  pub query_valid : OnSome (Valid Consts.query) p.query
  pub fragment_valid : OnSome (Valid Consts.fragment) p.fragment
