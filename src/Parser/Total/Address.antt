-- ===== src/Parser/Total/Address.antt =====
-- The addresses of what the parser accepts, by the grammar.
use mathlib.Core.Path.{subst}
use fluent_uri_rs.Base.{Option, none, some, Bytes, ◌≡◌, refl, sym, ◌∙◌, inl, inr}
use fluent_uri_rs.Grammar.{IsIpv4, IsIpv6}
use fluent_uri_rs.Net.{HostMeta, ipv4, ipv6, ipv_future, reg_name}
use fluent_uri_rs.Reader.HostReads.{parse_v4_or_reg_name_cases}
use fluent_uri_rs.Reader.V4.{parse_v4_or_reg_name}
use fluent_uri_rs.Reader.V6.Whole.{v6-IsIpv6}
use fluent_uri_rs.Spec.{AuthParts, IsHost, named, future, address, address_text, IsAuth, OnSome}

-- A host that is said to be an address is one of RFC 3986.
abbrev pub HasAddress : Bytes → HostMeta → Type 0
HasAddress h (ipv4 addr) = IsIpv4 h
HasAddress h (ipv6 segs) = (a : Bytes) × (h ≡ address_text a) × IsIpv6 a
HasAddress h ipv_future = Unit
HasAddress h reg_name = Unit

of_name : (h : Bytes) (m : HostMeta) → m ≡ parse_v4_or_reg_name h → HasAddress h m
of_name h m e = elim (parse_v4_or_reg_name_cases h) [
  | inl (addr, f, v, d) ↦ subst (HasAddress h) (sym (e ∙ f)) v
  | inr f ↦ subst (HasAddress h) (sym (e ∙ f)) tt
]

IsHost-HasAddress : {h : Bytes} {m : HostMeta} → IsHost h m → HasAddress h m
IsHost-HasAddress (named {h} {m} v e) = of_name h m e
IsHost-HasAddress (future v c d) = tt
IsHost-HasAddress (address a e) = (a, refl, v6-IsIpv6 a e)

pub IsAuth-HasAddress :
    (o : Option AuthParts)
    → OnSome IsAuth o
    → OnSome (λ (a : AuthParts). HasAddress a.host a.host_meta) o
IsAuth-HasAddress none v = tt
IsAuth-HasAddress (some a) v = IsHost-HasAddress v.host_valid
