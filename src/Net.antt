-- ===== src/Net.antt =====
-- `Meta`, `AuthMeta` and `HostMeta` of src/internal.rs, with the feature `net`. An `Ipv4Addr` is
-- its 32-bit number and an `Ipv6Addr` its eight 16-bit segments; a `NonZeroUsize` is a number.
use fluent_uri_rs.Base.{ℕ, Option, none, some, List, ◌==◌, if◌then◌else◌}

pub data HostMeta : Type 0 where
  ipv4 : ℕ → HostMeta
  ipv6 : List ℕ → HostMeta
  ipv_future : HostMeta
  reg_name : HostMeta

pub record AuthMeta : Type 0 where
  pub host_bounds : ℕ × ℕ
  pub host_meta : HostMeta

-- `AuthMeta::default()`
abbrev pub default_auth : AuthMeta
default_auth = record { host_bounds = (0, 0); host_meta = reg_name }

pub record Meta : Type 0 where
  pub scheme_end : Option ℕ
  pub auth_meta : Option AuthMeta
  pub path_bounds : ℕ × ℕ
  pub query_end : Option ℕ

-- `Meta::default()`
abbrev pub default_meta : Meta
default_meta = record {
  scheme_end = none;
  auth_meta = none;
  path_bounds = (0, 0);
  query_end = none;
}

-- `NonZeroUsize::new`
abbrev pub non_zero : ℕ → Option ℕ
non_zero n = if n == 0 then none else some n
