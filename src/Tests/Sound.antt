-- ===== src/Tests/Sound.antt =====
-- The theorems on every parsed text, at concrete inputs.
use fluent_uri_rs.Base.{ℕ, ◌≤◌, [], ◌∷◌, ◌++◌, some, ascii, length, ◌≡◌, refl, ◌⊎◌}
use fluent_uri_rs.Base.Run.{done}
use fluent_uri_rs.Error.{ok, err, ParseErrorKind}
use fluent_uri_rs.Net.{ipv6, AuthMeta, Meta}
use fluent_uri_rs.Encoding.{octet_table_lo}
use fluent_uri_rs.Parser.{parse}
use fluent_uri_rs.Parser.Total.{parse-total, parse_sound}
use fluent_uri_rs.Parser.Total.Address.{HasAddress}
use fluent_uri_rs.Reader.{read, read_str, peek, peek_digit}
use fluent_uri_rs.Reader.Host.{read_ip_literal, read_host}
use fluent_uri_rs.Reader.V4.{read_port}
use fluent_uri_rs.Reader.V6.{read_v6, read_v6_segment}
use fluent_uri_rs.Spec.{
  Parts, AuthParts, write, IsWellFormed, OnSome, meta_of, auth_meta_of, scheme_len,
}
use fluent_uri_rs.Table.{allows}
use fluent_uri_rs.Table.Consts
use fluent_uri_rs.Uri.{Uri, to_uri, scheme, path, query, fragment}
use fluent_uri_rs.Uri.Authority.{
  userinfo, host, port, as_str, host_bounds, host_parsed, port_to_u16,
}
use fluent_uri_rs.Uri.AuthorityViews.{host_of, port_number}
use fluent_uri_rs.Parser.AuthorityStart.{userinfo_text}
use fluent_uri_rs.Parser.Host.{port_text}
use fluent_uri_rs.Uri.AuthorityParts.{with_auth}
use fluent_uri_rs.Uri.Sound.{accessors_sound, authority_sound}

abbrev pub auth_v6 : AuthMeta
auth_v6 = record { host_bounds = (4, 9); host_meta = ipv6 (0 ∷ 0 ∷ 0 ∷ 0 ∷ 0 ∷ 0 ∷ 0 ∷ 1 ∷ []) }

abbrev pub meta_v6 : Meta
meta_v6 = record {
  scheme_end = some 1;
  auth_meta = some auth_v6;
  path_bounds = (12, 13);
  query_end = some 15;
}

abbrev pub uri_v6 : Uri
uri_v6 = record { val = ascii "a://[::1]:80/?q"; meta = meta_v6 }

v6_run : parse (ascii "a://[::1]:80/?q") ≡ ok meta_v6
unfolding parse read read_str read_port peek allows read_ip_literal read_host peek_digit read_v6
    read_v6_segment octet_table_lo Consts.scheme Consts.userinfo Consts.path Consts.query
    Consts.hexdig Consts.reg_name
v6_run = refl

pub to_uri_run : to_uri (ascii "a://[::1]:80/?q") ≡ ok uri_v6
unfolding to_uri
to_uri_run = rw (to_uri, v6_run) refl

parse-total_example :
    ((p : Parts) × IsWellFormed p
      × (ascii "//[::1" ≡ write p)
      × (parse (ascii "//[::1") ≡ ok (meta_of p)))
    ⊎ ((i : ℕ) × (k : ParseErrorKind) × (parse (ascii "//[::1") ≡ err i k)
        × (i ≤ length (ascii "//[::1")))
parse-total_example = parse-total (ascii "//[::1")

parse_sound_example :
    (p : Parts) × IsWellFormed p
    × OnSome (λ (a : AuthParts). HasAddress a.host a.host_meta) p.auth
    × (ascii "a://[::1]:80/?q" ≡ write p)
    × (meta_v6 ≡ meta_of p)
parse_sound_example = parse_sound (ascii "a://[::1]:80/?q") meta_v6 v6_run

accessors_sound_example :
    (p : Parts) × IsWellFormed p
    × (ascii "a://[::1]:80/?q" ≡ write p)
    × (scheme uri_v6 ≡ done p.scheme)
    × (path uri_v6 ≡ done p.path)
    × (query uri_v6 ≡ done p.query)
    × (fragment uri_v6 ≡ done p.fragment)
accessors_sound_example = accessors_sound (ascii "a://[::1]:80/?q") uri_v6 to_uri_run

authority_sound_example :
    (p : Parts) × (a : AuthParts) × IsWellFormed (with_auth p a)
    × (ascii "a://[::1]:80/?q" ≡ write (with_auth p a))
    × (userinfo uri_v6 ≡ done a.userinfo)
    × (host uri_v6 ≡ done a.host)
    × (port uri_v6 ≡ done a.port)
    × (as_str uri_v6 ≡ done (userinfo_text a.userinfo ++ (a.host ++ port_text a.port)))
    × (host_bounds uri_v6 ≡ done (auth_meta_of (scheme_len p.scheme) a).host_bounds)
    × (host_parsed uri_v6 ≡ done (host_of a.host_meta a.host))
    × (port_to_u16 uri_v6 ≡ done (port_number a.port))
authority_sound_example = authority_sound (ascii "a://[::1]:80/?q") uri_v6 auth_v6 to_uri_run refl
