-- ===== src/Tests/Components.antt =====
-- The theorems on the parser, the accessors, the builder and the resolver, at concrete inputs.
use fluent_uri_rs.Base.{false, none, some, ◌++◌, ascii, length, ◌≡◌, refl, ◌↔◌, inl}
use fluent_uri_rs.Base.Run.{done}
use fluent_uri_rs.Builder.{validate_path}
use fluent_uri_rs.Builder.Fits.{validate_path_iff}
use fluent_uri_rs.Error.{ok}
use fluent_uri_rs.Net.{ipv4}
use fluent_uri_rs.Parser.{parse, read_authority, read_path, continued_no_scheme}
use fluent_uri_rs.Parser.Path.{read_path-continued}
use fluent_uri_rs.Parser.WholeAuthority.{read_authority-whole}
use fluent_uri_rs.Parser.Write.{parse-write}
use fluent_uri_rs.Reader.{peek_digit, peek, read_str}
use fluent_uri_rs.Reader.V4.{parse_v4_or_reg_name, read_v4_octet}
use fluent_uri_rs.Reader.View.{at}
use fluent_uri_rs.Resolver.{Target, recompose, output_len}
use fluent_uri_rs.Resolver.Length.{length-recompose}
use fluent_uri_rs.Spec.{AuthParts, Parts, meta_of, IsHost, named, IsAuth, IsWellFormed, PathFits}
use fluent_uri_rs.Table.{allows}
use fluent_uri_rs.Table.Consts
use fluent_uri_rs.Table.Facts
use fluent_uri_rs.Table.Validate.{validate}
use fluent_uri_rs.Tests.Witnesses.{word}
use fluent_uri_rs.Uri.{Uri, to_uri, scheme, path, query, fragment}
use fluent_uri_rs.Uri.Authority.{userinfo, host, port}
use fluent_uri_rs.Uri.AuthorityParts.{authority-write}
use fluent_uri_rs.Uri.Components.{components-write}

abbrev pub auth_parts : AuthParts
auth_parts = record {
  userinfo = some (ascii "me");
  host = ascii "1.2.3.4";
  host_meta = ipv4 16909060;
  port = some (ascii "80");
}

abbrev pub parts : Parts
parts = record {
  scheme = some (ascii "http");
  auth = some auth_parts;
  path = ascii "/a/b";
  query = some (ascii "q");
  fragment = some (ascii "f");
}

v4_word-IsHost : IsHost (ascii "1.2.3.4") (ipv4 16909060)
unfolding validate allows Consts.reg_name parse_v4_or_reg_name read_v4_octet peek_digit peek
    read_str
v4_word-IsHost = named (word Consts.reg_name (ascii "1.2.3.4") Facts.reg_name-IsTable refl) refl

auth_parts-IsAuth : IsAuth auth_parts
unfolding validate allows Consts.userinfo Consts.digit
auth_parts-IsAuth = record {
  userinfo_valid = word Consts.userinfo (ascii "me") Facts.userinfo-IsTable refl;
  host_valid = v4_word-IsHost;
  port_valid = word Consts.digit (ascii "80") Facts.digit-IsTable refl;
}

pub parts-IsWellFormed : IsWellFormed parts
unfolding validate allows Consts.scheme Consts.path Consts.query Consts.fragment
parts-IsWellFormed = record {
  scheme_valid = (refl, word Consts.scheme (ascii "http") Facts.scheme-IsTable refl);
  auth_valid = auth_parts-IsAuth;
  path_valid = word Consts.path (ascii "/a/b") Facts.path-IsTable refl;
  path_fits = refl;
  query_valid = word Consts.query (ascii "q") Facts.query-IsTable refl;
  fragment_valid = word Consts.fragment (ascii "f") Facts.query-IsTable refl;
}

parse-write_example :
    parse (ascii "http://me@1.2.3.4:80/a/b?q#f")
    ≡ ok (record {
      scheme_end = some 4;
      auth_meta = some (record { host_bounds = (10, 17); host_meta = ipv4 16909060 });
      path_bounds = (20, 24);
      query_end = some 26;
    })
unfolding meta_of
parse-write_example = parse-write parts parts-IsWellFormed

read_authority-whole_example :
    read_authority (at (ascii "//") (ascii "me@1.2.3.4:80/a"))
    ≡ ok (
      record { host_bounds = (5, 12); host_meta = ipv4 16909060 },
      at (ascii "//me@1.2.3.4:80") (ascii "/a"),
    )
read_authority-whole_example =
    read_authority-whole (ascii "//") 0 auth_parts (ascii "/a") refl auth_parts-IsAuth (inl refl)

read_path-continued_example :
    read_path continued_no_scheme (at (ascii "a.b") (ascii "_c/d:e" ++ ascii "?q"))
    ≡ ok ((0, 9), at (ascii "a.b_c/d:e") (ascii "?q"))
unfolding validate allows Consts.scheme Consts.path
read_path-continued_example =
    read_path-continued (ascii "a.b") (ascii "_c/d:e") (some (ascii "q")) none
      (word Consts.scheme (ascii "a.b") Facts.scheme-IsTable refl)
      (word Consts.path (ascii "_c/d:e") Facts.path-IsTable refl) refl

components-write_example :
    (u : Uri) × (to_uri (ascii "http://me@1.2.3.4:80/a/b?q#f") ≡ ok u)
    × (scheme u ≡ done (some (ascii "http")))
    × (path u ≡ done (ascii "/a/b"))
    × (query u ≡ done (some (ascii "q")))
    × (fragment u ≡ done (some (ascii "f")))
components-write_example = components-write parts parts-IsWellFormed

authority-write_example :
    (u : Uri) × (to_uri (ascii "http://me@1.2.3.4:80/a/b?q#f") ≡ ok u)
    × (userinfo u ≡ done (some (ascii "me")))
    × (host u ≡ done (ascii "1.2.3.4"))
    × (port u ≡ done (some (ascii "80")))
authority-write_example = authority-write parts auth_parts parts-IsWellFormed

validate_path_iff_example :
    (validate_path false false (ascii "a:b") ≡ none) ↔ PathFits none none (ascii "a:b")
validate_path_iff_example = validate_path_iff none none (ascii "a:b")

abbrev target : Target
target = record {
  t_scheme = ascii "a";
  t_authority = none;
  t_path = ascii "//b";
  t_query = some (ascii "q");
  t_fragment = none;
}

length-recompose_example : length (recompose target).val ≡ output_len target
length-recompose_example = length-recompose target
