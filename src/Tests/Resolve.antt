-- ===== src/Tests/Resolve.antt =====
-- The theorems on `resolve`, at concrete inputs.
use fluent_uri_rs.Base.{none, some, ascii, ◌≡◌, refl, ◌⊎◌}
use fluent_uri_rs.Base.Run.{done}
use fluent_uri_rs.Encoding.{octet_table_lo}
use fluent_uri_rs.Error.{ok, ResolveErrorKind}
use fluent_uri_rs.Net.{reg_name}
use fluent_uri_rs.Parser.{parse}
use fluent_uri_rs.Reader.{read, read_str, peek, peek_digit}
use fluent_uri_rs.Reader.Host.{read_ip_literal, read_host}
use fluent_uri_rs.Reader.V4.{parse_v4_or_reg_name, read_v4_octet, read_port}
use fluent_uri_rs.Reader.V6.{read_v6, read_v6_segment}
use fluent_uri_rs.Resolver.{Resolved, relative_path, resolve}
use fluent_uri_rs.Resolver.Paths.{GivesPath, relative_path-GivesPath}
use fluent_uri_rs.Resolver.Total.{resolve_total}
use fluent_uri_rs.Table.{allows}
use fluent_uri_rs.Table.Consts
use fluent_uri_rs.Table.Facts
use fluent_uri_rs.Table.Validate.{validate}
use fluent_uri_rs.Tests.Witnesses.{word}
use fluent_uri_rs.Uri.{Uri, to_uri}

abbrev pub base : Uri
base = record {
  val = ascii "http://a/b/c/..";
  meta = record {
    scheme_end = some 4;
    auth_meta = some (record { host_bounds = (7, 8); host_meta = reg_name });
    path_bounds = (8, 15);
    query_end = none;
  };
}

abbrev pub reference : Uri
reference = record {
  val = ascii "../g?y#s";
  meta = record { scheme_end = none; auth_meta = none; path_bounds = (0, 4); query_end = some 6 };
}

pub base_run : to_uri (ascii "http://a/b/c/..") ≡ ok base
unfolding to_uri parse read read_str read_port peek allows read_ip_literal read_host
    parse_v4_or_reg_name peek_digit read_v4_octet read_v6 read_v6_segment octet_table_lo
    Consts.scheme Consts.userinfo Consts.path Consts.query Consts.hexdig Consts.reg_name
base_run = refl

pub reference_run : to_uri (ascii "../g?y#s") ≡ ok reference
unfolding to_uri parse read read_str peek allows Consts.scheme Consts.path Consts.query
    Consts.hexdig Consts.segment_nz_nc Consts.fragment
reference_run = refl

resolve_total_example :
    ((k : ResolveErrorKind) × (resolve base reference ≡ done (Resolved.err k)))
    ⊎ ((u : Uri) × (resolve base reference ≡ done (Resolved.ok u)) × (to_uri u.val ≡ ok u))
resolve_total_example =
    resolve_total (ascii "http://a/b/c/..") (ascii "../g?y#s") base reference base_run reference_run

relative_path-GivesPath_example : GivesPath (relative_path (ascii "/b/c/..") (ascii "../g"))
unfolding validate allows Consts.path
relative_path-GivesPath_example =
    relative_path-GivesPath (ascii "/b/c/..") b'.' (ascii "./g") refl
      (word Consts.path (ascii "/b/c/..") Facts.path-IsTable refl)
      (word Consts.path (ascii "../g") Facts.path-IsTable refl)
