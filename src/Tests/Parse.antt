-- ===== src/Tests/Parse.antt =====
-- Runs of the parser on inputs of tests/parse.rs and tests/parse_ip.rs.
use fluent_uri_rs.Base.{[], ◌∷◌, none, some, ascii, ◌≡◌, refl}
use fluent_uri_rs.Error.{ok, err, invalid_octet, unexpected_char, invalid_ipv6_addr}
use fluent_uri_rs.Net.{ipv4, ipv6}
use fluent_uri_rs.Encoding.{octet_table_lo}
use fluent_uri_rs.Parser.{parse}
use fluent_uri_rs.Reader.{read, read_str, peek, peek_digit}
use fluent_uri_rs.Reader.Host.{read_ip_literal, read_host}
use fluent_uri_rs.Reader.V4.{parse_v4_or_reg_name, read_v4_octet, read_port}
use fluent_uri_rs.Reader.V6.{read_v6, read_v6_segment}
use fluent_uri_rs.Table.{allows}
use fluent_uri_rs.Table.Consts

octet_cut_short : parse (ascii "http://a/%4") ≡ err 9 invalid_octet
unfolding parse read read_str read_port peek allows read_ip_literal read_host parse_v4_or_reg_name
    peek_digit read_v4_octet read_v6 read_v6_segment octet_table_lo Consts.scheme Consts.userinfo
    Consts.path Consts.query Consts.hexdig Consts.reg_name
octet_cut_short = refl

scheme_with_digit_first : parse (ascii "1a:b") ≡ err 0 unexpected_char
unfolding parse read read_str read_port peek allows read_ip_literal read_host parse_v4_or_reg_name
    peek_digit read_v4_octet read_v6 read_v6_segment octet_table_lo Consts.scheme Consts.userinfo
    Consts.path Consts.query Consts.hexdig Consts.reg_name
scheme_with_digit_first = refl

-- The index of an unexpected end is the length of the input.
bracket_not_closed : parse (ascii "//[::1") ≡ err 6 unexpected_char
unfolding parse read read_str read_port peek allows read_ip_literal read_host parse_v4_or_reg_name
    peek_digit read_v4_octet read_v6 read_v6_segment octet_table_lo Consts.scheme Consts.userinfo
    Consts.path Consts.query Consts.hexdig Consts.reg_name
bracket_not_closed = refl

v4_out_of_range : parse (ascii "//[::ffff:1.2.3.256]") ≡ err 3 invalid_ipv6_addr
unfolding parse read read_str read_port peek allows read_ip_literal read_host parse_v4_or_reg_name
    peek_digit read_v4_octet read_v6 read_v6_segment octet_table_lo Consts.scheme Consts.userinfo
    Consts.path Consts.query Consts.hexdig Consts.reg_name
v4_out_of_range = refl

v4_host :
    parse (ascii "//1.2.3.4:80")
    ≡ ok (record {
      scheme_end = none;
      auth_meta = some (record { host_bounds = (2, 9); host_meta = ipv4 16909060 });
      path_bounds = (12, 12);
      query_end = none;
    })
unfolding parse read read_str read_port peek allows read_ip_literal read_host parse_v4_or_reg_name
    peek_digit read_v4_octet read_v6 read_v6_segment octet_table_lo Consts.scheme Consts.userinfo
    Consts.path Consts.query Consts.hexdig Consts.reg_name
v4_host = refl

v6_host :
    parse (ascii "a://[1:2:3:4:5:6:7::]/?q")
    ≡ ok (record {
      scheme_end = some 1;
      auth_meta =
          some (record {
            host_bounds = (4, 21);
            host_meta = ipv6 (1 ∷ 2 ∷ 3 ∷ 4 ∷ 5 ∷ 6 ∷ 7 ∷ 0 ∷ []);
          });
      path_bounds = (21, 22);
      query_end = some 24;
    })
unfolding parse read read_str read_port peek allows read_ip_literal read_host parse_v4_or_reg_name
    peek_digit read_v4_octet read_v6 read_v6_segment octet_table_lo Consts.scheme Consts.userinfo
    Consts.path Consts.query Consts.hexdig Consts.reg_name
v6_host = refl
