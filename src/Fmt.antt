-- ===== src/Fmt.antt =====
-- src/fmt.rs: what `Display` writes for values and errors, without flags of the formatter.
use fluent_uri_rs.Base.{◌++◌, ascii, Bytes}
use fluent_uri_rs.Base.Run.{Run}
use fluent_uri_rs.EStr.Owned
use fluent_uri_rs.EStr.Traits as EStrTraits
use fluent_uri_rs.Error.{
  ParseError, ParseErrorKind, invalid_octet, unexpected_char, invalid_ipv6_addr, BuildErrorKind,
  non_abempty_path, path_starting_with_double_slash, colon_in_first_path_segment, ResolveErrorKind,
  non_absolute_base, non_hierarchical_base,
}
use fluent_uri_rs.Normalizer.Write.{write_usize}
use fluent_uri_rs.Uri.{Uri}
use fluent_uri_rs.Uri.Authority
use fluent_uri_rs.Uri.Traits as UriTraits

unfoldable pub display_estr : Bytes → Bytes
unfolding EStrTraits.as_str
display_estr s = EStrTraits.as_str s

unfoldable pub display_estring : Bytes → Bytes
unfolding Owned.text
display_estring s = Owned.text s

unfoldable pub parse_msg : ParseErrorKind → Bytes
parse_msg invalid_octet = ascii "invalid percent-encoded octet at index "
parse_msg unexpected_char = ascii "unexpected character at index "
parse_msg invalid_ipv6_addr = ascii "invalid IPv6 address at index "

unfoldable pub display_parse_error : {I : Type 0} → ParseError I → Bytes
unfolding parse_msg
display_parse_error e = parse_msg e.kind ++ write_usize e.index

unfoldable pub display_build_error : BuildErrorKind → Bytes
display_build_error non_abempty_path =
    ascii "path must either be empty or start with '/' when authority is present"
display_build_error path_starting_with_double_slash =
    ascii "path cannot start with \"//\" when authority is absent"
display_build_error colon_in_first_path_segment =
    ascii "first path segment cannot contain ':' in relative-path reference"

unfoldable pub display_resolve_error : ResolveErrorKind → Bytes
display_resolve_error non_absolute_base = ascii "non-absolute base URI"
display_resolve_error non_hierarchical_base =
    ascii "resolving non-same-document relative reference against non-hierarchical base URI"

unfoldable pub display_uri : Uri → Bytes
unfolding UriTraits.as_str
display_uri u = UriTraits.as_str u

unfoldable pub display_scheme : Bytes → Bytes
display_scheme s = s

unfoldable pub display_authority : Uri → Run Bytes
unfolding Authority.as_str
display_authority u = Authority.as_str u
