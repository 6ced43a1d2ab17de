-- ===== src/Tests/Normal.antt =====
-- The theorems on normalization, at concrete inputs.
use fluent_uri_rs.Base.{Bytes, true, [], ◌++◌, map, ascii, ◌≡◌, refl}
use fluent_uri_rs.Base.Run.{done}
use fluent_uri_rs.Encoding.{decode_loop}
use fluent_uri_rs.Error.{ok}
use fluent_uri_rs.Normalizer.Parses.{to_uri-normalize}
use fluent_uri_rs.Normalizer.{lower_if, normalize_estr}
use fluent_uri_rs.Normalizer.Octets.{Normal, reg_name-Lowers}
use fluent_uri_rs.Normalizer.Octets.Step.{normalize_estr-Normal, normalize_estr-decode_loop}
use fluent_uri_rs.Normalizer.{normalize}
use fluent_uri_rs.Normalizer.Rewrites.{Rewrites}
use fluent_uri_rs.Spec.{Parts}
use fluent_uri_rs.Tests.Resolve.{base, base_run}
use fluent_uri_rs.Uri.{Uri, to_uri}
use fluent_uri_rs.Table.{allows, is_subset}
use fluent_uri_rs.Table.Consts
use fluent_uri_rs.Table.Facts
use fluent_uri_rs.Table.Valid.{validate_iff}
use fluent_uri_rs.Table.Validate.{Valid, is_bad_octet, validate}

abbrev mixed : Bytes
mixed = ascii "%41b%c3C"

mixed-Valid : Valid Consts.reg_name mixed
unfolding validate Consts.reg_name is_bad_octet Consts.hexdig allows
mixed-Valid = (validate_iff Consts.reg_name mixed Facts.reg_name-IsTable).0 refl

normalize_estr-Normal_example :
    (r : Bytes) × (normalize_estr [] mixed true ≡ done ([] ++ r))
    × Normal Consts.reg_name true r
    × (normalize_estr [] r true ≡ done ([] ++ r))
unfolding is_subset Consts.reg_name Consts.unreserved
normalize_estr-Normal_example =
    normalize_estr-Normal Consts.reg_name true mixed [] Facts.reg_name-IsTable reg_name-Lowers refl
      mixed-Valid

normalize_estr-decode_loop_example :
    (r d : Bytes) × (normalize_estr [] mixed true ≡ done r)
    × (decode_loop mixed [] ≡ done d)
    × (decode_loop r [] ≡ done (map (lower_if true) d))
unfolding is_subset Consts.reg_name Consts.unreserved
normalize_estr-decode_loop_example =
    normalize_estr-decode_loop Consts.reg_name true mixed Facts.reg_name-IsTable reg_name-Lowers
      refl mixed-Valid

to_uri-normalize_example : (v : Uri) × (normalize base ≡ done v) × (to_uri v.val ≡ ok v)
to_uri-normalize_example = to_uri-normalize (ascii "http://a/b/c/..") base base_run refl
