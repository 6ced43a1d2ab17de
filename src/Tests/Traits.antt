-- ===== src/Tests/Traits.antt =====
-- The theorems on schemes, at concrete inputs.
use fluent_uri_rs.Base.{some, ascii, map, bytes_eq, to_ascii_lowercase, ◌≡◌, ◌↔◌, refl}
use fluent_uri_rs.Component.{new, scheme_eq}
use fluent_uri_rs.Component.Laws.{scheme_eq_lem, new_iff}
use fluent_uri_rs.Spec.{IsScheme}
use fluent_uri_rs.Table.{allows}
use fluent_uri_rs.Table.Consts
use fluent_uri_rs.Table.Facts
use fluent_uri_rs.Table.Validate.{validate}
use fluent_uri_rs.Tests.Witnesses.{word}

http-IsScheme : IsScheme (ascii "http")
unfolding validate allows Consts.scheme
http-IsScheme = (refl, word Consts.scheme (ascii "http") Facts.scheme-IsTable refl)

upper-IsScheme : IsScheme (ascii "hTTp")
unfolding validate allows Consts.scheme
upper-IsScheme = (refl, word Consts.scheme (ascii "hTTp") Facts.scheme-IsTable refl)

scheme_eq_lem_example :
    scheme_eq (ascii "http") (ascii "hTTp")
    ≡ bytes_eq (map to_ascii_lowercase (ascii "http")) (map to_ascii_lowercase (ascii "hTTp"))
scheme_eq_lem_example = scheme_eq_lem (ascii "http") (ascii "hTTp") http-IsScheme upper-IsScheme

new_iff_example : (new (ascii "http") ≡ some (ascii "http")) ↔ IsScheme (ascii "http")
new_iff_example = new_iff (ascii "http")
