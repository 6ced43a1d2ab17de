-- ===== src/Tests/Witnesses.antt =====
-- The theorems on tables and on the reader, at concrete inputs.
use fluent_uri_rs.Base.{true, ◌++◌, ◌||◌, Bytes, ascii, ◌≡◌, refl, ◌↔◌}
use fluent_uri_rs.Error.{ok, err, invalid_octet}
use fluent_uri_rs.Reader.{read}
use fluent_uri_rs.Reader.Host.{read_v4_or_reg_name}
use fluent_uri_rs.Reader.HostReads.{read_v4_or_reg_name-at}
use fluent_uri_rs.Reader.Reads.{read-Valid, read-broken}
use fluent_uri_rs.Reader.V4.{parse_v4_or_reg_name}
use fluent_uri_rs.Reader.View.{at}
use fluent_uri_rs.Table.{Table, or, gen, allows, is_subset}
use fluent_uri_rs.Table.Consts
use fluent_uri_rs.Table.Facts
use fluent_uri_rs.Table.Laws.{IsTable, allows-gen, allows-or, allows-is_subset, contains}
use fluent_uri_rs.Table.Valid.{validate_iff}
use fluent_uri_rs.Table.Validate.{validate, is_bad_octet, Valid}

pub word : (t : Table) (s : Bytes) → IsTable t → validate t s ≡ true → Valid t s
word t s i h = (validate_iff t s i).0 h

path_word : Valid Consts.path (ascii "/a%41")
unfolding validate allows is_bad_octet Consts.path Consts.hexdig
path_word = word Consts.path (ascii "/a%41") Facts.path-IsTable refl

name_word : Valid Consts.reg_name (ascii "1.2.3.4")
unfolding validate allows Consts.reg_name
name_word = word Consts.reg_name (ascii "1.2.3.4") Facts.reg_name-IsTable refl

validate_iff_example :
    (validate Consts.path (ascii "/a%41") ≡ true) ↔ Valid Consts.path (ascii "/a%41")
validate_iff_example = validate_iff Consts.path (ascii "/a%41") Facts.path-IsTable

read-Valid_example :
    read Consts.path (at (ascii "x:") (ascii "/a%41" ++ ascii "?q"))
    ≡ ok (true, at (ascii "x:" ++ ascii "/a%41") (ascii "?q"))
unfolding allows Consts.path
read-Valid_example = read-Valid (ascii "x:") (ascii "?q") Facts.path-IsTable path_word refl

read-broken_example :
    read Consts.path (at (ascii "x:") (ascii "/a%41" ++ ascii "%4")) ≡ err 7 invalid_octet
unfolding Consts.path
read-broken_example = read-broken (ascii "x:") (ascii "4") refl path_word tt

read_v4_or_reg_name-at_example :
    read_v4_or_reg_name (at (ascii "//") (ascii "1.2.3.4" ++ ascii ":80"))
    ≡ ok (parse_v4_or_reg_name (ascii "1.2.3.4"), at (ascii "//" ++ ascii "1.2.3.4") (ascii ":80"))
unfolding allows Consts.reg_name
read_v4_or_reg_name-at_example =
    read_v4_or_reg_name-at (ascii "//") (ascii ":80") name_word (refl, refl) refl

allows-is_subset_example : allows Consts.path b'a' ≡ true
unfolding is_subset allows Consts.path Consts.segment_nz_nc
allows-is_subset_example = allows-is_subset Consts.path Facts.segment_nz_nc-IsTable refl b'a' refl

allows-or_example :
    allows (or Consts.digit Consts.alpha) b'7'
    ≡ (allows Consts.digit b'7' || allows Consts.alpha b'7')
allows-or_example = allows-or b'7' Facts.digit-IsTable Facts.alpha-IsTable

allows-gen_example : allows Consts.digit b'7' ≡ contains (ascii "0123456789") b'7'
unfolding gen Consts.digit Consts.const_gen
allows-gen_example = allows-gen (ascii "0123456789") b'7' refl
