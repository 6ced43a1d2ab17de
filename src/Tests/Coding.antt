-- ===== src/Tests/Coding.antt =====
-- The theorems on percent-encoding and on the loop of `read_v6`, at concrete inputs.
use fluent_uri_rs.Base.{Bytes, [], ◌∷◌, ascii, false, ◌≡◌, refl, arith}
use fluent_uri_rs.Base.Run.{done}
use fluent_uri_rs.EStr.{Decode, as_bytes, decode, encode}
use fluent_uri_rs.EStr.RoundTrip.{decode-encode}
use fluent_uri_rs.Reader.V6.{read_v6_loop, v6_start}
use fluent_uri_rs.Reader.V6.Fuel.{runs_out, read_v6_loop-ends}
use fluent_uri_rs.Reader.View.{at}
use fluent_uri_rs.Table.{enc, is_subset}
use fluent_uri_rs.Table.Consts
use fluent_uri_rs.Table.Facts

decode-encode_example :
    (l : Bytes) × (encode Consts.path Consts.data_table [] (b'a' ∷ b'%' ∷ 200 ∷ []) ≡ done l)
    × (d : Decode) × (decode Consts.path l ≡ done d)
    × (as_bytes d ≡ b'a' ∷ b'%' ∷ 200 ∷ [])
unfolding is_subset enc Consts.path Consts.data_table
decode-encode_example =
    decode-encode Consts.path Consts.data_table (b'a' ∷ b'%' ∷ 200 ∷ []) refl refl
      Facts.data_table-IsTable (omega arith, (omega arith, (omega arith, tt)))

read_v6_loop-ends_example :
    runs_out (read_v6_loop 10 v6_start (at (ascii "[") (ascii "1:2::3]"))) ≡ false
read_v6_loop-ends_example = read_v6_loop-ends 10 (at (ascii "[") (ascii "1:2::3]")) (omega arith)
