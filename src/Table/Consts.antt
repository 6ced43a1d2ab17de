-- ===== src/Table/Consts.antt =====
-- src/encoding/table.rs: the predefined tables, in an order where each is declared before its use.
-- The encoders of src/encoding/encoder.rs name these: `Port` is `digit`, `Data` is `data_table`.
use mathlib.Core.Option
use fluent_uri_rs.Base.{Bytes, ascii, false}
use fluent_uri_rs.Table.{Table, gen, enc, or}

-- `const fn gen`. A constant whose assertion fails does not compile, so the default is not met.
unfoldable pub const_gen : Bytes → Table
const_gen bytes = Option.get_or (gen bytes) (record { arr = λ i. 0; allows_enc = false })

unfoldable pub alpha : Table
unfolding gen const_gen
alpha = const_gen (ascii "ABCDEFGHIJKLMNOPQRSTUVWXYZabcdefghijklmnopqrstuvwxyz")

unfoldable pub digit : Table
unfolding gen const_gen
digit = const_gen (ascii "0123456789")

unfoldable pub hexdig : Table
unfolding or digit gen const_gen
hexdig = or digit (const_gen (ascii "ABCDEFabcdef"))

unfoldable pub scheme : Table
unfolding or alpha digit gen const_gen
scheme = or (or alpha digit) (const_gen (ascii "+-."))

unfoldable pub unreserved : Table
unfolding or alpha digit gen const_gen
unreserved = or (or alpha digit) (const_gen (ascii "-._~"))

unfoldable pub gen_delims : Table
unfolding gen const_gen
gen_delims = const_gen (ascii ":/?#[]@")

unfoldable pub sub_delims : Table
unfolding gen const_gen
sub_delims = const_gen (ascii "!$&'()*+,;=")

unfoldable pub reserved : Table
unfolding or gen_delims sub_delims
reserved = or gen_delims sub_delims

unfoldable pub userinfo : Table
unfolding enc or unreserved sub_delims gen const_gen
userinfo = enc (or (or unreserved sub_delims) (const_gen (ascii ":")))

unfoldable pub ipv_future : Table
unfolding or unreserved sub_delims gen const_gen
ipv_future = or (or unreserved sub_delims) (const_gen (ascii ":"))

unfoldable pub reg_name : Table
unfolding enc or unreserved sub_delims
reg_name = enc (or unreserved sub_delims)

unfoldable pub pchar : Table
unfolding enc or unreserved sub_delims gen const_gen
pchar = enc (or (or unreserved sub_delims) (const_gen (ascii ":@")))

unfoldable pub path : Table
unfolding or pchar gen const_gen
path = or pchar (const_gen (ascii "/"))

unfoldable pub segment_nz_nc : Table
unfolding enc or unreserved sub_delims gen const_gen
segment_nz_nc = enc (or (or unreserved sub_delims) (const_gen (ascii "@")))

unfoldable pub query : Table
unfolding or pchar gen const_gen
query = or pchar (const_gen (ascii "/?"))

unfoldable pub fragment : Table
unfolding query
fragment = query

-- `Data::TABLE`
unfoldable pub data_table : Table
unfolding enc unreserved
data_table = enc unreserved
