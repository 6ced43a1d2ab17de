-- ===== src/Table/Facts.antt =====
-- The predefined tables are well formed, and how the bytes that they allow relate. The relations
-- are found by running `is_subset`.
use fluent_uri_rs.Base.{true, false, is_some, Bytes, ascii, Option-cases, ◌≡◌, refl, inl, inr}
use fluent_uri_rs.Table.{gen}
use fluent_uri_rs.Table.Laws.{IsTable, gen-IsTable, or-IsTable, enc-IsTable}
use fluent_uri_rs.Table.Consts.{
  data_table, const_gen, alpha, digit, hexdig, scheme, unreserved, sub_delims, userinfo, ipv_future,
  reg_name, pchar, path, segment_nz_nc, query,
}

pub const_gen-IsTable : (bytes : Bytes) → is_some (gen bytes) ≡ true → IsTable (const_gen bytes)
const_gen-IsTable bytes h = elim (Option-cases (gen bytes)) [
  | inl e ↦ absurd (let stop : is_some (gen bytes) ≡ false = rw e in cc)
  | inr (t, e) ↦ unfold const_gen in rw e (gen-IsTable bytes e)
]

pub alpha-IsTable : IsTable alpha
unfolding gen alpha
alpha-IsTable =
    const_gen-IsTable (ascii "ABCDEFGHIJKLMNOPQRSTUVWXYZabcdefghijklmnopqrstuvwxyz") refl

pub digit-IsTable : IsTable digit
unfolding gen digit
digit-IsTable = const_gen-IsTable (ascii "0123456789") refl

pub hexdig-IsTable : IsTable hexdig
unfolding gen hexdig
hexdig-IsTable = or-IsTable digit-IsTable (const_gen-IsTable (ascii "ABCDEFabcdef") refl)

pub scheme-IsTable : IsTable scheme
unfolding gen scheme
scheme-IsTable =
    or-IsTable (or-IsTable alpha-IsTable digit-IsTable) (const_gen-IsTable (ascii "+-.") refl)

pub unreserved-IsTable : IsTable unreserved
unfolding gen unreserved
unreserved-IsTable =
    or-IsTable (or-IsTable alpha-IsTable digit-IsTable) (const_gen-IsTable (ascii "-._~") refl)

pub sub_delims-IsTable : IsTable sub_delims
unfolding gen sub_delims
sub_delims-IsTable = const_gen-IsTable (ascii "!$&'()*+,;=") refl

pub userinfo-IsTable : IsTable userinfo
unfolding gen userinfo
userinfo-IsTable = enc-IsTable (
    or-IsTable (or-IsTable unreserved-IsTable sub_delims-IsTable)
      (const_gen-IsTable (ascii ":") refl))

pub ipv_future-IsTable : IsTable ipv_future
unfolding gen ipv_future
ipv_future-IsTable =
    or-IsTable (or-IsTable unreserved-IsTable sub_delims-IsTable)
      (const_gen-IsTable (ascii ":") refl)

pub reg_name-IsTable : IsTable reg_name
unfolding gen reg_name
reg_name-IsTable = enc-IsTable (or-IsTable unreserved-IsTable sub_delims-IsTable)

pub pchar-IsTable : IsTable pchar
unfolding gen pchar
pchar-IsTable = enc-IsTable (
    or-IsTable (or-IsTable unreserved-IsTable sub_delims-IsTable)
      (const_gen-IsTable (ascii ":@") refl))

pub path-IsTable : IsTable path
unfolding gen path
path-IsTable = or-IsTable pchar-IsTable (const_gen-IsTable (ascii "/") refl)

pub segment_nz_nc-IsTable : IsTable segment_nz_nc
unfolding gen segment_nz_nc
segment_nz_nc-IsTable = enc-IsTable (
    or-IsTable (or-IsTable unreserved-IsTable sub_delims-IsTable)
      (const_gen-IsTable (ascii "@") refl))

pub query-IsTable : IsTable query
unfolding gen query
query-IsTable = or-IsTable pchar-IsTable (const_gen-IsTable (ascii "/?") refl)

pub data_table-IsTable : IsTable data_table
unfolding data_table
data_table-IsTable = enc-IsTable unreserved-IsTable
