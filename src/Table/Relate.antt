-- ===== src/Table/Relate.antt =====
-- How the predefined tables relate, by running `is_subset` on them.
use fluent_uri_rs.Base.{
  ℕ, true, false, ◌||◌, ◌==◌, Bytes, ascii, is_ascii_digit, Bool-cases, ==_iff, ◌≡◌, refl, sym, ap,
  ◌∙◌, ◌⊎◌, inl, inr, arith,
}
use fluent_uri_rs.Table.{Table, gen, or, allows, is_subset}
use fluent_uri_rs.Table.Consts.{const_gen, digit, scheme, userinfo, reg_name, path, segment_nz_nc}
use fluent_uri_rs.Table.Facts
use fluent_uri_rs.Table.Laws.{IsTable, allows-or, or-IsTable, allows-is_subset, is_subset-enc}
use fluent_uri_rs.Table.Validate.{Valid, nil, byte, octet}

-- A byte that is not allowed is none of the allowed ones.
pub allows-ne_byte :
    (t : Table) (x c : ℕ) → allows t x ≡ true → allows t c ≡ false → (x == c) ≡ false
allows-ne_byte t x c h n = elim (Bool-cases (x == c)) [
  | inl e ↦ absurd (let b : true ≡ false = sym h ∙ ap (allows t) ((==_iff x c).0 e) ∙ n in cc)
  | inr e ↦ e
]

pub Valid-mono :
    {a b : Table} {w : Bytes}
    → ((x : ℕ) → allows a x ≡ true → allows b x ≡ true)
    → (a.allows_enc ≡ true → b.allows_enc ≡ true)
    → Valid a w
    → Valid b w
Valid-mono f e nil = nil
Valid-mono f e (byte n h v) = byte n (f _ h) (Valid-mono f e v)
Valid-mono f e (octet q h k v) = octet (e q) h k (Valid-mono f e v)

pub Valid-is_subset :
    {a b : Table} {w : Bytes} → IsTable a → is_subset a b ≡ true → Valid a w → Valid b w
Valid-is_subset {a} {b} i h = Valid-mono (allows-is_subset b i h) (is_subset-enc a b h)

-- `or` of two tables, and a check of a further one against it.
subset_cases :
    (a b c : Table) (x : ℕ)
    → IsTable a
    → IsTable b
    → IsTable c
    → is_subset a (or b c) ≡ true
    → allows a x ≡ true
    → (allows b x ≡ true) ⊎ (allows c x ≡ true)
subset_cases a b c x i j k h g =
    let both : (allows b x || allows c x) ≡ true =
      sym (allows-or x j k) ∙ allows-is_subset (or b c) i h x g in
    ground arith

colon : Table
unfolding gen const_gen
colon = const_gen (ascii ":")

colon-IsTable : IsTable colon
unfolding gen colon
colon-IsTable = Facts.const_gen-IsTable (ascii ":") refl

slash : Table
unfolding gen const_gen
slash = const_gen (ascii "/")

slash-IsTable : IsTable slash
unfolding gen slash
slash-IsTable = Facts.const_gen-IsTable (ascii "/") refl

colon_byte : (x : ℕ) → allows colon x ≡ true → x ≡ b':'
unfolding allows colon
colon_byte x h = ground arith

slash_byte : (x : ℕ) → allows slash x ≡ true → x ≡ b'/'
unfolding allows slash
slash_byte x h = ground arith

segment_subset : is_subset (or segment_nz_nc colon) (or segment_nz_nc colon) ≡ true
unfolding is_subset segment_nz_nc colon or
segment_subset = refl

path_subset : is_subset path (or (or segment_nz_nc colon) slash) ≡ true
unfolding is_subset path segment_nz_nc colon slash or
path_subset = refl

-- A path byte may stand in a first segment, or is a slash or a colon.
pub path_cases :
    (x : ℕ) → allows path x ≡ true → (allows segment_nz_nc x ≡ true) ⊎ (x ≡ b':') ⊎ (x ≡ b'/')
path_cases x h =
    let inner = or-IsTable Facts.segment_nz_nc-IsTable colon-IsTable in
    elim (subset_cases path (or segment_nz_nc colon) slash x Facts.path-IsTable inner slash-IsTable
      path_subset h) [
        | inr s ↦ inr (inr (slash_byte x s))
        | inl b ↦
            elim (subset_cases _ segment_nz_nc colon x inner Facts.segment_nz_nc-IsTable
              colon-IsTable segment_subset b) [ inl s ↦ inl s | inr c ↦ inr (inl (colon_byte x c)) ]
      ]

userinfo_subset : is_subset userinfo (or reg_name colon) ≡ true
unfolding is_subset userinfo reg_name colon or
userinfo_subset = refl

-- A userinfo byte is a registered name byte or a colon.
pub userinfo_cases : (x : ℕ) → allows userinfo x ≡ true → (allows reg_name x ≡ true) ⊎ (x ≡ b':')
userinfo_cases x h =
    elim (subset_cases userinfo reg_name colon x Facts.userinfo-IsTable Facts.reg_name-IsTable
      colon-IsTable userinfo_subset h) [ inl r ↦ inl r | inr c ↦ inr (colon_byte x c) ]

pub scheme_in_segment : {w : Bytes} → Valid scheme w → Valid segment_nz_nc w
unfolding is_subset scheme segment_nz_nc
scheme_in_segment = Valid-is_subset Facts.scheme-IsTable refl

pub segment_in_path : {w : Bytes} → Valid segment_nz_nc w → Valid path w
unfolding is_subset segment_nz_nc path
segment_in_path = Valid-is_subset Facts.segment_nz_nc-IsTable refl

pub reg_name_in_userinfo : {w : Bytes} → Valid reg_name w → Valid userinfo w
unfolding is_subset reg_name userinfo
reg_name_in_userinfo = Valid-is_subset Facts.reg_name-IsTable refl

pub digit_in_userinfo : {w : Bytes} → Valid digit w → Valid userinfo w
unfolding is_subset digit userinfo
digit_in_userinfo = Valid-is_subset Facts.digit-IsTable refl

pub allows-digit : (x : ℕ) → allows digit x ≡ is_ascii_digit x
unfolding allows digit
allows-digit x = ground arith
