-- ===== src/Normalizer/Octets.antt =====
-- The normal form of section 6.2.2 of RFC 3986, for `normalize_estr` of src/normalizer.rs.
pub mod Step
pub mod Firsts
pub mod Writes
use fluent_uri_rs.Base.{
  ℕ, ◌<◌, Bool, true, false, not, ◌&&◌, ◌||◌, [], ◌∷◌, ◌++◌, map, append-nil, append_assoc, ltb,
  ◌==◌, if◌then◌else◌, Bytes, to_ascii_lowercase, to_ascii_uppercase, is_ascii_upper, all_below,
  Bool-cases, ==_iff, ◌≡◌, refl, sym, ap, ◌∙◌, inl, inr, arith,
}
use fluent_uri_rs.Base.Run.{Run, done}
use fluent_uri_rs.Encoding.{decode_octet, decode_loop, octet_table_hi, octet_table_lo}
use fluent_uri_rs.EStr.RoundTrip.{decode_loop-plain}
use fluent_uri_rs.Normalizer.{lower_if, normalize_octet, normalize_estr}
use fluent_uri_rs.Table.{Table, allows, is_subset}
use fluent_uri_rs.Table.Consts.{hexdig, unreserved, reg_name}
use fluent_uri_rs.Table.Facts.{hexdig-IsTable, unreserved-IsTable, reg_name-IsTable}
use fluent_uri_rs.Table.Laws.{IsTable, allows-lt, allows-ne, allows-is_subset, all_below-lt}
use fluent_uri_rs.Table.Validate.{Valid, nil, byte, octet}

-- Valid text in normal form: octets have uppercase digits and stand for no unreserved character, and
-- where `low` is set, no letter outside an octet is uppercase.
pub data Normal (t : Table) (low : Bool) : Bytes → Type 0 where
  normal_nil : Normal t low []
  normal_byte :
      {x : ℕ} {w : Bytes}
      → (x == b'%') ≡ false
      → allows t x ≡ true
      → lower_if low x ≡ x
      → Normal t low w
      → Normal t low (x ∷ w)
  normal_octet :
      {hi lo : ℕ} {w : Bytes}
      → t.allows_enc ≡ true
      → (allows hexdig hi ≡ true) × (to_ascii_uppercase hi ≡ hi)
      → (allows hexdig lo ≡ true) × (to_ascii_uppercase lo ≡ lo)
      → allows unreserved (decode_octet hi lo) ≡ false
      → Normal t low w
      → Normal t low (b'%' ∷ hi ∷ lo ∷ w)

pub Normal-Valid : {t : Table} {low : Bool} {s : Bytes} → Normal t low s → Valid t s
Normal-Valid normal_nil = nil
Normal-Valid (normal_byte n a l v) = byte n a (Normal-Valid v)
Normal-Valid (normal_octet e h k u v) = octet e h.0 k.0 (Normal-Valid v)

-- The table allows what its letters are lowered to.
abbrev pub Lowers : Table → Bool → Type 0
Lowers t low = (x : ℕ) → allows t x ≡ true → allows t (lower_if low x) ≡ true

pub lower_twice : (low : Bool) (x : ℕ) → lower_if low (lower_if low x) ≡ lower_if low x
lower_twice low x = ground arith

-- What holds of a hexadecimal digit, and of its uppercase form.
raises : ℕ → Bool
unfolding allows hexdig octet_table_hi octet_table_lo
raises x =
    not (allows hexdig x)
    || (allows hexdig (to_ascii_uppercase x)
        && (octet_table_hi (to_ascii_uppercase x) == octet_table_hi x)
        && (octet_table_lo (to_ascii_uppercase x) == octet_table_lo x))

all_raised : all_below 128 raises ≡ true
unfolding raises all_below
all_raised = refl

-- The parts of such a test.
implied :
    (a b c d : Bool)
    → (not a || (b && c && d)) ≡ true
    → a ≡ true
    → (b ≡ true) × (c ≡ true) × (d ≡ true)
implied a b c d h g = ground arith

pub upper_digit :
    (x : ℕ)
    → allows hexdig x ≡ true
    → (allows hexdig (to_ascii_uppercase x) ≡ true)
      × (octet_table_hi (to_ascii_uppercase x) ≡ octet_table_hi x)
      × (octet_table_lo (to_ascii_uppercase x) ≡ octet_table_lo x)
unfolding raises
upper_digit x h =
    let (a, hi, lo) =
      implied (allows hexdig x) _ _ _
        (all_below-lt 128 raises x all_raised (allows-lt hexdig-IsTable x h)) h in
    (a, (==_iff _ _).0 hi, (==_iff _ _).0 lo)

pub upper_twice : (x : ℕ) → to_ascii_uppercase (to_ascii_uppercase x) ≡ to_ascii_uppercase x
upper_twice x = ground arith

pub decode_octet_upper :
    (hi lo : ℕ)
    → allows hexdig hi ≡ true
    → allows hexdig lo ≡ true
    → decode_octet (to_ascii_uppercase hi) (to_ascii_uppercase lo) ≡ decode_octet hi lo
unfolding decode_octet
decode_octet_upper hi lo h k = rw ((upper_digit hi h).1, (upper_digit lo k).2) refl

-- Every letter is unreserved.
keeps_or_unreserved : ℕ → Bool
unfolding allows unreserved
keeps_or_unreserved x = not (is_ascii_upper x) || allows unreserved x

all_kept : all_below 128 keeps_or_unreserved ≡ true
unfolding keeps_or_unreserved all_below
all_kept = refl

kept :
    (low up un : Bool) (x : ℕ)
    → (not up || un) ≡ true
    → un ≡ false
    → up ≡ is_ascii_upper x
    → lower_if low x ≡ x
kept low up un x r h e = ground arith

pub reserved_lower : (low : Bool) (x : ℕ) → allows unreserved x ≡ false → lower_if low x ≡ x
unfolding keeps_or_unreserved
reserved_lower low x h = elim (Bool-cases (ltb x 128)) [
  | inl l ↦
      kept low (is_ascii_upper x) (allows unreserved x) x
        (all_below-lt 128 keeps_or_unreserved x all_kept (ground arith)) h refl
  | inr l ↦ ground arith
]

-- The letters of a registered name can be lowered.
lowers_name : ℕ → Bool
unfolding allows reg_name
lowers_name x = not (allows reg_name x) || allows reg_name (to_ascii_lowercase x)

all_lowered : all_below 128 lowers_name ≡ true
unfolding lowers_name all_below
all_lowered = refl

pub reg_name-Lowers : Lowers reg_name true
unfolding lowers_name
reg_name-Lowers x h =
    implied_by (allows reg_name x) _
      (all_below-lt 128 lowers_name x all_lowered (allows-lt reg_name-IsTable x h)) h
  where
    implied_by : (a b : Bool) → (not a || b) ≡ true → a ≡ true → b ≡ true
    implied_by a b h g = ground arith
