-- ===== src/Table/Laws.antt =====
-- What the table operations of src/encoding/table.rs do to the bytes and octets allowed.
use mathlib.Core.Option.{some-injective}
use mathlib.Core.Path.{subst}
use fluent_uri_rs.Base.{
  ℕ, zero, suc, ◌≤◌, ◌<◌, bit_and, bit_or, Bool, true, false, not, ◌&&◌, ◌||◌, none, some, [], ◌∷◌,
  ◌==◌, all_below, Bool-cases, Bytes, is_ascii, ◌≡◌, refl, ◌∙◌, ap, inl, inr, arith,
}
use fluent_uri_rs.Table.{Table, store, gen_loop, gen, enc, or, sub, allows, is_subset}

-- Every entry is 0 or 1, and neither `%` nor a byte that is not ASCII is allowed.
pub record IsTable (t : Table) : Type 0 where
  pub binary : (x : ℕ) → t.arr x ≤ 1
  pub percent : t.arr b'%' ≡ 0
  pub ascii_only : (x : ℕ) → 128 ≤ x → t.arr x ≡ 0

abbrev pub contains : Bytes → ℕ → Bool
contains [] x = false
contains (y ∷ ys) x = x == y || contains ys x

abbrev raw : (ℕ → ℕ) → Table
raw arr = record { arr = arr; allows_enc = false }

abbrev empty : Table
empty = raw (λ i. 0)

store-IsTable :
    (arr : ℕ → ℕ) (c : ℕ)
    → (is_ascii c && not (c == b'%')) ≡ true
    → IsTable (raw arr)
    → IsTable (raw (store arr c 1))
store-IsTable arr c h t = record {
  binary = λ x. ground (arith, t.binary x);
  percent = ground (arith, t.percent);
  ascii_only = λ x g. ground (arith, t.ascii_only x);
}

gen_loop-IsTable :
    (bytes : Bytes) (arr : ℕ → ℕ) {t : Table}
    → IsTable (raw arr)
    → gen_loop bytes arr ≡ some t
    → IsTable t
unfolding gen_loop
gen_loop-IsTable [] arr {t} s e = subst IsTable (some-injective _ _ e) s
gen_loop-IsTable (c ∷ cs) arr {t} s e = elim (Bool-cases (is_ascii c && not (c == b'%'))) [
  | inl h ↦ gen_loop-IsTable cs (store arr c 1) (store-IsTable arr c h s) (rw h at e)
  | inr h ↦ absurd (let stop : none ≡ some t = rw h at e in cc)
]

pub gen-IsTable : (bytes : Bytes) {t : Table} → gen bytes ≡ some t → IsTable t
unfolding gen
gen-IsTable bytes =
    gen_loop-IsTable bytes (λ i. 0)
      (record { binary = λ x. omega arith; percent = refl; ascii_only = λ x h. refl })

-- Membership in the table that is being filled.
gen_loop-allows :
    (bytes : Bytes) (arr : ℕ → ℕ) {t : Table} (x : ℕ)
    → gen_loop bytes arr ≡ some t
    → allows t x ≡ (not (arr x == 0) || contains bytes x)
unfolding gen_loop allows
gen_loop-allows [] arr {t} x e = rw (← some-injective _ _ e) (ground arith)
gen_loop-allows (c ∷ cs) arr {t} x e = elim (Bool-cases (is_ascii c && not (c == b'%'))) [
  | inl h ↦ gen_loop-allows cs (store arr c 1) x (rw h at e) ∙ ground arith
  | inr h ↦ absurd (let stop : none ≡ some t = rw h at e in cc)
]

bit_or_binary :
    (a b : ℕ) → a ≤ 1 → b ≤ 1 → (bit_or a b ≤ 1) × ((bit_or a b == 0) ≡ (a == 0 && b == 0))
bit_or_binary zero zero p q = (omega arith, refl)
bit_or_binary zero (suc zero) p q = (omega arith, refl)
bit_or_binary (suc zero) zero p q = (omega arith, refl)
bit_or_binary (suc zero) (suc zero) p q = (omega arith, refl)
bit_or_binary (suc (suc a)) b p q = absurd (omega arith)
bit_or_binary zero (suc (suc b)) p q = absurd (omega arith)
bit_or_binary (suc zero) (suc (suc b)) p q = absurd (omega arith)

pub bit_and_binary :
    (a b : ℕ) → a ≤ 1 → b ≤ 1 → (bit_and a b == 0) ≡ not (not (a == 0) && not (b == 0))
bit_and_binary zero zero p q = refl
bit_and_binary zero (suc zero) p q = refl
bit_and_binary (suc zero) zero p q = refl
bit_and_binary (suc zero) (suc zero) p q = refl
bit_and_binary (suc (suc a)) b p q = absurd (omega arith)
bit_and_binary zero (suc (suc b)) p q = absurd (omega arith)
bit_and_binary (suc zero) (suc (suc b)) p q = absurd (omega arith)

pub or-IsTable : {a b : Table} → IsTable a → IsTable b → IsTable (or a b)
unfolding or
or-IsTable {a} {b} s t = record {
  binary = λ x. (bit_or_binary _ _ (s.binary x) (t.binary x)).0;
  percent = rw (s.percent, t.percent);
  ascii_only = λ x h. rw (s.ascii_only x h, t.ascii_only x h);
}

pub enc-IsTable : {a : Table} → IsTable a → IsTable (enc a)
unfolding enc
enc-IsTable s = record { binary = s.binary; percent = s.percent; ascii_only = s.ascii_only }

pub sub-IsTable : {a : Table} (b : Table) → IsTable a → IsTable (sub a b)
unfolding sub
sub-IsTable b s = record {
  binary = λ x. ground (arith, s.binary x);
  percent = ground (arith, s.percent);
  ascii_only = λ x h. ground (arith, s.ascii_only x);
}

-- A table that `gen` makes, where its assertion holds, allows the listed bytes and no others.
pub allows-gen :
    (bytes : Bytes) {t : Table} (x : ℕ) → gen bytes ≡ some t → allows t x ≡ contains bytes x
unfolding gen
allows-gen bytes x e = gen_loop-allows bytes (λ i. 0) x e

-- The union of two tables allows the bytes that one of them allows.
pub allows-or :
    {a b : Table} (x : ℕ) → IsTable a → IsTable b → allows (or a b) x ≡ (allows a x || allows b x)
unfolding allows or
allows-or {a} {b} x s t =
    ground (arith, (bit_or_binary (a.arr x) (b.arr x) (s.binary x) (t.binary x)).1)

pub allows-sub : (a b : Table) (x : ℕ) → allows (sub a b) x ≡ (allows a x && not (allows b x))
unfolding allows sub
allows-sub a b x = ground arith

pub all_below-lt : (n : ℕ) (p : ℕ → Bool) (x : ℕ) → all_below n p ≡ true → x < n → p x ≡ true
unfolding all_below
all_below-lt zero p x h g = absurd (omega arith)
all_below-lt (suc n) p x h g = ground (arith, all_below-lt n p x)

pub allows-lt : {t : Table} → IsTable t → (x : ℕ) → allows t x ≡ true → x < 128
unfolding allows
allows-lt t x h = ground (arith, t.ascii_only x)

pub allows-ne : {t : Table} → IsTable t → (x : ℕ) → allows t x ≡ true → (x == b'%') ≡ false
unfolding allows
allows-ne {t} s x h = ground (arith, s.percent, cong)
  where
    cong : x ≡ b'%' → t.arr x ≡ t.arr b'%'
    cong = ap t.arr

-- Where `is_subset` answers true for a table of ASCII bytes, the other table allows every byte that
-- this table allows.
pub allows-is_subset :
    {a : Table} (b : Table)
    → IsTable a
    → is_subset a b ≡ true
    → (x : ℕ) → allows a x ≡ true
    → allows b x ≡ true
unfolding allows is_subset
allows-is_subset {a} b t h x g =
    ground
      (arith, t.ascii_only x, all_below-lt 256 (λ i. not (not (a.arr i == 0) && b.arr i == 0)) x)

pub is_subset-enc : (a b : Table) → is_subset a b ≡ true → a.allows_enc ≡ true → b.allows_enc ≡ true
unfolding is_subset
is_subset-enc a b h e = ground arith
