-- ===== src/Reader/V6/Runs.antt =====
-- The digits of `read_v6_segment` of src/parser.rs, in front of the end of the input, or of a byte that no address contains.
use fluent_uri_rs.Base.{
  Option, ◌||◌, ◌<◌, ◌≤◌, all_below, ℕ, zero, suc, ◌+◌, ◌*◌, ◌%◌, ◌^◌, bit_or, Bool, true, false,
  not, ◌&&◌, none, some, [], ◌∷◌, ◌++◌, append-nil, append_assoc, ltb, ◌==◌, Bytes, length,
  get_elem?, is_ascii_digit, Bool-cases, length-append, ◌≡◌, refl, sym, ap, ◌∙◌, inl, inr, arith,
}
use fluent_uri_rs.Encoding.{octet_table_lo}
use fluent_uri_rs.Reader.{Reader, skip, peek}
use fluent_uri_rs.Reader.V4Octet.{V4Stops}
use fluent_uri_rs.Reader.V6.{Seg, normal, ellipsis, maybe_v4, single_colon, read_v6_digits}
use fluent_uri_rs.Grammar.{IsH16}
use fluent_uri_rs.Table.{allows}
use fluent_uri_rs.Table.Consts
use fluent_uri_rs.Table.Facts
use fluent_uri_rs.Table.Laws.{allows-ne, all_below-lt}
use fluent_uri_rs.Table.Validate.{Valid, nil, byte, Valid-append}
use fluent_uri_rs.Reader.View.{at, peek-at, at-skip}

abbrev pub is_hex : ℕ → Bool
is_hex x = ltb (octet_table_lo x) 128

-- No digit, colon or dot.
abbrev pub is_v6_stop : ℕ → Bool
is_v6_stop x = not (is_hex x) && not (x == b':') && not (x == b'.') && not (is_ascii_digit x)

-- What follows: nothing where `e` is true, and else a byte that stops the address.
abbrev pub TailIs : Bool → Bytes → Type 0
TailIs true l = l ≡ []
TailIs false [] = ⊥
TailIs false (x ∷ l) = is_v6_stop x ≡ true

-- On `h`, in front of such a tail, the method returns `res` and passes over `front`, of which `P`
-- holds.
pub record Passes {A : Type 0} (e : Bool) (P : A → Bytes → Type 0) (op : Reader → A × Reader)
    (h : Bytes) : Type 0 where
  pub res : A
  pub front : Bytes
  pub back : Bytes
  pub splits : h ≡ front ++ back
  pub shape : P res front
  pub runs :
      (pre tail : Bytes)
      → TailIs e tail
      → op (at pre (h ++ tail)) ≡ (res, at (pre ++ front) (back ++ tail))

pub tail-V4Stops : (e : Bool) (l : Bytes) → TailIs e l → V4Stops l
tail-V4Stops false [] t = elim t [ ]
tail-V4Stops true [] t = tt
tail-V4Stops true (x ∷ l) t = absurd (cc)
tail-V4Stops false (x ∷ l) t = (ground (arith, t), ground (arith, t))

digits_stop :
    (n i x b : ℕ) (colon : Bool) (r : Reader)
    → peek r i ≡ some b
    → is_hex b ≡ false
    → (b == b'.') ≡ false
    → read_v6_digits (suc n) i x colon r ≡ (some (normal x colon), skip i r)
unfolding read_v6_digits
digits_stop n i x b colon r p h d = rw (p, read_v6_digits) (rw (h, d) refl)

digits_dot :
    (n i x b : ℕ) (colon : Bool) (r : Reader)
    → peek r i ≡ some b
    → is_hex b ≡ false
    → (b == b'.') ≡ true
    → read_v6_digits (suc n) i x colon r ≡ (some (maybe_v4 colon), r)
unfolding read_v6_digits
digits_dot n i x b colon r p h d = rw (p, read_v6_digits) (rw (h, d) refl)

digits_end :
    (n i x : ℕ) (colon : Bool) (r : Reader)
    → peek r i ≡ none
    → read_v6_digits (suc n) i x colon r ≡ (none, skip i r)
unfolding read_v6_digits
digits_end n i x colon r p = rw (p, read_v6_digits) refl

digits_more :
    (n i x b : ℕ) (colon : Bool) (r : Reader)
    → peek r i ≡ some b
    → is_hex b ≡ true
    → read_v6_digits (suc n) i x colon r
      ≡ read_v6_digits n (i + 1) (bit_or (x * 2 ^ 4 % 2 ^ 16) (octet_table_lo b)) colon r
unfolding read_v6_digits
digits_more n i x b colon r p h = rw (p, read_v6_digits) (rw h refl)

get_elem?-behind : (w l : Bytes) → get_elem? (w ++ l) (length w) ≡ get_elem? l 0
get_elem?-behind [] l = refl
get_elem?-behind (x ∷ w) l = get_elem?-behind w l

-- The byte behind the digits read so far.
peek_behind : (pre w l : Bytes) → peek (at pre (w ++ l)) (length w) ≡ get_elem? l 0
peek_behind pre w l = peek-at pre (w ++ l) (length w) ∙ get_elem?-behind w l

-- What has been passed over where digits are read: nothing, or a piece of hexadecimal digits.
abbrev pub DigitShape : Bool → Bool → Option Seg → Bytes → Type 0
DigitShape e colon none w = e ≡ true
DigitShape e colon (some (normal x c)) w = (c ≡ colon) × IsH16 w
DigitShape e colon (some (maybe_v4 c)) w = (c ≡ colon) × (w ≡ [])
DigitShape e colon (some ellipsis) w = ⊥
DigitShape e colon (some single_colon) w = ⊥

-- The table of digits and the table of octets agree.
hex_agrees : ℕ → Bool
unfolding octet_table_lo allows Consts.hexdig
hex_agrees x = not (is_hex x) || allows Consts.hexdig x

all_agree : all_below 128 hex_agrees ≡ true
unfolding hex_agrees all_below
all_agree = refl

hex_ascii : (x : ℕ) → is_hex x ≡ true → x < 128
unfolding octet_table_lo
hex_ascii x h = ground (arith, h)

pub is_hex-allows : (x : ℕ) → is_hex x ≡ true → allows Consts.hexdig x ≡ true
unfolding hex_agrees
is_hex-allows x h =
    implied (is_hex x) (allows Consts.hexdig x)
      (all_below-lt 128 hex_agrees x all_agree (hex_ascii x h)) h
  where
    implied : (a b : Bool) → (not a || b) ≡ true → a ≡ true → b ≡ true
    implied a b h g = ground arith

pub hex_word : (x : ℕ) → is_hex x ≡ true → Valid Consts.hexdig (x ∷ [])
hex_word x h = let a = is_hex-allows x h in byte (allows-ne Facts.hexdig-IsTable x a) a nil

pub digits-Passes :
    (e : Bool) (n x : ℕ) (colon : Bool) (w h : Bytes)
    → Valid Consts.hexdig w
    → 1 ≤ length w
    → length w + n ≡ 4
    → Passes e (DigitShape e colon) (read_v6_digits n (length w) x colon) (w ++ h)
digits-Passes e zero x colon w h v p k = record {
  shape = (refl, (v, p, omega (arith, k)));
  res = some (normal x colon);
  front = w;
  back = h;
  splits = refl;
  runs = λ pre tail t.
      unfold read_v6_digits in rw (append_assoc w h tail, at-skip pre w (h ++ tail)) refl;
}
digits-Passes true (suc n) x colon w [] v p k = record {
  shape = refl;
  res = none;
  front = w;
  back = [];
  splits = refl;
  runs = λ pre tail t.
      ap (λ l. read_v6_digits (suc n) (length w) x colon (at pre l)) (append_assoc w [] tail)
      ∙ digits_end n (length w) x colon _ (peek_behind pre w tail ∙ rw t refl)
      ∙ ap (λ r. (none, r)) (at-skip pre w tail);
}
digits-Passes false (suc n) x colon w [] v p k = record {
  shape = (refl, (v, p, omega (arith, k)));
  res = some (normal x colon);
  front = w;
  back = [];
  splits = refl;
  runs = λ pre tail t. ends pre tail t;
}
  where
    ends :
        (pre tail : Bytes)
        → TailIs false tail
        → read_v6_digits (suc n) (length w) x colon (at pre ((w ++ []) ++ tail))
          ≡ (some (normal x colon), at (pre ++ w) tail)
    ends pre [] t = elim t [ ]
    ends pre (y ∷ tail) t =
        ap (λ l. read_v6_digits (suc n) (length w) x colon (at pre l))
          (append_assoc w [] (y ∷ tail))
        ∙ digits_stop n (length w) x y colon _ (peek_behind pre w (y ∷ tail)) (ground (arith, t))
            (ground (arith, t))
        ∙ ap (λ r. (some (normal x colon), r)) (at-skip pre w (y ∷ tail))
digits-Passes e (suc n) x colon w (b ∷ h) v p k = elim (Bool-cases (is_hex b)) [
  | inl hex ↦
      let x' = bit_or (x * 2 ^ 4 % 2 ^ 16) (octet_table_lo b) in
      let longer : length (w ++ (b ∷ [])) ≡ length w + 1 = length-append w (b ∷ []) in
      let m =
        digits-Passes e n x' colon (w ++ (b ∷ [])) h (Valid-append v (hex_word b hex))
          (omega (arith, longer)) (omega (arith, longer, k)) in
      record {
        shape = m.shape;
        res = m.res;
        front = m.front;
        back = m.back;
        splits = sym (append_assoc w (b ∷ []) h) ∙ m.splits;
        runs = λ pre tail t.
            ap (λ l. read_v6_digits (suc n) (length w) x colon (at pre l))
              (append_assoc w (b ∷ h) tail)
            ∙ digits_more n (length w) x b colon _ (peek_behind pre w (b ∷ (h ++ tail))) hex
            ∙ ap (λ l. read_v6_digits n (length w + 1) x' colon (at pre l))
                (sym (append_assoc w (b ∷ []) (h ++ tail))
                  ∙ sym (append_assoc (w ++ (b ∷ [])) h tail))
            ∙ ap (λ i. read_v6_digits n i x' colon (at pre ((w ++ (b ∷ [])) ++ h ++ tail)))
                (sym longer)
            ∙ m.runs pre tail t;
      }
  | inr no_hex ↦ elim (Bool-cases (b == b'.')) [
    | inl d ↦ record {
      shape = (refl, refl);
      res = some (maybe_v4 colon);
      front = [];
      back = w ++ (b ∷ h);
      splits = refl;
      runs = λ pre tail t.
          ap (λ l. read_v6_digits (suc n) (length w) x colon (at pre l))
            (append_assoc w (b ∷ h) tail)
          ∙ digits_dot n (length w) x b colon _ (peek_behind pre w (b ∷ (h ++ tail))) no_hex d
          ∙ rw (append-nil pre, append_assoc w (b ∷ h) tail) refl;
    }
    | inr d ↦ record {
      shape = (refl, (v, p, omega (arith, k)));
      res = some (normal x colon);
      front = w;
      back = b ∷ h;
      splits = refl;
      runs = λ pre tail t.
          ap (λ l. read_v6_digits (suc n) (length w) x colon (at pre l))
            (append_assoc w (b ∷ h) tail)
          ∙ digits_stop n (length w) x b colon _ (peek_behind pre w (b ∷ (h ++ tail))) no_hex d
          ∙ ap (λ r. (some (normal x colon), r)) (at-skip pre w (b ∷ (h ++ tail)));
    }
  ]
]
