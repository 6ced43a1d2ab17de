-- ===== src/Reader/V6.antt =====
-- `read_v6_segment` and `read_v6` of src/parser.rs.
pub mod Fuel
pub mod Runs
pub mod Segments
pub mod Shapes
pub mod Loop
pub mod Rounds
pub mod Whole
use fluent_uri_rs.Base.{
  ℕ, zero, suc, ◌+◌, ◌-◌, ◌*◌, ◌/◌, ◌%◌, ◌^◌, bit_or, Bool, not, ◌||◌, Option, none, some, List, [],
  ◌∷◌, ltb, ◌==◌, if◌then◌else◌, bool_eq, set, get_or,
}
use fluent_uri_rs.Encoding.{octet_table_lo}
use fluent_uri_rs.Reader.{Reader, peek, skip, read_str}
use fluent_uri_rs.Reader.V4.{read_v4}

pub data Seg : Type 0 where
  normal : ℕ → Bool → Seg
  ellipsis : Seg
  maybe_v4 : Bool → Seg
  single_colon : Seg

-- `while i < 4`, with the rounds left, and what follows the loop.
unfoldable pub read_v6_digits : ℕ → ℕ → ℕ → Bool → Reader → Option Seg × Reader
read_v6_digits zero i x colon r = (some (normal x colon), skip i r)
read_v6_digits (suc n) i x colon r = elim (peek r i) [
  | none ↦ (none, skip i r)
  | some b ↦
      let v = octet_table_lo b in
      let more = read_v6_digits n (i + 1) (bit_or (x * 2 ^ 4 % 2 ^ 16) v) colon r in
      if ltb v 128
      then more
      else if b == b'.'
      then (some (maybe_v4 colon), r)
      else (some (normal x colon), skip i r)
]

-- `peek(0)` is `None` exactly where `has_remaining` answers false.
unfoldable pub read_v6_segment : Reader → Option Seg × Reader
unfolding read_v6_digits
read_v6_segment r0 =
    let (colon, r) = read_str (b':' ∷ []) r0 in
    elim (peek r 0) [
      | none ↦ (if colon then some single_colon else none, r)
      | some first ↦
          let v = octet_table_lo first in
          let digits = read_v6_digits 3 1 v colon r in
          if ltb v 128
          then digits
          else if not colon
          then (none, r)
          else if first == b':'
          then (some ellipsis, skip 1 r)
          else (some single_colon, r)
    ]

-- The locals of `read_v6`.
pub record V6State : Type 0 where
  pub segs : List ℕ
  pub ellipsis_i : ℕ
  pub i : ℕ

-- How the loop of `read_v6` ends: it returns `None`, or it is left. `no_fuel` is no outcome of the
-- code: the rounds given were too few.
pub data V6Loop : Type 0 where
  returned_none : Reader → V6Loop
  left : V6State → Reader → V6Loop
  no_fuel : V6Loop

-- The arm `Seg::MaybeV4`, where there is space: the two segments of the address end the loop.
store_v4 : V6State → Option ℕ × Reader → V6Loop
store_v4 s (none, r) = returned_none r
store_v4 s (some addr, r) =
    let hi = addr / 2 ^ 24 % 256 * 256 + addr / 2 ^ 16 % 256 in
    let lo = addr / 2 ^ 8 % 256 * 256 + addr % 256 in
    left (record s { segs = set (set s.segs s.i hi) (s.i + 1) lo; i = s.i + 2 }) r

-- One round: what `read_v6_segment` returned, and the loop from the next round on.
read_v6_round : (V6State → Reader → V6Loop) → V6State → Option Seg × Reader → V6Loop
unfolding store_v4
read_v6_round next s (none, r) = left s r
read_v6_round next s (some (normal seg colon), r) =
    if bool_eq colon (s.i == 0 || s.i == s.ellipsis_i)
    then returned_none r
    else next (record s { segs = set s.segs s.i seg; i = s.i + 1 }) r
read_v6_round next s (some ellipsis, r) =
    if not (s.ellipsis_i == 8) then returned_none r else next (record s { ellipsis_i = s.i }) r
read_v6_round next s (some (maybe_v4 colon), r) =
    if ltb 6 s.i || bool_eq colon (s.i == s.ellipsis_i)
    then returned_none r
    else store_v4 s (read_v4 r)
read_v6_round next s (some single_colon, r) = returned_none r

-- `while i < 8`
unfoldable pub read_v6_loop : ℕ → V6State → Reader → V6Loop
unfolding read_v6_round
read_v6_loop zero s r = no_fuel
read_v6_loop (suc n) s r =
    if ltb s.i 8
    then read_v6_round (λ s' r'. read_v6_loop n s' r') s (read_v6_segment r)
    else left s r

-- `for j in (ellipsis_i..i).rev()`, with the rounds left.
shift_segs : ℕ → ℕ → ℕ → List ℕ → List ℕ
shift_segs zero ell i segs = segs
shift_segs (suc k) ell i segs =
    let j = ell + k in shift_segs k ell i (set (set segs (8 - (i - j)) (get_or segs j 0)) j 0)

unfoldable pub finish_v6 : V6State → Option (List ℕ)
unfolding shift_segs
finish_v6 s =
    if s.ellipsis_i == 8
    then (if not (s.i == 8) then none else some s.segs)
    else if s.i == 8
    then none
    else some (shift_segs (s.i - s.ellipsis_i) s.ellipsis_i s.i s.segs)

abbrev pub v6_start : V6State
v6_start = record { segs = 0 ∷ 0 ∷ 0 ∷ 0 ∷ 0 ∷ 0 ∷ 0 ∷ 0 ∷ []; ellipsis_i = 8; i = 0 }

finish_loop : Reader → V6Loop → Option (List ℕ) × Reader
unfolding finish_v6
finish_loop r0 (returned_none r) = (none, r)
finish_loop r0 (left s r) = (finish_v6 s, r)
finish_loop r0 no_fuel = (none, r0)

-- Each round but one raises `i`, which stays below 8 before a round: 10 rounds are enough.
unfoldable pub read_v6 : Reader → Option (List ℕ) × Reader
unfolding read_v6_loop finish_loop
read_v6 r = finish_loop r (read_v6_loop 10 v6_start r)
