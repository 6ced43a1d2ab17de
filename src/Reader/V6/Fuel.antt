-- ===== src/Reader/V6/Fuel.antt =====
-- The rounds of the loop of `read_v6` of src/parser.rs.
use fluent_uri_rs.Base.{
  ℕ, zero, suc, ◌+◌, ◌-◌, ◌<◌, Bool, true, false, ◌||◌, Option, none, some, ltb, ◌==◌,
  if◌then◌else◌, bool_eq, Bool-cases, ◌≡◌, refl, inl, inr, arith,
}
use fluent_uri_rs.Reader.{Reader}
use fluent_uri_rs.Reader.V4.{read_v4}
use fluent_uri_rs.Reader.V6.{
  Seg, normal, ellipsis, maybe_v4, single_colon, V6State, V6Loop, returned_none, left, no_fuel,
  store_v4, read_v6_segment, read_v6_round, read_v6_loop, v6_start,
}

-- The rounds given were too few.
abbrev pub runs_out : V6Loop → Bool
runs_out (returned_none r) = false
runs_out (left s r) = false
runs_out no_fuel = true

-- What is left to do: segments, and an ellipsis.
abbrev rounds : ℕ → ℕ → ℕ
rounds i ellipsis_i = (8 - i) + (if ellipsis_i == 8 then 1 else 0)

store_v4-ends : (s : V6State) (o : Option ℕ × Reader) → runs_out (store_v4 s o) ≡ false
unfolding store_v4
store_v4-ends s (none, r) = refl
store_v4-ends s (some a, r) = refl

fewer_segments : (i e : ℕ) → i < 8 → rounds (i + 1) e < rounds i e
fewer_segments i e h = ground arith

fewer_ellipses : (i : ℕ) → i < 8 → rounds i i < rounds i 8
fewer_ellipses i h = ground arith

-- A round ends the loop, or leaves less to do.
round-ends :
    (next : V6State → Reader → V6Loop) (s : V6State) (o : Option Seg × Reader)
    → s.i < 8
    → ((s' : V6State) (r : Reader)
        → rounds s'.i s'.ellipsis_i < rounds s.i s.ellipsis_i
        → runs_out (next s' r) ≡ false)
    → runs_out (read_v6_round next s o) ≡ false
unfolding read_v6_round
round-ends next s (none, r) h go = refl
round-ends next s (some (normal seg colon), r) h go =
    elim (Bool-cases (bool_eq colon (s.i == 0 || s.i == s.ellipsis_i))) [
      | inl b ↦ rw b refl
      | inr b ↦ rw b (go _ r (fewer_segments s.i s.ellipsis_i h))
    ]
round-ends next s (some ellipsis, r) h go = elim (Bool-cases (s.ellipsis_i == 8)) [
  | inl b ↦ rw b (go _ r (ground (arith, fewer_ellipses s.i h)))
  | inr b ↦ rw b refl
]
round-ends next s (some (maybe_v4 colon), r) h go =
    elim (Bool-cases (ltb 6 s.i || bool_eq colon (s.i == s.ellipsis_i))) [
      | inl b ↦ rw b refl
      | inr b ↦ rw b (store_v4-ends s (read_v4 r))
    ]
round-ends next s (some single_colon, r) h go = refl

loop-ends :
    (n : ℕ) (s : V6State) (r : Reader)
    → rounds s.i s.ellipsis_i < n
    → runs_out (read_v6_loop n s r) ≡ false
unfolding read_v6_loop
loop-ends zero s r f = absurd (omega arith)
loop-ends (suc n) s r f = elim (Bool-cases (ltb s.i 8)) [
  | inl h ↦ rw h (
      round-ends (λ s' r'. read_v6_loop n s' r') s (read_v6_segment r) (ground arith)
        (λ s' r' less. loop-ends n s' r' (omega arith)))
  | inr h ↦ rw h refl
]

-- From its start and on every input, the loop of `read_v6` returns or is left within any number of
-- rounds that is at least ten.
pub read_v6_loop-ends : (n : ℕ) (r : Reader) → 9 < n → runs_out (read_v6_loop n v6_start r) ≡ false
read_v6_loop-ends n r h = loop-ends n v6_start r h
