-- ===== src/Reader/V6/Loop.antt =====
-- The loop of `read_v6` of src/parser.rs, in front of the end of the input, or of a byte that no
-- address contains.
use mathlib.Core.Path.{subst}
use fluent_uri_rs.Base.{
  ◌/◌, ◌%◌, ◌*◌, ◌^◌, ◌<◌, ◌⊎◌, is_some, ℕ, zero, suc, ◌+◌, Bool, true, false, not, ◌||◌, Option,
  none, some, List, [], ◌∷◌, ◌++◌, length, length-append, append-nil, append_assoc, ltb, ◌==◌,
  if◌then◌else◌, bool_eq, Bytes, Bool-cases, Option-cases, ◌≡◌, refl, sym, ap, ◌∙◌, inl, inr, arith,
}
use fluent_uri_rs.Reader.V4.{read_v4}
use fluent_uri_rs.Reader.V4Runs.{V4Shape, v4-Runs}
use fluent_uri_rs.Reader.V6.{
  Seg, normal, ellipsis, maybe_v4, single_colon, V6State, store_v4, read_v6_round, read_v6_loop,
  finish_v6, v6_start, finish_loop, read_v6,
}
use fluent_uri_rs.Reader.V6.Fuel.{runs_out, read_v6_loop-ends}
use fluent_uri_rs.Reader.V6.Runs.{Passes, tail-V4Stops}
use fluent_uri_rs.Reader.V6.Segments.{lead, SegShape, segment-Passes}
use fluent_uri_rs.Reader.V6.Shapes.{
  Inv, Left, Inv-Left, normal-Inv, ellipsis-Inv, v4-Left, finish_v6-IsIpv6,
}
use fluent_uri_rs.Grammar.{IsIpv6, no_piece}
use fluent_uri_rs.Reader.View.{at}
use fluent_uri_rs.Reader.V6.Rounds.{
  Outcome, gives_up, leaves, lacks_fuel, Rounds, stays, same, behind, Leaves, LoopShape, RoundShape,
}

v4-Passes : (e : Bool) (h : Bytes) → Passes e V4Shape read_v4 h
v4-Passes e h =
    let m = v4-Runs h in
    record {
      res = m.res;
      front = m.front;
      back = m.back;
      splits = m.splits;
      shape = m.shape;
      runs = λ pre tail t. m.runs pre tail (tail-V4Stops e tail t);
    }

lead_v4 : (w : Bytes) (c : Bool) (v : Bytes) → w ++ (lead c [] ++ (v ++ [])) ≡ w ++ lead c v
lead_v4 w true v = ap (λ v. w ++ (b':' ∷ v)) (append-nil v)
lead_v4 w false v = ap (λ v. w ++ v) (append-nil v)

stored :
    (e : Bool) (s : V6State) (c : Bool) (f0 : Bytes) (o : Option ℕ) (v h : Bytes)
    → (ltb 6 s.i || bool_eq c (s.i == s.ellipsis_i)) ≡ false
    → f0 ≡ lead c []
    → V4Shape o v
    → Rounds e (λ o f. RoundShape e s f0 o (v ++ f)) (λ r. store_v4 s (o, r)) h
unfolding store_v4
stored e s c f0 none v h b q p = stays h gives_up (λ x w i m. tt) (λ r. refl)
stored e s c f0 (some a) v h b q p =
    let hi = a / 2 ^ 24 % 256 * 256 + a / 2 ^ 16 % 256 in
    let lo = a / 2 ^ 8 % 256 * 256 + a % 256 in
    let segs = fluent_uri_rs.Base.set (fluent_uri_rs.Base.set s.segs s.i hi) (s.i + 1) lo in
    let s' : V6State = record s { segs = segs; i = s.i + 2 } in
    stays h (leaves s')
      (λ x w i m.
        subst (Left s') (sym (lead_v4 w c v) ∙ ap (λ f. w ++ (f ++ (v ++ []))) (sym q))
          (v4-Left s w v c segs i b p))
      (λ r. refl)

-- From one round to the rounds behind it.
next_round :
    (e : Bool) (s s' : V6State) (f0 : Bytes)
    → ((w : Bytes) → Inv s w → s.i < 8 → Inv s' (w ++ f0))
    → (o : Outcome) (f : Bytes) → LoopShape e s' o f
    → RoundShape e s f0 o f
next_round e s s' f0 g o f p x w i m =
    subst (Leaves o) (append_assoc w f0 f) (p x (w ++ f0) (g w i m))

no_segment :
    {e : Bool} (s : V6State) (f0 w : Bytes)
    → (e ≡ true) ⊎ (f0 ≡ [])
    → e ≡ false
    → Inv s w
    → Left s (w ++ (f0 ++ []))
no_segment s f0 w (inl t) x i = absurd (let c : true ≡ false = sym t ∙ x in cc)
no_segment s f0 w (inr q) x i = rw (q, append-nil w) (Inv-Left s w i)

module _ (e : Bool) (n : ℕ)
    (go : (s : V6State) (h : Bytes) → Rounds e (LoopShape e s) (read_v6_loop n s) h) where
  round :
      (s : V6State) (f0 : Bytes) (o : Option Seg) (h : Bytes)
      → SegShape e o f0
      → Rounds e (RoundShape e s f0) (λ r. read_v6_round (λ s' r'. read_v6_loop n s' r') s (o, r)) h
  unfolding read_v6_round
  round s f0 none h p = stays h (leaves s) (λ x w i m. no_segment s f0 w p x i) (λ r. refl)
  round s f0 (some (normal seg colon)) h (g, k, q) =
      elim (Bool-cases (bool_eq colon (s.i == 0 || s.i == s.ellipsis_i))) [
        | inl b ↦ stays h gives_up (λ x w i m. tt) (λ r. rw b refl)
        | inr b ↦
            let s' : V6State = record s {
              segs = fluent_uri_rs.Base.set s.segs s.i seg;
              i = s.i + 1;
            } in
            same
              (next_round e s s' f0 (λ w i m.
                subst (λ f. Inv s' (w ++ f)) (sym q) (normal-Inv s w g colon s'.segs i m b k)))
              (λ r. rw b refl) (go s' h)
      ]
  round s f0 (some ellipsis) h p = elim (Bool-cases (s.ellipsis_i == 8)) [
    | inl b ↦
        let s' : V6State = record s { ellipsis_i = s.i } in
        same
          (next_round e s s' f0
            (λ w i m. subst (λ f. Inv s' (w ++ f)) (sym p) (ellipsis-Inv s w i m b)))
          (λ r. rw b refl) (go s' h)
    | inr b ↦ stays h gives_up (λ x w i m. tt) (λ r. rw b refl)
  ]
  round s f0 (some (maybe_v4 colon)) h p =
      elim (Bool-cases (ltb 6 s.i || bool_eq colon (s.i == s.ellipsis_i))) [
        | inl b ↦ stays h gives_up (λ x w i m. tt) (λ r. rw b refl)
        | inr b ↦
            let m = v4-Passes e h in
            same (λ o f q. q) (λ r. rw b refl)
              (behind (λ a r. store_v4 s (a, r)) m (λ o f q. q) (λ r a r' q. ap (store_v4 s) q)
                (stored e s colon f0 m.res m.front m.back b p m.shape))
      ]
  round s f0 (some single_colon) h p = stays h gives_up (λ x w i m. tt) (λ r. refl)

loop-Rounds :
    (e : Bool) (n : ℕ) (s : V6State) (h : Bytes) → Rounds e (LoopShape e s) (read_v6_loop n s) h
unfolding read_v6_loop
loop-Rounds e zero s h = stays h lacks_fuel (λ x w i. tt) (λ r. refl)
loop-Rounds e (suc n) s h = elim (Bool-cases (ltb s.i 8)) [
  | inr b ↦ stays h (leaves s) (λ x w i. rw (append-nil w) (Inv-Left s w i)) (λ r. rw b refl)
  | inl b ↦
      let m = segment-Passes e h in
      behind (λ o r. read_v6_round (λ s' r'. read_v6_loop n s' r') s (o, r)) m
        (λ o f p x w i. p x w i (ground (arith, b))) (λ r a r' q. rw (b, q) refl)
        (round e n (loop-Rounds e n) s m.front m.res m.back m.shape)
]

-- Where an address is returned, it has been passed over.
abbrev pub V6Shape : Bool → Option (List ℕ) → Bytes → Type 0
V6Shape e o w = e ≡ false → is_some o ≡ true → IsIpv6 w

start-Inv : Inv v6_start []
start-Inv = (omega arith, inl (refl, no_piece))

finished :
    (e : Bool) (h : Bytes) (m : Rounds e (LoopShape e v6_start) (read_v6_loop 10 v6_start) h)
    (o : Outcome)
    → m.res ≡ o
    → Passes e (V6Shape e) read_v6 h
unfolding read_v6 finish_loop
finished e h m gives_up q = record {
  res = none;
  front = m.front;
  back = m.back;
  splits = m.splits;
  shape = λ x y. absurd cc;
  runs = λ pre tail t. rw (m.runs pre tail t, q) refl;
}
finished e h m (leaves s) q = record {
  res = finish_v6 s;
  front = m.front;
  back = m.back;
  splits = m.splits;
  shape = λ x y.
      finish_v6-IsIpv6 s m.front (subst (λ o. Leaves o m.front) q (m.shape x [] start-Inv)) y;
  runs = λ pre tail t. rw (m.runs pre tail t, q) refl;
}
finished e h m lacks_fuel q = record {
  res = none;
  front = [];
  back = h;
  splits = refl;
  shape = λ x y. absurd cc;
  runs = λ pre tail t. absurd (
      let ends = read_v6_loop-ends 10 (at pre (h ++ tail)) (ground arith) in
      let stuck : runs_out (read_v6_loop 10 v6_start (at pre (h ++ tail))) ≡ true =
        rw (m.runs pre tail t, q) refl in
      cc);
}

-- What `read_v6` makes of `h` is the same in front of every such tail.
pub v6-Passes : (e : Bool) (h : Bytes) → Passes e (V6Shape e) read_v6 h
v6-Passes e h = let m = loop-Rounds e 10 v6_start h in finished e h m m.res refl
