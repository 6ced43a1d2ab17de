-- ===== src/Reader/V6/Shapes.antt =====
-- What the loop of `read_v6` of src/parser.rs has passed over, by its counters.
use mathlib.Core.Path.{subst}
use fluent_uri_rs.Base.{
  ℕ, suc, ◌+◌, ◌≤◌, ◌<◌, Bool, true, false, not, ◌||◌, List, [], ◌∷◌, ◌++◌, append_assoc, ltb, ◌==◌,
  is_some, bool_eq, Bytes, ◌≡◌, refl, sym, ap, ◌∙◌, ◌⊎◌, inl, inr, arith,
}
use fluent_uri_rs.Grammar.{
  IsIpv4, IsH16, Pieces, no_piece, piece, next_piece, Ends, of_pieces, v4_alone, v4_behind, IsIpv6,
  full, compressed,
}
use fluent_uri_rs.Reader.V6.{V6State, finish_v6}
use fluent_uri_rs.Reader.V6.Segments.{lead}

-- A colon stands in front of every piece but the first.
add_piece :
    {y g : Bytes} {n : ℕ} (c : Bool)
    → Pieces y n
    → c ≡ not (n == 0)
    → IsH16 g
    → Pieces (y ++ lead c g) (suc n)
add_piece false no_piece e h = piece h
add_piece true no_piece e h = absurd (ground (arith, e))
add_piece true (piece k) e h = next_piece (piece k) h
add_piece false (piece k) e h = absurd (ground (arith, e))
add_piece true (next_piece p k) e h = next_piece (next_piece p k) h
add_piece false (next_piece p k) e h = absurd (ground (arith, e))

add_v4 :
    {y v : Bytes} {n : ℕ} (c : Bool)
    → Pieces y n
    → c ≡ not (n == 0)
    → IsIpv4 v
    → Ends (y ++ lead c v) (n + 2)
add_v4 false no_piece e h = v4_alone h
add_v4 true no_piece e h = absurd (ground (arith, e))
add_v4 true (piece k) e h = v4_behind (piece k) h
add_v4 false (piece k) e h = absurd (ground (arith, e))
add_v4 true (next_piece p k) e h = v4_behind (next_piece p k) h
add_v4 false (next_piece p k) e h = absurd (ground (arith, e))

-- Pieces around two colons, `ell` of them in front; `E` says what stands behind.
pub record Split (E : Bytes → ℕ → Type 0) (ell i : ℕ) (w : Bytes) : Type 0 where
  front : Bytes
  back : Bytes
  n : ℕ
  before : Pieces front ell
  behind : E back n
  count : i ≡ ell + n
  text : w ≡ front ++ (b':' ∷ b':' ∷ back)

-- Before a round.
abbrev pub Inv : V6State → Bytes → Type 0
Inv s w =
    (s.i ≤ 8)
    × (((s.ellipsis_i ≡ 8) × Pieces w s.i) ⊎ ((s.ellipsis_i < 8) × Split Pieces s.ellipsis_i s.i w))

-- Where the loop is left.
abbrev pub Left : V6State → Bytes → Type 0
Left s w =
    ((s.ellipsis_i ≡ 8) × (s.i ≡ 8 → Ends w 8))
    ⊎ ((s.ellipsis_i < 8) × (s.i ≤ 8) × Split Ends s.ellipsis_i s.i w)

pub Inv-Left : (s : V6State) (w : Bytes) → Inv s w → Left s w
Inv-Left s w (l, inl (q, p)) = inl (q, λ e. of_pieces (subst (Pieces w) e p))
Inv-Left s w (l, inr (m, p)) = inr (
  m,
  l,
  record {
    front = p.front;
    back = p.back;
    n = p.n;
    before = p.before;
    behind = of_pieces p.behind;
    count = p.count;
    text = p.text;
  },
)

pub normal-Inv :
    (s : V6State) (w g : Bytes) (c : Bool) (segs : List ℕ)
    → Inv s w
    → s.i < 8
    → bool_eq c (s.i == 0 || s.i == s.ellipsis_i) ≡ false
    → IsH16 g
    → Inv (record { segs = segs; ellipsis_i = s.ellipsis_i; i = s.i + 1 }) (w ++ lead c g)
normal-Inv s w g c segs (l, inl (q, p)) m b h = (
  omega arith,
  inl (q, subst (Pieces (w ++ lead c g)) (omega arith) (add_piece c p (ground (arith, b, q, m)) h)),
)
normal-Inv s w g c segs (l, inr (k, p)) m b h =
    let count = p.count in
    (
      omega arith,
      inr (
        k,
        record {
          front = p.front;
          back = p.back ++ lead c g;
          n = suc p.n;
          before = p.before;
          behind = add_piece c p.behind (colon c s.i s.ellipsis_i p.n b count) h;
          count = omega (arith, count);
          text =
              ap (λ w. w ++ lead c g) p.text
              ∙ append_assoc p.front (b':' ∷ b':' ∷ p.back) (lead c g);
        },
      ),
    )
  where
    colon :
        (c : Bool) (i ell n : ℕ)
        → bool_eq c (i == 0 || i == ell) ≡ false
        → i ≡ ell + n
        → c ≡ not (n == 0)
    colon c i ell n b e = ground (arith, b, e)

pub ellipsis-Inv :
    (s : V6State) (w : Bytes)
    → Inv s w
    → s.i < 8
    → (s.ellipsis_i == 8) ≡ true
    → Inv (record { segs = s.segs; ellipsis_i = s.i; i = s.i }) (w ++ (b':' ∷ b':' ∷ []))
ellipsis-Inv s w (l, inl (q, p)) m b = (
  l,
  inr (
    m,
    record {
      front = w;
      back = [];
      n = 0;
      before = p;
      behind = no_piece;
      count = omega arith;
      text = refl;
    },
  ),
)
ellipsis-Inv s w (l, inr (k, p)) m b = absurd (ground (arith, b, k))

pub v4-Left :
    (s : V6State) (w v : Bytes) (c : Bool) (segs : List ℕ)
    → Inv s w
    → (ltb 6 s.i || bool_eq c (s.i == s.ellipsis_i)) ≡ false
    → IsIpv4 v
    → Left (record { segs = segs; ellipsis_i = s.ellipsis_i; i = s.i + 2 }) (w ++ lead c v)
v4-Left s w v c segs (l, inl (q, p)) b h =
    let colon : c ≡ true = ground (arith, b, q) in
    inl (q, λ e. rw colon (v4_behind {n = 5} (subst (Pieces w) (omega (arith, e)) p) h))
v4-Left s w v c segs (l, inr (k, p)) b h =
    let count = p.count in
    inr (
      k,
      ground (arith, b),
      record {
        front = p.front;
        back = p.back ++ lead c v;
        n = p.n + 2;
        before = p.before;
        behind = add_v4 c p.behind (colon c s.i s.ellipsis_i p.n b count) h;
        count = omega (arith, count);
        text =
            ap (λ w. w ++ lead c v) p.text ∙ append_assoc p.front (b':' ∷ b':' ∷ p.back) (lead c v);
      },
    )
  where
    colon :
        (c : Bool) (i ell n : ℕ)
        → (ltb 6 i || bool_eq c (i == ell)) ≡ false
        → i ≡ ell + n
        → c ≡ not (n == 0)
    colon c i ell n b e = ground (arith, b, e)

accepted_full : (s : V6State) → s.ellipsis_i ≡ 8 → is_some (finish_v6 s) ≡ true → s.i ≡ 8
unfolding finish_v6
accepted_full s q h = ground (arith, q, h)

accepted_fewer :
    (s : V6State) → s.ellipsis_i < 8 → is_some (finish_v6 s) ≡ true → (s.i == 8) ≡ false
unfolding finish_v6
accepted_fewer s m h = ground (arith, m, h)

-- Only an IPv6 address is accepted behind the loop.
pub finish_v6-IsIpv6 :
    (s : V6State) (w : Bytes) → Left s w → is_some (finish_v6 s) ≡ true → IsIpv6 w
finish_v6-IsIpv6 s w (inl (q, f)) h = full (f (accepted_full s q h))
finish_v6-IsIpv6 s w (inr (m, l, p)) h =
    let count = p.count in
    let less = accepted_fewer s m h in
    subst IsIpv6 (sym p.text) (compressed p.before p.behind (ground (arith, less, l, count)))
