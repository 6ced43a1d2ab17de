-- ===== src/Reader/V4Octet.antt =====
-- The octets of an IPv4 address in src/parser.rs, and the texts that `Reader` runs over.
use mathlib.Core.Path.{subst}
use fluent_uri_rs.Grammar
use fluent_uri_rs.Grammar.{IsOctet}
use fluent_uri_rs.Base.{
  Bool, ==_iff, ℕ, ◌+◌, ◌-◌, ◌*◌, true, false, ◌||◌, Option, none, some, [], ◌∷◌, ◌++◌, append-nil,
  leb, ◌==◌, if◌then◌else◌, Bytes, get_elem?, is_ascii_digit, Bool-cases, ◌≡◌, refl, ◌∙◌, inl, inr,
  arith,
}
use fluent_uri_rs.Reader.{Reader, skip, to_digit, peek_digit}
use fluent_uri_rs.Reader.V4.{read_v4_octet}
use fluent_uri_rs.Reader.View.{at, get_elem?-append, at-skip}

-- Neither a digit nor a dot comes next.
abbrev pub V4Stops : Bytes → Type 0
V4Stops [] = Unit
V4Stops (x ∷ l) = (is_ascii_digit x ≡ false) × ((x == b'.') ≡ false)

abbrev pub IsDotted : Bytes → Type 0
IsDotted [] = Unit
IsDotted (x ∷ w) = ((is_ascii_digit x || x == b'.') ≡ true) × IsDotted w

pub IsDotted-append : (v w : Bytes) → IsDotted v → IsDotted w → IsDotted (v ++ w)
IsDotted-append [] w a b = b
IsDotted-append (x ∷ v) w (d, a) b = (d, IsDotted-append v w a b)

-- On `h`, in front of a stop, the method returns `res` and passes over `front`, of which `P` holds.
pub record Runs (P : Option ℕ → Bytes → Type 0) (op : Reader → Option ℕ × Reader) (h : Bytes)
    : Type 0 where
  pub res : Option ℕ
  pub front : Bytes
  pub back : Bytes
  pub splits : h ≡ front ++ back
  pub dotted : IsDotted front
  pub shape : P res front
  pub runs :
      (pre tail : Bytes)
      → V4Stops tail
      → op (at pre (h ++ tail)) ≡ (res, at (pre ++ front) (back ++ tail))

-- Where an octet is returned, it has been passed over.
abbrev pub OctetShape : Option ℕ → Bytes → Type 0
OctetShape none w = Unit
OctetShape (some n) w = IsOctet n w

abbrev digit_of : Option ℕ → Option ℕ
digit_of none = none
digit_of (some x) = to_digit x

peek_digit-at : (pre l : Bytes) (i : ℕ) → peek_digit (at pre l) i ≡ digit_of (get_elem? l i)
unfolding peek_digit
peek_digit-at pre l i = rw (get_elem?-append pre l i, peek_digit)

-- The method on the three bytes that it looks at.
abbrev octet_by : Reader → Option ℕ → Option ℕ → Option ℕ → Option ℕ × Reader
octet_by r none d1 d2 = (none, r)
octet_by r (some res) d1 d2 = if res == 0 then (some 0, skip 1 r) else elim d1 [
  | none ↦ (some res, skip 1 r)
  | some x ↦ elim d2 [
    | none ↦ (some (res * 10 + x), skip 2 r)
    | some y ↦ (
      if leb ((res * 10 + x) * 10 + y) 255 then some ((res * 10 + x) * 10 + y) else none,
      skip 3 r,
    )
  ]
]

octet_by_lem :
    (r : Reader) → read_v4_octet r ≡ octet_by r (peek_digit r 0) (peek_digit r 1) (peek_digit r 2)
unfolding read_v4_octet
octet_by_lem r = ground arith

octet-at :
    (pre l : Bytes)
    → read_v4_octet (at pre l)
      ≡ octet_by
          (at pre l)
          (digit_of (get_elem? l 0))
          (digit_of (get_elem? l 1))
          (digit_of (get_elem? l 2))
octet-at pre l =
    octet_by_lem (at pre l)
    ∙ rw (peek_digit-at pre l 0, peek_digit-at pre l 1, peek_digit-at pre l 2)

no_digit : (tail : Bytes) → V4Stops tail → digit_of (get_elem? tail 0) ≡ none
no_digit [] s = refl
no_digit (x ∷ l) s = rw s.0

abbrev EndsHere : Bytes → Type 0
EndsHere h = (tail : Bytes) → V4Stops tail → digit_of (get_elem? (h ++ tail) 0) ≡ none

octet_none : (h : Bytes) → EndsHere h → Runs OctetShape read_v4_octet h
octet_none h e = record {
  res = none;
  front = [];
  back = h;
  splits = refl;
  dotted = tt;
  shape = tt;
  runs = λ pre tail s. octet-at pre (h ++ tail) ∙ rw (e tail s, append-nil pre);
}

module _ (x : ℕ) (dx : is_ascii_digit x ≡ true) where
  octet_zero : (h : Bytes) → (x - 48 == 0) ≡ true → Runs OctetShape read_v4_octet (x ∷ h)
  octet_zero h z = record {
    res = some 0;
    front = x ∷ [];
    back = h;
    splits = refl;
    dotted = (rw dx, tt);
    shape = subst (λ n. IsOctet n (x ∷ [])) ((==_iff (x - 48) 0).0 z) (Grammar.octet_one dx);
    runs =
        λ pre tail s. octet-at pre (x ∷ (h ++ tail)) ∙ rw (dx, z, at-skip pre (x ∷ []) (h ++ tail));
  }

  module _ (nz : (x - 48 == 0) ≡ false) where
    octet_one : (h : Bytes) → EndsHere h → Runs OctetShape read_v4_octet (x ∷ h)
    octet_one h e = record {
      res = some (x - 48);
      front = x ∷ [];
      back = h;
      splits = refl;
      dotted = (rw dx, tt);
      shape = Grammar.octet_one dx;
      runs = λ pre tail s.
          octet-at pre (x ∷ (h ++ tail)) ∙ rw (dx, nz, e tail s, at-skip pre (x ∷ []) (h ++ tail));
    }

    octet_two :
        (y : ℕ) (h : Bytes)
        → is_ascii_digit y ≡ true
        → EndsHere h
        → Runs OctetShape read_v4_octet (x ∷ y ∷ h)
    octet_two y h dy e = record {
      res = some ((x - 48) * 10 + (y - 48));
      front = x ∷ y ∷ [];
      back = h;
      splits = refl;
      dotted = (rw dx, (rw dy, tt));
      shape = Grammar.octet_two dx (ground (arith, nz)) dy;
      runs = λ pre tail s.
          octet-at pre (x ∷ y ∷ (h ++ tail))
          ∙ rw (dx, nz, dy, e tail s, at-skip pre (x ∷ y ∷ []) (h ++ tail));
    }

    octet_three :
        (y z : ℕ) (h : Bytes)
        → is_ascii_digit y ≡ true
        → is_ascii_digit z ≡ true
        → Runs OctetShape read_v4_octet (x ∷ y ∷ z ∷ h)
    octet_three y z h dy dz =
        let n = ((x - 48) * 10 + (y - 48)) * 10 + (z - 48) in
        record {
          res = if leb n 255 then some n else none;
          front = x ∷ y ∷ z ∷ [];
          back = h;
          splits = refl;
          dotted = (rw dx, (rw dy, (rw dz, tt)));
          shape = small (leb n 255) refl;
          runs = λ pre tail s.
              octet-at pre (x ∷ y ∷ z ∷ (h ++ tail))
              ∙ rw (dx, nz, dy, dz, at-skip pre (x ∷ y ∷ z ∷ []) (h ++ tail));
        }
      where
        small :
            (b : Bool)
            → leb (((x - 48) * 10 + (y - 48)) * 10 + (z - 48)) 255 ≡ b
            → OctetShape
                (if b then some (((x - 48) * 10 + (y - 48)) * 10 + (z - 48)) else none)
                (x ∷ y ∷ z ∷ [])
        small true e = Grammar.octet_three dx (ground (arith, nz)) dy dz (ground (arith, e))
        small false e = tt

not_digit : (x : ℕ) (h : Bytes) → is_ascii_digit x ≡ false → EndsHere (x ∷ h)
not_digit x h n tail s = rw n

pub octet-Runs : (h : Bytes) → Runs OctetShape read_v4_octet h
octet-Runs [] = octet_none [] no_digit
octet-Runs (x ∷ h) = elim (Bool-cases (is_ascii_digit x)) [
  | inr n ↦ octet_none (x ∷ h) (not_digit x h n)
  | inl dx ↦ elim (Bool-cases (x - 48 == 0)) [
    | inl z ↦ octet_zero x dx h z
    | inr nz ↦ second h dx nz
  ]
]
  where
    third :
        (y : ℕ) (g : Bytes)
        → is_ascii_digit x ≡ true
        → (x - 48 == 0) ≡ false
        → is_ascii_digit y ≡ true
        → Runs OctetShape read_v4_octet (x ∷ y ∷ g)
    third y [] dx nz dy = octet_two x dx nz y [] dy no_digit
    third y (z ∷ g) dx nz dy = elim (Bool-cases (is_ascii_digit z)) [
      | inl dz ↦ octet_three x dx nz y z g dy dz
      | inr n ↦ octet_two x dx nz y (z ∷ g) dy (not_digit z g n)
    ]

    second :
        (g : Bytes)
        → is_ascii_digit x ≡ true
        → (x - 48 == 0) ≡ false
        → Runs OctetShape read_v4_octet (x ∷ g)
    second [] dx nz = octet_one x dx nz [] no_digit
    second (y ∷ g) dx nz = elim (Bool-cases (is_ascii_digit y)) [
      | inl dy ↦ third y g dx nz dy
      | inr n ↦ octet_one x dx nz (y ∷ g) (not_digit y g n)
    ]
