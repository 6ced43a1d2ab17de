-- ===== src/Reader/V6/Rounds.antt =====
-- The rounds of `read_v6` of src/parser.rs, in front of the end of the input, or of a byte that no address contains.
use fluent_uri_rs.Base.{
  ◌<◌, Bool, false, [], ◌++◌, append-nil, append_assoc, Bytes, ◌≡◌, refl, sym, ap, ◌∙◌,
}
use fluent_uri_rs.Reader.{Reader}
use fluent_uri_rs.Reader.V6.{V6State, V6Loop, returned_none, left, no_fuel}
use fluent_uri_rs.Reader.V6.Runs.{TailIs, Passes}
use fluent_uri_rs.Reader.V6.Shapes.{Inv, Left}
use fluent_uri_rs.Reader.View.{at}

-- How the loop ends, but for the reader.
pub data Outcome : Type 0 where
  gives_up : Outcome
  leaves : V6State → Outcome
  lacks_fuel : Outcome

abbrev pub outcome : Outcome → Reader → V6Loop
outcome gives_up r = returned_none r
outcome (leaves s) r = left s r
outcome lacks_fuel r = no_fuel

-- On `h`, in front of such a tail, the loop ends with `res`, and passes over `front`, of which `Q`
-- holds.
pub record Rounds (e : Bool) (Q : Outcome → Bytes → Type 0) (op : Reader → V6Loop) (h : Bytes)
    : Type 0 where
  pub res : Outcome
  pub front : Bytes
  pub back : Bytes
  pub splits : h ≡ front ++ back
  pub shape : Q res front
  pub runs :
      (pre tail : Bytes)
      → TailIs e tail
      → op (at pre (h ++ tail)) ≡ outcome res (at (pre ++ front) (back ++ tail))

pub stays :
    {e : Bool} {Q : Outcome → Bytes → Type 0} {op : Reader → V6Loop} (h : Bytes) (o : Outcome)
    → Q o []
    → ((r : Reader) → op r ≡ outcome o r)
    → Rounds e Q op h
stays h o q f = record {
  res = o;
  front = [];
  back = h;
  splits = refl;
  shape = q;
  runs = λ pre tail t. rw (append-nil pre) (f (at pre (h ++ tail)));
}

pub same :
    {e : Bool} {Q Q' : Outcome → Bytes → Type 0} {op op' : Reader → V6Loop} {h : Bytes}
    → ((o : Outcome) (w : Bytes) → Q' o w → Q o w)
    → ((r : Reader) → op r ≡ op' r)
    → Rounds e Q' op' h
    → Rounds e Q op h
same g f m = record {
  res = m.res;
  front = m.front;
  back = m.back;
  splits = m.splits;
  shape = g m.res m.front m.shape;
  runs = λ pre tail t. f _ ∙ m.runs pre tail t;
}

-- A method, and what is done with its result.
pub behind :
    {A : Type 0} {e : Bool} {P : A → Bytes → Type 0} {Q Q' : Outcome → Bytes → Type 0}
    {op : Reader → A × Reader} {h : Bytes} (next : A → Reader → V6Loop) {op' : Reader → V6Loop}
    (m : Passes e P op h)
    → ((o : Outcome) (w : Bytes) → Q' o w → Q o (m.front ++ w))
    → ((r : Reader) (a : A) (r' : Reader) → op r ≡ (a, r') → op' r ≡ next a r')
    → Rounds e Q' (next m.res) m.back
    → Rounds e Q op' h
behind next m g f k = record {
  res = k.res;
  front = m.front ++ k.front;
  back = k.back;
  splits = m.splits ∙ ap (λ l. m.front ++ l) k.splits ∙ sym (append_assoc m.front k.front k.back);
  shape = g k.res k.front k.shape;
  runs = λ pre tail t.
      f _ _ _ (m.runs pre tail t)
      ∙ k.runs (pre ++ m.front) tail t
      ∙ ap (λ l. outcome k.res (at l (k.back ++ tail))) (append_assoc pre m.front k.front);
}

-- What has been passed over where the loop is left, `w` before the rounds and `f` in them.
abbrev pub Leaves : Outcome → Bytes → Type 0
Leaves gives_up w = Unit
Leaves (leaves s) w = Left s w
Leaves lacks_fuel w = Unit

abbrev pub LoopShape : Bool → V6State → Outcome → Bytes → Type 0
LoopShape e s o f = e ≡ false → (w : Bytes) → Inv s w → Leaves o (w ++ f)

-- The same in a round, behind the segment `f0`.
abbrev pub RoundShape : Bool → V6State → Bytes → Outcome → Bytes → Type 0
RoundShape e s f0 o f = e ≡ false → (w : Bytes) → Inv s w → s.i < 8 → Leaves o (w ++ (f0 ++ f))
