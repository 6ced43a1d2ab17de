-- ===== src/Reader/V4Runs.antt =====
-- `read_v4` of src/parser.rs in front of what is neither a digit nor a dot.
use mathlib.Core.Path.{subst}
use fluent_uri_rs.Grammar.{IsOctet, IsParts, IsIpv4, no_parts, part, ipv4_text}
use fluent_uri_rs.Base.{
  ℕ, zero, suc, ◌*◌, ◌^◌, bit_or, true, false, Option, none, some, [], ◌∷◌, ◌++◌, append-nil,
  append_assoc, ◌==◌, Bytes, starts_with, Bool-cases, Option-cases, ==_iff, ◌≡◌, refl, sym, ap, ◌∙◌,
  inl, inr,
}
use fluent_uri_rs.Reader.{Reader, read_str}
use fluent_uri_rs.Reader.V4.{read_v4_octet, read_v4_parts, read_v4}
use fluent_uri_rs.Reader.View.{at, read_str-hit, read_str-miss}
use fluent_uri_rs.Reader.V4Octet.{V4Stops, IsDotted-append, Runs, OctetShape, octet-Runs}

abbrev PartsShape : ℕ → Option ℕ → Bytes → Type 0
PartsShape i none w = Unit
PartsShape i (some a) w = IsParts i w

abbrev pub V4Shape : Option ℕ → Bytes → Type 0
V4Shape none w = Unit
V4Shape (some a) w = IsIpv4 w

parts_shape :
    (i : ℕ) {n : ℕ} {u : Bytes} (s : Bytes) (o : Option ℕ)
    → IsOctet n u
    → PartsShape i o s
    → PartsShape (suc i) o (b'.' ∷ (u ++ s))
parts_shape i s none a b = tt
parts_shape i s (some r) a b = part a b

v4_shape :
    {n : ℕ} {u : Bytes} (s : Bytes) (o : Option ℕ)
    → IsOctet n u
    → PartsShape 3 o s
    → V4Shape o (u ++ s)
v4_shape s none a b = tt
v4_shape s (some r) a b = ipv4_text a b

-- The loop over the other three octets.
parts-none :
    (i addr : ℕ) (h : Bytes)
    → ((tail : Bytes) → V4Stops tail → starts_with (h ++ tail) (b'.' ∷ []) ≡ false)
    → Runs (PartsShape (suc i)) (read_v4_parts (suc i) addr) h
parts-none i addr h e = record {
  res = none;
  front = [];
  back = h;
  splits = refl;
  dotted = tt;
  shape = tt;
  runs = λ pre tail s.
      unfold read_v4_parts in
      rw (read_str-miss pre (b'.' ∷ []) (h ++ tail) (e tail s), append-nil pre);
}

no_dot : (tail : Bytes) → V4Stops tail → starts_with tail (b'.' ∷ []) ≡ false
no_dot [] s = refl
no_dot (x ∷ l) s = rw s.1

-- The octet's run, with its result known.
octet_step :
    (h : Bytes) (o : Runs OctetShape read_v4_octet h) {r : Option ℕ}
    → o.res ≡ r
    → (pre tail : Bytes) → V4Stops tail
    → read_v4_octet (at pre (h ++ tail)) ≡ (r, at (pre ++ o.front) (o.back ++ tail))
octet_step h o e pre tail s =
    o.runs pre tail s ∙ ap (λ r. (r, at (pre ++ o.front) (o.back ++ tail))) e

-- One round, after a dot.
parts-stop :
    (i addr : ℕ) (r r1 r2 : Reader)
    → read_str (b'.' ∷ []) r ≡ (true, r1)
    → read_v4_octet r1 ≡ (none, r2)
    → read_v4_parts (suc i) addr r ≡ (none, r2)
unfolding read_v4_parts
parts-stop i addr r r1 r2 e f = rw (e, f)

parts-next :
    (i addr n : ℕ) (r r1 r2 : Reader)
    → read_str (b'.' ∷ []) r ≡ (true, r1)
    → read_v4_octet r1 ≡ (some n, r2)
    → read_v4_parts (suc i) addr r ≡ read_v4_parts i (bit_or addr (n * 2 ^ (i * 8))) r2
unfolding read_v4_parts
parts-next i addr n r r1 r2 e f = rw (e, f)

v4-stop : (r r1 : Reader) → read_v4_octet r ≡ (none, r1) → read_v4 r ≡ (none, r1)
unfolding read_v4
v4-stop r r1 e = rw e

v4-next :
    (n : ℕ) (r r1 : Reader)
    → read_v4_octet r ≡ (some n, r1)
    → read_v4 r ≡ read_v4_parts 3 (n * 2 ^ 24) r1
unfolding read_v4
v4-next n r r1 e = rw e

-- A dot, and an octet that ends the run or leaves the rest to `more`.
parts-dot :
    (i addr : ℕ) (h : Bytes) (o : Runs OctetShape read_v4_octet h)
    → ((n : ℕ) → Runs (PartsShape i) (read_v4_parts i (bit_or addr (n * 2 ^ (i * 8)))) o.back)
    → Runs (PartsShape (suc i)) (read_v4_parts (suc i) addr) (b'.' ∷ h)
parts-dot i addr h o more = elim (Option-cases o.res) [
  | inl e ↦ record {
    res = none;
    front = b'.' ∷ o.front;
    back = o.back;
    splits = ap (◌∷◌ b'.') o.splits;
    dotted = (refl, o.dotted);
    shape = tt;
    runs = λ pre tail s.
        parts-stop i addr _ _ _ (read_str-hit pre (b'.' ∷ []) (h ++ tail))
          (octet_step h o e (pre ++ (b'.' ∷ [])) tail s)
        ∙ rw (append_assoc pre (b'.' ∷ []) o.front);
  }
  | inr (n, e) ↦
      let m = more n in
      record {
        res = m.res;
        front = b'.' ∷ (o.front ++ m.front);
        back = m.back;
        splits = ap (◌∷◌ b'.') (
            o.splits ∙ ap (λ l. o.front ++ l) m.splits ∙ sym (append_assoc o.front m.front m.back));
        dotted = (refl, IsDotted-append o.front m.front o.dotted m.dotted);
        shape = parts_shape i m.front m.res (subst (λ r. OctetShape r o.front) e o.shape) m.shape;
        runs = λ pre tail s.
            parts-next i addr n _ _ _ (read_str-hit pre (b'.' ∷ []) (h ++ tail))
              (octet_step h o e (pre ++ (b'.' ∷ [])) tail s)
            ∙ m.runs ((pre ++ (b'.' ∷ [])) ++ o.front) tail s
            ∙ rw (
              append_assoc (pre ++ (b'.' ∷ [])) o.front m.front,
              append_assoc pre (b'.' ∷ []) (o.front ++ m.front),
            );
      }
]

parts-Runs : (i addr : ℕ) (h : Bytes) → Runs (PartsShape i) (read_v4_parts i addr) h
parts-Runs zero addr h = record {
  res = some addr;
  front = [];
  back = h;
  splits = refl;
  dotted = tt;
  shape = no_parts;
  runs = λ pre tail s. unfold read_v4_parts in rw (append-nil pre);
}
parts-Runs (suc i) addr [] = parts-none i addr [] no_dot
parts-Runs (suc i) addr (x ∷ h) = elim (Bool-cases (x == b'.')) [
  | inl d ↦ rw ((==_iff x _).0 d) (
      let o = octet-Runs h in
      parts-dot i addr h o (λ n. parts-Runs i (bit_or addr (n * 2 ^ (i * 8))) o.back))
  | inr n ↦ parts-none i addr (x ∷ h) (λ tail s. rw n)
]

pub v4-Runs : (h : Bytes) → Runs V4Shape read_v4 h
v4-Runs h =
    let o = octet-Runs h in
    elim (Option-cases o.res) [
      | inl e ↦ record {
        res = none;
        front = o.front;
        back = o.back;
        splits = o.splits;
        dotted = o.dotted;
        shape = tt;
        runs = λ pre tail s. v4-stop _ _ (octet_step h o e pre tail s);
      }
      | inr (n, e) ↦
          let m = parts-Runs 3 (n * 2 ^ 24) o.back in
          record {
            res = m.res;
            front = o.front ++ m.front;
            back = m.back;
            splits =
                o.splits
                ∙ ap (λ l. o.front ++ l) m.splits
                ∙ sym (append_assoc o.front m.front m.back);
            dotted = IsDotted-append o.front m.front o.dotted m.dotted;
            shape = v4_shape m.front m.res (subst (λ r. OctetShape r o.front) e o.shape) m.shape;
            runs = λ pre tail s.
                v4-next n _ _ (octet_step h o e pre tail s)
                ∙ m.runs (pre ++ o.front) tail s
                ∙ rw (append_assoc pre o.front m.front);
          }
    ]
