-- ===== src/Reader/Total.antt =====
-- `read` and `read_str` of src/parser.rs on every input: what they take, or the error.
use fluent_uri_rs.Base.{
  ℕ, ◌+◌, ◌≤◌, true, false, [], ◌∷◌, ◌++◌, ◌==◌, Bytes, length, starts_with, length-append,
  Bool-cases, ==_iff, ◌≡◌, refl, ap, ◌∙◌, ◌⊎◌, inl, inr, arith,
}
use fluent_uri_rs.Error.{Result, ok, err, ParseErrorKind, invalid_octet, ◌>>=◌}
use fluent_uri_rs.Reader.{read, read_str}
use fluent_uri_rs.Reader.Reads.{is_nonempty, read-Valid, read-broken}
use fluent_uri_rs.Reader.Span.{Stops, Span, split}
use fluent_uri_rs.Reader.View.{at, read_str-hit, read_str-miss}
use fluent_uri_rs.Table.{Table, allows}
use fluent_uri_rs.Table.Laws.{IsTable}

-- The result is an error, at an index of at most `n`.
abbrev pub Fails : {A : Type 0} → ℕ → Result A → Type 0
Fails n res = (i : ℕ) × (k : ParseErrorKind) × (res ≡ err i k) × (i ≤ n)

pub Fails-by : {A : Type 0} {n : ℕ} {a b : Result A} → a ≡ b → Fails n b → Fails n a
Fails-by e (i, k, f, h) = (i, k, e ∙ f, h)

pub Fails-le : {A : Type 0} {n m : ℕ} {a : Result A} → n ≤ m → Fails n a → Fails m a
Fails-le h (i, k, f, g) = (i, k, f, omega (arith, h, g))

-- What follows an error is not run.
pub Fails-bind :
    {A B : Type 0} {n : ℕ} {a : Result A} (f : A → Result B) → Fails n a → Fails n (a >>= f)
Fails-bind f (i, k, e, h) = (i, k, ap (λ a. a >>= f) e, h)

-- How much is left behind a word.
pub length-splits : {l : Bytes} (w t : Bytes) → l ≡ w ++ t → length l ≡ length w + length t
length-splits w t e = ap length e ∙ length-append w t

-- The whole input, in front of and behind a word.
pub length-whole :
    (pre : Bytes) {l : Bytes} (w t : Bytes)
    → l ≡ w ++ t
    → length (pre ++ w) + length t ≡ length pre + length l
length-whole pre w t e = omega (arith, length-splits w t e, length-append pre w)

percent_stop : {t : Table} (l : Bytes) → IsTable t → t.allows_enc ≡ false → Stops t (b'%' ∷ l)
unfolding allows
percent_stop {t} l i e = rw e (ground (arith, i.percent))

-- Where the table allows no octets, every string is a valid word up to a stop.
pub plain_span : (t : Table) (l : Bytes) → IsTable t → t.allows_enc ≡ false → Span t l
plain_span t l i e = elim (split t l i) [
  | inl s ↦ s
  | inr b ↦ record {
    word = b.word;
    tail = b'%' ∷ b.tail;
    splits = b.splits;
    valid = b.valid;
    stops = percent_stop b.tail i e;
  }
]

pub read_total :
    (t : Table) (pre l : Bytes)
    → IsTable t
    → ((s : Span t l) × (read t (at pre l) ≡ ok (is_nonempty s.word, at (pre ++ s.word) s.tail)))
      ⊎ Fails (length pre + length l) (read t (at pre l))
read_total t pre l i = elim (split t l i) [
  | inl s ↦ inl (takes s)
  | inr b ↦ elim (Bool-cases t.allows_enc) [
    | inl e ↦ inr (
      length pre + length b.word,
      invalid_octet,
      ap (λ l. read t (at pre l)) b.splits ∙ read-broken pre b.tail e b.valid b.broken,
      omega (arith, length-splits b.word (b'%' ∷ b.tail) b.splits),
    )
    | inr e ↦ inl (takes (plain_span t l i e))
  ]
]
  where
    takes :
        (s : Span t l)
        → (s : Span t l) × (read t (at pre l) ≡ ok (is_nonempty s.word, at (pre ++ s.word) s.tail))
    takes s = (s, ap (λ l. read t (at pre l)) s.splits ∙ read-Valid pre s.tail i s.valid s.stops)

pub starts_with_cases :
    (c : ℕ) (l : Bytes) → ((t : Bytes) × (l ≡ c ∷ t)) ⊎ (starts_with l (c ∷ []) ≡ false)
starts_with_cases c [] = inr refl
starts_with_cases c (x ∷ l) = elim (Bool-cases (x == c)) [
  | inl e ↦ inl (l, ap (λ x. x ∷ l) ((==_iff x c).0 e))
  | inr e ↦ inr (rw e refl)
]

-- A byte is taken, or nothing.
pub read_str_total :
    (c : ℕ) (pre l : Bytes)
    → ((t : Bytes) × (l ≡ c ∷ t) × (read_str (c ∷ []) (at pre l) ≡ (true, at (pre ++ (c ∷ [])) t)))
      ⊎ (read_str (c ∷ []) (at pre l) ≡ (false, at pre l))
read_str_total c pre l = elim (starts_with_cases c l) [
  | inl (t, e) ↦ inl (t, e, ap (λ l. read_str (c ∷ []) (at pre l)) e ∙ read_str-hit pre (c ∷ []) t)
  | inr e ↦ inr (read_str-miss pre (c ∷ []) l e)
]
