-- ===== src/Reader/View.antt =====
-- A reader between what it has passed and what is left, and what the methods do there.
use fluent_uri_rs.Base.{
  ℕ, suc, ◌+◌, true, false, [], ◌∷◌, ◌++◌, append-nil, append_assoc, Bytes, starts_with, length,
  get_elem?, length-append, drop-append, ◌≡◌, refl, ap, arith,
}
use fluent_uri_rs.Reader.{Reader, skip, remaining, peek, has_remaining, read_str}

-- The reader behind `pre`, with `l` left.
abbrev pub at : Bytes → Bytes → Reader
at pre l = record { bytes = pre ++ l; pos = length pre }

pub get_elem?-append :
    (pre l : Bytes) (i : ℕ) → get_elem? (pre ++ l) (length pre + i) ≡ get_elem? l i
get_elem?-append [] l i = ap (get_elem? l) (omega arith)
get_elem?-append (x ∷ pre) l i =
    let e : suc (length pre) + i ≡ suc (length pre + i) = omega arith in
    rw e (get_elem?-append pre l i)

pub remaining-at : (pre l : Bytes) → remaining (at pre l) ≡ l
remaining-at pre l = drop-append pre l

pub at-skip : (pre w l : Bytes) → skip (length w) (at pre (w ++ l)) ≡ at (pre ++ w) l
at-skip pre w l = rw (append_assoc, length-append)

pub peek-at : (pre l : Bytes) (i : ℕ) → peek (at pre l) i ≡ get_elem? l i
unfolding peek
peek-at pre l i = get_elem?-append pre l i

pub has_remaining-at_nil : (pre : Bytes) → has_remaining (at pre []) ≡ false
unfolding has_remaining
has_remaining-at_nil pre = rw append-nil (ground arith)

pub has_remaining-at_cons :
    (pre : Bytes) (x : ℕ) (l : Bytes) → has_remaining (at pre (x ∷ l)) ≡ true
unfolding has_remaining
has_remaining-at_cons pre x l = rw length-append (ground arith)

pub starts_with-append : (s l : Bytes) → starts_with (s ++ l) s ≡ true
starts_with-append [] [] = refl
starts_with-append [] (x ∷ l) = refl
starts_with-append (c ∷ s) l = ground (arith, starts_with-append s l)

pub read_str-hit : (pre s l : Bytes) → read_str s (at pre (s ++ l)) ≡ (true, at (pre ++ s) l)
unfolding read_str
read_str-hit pre s l = rw (remaining-at, starts_with-append, at-skip)

pub read_str-miss :
    (pre s l : Bytes) → starts_with l s ≡ false → read_str s (at pre l) ≡ (false, at pre l)
unfolding read_str
read_str-miss pre s l h = rw (remaining-at, h)
