-- ===== src/Resolver/Segments/Step.antt =====
-- One round of `remove_dot_segments` of src/resolver.rs, onto a directory.
use mathlib.Core.Path.{subst}
use fluent_uri_rs.Base.{
  ℕ, ◌+◌, true, false, none, some, [], ◌∷◌, ◌++◌, append_assoc, ◌==◌, Bytes, length, take,
  take-append, length-append, Bool-cases, ==_iff, ◌≡◌, ◌≢◌, refl, sym, ap, ◌∙◌, ◌⊎◌, inl, inr,
  arith,
}
use fluent_uri_rs.Base.Run.{done}
use fluent_uri_rs.Resolver.Segments.{
  SegKind, dot, double_dot, normal, strip_slash, classify_segment, rfind, push_segment,
}
use fluent_uri_rs.Table.{allows}
use fluent_uri_rs.Table.Consts
use fluent_uri_rs.Table.Validate.{Valid, nil, byte, octet, Valid-append}

-- The text begins, or ends, with a slash.
abbrev pub IsRooted : Bytes → Type 0
IsRooted buf = (m : Bytes) × (buf ≡ b'/' ∷ m)

abbrev pub IsClosed : Bytes → Type 0
IsClosed buf = (a : Bytes) × (buf ≡ a ++ (b'/' ∷ []))

rfind-closed : (a : Bytes) → rfind (a ++ (b'/' ∷ [])) ≡ some (length a)
unfolding rfind
rfind-closed [] = refl
rfind-closed (x ∷ a) = rw (rfind-closed a) (ap some (omega arith))

-- The last slash of a text.
abbrev pub HasSlash : Bytes → Type 0
HasSlash s =
    (b : Bytes) × (c : Bytes) × (rfind s ≡ some (length b))
    × (s ≡ b ++ (b'/' ∷ c))
    × (rfind c ≡ none)

pub rfind_cases : (s : Bytes) → (rfind s ≡ none) ⊎ HasSlash s
unfolding rfind
rfind_cases [] = inl refl
rfind_cases (x ∷ s) = elim (rfind_cases s) [
  | inr (b, c, e, f, g) ↦ inr (x ∷ b, c, rw e (ap some (omega arith)), ap (λ l. x ∷ l) f, g)
  | inl e ↦ elim (Bool-cases (x == b'/')) [
    | inl h ↦ inr ([], s, rw (e, h) refl, ap (λ x. x ∷ s) ((==_iff x b'/').0 h), e)
    | inr h ↦ inl (rw (e, h) refl)
  ]
]

pub rfind-rooted : (s : Bytes) → HasSlash (b'/' ∷ s)
unfolding rfind
rfind-rooted s = elim (rfind_cases s) [
  | inr (b, c, e, f, g) ↦ (b'/' ∷ b, c, rw e (ap some (omega arith)), ap (λ l. b'/' ∷ l) f, g)
  | inl e ↦ ([], s, rw e refl, refl, e)
]

pub take-behind : (b c : Bytes) → take (length b + 1) (b ++ (b'/' ∷ c)) ≡ b ++ (b'/' ∷ [])
take-behind b c =
    let n : length b + 1 ≡ length (b ++ (b'/' ∷ [])) = sym (length-append b (b'/' ∷ [])) in
    rw (n, ← append_assoc b (b'/' ∷ []) c, take-append (b ++ (b'/' ∷ [])) c) refl

-- The three kinds of segments.
dot_by :
    (buf seg : Bytes) {i : ℕ}
    → classify_segment (strip_slash seg) ≡ dot
    → rfind buf ≡ some i
    → push_segment buf seg ≡ done (take (i + 1) buf)
unfolding push_segment
dot_by buf seg k e = rw (push_segment, k, e) refl

normal_by :
    (buf seg : Bytes)
    → classify_segment (strip_slash seg) ≡ normal
    → push_segment buf seg ≡ done (buf ++ seg)
unfolding push_segment
normal_by buf seg k = rw (push_segment, k) refl

root_by :
    (buf seg : Bytes)
    → classify_segment (strip_slash seg) ≡ double_dot
    → (length buf == 1) ≡ true
    → push_segment buf seg ≡ done buf
unfolding push_segment
root_by buf seg k e = rw (push_segment, k, e) refl

parent_by :
    (buf seg : Bytes) {buf1 : Bytes} {i j : ℕ}
    → classify_segment (strip_slash seg) ≡ double_dot
    → (length buf == 1) ≡ false
    → rfind buf ≡ some i
    → take i buf ≡ buf1
    → rfind buf1 ≡ some j
    → push_segment buf seg ≡ done (take (j + 1) buf1)
unfolding push_segment
parent_by buf seg k e f t g = rw (push_segment, k, e, f, t, g) refl

-- The segment leaves a directory behind: it is closed, or a dot segment.
abbrev pub IsDir : Bytes → Type 0
IsDir seg = IsClosed seg ⊎ (classify_segment (strip_slash seg) ≢ normal)

-- A segment is added to a directory.
pub record Added (buf seg : Bytes) : Type 0 where
  pub out : Bytes
  pub added : push_segment buf seg ≡ done out
  pub rooted : IsRooted out
  pub closed : IsDir seg → IsClosed out
  pub valid : Valid Consts.path buf → Valid Consts.path seg → Valid Consts.path out

hex-slash : allows Consts.hexdig b'/' ≡ false
unfolding allows Consts.hexdig
hex-slash = refl

pub hex_slash_absurd : {x : ℕ} → x ≡ b'/' → allows Consts.hexdig x ≡ true → ⊥
hex_slash_absurd e h = let c : true ≡ false = sym h ∙ ap (allows Consts.hexdig) e ∙ hex-slash in cc

-- No octet has a slash in it, so what stands in front of one is valid.
pub before_slash :
    (b l : Bytes) {w : Bytes} → w ≡ b ++ (b'/' ∷ l) → Valid Consts.path w → Valid Consts.path b
before_slash [] l e v = nil
before_slash (y ∷ b) l e nil = absurd (let c = e in cc)
before_slash (y ∷ b) l e (byte {x} {w} n a v) =
    let same : x ≡ y = cc in
    let rest : w ≡ b ++ (b'/' ∷ l) = cc in rw (← same) (byte n a (before_slash b l rest v))
before_slash (y ∷ []) l e (octet {hi} {lo} {w} q h k v) =
    let second : hi ≡ b'/' = cc in absurd (hex_slash_absurd second h)
before_slash (y ∷ z ∷ []) l e (octet {hi} {lo} {w} q h k v) =
    let third : lo ≡ b'/' = cc in absurd (hex_slash_absurd third k)
before_slash (y ∷ z ∷ u ∷ b) l e (octet {hi} {lo} {w} q h k v) =
    let p : b'%' ≡ y = cc in
    let i : hi ≡ z = cc in
    let o : lo ≡ u = cc in
    let rest : w ≡ b ++ (b'/' ∷ l) = cc in
    rw (← p, ← i, ← o) (octet q h k (before_slash b l rest v))

pub slash_word : Valid Consts.path (b'/' ∷ [])
unfolding allows Consts.path
slash_word = byte refl refl nil

SegKind-cases : (k : SegKind) → (k ≡ dot) ⊎ (k ≡ double_dot) ⊎ (k ≡ normal)
SegKind-cases dot = inl refl
SegKind-cases double_dot = inr (inl refl)
SegKind-cases normal = inr (inr refl)

abbrev closed_text : Bytes → Bytes
closed_text a = a ++ (b'/' ∷ [])

front-IsRooted :
    {x : ℕ} {a : Bytes} (b c : Bytes)
    → x ≡ b'/'
    → x ∷ a ≡ b ++ (b'/' ∷ c)
    → IsRooted (closed_text b)
front-IsRooted [] c h g = ([], refl)
front-IsRooted (y ∷ b) c h g =
    let y_slash : y ≡ b'/' = cc in (closed_text b, ap (λ y. y ∷ closed_text b) y_slash)

add_parent :
    (a seg : Bytes)
    → IsRooted (closed_text a)
    → classify_segment (strip_slash seg) ≡ double_dot
    → Added (closed_text a) seg
add_parent [] seg r k = record {
  out = b'/' ∷ [];
  added = root_by (b'/' ∷ []) seg k (ground arith);
  rooted = r;
  closed = λ c. ([], refl);
  valid = λ v w. v;
}
add_parent (x ∷ a) seg (m, e) k =
    let h : x ≡ b'/' = cc in
    let (b, c, f, g, last) = subst (λ y. HasSlash (y ∷ a)) (sym h) (rfind-rooted a) in
    let longer : (length (closed_text (x ∷ a)) == 1) ≡ false =
      rw (length-append (x ∷ a) (b'/' ∷ [])) (ground arith) in
    record {
      out = closed_text b;
      added =
          parent_by (closed_text (x ∷ a)) seg k longer (rfind-closed (x ∷ a))
            (take-append (x ∷ a) (b'/' ∷ [])) f
          ∙ ap done (ap (take (length b + 1)) g ∙ take-behind b c);
      rooted = front-IsRooted b c h g;
      closed = λ c. (b, refl);
      valid = λ v w.
          Valid-append
            (before_slash b (c ++ (b'/' ∷ []))
              (ap closed_text g ∙ append_assoc b (b'/' ∷ c) (b'/' ∷ [])) v)
            slash_word;
    }

pub add_segment : (a seg : Bytes) → IsRooted (closed_text a) → Added (closed_text a) seg
add_segment a seg r = elim (SegKind-cases (classify_segment (strip_slash seg))) [
  | inl k ↦ record {
    out = closed_text a;
    added = dot_by (closed_text a) seg k (rfind-closed a) ∙ ap done (take-behind a []);
    rooted = r;
    closed = λ c. (a, refl);
    valid = λ v w. v;
  }
  | inr (inl k) ↦ add_parent a seg r k
  | inr (inr k) ↦ record {
    out = closed_text a ++ seg;
    added = normal_by (closed_text a) seg k;
    rooted = (r.0 ++ seg, ap (λ l. l ++ seg) r.1);
    closed = λ c. appended k c;
    valid = λ v w. Valid-append v w;
  }
]
  where
    appended :
        classify_segment (strip_slash seg) ≡ normal → IsDir seg → IsClosed (closed_text a ++ seg)
    appended k (inl (w, e)) = (
      closed_text a ++ w,
      ap (λ l. closed_text a ++ l) e ∙ sym (append_assoc (closed_text a) w (b'/' ∷ [])),
    )
    appended k (inr n) = absurd (n k)
