-- ===== src/Resolver/Paths.antt =====
-- The target's path in `resolve` of src/resolver.rs, where it is not taken over as it is.
use mathlib.Core.Path.{subst}
use fluent_uri_rs.Base.{
  ℕ, ◌+◌, none, some, [], ◌∷◌, ◌++◌, append_assoc, ◌==◌, Bytes, length, take, drop, length-append,
  drop-append, Bool-cases, ==_iff, ◌≡◌, refl, sym, ap, ◌∙◌, inl, inr,
}
use fluent_uri_rs.Base.Run.{Run, done}
use fluent_uri_rs.Resolver.{merge_base, merge_path, relative_path}
use fluent_uri_rs.Resolver.Segments.{
  SegKind, dot, double_dot, normal, classify_segment, rfind, split_inclusive, remove_dot_segments,
}
use fluent_uri_rs.Resolver.Segments.Pieces.{
  Ends, split_inclusive-Segs, split_inclusive-Ends, split_inclusive-AllValid, double_dot-Ends,
}
use fluent_uri_rs.Resolver.Segments.Rooted.{add_segments, removed, remove_rooted}
use fluent_uri_rs.Resolver.Segments.Step.{
  IsRooted, IsClosed, rfind-rooted, take-behind, before_slash, slash_word,
}
use fluent_uri_rs.Spec.{IsAbEmpty}
use fluent_uri_rs.Table.Consts
use fluent_uri_rs.Table.Validate.{Valid, byte, Valid-append}

-- The call returns a valid path that begins with a slash.
abbrev pub GivesPath : Run Bytes → Type 0
GivesPath r = (out : Bytes) × (r ≡ done out) × IsRooted out × Valid Consts.path out

GivesPath-by : {a b : Run Bytes} → a ≡ b → GivesPath b → GivesPath a
GivesPath-by e (out, r, g, v) = (out, e ∙ r, g, v)

behind_slash : {l : Bytes} → Valid Consts.path (b'/' ∷ l) → Valid Consts.path l
behind_slash (byte n a v) = v

pub absolute-GivesPath :
    (p : Bytes) → Valid Consts.path (b'/' ∷ p) → GivesPath (remove_dot_segments [] (b'/' ∷ p))
absolute-GivesPath p v =
    let m = removed p in
    (
      m.out,
      remove_rooted p ∙ m.runs,
      m.rooted,
      m.valid slash_word (split_inclusive-AllValid (behind_slash v)),
    )

-- A directory that the base path gives: it ends with a slash too.
abbrev GivesDir : Run Bytes → Type 0
GivesDir r = (out : Bytes) × (r ≡ done out) × IsRooted out × IsClosed out × Valid Consts.path out

GivesDir-by : {a b : Run Bytes} → a ≡ b → GivesDir b → GivesDir a
GivesDir-by e (out, r, g, c, v) = (out, e ∙ r, g, c, v)

base-GivesDir :
    (b c : Bytes)
    → IsRooted (b ++ (b'/' ∷ c))
    → Valid Consts.path (b ++ (b'/' ∷ c))
    → Ends (split_inclusive c)
    → GivesDir (remove_dot_segments [] (b ++ (b'/' ∷ c)))
base-GivesDir [] c r v e =
    let m = removed c in
    (
      m.out,
      remove_rooted c ∙ m.runs,
      m.rooted,
      m.closed e,
      m.valid slash_word (split_inclusive-AllValid (behind_slash v)),
    )
base-GivesDir (y ∷ b) c (t, r) v e =
    let slash : y ≡ b'/' = cc in
    let rest = b ++ (b'/' ∷ c) in
    let m = removed rest in
    let valid : Valid Consts.path (b'/' ∷ rest) =
      subst (λ y. Valid Consts.path (y ∷ rest)) slash v in
    (
      m.out,
      ap (λ y. remove_dot_segments [] (y ∷ rest)) slash ∙ remove_rooted rest ∙ m.runs,
      m.rooted,
      m.closed (split_inclusive-Ends b c e),
      m.valid slash_word (split_inclusive-AllValid (behind_slash valid)),
    )

-- The method on what it finds in the base path.
abbrev base_of : SegKind → Bytes → Bytes → Bytes
base_of k base_path stripped = elim k [ double_dot ↦ base_path | _ ↦ stripped ]

merge_by :
    (base_path : Bytes) {i : ℕ} {k : SegKind} {stripped : Bytes}
    → rfind base_path ≡ some i
    → classify_segment (drop (i + 1) base_path) ≡ k
    → take (i + 1) base_path ≡ stripped
    → merge_base base_path ≡ remove_dot_segments [] (base_of k base_path stripped)
unfolding merge_base
merge_by base_path {k} e f t =
    rw (merge_base, e, f) (ap (λ s. remove_dot_segments [] (base_of k base_path s)) t)

front-IsRooted :
    {x : ℕ} {a : Bytes} (b c : Bytes)
    → x ≡ b'/'
    → x ∷ a ≡ b ++ (b'/' ∷ c)
    → IsRooted (b ++ (b'/' ∷ []))
front-IsRooted [] c h g = ([], refl)
front-IsRooted (y ∷ b) c h g =
    let slash : y ≡ b'/' = cc in (b ++ (b'/' ∷ []), ap (λ y. y ∷ (b ++ (b'/' ∷ []))) slash)

drop_behind : (b c : Bytes) → drop (length b + 1) (b ++ (b'/' ∷ c)) ≡ c
drop_behind b c =
    let n : length b + 1 ≡ length (b ++ (b'/' ∷ [])) = sym (length-append b (b'/' ∷ [])) in
    rw (n, ← append_assoc b (b'/' ∷ []) c) (drop-append (b ++ (b'/' ∷ [])) c)

merge_base-GivesDir : (p : Bytes) → Valid Consts.path (b'/' ∷ p) → GivesDir (merge_base (b'/' ∷ p))
merge_base-GivesDir p v =
    let (b, c, e, f, last) = rfind-rooted p in
    let seg : drop (length b + 1) (b'/' ∷ p) ≡ c = ap (drop (length b + 1)) f ∙ drop_behind b c in
    let stripped : take (length b + 1) (b'/' ∷ p) ≡ b ++ (b'/' ∷ []) =
      ap (take (length b + 1)) f ∙ take-behind b c in
    let cut : Valid Consts.path (b ++ (b'/' ∷ [])) =
      Valid-append (before_slash b c f v) slash_word in
    let plain = base-GivesDir b [] (front-IsRooted b c refl f) cut (unfold split_inclusive in tt) in
    by_kind b c e f last stripped plain (classify_segment c) (ap classify_segment seg)
  where
    by_kind :
        (b c : Bytes)
        → rfind (b'/' ∷ p) ≡ some (length b)
        → b'/' ∷ p ≡ b ++ (b'/' ∷ c)
        → rfind c ≡ none
        → take (length b + 1) (b'/' ∷ p) ≡ b ++ (b'/' ∷ [])
        → GivesDir (remove_dot_segments [] (b ++ (b'/' ∷ [])))
        → (k : SegKind) → classify_segment (drop (length b + 1) (b'/' ∷ p)) ≡ k
        → GivesDir (merge_base (b'/' ∷ p))
    by_kind b c e f last stripped plain dot k = GivesDir-by (merge_by (b'/' ∷ p) e k stripped) plain
    by_kind b c e f last stripped plain normal k =
        GivesDir-by (merge_by (b'/' ∷ p) e k stripped) plain
    by_kind b c e f last stripped plain double_dot k =
        let kind : classify_segment c ≡ double_dot =
          ap classify_segment (sym (ap (drop (length b + 1)) f ∙ drop_behind b c)) ∙ k in
        GivesDir-by (merge_by (b'/' ∷ p) e k stripped ∙ ap (remove_dot_segments []) f) (
          base-GivesDir b c (p, sym f) (subst (Valid Consts.path) f v)
            (double_dot-Ends c last kind))

onto-GivesPath :
    (buf path : Bytes)
    → IsRooted buf
    → IsClosed buf
    → Valid Consts.path buf
    → Valid Consts.path path
    → GivesPath (remove_dot_segments buf path)
unfolding remove_dot_segments
onto-GivesPath buf path r c v w =
    let m = add_segments buf (split_inclusive path) (split_inclusive-Segs path) r c in
    (m.out, m.runs, m.rooted, m.valid v (split_inclusive-AllValid w))

merge_empty : (r_path : Bytes) → merge_path [] r_path ≡ remove_dot_segments (b'/' ∷ []) r_path
unfolding merge_path
merge_empty r_path = refl

merge_onto :
    (x : ℕ) (p r_path : Bytes) {buf : Bytes}
    → merge_base (x ∷ p) ≡ done buf
    → merge_path (x ∷ p) r_path ≡ remove_dot_segments buf r_path
unfolding merge_path
merge_onto x p r_path e = rw e refl

merge_path-GivesPath :
    (base_path r_path : Bytes)
    → IsAbEmpty base_path
    → Valid Consts.path base_path
    → Valid Consts.path r_path
    → GivesPath (merge_path base_path r_path)
merge_path-GivesPath [] r_path a v w =
    GivesPath-by (merge_empty r_path)
      (onto-GivesPath (b'/' ∷ []) r_path ([], refl) ([], refl) slash_word w)
merge_path-GivesPath (x ∷ p) r_path a v w =
    let (buf, f, r, c, u) = merge_base-GivesDir p (subst (λ x. Valid Consts.path (x ∷ p)) a v) in
    GivesPath-by (merge_onto x p r_path (ap (λ x. merge_base (x ∷ p)) a ∙ f))
      (onto-GivesPath buf r_path r c u w)

-- A valid path that is not empty, resolved against a valid base path that is empty or begins with a
-- slash, gives without a panic a valid path that begins with a slash.
pub relative_path-GivesPath :
    (base_path : Bytes) (x : ℕ) (p : Bytes)
    → IsAbEmpty base_path
    → Valid Consts.path base_path
    → Valid Consts.path (x ∷ p)
    → GivesPath (relative_path base_path (x ∷ p))
unfolding relative_path
relative_path-GivesPath base_path x p a v w = elim (Bool-cases (x == b'/')) [
  | inl s ↦
      let e = (==_iff x b'/').0 s in
      GivesPath-by (rw (relative_path, s) (ap (λ x. remove_dot_segments [] (x ∷ p)) e))
        (absolute-GivesPath p (subst (λ x. Valid Consts.path (x ∷ p)) e w))
  | inr s ↦ GivesPath-by (rw (relative_path, s) refl) (merge_path-GivesPath base_path (x ∷ p) a v w)
]
