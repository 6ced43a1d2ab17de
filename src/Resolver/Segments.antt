-- ===== src/Resolver/Segments.antt =====
-- `remove_dot_segments` and `classify_segment` of src/resolver.rs, and what they use of `str`.
pub mod Step
pub mod Pieces
pub mod Rooted
use fluent_uri_rs.Base.{
  ℕ, ◌+◌, not, ◌||◌, Option, none, some, List, [], ◌∷◌, ◌++◌, ◌==◌, if◌then◌else◌, Bytes, ascii,
  starts_with, bytes_eq, length, take, drop,
}
use fluent_uri_rs.Base.Run.{Run, done, ◌>>=◌, unwrap}

pub data SegKind : Type 0 where
  dot double_dot normal : SegKind

-- `seg` after the first `strip_prefix` that applies.
unfoldable pub strip_dot : Bytes → Bytes
strip_dot seg =
    if starts_with seg (ascii ".")
    then drop 1 seg
    else if starts_with seg (ascii "%2E")
    then drop 3 seg
    else if starts_with seg (ascii "%2e")
    then drop 3 seg
    else seg

-- What the last two tests of `classify_segment` say of the stripped segment.
unfoldable pub classify_rest : Bytes → SegKind
classify_rest [] = dot
classify_rest (x ∷ s) =
    if bytes_eq (x ∷ s) (ascii ".")
      || bytes_eq (x ∷ s) (ascii "%2E")
      || bytes_eq (x ∷ s) (ascii "%2e")
    then double_dot
    else normal

unfoldable pub classify_segment : Bytes → SegKind
unfolding strip_dot classify_rest
classify_segment [] = normal
classify_segment (x ∷ s) = classify_rest (strip_dot (x ∷ s))

-- `str::rfind('/')`
unfoldable pub rfind : Bytes → Option ℕ
rfind [] = none
rfind (x ∷ s) = elim (rfind s) [ some i ↦ some (i + 1) | none ↦ if x == b'/' then some 0 else none ]

-- A byte in front of the first piece.
cons_piece : ℕ → List Bytes → List Bytes
cons_piece x [] = (x ∷ []) ∷ []
cons_piece x (p ∷ ps) = (x ∷ p) ∷ ps

-- `str::split_inclusive('/')`
unfoldable pub split_inclusive : Bytes → List Bytes
unfolding cons_piece
split_inclusive [] = []
split_inclusive (x ∷ s) =
    let ps = split_inclusive s in if x == b'/' then (x ∷ []) ∷ ps else cons_piece x ps

-- `seg.strip_suffix('/').unwrap_or(seg)`
unfoldable pub strip_slash : Bytes → Bytes
strip_slash [] = []
strip_slash (x ∷ []) = if x == b'/' then [] else x ∷ []
strip_slash (x ∷ y ∷ s) = x ∷ strip_slash (y ∷ s)

-- One round of `remove_dot_segments`.
unfoldable pub push_segment : Bytes → Bytes → Run Bytes
push_segment buf seg = elim (classify_segment (strip_slash seg)) [
  | dot ↦ (unwrap (rfind buf) >>= λ i. done (take (i + 1) buf))
  | double_dot ↦
      if not (length buf == 1)
      then (do
        i ← unwrap (rfind buf)
        let buf1 = take i buf
        j ← unwrap (rfind buf1)
        done (take (j + 1) buf1))
      else done buf
  | normal ↦ done (buf ++ seg)
]

unfoldable pub push_segments : Bytes → List Bytes → Run Bytes
unfolding push_segment
push_segments buf [] = done buf
push_segments buf (seg ∷ segs) = push_segment buf seg >>= λ buf1. push_segments buf1 segs

-- The result is the whole of `buf`.
unfoldable pub remove_dot_segments : Bytes → Bytes → Run Bytes
unfolding push_segments
remove_dot_segments buf path = push_segments buf (split_inclusive path)
