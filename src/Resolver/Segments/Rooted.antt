-- ===== src/Resolver/Segments/Rooted.antt =====
-- `remove_dot_segments` of src/resolver.rs on an absolute path, and its calls of `unwrap`.
use mathlib.Core.Path.{subst}
use fluent_uri_rs.Base.{List, [], ◌∷◌, Bytes, ◌≡◌, refl, sym, ◌∙◌, inl}
use fluent_uri_rs.Base.Run.{done}
use fluent_uri_rs.Resolver.Segments.{
  strip_slash, classify_segment, split_inclusive, push_segment, push_segments, remove_dot_segments,
}
use fluent_uri_rs.Table.Consts
use fluent_uri_rs.Table.Validate.{Valid}
use fluent_uri_rs.Resolver.Segments.Pieces.{
  Segs, no_more, last, more, split_inclusive-Segs, Ends, Ends-tail, AllValid,
}
use fluent_uri_rs.Resolver.Segments.Step.{IsRooted, IsClosed, Added, add_segment}

segments_by :
    (buf seg : Bytes) (segs : List Bytes) {buf1 : Bytes}
    → push_segment buf seg ≡ done buf1
    → push_segments buf (seg ∷ segs) ≡ push_segments buf1 segs
unfolding push_segments
segments_by buf seg segs e = rw e refl

-- Onto a directory, all segments can be added.
pub record Removed (buf : Bytes) (segs : List Bytes) : Type 0 where
  pub out : Bytes
  pub runs : push_segments buf segs ≡ done out
  pub rooted : IsRooted out
  pub closed : Ends segs → IsClosed out
  pub valid : Valid Consts.path buf → AllValid segs → Valid Consts.path out

add_one : (buf s : Bytes) → IsRooted buf → IsClosed buf → Added buf s
add_one buf s r (a, e) = subst (λ b. Added b s) (sym e) (add_segment a s (subst IsRooted e r))

pub add_segments :
    (buf : Bytes) (segs : List Bytes) → Segs segs → IsRooted buf → IsClosed buf → Removed buf segs
unfolding push_segments
add_segments buf [] no_more r c = record {
  out = buf;
  runs = refl;
  rooted = r;
  closed = λ e. c;
  valid = λ v w. v;
}
add_segments buf segs (last s) r c =
    let step = add_one buf s r c in
    record {
      out = step.out;
      runs = segments_by buf s [] step.added;
      rooted = step.rooted;
      closed = step.closed;
      valid = λ v w. step.valid v w.0;
    }
add_segments buf (s ∷ ss) (more cs v) r c =
    let step = add_one buf s r c in
    let rest = add_segments step.out ss v step.rooted (step.closed (inl cs)) in
    record {
      out = rest.out;
      runs = segments_by buf s ss step.added ∙ rest.runs;
      rooted = rest.rooted;
      closed = λ e. rest.closed (Ends-tail s ss e);
      valid = λ v w. rest.valid (step.valid v w.0) w.1;
    }

-- Onto a text that begins and ends with a slash, every path can be added segment by segment without
-- a panic, dot segments included, and the result begins with a slash.
pub remove_dot_segments-onto :
    (buf path : Bytes)
    → IsRooted buf
    → IsClosed buf
    → (out : Bytes) × (remove_dot_segments buf path ≡ done out) × IsRooted out
unfolding remove_dot_segments
remove_dot_segments-onto buf path r c =
    let m = add_segments buf (split_inclusive path) (split_inclusive-Segs path) r c in
    (m.out, m.runs, m.rooted)

-- The first slash is pushed onto the empty text.
pub remove_rooted :
    (path : Bytes)
    → remove_dot_segments [] (b'/' ∷ path) ≡ push_segments (b'/' ∷ []) (split_inclusive path)
unfolding remove_dot_segments split_inclusive push_segments push_segment classify_segment
    strip_slash
remove_rooted path = refl

pub removed : (path : Bytes) → Removed (b'/' ∷ []) (split_inclusive path)
removed path =
    add_segments (b'/' ∷ []) (split_inclusive path) (split_inclusive-Segs path) ([], refl)
      ([], refl)

-- The removal of dot segments from a path that begins with a slash does not panic, and its result
-- begins with a slash.
pub remove_dot_segments-absolute :
    (path : Bytes)
    → (out : Bytes) × (remove_dot_segments [] (b'/' ∷ path) ≡ done out) × IsRooted out
remove_dot_segments-absolute path =
    let m = removed path in (m.out, remove_rooted path ∙ m.runs, m.rooted)
