-- ===== src/Tests/Dots.antt =====
-- The theorems on dot segments, at concrete inputs.
use fluent_uri_rs.Base.{Bytes, [], ascii, ◌≡◌, refl}
use fluent_uri_rs.Base.Run.{done}
use fluent_uri_rs.Resolver.Segments.{
  remove_dot_segments, split_inclusive, classify_segment, strip_slash, rfind,
}
use fluent_uri_rs.Resolver.Segments.Step.{IsRooted}
use fluent_uri_rs.Resolver.Segments.Rooted.{remove_dot_segments-onto, remove_dot_segments-absolute}

-- The example of RFC 3986, section 5.2.4.
dots_removed : remove_dot_segments [] (ascii "/a/b/c/./../../g") ≡ done (ascii "/a/g")
unfolding remove_dot_segments split_inclusive classify_segment strip_slash rfind
dots_removed = refl

remove_dot_segments-absolute_example :
    (out : Bytes) × (remove_dot_segments [] (ascii "/a/%2E./../b") ≡ done out) × IsRooted out
remove_dot_segments-absolute_example = remove_dot_segments-absolute (ascii "a/%2E./../b")

remove_dot_segments-onto_example :
    (out : Bytes) × (remove_dot_segments (ascii "/a/") (ascii "../../c") ≡ done out) × IsRooted out
remove_dot_segments-onto_example =
    remove_dot_segments-onto (ascii "/a/") (ascii "../../c") (ascii "a/", refl) (ascii "/a", refl)
