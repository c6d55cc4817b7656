-- ===== src/Tests/Source/EndpointPath.antt =====
-- The unit tests of src/endpoint_path.rs.
use nono_cedar_pdp.Base.{
  ℕ, zero, suc, ◌+◌, ◌-◌, ◌≡◌, refl, Bool, true, false, not, ◌&&◌, Option, none, some, List, [],
  ◌∷◌, ◌++◌, map, ◌==◌, Text, lit, text_eq, contains, decimal,
}
use nono_cedar_pdp.Tests.Source.{all, begins, mentions}
use nono_cedar_pdp.Utf8.{is_scalar, from_utf8, encode_char, as_bytes}
use nono_cedar_pdp.Sanitize.{is_control, has_control}
use nono_cedar_pdp.EndpointPath.{
  Ambiguity, dot_segment, malformed_escape, non_utf8, nested_too_deep, max_decode_passes, ambiguity,
  routing, split, onto, scan, find_dot_segment, find, strip_parameters, is_dots, percent_decode,
  decode_loop, to_text, hex, push_escaped,
}
use nono_cedar_pdp.EndpointPath.Describe.{describe}

-- `matches!(found, Some(Ambiguity::DotSegment { .. }))`
abbrev shows_dot_segment : Option Ambiguity → Bool
shows_dot_segment (some (dot_segment s n)) = true
shows_dot_segment _ = false

-- `assert_eq!` on what `ambiguity` returns.
abbrev same : Option Ambiguity → Option Ambiguity → Bool
same none none = true
same (some (dot_segment s m)) (some (dot_segment t n)) = text_eq s t && m == n
same (some malformed_escape) (some malformed_escape) = true
same (some non_utf8) (some non_utf8) = true
same (some nested_too_deep) (some nested_too_deep) = true
same _ _ = false

-- `{:?}` of a text without quotes, escapes and control characters.
abbrev quoted : Text → Text
quoted t = b'"' ∷ (t ++ b'"' ∷ [])

abbrev a_literal_traversal_segment_is_ambiguous : Bool
a_literal_traversal_segment_is_ambiguous =
    same (ambiguity (lit "/repos/../user/keys")) (some (dot_segment (lit "..") 0))
    && mentions (lit "..") (describe quoted (dot_segment (lit "..") 0))

abbrev encoded_traversal_segments_are_ambiguous_at_every_depth : Bool
encoded_traversal_segments_are_ambiguous_at_every_depth =
    all (λ path. shows_dot_segment (ambiguity path))
      (lit "/repos/%2e%2e/user/keys"
        ∷ lit "/repos/%2E%2E/user/keys"
        ∷ lit "/repos/%2e%2E/user/keys"
        ∷ lit "/repos/%2E%2E%2Fuser/keys"
        ∷ lit "/repos/%252e%252e/user/keys"
        ∷ lit "/repos/%25252e%25252e/user/keys"
        ∷ lit "/repos/..;/user/keys"
        ∷ lit "/repos/..;a=b/user/keys"
        ∷ lit "/repos//../user/emails"
        ∷ lit "/repos/./user/keys"
        ∷ lit "/repos/foo/.."
        ∷ lit ".."
        ∷ lit "/repos/x#/../user/keys"
        ∷ lit "/repos/x#/%2e%2e/user/keys"
        ∷ lit "/repos/..\\..\\user/keys"
        ∷ lit "/repos/foo\\../user/keys"
        ∷ lit "/repos/%5c..%5c/user/keys"
        ∷ lit "/repos/..%5C../user/keys"
        ∷ [])

abbrev an_undecodable_path_is_ambiguous : Bool
an_undecodable_path_is_ambiguous =
    all (λ path. same (ambiguity path) (some malformed_escape))
      (lit "/repos/%zz/foo" ∷ lit "/repos/%2/foo" ∷ lit "/repos/foo%" ∷ lit "/%" ∷ [])
    && all (λ path. same (ambiguity path) (some non_utf8))
        (lit "/repos/%ff/foo" ∷ lit "/repos/%c0%ae%c0%ae/user/keys" ∷ [])

abbrev ordinary_paths_are_not_ambiguous : Bool
ordinary_paths_are_not_ambiguous =
    all (λ path. same (ambiguity path) none)
      (lit "/repos/foo/bar"
        ∷ lit "/"
        ∷ lit ""
        ∷ lit "/repos/foo/bar/contents/src/main.rs"
        ∷ lit "/repos/foo..bar/x"
        ∷ lit "/repos/..."
        ∷ lit "/repos/.hidden"
        ∷ lit "/repos/foo/bar?ref=.."
        ∷ lit "/repos/foo/bar?path=../x"
        ∷ lit "/repos/foo/bar?q=..\\.."
        ∷ lit "/search?q=..%2F..%2Fetc"
        ∷ lit "/repos/foo/bar#.."
        ∷ lit "/issues/issue#5"
        ∷ lit "/repos/foo/bar\\baz"
        ∷ lit "/repos/50%25-done"
        ∷ lit "/repos/foo%2Fbar/contents"
        ∷ lit "/repos/caf%C3%A9"
        ∷ lit "/repos/foo/bar;a=b"
        ∷ [])

abbrev an_encoded_question_mark_does_not_hide_a_traversal : Bool
an_encoded_question_mark_does_not_hide_a_traversal =
    shows_dot_segment (ambiguity (lit "/repos/x%3f/../user/keys"))

-- `str::repeat`
repeat : ℕ → Text → Text
repeat zero t = []
repeat (suc n) t = t ++ repeat n t

abbrev nesting_beyond_the_decode_bound_is_ambiguous : Bool
unfolding repeat
nesting_beyond_the_decode_bound_is_ambiguous =
    let nested = λ (n : ℕ). lit "/repos/%" ++ (repeat n (lit "25") ++ lit "2e/x") in
    same (ambiguity (nested (max_decode_passes + 1))) (some nested_too_deep)
    && shows_dot_segment (ambiguity (nested (max_decode_passes - 2)))

-- A description and the tokens that it must mention, without a control character.
abbrev describes : Ambiguity × List Text → Bool
describes (found, tokens) =
    all (λ token. mentions token (describe quoted found)) tokens
    && not (has_control (describe quoted found))

abbrev distinct : List Text → Bool
distinct [] = true
distinct (t ∷ ts) = all (λ s. not (text_eq s t)) ts && distinct ts

abbrev every_ambiguity_describes_itself : Bool
every_ambiguity_describes_itself =
    let cases : List (Ambiguity × List Text) =
      (
        dot_segment (lit "..") 2,
        (b'"' ∷ lit ".." ++ b'"' ∷ [])
            ∷ lit "after 2 percent-decode passes"
            ∷ lit "normalising"
            ∷ [],
      )
      ∷ (malformed_escape, lit "malformed percent-escape" ∷ [])
      ∷ (non_utf8, lit "not UTF-8" ∷ [])
      ∷ (nested_too_deep, lit "nests deeper than" ∷ lit "decode" ∷ [])
      ∷ [] in
    all describes cases && distinct (map (λ c. describe quoted c.0) cases)

abbrev a_dot_segment_reports_the_decode_depth_it_surfaced_at : Bool
a_dot_segment_reports_the_decode_depth_it_surfaced_at =
    let described = λ (passes : ℕ). describe quoted (dot_segment (lit "..") passes) in
    mentions (lit "in the path as sent") (described 0)
    && (mentions (lit "after one percent-decode pass") (described 1)
        && mentions (lit "after 3 percent-decode passes") (described 3))

a_literal_traversal_segment_is_ambiguous_passes : a_literal_traversal_segment_is_ambiguous ≡ true
unfolding lit is_scalar text_eq begins mentions ambiguity routing split onto scan find_dot_segment
    find strip_parameters is_dots contains percent_decode decode_loop to_text hex push_escaped
    from_utf8 as_bytes encode_char describe decimal repeat
a_literal_traversal_segment_is_ambiguous_passes = refl

encoded_traversal_segments_are_ambiguous_at_every_depth_passes :
    encoded_traversal_segments_are_ambiguous_at_every_depth ≡ true
unfolding lit is_scalar text_eq begins mentions ambiguity routing split onto scan find_dot_segment
    find strip_parameters is_dots contains percent_decode decode_loop to_text hex push_escaped
    from_utf8 as_bytes encode_char describe decimal repeat
encoded_traversal_segments_are_ambiguous_at_every_depth_passes = refl

an_undecodable_path_is_ambiguous_passes : an_undecodable_path_is_ambiguous ≡ true
unfolding lit is_scalar text_eq begins mentions ambiguity routing split onto scan find_dot_segment
    find strip_parameters is_dots contains percent_decode decode_loop to_text hex push_escaped
    from_utf8 as_bytes encode_char describe decimal repeat
an_undecodable_path_is_ambiguous_passes = refl

ordinary_paths_are_not_ambiguous_passes : ordinary_paths_are_not_ambiguous ≡ true
unfolding lit is_scalar text_eq begins mentions ambiguity routing split onto scan find_dot_segment
    find strip_parameters is_dots contains percent_decode decode_loop to_text hex push_escaped
    from_utf8 as_bytes encode_char describe decimal repeat
ordinary_paths_are_not_ambiguous_passes = refl

an_encoded_question_mark_does_not_hide_a_traversal_passes :
    an_encoded_question_mark_does_not_hide_a_traversal ≡ true
unfolding lit is_scalar text_eq begins mentions ambiguity routing split onto scan find_dot_segment
    find strip_parameters is_dots contains percent_decode decode_loop to_text hex push_escaped
    from_utf8 as_bytes encode_char describe decimal repeat
an_encoded_question_mark_does_not_hide_a_traversal_passes = refl

nesting_beyond_the_decode_bound_is_ambiguous_passes :
    nesting_beyond_the_decode_bound_is_ambiguous ≡ true
unfolding lit is_scalar text_eq begins mentions ambiguity routing split onto scan find_dot_segment
    find strip_parameters is_dots contains percent_decode decode_loop to_text hex push_escaped
    from_utf8 as_bytes encode_char describe decimal repeat
nesting_beyond_the_decode_bound_is_ambiguous_passes = refl

every_ambiguity_describes_itself_passes : every_ambiguity_describes_itself ≡ true
unfolding lit is_scalar text_eq begins mentions ambiguity routing split onto scan find_dot_segment
    find strip_parameters is_dots contains percent_decode decode_loop to_text hex push_escaped
    from_utf8 as_bytes encode_char describe decimal repeat has_control is_control
every_ambiguity_describes_itself_passes = refl

a_dot_segment_reports_the_decode_depth_it_surfaced_at_passes :
    a_dot_segment_reports_the_decode_depth_it_surfaced_at ≡ true
unfolding lit is_scalar text_eq begins mentions ambiguity routing split onto scan find_dot_segment
    find strip_parameters is_dots contains percent_decode decode_loop to_text hex push_escaped
    from_utf8 as_bytes encode_char describe decimal repeat has_control is_control
a_dot_segment_reports_the_decode_depth_it_surfaced_at_passes = refl
