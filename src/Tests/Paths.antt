-- ===== src/Tests/Paths.antt =====
-- The guard on an endpoint's path at concrete paths.
use nono_cedar_pdp.Base.{
  ◌≡◌, refl, ap, ◌↔◌, ◌⊎◌, inl, none, some, Text, lit, contains, Result, ok, err,
}
use nono_cedar_pdp.Utf8.{is_scalar, from_utf8, encode_char, as_bytes}
use nono_cedar_pdp.EndpointPath.{
  Ambiguity, malformed_escape, ambiguity, routing, split, onto, scan, find_dot_segment, find,
  strip_parameters, is_dots, percent_decode, decode_loop, to_text, hex, push_escaped,
}
use nono_cedar_pdp.EndpointPath.Segments.{HasDotSegment, find_dot_segment_complete}
use nono_cedar_pdp.EndpointPath.Guard.{
  Decodes, read_after, HasStray, ambiguity-none_safe, ambiguity-dot_segment,
}
use nono_cedar_pdp.EndpointPath.Verdicts.{ambiguity-Undecodable_iff}

-- A decoder that leaves a text alone in which the source's finds a malformed escape.
abbrev or_same : Text → Result Ambiguity Text → Text
or_same t (ok u) = u
or_same t (err e) = t

abbrev lenient : Text → Text
lenient t = or_same t (percent_decode t)

lenient-faithful : (t u : Text) → percent_decode t ≡ ok u → lenient t ≡ u
lenient-faithful t u h = ap (or_same t) h

ambiguity-none_safe_example :
    (¬ HasDotSegment (read_after lenient 1 (routing (lit "/a%20b"))) (lit ".."))
    ⊎ HasStray lenient 0 1 (routing (lit "/a%20b"))
unfolding lit is_scalar ambiguity routing split onto scan find_dot_segment find strip_parameters
    is_dots contains percent_decode decode_loop to_text hex push_escaped from_utf8 as_bytes
    encode_char
ambiguity-none_safe_example =
    ambiguity-none_safe lenient lenient-faithful (lit "/a%20b") 1 {s = lit ".."}
      (refl, (refl, (refl, (refl, (refl, (refl, tt)))))) refl

-- A stray percent sign ends the search in front of a segment that is encoded twice.
stray_percent : ambiguity (lit "/x/50%25-done/%252e%252e/secret") ≡ none
unfolding lit ambiguity routing split onto scan find_dot_segment find strip_parameters is_dots
    contains percent_decode decode_loop to_text hex push_escaped from_utf8 as_bytes encode_char
stray_percent = refl

ambiguity-dot_segment_example :
    (d : Text) × Decodes 1 (routing (lit "/a/%2e%2e")) d × HasDotSegment d (lit "..")
unfolding lit is_scalar ambiguity routing split onto scan find_dot_segment find strip_parameters
    is_dots contains percent_decode decode_loop to_text hex push_escaped from_utf8 as_bytes
    encode_char
ambiguity-dot_segment_example = ambiguity-dot_segment (lit "/a/%2e%2e") refl

ambiguity-Undecodable_iff_example : (ambiguity (lit "/%zz") ≡ some malformed_escape) ↔ (
    (percent_decode (routing (lit "/%zz")) ≡ err malformed_escape)
    × (¬ ((s : Text) × HasDotSegment (routing (lit "/%zz")) s)))
unfolding lit is_scalar
ambiguity-Undecodable_iff_example =
    ambiguity-Undecodable_iff (lit "/%zz") malformed_escape (refl, (refl, (refl, (refl, tt))))
      (inl refl)

no_dots : ¬ ((s : Text) × HasDotSegment (routing (lit "/v1")) s)
unfolding lit is_scalar ambiguity routing split onto scan find_dot_segment find strip_parameters
    is_dots contains percent_decode decode_loop to_text hex push_escaped from_utf8 as_bytes
    encode_char
no_dots = λ (s, d). find_dot_segment_complete d refl
