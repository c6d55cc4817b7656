-- ===== src/EndpointPath/Describe.antt =====
-- `Ambiguity::describe` of src/endpoint_path.rs. The quoting of `{:?}` is a parameter: it follows
-- the Unicode tables of the standard library.
use nono_cedar_pdp.Base.{ℕ, zero, suc, ◌++◌, Text, lit, decimal}
use nono_cedar_pdp.EndpointPath.{
  Ambiguity, dot_segment, malformed_escape, non_utf8, nested_too_deep, max_decode_passes,
}

unfoldable pub depth : ℕ → Text
unfolding decimal
depth zero = lit "in the path as sent"
depth (suc zero) = lit "after one percent-decode pass"
depth (suc (suc n)) = lit "after " ++ (decimal (suc (suc n)) ++ lit " percent-decode passes")

unfoldable pub describe : (Text → Text) → Ambiguity → Text
unfolding depth
describe debug (dot_segment segment passes) =
    lit "a "
    ++ (debug segment
        ++ (lit " path segment appears "
            ++ (depth passes
                ++ lit
                    ", so a normalising upstream resolves this to a different resource than the raw path a policy matches")))
describe debug malformed_escape =
    lit "it contains a malformed percent-escape, so what the upstream decodes cannot be known"
describe debug non_utf8 =
    lit
      "percent-decoding it yields bytes that are not UTF-8, which an upstream may still fold onto \".\" (overlong encodings), so what it resolves to cannot be known"
describe debug nested_too_deep =
    lit "its percent-encoding nests deeper than "
    ++ (decimal max_decode_passes
        ++ lit " decode passes, so what the upstream resolves cannot be known")
