-- ===== src/Tests/Source/Trail.antt =====
-- What the unit tests of src/audit.rs stand on: their queries, lines as JSON texts, and a log that
-- takes them.
use nono_cedar_pdp.Base.{
  ℕ, ◌/◌, ◌%◌, Bool, true, false, not, ◌&&◌, ◌||◌, Option, none, List, [], ◌∷◌, ◌++◌, map, ◌==◌,
  ltb, if◌then◌else◌, Text, Bytes, lit, text_eq, decimal, contains,
}
use nono_cedar_pdp.Utf8.{as_bytes}
use nono_cedar_pdp.Sanitize.{hex_digit}
use nono_cedar_pdp.Query.{CallerKind, command_target, endpoint_target, PolicyQuery}
use nono_cedar_pdp.Decision.{deny_with}
use nono_cedar_pdp.Adapter.{RejectedContext}
use nono_cedar_pdp.Audit.{
  Line, decision_line, policy_set_line, PolicySetOutcome, decided, rejected, policy_set,
}
use nono_cedar_pdp.Audit.Fields.{Value, null, string, number, boolean, strings, fields}
use nono_cedar_pdp.Audit.Fields.ReadBack.{get}
use nono_cedar_pdp.Audit.Sink.{Sink, Answers, append}
use nono_cedar_pdp.Audit.Sink.Lines.{read_lines}
use nono_cedar_pdp.Tests.Source.{mentions}

-- `EXAMPLE_SHIM_ARGV0` of src/wire.rs
abbrev pub example_shim_argv0 : Text
example_shim_argv0 =
    lit "/private/tmp/nono-tool-sandbox-13819-1784990893285791000-a4d3bceb3ec061c0/shims/git"

abbrev pub query : PolicyQuery
query = record {
  agent = lit "claude-code";
  session_id = lit "s1";
  caller = lit "session";
  caller_kind = CallerKind.session;
  request_id = lit "r1";
  backend = lit "cedar";
  reason = none;
  target = command_target (record {
    command = lit "git";
    args = example_shim_argv0 ∷ lit "status" ∷ [];
    intercept_rule = lit "status";
    child_pid = 42;
  });
}

abbrev pub proxied_query : PolicyQuery
proxied_query = record {
  agent = lit "claude-code";
  session_id = lit "proxy";
  caller = lit "proxy";
  caller_kind = CallerKind.session;
  request_id = lit "p1";
  backend = lit "cedar";
  reason = none;
  target = endpoint_target (record {
    route_id = lit "github-api";
    upstream = lit "https://api.github.com";
    method = lit "GET";
    path = lit "/repos/foo/bar";
    rule_label = lit "endpoint_policy.approve[GET /repos/*]";
    child_pid = 0;
  });
}

abbrev quoted : Text → Text
quoted t = b'"' ∷ (t ++ b'"' ∷ [])

abbrev ts : Text
ts = lit "2026-07-25T00:00:00Z"

-- The three lines: of a denied query, of a request that was refused, and of a set of policies.
abbrev pub denied : PolicyQuery → Text → Option Text → Line
denied q reason user_agent = decision_line (decided quoted ts q (deny_with reason) user_agent)

abbrev pub refused : RejectedContext → Text → Option Text → Line
refused context reason user_agent =
    decision_line (rejected ts context (deny_with reason) user_agent)

abbrev pub policies : ℕ → Bool → PolicySetOutcome → Line
policies generation at_risk outcome = policy_set_line (policy_set ts generation at_risk outcome)

-- A line's value, what the tests compare it to, and `contains_key`.
abbrev pub value : Line → Text → Value
value line key = get key (fields line)

abbrev pub is_text : Text → Value → Bool
is_text t (string s) = text_eq s t
is_text t _ = false

abbrev pub has_text : Text → Value → Bool
has_text t (string s) = mentions t s
has_text t _ = false

abbrev pub is_number : ℕ → Value → Bool
is_number n (number m) = m == n
is_number n _ = false

abbrev pub is_null : Value → Bool
is_null null = true
is_null _ = false

unfoldable pub has_key : List (Text × Value) → Text → Bool
has_key [] key = false
has_key ((k, v) ∷ rest) key = text_eq k key || has_key rest key

abbrev keys : Line → List Text
keys line = map (λ f. f.0) (fields line)

unfoldable same_texts : List Text → List Text → Bool
same_texts [] [] = true
same_texts (s ∷ ss) (t ∷ ts) = text_eq s t && same_texts ss ts
same_texts _ _ = false

unfoldable pub same_keys : Line → Line → Bool
unfolding same_texts
same_keys a b = same_texts (keys a) (keys b)

-- A JSON text: quotes, backslashes and the controls below a space are escaped, and no other.
unfoldable escape_json : Text → Text
unfolding hex_digit
escape_json [] = []
escape_json (c ∷ cs) =
    let rest = escape_json cs in
    if c == b'"' || c == b'\\'
    then b'\\' ∷ c ∷ rest
    else if ltb c 32
    then lit "\\u00" ++ (hex_digit (c / 16) ∷ hex_digit (c % 16) ∷ rest)
    else c ∷ rest

unfoldable json_string : Text → Text
unfolding escape_json
json_string t = b'"' ∷ (escape_json t ++ b'"' ∷ [])

unfoldable json_strings : List Text → Text
unfolding json_string
json_strings [] = []
json_strings (t ∷ []) = json_string t
json_strings (s ∷ t ∷ ts) = json_string s ++ (b',' ∷ json_strings (t ∷ ts))

unfoldable json_value : Value → Text
unfolding json_string json_strings
json_value null = lit "null"
json_value (string t) = json_string t
json_value (number n) = decimal n
json_value (boolean true) = lit "true"
json_value (boolean false) = lit "false"
json_value (strings ts) = b'[' ∷ (json_strings ts ++ b']' ∷ [])

unfoldable json_fields : List (Text × Value) → Text
unfolding json_value
json_fields [] = []
json_fields ((k, v) ∷ []) = json_string k ++ (b':' ∷ json_value v)
json_fields ((k, v) ∷ f ∷ fs) =
    json_string k ++ (b':' ∷ (json_value v ++ (b',' ∷ json_fields (f ∷ fs))))

unfoldable pub json : Line → Bytes
unfolding json_fields
json line = as_bytes (b'{' ∷ (json_fields (fields line) ++ b'}' ∷ []))

-- A log after its lines, each with what the file system answers.
unfoldable pub logged : List (Answers × Line) → Sink → Sink
unfolding json
logged [] s = s
logged ((a, line) ∷ rest) s = logged rest (append a (json line) s)

-- The file's lines, none of them left open, all of them lines that were written.
unfoldable includes : List Bytes → Bytes → Bool
includes [] l = false
includes (m ∷ ms) l = text_eq m l || includes ms l

unfoldable all_in : List Bytes → List Bytes → Bool
unfolding includes
all_in [] ms = true
all_in (l ∷ ls) ms = includes ms l && all_in ls ms

abbrev is_empty : Bytes → Bool
is_empty [] = true
is_empty _ = false

unfoldable pub parses : List Line → Bytes → Bool
unfolding all_in json
parses lines bs = all_in (read_lines bs).0 (map json lines) && is_empty (read_lines bs).1

-- Neither a DEL nor the control CSI, which is two bytes.
abbrev pub is_clean : Bytes → Bool
is_clean raw = not (contains 0x7f raw) && not (mentions (0xc2 ∷ 0x9b ∷ []) raw)
