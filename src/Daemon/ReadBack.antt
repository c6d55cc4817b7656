-- ===== src/Daemon/ReadBack.antt =====
-- The trail of the daemon of src/server.rs and src/watcher.rs, as a consumer of the file of
-- src/audit.rs gets it.
use mathlib.Core.List.{map-append}
use nono_cedar_pdp.Base.{
  ℕ, Bool, ◌≡◌, refl, sym, ap, ◌∙◌, subst, false, Option, none, some, Option-cases, inl, inr, List,
  [], ◌∷◌, ◌++◌, map, All, Text, Bytes, contains, Result-cases,
}
use nono_cedar_pdp.Adapter.{and_then, parse}
use nono_cedar_pdp.Audit.{
  Line, decision_line, policy_set_line, policy_set, PolicySetOutcome, decided, rejected,
}
use nono_cedar_pdp.Audit.Fields.{Value, fields}
use nono_cedar_pdp.Audit.Fields.ReadBack.{line_of, IsOfKind, line_of-fields}
use nono_cedar_pdp.Audit.Sink.{Sink, Answers}
use nono_cedar_pdp.Audit.Sink.Lines.{read_lines}
use nono_cedar_pdp.Audit.Sink.Trail.{append_all, successes, onto_written, IsWhole, append_all-lines}
use nono_cedar_pdp.Cedar.{Cedar}
use nono_cedar_pdp.Server.{Outside, AppState, max_request_bytes}
use nono_cedar_pdp.Server.Tls.{Net}
use nono_cedar_pdp.Process.{World}
use nono_cedar_pdp.Main.{Prepared}
use nono_cedar_pdp.Daemon.{Daemon, verdict, Steps}
use nono_cedar_pdp.Daemon.Trail.{Steps-All}
use nono_cedar_pdp.Daemon.Allowed.{started}
use nono_cedar_pdp.Daemon.OnDisk.{IsFine, encoded, lines_of, encoded-IsRecoverable}

policy_set-IsOfKind :
    (ts : Text) (generation : ℕ) (at_risk : Bool) (outcome : PolicySetOutcome)
    → IsOfKind (policy_set_line (policy_set ts generation at_risk outcome))
unfolding policy_set
policy_set-IsOfKind ts generation at_risk outcome = refl

module _ (c : Cedar) (E : Type 0) where
  verdict-IsOfKind :
      (o : Outside E) (user_agent : Option Text) (to_bytes : ℕ → Option Bytes) (s : AppState c)
      → IsOfKind (decision_line (verdict c E o user_agent to_bytes s).0)
  unfolding verdict rejected decided
  verdict-IsOfKind o ua to_bytes s = elim (Option-cases (to_bytes max_request_bytes)) [
    | inl b ↦ rw (verdict, b) refl
    | inr (body, b) ↦ elim (Result-cases (parse o.parse_envelope body s.config)) [
      | inl (e, p) ↦ rw (verdict, b, p) refl
      | inr (q, p) ↦ rw (verdict, b, p) refl
    ]
  ]

-- `write` and `read` are those of serde's JSON crate on one line: what is written is read back, and
-- it has no raw newline.
module _ (write_json : List (Text × Value) → Bytes)
    (read_json : Bytes → Option (List (Text × Value)))
    (one_line : (v : List (Text × Value)) → contains b'\n' (write_json v) ≡ false)
    (read_back : (v : List (Text × Value)) → read_json (write_json v) ≡ some v) where
  abbrev pub to_json : Line → Bytes
  to_json l = write_json (fields l)

  abbrev pub to_json-one_line : (l : Line) → contains b'\n' (to_json l) ≡ false
  to_json-one_line l = one_line (fields l)

  -- What a consumer makes of one line of the file.
  abbrev pub consumed : Bytes → Option Line
  consumed b = and_then (read_json b) line_of

  consumed-to_json : (l : Line) → IsOfKind l → consumed (to_json l) ≡ some l
  consumed-to_json l h = rw (read_back (fields l)) (line_of-fields l h)

  map-written :
      {w : Option ℕ} (line : Bytes) (xs : List Bytes)
      → w ≡ none
      → map consumed (onto_written w line xs) ≡ consumed line ∷ map consumed xs
  map-written line xs h = rw h refl

  consumed-successes :
      (es : List (Answers × Line))
      → All (λ e. IsFine e.0) es
      → All IsOfKind (lines_of to_json to_json-one_line es)
      → map consumed (successes (encoded to_json to_json-one_line es))
        ≡ map some (lines_of to_json to_json-one_line es)
  unfolding successes
  consumed-successes [] h k = refl
  consumed-successes ((a, l) ∷ es) h k =
      map-written (to_json l) (successes (encoded to_json to_json-one_line es)) h.0.written
      ∙ (ap (λ o. o ∷ map consumed (successes (encoded to_json to_json-one_line es)))
            (consumed-to_json l k.0)
          ∙ ap (◌∷◌ (some l)) (consumed-successes es h.1 k.1))

  module _ (c : Cedar) {E : Type 0} where
    -- A consumer of the file gets the daemon's trail back: behind what it could read before, the
    -- records of the trail, whole, in order and each in its own shape. The trail is appended line by
    -- line to a file of whole lines, and every write succeeds on the file at its path.
    pub Steps-consumed :
        (net : Net E) (w : World c net) (p : Prepared c net) {d : Daemon c E}
        (es : List (Answers × Line)) (s : Sink)
        → Steps c E (started c net w p) d
        → lines_of to_json to_json-one_line es ≡ d.state.audit
        → All (λ e. IsFine e.0) es
        → IsWhole s
        → map consumed
            (read_lines (append_all (encoded to_json to_json-one_line es) s).file.contents).0
          ≡ map consumed (read_lines s.file.contents).0 ++ map some d.state.audit
    Steps-consumed net w p {d} es s steps q fine whole =
        let entries = encoded to_json to_json-one_line es in
        let on_file =
          append_all-lines entries s (encoded-IsRecoverable to_json to_json-one_line es fine)
            whole in
        let kinds =
          Steps-All c E IsOfKind (verdict-IsOfKind c E) policy_set-IsOfKind net w p steps in
        let back =
          consumed-successes es fine (subst (All IsOfKind) (sym q) kinds) ∙ ap (map some) q in
        ap (λ r. map consumed r.0) on_file
        ∙ (map-append consumed (read_lines s.file.contents).0 (successes entries)
            ∙ ap (λ x. map consumed (read_lines s.file.contents).0 ++ x) back)
