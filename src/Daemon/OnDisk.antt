-- ===== src/Daemon/OnDisk.antt =====
-- The trail of the daemon, which src/server.rs and src/watcher.rs hand to `AuditLog::append` line by
-- line, in the file of src/audit.rs.
use nono_cedar_pdp.Base.{
  ℕ, ◌≡◌, sym, ap, subst, inl, true, false, Option, none, some, List, [], ◌∷◌, ◌++◌, All, IsIn,
  here, there, Text, Bytes, contains, ok,
}
use nono_cedar_pdp.Wire.{allow}
use nono_cedar_pdp.Config.{Config}
use nono_cedar_pdp.Audit.{Line, decision_line}
use nono_cedar_pdp.Audit.Sink.{Sink, attached, Answers}
use nono_cedar_pdp.Audit.Sink.Lines.{read_lines}
use nono_cedar_pdp.Audit.Sink.Trail.{
  append_all, successes, onto_written, IsRecoverable, IsWhole, append_all-lines,
}
use nono_cedar_pdp.Cedar.{Cedar}
use nono_cedar_pdp.FilePaths.Resolution.{IsResolver}
use nono_cedar_pdp.Process.{World}
use nono_cedar_pdp.Server.{Reply, wire}
use nono_cedar_pdp.Server.Tls.{Net}
use nono_cedar_pdp.Main.{Prepared, prepare}
use nono_cedar_pdp.Daemon.{Daemon, Steps}
use nono_cedar_pdp.Daemon.Allowed.{Accounted, started, Steps-Allowed}

-- An append that succeeds, on the file at its path.
pub record IsFine (a : Answers) : Type 0 where
  pub readable : a.at_path.opens_read ≡ true
  pub there : a.attachment ≡ attached
  pub written : a.write_fails ≡ none

IsIn-append_right {ℓ} : {A : Type ℓ} {a : A} (xs ys : List A) → IsIn a ys → IsIn a (xs ++ ys)
IsIn-append_right [] ys h = h
IsIn-append_right (x ∷ xs) ys h = there (IsIn-append_right xs ys h)

onto_written-here :
    (w : Option ℕ) (line : Bytes) (xs : List Bytes) → w ≡ none → IsIn line (onto_written w line xs)
onto_written-here none line xs h = here
onto_written-here (some k) line xs h = cc

onto_written-there :
    {b : Bytes} (w : Option ℕ) (line : Bytes) (xs : List Bytes)
    → IsIn b xs
    → IsIn b (onto_written w line xs)
onto_written-there none line xs h = there h
onto_written-there (some k) line xs h = h

-- `to_json` is the line that serde writes for a record: it has no raw newline.
module _ (to_json : Line → Bytes) (one_line : (l : Line) → contains b'\n' (to_json l) ≡ false) where
  abbrev pub encoded : List (Answers × Line) → List (Answers × Bytes)
  encoded [] = []
  encoded ((a, l) ∷ es) = (a, to_json l) ∷ encoded es

  abbrev pub lines_of : List (Answers × Line) → List Line
  lines_of [] = []
  lines_of ((a, l) ∷ es) = l ∷ lines_of es

  pub encoded-IsRecoverable :
      (es : List (Answers × Line)) → All (λ e. IsFine e.0) es → All IsRecoverable (encoded es)
  encoded-IsRecoverable [] h = tt
  encoded-IsRecoverable ((a, l) ∷ es) h = (
    record {
      one_line = one_line l;
      readable = h.0.readable;
      there = h.0.there;
      write = inl h.0.written;
    },
    encoded-IsRecoverable es h.1,
  )

  line-IsIn :
      (es : List (Answers × Line)) {l : Line}
      → All (λ e. IsFine e.0) es
      → IsIn l (lines_of es)
      → IsIn (to_json l) (successes (encoded es))
  unfolding successes
  line-IsIn [] h i = elim i [ ]
  line-IsIn ((a, l) ∷ es) h here =
      onto_written-here a.write_fails (to_json l) (successes (encoded es)) h.0.written
  line-IsIn ((a, l) ∷ es) h (there i) =
      onto_written-there a.write_fails (to_json l) (successes (encoded es)) (line-IsIn es h.1 i)

  module _ (c : Cedar) where
    -- What there is for an allow, and its line, as every line of the trail, among the lines that a
    -- reader finds in the file.
    pub record Kept {E : Type 0} (config : Config) (d : Daemon c E) (reply : Reply)
        (found : List Bytes) : Type 0 where
      pub accounted : Accounted c E config d reply
      pub kept : IsIn (to_json (decision_line accounted.allowed.line)) found
      pub all_kept : (l : Line) → IsIn l d.state.audit → IsIn (to_json l) found

    -- From the start of the daemon on, when the trail is appended line by line to a file of whole
    -- lines, every write succeeds on the file at its path, and no line has a newline inside: a reply
    -- that allows has the record of its own decision, which says "allow", as a whole line of that file,
    -- and so has every other decision that was sent.
    pub Steps-Kept :
        {E : Type 0} (net : Net E) (w : World c net) (resolver : IsResolver w.fs) (path : Text)
        (p : Prepared c net) {d : Daemon c E} (reply : Reply) (es : List (Answers × Line))
        (s : Sink)
        → (prepare c net w path).result ≡ ok p
        → Steps c E (started c net w p) d
        → IsIn reply d.replies
        → reply.body ≡ wire allow
        → lines_of es ≡ d.state.audit
        → All (λ e. IsFine e.0) es
        → IsWhole s
        → Kept p.paths.config d reply (read_lines (append_all (encoded es) s).file.contents).0
    Steps-Kept net w resolver path p {d} reply es s h steps i a q fine whole =
        let k = Steps-Allowed c net w resolver path p reply h steps i a in
        let keep : (l : Line)
            → IsIn l d.state.audit
            → IsIn (to_json l) (read_lines (append_all (encoded es) s).file.contents).0 =
          λ l j.
            subst (IsIn (to_json l))
              (sym (
                ap (λ r. r.0)
                  (append_all-lines (encoded es) s (encoded-IsRecoverable es fine) whole)))
              (IsIn-append_right (read_lines s.file.contents).0 (successes (encoded es))
                (line-IsIn es fine (subst (IsIn l) (sym q) j))) in
        record {
          accounted = k;
          kept = keep (decision_line k.allowed.line) k.allowed.is_in;
          all_kept = keep;
        }
