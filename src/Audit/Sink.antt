-- ===== src/Audit/Sink.antt =====
-- `AuditLog::append` of src/audit.rs: one line to the log, with detached files, short writes and
-- roll-back. What the operating system answers to the calls of one append is a parameter.
pub mod Lines
pub mod Recovery
pub mod Trail
use nono_cedar_pdp.Base.{
  ℕ, zero, suc, ◌-◌, Bool, true, false, not, Option, none, some, List, [], ◌∷◌, ◌++◌, ltb,
  if◌then◌else◌, Bytes, length,
}
use nono_cedar_pdp.Audit.LogFile.{Found, LogFile, open_log}

-- `Sink`, with the file that its handle refers to.
pub record Sink : Type 0 where
  pub file : LogFile
  pub unterminated : Bool
  pub last_size : Option ℕ

-- `AuditLog::open`
unfoldable pub open_sink : Found → Option Sink
open_sink found = elim (open_log found) [
  | none ↦ none
  | some (file, unterminated) ↦
      some (record { file = file; unterminated = unterminated; last_size = none })
]

-- What `still_attached` finds.
pub data Attachment : Type 0 where
  attached other_file not_found cannot_tell : Attachment

-- The answers that one append meets. `write_fails` is a failed `write_all`, with the number of
-- bytes that went out before it.
pub record Answers : Type 0 where
  pub attachment : Attachment
  pub at_path : Found
  pub size_known : Bool
  pub write_fails : Option ℕ
  pub truncates : Bool
  pub size_known_after : Bool

-- `LogFile::reattach` when the handle is detached: reopened, or kept if nothing can be opened.
unfoldable pub reopen : Option (LogFile × Bool) → Sink → Sink
reopen none s = s
reopen (some (file, ends_mid_line)) s = record {
  file = file;
  unterminated = ends_mid_line;
  last_size = none;
}

unfoldable pub reattach : Attachment → Found → Sink → Sink
unfolding reopen
reattach attached found s = s
reattach other_file found s = reopen (open_log found) s
reattach not_found found s = reopen (open_log found) s
reattach cannot_tell found s = s

unfoldable pub take : ℕ → Bytes → Bytes
take zero bs = []
take (suc n) [] = []
take (suc n) (b ∷ bs) = b ∷ take n bs

-- The bytes of one record: a broken line is closed first.
unfoldable pub buffer : Bool → Bytes → Bytes
buffer unterminated line = (if unterminated then b'\n' ∷ [] else []) ++ (line ++ b'\n' ∷ [])

abbrev pub known : Bool → ℕ → Option ℕ
known true n = some n
known false n = none

abbrev set_contents : Sink → Bytes → Bool → Sink
set_contents s bs u = record s { file = record (s.file) { contents = bs }; unterminated = u }

-- `rolled_back`: the size was known and `set_len` to it succeeded.
unfoldable pub roll_back : Option ℕ → Bool → Bytes → Bytes × Bool
roll_back none truncates bs = (bs, false)
roll_back (some len) true bs = (take len bs, true)
roll_back (some len) false bs = (bs, false)

-- The `match sink.bytes.append(&buf)`.
unfoldable pub write : Option ℕ → Option ℕ → Bool → Bytes → Sink → Sink
unfolding roll_back take
write none size_before truncates buf s = set_contents s (s.file.contents ++ buf) false
write (some k) size_before truncates buf s =
    let (bs, rolled_back) = roll_back size_before truncates (s.file.contents ++ take k buf) in
    set_contents s bs (not rolled_back)

unfoldable pub append : Answers → Bytes → Sink → Sink
unfolding reattach write buffer
append a line s =
    let s1 = reattach a.attachment a.at_path s in
    let buf = buffer s1.unterminated line in
    let size_before = known a.size_known (length s1.file.contents) in
    let s2 = write a.write_fails size_before a.truncates buf s1 in
    record s2 { last_size = known a.size_known_after (length s2.file.contents) }

-- The warning that the log shrank: the bytes that are missing.
unfoldable pub bytes_removed : Option ℕ → Option ℕ → Option ℕ
bytes_removed (some before) (some last) = if ltb before last then some (last - before) else none
bytes_removed _ _ = none
