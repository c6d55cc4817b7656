-- ===== src/Audit/LogFile.antt =====
-- `LogFile` of src/audit.rs: opening the log at its path, and whether the handle still is there.
-- The file system's answers are a parameter: what stands at the configured path.
use nono_cedar_pdp.Base.{
  ℕ, Bool, false, not, Option, none, some, [], ◌∷◌, ◌==◌, if◌then◌else◌, Bytes,
}
use Prim.Native.Nat.{bit_and}

-- What `open` and the calls on the opened file meet at the path. A file that does not exist yet is
-- one with no contents and the mode that the source creates it with.
pub record Found : Type 0 where
  pub parent_ok : Bool
  pub opens_read : Bool
  pub opens_append : Bool
  pub contents : Bytes
  pub mode : ℕ
  pub chmod_ok : Bool

pub record LogFile : Type 0 where
  pub contents : Bytes
  pub mode : ℕ

-- `ends_mid_line`: not empty, and the last byte is no newline.
unfoldable pub ends_mid_line : Bytes → Bool
ends_mid_line [] = false
ends_mid_line (b ∷ []) = not (b == b'\n')
ends_mid_line (b ∷ c ∷ bs) = ends_mid_line (c ∷ bs)

-- `tighten_permissions`: `0o7777` is the mask of the mode, `0o177` all beyond owner read and write.
unfoldable pub tighten_permissions : Bool → ℕ → ℕ
tighten_permissions chmod_ok mode =
    if bit_and (bit_and mode 0o7777) 0o177 == 0 then mode else if chmod_ok then 0o600 else mode

-- `LogFile::open`: the file, and whether it ends mid-record. Without read access nothing can be
-- told of its end, and the source goes on as if it were whole.
unfoldable pub open_log : Found → Option (LogFile × Bool)
open_log found =
    let log : LogFile = record {
      contents = found.contents;
      mode = tighten_permissions found.chmod_ok found.mode;
    } in
    if not found.parent_ok
    then none
    else if found.opens_read
    then some (log, ends_mid_line found.contents)
    else if found.opens_append
    then some (log, false)
    else none
