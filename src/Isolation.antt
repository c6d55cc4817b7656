-- ===== src/Isolation.antt =====
-- src/isolation.rs: who besides the daemon's user could change what it trusts.
pub mod Display
pub mod Judgements
pub mod Laws
pub mod Startup
use Prim.Native.Nat.{bit_and}
use nono_cedar_pdp.Base.{
  ℕ, ◌+◌, ◌/◌, ◌%◌, Bool, true, false, not, ◌&&◌, ◌||◌, Option, none, some, List, [], ◌∷◌, ◌++◌,
  ◌==◌, if◌then◌else◌, Text, Bytes, lit, text_eq, Result, ok, err, ◌>>=◌, map_err,
}
use nono_cedar_pdp.FilePaths.{
  FilePath, child, Metadata, IoError, not_found, not_a_directory, other, Fs, is_empty, resolve,
  absolutize, starts_with,
}
use nono_cedar_pdp.Loader.{DirEntry, Listing, extension, is_cedar, skip_reason}

pub data IsolationError (E : Type 0) : Type 0 where
  writable : Text → FilePath → Text → Text → IsolationError E
  writable_ancestor : Text → FilePath → FilePath → Text → Text → IsolationError E
  foreign : Text → FilePath → ℕ → ℕ → IsolationError E
  accessible_key : FilePath → Text → Text → IsolationError E
  io : Text → FilePath → IoError E → IsolationError E

pub record ComponentFacts : Type 0 where
  pub owner_uid : ℕ
  pub mode : ℕ
  pub is_dir : Bool

-- `ComponentFacts::of`
unfoldable pub facts_of : Metadata → ComponentFacts
facts_of m = record { owner_uid = m.uid; mode = bit_and m.mode 0o7777; is_dir = m.is_dir }

-- `{:04o}` of a mode, which has twelve bits.
unfoldable pub octal : ℕ → Text
octal mode =
    (b'0' + mode / 512 % 8)
    ∷ (b'0' + mode / 64 % 8)
    ∷ (b'0' + mode / 8 % 8)
    ∷ (b'0' + mode % 8)
    ∷ []

-- The `match` on the two halves, group and world.
unfoldable pub who : Bool → Bool → Option Text
who true true = some (lit "group- and world")
who true false = some (lit "group")
who false true = some (lit "world")
who false false = none

abbrev pub any_bit : ℕ → ℕ → Bool
any_bit mode mask = not (bit_and mode mask == 0)

-- `loose_key_access`
unfoldable pub loose_key_access : ℕ → Option Text
unfolding who
loose_key_access mode = who (any_bit mode 0o070) (any_bit mode 0o007)

-- `loose_writers`
unfoldable pub loose_writers : ℕ → Option Text
unfolding who
loose_writers mode = who (any_bit mode 0o020) (any_bit mode 0o002)

-- `loose_ancestor_writers`
unfoldable pub loose_ancestor_writers : ℕ → Option Text
unfolding loose_writers
loose_ancestor_writers mode = if any_bit mode 0o1000 then none else loose_writers mode

-- `foreign_owner`
unfoldable pub foreign_owner : ℕ → ℕ → Option ℕ
foreign_owner owner_uid euid =
    if not (owner_uid == euid) && not (owner_uid == 0) then some owner_uid else none

-- The two refusals in a row that each of the truth tables has.
abbrev pub refuse :
    {E : Type 0}
    → Option (IsolationError E)
    → Option (IsolationError E)
    → Result (IsolationError E) (Unit {0})
refuse (some x) _ = err x
refuse none (some x) = err x
refuse none none = ok tt

abbrev pub map_option : {A B : Type 0} → (A → B) → Option A → Option B
map_option f none = none
map_option f (some a) = some (f a)

-- `judge_component`
unfoldable pub judge_component :
    {E : Type 0} → Text → FilePath → ComponentFacts → ℕ → Result (IsolationError E) (Unit {0})
judge_component what path facts euid =
    refuse (map_option (λ owner. foreign what path owner euid) (foreign_owner facts.owner_uid euid))
      (map_option (λ w. writable what path (octal facts.mode) w) (loose_writers facts.mode))

-- `judge_private_key`
unfoldable pub judge_private_key :
    {E : Type 0} → FilePath → ComponentFacts → ℕ → Result (IsolationError E) (Unit {0})
judge_private_key path facts euid =
    refuse
      (map_option (λ owner. foreign (lit "TLS private key") path owner euid)
        (foreign_owner facts.owner_uid euid))
      (map_option (λ w. accessible_key path (octal facts.mode) w) (loose_key_access facts.mode))

-- `judge_ancestor`
unfoldable pub judge_ancestor :
    {E : Type 0}
    → Text
    → Text
    → FilePath
    → FilePath
    → ComponentFacts
    → ℕ
    → Result (IsolationError E) (Unit {0})
judge_ancestor what ancestor_what path ancestor facts euid =
    if not facts.is_dir
    then ok tt
    else refuse
        (map_option (λ owner. foreign ancestor_what ancestor owner euid)
          (foreign_owner facts.owner_uid euid))
        (map_option (λ w. writable_ancestor what path ancestor (octal facts.mode) w)
          (loose_ancestor_writers facts.mode))

-- The `match std::fs::metadata(ancestor)` of the walk.
unfoldable pub visit :
    {E : Type 0}
    → Text
    → Text
    → FilePath
    → FilePath
    → ℕ
    → Result (IoError E) Metadata
    → Result (IsolationError E) (Unit {0})
unfolding judge_ancestor
visit what ancestor_what path ancestor euid (ok m) =
    judge_ancestor what ancestor_what path ancestor (facts_of m) euid
visit what ancestor_what path ancestor euid (err not_found) = ok tt
visit what ancestor_what path ancestor euid (err not_a_directory) =
    err (io ancestor_what ancestor not_a_directory)
visit what ancestor_what path ancestor euid (err (other e)) =
    err (io ancestor_what ancestor (other e))

-- The loop of `refuse_on_untrusted_ancestors`, over the names that are left: it ends behind the root,
-- or in front of the empty path that a relative one begins with.
unfoldable pub walk :
    {E : Type 0}
    → Fs E
    → Text
    → Text
    → FilePath
    → Bool
    → List Bytes
    → Result (IsolationError E) (Unit {0})
walk fs what ancestor_what path is_absolute [] = ok tt
walk fs what ancestor_what path is_absolute (name ∷ rest) =
    let ancestor : FilePath = record { is_absolute = is_absolute; names = rest } in
    let here = visit what ancestor_what path ancestor fs.euid (fs.metadata ancestor) in
    let above = walk fs what ancestor_what path is_absolute rest in
    if not is_absolute && is_empty rest then ok tt else here >>= (λ u. above)

-- `refuse_on_untrusted_ancestors`
unfoldable pub refuse_on_untrusted_ancestors :
    {E : Type 0} → Fs E → Text → Text → FilePath → Result (IsolationError E) (Unit {0})
unfolding walk
refuse_on_untrusted_ancestors fs what ancestor_what path =
    walk fs what ancestor_what path path.is_absolute path.names

-- `refuse_if_untrusted`
unfoldable pub refuse_if_untrusted :
    {E : Type 0} → Fs E → Text → FilePath → Result (IsolationError E) (Unit {0})
refuse_if_untrusted fs what path = do
  m ← map_err (io what path) (fs.metadata path)
  judge_component what path (facts_of m) fs.euid

-- One round of the loop over the directory: a file that the loader passes over is not judged.
unfoldable pub check_entry :
    {E : Type 0} → Fs E → FilePath → DirEntry (IoError E) → Result (IsolationError E) (Unit {0})
unfolding refuse_if_untrusted child
check_entry fs dir entry =
    let judged = refuse_if_untrusted fs (lit "policy file") (child dir entry.name) in
    if not (is_cedar (extension entry.name))
    then ok tt
    else elim (skip_reason entry) [ some reason ↦ ok tt | none ↦ judged ]

unfoldable pub check_entries :
    {E : Type 0}
    → Fs E
    → FilePath
    → List (Result (IoError E) (DirEntry (IoError E)))
    → Result (IsolationError E) (Unit {0})
check_entries fs dir [] = ok tt
check_entries fs dir (err e ∷ rest) = err (io (lit "policy directory") dir e)
check_entries fs dir (ok entry ∷ rest) = do
  done ← check_entry fs dir entry
  check_entries fs dir rest

-- `refuse_untrusted_policy_dir_as`
unfoldable pub refuse_untrusted_policy_dir :
    {E : Type 0} → Fs E → FilePath → Result (IsolationError E) (Unit {0})
unfolding absolutize
refuse_untrusted_policy_dir fs policy_dir = do
  let dir = absolutize fs policy_dir none
  itself ← refuse_if_untrusted fs (lit "policy directory") dir
  entries ← map_err (io (lit "policy directory") dir) (fs.listing dir)
  files ← check_entries fs dir entries
  refuse_on_untrusted_ancestors fs (lit "policy directory") (lit "ancestor of the policy directory")
      dir

-- `refuse_a_readable_private_key_as`
unfoldable pub refuse_a_readable_private_key :
    {E : Type 0} → Fs E → FilePath → Result (IsolationError E) (Unit {0})
unfolding absolutize
refuse_a_readable_private_key fs path = do
  let key = absolutize fs path none
  m ← map_err (io (lit "TLS private key") key) (fs.metadata key)
  itself ← judge_private_key key (facts_of m) fs.euid
  refuse_on_untrusted_ancestors fs (lit "TLS private key") (lit "ancestor of the TLS private key")
      key

-- The `match` of `refuse_a_foreign_owned_audit_log`.
unfoldable pub judge_audit_log :
    {E : Type 0} → FilePath → ℕ → Result (IoError E) Metadata → Result (IsolationError E) (Unit {0})
judge_audit_log log euid (ok m) =
    refuse
      (map_option (λ owner. foreign (lit "audit log") log owner euid) (foreign_owner m.uid euid))
      none
judge_audit_log log euid (err not_found) = ok tt
judge_audit_log log euid (err not_a_directory) = ok tt
judge_audit_log log euid (err (other e)) = err (io (lit "audit log") log (other e))

-- What a warning is about; its text is `warning_text`.
pub data Warning : Type 0 where
  policy_dir_inside_cwd audit_log_inside_cwd private_key_inside_cwd : FilePath → FilePath → Warning

-- One containment warning, where there is a working directory.
unfoldable pub inside : (FilePath → FilePath → Warning) → FilePath → Option FilePath → List Warning
unfolding starts_with
inside warning path none = []
inside warning path (some base) = if starts_with path base then warning path base ∷ [] else []

abbrev pub base_of : {E : Type 0} → Fs E → Option FilePath → Option FilePath
base_of fs none = none
base_of fs (some cwd) = some (absolutize fs cwd none)

-- `check`
unfoldable pub check :
    {E : Type 0}
    → Fs E
    → FilePath
    → FilePath
    → Option FilePath
    → Result (IsolationError E) (List Warning)
unfolding judge_audit_log inside absolutize
check fs configured_dir configured_log cwd = do
  let base = base_of fs cwd
  let policy_dir = absolutize fs configured_dir base
  let audit_log = absolutize fs configured_log base
  dir ← refuse_untrusted_policy_dir fs policy_dir
  above ←
      refuse_on_untrusted_ancestors fs (lit "audit log") (lit "ancestor of the audit log") audit_log
  itself ← judge_audit_log audit_log fs.euid (fs.metadata audit_log)
  ok (inside policy_dir_inside_cwd policy_dir base ++ inside audit_log_inside_cwd audit_log base)

-- `check_private_key`
unfoldable pub check_private_key :
    {E : Type 0} → Fs E → FilePath → Option FilePath → Result (IsolationError E) (List Warning)
unfolding inside absolutize
check_private_key fs configured_key cwd = do
  let base = base_of fs cwd
  let key = absolutize fs configured_key base
  itself ← refuse_a_readable_private_key fs key
  ok (inside private_key_inside_cwd key base)
