-- ===== src/Loader.antt =====
-- `load_dir` of src/cedar/engine.rs. The file system is a parameter: a directory listing whose
-- entries carry what the loader asks of each file. Every path of a load is the directory and a
-- file name, so a file is named by its name's bytes and sorts by them.
pub mod Display
pub mod Complete
pub mod Laws
pub mod Order
use nono_cedar_pdp.Base.{
  ℕ, zero, suc, Bool, true, false, not, ◌||◌, ◌&&◌, Option, none, some, List, [], ◌∷◌, ◌++◌, map,
  ◌==◌, if◌then◌else◌, Text, Bytes, lit, text_eq, decimal, Result, ok, err, ◌>>=◌, map_err,
}
use nono_cedar_pdp.Utf8.{as_bytes, from_utf8}
use nono_cedar_pdp.Decision.{text_le}
use nono_cedar_pdp.Cedar.{Cedar}
use nono_cedar_pdp.ContentDigest.{file, finish}

pub data PolicyLoadError (E : Type 0) : Type 0 where
  io : Text → E → PolicyLoadError E
  read_file : Bytes → E → PolicyLoadError E
  parse : Bytes → Text → PolicyLoadError E
  duplicate : Bytes → Text → PolicyLoadError E
  validation : List Text → PolicyLoadError E
  empty : Text → PolicyLoadError E

-- A name in the directory, with the answers of `is_file` and `read_to_string` for it.
pub record DirEntry (E : Type 0) : Type 0 where
  pub name : Bytes
  pub is_file : Bool
  pub contents : Result E Text

-- What `read_dir` and its iterator yield.
abbrev pub Listing : Type 0 → Type 0
Listing E = Result E (List (Result E (DirEntry E)))

-- The parts of a name around its last dot.
unfoldable pub split_last_dot : Bytes → Option (Bytes × Bytes)
split_last_dot [] = none
split_last_dot (c ∷ cs) = elim (split_last_dot cs) [
  | some (a, b) ↦ some (c ∷ a, b)
  | none ↦ if c == b'.' then some ([], cs) else none
]

-- A leading dot alone begins no extension.
unfoldable pub extension_of : Option (Bytes × Bytes) → Option Bytes
extension_of none = none
extension_of (some ([], b)) = none
extension_of (some (x ∷ a, b)) = some b

unfoldable pub stem_of : Bytes → Option (Bytes × Bytes) → Bytes
stem_of name none = name
stem_of name (some ([], b)) = name
stem_of name (some (x ∷ a, b)) = x ∷ a

-- `Path::extension` and `Path::file_stem`
unfoldable pub extension : Bytes → Option Bytes
unfolding extension_of split_last_dot
extension name = extension_of (split_last_dot name)

unfoldable pub file_stem : Bytes → Bytes
unfolding stem_of split_last_dot
file_stem name = stem_of name (split_last_dot name)

unfoldable pub is_cedar : Option Bytes → Bool
is_cedar none = false
is_cedar (some e) = text_eq e (lit "cedar")

unfoldable pub is_hidden : Text → Bool
is_hidden [] = false
is_hidden (c ∷ cs) = c == b'.' || c == b'#'

-- `policy_file_skip_reason`
unfoldable pub skip_reason : {E : Type 0} → DirEntry E → Option Text
unfolding is_hidden
skip_reason entry = elim (from_utf8 entry.name) [
  | none ↦ some (lit "its name is not valid UTF-8")
  | some name ↦
      if is_hidden name
      then some (
          lit
            "its name starts with '.' or '#', the shape editors give lock files and backups — rename it if it is a real policy")
      else if not entry.is_file
      then some (
          lit
            "it is not a regular file: a directory, a socket, or a symlink whose target is missing")
      else none
]

abbrev is_none : {A : Type 0} → Option A → Bool
is_none none = true
is_none (some _) = false

-- `is_loadable_policy_file`, behind the test of the extension.
unfoldable pub is_loaded : {E : Type 0} → DirEntry E → Bool
is_loaded entry = is_cedar (extension entry.name) && is_none (skip_reason entry)

abbrev pub push : {F A : Type 0} → A → Result F (List A) → Result F (List A)
push a (ok as') = ok (a ∷ as')
push a (err e) = err e

-- The loop over the listing: an entry that could not be read refuses the whole load.
unfoldable pub select :
    {E : Type 0}
    → Text
    → List (Result E (DirEntry E))
    → Result (PolicyLoadError E) (List (DirEntry E))
select dir [] = ok []
select dir (err e ∷ rest) = err (io dir e)
select dir (ok entry ∷ rest) =
    let more = select dir rest in
    if not (is_cedar (extension entry.name))
    then more
    else elim (skip_reason entry) [ some reason ↦ more | none ↦ push entry more ]

unfoldable pub insert_entry : {E : Type 0} → DirEntry E → List (DirEntry E) → List (DirEntry E)
insert_entry x [] = x ∷ []
insert_entry x (y ∷ ys) = if text_le x.name y.name then x ∷ y ∷ ys else y ∷ insert_entry x ys

-- `entries.sort()`
unfoldable pub sort_entries : {E : Type 0} → List (DirEntry E) → List (DirEntry E)
unfolding insert_entry
sort_entries [] = []
sort_entries (x ∷ xs) = insert_entry x (sort_entries xs)

-- The standard library's and the hash crate's functions, and the clock's value at a load.
pub record Env : Type 0 where
  pub sha256 : Bytes → Bytes
  pub to_string_lossy : Bytes → Text
  pub now : ℕ

module _ (c : Cedar) where
  open c use {
    Schema, Policy, PolicySet, empty_set, set_from_str, add, policies, num_of_policies,
    id_annotation, new_id, validation_passed, validation_errors,
  }

  pub record LoadedPolicies : Type 0 where
    pub set : PolicySet
    pub generation : ℕ
    pub loaded_at : ℕ
    pub files : List Bytes
    pub content_hash : Text

  -- `<file stem>:<@id annotation or ordinal>`
  unfoldable pub provenance_id : Text → ℕ → Option Text → Text
  provenance_id stem ordinal (some a) = stem ++ (lit ":" ++ a)
  provenance_id stem ordinal none = stem ++ (lit ":" ++ decimal ordinal)

  -- The inner loop, over the policies of one file.
  unfoldable pub add_all :
      {E : Type 0}
      → Bytes
      → Text
      → ℕ
      → List Policy
      → PolicySet
      → Result (PolicyLoadError E) PolicySet
  add_all name stem ordinal [] set = ok set
  add_all name stem ordinal (p ∷ ps) set = do
    set' ←
        map_err (duplicate name) (add set (new_id p (provenance_id stem ordinal (id_annotation p))))
    add_all name stem (suc ordinal) ps set'

  -- One round of the outer loop: the set so far and the bytes fed to the digest so far.
  unfoldable pub load_file :
      {E : Type 0}
      → Env
      → DirEntry E
      → PolicySet
      → Bytes
      → Result (PolicyLoadError E) (PolicySet × Bytes)
  load_file env entry set fed = do
    text ← map_err (read_file entry.name) entry.contents
    let fed' = file fed entry.name (as_bytes text)
    let stem = env.to_string_lossy (file_stem entry.name)
    parsed ← map_err (parse entry.name) (set_from_str text)
    set' ← add_all entry.name stem 0 (policies parsed) set
    ok (set', fed')

  unfoldable pub load_files :
      {E : Type 0}
      → Env
      → List (DirEntry E)
      → PolicySet
      → Bytes
      → Result (PolicyLoadError E) (PolicySet × Bytes)
  load_files env [] set fed = ok (set, fed)
  load_files env (entry ∷ rest) set fed = do
    state ← load_file env entry set fed
    load_files env rest state.0 state.1

  -- `checked`
  unfoldable pub checked :
      {E : Type 0}
      → Env
      → PolicySet
      → Schema
      → Text
      → ℕ
      → List Bytes
      → Text
      → Result (PolicyLoadError E) LoadedPolicies
  checked env set schema source generation files content_hash =
      if num_of_policies set == 0
      then err (empty source)
      else if not (validation_passed schema set)
      then err (validation (validation_errors schema set))
      else ok (record {
        set = set;
        generation = generation;
        loaded_at = env.now;
        files = files;
        content_hash = content_hash;
      })

  -- `load_entries`
  unfoldable pub load_entries :
      {E : Type 0}
      → Env
      → Text
      → List (Result E (DirEntry E))
      → Schema
      → ℕ
      → Result (PolicyLoadError E) LoadedPolicies
  load_entries env dir listing schema generation = do
    selected ← select dir listing
    let entries = sort_entries selected
    state ← load_files env entries empty_set []
    checked env state.0 schema dir generation (map (λ e. e.name) entries)
        (finish env.sha256 state.1)

  -- `load_dir`
  unfoldable pub load_dir :
      {E : Type 0} → Env → Text → Listing E → Schema → ℕ → Result (PolicyLoadError E) LoadedPolicies
  load_dir env dir listing schema generation = do
    entries ← map_err (io dir) listing
    load_entries env dir entries schema generation
