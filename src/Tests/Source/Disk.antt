-- ===== src/Tests/Source/Disk.antt =====
-- What the unit tests of src/isolation.rs stand on: a disk as a table, on which `/var` is a link to
-- `/private/var`, and their fixtures. The root directory and what has no entry of its own above the
-- temporary directories belong to root; the rest belongs to uid 500.
use nono_cedar_pdp.Base.{
  ℕ, Bool, true, false, not, Option, none, some, List, [], ◌∷◌, ◌++◌, if◌then◌else◌, Text, Bytes,
  lit, text_eq, Result, ok, err,
}
use nono_cedar_pdp.FilePaths.{
  FilePath, Metadata, IoError, not_found, not_a_directory, other, Fs, same_names,
}
use nono_cedar_pdp.Loader.{DirEntry}
use nono_cedar_pdp.Isolation.{any_bit}

abbrev pub Disk : Type 0
Disk = List (List Bytes × Metadata)

abbrev pub node : ℕ → ℕ → Bool → Metadata
node uid mode is_dir = record { uid = uid; mode = mode; is_dir = is_dir }

unfoldable pub find : Disk → List Bytes → Option Metadata
find [] names = none
find ((at, m) ∷ rest) names = if same_names at names then some m else find rest names

-- `stat`: every directory above must let its owner through.
unfoldable pub stat : Disk → List Bytes → Result (IoError Text) Metadata
unfolding find
stat disk [] = ok (node 0 0o755 true)
stat disk (name ∷ parent) = elim (stat disk parent) [
  | err e ↦ err e
  | ok m ↦
      if not m.is_dir
      then err not_a_directory
      else if not (any_bit m.mode 0o100)
      then err (other (lit "Permission denied"))
      else elim (find disk (name ∷ parent)) [ some n ↦ ok n | none ↦ err not_found ]
]

unfoldable pub follow : List Bytes → List Bytes
follow [] = []
follow (name ∷ []) = if text_eq name (lit "var") then lit "var" ∷ lit "private" ∷ [] else name ∷ []
follow (name ∷ above ∷ rest) = name ∷ follow (above ∷ rest)

unfoldable pub entries : Disk → List Bytes → List (Result (IoError Text) (DirEntry (IoError Text)))
entries [] dir = []
entries (([], m) ∷ rest) dir = entries rest dir
entries ((name ∷ parent, m) ∷ rest) dir =
    let others = entries rest dir in
    if same_names parent dir
    then ok (record { name = name; is_file = not m.is_dir; contents = ok [] }) ∷ others
    else others

unfoldable pub mounted : ℕ → Disk → Fs Text
unfolding stat follow entries
mounted euid disk = record {
  euid = euid;
  metadata = λ p. stat disk (follow p.names);
  listing = λ p. ok (entries disk (follow p.names));
  canonicalize = λ p. elim (stat disk (follow p.names)) [
    | ok m ↦ some (record p { names = follow p.names })
    | err e ↦ none
  ];
  current_dir = none;
}

-- The system's directories and two temporary ones.
abbrev pub temp : FilePath
temp = record { is_absolute = true; names = lit "t" ∷ lit "var" ∷ lit "private" ∷ [] }

abbrev pub elsewhere : FilePath
elsewhere = record { is_absolute = true; names = lit "e" ∷ lit "var" ∷ lit "private" ∷ [] }

abbrev pub system : Disk
system =
    (lit "private" ∷ [], node 0 0o755 true)
    ∷ (lit "var" ∷ lit "private" ∷ [], node 0 0o755 true)
    ∷ (temp.names, node 500 0o700 true)
    ∷ (elsewhere.names, node 500 0o700 true)
    ∷ []

abbrev pub below : FilePath → List Bytes → FilePath
below dir names = record dir { names = names ++ dir.names }

-- A new directory or file, and `chmod`.
abbrev pub make : FilePath → ℕ → Bool → Disk → Disk
make path mode is_dir disk = (path.names, node 500 mode is_dir) ∷ disk

unfoldable pub chmod : FilePath → ℕ → Disk → Disk
chmod path mode [] = []
chmod path mode ((at, m) ∷ rest) =
    let others = chmod path mode rest in
    if same_names at path.names then (at, record m { mode = mode }) ∷ others else (at, m) ∷ others

-- `policy_dir`: the directory's path, and the disk with it.
abbrev pub policies : FilePath → FilePath
policies root = below root (lit "policies" ∷ [])

abbrev pub baseline : FilePath → FilePath
baseline root = below root (lit "00-baseline.cedar" ∷ lit "policies" ∷ [])

abbrev pub policy_dir : FilePath → Disk → Disk
policy_dir root disk = make (baseline root) 0o600 false (make (policies root) 0o700 true disk)

-- `private_key`
abbrev pub tls : FilePath
tls = below temp (lit "tls" ∷ [])

abbrev pub key : FilePath
key = below temp (lit "key.pem" ∷ lit "tls" ∷ [])

abbrev pub private_key : Disk → Disk
private_key disk = make key 0o600 false (make tls 0o700 true disk)

-- `Path::display` of an absolute path, and what an error of the system shows.
unfoldable spell : List Bytes → Text
spell [] = []
spell (name ∷ parent) = spell parent ++ (b'/' ∷ name)

unfoldable pub shown : FilePath → Text
unfolding spell
shown path = spell path.names

unfoldable pub show_io : IoError Text → Text
show_io not_found = lit "No such file or directory"
show_io not_a_directory = lit "Not a directory"
show_io (other e) = e
