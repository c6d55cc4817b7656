-- ===== src/FilePaths.antt =====
-- Paths as src/isolation.rs takes them: `absolutize`, and the calls of the standard library on paths
-- and on the file system, which is a parameter with the working directory.
pub mod Resolution
use nono_cedar_pdp.Base.{
  ℕ, Bool, true, false, not, ◌&&◌, ◌||◌, Option, none, some, List, [], ◌∷◌, ◌++◌, if◌then◌else◌,
  Bytes, text_eq, Result,
}
use nono_cedar_pdp.Loader.{Listing}

-- A path: whether it begins at the root, and its names, the innermost first.
pub record FilePath : Type 0 where
  pub is_absolute : Bool
  pub names : List Bytes

-- `Path::join` with a relative path, and with one name.
unfoldable pub join : FilePath → FilePath → FilePath
join base path = record base { names = path.names ++ base.names }

unfoldable pub child : FilePath → Bytes → FilePath
child dir name = record dir { names = name ∷ dir.names }

-- `std::fs::Metadata`, and what a failed call says.
pub record Metadata : Type 0 where
  pub uid : ℕ
  pub mode : ℕ
  pub is_dir : Bool

pub data IoError (E : Type 0) : Type 0 where
  not_found not_a_directory : IoError E
  other : E → IoError E

-- What the checks ask of the outside; `listing` is the policy directory's.
pub record Fs (E : Type 0) : Type 0 where
  pub euid : ℕ
  pub metadata : FilePath → Result (IoError E) Metadata
  pub listing : FilePath → Listing (IoError E)
  pub canonicalize : FilePath → Option FilePath
  pub current_dir : Option FilePath

abbrev pub is_empty : {A : Type 0} → List A → Bool
is_empty [] = true
is_empty (_ ∷ _) = false

-- `Path::file_name` has none for a path that ends in `..`.
abbrev pub is_parent_dir : Bytes → Bool
is_parent_dir name = text_eq name (b'.' ∷ b'.' ∷ [])

-- The loop of `absolutize`: what is left of the joined path, and the names taken off it.
unfoldable pub resolve : {E : Type 0} → Fs E → FilePath → Bool → List Bytes → List Bytes → FilePath
resolve fs joined is_absolute [] taken =
    elim (fs.canonicalize (record { is_absolute = is_absolute; names = [] })) [
      | some resolved ↦ record resolved { names = taken ++ resolved.names }
      | none ↦ joined
    ]
resolve fs joined is_absolute (name ∷ parent) taken =
    let further = resolve fs joined is_absolute parent (taken ++ name ∷ []) in
    elim (fs.canonicalize (record { is_absolute = is_absolute; names = name ∷ parent })) [
      | some resolved ↦ record resolved { names = taken ++ resolved.names }
      | none ↦
          if is_parent_dir name || (not is_absolute && is_empty parent) then joined else further
    ]

-- The `joined` of `absolutize`.
unfoldable pub join_cwd : {E : Type 0} → Fs E → FilePath → Option FilePath → FilePath
unfolding join
join_cwd fs path cwd = if path.is_absolute then path else elim cwd [
  | some c ↦ join c path
  | none ↦ elim fs.current_dir [ some c ↦ join c path | none ↦ path ]
]

-- `absolutize`
unfoldable pub absolutize : {E : Type 0} → Fs E → FilePath → Option FilePath → FilePath
unfolding resolve join_cwd
absolutize fs path cwd =
    let joined = join_cwd fs path cwd in resolve fs joined joined.is_absolute joined.names []

-- `resolve_existing_prefix`
unfoldable pub resolve_existing_prefix : {E : Type 0} → Fs E → FilePath → FilePath
unfolding absolutize
resolve_existing_prefix fs path = absolutize fs path none

abbrev pub same_names : List Bytes → List Bytes → Bool
same_names [] [] = true
same_names (x ∷ xs) (y ∷ ys) = text_eq x y && same_names xs ys
same_names _ _ = false

unfoldable pub ends_in : List Bytes → List Bytes → Bool
ends_in [] base = same_names [] base
ends_in (x ∷ xs) base = same_names (x ∷ xs) base || ends_in xs base

-- `Path::starts_with`, by whole names.
unfoldable pub starts_with : FilePath → FilePath → Bool
unfolding ends_in
starts_with path base =
    (if path.is_absolute then base.is_absolute else not base.is_absolute)
    && ends_in path.names base.names
