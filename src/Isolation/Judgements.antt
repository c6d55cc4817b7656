-- ===== src/Isolation/Judgements.antt =====
-- The truth tables of src/isolation.rs for one component and for one ancestor.
use Prim.Native.Nat.{bit_and}
use nono_cedar_pdp.Base.{
  Bool, Bytes, not, ◌&&◌, if◌then◌else◌, ℕ, ◌≡◌, ◌≢◌, refl, ◌↔◌, ◌⊎◌, inl, inr, true, false,
  Bool-cases, Option, none, some, List, [], ◌∷◌, arith, Text, Result, ok, err, map_err,
  map_err-eq_ok, bind-eq_ok,
}
use nono_cedar_pdp.FilePaths.{
  is_empty, FilePath, Metadata, IoError, not_found, not_a_directory, other, Fs,
}
use nono_cedar_pdp.Isolation.{
  IsolationError, ComponentFacts, facts_of, any_bit, who, loose_key_access, loose_writers,
  loose_ancestor_writers, foreign_owner, refuse, map_option, judge_component, judge_ancestor, visit,
  refuse_if_untrusted,
}

-- Owned by the daemon's user or by root.
abbrev pub IsOurs : ℕ → ℕ → Type 0
IsOurs owner euid = (owner ≡ euid) ⊎ (owner ≡ 0)

-- Neither half of the mask, group's nor world's, is in the mode.
abbrev pub IsFree : ℕ → ℕ → ℕ → Type 0
IsFree mode group world = (bit_and mode group ≡ 0) × (bit_and mode world ≡ 0)

pub foreign_owner_iff : (owner euid : ℕ) → (foreign_owner owner euid ≡ none) ↔ IsOurs owner euid
unfolding foreign_owner
foreign_owner_iff owner euid = ground arith

pub loose_writers_iff : (mode : ℕ) → (loose_writers mode ≡ none) ↔ IsFree mode 0o020 0o002
unfolding loose_writers who
loose_writers_iff mode = ground arith

pub loose_key_access_iff : (mode : ℕ) → (loose_key_access mode ≡ none) ↔ IsFree mode 0o070 0o007
unfolding loose_key_access who
loose_key_access_iff mode = ground arith

pub refuse-eq_ok :
    {E A B : Type 0} (f : A → IsolationError E) (g : B → IsolationError E) (a : Option A)
    (b : Option B) {u : Unit {0}}
    → refuse (map_option f a) (map_option g b) ≡ ok u
    → (a ≡ none) × (b ≡ none)
refuse-eq_ok f g none none h = (refl, refl)
refuse-eq_ok f g none (some b) h = absurd (cc)
refuse-eq_ok f g (some a) b h = absurd (cc)

-- A file or directory that exists, is ours, and that nobody else may write.
pub record IsTight {E : Type 0} (fs : Fs E) (path : FilePath) : Type 0 where
  pub facts : Metadata
  pub exists : fs.metadata path ≡ ok facts
  pub is_ours : IsOurs facts.uid fs.euid
  pub is_free : IsFree (facts_of facts).mode 0o020 0o002

pub refuse_if_untrusted-eq_ok :
    {E : Type 0} (fs : Fs E) (what : Text) (path : FilePath) {u : Unit {0}}
    → refuse_if_untrusted fs what path ≡ ok u
    → IsTight fs path
unfolding refuse_if_untrusted judge_component facts_of
refuse_if_untrusted-eq_ok fs what path h =
    let (m, e, j) = bind-eq_ok (map_err (IsolationError.io what path) (fs.metadata path)) _ h in
    let (o, w) =
      refuse-eq_ok _ _ (foreign_owner m.uid fs.euid) (loose_writers (bit_and m.mode 0o7777)) j in
    record {
      facts = m;
      exists = map_err-eq_ok (IsolationError.io what path) (fs.metadata path) e;
      is_ours = (foreign_owner_iff m.uid fs.euid).0 o;
      is_free = (loose_writers_iff (bit_and m.mode 0o7777)).0 w;
    }

-- An ancestor through which nobody else can put another tree in place: it is not there, is no
-- directory, or is ours and either sticky or writable by its owner alone.
pub data SafeAncestor {E : Type 0} (fs : Fs E) (path : FilePath) : Type 0 where
  missing : fs.metadata path ≡ err not_found → SafeAncestor fs path
  no_directory : (m : Metadata) → fs.metadata path ≡ ok m → m.is_dir ≡ false → SafeAncestor fs path
  guarded :
      (m : Metadata)
      → fs.metadata path ≡ ok m
      → IsOurs m.uid fs.euid
      → (bit_and (facts_of m).mode 0o1000 ≢ 0) ⊎ IsFree (facts_of m).mode 0o020 0o002
      → SafeAncestor fs path

-- All that a path stands under, up to the root.
abbrev pub above_names : Bool → List Bytes → List FilePath
above_names is_absolute [] = []
above_names is_absolute (name ∷ rest) =
    let further = above_names is_absolute rest in
    if not is_absolute && is_empty rest
    then []
    else record { is_absolute = is_absolute; names = rest } ∷ further

abbrev pub ancestors : FilePath → List FilePath
ancestors path = above_names path.is_absolute path.names

loose_ancestor_writers-eq_none :
    (mode : ℕ)
    → loose_ancestor_writers mode ≡ none
    → (bit_and mode 0o1000 ≢ 0) ⊎ IsFree mode 0o020 0o002
unfolding loose_ancestor_writers
loose_ancestor_writers-eq_none mode h = elim (Bool-cases (any_bit mode 0o1000)) [
  | inl e ↦ inl (ground arith)
  | inr e ↦ inr ((loose_writers_iff mode).0 (ground arith))
]

judge_ancestor-eq_ok :
    {E : Type 0} (what ancestor_what : Text) (path ancestor : FilePath) (facts : ComponentFacts)
    (euid : ℕ) {u : Unit {0}}
    → facts.is_dir ≡ true
    → judge_ancestor {E = E} what ancestor_what path ancestor facts euid ≡ ok u
    → (foreign_owner facts.owner_uid euid ≡ none) × (loose_ancestor_writers facts.mode ≡ none)
unfolding judge_ancestor
judge_ancestor-eq_ok what aw path ancestor facts euid d h =
    refuse-eq_ok _ _ (foreign_owner facts.owner_uid euid) (loose_ancestor_writers facts.mode)
      (rw d at h)

pub visit-eq_ok :
    {E : Type 0} (fs : Fs E) (what ancestor_what : Text) (path ancestor : FilePath)
    (r : Result (IoError E) Metadata) {u : Unit {0}}
    → fs.metadata ancestor ≡ r
    → visit what ancestor_what path ancestor fs.euid r ≡ ok u
    → SafeAncestor fs ancestor
unfolding visit judge_ancestor facts_of
visit-eq_ok fs what aw path ancestor (err not_found) e h = missing e
visit-eq_ok fs what aw path ancestor (err not_a_directory) e h = absurd (cc)
visit-eq_ok fs what aw path ancestor (err (other x)) e h = absurd (cc)
visit-eq_ok fs what aw path ancestor (ok m) e h = elim (Bool-cases m.is_dir) [
  | inr d ↦ no_directory m e d
  | inl d ↦
      let (o, w) = judge_ancestor-eq_ok what aw path ancestor (facts_of m) fs.euid d h in
      guarded m e ((foreign_owner_iff m.uid fs.euid).0 o)
        (loose_ancestor_writers-eq_none (bit_and m.mode 0o7777) w)
]
