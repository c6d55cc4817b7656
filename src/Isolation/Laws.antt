-- ===== src/Isolation/Laws.antt =====
-- What src/isolation.rs lets through, in terms of the owners and modes of what was checked.
use Prim.Native.Nat.{bit_and}
use nono_cedar_pdp.Base.{
  err_ne, Bool, Bytes, not, ◌&&◌, ◌>>=◌, Option, none, ℕ, ◌≡◌, refl, sym, ap, ◌∙◌, ◌↔◌, inl, inr,
  true, Bool-cases, Option-cases, List, [], ◌∷◌, map, All, arith, Text, Result, ok, err, map_err,
  map_err-eq_ok, bind-eq_ok, lit,
}
use nono_cedar_pdp.Loader.{DirEntry, is_loaded}
use nono_cedar_pdp.Loader.Laws.{keep}
use nono_cedar_pdp.FilePaths.{
  is_empty, child, absolutize, FilePath, Metadata, IoError, not_found, not_a_directory, other, Fs,
}
use nono_cedar_pdp.Isolation.{
  Warning, base_of, IsolationError, ComponentFacts, facts_of, loose_key_access, loose_writers,
  foreign_owner, judge_component, judge_private_key, visit, walk, refuse_on_untrusted_ancestors,
  refuse_if_untrusted, check_entry, check_entries, refuse_untrusted_policy_dir,
  refuse_a_readable_private_key, judge_audit_log, check,
}
use nono_cedar_pdp.Isolation.Judgements.{
  above_names, IsOurs, IsFree, IsTight, SafeAncestor, ancestors, foreign_owner_iff,
  loose_key_access_iff, refuse-eq_ok, refuse_if_untrusted-eq_ok, visit-eq_ok, loose_writers_iff,
}

bind_unit :
    {E : Type 0} (first next : Result E (Unit {0})) {u : Unit {0}}
    → (first >>= (λ v. next)) ≡ ok u
    → (v : Unit {0}) × (first ≡ ok v) × (next ≡ ok u)
bind_unit (err x) next h = absurd (err_ne h)
bind_unit (ok v) next h = (v, refl, h)

walk-eq_ok :
    {E : Type 0} (fs : Fs E) (what ancestor_what : Text) (path : FilePath) (is_absolute : Bool)
    (names : List Bytes) {u : Unit {0}}
    → walk fs what ancestor_what path is_absolute names ≡ ok u
    → All (SafeAncestor fs) (above_names is_absolute names)
unfolding walk
walk-eq_ok fs what aw path is_absolute [] h = tt
walk-eq_ok fs what aw path is_absolute (name ∷ rest) h =
    let ancestor : FilePath = record { is_absolute = is_absolute; names = rest } in
    elim (Bool-cases (not is_absolute && is_empty rest)) [
      | inl e ↦ rw e tt
      | inr e ↦
          let (v, q, k) =
            bind_unit (visit what aw path ancestor fs.euid (fs.metadata ancestor))
              (walk fs what aw path is_absolute rest) (rw (walk, e) at h) in
          rw e (
            visit-eq_ok fs what aw path ancestor (fs.metadata ancestor) refl q,
            walk-eq_ok fs what aw path is_absolute rest k,
          )
    ]

check_entry_loaded :
    {E : Type 0} (fs : Fs E) (dir : FilePath) (entry : DirEntry (IoError E))
    → is_loaded entry ≡ true
    → check_entry fs dir entry ≡ refuse_if_untrusted fs (lit "policy file") (child dir entry.name)
unfolding check_entry is_loaded
check_entry_loaded fs dir entry h = ground arith

-- The files that the loader takes are tight.
check_entries-eq_ok :
    {E : Type 0} (fs : Fs E) (dir : FilePath)
    (listing : List (Result (IoError E) (DirEntry (IoError E)))) {u : Unit {0}}
    → check_entries fs dir listing ≡ ok u
    → (entries : List (DirEntry (IoError E))) × (listing ≡ map ok entries)
      × All (λ e. IsTight fs (child dir e.name)) (keep entries)
unfolding check_entries
check_entries-eq_ok fs dir [] h = ([], refl, tt)
check_entries-eq_ok fs dir (err e ∷ rest) h = absurd (cc)
check_entries-eq_ok fs dir (ok entry ∷ rest) h =
    let (v, e, k) = bind-eq_ok (check_entry fs dir entry) _ h in
    let (entries, q, a) = check_entries-eq_ok fs dir rest k in
    elim (Bool-cases (is_loaded entry)) [
      | inr n ↦ (entry ∷ entries, ap (◌∷◌ (ok entry)) q, rw n a)
      | inl y ↦ (
        entry ∷ entries,
        ap (◌∷◌ (ok entry)) q,
        rw y (
          refuse_if_untrusted-eq_ok fs (lit "policy file") (child dir entry.name)
              (sym (check_entry_loaded fs dir entry y) ∙ e),
          a,
        ),
      )
    ]

-- What a directory that is let through is: nobody but the daemon's user and root can write it, nor
-- any file in it that the loader takes, and nobody else can rename a component above it.
pub record IsTrusted {E : Type 0} (fs : Fs E) (dir : FilePath) : Type 0 where
  pub itself : IsTight fs dir
  pub entries : List (DirEntry (IoError E))
  pub listed : fs.listing dir ≡ ok (map ok entries)
  pub files : All (λ e. IsTight fs (child dir e.name)) (keep entries)
  pub above : All (SafeAncestor fs) (ancestors dir)

-- A policy directory that passes the check is owned by the daemon's user or root and writable by
-- no one else, and so is every file in it that the loader takes; every ancestor up to the root is
-- missing, no directory, or owned so and either sticky or writable by its owner alone.
pub refuse_untrusted_policy_dir-eq_ok :
    {E : Type 0} (fs : Fs E) (policy_dir : FilePath) (u : Unit {0})
    → refuse_untrusted_policy_dir fs policy_dir ≡ ok u
    → IsTrusted fs (absolutize fs policy_dir none)
unfolding refuse_untrusted_policy_dir refuse_on_untrusted_ancestors
refuse_untrusted_policy_dir-eq_ok fs policy_dir u h =
    let dir = absolutize fs policy_dir none in
    let (v, i, h1) = bind-eq_ok (refuse_if_untrusted fs (lit "policy directory") dir) _ h in
    let (es, l, h2) =
      bind-eq_ok (map_err (IsolationError.io (lit "policy directory") dir) (fs.listing dir)) _ h1 in
    let (w, f, h3) = bind-eq_ok (check_entries fs dir es) _ h2 in
    let (entries, q, a) = check_entries-eq_ok fs dir es f in
    record {
      itself = refuse_if_untrusted-eq_ok fs (lit "policy directory") dir i;
      entries = entries;
      listed =
          map_err-eq_ok (IsolationError.io (lit "policy directory") dir) (fs.listing dir) l
          ∙ ap ok q;
      files = a;
      above = walk-eq_ok fs _ _ dir dir.is_absolute dir.names h3;
    }

-- A private key that passes the check is owned by the daemon's user or root, gives group and world
-- no access of any kind, and stands under safe ancestors.
pub refuse_a_readable_private_key-eq_ok :
    {E : Type 0} (fs : Fs E) (path : FilePath) (u : Unit {0})
    → refuse_a_readable_private_key fs path ≡ ok u
    → (m : Metadata) × (fs.metadata (absolutize fs path none) ≡ ok m)
      × IsOurs m.uid fs.euid
      × IsFree (facts_of m).mode 0o070 0o007
      × All (SafeAncestor fs) (ancestors (absolutize fs path none))
unfolding refuse_a_readable_private_key judge_private_key refuse_on_untrusted_ancestors facts_of
refuse_a_readable_private_key-eq_ok fs path u h =
    let key = absolutize fs path none in
    let (m, e, h1) =
      bind-eq_ok (map_err (IsolationError.io (lit "TLS private key") key) (fs.metadata key)) _ h in
    let (v, j, h2) = bind-eq_ok (judge_private_key key (facts_of m) fs.euid) _ h1 in
    let (o, w) =
      refuse-eq_ok _ _ (foreign_owner m.uid fs.euid) (loose_key_access (bit_and m.mode 0o7777)) j in
    (
      m,
      map_err-eq_ok (IsolationError.io (lit "TLS private key") key) (fs.metadata key) e,
      (foreign_owner_iff m.uid fs.euid).0 o,
      (loose_key_access_iff (bit_and m.mode 0o7777)).0 w,
      walk-eq_ok fs _ _ key key.is_absolute key.names h2,
    )

-- A component is let through exactly when the daemon's user or root owns it and neither group nor
-- world may write it: the check refuses nothing that is tight.
pub judge_component_iff :
    {E : Type 0} (what : Text) (path : FilePath) (facts : ComponentFacts) (euid : ℕ)
    → (judge_component {E = E} what path facts euid ≡ ok tt)
      ↔ (IsOurs facts.owner_uid euid × IsFree facts.mode 0o020 0o002)
unfolding judge_component
judge_component_iff {E} what path facts euid = (
  λ h.
      let (o, w) =
        refuse-eq_ok _ _ (foreign_owner facts.owner_uid euid) (loose_writers facts.mode) h in
      ((foreign_owner_iff facts.owner_uid euid).0 o, (loose_writers_iff facts.mode).0 w),
  λ (o, w).
      rw ((foreign_owner_iff facts.owner_uid euid).1 o, (loose_writers_iff facts.mode).1 w) refl,
)

-- A log that is not there yet, or is ours.
pub data SafeLog {E : Type 0} (fs : Fs E) (log : FilePath) : Type 0 where
  absent : fs.metadata log ≡ err not_found → SafeLog fs log
  below_file : fs.metadata log ≡ err not_a_directory → SafeLog fs log
  ours : (m : Metadata) → fs.metadata log ≡ ok m → IsOurs m.uid fs.euid → SafeLog fs log

judge_audit_log-eq_ok :
    {E : Type 0} (fs : Fs E) (log : FilePath) (r : Result (IoError E) Metadata) {u : Unit {0}}
    → fs.metadata log ≡ r
    → judge_audit_log log fs.euid r ≡ ok u
    → SafeLog fs log
unfolding judge_audit_log
judge_audit_log-eq_ok fs log (err not_found) e h = absent e
judge_audit_log-eq_ok fs log (err not_a_directory) e h = below_file e
judge_audit_log-eq_ok fs log (err (other x)) e h = absurd (cc)
judge_audit_log-eq_ok fs log (ok m) e h = elim (Option-cases (foreign_owner m.uid fs.euid)) [
  | inl o ↦ ours m e ((foreign_owner_iff m.uid fs.euid).0 o)
  | inr (o, f) ↦ absurd (err_ne (rw f at h))
]

-- When the startup check passes, the policy directory is trusted as it is found from the working
-- directory, every ancestor of the audit log is safe, and the log itself is either not there yet or
-- owned by the daemon's user or root.
pub check-eq_ok :
    {E : Type 0} (fs : Fs E) (policy_dir audit_log : FilePath) (cwd : Option FilePath)
    (warnings : List Warning)
    → check fs policy_dir audit_log cwd ≡ ok warnings
    → (let base = base_of fs cwd in
        IsTrusted fs (absolutize fs (absolutize fs policy_dir base) none)
        × All (SafeAncestor fs) (ancestors (absolutize fs audit_log base))
        × SafeLog fs (absolutize fs audit_log base))
unfolding check refuse_on_untrusted_ancestors
check-eq_ok {E} fs policy_dir audit_log cwd warnings h =
    let base = base_of fs cwd in
    let dir = absolutize fs policy_dir base in
    let log = absolutize fs audit_log base in
    let (v, d, h1) = bind-eq_ok (refuse_untrusted_policy_dir fs dir) _ h in
    let (w, a, h2) =
      bind-eq_ok
        (walk fs (lit "audit log") (lit "ancestor of the audit log") log log.is_absolute log.names)
        _ h1 in
    let (x, j, h3) = bind-eq_ok (judge_audit_log log fs.euid (fs.metadata log)) _ h2 in
    (
      refuse_untrusted_policy_dir-eq_ok fs dir v d,
      walk-eq_ok fs _ _ log log.is_absolute log.names a,
      judge_audit_log-eq_ok fs log (fs.metadata log) refl j,
    )
