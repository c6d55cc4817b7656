-- ===== src/Isolation/Startup.antt =====
-- The startup checks of src/isolation.rs on paths that were resolved before: what is checked is what
-- is used.
use nono_cedar_pdp.Base.{
  ◌≡◌, sym, ap, ◌∙◌, subst, inl, inr, true, Bool-cases, Option, none, some, Option-cases, List, [],
  All, if◌then◌else◌, ok, bind-eq_ok,
}
use nono_cedar_pdp.FilePaths.{
  FilePath, Metadata, Fs, join, join_cwd, resolve, absolutize, resolve_existing_prefix,
}
use nono_cedar_pdp.Isolation.{
  Warning, facts_of, base_of, check, check_private_key, refuse_a_readable_private_key,
}
use nono_cedar_pdp.Isolation.Judgements.{IsOurs, IsFree, SafeAncestor, ancestors}
use nono_cedar_pdp.Isolation.Laws.{
  IsTrusted, SafeLog, check-eq_ok, refuse_a_readable_private_key-eq_ok,
}
use nono_cedar_pdp.FilePaths.Resolution.{
  IsResolver, resolve-Resolved, lexical, prefix, resolve_at, resolve_existing_prefix_idem,
}

module _ {E : Type 0} (fs : Fs E) where
  -- An absolute path is the same from every directory.
  join_anywhere :
      (path : FilePath) (cwd : Option FilePath)
      → path.is_absolute ≡ true
      → join_cwd fs path cwd ≡ path
  unfolding join_cwd
  join_anywhere path cwd a =
      ap
        (λ b. if b then path else elim cwd as (λ _. FilePath) [
          | some c ↦ join c path
          | none ↦ elim fs.current_dir as (λ _. FilePath) [ some c ↦ join c path | none ↦ path ]
        ])
        a

  -- A key that is let through: it is ours, gives no one else any access, and stands under safe
  -- ancestors.
  abbrev pub IsSafeKey : FilePath → Type 0
  IsSafeKey key =
      (m : Metadata) × (fs.metadata key ≡ ok m)
      × IsOurs m.uid fs.euid
      × IsFree (facts_of m).mode 0o070 0o007
      × All (SafeAncestor fs) (ancestors key)

  module _ (resolver : IsResolver fs) where
    open resolver use {absolute, fixed, cwd_absolute}

    absolutize_resolved :
        (p r : FilePath) (cwd : Option FilePath)
        → fs.canonicalize p ≡ some r
        → absolutize fs r cwd ≡ r
    unfolding absolutize
    absolutize_resolved p r cwd h =
        ap (λ q. resolve fs q q.is_absolute q.names []) (join_anywhere r cwd (absolute p r h))
        ∙ resolve_at fs r r r.is_absolute r.names [] (fixed p r h)

    absolutize_anywhere :
        (path : FilePath) (cwd : Option FilePath)
        → path.is_absolute ≡ true
        → absolutize fs path cwd ≡ absolutize fs path none
    unfolding absolutize
    absolutize_anywhere path cwd a =
        ap (λ q. resolve fs q q.is_absolute q.names [])
          (join_anywhere path cwd a ∙ sym (join_anywhere path none a))

    joined_absolute :
        (path c : FilePath) → fs.current_dir ≡ some c → (join_cwd fs path none).is_absolute ≡ true
    unfolding join_cwd join
    joined_absolute path c e = elim (Bool-cases path.is_absolute) [
      | inl a ↦ ap (λ q. q.is_absolute) (join_anywhere path none a) ∙ a
      | inr a ↦ rw (join_cwd, a, e) (cwd_absolute c e)
    ]

    resolve_existing_prefix-absolute :
        (path c : FilePath)
        → fs.current_dir ≡ some c
        → (resolve_existing_prefix fs path).is_absolute ≡ true
    unfolding resolve_existing_prefix absolutize
    resolve_existing_prefix-absolute path c e =
        let joined = join_cwd fs path none in
        elim (resolve-Resolved fs joined joined.is_absolute joined.names []) [
          | lexical q ↦ ap (λ x. x.is_absolute) q ∙ joined_absolute path c e
          | prefix more rest r s d u q ↦
              ap (λ x. x.is_absolute) q
              ∙ absolute (record { is_absolute = joined.is_absolute; names = rest }) r d
        ]

    absolutize_prefix_again :
        (path : FilePath)
        → absolutize fs (resolve_existing_prefix fs path) (base_of fs fs.current_dir)
          ≡ resolve_existing_prefix fs path
    absolutize_prefix_again path =
        let again : absolutize fs (resolve_existing_prefix fs path) none
            ≡ resolve_existing_prefix fs path =
          unfold resolve_existing_prefix in resolve_existing_prefix_idem fs resolver path in
        elim (Option-cases fs.current_dir) [
          | inl e ↦
              subst
                (λ d.
                  absolutize fs (resolve_existing_prefix fs path) (base_of fs d)
                  ≡ resolve_existing_prefix fs path)
                (sym e) again
          | inr (c, e) ↦
              absolutize_anywhere (resolve_existing_prefix fs path) (base_of fs fs.current_dir)
                (resolve_existing_prefix-absolute path c e)
              ∙ again
        ]

    -- The paths that `run_serve` resolves once, for the loader and the audit log, are the ones that
    -- the checks walk: to absolutize the canonicalized policy directory, or the resolved path of the
    -- log, from the working directory as `check` does gives the same path, and so does doing it again
    -- behind that. The file system's resolution keeps to its laws.
    pub absolutize-resolved :
        (configured dir log : FilePath)
        → fs.canonicalize configured ≡ some dir
        → (let base = base_of fs fs.current_dir in
            let resolved = resolve_existing_prefix fs log in
            (absolutize fs dir base ≡ dir)
            × (absolutize fs (absolutize fs dir base) none ≡ dir)
            × (absolutize fs resolved base ≡ resolved)
            × (resolve_existing_prefix fs (absolutize fs resolved base) ≡ resolved))
    absolutize-resolved configured dir log e =
        let base = base_of fs fs.current_dir in
        let d = absolutize_resolved configured dir base e in
        let l = absolutize_prefix_again log in
        (
          d,
          ap (λ x. absolutize fs x none) d ∙ absolutize_resolved configured dir none e,
          l,
          ap (resolve_existing_prefix fs) l ∙ resolve_existing_prefix_idem fs resolver log,
        )

    -- With a policy directory that was canonicalized and an audit log whose existing prefix was, as
    -- `run_serve` has them, the startup check speaks of these very paths: when it passes, the
    -- directory is trusted and the log is safe, from whatever directory the daemon was started in.
    pub check-resolved :
        (configured dir log : FilePath) (warnings : List Warning)
        → fs.canonicalize configured ≡ some dir
        → check fs dir (resolve_existing_prefix fs log) fs.current_dir ≡ ok warnings
        → (let resolved = resolve_existing_prefix fs log in
            IsTrusted fs dir × All (SafeAncestor fs) (ancestors resolved) × SafeLog fs resolved)
    check-resolved configured dir log warnings e h =
        let base = base_of fs fs.current_dir in
        let (t, a, l) =
          check-eq_ok fs dir (resolve_existing_prefix fs log) fs.current_dir warnings h in
        let q = absolutize_prefix_again log in
        (
          subst (IsTrusted fs) (absolutize_resolved configured dir none e) (
              subst (λ d. IsTrusted fs (absolutize fs d none))
                (absolutize_resolved configured dir base e) t),
          subst (λ d. All (SafeAncestor fs) (ancestors d)) q a,
          subst (SafeLog fs) q l,
        )

    pub check_private_key-resolved :
        (configured key : FilePath) (cwd : Option FilePath) (warnings : List Warning)
        → fs.canonicalize configured ≡ some key
        → check_private_key fs key cwd ≡ ok warnings
        → IsSafeKey key
    unfolding check_private_key
    check_private_key-resolved configured key cwd warnings e h =
        let base = base_of fs cwd in
        let (u, k, r) =
          bind-eq_ok (refuse_a_readable_private_key fs (absolutize fs key base)) _ h in
        subst IsSafeKey (absolutize_resolved configured key none e) (
          subst (λ d. IsSafeKey (absolutize fs d none)) (absolutize_resolved configured key base e)
            (refuse_a_readable_private_key-eq_ok fs (absolutize fs key base) u k))
