-- ===== src/FilePaths/Resolution.antt =====
-- `absolutize` of src/isolation.rs: what it resolves stays resolved.
use nono_cedar_pdp.Base.{
  ◌≡◌, refl, sym, ap, ◌∙◌, subst, inl, inr, Bool, true, false, not, ◌&&◌, ◌||◌, Bool-cases, none,
  some, Option-cases, List, [], ◌∷◌, ◌++◌, append-nil, append_assoc, Bytes,
}
use nono_cedar_pdp.FilePaths.{
  FilePath, Fs, is_empty, is_parent_dir, join, join_cwd, resolve, absolutize,
  resolve_existing_prefix,
}

-- What `std::fs::canonicalize` and `std::env::current_dir` promise: a resolved path is absolute and
-- resolves to itself, a path behind a resolved one is found as behind what that was resolved to,
-- and the working directory is absolute.
pub record IsResolver {E : Type 0} (fs : Fs E) : Type 0 where
  pub absolute : (p r : FilePath) → fs.canonicalize p ≡ some r → r.is_absolute ≡ true
  pub fixed : (p r : FilePath) → fs.canonicalize p ≡ some r → fs.canonicalize r ≡ some r
  pub through :
      (p r : FilePath) (names : List Bytes)
      → fs.canonicalize p ≡ some r
      → fs.canonicalize (record p { names = names ++ p.names })
        ≡ fs.canonicalize (record r { names = names ++ r.names })
  pub cwd_absolute : (c : FilePath) → fs.current_dir ≡ some c → c.is_absolute ≡ true

-- No part of `names` behind `base` resolves, and none of them is `..`.
abbrev pub Unresolved : {E : Type 0} → Fs E → FilePath → List Bytes → Type 0
Unresolved fs base [] = Unit
Unresolved fs base (n ∷ names) =
    (fs.canonicalize (record base { names = (n ∷ names) ++ base.names }) ≡ none)
    × (is_parent_dir n ≡ false)
    × Unresolved fs base names

-- The two ways the loop ends.
pub data Resolved {E : Type 0} (fs : Fs E) (joined : FilePath) (is_absolute : Bool)
    (names taken : List Bytes) (out : FilePath) : Type 0 where
  lexical : out ≡ joined → Resolved fs joined is_absolute names taken out
  prefix :
      (more rest : List Bytes) (r : FilePath)
      → names ≡ more ++ rest
      → fs.canonicalize (record { is_absolute = is_absolute; names = rest }) ≡ some r
      → Unresolved fs (record { is_absolute = is_absolute; names = rest }) more
      → out ≡ record r { names = (taken ++ more) ++ r.names }
      → Resolved fs joined is_absolute names taken out

or_false : (a b : Bool) → a || b ≡ false → a ≡ false
or_false false b h = refl
or_false true b h = absurd (cc)

module _ {E : Type 0} (fs : Fs E) where
  pub resolve-Resolved :
      (joined : FilePath) (is_absolute : Bool) (names taken : List Bytes)
      → Resolved fs joined is_absolute names taken (resolve fs joined is_absolute names taken)
  unfolding resolve
  resolve-Resolved joined abs [] taken =
      elim (Option-cases (fs.canonicalize (record { is_absolute = abs; names = [] }))) [
        | inl e ↦ lexical (rw (resolve, e) refl)
        | inr (r, e) ↦
            prefix [] [] r refl e tt (
              rw (resolve, e)
                (ap (λ t. record r { names = t ++ r.names }) (sym (append-nil taken))))
      ]
  resolve-Resolved joined abs (n ∷ parent) taken =
      elim (Option-cases (fs.canonicalize (record { is_absolute = abs; names = n ∷ parent }))) [
        | inr (r, e) ↦
            prefix [] (n ∷ parent) r refl e tt (
              rw (resolve, e)
                (ap (λ t. record r { names = t ++ r.names }) (sym (append-nil taken))))
        | inl e ↦ elim (Bool-cases (is_parent_dir n || (not abs && is_empty parent))) [
          | inl b ↦ lexical (rw (resolve, e, b) refl)
          | inr b ↦ elim (resolve-Resolved joined abs parent (taken ++ n ∷ [])) [
            | lexical q ↦ lexical (rw (resolve, e, b) q)
            | prefix more rest r s c u q ↦
                prefix (n ∷ more) rest r (ap (◌∷◌ n) s) c
                  (
                    subst
                        (λ x. fs.canonicalize (record { is_absolute = abs; names = n ∷ x }) ≡ none)
                        s e,
                    or_false (is_parent_dir n) _ b,
                    u,
                  )
                  (rw (resolve, e, b)
                    (q
                      ∙ ap (λ x. record r { names = x ++ r.names })
                          (append_assoc taken (n ∷ []) more)))
          ]
        ]
      ]

  pub resolve_at :
      (joined r : FilePath) (is_absolute : Bool) (names taken : List Bytes)
      → fs.canonicalize (record { is_absolute = is_absolute; names = names }) ≡ some r
      → resolve fs joined is_absolute names taken ≡ record r { names = taken ++ r.names }
  unfolding resolve
  resolve_at joined r abs [] taken e = rw (resolve, e) refl
  resolve_at joined r abs (n ∷ names) taken e = rw (resolve, e) refl

  resolve_step :
      (joined : FilePath) (n : Bytes) (names taken : List Bytes)
      → fs.canonicalize (record { is_absolute = true; names = n ∷ names }) ≡ none
      → is_parent_dir n ≡ false
      → resolve fs joined true (n ∷ names) taken ≡ resolve fs joined true names (taken ++ n ∷ [])
  unfolding resolve
  resolve_step joined n names taken e d = rw (resolve, e, d) refl

  -- On a resolved base with nothing resolved behind it the loop ends at the base.
  resolve_again :
      (joined r : FilePath) (more taken : List Bytes)
      → r.is_absolute ≡ true
      → fs.canonicalize r ≡ some r
      → Unresolved fs r more
      → resolve fs joined r.is_absolute (more ++ r.names) taken
        ≡ record r { names = (taken ++ more) ++ r.names }
  resolve_again joined r [] taken a c u =
      resolve_at joined r r.is_absolute r.names taken c
      ∙ ap (λ x. record r { names = x ++ r.names }) (sym (append-nil taken))
  resolve_again joined r (n ∷ more) taken a c u =
      ap (λ b. resolve fs joined b (n ∷ (more ++ r.names)) taken) a
      ∙ resolve_step joined n (more ++ r.names) taken
          (subst
            (λ b.
              fs.canonicalize (record { is_absolute = b; names = n ∷ (more ++ r.names) }) ≡ none)
            a u.0)
          u.1
      ∙ ap (λ b. resolve fs joined b (more ++ r.names) (taken ++ n ∷ [])) (sym a)
      ∙ resolve_again joined r more (taken ++ n ∷ []) a c u.2
      ∙ ap (λ x. record r { names = x ++ r.names }) (append_assoc taken (n ∷ []) more)

  module _ (resolver : IsResolver fs) where
    open resolver use {absolute, fixed, through, cwd_absolute}

    -- What does not resolve behind a path does not behind what that resolves to.
    carried :
        (p r : FilePath) (more : List Bytes)
        → fs.canonicalize p ≡ some r
        → Unresolved fs p more
        → Unresolved fs r more
    carried p r [] c u = tt
    carried p r (n ∷ more) c u = (sym (through p r (n ∷ more) c) ∙ u.0, u.1, carried p r more c u.2)

    pub join_absolute : (path : FilePath) → path.is_absolute ≡ true → join_cwd fs path none ≡ path
    unfolding join_cwd
    join_absolute path a = rw (join_cwd, a) refl

    join_relative :
        (names : List Bytes)
        → (let path : FilePath = record { is_absolute = false; names = names } in
            join_cwd fs (join_cwd fs path none) none ≡ join_cwd fs path none)
    unfolding join_cwd join
    join_relative names =
        let path : FilePath = record { is_absolute = false; names = names } in
        elim (Option-cases fs.current_dir) [
          | inl e ↦
              let q : join_cwd fs path none ≡ path = rw (join_cwd, e) refl in
              ap (λ q. join_cwd fs q none) q
          | inr (c, e) ↦
              let q : join_cwd fs path none ≡ join c path = rw (join_cwd, e) refl in
              ap (λ q. join_cwd fs q none) q
              ∙ join_absolute (join c path) (cwd_absolute c e)
              ∙ sym q
        ]

    join_cwd_again :
        (is_absolute : Bool) (names : List Bytes)
        → (let path : FilePath = record { is_absolute = is_absolute; names = names } in
            join_cwd fs (join_cwd fs path none) none ≡ join_cwd fs path none)
    join_cwd_again true names =
        ap (λ q. join_cwd fs q none)
          (join_absolute (record { is_absolute = true; names = names }) refl)
    join_cwd_again false names = join_relative names

    absolutize_prefix :
        (p r : FilePath) (more : List Bytes)
        → fs.canonicalize p ≡ some r
        → Unresolved fs p more
        → absolutize fs (record r { names = more ++ r.names }) none
          ≡ record r { names = more ++ r.names }
    unfolding absolutize
    absolutize_prefix p r more c u =
        let a = absolute p r c in
        let out : FilePath = record r { names = more ++ r.names } in
        ap (λ q. resolve fs q q.is_absolute q.names []) (join_absolute out a)
        ∙ resolve_again out r more [] a (fixed p r c) (carried p r more c u)

    -- A path whose existing prefix is resolved, from the process's working directory, is resolved for
    -- good: to resolve it again gives the same path. The file system's resolution keeps to its laws.
    pub resolve_existing_prefix_idem :
        (path : FilePath)
        → resolve_existing_prefix fs (resolve_existing_prefix fs path)
          ≡ resolve_existing_prefix fs path
    unfolding resolve_existing_prefix absolutize
    resolve_existing_prefix_idem path =
        let joined = join_cwd fs path none in
        elim (resolve-Resolved joined joined.is_absolute joined.names []) [
          | lexical q ↦
              ap (λ x. absolutize fs x none) q
              ∙ ap (λ x. resolve fs x x.is_absolute x.names [])
                  (join_cwd_again path.is_absolute path.names)
          | prefix more rest r s c u q ↦
              ap (λ x. absolutize fs x none) q
              ∙ absolutize_prefix (record { is_absolute = joined.is_absolute; names = rest }) r more
                  c u
              ∙ sym q
        ]
