-- ===== src/Loader/Laws.antt =====
-- What a load of src/cedar/engine.rs that succeeds has done.
use nono_cedar_pdp.Base.{
  ℕ, ◌≡◌, ◌≢◌, refl, sym, ap, ◌∙◌, subst, inl, inr, true, false, Bool-cases, List, [], ◌∷◌, map,
  arith, ◌==◌, if◌then◌else◌, Text, Bytes, Result, ok, err, map_err, bind-eq_ok, map_err-eq_ok,
  ok-injective, suc,
}
use nono_cedar_pdp.Utf8.{as_bytes}
use nono_cedar_pdp.Cedar.{Cedar}
use nono_cedar_pdp.Loader
use nono_cedar_pdp.ContentDigest.{file, finish, fed_from}
use nono_cedar_pdp.Loader.{
  PolicyLoadError, DirEntry, Listing, extension, file_stem, is_cedar, skip_reason, is_loaded,
  select, sort_entries, Env, LoadedPolicies, provenance_id, add_all, load_file, load_files, checked,
  load_entries, load_dir,
}

-- The entries of a listing that the loader takes: `*.cedar`, not hidden, and a regular file.
abbrev pub keep : {E : Type 0} → List (DirEntry E) → List (DirEntry E)
keep [] = []
keep (e ∷ es) = if is_loaded e then e ∷ keep es else keep es

push-eq_ok :
    {F A : Type 0} (a : A) (r : Result F (List A)) {out : List A}
    → Loader.push a r ≡ ok out
    → (rest : List A) × (r ≡ ok rest) × (out ≡ a ∷ rest)
push-eq_ok a (ok o) h = (o, refl, ground arith)
push-eq_ok a (err e) h = absurd (cc)

pub select_other :
    {E : Type 0} (dir : Text) (entry : DirEntry E) (rest : List (Result E (DirEntry E)))
    → is_loaded entry ≡ false
    → select dir (ok entry ∷ rest) ≡ select dir rest
unfolding select is_loaded
select_other dir entry rest h = ground arith

pub select_loaded :
    {E : Type 0} (dir : Text) (entry : DirEntry E) (rest : List (Result E (DirEntry E)))
    → is_loaded entry ≡ true
    → select dir (ok entry ∷ rest) ≡ Loader.push entry (select dir rest)
unfolding select is_loaded
select_loaded dir entry rest h = ground arith

-- A selection that succeeds met no unreadable entry, and is what the loader takes, in order.
pub select-eq_ok :
    {E : Type 0} (dir : Text) (listing : List (Result E (DirEntry E))) {out : List (DirEntry E)}
    → select dir listing ≡ ok out
    → (entries : List (DirEntry E)) × (listing ≡ map ok entries) × (out ≡ keep entries)
select-eq_ok dir [] h = ([], refl, unfold select in ground arith)
select-eq_ok dir (err e ∷ rest) h = unfold select in absurd (cc)
select-eq_ok dir (ok entry ∷ rest) {out} h = elim (Bool-cases (is_loaded entry)) [
  | inl t ↦
      let (more, r, q) =
        push-eq_ok entry (select dir rest) (sym (select_loaded dir entry rest t) ∙ h) in
      let (es, l, k) = select-eq_ok dir rest r in
      (entry ∷ es, ap (◌∷◌ (ok entry)) l, rw t (q ∙ ap (◌∷◌ entry) k))
  | inr t ↦
      let (es, l, k) = select-eq_ok dir rest (sym (select_other dir entry rest t) ∙ h) in
      (entry ∷ es, ap (◌∷◌ (ok entry)) l, rw t k)
]

-- The name and the bytes of each file, as they were read.
abbrev pub IsRead : {E : Type 0} → List (DirEntry E) → List (Bytes × Bytes) → Type 0
IsRead [] [] = Unit
IsRead [] (p ∷ ps) = ⊥
IsRead (e ∷ es) [] = ⊥
IsRead (e ∷ es) (p ∷ ps) =
    ((text : Text) × (e.contents ≡ ok text) × (p ≡ (e.name, as_bytes text))) × IsRead es ps

module _ (c : Cedar) where
  open c use {
    Schema, Policy, PolicySet, num_of_policies, empty_set, set_from_str, add, policies, new_id,
    id_annotation, validation_passed,
  }

  -- The policies of one file are added one after another, each under the file's stem with its `@id`
  -- or else with its place in the file.
  pub data Added (stem : Text) : ℕ → List Policy → PolicySet → PolicySet → Type 0 where
    no_more : {n : ℕ} {set : PolicySet} → Added stem n [] set set
    next :
        {n : ℕ} {p : Policy} {ps : List Policy} {set set' out : PolicySet}
        → add set (new_id p (provenance_id c stem n (id_annotation p))) ≡ ok set'
        → Added stem (suc n) ps set' out
        → Added stem n (p ∷ ps) set out

  -- Every file was read and parsed, and the set has been added all its policies, file by file.
  abbrev pub Built :
      {E : Type 0} → (Bytes → Text) → List (DirEntry E) → PolicySet → PolicySet → Type 0
  Built lossy [] set out = out ≡ set
  Built lossy (e ∷ es) set out =
      (text : Text) × (e.contents ≡ ok text)
      × (parsed : PolicySet) × (set_from_str text ≡ ok parsed)
      × (set' : PolicySet) × Added (lossy (file_stem e.name)) 0 (policies parsed) set set'
      × Built lossy es set' out

  add_all-eq_ok :
      {E : Type 0} (name : Bytes) (stem : Text) (n : ℕ) (ps : List Policy) (set : PolicySet)
      {out : PolicySet}
      → add_all c {E = E} name stem n ps set ≡ ok out
      → Added stem n ps set out
  unfolding add_all
  add_all-eq_ok name stem n [] set h = subst (Added stem n [] set) (ok-injective h) no_more
  add_all-eq_ok name stem n (p ∷ ps) set h =
      let new = new_id p (provenance_id c stem n (id_annotation p)) in
      let (set', a, h1) = bind-eq_ok (map_err (PolicyLoadError.duplicate name) (add set new)) _ h in
      next (map_err-eq_ok (PolicyLoadError.duplicate name) (add set new) a)
        (add_all-eq_ok name stem (suc n) ps set' h1)

  load_file-eq_ok :
      {E : Type 0} (env : Env) (entry : DirEntry E) (set : PolicySet) (fed : Bytes)
      {out : PolicySet × Bytes}
      → load_file c env entry set fed ≡ ok out
      → (text : Text) × (entry.contents ≡ ok text)
        × (parsed : PolicySet) × (set_from_str text ≡ ok parsed)
        × Added (env.to_string_lossy (file_stem entry.name)) 0 (policies parsed) set out.0
        × (out.1 ≡ file fed entry.name (as_bytes text))
  unfolding load_file
  load_file-eq_ok env entry set fed {out} h =
      let (text, t, h1) =
        bind-eq_ok (map_err (PolicyLoadError.read_file entry.name) entry.contents) _ h in
      let (parsed, p, h2) =
        bind-eq_ok (map_err (PolicyLoadError.parse entry.name) (set_from_str text)) _ h1 in
      let stem = env.to_string_lossy (file_stem entry.name) in
      let (set', a, h3) =
        bind-eq_ok {A = PolicySet} (add_all c entry.name stem 0 (policies parsed) set)
          (λ s. ok (s, file fed entry.name (as_bytes text))) h2 in
      let q = ok-injective h3 in
      (
        text,
        map_err-eq_ok (PolicyLoadError.read_file entry.name) entry.contents t,
        parsed,
        map_err-eq_ok (PolicyLoadError.parse entry.name) (set_from_str text) p,
        subst (Added stem 0 (policies parsed) set) (ap (λ x. x.0) q)
            (add_all-eq_ok entry.name stem 0 (policies parsed) set a),
        sym (ap (λ x. x.1) q),
      )

  load_files-eq_ok :
      {E : Type 0} (env : Env) (entries : List (DirEntry E)) (set : PolicySet) (fed : Bytes)
      {out : PolicySet × Bytes}
      → load_files c env entries set fed ≡ ok out
      → (read : List (Bytes × Bytes)) × IsRead entries read
        × (out.1 ≡ fed_from fed read)
        × (map (λ e. e.name) entries ≡ map (λ p. p.0) read)
        × Built env.to_string_lossy entries set out.0
  unfolding load_files fed_from
  load_files-eq_ok env [] set fed h =
      let q = ok-injective h in ([], tt, sym (ap (λ x. x.1) q), refl, sym (ap (λ x. x.0) q))
  load_files-eq_ok env (e ∷ es) set fed h =
      let (state, s, h1) =
        bind-eq_ok (load_file c env e set fed) (λ st. load_files c env es st.0 st.1) h in
      let (text, t, parsed, p, a, f) = load_file-eq_ok env e set fed s in
      let (read, r, o, n, b) = load_files-eq_ok env es state.0 state.1 h1 in
      (
        (e.name, as_bytes text) ∷ read,
        ((text, t, refl), r),
        o ∙ ap (λ b. fed_from b read) f,
        ap (◌∷◌ e.name) n,
        (text, t, parsed, p, state.0, a, b),
      )

  -- The guards that every set passes before it can decide anything.
  pub record IsChecked (schema : Schema) (l : LoadedPolicies c) : Type 0 where
    pub not_empty : num_of_policies l.set ≢ 0
    pub validated : validation_passed schema l.set ≡ true

  pub checked-eq_ok :
      {E : Type 0} (env : Env) (set : PolicySet) (schema : Schema) (source : Text) (generation : ℕ)
      (files : List Bytes) (hash : Text) {l : LoadedPolicies c}
      → checked c {E = E} env set schema source generation files hash ≡ ok l
      → IsChecked schema l
        × (l.generation ≡ generation)
        × (l.files ≡ files)
        × (l.content_hash ≡ hash)
        × (l.set ≡ set)
  unfolding checked
  checked-eq_ok env set schema source generation files hash {l} h =
      elim (Bool-cases (num_of_policies set == 0)) [
        | inl z ↦ absurd (ground arith)
        | inr z ↦ elim (Bool-cases (validation_passed schema set)) [
          | inr v ↦ absurd (ground arith)
          | inl v ↦
              let q : l.set ≡ set = ground arith in
              (
                record { not_empty = rw q (ground arith); validated = rw q v },
                ground arith,
                ground arith,
                ground arith,
                q,
              )
        ]
      ]

  -- What a load that succeeds has done: every entry of the listing could be read, the files are
  -- the loadable ones in the order of their names, each was read whole and parsed, the set is what
  -- adding all their policies to an empty one gives, the recorded hash is that of exactly those names
  -- and contents, and the set is not empty and passed strict validation.
  pub record IsLoad {E : Type 0} (env : Env) (schema : Schema) (listing : Listing E)
      (generation : ℕ) (l : LoadedPolicies c) : Type 0 where
    pub entries : List (DirEntry E)
    pub read : List (Bytes × Bytes)
    pub listed : listing ≡ ok (map ok entries)
    pub was_read : IsRead (sort_entries (keep entries)) read
    pub built : Built env.to_string_lossy (sort_entries (keep entries)) empty_set l.set
    pub files : l.files ≡ map (λ p. p.0) read
    pub hash : l.content_hash ≡ finish env.sha256 (fed_from [] read)
    pub generation_is : l.generation ≡ generation
    pub is_checked : IsChecked schema l

  load_entries-eq_ok :
      {E : Type 0} (env : Env) (dir : Text) (listing : List (Result E (DirEntry E)))
      (schema : Schema) (generation : ℕ) {l : LoadedPolicies c}
      → load_entries c env dir listing schema generation ≡ ok l
      → IsLoad env schema (ok listing) generation l
  unfolding load_entries
  load_entries-eq_ok {E} env dir listing schema generation {l} h =
      let (selected, s, h1) = bind-eq_ok {A = List (DirEntry E)} (select dir listing) _ h in
      let (state, f, h2) =
        bind-eq_ok {A = PolicySet × Bytes} (load_files c env (sort_entries selected) empty_set [])
          (λ st.
            checked c env st.0 schema dir generation (map (λ e. e.name) (sort_entries selected))
              (finish env.sha256 st.1))
          h1 in
      let (entries, q, k) = select-eq_ok dir listing s in
      let (read, r, o, n, b) = load_files-eq_ok env (sort_entries selected) empty_set [] f in
      let (chk, g, fs, hs, ss) =
        checked-eq_ok env state.0 schema dir generation (map (λ e. e.name) (sort_entries selected))
          (finish env.sha256 state.1) h2 in
      record {
        entries = entries;
        read = read;
        listed = ap ok q;
        was_read = subst (λ es. IsRead (sort_entries es) read) k r;
        built =
            subst (λ x. Built env.to_string_lossy (sort_entries (keep entries)) empty_set x)
              (sym ss)
              (subst (λ es. Built env.to_string_lossy (sort_entries es) empty_set state.0) k b);
        files = fs ∙ n;
        hash = hs ∙ ap (finish env.sha256) o;
        generation_is = g;
        is_checked = chk;
      }

  -- A load of a directory that succeeds is such a load: no unreadable entry was passed over, every
  -- loadable file was read and parsed, the set holds what adding all their policies gives, each under
  -- the file's stem and its `@id` or place, the recorded hash is that of exactly those files' names and
  -- bytes, and the set is not empty and passed validation.
  pub load_dir-eq_ok :
      {E : Type 0} (env : Env) (dir : Text) (listing : Listing E) (schema : Schema) (generation : ℕ)
      {l : LoadedPolicies c}
      → load_dir c env dir listing schema generation ≡ ok l
      → IsLoad env schema listing generation l
  unfolding load_dir
  load_dir-eq_ok {E} env dir listing schema generation {l} h =
      let (entries, e, h1) =
        bind-eq_ok (map_err (PolicyLoadError.io dir) listing)
          (λ es. load_entries c env dir es schema generation) h in
      subst (λ ls. IsLoad env schema ls generation l)
        (sym (map_err-eq_ok (PolicyLoadError.io dir) listing e))
        (load_entries-eq_ok env dir entries schema generation h1)
