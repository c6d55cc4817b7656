-- ===== src/Loader/Complete.antt =====
-- When a load of src/cedar/engine.rs succeeds.
use nono_cedar_pdp.Base.{
  ℕ, ◌≡◌, refl, sym, ap, ◌∙◌, inl, inr, Bool-cases, List, [], ◌∷◌, map, arith, ◌==◌, Text, Bytes,
  ok,
}
use nono_cedar_pdp.Utf8.{as_bytes}
use nono_cedar_pdp.Cedar.{Cedar}
use nono_cedar_pdp.ContentDigest.{file, finish}
use nono_cedar_pdp.Loader.{
  PolicyLoadError, DirEntry, Listing, file_stem, is_loaded, select, sort_entries, Env,
  LoadedPolicies, add_all, load_file, load_files, checked, load_entries, load_dir,
}
use nono_cedar_pdp.Loader
use nono_cedar_pdp.Loader.Laws.{
  keep, select_loaded, select_other, Added, no_more, next, Built, IsLoad,
}

select-map_ok :
    {E : Type 0} (dir : Text) (entries : List (DirEntry E))
    → select dir (map ok entries) ≡ ok (keep entries)
select-map_ok dir [] = unfold select in refl
select-map_ok dir (e ∷ es) = elim (Bool-cases (is_loaded e)) [
  | inl t ↦ rw t (select_loaded dir e (map ok es) t ∙ ap (Loader.push e) (select-map_ok dir es))
  | inr f ↦ rw f (select_other dir e (map ok es) f ∙ select-map_ok dir es)
]

module _ (c : Cedar) where
  open c use {Schema, Policy, PolicySet, num_of_policies, empty_set, validation_passed}

  Added-add_all :
      {E : Type 0} (name : Bytes) (stem : Text) {n : ℕ} {ps : List Policy} {set out : PolicySet}
      → Added c stem n ps set out
      → add_all c {E = E} name stem n ps set ≡ ok out
  unfolding add_all
  Added-add_all name stem no_more = refl
  Added-add_all name stem (next a h) = rw a (Added-add_all name stem h)

  Built-load_files :
      {E : Type 0} (env : Env) (es : List (DirEntry E)) (set : PolicySet) (fed : Bytes)
      {out : PolicySet}
      → Built c env.to_string_lossy es set out
      → (fed' : Bytes) × (load_files c env es set fed ≡ ok (out, fed'))
  unfolding load_files load_file
  Built-load_files env [] set fed h = (fed, ap (λ s. ok (s, fed)) (sym h))
  Built-load_files {E} env (e ∷ es) set fed (text, t, parsed, p, set', a, h) =
      let (fed', k) = Built-load_files env es set' (file fed e.name (as_bytes text)) h in
      (
        fed',
        rw t
            (rw p (rw (Added-add_all {E = E} e.name (env.to_string_lossy (file_stem e.name)) a) k)),
      )

  -- A load succeeds, with the same set, as soon as there is what a load that succeeds has done.
  pub IsLoad-load_dir :
      {E : Type 0} (env : Env) (dir : Text) (listing : Listing E) (schema : Schema) (generation : ℕ)
      (l : LoadedPolicies c)
      → IsLoad c env schema listing generation l
      → (m : LoadedPolicies c) × (load_dir c env dir listing schema generation ≡ ok m)
        × (m.set ≡ l.set)
  unfolding load_dir load_entries checked
  IsLoad-load_dir env dir listing schema generation l h =
      let (fed, k) = Built-load_files env (sort_entries (keep h.entries)) empty_set [] h.built in
      elim (Bool-cases (num_of_policies l.set == 0)) [
        | inl z ↦ absurd (h.is_checked.not_empty (ground (arith, z)))
        | inr z ↦ (
          record {
            set = l.set;
            generation = generation;
            loaded_at = env.now;
            files = map (λ e. e.name) (sort_entries (keep h.entries));
            content_hash = finish env.sha256 fed;
          },
          rw h.listed
              (rw (select-map_ok dir h.entries) (rw k (rw z (rw h.is_checked.validated refl)))),
          refl,
        )
      ]
