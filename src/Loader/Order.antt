-- ===== src/Loader/Order.antt =====
-- The load of src/cedar/engine.rs sorts the directory's entries, so that their order in the listing,
-- which the file system chooses, is forgotten.
use mathlib.Core.List.{Permᴰ}
use nono_cedar_pdp.Base.{
  ℕ, ◌≡◌, refl, sym, ap, ◌∙◌, subst, inl, inr, true, false, Bool-cases, if◌then◌else◌, List, [],
  ◌∷◌, map, Text, Bytes, ok,
}
use nono_cedar_pdp.Decision.{text_le}
use nono_cedar_pdp.Decision.Order.{text_le_total, text_le_antisym, text_le_trans}
use nono_cedar_pdp.Cedar.{Cedar}
use nono_cedar_pdp.Loader
use nono_cedar_pdp.Loader.{
  DirEntry, is_loaded, select, insert_entry, sort_entries, Env, load_entries, load_dir,
}
use nono_cedar_pdp.Loader.Laws.{keep, select_other, select_loaded}

module _ {E : Type 0} where
  -- A listing without an unreadable entry is selected whole.
  select-keep : (dir : Text) (es : List (DirEntry E)) → select dir (map ok es) ≡ ok (keep es)
  select-keep dir [] = unfold select in refl
  select-keep dir (e ∷ es) = elim (Bool-cases (is_loaded e)) [
    | inl t ↦
        select_loaded dir e (map ok es) t ∙ (ap (Loader.push e) (select-keep dir es) ∙ rw t refl)
    | inr t ↦ select_other dir e (map ok es) t ∙ (select-keep dir es ∙ rw t refl)
  ]

  -- Two insertions in either order, when the first name is strictly below the second.
  insert_below :
      (x y : DirEntry E) (l : List (DirEntry E))
      → text_le x.name y.name ≡ true
      → text_le y.name x.name ≡ false
      → insert_entry x (insert_entry y l) ≡ insert_entry y (insert_entry x l)
  unfolding insert_entry
  insert_below x y [] h k = rw (h, k) refl
  insert_below x y (z ∷ l) h k = elim (Bool-cases (text_le y.name z.name)) [
    | inl yz ↦ rw (yz, text_le_trans x.name y.name z.name h yz, h, k, yz) refl
    | inr yz ↦ elim (Bool-cases (text_le x.name z.name)) [
      | inl xz ↦ rw (yz, xz, k, yz) refl
      | inr xz ↦ rw (yz, xz, yz) (ap (◌∷◌ z) (insert_below x y l h k))
    ]
  ]

  -- Entries of one name are one entry, so that the order of any two insertions is no matter.
  insert_comm :
      (x y : DirEntry E) (l : List (DirEntry E))
      → (x.name ≡ y.name → x ≡ y)
      → insert_entry x (insert_entry y l) ≡ insert_entry y (insert_entry x l)
  insert_comm x y l same = elim (Bool-cases (text_le x.name y.name)) [
    | inr n ↦ sym (insert_below y x l (text_le_total x.name y.name n) n)
    | inl h ↦ elim (Bool-cases (text_le y.name x.name)) [
      | inr n ↦ insert_below x y l h n
      | inl k ↦
          let e = same (text_le_antisym x.name y.name h k) in
          subst (λ w. insert_entry x (insert_entry w l) ≡ insert_entry w (insert_entry x l)) e refl
    ]
  ]

  -- What the loader takes of one more entry goes in among the rest.
  taken : DirEntry E → List (DirEntry E) → List (DirEntry E)
  taken e l = if is_loaded e then insert_entry e l else l

  sort-keep-cons :
      (e : DirEntry E) (es : List (DirEntry E))
      → sort_entries (keep (e ∷ es)) ≡ taken e (sort_entries (keep es))
  unfolding sort_entries taken
  sort-keep-cons e es = elim (Bool-cases (is_loaded e)) [ inl t ↦ rw t refl | inr t ↦ rw t refl ]

  taken_comm :
      (x y : DirEntry E) (l : List (DirEntry E))
      → (x.name ≡ y.name → x ≡ y)
      → taken x (taken y l) ≡ taken y (taken x l)
  unfolding taken
  taken_comm x y l same = elim (Bool-cases (is_loaded x)) [
    | inr t ↦ rw t refl
    | inl t ↦ elim (Bool-cases (is_loaded y)) [
      | inr u ↦ rw (t, u) refl
      | inl u ↦ rw (t, u) (insert_comm x y l same)
    ]
  ]

  -- `entry` is what the directory holds under each name.
  module _ (entry : Bytes → DirEntry E) (named : (n : Bytes) → (entry n).name ≡ n) where
    abbrev sorted : List Bytes → List (DirEntry E)
    sorted ns = sort_entries (keep (map entry ns))

    entry-injective : (m n : Bytes) → (entry m).name ≡ (entry n).name → entry m ≡ entry n
    entry-injective m n h = ap entry (sym (named m) ∙ (h ∙ named n))

    sorted_two :
        (a b : Bytes) (l : List Bytes)
        → sorted (a ∷ b ∷ l) ≡ taken (entry a) (taken (entry b) (sorted l))
    sorted_two a b l =
        sort-keep-cons (entry a) (map entry (b ∷ l))
        ∙ ap (taken (entry a)) (sort-keep-cons (entry b) (map entry l))

    sorted_swap : (a b : Bytes) (l : List Bytes) → sorted (a ∷ b ∷ l) ≡ sorted (b ∷ a ∷ l)
    sorted_swap a b l =
        sorted_two a b l
        ∙ (taken_comm (entry a) (entry b) (sorted l) (entry-injective a b) ∙ sym (sorted_two b a l))

    sorted_perm : {ms ns : List Bytes} → Permᴰ ms ns → sorted ms ≡ sorted ns
    sorted_perm Permᴰ.nil = refl
    sorted_perm (Permᴰ.cons {a} {b} {l₁} {l₂} e p) =
        sort-keep-cons (entry a) (map entry l₁)
        ∙ (ap (taken (entry a)) (sorted_perm p)
            ∙ (ap (λ n. taken (entry n) (sorted l₂)) e
                ∙ sym (sort-keep-cons (entry b) (map entry l₂))))
    sorted_perm (Permᴰ.swap {a} {b} {a'} {b'} {l} e f) =
        sorted_swap a b l ∙ (ap (λ x. sorted (x ∷ a ∷ l)) f ∙ ap (λ x. sorted (a' ∷ x ∷ l)) e)
    sorted_perm (Permᴰ.trans p q) = sorted_perm p ∙ sorted_perm q

    -- The order in which the file system lists a directory is no matter: the same names in another
    -- order give the same load, with the same set, policy ids, file list and hash, or the same error.
    -- Every entry of the listing could be read.
    pub load_dir-perm :
        (c : Cedar) (env : Env) (dir : Text) (schema : c.Schema) (generation : ℕ)
        {ms ns : List Bytes}
        → Permᴰ ms ns
        → load_dir c env dir (ok (map ok (map entry ms))) schema generation
          ≡ load_dir c env dir (ok (map ok (map entry ns))) schema generation
    unfolding load_dir load_entries
    load_dir-perm c env dir schema generation {ms} {ns} p =
        rw (select-keep dir (map entry ms), select-keep dir (map entry ns), sorted_perm p) refl
