-- ===== src/Lint/Pins.antt =====
-- `pins_a_token` of src/cedar/engine.rs against what a `like` pattern matches.
use nono_cedar_pdp.Base.{
  ℕ, zero, suc, ◌≡◌, refl, sym, ap, ◌∙◌, ◌⊎◌, inl, inr, true, false, Option, none, some,
  Option-cases, List, [], ◌∷◌, ◌++◌, Text, lit, text_eq_iff,
}
use nono_cedar_pdp.Adapter.{and_then, map_some}
use nono_cedar_pdp.Json.{JsonReader}
use nono_cedar_pdp.Lint.{
  is_text, position, get_elem?, is_wildcard, literal, ends_token, pins_a_token,
}

-- A pattern: characters, and `none` for a wildcard. A wildcard stands for any text.
pub data Matches : List (Option ℕ) → Text → Type 0 where
  end : Matches [] []
  char : {c : ℕ} {ps : List (Option ℕ)} {t : Text} → Matches ps t → Matches (some c ∷ ps) (c ∷ t)
  wildcard :
      (skipped : Text) {ps : List (Option ℕ)} {t : Text}
      → Matches ps t
      → Matches (none ∷ ps) (skipped ++ t)

-- The characters in front of the first wildcard.
unfoldable pub literal_run : List (Option ℕ) → Text
literal_run [] = []
literal_run (none ∷ ps) = []
literal_run (some c ∷ ps) = c ∷ literal_run ps

module _ (json : JsonReader) where
  open json use {Value, as_array}

  -- What one element of a pattern's JSON form stands for.
  abbrev pub Reads : Value → Option ℕ → Type 0
  Reads e none = is_wildcard json e ≡ true
  Reads e (some c) = (is_wildcard json e ≡ false) × (literal json e ≡ some (c ∷ []))

  abbrev pub AllRead : List Value → List (Option ℕ) → Type 0
  AllRead [] [] = Unit
  AllRead [] (p ∷ ps) = ⊥
  AllRead (e ∷ es) [] = ⊥
  AllRead (e ∷ es) (p ∷ ps) = Reads e p × AllRead es ps

  position_here :
      (e : Value) (es : List Value)
      → is_wildcard json e ≡ true
      → position (is_wildcard json) (e ∷ es) ≡ some 0
  unfolding position
  position_here e es h = rw h refl

  position_later :
      (e : Value) (es : List Value)
      → is_wildcard json e ≡ false
      → position (is_wildcard json) (e ∷ es) ≡ map_some suc (position (is_wildcard json) es)
  unfolding position
  position_later e es h = rw h refl

  map_some-none : {o : Option ℕ} → map_some suc o ≡ none → o ≡ none
  map_some-none {o = none} h = refl
  map_some-none {o = some n} h = absurd (cc)

  map_some-some : {o : Option ℕ} {n : ℕ} → map_some suc o ≡ some (suc n) → o ≡ some n
  map_some-some {o = none} h = absurd (cc)
  map_some-some {o = some m} h = cc

  map_some-zero : (o : Option ℕ) → map_some suc o ≡ some 0 → ⊥
  map_some-zero none h = cc
  map_some-zero (some m) h = cc

  -- With no wildcard the pattern is one text.
  exact :
      (es : List Value) (ps : List (Option ℕ)) (t : Text)
      → AllRead es ps
      → position (is_wildcard json) es ≡ none
      → Matches ps t
      → t ≡ literal_run ps
  unfolding literal_run
  exact [] [] t r h end = refl
  exact [] (p ∷ ps) t r h m = absurd r
  exact (e ∷ es) [] t r h m = absurd r
  exact (e ∷ es) (none ∷ ps) _ r h (wildcard s m) = absurd (cc (position_here e es r.0))
  exact (e ∷ es) (some c ∷ ps) _ r h (char m) =
      ap (◌∷◌ c) (exact es ps _ r.1 (map_some-none (sym (position_later e es r.0.0) ∙ h)) m)

  -- The text matched begins with the run, which ends in a space.
  pinned :
      (es : List Value) (ps : List (Option ℕ)) (t : Text) (n : ℕ)
      → AllRead es ps
      → position (is_wildcard json) es ≡ some (suc n)
      → is_text (lit " ") (and_then (get_elem? es n) (literal json)) ≡ true
      → Matches ps t
      → (front : Text) × (rest : Text) × (literal_run ps ≡ front ++ b' ' ∷ [])
        × (t ≡ front ++ (b' ' ∷ rest))
  unfolding literal_run get_elem?
  pinned [] ps t n r h k m = unfold position in absurd (cc)
  pinned (e ∷ es) [] t n r h k m = absurd r
  pinned (e ∷ es) (none ∷ ps) t n r h k m = absurd (cc (position_here e es r.0))
  pinned (e ∷ []) (some c ∷ ps) _ zero r h k (char m) =
      unfold position in absurd (cc (position_later e [] r.0.0))
  pinned (e ∷ d ∷ es) (some c ∷ []) _ zero r h k (char m) = absurd r.1
  pinned (e ∷ d ∷ es) (some c ∷ some b ∷ ps) _ zero r h k (char m) =
      let p = map_some-some (sym (position_later e (d ∷ es) r.0.0) ∙ h) in
      absurd (map_some-zero _ (sym (position_later d es r.1.0.0) ∙ p))
  pinned (e ∷ d ∷ es) (some c ∷ none ∷ ps) _ zero r h k (char (wildcard s {t = u} m)) =
      let q : c ∷ [] ≡ lit " " =
        (text_eq_iff (c ∷ []) (lit " ")).0 (ap (is_text (lit " ")) (sym r.0.1) ∙ k) in
      let sp : c ≡ b' ' = unfold lit in cc in
      ([], s ++ u, ap (λ x. x ∷ []) sp, ap (λ x. x ∷ (s ++ u)) sp)
  pinned (e ∷ es) (some c ∷ ps) _ (suc n) r h k (char m) =
      let p = map_some-some (sym (position_later e es r.0.0) ∙ h) in
      let (front, rest, a, b) = pinned es ps _ n r.1 p k m in
      (c ∷ front, rest, ap (◌∷◌ c) a, ap (◌∷◌ c) b)

  -- A pattern that the lint takes for a pin names whole words: a text that it matches is the
  -- pattern's own text, or begins with the text in front of the first wildcard, of which the last
  -- character is a space. The pattern's elements are characters and wildcards.
  pub pins_a_token_sound :
      (p : Value) (es : List Value) (ps : List (Option ℕ)) (t : Text)
      → pins_a_token json p ≡ true
      → as_array p ≡ some es
      → AllRead es ps
      → Matches ps t
      → (t ≡ literal_run ps)
        ⊎ ((front : Text) × (rest : Text) × (literal_run ps ≡ front ++ b' ' ∷ [])
            × (t ≡ front ++ (b' ' ∷ rest)))
  unfolding pins_a_token ends_token
  pins_a_token_sound p es ps t h a r m =
      let k : ends_token json es (position (is_wildcard json) es) ≡ true =
        rw (pins_a_token, a) at h in
      elim (Option-cases (position (is_wildcard json) es)) [
        | inl e ↦ inl (exact es ps t r e m)
        | inr (zero, e) ↦ absurd (cc)
        | inr (suc n, e) ↦ inr (pinned es ps t n r e (rw (ends_token, e) at k) m)
      ]
