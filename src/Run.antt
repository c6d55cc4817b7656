-- ===== src/Run.antt =====
-- Code that acts on the outside: what it did, in order, and how it ended. `?` ends a run early, with
-- what was done so far.
use nono_cedar_pdp.Base.{
  ◌≡◌, refl, ap, ◌∙◌, List, [], ◌∷◌, ◌++◌, All, All-append, map, Result, ok, err,
}

pub record Run (Ev E A : Type 0) : Type 0 where
  pub did : List Ev
  pub result : Result E A

module _ {Ev E : Type 0} where
  unfoldable pub pure : {A : Type 0} → A → Run Ev E A
  pure a = record { did = []; result = ok a }

  -- A call that leaves nothing outside.
  unfoldable pub lift : {A : Type 0} → Result E A → Run Ev E A
  lift r = record { did = []; result = r }

  unfoldable pub act : Ev → Run Ev E (Unit {0})
  act e = record { did = e ∷ []; result = ok tt }

  unfoldable pub act_all : List Ev → Run Ev E (Unit {0})
  act_all es = record { did = es; result = ok tt }

  unfoldable pub after : {A B : Type 0} → List Ev → Result E A → (A → Run Ev E B) → Run Ev E B
  after did (err e) next = record { did = did; result = err e }
  after did (ok a) next = let r = next a in record { did = did ++ r.did; result = r.result }

infixl 5 ◌>>=◌
unfoldable pub ◌>>=◌ : {Ev E A B : Type 0} → Run Ev E A → (A → Run Ev E B) → Run Ev E B
unfolding after
m >>= next = after m.did m.result next

-- The same run among further events, its errors among further ones.
abbrev map_result : {E F A : Type 0} → (E → F) → Result E A → Result F A
map_result f (ok a) = ok a
map_result f (err e) = err (f e)

unfoldable pub inside : {Ev Ev' E E' A : Type 0} → (Ev → Ev') → (E → E') → Run Ev E A → Run Ev' E' A
inside f g r = record { did = map f r.did; result = map_result g r.result }

-- How a chain that succeeds went: its first step succeeded, and its events are both steps' in order.
pub record Chain {Ev E A B : Type 0} (m : Run Ev E A) (next : A → Run Ev E B) (b : B) : Type 0 where
  pub value : A
  pub first : m.result ≡ ok value
  pub second : (next value).result ≡ ok b
  pub events : (m >>= next).did ≡ m.did ++ (next value).did

after-Chain :
    {Ev E A B : Type 0} (did : List Ev) (r : Result E A) (next : A → Run Ev E B) {b : B}
    → (after did r next).result ≡ ok b
    → Chain (record { did = did; result = r }) next b
unfolding after ◌>>=◌
after-Chain did (err e) next h = absurd (cc)
after-Chain did (ok a) next h = record { value = a; first = refl; second = h; events = refl }

pub bind-Chain :
    {Ev E A B : Type 0} (m : Run Ev E A) (next : A → Run Ev E B) {b : B}
    → (m >>= next).result ≡ ok b
    → Chain m next b
unfolding ◌>>=◌
bind-Chain m next h = after-Chain m.did m.result next h

-- A chain does only what its steps do.
after-All :
    {Ev E A B : Type 0} (P : Ev → Type 0) (did : List Ev) (r : Result E A) (next : A → Run Ev E B)
    → All P did
    → ((a : A) → r ≡ ok a → All P (next a).did)
    → All P (after did r next).did
unfolding after
after-All P did (err e) next h k = h
after-All P did (ok a) next h k = All-append P did (next a).did h (k a refl)

-- A run that does only what satisfies a predicate.
pub record Only {Ev E A : Type 0} (P : Ev → Type 0) (m : Run Ev E A) : Type 0 where
  pub events : All P m.did

pub bind-Only :
    {Ev E A B : Type 0} {P : Ev → Type 0} {m : Run Ev E A} {next : A → Run Ev E B}
    → Only P m
    → ((a : A) → m.result ≡ ok a → Only P (next a))
    → Only P (m >>= next)
unfolding ◌>>=◌
bind-Only {P = P} {m = m} {next = next} h k = record {
  events = after-All P m.did m.result next h.events (λ a e. (k a e).events);
}

pub lift-Only :
    {Ev E A : Type 0} {P : Ev → Type 0} (r : Result E A) → Only {E = E} P (lift {Ev = Ev} r)
unfolding lift
lift-Only r = record { events = tt }

pub pure-Only : {Ev E A : Type 0} {P : Ev → Type 0} (a : A) → Only P (pure {Ev = Ev} {E = E} a)
unfolding pure
pure-Only a = record { events = tt }

pub act-Only : {Ev E : Type 0} {P : Ev → Type 0} (e : Ev) → P e → Only P (act {E = E} e)
unfolding act
act-Only e h = record { events = (h, tt) }

pub act_all-Only :
    {Ev E : Type 0} {P : Ev → Type 0} (es : List Ev) → All P es → Only P (act_all {E = E} es)
unfolding act_all
act_all-Only es h = record { events = h }

-- A run that does nothing.
pub did_nothing : {Ev E A : Type 0} (m : Run Ev E A) → Only (λ e. ⊥) m → m.did ≡ []
did_nothing m h = no_events m.did h.events
  where
    no_events : {Ev : Type 0} (es : List Ev) → All (λ e. ⊥) es → es ≡ []
    no_events [] h = refl
    no_events (e ∷ es) h = absurd h.0

-- What a call gave, from the run that it makes.
pub lift_result :
    (Ev : Type 0) {E A : Type 0} (r : Result E A) {a : A}
    → (lift {Ev = Ev} r).result ≡ ok a
    → r ≡ ok a
unfolding lift
lift_result Ev r h = h

pub bind_result :
    {Ev E A B : Type 0} (m : Run Ev E A) (next : A → Run Ev E B) {b : B}
    → (m >>= next).result ≡ ok b
    → (a : A) × (m.result ≡ ok a)
      × ((next a).result ≡ ok b)
      × ((m >>= next).did ≡ m.did ++ (next a).did)
bind_result m next h = let k = bind-Chain m next h in (k.value, k.first, k.second, k.events)

-- The same for a call that leaves nothing outside, and for a list of acts.
pub bind_lift :
    {Ev E A B : Type 0} (r : Result E A) (next : A → Run Ev E B) {b : B}
    → (lift r >>= next).result ≡ ok b
    → (a : A) × (r ≡ ok a) × ((next a).result ≡ ok b) × ((lift r >>= next).did ≡ (next a).did)
unfolding ◌>>=◌ after lift
bind_lift (err e) next h = absurd (cc)
bind_lift (ok a) next h = (a, refl, h, refl)

pub bind_act_all :
    {Ev E B : Type 0} (es : List Ev) (next : Unit {0} → Run Ev E B) {b : B}
    → (act_all es >>= next).result ≡ ok b
    → ((next tt).result ≡ ok b) × ((act_all es >>= next).did ≡ es ++ (next tt).did)
unfolding ◌>>=◌ after act_all
bind_act_all es next h = (h, refl)

pub pure_result :
    (Ev E : Type 0) {A : Type 0} (a : A) {b : A} → (pure {Ev = Ev} {E = E} a).result ≡ ok b → a ≡ b
unfolding pure
pure_result Ev E a h = cc

-- The events of a first step, put in the place of the step.
pub front :
    {A : Type 0} {all first : List A} (rest : List A) {events : List A}
    → all ≡ first ++ rest
    → first ≡ events
    → all ≡ events ++ rest
front rest h k = h ∙ ap (λ x. x ++ rest) k
