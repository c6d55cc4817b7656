-- ===== src/Watcher/Timely.antt =====
-- The loop of the watch thread of src/watcher.rs: no event waits for ever, nor long.
use nono_cedar_pdp.Base.{
  ℕ, zero, suc, ◌+◌, ◌-◌, ◌≤◌, ◌<◌, ◌≡◌, refl, ◌∙◌, subst, ◌⊎◌, inl, inr, false, Bool-cases, List,
  [], ◌∷◌, IsIn, here, there, length, ltb, leb, arith,
}
use Prim.Native.Nat.{min}
use nono_cedar_pdp.Watcher.{debounce, debounce_ceiling, Arrival, drain, elapse, rounds}
use nono_cedar_pdp.Watcher.Debounce.{drain_bound}

-- An event, which is no error of the watch, comes at the time `t`, as seen from `now`.
pub data Arrives (t : ℕ) : ℕ → List Arrival → Type 0 where
  first :
      {now : ℕ} {a : Arrival} {arrivals : List Arrival}
      → now + a.wait ≡ t
      → a.failed ≡ false
      → Arrives t now (a ∷ arrivals)
  later :
      {now : ℕ} {a : Arrival} {arrivals : List Arrival}
      → Arrives t (now + a.wait) arrivals
      → Arrives t now (a ∷ arrivals)

Arrives-le : {t : ℕ} (now : ℕ) (arrivals : List Arrival) → Arrives t now arrivals → now ≤ t
Arrives-le now [] h = elim h [ ]
Arrives-le now (a ∷ arrivals) (first e f) = omega arith
Arrives-le now (a ∷ arrivals) (later h) = omega (arith, Arrives-le (now + a.wait) arrivals h)

Arrives-from :
    {t now : ℕ} (now' : ℕ) {arrivals : List Arrival}
    → now ≡ now'
    → Arrives t now arrivals
    → Arrives t now' arrivals
Arrives-from {t} now' {arrivals} e h = subst (λ n. Arrives t n arrivals) e h

drain_grows : (elapsed : ℕ) (arrivals : List Arrival) → elapsed ≤ (drain elapsed arrivals).elapsed
unfolding drain
drain_grows elapsed [] = ground arith
drain_grows elapsed (a ∷ arrivals) = ground (arith, drain_grows (elapsed + a.wait) arrivals)

-- The drain of a burst takes time, whatever comes.
drain_pos :
    (elapsed : ℕ) (arrivals : List Arrival)
    → elapsed < debounce_ceiling
    → elapsed < (drain elapsed arrivals).elapsed
unfolding drain
drain_pos elapsed [] h = ground arith
drain_pos elapsed (a ∷ arrivals) h = ground (arith, drain_pos (elapsed + a.wait) arrivals)

-- The first arrival, seen from later on.
shift :
    {t now : ℕ} (w : ℕ) {a : Arrival} {arrivals : List Arrival}
    → w ≤ a.wait
    → Arrives t now (a ∷ arrivals)
    → Arrives t (now + w) (record a { wait = a.wait - w } ∷ arrivals)
shift w l (first e f) = first (omega arith) f
shift {t} {now} w {a} l (later h) = later (Arrives-from (now + w + (a.wait - w)) (omega arith) h)

-- A drain takes an event, or leaves it for the next burst; `start` is the time of the burst's first.
drain_splits :
    {t : ℕ} (start elapsed : ℕ) (arrivals : List Arrival)
    → Arrives t (start + elapsed) arrivals
    → (let r = drain elapsed arrivals in
        (t ≤ start + r.elapsed) ⊎ Arrives t (start + r.elapsed) r.pending)
unfolding drain
drain_splits start elapsed [] h = elim h [ ]
drain_splits start elapsed (a ∷ arrivals) (first x f) =
    elim (Bool-cases (leb debounce_ceiling elapsed)) [
      | inl c ↦ rw (drain, c) (inr (first x f))
      | inr c ↦ elim (Bool-cases (ltb a.wait (min debounce (debounce_ceiling - elapsed)))) [
        | inl e ↦ rw (drain, c, e) (inl (omega (arith, drain_grows (elapsed + a.wait) arrivals)))
        | inr e ↦
            let w = min debounce (debounce_ceiling - elapsed) in
            rw (drain, c, e)
              (inr (
                Arrives-from (start + (elapsed + w)) (omega arith)
                  (shift w (ground arith) (first x f))))
      ]
    ]
drain_splits start elapsed (a ∷ arrivals) (later h) =
    elim (Bool-cases (leb debounce_ceiling elapsed)) [
      | inl c ↦ rw (drain, c) (inr (later h))
      | inr c ↦ elim (Bool-cases (ltb a.wait (min debounce (debounce_ceiling - elapsed)))) [
        | inl e ↦
            rw (drain, c, e)
              (drain_splits start (elapsed + a.wait) arrivals
                (Arrives-from (start + (elapsed + a.wait)) (omega arith) h))
        | inr e ↦
            let w = min debounce (debounce_ceiling - elapsed) in
            rw (drain, c, e)
              (inr (
                Arrives-from (start + (elapsed + w)) (omega arith)
                  (shift w (ground arith) (later h))))
      ]
    ]

-- The time at which an event that comes at `t` is seen, by a thread that comes back at `back` after
-- a while `w`.
record Seen (t back w : ℕ) (arrivals : List Arrival) : Type 0 where
  seen : ℕ
  there_then : Arrives seen back arrivals
  not_before : t ≤ seen
  within : seen ≤ t + w
  waits_for : (seen ≡ t) ⊎ (seen ≡ back)

-- What arrives while the thread is at work is there when it comes back, and the rest as it came.
elapse-Seen :
    {t : ℕ} (w now : ℕ) (arrivals : List Arrival)
    → Arrives t now arrivals
    → Seen t (now + w) w (elapse w arrivals)
unfolding elapse
elapse-Seen w now [] h = elim h [ ]
elapse-Seen {t} w now (a ∷ arrivals) (first x f) = elim (Bool-cases (leb w a.wait)) [
  | inl e ↦ rw e (record {
    seen = t;
    there_then = shift w (ground arith) (first x f);
    not_before = omega arith;
    within = omega arith;
    waits_for = inl refl;
  })
  | inr e ↦ rw e (record {
    seen = now + w;
    there_then = first (omega arith) f;
    not_before = ground arith;
    within = omega arith;
    waits_for = inr refl;
  })
]
elapse-Seen {t} w now (a ∷ arrivals) (later h) = elim (Bool-cases (leb w a.wait)) [
  | inl e ↦ rw e (record {
    seen = t;
    there_then = shift w (ground arith) (later h);
    not_before = omega arith;
    within = omega arith;
    waits_for = inl refl;
  })
  | inr e ↦
      let r = elapse-Seen (w - a.wait) (now + a.wait) arrivals h in
      let back : now + a.wait + (w - a.wait) ≡ now + w = ground arith in
      let again : now + a.wait + (w - a.wait) ≡ now + w + 0 = ground arith in
      rw e (record {
        seen = r.seen;
        there_then = later (Arrives-from (now + w + 0) again r.there_then);
        not_before = r.not_before;
        within = omega (arith, r.within);
        waits_for = elim (r.waits_for) [ inl p ↦ inl p | inr p ↦ inr (p ∙ back) ];
      })
]

length-drain :
    (elapsed : ℕ) (arrivals : List Arrival)
    → length (drain elapsed arrivals).pending ≤ length arrivals
unfolding drain
length-drain elapsed [] = ground arith
length-drain elapsed (a ∷ arrivals) = ground (arith, length-drain (elapsed + a.wait) arrivals)

length-elapse : (w : ℕ) (arrivals : List Arrival) → length (elapse w arrivals) ≡ length arrivals
unfolding elapse
length-elapse w [] = refl
length-elapse w (a ∷ arrivals) = ground (arith, length-elapse (w - a.wait) arrivals)

-- A round of the thread that comes behind the event, within the ceiling and one round's work, and
-- within the ceiling if the thread was waiting.
record Timely (t now : ℕ) (most : ℕ) (turns : List ℕ) : Type 0 where
  at : ℕ
  is_in : IsIn at turns
  behind : t ≤ at
  soon : at ≤ t + debounce_ceiling + most
  at_once : t ≡ now → at ≤ t + debounce_ceiling

-- A round that is in time for an event as it is seen is in time for the event.
onward :
    {t now at w most : ℕ} {arrivals : List Arrival} {turns : List ℕ}
    (s : Seen t (at + w) w arrivals)
    → Timely s.seen (at + w) most turns
    → w ≤ most
    → at ≤ t
    → now < at
    → Timely t now most (at ∷ turns)
onward s r b from later_on = record {
  at = r.at;
  is_in = there r.is_in;
  behind = omega (arith, s.not_before, r.behind);
  soon = elim (s.waits_for) [
    | inl p ↦ omega (arith, r.soon)
    | inr p ↦ omega (arith, r.at_once p, s.within)
  ];
  at_once = λ q. absurd (omega arith);
}

module _ (work : ℕ → ℕ) (most : ℕ) (bounded : (t : ℕ) → work t ≤ most) where
  rounds-Timely :
      (f : ℕ) {t : ℕ} (now : ℕ) (arrivals : List Arrival)
      → length arrivals ≤ f
      → Arrives t now arrivals
      → Timely t now most (rounds f work now arrivals)
  unfolding rounds
  rounds-Timely f now [] l h = elim h [ ]
  rounds-Timely zero now (a ∷ arrivals) l h = absurd (omega arith)
  rounds-Timely (suc f) {t} now (a ∷ arrivals) l (first x n) =
      let e = (drain 0 arrivals).elapsed in
      let bound : e ≤ debounce_ceiling = drain_bound 0 arrivals (omega arith) in
      rw n (record {
        at = now + a.wait + e;
        is_in = here;
        behind = omega arith;
        soon = omega arith;
        at_once = λ q. omega arith;
      })
  rounds-Timely (suc f) {t} now (a ∷ arrivals) l (later h) = elim (Bool-cases a.failed) [
    | inl n ↦
        let r = rounds-Timely f (now + a.wait) arrivals (omega arith) h in
        let from : now + a.wait ≤ t = Arrives-le (now + a.wait) arrivals h in
        rw n (record {
          at = r.at;
          is_in = r.is_in;
          behind = r.behind;
          soon = r.soon;
          at_once = λ q. r.at_once (omega arith);
        })
    | inr n ↦
        let start = now + a.wait in
        let d = drain 0 arrivals in
        let at = start + d.elapsed in
        let bound : d.elapsed ≤ debounce_ceiling = drain_bound 0 arrivals (omega arith) in
        let takes : 0 < d.elapsed = drain_pos 0 arrivals (omega arith) in
        let from : start ≤ t = Arrives-le start arrivals h in
        rw n (elim (drain_splits start 0 arrivals (Arrives-from (start + 0) (omega arith) h)) [
          | inl p ↦ record {
            at = at;
            is_in = here;
            behind = p;
            soon = omega arith;
            at_once = λ q. omega arith;
          }
          | inr p ↦
              let pending = d.pending in
              let s = elapse-Seen (work at) at pending p in
              let size : length (elapse (work at) pending) ≤ f =
                omega (arith, length-elapse (work at) pending, length-drain 0 arrivals) in
              let r = rounds-Timely f (at + work at) (elapse (work at) pending) size s.there_then in
              onward s r (bounded at) (Arrives-le at pending p) (omega arith)
        ])
  ]

  -- The watch thread turns to the policy directory behind every event, and no later than the ceiling
  -- and one round's work, however the events come: in an endless stream, between errors of the
  -- watch, or while the thread is at work. No round's work takes longer than `most`.
  pub rounds_timely :
      {t : ℕ} (now : ℕ) (arrivals : List Arrival)
      → Arrives t now arrivals
      → (at : ℕ) × IsIn at (rounds (length arrivals) work now arrivals)
        × (t ≤ at)
        × (at ≤ t + debounce_ceiling + most)
  rounds_timely now arrivals h =
      let r = rounds-Timely (length arrivals) now arrivals (omega arith) h in
      (r.at, r.is_in, r.behind, r.soon)
