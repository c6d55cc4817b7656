-- ===== src/Watcher/Debounce.antt =====
-- The drain loop of src/watcher.rs: bounded, and quiet at its end unless it was cut short.
use nono_cedar_pdp.Base.{
  ℕ, ◌+◌, ◌-◌, ◌≤◌, ◌≡◌, refl, ap, ◌∙◌, ◌⊎◌, inl, inr, true, false, Bool-cases, List, [], ◌∷◌, ◌++◌,
  ltb, leb, arith,
}
use Prim.Native.Nat.{min}
use nono_cedar_pdp.Watcher.{debounce, debounce_ceiling, Arrival, Drained, drain}

abbrev pub sum : List Arrival → ℕ
sum [] = 0
sum (a ∷ arrivals) = a.wait + sum arrivals

-- However the events come, a burst is drained within the ceiling: a stream of events cannot keep
-- the reload away for ever.
pub drain_bound :
    (elapsed : ℕ) (waits : List Arrival)
    → elapsed ≤ debounce_ceiling
    → (drain elapsed waits).elapsed ≤ debounce_ceiling
unfolding drain
drain_bound elapsed [] h = ground arith
drain_bound elapsed (d ∷ waits) h =
    let more = drain (elapsed + d.wait) waits in
    let ih = drain_bound (elapsed + d.wait) waits in ground arith

-- No event is near: the next one, if any, comes a whole debounce or more from now.
abbrev pub IsQuiet : List Arrival → Type 0
IsQuiet [] = Unit
IsQuiet (d ∷ ds) = debounce ≤ d.wait

-- A drain that took the events of `taken` and then waited out a whole debounce.
pub record Settled (elapsed : ℕ) (waits : List Arrival) (r : Drained) : Type 0 where
  pub taken : List Arrival
  pub rest : List Arrival
  pub splits : waits ≡ taken ++ rest
  pub is_quiet : IsQuiet rest
  pub at : r.elapsed ≡ elapsed + sum taken + debounce

step :
    {elapsed : ℕ} {d : Arrival} {waits : List Arrival} {r : Drained}
    → Settled (elapsed + d.wait) waits r
    → Settled elapsed (d ∷ waits) r
step {elapsed} {d} {waits} {r} s = record {
  taken = d ∷ s.taken;
  rest = s.rest;
  splits = ap (λ l. d ∷ l) s.splits;
  is_quiet = s.is_quiet;
  at = s.at ∙ omega arith;
}

-- A drain ends at the ceiling exactly, which it then says, or after a whole debounce without events.
pub drain_end :
    (elapsed : ℕ) (waits : List Arrival)
    → elapsed ≤ debounce_ceiling
    → (((drain elapsed waits).cut_short ≡ true)
        × ((drain elapsed waits).elapsed ≡ debounce_ceiling))
      ⊎ (((drain elapsed waits).cut_short ≡ false) × Settled elapsed waits (drain elapsed waits))
unfolding drain
drain_end elapsed [] h = elim (Bool-cases (leb debounce_ceiling elapsed)) [
  | inl e ↦ inl (ground arith)
  | inr e ↦ elim (Bool-cases (ltb (min debounce (debounce_ceiling - elapsed)) debounce)) [
    | inl f ↦ inl (ground arith)
    | inr f ↦ inr (
      ground arith,
      record { taken = []; rest = []; splits = refl; is_quiet = tt; at = ground arith },
    )
  ]
]
drain_end elapsed (d ∷ waits) h = elim (Bool-cases (leb debounce_ceiling elapsed)) [
  | inl e ↦ inl (ground arith)
  | inr e ↦ elim (Bool-cases (ltb d.wait (min debounce (debounce_ceiling - elapsed)))) [
    | inl f ↦
        rw (drain, e, f)
          (elim (drain_end (elapsed + d.wait) waits (ground arith)) [
            | inl x ↦ inl x
            | inr (x, s) ↦ inr (x, step s)
          ])
    | inr f ↦ elim (Bool-cases (ltb (min debounce (debounce_ceiling - elapsed)) debounce)) [
      | inl k ↦ inl (ground arith)
      | inr k ↦ inr (
        ground arith,
        record {
          taken = [];
          rest = d ∷ waits;
          splits = refl;
          is_quiet = ground arith;
          at = ground arith;
        },
      )
    ]
  ]
]
