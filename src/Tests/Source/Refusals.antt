-- ===== src/Tests/Source/Refusals.antt =====
-- The assertions of the unit tests of src/isolation.rs.
use nono_cedar_pdp.Base.{ℕ, Bool, true, false, ◌&&◌, List, [], ◌∷◌, Text, Result, ok, err}
use nono_cedar_pdp.Isolation.{
  IsolationError, writable, writable_ancestor, foreign, accessible_key, io, Warning,
}
use nono_cedar_pdp.Isolation.Display.{explain, warning_text}
use nono_cedar_pdp.Tests.Source.{all, mentions}
use nono_cedar_pdp.Tests.Source.Disk.{shown, show_io}

abbrev pub is_writable : IsolationError Text → Bool
is_writable (writable _ _ _ _) = true
is_writable _ = false

abbrev pub is_ancestor : IsolationError Text → Bool
is_ancestor (writable_ancestor _ _ _ _ _) = true
is_ancestor _ = false

abbrev pub is_foreign : IsolationError Text → Bool
is_foreign (foreign _ _ _ _) = true
is_foreign _ = false

abbrev pub is_accessible_key : IsolationError Text → Bool
is_accessible_key (accessible_key _ _ _) = true
is_accessible_key _ = false

abbrev pub is_io : IsolationError Text → Bool
is_io (io _ _ _) = true
is_io _ = false

-- `unwrap_err`, the error's kind, and the words of its text.
unfoldable pub refused :
    {A : Type 0} → (IsolationError Text → Bool) → List Text → Result (IsolationError Text) A → Bool
unfolding explain mentions shown show_io
refused kind words (ok a) = false
refused kind words (err e) = kind e && all (λ s. mentions s (explain shown show_io e)) words

abbrev pub is_ok : {A : Type 0} → Result (IsolationError Text) A → Bool
is_ok (ok a) = true
is_ok (err e) = false

-- Warnings of which each has the words of its place.
unfoldable each : List (List Text) → List Warning → Bool
unfolding warning_text mentions shown
each [] [] = true
each (s ∷ ss) (w ∷ ws) = all (λ t. mentions t (warning_text shown w)) s && each ss ws
each _ _ = false

unfoldable pub warns : List (List Text) → Result (IsolationError Text) (List Warning) → Bool
unfolding each
warns words (err e) = false
warns words (ok ws) = each words ws

abbrev pub euid : ℕ
euid = 500
