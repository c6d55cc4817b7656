-- ===== src/Tests/Source.antt =====
-- The program's own unit tests, run on the model. A test is a Boolean that is true when all its
-- assertions hold; the messages of the assertions are left out.
pub mod EndpointPath
pub mod Sanitize
pub mod Adapter
pub mod Audit
pub mod Config
pub mod Decision
pub mod Disk
pub mod Isolation
pub mod Json
pub mod Loading
pub mod Refusals
pub mod Trail
use nono_cedar_pdp.Base.{Bool, true, false, not, ◌&&◌, ◌||◌, List, [], ◌∷◌, map, Text, ◌==◌}

abbrev pub all {ℓ} : {A : Type ℓ} → (A → Bool) → List A → Bool
all p [] = true
all p (x ∷ xs) = p x && all p xs

-- `str::starts_with` and `str::contains` of a string.
unfoldable pub begins : Text → Text → Bool
begins [] t = true
begins (c ∷ cs) [] = false
begins (c ∷ cs) (d ∷ ds) = c == d && begins cs ds

unfoldable pub mentions : Text → Text → Bool
unfolding begins
mentions s [] = begins s []
mentions s (c ∷ cs) = begins s (c ∷ cs) || mentions s cs
