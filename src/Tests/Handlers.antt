-- ===== src/Tests/Handlers.antt =====
-- The two handlers at a concrete state.
use nono_cedar_pdp.Base.{ℕ, ◌≡◌, ◌↔◌, Option, none, some, Bytes, lit}
use nono_cedar_pdp.Wire.{allow}
use nono_cedar_pdp.Query.{PolicyQuery}
use nono_cedar_pdp.Engine.{path_ambiguity}
use nono_cedar_pdp.Engine.Laws.{IsPermitted}
use nono_cedar_pdp.Server.{wire, approve}
use nono_cedar_pdp.Server.Laws.{IsQuery, approve-allow_iff, Recorded, approve-Recorded}
use nono_cedar_pdp.Tests.Toy.{toy, serving, outside, headers, state}

abbrev read_body : ℕ → Option Bytes
read_body limit = some (lit "{}")

approve-allow_iff_example : ((approve toy outside headers read_body state).1.body ≡ wire allow) ↔ (
    (q : PolicyQuery) × IsQuery toy outside headers read_body state q
    × (path_ambiguity q.target ≡ none)
    × IsPermitted toy serving q)
approve-allow_iff_example = approve-allow_iff toy outside headers read_body state

approve-Recorded_example :
    Recorded toy outside headers state (approve toy outside headers read_body state)
approve-Recorded_example = approve-Recorded toy outside headers read_body state
