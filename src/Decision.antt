-- ===== src/Decision.antt =====
-- src/decision.rs: the decision type and its reasons. `u128` microseconds are a number.
pub mod Order
pub mod Laws
use nono_cedar_pdp.Base.{
  ℕ, Bool, true, false, ◌||◌, ◌&&◌, List, [], ◌∷◌, ◌++◌, ◌==◌, ltb, if◌then◌else◌, Text, lit, join,
}
use nono_cedar_pdp.Sanitize.{control_escape}
use nono_cedar_pdp.Wire.{WebhookResponse, allow, deny}

pub record Decision : Type 0 where
  pub allow : Bool
  pub matched : List Text
  pub reason : Text
  pub eval_us : ℕ

-- `cedar_policy::Decision`, as Cedar answers it.
pub data Verdict : Type 0 where
  permit forbid : Verdict

-- What the source reads of a `cedar_policy::Response`: the decision, and from the diagnostics the
-- ids of the determining policies and the texts of the evaluation errors.
pub record Response : Type 0 where
  pub decision : Verdict
  pub reasons : List Text
  pub errors : List Text

-- The order of `String`, which is that of its characters.
unfoldable pub text_le : Text → Text → Bool
text_le [] ys = true
text_le (x ∷ xs) [] = false
text_le (x ∷ xs) (y ∷ ys) = ltb x y || (x == y && text_le xs ys)

unfoldable pub insert : Text → List Text → List Text
insert x [] = x ∷ []
insert x (y ∷ ys) = if text_le x y then x ∷ y ∷ ys else y ∷ insert x ys

-- `slice::sort` on strings: a stable sort, of which any is the same function.
unfoldable pub sort : List Text → List Text
unfolding insert
sort [] = []
sort (x ∷ xs) = insert x (sort xs)

-- `Decision::deny`
unfoldable pub deny_with : Text → Decision
deny_with reason = record {
  allow = false;
  matched = [];
  reason = control_escape reason;
  eval_us = 0;
}

-- The reason of a `Deny` from Cedar.
unfoldable pub deny_reason : List Text → Text
deny_reason [] = lit "no policy permitted this request (default deny)"
deny_reason (m ∷ ms) = control_escape (lit "denied by " ++ join (lit ", ") (m ∷ ms))

-- The `match response.decision()`.
unfoldable pub from_verdict : Verdict → List Text → ℕ → Decision
unfolding deny_reason
from_verdict permit matched eval_us = record {
  allow = true;
  matched = matched;
  reason = control_escape (lit "permitted by " ++ join (lit ", ") matched);
  eval_us = eval_us;
}
from_verdict forbid matched eval_us = record {
  allow = false;
  matched = matched;
  reason = deny_reason matched;
  eval_us = eval_us;
}

-- The test `!errors.is_empty()` with what follows it.
unfoldable pub from_parts : Verdict → List Text → List Text → ℕ → Decision
unfolding from_verdict
from_parts verdict matched [] eval_us = from_verdict verdict matched eval_us
from_parts verdict matched (e ∷ es) eval_us = record {
  allow = false;
  matched = matched;
  reason =
      control_escape (lit "cedar evaluation errors, failing closed: " ++ join (lit "; ") (e ∷ es));
  eval_us = eval_us;
}

-- `Decision::from_response`
unfoldable pub from_response : Response → ℕ → Decision
unfolding from_parts
from_response response eval_us =
    from_parts response.decision (sort response.reasons) response.errors eval_us

-- `Decision::to_wire`
unfoldable pub to_wire : Decision → WebhookResponse
to_wire d = if d.allow then allow else deny d.reason
