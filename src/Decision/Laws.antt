-- ===== src/Decision/Laws.antt =====
-- What src/decision.rs promises: it fails closed, and its reasons and matched ids are in order.
use mathlib.Core.List.{Perm}
use mathlib.Core.List.Perm
use nono_cedar_pdp.Base.{
  ℕ, ◌≡◌, refl, subst, ◌↔◌, inl, inr, true, false, List, [], ◌∷◌, arith, Bool-cases, Text, lit,
}
use nono_cedar_pdp.Sanitize.{has_control, control_escape}
use nono_cedar_pdp.Sanitize.Laws.{control_escape-printable}
use nono_cedar_pdp.Wire.{allow, deny}
use nono_cedar_pdp.Decision.Order.{text_le_total}
use nono_cedar_pdp.Decision.{
  Decision, Verdict, permit, forbid, Response, text_le, insert, sort, deny_with, deny_reason,
  from_parts, from_response, to_wire,
}

from_parts-allow :
    (v : Verdict) (ms es : List Text) (n : ℕ)
    → ((from_parts v ms es n).allow ≡ true) ↔ ((v ≡ permit) × (es ≡ []))
unfolding from_parts
from_parts-allow permit ms [] n = (λ h. (refl, refl), λ h. refl)
from_parts-allow forbid ms [] n = ground arith
from_parts-allow v ms (e ∷ es) n = ground arith

-- A Cedar response becomes an allow exactly when Cedar permitted and no policy failed to evaluate.
pub from_response-allow_iff :
    (r : Response) (n : ℕ)
    → ((from_response r n).allow ≡ true) ↔ ((r.decision ≡ permit) × (r.errors ≡ []))
unfolding from_response
from_response-allow_iff r n = from_parts-allow r.decision (sort r.reasons) r.errors n

-- A list in the order of `String`.
pub data IsSorted : List Text → Type 0 where
  nil : IsSorted []
  one : (x : Text) → IsSorted (x ∷ [])
  more : {x y : Text} {l : List Text} → text_le x y ≡ true → IsSorted (y ∷ l) → IsSorted (x ∷ y ∷ l)

IsSorted-tail : {y : Text} {l : List Text} → IsSorted (y ∷ l) → IsSorted l
IsSorted-tail (one z) = nil
IsSorted-tail (more h t) = t

insert_below :
    (x y : Text) (l : List Text)
    → text_le y x ≡ true
    → IsSorted (y ∷ l)
    → IsSorted (insert x l)
    → IsSorted (y ∷ insert x l)
unfolding insert
insert_below x y [] h s t = more h t
insert_below x y (z ∷ l) h (more k s) t = elim (Bool-cases (text_le x z)) [
  | inl e ↦ rw e (more h (more e s))
  | inr e ↦ rw e (more k (rw e at t))
]

insert_past : (x y : Text) (l : List Text) → text_le x y ≡ false → y ∷ insert x l ≡ insert x (y ∷ l)
unfolding insert
insert_past x y l e = rw e refl

insert-IsSorted : (x : Text) (l : List Text) → IsSorted l → IsSorted (insert x l)
insert-IsSorted x [] s = unfold insert in one x
insert-IsSorted x (y ∷ l) s = elim (Bool-cases (text_le x y)) [
  | inl e ↦ unfold insert in rw e (more e s)
  | inr e ↦
      let t = insert-IsSorted x l (IsSorted-tail s) in
      let u = insert_below x y l (text_le_total x y e) s t in subst IsSorted (insert_past x y l e) u
]

insert-perm : (x : Text) (l : List Text) → Perm (insert x l) (x ∷ l)
unfolding insert
insert-perm x [] = Perm.refl (x ∷ [])
insert-perm x (y ∷ l) = elim (Bool-cases (text_le x y)) [
  | inl e ↦ rw e (Perm.refl (x ∷ y ∷ l))
  | inr e ↦ rw e (Perm.trans (Perm.cons y (insert-perm x l)) (Perm.swap x y l))
]

sort_lem : (l : List Text) → IsSorted (sort l) × Perm (sort l) l
unfolding sort
sort_lem [] = (nil, Perm.refl [])
sort_lem (x ∷ l) =
    let (s, p) = sort_lem l in
    (insert-IsSorted x (sort l) s, Perm.trans (insert-perm x (sort l)) (Perm.cons x p))

from_parts-matched : (v : Verdict) (ms es : List Text) (n : ℕ) → (from_parts v ms es n).matched ≡ ms
unfolding from_parts
from_parts-matched permit ms [] n = refl
from_parts-matched forbid ms [] n = refl
from_parts-matched v ms (e ∷ es) n = refl

-- On every branch, the errors' too, the matched ids are the policies Cedar names, in order.
pub from_response-matched :
    (r : Response) (n : ℕ)
    → IsSorted (from_response r n).matched × Perm (from_response r n).matched r.reasons
unfolding from_response
from_response-matched r n =
    rw (from_parts-matched r.decision (sort r.reasons) r.errors n) (sort_lem r.reasons)

default_printable : has_control (lit "no policy permitted this request (default deny)") ≡ false
unfolding has_control nono_cedar_pdp.Sanitize.is_control lit
default_printable = refl

deny_reason-printable : (ms : List Text) → has_control (deny_reason ms) ≡ false
unfolding deny_reason
deny_reason-printable [] = default_printable
deny_reason-printable (m ∷ ms) = control_escape-printable _

from_parts-printable :
    (v : Verdict) (ms es : List Text) (n : ℕ) → has_control (from_parts v ms es n).reason ≡ false
unfolding from_parts
from_parts-printable permit ms [] n = control_escape-printable _
from_parts-printable forbid ms [] n = deny_reason-printable ms
from_parts-printable v ms (e ∷ es) n = control_escape-printable _

pub deny_with-printable : (text : Text) → has_control (deny_with text).reason ≡ false
unfolding deny_with
deny_with-printable text = control_escape-printable text

pub from_response-printable :
    (r : Response) (n : ℕ) → has_control (from_response r n).reason ≡ false
unfolding from_response
from_response-printable r n = from_parts-printable r.decision (sort r.reasons) r.errors n

-- No reason that the module builds carries a control character, whatever Cedar's texts hold.
pub reason-printable :
    (text : Text) (r : Response) (n : ℕ)
    → (has_control (deny_with text).reason ≡ false)
      × (has_control (from_response r n).reason ≡ false)
reason-printable text r n = (deny_with-printable text, from_response-printable r n)

-- The wire says allow exactly for an allow, and a deny carries the decision's own reason.
pub to_wire_iff :
    (d : Decision)
    → ((to_wire d ≡ allow) ↔ (d.allow ≡ true)) × ((d.allow ≡ false) ↔ (to_wire d ≡ deny d.reason))
unfolding to_wire
to_wire_iff d = ground arith
