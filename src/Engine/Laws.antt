-- ===== src/Engine/Laws.antt =====
-- What src/cedar/engine.rs promises of a decision.
use nono_cedar_pdp.Base.{
  ℕ, ◌≡◌, refl, sym, ap, ◌∙◌, ◌↔◌, true, false, none, some, Option-cases, inl, inr, [], Text,
  Result, ok, err,
}
use nono_cedar_pdp.Sanitize.{has_control}
use nono_cedar_pdp.EndpointPath.{Ambiguity}
use nono_cedar_pdp.Query.{endpoint_target, EndpointTarget, PolicyQuery}
use nono_cedar_pdp.Decision.{permit, deny_with}
use nono_cedar_pdp.Decision.Laws.{
  from_response-allow_iff, deny_with-printable, from_response-printable,
}
use nono_cedar_pdp.Cedar.{Cedar}
use nono_cedar_pdp.Entities.{BuildError, build, target_resource, endpoint_attrs, endpoint_pairs}
use nono_cedar_pdp.Engine.{path_ambiguity, target_path, ambiguous, Engine, decide, evaluate}

deny_with-allow : (t : Text) → (deny_with t).allow ≡ false
unfolding deny_with
deny_with-allow t = refl

module _ (c : Cedar) where
  open c use {Request, Entities, is_authorized}

  -- Cedar was asked, permitted, and met no error on the way.
  abbrev pub IsPermitted : Engine c → PolicyQuery → Type 0
  IsPermitted engine q =
      (request : Request) × (entities : Entities) × (build c q engine.schema
        ≡ ok (request, entities))
      × ((is_authorized request engine.current.set entities).decision ≡ permit)
      × ((is_authorized request engine.current.set entities).errors ≡ [])

  decide-allow :
      (r : Result BuildError (Request × Entities)) (engine : Engine c) (eval_us : ℕ)
      → (decide c r engine.current.set eval_us).allow ≡ true
      → (request : Request) × (entities : Entities) × (r ≡ ok (request, entities))
        × ((is_authorized request engine.current.set entities).decision ≡ permit)
        × ((is_authorized request engine.current.set entities).errors ≡ [])
  unfolding decide
  decide-allow (err e) engine eval_us h = absurd (cc (deny_with-allow _))
  decide-allow (ok (request, entities)) engine eval_us h =
      let (d, e) =
        (from_response-allow_iff (is_authorized request engine.current.set entities) eval_us).0 h in
      (request, entities, refl, d, e)

  evaluate_unambiguous :
      (debug : Text → Text) (eval_us : ℕ) (engine : Engine c) (q : PolicyQuery)
      → path_ambiguity q.target ≡ none
      → evaluate c debug eval_us engine q
        ≡ decide c (build c q engine.schema) engine.current.set eval_us
  unfolding evaluate
  evaluate_unambiguous debug eval_us engine q e = rw (e, evaluate) refl

  decide-printable :
      (b : Result BuildError (c.Request × c.Entities)) (set : c.PolicySet) (eval_us : ℕ)
      → has_control (decide c b set eval_us).reason ≡ false
  unfolding decide
  decide-printable (err e) set n = deny_with-printable _
  decide-printable (ok (request, entities)) set n =
      from_response-printable (is_authorized request set entities) n

  -- No reason of the engine carries a control character.
  pub evaluate-printable :
      (debug : Text → Text) (eval_us : ℕ) (engine : Engine c) (q : PolicyQuery)
      → has_control (evaluate c debug eval_us engine q).reason ≡ false
  unfolding evaluate ambiguous
  evaluate-printable debug eval_us engine q = elim (Option-cases (path_ambiguity q.target)) [
    | inl e ↦
        rw (e, evaluate) (decide-printable (build c q engine.schema) engine.current.set eval_us)
    | inr (a, e) ↦ rw (e, evaluate) (deny_with-printable _)
  ]

  evaluate_ambiguous :
      (debug : Text → Text) (eval_us : ℕ) (engine : Engine c) (q : PolicyQuery) (a : Ambiguity)
      → path_ambiguity q.target ≡ some a
      → (evaluate c debug eval_us engine q).allow ≡ false
  unfolding evaluate ambiguous
  evaluate_ambiguous debug eval_us engine q a e = rw (e, evaluate) (deny_with-allow _)

  -- A query is allowed exactly when its path is unambiguous, its request could be built, Cedar
  -- permitted it and no policy failed to evaluate: every other way through the code is a deny.
  pub evaluate-allow_iff :
      (debug : Text → Text) (eval_us : ℕ) (engine : Engine c) (q : PolicyQuery)
      → ((evaluate c debug eval_us engine q).allow ≡ true)
        ↔ ((path_ambiguity q.target ≡ none) × IsPermitted engine q)
  evaluate-allow_iff debug eval_us engine q = (
    λ h. elim (Option-cases (path_ambiguity q.target)) [
      | inl e ↦ (
        e,
        decide-allow (build c q engine.schema) engine eval_us
            (ap (λ d. d.allow) (sym (evaluate_unambiguous debug eval_us engine q e)) ∙ h),
      )
      | inr (a, e) ↦ absurd (cc (h, evaluate_ambiguous debug eval_us engine q a e))
    ],
    λ (e, p).
        let (request, entities, b, d, x) = p in
        ap (λ d. d.allow) (evaluate_unambiguous debug eval_us engine q e)
        ∙ ap (λ r. (decide c r engine.current.set eval_us).allow) b
        ∙ (unfold decide in
            (from_response-allow_iff (is_authorized request engine.current.set entities) eval_us).1
              (d, x)),
  )

  -- The pid that an endpoint request claims reaches no policy: with any other one in its place the
  -- decision is the same.
  pub evaluate-endpoint_child_pid :
      (debug : Text → Text) (eval_us : ℕ) (engine : Engine c) (q : PolicyQuery) (t : EndpointTarget)
      (pid : ℕ)
      → evaluate c debug eval_us engine (record q { target = endpoint_target t })
        ≡ evaluate c debug eval_us engine
            (record q { target = endpoint_target (record t { child_pid = pid }) })
  unfolding evaluate path_ambiguity target_path build target_resource endpoint_attrs endpoint_pairs
  evaluate-endpoint_child_pid debug eval_us engine q t pid = refl
