-- ===== src/Server/Laws.antt =====
-- What the approval handler of src/server.rs answers, and what it leaves in the trail.
use nono_cedar_pdp.Base.{
  ℕ, ◌≡◌, refl, sym, ap, ◌∙◌, ◌↔◌, ◌⊎◌, inl, inr, true, false, Option, none, some, Option-cases,
  Bool-cases, [], ◌∷◌, ◌++◌, ◌==◌, Text, Bytes, ok, err, Result-cases, lit,
}
use nono_cedar_pdp.Wire.{allow}
use nono_cedar_pdp.Query.{PolicyQuery}
use nono_cedar_pdp.Decision.{Decision, to_wire}
use nono_cedar_pdp.Decision.Laws.{to_wire_iff}
use nono_cedar_pdp.Adapter.{AdaptError, parse}
use nono_cedar_pdp.Audit.{AuditRecord, decision_line, decision_name, decided, rejected}
use nono_cedar_pdp.Cedar.{Cedar}
use nono_cedar_pdp.Engine.{path_ambiguity, evaluate}
use nono_cedar_pdp.Engine.Laws.{IsPermitted, evaluate-allow_iff}
use nono_cedar_pdp.Server.Replies.{error_ne, wire-injective, deny_ne}
use nono_cedar_pdp.Server.Gate.{header_gate-refusal}
use nono_cedar_pdp.Server.{
  HeaderMap, wire, error, Reply, observed, header_gate, Outside, max_request_bytes, AppState, log,
  unreadable, refused, answer, approve,
}

module _ (c : Cedar) {E : Type 0} (o : Outside E) (headers : HeaderMap) where
  open c use {num_of_policies}

  -- The request got through: the gate, the serving check, the limit and the reader, with the query.
  pub record IsQuery (to_bytes : ℕ → Option Bytes) (s : AppState c) (q : PolicyQuery) : Type 0 where
    pub gated : header_gate o.lossy headers ≡ none
    pub serving : (num_of_policies s.engine.current.set == 0) ≡ false
    pub body : Bytes
    pub read : to_bytes max_request_bytes ≡ some body
    pub parsed : parse o.parse_envelope body s.config ≡ ok q

  -- The five ways through the handler.
  pub data Way (to_bytes : ℕ → Option Bytes) (s : AppState c) (r : AppState c × Reply)
      : Type 0 where
    gate :
        (reply : Reply)
        → header_gate o.lossy headers ≡ some reply
        → r ≡ (s, reply)
        → Way to_bytes s r
    empty :
        (num_of_policies s.engine.current.set == 0) ≡ true
        → r ≡ (s, record { status = 503; body = error (lit "no policies loaded") })
        → Way to_bytes s r
    unread :
        to_bytes max_request_bytes ≡ none
        → r ≡ unreadable c o (observed o.lossy headers (lit "user-agent")) s
        → Way to_bytes s r
    refuse :
        (body : Bytes)
        → (e : AdaptError E) → to_bytes max_request_bytes ≡ some body
        → parse o.parse_envelope body s.config ≡ err e
        → r ≡ refused c o (observed o.lossy headers (lit "user-agent")) body e s
        → Way to_bytes s r
    answered :
        (q : PolicyQuery)
        → IsQuery to_bytes s q
        → r ≡ answer c o (observed o.lossy headers (lit "user-agent")) q s
        → Way to_bytes s r

  approve-Way :
      (to_bytes : ℕ → Option Bytes) (s : AppState c)
      → Way to_bytes s (approve c o headers to_bytes s)
  unfolding approve lit
  approve-Way to_bytes s = elim (Option-cases (header_gate o.lossy headers)) [
    | inr (x, g) ↦ gate x g (rw (approve, g) refl)
    | inl g ↦ elim (Bool-cases (num_of_policies s.engine.current.set == 0)) [
      | inl n ↦ empty n (rw (approve, g, n) refl)
      | inr n ↦ elim (Option-cases (to_bytes max_request_bytes)) [
        | inl b ↦ unread b (rw (approve, g, n, b) refl)
        | inr (body, b) ↦ elim (Result-cases (parse o.parse_envelope body s.config)) [
          | inl (e, p) ↦ refuse body e b p (rw (approve, g, n, b, p) refl)
          | inr (q, p) ↦
              answered q (record { gated = g; serving = n; body = body; read = b; parsed = p })
                (rw (approve, g, n, b, p) refl)
        ]
      ]
    ]
  ]

  approve-IsQuery :
      (to_bytes : ℕ → Option Bytes) (s : AppState c) (q : PolicyQuery)
      → IsQuery to_bytes s q
      → approve c o headers to_bytes s
        ≡ answer c o (observed o.lossy headers (lit "user-agent")) q s
  unfolding approve lit
  approve-IsQuery to_bytes s q h = rw (approve, h.gated, h.serving, h.read, h.parsed) refl

  -- The handler answers allow exactly when the headers pass the gate, a policy is loaded, the body
  -- could be read within the limit and is a query, the query's path is unambiguous, and Cedar
  -- permits the query without an evaluation error.
  pub approve-allow_iff :
      (to_bytes : ℕ → Option Bytes) (s : AppState c)
      → ((approve c o headers to_bytes s).1.body ≡ wire allow) ↔ (
          (q : PolicyQuery) × IsQuery to_bytes s q
          × (path_ambiguity q.target ≡ none)
          × IsPermitted c s.engine q)
  unfolding answer unreadable refused
  approve-allow_iff to_bytes s = (
    λ h. elim (approve-Way to_bytes s) [
      | gate reply g e ↦
          let (status, text, k, x) = header_gate-refusal o.lossy headers reply g in
          absurd (error_ne (sym (ap (λ r. r.1.body) e ∙ ap (λ y. y.body) x) ∙ h))
      | empty n e ↦ absurd (cc (h, ap (λ r. r.1.body) e))
      | unread b e ↦ absurd (deny_ne _ (sym (ap (λ r. r.1.body) e) ∙ h))
      | refuse body x b p e ↦ absurd (deny_ne _ (sym (ap (λ r. r.1.body) e) ∙ h))
      | answered q k e ↦
          let w = wire-injective (sym (ap (λ r. r.1.body) e) ∙ h) in
          let p = (to_wire_iff (evaluate c o.debug o.eval_us s.engine q)).0.0 w in
          let a = (evaluate-allow_iff c o.debug o.eval_us s.engine q).0 p in (q, k, a.0, a.1)
    ],
    λ (q, k, u, p).
        ap (λ r. r.1.body) (approve-IsQuery to_bytes s q k)
        ∙ ap wire (
            (to_wire_iff (evaluate c o.debug o.eval_us s.engine q)).0.1
              ((evaluate-allow_iff c o.debug o.eval_us s.engine q).1 (u, p))),
  )

  -- What an answered request leaves: nothing behind a refusal, or one line for one decision.
  pub data Recorded (s : AppState c) (r : AppState c × Reply) : Type 0 where
    silent :
        (status : ℕ) (text : Text)
        → ((status ≡ 403) ⊎ ((status ≡ 415) ⊎ (status ≡ 503)))
        → r ≡ (s, record { status = status; body = error text })
        → Recorded s r
    logged :
        (d : Decision) (line : AuditRecord)
        → line.decision ≡ decision_name d
        → line.reason ≡ d.reason
        → line.matched ≡ d.matched
        → r ≡ (
          record s { audit = s.audit ++ decision_line line ∷ [] },
          record { status = 200; body = wire (to_wire d) },
        )
        → Recorded s r

  -- Every answer of status 200 is one decision whose verdict, reason and matched policies the trail
  -- gains as one line; any other answer is an error of status 403, 415 or 503 that leaves the state
  -- as it was. The engine, the configuration and the last reload are never changed.
  pub approve-Recorded :
      (to_bytes : ℕ → Option Bytes) (s : AppState c) → Recorded s (approve c o headers to_bytes s)
  unfolding answer unreadable refused log decided rejected
  approve-Recorded to_bytes s = elim (approve-Way to_bytes s) [
    | gate reply g e ↦
        let (status, text, k, q) = header_gate-refusal o.lossy headers reply g in
        silent status text k (e ∙ ap (λ x. (s, x)) q)
    | empty n e ↦ silent 503 _ (inr (inr refl)) e
    | unread b e ↦ logged _ _ refl refl refl e
    | refuse body x b p e ↦ logged _ _ refl refl refl e
    | answered q k e ↦ logged _ _ refl refl refl e
  ]
