-- ===== src/Daemon/Allowed.antt =====
-- What stands behind every allow of the daemon of src/main.rs, from its start on.
use nono_cedar_pdp.Base.{
  All, Bytes, Result, some, subst, ℕ, ◌≡◌, refl, sym, ap, ◌∙◌, inl, not, true, Option, none, List,
  [], ◌∷◌, map, IsIn, here, All-IsIn, Text, lit, ok,
}
use nono_cedar_pdp.Query.{PolicyQuery}
use nono_cedar_pdp.Wire.{WebhookEnvelope, allow}
use nono_cedar_pdp.Config.{Config}
use nono_cedar_pdp.Adapter.{parse}
use nono_cedar_pdp.Decision.{Decision, to_wire}
use nono_cedar_pdp.Decision.Laws.{to_wire_iff}
use nono_cedar_pdp.Audit.{AuditRecord, Line, decision_line, decided, decision_name, loaded}
use nono_cedar_pdp.Cedar.{Cedar}
use nono_cedar_pdp.Engine.{Engine, evaluate, path_ambiguity}
use nono_cedar_pdp.Engine.Laws.{IsPermitted, evaluate-allow_iff}
use nono_cedar_pdp.Engine.Reload.{IsServing}
use nono_cedar_pdp.FilePaths.{is_empty}
use nono_cedar_pdp.FilePaths.Resolution.{IsResolver}
use nono_cedar_pdp.Server.{Reply, wire, AppState, max_request_bytes, log, healthz}
use nono_cedar_pdp.Server.Gate.{header_gate-refusal}
use nono_cedar_pdp.Server.Replies.{error_ne, wire-injective, deny_ne}
use nono_cedar_pdp.Server.Tls.{Net}
use nono_cedar_pdp.Process.{World}
use nono_cedar_pdp.Main.{Prepared, prepare}
use nono_cedar_pdp.Main.Startup.{prepare-Cleared}
use nono_cedar_pdp.Main.Order.{bootstrap_line, first_state}
use nono_cedar_pdp.Daemon.{
  ok_wire, Daemon, Thread, idle, Step, gate, unavailable, accept, decide, answer, burst, write,
  store, health, Steps, done, more,
}
use nono_cedar_pdp.Daemon.InOrder.{answered, recorded}
use nono_cedar_pdp.Daemon.Provenance.{Named, loaded-Recorded}
use nono_cedar_pdp.Daemon.Grounds.{
  refusal, evaluated, LineSound, Justified, turned_away, told, on_record,
}
use nono_cedar_pdp.Daemon.Soundness.{Sound, Steps-Sound}

allow_name : (v : Decision) → v.allow ≡ true → decision_name v ≡ lit "allow"
unfolding decision_name
allow_name v h = rw h refl

module _ (c : Cedar) where
  health_ne :
      (rfc3339 : ℕ → Option Text) (s : AppState c) → (healthz c rfc3339 s).body ≡ wire allow → ⊥
  unfolding healthz
  health_ne r s h = cc

  module _ (E : Type 0) where
    -- What there is for an allow: the decision that the reply sends, its line in the trail, which says
    -- so, and where it comes from. The request's body was read within the limit and is the query; the
    -- decision is the evaluation of it, by an engine that served a set that is not empty, passed
    -- validation and is on record, and by which Cedar permits the query, whose path is unambiguous.
    pub record Allowed (config : Config) (audit : List Line) (t : Thread c E) (reply : Reply)
        : Type 0 where
      pub decision : Decision
      pub sent : reply ≡ ok_wire decision
      pub line : AuditRecord
      pub is_in : IsIn (decision_line line) audit
      pub says_allow : line.decision ≡ lit "allow"
      pub to_bytes : ℕ → Option Bytes
      pub body : Bytes
      pub was_read : to_bytes max_request_bytes ≡ some body
      pub parse_envelope : Bytes → Result E WebhookEnvelope
      pub query : PolicyQuery
      pub parsed : parse parse_envelope body config ≡ ok query
      pub debug : Text → Text
      pub eval_us : ℕ
      pub engine : Engine c
      pub evaluated : decision ≡ evaluate c debug eval_us engine query
      pub ts : Text
      pub user_agent : Option Text
      pub of_query : line ≡ decided debug ts query decision user_agent
      pub serving : IsServing c engine
      pub named : Named c E audit t engine.current
      pub unambiguous : path_ambiguity query.target ≡ none
      pub permitted : IsPermitted c engine query

    Justified-Allowed :
        (config : Config) (audit : List Line) (t : Thread c E) (reply : Reply)
        → Justified c E config audit t reply
        → reply.body ≡ wire allow
        → Allowed config audit t reply
    Justified-Allowed config audit t reply (turned_away lossy headers g) h =
        let (status, text, k, q) = header_gate-refusal lossy headers reply g in
        absurd (error_ne (sym (ap (λ r. r.body) q) ∙ h))
    Justified-Allowed config audit t reply (told r s e) h =
        absurd (health_ne r s (sym (ap (λ r. r.body) e) ∙ h))
    Justified-Allowed config audit t reply (on_record line v i w (refusal ts x r u q l) e) h =
        absurd (deny_ne r (ap (λ d. wire (to_wire d)) (sym q) ∙ (sym (ap (λ r. r.body) e) ∙ h)))
    Justified-Allowed config audit t reply
          (on_record line v i w (evaluated debug ts us pe tb b u engine q k p z n d l) e) h =
        let x = wire-injective (sym (ap (λ r. r.body) e) ∙ h) in
        let a = (to_wire_iff v).0.0 x in
        let (f, m) = (evaluate-allow_iff c debug us engine q).0 (ap (λ x. x.allow) (sym d) ∙ a) in
        record {
          decision = v;
          sent = e;
          line = line;
          is_in = i;
          says_allow = w.decision ∙ allow_name v a;
          to_bytes = tb;
          body = b;
          was_read = k;
          parse_envelope = pe;
          query = q;
          parsed = p;
          debug = debug;
          eval_us = us;
          engine = engine;
          evaluated = d;
          ts = ts;
          user_agent = u;
          of_query = l;
          serving = z;
          named = n;
          unambiguous = f;
          permitted = m;
        }

    -- The allow's own account, and that of all that the daemon has decided: the decisions sent are, in
    -- order, those that the lines of the trail tell of, and each such line is founded.
    pub record Accounted (config : Config) (d : Daemon c E) (reply : Reply) : Type 0 where
      pub allowed : Allowed config d.state.audit d.thread reply
      pub in_order : answered d.replies ≡ recorded d.state.audit
      pub lines : All (LineSound c E config d.state.audit d.thread) d.state.audit

    Step-config : {d e : Daemon c E} → Step c E d e → e.state.config ≡ d.state.config
    unfolding log
    Step-config (gate o headers reply g) = refl
    Step-config (unavailable o headers g z) = refl
    Step-config (accept o headers to_bytes g z) = refl
    Step-config (decide before after o ua to_bytes q) = refl
    Step-config (answer before after line v q) = refl
    Step-config (burst r q) = refl
    Step-config (write now generation outcome q) = refl
    Step-config (store at outcome q) = refl
    Step-config (health rfc3339) = refl

    -- The configuration is never replaced.
    Steps-config : {d e : Daemon c E} → Steps c E d e → e.state.config ≡ d.state.config
    Steps-config done = refl
    Steps-config (more s t) = Steps-config t ∙ Step-config s

  module _ {E : Type 0} (net : Net E) (w : World c net) where
    -- The daemon as `run_serve` leaves it to its listener.
    abbrev pub started : Prepared c net → Daemon c E
    started p = record {
      state = first_state c net w p;
      at_risk = not (is_empty p.warnings);
      tasks = [];
      thread = idle;
      replies = [];
    }

    module _ (resolver : IsResolver w.fs) where
      started-Sound :
          (path : Text) (p : Prepared c net)
          → (prepare c net w path).result ≡ ok p
          → Sound c E (started p)
      started-Sound path p h = record {
        serving = (prepare-Cleared c net w resolver path p h).0.serving;
        named =
            let l = p.engine.current in
            inl (
              loaded-Recorded c (bootstrap_line c net w p ∷ []) w.now l.generation
                (not (is_empty p.warnings)) (loaded l.content_hash (map w.display l.files))
                w.display l refl refl here);
        replies = tt;
        in_order = refl;
        lines = (tt, tt);
        tasks = tt;
        thread = tt;
        surface = tt;
      }

      pub Steps-Allowed :
          (path : Text) (p : Prepared c net) {d : Daemon c E} (reply : Reply)
          → (prepare c net w path).result ≡ ok p
          → Steps c E (started p) d
          → IsIn reply d.replies
          → reply.body ≡ wire allow
          → Accounted E p.paths.config d reply
      Steps-Allowed path p {d} reply h s i a =
          let k = Steps-Sound c E s (started-Sound path p h) in
          subst (λ config. Accounted E config d reply) (Steps-config E s)
            (record {
              allowed =
                  Justified-Allowed E d.state.config d.state.audit d.thread reply
                    (All-IsIn (Justified c E d.state.config d.state.audit d.thread) d.replies i
                      k.replies)
                    a;
              in_order = k.in_order;
              lines = k.lines;
            })
