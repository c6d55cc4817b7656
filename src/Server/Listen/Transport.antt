-- ===== src/Server/Listen/Transport.antt =====
-- Which transport src/server.rs serves on, and what it has proved of it first.
use nono_cedar_pdp.Base.{
  ◌≡◌, refl, sym, ◌∙◌, inl, inr, ok-injective, Option, none, some, [], All, ok, err, Result-cases,
}
use nono_cedar_pdp.Run.{Run, ◌>>=◌, lift, Only, lift_result, bind-Only, lift-Only, act-Only}
use nono_cedar_pdp.Config.{SocketAddr, Tls}
use nono_cedar_pdp.Cedar.{Cedar}
use nono_cedar_pdp.Server.{AppState}
use nono_cedar_pdp.Server.Tls.{Net, ListenError, load_pair, verify_our_own_certificate}
use nono_cedar_pdp.Server.Listen.{
  Event, binding, plaintext_warning, listening, accepting, accepting_tls, serve_plaintext,
  serve_https, serve_over, serve,
}

module _ (c : Cedar) {E : Type 0} (net : Net E) where
  open net use {ServerConfig}

  -- An event of a listener that answers only over TLS, with this configuration and state.
  abbrev pub IsTls : ServerConfig → AppState c → Event c net → Type 0
  IsTls cfg s (binding a) = Unit
  IsTls cfg s (plaintext_warning a) = ⊥
  IsTls cfg s (listening a) = Unit
  IsTls cfg s (accepting t) = ⊥
  IsTls cfg s (accepting_tls d t) = (d ≡ cfg) × (t ≡ s)

  abbrev pub IsPlaintext : AppState c → Event c net → Type 0
  IsPlaintext s (binding a) = Unit
  IsPlaintext s (plaintext_warning a) = Unit
  IsPlaintext s (listening a) = Unit
  IsPlaintext s (accepting t) = t ≡ s
  IsPlaintext s (accepting_tls d t) = ⊥

  -- What a configured pair has been put to: it was read, and the self-test on what the listener
  -- is to use passed for the address that is to be bound.
  pub record IsVerified (tls : Tls) (bind : SocketAddr) (cfg : ServerConfig) : Type 0 where
    pub loaded : load_pair net tls ≡ ok cfg
    pub verified : verify_our_own_certificate net cfg bind.ip tls.cert ≡ ok tt

  pub data Transport (state : AppState c) (bind : SocketAddr)
      (r : Run (Event c net) (ListenError E) (Unit {0})) : Type 0 where
    refused :
        (tls : Tls)
        → (e : ListenError E) → state.config.tls ≡ some tls
        → r ≡ record { did = []; result = err e }
        → Transport state bind r
    https :
        (tls : Tls)
        → (cfg : ServerConfig) → state.config.tls ≡ some tls
        → IsVerified tls bind cfg
        → All (IsTls cfg state) r.did
        → Transport state bind r
    plaintext : state.config.tls ≡ none → All (IsPlaintext state) r.did → Transport state bind r

  serve_plaintext-Only :
      (state : AppState c) (bind : SocketAddr)
      → Only (IsPlaintext state) (serve_plaintext c net state bind)
  unfolding serve_plaintext
  serve_plaintext-Only state bind = bind-Only (act-Only _ tt) (λ u h.
      bind-Only (lift-Only _) (λ listener h. bind-Only (lift-Only _) (λ bound h.
        bind-Only (act-Only _ tt) (λ u h.
          bind-Only (act-Only _ tt) (λ u h. bind-Only (act-Only _ refl) (λ u h. lift-Only _))))))

  serve_https-Only :
      (state : AppState c) (bind : SocketAddr) (tls : Tls) (cfg : ServerConfig)
      → load_pair net tls ≡ ok cfg
      → Only (IsTls cfg state) (serve_https c net state bind tls)
  unfolding serve_https
  serve_https-Only state bind tls cfg e = bind-Only (lift-Only _) (λ d k.
      bind-Only (lift-Only _) (λ u h. bind-Only (act-Only _ tt) (λ u h.
        bind-Only (lift-Only _) (λ listener h. bind-Only (lift-Only _) (λ u h.
          bind-Only (lift-Only _) (λ bound h. bind-Only (act-Only _ tt) (λ u h.
            bind-Only (lift-Only _) (λ u h.
              bind-Only
                (act-Only _
                  (ok-injective (sym (lift_result (Event c net) (load_pair net tls) k) ∙ e), refl))
                (λ u h. lift-Only _)))))))))

  serve_https-Transport :
      (state : AppState c) (bind : SocketAddr) (tls : Tls)
      → state.config.tls ≡ some tls
      → Transport state bind (serve_https c net state bind tls)
  unfolding serve_https ◌>>=◌ lift
  serve_https-Transport state bind tls q = elim (Result-cases (load_pair net tls)) [
    | inl (e, h) ↦ refused tls e q (rw (serve_https, h) refl)
    | inr (cfg, h) ↦ elim (Result-cases (verify_our_own_certificate net cfg bind.ip tls.cert)) [
      | inl (e, k) ↦ refused tls e q (rw (serve_https, h, k) refl)
      | inr (u, k) ↦
          https tls cfg q (record { loaded = h; verified = k })
            ((serve_https-Only state bind tls cfg h).events)
    ]
  ]

  -- When a pair is configured, `serve` either refuses before it has bound anything, or has loaded the
  -- pair and seen the platform's verifier accept it for the address, and then answers over TLS alone,
  -- with that very configuration and on the shared state; it answers in plain text only when no pair
  -- is configured.
  pub serve-Transport :
      (state : AppState c) (bind : SocketAddr) → Transport state bind (serve c net state bind)
  unfolding serve serve_over
  serve-Transport state bind = over state.config.tls refl
    where
      over :
          (t : Option Tls)
          → state.config.tls ≡ t
          → Transport state bind (serve_over c net t state bind)
      over none q = plaintext q ((serve_plaintext-Only state bind).events)
      over (some tls) q = serve_https-Transport state bind tls q
