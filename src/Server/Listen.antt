-- ===== src/Server/Listen.antt =====
-- `serve` of src/server.rs: the listener, over TLS when the configuration asks for it. A run's events
-- are the calls that the outside sees, and the two lines that tell the operator of the transport.
pub mod Transport
use nono_cedar_pdp.Base.{Option, none, some, [], ◌∷◌, Result, map_err}
use nono_cedar_pdp.Run.{Run, lift, act, ◌>>=◌}
use nono_cedar_pdp.Config.{SocketAddr, Tls}
use nono_cedar_pdp.Cedar.{Cedar}
use nono_cedar_pdp.Server.{AppState}
use nono_cedar_pdp.Server.Tls.{Net, ListenError, load_pair, verify_our_own_certificate}

module _ (c : Cedar) {E : Type 0} (net : Net E) where
  open net use {ServerConfig}

  -- `accepting` is the router on the shared state behind a listener; over TLS with the configuration
  -- that the listener uses.
  pub data Event : Type 0 where
    binding plaintext_warning listening : SocketAddr → Event
    accepting : AppState c → Event
    accepting_tls : ServerConfig → AppState c → Event

  abbrev io : {A : Type 0} → Result E A → Run Event (ListenError E) A
  io r = lift (map_err ListenError.io r)

  -- `serve_plaintext`
  unfoldable pub serve_plaintext : AppState c → SocketAddr → Run Event (ListenError E) (Unit {0})
  serve_plaintext state bind = do
    tried ← act (binding bind)
    listener ← io (net.bind bind)
    bound ← io (net.local_addr listener)
    warned ← act (plaintext_warning bound)
    told ← act (listening bound)
    served ← act (accepting state)
    io net.end_of_service

  -- `serve_https`
  unfoldable pub serve_https : AppState c → SocketAddr → Tls → Run Event (ListenError E) (Unit {0})
  serve_https state bind tls = do
    server_config ← lift (load_pair net tls)
    verified ← lift (verify_our_own_certificate net server_config bind.ip tls.cert)
    tried ← act (binding bind)
    listener ← io (net.bind bind)
    unblocked ← io (net.set_nonblocking listener)
    bound ← io (net.local_addr listener)
    told ← act (listening bound)
    taken ← io (net.from_tcp listener)
    served ← act (accepting_tls server_config state)
    io net.end_of_service

  -- `serve`: the `match` on the configured pair.
  unfoldable pub serve_over :
      Option Tls → AppState c → SocketAddr → Run Event (ListenError E) (Unit {0})
  unfolding serve_plaintext serve_https
  serve_over none state bind = serve_plaintext state bind
  serve_over (some tls) state bind = serve_https state bind tls

  unfoldable pub serve : AppState c → SocketAddr → Run Event (ListenError E) (Unit {0})
  unfolding serve_over
  serve state bind = serve_over state.config.tls state bind
