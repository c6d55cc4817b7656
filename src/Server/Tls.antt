-- ===== src/Server/Tls.antt =====
-- The TLS half of src/server.rs: the pair that the listener uses, and the self-test on it. The TLS
-- library, the PEM reader, the platform's verifier and the sockets are a parameter.
use nono_cedar_pdp.Base.{
  Option, none, some, List, [], ◌∷◌, Text, Bytes, lit, Result, ok, err, ◌>>=◌, map_err,
}
use nono_cedar_pdp.Config.{IpAddr, SocketAddr, Tls}

pub record Net (E : Type 0) : Type 1 where
  pub Cert : Type 0
  pub Key : Type 0
  pub ServerConfig : Type 0
  pub ClientConfig : Type 0
  pub Listener : Type 0
  pub Socket : Type 0
  -- `std::fs::read`, and the readers of `rustls_pemfile`
  pub read : Text → Result E Bytes
  pub certs : Bytes → Result E (List Cert)
  pub private_key : Bytes → Result E (Option Key)
  -- `ServerConfig::builder…`: the protocol versions, the pair, and the ALPN names it offers.
  pub protocol_versions : Result E (Unit {0})
  pub with_single_cert : List Cert → Key → Result E ServerConfig
  pub with_alpn : List Text → ServerConfig → ServerConfig
  -- The client of the self-test, and its handshake on a socket whose other end holds a
  -- configuration: whether the client completed it for a name.
  pub with_platform_verifier : Result E ClientConfig
  pub client_alpn : List Text → ClientConfig → ClientConfig
  pub connect : SocketAddr → Result E Socket
  pub set_timeouts : Socket → Result E (Unit {0})
  pub handshake : ServerConfig → ClientConfig → IpAddr → Socket → Result E (Unit {0})
  -- Sockets; `bind_any` is the throwaway listener on 127.0.0.1 at a port that the kernel picks.
  pub bind_any : Result E Listener
  pub bind : SocketAddr → Result E Listener
  pub local_addr : Listener → Result E SocketAddr
  pub set_nonblocking : Listener → Result E (Unit {0})
  pub from_tcp : Listener → Result E (Unit {0})
  -- How serving ends.
  pub end_of_service : Result E (Unit {0})

-- The refusals of `tls_refusal`, and every other error as it came.
pub data ListenError (E : Type 0) : Type 0 where
  io : E → ListenError E
  cannot_read_certificate cannot_parse_certificate cannot_read_key cannot_parse_key :
      Text → E → ListenError E
  no_certificate no_key : Text → ListenError E
  unusable_versions : E → ListenError E
  mismatched : Text → Text → E → ListenError E
  own_certificate_refused : Text → IpAddr → E → ListenError E

abbrev pub require : {E A : Type 0} → E → Option A → Result E A
require e none = err e
require e (some a) = ok a

abbrev pub non_empty : {E A : Type 0} → E → List A → Result E (List A)
non_empty e [] = err e
non_empty e (x ∷ xs) = ok (x ∷ xs)

module _ {E : Type 0} (net : Net E) where
  open net use {Cert, Key, ServerConfig}

  -- `load_pair`
  unfoldable pub load_pair : Tls → Result (ListenError E) ServerConfig
  load_pair tls = do
    cert_pem ← map_err (cannot_read_certificate tls.cert) (net.read tls.cert)
    parsed ← map_err (cannot_parse_certificate tls.cert) (net.certs cert_pem)
    chain ← non_empty (no_certificate tls.cert) parsed
    key_pem ← map_err (cannot_read_key tls.key) (net.read tls.key)
    found ← map_err (cannot_parse_key tls.key) (net.private_key key_pem)
    key ← require (no_key tls.key) found
    versions ← map_err unusable_versions net.protocol_versions
    config ← map_err (mismatched tls.key tls.cert) (net.with_single_cert chain key)
    ok (net.with_alpn (lit "h2" ∷ lit "http/1.1" ∷ []) config)

  -- `verify_our_own_certificate`: the handshake on a throwaway listener, before any other is bound.
  unfoldable pub verify_our_own_certificate :
      ServerConfig → IpAddr → Text → Result (ListenError E) (Unit {0})
  verify_our_own_certificate server_config ip cert = do
    listener ← map_err ListenError.io net.bind_any
    throwaway ← map_err ListenError.io (net.local_addr listener)
    socket ← map_err ListenError.io (net.connect throwaway)
    timeouts ← map_err ListenError.io (net.set_timeouts socket)
    versions ← map_err ListenError.io net.protocol_versions
    client ← map_err ListenError.io net.with_platform_verifier
    map_err (own_certificate_refused cert ip)
        (net.handshake server_config (net.client_alpn (lit "http/1.1" ∷ []) client) ip socket)
