-- ===== src/Net.antt =====
-- What the connections take from tokio, tokio_rustls and the operating system: the types of sockets,
-- addresses and TLS sessions, and how a TLS handshake on a socket ends. `E` holds their errors.
use hcnet.Base.{ℕ, List}
use hcnet.Error.{NetResult}

pub record NetApi (E : Type 0) : Type 1 where
  -- `TcpStream`, `SocketAddr`, `TlsAcceptor`, and the `TlsStream`s of the client and of the server.
  pub Socket : Type 0
  pub Addr : Type 0
  pub Acceptor : Type 0
  pub TlsClient : Type 0
  pub TlsServer : Type 0
  -- `TlsAcceptor::accept`.
  pub accept_tls : Acceptor → Socket → NetResult E TlsServer
  -- `TlsConnector::connect` to a host of that name, under the public root certificates.
  pub connect_tls : List ℕ → Socket → NetResult E TlsClient
