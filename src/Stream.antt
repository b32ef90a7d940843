-- ===== src/Stream.antt =====
-- src/stream.rs and src/accept_server.rs: a stream that may be under TLS, and a connection of which
-- the TLS handshake is still to be done. The `poll_` methods pass the call on to the inner stream.
pub mod Poll
use hcnet.Base.{ℕ, ◌≡◌, refl, List, Option, none, some, codes}
use hcnet.Error.{NetResult, ok, err, extension, ◌>>=◌}
use hcnet.Net.{NetApi}

module _ {E : Type 0} (net : NetApi E) where
  open net use {Socket, Addr, Acceptor, TlsClient, TlsServer}

  pub data MaybeTlsStream : Type 0 where
    stream : Socket → MaybeTlsStream
    tls_stream : TlsClient → MaybeTlsStream
    tls_server : TlsServer → MaybeTlsStream

  pub connect_tls : Socket → List ℕ → NetResult E MaybeTlsStream
  connect_tls s domain = do outbound ← net.connect_tls domain s; ok (tls_stream outbound)

  pub accept_tls : Acceptor → Socket → NetResult E MaybeTlsStream
  accept_tls accept s = do t ← net.accept_tls accept s; ok (tls_server t)

  pub record MaybeAcceptStream : Type 0 where
    pub stream : Socket
    pub accepter : Option Acceptor

  -- `MaybeAcceptStream::new`.
  new_accept : Socket → Option Acceptor → MaybeAcceptStream
  new_accept s accepter = record { stream = s; accepter = accepter }

  -- `MaybeAcceptStream::accept`.
  pub accept_stream : MaybeAcceptStream → NetResult E MaybeTlsStream
  accept_stream m = elim m.accepter [
    | some accepter ↦ (do s ← net.accept_tls accepter m.stream; ok (tls_server s))
    | none ↦ ok (stream m.stream)
  ]

  pub record TcpAcceptServer : Type 0 where
    pub stream : Option MaybeAcceptStream
    pub addr : Addr

  pub new : MaybeAcceptStream → Addr → TcpAcceptServer
  new s addr = record { stream = some s; addr = addr }

  -- `TcpAcceptServer::accept`: the stream is taken, so there is no second time.
  pub accept : TcpAcceptServer → NetResult E (MaybeTlsStream × Addr) × TcpAcceptServer
  unfolding accept_stream
  accept a = elim a.stream [
    | none ↦ (err (extension (codes "can't accept twice")), a)
    | some s ↦ ((do t ← accept_stream s; ok (t, a.addr)), record a { stream = none })
  ]

  -- The first `accept` of a new connection ends as its TLS handshake does, and with the plain stream
  -- where there is no acceptor; whatever it returned, every further one is refused.
  pub accept_once :
      (s : MaybeAcceptStream) (addr : Addr)
      → let (r, a) = accept (new s addr) in
        (r ≡ (do t ← accept_stream s; ok (t, addr)))
        × ((accept a).0 ≡ err (extension (codes "can't accept twice")))
        × ((accept a).1 ≡ a)
  unfolding accept new
  accept_once s addr = (refl, refl, refl)
