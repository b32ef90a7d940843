-- ===== src/Conn.antt =====
-- `NetConn` of src/conn.rs: one of the three connections, and its constructors and accessors, which
-- pass the call on.
pub mod Run
use hcnet.Base.{ℕ, List, Option}
use hcnet.Error.{NetResult, ok, err, only_tcp, ◌>>=◌}
use hcnet.Settings
use hcnet.Settings.{Settings}
use hcnet.Buffer.{BinaryMut}
use hcnet.Net.{NetApi}
use hcnet.Helper.{PemApi}
use hcnet.OnlineCount.{Counters}
use hcnet.Ws.Handshake.{Outcome, returned, panicked}
use hcnet.Ws.Web.{WebApi}
use hcnet.Tcp
use hcnet.Tcp.{TcpConn}
use hcnet.Ws.Conn
use hcnet.Ws.Conn.{WsConn}
use hcnet.Kcp
use hcnet.Kcp.{KcpConn}

pub data NetType : Type 0 where
  tcp quic websocket unix_socket : NetType

module _ {E : Type 0} (net : NetApi E) (KcpStream : Type 0) (api : WebApi E) (bin : BinaryMut) where
  open net use {Socket, Addr, Acceptor}

  pub data NetConn : Type 0 where
    tcp : TcpConn net bin → NetConn
    ws : WsConn net api bin → NetConn
    kcp : KcpConn net KcpStream bin → NetConn

  new_of : NetType → List Addr → NetResult E NetConn
  new_of NetType.tcp addrs = ok (NetConn.tcp (Tcp.new net bin addrs))
  new_of _ addrs = err only_tcp

  -- `found` is how `lookup_host` ends.
  pub new : NetType → NetResult E (List Addr) → NetResult E NetConn
  unfolding new_of
  new t found = do addrs ← found; new_of t addrs

  pub set_settings : NetConn → Settings → NetConn
  set_settings (NetConn.tcp c) settings = NetConn.tcp (Tcp.set_settings net bin c settings)
  set_settings (ws c) settings = ws (Conn.set_settings net api bin c settings)
  set_settings (kcp c) settings = kcp (Kcp.set_settings net KcpStream bin c settings)

  pub get_settings : NetConn → Settings
  get_settings (NetConn.tcp c) = c.settings
  get_settings (ws c) = c.settings
  get_settings (kcp c) = c.settings

  pub remote_addr : NetConn → Option Addr
  remote_addr (NetConn.tcp c) = c.addr
  remote_addr (ws c) = Conn.remote_addr net api bin c
  remote_addr (kcp c) = c.addr

  pub get_connection_id : NetConn → ℕ
  get_connection_id (NetConn.tcp c) = c.id
  get_connection_id (ws c) = c.id
  get_connection_id (kcp c) = c.id

  -- `NetConn::from` of a connection with settings.
  pub from_tcp : TcpConn net bin → Settings → NetConn
  unfolding set_settings
  from_tcp c settings = set_settings (NetConn.tcp c) settings

  pub from_ws : WsConn net api bin → Settings → NetConn
  unfolding set_settings
  from_ws c settings = set_settings (ws c) settings

  pub from_kcp : KcpConn net KcpStream bin → Settings → NetConn
  unfolding set_settings
  from_kcp c settings = set_settings (kcp c) settings

  -- The constructors, on how the calls to the operating system end, and the id that is drawn.
  pub tcp_connect : Tcp.Attempt net bin → ℕ → NetResult E NetConn
  tcp_connect attempt id = do c ← Tcp.connect net bin attempt id; ok (NetConn.tcp c)

  pub tcp_connect_with_stream : Socket → ℕ → NetResult E NetConn
  tcp_connect_with_stream s id =
      ok (NetConn.tcp (Tcp.connect_with_stream net bin s Settings.default id))

  pub tcp_connect_with_settings : Tcp.Attempt net bin → Settings → ℕ → NetResult E NetConn
  tcp_connect_with_settings attempt settings id = do
    c ← Tcp.connect_with_settings net bin attempt settings id
    ok (NetConn.tcp c)

  pub tcp_connect_with_timeout : Tcp.Attempt net bin → ℕ → ℕ → NetResult E NetConn
  tcp_connect_with_timeout attempt micros id = do
    c ← Tcp.connect_with_timeout net bin attempt micros id
    ok (NetConn.tcp c)

  pub ws_connect_with_settings :
      (List ℕ → ℕ → NetResult E Socket) → NetResult E api.Url → Settings → ℕ → NetResult E NetConn
  ws_connect_with_settings attempt url settings id = do
    c ← Conn.connect_with_settings net api bin attempt url settings id
    ok (ws c)

  pub ws_connect : (List ℕ → ℕ → NetResult E Socket) → NetResult E api.Url → ℕ → NetResult E NetConn
  ws_connect attempt url id = ws_connect_with_settings attempt url Settings.default id

  pub ws_connect_with_stream : Socket → NetResult E api.Url → Settings → ℕ → NetResult E NetConn
  ws_connect_with_stream s url settings id = do
    c ← Conn.connect_with_stream net api bin s url settings id
    ok (ws c)

  module _ (pem : PemApi E)
      (single_cert : List pem.CertificateDer → pem.PrivateKeyDer → NetResult E Acceptor) where
    pub tcp_bind_with_listener : ℕ → Settings → Counters → NetResult E (NetConn × Counters)
    tcp_bind_with_listener id settings st = do
      (c, st') ← Tcp.bind_with_listener net bin pem single_cert id settings st
      ok (NetConn.tcp c, st')

    pub ws_bind_with_listener : ℕ → Settings → Counters → NetResult E (NetConn × Counters)
    ws_bind_with_listener id settings st = do
      (c, st') ← Conn.new net api bin pem single_cert id settings st
      ok (ws c, st')

    -- `bound` is how `TcpListener::bind` ends.
    pub tcp_bind :
        NetResult E (Unit {0}) → ℕ → Settings → Counters → NetResult E (NetConn × Counters)
    tcp_bind bound id settings st = do _ ← bound; tcp_bind_with_listener id settings st

    pub ws_bind :
        NetResult E (Unit {0}) → ℕ → Settings → Counters → NetResult E (NetConn × Counters)
    ws_bind bound id settings st = do _ ← bound; ws_bind_with_listener id settings st

  pub kcp_bind_with_listener : Settings → ℕ → NetResult E NetConn
  kcp_bind_with_listener settings id = do
    c ← Kcp.bind_with_listener net KcpStream bin settings id
    ok (kcp c)

  pub kcp_bind : NetResult E (Unit {0}) → Settings → ℕ → NetResult E NetConn
  kcp_bind bound settings id = do c ← Kcp.bind net KcpStream bin bound settings id; ok (kcp c)

  kcp_made : Outcome (NetResult E (KcpConn net KcpStream bin)) → Outcome (NetResult E NetConn)
  kcp_made panicked = panicked
  kcp_made (returned r) = returned (do c ← r; ok (kcp c))

  pub kcp_connect_with_settings :
      NetResult E (List Addr)
      → Kcp.Attempt net KcpStream bin
      → Settings
      → ℕ
      → Outcome (NetResult E NetConn)
  unfolding kcp_made
  kcp_connect_with_settings found attempt settings id =
      kcp_made (Kcp.connect_with_settings net KcpStream bin found attempt settings id)

  pub kcp_connect :
      NetResult E (List Addr) → Kcp.Attempt net KcpStream bin → ℕ → Outcome (NetResult E NetConn)
  kcp_connect found attempt id = kcp_connect_with_settings found attempt Settings.default id

  pub kcp_connect_with_stream : KcpStream → ℕ → NetResult E NetConn
  kcp_connect_with_stream s id = do c ← Kcp.connect_with_stream net KcpStream bin s id; ok (kcp c)

  pub kcp_connect_with_timeout :
      NetResult E (List Addr)
      → Kcp.Attempt net KcpStream bin
      → ℕ
      → ℕ
      → Outcome (NetResult E NetConn)
  unfolding kcp_made
  kcp_connect_with_timeout found attempt micros id =
      kcp_made (Kcp.connect_with_timeout net KcpStream bin found attempt micros id)
