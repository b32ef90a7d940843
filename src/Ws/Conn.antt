-- ===== src/Ws/Conn.antt =====
-- `WsConn` of src/ws/mod.rs: a client, a server, a connection before its TLS handshake, or a
-- listener.
pub mod Polls
pub mod Kinds
pub mod Run
use hcnet.Base.{ℕ, Bool, true, false, List, Option, none, some, leb, if◌then◌else◌}
use hcnet.Protocol.{CloseCode}
use hcnet.Message.{Message}
use hcnet.Error.{NetResult, ok, err, ◌>>=◌}
use hcnet.Settings
use hcnet.Settings.{Settings}
use hcnet.Buffer.{BinaryMut}
use hcnet.Net.{NetApi}
use hcnet.Helper.{PemApi}
use hcnet.Stream
use hcnet.Stream.{TcpAcceptServer}
use hcnet.Listener
use hcnet.Listener.{WrapListener}
use hcnet.OnlineCount
use hcnet.OnlineCount.{OnlineCount, Counters}
use hcnet.Ws.Web.{WebApi}
use hcnet.Ws.Duplex
use hcnet.Ws.Duplex.{Event}
use hcnet.Ws.Client
use hcnet.Ws.Client.{WsClient, Reply}
use hcnet.Ws.Server
use hcnet.Ws.Server.{WsServer}

module _ {E : Type 0} (net : NetApi E) (api : WebApi E) (bin : BinaryMut) where
  open net use {Socket, Addr, Acceptor}
  open api use {Url}

  pub data Ws : Type 0 where
    client : WsClient net api bin → Ws
    server : WsServer net api bin → Ws
    accept_server : TcpAcceptServer net → Ws
    listener : WrapListener net → Ws
    uninit : Ws

  pub record WsConn : Type 0 where
    pub ws : Ws
    pub id : ℕ
    pub settings : Settings
    pub count : OnlineCount

  abbrev pub default : WsConn
  default = record { ws = uninit; id = 0; settings = Settings.default; count = OnlineCount.default }

  pub data WsMsgReceiver : Type 0 where
    accept : WsConn → WsMsgReceiver
    reply : Reply net api bin → WsMsgReceiver
    next : WsMsgReceiver

  -- `Ws::try_accept`.
  pub try_accept : Ws → NetResult E (Unit {0}) × Ws
  try_accept (accept_server a) =
      let (r, a') = Stream.accept net a in
      elim r [
        | ok (s, addr) ↦ (ok tt, server (Server.new net api bin s addr))
        | err e ↦ (err e, accept_server a')
      ]
  try_accept w = (ok tt, w)

  module _ (pem : PemApi E)
      (single_cert : List pem.CertificateDer → pem.PrivateKeyDer → NetResult E Acceptor) where
    -- `id` is what `IdCenter::next_connect_id` returned.
    pub new : ℕ → Settings → Counters → NetResult E (WsConn × Counters)
    new id settings st = do
      wrap ← Listener.new net pem single_cert id settings.domain settings
      let (count, st') = OnlineCount.new st
      ok (record { ws = listener wrap; id = id; settings = settings; count = count }, st')

  -- `url` is how `Url::try_from` ends.
  pub connect_with_settings :
      (List ℕ → ℕ → NetResult E Socket) → NetResult E Url → Settings → ℕ → NetResult E WsConn
  connect_with_settings attempt url settings id = do
    u ← url
    c ← Client.connect net api bin attempt u
    ok (record default { ws = client c; id = id; settings = settings })

  pub connect : (List ℕ → ℕ → NetResult E Socket) → NetResult E Url → ℕ → NetResult E WsConn
  connect attempt url id = connect_with_settings attempt url Settings.default id

  pub connect_with_stream : Socket → NetResult E Url → Settings → ℕ → NetResult E WsConn
  connect_with_stream s url settings id = do
    u ← url
    c ← Client.new net api bin s u
    ok (record default { ws = client c; id = id; settings = settings })

  pub addr_of : Ws → Option Addr
  addr_of (client _) = none
  addr_of (server s) = some s.addr
  addr_of (accept_server a) = some a.addr
  addr_of _ = none

  pub remote_addr : WsConn → Option Addr
  unfolding addr_of
  remote_addr c = addr_of c.ws

  -- What a poll of `process` meets: the events of the stream, or how the listener's `accept` ends.
  pub data Seen : Type 0 where
    io : List (Event E) → Seen
    incoming : NetResult E (Socket × Addr) → Seen

  abbrev pub Answer : Type 0
  Answer = Option (NetResult E WsMsgReceiver)

  pub listen :
      WsConn
      → WrapListener net
      → Counters
      → NetResult E (Socket × Addr)
      → NetResult E WsMsgReceiver × WsConn × Counters
  listen c l st outcome =
      let (r, l') = Listener.accept net l outcome in
      let c' = record c { ws = listener l' } in
      elim r [
        | err e ↦ (err e, c', st)
        | ok (s, addr, id, accepter) ↦
            (if leb c.settings.max_connections (OnlineCount.now c.count st)
              then (ok next, c', st)
              else (let (count, st') = OnlineCount.add c.count st in
                  (
                    ok (
                        accept (record default {
                          ws =
                              accept_server
                                (Stream.new net (record { stream = s; accepter = accepter }) addr);
                          id = id;
                          count = count;
                        })),
                    c',
                    st',
                  )))
      ]

  pub answered : Option (NetResult E (Reply net api bin)) → Answer
  answered none = none
  answered (some (ok r)) = some (ok (reply r))
  answered (some (err e)) = some (err e)

  process_on : Ws → WsConn → Counters → List ℕ → Seen → Answer × WsConn × Counters
  unfolding answered
  process_on (listener l) c st key (incoming outcome) =
      let (r, c', st') = listen c l st outcome in (some r, c', st')
  process_on (client cl) c st key (io es) =
      let (r, cl', _) = Client.process net api bin cl c.settings key es in
      (answered r, record c { ws = client cl' }, st)
  process_on (server s) c st key (io es) =
      let (r, s', _) = Server.process net api bin s c.settings es in
      (answered r, record c { ws = server s' }, st)
  process_on _ c st key seen = (none, c, st)

  pub process : WsConn → Counters → List ℕ → Seen → Answer × WsConn × Counters
  unfolding process_on
  process c st key seen = process_on c.ws c st key seen

  close_on : Ws → CloseCode → List ℕ → List ℕ → NetResult E (Unit {0}) × Ws
  close_on (listener _) code reason mask = (ok tt, uninit)
  close_on (client cl) code reason mask =
      let (r, cl') = Client.close net api bin cl code reason mask in (r, client cl')
  close_on (server s) code reason mask =
      let (r, s') = Server.close net api bin s code reason in (r, server s')
  close_on w code reason mask = (ok tt, w)

  pub close : WsConn → CloseCode → List ℕ → List ℕ → NetResult E (Unit {0}) × WsConn
  unfolding close_on
  close c code reason mask = let (r, w) = close_on c.ws code reason mask in (r, record c { ws = w })

  send_on : Ws → Message → List ℕ → NetResult E (Unit {0}) × Ws
  send_on (client cl) m mask =
      let (r, cl') = Client.send_message net api bin cl m mask in (r, client cl')
  send_on (server s) m mask = let (r, s') = Server.send_message net api bin s m in (r, server s')
  send_on w m mask = (ok tt, w)

  pub send_message : WsConn → Message → List ℕ → NetResult E (Unit {0}) × WsConn
  unfolding send_on
  send_message c m mask = let (r, w) = send_on c.ws m mask in (r, record c { ws = w })

  outbuffer_full_in : Ws → Settings → Bool
  outbuffer_full_in (client cl) settings = Duplex.is_outbuffer_full api bin cl.pipe settings
  outbuffer_full_in (server s) settings = Duplex.is_outbuffer_full api bin s.pipe settings
  outbuffer_full_in (accept_server _) settings = true
  outbuffer_full_in _ settings = false

  pub is_outbuffer_full : WsConn → Bool
  unfolding outbuffer_full_in
  is_outbuffer_full c = outbuffer_full_in c.ws c.settings

  pub is_listener : Ws → Bool
  is_listener (listener _) = true
  is_listener _ = false

  pub is_listen : WsConn → Bool
  unfolding is_listener
  is_listen c = is_listener c.ws

  pub ready_in : Ws → Bool
  ready_in (client cl) = Duplex.is_ready api bin cl.state
  ready_in (server s) = Duplex.is_ready api bin s.state
  ready_in _ = false

  pub is_ready : WsConn → Bool
  unfolding ready_in
  is_ready c = ready_in c.ws

  pub set_settings : WsConn → Settings → WsConn
  set_settings c settings = record c { settings = settings }
