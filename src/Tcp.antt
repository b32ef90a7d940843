-- ===== src/Tcp.antt =====
-- src/tcp: the TCP connection, its state and its construction.
pub mod Process
pub mod Run
pub mod Construct
use hcnet.Base.{
  ℕ, ◌*◌, ◌%◌, ◌^◌, ◌≡◌, refl, Bool, true, false, List, Option, none, some, if◌then◌else◌,
}
use hcnet.Protocol.{CloseCode}
use hcnet.Message.{Message}
use hcnet.Error.{NetError, NetResult, ok, err, io, timeout, ◌>>=◌}
use hcnet.Settings
use hcnet.Settings.{Settings}
use hcnet.Buffer.{BinaryMut}
use hcnet.Net.{NetApi}
use hcnet.Stream
use hcnet.Stream.{MaybeTlsStream, TcpAcceptServer}
use hcnet.Listener
use hcnet.Listener.{WrapListener}
use hcnet.Helper.{PemApi}
use hcnet.OnlineCount
use hcnet.OnlineCount.{OnlineCount, Counters}

pub data TcpState : Type 0 where
  opened : TcpState
  closing : CloseCode → List ℕ → TcpState
  closed : TcpState

module _ {E : Type 0} (net : NetApi E) (bin : BinaryMut) where
  open net use {Socket, Addr, Acceptor}

  pub data Tcp : Type 0 where
    stream : MaybeTlsStream net → Tcp
    listener : WrapListener net → Tcp
    accept_server : TcpAcceptServer net → Tcp
    unconnect : List Addr → Tcp
    uninit : Tcp

  pub record TcpConn : Type 0 where
    pub tcp : Tcp
    pub settings : Settings
    pub id : ℕ
    pub state : TcpState
    pub addr : Option Addr
    pub read : bin.Buf
    pub write : bin.Buf
    pub count : OnlineCount

  abbrev pub default : TcpConn
  default = record {
    tcp = uninit;
    settings = Settings.default;
    id = 0;
    state = opened;
    addr = none;
    read = bin.new;
    write = bin.new;
    count = OnlineCount.default;
  }

  -- `Tcp::try_accept`: the TLS handshake of a connection that a listener took.
  pub try_accept : Tcp → NetResult E (Unit {0}) × Tcp
  try_accept (accept_server a) =
      let (r, a') = Stream.accept net a in
      elim r [ ok (s, addr) ↦ (ok tt, stream s) | err e ↦ (err e, accept_server a') ]
  try_accept t = (ok tt, t)

  pub new : List Addr → TcpConn
  new addrs = record default { tcp = unconnect addrs }

  module _ (pem : PemApi E)
      (single_cert : List pem.CertificateDer → pem.PrivateKeyDer → NetResult E Acceptor) where
    -- `id` is what `IdCenter::next_connect_id` returned. The settings go to the listener alone.
    unfoldable pub bind_with_listener : ℕ → Settings → Counters → NetResult E (TcpConn × Counters)
    bind_with_listener id settings st = do
      wrap ← Listener.new net pem single_cert id settings.domain settings
      let (count, st') = OnlineCount.new st
      ok (record default { tcp = listener wrap; id = id; count = count }, st')

  pub connect_with_stream : Socket → Settings → ℕ → TcpConn
  connect_with_stream s settings id = record default {
    tcp = stream (MaybeTlsStream.stream s);
    id = id;
    settings = settings;
  }

  -- How a connect ends by a deadline in milliseconds; `none` if it does not.
  abbrev pub Attempt : Type 0
  Attempt = ℕ → Option (NetResult E Socket)

  secure : Option (List ℕ) → Socket → NetResult E (MaybeTlsStream net)
  secure none s = ok (MaybeTlsStream.stream s)
  secure (some domain) s = Stream.connect_tls net s domain

  pub connect_with_settings : Attempt → Settings → ℕ → NetResult E TcpConn
  unfolding secure
  connect_with_settings attempt settings id = elim (attempt settings.connect_timeout) [
    | none ↦ err timeout
    | some v ↦ (do
      s ← v
      t ← secure settings.domain s
      ok (record default { tcp = stream t; id = id; settings = settings }))
  ]

  pub connect : Attempt → ℕ → NetResult E TcpConn
  connect attempt id = connect_with_settings attempt Settings.default id

  pub connect_tls : Attempt → List ℕ → ℕ → NetResult E TcpConn
  connect_tls attempt domain id =
      connect_with_settings attempt (record Settings.default { domain = some domain }) id

  -- The timeout is a number of microseconds.
  pub connect_with_timeout : Attempt → ℕ → ℕ → NetResult E TcpConn
  connect_with_timeout attempt micros id =
      connect_with_settings attempt (record Settings.default { connect_timeout = micros % 2 ^ 64 })
        id

  pub connect_tls_with_timeout : Attempt → List ℕ → ℕ → ℕ → NetResult E TcpConn
  connect_tls_with_timeout attempt domain micros id =
      connect_with_settings attempt
        (record Settings.default { connect_timeout = micros % 2 ^ 64; domain = some domain }) id

  pub set_settings : TcpConn → Settings → TcpConn
  set_settings c settings = record c { settings = settings }

  pub is_listener : Tcp → Bool
  is_listener (listener _) = true
  is_listener _ = false

  pub is_listen : TcpConn → Bool
  unfolding is_listener
  is_listen c = is_listener c.tcp
