-- ===== src/Kcp.antt =====
-- src/kcp: the KCP connection, its state, its listener and its construction. The streams and the
-- protocol are those of tokio_kcp.
pub mod Process
pub mod Run
use hcnet.Base.{ℕ, ◌+◌, ◌*◌, ◌/◌, ◌%◌, ◌^◌, Bool, true, false, List, [], ◌∷◌, Option, none, some}
use hcnet.Protocol.{CloseCode}
use hcnet.Error.{NetResult, ok, err, timeout, ◌>>=◌}
use hcnet.Settings
use hcnet.Settings.{Settings}
use hcnet.Buffer.{BinaryMut}
use hcnet.Net.{NetApi}
use hcnet.Ws.Handshake.{Outcome, returned, panicked}

pub data KcpState : Type 0 where
  opened : KcpState
  closing : CloseCode → List ℕ → KcpState
  closed : KcpState

-- `src/kcp/listener.rs`, less the listener of tokio_kcp.
pub record WrapKcpListener : Type 0 where
  pub server_id : ℕ
  pub next_connection_id : ℕ

pub new_listener : ℕ → WrapKcpListener
new_listener server_id = record { server_id = server_id * 2 ^ 32 % 2 ^ 64; next_connection_id = 0 }

module _ {E : Type 0} (net : NetApi E) (KcpStream : Type 0) (bin : BinaryMut) where
  open net use {Addr}

  -- The argument is how the `accept` of tokio_kcp ends.
  pub accept_on :
      WrapKcpListener
      → NetResult E (KcpStream × Addr)
      → NetResult E (KcpStream × Addr × ℕ) × WrapKcpListener
  accept_on l (err e) = (err e, l)
  accept_on l (ok (s, addr)) =
      let next : ℕ = (l.next_connection_id + 1) % 2 ^ 32 in
      (ok (s, addr, (l.server_id + next) % 2 ^ 64), record l { next_connection_id = next })

  pub data Kcp : Type 0 where
    stream : KcpStream → Kcp
    listener : WrapKcpListener → Kcp
    unconnect : List Addr → Kcp
    uninit : Kcp

  pub record KcpConn : Type 0 where
    pub kcp : Kcp
    pub settings : Settings
    pub id : ℕ
    pub state : KcpState
    pub addr : Option Addr
    pub read : bin.Buf
    pub write : bin.Buf

  abbrev pub default : KcpConn
  default = record {
    kcp = uninit;
    settings = Settings.default;
    id = 0;
    state = opened;
    addr = none;
    read = bin.new;
    write = bin.new;
  }

  pub new : List Addr → KcpConn
  new addrs = record default { kcp = unconnect addrs }

  -- The settings are not used. `id` is what `IdCenter::next_connect_id` returned.
  pub bind_with_listener : Settings → ℕ → NetResult E KcpConn
  bind_with_listener settings id = ok (record default { kcp = listener (new_listener id); id = id })

  -- `bound` is how `KcpListener::bind` ends.
  pub bind : NetResult E (Unit {0}) → Settings → ℕ → NetResult E KcpConn
  bind bound settings id = do _ ← bound; bind_with_listener settings id

  pub connect_with_stream : KcpStream → ℕ → NetResult E KcpConn
  connect_with_stream s id = ok (record default { kcp = stream s; id = id })

  -- How a connect to an address ends by a deadline in milliseconds, under a `session_expire` in
  -- milliseconds; `none` if it does not.
  abbrev pub Attempt : Type 0
  Attempt = ℕ → Addr → ℕ → Option (NetResult E KcpStream)

  made : Settings → ℕ → Option (NetResult E KcpStream) → NetResult E KcpConn
  made settings id none = err timeout
  made settings id (some v) = do
    s ← v
    ok (record default { kcp = stream s; id = id; settings = settings })

  -- `found` is how `lookup_host` ends. `addrs[0]` panics where it finds none.
  pub connect_with_settings :
      NetResult E (List Addr) → Attempt → Settings → ℕ → Outcome (NetResult E KcpConn)
  unfolding made
  connect_with_settings (err e) attempt settings id = returned (err e)
  connect_with_settings (ok []) attempt settings id = panicked
  connect_with_settings (ok (a ∷ _)) attempt settings id =
      returned (made settings id (attempt settings.read_timeout a settings.connect_timeout))

  pub connect : NetResult E (List Addr) → Attempt → ℕ → Outcome (NetResult E KcpConn)
  connect found attempt id = connect_with_settings found attempt Settings.default id

  -- The timeout is a number of microseconds; the code counts its milliseconds.
  pub connect_with_timeout :
      NetResult E (List Addr) → Attempt → ℕ → ℕ → Outcome (NetResult E KcpConn)
  connect_with_timeout found attempt micros id =
      connect_with_settings found attempt
        (record Settings.default { connect_timeout = micros / 1000 % 2 ^ 64 }) id

  pub set_settings : KcpConn → Settings → KcpConn
  set_settings c settings = record c { settings = settings }

  pub is_listener : Kcp → Bool
  is_listener (listener _) = true
  is_listener _ = false

  pub is_listen : KcpConn → Bool
  unfolding is_listener
  is_listen c = is_listener c.kcp
