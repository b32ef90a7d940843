-- ===== src/Builder.antt =====
-- src/builder.rs: settings put together step by step, and the connections made with them.
use hcnet.Base.{ℕ, Bool, List, some}
use hcnet.Error.{NetResult}
use hcnet.Settings
use hcnet.Settings.{Settings}
use hcnet.Buffer.{BinaryMut}
use hcnet.Net.{NetApi}
use hcnet.Helper.{PemApi}
use hcnet.OnlineCount.{Counters}
use hcnet.Ws.Handshake.{Outcome}
use hcnet.Ws.Web.{WebApi}
use hcnet.Tcp
use hcnet.Kcp
use hcnet.Conn
use hcnet.Conn.{
  NetConn, tcp_connect_with_settings, kcp_connect_with_settings, ws_connect_with_settings,
}

pub record Builder : Type 0 where
  pub settings : Settings

pub new : Builder
new = record { settings = Settings.default }

pub max_connections : Builder → ℕ → Builder
max_connections b v = record { settings = record (b.settings) { max_connections = v } }

pub queue_size : Builder → ℕ → Builder
queue_size b v = record { settings = record (b.settings) { queue_size = v } }

pub in_buffer_max : Builder → ℕ → Builder
in_buffer_max b v = record { settings = record (b.settings) { in_buffer_max = v } }

pub out_buffer_max : Builder → ℕ → Builder
out_buffer_max b v = record { settings = record (b.settings) { out_buffer_max = v } }

pub onemsg_max_size : Builder → ℕ → Builder
onemsg_max_size b v = record { settings = record (b.settings) { onemsg_max_size = v } }

pub closing_time : Builder → ℕ → Builder
closing_time b v = record { settings = record (b.settings) { closing_time = v } }

pub connect_timeout : Builder → ℕ → Builder
connect_timeout b v = record { settings = record (b.settings) { connect_timeout = v } }

pub shake_timeout : Builder → ℕ → Builder
shake_timeout b v = record { settings = record (b.settings) { shake_timeout = v } }

pub read_timeout : Builder → ℕ → Builder
read_timeout b v = record { settings = record (b.settings) { read_timeout = v } }

pub is_raw : Builder → Bool → Builder
is_raw b v = record { settings = record (b.settings) { is_raw = v } }

pub domain : Builder → List ℕ → Builder
domain b v = record { settings = record (b.settings) { domain = some v } }

pub tls : Builder → List ℕ → List ℕ → Builder
tls b cert key = record { settings = record (b.settings) { cert = some cert; key = some key } }

module _ {E : Type 0} (net : NetApi E) (KcpStream : Type 0) (api : WebApi E) (bin : BinaryMut) where
  abbrev Made : Type 0
  Made = NetResult E (NetConn net KcpStream api bin)

  pub tcp_connect : Builder → Tcp.Attempt net bin → ℕ → Made
  tcp_connect b attempt id = tcp_connect_with_settings net KcpStream api bin attempt b.settings id

  pub kcp_connect :
      Builder
      → NetResult E (List net.Addr)
      → Kcp.Attempt net KcpStream bin
      → ℕ
      → Outcome (NetResult E (NetConn net KcpStream api bin))
  kcp_connect b found attempt id =
      kcp_connect_with_settings net KcpStream api bin found attempt b.settings id

  pub kcp_bind : Builder → NetResult E (Unit {0}) → ℕ → Made
  kcp_bind b bound id = Conn.kcp_bind net KcpStream api bin bound b.settings id

  pub ws_connect : Builder → (List ℕ → ℕ → NetResult E net.Socket) → NetResult E api.Url → ℕ → Made
  ws_connect b attempt url id =
      ws_connect_with_settings net KcpStream api bin attempt url b.settings id

  module _ (pem : PemApi E)
      (single_cert : List pem.CertificateDer → pem.PrivateKeyDer → NetResult E net.Acceptor) where
    abbrev Bound : Type 0
    Bound = NetResult E (NetConn net KcpStream api bin × Counters)

    pub tcp_bind : Builder → NetResult E (Unit {0}) → ℕ → Counters → Bound
    tcp_bind b bound id st =
        Conn.tcp_bind net KcpStream api bin pem single_cert bound id b.settings st

    pub ws_bind : Builder → NetResult E (Unit {0}) → ℕ → Counters → Bound
    ws_bind b bound id st =
        Conn.ws_bind net KcpStream api bin pem single_cert bound id b.settings st
