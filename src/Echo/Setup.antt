-- ===== src/Echo/Setup.antt =====
-- How `main` of examples/server_echo.rs and of examples/client_echo.rs gets its connection.
use hcnet.Base.{ℕ, List, ◌∷◌, some, codes, eq_bytes, if◌then◌else◌}
use hcnet.Error.{NetResult, ok, err, ◌>>=◌}
use hcnet.Settings
use hcnet.Settings.{Settings}
use hcnet.Buffer.{BinaryMut}
use hcnet.Net.{NetApi}
use hcnet.Helper.{PemApi}
use hcnet.OnlineCount.{Counters}
use hcnet.Ws.Handshake.{Outcome, returned, panicked}
use hcnet.Ws.Web.{WebApi}
use hcnet.Tcp
use hcnet.Kcp
use hcnet.Conn.{NetConn, ws_bind, kcp_bind, tcp_bind, ws_connect, kcp_connect, tcp_connect}

-- The cases of the match on the first argument.
pub data Mode : Type 0 where
  ws wss kcp tcp : Mode

mode_of : List ℕ → Mode
mode_of t =
    if eq_bytes t (codes "ws")
    then ws
    else if eq_bytes t (codes "wss")
    then wss
    else if eq_bytes t (codes "kcp")
    then kcp
    else tcp

-- The arguments, the name of the program the first of them.
mode : List (List ℕ) → Mode
unfolding mode_of
mode (program ∷ t ∷ _) = mode_of t
mode _ = mode_of (codes "tcp")

unwrap : {E A : Type 0} → NetResult E A → Outcome A
unwrap (ok x) = returned x
unwrap (err e) = panicked

unwrap_outcome : {E A : Type 0} → Outcome (NetResult E A) → Outcome A
unfolding unwrap
unwrap_outcome (returned r) = unwrap r
unwrap_outcome panicked = panicked

abbrev wss_settings : Settings
wss_settings = record Settings.default {
  domain = some (codes "test.wmproxy.net");
  cert = some (codes "key/example.com.pem");
  key = some (codes "key/example.com.key");
}

module _ {E : Type 0} (net : NetApi E) (KcpStream : Type 0) (api : WebApi E) (bin : BinaryMut) where
  open net use {Socket, Addr, Acceptor}

  -- The server; `bound` is how the bind to 0.0.0.0:2003 ends.
  module _ (pem : PemApi E)
      (single_cert : List pem.CertificateDer → pem.PrivateKeyDer → NetResult E Acceptor)
      (bound : NetResult E (Unit {0})) where
    bind : Mode → ℕ → Counters → NetResult E (NetConn net KcpStream api bin × Counters)
    bind ws id st = ws_bind net KcpStream api bin pem single_cert bound id Settings.default st
    bind wss id st = ws_bind net KcpStream api bin pem single_cert bound id wss_settings st
    bind kcp id st = do c ← kcp_bind net KcpStream api bin bound Settings.default id; ok (c, st)
    bind tcp id st = tcp_bind net KcpStream api bin pem single_cert bound id Settings.default st

    server_conn : List (List ℕ) → ℕ → Counters → Outcome (NetConn net KcpStream api bin × Counters)
    unfolding bind unwrap
    server_conn args id st = unwrap (bind (mode args) id st)

  -- The client; the arguments are how the attempts of the four kinds of connection end.
  module _ (attempt : List ℕ → ℕ → NetResult E Socket) (parse_url : List ℕ → NetResult E api.Url)
      (found : NetResult E (List Addr)) (kcp_attempt : Kcp.Attempt net KcpStream bin)
      (tcp_attempt : Tcp.Attempt net bin) where
    connect : Mode → ℕ → Outcome (NetResult E (NetConn net KcpStream api bin))
    connect ws id =
        returned
          (ws_connect net KcpStream api bin attempt (parse_url (codes "ws://127.0.0.1:2003")) id)
    connect wss id = returned (
        ws_connect net KcpStream api bin attempt (parse_url (codes "wss://test.wmproxy.net:2003"))
          id)
    connect kcp id = kcp_connect net KcpStream api bin found kcp_attempt id
    connect tcp id = returned (tcp_connect net KcpStream api bin tcp_attempt id)

    client_conn : List (List ℕ) → ℕ → Outcome (NetConn net KcpStream api bin)
    unfolding connect unwrap_outcome
    client_conn args id = unwrap_outcome (connect (mode args) id)
