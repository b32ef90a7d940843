-- ===== src/Conn/Run.antt =====
-- How `NetConn` runs a connection: `inner_run_handler`, `run_handler`, `inner_run_with_handler` and
-- `run_with_handler` of src/conn.rs. What the spawned tasks print is left out.
pub mod Errors
use hcnet.Base.{List, Option, none, some, codes}
use hcnet.Protocol.{error}
use hcnet.Error.{NetResult, ok, err}
use hcnet.Buffer.{BinaryMut}
use hcnet.Net.{NetApi}
use hcnet.OnlineCount.{Counters}
use hcnet.Handler.{Handler}
use hcnet.Ws.Handshake.{Outcome, returned}
use hcnet.Ws.Web.{WebApi}
use hcnet.Tcp
use hcnet.Ws.Conn
use hcnet.Kcp
use hcnet.Conn.{NetConn, tcp, ws, kcp}

module _ {E : Type 0} (net : NetApi E) (KcpStream : Type 0) (api : WebApi E) (bin : BinaryMut)
    (handler : Handler E (NetConn net KcpStream api bin))
    (on_request : handler.State → api.Request → NetResult E api.Response × handler.State) where
  open handler use {State, on_close}

  -- A handler of the connections of one kind, by how they are turned into a `NetConn`.
  abbrev pub handler_of : {C : Type 0} → (C → NetConn net KcpStream api bin) → Handler E C
  handler_of into = record {
    State = State;
    on_accept = λ h c. handler.on_accept h (into c);
    on_open = handler.on_open;
    on_close = handler.on_close;
    on_ping = handler.on_ping;
    on_pong = handler.on_pong;
    on_message = handler.on_message;
    on_logic = handler.on_logic;
  }

  -- What the loop meets, for each kind of connection.
  pub record Turns : Type 0 where
    pub of_tcp : List (Tcp.Run.Turn net bin (handler_of tcp))
    pub of_ws : List (Conn.Run.Turn net api bin (handler_of ws) on_request)
    pub of_kcp : List (Kcp.Run.Turn net KcpStream bin (handler_of kcp))

  abbrev pub Loop : Type 0
  Loop = Option (Outcome (NetResult E (Unit {0}))) × State × NetConn net KcpStream api bin

  -- A TCP or a websocket connection does not panic.
  abbrev pub of_result : Option (NetResult E (Unit {0})) → Option (Outcome (NetResult E (Unit {0})))
  of_result none = none
  of_result (some r) = some (returned r)

  pub inner_run_handler : State → NetConn net KcpStream api bin → Counters → Turns → Loop × Counters
  inner_run_handler h (tcp c) st ts =
      let ((r, h', c'), st') =
        Tcp.Run.inner_run_handler net bin (handler_of tcp) h c st ts.of_tcp in
      ((of_result r, h', tcp c'), st')
  inner_run_handler h (ws c) st ts =
      let ((r, h', c'), st') =
        Conn.Run.inner_run_handler net api bin (handler_of ws) on_request h c st ts.of_ws in
      ((of_result r, h', ws c'), st')
  inner_run_handler h (kcp c) st ts =
      let (r, h', c') =
        Kcp.Run.inner_run_handler net KcpStream bin (handler_of kcp) h c ts.of_kcp in
      ((r, h', kcp c'), st)

  pub inner_run_with_handler :
      State → NetConn net KcpStream api bin → Counters → Turns → Loop × Counters
  inner_run_with_handler h (tcp c) st ts =
      let ((r, h', c'), st') =
        Tcp.Run.inner_run_with_handler net bin (handler_of tcp) h c st ts.of_tcp in
      ((of_result r, h', tcp c'), st')
  inner_run_with_handler h (ws c) st ts =
      let ((r, h', c'), st') =
        Conn.Run.inner_run_with_handler net api bin (handler_of ws) on_request h c st ts.of_ws in
      ((of_result r, h', ws c'), st')
  inner_run_with_handler h (kcp c) st ts =
      let (r, h', c') =
        Kcp.Run.inner_run_with_handler net KcpStream bin (handler_of kcp) h c ts.of_kcp in
      ((r, h', kcp c'), st)

  -- What a task leaves of the handler: `none` while it runs, and after a panic.
  left : Option (Outcome (NetResult E (Unit {0}))) → State → Option State
  left (some (returned _)) h = some h
  left _ h = none

  -- The error is printed, and the handler is not told again.
  pub run_handler : State → NetConn net KcpStream api bin → Counters → Turns → Option State
  unfolding left
  run_handler h c st ts = let ((r, h', _), _) = inner_run_handler h c st ts in left r h'

  told : Option (Outcome (NetResult E (Unit {0}))) → State → Option State
  told (some (returned (ok _))) h = some h
  told (some (returned (err e))) h = some (on_close h error (codes "NetError"))
  told _ h = none

  pub run_with_handler : State → NetConn net KcpStream api bin → Counters → Turns → Option State
  unfolding told
  run_with_handler h c st ts = let ((r, h', _), _) = inner_run_with_handler h c st ts in told r h'
