-- ===== src/Ws/Conn/Run.antt =====
-- The loop of a websocket connection: `inner_run_with_handler` and `inner_run_handler` of
-- src/ws/mod.rs. A turn is the branch of the `select!` that completes next; `process` was pending
-- before the others, with the events it had seen, and is started anew.
pub mod Errors
pub mod Watched
pub mod Shaking
pub mod Opening
pub mod Order
pub mod Steps
pub mod Meeting
pub mod Delivery
use hcnet.Base.{ℕ, Bool, true, false, not, ◌&&◌, List, [], ◌∷◌, Option, none, some, codes, ◌==◌}
use hcnet.Protocol.{CloseCode, normal, error}
use hcnet.Message.{Message}
use hcnet.Error.{Command, NetResult, ok, err}
use hcnet.Buffer.{BinaryMut}
use hcnet.Net.{NetApi}
use hcnet.OnlineCount.{Counters}
use hcnet.Handler.{Handler}
use hcnet.Ws.Web.{WebApi}
use hcnet.Ws.Client
use hcnet.Ws.Client.{Reply, req, res, msg}
use hcnet.Ws.Server
use hcnet.Ws.Conn.{
  Ws, client, server, WsConn, WsMsgReceiver, accept, reply, next, Seen, process, close,
  send_message, try_accept, set_settings, is_listen, is_ready, is_outbuffer_full,
}

module _ {E : Type 0} (net : NetApi E) (api : WebApi E) (bin : BinaryMut)
    (handler : Handler E (WsConn net api bin))
    -- `on_request` of a handler that returns from it.
    (on_request : handler.State → api.Request → NetResult E api.Response × handler.State) where
  open handler use {State, on_accept, on_open, on_close, on_ping, on_pong, on_message, on_logic}

  -- Each turn has the random bytes that its code draws.
  pub data Turn : Type 0 where
    polled : Seen net api bin → List ℕ → Turn
    received : Option Command → List ℕ → Turn
    logic : Turn

  -- How the loop ends, if it does, and the handler and the connection that it leaves.
  abbrev pub Loop : Type 0
  Loop = Option (NetResult E (Unit {0})) × State × WsConn net api bin

  abbrev ended : NetResult E (Unit {0}) → Option (NetResult E (Unit {0}))
  ended (ok _) = none
  ended (err e) = some (err e)

  -- A request comes to a server alone; the code has an `unreachable!()` elsewhere.
  respond_on : Ws net api bin → api.Response → NetResult E (Unit {0}) × Ws net api bin
  respond_on (server s) r = let (x, s') = Server.handler_response net api bin s r in (x, server s')
  respond_on w r = (ok tt, w)

  pub handshake_failed : State → WsConn net api bin → List ℕ → Loop
  handshake_failed h c mask =
      let (r, c') = close net api bin c normal (codes "handshake failed!") mask in (ended r, h, c')

  pub on_req : State → WsConn net api bin → List ℕ → NetResult E api.Response → Loop
  unfolding respond_on handshake_failed
  on_req h c mask (err e) = (some (err e), h, c)
  on_req h c mask (ok r) =
      let (x, w) = respond_on c.ws r in
      elim x [
        | err e ↦ (some (err e), h, record c { ws = w })
        | ok _ ↦ elim (api.status r == 101) [
          | true ↦ (none, h, record c { ws = w })
          | false ↦ handshake_failed h (record c { ws = w }) mask
        ]
      ]

  -- A response comes to a client alone; the code has a `todo!()` elsewhere.
  opened_by : Ws net api bin → api.Response → NetResult E (Unit {0}) × Ws net api bin
  opened_by (client cl) r =
      let (x, cl') = Client.handler_response net api bin cl r in (x, client cl')
  opened_by w r = (ok tt, w)

  pub on_res : State → WsConn net api bin → List ℕ → api.Response → Loop
  unfolding opened_by handshake_failed
  on_res h c mask r = elim (api.status r == 101) [
    | false ↦ handshake_failed h c mask
    | true ↦ (let (x, w) = opened_by c.ws r in (ended x, h, record c { ws = w }))
  ]

  pub pong : State → WsConn net api bin → List ℕ → NetResult E (Option (List ℕ)) → Loop
  pong h c mask (err e) = (some (err e), h, c)
  pong h c mask (ok none) = (none, h, c)
  pong h c mask (ok (some ret)) =
      let (r, c') = send_message net api bin c (Message.pong ret) mask in (ended r, h, c')

  on_msg : State → WsConn net api bin → List ℕ → Message → Loop
  unfolding pong
  on_msg h c mask (Message.text t) = let (r, h') = on_message h (Message.text t) in (ended r, h', c)
  on_msg h c mask (Message.binary v) =
      let (r, h') = on_message h (Message.binary v) in (ended r, h', c)
  on_msg h c mask (Message.close code reason) = (some (ok tt), on_close h code reason, c)
  on_msg h c mask (Message.ping v) = let (r, h') = on_ping h v in pong h' c mask r
  on_msg h c mask (Message.pong v) = let (r, h') = on_pong h v in (ended r, h', c)
  on_msg h c mask Message.shutdown = (some (ok tt), h, c)
  on_msg h c mask Message.unvaid = (some (ok tt), h, c)

  pub on_processed :
      State → WsConn net api bin → List ℕ → NetResult E (WsMsgReceiver net api bin) → Loop
  unfolding on_req on_res on_msg
  on_processed h c mask (err e) = (some (err e), h, c)
  on_processed h c mask (ok (accept conn)) =
      let (r, h') = on_accept h (set_settings net api bin conn c.settings) in (ended r, h', c)
  on_processed h c mask (ok (reply (req request))) =
      let (r, h') = on_request h request in on_req h' c mask r
  on_processed h c mask (ok (reply (res r))) = on_res h c mask r
  on_processed h c mask (ok (reply (msg m))) = on_msg h c mask m
  on_processed h c mask (ok next) = (none, h, c)

  pub on_polled :
      State → Option (NetResult E (WsMsgReceiver net api bin)) → WsConn net api bin → List ℕ → Loop
  unfolding on_processed
  on_polled h none c mask = (none, h, c)
  on_polled h (some r) c mask = on_processed h c mask r

  pub on_command : State → WsConn net api bin → List ℕ → Message → Loop
  on_command h c mask (Message.close code reason) =
      let (r, c') = close net api bin c code reason mask in (ended r, h, c')
  on_command h c mask Message.shutdown =
      let (r, c') = close net api bin c normal (codes "Shutdown") mask in (ended r, h, c')
  on_command h c mask m = let (r, c') = send_message net api bin c m mask in (ended r, h, c')

  pub on_received : State → WsConn net api bin → Bool → List ℕ → Option Command → Loop
  unfolding on_command
  on_received h c true mask cmd = (some (ok tt), h, c)
  on_received h c false mask none = (some (ok tt), h, c)
  on_received h c false mask (some cmd) = on_command h c mask cmd.msg

  pub turn : Bool → State → WsConn net api bin → Counters → Turn → Loop × Counters
  unfolding on_received on_polled
  turn listens h c st (polled seen random) =
      let (r, c', st') = process net api bin c st random seen in (on_polled h r c' random, st')
  turn listens h c st (received cmd random) = elim (is_outbuffer_full net api bin c) [
    | true ↦ ((none, h, c), st)
    | false ↦ (on_received h c listens random cmd, st)
  ]
  turn listens h c st logic = let (r, h') = on_logic h in ((ended r, h', c), st)

  -- `on_open`, once, at the first head of the loop where the connection is ready; the flag says that it
  -- was called.
  pub head : Bool → State → WsConn net api bin → Option (NetResult E (Unit {0})) × State × Bool
  head call_ready h c = elim (not call_ready && is_ready net api bin c) [
    | false ↦ (none, h, call_ready)
    | true ↦
        (let (r, h') = on_open h in
          elim r [ ok _ ↦ (none, h', true) | err e ↦ (some (err e), h', false) ])
  ]

  -- The head of the loop and a turn. At the end of the list the loop has passed its head and waits.
  pub run : Bool → Bool → State → WsConn net api bin → Counters → List Turn → Loop × Counters
  unfolding head turn
  run listens ready h c st [] = let (r, h', _) = head ready h c in ((r, h', c), st)
  run listens ready h c st (t ∷ ts) =
      let (r₁, h₁, ready') = head ready h c in
      let ((r₂, h₂, c₂), st₂) = turn listens h₁ c st t in
      let rest = run listens ready' h₂ c₂ st₂ ts in
      elim r₁ [
        | some e ↦ ((some e, h₁, c), st)
        | none ↦ elim r₂ [ some e ↦ ((some e, h₂, c₂), st₂) | none ↦ rest ]
      ]

  pub inner_run_with_handler : State → WsConn net api bin → Counters → List Turn → Loop × Counters
  unfolding run
  inner_run_with_handler h c st ts =
      let (r, w) = try_accept net api bin c.ws in
      let c₁ = record c { ws = w } in
      elim r [
        | err e ↦ ((some (err e), h, c₁), st)
        | ok _ ↦ run (is_listen net api bin c₁) false h c₁ st ts
      ]

  -- An error is told to the handler before it is returned.
  pub told : Loop × Counters → Loop × Counters
  told ((some (err e), h, c), st) = ((some (err e), on_close h error (codes "NetError"), c), st)
  told ((some (ok r), h, c), st) = ((some (ok r), h, c), st)
  told ((none, h, c), st) = ((none, h, c), st)

  -- A first `try_accept` stands outside of what is told to the handler.
  pub inner_run_handler : State → WsConn net api bin → Counters → List Turn → Loop × Counters
  unfolding inner_run_with_handler told
  inner_run_handler h c st ts =
      let (r, w) = try_accept net api bin c.ws in
      let c₁ = record c { ws = w } in
      elim r [
        | err e ↦ ((some (err e), h, c₁), st)
        | ok _ ↦ told (inner_run_with_handler h c₁ st ts)
      ]
