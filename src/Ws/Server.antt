-- ===== src/Ws/Server.antt =====
-- src/ws/server.rs: the server's end of a websocket.
pub mod Settled
pub mod Kinds
pub mod Shakes
use hcnet.Base.{ℕ, Bool, List, [], ◌∷◌, Option, none, some}
use hcnet.Protocol.{CloseCode}
use hcnet.Message.{Message}
use hcnet.Error.{NetResult, ok, err, ws, bad_status}
use hcnet.Settings.{Settings}
use hcnet.Buffer.{BinaryMut}
use hcnet.Net.{NetApi}
use hcnet.Stream.{MaybeTlsStream}
use hcnet.Ws.Web.{WebApi}
use hcnet.Ws.Duplex
use hcnet.Ws.Duplex.{
  Pipe, WsState, wait, wait_ret, opened, closing, closed, Event, fresh, open_process,
  closing_process,
}
use hcnet.Ws.Shake.{Shaken, ended, got, shake}
use hcnet.Ws.Client.{Reply, req, msg}

module _ {E : Type 0} (net : NetApi E) (api : WebApi E) (bin : BinaryMut) where
  open net use {Addr}
  open api use {Response}

  pub record WsServer : Type 0 where
    pub stream : MaybeTlsStream net
    pub addr : Addr
    pub pipe : Pipe api bin
    pub open pipe use *

  pub new : MaybeTlsStream net → Addr → WsServer
  new t addr = record { stream = t; addr = addr; pipe = fresh api bin }

  with_pipe : WsServer → NetResult E (Unit {0}) × Pipe api bin → NetResult E (Unit {0}) × WsServer
  with_pipe s (r, d) = (r, record s { pipe = d })

  serialized :
      NetResult E (Unit {0}) × List ℕ → Pipe api bin → NetResult E (Unit {0}) × Pipe api bin
  serialized (err e, sent) d = (err e, record d { write = bin.put_slice d.write sent })
  serialized (ok _, sent) d =
      (ok tt, record d { write = bin.put_slice d.write sent; state = opened })

  response_in : WsState → WsServer → Response → NetResult E (Unit {0}) × WsServer
  unfolding serialized with_pipe
  response_in wait_ret s res = with_pipe s (serialized (api.serialize res) s.pipe)
  response_in _ s res = (err (ws bad_status), s)

  pub handler_response : WsServer → Response → NetResult E (Unit {0}) × WsServer
  unfolding response_in
  handler_response s res = response_in s.state s res

  pub send_message : WsServer → Message → NetResult E (Unit {0}) × WsServer
  unfolding with_pipe
  send_message s m = with_pipe s (Duplex.send_message api bin s.pipe m none)

  pub close : WsServer → CloseCode → List ℕ → NetResult E (Unit {0}) × WsServer
  unfolding with_pipe
  close s code reason = with_pipe s (Duplex.close api bin s.pipe code reason none)

  abbrev pub Polled : Type 0
  Polled = Option (NetResult E (Reply net api bin)) × WsServer × List (Event E)

  pub replied : WsServer → Duplex.Polled api bin → Polled
  replied s (none, d, es) = (none, record s { pipe = d }, es)
  replied s (some (ok m), d, es) = (some (ok (msg m)), record s { pipe = d }, es)
  replied s (some (err e), d, es) = (some (err e), record s { pipe = d }, es)

  pub requested :
      WsServer
      → Option (NetResult E (Shaken api bin api.requests))
      → Pipe api bin
      → List (Event E)
      → Polled
  requested s none d es = (none, record s { pipe = d }, es)
  requested s (some (err e)) d es = (some (err e), record s { pipe = d }, es)
  requested s (some (ok ended)) d es = (some (ok (msg Message.shutdown)), record s { pipe = d }, es)
  requested s (some (ok (got r))) d es =
      (some (ok (req r)), record s { pipe = record d { state = wait_ret } }, es)

  pub process_in : WsState → WsServer → Settings → List (Event E) → Polled
  unfolding requested replied
  process_in wait s settings es =
      let (r, d, es') = shake api bin api.requests settings s.pipe es in requested s r d es'
  process_in wait_ret s settings es =
      let d = record s.pipe { state = opened } in replied s (open_process api bin settings d es)
  process_in opened s settings es = replied s (open_process api bin settings s.pipe es)
  process_in (closing _ _) s settings es = replied s (closing_process api bin settings s.pipe es)
  process_in (closed _ _) s settings es = (some (ok (msg Message.shutdown)), s, es)

  pub process : WsServer → Settings → List (Event E) → Polled
  unfolding process_in
  process s settings es = process_in s.state s settings es
