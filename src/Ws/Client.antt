-- ===== src/Ws/Client.antt =====
-- src/ws/client.rs: the client's end of a websocket.
pub mod Quiet
pub mod Kinds
pub mod Shakes
use hcnet.Base.{ℕ, Bool, List, [], ◌∷◌, Option, none, some, ◌==◌, if◌then◌else◌, codes}
use hcnet.Protocol.{CloseCode}
use hcnet.Message.{Message}
use hcnet.Error.{
  NetResult, ok, err, ws, unknow_host, bad_status, fail_status, protocol_error, ◌>>=◌,
}
use hcnet.Settings.{Settings}
use hcnet.Buffer.{BinaryMut}
use hcnet.Net.{NetApi}
use hcnet.Stream
use hcnet.Stream.{MaybeTlsStream}
use hcnet.Ws.Web.{WebApi, Scheme}
use hcnet.Ws.Duplex
use hcnet.Ws.Duplex.{
  Pipe, WsState, wait, wait_ret, opened, closing, closed, Event, fresh, open_process,
  closing_process,
}
use hcnet.Ws.Shake.{Shaken, ended, got, shake}

module _ {E : Type 0} (net : NetApi E) (api : WebApi E) (bin : BinaryMut) where
  open net use {Socket}
  open api use {Url, Request, Response}

  pub record WsClient : Type 0 where
    pub stream : MaybeTlsStream net
    pub url : Url
    pub pipe : Pipe api bin
    pub open pipe use *

  -- The messages of `WsMsgReceiver` that the two ends of a connection give.
  pub data Reply : Type 0 where
    req : Request → Reply
    res : Response → Reply
    msg : Message → Reply

  or_empty : Option (List ℕ) → List ℕ
  or_empty (some t) = t
  or_empty none = []

  dismatch : List ℕ
  dismatch = codes "dismatch scheme only support ws, wss"

  new_by : Scheme → Socket → Url → NetResult E WsClient
  unfolding or_empty dismatch
  new_by Scheme.ws s url =
      ok (record { stream = MaybeTlsStream.stream s; url = url; pipe = fresh api bin })
  new_by Scheme.wss s url = do
    t ← Stream.connect_tls net s (or_empty (api.domain url))
    ok (record { stream = t; url = url; pipe = fresh api bin })
  new_by Scheme.other s url = err (ws (protocol_error dismatch))

  pub new : Socket → Url → NetResult E WsClient
  unfolding new_by
  new s url = new_by (api.scheme url) s url

  -- `attempt` is how `TcpStream::connect` to a host and a port ends.
  connect_by : Scheme → (List ℕ → ℕ → NetResult E Socket) → List ℕ → ℕ → Url → NetResult E WsClient
  unfolding new dismatch
  connect_by Scheme.ws attempt domain port url = do s ← attempt domain port; new s url
  connect_by Scheme.wss attempt domain port url = do s ← attempt domain port; new s url
  connect_by Scheme.other attempt domain port url = err (ws (protocol_error dismatch))

  pub connect : (List ℕ → ℕ → NetResult E Socket) → Url → NetResult E WsClient
  unfolding connect_by
  connect attempt url = elim (api.domain url) [
    | none ↦ err (ws unknow_host)
    | some domain ↦ elim (api.port url) [
      | none ↦ err (ws unknow_host)
      | some port ↦ connect_by (api.scheme url) attempt domain port url
    ]
  ]

  unfoldable pub with_pipe :
      WsClient → NetResult E (Unit {0}) × Pipe api bin → NetResult E (Unit {0}) × WsClient
  with_pipe c (r, d) = (r, record c { pipe = d })

  unfoldable pub send_message : WsClient → Message → List ℕ → NetResult E (Unit {0}) × WsClient
  unfolding with_pipe
  send_message c m mask = with_pipe c (Duplex.send_message api bin c.pipe m (some mask))

  pub close : WsClient → CloseCode → List ℕ → List ℕ → NetResult E (Unit {0}) × WsClient
  unfolding with_pipe
  close c code reason mask = with_pipe c (Duplex.close api bin c.pipe code reason (some mask))

  pub response_in : WsState → WsClient → NetResult E (Unit {0}) × WsClient
  response_in wait_ret c = (ok tt, record c { pipe = record c.pipe { state = opened } })
  response_in _ c = (err (ws bad_status), c)

  pub handler_response : WsClient → Response → NetResult E (Unit {0}) × WsClient
  unfolding response_in
  handler_response c _ = response_in c.state c

  abbrev pub Polled : Type 0
  Polled = Option (NetResult E Reply) × WsClient × List (Event E)

  pub replied : WsClient → Duplex.Polled api bin → Polled
  replied c (none, d, es) = (none, record c { pipe = d }, es)
  replied c (some (ok m), d, es) = (some (ok (msg m)), record c { pipe = d }, es)
  replied c (some (err e), d, es) = (some (err e), record c { pipe = d }, es)

  pub responded :
      WsClient
      → Option (NetResult E (Shaken api bin api.responses))
      → Pipe api bin
      → List (Event E)
      → Polled
  responded c none d es = (none, record c { pipe = d }, es)
  responded c (some (err e)) d es = (some (err e), record c { pipe = d }, es)
  responded c (some (ok ended)) d es = (some (ok (msg Message.shutdown)), record c { pipe = d }, es)
  responded c (some (ok (got r))) d es = (
    if api.status r == 101 then some (ok (res r)) else some (err (ws (fail_status (api.status r)))),
    record c { pipe = d },
    es,
  )

  pub wait_response : WsClient → Settings → List (Event E) → Polled
  unfolding responded
  wait_response c settings es =
      let (r, d, es') = shake api bin api.responses settings c.pipe es in responded c r d es'

  pub upgrade_headers : List ℕ → List (List ℕ × List ℕ)
  upgrade_headers key =
      (codes "Connection", codes "Upgrade")
      ∷ (codes "Upgrade", codes "websocket")
      ∷ (codes "Sec-WebSocket-Key", api.handshake.base64_encode key)
      ∷ (codes "Sec-WebSocket-Version", codes "13")
      ∷ (codes "Sec-WebSocket-Protocol", codes "chat, superchat")
      ∷ []

  -- The client after it has put the request into its buffer.
  unfoldable pub requested : WsClient → List ℕ → WsClient
  requested c sent = record c {
    pipe = record c.pipe { write = bin.put_slice c.pipe.write sent; state = wait_ret };
  }

  process_in : WsState → WsClient → Settings → List ℕ → List (Event E) → Polled
  unfolding wait_response upgrade_headers requested replied
  process_in wait c settings key es = elim (api.http1_data c.url (upgrade_headers key)) [
    | err e ↦ (some (err e), c, es)
    | ok sent ↦ wait_response (requested c sent) settings es
  ]
  process_in wait_ret c settings key es = wait_response c settings es
  process_in opened c settings key es = replied c (open_process api bin settings c.pipe es)
  process_in (closing _ _) c settings key es =
      replied c (closing_process api bin settings c.pipe es)
  process_in (closed _ _) c settings key es = (some (ok (msg Message.shutdown)), c, es)

  -- `key` is the 16 bytes that `rand::random()` gives when the request is made.
  pub process : WsClient → Settings → List ℕ → List (Event E) → Polled
  unfolding process_in
  process c settings key es = process_in c.state c settings key es
