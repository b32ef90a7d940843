-- ===== src/Ws/Conn/Polls.antt =====
-- What a poll of a websocket connection gives before the connection is open, and how operations leave
-- a server.
use hcnet.Base.{ℕ, ◌≡◌, ◌≢◌, refl, false, List, Option, none, some, leb, inl, inr, Bool-cases}
use hcnet.Protocol.{CloseCode}
use hcnet.Message.{Message}
use hcnet.Error.{NetResult, ok, err}
use hcnet.Buffer.{BinaryMut}
use hcnet.Net.{NetApi}
use hcnet.Listener
use hcnet.Listener.{WrapListener}
use hcnet.OnlineCount
use hcnet.OnlineCount.{Counters}
use hcnet.Ws.Web.{WebApi}
use hcnet.Ws.Duplex.{wait_ret}
use hcnet.Ws.Client.{Reply, req, res, msg}
use hcnet.Ws.Client.Quiet.{IsQuiet, process-IsQuiet}
use hcnet.Ws.Server.{WsServer}
use hcnet.Ws.Server.Settled.{Asks, process-Asks, close-Settled, send_message-Settled}
use hcnet.Ws.Conn.{
  Ws, client, server, accept_server, listener, uninit, WsConn, reply, Seen, io, incoming, Answer,
  listen, answered, process, process_on, ready_in, is_ready, close, close_on, send_message, send_on,
}

module _ {E : Type 0} (net : NetApi E) (api : WebApi E) (bin : BinaryMut) where
  -- A server does not wait for its own answer.
  abbrev pub Settled : Ws net api bin → Type 0
  Settled (server s) = s.state ≢ wait_ret
  Settled _ = Unit {0}

  -- An answer that makes no callback for a message of the peer.
  abbrev pub Quiet : Answer net api bin → Type 0
  Quiet (some (ok (reply r))) = IsQuiet net api bin (some (ok r))
  Quiet _ = Unit {0}

  -- After a request, the server waits for its own answer.
  abbrev pub Leaves : Answer net api bin → Ws net api bin → Type 0
  Leaves (some (ok (reply (req r)))) w = Unit {0}
  Leaves _ w = Settled w

  listen-Quiet :
      (c : WsConn net api bin) (l : WrapListener net) (st : Counters)
      (outcome : NetResult E (net.Socket × net.Addr))
      → let (r, c', st') = listen net api bin c l st outcome in
        Leaves (some r) c'.ws × Quiet (some r)
  unfolding listen Listener.accept
  listen-Quiet c l st (err e) = (tt, tt)
  listen-Quiet c l st (ok (s, a)) =
      elim (Bool-cases (leb c.settings.max_connections (OnlineCount.now c.count st))) [
        | inl full ↦ rw full (tt, tt)
        | inr room ↦ rw room (tt, tt)
      ]

  answered-Leaves :
      (r : Option (NetResult E (Reply net api bin))) (s : WsServer net api bin)
      → Asks net api bin (r, s)
      → Leaves (answered net api bin r) (server s)
  unfolding answered
  answered-Leaves none s h = h
  answered-Leaves (some (err e)) s h = h
  answered-Leaves (some (ok (req r))) s h = tt
  answered-Leaves (some (ok (res r))) s h = h
  answered-Leaves (some (ok (msg m))) s h = h

  answered-client :
      (r : Option (NetResult E (Reply net api bin))) (w : Ws net api bin)
      → Settled w
      → Leaves (answered net api bin r) w
  unfolding answered
  answered-client none w h = h
  answered-client (some (err e)) w h = h
  answered-client (some (ok (req r))) w h = tt
  answered-client (some (ok (res r))) w h = h
  answered-client (some (ok (msg m))) w h = h

  answered-Quiet :
      (r : Option (NetResult E (Reply net api bin)))
      → IsQuiet net api bin r
      → Quiet (answered net api bin r)
  unfolding answered
  answered-Quiet none h = tt
  answered-Quiet (some (err e)) h = tt
  answered-Quiet (some (ok r)) h = h

  process_on-Leaves :
      (w : Ws net api bin) (c : WsConn net api bin) (st : Counters) (key : List ℕ)
      (seen : Seen net api bin)
      → c.ws ≡ w
      → Settled w
      → let (r, c', st') = process_on net api bin w c st key seen in
        Leaves r c'.ws × (ready_in net api bin w ≡ false → Quiet r)
  unfolding process_on ready_in
  process_on-Leaves (listener l) c st key (incoming outcome) e h =
      let q = listen-Quiet c l st outcome in (q.0, λ x. q.1)
  process_on-Leaves (listener l) c st key (io es) e h = (rw e tt, λ x. tt)
  process_on-Leaves (client cl) c st key (io es) e h = (
    answered-client _ (client _) tt,
    λ x. answered-Quiet _ (process-IsQuiet net api bin cl c.settings key es x),
  )
  process_on-Leaves (client cl) c st key (incoming outcome) e h = (rw e tt, λ x. tt)
  process_on-Leaves (server s) c st key (io es) e h =
      let q = process-Asks net api bin s c.settings es h in
      (answered-Leaves _ _ q.0, λ x. answered-Quiet _ (q.1 x))
  process_on-Leaves (server s) c st key (incoming outcome) e h = (rw e h, λ x. tt)
  process_on-Leaves (accept_server a) c st key seen e h = (rw e tt, λ x. tt)
  process_on-Leaves uninit c st key seen e h = (rw e tt, λ x. tt)

  pub process-Leaves :
      (c : WsConn net api bin) (st : Counters) (key : List ℕ) (seen : Seen net api bin)
      → Settled c.ws
      → let (r, c', st') = process net api bin c st key seen in
        Leaves r c'.ws × (is_ready net api bin c ≡ false → Quiet r)
  unfolding process is_ready
  process-Leaves c st key seen h = process_on-Leaves c.ws c st key seen refl h

  close_on-Settled :
      (w : Ws net api bin) (code : CloseCode) (reason mask : List ℕ)
      → Settled w
      → Settled (close_on net api bin w code reason mask).1
  unfolding close_on
  close_on-Settled (listener _) code reason mask h = tt
  close_on-Settled (client cl) code reason mask h = tt
  close_on-Settled (server s) code reason mask h = close-Settled net api bin s code reason h
  close_on-Settled (accept_server _) code reason mask h = tt
  close_on-Settled uninit code reason mask h = tt

  pub conn_close-Settled :
      (c : WsConn net api bin) (code : CloseCode) (reason mask : List ℕ)
      → Settled c.ws
      → Settled (close net api bin c code reason mask).1.ws
  unfolding close
  conn_close-Settled c code reason mask h = close_on-Settled c.ws code reason mask h

  send_on-Settled :
      (w : Ws net api bin) (m : Message) (mask : List ℕ)
      → Settled w
      → Settled (send_on net api bin w m mask).1
  unfolding send_on
  send_on-Settled (client cl) m mask h = tt
  send_on-Settled (server s) m mask h = send_message-Settled net api bin s m h
  send_on-Settled (listener _) m mask h = tt
  send_on-Settled (accept_server _) m mask h = tt
  send_on-Settled uninit m mask h = tt

  pub conn_send-Settled :
      (c : WsConn net api bin) (m : Message) (mask : List ℕ)
      → Settled c.ws
      → Settled (send_message net api bin c m mask).1.ws
  unfolding send_message
  conn_send-Settled c m mask h = send_on-Settled c.ws m mask h
