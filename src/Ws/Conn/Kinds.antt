-- ===== src/Ws/Conn/Kinds.antt =====
-- Which end of a websocket gives what.
use hcnet.Base.{ℕ, List, Option, none, some, Bool-cases, inl, inr, leb}
use hcnet.Error.{NetResult, ok, err}
use hcnet.Buffer.{BinaryMut}
use hcnet.Net.{NetApi}
use hcnet.Listener
use hcnet.Listener.{WrapListener}
use hcnet.OnlineCount
use hcnet.OnlineCount.{Counters}
use hcnet.Ws.Web.{WebApi}
use hcnet.Ws.Client.{Reply, req, res, msg, WsClient}
use hcnet.Ws.Client.Kinds.{IsFromClient, process-IsFromClient}
use hcnet.Ws.Server.{WsServer}
use hcnet.Ws.Server.Kinds.{IsFromServer, process-IsFromServer}
use hcnet.Ws.Conn.{
  Ws, client, server, accept_server, listener, uninit, WsConn, reply, Seen, io, incoming, Answer,
  listen, answered, process, process_on,
}

module _ {E : Type 0} (net : NetApi E) (api : WebApi E) (bin : BinaryMut) where
  -- A request is for a server to respond to, and a response for a client to take.
  abbrev pub IsAnswerable : Answer net api bin → Ws net api bin → Type 0
  IsAnswerable (some (ok (reply (req _)))) (server _) = Unit {0}
  IsAnswerable (some (ok (reply (req _)))) _ = ⊥
  IsAnswerable (some (ok (reply (res _)))) (client _) = Unit {0}
  IsAnswerable (some (ok (reply (res _)))) _ = ⊥
  IsAnswerable _ _ = Unit {0}

  from_client :
      (r : Option (NetResult E (Reply net api bin))) (c : WsClient net api bin)
      → IsFromClient net api bin r
      → IsAnswerable (answered net api bin r) (client c)
  unfolding answered
  from_client none c h = tt
  from_client (some (err e)) c h = tt
  from_client (some (ok (req r))) c h = elim h [ ]
  from_client (some (ok (res r))) c h = tt
  from_client (some (ok (msg m))) c h = tt

  from_server :
      (r : Option (NetResult E (Reply net api bin))) (s : WsServer net api bin)
      → IsFromServer net api bin r
      → IsAnswerable (answered net api bin r) (server s)
  unfolding answered
  from_server none s h = tt
  from_server (some (err e)) s h = tt
  from_server (some (ok (req r))) s h = tt
  from_server (some (ok (res r))) s h = elim h [ ]
  from_server (some (ok (msg m))) s h = tt

  listen-IsAnswerable :
      (c : WsConn net api bin) (l : WrapListener net) (st : Counters)
      (outcome : NetResult E (net.Socket × net.Addr))
      → let (r, c', _) = listen net api bin c l st outcome in IsAnswerable (some r) c'.ws
  unfolding listen Listener.accept
  listen-IsAnswerable c l st (err e) = tt
  listen-IsAnswerable c l st (ok (s, a)) =
      elim (Bool-cases (leb c.settings.max_connections (OnlineCount.now c.count st))) [
        | inl full ↦ rw full tt
        | inr room ↦ rw room tt
      ]

  process_on-IsAnswerable :
      (w : Ws net api bin) (c : WsConn net api bin) (st : Counters) (key : List ℕ)
      (seen : Seen net api bin)
      → let (r, c', _) = process_on net api bin w c st key seen in IsAnswerable r c'.ws
  unfolding process_on
  process_on-IsAnswerable (listener l) c st key (incoming outcome) =
      listen-IsAnswerable c l st outcome
  process_on-IsAnswerable (listener l) c st key (io es) = tt
  process_on-IsAnswerable (client cl) c st key (io es) =
      from_client _ _ (process-IsFromClient net api bin cl c.settings key es)
  process_on-IsAnswerable (client cl) c st key (incoming outcome) = tt
  process_on-IsAnswerable (server s) c st key (io es) =
      from_server _ _ (process-IsFromServer net api bin s c.settings es)
  process_on-IsAnswerable (server s) c st key (incoming outcome) = tt
  process_on-IsAnswerable (accept_server a) c st key seen = tt
  process_on-IsAnswerable uninit c st key seen = tt

  -- Whatever a connection is and sees, if `process` gives a request, it leaves a server, and if it gives
  -- a response, it leaves a client: the loop, which answers a request with `unreachable!()` and a
  -- response with `todo!()` elsewhere, comes to neither.
  pub process-IsAnswerable :
      (c : WsConn net api bin) (st : Counters) (key : List ℕ) (seen : Seen net api bin)
      → let (r, c', _) = process net api bin c st key seen in IsAnswerable r c'.ws
  unfolding process
  process-IsAnswerable c st key seen = process_on-IsAnswerable c.ws c st key seen
