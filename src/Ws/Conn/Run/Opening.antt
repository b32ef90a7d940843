-- ===== src/Ws/Conn/Run/Opening.antt =====
-- `on_open` comes before the callbacks for the peer's messages, and once.
use hcnet.Base.{
  ℕ, ◌≡◌, refl, Bool, true, false, not, ◌||◌, List, Option, none, some, ◌⊎◌, inl, inr, Bool-cases,
}
use hcnet.Protocol.{normal}
use hcnet.Message.{Message}
use hcnet.Error.{Command, NetResult, ok, err}
use hcnet.Buffer.{BinaryMut}
use hcnet.Net.{NetApi}
use hcnet.OnlineCount.{Counters}
use hcnet.Handler.{Handler}
use hcnet.Ws.Web.{WebApi}
use hcnet.Ws.Client.{req, res, msg}
use hcnet.Ws.Conn.{WsConn, accept, reply, next, Answer, is_ready, is_outbuffer_full}
use hcnet.Ws.Conn.Polls.{
  Settled, Quiet, Leaves, process-Leaves, conn_close-Settled, conn_send-Settled,
}
use hcnet.Ws.Conn.Run.{
  Turn, polled, received, logic, Loop, on_msg, on_processed, on_polled, on_command, on_received,
  turn,
}
use hcnet.Ws.Conn.Run.Watched
use hcnet.Ws.Conn.Run.Watched.{Watch, watched, watched_request}
use hcnet.Ws.Conn.Run.Shaking.{Fine, on_req-Fine, on_res-Fine, pong-Fine}

module _ {E : Type 0} (net : NetApi E) (api : WebApi E) (bin : BinaryMut)
    (handler : Handler E (WsConn net api bin))
    (on_request : handler.State → api.Request → NetResult E api.Response × handler.State) where
  abbrev W : Type 0
  W = Watch handler

  abbrev h' : Handler E (WsConn net api bin)
  h' = watched handler

  abbrev asked : W → api.Request → NetResult E api.Response × W
  asked = watched_request handler on_request

  abbrev Kept : W → Loop net api bin h' asked → Type 0
  Kept = Fine net api bin handler on_request

  -- A callback for a message of the peer, after `on_open`.
  noted_good : (w : W) → w.bad ≡ false → w.seen_open ≡ true → (w.bad || not w.seen_open) ≡ false
  noted_good w g o = rw (g, o) refl

  on_msg-Fine :
      (w : W) (c : WsConn net api bin) (mask : List ℕ) (m : Message)
      → w.bad ≡ false
      → Settled net api bin c.ws
      → (w.seen_open ≡ true) ⊎ (m ≡ Message.shutdown)
      → Kept w (on_msg net api bin h' asked w c mask m)
  unfolding on_msg
  on_msg-Fine w c mask Message.shutdown g k q = record { good = g; same = refl; settled = λ _. k }
  on_msg-Fine w c mask Message.unvaid g k q = record { good = g; same = refl; settled = λ _. k }
  on_msg-Fine w c mask (Message.text t) g k (inl o) = record {
    good = noted_good w g o;
    same = refl;
    settled = λ _. k;
  }
  on_msg-Fine w c mask (Message.binary t) g k (inl o) = record {
    good = noted_good w g o;
    same = refl;
    settled = λ _. k;
  }
  on_msg-Fine w c mask (Message.close code r) g k (inl o) = record {
    good = noted_good w g o;
    same = refl;
    settled = λ _. k;
  }
  on_msg-Fine w c mask (Message.ping t) g k (inl o) =
      pong-Fine net api bin handler on_request w
        (Watched.noted handler w (handler.on_ping w.inner t).1) (noted_good w g o) refl c mask _ k
  on_msg-Fine w c mask (Message.pong t) g k (inl o) = record {
    good = noted_good w g o;
    same = refl;
    settled = λ _. k;
  }
  on_msg-Fine w c mask (Message.text t) g k (inr e) = cc
  on_msg-Fine w c mask (Message.binary t) g k (inr e) = cc
  on_msg-Fine w c mask (Message.close code r) g k (inr e) = cc
  on_msg-Fine w c mask (Message.ping t) g k (inr e) = cc
  on_msg-Fine w c mask (Message.pong t) g k (inr e) = cc

  on_polled-Fine :
      (w : W) (r : Answer net api bin) (c : WsConn net api bin) (mask : List ℕ)
      → w.bad ≡ false
      → Leaves net api bin r c.ws
      → (w.seen_open ≡ true) ⊎ Quiet net api bin r
      → Kept w (on_polled net api bin h' asked w r c mask)
  unfolding on_polled on_processed
  on_polled-Fine w none c mask g k q = record { good = g; same = refl; settled = λ _. k }
  on_polled-Fine w (some (err e)) c mask g k q = record { good = g; same = refl; settled = λ _. k }
  on_polled-Fine w (some (ok (accept conn))) c mask g k q = record {
    good = g;
    same = refl;
    settled = λ _. k;
  }
  on_polled-Fine w (some (ok next)) c mask g k q = record {
    good = g;
    same = refl;
    settled = λ _. k;
  }
  on_polled-Fine w (some (ok (reply (req r)))) c mask g k q =
      let v : W = record w { inner = (on_request w.inner r).1 } in
      on_req-Fine net api bin handler on_request w v g refl c mask (on_request w.inner r).0
  on_polled-Fine w (some (ok (reply (res r)))) c mask g k q =
      on_res-Fine net api bin handler on_request w w g refl c mask r k
  on_polled-Fine w (some (ok (reply (msg m)))) c mask g k q = on_msg-Fine w c mask m g k q

  on_command-Fine :
      (w : W) (c : WsConn net api bin) (mask : List ℕ) (m : Message)
      → w.bad ≡ false
      → Settled net api bin c.ws
      → Kept w (on_command net api bin h' asked w c mask m)
  unfolding on_command
  on_command-Fine w c mask (Message.close code r) g k = record {
    good = g;
    same = refl;
    settled = λ _. conn_close-Settled net api bin c code r mask k;
  }
  on_command-Fine w c mask Message.shutdown g k = record {
    good = g;
    same = refl;
    settled = λ _. conn_close-Settled net api bin c normal _ mask k;
  }
  on_command-Fine w c mask m g k = record {
    good = g;
    same = refl;
    settled = λ _. conn_send-Settled net api bin c m mask k;
  }

  on_received-Fine :
      (w : W) (c : WsConn net api bin) (listens : Bool) (mask : List ℕ) (cmd : Option Command)
      → w.bad ≡ false
      → Settled net api bin c.ws
      → Kept w (on_received net api bin h' asked w c listens mask cmd)
  unfolding on_received
  on_received-Fine w c true mask cmd g k = record { good = g; same = refl; settled = λ _. k }
  on_received-Fine w c false mask none g k = record { good = g; same = refl; settled = λ _. k }
  on_received-Fine w c false mask (some cmd) g k = on_command-Fine w c mask cmd.msg g k

  -- A turn after the head of the loop, where a connection that is ready has seen `on_open`.
  pub turn-Fine :
      (listens : Bool) (w : W) (c : WsConn net api bin) (st : Counters)
      (t : Turn net api bin h' asked)
      → w.bad ≡ false
      → Settled net api bin c.ws
      → (is_ready net api bin c ≡ true → w.seen_open ≡ true)
      → Kept w (turn net api bin h' asked listens w c st t).0
  unfolding turn
  turn-Fine listens w c st (polled seen random) g k o =
      let p = process-Leaves net api bin c st random seen k in
      on_polled-Fine w _ _ random g p.0 (elim (Bool-cases (is_ready net api bin c)) [
        | inl ready ↦ inl (o ready)
        | inr unready ↦ inr (p.1 unready)
      ])
  turn-Fine listens w c st (received cmd mask) g k o =
      elim (Bool-cases (is_outbuffer_full net api bin c)) [
        | inl full ↦ rw (full, turn) (record { good = g; same = refl; settled = λ _. k })
        | inr room ↦ rw (room, turn) (on_received-Fine w c listens mask cmd g k)
      ]
  turn-Fine listens w c st logic g k o = record { good = g; same = refl; settled = λ _. k }
