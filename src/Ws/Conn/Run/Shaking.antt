-- ===== src/Ws/Conn/Run/Shaking.antt =====
-- The watched handler, and the steps of a handshake and of a pong in the loop.
use hcnet.Base.{ℕ, ◌≡◌, refl, true, false, List, Option, none, some, inl, inr, ◌==◌, Bool-cases}
use hcnet.Protocol.{normal}
use hcnet.Message.{Message}
use hcnet.Error.{NetResult, ok, err}
use hcnet.Buffer.{BinaryMut}
use hcnet.Net.{NetApi}
use hcnet.Handler.{Handler}
use hcnet.Ws.Web.{WebApi}
use hcnet.Ws.Server.Settled.{handler_response-Settled}
use hcnet.Ws.Conn.{Ws, client, server, accept_server, listener, uninit, WsConn}
use hcnet.Ws.Conn.Polls.{Settled, conn_close-Settled, conn_send-Settled}
use hcnet.Ws.Conn.Run.{Loop, respond_on, handshake_failed, on_req, opened_by, on_res, pong}
use hcnet.Ws.Conn.Run.Watched.{Watch, watched, watched_request}

module _ {E : Type 0} (net : NetApi E) (api : WebApi E) (bin : BinaryMut)
    (handler : Handler E (WsConn net api bin))
    (on_request : handler.State → api.Request → NetResult E api.Response × handler.State) where
  abbrev pub W : Type 0
  W = Watch handler

  abbrev pub h' : Handler E (WsConn net api bin)
  h' = watched handler

  abbrev pub asked : W → api.Request → NetResult E api.Response × W
  asked = watched_request handler on_request

  -- After a step of the loop: nothing bad, `on_open` seen as before, and the connection settled if the
  -- loop goes on.
  pub record Fine (w : W) (l : Loop net api bin h' asked) : Type 0 where
    pub good : l.1.bad ≡ false
    pub same : l.1.seen_open ≡ w.seen_open
    pub settled : l.0 ≡ none → Settled net api bin l.2.ws

  respond_on-Settled :
      (w : Ws net api bin) (r : api.Response)
      → (respond_on net api bin h' asked w r).0 ≡ ok tt
      → Settled net api bin (respond_on net api bin h' asked w r).1
  unfolding respond_on
  respond_on-Settled (server s) r h = handler_response-Settled net api bin s r h
  respond_on-Settled (client cl) r h = tt
  respond_on-Settled (listener l) r h = tt
  respond_on-Settled (accept_server a) r h = tt
  respond_on-Settled uninit r h = tt

  opened_by-Settled :
      (w : Ws net api bin) (r : api.Response)
      → Settled net api bin w
      → Settled net api bin (opened_by net api bin h' asked w r).1
  unfolding opened_by
  opened_by-Settled (server s) r h = h
  opened_by-Settled (client cl) r h = tt
  opened_by-Settled (listener l) r h = tt
  opened_by-Settled (accept_server a) r h = tt
  opened_by-Settled uninit r h = tt

  module _ (w v : W) (g : v.bad ≡ false) (s : v.seen_open ≡ w.seen_open) where
    handshake_failed-Fine :
        (c : WsConn net api bin) (mask : List ℕ)
        → Settled net api bin c.ws
        → Fine w (handshake_failed net api bin h' asked v c mask)
    unfolding handshake_failed
    handshake_failed-Fine c mask k = record {
      good = g;
      same = s;
      settled = λ _. conn_close-Settled net api bin c normal _ mask k;
    }

    pub on_req-Fine :
        (c : WsConn net api bin) (mask : List ℕ) (x : NetResult E api.Response)
        → Fine w (on_req net api bin h' asked v c mask x)
    unfolding on_req
    on_req-Fine c mask (err e) = record { good = g; same = s; settled = λ k. cc }
    on_req-Fine c mask (ok r) =
        go (respond_on net api bin h' asked c.ws r) (respond_on-Settled c.ws r)
      where
        go :
            (p : NetResult E (Unit {0}) × Ws net api bin)
            → (p.0 ≡ ok tt → Settled net api bin p.1)
            → Fine w (elim p.0 as (λ x. Loop net api bin h' asked) [
              | err e ↦ (some (err e), v, record c { ws = p.1 })
              | ok _ ↦ elim (api.status r == 101) [
                | true ↦ (none, v, record c { ws = p.1 })
                | false ↦ handshake_failed net api bin h' asked v (record c { ws = p.1 }) mask
              ]
            ])
        go (err e, u) k = record { good = g; same = s; settled = λ x. cc }
        go (ok tt, u) k = elim (Bool-cases (api.status r == 101)) [
          | inl right ↦ rw right (record { good = g; same = s; settled = λ x. k refl })
          | inr wrong ↦ rw wrong (handshake_failed-Fine (record c { ws = u }) mask (k refl))
        ]

    pub on_res-Fine :
        (c : WsConn net api bin) (mask : List ℕ) (r : api.Response)
        → Settled net api bin c.ws
        → Fine w (on_res net api bin h' asked v c mask r)
    unfolding on_res
    on_res-Fine c mask r k = elim (Bool-cases (api.status r == 101)) [
      | inl right ↦
          rw (right, on_res)
            (record { good = g; same = s; settled = λ _. opened_by-Settled c.ws r k })
      | inr wrong ↦ rw (wrong, on_res) (handshake_failed-Fine c mask k)
    ]

    pub pong-Fine :
        (c : WsConn net api bin) (mask : List ℕ) (x : NetResult E (Option (List ℕ)))
        → Settled net api bin c.ws
        → Fine w (pong net api bin h' asked v c mask x)
    unfolding pong
    pong-Fine c mask (err e) k = record { good = g; same = s; settled = λ _. k }
    pong-Fine c mask (ok none) k = record { good = g; same = s; settled = λ _. k }
    pong-Fine c mask (ok (some ret)) k = record {
      good = g;
      same = s;
      settled = λ _. conn_send-Settled net api bin c (Message.pong ret) mask k;
    }
