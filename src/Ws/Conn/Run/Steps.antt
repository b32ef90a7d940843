-- ===== src/Ws/Conn/Run/Steps.antt =====
-- The turns of the loop in a handshake that goes well.
use hcnet.Base.{ℕ, ◌<◌, ◌≡◌, refl, ap, ◌∙◌, true, false, List, [], ◌∷◌, none, some, ◌==◌}
use hcnet.Error.{NetResult, ok, err}
use hcnet.Buffer.{BinaryMut}
use hcnet.Net.{NetApi}
use hcnet.OnlineCount.{Counters}
use hcnet.Handler.{Handler}
use hcnet.Ws.Web.{WebApi}
use hcnet.Ws.Duplex.{wait, wait_ret, opened, read}
use hcnet.Ws.Shake.Got.{Parses, behind}
use hcnet.Ws.Client
use hcnet.Ws.Client.{WsClient, requested, upgrade_headers}
use hcnet.Ws.Client.Shakes.{process_asks, process_told}
use hcnet.Ws.Server
use hcnet.Ws.Server.{WsServer}
use hcnet.Ws.Server.Shakes.{process_asked}
use hcnet.Ws.Conn.{Ws, client, server, WsConn, io, process, process_on, answered, Answer}
use hcnet.Ws.Conn.Run.{
  polled, Loop, turn, on_polled, on_processed, on_req, on_res, handshake_failed, respond_on,
  opened_by, ended,
}

module _ {E : Type 0} (net : NetApi E) (api : WebApi E) (bin : BinaryMut)
    (handler : Handler E (WsConn net api bin))
    (on_request : handler.State → api.Request → NetResult E api.Response × handler.State) where
  abbrev polls :
      handler.State
      → List ℕ
      → Answer net api bin × WsConn net api bin × Counters
      → Loop net api bin handler on_request × Counters
  polls h key (r, c, st) = (on_polled net api bin handler on_request h r c key, st)

  pub turn_asks :
      (h : handler.State) (c : WsConn net api bin) (cl : WsClient net api bin) (st : Counters)
      (key sent : List ℕ)
      → c.ws ≡ client cl
      → cl.state ≡ wait
      → bin.chunk cl.read ≡ []
      → 0 < c.settings.in_buffer_max
      → api.http1_data cl.url (upgrade_headers net api bin key) ≡ ok sent
      → turn net api bin handler on_request false h c st (polled (io []) key)
        ≡ ((none, h, record c { ws = client (requested net api bin cl sent) }), st)
  unfolding turn on_polled process process_on answered
  turn_asks h c cl st key sent e w b m q =
      ap (λ (x : Ws net api bin). polls h key (process_on net api bin x c st key (io []))) e
      ∙ ap
          (λ (p : Client.Polled net api bin).
            polls h key (answered net api bin p.0, record c { ws = client p.1 }, st))
          (process_asks net api bin cl c.settings key sent w b m q)

  -- What follows the answer of a server to a request.
  abbrev answers :
      handler.State
      → WsConn net api bin
      → List ℕ
      → api.Response
      → NetResult E (Unit {0}) × Ws net api bin
      → Loop net api bin handler on_request
  answers h c key r (x, w) = elim x [
    | err e ↦ (some (err e), h, record c { ws = w })
    | ok _ ↦ elim (api.status r == 101) [
      | true ↦ (none, h, record c { ws = w })
      | false ↦ handshake_failed net api bin handler on_request h (record c { ws = w }) key
    ]
  ]

  on_req_opens :
      (h : handler.State) (c : WsConn net api bin) (s : WsServer net api bin) (key reply : List ℕ)
      (answer : api.Response)
      → c.ws ≡ server s
      → s.state ≡ wait_ret
      → api.status answer ≡ 101
      → api.serialize answer ≡ (ok tt, reply)
      → on_req net api bin handler on_request h c key (ok answer) ≡ (
        none,
        h,
        record c {
          ws = server (record s {
            pipe = record s.pipe { write = bin.put_slice s.pipe.write reply; state = opened };
          });
        },
      )
  unfolding on_req respond_on
  on_req_opens h c s key reply answer e w q z =
      ap
        (λ (x : Ws net api bin).
          answers h c key answer (respond_on net api bin handler on_request x answer))
        e
      ∙ ap
          (λ (p : NetResult E (Unit {0}) × WsServer net api bin).
            answers h c key answer (p.0, server p.1))
          (Server.Shakes.handler_response_opens net api bin s answer reply w z)
      ∙ rw (answers, q) refl

  pub turn_asked :
      (h h' : handler.State) (c : WsConn net api bin) (s : WsServer net api bin) (st : Counters)
      (key sent reply : List ℕ) (r : api.Request) (answer : api.Response)
      → (t : Parses api bin api.requests r sent) → c.ws ≡ server s
      → s.state ≡ wait
      → bin.chunk s.read ≡ []
      → 0 < c.settings.in_buffer_max
      → on_request h r ≡ (ok answer, h')
      → api.status answer ≡ 101
      → api.serialize answer ≡ (ok tt, reply)
      → turn net api bin handler on_request false h c st (polled (io (read sent ∷ [])) key) ≡ (
        (
          none,
          h',
          record c {
            ws = server (record s {
              pipe = record (behind api bin api.requests s.pipe sent t.n) {
                write = bin.put_slice s.pipe.write reply;
                state = opened;
              };
            });
          },
        ),
        st,
      )
  unfolding turn on_polled on_processed on_req respond_on process process_on answered
  turn_asked h h' c s st key sent reply r answer t e w b m a q z =
      let s₁ : WsServer net api bin = record s {
        pipe = record (behind api bin api.requests s.pipe sent t.n) { state = wait_ret };
      } in
      let c₁ : WsConn net api bin = record c { ws = server s₁ } in
      ap
        (λ (x : Ws net api bin).
          polls h key (process_on net api bin x c st key (io (read sent ∷ []))))
        e
      ∙ ap
          (λ (p : Server.Polled net api bin).
            polls h key (answered net api bin p.0, record c { ws = server p.1 }, st))
          (process_asked net api bin s c.settings sent r [] t w b m)
      ∙ ap
          (λ (p : NetResult E api.Response × handler.State).
            (on_req net api bin handler on_request p.1 c₁ key p.0, st))
          a
      ∙ ap (λ (l : Loop net api bin handler on_request). (l, st))
          (on_req_opens h' c₁ s₁ key reply answer refl refl q z)

  -- What follows the response at a client.
  abbrev gives :
      handler.State
      → WsConn net api bin
      → NetResult E (Unit {0}) × Ws net api bin
      → Loop net api bin handler on_request
  gives h c (x, w) = (ended net api bin handler on_request x, h, record c { ws = w })

  on_res_opens :
      (h : handler.State) (c : WsConn net api bin) (cl : WsClient net api bin) (key : List ℕ)
      (r : api.Response)
      → c.ws ≡ client cl
      → cl.state ≡ wait_ret
      → api.status r ≡ 101
      → on_res net api bin handler on_request h c key r ≡ (
        none,
        h,
        record c { ws = client (record cl { pipe = record cl.pipe { state = opened } }) },
      )
  unfolding on_res opened_by
  on_res_opens h c cl key r e w q =
      rw (q, on_res)
        (ap (λ (x : Ws net api bin). gives h c (opened_by net api bin handler on_request x r)) e
          ∙ ap (λ (p : NetResult E (Unit {0}) × WsClient net api bin). gives h c (p.0, client p.1))
              (Client.Shakes.handler_response_opens net api bin cl r w))

  pub turn_told :
      (h : handler.State) (c : WsConn net api bin) (cl : WsClient net api bin) (st : Counters)
      (key reply : List ℕ) (r : api.Response)
      → (t : Parses api bin api.responses r reply) → c.ws ≡ client cl
      → cl.state ≡ wait_ret
      → bin.chunk cl.read ≡ []
      → 0 < c.settings.in_buffer_max
      → api.status r ≡ 101
      → turn net api bin handler on_request false h c st (polled (io (read reply ∷ [])) key) ≡ (
        (
          none,
          h,
          record c {
            ws = client (record cl {
              pipe = record (behind api bin api.responses cl.pipe reply t.n) { state = opened };
            });
          },
        ),
        st,
      )
  unfolding turn on_polled on_processed process process_on answered
  turn_told h c cl st key reply r t e w b m q =
      ap
        (λ (x : Ws net api bin).
          polls h key (process_on net api bin x c st key (io (read reply ∷ []))))
        e
      ∙ ap
          (λ (p : Client.Polled net api bin).
            polls h key (answered net api bin p.0, record c { ws = client p.1 }, st))
          (process_told net api bin cl c.settings key reply r [] t w b m q)
      ∙ ap (λ (l : Loop net api bin handler on_request). (l, st))
          (on_res_opens h
            (record c {
              ws = client (record cl { pipe = behind api bin api.responses cl.pipe reply t.n });
            })
            (record cl { pipe = behind api bin api.responses cl.pipe reply t.n }) key r refl w q)
