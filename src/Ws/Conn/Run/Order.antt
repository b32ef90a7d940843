-- ===== src/Ws/Conn/Run/Order.antt =====
-- Over a whole run of a websocket connection, `on_open` comes first.
use hcnet.Base.{
  ◌≡◌, refl, ◌∙◌, Bool, true, false, ◌||◌, List, [], ◌∷◌, Option, none, some, inl, inr, Bool-cases,
  Option-cases,
}
use hcnet.Error.{NetResult, ok, err}
use hcnet.Buffer.{BinaryMut}
use hcnet.Net.{NetApi}
use hcnet.OnlineCount.{Counters}
use hcnet.Handler.{Handler}
use hcnet.Ws.Web.{WebApi}
use hcnet.Ws.Conn.{WsConn, is_ready}
use hcnet.Ws.Conn.Polls.{Settled}
use hcnet.Ws.Conn.Run.{Turn, turn, head, run, Loop}
use hcnet.Ws.Conn.Run.Shaking.{W, h', asked}
use hcnet.Ws.Conn.Run.Opening.{turn-Fine}

module _ {E : Type 0} (net : NetApi E) (api : WebApi E) (bin : BinaryMut)
    (handler : Handler E (WsConn net api bin))
    (on_request : handler.State → api.Request → NetResult E api.Response × handler.State) where
  abbrev State : Type 0
  State = W net api bin handler on_request

  abbrev watching : Handler E (WsConn net api bin)
  watching = h' net api bin handler on_request

  abbrev asking : State → api.Request → NetResult E api.Response × State
  asking = asked net api bin handler on_request

  -- The head of the loop: nothing bad, the flag is what was seen, and a connection that is ready was
  -- opened.
  record Headed (c : WsConn net api bin) (p : Option (NetResult E (Unit {0})) × State × Bool)
      : Type 0 where
    pub good : p.1.bad ≡ false
    pub flag : p.0 ≡ none → p.1.seen_open ≡ p.2
    pub open_seen : p.0 ≡ none → is_ready net api bin c ≡ true → p.1.seen_open ≡ true

  head-Headed :
      (ready : Bool) (w : State) (c : WsConn net api bin)
      → w.bad ≡ false
      → w.seen_open ≡ ready
      → Headed c (head net api bin watching asking ready w c)
  unfolding head
  head-Headed true w c g s = record { good = g; flag = λ _. s; open_seen = λ _ _. s }
  head-Headed false w c g s = elim (Bool-cases (is_ready net api bin c)) [
    | inr unready ↦ rw (unready, head) (record { good = g; flag = λ _. s; open_seen = λ _ x. cc })
    | inl ready ↦ rw (ready, head) (go (handler.on_open w.inner))
  ]
    where
      go :
          (p : NetResult E (Unit {0}) × handler.State)
          → let v : State = record { inner = p.1; seen_open = true; bad = w.bad || w.seen_open } in
            Headed c (elim p.0 as (λ x. Option (NetResult E (Unit {0})) × State × Bool) [
              | ok _ ↦ (none, v, true)
              | err e ↦ (some (err e), v, false)
            ])
      go (ok tt, i) = record { good = rw (g, s) refl; flag = λ _. refl; open_seen = λ _ _. refl }
      go (err e, i) = record { good = rw (g, s) refl; flag = λ x. cc; open_seen = λ x. cc }

  -- What a run of the loop does with the results of its head and of its turn.
  after_turn :
      Bool
      → Bool
      → Loop net api bin watching asking × Counters
      → List (Turn net api bin watching asking)
      → Loop net api bin watching asking × Counters
  after_turn listens ready ((some r, w, c), st) ts = ((some r, w, c), st)
  after_turn listens ready ((none, w, c), st) ts =
      run net api bin watching asking listens ready w c st ts

  run_good :
      (listens ready : Bool) (w : State) (c : WsConn net api bin) (st : Counters)
      (ts : List (Turn net api bin watching asking))
      → w.bad ≡ false
      → w.seen_open ≡ ready
      → Settled net api bin c.ws
      → (run net api bin watching asking listens ready w c st ts).0.1.bad ≡ false
  unfolding run
  run_good listens ready w c st [] g s k = (head-Headed ready w c g s).good
  run_good listens ready w c st (t ∷ ts) g s k =
      let p = head net api bin watching asking ready w c in
      let d = head-Headed ready w c g s in
      elim (Option-cases p.0) [
        | inr (r, e) ↦ rw (e, run) d.good
        | inl e ↦
            let l = turn net api bin watching asking listens p.1 c st t in
            let f =
              turn-Fine net api bin handler on_request listens p.1 c st t d.good k
                (d.open_seen e) in
            elim (Option-cases l.0.0) [
              | inr (r, e') ↦ rw (e, e', run) f.good
              | inl e' ↦
                  rw (e, e', run)
                    (run_good listens p.2 l.0.1 l.0.2 l.1 ts f.good (f.same ∙ d.flag e)
                      (f.settled e'))
            ]
      ]

  -- Over any run of the loop of a websocket connection that is not open yet, and that is not in the
  -- midst of a poll, no callback for a message of the peer (`on_message`, `on_ping`, `on_pong`,
  -- `on_close`) comes before `on_open`, and `on_open` comes at most once.
  pub run_opens_first :
      (listens : Bool) (s : handler.State) (c : WsConn net api bin) (st : Counters)
      (ts : List (Turn net api bin watching asking))
      → Settled net api bin c.ws
      → (run net api bin watching asking listens false
          (record { inner = s; seen_open = false; bad = false })
          c
          st
          ts).0.1.bad
        ≡ false
  run_opens_first listens s c st ts k =
      run_good listens false (record { inner = s; seen_open = false; bad = false }) c st ts refl
        refl k
