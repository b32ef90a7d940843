-- ===== src/Ws/Server/Settled.antt =====
-- A server waits for its own answer only between a request and that answer, and gives no message of
-- the peer before it is open.
use hcnet.Base.{ℕ, ◌≡◌, ◌≢◌, refl, ◌∙◌, false, List, Option, none, some, inl, inr}
use hcnet.Protocol.{CloseCode}
use hcnet.Message.{Message}
use hcnet.Error.{NetResult, ok, err}
use hcnet.Settings.{Settings}
use hcnet.Buffer.{BinaryMut}
use hcnet.Net.{NetApi}
use hcnet.Ws.Web.{WebApi}
use hcnet.Ws.Duplex
use hcnet.Ws.Duplex.{
  Pipe, WsState, wait, wait_ret, opened, closing, closed, Event, is_ready, open_process,
  closing_process,
}
use hcnet.Ws.Duplex.State
use hcnet.Ws.Duplex.State.{open_process-state}
use hcnet.Ws.Duplex.Closing.{Ends, closing_process-Ends}
use hcnet.Ws.Shake.{Shaken, ended, got}
use hcnet.Ws.Shake.Kept.{shake-state}
use hcnet.Ws.Client.{Reply, req}
use hcnet.Ws.Client.Quiet.{IsQuiet}
use hcnet.Ws.Server.{
  WsServer, process, process_in, replied, requested, close, send_message, with_pipe,
  handler_response, response_in, serialized,
}

module _ {E : Type 0} (net : NetApi E) (api : WebApi E) (bin : BinaryMut) where
  -- A request, or a state in which the server does not wait for its own answer.
  abbrev pub Asks : Option (NetResult E (Reply net api bin)) × WsServer net api bin → Type 0
  Asks (some (ok (req r)), s) = s.state ≡ wait_ret
  Asks (_, s) = s.state ≢ wait_ret

  replied-Asks :
      (s : WsServer net api bin) (p : Duplex.Polled api bin)
      → p.1.state ≢ wait_ret
      → Asks ((replied net api bin s p).0, (replied net api bin s p).1)
  unfolding replied
  replied-Asks s (none, d, es) h = h
  replied-Asks s (some (ok m), d, es) h = h
  replied-Asks s (some (err e), d, es) h = h

  Ends-IsQuiet :
      (s : WsServer net api bin) (p : Duplex.Polled api bin) (code : CloseCode) (reason : List ℕ)
      → Ends api bin code reason p
      → IsQuiet net api bin (replied net api bin s p).0 × (p.1.state ≢ wait_ret)
  unfolding replied
  Ends-IsQuiet s (none, d, es) code reason (inl (e, h)) = (tt, rw h (λ x. cc))
  Ends-IsQuiet s (some r, d, es) code reason (inl (e, h)) = cc
  Ends-IsQuiet s (none, d, es) code reason (inr (e, h)) = cc
  Ends-IsQuiet s (some (ok m), d, es) code reason (inr (e, h)) = (cc, rw h (λ x. cc))
  Ends-IsQuiet s (some (err x), d, es) code reason (inr (e, h)) = cc

  requested-IsQuiet :
      (s : WsServer net api bin) (r : Option (NetResult E (Shaken api bin api.requests)))
      (d : Pipe api bin) (es : List (Event E))
      → d.state ≡ wait
      → let p = requested net api bin s r d es in IsQuiet net api bin p.0 × Asks (p.0, p.1)
  unfolding requested
  requested-IsQuiet s none d es h = (tt, rw h (λ x. cc))
  requested-IsQuiet s (some (err e)) d es h = (tt, rw h (λ x. cc))
  requested-IsQuiet s (some (ok ended)) d es h = (refl, rw h (λ x. cc))
  requested-IsQuiet s (some (ok (got r))) d es h = (tt, refl)

  process_in-Asks :
      (o : WsState) (s : WsServer net api bin) (settings : Settings) (es : List (Event E))
      → s.state ≡ o
      → o ≢ wait_ret
      → let p = process_in net api bin o s settings es in
        Asks (p.0, p.1) × (is_ready api bin o ≡ false → IsQuiet net api bin p.0)
  unfolding process_in is_ready
  process_in-Asks wait s settings es e h =
      let q = requested-IsQuiet s _ _ _ (shake-state api bin api.requests settings s.pipe es ∙ e) in
      (q.1, λ x. q.0)
  process_in-Asks wait_ret s settings es e h = absurd (h refl)
  process_in-Asks opened s settings es e h = (
    replied-Asks s (open_process api bin settings s.pipe es)
        (rw (open_process-state api bin settings s.pipe es, e) (λ x. cc)),
    λ x. cc,
  )
  process_in-Asks (closing code reason) s settings es e h =
      let p = closing_process api bin settings s.pipe es in
      let q =
        Ends-IsQuiet s p code reason
          (closing_process-Ends api bin settings es s.pipe code reason e) in
      (replied-Asks s p q.1, λ x. q.0)
  process_in-Asks (closed code reason) s settings es e h = (rw e (λ x. cc), λ x. refl)

  -- A poll of a server that does not wait for its own answer ends in a request, or leaves the server
  -- so again; if it is not open, it gives no message of the peer.
  pub process-Asks :
      (s : WsServer net api bin) (settings : Settings) (es : List (Event E))
      → s.state ≢ wait_ret
      → let p = process net api bin s settings es in
        Asks (p.0, p.1) × (is_ready api bin s.state ≡ false → IsQuiet net api bin p.0)
  unfolding process
  process-Asks s settings es h = process_in-Asks s.state s settings es refl h

  pub close-Settled :
      (s : WsServer net api bin) (code : CloseCode) (reason : List ℕ)
      → s.state ≢ wait_ret
      → (close net api bin s code reason).1.state ≢ wait_ret
  unfolding close with_pipe
  close-Settled s code reason h = State.close-Settled api bin s.pipe code reason none h

  pub send_message-Settled :
      (s : WsServer net api bin) (m : Message)
      → s.state ≢ wait_ret
      → (send_message net api bin s m).1.state ≢ wait_ret
  unfolding send_message with_pipe
  send_message-Settled s m h = rw (State.send_message-state api bin s.pipe m none) h

  serialized-opened :
      (p : NetResult E (Unit {0}) × List ℕ) (d : Pipe api bin)
      → (serialized net api bin p d).0 ≡ ok tt
      → (serialized net api bin p d).1.state ≢ wait_ret
  unfolding serialized
  serialized-opened (err e, sent) d h = cc
  serialized-opened (ok tt, sent) d h = λ x. cc

  in_state :
      (o : WsState) (s : WsServer net api bin) (r : api.Response)
      → (response_in net api bin o s r).0 ≡ ok tt
      → (response_in net api bin o s r).1.state ≢ wait_ret
  unfolding response_in with_pipe
  in_state wait_ret s r h = serialized-opened (api.serialize r) s.pipe h
  in_state wait s r h = cc
  in_state opened s r h = cc
  in_state (closing _ _) s r h = cc
  in_state (closed _ _) s r h = cc

  -- The answer of a server that waits for it opens the server; another server refuses it.
  pub handler_response-Settled :
      (s : WsServer net api bin) (r : api.Response)
      → (handler_response net api bin s r).0 ≡ ok tt
      → (handler_response net api bin s r).1.state ≢ wait_ret
  unfolding handler_response
  handler_response-Settled s r = in_state s.state s r
