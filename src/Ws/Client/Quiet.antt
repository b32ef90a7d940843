-- ===== src/Ws/Client/Quiet.antt =====
-- A client gives no message of the peer before it is open.
use hcnet.Base.{ℕ, ◌≡◌, refl, false, List, Option, none, some, ◌==◌, inl, inr, Bool-cases}
use hcnet.Protocol.{CloseCode}
use hcnet.Message.{Message}
use hcnet.Error.{NetResult, ok, err}
use hcnet.Settings.{Settings}
use hcnet.Buffer.{BinaryMut}
use hcnet.Net.{NetApi}
use hcnet.Ws.Web.{WebApi}
use hcnet.Ws.Duplex
use hcnet.Ws.Duplex.{
  Pipe, WsState, wait, wait_ret, opened, closing, closed, Event, is_ready, closing_process,
}
use hcnet.Ws.Duplex.Closing.{Ends, closing_process-Ends}
use hcnet.Ws.Shake.{Shaken, ended, got}
use hcnet.Ws.Client
use hcnet.Ws.Client.{
  WsClient, Reply, req, res, msg, process, process_in, replied, responded, wait_response,
}

module _ {E : Type 0} (net : NetApi E) (api : WebApi E) (bin : BinaryMut) where
  -- Nothing, an error, or a reply that is no message of the peer.
  abbrev pub IsQuiet : Option (NetResult E (Reply net api bin)) → Type 0
  IsQuiet none = Unit {0}
  IsQuiet (some (err e)) = Unit {0}
  IsQuiet (some (ok (req r))) = Unit {0}
  IsQuiet (some (ok (res r))) = Unit {0}
  IsQuiet (some (ok (msg m))) = m ≡ Message.shutdown

  Ends-IsQuiet :
      (c : WsClient net api bin) (p : Duplex.Polled api bin) (code : CloseCode) (reason : List ℕ)
      → Ends api bin code reason p
      → IsQuiet (replied net api bin c p).0
  unfolding replied
  Ends-IsQuiet c (none, d, es) code reason h = tt
  Ends-IsQuiet c (some (err x), d, es) code reason h = tt
  Ends-IsQuiet c (some (ok m), d, es) code reason (inl (e, h)) = cc
  Ends-IsQuiet c (some (ok m), d, es) code reason (inr (e, h)) = cc

  responded-IsQuiet :
      (c : WsClient net api bin) (r : Option (NetResult E (Shaken api bin api.responses)))
      (d : Pipe api bin) (es : List (Event E))
      → IsQuiet (responded net api bin c r d es).0
  unfolding responded
  responded-IsQuiet c none d es = tt
  responded-IsQuiet c (some (err e)) d es = tt
  responded-IsQuiet c (some (ok ended)) d es = refl
  responded-IsQuiet c (some (ok (got r))) d es = elim (Bool-cases (api.status r == 101)) [
    | inl right ↦ rw right tt
    | inr wrong ↦ rw wrong tt
  ]

  wait_response-IsQuiet :
      (c : WsClient net api bin) (settings : Settings) (es : List (Event E))
      → IsQuiet (wait_response net api bin c settings es).0
  unfolding wait_response
  wait_response-IsQuiet c settings es = responded-IsQuiet c _ _ _

  process_in-IsQuiet :
      (o : WsState) (c : WsClient net api bin) (settings : Settings) (key : List ℕ)
      (es : List (Event E))
      → c.state ≡ o
      → is_ready api bin o ≡ false
      → IsQuiet (process_in net api bin o c settings key es).0
  unfolding process_in wait_response is_ready
  process_in-IsQuiet wait c settings key es e h = go (api.http1_data c.url _)
    where
      go :
          (r : NetResult E (List ℕ))
          → IsQuiet
              (elim r as (λ x. Client.Polled net api bin) [
                | err e ↦ (some (err e), c, es)
                | ok sent ↦
                    wait_response net api bin (Client.requested net api bin c sent) settings es
              ]).0
      go (err e) = tt
      go (ok sent) = wait_response-IsQuiet (Client.requested net api bin c sent) settings es
  process_in-IsQuiet wait_ret c settings key es e h = wait_response-IsQuiet c settings es
  process_in-IsQuiet opened c settings key es e h = cc
  process_in-IsQuiet (closing code reason) c settings key es e h =
      Ends-IsQuiet c (closing_process api bin settings c.pipe es) code reason
        (closing_process-Ends api bin settings es c.pipe code reason e)
  process_in-IsQuiet (closed code reason) c settings key es e h = refl

  pub process-IsQuiet :
      (c : WsClient net api bin) (settings : Settings) (key : List ℕ) (es : List (Event E))
      → is_ready api bin c.state ≡ false
      → IsQuiet (process net api bin c settings key es).0
  unfolding process
  process-IsQuiet c settings key es h = process_in-IsQuiet c.state c settings key es refl h
