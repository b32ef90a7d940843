-- ===== src/Ws/Client/Kinds.antt =====
-- A client gives no request, and what comes from a server is in Ws/Server/Kinds.
use hcnet.Base.{ℕ, List, Option, none, some, inl, inr, ◌==◌, Bool-cases}
use hcnet.Error.{NetResult, ok, err}
use hcnet.Settings.{Settings}
use hcnet.Buffer.{BinaryMut}
use hcnet.Net.{NetApi}
use hcnet.Ws.Web.{WebApi}
use hcnet.Ws.Duplex
use hcnet.Ws.Duplex.{Pipe, WsState, wait, wait_ret, opened, closing, closed, Event}
use hcnet.Ws.Shake.{Shaken, ended, got}
use hcnet.Ws.Client
use hcnet.Ws.Client.{
  WsClient, Reply, req, res, msg, process, process_in, wait_response, responded, replied,
  upgrade_headers,
}

module _ {E : Type 0} (net : NetApi E) (api : WebApi E) (bin : BinaryMut) where
  abbrev pub IsFromClient : Option (NetResult E (Reply net api bin)) → Type 0
  IsFromClient (some (ok (req _))) = ⊥
  IsFromClient _ = Unit {0}

  replied-IsFromClient :
      (c : WsClient net api bin) (p : Duplex.Polled api bin)
      → IsFromClient (replied net api bin c p).0
  unfolding replied
  replied-IsFromClient c (none, d, es) = tt
  replied-IsFromClient c (some (ok m), d, es) = tt
  replied-IsFromClient c (some (err e), d, es) = tt

  responded-IsFromClient :
      (c : WsClient net api bin) (r : Option (NetResult E (Shaken api bin api.responses)))
      (d : Pipe api bin) (es : List (Event E))
      → IsFromClient (responded net api bin c r d es).0
  unfolding responded
  responded-IsFromClient c none d es = tt
  responded-IsFromClient c (some (err e)) d es = tt
  responded-IsFromClient c (some (ok ended)) d es = tt
  responded-IsFromClient c (some (ok (got r))) d es = elim (Bool-cases (api.status r == 101)) [
    | inl right ↦ rw right tt
    | inr wrong ↦ rw wrong tt
  ]

  wait_response-IsFromClient :
      (c : WsClient net api bin) (settings : Settings) (es : List (Event E))
      → IsFromClient (wait_response net api bin c settings es).0
  unfolding wait_response
  wait_response-IsFromClient c settings es = responded-IsFromClient c _ _ _

  process_in-IsFromClient :
      (w : WsState) (c : WsClient net api bin) (settings : Settings) (key : List ℕ)
      (es : List (Event E))
      → IsFromClient (process_in net api bin w c settings key es).0
  unfolding process_in
  process_in-IsFromClient wait c settings key es =
      go (api.http1_data c.url (upgrade_headers net api bin key))
    where
      go :
          (x : NetResult E (List ℕ))
          → let p : Client.Polled net api bin = elim x [
            | err e ↦ (some (err e), c, es)
            | ok sent ↦ wait_response net api bin (Client.requested net api bin c sent) settings es
          ] in
            IsFromClient p.0
      go (err e) = tt
      go (ok sent) = wait_response-IsFromClient (Client.requested net api bin c sent) settings es
  process_in-IsFromClient wait_ret c settings key es = wait_response-IsFromClient c settings es
  process_in-IsFromClient opened c settings key es = replied-IsFromClient c _
  process_in-IsFromClient (closing _ _) c settings key es = replied-IsFromClient c _
  process_in-IsFromClient (closed _ _) c settings key es = tt

  pub process-IsFromClient :
      (c : WsClient net api bin) (settings : Settings) (key : List ℕ) (es : List (Event E))
      → IsFromClient (process net api bin c settings key es).0
  unfolding process
  process-IsFromClient c settings key es = process_in-IsFromClient c.state c settings key es
