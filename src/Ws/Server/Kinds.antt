-- ===== src/Ws/Server/Kinds.antt =====
-- A server gives no response.
use hcnet.Base.{List, Option, none, some}
use hcnet.Error.{NetResult, ok, err}
use hcnet.Settings.{Settings}
use hcnet.Buffer.{BinaryMut}
use hcnet.Net.{NetApi}
use hcnet.Ws.Web.{WebApi}
use hcnet.Ws.Duplex
use hcnet.Ws.Duplex.{Pipe, WsState, wait, wait_ret, opened, closing, closed, Event}
use hcnet.Ws.Shake.{Shaken, ended, got}
use hcnet.Ws.Client.{Reply, res}
use hcnet.Ws.Server.{WsServer, process, process_in, requested, replied}

module _ {E : Type 0} (net : NetApi E) (api : WebApi E) (bin : BinaryMut) where
  abbrev pub IsFromServer : Option (NetResult E (Reply net api bin)) → Type 0
  IsFromServer (some (ok (res _))) = ⊥
  IsFromServer _ = Unit {0}

  replied-IsFromServer :
      (s : WsServer net api bin) (p : Duplex.Polled api bin)
      → IsFromServer (replied net api bin s p).0
  unfolding replied
  replied-IsFromServer s (none, d, es) = tt
  replied-IsFromServer s (some (ok m), d, es) = tt
  replied-IsFromServer s (some (err e), d, es) = tt

  requested-IsFromServer :
      (s : WsServer net api bin) (r : Option (NetResult E (Shaken api bin api.requests)))
      (d : Pipe api bin) (es : List (Event E))
      → IsFromServer (requested net api bin s r d es).0
  unfolding requested
  requested-IsFromServer s none d es = tt
  requested-IsFromServer s (some (err e)) d es = tt
  requested-IsFromServer s (some (ok ended)) d es = tt
  requested-IsFromServer s (some (ok (got r))) d es = tt

  process_in-IsFromServer :
      (w : WsState) (s : WsServer net api bin) (settings : Settings) (es : List (Event E))
      → IsFromServer (process_in net api bin w s settings es).0
  unfolding process_in
  process_in-IsFromServer wait s settings es = requested-IsFromServer s _ _ _
  process_in-IsFromServer wait_ret s settings es = replied-IsFromServer s _
  process_in-IsFromServer opened s settings es = replied-IsFromServer s _
  process_in-IsFromServer (closing _ _) s settings es = replied-IsFromServer s _
  process_in-IsFromServer (closed _ _) s settings es = tt

  pub process-IsFromServer :
      (s : WsServer net api bin) (settings : Settings) (es : List (Event E))
      → IsFromServer (process net api bin s settings es).0
  unfolding process
  process-IsFromServer s settings es = process_in-IsFromServer s.state s settings es
