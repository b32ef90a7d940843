-- ===== src/Ws/Server/Shakes.antt =====
-- The server's half of a handshake that goes well.
use hcnet.Base.{ℕ, ◌<◌, ◌≡◌, refl, ap, ◌∙◌, List, [], ◌∷◌, some}
use hcnet.Error.{ok}
use hcnet.Settings.{Settings}
use hcnet.Buffer.{BinaryMut}
use hcnet.Net.{NetApi}
use hcnet.Ws.Web.{WebApi}
use hcnet.Ws.Duplex.{WsState, wait, wait_ret, opened, Event, read}
use hcnet.Ws.Shake.{Polled}
use hcnet.Ws.Shake.Got.{Parses, behind, shake_got}
use hcnet.Ws.Client.{req}
use hcnet.Ws.Server.{
  WsServer, process, process_in, requested, handler_response, response_in, serialized, with_pipe,
}

module _ {E : Type 0} (net : NetApi E) (api : WebApi E) (bin : BinaryMut) where
  pub process_asked :
      (s : WsServer net api bin) (settings : Settings) (sent : List ℕ) (r : api.Request)
      (es : List (Event E))
      → (t : Parses api bin api.requests r sent) → s.state ≡ wait
      → bin.chunk s.read ≡ []
      → 0 < settings.in_buffer_max
      → process net api bin s settings (read sent ∷ es) ≡ (
        some (ok (req r)),
        record s {
          pipe = record (behind api bin api.requests s.pipe sent t.n) { state = wait_ret };
        },
        es,
      )
  unfolding process process_in requested
  process_asked s settings sent r es t w e h =
      ap (λ (x : WsState). process_in net api bin x s settings (read sent ∷ es)) w
      ∙ ap (λ (p : Polled api bin api.requests). requested net api bin s p.0 p.1 p.2)
          (shake_got api bin api.requests settings s.pipe r sent es t e h)

  pub handler_response_opens :
      (s : WsServer net api bin) (r : api.Response) (reply : List ℕ)
      → s.state ≡ wait_ret
      → api.serialize r ≡ (ok tt, reply)
      → handler_response net api bin s r ≡ (
        ok tt,
        record s {
          pipe = record s.pipe { write = bin.put_slice s.pipe.write reply; state = opened };
        },
      )
  unfolding handler_response response_in serialized with_pipe
  handler_response_opens s r reply w e = rw (w, response_in, e) refl
