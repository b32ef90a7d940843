-- ===== src/Ws/Client/Shakes.antt =====
-- The client's half of a handshake that goes well.
use hcnet.Base.{ℕ, ◌<◌, ◌≡◌, refl, ap, ◌∙◌, List, [], ◌∷◌, none, some}
use hcnet.Error.{ok}
use hcnet.Settings.{Settings}
use hcnet.Buffer.{BinaryMut}
use hcnet.Net.{NetApi}
use hcnet.Ws.Web.{WebApi}
use hcnet.Ws.Duplex.{WsState, wait, wait_ret, opened, Event, read}
use hcnet.Ws.Shake.{Polled}
use hcnet.Ws.Shake.Got.{Parses, behind, shake_got, shake_pending}
use hcnet.Ws.Client.{
  WsClient, res, process, process_in, wait_response, responded, requested, upgrade_headers,
  handler_response, response_in,
}

module _ {E : Type 0} (net : NetApi E) (api : WebApi E) (bin : BinaryMut) where
  pub process_asks :
      (c : WsClient net api bin) (settings : Settings) (key sent : List ℕ)
      → c.state ≡ wait
      → bin.chunk c.read ≡ []
      → 0 < settings.in_buffer_max
      → api.http1_data c.url (upgrade_headers net api bin key) ≡ ok sent
      → process net api bin c settings key [] ≡ (none, requested net api bin c sent, [])
  unfolding process process_in wait_response responded requested
  process_asks c settings key sent w e h q =
      rw
        (
          w,
          process_in,
          q,
          wait_response,
          shake_pending api bin api.responses settings (requested net api bin c sent).pipe e h,
        )
        refl

  pub process_told :
      (c : WsClient net api bin) (settings : Settings) (key reply : List ℕ) (r : api.Response)
      (es : List (Event E))
      → (t : Parses api bin api.responses r reply) → c.state ≡ wait_ret
      → bin.chunk c.read ≡ []
      → 0 < settings.in_buffer_max
      → api.status r ≡ 101
      → process net api bin c settings key (read reply ∷ es)
        ≡ (some (ok (res r)), record c { pipe = behind api bin api.responses c.pipe reply t.n }, es)
  unfolding process process_in wait_response responded
  process_told c settings key reply r es t w e h q =
      ap (λ (x : WsState). process_in net api bin x c settings key (read reply ∷ es)) w
      ∙ ap (λ (p : Polled api bin api.responses). responded net api bin c p.0 p.1 p.2)
          (shake_got api bin api.responses settings c.pipe r reply es t e h)
      ∙ rw q refl

  pub handler_response_opens :
      (c : WsClient net api bin) (r : api.Response)
      → c.state ≡ wait_ret
      → handler_response net api bin c r
        ≡ (ok tt, record c { pipe = record c.pipe { state = opened } })
  unfolding handler_response response_in
  handler_response_opens c r w = rw (w, response_in) refl
