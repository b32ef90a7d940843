-- ===== src/Ws/Conn/Run/Meeting.antt =====
-- A handshake between the two ends of a websocket.
use hcnet.Base.{ℕ, ◌<◌, ◌≡◌, refl, true, false, List, [], ◌∷◌, ◌++◌, none}
use hcnet.Error.{NetResult, ok}
use hcnet.Buffer.{BinaryMut}
use hcnet.Net.{NetApi}
use hcnet.OnlineCount.{Counters}
use hcnet.Handler.{Handler}
use hcnet.Ws.Web.{WebApi}
use hcnet.Ws.Duplex
use hcnet.Ws.Duplex.{wait, wait_ret, opened, read}
use hcnet.Ws.Shake.Got.{Parses}
use hcnet.Ws.Client.{WsClient, requested, upgrade_headers}
use hcnet.Ws.Server.{WsServer}
use hcnet.Ws.Conn.{Ws, client, server, WsConn, io, is_ready, ready_in}
use hcnet.Ws.Conn.Run.{polled, turn}
use hcnet.Ws.Conn.Run.Steps.{turn_asks, turn_asked, turn_told}

module _ {E : Type 0} (net : NetApi E) (api : WebApi E) (bin : BinaryMut) where
  -- The bytes that a connection has still to write.
  abbrev pub unwritten : Ws net api bin → List ℕ
  unwritten (client cl) = bin.chunk cl.write
  unwritten (server s) = bin.chunk s.write
  unwritten _ = []

-- The two ends, each with its own handler.
module _ {E : Type 0} (net : NetApi E) (api : WebApi E) (bin : BinaryMut)
    (asker : Handler E (WsConn net api bin))
    (unused : asker.State → api.Request → NetResult E api.Response × asker.State)
    (handler : Handler E (WsConn net api bin))
    (on_request : handler.State → api.Request → NetResult E api.Response × handler.State) where
  -- A client that waits and a server that waits, with nothing unread, meet if the text of the client's
  -- request is one for the server's parser, the handler answers it with a response of status 101, and
  -- the text of that is one for the client's parser, which reads a status of 101, too. The client's
  -- first turn writes the request and is pending; the server's turn, when it has read that, calls
  -- `on_request`, writes the response and is ready; the client's next turn, when it has read this, is
  -- ready. No loop ends.
  pub handshake_opens :
      (hc : asker.State) (hs hs' : handler.State) (c s : WsConn net api bin)
      (cl : WsClient net api bin) (sv : WsServer net api bin) (st : Counters)
      (key k₂ k₃ sent reply : List ℕ) (request : api.Request) (response answer : api.Response)
      → c.ws ≡ client cl
      → cl.state ≡ wait
      → bin.chunk cl.read ≡ []
      → 0 < c.settings.in_buffer_max
      → s.ws ≡ server sv
      → sv.state ≡ wait
      → bin.chunk sv.read ≡ []
      → 0 < s.settings.in_buffer_max
      → api.http1_data cl.url (upgrade_headers net api bin key) ≡ ok sent
      → Parses api bin api.requests request sent
      → on_request hs request ≡ (ok response, hs')
      → api.status response ≡ 101
      → api.serialize response ≡ (ok tt, reply)
      → Parses api bin api.responses answer reply
      → api.status answer ≡ 101
      → let ((r₁, _, c₁), _) = turn net api bin asker unused false hc c st (polled (io []) key) in
        let ((r₂, hs₂, s₂), _) =
          turn net api bin handler on_request false hs s st (polled (io (read sent ∷ [])) k₂) in
        let ((r₃, _, c₃), _) =
          turn net api bin asker unused false hc c₁ st (polled (io (read reply ∷ [])) k₃) in
        (r₁ ≡ none)
        × (unwritten net api bin c₁.ws ≡ unwritten net api bin c.ws ++ sent)
        × (r₂ ≡ none)
        × (hs₂ ≡ hs')
        × (unwritten net api bin s₂.ws ≡ unwritten net api bin s.ws ++ reply)
        × (is_ready net api bin s₂ ≡ true)
        × (r₃ ≡ none)
        × (is_ready net api bin c₃ ≡ true)
  unfolding is_ready ready_in requested Duplex.is_ready
  handshake_opens hc hs hs' c s cl sv st key k₂ k₃ sent reply request response answer ec wc bc mc es
        ws bs ms q t₁ a q₁ z t₂ q₂ =
      let first = turn_asks net api bin asker unused hc c cl st key sent ec wc bc mc q in
      let cl₁ : WsClient net api bin = requested net api bin cl sent in
      let second =
        turn_asked net api bin handler on_request hs hs' s sv st k₂ sent reply request response t₁
          es ws bs ms a q₁ z in
      let third =
        turn_told net api bin asker unused hc (record c { ws = client cl₁ }) cl₁ st k₃ reply answer
          t₂ refl refl bc mc q₂ in
      rw (first, second, third, ec, es)
        (
          refl,
          bin.chunk-put_slice cl.write sent,
          refl,
          refl,
          bin.chunk-put_slice sv.write reply,
          refl,
          refl,
          refl,
        )
