-- ===== src/Tests/Ends.antt =====
-- Websocket connections and their loop: src/ws/mod.rs.
use hcnet.Base.{true, ℕ, ◌+◌, ◌≡◌, refl, sym, false, List, [], ◌∷◌, some, none, arith, codes}
use hcnet.Message.{Message, into_owned}
use hcnet.Error.{NetResult, ok}
use hcnet.Settings
use hcnet.Buffer.{bytes}
use hcnet.Handler.{Handler}
use hcnet.Ws.Duplex.{fresh, Event}
use hcnet.Ws.Duplex.Delivery.{answers_of, reads}
use hcnet.Ws.Client.{WsClient}
use hcnet.Ws.Server.{WsServer}
use hcnet.Ws.Conn.{WsConn, client, server, default, io, process, is_ready}
use hcnet.Ws.Conn.Kinds.{IsAnswerable, process-IsAnswerable}
use hcnet.Ws.Conn.Run.Delivery.{AllSent, run-sends, run_then_answers}
use hcnet.Ws.Conn.Run.Meeting.{unwritten, handshake_opens}
use hcnet.Ws.Conn.Run.{turn, run, polled, logic}
use hcnet.Ws.Conn.Run.Watched.{watched, watched_request}
use hcnet.Ws.Conn.Run.Order.{run_opens_first}
use hcnet.Tests.Ids.{calm_net}
use hcnet.Tests.Connection.{plain, no_counters}
use hcnet.Tests.Upgrade.{Headers}
use hcnet.Tests.Websocket.{write_two, two_byte_api, holding, two_messages-AllEncoded}

abbrev Conn : Type 0
Conn = WsConn calm_net two_byte_api bytes

abbrev open_server : Conn
open_server = record (default calm_net two_byte_api bytes) {
  ws = server (record { stream = plain; addr = 0; pipe = holding (1 ∷ 7 ∷ []) });
}

-- A handler that counts the bytes of its messages.
abbrev counting : Handler ℕ Conn
counting = record {
  State = ℕ;
  on_accept = λ h c. (ok tt, h);
  on_open = λ h. (ok tt, h);
  on_close = λ h code reason. h;
  on_ping = λ h v. (ok (some v), h);
  on_pong = λ h v. (ok tt, h);
  on_message = λ h m. (ok tt, h + 1);
  on_logic = λ h. (ok tt, h);
}

run_opens_first_example :
    (run calm_net two_byte_api bytes
      (watched counting)
      (watched_request counting (λ h r. (ok 101, h)))
      false
      false
      (record { inner = 0; seen_open = false; bad = false })
      open_server
      no_counters
      (polled (io []) [] ∷ logic ∷ [])).0.1.bad
    ≡ false
run_opens_first_example =
    run_opens_first calm_net two_byte_api bytes counting (λ h r. (ok 101, h)) false 0 open_server
      no_counters (polled (io []) [] ∷ logic ∷ []) (λ e. cc)

-- A client and a server before their handshake.
abbrev asking_client : WsClient calm_net two_byte_api bytes
asking_client = record {
  stream = plain;
  url = codes "example.org";
  pipe = fresh two_byte_api bytes;
}

abbrev asked_server : WsServer calm_net two_byte_api bytes
asked_server = record { stream = plain; addr = 0; pipe = fresh two_byte_api bytes }

abbrev left_end : Conn
left_end = record (default calm_net two_byte_api bytes) { ws = client asking_client }

abbrev right_end : Conn
right_end = record (default calm_net two_byte_api bytes) { ws = server asked_server }

abbrev accepts : ℕ → Headers → NetResult ℕ ℕ × ℕ
accepts h r = (ok 101, h + 1)

handshake_opens_example :
    let ((r₁, _, c₁), _) =
      turn calm_net two_byte_api bytes counting accepts false 0 left_end no_counters
        (polled (io []) []) in
    let ((r₂, hs₂, s₂), _) =
      turn calm_net two_byte_api bytes counting accepts false 0 right_end no_counters
        (polled (io (Event.read (codes "GET") ∷ [])) []) in
    let ((r₃, _, c₃), _) =
      turn calm_net two_byte_api bytes counting accepts false 0 c₁ no_counters
        (polled (io (Event.read (101 ∷ []) ∷ [])) []) in
    (r₁ ≡ none)
    × (unwritten calm_net two_byte_api bytes c₁.ws ≡ codes "GET")
    × (r₂ ≡ none)
    × (hs₂ ≡ 1)
    × (unwritten calm_net two_byte_api bytes s₂.ws ≡ 101 ∷ [])
    × (is_ready calm_net two_byte_api bytes s₂ ≡ true)
    × (r₃ ≡ none)
    × (is_ready calm_net two_byte_api bytes c₃ ≡ true)
handshake_opens_example =
    handshake_opens calm_net two_byte_api bytes counting accepts counting accepts 0 0 1 left_end
      right_end asking_client asked_server no_counters [] [] [] (codes "GET") (101 ∷ [])
      (record { key = none; protocol = none; version = none }) 101 101 refl refl refl (omega arith)
      refl refl refl (omega arith) refl
      (record { non_empty = λ e. cc; n = 3; parse = refl; whole = refl }) refl refl refl
      (record { non_empty = λ e. cc; n = 1; parse = refl; whole = refl }) refl

abbrev drawn : List (Message × List ℕ)
drawn = (Message.binary (7 ∷ []), 4 ∷ []) ∷ (Message.binary (9 ∷ []), 5 ∷ []) ∷ []

drawn-AllSent : AllSent calm_net two_byte_api bytes counting accepts drawn
drawn-AllSent = (tt, refl, (tt, refl, tt))

run_then_answers_example :
    answers_of two_byte_api bytes 2 Settings.default
      (holding [])
      (reads two_byte_api bytes ((1 ∷ []) ∷ (7 ∷ 1 ∷ 9 ∷ []) ∷ []))
    ≡ some (ok (Message.binary (7 ∷ []))) ∷ some (ok (Message.binary (9 ∷ []))) ∷ []
unfolding into_owned write_two
run_then_answers_example =
    run_then_answers calm_net two_byte_api bytes counting accepts drawn 0 left_end asking_client
      no_counters Settings.default (holding []) ((1 ∷ []) ∷ (7 ∷ 1 ∷ 9 ∷ []) ∷ []) drawn-AllSent
      (omega arith) refl two_messages-AllEncoded refl ((λ e. cc), ((λ e. cc), tt))
      (sym
        (run-sends calm_net two_byte_api bytes counting accepts drawn 0 left_end asking_client
          no_counters drawn-AllSent (omega arith)).2)

process-IsAnswerable_example :
    let (r, c', _) =
      process calm_net two_byte_api bytes right_end no_counters []
        (io (Event.read (codes "GET") ∷ [])) in
    IsAnswerable calm_net two_byte_api bytes r c'.ws
process-IsAnswerable_example =
    process-IsAnswerable calm_net two_byte_api bytes right_end no_counters []
      (io (Event.read (codes "GET") ∷ []))
