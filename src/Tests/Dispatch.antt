-- ===== src/Tests/Dispatch.antt =====
-- `NetConn` of src/conn.rs, with a websocket whose TLS handshake fails.
use hcnet.Base.{ℕ, ◌≡◌, ◌⊎◌, List, [], ◌∷◌, some}
use hcnet.Error.{NetError, ok, err, io}
use hcnet.Buffer.{bytes}
use hcnet.Net.{NetApi}
use hcnet.Handler.{Handler}
use hcnet.Stream.{new}
use hcnet.Ws.Handshake.{returned}
use hcnet.Ws.Conn.{accept_server, default}
use hcnet.Conn.{NetConn, ws}
use hcnet.Conn.Run.{Turns, inner_run_handler, inner_run_with_handler}
use hcnet.Conn.Run.Errors.{IsRefused, IsAccepted, Told, inner_run_handler_tells}
use hcnet.Tests.Connection.{no_counters}
use hcnet.Tests.Websocket.{two_byte_api}

-- No handshake succeeds.
abbrev broken_net : NetApi ℕ
broken_net = record {
  Socket = ℕ;
  Addr = ℕ;
  Acceptor = ℕ;
  TlsClient = ℕ;
  TlsServer = ℕ;
  accept_tls = λ a s. err (io 9);
  connect_tls = λ d s. err (io 9);
}

abbrev Conn : Type 0
Conn = NetConn broken_net ℕ two_byte_api bytes

-- A handler that keeps the reasons of the ends that it is told.
abbrev end_log : Handler ℕ Conn
end_log = record {
  State = List (List ℕ);
  on_accept = λ h c. (ok tt, h);
  on_open = λ h. (ok tt, h);
  on_close = λ h code reason. reason ∷ h;
  on_ping = λ h v. (ok (some v), h);
  on_pong = λ h v. (ok tt, h);
  on_message = λ h m. (ok tt, h);
  on_logic = λ h. (ok tt, h);
}

abbrev secure_end : Conn
secure_end = ws (record (default broken_net two_byte_api bytes) {
  ws = accept_server (new broken_net (record { stream = 7; accepter = some 1 }) 8);
})

abbrev no_turns : Turns broken_net ℕ two_byte_api bytes end_log (λ h r. (ok 101, h))
no_turns = record { of_tcp = []; of_ws = []; of_kcp = [] }

inner_run_handler_tells_example :
    let ((r, h₁, c₁), st₁) =
      inner_run_with_handler broken_net ℕ two_byte_api bytes end_log
        (λ h r. (ok 101, h))
        []
        secure_end
        no_counters
        no_turns in
    let ((r', h₂, c₂), st₂) =
      inner_run_handler broken_net ℕ two_byte_api bytes end_log
        (λ h r. (ok 101, h))
        []
        secure_end
        no_counters
        no_turns in
    (r' ≡ r)
    × (c₂ ≡ c₁)
    × (((e : NetError ℕ) × IsRefused broken_net ℕ two_byte_api bytes end_log
            (λ h r. (ok 101, h))
            secure_end
            e
          × (r ≡ some (returned (err e)))
          × (h₂ ≡ []))
        ⊎ (IsAccepted broken_net ℕ two_byte_api bytes end_log (λ h r. (ok 101, h)) secure_end
            × Told broken_net ℕ two_byte_api bytes end_log (λ h r. (ok 101, h)) r h₁ h₂))
inner_run_handler_tells_example =
    inner_run_handler_tells broken_net ℕ two_byte_api bytes end_log (λ h r. (ok 101, h)) []
      secure_end no_counters no_turns
