-- ===== src/Kcp/Run.antt =====
-- The loop of a KCP connection: `inner_run_with_handler` and `inner_run_handler` of src/kcp/mod.rs.
-- A turn is the branch of the `select!` that completes next, as for TCP.
pub mod Errors
use hcnet.Base.{ℕ, Bool, true, false, List, [], ◌∷◌, Option, none, some, codes, ltb, if◌then◌else◌}
use hcnet.Protocol.{away, error}
use hcnet.Message.{Message}
use hcnet.Error.{Command, NetResult, ok, err}
use hcnet.Buffer.{BinaryMut}
use hcnet.Net.{NetApi}
use hcnet.Handler.{Handler}
use hcnet.Codec.{encode_message}
use hcnet.Kcp.{KcpConn, set_settings, is_listen}
use hcnet.Kcp.Process.{Event, TcpReceiver, accept, pending, Polled, process, close}
use hcnet.Ws.Handshake.{Outcome, returned, panicked}

module _ {E : Type 0} (net : NetApi E) (KcpStream : Type 0) (bin : BinaryMut)
    (handler : Handler E (KcpConn net KcpStream bin)) where
  open handler use {State, on_accept, on_open, on_close, on_ping, on_pong, on_message, on_logic}

  -- `process` with the events it sees; `receiver.recv()`, where none means that every sender is gone;
  -- `on_logic`.
  pub data Turn : Type 0 where
    polled : List (Event net KcpStream bin) → Turn
    received : Option Command → Turn
    logic : Turn

  -- How the loop ends, if it does, and the handler and the connection that it leaves.
  abbrev pub Loop : Type 0
  Loop = Option (Outcome (NetResult E (Unit {0}))) × State × KcpConn net KcpStream bin

  -- `?` on a callback that returns nothing.
  abbrev ended : NetResult E (Unit {0}) → Option (Outcome (NetResult E (Unit {0})))
  ended (ok _) = none
  ended (err e) = some (returned (err e))

  pong : State → KcpConn net KcpStream bin → NetResult E (Option (List ℕ)) → Loop
  pong h c (err e) = (some (returned (err e)), h, c)
  pong h c (ok none) = (none, h, c)
  pong h c (ok (some ret)) =
      let (r, b) = encode_message bin {E = E} c.write (Message.pong ret) c.settings.is_raw in
      (ended r, h, record c { write = b })

  pub on_read : State → KcpConn net KcpStream bin → Message → Loop
  unfolding pong
  on_read h c (Message.text t) = let (r, h') = on_message h (Message.text t) in (ended r, h', c)
  on_read h c (Message.binary v) = let (r, h') = on_message h (Message.binary v) in (ended r, h', c)
  on_read h c (Message.close code reason) = (some (returned (ok tt)), on_close h code reason, c)
  on_read h c (Message.ping v) = let (r, h') = on_ping h v in pong h' c r
  on_read h c (Message.pong v) = let (r, h') = on_pong h v in (ended r, h', c)
  on_read h c Message.shutdown = (some (returned (ok tt)), h, c)
  on_read h c Message.unvaid = (some (returned (ok tt)), h, c)

  -- A new connection goes to the handler with the settings of the listener.
  on_processed :
      State → KcpConn net KcpStream bin → NetResult E (TcpReceiver net KcpStream bin) → Loop
  unfolding on_read
  on_processed h c (err e) = (some (returned (err e)), h, c)
  on_processed h c (ok (accept kcp)) =
      let (r, h') = on_accept h (set_settings net KcpStream bin kcp c.settings) in (ended r, h', c)
  on_processed h c (ok (TcpReceiver.read msg)) = on_read h c msg
  on_processed h c (ok pending) = (none, h, c)

  -- A command of a sender.
  pub on_command : State → KcpConn net KcpStream bin → Message → Loop
  on_command h c (Message.close code reason) =
      let (r, c') = close net KcpStream bin c code reason in (ended r, h, c')
  on_command h c Message.shutdown =
      let (r, c') = close net KcpStream bin c away (codes "Shutdown") in (ended r, h, c')
  on_command h c msg =
      let (r, b) = encode_message bin {E = E} c.write msg c.settings.is_raw in
      (ended r, h, record c { write = b })

  on_received : State → KcpConn net KcpStream bin → Bool → Option Command → Loop
  unfolding on_command
  on_received h c true cmd = (some (returned (ok tt)), h, c)
  on_received h c false none = (some (returned (ok tt)), h, c)
  on_received h c false (some cmd) = on_command h c cmd.msg

  pub on_polled : State → KcpConn net KcpStream bin → Outcome (Polled net KcpStream bin) → Loop
  unfolding on_processed
  on_polled h c panicked = (some panicked, h, c)
  on_polled h c (returned (none, c', _)) = (none, h, c')
  on_polled h c (returned (some r, c', _)) = on_processed h c' r

  -- One turn. The branch of the receiver is disabled while the write buffer is full.
  pub turn : Bool → State → KcpConn net KcpStream bin → Turn → Loop
  unfolding on_received on_polled
  turn listens h c (polled es) = on_polled h c (process net KcpStream bin c es)
  turn listens h c (received cmd) =
      if ltb (bin.len c.write) c.settings.out_buffer_max
      then on_received h c listens cmd
      else (none, h, c)
  turn listens h c logic = let (r, h') = on_logic h in (ended r, h', c)

  pub run : Bool → State → KcpConn net KcpStream bin → List Turn → Loop
  unfolding turn
  run listens h c [] = (none, h, c)
  run listens h c (t ∷ ts) =
      let (r, h', c') = turn listens h c t in
      let rest = run listens h' c' ts in elim r [ some e ↦ (some e, h', c') | none ↦ rest ]

  pub inner_run_with_handler : State → KcpConn net KcpStream bin → List Turn → Loop
  unfolding run
  inner_run_with_handler h c ts =
      let (r, h₁) = on_open h in
      elim r [
        | err e ↦ (some (returned (err e)), h₁, c)
        | ok _ ↦ run (is_listen net KcpStream bin c) h₁ c ts
      ]

  -- An error is told to the handler before it is returned.
  told : Loop → Loop
  told (some (returned (err e)), h, c) =
      (some (returned (err e)), on_close h error (codes "NetError"), c)
  told (some (returned (ok r)), h, c) = (some (returned (ok r)), h, c)
  told (some panicked, h, c) = (some panicked, h, c)
  told (none, h, c) = (none, h, c)

  unfoldable pub inner_run_handler : State → KcpConn net KcpStream bin → List Turn → Loop
  unfolding inner_run_with_handler told
  inner_run_handler h c ts = told (inner_run_with_handler h c ts)
