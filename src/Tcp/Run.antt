-- ===== src/Tcp/Run.antt =====
-- The loop of a TCP connection: `inner_run_with_handler` and `inner_run_handler` of src/tcp/mod.rs.
-- A turn is the branch of the `select!` that completes next; `process` was pending before the others,
-- with the events it had seen, and is started anew.
pub mod Sending
pub mod Ending
pub mod Delivery
pub mod Linked
pub mod Reading
use hcnet.Base.{ℕ, Bool, true, false, List, [], ◌∷◌, Option, none, some, codes, ltb, if◌then◌else◌}
use hcnet.Protocol.{CloseCode, away, error}
use hcnet.Message.{Message}
use hcnet.Error.{Command, NetError, NetResult, ok, err}
use hcnet.Buffer.{BinaryMut}
use hcnet.Net.{NetApi}
use hcnet.OnlineCount.{Counters}
use hcnet.Handler.{Handler}
use hcnet.Codec.{encode_message}
use hcnet.Tcp.{Tcp, TcpConn, try_accept, set_settings, is_listen}
use hcnet.Tcp.Process.{Event, TcpReceiver, accept, next, process, close}

module _ {E : Type 0} (net : NetApi E) (bin : BinaryMut)
    (handler : Handler E (TcpConn net bin)) where
  open handler use {State, on_accept, on_open, on_close, on_ping, on_pong, on_message, on_logic}

  -- `process` with the events it sees; `receiver.recv()`, where none means that every sender is gone;
  -- `on_logic`.
  pub data Turn : Type 0 where
    polled : List (Event net bin) → Turn
    received : Option Command → Turn
    logic : Turn

  -- How the loop ends, if it does, and the handler and the connection that it leaves.
  abbrev pub Loop : Type 0
  Loop = Option (NetResult E (Unit {0})) × State × TcpConn net bin

  -- `?` on a callback that returns nothing.
  abbrev ended : NetResult E (Unit {0}) → Option (NetResult E (Unit {0}))
  ended (ok _) = none
  ended (err e) = some (err e)

  pong : State → TcpConn net bin → NetResult E (Option (List ℕ)) → Loop
  pong h c (err e) = (some (err e), h, c)
  pong h c (ok none) = (none, h, c)
  pong h c (ok (some ret)) =
      let (r, b) = encode_message bin {E = E} c.write (Message.pong ret) c.settings.is_raw in
      (ended r, h, record c { write = b })

  unfoldable pub on_read : State → TcpConn net bin → Message → Loop
  unfolding pong
  on_read h c (Message.text t) = let (r, h') = on_message h (Message.text t) in (ended r, h', c)
  on_read h c (Message.binary v) = let (r, h') = on_message h (Message.binary v) in (ended r, h', c)
  on_read h c (Message.close code reason) = (some (ok tt), on_close h code reason, c)
  on_read h c (Message.ping v) = let (r, h') = on_ping h v in pong h' c r
  on_read h c (Message.pong v) = let (r, h') = on_pong h v in (ended r, h', c)
  on_read h c Message.shutdown = (some (ok tt), h, c)
  on_read h c Message.unvaid = (some (ok tt), h, c)

  -- A new connection goes to the handler with the settings of the listener.
  unfoldable on_processed : State → TcpConn net bin → NetResult E (TcpReceiver net bin) → Loop
  unfolding on_read
  on_processed h c (err e) = (some (err e), h, c)
  on_processed h c (ok (accept tcp)) =
      let (r, h') = on_accept h (set_settings net bin tcp c.settings) in (ended r, h', c)
  on_processed h c (ok (TcpReceiver.read msg)) = on_read h c msg
  on_processed h c (ok next) = (none, h, c)

  -- A command of a sender.
  unfoldable pub on_command : State → TcpConn net bin → Message → Loop
  on_command h c (Message.close code reason) =
      let (r, c') = close net bin c code reason in (ended r, h, c')
  on_command h c Message.shutdown =
      let (r, c') = close net bin c away (codes "Shutdown") in (ended r, h, c')
  on_command h c msg =
      let (r, b) = encode_message bin {E = E} c.write msg c.settings.is_raw in
      (ended r, h, record c { write = b })

  unfoldable on_received : State → TcpConn net bin → Bool → Option Command → Loop
  unfolding on_command
  on_received h c true cmd = (some (ok tt), h, c)
  on_received h c false none = (some (ok tt), h, c)
  on_received h c false (some cmd) = on_command h c cmd.msg

  unfoldable on_polled : State → Option (NetResult E (TcpReceiver net bin)) → TcpConn net bin → Loop
  unfolding on_processed
  on_polled h none c = (none, h, c)
  on_polled h (some r) c = on_processed h c r

  -- One turn. The branch of the receiver is disabled while the write buffer is full.
  unfoldable pub turn : Bool → State → TcpConn net bin → Counters → Turn → Loop × Counters
  unfolding on_received on_polled
  turn listens h c st (polled es) =
      let ((r, c', _), st') = process net bin c st es in (on_polled h r c', st')
  turn listens h c st (received cmd) =
      if ltb (bin.len c.write) c.settings.out_buffer_max
      then (on_received h c listens cmd, st)
      else ((none, h, c), st)
  turn listens h c st logic = let (r, h') = on_logic h in ((ended r, h', c), st)

  pub run : Bool → State → TcpConn net bin → Counters → List Turn → Loop × Counters
  unfolding turn
  run listens h c st [] = ((none, h, c), st)
  run listens h c st (t ∷ ts) =
      let ((r, h', c'), st') = turn listens h c st t in
      let rest = run listens h' c' st' ts in
      elim r [ some e ↦ ((some e, h', c'), st') | none ↦ rest ]

  pub inner_run_with_handler : State → TcpConn net bin → Counters → List Turn → Loop × Counters
  unfolding run
  inner_run_with_handler h c st ts =
      let (r₁, tcp) = try_accept net bin c.tcp in
      let c₁ = record c { tcp = tcp } in
      elim r₁ [
        | err e ↦ ((some (err e), h, c₁), st)
        | ok _ ↦
            (let (r₂, h₂) = on_open h in
              elim r₂ [
                | err e ↦ ((some (err e), h₂, c₁), st)
                | ok _ ↦ run (is_listen net bin c₁) h₂ c₁ st ts
              ])
      ]

  -- An error is told to the handler before it is returned.
  told : Loop × Counters → Loop × Counters
  told ((some (err e), h, c), st) = ((some (err e), on_close h error (codes "NetError"), c), st)
  told ((some (ok r), h, c), st) = ((some (ok r), h, c), st)
  told ((none, h, c), st) = ((none, h, c), st)

  pub inner_run_handler : State → TcpConn net bin → Counters → List Turn → Loop × Counters
  unfolding inner_run_with_handler told
  inner_run_handler h c st ts = told (inner_run_with_handler h c st ts)
