-- ===== src/Tcp/Run/Sending.antt =====
-- What the loop of a TCP connection sends, and how it ends with the stream.
use hcnet.Base.{
  ℕ, ◌<◌, ◌+◌, ◌≡◌, refl, ap, ◌∙◌, sym, Bool, false, List, [], ◌∷◌, ◌++◌, map, none, some, length,
  lt→ltb, append-nil, append_assoc, length-append, arith,
}
use hcnet.Message.{Message}
use hcnet.Buffer.{BinaryMut}
use hcnet.Net.{NetApi}
use hcnet.OnlineCount.{Counters}
use hcnet.Handler.{Handler}
use hcnet.Codec.{encode_message}
use hcnet.Codec.Frame.{wire}
use hcnet.Codec.Refine.{encode_message-wire}
use hcnet.Tcp.{TcpConn}
use hcnet.Tcp.Run.{Turn, received, Loop, on_command, turn, run}

-- A message that is sent as it is: not one that closes the connection.
abbrev pub IsPlain : Message → Type 0
IsPlain (Message.close _ _) = ⊥
IsPlain Message.shutdown = ⊥
IsPlain _ = Unit {0}

abbrev pub wires : Bool → List Message → List ℕ
wires raw [] = []
wires raw (m ∷ ms) = wire raw m ++ wires raw ms

abbrev pub AllPlain : List Message → Type 0
AllPlain [] = Unit {0}
AllPlain (m ∷ ms) = IsPlain m × AllPlain ms

module _ {E : Type 0} (net : NetApi E) (bin : BinaryMut)
    (handler : Handler E (TcpConn net bin)) where
  open bin use {chunk, len}

  abbrev pub sends : List Message → List (Turn net bin handler)
  sends = map (λ m. received (some (record { msg = m })))

  -- The connection after a plain message.
  abbrev pub buffered : TcpConn net bin → Message → TcpConn net bin
  buffered c m = record c { write = (encode_message bin {E = E} c.write m c.settings.is_raw).1 }

  on_command_plain :
      (h : handler.State) (c : TcpConn net bin) (m : Message)
      → IsPlain m
      → on_command net bin handler h c m ≡ (none, h, buffered c m)
  unfolding on_command
  on_command_plain h c (Message.close _ _) p = absurd p
  on_command_plain h c Message.shutdown p = absurd p
  on_command_plain h c (Message.text t) p =
      rw ((encode_message-wire bin {E = E} c.write (Message.text t) c.settings.is_raw).0)
  on_command_plain h c m p = rw ((encode_message-wire bin {E = E} c.write m c.settings.is_raw).0)

  pub turn_plain :
      (h : handler.State) (c : TcpConn net bin) (st : Counters) (m : Message)
      → len c.write < c.settings.out_buffer_max
      → IsPlain m
      → turn net bin handler false h c st (received (some (record { msg = m })))
        ≡ ((none, h, buffered c m), st)
  unfolding turn
  turn_plain h c st m room p = rw (lt→ltb _ _ room, on_command_plain h c m p)

  run_next :
      (h : handler.State) (c : TcpConn net bin) (st : Counters) (t : Turn net bin handler)
      (ts : List (Turn net bin handler)) (h' : handler.State) (c' : TcpConn net bin)
      (st' : Counters)
      → turn net bin handler false h c st t ≡ ((none, h', c'), st')
      → run net bin handler false h c st (t ∷ ts) ≡ run net bin handler false h' c' st' ts
  unfolding run
  run_next h c st t ts h' c' st' e = ap after e
    where
      after : Loop net bin handler × Counters → Loop net bin handler × Counters
      after p =
          let rest = run net bin handler false p.0.1 p.0.2 p.1 ts in
          elim p.0.0 [ some r ↦ ((some r, p.0.1, p.0.2), p.1) | none ↦ rest ]

  -- On a connection that does not listen, with room for all of them, plain commands that arrive one
  -- after the other go into the write buffer in that order, behind what is there; the loop goes on,
  -- no callback is made, and the read buffer stays as it was.
  pub run-sends :
      (ms : List Message) (h : handler.State) (c : TcpConn net bin) (st : Counters)
      → AllPlain ms
      → len c.write + length (wires c.settings.is_raw ms) < c.settings.out_buffer_max
      → let ((r, h', c'), st') = run net bin handler false h c st (sends ms) in
        (r ≡ none)
        × (h' ≡ h)
        × (chunk c'.write ≡ chunk c.write ++ wires c.settings.is_raw ms)
        × (c'.read ≡ c.read)
  run-sends [] h c st p room = unfold run in (refl, refl, sym (append-nil (chunk c.write)), refl)
  run-sends (m ∷ ms) h c st p room =
      let w = (encode_message-wire bin {E = E} c.write m c.settings.is_raw).1 in
      let grown : len (buffered c m).write ≡ len c.write + length (wire c.settings.is_raw m) =
        omega (
          arith,
          bin.len-chunk (buffered c m).write,
          ap length w,
          length-append (chunk c.write) (wire c.settings.is_raw m),
          bin.len-chunk c.write,
        ) in
      let size = length-append (wire c.settings.is_raw m) (wires c.settings.is_raw ms) in
      let (a, b, d, e) = run-sends ms h (buffered c m) st p.1 (omega (arith, grown, size)) in
      rw (run_next h c st _ (sends ms) h (buffered c m) st (turn_plain h c st m (omega arith) p.0))
        (
          a,
          b,
          d
              ∙ ap (λ (t : List ℕ). t ++ wires c.settings.is_raw ms) w
              ∙ append_assoc (chunk c.write) (wire c.settings.is_raw m)
                  (wires c.settings.is_raw ms),
          e,
        )
