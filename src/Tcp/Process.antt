-- ===== src/Tcp/Process.antt =====
-- `TcpConn::process` and `TcpConn::close` of src/tcp/mod.rs. The outside world is a list of events,
-- in the order in which the `select!`s see them; a call that uses them up without an answer is
-- pending, and has changed the connection as far as it came.
pub mod Open
pub mod Events
pub mod Closing
pub mod Limit
pub mod Bound
pub mod Capacity
pub mod Writing
pub mod Single
pub mod Mixed
use hcnet.Base.{
  ℕ, ◌*◌, ◌≡◌, refl, Bool, true, false, List, [], ◌∷◌, Option, none, some, length, ltb, leb, ◌==◌,
  if◌then◌else◌,
}
use hcnet.Protocol.{CloseCode}
use hcnet.Message.{Message}
use hcnet.Error.{
  NetError, NetResult, ok, err, io, timeout, over_inbuffer_size, read_timeout, ◌>>=◌, ◌>>◌,
}
use hcnet.Buffer.{BinaryMut}
use hcnet.Net.{NetApi}
use hcnet.Stream
use hcnet.Listener
use hcnet.Listener.{WrapListener}
use hcnet.OnlineCount
use hcnet.OnlineCount.{OnlineCount, Counters}
use hcnet.Codec.{encode_message, decode_message}
use hcnet.Tcp
use hcnet.Tcp.{
  Tcp, TcpConn, TcpState, opened, closing, closed, stream, listener, accept_server, unconnect,
  uninit, Attempt,
}

module _ {E : Type 0} (net : NetApi E) (bin : BinaryMut) where
  open net use {Socket, Addr}
  open bin use {Buf, len, has_remaining, advance, clear, advance_mut}

  -- A read that ends with these bytes, none at the end of the stream; a write that took so many bytes;
  -- the sleep of the `select!`; a connection for the listener; how a connect attempt goes.
  pub data Event : Type 0 where
    read : List ℕ → Event
    read_failed : E → Event
    wrote : ℕ → Event
    write_failed : E → Event
    elapsed : Event
    incoming : NetResult E (Socket × Addr) → Event
    connecting : Attempt net bin → Event

  pub data TcpReceiver : Type 0 where
    accept : TcpConn net bin → TcpReceiver
    read : Message → TcpReceiver
    next : TcpReceiver

  -- An answer, or none yet.
  abbrev pub Answer : Type 0
  Answer = Option (NetResult E TcpReceiver)

  -- The start of the loop of an open stream: a message that is there already, or too full a buffer.
  unfoldable pub head_answer : NetResult E (Option Message) → Bool → Answer
  head_answer (err e) full = some (err e)
  head_answer (ok (some v)) full = some (ok (TcpReceiver.read v))
  head_answer (ok none) true = some (err over_inbuffer_size)
  head_answer (ok none) false = none

  unfoldable pub open_head : TcpConn net bin → Answer × TcpConn net bin
  unfolding head_answer
  open_head c =
      let (r, b) = decode_message bin {E = E} c.read c.settings in
      (head_answer r (leb c.settings.in_buffer_max (len b)), record c { read = b })

  -- The bytes that a write took leave the buffer, and an empty buffer is cleared.
  unfoldable pub written : TcpConn net bin → ℕ → TcpConn net bin
  written c n =
      let b = advance c.write n in record c { write = if has_remaining b then b else clear b }

  -- The `select!` of an open stream; a branch that is disabled or not there changes nothing.
  unfoldable pub open_event : TcpConn net bin → Event → Answer × TcpConn net bin
  open_event c (Event.read bytes) = (
    if length bytes == 0 then some (ok (TcpReceiver.read Message.shutdown)) else none,
    record c { read = advance_mut c.read bytes },
  )
  open_event c (read_failed e) = (some (err (io e)), c)
  open_event c (wrote n) = if has_remaining c.write then (none, written c n) else (none, c)
  open_event c (write_failed e) =
      if has_remaining c.write then (some (err (io e)), c) else (none, c)
  open_event c elapsed = (some (err read_timeout), c)
  open_event c (incoming _) = (none, c)
  open_event c (connecting _) = (none, c)

  abbrev pub Polled : Type 0
  Polled = Answer × TcpConn net bin × List Event

  unfoldable pub open_loop : TcpConn net bin → List Event → Polled
  open_loop c [] = let (r, c₁) = open_head c in (r, c₁, [])
  open_loop c (e ∷ es) =
      let (r₁, c₁) = open_head c in
      let (r₂, c₂) = open_event c₁ e in
      let rest = open_loop c₂ es in
      elim r₁ [
        | some r ↦ (some r, c₁, e ∷ es)
        | none ↦ elim r₂ [ some r ↦ (some r, c₂, es) | none ↦ rest ]
      ]

  -- The sleep after the last write.
  unfoldable pub last_sleep : TcpConn net bin → List Event → Polled
  last_sleep c [] = (none, c, [])
  last_sleep c (elapsed ∷ es) = (some (ok (TcpReceiver.read Message.shutdown)), c, es)
  last_sleep c (_ ∷ es) = last_sleep c es

  unfoldable pub closing_loop : TcpConn net bin → List Event → Polled
  unfolding last_sleep
  closing_loop c [] = (none, c, [])
  closing_loop c (wrote n ∷ es) =
      let b = advance c.write n in
      let ignored = closing_loop c es in
      let more = closing_loop (record c { write = b }) es in
      let done = last_sleep (record c { write = clear b; state = closed }) es in
      elim (has_remaining c.write) [
        | false ↦ ignored
        | true ↦ elim (has_remaining b) [ true ↦ more | false ↦ done ]
      ]
  closing_loop c (write_failed e ∷ es) =
      let ignored = closing_loop c es in
      elim (has_remaining c.write) [ false ↦ ignored | true ↦ (some (err (io e)), c, es) ]
  closing_loop c (elapsed ∷ es) =
      (some (ok (TcpReceiver.read Message.shutdown)), record c { state = closed }, es)
  closing_loop c (_ ∷ es) = closing_loop c es

  unfoldable pub stream_process : TcpState → TcpConn net bin → List Event → Polled
  stream_process opened c es = open_loop c es
  stream_process (closing _ _) c es = closing_loop c es
  stream_process closed c es = (some (ok (TcpReceiver.read Message.shutdown)), c, es)

  -- What the listener's branch does with one outcome of `listener.accept()`.
  unfoldable pub listen :
      TcpConn net bin
      → WrapListener net
      → Counters
      → NetResult E (Socket × Addr)
      → NetResult E TcpReceiver × TcpConn net bin × Counters
  listen c l st outcome =
      let (r, l') = Listener.accept net l outcome in
      let c' = record c { tcp = listener l' } in
      elim r [
        | err e ↦ (err e, c', st)
        | ok (s, addr, id, accepter) ↦
            (if leb c.settings.max_connections (OnlineCount.now c.count st)
              then (ok next, c', st)
              else (let (count, st') = OnlineCount.add c.count st in
                  (
                    ok (
                        TcpReceiver.accept (record (Tcp.default net bin) {
                          tcp =
                              accept_server
                                (Stream.new net (record { stream = s; accepter = accepter }) addr);
                          addr = some addr;
                          id = id;
                          count = count;
                        })),
                    c',
                    st',
                  )))
      ]

  listener_process : TcpConn net bin → WrapListener net → Counters → List Event → Polled × Counters
  unfolding listen
  listener_process c l st [] = ((none, c, []), st)
  listener_process c l st (incoming outcome ∷ es) =
      let (r, c', st') = listen c l st outcome in ((some r, c', es), st')
  listener_process c l st (_ ∷ es) = listener_process c l st es

  -- A connection that is not made yet keeps all but the stream of the one that is made now.
  unconnect_process : TcpConn net bin → List Event → Polled
  unconnect_process c [] = (none, c, [])
  unconnect_process c (connecting attempt ∷ es) =
      elim (Tcp.connect_with_timeout net bin attempt (c.settings.connect_timeout * 1000) 0) [
        | ok made ↦ (some (ok next), record c { tcp = made.tcp }, es)
        | err e ↦ (some (err e), c, es)
      ]
  unconnect_process c (_ ∷ es) = unconnect_process c es

  unfoldable pub process_on :
      Tcp net bin → TcpConn net bin → Counters → List Event → Polled × Counters
  unfolding stream_process listener_process unconnect_process
  process_on (listener l) c st es = listener_process c l st es
  process_on (stream _) c st es = (stream_process c.state c es, st)
  process_on (unconnect _) c st es = (unconnect_process c es, st)
  process_on (accept_server _) c st es = ((none, c, es), st)
  process_on uninit c st es = ((none, c, es), st)

  unfoldable pub process : TcpConn net bin → Counters → List Event → Polled × Counters
  unfolding process_on
  process c st es = process_on c.tcp c st es

  pub close : TcpConn net bin → CloseCode → List ℕ → NetResult E (Unit {0}) × TcpConn net bin
  close c code reason =
      let (r, b) =
        encode_message bin {E = E} c.write (Message.close code reason) c.settings.is_raw in
      elim r [
        | ok _ ↦ (ok tt, record c { write = b; state = closing code reason })
        | err e ↦ (err e, record c { write = b })
      ]
