-- ===== src/Kcp/Process.antt =====
-- `KcpConn::process` and `KcpConn::close` of src/kcp/mod.rs, on the events that the `select!`s see, in
-- order; a call that uses them up without an answer is pending.
pub mod Opened
pub mod AsTcp
pub mod Calls
use hcnet.Base.{
  ℕ, ◌*◌, Bool, true, false, List, [], ◌∷◌, Option, none, some, length, leb, ◌==◌, if◌then◌else◌,
}
use hcnet.Protocol.{CloseCode}
use hcnet.Message.{Message}
use hcnet.Error.{NetResult, ok, err, io, over_inbuffer_size, read_timeout}
use hcnet.Buffer.{BinaryMut}
use hcnet.Net.{NetApi}
use hcnet.Ws.Handshake.{Outcome, returned, panicked}
use hcnet.Codec.{encode_message, decode_message}
use hcnet.Kcp
use hcnet.Kcp.{
  Kcp, KcpConn, KcpState, WrapKcpListener, opened, closing, closed, stream, listener, unconnect,
  uninit, Attempt,
}

module _ {E : Type 0} (net : NetApi E) (KcpStream : Type 0) (bin : BinaryMut) where
  open net use {Addr}
  open bin use {len, has_remaining, advance, clear, advance_mut}

  abbrev Conn : Type 0
  Conn = KcpConn net KcpStream bin

  pub data Event : Type 0 where
    read : List ℕ → Event
    read_failed : E → Event
    wrote : ℕ → Event
    write_failed : E → Event
    elapsed : Event
    incoming : NetResult E (KcpStream × Addr) → Event
    connecting : Attempt net KcpStream bin → Event

  pub data TcpReceiver : Type 0 where
    accept : Conn → TcpReceiver
    read : Message → TcpReceiver
    pending : TcpReceiver

  -- An answer, or none yet.
  abbrev pub Answer : Type 0
  Answer = Option (NetResult E TcpReceiver)

  abbrev pub Polled : Type 0
  Polled = Answer × Conn × List Event

  head_answer : NetResult E (Option Message) → Bool → Answer
  head_answer (err e) full = some (err e)
  head_answer (ok (some v)) full = some (ok (TcpReceiver.read v))
  head_answer (ok none) true = some (err over_inbuffer_size)
  head_answer (ok none) false = none

  pub open_head : Conn → Answer × Conn
  unfolding head_answer
  open_head c =
      let (r, b) = decode_message bin {E = E} c.read c.settings in
      (head_answer r (leb c.settings.in_buffer_max (len b)), record c { read = b })

  pub written : Conn → ℕ → Conn
  written c n =
      let b = advance c.write n in record c { write = if has_remaining b then b else clear b }

  -- A branch that is disabled or not there changes nothing.
  pub open_event : Conn → Event → Answer × Conn
  unfolding written
  open_event c (Event.read bytes) = (
    if length bytes == 0 then some (ok (TcpReceiver.read Message.shutdown)) else none,
    record c { read = advance_mut c.read bytes },
  )
  open_event c (read_failed e) = (some (err (io e)), c)
  open_event c (wrote n) = if has_remaining c.write then (none, written c n) else (none, c)
  open_event c (write_failed e) =
      if has_remaining c.write then (some (err (io e)), c) else (none, c)
  open_event c elapsed = (some (err read_timeout), c)
  open_event c (incoming _) = (none, c)
  open_event c (connecting _) = (none, c)

  pub open_loop : Conn → List Event → Polled
  unfolding open_head open_event
  open_loop c [] = let (r, c₁) = open_head c in (r, c₁, [])
  open_loop c (e ∷ es) =
      let (r₁, c₁) = open_head c in
      let (r₂, c₂) = open_event c₁ e in
      let rest = open_loop c₂ es in
      elim r₁ [
        | some r ↦ (some r, c₁, e ∷ es)
        | none ↦ elim r₂ [ some r ↦ (some r, c₂, es) | none ↦ rest ]
      ]

  pub closing_loop : Conn → List Event → Polled
  closing_loop c [] = (none, c, [])
  closing_loop c (wrote n ∷ es) =
      let b = advance c.write n in
      let ignored = closing_loop c es in
      let more = closing_loop (record c { write = b }) es in
      elim (has_remaining c.write) [
        | false ↦ ignored
        | true ↦ elim (has_remaining b) [
          | true ↦ more
          | false ↦ (
            some (ok (TcpReceiver.read Message.shutdown)),
            record c { write = clear b; state = closed },
            es,
          )
        ]
      ]
  closing_loop c (write_failed e ∷ es) =
      let ignored = closing_loop c es in
      elim (has_remaining c.write) [ false ↦ ignored | true ↦ (some (err (io e)), c, es) ]
  closing_loop c (elapsed ∷ es) =
      (some (ok (TcpReceiver.read Message.shutdown)), record c { state = closed }, es)
  closing_loop c (_ ∷ es) = closing_loop c es

  pub stream_process : KcpState → Conn → List Event → Polled
  stream_process opened c es = open_loop c es
  stream_process (closing _ _) c es = closing_loop c es
  stream_process closed c es = (some (ok (TcpReceiver.read Message.shutdown)), c, es)

  pub listener_process : Conn → WrapKcpListener → List Event → Polled
  listener_process c l [] = (none, c, [])
  listener_process c l (incoming outcome ∷ es) =
      let (r, l') = Kcp.accept_on net KcpStream bin l outcome in
      let c' = record c { kcp = listener l' } in
      elim r [
        | err e ↦ (some (err e), c', es)
        | ok (s, addr, id) ↦ (
          some (
              ok (
                accept (record (Kcp.default net KcpStream bin) {
                  kcp = stream s;
                  addr = some addr;
                  id = id;
                }))),
          c',
          es,
        )
      ]
  listener_process c l (_ ∷ es) = listener_process c l es

  connected : Conn → List Event → Outcome (NetResult E Conn) → Outcome Polled
  connected c es panicked = panicked
  connected c es (returned (err e)) = returned (some (err e), c, es)
  connected c es (returned (ok made)) =
      returned (some (ok pending), record c { kcp = made.kcp }, es)

  -- The lookup of addresses gives the addresses.
  pub unconnect_process : List Addr → Conn → List Event → Outcome Polled
  unfolding connected
  unconnect_process addrs c [] = returned (none, c, [])
  unconnect_process addrs c (connecting attempt ∷ es) = connected c es (
      Kcp.connect_with_timeout net KcpStream bin (ok addrs) attempt
        (c.settings.connect_timeout * 1000) 0)
  unconnect_process addrs c (_ ∷ es) = unconnect_process addrs c es

  process_on : Kcp net KcpStream bin → Conn → List Event → Outcome Polled
  unfolding stream_process listener_process unconnect_process
  process_on (listener l) c es = returned (listener_process c l es)
  process_on (stream _) c es = returned (stream_process c.state c es)
  process_on (unconnect addrs) c es = unconnect_process addrs c es
  process_on uninit c es = returned (none, c, es)

  pub process : Conn → List Event → Outcome Polled
  unfolding process_on
  process c es = process_on c.kcp c es

  pub close : Conn → CloseCode → List ℕ → NetResult E (Unit {0}) × Conn
  close c code reason =
      let (r, b) =
        encode_message bin {E = E} c.write (Message.close code reason) c.settings.is_raw in
      elim r [
        | ok _ ↦ (ok tt, record c { write = b; state = closing code reason })
        | err e ↦ (err e, record c { write = b })
      ]
