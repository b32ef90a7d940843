-- ===== src/Kcp/Process/Opened.antt =====
-- An open KCP stream beside the TCP connection with the same buffers.
use hcnet.Base.{
  ◌≡◌, refl, ap, ◌∙◌, Bool, true, false, List, [], ◌∷◌, map, Option, none, some, inl, inr, length,
  leb, ◌==◌, Bool-cases,
}
use hcnet.Message.{Message}
use hcnet.Error.{NetResult, ok, err, timeout}
use hcnet.Buffer.{BinaryMut}
use hcnet.Net.{NetApi}
use hcnet.Stream.{MaybeTlsStream}
use hcnet.Codec.{decode_message}
use hcnet.Tcp
use hcnet.Tcp.{TcpConn, TcpState}
use hcnet.Tcp.Process
use hcnet.Kcp.{KcpConn, KcpState, opened, closing, closed}
use hcnet.Kcp.Process.{
  Event, read, read_failed, wrote, write_failed, elapsed, incoming, connecting, TcpReceiver, Answer,
  head_answer, open_head, open_event, written, open_loop, Polled,
}

module _ {E : Type 0} (net : NetApi E) (KcpStream : Type 0) (bin : BinaryMut)
    (s : MaybeTlsStream net) where
  abbrev K : Type 0
  K = KcpConn net KcpStream bin

  abbrev pub state_as : KcpState → TcpState
  state_as opened = Tcp.opened
  state_as (closing code reason) = Tcp.closing code reason
  state_as closed = Tcp.closed

  -- The TCP connection over `s` that has all else of a KCP connection.
  abbrev pub as_tcp : K → TcpConn net bin
  as_tcp c = record (Tcp.default net bin) {
    tcp = Tcp.stream s;
    settings = c.settings;
    id = c.id;
    state = state_as c.state;
    addr = c.addr;
    read = c.read;
    write = c.write;
  }

  -- The events of a listener and of a connect are none of a stream.
  abbrev pub event_as : Event net KcpStream bin → Process.Event net bin
  event_as (read bytes) = Process.read bytes
  event_as (read_failed e) = Process.read_failed e
  event_as (wrote n) = Process.wrote n
  event_as (write_failed e) = Process.write_failed e
  event_as elapsed = Process.elapsed
  event_as (incoming _) = Process.incoming (err timeout)
  event_as (connecting _) = Process.connecting (λ deadline. none)

  abbrev pub answer_as : Answer net KcpStream bin → Process.Answer net bin
  answer_as none = none
  answer_as (some (err e)) = some (err e)
  answer_as (some (ok (TcpReceiver.accept c))) = some (ok (Process.accept (as_tcp c)))
  answer_as (some (ok (TcpReceiver.read m))) = some (ok (Process.TcpReceiver.read m))
  answer_as (some (ok TcpReceiver.pending)) = some (ok Process.next)

  abbrev same_answer : Answer net KcpStream bin × K → Process.Answer net bin × TcpConn net bin
  same_answer (r, c) = (answer_as r, as_tcp c)

  -- The heads of the two loops, on the same result of `decode_message`.
  head_answer-answer_as :
      (r : NetResult E (Option Message)) (full : Bool)
      → Process.head_answer net bin r full ≡ answer_as (head_answer net KcpStream bin r full)
  unfolding Process.head_answer head_answer
  head_answer-answer_as (err e) full = refl
  head_answer-answer_as (ok (some v)) full = refl
  head_answer-answer_as (ok none) true = refl
  head_answer-answer_as (ok none) false = refl

  open_head-as_tcp :
      (c : K) → Process.open_head net bin (as_tcp c) ≡ same_answer (open_head net KcpStream bin c)
  unfolding Process.open_head open_head
  open_head-as_tcp c =
      let (r, b) = decode_message bin {E = E} c.read c.settings in
      ap (λ (a : Process.Answer net bin). (a, as_tcp (record c { read = b })))
        (head_answer-answer_as r (leb c.settings.in_buffer_max (bin.len b)))

  open_event-as_tcp :
      (c : K) (e : Event net KcpStream bin)
      → Process.open_event net bin (as_tcp c) (event_as e)
        ≡ same_answer (open_event net KcpStream bin c e)
  unfolding Process.open_event Process.written open_event written
  open_event-as_tcp c (read bytes) = elim (Bool-cases (length bytes == 0)) [
    | inl h ↦ rw h refl
    | inr h ↦ rw h refl
  ]
  open_event-as_tcp c (read_failed e) = refl
  open_event-as_tcp c (wrote n) = elim (Bool-cases (bin.has_remaining c.write)) [
    | inl h ↦ rw h refl
    | inr h ↦ rw h refl
  ]
  open_event-as_tcp c (write_failed e) = elim (Bool-cases (bin.has_remaining c.write)) [
    | inl h ↦ rw h refl
    | inr h ↦ rw h refl
  ]
  open_event-as_tcp c elapsed = refl
  open_event-as_tcp c (incoming _) = refl
  open_event-as_tcp c (connecting _) = refl

  abbrev pub polled_as : Polled net KcpStream bin → Process.Polled net bin
  polled_as (r, c, es) = (answer_as r, as_tcp c, map event_as es)

  -- A turn of the two loops, on the results of the head and of the event.
  abbrev tcp_turn :
      Process.Answer net bin × TcpConn net bin
      → Process.Answer net bin × TcpConn net bin
      → Process.Event net bin
      → List (Process.Event net bin)
      → Process.Polled net bin
  tcp_turn p q e es = elim p.0 [
    | some r ↦ (some r, p.1, e ∷ es)
    | none ↦ elim q.0 [ some r ↦ (some r, q.1, es) | none ↦ Process.open_loop net bin q.1 es ]
  ]

  abbrev kcp_turn :
      Answer net KcpStream bin × K
      → Answer net KcpStream bin × K
      → Event net KcpStream bin
      → List (Event net KcpStream bin)
      → Polled net KcpStream bin
  kcp_turn p q e es = elim p.0 [
    | some r ↦ (some r, p.1, e ∷ es)
    | none ↦ elim q.0 [ some r ↦ (some r, q.1, es) | none ↦ open_loop net KcpStream bin q.1 es ]
  ]

  same_turn :
      (p q : Answer net KcpStream bin × K) (e : Event net KcpStream bin)
      (es : List (Event net KcpStream bin))
      → Process.open_loop net bin (as_tcp q.1) (map event_as es)
        ≡ polled_as (open_loop net KcpStream bin q.1 es)
      → tcp_turn (same_answer p) (same_answer q) (event_as e) (map event_as es)
        ≡ polled_as (kcp_turn p q e es)
  same_turn (some (ok (TcpReceiver.accept d)), c) q e es next = refl
  same_turn (some (ok (TcpReceiver.read m)), c) q e es next = refl
  same_turn (some (ok TcpReceiver.pending), c) q e es next = refl
  same_turn (some (err x), c) q e es next = refl
  same_turn (none, c) (some (ok (TcpReceiver.accept d)), c') e es next = refl
  same_turn (none, c) (some (ok (TcpReceiver.read m)), c') e es next = refl
  same_turn (none, c) (some (ok TcpReceiver.pending), c') e es next = refl
  same_turn (none, c) (some (err x), c') e es next = refl
  same_turn (none, c) (none, c') e es next = next

  pub open_loop-as_tcp :
      (es : List (Event net KcpStream bin)) (c : K)
      → Process.open_loop net bin (as_tcp c) (map event_as es)
        ≡ polled_as (open_loop net KcpStream bin c es)
  unfolding Process.open_loop open_loop
  open_loop-as_tcp [] c =
      ap (λ (p : Process.Answer net bin × TcpConn net bin). (p.0, p.1, [])) (open_head-as_tcp c)
  open_loop-as_tcp (e ∷ es) c =
      let p = open_head net KcpStream bin c in
      let q = open_event net KcpStream bin p.1 e in
      let head = open_head-as_tcp c in
      let event =
        ap (λ (x : TcpConn net bin). Process.open_event net bin x (event_as e)) (λ i. (head i).1)
        ∙ open_event-as_tcp p.1 e in
      (λ i. tcp_turn (head i) (event i) (event_as e) (map event_as es))
      ∙ same_turn p q e es (open_loop-as_tcp es q.1)
