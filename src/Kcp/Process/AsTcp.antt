-- ===== src/Kcp/Process/AsTcp.antt =====
-- A KCP stream beside the TCP connection with the same buffers.
use hcnet.Base.{◌≡◌, refl, ap, List, [], ◌∷◌, map, none, some, ◌⊎◌, inl, inr, Bool-cases}
use hcnet.Message.{Message}
use hcnet.Error.{ok}
use hcnet.Buffer.{BinaryMut}
use hcnet.Net.{NetApi}
use hcnet.Stream.{MaybeTlsStream}
use hcnet.OnlineCount.{Counters}
use hcnet.Ws.Handshake.{returned}
use hcnet.Tcp.Process
use hcnet.Kcp.{KcpConn, KcpState, opened, closing, closed, stream}
use hcnet.Kcp.Process.{
  Event, read, read_failed, wrote, write_failed, elapsed, incoming, connecting, TcpReceiver,
  closing_loop, stream_process, process, process_on, Polled,
}
use hcnet.Kcp.Process.Opened.{state_as, as_tcp, event_as, answer_as, polled_as, open_loop-as_tcp}

module _ {E : Type 0} (net : NetApi E) (KcpStream : Type 0) (bin : BinaryMut)
    (s : MaybeTlsStream net) where
  abbrev K : Type 0
  K = KcpConn net KcpStream bin

  -- The same connection, and the same answer where the TCP connection has one.
  abbrev pub Keeps : Polled net KcpStream bin → Process.Polled net bin → Type 0
  Keeps (r, c, es) (r', c', es') =
      (c' ≡ as_tcp net KcpStream bin s c) × ((r' ≡ none) ⊎ (r' ≡ answer_as net KcpStream bin s r))

  last_sleep-Keeps :
      (es : List (Event net KcpStream bin)) (c : K) (left : List (Event net KcpStream bin))
      → Keeps
          (some (ok (TcpReceiver.read Message.shutdown)), c, left)
          (Process.last_sleep net bin
            (as_tcp net KcpStream bin s c)
            (map (event_as net KcpStream bin s) es))
  unfolding Process.last_sleep
  last_sleep-Keeps [] c left = (refl, inl refl)
  last_sleep-Keeps (elapsed ∷ es) c left = (refl, inr refl)
  last_sleep-Keeps (read _ ∷ es) c left = last_sleep-Keeps es c left
  last_sleep-Keeps (read_failed _ ∷ es) c left = last_sleep-Keeps es c left
  last_sleep-Keeps (wrote _ ∷ es) c left = last_sleep-Keeps es c left
  last_sleep-Keeps (write_failed _ ∷ es) c left = last_sleep-Keeps es c left
  last_sleep-Keeps (incoming _ ∷ es) c left = last_sleep-Keeps es c left
  last_sleep-Keeps (connecting _ ∷ es) c left = last_sleep-Keeps es c left

  closing_loop-Keeps :
      (es : List (Event net KcpStream bin)) (c : K)
      → Keeps (closing_loop net KcpStream bin c es) (
          Process.closing_loop net bin
            (as_tcp net KcpStream bin s c)
            (map (event_as net KcpStream bin s) es))
  unfolding Process.closing_loop closing_loop
  closing_loop-Keeps [] c = (refl, inl refl)
  closing_loop-Keeps (wrote n ∷ es) c =
      let b = bin.advance c.write n in
      let ignored = closing_loop-Keeps es c in
      let more = closing_loop-Keeps es (record c { write = b }) in
      elim (Bool-cases (bin.has_remaining c.write)) [
        | inr h ↦ rw (Process.closing_loop, closing_loop, h) ignored
        | inl h ↦ elim (Bool-cases (bin.has_remaining b)) [
          | inl k ↦ rw (Process.closing_loop, closing_loop, h, k) more
          | inr k ↦
              rw (Process.closing_loop, closing_loop, h, k)
                (last_sleep-Keeps es (record c { write = bin.clear b; state = closed }) es)
        ]
      ]
  closing_loop-Keeps (write_failed e ∷ es) c =
      let ignored = closing_loop-Keeps es c in
      elim (Bool-cases (bin.has_remaining c.write)) [
        | inr h ↦ rw (Process.closing_loop, closing_loop, h) ignored
        | inl h ↦ rw (Process.closing_loop, closing_loop, h) (refl, inr refl)
      ]
  closing_loop-Keeps (elapsed ∷ es) c = (refl, inr refl)
  closing_loop-Keeps (read _ ∷ es) c = closing_loop-Keeps es c
  closing_loop-Keeps (read_failed _ ∷ es) c = closing_loop-Keeps es c
  closing_loop-Keeps (incoming _ ∷ es) c = closing_loop-Keeps es c
  closing_loop-Keeps (connecting _ ∷ es) c = closing_loop-Keeps es c

  -- The same at all, while it is open; the same but for the last sleep of the TCP connection then.
  abbrev pub Follows : KcpState → Polled net KcpStream bin → Process.Polled net bin → Type 0
  Follows opened p q = q ≡ polled_as net KcpStream bin s p
  Follows (closing _ _) p q = Keeps p q
  Follows closed p q = q ≡ polled_as net KcpStream bin s p

  stream_process-Follows :
      (state : KcpState) (c : K) (es : List (Event net KcpStream bin))
      → Follows state (stream_process net KcpStream bin state c es) (
          Process.stream_process net bin
            (state_as net KcpStream bin s state)
            (as_tcp net KcpStream bin s c)
            (map (event_as net KcpStream bin s) es))
  unfolding Process.stream_process stream_process
  stream_process-Follows opened c es = open_loop-as_tcp net KcpStream bin s es c
  stream_process-Follows (closing _ _) c es = closing_loop-Keeps es c
  stream_process-Follows closed c es = refl

  -- A poll of a KCP stream never panics, and on any events it goes as a poll of the TCP connection with
  -- the same buffers, settings and state, whatever stream this has. While it is open, or closed, the two
  -- give the same answer, leave the same connection and the same events. While it is closing, they
  -- leave the same connection, and the TCP connection, which sleeps after its last write, is pending or
  -- gives the same answer.
  pub process-as_tcp :
      (c : K) (st : Counters) (t : KcpStream) (es : List (Event net KcpStream bin))
      → c.kcp ≡ stream t
      → (p : Polled net KcpStream bin) × (process net KcpStream bin c es ≡ returned p)
        × Follows c.state p
            (Process.process net bin
              (as_tcp net KcpStream bin s c)
              st
              (map (event_as net KcpStream bin s) es)).0
  unfolding process process_on Process.process Process.process_on
  process-as_tcp c st t es h = (
    stream_process net KcpStream bin c.state c es,
    ap (λ k. process_on net KcpStream bin k c es) h,
    stream_process-Follows c.state c es,
  )
