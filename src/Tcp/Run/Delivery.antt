-- ===== src/Tcp/Run/Delivery.antt =====
-- From the commands of one end of a TCP connection to the messages of the other.
use hcnet.Base.{
  ℕ, ◌+◌, ◌<◌, ◌≡◌, ◌≢◌, refl, ap, ◌∙◌, false, List, [], ◌∷◌, ◌++◌, map, some, length, All, concat,
}
use hcnet.Message.{Message}
use hcnet.Error.{ok}
use hcnet.Buffer.{BinaryMut}
use hcnet.Net.{NetApi}
use hcnet.Handler.{Handler}
use hcnet.Stream.{MaybeTlsStream}
use hcnet.OnlineCount.{Counters}
use hcnet.Codec.Frame.{wire}
use hcnet.Codec.RoundTrip.{received}
use hcnet.Tcp.{TcpConn, opened, stream}
use hcnet.Tcp.Process.{Answer, TcpReceiver}
use hcnet.Tcp.Process.Events.{Fits, answers, reads, frames, process_in_order}
use hcnet.Tcp.Run.{run}
use hcnet.Tcp.Run.Sending.{IsPlain, AllPlain, sends, wires, run-sends}

pub received-plain : (m : Message) → IsPlain m → received m ≡ m
received-plain (Message.close code r) h = absurd h
received-plain Message.shutdown h = absurd h
received-plain (Message.text t) h = refl
received-plain (Message.binary v) h = refl
received-plain (Message.ping v) h = refl
received-plain (Message.pong v) h = refl
received-plain Message.unvaid h = refl

module _ {E : Type 0} (net : NetApi E) (bin : BinaryMut)
    (handler : Handler E (TcpConn net bin)) where
  open bin use {chunk, len}

  wires-frames : (ms : List Message) → wires false ms ≡ frames net bin ms
  wires-frames [] = refl
  wires-frames (m ∷ ms) = ap (λ (t : List ℕ). wire false m ++ t) (wires-frames ms)

  -- An answer that hands over a message.
  abbrev pub hands_over : Message → Answer net bin
  hands_over m = some (ok (TcpReceiver.read m))

  hands_over-received :
      (ms : List Message) → AllPlain ms → map (λ m. hands_over (received m)) ms ≡ map hands_over ms
  hands_over-received [] h = refl
  hands_over-received (m ∷ ms) (h, hs) = rw (received-plain m h, hands_over-received ms hs) refl

  -- What one end of a framed connection is told to send, the other end receives. If plain commands
  -- arrive at an end with an empty write buffer and room for all of them, and the bytes that it then has
  -- to write come in at an open end with an empty read buffer, cut anywhere into non-empty pieces, then
  -- the calls of `process` there answer with these messages, each once and in order, if they fit its
  -- settings.
  pub run_delivers :
      (ms : List Message) (h : handler.State) (a b : TcpConn net bin) (sa sb : Counters)
      (chunks : List (List ℕ)) (s : MaybeTlsStream net)
      → AllPlain ms
      → a.settings.is_raw ≡ false
      → chunk a.write ≡ []
      → len a.write + length (wires a.settings.is_raw ms) < a.settings.out_buffer_max
      → b.tcp ≡ stream s
      → b.state ≡ opened
      → b.settings.is_raw ≡ false
      → chunk b.read ≡ []
      → All (Fits b.settings) ms
      → All (λ xs. xs ≢ []) chunks
      → concat chunks
        ≡ chunk (run net bin handler false h a sa (sends net bin handler ms)).0.2.write
      → answers net bin (length ms) b sb (reads net bin chunks) ≡ map hands_over ms
  run_delivers ms h a b sa sb chunks s plain raw_a none_written room t o raw_b none_read f hc e =
      let sent = run-sends net bin handler ms h a sa plain room in
      let written : concat chunks ≡ frames net bin ms =
        e ∙ sent.2 ∙ rw (none_written, raw_a) (wires-frames ms) in
      process_in_order net bin ms b sb chunks s t o raw_b f hc
        (ap (λ (x : List ℕ). x ++ concat chunks) none_read ∙ written)
      ∙ hands_over-received ms plain
