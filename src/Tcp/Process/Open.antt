-- ===== src/Tcp/Process/Open.antt =====
-- An open TCP connection: the call of `process`, a wait for more bytes, and the end of the stream.
use hcnet.Base.{
  ◌<◌, ◌≡◌, refl, ap, ◌∙◌, false, List, [], ◌∷◌, none, some, leb, All, append-nil, lt→leb_false,
}
use hcnet.Message.{Message}
use hcnet.Error.{ok}
use hcnet.Buffer.{BinaryMut}
use hcnet.Net.{NetApi}
use hcnet.Stream.{MaybeTlsStream}
use hcnet.OnlineCount.{Counters}
use hcnet.Codec.{decode_message}
use hcnet.Codec.Frame.{IsByte}
use hcnet.Codec.Incremental.{decode_message_waits}
use hcnet.Tcp
use hcnet.Tcp.{TcpConn, TcpState, opened, stream}
use hcnet.Tcp.Process.{
  Event, TcpReceiver, open_head, open_event, open_loop, stream_process, process, process_on,
}

module _ {E : Type 0} (net : NetApi E) (bin : BinaryMut) where
  open bin use {chunk, len}

  pub process_open :
      (c : TcpConn net bin) (st : Counters) (es : List (Event net bin)) (s : MaybeTlsStream net)
      → c.tcp ≡ stream s
      → c.state ≡ opened
      → process net bin c st es ≡ (open_loop net bin c es, st)
  unfolding process
  process_open c st es s t o =
      ap (λ (x : Tcp.Tcp net bin). process_on net bin x c st es) t
      ∙ ap (λ (x : TcpState). (stream_process net bin x c es, st)) o

  open_head_waits :
      (c : TcpConn net bin)
      → All IsByte (chunk c.read)
      → (decode_message bin {E = E} c.read c.settings).0 ≡ ok none
      → len c.read < c.settings.in_buffer_max
      → ((open_head net bin c).0 ≡ none) × (chunk (open_head net bin c).1.read ≡ chunk c.read)
  unfolding open_head
  open_head_waits c b w room =
      let d = decode_message_waits bin E c.read c.settings b w in
      let small : leb c.settings.in_buffer_max
            (len (decode_message bin {E = E} c.read c.settings).1)
          ≡ false =
        rw (bin.len-chunk _, d.0) (lt→leb_false _ _ (rw (bin.len-chunk c.read) at room)) in
      (rw (w, small) refl, d.0)

  -- The end of the stream, while `decode_message` waits.
  pub open_loop_end :
      (c : TcpConn net bin) (es : List (Event net bin))
      → All IsByte (chunk c.read)
      → (decode_message bin {E = E} c.read c.settings).0 ≡ ok none
      → len c.read < c.settings.in_buffer_max
      → ((open_loop net bin c (Event.read [] ∷ es)).0
          ≡ some (ok (TcpReceiver.read Message.shutdown)))
        × (chunk (open_loop net bin c (Event.read [] ∷ es)).1.read ≡ chunk c.read)
  unfolding open_loop open_event
  open_loop_end c es b w room =
      let d = open_head_waits c b w room in
      rw (d.0, open_loop) (refl, bin.chunk-advance_mut _ [] ∙ append-nil _ ∙ d.1)
