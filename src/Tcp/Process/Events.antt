-- ===== src/Tcp/Process/Events.antt =====
-- An open TCP connection gives its messages in order, however the stream is cut into reads.
use hcnet.Base.{
  ℕ, zero, suc, ◌^◌, ◌≤◌, ◌<◌, ◌≡◌, ◌≢◌, refl, sym, ap, ◌∙◌, false, List, [], ◌∷◌, ◌++◌, map,
  Option, none, some, length, leb, ◌==◌, All, All-append, All-append_left, concat, append-Cuts,
  append-nil, append_assoc, arith, inl, inr, length-append, lt→leb_false,
}
use hcnet.Message.{Message}
use hcnet.Error.{NetResult, ok}
use hcnet.Settings.{Settings}
use hcnet.Buffer.{BinaryMut}
use hcnet.Net.{NetApi}
use hcnet.Stream.{MaybeTlsStream}
use hcnet.OnlineCount.{Counters}
use hcnet.Codec.{decode_message}
use hcnet.Codec.Frame.{IsByte, wire}
use hcnet.Codec.Refine.{decode_message-Agrees}
use hcnet.Codec.Frame
use hcnet.Codec.RoundTrip.{IsFrameable, frame_size, received, wire-IsByte, parse-wire}
use hcnet.Codec.Incremental.{decode_message_cut}
use hcnet.Tcp
use hcnet.Tcp.{TcpConn, TcpState, opened, stream}
use hcnet.Tcp.Process.Open.{process_open}
use hcnet.Tcp.Process.{
  Event, TcpReceiver, Answer, Polled, open_head, open_event, open_loop, process,
}

-- A message that a connection with these settings can take.
pub record Fits (s : Settings) (m : Message) : Type 0 where
  pub frameable : IsFrameable m
  pub three_bytes : frame_size m < 2 ^ 24
  pub allowed : frame_size m ≤ s.onemsg_max_size
  pub buffered : frame_size m ≤ s.in_buffer_max

module _ {E : Type 0} (net : NetApi E) (bin : BinaryMut) where
  open bin use {chunk, len}

  abbrev pub reads : List (List ℕ) → List (Event net bin)
  reads = map Event.read

  -- The message is at the front of the buffer.
  pub open_head_whole :
      (c : TcpConn net bin) (m : Message) (rest : List ℕ)
      → c.settings.is_raw ≡ false
      → Fits c.settings m
      → All IsByte rest
      → chunk c.read ≡ wire false m ++ rest
      → ((open_head net bin c).0 ≡ some (ok (TcpReceiver.read (received m))))
        × (chunk (open_head net bin c).1.read ≡ rest)
  unfolding open_head
  open_head_whole c m rest framed_mode f hr e =
      let bytes : All IsByte (chunk c.read) =
        rw e (All-append IsByte _ rest (wire-IsByte m f.frameable) hr) in
      let d = decode_message-Agrees bin {E = E} c.read c.settings bytes in
      let p =
        ap (Frame.parse {E = E} c.settings) e
        ∙ parse-wire {E = E} c.settings m rest f.frameable framed_mode f.three_bytes f.allowed in
      (rw (d.0, p) refl, d.1 ∙ ap (λ (r : NetResult E (Option Message) × List ℕ). r.1) p)

  -- Only a part of it is.
  pub open_head_part :
      (c : TcpConn net bin) (m : Message) (x : ℕ) (back : List ℕ)
      → c.settings.is_raw ≡ false
      → Fits c.settings m
      → wire false m ≡ chunk c.read ++ x ∷ back
      → ((open_head net bin c).0 ≡ none) × (chunk (open_head net bin c).1.read ≡ chunk c.read)
  unfolding open_head
  open_head_part c m x back framed_mode f e =
      let bytes : All IsByte (chunk c.read) =
        All-append_left IsByte (chunk c.read) (x ∷ back) (rw e at (wire-IsByte m f.frameable)) in
      let d =
        decode_message_cut bin E c.read m c.settings x back bytes f.frameable framed_mode
          f.three_bytes f.allowed e in
      let small : leb c.settings.in_buffer_max
            (len (decode_message bin {E = E} c.read c.settings).1)
          ≡ false =
        rw (bin.len-chunk _, d.1)
          (lt→leb_false _ _
            (omega (arith, f.buffered, ap length e, length-append (chunk c.read) (x ∷ back)))) in
      (rw (d.0, small) refl, d.1)

  -- An answer that is this message, and what it leaves: reads with, behind the unread bytes, `rest`.
  pub record Delivers (t : Tcp.Tcp net bin) (s : Settings) (m : Message) (rest : List ℕ)
      (p : Polled net bin) : Type 0 where
    pub left : List (List ℕ)
    pub answer : p.0 ≡ some (ok (TcpReceiver.read (received m)))
    pub events : p.2 ≡ reads left
    pub non_empty : All (λ xs. xs ≢ []) left
    pub unread : chunk p.1.read ++ concat left ≡ rest
    pub same_settings : p.1.settings ≡ s
    pub same_state : p.1.state ≡ opened
    pub same_tcp : p.1.tcp ≡ t

  length-ne-zero : (xs : List ℕ) → xs ≢ [] → (length xs == 0) ≡ false
  length-ne-zero [] h = absurd (h refl)
  length-ne-zero (x ∷ xs) h = ground arith

  pub open_loop_answer :
      (c : TcpConn net bin) (e : Event net bin) (es : List (Event net bin))
      (r : NetResult E (TcpReceiver net bin))
      → (open_head net bin c).0 ≡ some r
      → open_loop net bin c (e ∷ es) ≡ (some r, (open_head net bin c).1, e ∷ es)
  unfolding open_loop
  open_loop_answer c e es r h = rw (h, open_loop)

  pub open_loop_read :
      (c : TcpConn net bin) (xs : List ℕ) (es : List (Event net bin))
      → (open_head net bin c).0 ≡ none
      → xs ≢ []
      → open_loop net bin c (Event.read xs ∷ es)
        ≡ open_loop net bin
            (record (open_head net bin c).1 {
              read = bin.advance_mut (open_head net bin c).1.read xs;
            })
            es
  unfolding open_loop open_event
  open_loop_read c xs es h k = rw (h, open_loop, length-ne-zero xs k)

  pub deliver :
      (chunks : List (List ℕ)) (c : TcpConn net bin) (m : Message) (rest : List ℕ)
      → c.state ≡ opened
      → c.settings.is_raw ≡ false
      → Fits c.settings m
      → All IsByte rest
      → All (λ xs. xs ≢ []) chunks
      → chunk c.read ++ concat chunks ≡ wire false m ++ rest
      → Delivers c.tcp c.settings m rest (open_loop net bin c (reads chunks))
  unfolding open_head
  deliver [] c m rest is_open framed_mode f hr hc e =
      unfold open_loop in
      let w = open_head_whole c m rest framed_mode f hr (sym (append-nil _) ∙ e) in
      record {
        left = [];
        answer = w.0;
        events = refl;
        non_empty = tt;
        unread = append-nil _ ∙ w.1;
        same_settings = refl;
        same_state = is_open;
        same_tcp = refl;
      }
  deliver (xs ∷ chunks) c m rest is_open framed_mode f hr hc e =
      elim (append-Cuts (chunk c.read) (xs ++ concat chunks) (wire false m) rest e) [
        | inl (t, p, q) ↦
            let ht = All-append_left IsByte t (xs ++ concat chunks) (rw q at hr) in
            let w = open_head_whole c m t framed_mode f ht p in
            rw (open_loop_answer c (Event.read xs) (reads chunks) _ w.0) (record {
              left = xs ∷ chunks;
              answer = refl;
              events = refl;
              non_empty = hc;
              unread = rw (w.1) (sym q);
              same_settings = refl;
              same_state = is_open;
              same_tcp = refl;
            })
        | inr (x, t, p, q) ↦
            let w = open_head_part c m x t framed_mode f p in
            rw (open_loop_read c xs (reads chunks) w.0 hc.0) (
              deliver chunks
                (record (open_head net bin c).1 {
                  read = bin.advance_mut (open_head net bin c).1.read xs;
                })
                m rest is_open framed_mode f hr hc.1
                (rw (bin.chunk-advance_mut, w.1, append_assoc) e))
      ]

  -- The answers of that many calls of `process`, one after the other.
  pub answers : ℕ → TcpConn net bin → Counters → List (Event net bin) → List (Answer net bin)
  answers zero c st es = []
  answers (suc n) c st es =
      let ((r, c', es'), st') = process net bin c st es in r ∷ answers n c' st' es'

  abbrev pub frames : List Message → List ℕ
  frames [] = []
  frames (m ∷ ms) = wire false m ++ frames ms

  pub frames-IsByte : (s : Settings) (ms : List Message) → All (Fits s) ms → All IsByte (frames ms)
  frames-IsByte s [] h = tt
  frames-IsByte s (m ∷ ms) h =
      All-append IsByte _ _ (wire-IsByte m h.0.frameable) (frames-IsByte s ms h.1)

  -- If the unread bytes of an open framed stream and those of the reads to come, cut anywhere into
  -- non-empty pieces, are the frames of messages that fit the settings, then the calls of `process`
  -- answer with these messages, each once and in order, a close code in its canonical spelling.
  pub process_in_order :
      (ms : List Message) (c : TcpConn net bin) (st : Counters) (chunks : List (List ℕ))
      (s : MaybeTlsStream net)
      → c.tcp ≡ stream s
      → c.state ≡ opened
      → c.settings.is_raw ≡ false
      → All (Fits c.settings) ms
      → All (λ xs. xs ≢ []) chunks
      → chunk c.read ++ concat chunks ≡ frames ms
      → answers (length ms) c st (reads chunks)
        ≡ map (λ m. some (ok (TcpReceiver.read (received m)))) ms
  unfolding answers
  process_in_order [] c st chunks s t o framed_mode f hc e = refl
  process_in_order (m ∷ ms) c st chunks s t o framed_mode f hc e =
      let d =
        deliver chunks c m (frames ms) o framed_mode f.0 (frames-IsByte c.settings ms f.1) hc e in
      let next =
        process_in_order ms (open_loop net bin c (reads chunks)).1 st d.left s (d.same_tcp ∙ t)
          d.same_state (rw (d.same_settings) framed_mode) (rw (d.same_settings) f.1) d.non_empty
          d.unread in
      rw (process_open net bin c st (reads chunks) s t o, d.events) (λ i. d.answer i ∷ next i)
