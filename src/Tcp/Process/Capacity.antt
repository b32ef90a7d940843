-- ===== src/Tcp/Process/Capacity.antt =====
-- The limit on the read buffer of a TCP connection.
use hcnet.Base.{
  ℕ, refl, ◌-◌, ◌*◌, ◌+◌, ◌≤◌, ◌<◌, ◌≡◌, ◌≢◌, sym, ◌∙◌, Bool, true, false, List, [], ◌∷◌, Option,
  none, some, take, leb, All, All-append, arith, inl, inr, Bool-cases, Option-cases, lt→leb_false,
}
use hcnet.Message.{Message, OpCode, from_u8}
use hcnet.Error.{NetResult, ok, err, over_inbuffer_size}
use hcnet.Settings.{Settings}
use hcnet.Buffer.{BinaryMut}
use hcnet.Net.{NetApi}
use hcnet.Stream.{MaybeTlsStream}
use hcnet.OnlineCount.{Counters}
use hcnet.Codec.{message_of, decode_message}
use hcnet.Codec.Frame.{IsByte, parse, parse_raw, parse_framed}
use hcnet.Codec.Refine.{decode_message-Agrees}
use hcnet.Codec.Incremental.{decode_message_waits}
use hcnet.Tcp.{TcpConn, opened, stream}
use hcnet.Tcp.Process.Open.{process_open}
use hcnet.Tcp.Process.{
  Event, read, wrote, write_failed, Answer, head_answer, open_head, open_event, open_loop, written,
  process,
}

module _ {E : Type 0} where
  message_of-ne-over :
      (op : OpCode) (val : List ℕ) → message_of {E = E} op val ≢ err over_inbuffer_size
  unfolding message_of
  message_of-ne-over OpCode.text val e = ground arith
  message_of-ne-over OpCode.binary val e = cc
  message_of-ne-over OpCode.close [] e = cc
  message_of-ne-over OpCode.close (x ∷ []) e = cc
  message_of-ne-over OpCode.close (x ∷ y ∷ val) e = ground arith
  message_of-ne-over OpCode.ping val e = cc
  message_of-ne-over OpCode.pong val e = cc
  message_of-ne-over OpCode.shutdown val e = cc
  message_of-ne-over OpCode.bad val e = cc

  parse_framed-ne-over :
      (s : Settings) (bs : List ℕ) → (parse_framed {E = E} s bs).0 ≢ err over_inbuffer_size
  parse_framed-ne-over s [] e = cc
  parse_framed-ne-over s (x ∷ []) e = cc
  parse_framed-ne-over s (x ∷ y ∷ []) e = cc
  parse_framed-ne-over s (x ∷ y ∷ z ∷ []) e = cc
  parse_framed-ne-over s (x ∷ y ∷ z ∷ op ∷ rest) e =
      ground (arith, message_of-ne-over (from_u8 op) (take (x * 65536 + y * 256 + z - 4) rest))

  parse_raw-ne-over : (bs : List ℕ) → (parse_raw {E = E} bs).0 ≢ err over_inbuffer_size
  parse_raw-ne-over [] e = cc
  parse_raw-ne-over (b ∷ bs) e = cc

  parse-ne-over : (s : Settings) (bs : List ℕ) → (parse {E = E} s bs).0 ≢ err over_inbuffer_size
  parse-ne-over s bs = elim (Bool-cases s.is_raw) [
    | inl raw ↦ rw raw (parse_raw-ne-over bs)
    | inr framed_mode ↦ rw framed_mode (parse_framed-ne-over s bs)
  ]

-- The buffer takes any message that the connection takes, and a header.
pub record HasRoom (s : Settings) : Type 0 where
  pub head : 4 ≤ s.in_buffer_max
  pub body : s.onemsg_max_size ≤ s.in_buffer_max

module _ {E : Type 0} (net : NetApi E) (bin : BinaryMut) where
  open bin use {chunk, len}

  -- What is read is bytes.
  abbrev pub ReadsBytes : Event net bin → Type 0
  ReadsBytes (read xs) = All IsByte xs
  ReadsBytes _ = Unit {0}

  abbrev IsWithin : Answer net bin → Type 0
  IsWithin r = r ≢ some (err over_inbuffer_size)

  head_answer-IsWithin :
      (r : NetResult E (Option Message)) (full : Bool)
      → r ≢ err over_inbuffer_size
      → (r ≡ ok none → full ≡ false)
      → IsWithin (head_answer net bin r full)
  unfolding head_answer
  head_answer-IsWithin (err e) full h k p = h (cc)
  head_answer-IsWithin (ok (some v)) full h k p = cc
  head_answer-IsWithin (ok none) true h k p = cc (k refl)
  head_answer-IsWithin (ok none) false h k p = cc

  head_answer-none :
      (r : NetResult E (Option Message)) (full : Bool)
      → head_answer net bin r full ≡ none
      → r ≡ ok none
  unfolding head_answer
  head_answer-none (err e) full h = cc
  head_answer-none (ok (some v)) full h = cc
  head_answer-none (ok none) true h = cc
  head_answer-none (ok none) false h = refl

  -- What the loop keeps: the settings, and that the unread bytes are bytes.
  abbrev Keeps : Settings → TcpConn net bin → Type 0
  Keeps s c = (c.settings ≡ s) × All IsByte (chunk c.read)

  decode-ne-over :
      (c : TcpConn net bin)
      → All IsByte (chunk c.read)
      → (decode_message bin {E = E} c.read c.settings).0 ≢ err over_inbuffer_size
  decode-ne-over c h e =
      parse-ne-over {E = E} c.settings (chunk c.read)
        (sym (decode_message-Agrees bin {E = E} c.read c.settings h).0 ∙ e)

  -- A wait leaves less in the buffer than it may hold.
  waits_below :
      (s : Settings) (c : TcpConn net bin)
      → HasRoom s
      → Keeps s c
      → (decode_message bin {E = E} c.read c.settings).0 ≡ ok none
      → leb c.settings.in_buffer_max (len (decode_message bin {E = E} c.read c.settings).1) ≡ false
  waits_below s c room (e, h) w =
      let d = decode_message_waits bin E c.read c.settings h w in
      let below : len c.read < c.settings.in_buffer_max = rw e (elim (rw e at d.1) [
        | inl small ↦ omega (arith, room.head)
        | inr small ↦ omega (arith, room.body)
      ]) in
      lt→leb_false _ _ (rw (bin.len-chunk _, d.0) (rw (bin.len-chunk c.read) at below))

  open_head-IsWithin :
      (s : Settings) (c : TcpConn net bin)
      → HasRoom s
      → Keeps s c
      → IsWithin (open_head net bin c).0
  unfolding open_head
  open_head-IsWithin s c room k =
      head_answer-IsWithin _ _ (decode-ne-over c k.1) (waits_below s c room k)

  open_head-Keeps :
      (s : Settings) (c : TcpConn net bin)
      → Keeps s c
      → (open_head net bin c).0 ≡ none
      → Keeps s (open_head net bin c).1
  unfolding open_head
  open_head-Keeps s c (e, h) w =
      let d = decode_message_waits bin E c.read c.settings h (head_answer-none _ _ w) in
      (e, rw (d.0) h)

  open_event-IsWithin :
      (c : TcpConn net bin) (e : Event net bin) → IsWithin (open_event net bin c e).0
  unfolding open_event
  open_event-IsWithin c e = ground arith

  open_event-Keeps :
      (s : Settings) (c : TcpConn net bin) (e : Event net bin)
      → ReadsBytes e
      → Keeps s c
      → Keeps s (open_event net bin c e).1
  unfolding open_event written
  open_event-Keeps s c (read xs) b (e, h) =
      (e, rw (bin.chunk-advance_mut) (All-append IsByte _ xs h b))
  open_event-Keeps s c (wrote n) b k = elim (Bool-cases (bin.has_remaining c.write)) [
    | inl busy ↦ rw busy k
    | inr idle ↦ rw idle k
  ]
  open_event-Keeps s c (write_failed e) b k = elim (Bool-cases (bin.has_remaining c.write)) [
    | inl busy ↦ rw busy k
    | inr idle ↦ rw idle k
  ]
  open_event-Keeps s c _ b k = k

  open_loop-IsWithin :
      (s : Settings) (es : List (Event net bin)) (c : TcpConn net bin)
      → HasRoom s
      → All ReadsBytes es
      → Keeps s c
      → IsWithin (open_loop net bin c es).0
  unfolding open_loop
  open_loop-IsWithin s [] c room b k = open_head-IsWithin s c room k
  open_loop-IsWithin s (e ∷ es) c room b k = elim (Option-cases (open_head net bin c).0) [
    | inr (r, p) ↦ rw (p, open_loop) (rw p at (open_head-IsWithin s c room k))
    | inl p ↦
        let c₁ : TcpConn net bin = (open_head net bin c).1 in
        elim (Option-cases (open_event net bin c₁ e).0) [
          | inr (r, q) ↦ rw (p, q, open_loop) (rw q at (open_event-IsWithin c₁ e))
          | inl q ↦
              rw (p, q, open_loop)
                (open_loop-IsWithin s es _ room b.1
                  (open_event-Keeps s c₁ e b.0 (open_head-Keeps s c k p)))
        ]
  ]

  -- On an open stream whose read buffer may hold a message of the largest size and a header, framed or
  -- raw, no call of `process` ends with `OverInbufferSize`, whatever bytes the peer sends.
  pub process_within :
      (c : TcpConn net bin) (st : Counters) (es : List (Event net bin)) (s : MaybeTlsStream net)
      → c.tcp ≡ stream s
      → c.state ≡ opened
      → HasRoom c.settings
      → All IsByte (chunk c.read)
      → All ReadsBytes es
      → (process net bin c st es).0.0 ≢ some (err over_inbuffer_size)
  process_within c st es s t o room h b =
      rw (process_open net bin c st es s t o) (open_loop-IsWithin c.settings es c room b (refl, h))
