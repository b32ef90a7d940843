-- ===== src/Codec/RoundTrip.antt =====
-- Decoding what was encoded: whole frames, frames cut short, and frames too long for their header.
use hcnet.Base.{
  ℕ, ◌+◌, ◌-◌, ◌*◌, ◌/◌, ◌%◌, ◌^◌, ◌≤◌, ◌<◌, ◌≡◌, ◌≢◌, refl, ap, ◌∙◌, true, false, List, [], ◌∷◌,
  ◌++◌, Option, none, some, length, ltb, arith, append-nil, ◌⊎◌, inl, inr, length-append,
  take-append_all, drop-append_all, All, All-append, is_utf8, from_utf8, lt→ltb, le→ltb_false,
}
use hcnet.Protocol
use hcnet.Message.{Message, OpCode, into_u8, from_u8}
use hcnet.Error.{NetResult, ok, err, too_short}
use hcnet.Settings.{Settings}
use hcnet.Buffer.{BinaryMut}
use hcnet.Codec.{message_of, close_body, encode_message, decode_message}
use hcnet.Codec.Frame.{IsByte, u16, framed, wire, parse, parse_framed}
use hcnet.Codec.Parse.{parse_framed-append, parse_framed_waits}
use hcnet.Codec.Refine.{decode_message-Agrees, encode_message-wire}

into_u8-IsByte : (op : OpCode) → IsByte (into_u8 op)
unfolding into_u8
into_u8-IsByte OpCode.text = omega arith
into_u8-IsByte _ = omega arith

-- What the receiver sees: the close code as its number is read back.
abbrev pub received : Message → Message
received (Message.close code r) = Message.close (Protocol.from_u16 (Protocol.to_u16 code)) r
received (Message.text t) = Message.text t
received (Message.binary v) = Message.binary v
received (Message.ping v) = Message.ping v
received (Message.pong v) = Message.pong v
received Message.shutdown = Message.shutdown
received Message.unvaid = Message.unvaid

-- A message that a Rust value can be and that has a frame: texts are UTF-8 and codes are u16.
abbrev pub IsFrameable : Message → Type 0
IsFrameable (Message.text t) = All IsByte t × (is_utf8 t ≡ true)
IsFrameable (Message.binary v) = All IsByte v
IsFrameable (Message.close code r) =
    All IsByte r × (is_utf8 r ≡ true) × (Protocol.to_u16 code < 2 ^ 16)
IsFrameable (Message.ping v) = All IsByte v
IsFrameable (Message.pong v) = All IsByte v
IsFrameable Message.shutdown = ⊥
IsFrameable Message.unvaid = ⊥

-- The bytes of the frame: the body, the op code and the length.
abbrev pub frame_size : Message → ℕ
frame_size m = length (wire false m)

from_utf8_valid : (t : List ℕ) → is_utf8 t ≡ true → from_utf8 t ≡ some t
unfolding from_utf8
from_utf8_valid t h = rw h

module _ {E : Type 0} where
  waits_or_not : (r : NetResult E (Option Message)) → (r ≡ ok none) ⊎ (r ≢ ok none)
  waits_or_not (ok none) = inl refl
  waits_or_not (ok (some m)) = inr (λ e. cc)
  waits_or_not (err e) = inr (λ p. cc)

  -- The header of a frame counts the whole frame, so the frame comes off whole.
  parse_framed_frame :
      (s : Settings) (op : OpCode) (body rest : List ℕ)
      → length body + 4 < 2 ^ 24
      → length body + 4 ≤ s.onemsg_max_size
      → parse_framed {E = E} s (framed op body ++ rest)
        ≡ (message_of (from_u8 (into_u8 op)) body, rest)
  parse_framed_frame s op body rest small fits =
      let n : ℕ = (length body + 4) % 2 ^ 32 in
      let size : n / 65536 % 256 * 65536 + n / 256 % 256 * 256 + n % 256 ≡ length body + 4 =
        omega arith in
      let back : length body + 4 - 4 ≡ length body = omega arith in
      let whole : ltb (length (body ++ rest) + 4) (length body + 4) ≡ false =
        le→ltb_false _ _ (omega (arith, length-append body rest)) in
      rw (
        size,
        le→ltb_false (length body + 4) 4 (omega arith),
        le→ltb_false s.onemsg_max_size (length body + 4) fits,
        whole,
        back,
        take-append_all body rest,
        drop-append_all body rest,
      )

  frame_case :
      (s : Settings) (op : OpCode) (body rest : List ℕ) (m : Message)
      → message_of {E = E} (from_u8 (into_u8 op)) body ≡ ok (some m)
      → s.is_raw ≡ false
      → length (framed op body) < 2 ^ 24
      → length (framed op body) ≤ s.onemsg_max_size
      → parse {E = E} s (framed op body ++ rest) ≡ (ok (some m), rest)
  frame_case s op body rest m e framed_mode small fits = rw framed_mode (
      parse_framed_frame s op body rest (omega arith) (omega arith)
      ∙ ap (λ (r : NetResult E (Option Message)). (r, rest)) e)

  pub parse-wire :
      (s : Settings) (m : Message) (rest : List ℕ)
      → IsFrameable m
      → s.is_raw ≡ false
      → frame_size m < 2 ^ 24
      → frame_size m ≤ s.onemsg_max_size
      → parse {E = E} s (wire false m ++ rest) ≡ (ok (some (received m)), rest)
  unfolding message_of from_u8 into_u8
  parse-wire s (Message.text t) rest h =
      frame_case s OpCode.text t rest _ (rw (from_utf8_valid t h.1, message_of))
  parse-wire s (Message.binary v) rest h = frame_case s OpCode.binary v rest _ refl
  parse-wire s (Message.close code r) rest h =
      let c : ℕ = Protocol.to_u16 code in
      let high : (c / 256 * 256) % 2 ^ 16 + c % 256 ≡ c = omega arith in
      frame_case s OpCode.close (u16 c ++ r) rest _
        (rw (from_utf8_valid r h.1, high, message_of, close_body))
  parse-wire s (Message.ping v) rest h = frame_case s OpCode.ping v rest _ refl
  parse-wire s (Message.pong v) rest h = frame_case s OpCode.pong v rest _ refl
  parse-wire s Message.shutdown rest h = absurd h
  parse-wire s Message.unvaid rest h = absurd h

  -- A frame of which the last byte, or more, has not arrived.
  pub parse_cut :
      (s : Settings) (m : Message) (front : List ℕ) (x : ℕ) (back : List ℕ)
      → IsFrameable m
      → s.is_raw ≡ false
      → frame_size m < 2 ^ 24
      → frame_size m ≤ s.onemsg_max_size
      → wire false m ≡ front ++ x ∷ back
      → parse {E = E} s front ≡ (ok none, front)
  parse_cut s m front x back h framed_mode small fits e =
      elim (waits_or_not (parse_framed {E = E} s front).0) [
        | inl waits ↦
            let kept = (parse_framed_waits {E = E} s front waits).0 in
            rw framed_mode (λ i. (waits i, kept i))
        | inr done ↦
            let whole : parse {E = E} s (wire false m ++ []) ≡ (ok (some (received m)), []) =
              parse-wire s m [] h framed_mode small fits in
            let cut : parse_framed {E = E} s (front ++ x ∷ back) ≡ (ok (some (received m)), []) =
              rw (append-nil, e, framed_mode) at whole in
            absurd (
              omega (
                arith,
                ap (λ (r : NetResult E (Option Message) × List ℕ). length r.1) cut,
                ap length (parse_framed-append {E = E} s front (x ∷ back) done).1,
                length-append (parse_framed {E = E} s front).1 (x ∷ back),
              ))
      ]

  -- A header is three bytes: of a frame of 2 ^ 24 bytes or more it holds the size modulo 2 ^ 24.
  -- If that is below 4 the receiver gives up on the connection.
  pub parse_too_long :
      (s : Settings) (v rest : List ℕ) (k : ℕ)
      → s.is_raw ≡ false
      → length v + 4 ≡ 2 ^ 24 + k
      → k < 4
      → (parse {E = E} s (wire false (Message.binary v) ++ rest)).0 ≡ err too_short
  parse_too_long s v rest k framed_mode size h =
      let n : ℕ = (length v + 4) % 2 ^ 32 in
      let low : n / 65536 % 256 * 65536 + n / 256 % 256 * 256 + n % 256 ≡ k = omega arith in
      rw (framed_mode, low, lt→ltb k 4 h)

framed-IsByte : (op : OpCode) (body : List ℕ) → All IsByte body → All IsByte (framed op body)
framed-IsByte op body h = (omega arith, (omega arith, (omega arith, (into_u8-IsByte op, h))))

pub wire-IsByte : (m : Message) → IsFrameable m → All IsByte (wire false m)
wire-IsByte (Message.text t) h = framed-IsByte OpCode.text t h.0
wire-IsByte (Message.binary v) h = framed-IsByte OpCode.binary v h
wire-IsByte (Message.close code r) h =
    framed-IsByte OpCode.close (u16 (Protocol.to_u16 code) ++ r) (omega arith, (omega arith, h.0))
wire-IsByte (Message.ping v) h = framed-IsByte OpCode.ping v h
wire-IsByte (Message.pong v) h = framed-IsByte OpCode.pong v h
wire-IsByte Message.shutdown h = absurd h
wire-IsByte Message.unvaid h = absurd h

module _ (bin : BinaryMut) (E : Type 0) where
  open bin use {Buf, chunk, put_slice}

  -- The buffer after a message has been encoded into an empty one and more bytes have come behind.
  abbrev pub sent_then : Buf → Message → List ℕ → Buf
  sent_then b m rest = put_slice (encode_message bin {E = E} b m false).1 rest

  chunk-sent_then :
      (b : Buf) (m : Message) (rest : List ℕ)
      → chunk b ≡ []
      → chunk (sent_then b m rest) ≡ wire false m ++ rest
  chunk-sent_then b m rest e =
      bin.chunk-put_slice _ rest
      ∙ ap (λ (t : List ℕ). t ++ rest)
          ((encode_message-wire bin {E = E} b m false).1 ∙ ap (λ (t : List ℕ). t ++ wire false m) e)

  -- On a framed connection `decode_message` reads back the message that `encode_message` wrote into
  -- an empty buffer, a close code in its canonical spelling, and leaves the bytes that follow, if
  -- the message has a frame, and the frame is shorter than 2 ^ 24 bytes and no longer than
  -- `onemsg_max_size`.
  pub decode_message-encode_message :
      (b : Buf) (m : Message) (s : Settings) (rest : List ℕ)
      → chunk b ≡ []
      → IsFrameable m
      → All IsByte rest
      → s.is_raw ≡ false
      → frame_size m < 2 ^ 24
      → frame_size m ≤ s.onemsg_max_size
      → ((decode_message bin {E = E} (sent_then b m rest) s).0 ≡ ok (some (received m)))
        × (chunk (decode_message bin {E = E} (sent_then b m rest) s).1 ≡ rest)
  decode_message-encode_message b m s rest e h hr framed_mode small fits =
      let sent = chunk-sent_then b m rest e in
      let bytes : All IsByte (chunk (sent_then b m rest)) =
        rw sent (All-append IsByte _ rest (wire-IsByte m h) hr) in
      let d = decode_message-Agrees bin {E = E} (sent_then b m rest) s bytes in
      let p = ap (parse {E = E} s) sent ∙ parse-wire {E = E} s m rest h framed_mode small fits in
      (
        d.0 ∙ ap (λ (r : NetResult E (Option Message) × List ℕ). r.0) p,
        d.1 ∙ ap (λ (r : NetResult E (Option Message) × List ℕ). r.1) p,
      )
