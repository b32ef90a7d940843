-- ===== src/Codec.antt =====
-- src/encode.rs, src/decode.rs and the u24 helpers of src/lib.rs: the frames of the TCP and KCP
-- connections, over any `BinaryMut`. A function returns its result and the buffer that it leaves.
pub mod Frame
pub mod Refine
pub mod Parse
pub mod RoundTrip
pub mod Incremental
use hcnet.Base.{
  ℕ, ◌+◌, ◌-◌, ◌*◌, ◌/◌, ◌%◌, ◌^◌, Bool, true, false, List, [], ◌∷◌, Option, none, some, length,
  ltb, ◌==◌, if◌then◌else◌, bit_or, from_utf8,
}
use hcnet.Protocol
use hcnet.Message.{Message, OpCode, into_u8, from_u8}
use hcnet.Error.{NetError, NetResult, ok, err, too_short, over_msg_size, bad_text, bad_code}
use hcnet.Settings.{Settings}
use hcnet.Buffer.{BinaryMut}

-- `(val[0] as u16).wrapping_shl(8) + val[1] as u16`, and the reason behind it.
close_body : {E : Type 0} → List ℕ → NetResult E (Option Message)
close_body (hi ∷ lo ∷ reason) = elim (from_utf8 reason) [
  | some v ↦ ok (some (Message.close (Protocol.from_u16 (hi * 256 % 2 ^ 16 + lo)) v))
  | none ↦ err bad_text
]
close_body _ = err too_short

-- The match on the op code at the end of `decode_message`.
unfoldable pub message_of : {E : Type 0} → OpCode → List ℕ → NetResult E (Option Message)
unfolding close_body
message_of OpCode.text val = elim (from_utf8 val) [
  | some v ↦ ok (some (Message.text v))
  | none ↦ err bad_text
]
message_of OpCode.binary val = ok (some (Message.binary val))
message_of OpCode.close val = close_body val
message_of OpCode.ping val = ok (some (Message.ping val))
message_of OpCode.pong val = ok (some (Message.pong val))
message_of OpCode.bad val = err bad_code
message_of OpCode.shutdown val = err bad_code

module _ (bin : BinaryMut) where
  open bin use {
    Buf, put_u8, put_u16, put_slice, len, remaining, chunk, get_u8, copy_to_slice, advance_all,
    mark, rewind_mark,
  }

  unfoldable pub read_u24 : Buf → ℕ × Buf
  read_u24 buf =
      if ltb (remaining buf) 3
      then (0, buf)
      else (let (a, b₁) = get_u8 buf in
          let (b, b₂) = get_u8 b₁ in
          let (c, b₃) = get_u8 b₂ in (bit_or (bit_or (a * 2 ^ 16) (b * 2 ^ 8)) c, b₃))

  pub encode_u24 : Buf → ℕ → Buf
  encode_u24 buf val =
      put_u8 (put_u8 (put_u8 buf (val / 2 ^ 16 % 2 ^ 8)) (val / 2 ^ 8 % 2 ^ 8)) (val % 2 ^ 8)

  -- A length header that counts `extra` bytes besides the body, and the op code.
  header : Buf → List ℕ → ℕ → OpCode → Buf
  unfolding encode_u24
  header buf body extra op = put_u8 (encode_u24 buf ((length body + extra) % 2 ^ 32)) (into_u8 op)

  put_message : Buf → Message → Bool → Buf
  unfolding header
  put_message buf (Message.text text) true = put_slice buf text
  put_message buf (Message.text text) false = put_slice (header buf text 4 OpCode.text) text
  put_message buf (Message.binary body) true = put_slice buf body
  put_message buf (Message.binary body) false = put_slice (header buf body 4 OpCode.binary) body
  put_message buf (Message.close code reason) true = buf
  put_message buf (Message.close code reason) false =
      put_slice (put_u16 (header buf reason 6 OpCode.close) (Protocol.to_u16 code)) reason
  put_message buf (Message.ping body) true = buf
  put_message buf (Message.ping body) false = put_slice (header buf body 4 OpCode.ping) body
  put_message buf (Message.pong body) true = buf
  put_message buf (Message.pong body) false = put_slice (header buf body 4 OpCode.pong) body
  put_message buf Message.shutdown _ = buf
  put_message buf Message.unvaid _ = buf

  module _ {E : Type 0} where
    unfoldable pub encode_message : Buf → Message → Bool → NetResult E (Unit {0}) × Buf
    unfolding put_message
    encode_message buf msg is_raw = (ok tt, put_message buf msg is_raw)

    decode_raw : Buf → NetResult E (Option Message) × Buf
    decode_raw buf =
        if len buf == 0
        then (ok none, buf)
        else (ok (some (Message.binary (chunk buf))), advance_all buf)

    decode_body : Buf → ℕ → NetResult E (Option Message) × Buf
    decode_body buf length =
        let (op, b₁) = get_u8 buf in
        let (val, b₂) = copy_to_slice b₁ (length - 4) in (message_of (from_u8 op) val, b₂)

    decode_length : Buf → ℕ → Settings → NetResult E (Option Message) × Buf
    unfolding decode_body
    decode_length buf length settings =
        if ltb length 4
        then (err too_short, buf)
        else if ltb settings.onemsg_max_size length
        then (err over_msg_size, buf)
        else if ltb (len buf + 3) length
        then (ok none, rewind_mark buf)
        else decode_body buf length

    decode_framed : Buf → Settings → NetResult E (Option Message) × Buf
    unfolding decode_length
    decode_framed buf settings =
        if ltb (len buf) 4
        then (ok none, buf)
        else (let (length, b₁) = read_u24 (mark buf) in decode_length b₁ length settings)

    unfoldable pub decode_message : Buf → Settings → NetResult E (Option Message) × Buf
    unfolding decode_raw decode_framed
    decode_message buf settings =
        if settings.is_raw then decode_raw buf else decode_framed buf settings
