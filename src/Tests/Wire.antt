-- ===== src/Tests/Wire.antt =====
-- The wire format: src/encode.rs, src/decode.rs, src/message.rs and src/protocol.rs.
use hcnet.Base.{
  ℕ, zero, suc, Option, append-nil, ◌≡◌, ◌≢◌, ◌<◌, ◌⊎◌, ◌↔◌, refl, ap, sym, false, List, [], ◌∷◌,
  ◌++◌, some, none, length, arith, codes, All,
}
use hcnet.Protocol.{to_u16, from_u16, other}
use hcnet.Protocol.Codes.{from_u16-to_u16}
use hcnet.Message.{OpCode, Message, CloseDataApi, into_u8, from_u8, from_owned, into_owned}
use hcnet.Message.Ops.{from_u8-into_u8}
use hcnet.Message.Owned.{from_owned-into_owned}
use hcnet.Error.{NetResult, ok, err, too_short}
use hcnet.Settings
use hcnet.Settings.{Settings}
use hcnet.Buffer.{Bytes, bytes}
use hcnet.Codec.{encode_message, decode_message, message_of}
use hcnet.Codec.Frame.{IsByte, wire}
use hcnet.Codec.Refine.{Agrees, decode_message-Agrees, encode_message-wire}
use hcnet.Codec.RoundTrip.{decode_message-encode_message, sent_then, wire-IsByte}
use hcnet.Codec.Incremental.{decode_message_waits, decode_message-append, decode_message_too_long}

abbrev holding : List ℕ → Bytes
holding bs = record { unread = bs; at_mark = [] }

abbrev hello : Message
hello = Message.binary (104 ∷ 105 ∷ [])

-- The frame of `hello`.
abbrev hello_frame : List ℕ
hello_frame = 0 ∷ 0 ∷ 6 ∷ 2 ∷ 104 ∷ 105 ∷ []

encode_hello :
    (encode_message bytes {E = ℕ} (holding (7 ∷ [])) hello false).1.unread ≡ 7 ∷ hello_frame
unfolding into_u8
encode_hello = (encode_message-wire bytes {E = ℕ} (holding (7 ∷ [])) hello false).1

from_u16-to_u16_example : from_u16 (to_u16 (other 4000)) ≡ other 4000
from_u16-to_u16_example = from_u16-to_u16 (other 4000) (λ h. ground arith)

from_u8-into_u8_example :
    (from_u8 (into_u8 OpCode.ping) ≡ OpCode.ping)
    ↔ ((OpCode.ping ≢ OpCode.shutdown) × (OpCode.ping ≢ OpCode.bad))
from_u8-into_u8_example = from_u8-into_u8 OpCode.ping

-- The first five bytes of the frame.
abbrev part : Bytes
part = holding (0 ∷ 0 ∷ 6 ∷ 2 ∷ 104 ∷ [])

hello-wire : wire false hello ≡ part.unread ++ 105 ∷ []
unfolding into_u8
hello-wire = refl

-- Close data as a number and a text.
abbrev pub plain_data : CloseDataApi
plain_data = record {
  CloseData = ℕ × List ℕ;
  new = λ c r. (to_u16 c, r);
  status_code = λ d. d.0;
  reason = λ d. d.1;
  status_code-new = λ c r. refl;
  reason-new = λ c r. refl;
}

from_owned-into_owned_example :
    from_owned plain_data (into_owned plain_data (Message.close (other 1000) (codes "bye")))
    ≡ Message.close (from_u16 (to_u16 (other 1000))) (codes "bye")
from_owned-into_owned_example =
    from_owned-into_owned plain_data (Message.close (other 1000) (codes "bye"))

decode_message-Agrees_example :
    Agrees bytes
      (decode_message bytes {E = ℕ} (holding (hello_frame ++ 9 ∷ [])) Settings.default)
      (ok (some hello), 9 ∷ [])
unfolding message_of from_u8
decode_message-Agrees_example =
    decode_message-Agrees bytes {E = ℕ} (holding (hello_frame ++ 9 ∷ [])) Settings.default
      (omega arith)

encode_message-wire_example :
    ((encode_message bytes {E = ℕ} (holding (7 ∷ [])) hello false).0 ≡ ok tt)
    × ((encode_message bytes {E = ℕ} (holding (7 ∷ [])) hello false).1.unread ≡ 7 ∷ hello_frame)
unfolding into_u8
encode_message-wire_example = encode_message-wire bytes {E = ℕ} (holding (7 ∷ [])) hello false

-- What is read back where `hello` was sent, with one more byte behind.
abbrev read_back : NetResult ℕ (Option Message) × Bytes
read_back = decode_message bytes (sent_then bytes ℕ (holding []) hello (9 ∷ [])) Settings.default

decode_message-encode_message_example :
    (read_back.0 ≡ ok (some hello)) × ((read_back.1).unread ≡ 9 ∷ [])
decode_message-encode_message_example =
    decode_message-encode_message bytes ℕ (holding []) hello Settings.default (9 ∷ []) refl
      (omega arith) (omega arith) refl (omega arith) (omega arith)

abbrev part_read : NetResult ℕ (Option Message) × Bytes
part_read = decode_message bytes part Settings.default

part_waits : part_read.0 ≡ ok none
part_waits = (decode_message-Agrees bytes {E = ℕ} part Settings.default (omega arith)).0

decode_message_waits_example : ((part_read.1).unread ≡ part.unread) × ((5 < 4) ⊎ (5 < 65535))
decode_message_waits_example =
    decode_message_waits bytes ℕ part Settings.default (omega arith) part_waits

abbrev whole_read : List ℕ → NetResult ℕ (Option Message) × Bytes
whole_read more = decode_message bytes (holding (hello_frame ++ more)) Settings.default

whole_answers : (whole_read []).0 ≢ ok none
unfolding message_of from_u8
whole_answers e = cc (
  e,
  (decode_message-Agrees bytes {E = ℕ} (holding hello_frame) Settings.default (omega arith)).0,
)

decode_message-append_example :
    ((whole_read (9 ∷ [])).0 ≡ (whole_read []).0)
    × (((whole_read (9 ∷ [])).1).unread ≡ ((whole_read []).1).unread ++ 9 ∷ [])
decode_message-append_example =
    decode_message-append bytes ℕ (holding hello_frame) (holding (hello_frame ++ 9 ∷ []))
      Settings.default (9 ∷ []) (omega arith) (omega arith) refl refl whole_answers

zeros : ℕ → List ℕ
zeros zero = []
zeros (suc n) = 0 ∷ zeros n

length-zeros : (n : ℕ) → length (zeros n) ≡ n
unfolding zeros
length-zeros zero = refl
length-zeros (suc n) = ap suc (length-zeros n)

zeros-IsByte : (n : ℕ) → All IsByte (zeros n)
unfolding zeros
zeros-IsByte zero = tt
zeros-IsByte (suc n) = (omega arith, zeros-IsByte n)

-- A message of 2 ^ 24 - 2 bytes: its frame is two bytes too long for the header.
abbrev huge : List ℕ
huge = zeros 16777214

abbrev huge_frame : Bytes
huge_frame = holding (wire false (Message.binary huge))

decode_message_too_long_example :
    (decode_message bytes {E = ℕ} huge_frame Settings.default).0 ≡ err too_short
decode_message_too_long_example =
    decode_message_too_long bytes ℕ huge_frame Settings.default huge [] 2
      (wire-IsByte (Message.binary huge) (zeros-IsByte 16777214)) refl
      (omega (arith, length-zeros 16777214)) (omega arith) (sym (append-nil _))
