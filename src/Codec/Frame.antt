-- ===== src/Codec/Frame.antt =====
-- The wire format as functions on byte lists, which the buffer code is held against.
use hcnet.Base.{
  ℕ, ◌+◌, ◌-◌, ◌*◌, ◌/◌, ◌%◌, ◌^◌, ◌<◌, Bool, true, false, List, [], ◌∷◌, ◌++◌, Option, none, some,
  length, take, drop, ltb, if◌then◌else◌,
}
use hcnet.Protocol
use hcnet.Message.{Message, OpCode, into_u8, from_u8}
use hcnet.Error.{NetResult, ok, err, too_short, over_msg_size}
use hcnet.Settings.{Settings}
use hcnet.Codec.{message_of}

abbrev pub IsByte : ℕ → Type 0
IsByte b = b < 256

-- A number below 2 ^ 24 in three bytes, the highest first; of a larger one the lowest 24 bits.
abbrev pub u24 : ℕ → List ℕ
u24 n = (n / 65536 % 256) ∷ (n / 256 % 256) ∷ (n % 256) ∷ []

abbrev pub u16 : ℕ → List ℕ
u16 n = (n / 256) ∷ (n % 256) ∷ []

-- A body behind its op code, and behind the length of the whole.
abbrev pub framed : OpCode → List ℕ → List ℕ
framed op body = u24 ((length body + 4) % 2 ^ 32) ++ into_u8 op ∷ body

-- The op code and the body of a message; `none` for what has no frame.
abbrev pub body_of : Message → Option (OpCode × List ℕ)
body_of (Message.text t) = some (OpCode.text, t)
body_of (Message.binary v) = some (OpCode.binary, v)
body_of (Message.close code r) = some (OpCode.close, u16 (Protocol.to_u16 code) ++ r)
body_of (Message.ping v) = some (OpCode.ping, v)
body_of (Message.pong v) = some (OpCode.pong, v)
body_of Message.shutdown = none
body_of Message.unvaid = none

abbrev frame_or_nothing : Option (OpCode × List ℕ) → List ℕ
frame_or_nothing none = []
frame_or_nothing (some (op, body)) = framed op body

-- Raw connections send texts and binaries as they are, and nothing else.
abbrev raw_wire : Message → List ℕ
raw_wire (Message.text t) = t
raw_wire (Message.binary v) = v
raw_wire _ = []

abbrev pub wire : Bool → Message → List ℕ
wire true m = raw_wire m
wire false m = frame_or_nothing (body_of m)

-- One frame off the front of a byte list, with what is left.
module _ {E : Type 0} where
  abbrev pub parse_length :
      Settings → ℕ → ℕ → List ℕ → List ℕ → NetResult E (Option Message) × List ℕ
  parse_length settings n op rest bs =
      if ltb n 4
      then (err too_short, op ∷ rest)
      else if ltb settings.onemsg_max_size n
      then (err over_msg_size, op ∷ rest)
      else if ltb (length rest + 4) n
      then (ok none, bs)
      else (message_of (from_u8 op) (take (n - 4) rest), drop (n - 4) rest)

  abbrev pub parse_framed : Settings → List ℕ → NetResult E (Option Message) × List ℕ
  parse_framed settings (x ∷ y ∷ z ∷ op ∷ rest) =
      parse_length settings (x * 65536 + y * 256 + z) op rest (x ∷ y ∷ z ∷ op ∷ rest)
  parse_framed settings bs = (ok none, bs)

  abbrev pub parse_raw : List ℕ → NetResult E (Option Message) × List ℕ
  parse_raw [] = (ok none, [])
  parse_raw (b ∷ bs) = (ok (some (Message.binary (b ∷ bs))), [])

  abbrev pub parse : Settings → List ℕ → NetResult E (Option Message) × List ℕ
  parse settings bs = if settings.is_raw then parse_raw bs else parse_framed settings bs
