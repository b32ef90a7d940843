-- ===== src/Message.antt =====
-- src/message.rs: messages, their op codes, and the conversion from and to webparse's messages.
pub mod Ops
pub mod Owned
use hcnet.Base.{ℕ, Bool, true, false, List, [], Option, none, some, ◌≡◌, ◌==◌, if◌then◌else◌, codes}
use hcnet.Protocol.{CloseCode, normal, to_u16, from_u16}

pub data OpCode : Type 0 where
  text binary close ping pong shutdown bad : OpCode

-- Byte strings stand for `String` (UTF-8) and `Vec<u8>`.
pub data Message : Type 0 where
  text : List ℕ → Message
  binary : List ℕ → Message
  close : CloseCode → List ℕ → Message
  ping : List ℕ → Message
  pong : List ℕ → Message
  shutdown unvaid : Message

pub is_control : OpCode → Bool
is_control OpCode.text = false
is_control OpCode.binary = false
is_control _ = true

-- `as u8`: the discriminants.
pub discriminant : OpCode → ℕ
discriminant OpCode.text = 1
discriminant OpCode.binary = 2
discriminant OpCode.close = 8
discriminant OpCode.ping = 9
discriminant OpCode.pong = 10
discriminant OpCode.shutdown = 11
discriminant OpCode.bad = 255

-- `Into<u8>`, in a build without debug assertions.
unfoldable pub into_u8 : OpCode → ℕ
into_u8 OpCode.text = 1
into_u8 OpCode.binary = 2
into_u8 OpCode.close = 8
into_u8 OpCode.ping = 9
into_u8 OpCode.pong = 10
into_u8 OpCode.shutdown = 10
into_u8 OpCode.bad = 8

unfoldable pub from_u8 : ℕ → OpCode
from_u8 byte =
    if byte == 1
    then OpCode.text
    else if byte == 2
    then OpCode.binary
    else if byte == 8
    then OpCode.close
    else if byte == 9
    then OpCode.ping
    else if byte == 10
    then OpCode.pong
    else OpCode.bad

pub op_code : Message → OpCode
op_code (Message.text _) = OpCode.text
op_code (Message.binary _) = OpCode.binary
op_code (Message.close _ _) = OpCode.close
op_code (Message.ping _) = OpCode.ping
op_code (Message.pong _) = OpCode.pong
op_code Message.shutdown = OpCode.shutdown
op_code Message.unvaid = OpCode.bad

pub get_type : Message → ℕ
unfolding discriminant
get_type (Message.text _) = discriminant OpCode.text
get_type (Message.binary _) = discriminant OpCode.binary
get_type (Message.close _ _) = discriminant OpCode.close
get_type (Message.ping _) = discriminant OpCode.ping
get_type (Message.pong _) = discriminant OpCode.pong
get_type Message.shutdown = discriminant OpCode.shutdown
get_type Message.unvaid = discriminant OpCode.bad

-- webparse's `CloseData`, which the code builds from a close code and reads as a u16 and a text.
pub record CloseDataApi : Type 1 where
  pub CloseData : Type 0
  pub new : CloseCode → List ℕ → CloseData
  pub status_code : CloseData → ℕ
  pub reason : CloseData → List ℕ
  pub status_code-new : (c : CloseCode) (r : List ℕ) → status_code (new c r) ≡ to_u16 c
  pub reason-new : (c : CloseCode) (r : List ℕ) → reason (new c r) ≡ r

-- webparse's `OwnedMessage`, by the cases that the code matches.
pub data OwnedMessage (D : Type 0) : Type 0 where
  text : List ℕ → OwnedMessage D
  binary : List ℕ → OwnedMessage D
  close : Option D → OwnedMessage D
  ping : List ℕ → OwnedMessage D
  pong : List ℕ → OwnedMessage D

module _ (web : CloseDataApi) where
  open web use {CloseData, new, status_code, reason}

  unfoldable pub from_owned : OwnedMessage CloseData → Message
  from_owned (OwnedMessage.text t) = Message.text t
  from_owned (OwnedMessage.binary vec) = Message.binary vec
  from_owned (OwnedMessage.close (some c)) = Message.close (from_u16 (status_code c)) (reason c)
  from_owned (OwnedMessage.close none) = Message.close normal []
  from_owned (OwnedMessage.ping vec) = Message.ping vec
  from_owned (OwnedMessage.pong vec) = Message.pong vec

  unfoldable pub into_owned : Message → OwnedMessage CloseData
  into_owned (Message.text t) = OwnedMessage.text t
  into_owned (Message.binary vec) = OwnedMessage.binary vec
  into_owned (Message.close code r) = OwnedMessage.close (some (new code r))
  into_owned (Message.ping vec) = OwnedMessage.ping vec
  into_owned (Message.pong vec) = OwnedMessage.pong vec
  into_owned _ = OwnedMessage.close none
