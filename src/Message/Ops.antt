-- ===== src/Message/Ops.antt =====
-- The op codes of src/message.rs on the wire.
use hcnet.Base.{◌≡◌, ◌≢◌, refl, ◌⊎◌, ◌↔◌, inl, inr}
use hcnet.Message.{OpCode, Message, into_u8, from_u8, op_code, get_type}

-- An op code survives the way over the wire exactly when it is neither `Shutdown` nor `Bad`.
pub from_u8-into_u8 :
    (op : OpCode) → (from_u8 (into_u8 op) ≡ op) ↔ ((op ≢ OpCode.shutdown) × (op ≢ OpCode.bad))
unfolding from_u8 into_u8
from_u8-into_u8 OpCode.text = ((λ _. (λ e. cc, λ e. cc)), λ _. refl)
from_u8-into_u8 OpCode.binary = ((λ _. (λ e. cc, λ e. cc)), λ _. refl)
from_u8-into_u8 OpCode.close = ((λ _. (λ e. cc, λ e. cc)), λ _. refl)
from_u8-into_u8 OpCode.ping = ((λ _. (λ e. cc, λ e. cc)), λ _. refl)
from_u8-into_u8 OpCode.pong = ((λ _. (λ e. cc, λ e. cc)), λ _. refl)
from_u8-into_u8 OpCode.shutdown = ((λ e. cc), λ h. absurd (h.0 refl))
from_u8-into_u8 OpCode.bad = ((λ e. cc), λ h. absurd (h.1 refl))

-- The byte that `get_type` reports is the one that `Into<u8>` writes, but for `Shutdown` and `Bad`:
-- these are reported as 11 and 255, and written as 10, the byte of a pong, and 8, that of a close.
pub get_type-into_u8 :
    (m : Message)
    → ((get_type m ≡ into_u8 (op_code m)) × (from_u8 (get_type m) ≡ op_code m))
      ⊎ ((m ≡ Message.shutdown) × (get_type m ≡ 11) × (into_u8 (op_code m) ≡ into_u8 OpCode.pong))
      ⊎ ((m ≡ Message.unvaid) × (get_type m ≡ 255) × (into_u8 (op_code m) ≡ into_u8 OpCode.close))
unfolding get_type op_code into_u8 from_u8
get_type-into_u8 (Message.text _) = inl (refl, refl)
get_type-into_u8 (Message.binary _) = inl (refl, refl)
get_type-into_u8 (Message.close _ _) = inl (refl, refl)
get_type-into_u8 (Message.ping _) = inl (refl, refl)
get_type-into_u8 (Message.pong _) = inl (refl, refl)
get_type-into_u8 Message.shutdown = inr (inl (refl, refl, refl))
get_type-into_u8 Message.unvaid = inr (inr (refl, refl, refl))
