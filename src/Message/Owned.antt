-- ===== src/Message/Owned.antt =====
-- The conversions of src/message.rs from and to webparse's messages.
use hcnet.Base.{◌≡◌, refl, []}
use hcnet.Protocol.{normal, to_u16, from_u16}
use hcnet.Message.{Message, CloseDataApi, from_owned, into_owned}

-- What a message is after the way through webparse: the close code as its number is read back,
-- and `Shutdown` and `Unvaid` as a close without data, which reads as a normal closure.
abbrev pub through_web : Message → Message
through_web (Message.close code r) = Message.close (from_u16 (to_u16 code)) r
through_web Message.shutdown = Message.close normal []
through_web Message.unvaid = Message.close normal []
through_web (Message.text t) = Message.text t
through_web (Message.binary v) = Message.binary v
through_web (Message.ping v) = Message.ping v
through_web (Message.pong v) = Message.pong v

module _ (web : CloseDataApi) where
  -- A message converted to webparse's and back is the same message up to the spelling of the close
  -- code, and `Shutdown` and `Unvaid` become a normal closure with no reason.
  pub from_owned-into_owned : (m : Message) → from_owned web (into_owned web m) ≡ through_web m
  unfolding from_owned into_owned
  from_owned-into_owned (Message.text t) = refl
  from_owned-into_owned (Message.binary v) = refl
  from_owned-into_owned (Message.close code r) =
      rw (web.status_code-new code r, web.reason-new code r)
  from_owned-into_owned (Message.ping v) = refl
  from_owned-into_owned (Message.pong v) = refl
  from_owned-into_owned Message.shutdown = refl
  from_owned-into_owned Message.unvaid = refl
