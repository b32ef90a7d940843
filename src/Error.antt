-- ===== src/Error.antt =====
-- src/error.rs and src/ws/error.rs: errors, and `NetResult` of src/lib.rs.
use hcnet.Base.{ℕ, List}
use hcnet.Message.{Message}

-- src/sender.rs: what the channel of a connection carries.
pub record Command : Type 0 where
  pub msg : Message

pub data WsError : Type 0 where
  unknow_host bad_status : WsError
  fail_status : ℕ → WsError
  protocol_error : List ℕ → WsError

-- `E` holds the errors that the operating system and other crates report.
pub data NetError (E : Type 0) : Type 0 where
  too_short too_short_length only_tcp bad_code bad_text timeout : NetError E
  read_timeout over_msg_size over_inbuffer_size over_outbuffer_size : NetError E
  send_closed : Command → NetError E
  send_full : Command → NetError E
  extension : List ℕ → NetError E
  ws : WsError → NetError E
  io : E → NetError E
  web : E → NetError E
  kcp : E → NetError E

pub data NetResult (E : Type 0) (A : Type 0) : Type 0 where
  ok : A → NetResult E A
  err : NetError E → NetResult E A

-- `?` and the sequence of fallible steps.
infixl 5 ◌>>=◌ ◌>>◌
abbrev pub ◌>>=◌ : {E A B : Type 0} → NetResult E A → (A → NetResult E B) → NetResult E B
ok a >>= f = f a
err e >>= f = err e

abbrev pub ◌>>◌ : {E B : Type 0} → NetResult E (Unit {0}) → NetResult E B → NetResult E B
m >> k = m >>= λ _. k
