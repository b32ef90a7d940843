-- ===== src/Handler.antt =====
-- src/handler.rs: the callbacks of a connection, as functions on the handler's state, and the
-- defaults of the trait. `on_request` and `on_response` are those of the websocket.
use hcnet.Base.{ℕ, List, Option, some}
use hcnet.Protocol.{CloseCode}
use hcnet.Message.{Message}
use hcnet.Error.{NetResult, ok}

-- `on_logic` is what a call of it that completes does; it may stay pending for ever.
pub record Handler (E : Type 0) (Conn : Type 0) : Type 1 where
  pub State : Type 0
  pub on_accept : State → Conn → NetResult E (Unit {0}) × State
  pub on_open : State → NetResult E (Unit {0}) × State
  pub on_close : State → CloseCode → List ℕ → State
  pub on_ping : State → List ℕ → NetResult E (Option (List ℕ)) × State
  pub on_pong : State → List ℕ → NetResult E (Unit {0}) × State
  pub on_message : State → Message → NetResult E (Unit {0}) × State
  pub on_logic : State → NetResult E (Unit {0}) × State

-- The methods that a handler need not give. (The default `on_accept` panics, and the default
-- `on_logic` never completes.)
module _ {E : Type 0} {State : Type 0} where
  pub default_on_open : State → NetResult E (Unit {0}) × State
  default_on_open h = (ok tt, h)

  pub default_on_ping : State → List ℕ → NetResult E (Option (List ℕ)) × State
  default_on_ping h bytes = (ok (some bytes), h)

  pub default_on_pong : State → List ℕ → NetResult E (Unit {0}) × State
  default_on_pong h bytes = (ok tt, h)

  pub default_on_message : State → Message → NetResult E (Unit {0}) × State
  default_on_message h msg = (ok tt, h)
