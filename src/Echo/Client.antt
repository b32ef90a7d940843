-- ===== src/Echo/Client.antt =====
-- examples/client_echo.rs: a client that sends what is typed. `trim` and `split_whitespace` of the
-- standard library are parameters.
pub mod Lines
use hcnet.Base.{
  ℕ, ◌-◌, ◌^◌, ◌+◌, ◌*◌, ◌<◌, ◌≤◌, ◌≡◌, refl, Bool, true, false, List, [], ◌∷◌, ◌++◌, Option, some,
  none, map, length, codes, eq_bytes, if◌then◌else◌,
}
use hcnet.Protocol.{CloseCode, away}
use hcnet.Message.{Message}
use hcnet.Error.{NetResult, ok, err, Command}
use hcnet.Handler.{Handler, default_on_open, default_on_ping, default_on_pong, default_on_message}
use hcnet.Sender
use hcnet.Sender.{ChannelApi, NetSender, send_message, close_with_reason}

module _ {E : Type 0} (api : ChannelApi) where
  -- Its handler only prints what comes in. What it does not give is the trait's; of that, `on_accept`
  -- panics and `on_logic` stays pending, so that what they do stands open.
  abbrev pub client_handler :
      {Conn : Type 0}
      → (NetSender api → Conn → NetResult E (Unit {0}) × NetSender api)
      → (NetSender api → NetResult E (Unit {0}) × NetSender api)
      → Handler E Conn
  client_handler on_accept on_logic = record {
    State = NetSender api;
    on_accept = on_accept;
    on_open = default_on_open;
    on_close = λ h code reason. h;
    on_ping = default_on_ping;
    on_pong = default_on_pong;
    on_message = default_on_message;
    on_logic = on_logic;
  }

-- `NetSender::new(usize::MAX, 1)`.
client_sender : (api : ChannelApi) → NetSender api
client_sender api = Sender.new api (2 ^ 64 - 1) 1

-- The second word, or `empty`.
unfoldable argument : List (List ℕ) → List ℕ
argument (w ∷ x ∷ _) = x
argument _ = codes "empty"

-- What one turn of the loop asks for.
pub data Order : Type 0 where
  nothing : Order
  exit : Order
  send : Message → Order

unfoldable order_of : List ℕ → List ℕ → List (List ℕ) → Order
unfolding argument
order_of content w words =
    if eq_bytes w (codes "exit")
    then exit
    else if eq_bytes w (codes "ping")
    then send (Message.ping (argument words))
    else if eq_bytes w (codes "pong")
    then send (Message.pong (argument words))
    else if eq_bytes w (codes "bin")
    then send (Message.binary (argument words))
    else send (Message.text content)

unfoldable pub order : List ℕ → List (List ℕ) → Order
unfolding order_of
order content [] = nothing
order content (w ∷ words) = order_of content w (w ∷ words)

-- The bytes that `read_line` appends, none at the end of the input, or the end of `sender.closed()`.
pub data Turn : Type 0 where
  line : List ℕ → Turn
  closed : Turn

-- How the loop stands: it goes on with this `content`, it is left, or `expect` has panicked.
pub data Now : Type 0 where
  goes : List ℕ → Now
  left : Now
  panicked : Now

-- `expect("ok")` on what the sender returns.
expected : {E : Type 0} → NetResult E (Unit {0}) → Now → Now
expected (ok _) next = next
expected (err e) next = panicked

module _ (E : Type 0) (api : ChannelApi) (trim : List ℕ → List ℕ)
    (split_whitespace : List ℕ → List (List ℕ)) where
  open api use {Channel}

  obey : Order → List ℕ → Channel → Now × Channel
  unfolding expected
  obey nothing content ch = (goes content, ch)
  obey exit content ch =
      let (r, ch') = close_with_reason {E = E} api ch away (codes "exit") in (expected r left, ch')
  obey (send m) content ch =
      let (r, ch') = send_message {E = E} api ch m in (expected r (goes []), ch')

  -- `content` is cleared after a command; where there is no word it stays as it was trimmed.
  pub turn : List ℕ → Channel → Turn → Now × Channel
  unfolding obey
  turn content ch (line bytes) =
      let content' = trim (content ++ bytes) in
      obey (order content' (split_whitespace content')) content' ch
  turn content ch closed = (left, ch)

  pub run : Now → Channel → List Turn → Now × Channel
  unfolding turn
  run (goes content) ch (t ∷ ts) = let (now, ch') = turn content ch t in run now ch' ts
  run now ch _ = (now, ch)
