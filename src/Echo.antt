-- ===== src/Echo.antt =====
-- examples/server_echo.rs: a server whose connections send each text and each binary message back.
pub mod Setup
pub mod Client
pub mod Standing
pub mod Waiting
pub mod Turns
pub mod Order
pub mod Complete
pub mod Reading
pub mod Progress
use hcnet.Base.{ℕ, ◌≡◌, refl, List, [], ◌∷◌, ◌++◌, some, none}
use hcnet.Message.{Message}
use hcnet.Error.{NetResult, ok, err, send_full}
use hcnet.Handler.{Handler, default_on_open, default_on_ping, default_on_pong, default_on_message}
use hcnet.Sender.{ChannelApi, NetSender, TrySend, command, send_message}
use hcnet.Tcp.Run.Reading.{IsContent}

module _ (api : ChannelApi) where
  -- `ClientHandler`, with its sender.
  pub record ClientHandler : Type 0 where
    pub sender : NetSender api

  abbrev pub channel_of : ClientHandler → api.Channel
  channel_of h = h.sender.channel

  abbrev pub with_channel : ClientHandler → api.Channel → ClientHandler
  with_channel h ch = record h { sender = record h.sender { channel = ch } }

module _ {E : Type 0} (api : ChannelApi) where
  -- `self.sender.send_message(msg)?` and `Ok(())`.
  replied :
      ClientHandler api
      → NetResult E (Unit {0}) × api.Channel
      → NetResult E (Unit {0}) × ClientHandler api
  replied h (r, ch) = (r, record h { sender = record h.sender { channel = ch } })

  unfoldable pub on_message :
      ClientHandler api → Message → NetResult E (Unit {0}) × ClientHandler api
  unfolding replied
  on_message h (Message.text t) = replied h (send_message api h.sender.channel (Message.text t))
  on_message h (Message.binary v) = replied h (send_message api h.sender.channel (Message.binary v))
  on_message h msg = (ok tt, h)

  -- The state after `on_message`, when the channel takes the message and when it does not.
  pub on_message_sent :
      (h : ClientHandler api) (m : Message)
      → IsContent m
      → (api.try_send (channel_of api h) (command m)).0 ≡ TrySend.sent
      → on_message h m ≡ (ok tt, with_channel api h (api.try_send (channel_of api h) (command m)).1)
  unfolding on_message send_message
  on_message_sent h (Message.text t) k e = rw e refl
  on_message_sent h (Message.binary v) k e = rw e refl
  on_message_sent h _ k e = absurd k

  pub on_message_full :
      (h : ClientHandler api) (m : Message)
      → IsContent m
      → api.try_send (channel_of api h) (command m) ≡ (TrySend.full (command m), channel_of api h)
      → on_message h m ≡ (err (send_full (command m)), h)
  unfolding on_message send_message
  on_message_full h (Message.text t) k e = rw e refl
  on_message_full h (Message.binary v) k e = rw e refl
  on_message_full h _ k e = absurd k

  -- What the handler does not give is the trait's; of that, `on_accept` panics and `on_logic` stays
  -- pending, so that what they do stands open.
  abbrev pub client_handler :
      {Conn : Type 0}
      → (ClientHandler api → Conn → NetResult E (Unit {0}) × ClientHandler api)
      → (ClientHandler api → NetResult E (Unit {0}) × ClientHandler api)
      → Handler E Conn
  client_handler on_accept on_logic = record {
    State = ClientHandler api;
    on_accept = on_accept;
    on_open = default_on_open;
    on_close = λ h code reason. h;
    on_ping = default_on_ping;
    on_pong = default_on_pong;
    on_message = on_message;
    on_logic = on_logic;
  }

  -- `ServerHandler` spawns a task for each connection; here, the connections it has spawned.
  server_on_accept : {Conn : Type 0} → List Conn → Conn → NetResult E (Unit {0}) × List Conn
  server_on_accept conns conn = (ok tt, conns ++ conn ∷ [])
