-- ===== src/Echo/Standing.antt =====
-- A connection of examples/server_echo.rs with its channel and its socket, and where its messages
-- stand.
use hcnet.Base.{
  ℕ, ◌≤◌, ◌≡◌, refl, sym, ap, ◌∙◌, false, List, [], ◌∷◌, ◌++◌, none, some, map, length, take, drop,
  take-append-drop, append-nil, append_assoc, All, ◌⊎◌,
}
use hcnet.Message.{Message}
use hcnet.Error.{NetResult, err, send_full, Command}
use hcnet.Settings.{Settings}
use hcnet.Buffer.{BinaryMut}
use hcnet.Net.{NetApi}
use hcnet.Stream.{MaybeTlsStream}
use hcnet.Handler.{Handler}
use hcnet.Sender.{ChannelApi, command}
use hcnet.Codec.Frame.{wire}
use hcnet.Tcp.{TcpConn, opened, stream}
use hcnet.Tcp.Process.{Event, open_loop}
use hcnet.Tcp.Process.Events.{Fits, frames}
use hcnet.Tcp.Process.Open.{process_open}
use hcnet.Tcp.Process.Writing.{total, process-Writes}
use hcnet.Tcp.Run.Reading.{IsContent}
use hcnet.Tcp.Run.Linked
use hcnet.Tcp.Run.Linked.{poll, receive, polls, receives, start, step}
use hcnet.Echo.{ClientHandler, client_handler, channel_of, with_channel}

module _ {E : Type 0} (net : NetApi E) (bin : BinaryMut) (api : ChannelApi)
    (on_accept : ClientHandler api → TcpConn net bin → NetResult E (Unit {0}) × ClientHandler api)
    (on_logic : ClientHandler api → NetResult E (Unit {0}) × ClientHandler api) where
  open bin use {chunk}
  open api use {Channel, queued, capacity, is_closed}

  abbrev pub echo : Handler E (TcpConn net bin)
  echo = client_handler api on_accept on_logic

  abbrev pub Node : Type 0
  Node = Linked.Node net bin api echo (channel_of api) (with_channel api)

  abbrev pub Step : Node → Node → Type 0
  Step n n' = Linked.Step net bin api echo (channel_of api) (with_channel api) n n'

  abbrev pub Reach : Node → Node → Type 0
  Reach n n' = Linked.Reach net bin api echo (channel_of api) (with_channel api) n n'

  -- The loop goes on, and `todo` is still to come; or it has ended, since the channel is full.
  abbrev pub GoesOn : Node → List Message → Type 0
  GoesOn n todo = (n.over ≡ none) × (chunk n.conn.read ++ n.coming ≡ frames net bin todo)

  abbrev pub Full : Node → ℕ → List Message → List Message → Type 0
  Full n size waiting todo =
      (m : Message) × (rest : List Message) × (n.over ≡ some (err (send_full (command m))))
      × (todo ≡ m ∷ rest)
      × (size ≤ length waiting)

  -- Of the messages `ms` that come in, the first are sent or in the write buffer, the next are in the
  -- channel, and the others are still to come.
  pub record Echoing (s : MaybeTlsStream net) (settings : Settings) (size : ℕ) (ms : List Message)
      (n : Node) : Type 0 where
    pub done : List Message
    pub waiting : List Message
    pub todo : List Message
    pub parts : ms ≡ done ++ (waiting ++ todo)
    pub written : n.sent ++ chunk n.conn.write ≡ frames net bin done
    pub in_channel : queued (channel_of api n.state) ≡ map command waiting
    pub open_channel : is_closed (channel_of api n.state) ≡ false
    pub size_of_channel : capacity (channel_of api n.state) ≡ size
    pub same_tcp : n.conn.tcp ≡ stream s
    pub same_settings : n.conn.settings ≡ settings
    pub same_state : n.conn.state ≡ opened
    pub stands : GoesOn n todo ⊎ Full n size waiting todo

  -- The settings are framed, with room for an empty message, and the messages are texts and binaries that
  -- they have room for.
  pub record Takes (settings : Settings) (ms : List Message) : Type 0 where
    pub framed : settings.is_raw ≡ false
    pub fit : All (Fits settings) ms
    pub room : Fits settings (Message.binary [])
    pub content : All IsContent ms

  -- A connection as it starts: nothing is read, written or sent, and the channel is empty.
  pub record Starts (s : MaybeTlsStream net) (settings : Settings) (size : ℕ) (ms : List Message)
      (n : Node) : Type 0 where
    pub running : n.over ≡ none
    pub none_read : chunk n.conn.read ≡ []
    pub none_written : chunk n.conn.write ≡ []
    pub none_sent : n.sent ≡ []
    pub none_queued : queued (channel_of api n.state) ≡ []
    pub open_channel : is_closed (channel_of api n.state) ≡ false
    pub size_of_channel : capacity (channel_of api n.state) ≡ size
    pub on_stream : n.conn.tcp ≡ stream s
    pub settings_of : n.conn.settings ≡ settings
    pub is_open : n.conn.state ≡ opened
    pub comes : n.coming ≡ frames net bin ms

  abbrev pub polled_node : Node → List (Event net bin) → List ℕ → Node
  polled_node n es left = poll net bin api echo (channel_of api) (with_channel api) n es left

  abbrev pub received_node : Node → Command → Channel → Node
  received_node n cmd ch = receive net bin api echo (channel_of api) (with_channel api) n cmd ch

  -- The socket takes the bytes that leave the write buffer.
  pub taken_off :
      (n : Node) (es : List (Event net bin)) (s : MaybeTlsStream net)
      → n.conn.tcp ≡ stream s
      → n.conn.state ≡ opened
      → total net bin es ≤ length (chunk n.conn.write)
      → (open_loop net bin n.conn es).2 ≡ []
      → chunk (open_loop net bin n.conn es).1.write ≡ drop (total net bin es) (chunk n.conn.write)
  taken_off n es s t o room none_left =
      let w =
        rw (process_open net bin n.conn n.counters es s t o) at
          (process-Writes net bin n.conn n.counters es s t room) in
      let all_seen : es ≡ w.seen =
        w.events ∙ ap (λ (x : List (Event net bin)). w.seen ++ x) none_left ∙ append-nil w.seen in
      w.unsent
      ∙ ap (λ (x : List (Event net bin)). drop (total net bin x) (chunk n.conn.write))
          (sym all_seen)

  pub written_on :
      (n : Node) (es : List (Event net bin)) (s : MaybeTlsStream net)
      → n.conn.tcp ≡ stream s
      → n.conn.state ≡ opened
      → total net bin es ≤ length (chunk n.conn.write)
      → (open_loop net bin n.conn es).2 ≡ []
      → (n.sent ++ take (total net bin es) (chunk n.conn.write))
          ++ chunk (open_loop net bin n.conn es).1.write
        ≡ n.sent ++ chunk n.conn.write
  written_on n es s t o room none_left =
      append_assoc n.sent _ _
      ∙ ap (λ (x : List ℕ). n.sent ++ x)
          (ap (λ (x : List ℕ). take (total net bin es) (chunk n.conn.write) ++ x)
              (taken_off n es s t o room none_left)
            ∙ take-append-drop (total net bin es) (chunk n.conn.write))

  pub frames-append :
      (ms ks : List Message) → frames net bin (ms ++ ks) ≡ frames net bin ms ++ frames net bin ks
  frames-append [] ks = refl
  frames-append (m ∷ ms) ks =
      ap (λ (t : List ℕ). wire false m ++ t) (frames-append ms ks)
      ∙ sym (append_assoc (wire false m) (frames net bin ms) (frames net bin ks))
