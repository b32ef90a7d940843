-- ===== src/Echo/Turns.antt =====
-- The turns of the loop of examples/server_echo.rs that read a message.
use hcnet.Base.{
  ℕ, ◌≤◌, ◌<◌, ◌≡◌, refl, sym, ap, ◌∙◌, List, [], ◌∷◌, ◌++◌, some, length, length-map, map-append,
  append-nil, append_assoc, lt-cases, inl, inr, arith,
}
use hcnet.Message.{Message}
use hcnet.Error.{NetResult, ok, send_full, Command}
use hcnet.Settings.{Settings}
use hcnet.Buffer.{BinaryMut}
use hcnet.Net.{NetApi}
use hcnet.Stream.{MaybeTlsStream}
use hcnet.Handler.{Handler}
use hcnet.Sender.{ChannelApi, command}
use hcnet.Codec.RoundTrip
use hcnet.Tcp.{TcpConn}
use hcnet.Tcp.Process.{Event, TcpReceiver, open_loop}
use hcnet.Tcp.Process.Events.{frames}
use hcnet.Tcp.Process.Single.{Same}
use hcnet.Tcp.Process.Mixed.{input, Gives}
use hcnet.Tcp.Process.Writing.{total}
use hcnet.Tcp.Run.Reading.{IsContent, turn_reads, turn_fails}
use hcnet.Tcp.Run.Delivery.{received-plain}
use hcnet.Echo.{
  ClientHandler, on_message, channel_of, with_channel, on_message_sent, on_message_full,
}
use hcnet.Echo.Standing
use hcnet.Echo.Standing.{written_on, frames-append}
use hcnet.Echo.Waiting.{content-IsPlain}

module _ {E : Type 0} (net : NetApi E) (bin : BinaryMut) (api : ChannelApi)
    (on_accept : ClientHandler api → TcpConn net bin → NetResult E (Unit {0}) × ClientHandler api)
    (on_logic : ClientHandler api → NetResult E (Unit {0}) × ClientHandler api) where
  open bin use {chunk}
  open api use {Channel, queued, capacity, is_closed}

  abbrev Node : Type 0
  Node = Standing.Node net bin api on_accept on_logic

  abbrev echo : Handler E (TcpConn net bin)
  echo = Standing.echo net bin api on_accept on_logic

  abbrev Echoing : MaybeTlsStream net → Settings → ℕ → List Message → Node → Type 0
  Echoing = Standing.Echoing net bin api on_accept on_logic

  abbrev GoesOn : Node → List Message → Type 0
  GoesOn = Standing.GoesOn net bin api on_accept on_logic

  abbrev polled_node : Node → List (Event net bin) → List ℕ → Node
  polled_node = Standing.polled_node net bin api on_accept on_logic

  abbrev received_node : Node → Command → Channel → Node
  received_node = Standing.received_node net bin api on_accept on_logic

  no_more :
      (left : List ℕ) (rest : List Message) (m : Message) (es : List (Event net bin))
      (c : TcpConn net bin)
      → (open_loop net bin c es).2 ≡ []
      → Gives net bin m (frames net bin rest) left (open_loop net bin c es)
      → chunk (open_loop net bin c es).1.read ++ left ≡ frames net bin rest
  no_more left rest m es c all_seen (a, b) =
      let none_left = ap (input net bin) all_seen in
      ap (λ (x : List ℕ). x ++ left)
        (sym (append-nil (chunk (open_loop net bin c es).1.read))
          ∙ ap (λ (x : List ℕ). chunk (open_loop net bin c es).1.read ++ x) (sym none_left))
      ∙ b

  -- A message is read, and is put into the channel.
  pub Echoing-reads :
      {s : MaybeTlsStream net} {settings : Settings} {size : ℕ} {ms : List Message} {n : Node}
      (es : List (Event net bin)) (left : List ℕ) (m : Message) (rest : List Message)
      (k : Echoing s settings size ms n)
      → k.todo ≡ m ∷ rest
      → IsContent m
      → length k.waiting < size
      → total net bin es ≤ length (chunk n.conn.write)
      → (open_loop net bin n.conn es).2 ≡ []
      → Same net bin n.conn (open_loop net bin n.conn es).1
      → Gives net bin m (frames net bin rest) left (open_loop net bin n.conn es)
      → Echoing s settings size ms (polled_node n es left)
        × (chunk (polled_node n es left).conn.read ++ left ≡ frames net bin rest)
  Echoing-reads {s} {settings} {size} {ms} {n} es left m rest k first content free room all_seen
        same (a, b) =
      let ch : Channel = channel_of api n.state in
      let (sent, q, cap, o) =
        api.try_send_room ch (command m) k.open_channel (
          omega (arith, k.size_of_channel, ap length k.in_channel, length-map command k.waiting)) in
      let e = on_message_sent api n.state m content sent in
      let now =
        turn_reads net bin echo n.state n.conn n.counters es s m k.same_tcp k.same_state
          (a
            ∙ ap (λ (x : Message). some (ok (TcpReceiver.read x)))
                (received-plain m (content-IsPlain m content)))
          content (ap (λ (x : NetResult E (Unit {0}) × ClientHandler api). x.0) e) in
      let state : (on_message {E = E} api n.state m).1
          ≡ with_channel api n.state (api.try_send ch (command m)).1 =
        ap (λ (x : NetResult E (Unit {0}) × ClientHandler api). x.1) e in
      rw (now, state)
        (
          record {
            done = k.done;
            waiting = k.waiting ++ m ∷ [];
            todo = rest;
            parts =
                k.parts
                ∙ ap (λ (x : List Message). k.done ++ x)
                    (ap (λ (x : List Message). k.waiting ++ x) first
                      ∙ sym (append_assoc k.waiting (m ∷ []) rest));
            written =
                written_on net bin api on_accept on_logic n es s k.same_tcp k.same_state room
                  all_seen
                ∙ k.written;
            in_channel =
                q
                ∙ ap (λ (x : List Command). x ++ command m ∷ []) k.in_channel
                ∙ sym (map-append command k.waiting (m ∷ []));
            open_channel = o;
            size_of_channel = cap ∙ k.size_of_channel;
            same_tcp = same.tcp ∙ k.same_tcp;
            same_settings = same.settings ∙ k.same_settings;
            same_state = same.state ∙ k.same_state;
            stands = inl (refl, no_more left rest m es n.conn all_seen (a, b));
          },
          no_more left rest m es n.conn all_seen (a, b),
        )

  -- A message is read, and the channel is full.
  Echoing-fails :
      {s : MaybeTlsStream net} {settings : Settings} {size : ℕ} {ms : List Message} {n : Node}
      (es : List (Event net bin)) (left : List ℕ) (m : Message) (rest : List Message)
      (k : Echoing s settings size ms n)
      → k.todo ≡ m ∷ rest
      → IsContent m
      → size ≤ length k.waiting
      → total net bin es ≤ length (chunk n.conn.write)
      → (open_loop net bin n.conn es).2 ≡ []
      → Same net bin n.conn (open_loop net bin n.conn es).1
      → (open_loop net bin n.conn es).0 ≡ some (ok (TcpReceiver.read (RoundTrip.received m)))
      → Echoing s settings size ms (polled_node n es left)
  Echoing-fails {s} {settings} {size} {ms} {n} es left m rest k first content full room all_seen
        same a =
      let ch : Channel = channel_of api n.state in
      let e = on_message_full api n.state m content (
        api.try_send_full ch (command m) k.open_channel (
          omega
            (arith, k.size_of_channel, ap length k.in_channel, length-map command k.waiting))) in
      let now =
        turn_fails net bin echo n.state n.conn n.counters es s m (send_full (command m)) k.same_tcp
          k.same_state
          (a
            ∙ ap (λ (x : Message). some (ok (TcpReceiver.read x)))
                (received-plain m (content-IsPlain m content)))
          content (ap (λ (x : NetResult E (Unit {0}) × ClientHandler api). x.0) e) in
      let state : (on_message {E = E} api n.state m).1 ≡ n.state =
        ap (λ (x : NetResult E (Unit {0}) × ClientHandler api). x.1) e in
      rw (now, state)
        (record {
          done = k.done;
          waiting = k.waiting;
          todo = k.todo;
          parts = k.parts;
          written =
              written_on net bin api on_accept on_logic n es s k.same_tcp k.same_state room all_seen
              ∙ k.written;
          in_channel = k.in_channel;
          open_channel = k.open_channel;
          size_of_channel = k.size_of_channel;
          same_tcp = same.tcp ∙ k.same_tcp;
          same_settings = same.settings ∙ k.same_settings;
          same_state = same.state ∙ k.same_state;
          stands = inr (m, rest, refl, first, full);
        })

  -- The first message to come is read, and the channel has room for it or has not.
  pub Echoing-gives :
      {s : MaybeTlsStream net} {settings : Settings} {size : ℕ} {ms : List Message} {n : Node}
      (es : List (Event net bin)) (left : List ℕ) (m : Message) (rest : List Message)
      (k : Echoing s settings size ms n)
      → k.todo ≡ m ∷ rest
      → IsContent m
      → total net bin es ≤ length (chunk n.conn.write)
      → (open_loop net bin n.conn es).2 ≡ []
      → Same net bin n.conn (open_loop net bin n.conn es).1
      → Gives net bin m (frames net bin rest) left (open_loop net bin n.conn es)
      → Echoing s settings size ms (polled_node n es left)
  Echoing-gives {s} {settings} {size} {ms} {n} es left m rest k first content room all_seen same g =
      elim (lt-cases (length k.waiting) size) [
        | inl free ↦ (Echoing-reads es left m rest k first content free room all_seen same g).0
        | inr full ↦ Echoing-fails es left m rest k first content full room all_seen same g.0
      ]
