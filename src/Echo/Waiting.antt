-- ===== src/Echo/Waiting.antt =====
-- The turns of the loop of examples/server_echo.rs that read no message: `process` waits, or a command is
-- taken out of the channel.
use hcnet.Base.{
  ℕ, ◌≤◌, ◌<◌, ◌≡◌, refl, sym, ap, ◌∙◌, Bool, false, List, [], ◌∷◌, ◌++◌, map, length, append-nil,
  append_assoc, inl,
}
use hcnet.Message.{Message}
use hcnet.Error.{NetResult, Command}
use hcnet.Settings.{Settings}
use hcnet.Buffer.{BinaryMut}
use hcnet.Net.{NetApi}
use hcnet.Stream.{MaybeTlsStream}
use hcnet.Handler.{Handler}
use hcnet.Sender.{ChannelApi, command}
use hcnet.Codec.Frame.{wire}
use hcnet.Codec.Refine.{encode_message-wire}
use hcnet.Tcp.{TcpConn}
use hcnet.Tcp.Process.{Event, open_loop}
use hcnet.Tcp.Process.Events.{frames}
use hcnet.Tcp.Process.Single.{Same}
use hcnet.Tcp.Process.Mixed.{input, Waits}
use hcnet.Tcp.Process.Writing.{total}
use hcnet.Tcp.Run.Reading.{IsContent, turn_waits}
use hcnet.Tcp.Run.Sending.{IsPlain, turn_plain}
use hcnet.Echo.{ClientHandler, with_channel}
use hcnet.Echo.Standing
use hcnet.Echo.Standing.{written_on, frames-append}

pub content-IsPlain : (m : Message) → IsContent m → IsPlain m
content-IsPlain (Message.text t) h = tt
content-IsPlain (Message.binary v) h = tt
content-IsPlain _ h = absurd h

module _ {E : Type 0} (net : NetApi E) (bin : BinaryMut) (api : ChannelApi)
    (on_accept : ClientHandler api → TcpConn net bin → NetResult E (Unit {0}) × ClientHandler api)
    (on_logic : ClientHandler api → NetResult E (Unit {0}) × ClientHandler api) where
  open bin use {chunk}
  open api use {Channel, queued, capacity, is_closed}

  abbrev Node : Type 0
  Node = Standing.Node net bin api on_accept on_logic

  abbrev echo : Handler E (TcpConn net bin)
  echo = Standing.echo net bin api on_accept on_logic

  abbrev Echoing : MaybeTlsStream net → Settings → ℕ → List Message → Node → Type 0
  Echoing = Standing.Echoing net bin api on_accept on_logic

  abbrev GoesOn : Node → List Message → Type 0
  GoesOn = Standing.GoesOn net bin api on_accept on_logic

  abbrev polled_node : Node → List (Event net bin) → List ℕ → Node
  polled_node = Standing.polled_node net bin api on_accept on_logic

  abbrev received_node : Node → Command → Channel → Node
  received_node = Standing.received_node net bin api on_accept on_logic

  -- `process` waits for the rest of a message.
  pub Echoing-Waits :
      {s : MaybeTlsStream net} {settings : Settings} {size : ℕ} {ms : List Message} {n : Node}
      (es : List (Event net bin)) (left : List ℕ) (k : Echoing s settings size ms n)
      → chunk n.conn.read ++ n.coming ≡ frames net bin k.todo
      → total net bin es ≤ length (chunk n.conn.write)
      → n.coming ≡ input net bin es ++ left
      → Same net bin n.conn (open_loop net bin n.conn es).1
      → Waits net bin (chunk n.conn.read ++ input net bin es) (open_loop net bin n.conn es)
      → Echoing s settings size ms (polled_node n es left)
  Echoing-Waits {s} {settings} {size} {ms} {n} es left k unread room cut same (a, b, d) =
      rw (turn_waits net bin echo n.state n.conn n.counters es s k.same_tcp k.same_state a)
        (record {
          done = k.done;
          waiting = k.waiting;
          todo = k.todo;
          parts = k.parts;
          written =
              written_on net bin api on_accept on_logic n es s k.same_tcp k.same_state room d
              ∙ k.written;
          in_channel = k.in_channel;
          open_channel = k.open_channel;
          size_of_channel = k.size_of_channel;
          same_tcp = same.tcp ∙ k.same_tcp;
          same_settings = same.settings ∙ k.same_settings;
          same_state = same.state ∙ k.same_state;
          stands = inl (
            refl,
            ap (λ (x : List ℕ). x ++ left) b
                ∙ append_assoc (chunk n.conn.read) (input net bin es) left
                ∙ ap (λ (x : List ℕ). chunk n.conn.read ++ x) (sym cut)
                ∙ unread,
          );
        })

  -- A message of the channel goes into the write buffer.
  pub Echoing-receives :
      {s : MaybeTlsStream net} {settings : Settings} {size : ℕ} {ms : List Message} {n : Node}
      (m : Message) (ch : Channel) (rest : List Message) (k : Echoing s settings size ms n)
      → settings.is_raw ≡ false
      → k.waiting ≡ m ∷ rest
      → IsPlain m
      → bin.len n.conn.write < n.conn.settings.out_buffer_max
      → GoesOn n k.todo
      → queued ch ≡ map command rest
      → capacity ch ≡ size
      → is_closed ch ≡ false
      → Echoing s settings size ms (received_node n (command m) ch)
  Echoing-receives {s} {settings} {size} {ms} {n} m ch rest k framed first plain room
        (running, unread) q cap o =
      let wrote = (encode_message-wire bin {E = E} n.conn.write m n.conn.settings.is_raw).1 in
      let raw : n.conn.settings.is_raw ≡ false =
        ap (λ (x : Settings). x.is_raw) k.same_settings ∙ framed in
      rw (turn_plain net bin echo (with_channel api n.state ch) n.conn n.counters m room plain)
        (record {
          done = k.done ++ m ∷ [];
          waiting = rest;
          todo = k.todo;
          parts =
              k.parts
              ∙ ap (λ (x : List Message). k.done ++ (x ++ k.todo)) first
              ∙ sym (append_assoc k.done (m ∷ []) (rest ++ k.todo));
          written =
              ap (λ (x : List ℕ). n.sent ++ x)
                (wrote ∙ ap (λ (x : Bool). chunk n.conn.write ++ wire x m) raw)
              ∙ sym (append_assoc n.sent (chunk n.conn.write) (wire false m))
              ∙ ap (λ (x : List ℕ). x ++ wire false m) k.written
              ∙ sym (
                  frames-append net bin api on_accept on_logic k.done (m ∷ [])
                  ∙ ap (λ (x : List ℕ). frames net bin k.done ++ x) (append-nil (wire false m)));
          in_channel = q;
          open_channel = o;
          size_of_channel = cap;
          same_tcp = k.same_tcp;
          same_settings = k.same_settings;
          same_state = k.same_state;
          stands = inl (refl, unread);
        })
