-- ===== src/Echo/Complete.antt =====
-- The connections of examples/server_echo.rs whose channel has room for every message.
use hcnet.Base.{
  ℕ, ◌+◌, ◌≤◌, ◌≡◌, refl, sym, ap, ◌∙◌, List, [], ◌∷◌, ◌++◌, none, map, length, length-append,
  append-nil, All, inl, inr, arith,
}
use hcnet.Message.{Message}
use hcnet.Error.{NetResult, Command}
use hcnet.Settings.{Settings}
use hcnet.Buffer.{BinaryMut}
use hcnet.Net.{NetApi}
use hcnet.Stream.{MaybeTlsStream}
use hcnet.Sender.{ChannelApi, command}
use hcnet.Tcp.{TcpConn}
use hcnet.Tcp.Process.{Event}
use hcnet.Tcp.Process.Events.{frames}
use hcnet.Tcp.Run.Reading.{IsContent}
use hcnet.Echo.{ClientHandler, channel_of}
use hcnet.Echo.Standing
use hcnet.Echo.Order.{Reach-Echoing, Takes-left, Takes-right}

module _ {E : Type 0} (net : NetApi E) (bin : BinaryMut) (api : ChannelApi)
    (on_accept : ClientHandler api → TcpConn net bin → NetResult E (Unit {0}) × ClientHandler api)
    (on_logic : ClientHandler api → NetResult E (Unit {0}) × ClientHandler api) where
  open bin use {chunk}
  open api use {Channel, queued, capacity, is_closed}

  abbrev Node : Type 0
  Node = Standing.Node net bin api on_accept on_logic

  abbrev Echoing : MaybeTlsStream net → Settings → ℕ → List Message → Node → Type 0
  Echoing = Standing.Echoing net bin api on_accept on_logic

  abbrev GoesOn : Node → List Message → Type 0
  GoesOn = Standing.GoesOn net bin api on_accept on_logic

  abbrev polled_node : Node → List (Event net bin) → List ℕ → Node
  polled_node = Standing.polled_node net bin api on_accept on_logic

  abbrev received_node : Node → Command → Channel → Node
  received_node = Standing.received_node net bin api on_accept on_logic

  abbrev Step : Node → Node → Type 0
  Step = Standing.Step net bin api on_accept on_logic

  abbrev Reach : Node → Node → Type 0
  Reach = Standing.Reach net bin api on_accept on_logic

  abbrev Takes : Settings → List Message → Type 0
  Takes = Standing.Takes net bin api on_accept on_logic

  abbrev Starts : MaybeTlsStream net → Settings → ℕ → List Message → Node → Type 0
  Starts = Standing.Starts net bin api on_accept on_logic

  frames_none : (ms : List Message) → All IsContent ms → frames net bin ms ≡ [] → ms ≡ []
  frames_none [] h e = refl
  frames_none (Message.text t ∷ ms) h e = ground arith
  frames_none (Message.binary t ∷ ms) h e = ground arith
  frames_none (_ ∷ ms) h e = absurd (h.0)

  map_none : (ms : List Message) → map command ms ≡ [] → ms ≡ []
  map_none [] e = refl
  map_none (m ∷ ms) e = ground arith

  length-split :
      (ms done waiting todo : List Message)
      → ms ≡ done ++ (waiting ++ todo)
      → length ms ≡ length done + (length waiting + length todo)
  length-split ms done waiting todo e =
      ap length e
      ∙ length-append done (waiting ++ todo)
      ∙ ap (λ (x : ℕ). length done + x) (length-append waiting todo)

  all_done :
      (ms done waiting todo : List Message)
      → ms ≡ done ++ (waiting ++ todo)
      → waiting ≡ []
      → todo ≡ []
      → done ≡ ms
  all_done ms done waiting todo e w t = sym (e ∙ rw (w, t) (append-nil done))

  pub todo-Takes :
      {s : MaybeTlsStream net} {settings : Settings} {size : ℕ} {ms : List Message} {n : Node}
      (k : Echoing s settings size ms n)
      → Takes settings ms
      → Takes settings k.todo
  todo-Takes {s} {settings} k h =
      Takes-right net bin api on_accept on_logic settings k.waiting k.todo (
        Takes-right net bin api on_accept on_logic settings k.done (k.waiting ++ k.todo)
          (rw (k.parts) at h))

  pub waiting-Takes :
      {s : MaybeTlsStream net} {settings : Settings} {size : ℕ} {ms : List Message} {n : Node}
      (k : Echoing s settings size ms n)
      → Takes settings ms
      → Takes settings k.waiting
  waiting-Takes {s} {settings} k h =
      Takes-left net bin api on_accept on_logic settings k.waiting k.todo (
        Takes-right net bin api on_accept on_logic settings k.done (k.waiting ++ k.todo)
          (rw (k.parts) at h))

  -- The channel is never full, and has room for one message more while there is one to come.
  pub free :
      {s : MaybeTlsStream net} {settings : Settings} {size : ℕ} {ms : List Message} {n : Node}
      (k : Echoing s settings size ms n)
      → length ms ≤ size
      → GoesOn n k.todo × (length k.waiting + length k.todo ≤ size)
  free {ms = ms} k room =
      let split = length-split ms k.done k.waiting k.todo k.parts in
      elim k.stands [
        | inl going ↦ (going, omega (arith, split))
        | inr (m, rest, over, first, full) ↦ absurd (omega (arith, split, ap length first))
      ]

  pub all_sent :
      {s : MaybeTlsStream net} {settings : Settings} {size : ℕ} {ms : List Message} {n : Node}
      → Takes settings ms
      → (k : Echoing s settings size ms n) → length ms ≤ size
      → chunk n.conn.read ++ n.coming ≡ []
      → queued (channel_of api n.state) ≡ []
      → chunk n.conn.write ≡ []
      → n.sent ≡ frames net bin ms
  all_sent {ms = ms} {n = n} h k room read_all taken_all written_all =
      sym (append-nil n.sent)
      ∙ ap (λ (x : List ℕ). n.sent ++ x) (sym written_all)
      ∙ k.written
      ∙ ap (frames net bin) (
          all_done ms k.done k.waiting k.todo k.parts
            (map_none k.waiting (sym k.in_channel ∙ taken_all))
            (frames_none k.todo (todo-Takes k h).content (sym (free k room).0.1 ∙ read_all)))

  -- A connection starts on an open framed stream with an open and empty channel, and its peer sends
  -- texts and binaries that fit its settings, as an empty message does; its channel has room for
  -- all of them: in every state that its loop reaches where nothing is left to read, in the channel
  -- and to write, the loop goes on, and just the frames of all the messages are sent, in order.
  pub reach_complete :
      {s : MaybeTlsStream net} {settings : Settings} {size : ℕ} {ms : List Message} {n n' : Node}
      → Takes settings ms
      → Starts s settings size ms n
      → length ms ≤ size
      → Reach n n'
      → chunk n'.conn.read ++ n'.coming ≡ []
      → queued (channel_of api n'.state) ≡ []
      → chunk n'.conn.write ≡ []
      → (n'.over ≡ none) × (n'.sent ≡ frames net bin ms)
  reach_complete h b room r read_all taken_all written_all =
      let k = Reach-Echoing net bin api on_accept on_logic h b r in
      ((free k room).0.0, all_sent h k room read_all taken_all written_all)
