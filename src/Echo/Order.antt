-- ===== src/Echo/Order.antt =====
-- What the connections of examples/server_echo.rs send back.
use hcnet.Base.{
  ℕ, ◌≤◌, ◌<◌, ◌≡◌, refl, sym, ap, ◌∙◌, subst, false, List, [], ◌∷◌, ◌++◌, Option, none, some, map,
  length, All, All-append_left, All-append_right, inl, inr, arith,
}
use hcnet.Message.{Message}
use hcnet.Error.{NetResult, Command}
use hcnet.Settings.{Settings}
use hcnet.Buffer.{BinaryMut}
use hcnet.Net.{NetApi}
use hcnet.Stream.{MaybeTlsStream}
use hcnet.Sender.{ChannelApi, command}
use hcnet.Tcp.{TcpConn}
use hcnet.Tcp.Process.{Event, open_loop}
use hcnet.Tcp.Process.Events.{Fits, frames, frames-IsByte}
use hcnet.Tcp.Process.Mixed.{IsUsual, input, open_loop-Goes, open_loop-Waits}
use hcnet.Tcp.Process.Open.{process_open}
use hcnet.Tcp.Process.Writing.{total}
use hcnet.Tcp.Run.Reading.{IsContent}
use hcnet.Tcp.Run.Linked.{polls, receives, start, step}
use hcnet.Echo.{ClientHandler, channel_of}
use hcnet.Echo.Standing
use hcnet.Echo.Waiting.{content-IsPlain, Echoing-Waits, Echoing-receives}
use hcnet.Echo.Turns.{Echoing-gives}

none-ne-some : {A : Type 0} (a : A) → none ≡ some a → ⊥
none-ne-some a h = ground arith

module _ {E : Type 0} (net : NetApi E) (bin : BinaryMut) (api : ChannelApi)
    (on_accept : ClientHandler api → TcpConn net bin → NetResult E (Unit {0}) × ClientHandler api)
    (on_logic : ClientHandler api → NetResult E (Unit {0}) × ClientHandler api) where
  open bin use {chunk}
  open api use {Channel, queued, capacity, is_closed}

  abbrev Node : Type 0
  Node = Standing.Node net bin api on_accept on_logic

  abbrev Echoing : MaybeTlsStream net → Settings → ℕ → List Message → Node → Type 0
  Echoing = Standing.Echoing net bin api on_accept on_logic

  abbrev GoesOn : Node → List Message → Type 0
  GoesOn = Standing.GoesOn net bin api on_accept on_logic

  abbrev polled_node : Node → List (Event net bin) → List ℕ → Node
  polled_node = Standing.polled_node net bin api on_accept on_logic

  abbrev received_node : Node → Command → Channel → Node
  received_node = Standing.received_node net bin api on_accept on_logic

  abbrev Step : Node → Node → Type 0
  Step = Standing.Step net bin api on_accept on_logic

  abbrev Reach : Node → Node → Type 0
  Reach = Standing.Reach net bin api on_accept on_logic

  abbrev Takes : Settings → List Message → Type 0
  Takes = Standing.Takes net bin api on_accept on_logic

  abbrev Starts : MaybeTlsStream net → Settings → ℕ → List Message → Node → Type 0
  Starts = Standing.Starts net bin api on_accept on_logic

  poll-Echoing :
      {s : MaybeTlsStream net} {settings : Settings} {size : ℕ} {ms : List Message} {n : Node}
      (es : List (Event net bin)) (left : List ℕ) (todo : List Message)
      (k : Echoing s settings size ms n)
      → Takes settings todo
      → k.todo ≡ todo
      → chunk n.conn.read ++ n.coming ≡ frames net bin todo
      → IsUsual net bin es
      → total net bin es ≤ length (chunk n.conn.write)
      → (open_loop net bin n.conn es).2 ≡ []
      → n.coming ≡ input net bin es ++ left
      → Echoing s settings size ms (polled_node n es left)
  poll-Echoing {s} {settings} {size} {ms} {n} es left [] k takes at_end unread u room all_seen cut =
      let f = ap (λ (x : Settings). x.is_raw) k.same_settings ∙ takes.framed in
      let ends : chunk n.conn.read ++ (input net bin es ++ left) ≡ [] =
        ap (λ (x : List ℕ). chunk n.conn.read ++ x) (sym cut) ∙ unread in
      let (same, w) =
        open_loop-Waits net bin es n.conn left k.same_state f (rw (k.same_settings) (takes.room)) u
          ends in
      Echoing-Waits net bin api on_accept on_logic es left k
        (unread ∙ sym (ap (frames net bin) at_end)) room cut same w
  poll-Echoing {s} {settings} {size} {ms} {n} es left (m ∷ rest) k takes first unread u room
        all_seen cut =
      let f = ap (λ (x : Settings). x.is_raw) k.same_settings ∙ takes.framed in
      let (same, g) =
        open_loop-Goes net bin es n.conn m (frames net bin rest) left k.same_state f
          (rw (k.same_settings) (takes.fit.0)) (frames-IsByte net bin settings rest takes.fit.1) u
          (ap (λ (x : List ℕ). chunk n.conn.read ++ x) (sym cut) ∙ unread) in
      elim g [
        | inl g ↦
            Echoing-gives net bin api on_accept on_logic es left m rest k first takes.content.0 room
              all_seen same g
        | inr w ↦
            Echoing-Waits net bin api on_accept on_logic es left k
              (unread ∙ sym (ap (frames net bin) first)) room cut same w
      ]

  receive-Echoing :
      {s : MaybeTlsStream net} {settings : Settings} {size : ℕ} {ms : List Message} {n : Node}
      (cmd : Command) (ch : Channel) (waiting : List Message) (k : Echoing s settings size ms n)
      → settings.is_raw ≡ false
      → k.waiting ≡ waiting
      → All IsContent waiting
      → bin.len n.conn.write < n.conn.settings.out_buffer_max
      → GoesOn n k.todo
      → api.recv (channel_of api n.state) ≡ (some cmd, ch)
      → Echoing s settings size ms (received_node n cmd ch)
  receive-Echoing {s} {settings} {size} {ms} {n} cmd ch [] k f first content room going e =
      let none_first : none ≡ some cmd =
        ap (λ (x : Option Command × Channel). x.0)
          (sym (api.recv_empty (channel_of api n.state) (k.in_channel ∙ ap (map command) first))
            ∙ e) in
      ground arith
  receive-Echoing {s} {settings} {size} {ms} {n} cmd ch (m ∷ rest) k f first content room going e =
      let (a, q, cap, o) =
        api.recv_first (channel_of api n.state) (command m) (map command rest)
          (k.in_channel ∙ ap (map command) first) in
      let second : (api.recv (channel_of api n.state)).1 ≡ ch =
        ap (λ (x : Option Command × Channel). x.1) e in
      let same : some (command m) ≡ some cmd =
        sym a ∙ ap (λ (x : Option Command × Channel). x.0) e in
      let command_m : command m ≡ cmd = cc in
      subst (λ (x : Command). Echoing s settings size ms (received_node n x ch)) command_m
        (Echoing-receives net bin api on_accept on_logic m ch rest k f first
          (content-IsPlain m content.0) room going (ap queued (sym second) ∙ q)
          (ap capacity (sym second) ∙ cap ∙ k.size_of_channel)
          (ap is_closed (sym second) ∙ o ∙ k.open_channel))

  -- The messages of a connection that are still to come.
  pub Takes-right :
      (settings : Settings) (ms ks : List Message) → Takes settings (ms ++ ks) → Takes settings ks
  Takes-right settings ms ks h = record {
    framed = h.framed;
    fit = All-append_right (Fits settings) ms ks h.fit;
    room = h.room;
    content = All-append_right IsContent ms ks h.content;
  }

  pub Takes-left :
      (settings : Settings) (ms ks : List Message) → Takes settings (ms ++ ks) → Takes settings ms
  Takes-left settings ms ks h = record {
    framed = h.framed;
    fit = All-append_left (Fits settings) ms ks h.fit;
    room = h.room;
    content = All-append_left IsContent ms ks h.content;
  }

  pub step-Echoing :
      {s : MaybeTlsStream net} {settings : Settings} {size : ℕ} {ms : List Message} {n n' : Node}
      → Takes settings ms
      → Echoing s settings size ms n
      → Step n n'
      → Echoing s settings size ms n'
  step-Echoing {s} {settings} {size} {ms} {n} {n'} h k
        (polls es left running u room all_seen cut e) =
      elim k.stands [
        | inl (_, unread) ↦
            let todo =
              Takes-right settings k.waiting k.todo
                (Takes-right settings k.done (k.waiting ++ k.todo) (rw (k.parts) at h)) in
            let seen =
              rw (process_open net bin n.conn n.counters es s k.same_tcp k.same_state) at
                all_seen in
            rw e (poll-Echoing es left k.todo k todo refl unread u room seen cut)
        | inr (m, rest, over, _, _) ↦ absurd (none-ne-some _ (sym running ∙ over))
      ]
  step-Echoing {s} {settings} {size} {ms} {n} {n'} h k (receives cmd ch running room first e) =
      elim k.stands [
        | inl (over, unread) ↦
            let content = All-append_left IsContent k.waiting k.todo (
              All-append_right IsContent k.done (k.waiting ++ k.todo)
                (rw (k.parts) at h.content)) in
            rw e
              (receive-Echoing cmd ch k.waiting k h.framed refl content room (over, unread) first)
        | inr (m, rest, over, _, _) ↦ absurd (none-ne-some _ (sym running ∙ over))
      ]

  Starts-Echoing :
      {s : MaybeTlsStream net} {settings : Settings} {size : ℕ} {ms : List Message} {n : Node}
      → Starts s settings size ms n
      → Echoing s settings size ms n
  Starts-Echoing {s} {settings} {size} {ms} {n} h = record {
    done = [];
    waiting = [];
    todo = ms;
    parts = refl;
    written = rw (h.none_sent, h.none_written) refl;
    in_channel = h.none_queued;
    open_channel = h.open_channel;
    size_of_channel = h.size_of_channel;
    same_tcp = h.on_stream;
    same_settings = h.settings_of;
    same_state = h.is_open;
    stands = inl (h.running, rw (h.none_read) (h.comes));
  }

  -- A connection starts on an open framed stream with an open and empty channel, and its peer sends
  -- texts and binaries that fit its settings, as an empty message does: in every state that its
  -- loop reaches, however the reads, the writes and the commands of the channel follow on each
  -- other, the frames of the first messages are sent or in the write buffer, the next messages are
  -- in the channel, and the frames of the others are unread; or the loop has ended, with
  -- `SendFull`, since the channel was full when the next was read.
  pub Reach-Echoing :
      {s : MaybeTlsStream net} {settings : Settings} {size : ℕ} {ms : List Message} {n n' : Node}
      → Takes settings ms
      → Starts s settings size ms n
      → Reach n n'
      → Echoing s settings size ms n'
  Reach-Echoing h b start = Starts-Echoing b
  Reach-Echoing h b (step r st) = step-Echoing h (Reach-Echoing h b r) st
