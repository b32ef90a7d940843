-- ===== src/Echo/Progress.antt =====
-- How a connection of examples/server_echo.rs gets to send everything back.
use hcnet.Base.{
  ℕ, zero, suc, ◌≤◌, ◌<◌, ◌≡◌, refl, sym, ap, ◌∙◌, List, [], ◌∷◌, ◌++◌, none, some, map, length,
  length-map, drop, drop-append_all, append-nil, arith,
}
use hcnet.Message.{Message}
use hcnet.Error.{NetResult, Command}
use hcnet.Settings.{Settings}
use hcnet.Buffer.{BinaryMut}
use hcnet.Net.{NetApi}
use hcnet.Stream.{MaybeTlsStream}
use hcnet.OnlineCount.{Counters}
use hcnet.Sender.{ChannelApi, command}
use hcnet.Tcp.{TcpConn}
use hcnet.Tcp.Process.{Event, wrote, Polled}
use hcnet.Tcp.Process.Events.{frames}
use hcnet.Tcp.Process.Mixed.{open_loop-Waits}
use hcnet.Tcp.Process.Open.{process_open}
use hcnet.Tcp.Process.Writing.{total}
use hcnet.Tcp.Run.Reading.{turn_waits}
use hcnet.Tcp.Run.Linked.{polls, receives, start, step}
use hcnet.Tcp.Run.Sending.{turn_plain}
use hcnet.Echo.{ClientHandler, channel_of, with_channel}
use hcnet.Echo.Standing
use hcnet.Echo.Standing.{taken_off}
use hcnet.Echo.Waiting.{content-IsPlain}
use hcnet.Echo.Order.{Reach-Echoing, step-Echoing}
use hcnet.Echo.Complete.{free, waiting-Takes, all_sent}
use hcnet.Echo.Reading.{joined, reads_all}

module _ {E : Type 0} (net : NetApi E) (bin : BinaryMut) (api : ChannelApi)
    (on_accept : ClientHandler api → TcpConn net bin → NetResult E (Unit {0}) × ClientHandler api)
    (on_logic : ClientHandler api → NetResult E (Unit {0}) × ClientHandler api) where
  open bin use {chunk}
  open api use {Channel, queued, capacity, is_closed}

  abbrev Node : Type 0
  Node = Standing.Node net bin api on_accept on_logic

  abbrev Echoing : MaybeTlsStream net → Settings → ℕ → List Message → Node → Type 0
  Echoing = Standing.Echoing net bin api on_accept on_logic

  abbrev GoesOn : Node → List Message → Type 0
  GoesOn = Standing.GoesOn net bin api on_accept on_logic

  abbrev polled_node : Node → List (Event net bin) → List ℕ → Node
  polled_node = Standing.polled_node net bin api on_accept on_logic

  abbrev received_node : Node → Command → Channel → Node
  received_node = Standing.received_node net bin api on_accept on_logic

  abbrev Step : Node → Node → Type 0
  Step = Standing.Step net bin api on_accept on_logic

  abbrev Reach : Node → Node → Type 0
  Reach = Standing.Reach net bin api on_accept on_logic

  abbrev Takes : Settings → List Message → Type 0
  Takes = Standing.Takes net bin api on_accept on_logic

  abbrev Starts : MaybeTlsStream net → Settings → ℕ → List Message → Node → Type 0
  Starts = Standing.Starts net bin api on_accept on_logic

  -- With nothing left to read, the socket takes the whole write buffer.
  abbrev Flushed : MaybeTlsStream net → Settings → ℕ → List Message → Node → Type 0
  Flushed s settings size ms n =
      (n' : Node) × Step n n'
      × Echoing s settings size ms n'
      × (chunk n'.conn.read ++ n'.coming ≡ [])
      × (chunk n'.conn.write ≡ [])
      × (queued (channel_of api n'.state) ≡ queued (channel_of api n.state))

  flushes :
      {s : MaybeTlsStream net} {settings : Settings} {size : ℕ} {ms : List Message} (n : Node)
      (k : Echoing s settings size ms n)
      → Takes settings ms
      → length ms ≤ size
      → chunk n.conn.read ++ n.coming ≡ []
      → Flushed s settings size ms n
  flushes {s} {settings} {size} {ms} n k h room e =
      let es : List (Event net bin) = wrote (length (chunk n.conn.write)) ∷ [] in
      let all : total net bin es ≡ length (chunk n.conn.write) = omega arith in
      let fits : total net bin es ≤ length (chunk n.conn.write) = omega arith in
      let f = ap (λ (x : Settings). x.is_raw) k.same_settings ∙ h.framed in
      let (same, (a, b, d)) =
        open_loop-Waits net bin es n.conn n.coming k.same_state f (rw (k.same_settings) (h.room)) tt
          e in
      let taken = taken_off net bin api on_accept on_logic n es s k.same_tcp k.same_state fits d in
      let nothing_left : drop (total net bin es) (chunk n.conn.write) ≡ [] =
        ap (λ (i : ℕ). drop i (chunk n.conn.write)) all
        ∙ ap (drop (length (chunk n.conn.write))) (sym (append-nil (chunk n.conn.write)))
        ∙ drop-append_all (chunk n.conn.write) [] in
      let now =
        turn_waits net bin (Standing.echo net bin api on_accept on_logic) n.state n.conn n.counters
          es s k.same_tcp k.same_state a in
      let seen =
        ap (λ (x : Polled net bin × Counters). x.0.2)
          (process_open net bin n.conn n.counters es s k.same_tcp k.same_state)
        ∙ d in
      let st : Step n (polled_node n es n.coming) =
        polls es n.coming (free net bin api on_accept on_logic k room).0.0 tt fits seen refl refl in
      let k' = step-Echoing net bin api on_accept on_logic h k st in
      (
        polled_node n es n.coming,
        st,
        k',
        rw now (ap (λ (x : List ℕ). x ++ n.coming) (b ∙ append-nil _) ∙ e),
        rw now (taken ∙ nothing_left),
        rw now refl,
      )

  -- A later state in which nothing is left to read, in the channel and to write.
  abbrev AllDone : MaybeTlsStream net → Settings → ℕ → List Message → Node → Type 0
  AllDone s settings size ms n =
      (n' : Node) × Reach n n'
      × Echoing s settings size ms n'
      × (chunk n'.conn.read ++ n'.coming ≡ [])
      × (chunk n'.conn.write ≡ [])
      × (queued (channel_of api n'.state) ≡ [])

  -- The first message of the channel goes into the write buffer, which is empty.
  pass_one :
      {s : MaybeTlsStream net} {settings : Settings} {size : ℕ} {ms : List Message} (n : Node)
      (m : Message) (rest : List Message) (k : Echoing s settings size ms n)
      → Takes settings ms
      → n.over ≡ none
      → 0 < settings.out_buffer_max
      → k.waiting ≡ m ∷ rest
      → chunk n.conn.write ≡ []
      → chunk n.conn.read ++ n.coming ≡ []
      → (n' : Node) × Step n n'
        × (chunk n'.conn.read ++ n'.coming ≡ [])
        × (queued (channel_of api n'.state) ≡ map command rest)
  pass_one {s} {settings} {size} {ms} n m rest k h running buffer first w e =
      let (a, q, _, _) =
        api.recv_first (channel_of api n.state) (command m) (map command rest)
          (k.in_channel ∙ ap (map command) first) in
      let ch : Channel = (api.recv (channel_of api n.state)).1 in
      let comes : api.recv (channel_of api n.state) ≡ (some (command m), ch) = λ i. (a i, ch) in
      let space : bin.len n.conn.write < n.conn.settings.out_buffer_max =
        rw (k.same_settings, bin.len-chunk n.conn.write, w) buffer in
      let content = (rw first at (waiting-Takes net bin api on_accept on_logic k h)).content.0 in
      let now =
        turn_plain net bin (Standing.echo net bin api on_accept on_logic)
          (with_channel api n.state ch) n.conn n.counters m space (content-IsPlain m content) in
      (
        received_node n (command m) ch,
        receives (command m) ch running space comes refl,
        rw now e,
        rw now q,
      )

  pass_all :
      {s : MaybeTlsStream net} {settings : Settings} {size : ℕ} {ms : List Message} (n : Node)
      (waiting : List Message) (bound : ℕ) (k : Echoing s settings size ms n)
      → Takes settings ms
      → length ms ≤ size
      → 0 < settings.out_buffer_max
      → k.waiting ≡ waiting
      → length waiting ≤ bound
      → chunk n.conn.read ++ n.coming ≡ []
      → chunk n.conn.write ≡ []
      → AllDone s settings size ms n
  pass_all n [] bound k h room buffer first small e w =
      (n, start, k, e, w, k.in_channel ∙ ap (map command) first)
  pass_all n (m ∷ rest) zero k h room buffer first small e w = absurd (omega arith)
  pass_all {s} {settings} {size} {ms} n (m ∷ rest) (suc bound) k h room buffer first small e w =
      let running = (free net bin api on_accept on_logic k room).0.0 in
      let (n₁, st₁, e₁, q₁) = pass_one n m rest k h running buffer first w e in
      let k₁ = step-Echoing net bin api on_accept on_logic h k st₁ in
      let (n₂, st₂, k₂, e₂, w₂, q₂) = flushes n₁ k₁ h room e₁ in
      let same : map command k₂.waiting ≡ map command rest = sym k₂.in_channel ∙ (q₂ ∙ q₁) in
      let fewer : length k₂.waiting ≤ bound =
        omega
          (arith, small, ap length same, length-map command rest, length-map command k₂.waiting) in
      let (n₃, r, k₃, e₃, w₃, q₃) =
        pass_all n₂ k₂.waiting bound k₂ h room buffer refl fewer e₂ w₂ in
      (n₃, joined net bin api on_accept on_logic (step (step start st₁) st₂) r, k₃, e₃, w₃, q₃)

  -- A connection starts on an open framed stream with an open and empty channel, and its peer sends
  -- texts and binaries that fit its settings, as an empty message does; its channel has room for
  -- all of them and its write buffer for a byte: from every state that its loop reaches, it can get
  -- to one where just the frames of all the messages are sent, in order.
  pub reach_progress :
      {s : MaybeTlsStream net} {settings : Settings} {size : ℕ} {ms : List Message} {n n' : Node}
      → Takes settings ms
      → Starts s settings size ms n
      → length ms ≤ size
      → 0 < settings.out_buffer_max
      → Reach n n'
      → (n'' : Node) × Reach n' n'' × (n''.sent ≡ frames net bin ms)
  reach_progress {s} {settings} {size} {ms} {n} {n'} h b room buffer r =
      let k = Reach-Echoing net bin api on_accept on_logic h b r in
      let (n₁, r₁, k₁, e₁) =
        reads_all net bin api on_accept on_logic n' k.todo
          (length (chunk n'.conn.read ++ n'.coming)) k h room refl (omega arith) in
      let (n₂, st₂, k₂, e₂, w₂, q₂) = flushes n₁ k₁ h room e₁ in
      let (n₃, r₃, k₃, e₃, w₃, q₃) =
        pass_all n₂ k₂.waiting (length k₂.waiting) k₂ h room buffer refl (omega arith) e₂ w₂ in
      (
        n₃,
        joined net bin api on_accept on_logic (step r₁ st₂) r₃,
        all_sent net bin api on_accept on_logic h k₃ room e₃ q₃ w₃,
      )
