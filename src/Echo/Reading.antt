-- ===== src/Echo/Reading.antt =====
-- How a connection of examples/server_echo.rs gets to read everything.
use hcnet.Base.{
  ℕ, zero, suc, ◌≤◌, ◌<◌, ◌≡◌, ◌≢◌, refl, sym, ap, ◌∙◌, false, List, [], ◌∷◌, ◌++◌, length,
  length-append, append-nil, append-Cuts, All-append_left, inl, inr, arith,
}
use hcnet.Message.{Message}
use hcnet.Error.{NetResult, Command}
use hcnet.Settings.{Settings}
use hcnet.Buffer.{BinaryMut}
use hcnet.Net.{NetApi}
use hcnet.Stream.{MaybeTlsStream}
use hcnet.OnlineCount.{Counters}
use hcnet.Sender.{ChannelApi}
use hcnet.Codec.Frame.{IsByte, wire}
use hcnet.Tcp.{TcpConn, opened}
use hcnet.Tcp.Process.{Event, open_loop, open_head, Polled, process}
use hcnet.Tcp.Process.Events.{
  frames, frames-IsByte, open_head_whole, open_head_part, open_loop_read,
}
use hcnet.Tcp.Process.Single.{open_loop_end_of_events, head-Same, head_read, both, Same}
use hcnet.Tcp.Process.Mixed.{IsUsual, input, Gives}
use hcnet.Tcp.Process.Open.{process_open}
use hcnet.Tcp.Process.Writing.{total}
use hcnet.Tcp.Run.Reading.{IsContent}
use hcnet.Tcp.Run.Linked.{polls, start, step}
use hcnet.Echo.{ClientHandler}
use hcnet.Echo.Standing
use hcnet.Echo.Standing.{taken_off}
use hcnet.Echo.Turns.{Echoing-reads}
use hcnet.Echo.Complete.{free, todo-Takes}

cons-ne-nil : (x : ℕ) (xs : List ℕ) → x ∷ xs ≢ []
cons-ne-nil x xs h = ground arith

wire_some : (m : Message) → IsContent m → 0 < length (wire false m)
wire_some (Message.text t) h = ground arith
wire_some (Message.binary v) h = ground arith
wire_some _ h = absurd h

module _ {E : Type 0} (net : NetApi E) (bin : BinaryMut) (api : ChannelApi)
    (on_accept : ClientHandler api → TcpConn net bin → NetResult E (Unit {0}) × ClientHandler api)
    (on_logic : ClientHandler api → NetResult E (Unit {0}) × ClientHandler api) where
  open bin use {chunk}
  open api use {Channel, queued, capacity, is_closed}

  abbrev Node : Type 0
  Node = Standing.Node net bin api on_accept on_logic

  abbrev Echoing : MaybeTlsStream net → Settings → ℕ → List Message → Node → Type 0
  Echoing = Standing.Echoing net bin api on_accept on_logic

  abbrev GoesOn : Node → List Message → Type 0
  GoesOn = Standing.GoesOn net bin api on_accept on_logic

  abbrev polled_node : Node → List (Event net bin) → List ℕ → Node
  polled_node = Standing.polled_node net bin api on_accept on_logic

  abbrev received_node : Node → Command → Channel → Node
  received_node = Standing.received_node net bin api on_accept on_logic

  abbrev Step : Node → Node → Type 0
  Step = Standing.Step net bin api on_accept on_logic

  abbrev Reach : Node → Node → Type 0
  Reach = Standing.Reach net bin api on_accept on_logic

  abbrev Takes : Settings → List Message → Type 0
  Takes = Standing.Takes net bin api on_accept on_logic

  abbrev Starts : MaybeTlsStream net → Settings → ℕ → List Message → Node → Type 0
  Starts = Standing.Starts net bin api on_accept on_logic

  -- A call of `process` that reads the next message, in one piece with all that is there.
  record Whole (n : Node) (m : Message) (rest : List Message) : Type 0 where
    events : List (Event net bin)
    left : List ℕ
    usual : IsUsual net bin events
    none_written : total net bin events ≤ length (chunk n.conn.write)
    cut : n.coming ≡ input net bin events ++ left
    all_seen : (open_loop net bin n.conn events).2 ≡ []
    same : Same net bin n.conn (open_loop net bin n.conn events).1
    gives : Gives net bin m (frames net bin rest) left (open_loop net bin n.conn events)

  next-Whole :
      (n : Node) (m : Message) (rest : List Message)
      → n.conn.state ≡ opened
      → Takes n.conn.settings (m ∷ rest)
      → chunk n.conn.read ++ n.coming ≡ frames net bin (m ∷ rest)
      → Whole n m rest
  next-Whole n m rest o h e =
      let hr = frames-IsByte net bin n.conn.settings rest h.fit.1 in
      elim (append-Cuts (chunk n.conn.read) n.coming (wire false m) (frames net bin rest) e) [
        | inl (t, p, q) ↦
            let w =
              open_head_whole net bin n.conn m t h.framed h.fit.0
                (All-append_left IsByte t n.coming (rw q at hr)) p in
            let ends = open_loop_end_of_events net bin n.conn in
            record {
              events = [];
              left = n.coming;
              usual = tt;
              none_written = omega arith;
              cut = refl;
              all_seen = ap (λ (x : Polled net bin). x.2) ends;
              same = rw ends (head-Same net bin n.conn);
              gives =
                  rw ends (w.0, ap (λ (x : List ℕ). x ++ n.coming) (append-nil _ ∙ w.1) ∙ sym q);
            }
        | inr (x, t, p, q) ↦
            let w = open_head_part net bin n.conn m x t h.framed h.fit.0 p in
            let c' : TcpConn net bin = record (open_head net bin n.conn).1 {
              read = bin.advance_mut (open_head net bin n.conn).1.read n.coming;
            } in
            let k = head_read net bin n.conn n.coming in
            let some_come : n.coming ≢ [] = λ none_come. cons-ne-nil x _ (sym q ∙ none_come) in
            let ends =
              open_loop_read net bin n.conn n.coming [] w.0 some_come
              ∙ open_loop_end_of_events net bin c' in
            let now =
              bin.chunk-advance_mut _ n.coming ∙ ap (λ (x : List ℕ). x ++ n.coming) w.1 ∙ e in
            let v =
              open_head_whole net bin c' m (frames net bin rest) (rw (k.settings) (h.framed))
                (rw (k.settings) (h.fit.0)) hr now in
            record {
              events = Event.read n.coming ∷ [];
              left = [];
              usual = (some_come, tt);
              none_written = omega arith;
              cut = sym (append-nil _ ∙ append-nil n.coming);
              all_seen = ap (λ (x : Polled net bin). x.2) ends;
              same = rw ends (both net bin n.conn c' _ k (head-Same net bin c'));
              gives = rw ends (v.0, append-nil _ ∙ append-nil _ ∙ v.1);
            }
      ]

  -- The next message is read and put into the channel.
  abbrev Reads :
      (s : MaybeTlsStream net) (settings : Settings) (size : ℕ) (ms : List Message) (n : Node)
      → List Message
      → Type 0
  Reads s settings size ms n rest =
      (n' : Node) × Step n n'
      × Echoing s settings size ms n'
      × (chunk n'.conn.read ++ n'.coming ≡ frames net bin rest)

  read_one :
      {s : MaybeTlsStream net} {settings : Settings} {size : ℕ} {ms : List Message} {n : Node}
      (m : Message) (rest : List Message) (k : Echoing s settings size ms n)
      → Takes settings (m ∷ rest)
      → length ms ≤ size
      → k.todo ≡ m ∷ rest
      → Reads s settings size ms n rest
  read_one {s} {settings} {size} {ms} {n} m rest k h room first =
      let (going, space) = free net bin api on_accept on_logic k room in
      let w =
        next-Whole n m rest k.same_state (rw (k.same_settings) h)
          (going.1 ∙ ap (frames net bin) first) in
      let (k', unread) =
        Echoing-reads net bin api on_accept on_logic w.events w.left m rest k first h.content.0
          (omega (arith, space, ap length first)) w.none_written w.all_seen w.same w.gives in
      let seen : (process net bin n.conn n.counters w.events).0.2 ≡ [] =
        ap (λ (x : Polled net bin × Counters). x.0.2)
          (process_open net bin n.conn n.counters w.events s k.same_tcp k.same_state)
        ∙ w.all_seen in
      (
        polled_node n w.events w.left,
        polls w.events w.left going.0 w.usual w.none_written seen w.cut refl,
        k',
        unread,
      )

  -- A later state in which there is nothing left to read.
  abbrev pub AllRead : MaybeTlsStream net → Settings → ℕ → List Message → Node → Type 0
  AllRead s settings size ms n =
      (n' : Node) × Reach n n'
      × Echoing s settings size ms n'
      × (chunk n'.conn.read ++ n'.coming ≡ [])

  pub joined : {u v w : Node} → Reach u v → Reach v w → Reach u w
  joined r start = r
  joined r (step q st) = step (joined r q) st

  pub reads_all :
      {s : MaybeTlsStream net} {settings : Settings} {size : ℕ} {ms : List Message} (n : Node)
      (todo : List Message) (bound : ℕ) (k : Echoing s settings size ms n)
      → Takes settings ms
      → length ms ≤ size
      → k.todo ≡ todo
      → length (chunk n.conn.read ++ n.coming) ≤ bound
      → AllRead s settings size ms n
  reads_all n [] bound k h room at_end small =
      (n, start, k, (free net bin api on_accept on_logic k room).0.1 ∙ ap (frames net bin) at_end)
  reads_all n (m ∷ rest) zero k h room first small =
      let going = (free net bin api on_accept on_logic k room).0.1 ∙ ap (frames net bin) first in
      let content = (rw first at (todo-Takes net bin api on_accept on_logic k h)).content.0 in
      absurd (
        omega (
          arith,
          ap length going,
          length-append (wire false m) (frames net bin rest),
          wire_some m content,
          small,
        ))
  reads_all n (m ∷ rest) (suc bound) k h room first small =
      let (n₁, st, k₁, unread) =
        read_one m rest k (rw first at (todo-Takes net bin api on_accept on_logic k h)) room
          first in
      let going = (free net bin api on_accept on_logic k room).0.1 ∙ ap (frames net bin) first in
      let content = (rw first at (todo-Takes net bin api on_accept on_logic k h)).content.0 in
      let smaller : length (chunk n₁.conn.read ++ n₁.coming) ≤ bound = omega (
        arith,
        ap length going,
        length-append (wire false m) (frames net bin rest),
        wire_some m content,
        ap length unread,
        small,
      ) in
      let (n₂, r, k₂, e) = reads_all n₁ k₁.todo bound k₁ h room refl smaller in
      (n₂, joined (step start st) r, k₂, e)
