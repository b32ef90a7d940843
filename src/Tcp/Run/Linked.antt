-- ===== src/Tcp/Run/Linked.antt =====
-- The loop of a TCP connection with what stands at its two sides: the channel of its sender, which
-- `inner_run_handler` of src/tcp/mod.rs makes and shares with the handler, and its socket.
use hcnet.Base.{ℕ, ◌≤◌, ◌<◌, ◌≡◌, List, [], ◌++◌, Option, none, some, length, take, false}
use hcnet.Error.{Command, NetResult}
use hcnet.Buffer.{BinaryMut}
use hcnet.Net.{NetApi}
use hcnet.OnlineCount.{Counters}
use hcnet.Handler.{Handler}
use hcnet.Sender.{ChannelApi}
use hcnet.Tcp.{TcpConn}
use hcnet.Tcp.Process.{Event, process}
use hcnet.Tcp.Process.Mixed.{IsUsual, input}
use hcnet.Tcp.Process.Writing.{total}
use hcnet.Tcp.Run.{polled, received, Loop, turn}

module _ {E : Type 0} (net : NetApi E) (bin : BinaryMut) (api : ChannelApi)
    (handler : Handler E (TcpConn net bin))
    -- The channel, as the handler's sender sees it.
    (channel_of : handler.State → api.Channel)
    (with_channel : handler.State → api.Channel → handler.State) where
  -- The task of a connection that does not listen, the bytes that the peer has sent and that are not read yet, and those that
  -- the socket has taken.
  pub record Node : Type 0 where
    pub over : Option (NetResult E (Unit {0}))
    pub state : handler.State
    pub conn : TcpConn net bin
    pub counters : Counters
    pub coming : List ℕ
    pub sent : List ℕ

  abbrev pub after : Node → Loop net bin handler × Counters → List ℕ → List ℕ → Node
  after n ((r, h, c), st) coming sent = record {
    over = r;
    state = h;
    conn = c;
    counters = st;
    coming = coming;
    sent = sent;
  }

  -- `process` is polled, and sees just these events: the reads bring bytes that the peer has sent, and the
  -- socket takes bytes from the front of the write buffer.
  abbrev pub poll : Node → List (Event net bin) → List ℕ → Node
  poll n es later =
      after n (turn net bin handler false n.state n.conn n.counters (polled es)) later
        (n.sent ++ take (total net bin es) (bin.chunk n.conn.write))

  -- `receiver.recv()` completes with the first command of the channel.
  abbrev pub receive : Node → Command → api.Channel → Node
  receive n cmd ch =
      after n
        (turn net bin handler false (with_channel n.state ch) n.conn n.counters
          (received (some cmd)))
        n.coming n.sent

  pub data Step (n : Node) (n' : Node) : Type 0 where
    polls :
        (es : List (Event net bin)) (later : List ℕ)
        → n.over ≡ none
        → IsUsual net bin es
        → total net bin es ≤ length (bin.chunk n.conn.write)
        → (process net bin n.conn n.counters es).0.2 ≡ []
        → n.coming ≡ input net bin es ++ later
        → n' ≡ poll n es later
        → Step n n'
    receives :
        (cmd : Command) (ch : api.Channel)
        → n.over ≡ none
        → bin.len n.conn.write < n.conn.settings.out_buffer_max
        → api.recv (channel_of n.state) ≡ (some cmd, ch)
        → n' ≡ receive n cmd ch
        → Step n n'

  -- The states that steps lead to.
  pub data Reach (n : Node) : Node → Type 0 where
    start : Reach n n
    step : {u v : Node} → Reach n u → Step u v → Reach n v
