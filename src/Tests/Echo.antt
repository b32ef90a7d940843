-- ===== src/Tests/Echo.antt =====
-- A run of examples/server_echo.rs.
use hcnet.Base.{
  ℕ, ◌≡◌, refl, ap, codes, take, drop, List, [], ◌∷◌, none, arith, length, from_utf8, is_utf8,
  eq_bytes,
}
use hcnet.Message.{Message, into_u8, from_u8}
use hcnet.Error.{NetResult, ok}
use hcnet.Settings
use hcnet.Settings.{Settings}
use hcnet.Buffer.{bytes}
use hcnet.Sender.{command, send_message}
use hcnet.Codec.{decode_message, encode_message, read_u24, message_of}
use hcnet.Tcp
use hcnet.Tcp.{stream}
use hcnet.Tcp.Process
use hcnet.Tcp.Process.{Event, wrote, read, process, open_loop, open_head, open_event}
use hcnet.Tcp.Process.Events.{Fits, frames}
use hcnet.Tcp.Run.{turn, on_read}
use hcnet.Tcp.Run.Linked.{polls, receives, start, step}
use hcnet.Echo.{ClientHandler, channel_of, on_message}
use hcnet.Echo.Standing
use hcnet.Echo.Standing.{Takes, Starts, Echoing}
use hcnet.Echo.Order.{Reach-Echoing}
use hcnet.Echo.Complete.{reach_complete}
use hcnet.Echo.Progress.{reach_progress}
use hcnet.Protocol.{away}
use hcnet.Echo.Client.{order}
use hcnet.Echo.Client.Lines.{said, Says, run-said}
use hcnet.Tests.Ids.{calm_net}
use hcnet.Tests.Queues.{queues}
use hcnet.Tests.Connection.{Conn, plain, no_counters, hi, hi-Fits}

abbrev on_accept : ClientHandler queues → Conn → NetResult ℕ (Unit {0}) × ClientHandler queues
on_accept h c = (ok tt, h)

abbrev on_logic : ClientHandler queues → NetResult ℕ (Unit {0}) × ClientHandler queues
on_logic h = (ok tt, h)

abbrev Node : Type 0
Node = Standing.Node calm_net bytes queues on_accept on_logic

abbrev Reach : Node → Node → Type 0
Reach = Standing.Reach calm_net bytes queues on_accept on_logic

abbrev word : Message
word = Message.text (111 ∷ 107 ∷ [])

abbrev both : List Message
both = hi ∷ word ∷ []

abbrev fresh : Node
fresh = record {
  over = none;
  state = record { sender = record { channel = queues.channel 2; id = 1 } };
  conn = record (Tcp.default calm_net bytes) { tcp = stream plain };
  counters = no_counters;
  coming = frames calm_net bytes both;
  sent = [];
}

abbrev poll : Node → List (Event calm_net bytes) → List ℕ → Node
poll = Standing.polled_node calm_net bytes queues on_accept on_logic

abbrev receive : Node → Message → Node
receive n m =
    Standing.received_node calm_net bytes queues on_accept on_logic n (command m)
      (queues.recv (channel_of queues n.state)).1

-- The first two bytes come in, and then all the others; the first message goes out before the second is
-- read.
abbrev first_bytes : Node
first_bytes =
    poll fresh (read (take 2 (frames calm_net bytes both)) ∷ [])
      (drop 2 (frames calm_net bytes both))

abbrev one_read : Node
one_read = poll first_bytes (read (drop 2 (frames calm_net bytes both)) ∷ []) []

abbrev one_received : Node
one_received = receive one_read hi

abbrev two_read : Node
two_read = poll one_received [] []

abbrev two_received : Node
two_received = receive two_read word

abbrev written : Node
written = poll two_received (wrote 4 ∷ wrote 8 ∷ []) []

run : Reach fresh written
unfolding turn process open_loop open_head open_event decode_message read_u24 message_of from_u8
    encode_message on_read on_message send_message into_u8 from_utf8 Process.written
run =
    step
      (step
        (step
          (step
            (step
              (step start (
                polls (read (take 2 (frames calm_net bytes both)) ∷ []) _ refl ((λ e. cc), tt)
                  (omega arith) refl refl refl))
              (polls (read (drop 2 (frames calm_net bytes both)) ∷ []) [] refl ((λ e. cc), tt)
                (omega arith) refl refl refl))
            (receives (command hi) _ refl (omega arith) refl refl))
          (polls [] [] refl tt (omega arith) refl refl refl))
        (receives (command word) _ refl (omega arith) refl refl))
      (polls (wrote 4 ∷ wrote 8 ∷ []) [] refl (tt) (omega arith) refl refl refl)

run_one : Reach fresh one_read
unfolding turn process open_loop open_head open_event decode_message read_u24 message_of from_u8
    encode_message on_read on_message send_message into_u8 from_utf8 Process.written
run_one =
    step
      (step start (
        polls (read (take 2 (frames calm_net bytes both)) ∷ []) _ refl ((λ e. cc), tt) (omega arith)
          refl refl refl))
      (polls (read (drop 2 (frames calm_net bytes both)) ∷ []) [] refl ((λ e. cc), tt) (omega arith)
        refl refl refl)

word-Fits : Fits Settings.default word
unfolding is_utf8
word-Fits = record {
  frameable = (omega arith, refl);
  three_bytes = omega arith;
  allowed = omega arith;
  buffered = omega arith;
}

empty-Fits : Fits Settings.default (Message.binary [])
empty-Fits = record {
  frameable = tt;
  three_bytes = omega arith;
  allowed = omega arith;
  buffered = omega arith;
}

both-Takes : Takes calm_net bytes queues on_accept on_logic Settings.default both
both-Takes = record {
  framed = refl;
  fit = (hi-Fits, (word-Fits, tt));
  room = empty-Fits;
  content = (tt, (tt, tt));
}

fresh-Starts : Starts calm_net bytes queues on_accept on_logic plain Settings.default 2 both fresh
fresh-Starts = record {
  running = refl;
  none_read = refl;
  none_written = refl;
  none_sent = refl;
  none_queued = refl;
  open_channel = refl;
  size_of_channel = refl;
  on_stream = refl;
  settings_of = refl;
  is_open = refl;
  comes = refl;
}

Reach-Echoing_example :
    Echoing calm_net bytes queues on_accept on_logic plain Settings.default 2 both written
Reach-Echoing_example =
    Reach-Echoing calm_net bytes queues on_accept on_logic both-Takes fresh-Starts run

reach_complete_example : (written.over ≡ none) × (written.sent ≡ frames calm_net bytes both)
unfolding turn process open_loop open_head open_event decode_message read_u24 message_of from_u8
    encode_message on_read on_message send_message into_u8 from_utf8 Process.written
reach_complete_example =
    reach_complete calm_net bytes queues on_accept on_logic both-Takes fresh-Starts (omega arith)
      run refl refl refl

reach_progress_example : (n : Node) × Reach one_read n × (n.sent ≡ frames calm_net bytes both)
reach_progress_example =
    reach_progress calm_net bytes queues on_accept on_logic both-Takes fresh-Starts (omega arith)
      (omega arith) run_one

-- One word to a line, and nothing to trim.
abbrev one_word : List ℕ → List (List ℕ)
one_word [] = []
one_word (c ∷ cs) = (c ∷ cs) ∷ []

one_word-blank : (s : List ℕ) → one_word s ≡ [] → s ≡ []
one_word-blank [] e = refl
one_word-blank (c ∷ cs) e = ground arith

abbrev typed : List (List ℕ)
typed = codes "hello" ∷ [] ∷ codes "ping" ∷ codes "exit" ∷ codes "late" ∷ []

typed-said :
    said ℕ queues (λ s. s) one_word typed
    ≡ Message.text (codes "hello")
      ∷ Message.ping (codes "empty")
      ∷ Message.close away (codes "exit")
      ∷ []
unfolding said order eq_bytes
typed-said = refl

run-said_example :
    Says ℕ queues (λ s. s) one_word typed (said ℕ queues (λ s. s) one_word typed) (queues.channel 3)
run-said_example =
    run-said ℕ queues (λ s. s) one_word typed (queues.channel 3) one_word-blank refl
      (omega (arith, ap length typed-said))
