-- ===== src/Tests/Connection.antt =====
-- TCP connections: src/tcp and src/stream.rs.
use hcnet.Base.{
  ℕ, ◌*◌, ◌^◌, ◌≤◌, ◌<◌, ◌≡◌, ◌≢◌, ◌↔◌, refl, true, false, List, [], ◌∷◌, some, none, length, arith,
}
use hcnet.Protocol.{normal}
use hcnet.Message.{Message, into_u8}
use hcnet.Error.{ok, err, timeout}
use hcnet.Settings
use hcnet.Settings.{Settings}
use hcnet.Buffer.{bytes}
use hcnet.Stream.{MaybeTlsStream}
use hcnet.Listener
use hcnet.Listener.{WrapListener}
use hcnet.OnlineCount
use hcnet.OnlineCount.{Counters, OnlineCount}
use hcnet.Handler.{Handler}
use hcnet.Codec.Frame.{wire}
use hcnet.Tcp
use hcnet.Tcp.{
  TcpConn, opened, closing, stream, bind_with_listener, connect_with_timeout, is_listen,
}
use hcnet.Tcp.Construct.{connect_with_timeout_deadline, answers_after}
use hcnet.Tcp.Process.{Event, listen, TcpReceiver, next, process, close, elapsed, wrote}
use hcnet.Tcp.Process.Events.{answers, reads, Fits, process_in_order}
use hcnet.Tcp.Process.Closing.{Ends, after_calls, close-process}
use hcnet.Tcp.Process.Bound.{bound_limit}
use hcnet.Tcp.Process.Limit.{Site, Reach, here, then, arrive, connections_bounded}
use hcnet.Tests.Ids.{calm_net, one_rsa_key}

abbrev pub Conn : Type 0
Conn = TcpConn calm_net bytes

-- A plain stream that has read the first byte of a frame.
abbrev pub plain : MaybeTlsStream calm_net
plain = MaybeTlsStream.stream 7

abbrev pub half_read : Conn
half_read = record (Tcp.default calm_net bytes) {
  tcp = stream plain;
  read = record { unread = 0 ∷ []; at_mark = [] };
}

unfoldable pub no_counters : Counters
no_counters = record { cell = λ i. 0; next = 0 }

abbrev pub hi : Message
hi = Message.binary (104 ∷ 105 ∷ [])

abbrev pub ho : Message
ho = Message.ping (3 ∷ [])

pub hi-Fits : Fits Settings.default hi
hi-Fits = record {
  frameable = omega arith;
  three_bytes = omega arith;
  allowed = omega arith;
  buffered = omega arith;
}

pub ho-Fits : Fits Settings.default ho
ho-Fits = record {
  frameable = omega arith;
  three_bytes = omega arith;
  allowed = omega arith;
  buffered = omega arith;
}

-- The rest of one frame and a part of the next, and then the rest of that.
abbrev pieces : List (List ℕ)
pieces = (0 ∷ 6 ∷ 2 ∷ 104 ∷ 105 ∷ 0 ∷ 0 ∷ []) ∷ (5 ∷ 9 ∷ 3 ∷ []) ∷ []

process_in_order_example :
    answers calm_net bytes 2 half_read no_counters (reads calm_net bytes pieces)
    ≡ some (ok (TcpReceiver.read hi)) ∷ some (ok (TcpReceiver.read ho)) ∷ []
unfolding into_u8
process_in_order_example =
    process_in_order calm_net bytes (hi ∷ ho ∷ []) half_read no_counters pieces plain refl refl refl
      (hi-Fits, (ho-Fits, tt)) ((λ e. cc), ((λ e. cc), tt)) refl

-- One call takes two bytes of the close frame, and the next call the rest and the sleep after it.
abbrev two_written : List (List (Event calm_net bytes))
two_written = (wrote 2 ∷ []) ∷ []

close-process_example :
    let (r, c') = close calm_net bytes half_read normal [] in
    let (d, st') = after_calls calm_net bytes c' no_counters two_written in
    (r ≡ ok tt)
    × (c'.write.unread ≡ wire false (Message.close normal []))
    × Ends calm_net bytes plain normal [] (process calm_net bytes d st' (wrote 4 ∷ [])).0
    × ((process calm_net bytes d st' (wrote 4 ∷ elapsed ∷ [])).0.0 ≢ none)
close-process_example =
    close-process calm_net bytes half_read normal [] no_counters two_written (wrote 4 ∷ []) plain
      refl

-- A listener for one connection, at counter 0.
abbrev one_only : Conn
one_only = record (Tcp.default calm_net bytes) {
  settings = record Settings.default { max_connections = 1 };
  count = record { count = some 0 };
}

abbrev server : WrapListener calm_net
server = record { server_id = 2 * 2 ^ 32; next_connection_id = 0; domain = none; accepter = none }

abbrev fresh : Site calm_net bytes 0
fresh = record { conn = one_only; counters = no_counters; live = 0 }

-- A handler that keeps the close codes it is told.
abbrev pub listener_log : Handler ℕ Conn
listener_log = record {
  State = List ℕ;
  on_accept = λ h c. (ok tt, h);
  on_open = λ h. (ok tt, h);
  on_close = λ h code reason. length reason ∷ h;
  on_ping = λ h v. (ok (some v), h);
  on_pong = λ h v. (ok tt, h);
  on_message = λ h m. (ok tt, h);
  on_logic = λ h. (ok tt, h);
}

connect_with_timeout_deadline_example :
    (connect_with_timeout calm_net bytes (answers_after calm_net bytes 30000 7) (500 * 1000) 1
      ≡ err timeout)
    ↔ (500 * 1000 < 30000)
connect_with_timeout_deadline_example =
    connect_with_timeout_deadline calm_net bytes 500 30000 1 7 (omega arith)

-- The listener after it has taken a connection.
abbrev busy : Site calm_net bytes 0
busy = record {
  conn = (listen calm_net bytes one_only server no_counters (ok (7, 8))).1;
  counters = (listen calm_net bytes one_only server no_counters (ok (7, 8))).2;
  live = 1;
}

one_arrives : Reach calm_net bytes 0 fresh busy
unfolding listen Listener.accept OnlineCount.now OnlineCount.add no_counters
one_arrives = then here (arrive fresh server (ok (7, 8)))

connections_bounded_example : (OnlineCount.now busy.conn.count busy.counters ≡ 1) × (1 ≤ 1)
unfolding no_counters
connections_bounded_example =
    connections_bounded calm_net bytes 0 one_only no_counters refl refl (omega arith) one_arrives

-- What was asked for, and what the listening connection has.
abbrev raw_settings : Settings
raw_settings = record Settings.default { is_raw = true; max_connections = 2 }

abbrev bound : Conn
bound = record (Tcp.default calm_net bytes) {
  tcp = Tcp.listener (record server { server_id = 4 * 2 ^ 32 });
  id = 4;
  count = record { count = some 0 };
}

bound_raw :
    bind_with_listener calm_net bytes one_rsa_key (λ cs k. ok 1) 4 raw_settings no_counters
    ≡ ok (bound, (OnlineCount.new no_counters).1)
unfolding bind_with_listener Listener.new OnlineCount.new no_counters
bound_raw = refl

-- The bound listener when it has taken a connection.
abbrev taken_one : Site calm_net bytes 0
taken_one =
    let (_, c, st) =
      listen calm_net bytes bound server (OnlineCount.new no_counters).1 (ok (7, 8)) in
    record { conn = c; counters = st; live = 1 }

bound_takes_one :
    Reach calm_net bytes 0
      (record { conn = bound; counters = (OnlineCount.new no_counters).1; live = 0 })
      taken_one
unfolding listen Listener.accept OnlineCount.now OnlineCount.add OnlineCount.new no_counters
bound_takes_one = then here (arrive _ server (ok (7, 8)))

bound_limit_example :
    let (r, _, _) = listen calm_net bytes taken_one.conn server taken_one.counters (ok (9, 10)) in
    (((d : Conn) × (r ≡ ok (TcpReceiver.accept d))) ↔ (1 < 1024)) × ((r ≡ ok next) ↔ (1024 ≤ 1))
unfolding no_counters
bound_limit_example =
    bound_limit calm_net bytes one_rsa_key (λ cs k. ok 1) 4 raw_settings no_counters
      (OnlineCount.new no_counters).1 bound taken_one server (9, 10) bound_raw bound_takes_one
