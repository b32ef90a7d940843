-- ===== src/Tests/Packets.antt =====
-- KCP connections: src/kcp.
use hcnet.Base.{ℕ, ◌≡◌, refl, List, some, [], ◌∷◌, map, codes}
use hcnet.Protocol.{normal}
use hcnet.Buffer.{bytes}
use hcnet.Ws.Handshake.{returned}
use hcnet.Tcp.Process
use hcnet.Kcp
use hcnet.Kcp.{KcpConn, closing, stream}
use hcnet.Kcp.Process.{Polled, TcpReceiver, process, read, wrote, elapsed}
use hcnet.Kcp.Process.Calls.{answers, answers_in_order}
use hcnet.Message.{into_u8}
use hcnet.Error.{ok}
use hcnet.Kcp.Process.Opened.{as_tcp, event_as}
use hcnet.Kcp.Process.AsTcp.{Follows, process-as_tcp}
use hcnet.Tests.Ids.{calm_net}
use hcnet.Tests.Connection.{plain, no_counters, hi, ho, hi-Fits, ho-Fits}

-- A closing stream with two bytes to write.
abbrev two_left : KcpConn calm_net ℕ bytes
two_left = record (Kcp.default calm_net ℕ bytes) {
  kcp = stream 5;
  state = closing normal (codes "bye");
  write = record { unread = 8 ∷ 9 ∷ []; at_mark = [] };
}

process-as_tcp_example :
    (p : Polled calm_net ℕ bytes) × (process calm_net ℕ bytes two_left (wrote 2 ∷ elapsed ∷ [])
      ≡ returned p)
    × Follows calm_net ℕ bytes plain two_left.state p
        (Process.process calm_net bytes
          (as_tcp calm_net ℕ bytes plain two_left)
          no_counters
          (map (event_as calm_net ℕ bytes plain) (wrote 2 ∷ elapsed ∷ []))).0
process-as_tcp_example =
    process-as_tcp calm_net ℕ bytes plain two_left no_counters 5 (wrote 2 ∷ elapsed ∷ []) refl

-- An open stream that has read the first byte of a frame.
abbrev half_read : KcpConn calm_net ℕ bytes
half_read = record (Kcp.default calm_net ℕ bytes) {
  kcp = stream 5;
  read = record { unread = 0 ∷ []; at_mark = [] };
}

-- The rest of one frame and a part of the next, and then the rest of that.
abbrev pieces : List (List ℕ)
pieces = (0 ∷ 6 ∷ 2 ∷ 104 ∷ 105 ∷ 0 ∷ 0 ∷ []) ∷ (5 ∷ 9 ∷ 3 ∷ []) ∷ []

answers_in_order_example :
    answers calm_net ℕ bytes 2 half_read (map read pieces)
    ≡ returned (some (ok (TcpReceiver.read hi))) ∷ returned (some (ok (TcpReceiver.read ho))) ∷ []
unfolding into_u8
answers_in_order_example =
    answers_in_order calm_net ℕ bytes plain (hi ∷ ho ∷ []) half_read pieces 5 refl refl refl
      (hi-Fits, (ho-Fits, tt)) ((λ e. cc), ((λ e. cc), tt)) refl
