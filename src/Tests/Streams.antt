-- ===== src/Tests/Streams.antt =====
-- The buffers and the end of a TCP stream: src/tcp/mod.rs.
use hcnet.Base.{ℕ, ◌≡◌, ◌≢◌, refl, sym, false, List, [], ◌∷◌, some, arith}
use hcnet.Message.{into_u8}
use hcnet.Tcp.Run.Sending.{run-sends}
use hcnet.Error.{ok, err, over_inbuffer_size}
use hcnet.Settings
use hcnet.Buffer.{bytes}
use hcnet.Codec.Refine.{decode_message-Agrees}
use hcnet.Tcp.Process.{process, read, wrote, elapsed}
use hcnet.Tcp.Process.Capacity.{HasRoom, process_within}
use hcnet.Tcp.Process.Writing.{Writes, process-Writes}
use hcnet.Tcp.Run.{polled, run}
use hcnet.Tcp.Run.Ending.{run_end_of_file}
use hcnet.Tcp.Process.Events.{answers, reads}
use hcnet.Tcp.Run.Delivery.{hands_over, run_delivers}
use hcnet.Tests.Ids.{calm_net}
use hcnet.Tests.Connection.{
  Conn, plain, half_read, no_counters, listener_log, hi, ho, hi-Fits, ho-Fits,
}

default-HasRoom : HasRoom Settings.default
default-HasRoom = record { head = omega arith; body = omega arith }

process_within_example :
    (process calm_net bytes half_read no_counters (read (9 ∷ []) ∷ elapsed ∷ [])).0.0
    ≢ some (err over_inbuffer_size)
process_within_example =
    process_within calm_net bytes half_read no_counters (read (9 ∷ []) ∷ elapsed ∷ []) plain refl
      refl default-HasRoom (omega arith, tt) ((omega arith, tt), (tt, tt))

-- Three bytes to write, of which the socket takes two, and then the peer ends the stream.
abbrev sending : Conn
sending = record half_read { write = record { unread = 1 ∷ 2 ∷ 3 ∷ []; at_mark = [] } }

process-Writes_example :
    Writes calm_net bytes
      (1 ∷ 2 ∷ 3 ∷ [])
      (wrote 2 ∷ read [] ∷ elapsed ∷ [])
      (process calm_net bytes sending no_counters (wrote 2 ∷ read [] ∷ elapsed ∷ [])).0
process-Writes_example =
    process-Writes calm_net bytes sending no_counters (wrote 2 ∷ read [] ∷ elapsed ∷ []) plain refl
      (omega arith)

run_end_of_file_example :
    let ((r, h, c), st) =
      run calm_net bytes listener_log false [] half_read no_counters (polled (read [] ∷ []) ∷ []) in
    (r ≡ some (ok tt)) × (h ≡ []) × (c.read.unread ≡ 0 ∷ []) × (st ≡ no_counters)
run_end_of_file_example =
    run_end_of_file calm_net bytes listener_log false [] half_read no_counters [] [] plain refl refl
      (omega arith, tt)
      (decode_message-Agrees bytes {E = ℕ} half_read.read half_read.settings (omega arith, tt)).0
      (omega arith)

-- An end with nothing read, and the two frames as they come in.
abbrev idle : Conn
idle = record half_read { read = record { unread = []; at_mark = [] } }

abbrev parts : List (List ℕ)
parts = (0 ∷ 0 ∷ 6 ∷ 2 ∷ 104 ∷ 105 ∷ 0 ∷ []) ∷ (0 ∷ 5 ∷ 9 ∷ 3 ∷ []) ∷ []

run_delivers_example :
    answers calm_net bytes 2 idle no_counters (reads calm_net bytes parts)
    ≡ hands_over calm_net bytes listener_log hi ∷ hands_over calm_net bytes listener_log ho ∷ []
unfolding into_u8
run_delivers_example =
    run_delivers calm_net bytes listener_log (hi ∷ ho ∷ []) [] half_read idle no_counters
      no_counters parts plain (tt, (tt, tt)) refl refl (omega arith) refl refl refl refl
      (hi-Fits, (ho-Fits, tt)) ((λ e. cc), ((λ e. cc), tt))
      (sym
        (run-sends calm_net bytes listener_log (hi ∷ ho ∷ []) [] half_read no_counters
          (tt, (tt, tt)) (omega arith)).2)
