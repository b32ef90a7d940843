-- ===== src/Tcp/Run/Reading.antt =====
-- The turn of the loop in which an open TCP stream is polled, in `inner_run_with_handler` of
-- src/tcp/mod.rs.
use hcnet.Base.{◌≡◌, refl, ap, ◌∙◌, false, List, none, some}
use hcnet.Message.{Message}
use hcnet.Error.{NetError, ok, err}
use hcnet.Buffer.{BinaryMut}
use hcnet.Net.{NetApi}
use hcnet.Stream.{MaybeTlsStream}
use hcnet.OnlineCount.{Counters}
use hcnet.Handler.{Handler}
use hcnet.Tcp.{TcpConn, opened, stream}
use hcnet.Tcp.Process.{Event, TcpReceiver, open_loop}
use hcnet.Tcp.Process.Open.{process_open}
use hcnet.Tcp.Run.{polled, Loop, on_read, on_processed, on_polled, turn}

-- A message for `on_message`.
abbrev pub IsContent : Message → Type 0
IsContent (Message.text t) = Unit {0}
IsContent (Message.binary v) = Unit {0}
IsContent _ = ⊥

module _ {E : Type 0} (net : NetApi E) (bin : BinaryMut)
    (handler : Handler E (TcpConn net bin)) where
  open handler use {State, on_message}

  turn_open :
      (h : State) (c : TcpConn net bin) (st : Counters) (es : List (Event net bin))
      (s : MaybeTlsStream net)
      → c.tcp ≡ stream s
      → c.state ≡ opened
      → turn net bin handler false h c st (polled es)
        ≡ (on_polled net bin handler h (open_loop net bin c es).0 (open_loop net bin c es).1, st)
  unfolding turn
  turn_open h c st es s t o = rw (process_open net bin c st es s t o) refl

  pub turn_waits :
      (h : State) (c : TcpConn net bin) (st : Counters) (es : List (Event net bin))
      (s : MaybeTlsStream net)
      → c.tcp ≡ stream s
      → c.state ≡ opened
      → (open_loop net bin c es).0 ≡ none
      → turn net bin handler false h c st (polled es) ≡ ((none, h, (open_loop net bin c es).1), st)
  unfolding on_polled
  turn_waits h c st es s t o a = turn_open h c st es s t o ∙ rw a refl

  on_read_goes_on :
      (h : State) (c : TcpConn net bin) (m : Message)
      → IsContent m
      → (on_message h m).0 ≡ ok tt
      → on_read net bin handler h c m ≡ (none, (on_message h m).1, c)
  unfolding on_read
  on_read_goes_on h c (Message.text t) k a = rw a refl
  on_read_goes_on h c (Message.binary v) k a = rw a refl
  on_read_goes_on h c _ k a = absurd k

  on_read_ends :
      (h : State) (c : TcpConn net bin) (m : Message) (e : NetError E)
      → IsContent m
      → (on_message h m).0 ≡ err e
      → on_read net bin handler h c m ≡ (some (err e), (on_message h m).1, c)
  unfolding on_read
  on_read_ends h c (Message.text t) e k a = rw a refl
  on_read_ends h c (Message.binary v) e k a = rw a refl
  on_read_ends h c _ e k a = absurd k

  -- What `process` hands over goes to `on_read`.
  turn_read :
      (h : State) (c : TcpConn net bin) (st : Counters) (es : List (Event net bin))
      (s : MaybeTlsStream net) (m : Message)
      → c.tcp ≡ stream s
      → c.state ≡ opened
      → (open_loop net bin c es).0 ≡ some (ok (TcpReceiver.read m))
      → turn net bin handler false h c st (polled es)
        ≡ (on_read net bin handler h (open_loop net bin c es).1 m, st)
  unfolding on_polled on_processed
  turn_read h c st es s m t o a = turn_open h c st es s t o ∙ rw a refl

  pub turn_reads :
      (h : State) (c : TcpConn net bin) (st : Counters) (es : List (Event net bin))
      (s : MaybeTlsStream net) (m : Message)
      → c.tcp ≡ stream s
      → c.state ≡ opened
      → (open_loop net bin c es).0 ≡ some (ok (TcpReceiver.read m))
      → IsContent m
      → (on_message h m).0 ≡ ok tt
      → turn net bin handler false h c st (polled es)
        ≡ ((none, (on_message h m).1, (open_loop net bin c es).1), st)
  turn_reads h c st es s m t o a k b =
      turn_read h c st es s m t o a
      ∙ ap (λ (l : Loop net bin handler). (l, st))
          (on_read_goes_on h (open_loop net bin c es).1 m k b)

  pub turn_fails :
      (h : State) (c : TcpConn net bin) (st : Counters) (es : List (Event net bin))
      (s : MaybeTlsStream net) (m : Message) (e : NetError E)
      → c.tcp ≡ stream s
      → c.state ≡ opened
      → (open_loop net bin c es).0 ≡ some (ok (TcpReceiver.read m))
      → IsContent m
      → (on_message h m).0 ≡ err e
      → turn net bin handler false h c st (polled es)
        ≡ ((some (err e), (on_message h m).1, (open_loop net bin c es).1), st)
  turn_fails h c st es s m e t o a k b =
      turn_read h c st es s m t o a
      ∙ ap (λ (l : Loop net bin handler). (l, st))
          (on_read_ends h (open_loop net bin c es).1 m e k b)
