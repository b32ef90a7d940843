-- ===== src/Tcp/Run/Ending.antt =====
-- How the loop of a TCP connection ends.
use hcnet.Base.{
  ℕ, ◌<◌, ◌≡◌, refl, ap, Bool, List, [], ◌∷◌, All, Option, none, some, codes, ◌⊎◌, inl, inr,
}
use hcnet.Protocol.{CloseCode, error}
use hcnet.Message.{Message}
use hcnet.Error.{NetError, NetResult, ok, err, io}
use hcnet.Buffer.{BinaryMut}
use hcnet.Net.{NetApi}
use hcnet.OnlineCount.{Counters}
use hcnet.Handler.{Handler}
use hcnet.Stream.{MaybeTlsStream}
use hcnet.Codec.{decode_message}
use hcnet.Codec.Frame.{IsByte}
use hcnet.Tcp.{TcpConn, opened, closing, stream}
use hcnet.Tcp.Process.{Event, read, TcpReceiver, open_loop, closing_loop}
use hcnet.Tcp.Process.Open.{open_loop_end, process_open}
use hcnet.Tcp.Process.Closing.{Ends, process_closing, closing_loop-Ends}
use hcnet.Tcp.Run.{
  Turn, polled, Loop, on_read, on_processed, on_polled, turn, run, inner_run_with_handler,
  inner_run_handler, told,
}

module _ {E : Type 0} (net : NetApi E) (bin : BinaryMut)
    (handler : Handler E (TcpConn net bin)) where
  open handler use {State, on_close}

  -- What `process` gives on a connection that is closing makes no callback.
  on_polled_quiet :
      (h : State) (p : Option (NetResult E (TcpReceiver net bin))) (c : TcpConn net bin)
      → (p ≡ none)
        ⊎ (p ≡ some (ok (TcpReceiver.read Message.shutdown)))
        ⊎ ((e : E) × (p ≡ some (err (io e))))
      → (on_polled net bin handler h p c).1 ≡ h
  unfolding on_polled
  on_polled_quiet h p c (inl e) = rw (e, on_polled)
  on_polled_quiet h p c (inr (inl e)) = rw (e, on_polled)
  on_polled_quiet h p c (inr (inr (x, e))) = rw (e, on_polled)

  forget :
      (s : MaybeTlsStream net) (code : CloseCode) (reason : List ℕ)
      (p : Option (NetResult E (TcpReceiver net bin)) × TcpConn net bin × List (Event net bin))
      → Ends net bin s code reason p
      → (p.0 ≡ none)
        ⊎ (p.0 ≡ some (ok (TcpReceiver.read Message.shutdown)))
        ⊎ ((e : E) × (p.0 ≡ some (err (io e))))
  forget s code reason p (_, inl e) = inl e
  forget s code reason p (_, inr (inl (e, _))) = inr (inl e)
  forget s code reason p (_, inr (inr (x, e, _))) = inr (inr (x, e))

  -- On a stream that is closing, a turn of the loop in which `process` is polled makes no callback,
  -- whatever the peer has sent.
  pub turn_closing_quiet :
      (listens : Bool) (h : State) (c : TcpConn net bin) (st : Counters) (es : List (Event net bin))
      (s : MaybeTlsStream net) (code : CloseCode) (reason : List ℕ)
      → c.tcp ≡ stream s
      → c.state ≡ closing code reason
      → (turn net bin handler listens h c st (polled es)).0.1 ≡ h
  unfolding turn
  turn_closing_quiet listens h c st es s code reason t o =
      rw (process_closing net bin c code reason st es s t o) (
        on_polled_quiet h _ _ (
          forget s code reason (closing_loop net bin c es)
            (closing_loop-Ends net bin s code reason c es t o)))

  -- `inner_run_handler` ends as `inner_run_with_handler` does, and leaves the same connection; it
  -- calls `on_close`, with the code `Error` and the reason "NetError", if that is an error, and makes
  -- no callback of its own if it is not.
  pub inner_run_handler_errors :
      (h : State) (c : TcpConn net bin) (st : Counters) (ts : List (Turn net bin handler))
      → let ((r, h₁, c₁), st₁) = inner_run_with_handler net bin handler h c st ts in
        let ((r', h₂, c₂), st₂) = inner_run_handler net bin handler h c st ts in
        (r' ≡ r)
        × (c₂ ≡ c₁)
        × (((e : NetError E) × (r ≡ some (err e)) × (h₂ ≡ on_close h₁ error (codes "NetError")))
            ⊎ (((r ≡ none) ⊎ (r ≡ some (ok tt))) × (h₂ ≡ h₁)))
  unfolding inner_run_handler
  inner_run_handler_errors h c st ts = go (inner_run_with_handler net bin handler h c st ts)
    where
      go :
          (p : Loop net bin handler × Counters)
          → ((told net bin handler p).0.0 ≡ p.0.0)
            × ((told net bin handler p).0.2 ≡ p.0.2)
            × (((e : NetError E) × (p.0.0 ≡ some (err e))
                  × ((told net bin handler p).0.1 ≡ on_close p.0.1 error (codes "NetError")))
                ⊎ (((p.0.0 ≡ none) ⊎ (p.0.0 ≡ some (ok tt)))
                    × ((told net bin handler p).0.1 ≡ p.0.1)))
      go ((some (err e), h, c), st) = (refl, refl, inl (e, refl, refl))
      go ((some (ok tt), h, c), st) = (refl, refl, inr (inr refl, refl))
      go ((none, h, c), st) = (refl, refl, inr (inl refl, refl))

  turn_shutdown :
      (listens : Bool) (h : State) (c : TcpConn net bin) (st : Counters) (es : List (Event net bin))
      (s : MaybeTlsStream net)
      → c.tcp ≡ stream s
      → c.state ≡ opened
      → (open_loop net bin c es).0 ≡ some (ok (TcpReceiver.read Message.shutdown))
      → turn net bin handler listens h c st (polled es)
        ≡ ((some (ok tt), h, (open_loop net bin c es).1), st)
  unfolding turn on_polled on_processed on_read
  turn_shutdown listens h c st es s t o e = rw (process_open net bin c st es s t o, e) refl

  run_stops :
      (listens : Bool) (h : State) (c : TcpConn net bin) (st : Counters) (t : Turn net bin handler)
      (ts : List (Turn net bin handler)) (r : NetResult E (Unit {0})) (h' : State)
      (c' : TcpConn net bin) (st' : Counters)
      → turn net bin handler listens h c st t ≡ ((some r, h', c'), st')
      → run net bin handler listens h c st (t ∷ ts) ≡ ((some r, h', c'), st')
  unfolding run
  run_stops listens h c st t ts r h' c' st' e = ap after e
    where
      after : Loop net bin handler × Counters → Loop net bin handler × Counters
      after p =
          let rest = run net bin handler listens p.0.1 p.0.2 p.1 ts in
          elim p.0.0 [ some r ↦ ((some r, p.0.1, p.0.2), p.1) | none ↦ rest ]

  -- If the peer ends an open stream while `decode_message` waits for the rest of a message and the
  -- buffer is not full, the loop ends with `Ok`, and no callback is made; the part of the message stays
  -- in the buffer.
  pub run_end_of_file :
      (listens : Bool) (h : State) (c : TcpConn net bin) (st : Counters) (es : List (Event net bin))
      (ts : List (Turn net bin handler)) (s : MaybeTlsStream net)
      → c.tcp ≡ stream s
      → c.state ≡ opened
      → All IsByte (bin.chunk c.read)
      → (decode_message bin {E = E} c.read c.settings).0 ≡ ok none
      → bin.len c.read < c.settings.in_buffer_max
      → let ((r, h', c'), st') = run net bin handler listens h c st (polled (read [] ∷ es) ∷ ts) in
        (r ≡ some (ok tt)) × (h' ≡ h) × (bin.chunk c'.read ≡ bin.chunk c.read) × (st' ≡ st)
  run_end_of_file listens h c st es ts s t o b w room =
      let e = open_loop_end net bin c es b w room in
      let last = turn_shutdown listens h c st (read [] ∷ es) s t o e.0 in
      rw (run_stops listens h c st (polled (read [] ∷ es)) ts _ _ _ _ last) (refl, refl, e.1, refl)
