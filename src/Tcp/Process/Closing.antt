-- ===== src/Tcp/Process/Closing.antt =====
-- A TCP connection after `close`.
use hcnet.Base.{
  ℕ, ◌≡◌, ◌≢◌, refl, List, [], ◌∷◌, ◌++◌, none, some, ◌⊎◌, inl, inr, Bool-cases, ap, ◌∙◌,
}
use hcnet.Protocol.{CloseCode}
use hcnet.Message.{Message}
use hcnet.Error.{ok, err, io}
use hcnet.Buffer.{BinaryMut}
use hcnet.Net.{NetApi}
use hcnet.Stream.{MaybeTlsStream}
use hcnet.OnlineCount.{Counters}
use hcnet.Codec.{encode_message}
use hcnet.Codec.Frame.{wire}
use hcnet.Codec.Refine.{encode_message-wire}
use hcnet.Tcp
use hcnet.Tcp.{TcpConn, TcpState, closing, closed, stream}
use hcnet.Tcp.Process.{
  Event, TcpReceiver, Polled, closing_loop, last_sleep, stream_process, process, process_on, close,
  elapsed, wrote, write_failed,
}

module _ {E : Type 0} (net : NetApi E) (bin : BinaryMut) where
  open bin use {chunk, has_remaining, advance, clear}

  -- A stream that is closing, or closed.
  abbrev pub IsShut : MaybeTlsStream net → CloseCode → List ℕ → TcpConn net bin → Type 0
  IsShut s code reason c =
      (c.tcp ≡ stream s) × ((c.state ≡ closing code reason) ⊎ (c.state ≡ closed))

  -- Pending, the end of the connection, or an I/O error: no message of the peer. The connection that is
  -- left is closing still, or closed.
  abbrev pub Ends : MaybeTlsStream net → CloseCode → List ℕ → Polled net bin → Type 0
  Ends s code reason p =
      IsShut s code reason p.1
      × ((p.0 ≡ none)
          ⊎ ((p.0 ≡ some (ok (TcpReceiver.read Message.shutdown))) × (p.1.state ≡ closed))
          ⊎ ((e : E) × (p.0 ≡ some (err (io e))) × (p.1.state ≡ closing code reason)))

  module _ (s : MaybeTlsStream net) (code : CloseCode) (reason : List ℕ) where
    last_sleep-Ends :
        (c : TcpConn net bin) (es : List (Event net bin))
        → c.tcp ≡ stream s
        → c.state ≡ closed
        → Ends s code reason (last_sleep net bin c es)
    unfolding last_sleep
    last_sleep-Ends c [] t h = ((t, inr h), inl refl)
    last_sleep-Ends c (elapsed ∷ es) t h = ((t, inr h), inr (inl (refl, h)))
    last_sleep-Ends c (_ ∷ es) t h = last_sleep-Ends c es t h

    pub closing_loop-Ends :
        (c : TcpConn net bin) (es : List (Event net bin))
        → c.tcp ≡ stream s
        → c.state ≡ closing code reason
        → Ends s code reason (closing_loop net bin c es)
    unfolding closing_loop
    closing_loop-Ends c [] t h = ((t, inl h), inl refl)
    closing_loop-Ends c (wrote n ∷ es) t h = elim (Bool-cases (has_remaining c.write)) [
      | inr idle ↦ rw (idle, closing_loop) (closing_loop-Ends c es t h)
      | inl busy ↦ elim (Bool-cases (has_remaining (advance c.write n))) [
        | inl more ↦
            rw (busy, more, closing_loop)
              (closing_loop-Ends (record c { write = advance c.write n }) es t h)
        | inr done ↦
            rw (busy, done, closing_loop)
              (last_sleep-Ends (record c { write = clear (advance c.write n); state = closed }) es t
                refl)
      ]
    ]
    closing_loop-Ends c (write_failed e ∷ es) t h = elim (Bool-cases (has_remaining c.write)) [
      | inr idle ↦ rw (idle, closing_loop) (closing_loop-Ends c es t h)
      | inl busy ↦ rw (busy, closing_loop) ((t, inl h), inr (inr (e, refl, h)))
    ]
    closing_loop-Ends c (elapsed ∷ es) t h = ((t, inr refl), inr (inl (refl, refl)))
    closing_loop-Ends c (_ ∷ es) t h = closing_loop-Ends c es t h

  -- The sleep of `closing_time` ends the loop, whatever came before it.
  last_sleep_ends :
      (c : TcpConn net bin) (es : List (Event net bin))
      → (last_sleep net bin c (es ++ elapsed ∷ [])).0 ≢ none
  unfolding last_sleep
  last_sleep_ends c [] e = cc
  last_sleep_ends c (elapsed ∷ es) e = cc
  last_sleep_ends c (_ ∷ es) e = last_sleep_ends c es e

  closing_loop_ends :
      (c : TcpConn net bin) (es : List (Event net bin))
      → (closing_loop net bin c (es ++ elapsed ∷ [])).0 ≢ none
  unfolding closing_loop
  closing_loop_ends c [] = λ e. cc
  closing_loop_ends c (wrote n ∷ es) = elim (Bool-cases (has_remaining c.write)) [
    | inr idle ↦ rw (idle, closing_loop) (closing_loop_ends c es)
    | inl busy ↦ elim (Bool-cases (has_remaining (advance c.write n))) [
      | inl more ↦
          rw (busy, more, closing_loop)
            (closing_loop_ends (record c { write = advance c.write n }) es)
      | inr done ↦ rw (busy, done, closing_loop) (last_sleep_ends _ es)
    ]
  ]
  closing_loop_ends c (write_failed e ∷ es) = elim (Bool-cases (has_remaining c.write)) [
    | inr idle ↦ rw (idle, closing_loop) (closing_loop_ends c es)
    | inl busy ↦ rw (busy, closing_loop) (λ p. cc)
  ]
  closing_loop_ends c (elapsed ∷ es) = λ e. cc
  closing_loop_ends c (_ ∷ es) = closing_loop_ends c es

  pub process_closing :
      (c : TcpConn net bin) (code : CloseCode) (reason : List ℕ) (st : Counters)
      (es : List (Event net bin)) (s : MaybeTlsStream net)
      → c.tcp ≡ stream s
      → c.state ≡ closing code reason
      → process net bin c st es ≡ (closing_loop net bin c es, st)
  unfolding process
  process_closing c code reason st es s t o =
      ap (λ (x : Tcp.Tcp net bin). process_on net bin x c st es) t
      ∙ ap (λ (x : TcpState). (stream_process net bin x c es, st)) o

  process_closed :
      (c : TcpConn net bin) (st : Counters) (es : List (Event net bin)) (s : MaybeTlsStream net)
      → c.tcp ≡ stream s
      → c.state ≡ closed
      → process net bin c st es ≡ ((some (ok (TcpReceiver.read Message.shutdown)), c, es), st)
  unfolding process stream_process
  process_closed c st es s t o =
      ap (λ (x : Tcp.Tcp net bin). process_on net bin x c st es) t
      ∙ ap (λ (x : TcpState). (stream_process net bin x c es, st)) o

  -- One call of `process` on a stream that is shut.
  process-Ends :
      (c : TcpConn net bin) (st : Counters) (es : List (Event net bin)) (s : MaybeTlsStream net)
      (code : CloseCode) (reason : List ℕ)
      → IsShut s code reason c
      → Ends s code reason (process net bin c st es).0
        × ((process net bin c st (es ++ elapsed ∷ [])).0.0 ≢ none)
  process-Ends c st es s code reason (t, inl o) =
      rw
        (
          process_closing c code reason st es s t o,
          process_closing c code reason st (es ++ elapsed ∷ []) s t o,
        )
        (closing_loop-Ends s code reason c es t o, closing_loop_ends c es)
  process-Ends c st es s code reason (t, inr o) =
      rw (process_closed c st es s t o, process_closed c st (es ++ elapsed ∷ []) s t o)
        (((t, inr o), inr (inl (refl, o))), λ e. cc)

  -- Calls of `process` one after the other, each with the events that it sees, and what they leave.
  pub after_calls :
      TcpConn net bin → Counters → List (List (Event net bin)) → TcpConn net bin × Counters
  after_calls c st [] = (c, st)
  after_calls c st (es ∷ calls) =
      let ((_, c', _), st') = process net bin c st es in after_calls c' st' calls

  after_calls-IsShut :
      (calls : List (List (Event net bin))) (c : TcpConn net bin) (st : Counters)
      (s : MaybeTlsStream net) (code : CloseCode) (reason : List ℕ)
      → IsShut s code reason c
      → IsShut s code reason (after_calls c st calls).0
  unfolding after_calls
  after_calls-IsShut [] c st s code reason h = h
  after_calls-IsShut (es ∷ calls) c st s code reason h =
      let ((_, c', _), st') = process net bin c st es in
      after_calls-IsShut calls c' st' s code reason (process-Ends c st es s code reason h).0.0

  abbrev closing_conn : TcpConn net bin → CloseCode → List ℕ → TcpConn net bin
  closing_conn c code reason = record c {
    write = (encode_message bin {E = E} c.write (Message.close code reason) c.settings.is_raw).1;
    state = closing code reason;
  }

  close_eq :
      (c : TcpConn net bin) (code : CloseCode) (reason : List ℕ)
      → close net bin c code reason ≡ (ok tt, closing_conn c code reason)
  unfolding close
  close_eq c code reason = rw (
    close,
    (encode_message-wire bin {E = E} c.write (Message.close code reason) c.settings.is_raw).0,
  )

  -- On a stream, `close` appends the close frame to what is to be written. From then on, after any calls
  -- of `process`, the next call is pending and leaves the stream closing, or closed; or it says `Shutdown`
  -- and leaves it closed; or it ends with an I/O error and leaves it closing, with the same code and
  -- reason: no call gives a message any more. A call is not pending once its sleep of `closing_time` is
  -- over.
  pub close-process :
      (c : TcpConn net bin) (code : CloseCode) (reason : List ℕ) (st : Counters)
      (calls : List (List (Event net bin))) (es : List (Event net bin)) (s : MaybeTlsStream net)
      → c.tcp ≡ stream s
      → let (r, c') = close net bin c code reason in
        let (d, st') = after_calls c' st calls in
        (r ≡ ok tt)
        × (chunk c'.write ≡ chunk c.write ++ wire c.settings.is_raw (Message.close code reason))
        × Ends s code reason (process net bin d st' es).0
        × ((process net bin d st' (es ++ elapsed ∷ [])).0.0 ≢ none)
  close-process c code reason st calls es s t =
      let c' = closing_conn c code reason in
      let (d, st') = after_calls c' st calls in
      let (ends, over) =
        process-Ends d st' es s code reason
          (after_calls-IsShut calls c' st s code reason (t, inl refl)) in
      rw (close_eq c code reason) (
        refl,
        (encode_message-wire bin {E = E} c.write (Message.close code reason) c.settings.is_raw).1,
        ends,
        over,
      )
