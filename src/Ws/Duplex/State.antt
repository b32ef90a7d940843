-- ===== src/Ws/Duplex/State.antt =====
-- What changes the state of a websocket: neither the I/O nor the loops of an open connection and of the
-- handshake do.
use hcnet.Base.{ℕ, ◌≡◌, ◌≢◌, refl, ◌∙◌, Bool, true, false, List, [], ◌∷◌, Option, none, some, arith}
use hcnet.Protocol.{CloseCode}
use hcnet.Message.{Message}
use hcnet.Error.{NetResult, ok, err}
use hcnet.Settings.{Settings}
use hcnet.Buffer.{BinaryMut}
use hcnet.Ws.Web.{WebApi}
use hcnet.Ws.Duplex.{
  Pipe, WsState, Event, read, read_failed, wrote, write_failed, idle, deadline, Polled, Io, more,
  ends, process_io, after_write, written, Head, answers, waits, spins, open_head, head_of,
  open_wait, open_process, Frames, message, part, no_fuel, read_frames, wait, wait_ret, opened,
  closing, closed, close, close_in, start_closing, send_message,
}

module _ {E : Type 0} (api : WebApi E) (bin : BinaryMut) where
  open api use {DataFrame}

  abbrev pub state_after : Io api bin → WsState
  state_after (more d) = d.state
  state_after (ends r d) = d.state

  pub process_io-state :
      (only_write : Bool) (d : Pipe api bin) (e : Event E)
      → state_after (process_io api bin only_write d e) ≡ d.state
  unfolding process_io after_write written
  process_io-state true d (read bytes) = refl
  process_io-state false d (read bytes) = refl
  process_io-state true d (read_failed e) = refl
  process_io-state false d (read_failed e) = refl
  process_io-state only_write d (wrote n) = ground arith
  process_io-state only_write d (write_failed e) = ground arith
  process_io-state only_write d idle = refl
  process_io-state only_write d deadline = refl

  abbrev state_of : Head api bin → WsState → WsState
  state_of (answers r d) s = d.state
  state_of (waits vec d) s = d.state
  state_of spins s = s

  open_head-state :
      (settings : Settings) (vec : List DataFrame) (d : Pipe api bin)
      → state_of (open_head api bin settings vec d) d.state ≡ d.state
  unfolding open_head
  open_head-state settings vec d = go (read_frames api bin _ vec d.read)
    where
      go :
          (p : Frames api bin × bin.Buf) → state_of (head_of api bin settings d p) d.state ≡ d.state
      go (message r, b) = refl
      go (part v, b) = ground arith
      go (no_fuel, b) = refl

  -- What follows the head, and what follows an event, as `open_wait` has it.
  after_head :
      (settings : Settings) (h : Head api bin) (d : Pipe api bin) (es : List (Event E))
      (s : WsState)
      → state_of h d.state ≡ s
      → d.state ≡ s
      → ((vec : List DataFrame) (d₁ : Pipe api bin)
          → d₁.state ≡ s
          → (open_wait api bin settings vec d₁ es).1.state ≡ s)
      → let p : Polled api bin = elim h [
        | answers a d₂ ↦ (some a, d₂, es)
        | waits vec d₂ ↦ open_wait api bin settings vec d₂ es
        | spins ↦ (none, d, es)
      ] in
        p.1.state ≡ s
  after_head settings (answers a d₂) d es s e e' next = e
  after_head settings (waits vec d₂) d es s e e' next = next vec d₂ e
  after_head settings spins d es s e e' next = e'

  after_event :
      (settings : Settings) (vec : List DataFrame) (i : Io api bin) (es : List (Event E))
      (s : WsState)
      → state_after i ≡ s
      → ((vec : List DataFrame) (d₁ : Pipe api bin)
          → d₁.state ≡ s
          → (open_wait api bin settings vec d₁ es).1.state ≡ s)
      → let p : Polled api bin = elim i [
        | more d₁ ↦ open_wait api bin settings vec d₁ es
        | ends r d₁ ↦ elim r [
          | err x ↦ (some (err x), d₁, es)
          | ok true ↦ (some (ok Message.shutdown), d₁, es)
          | ok false ↦ elim (open_head api bin settings vec d₁) [
            | answers a d₂ ↦ (some a, d₂, es)
            | waits vec' d₂ ↦ open_wait api bin settings vec' d₂ es
            | spins ↦ (none, d₁, es)
          ]
        ]
      ] in
        p.1.state ≡ s
  after_event settings vec (more d₁) es s e next = next vec d₁ e
  after_event settings vec (ends (err x) d₁) es s e next = e
  after_event settings vec (ends (ok true) d₁) es s e next = e
  after_event settings vec (ends (ok false) d₁) es s e next =
      after_head settings (open_head api bin settings vec d₁) d₁ es s
        (open_head-state settings vec d₁ ∙ e) e next

  open_wait-state :
      (settings : Settings) (es : List (Event E)) (vec : List DataFrame) (d : Pipe api bin)
      (s : WsState)
      → d.state ≡ s
      → (open_wait api bin settings vec d es).1.state ≡ s
  unfolding open_wait
  open_wait-state settings [] vec d s h = h
  open_wait-state settings (e ∷ es) vec d s h =
      after_event settings vec (process_io api bin false d e) es s (process_io-state false d e ∙ h)
        (λ vec d₁. open_wait-state settings es vec d₁ s)

  pub open_process-state :
      (settings : Settings) (d : Pipe api bin) (es : List (Event E))
      → (open_process api bin settings d es).1.state ≡ d.state
  unfolding open_process
  open_process-state settings d es =
      after_head settings (open_head api bin settings [] d) d es d.state
        (open_head-state settings [] d) refl (λ vec d₁. open_wait-state settings es vec d₁ d.state)

  start_closing-Settled :
      (p : NetResult E (Unit {0}) × Pipe api bin) (code : CloseCode) (reason : List ℕ)
      → p.1.state ≢ wait_ret
      → (start_closing api bin p code reason).1.state ≢ wait_ret
  unfolding start_closing
  start_closing-Settled (err e, d) code reason h = h
  start_closing-Settled (ok tt, d) code reason h = λ x. cc

  -- `close` and `send_message` make no state that waits for an answer.
  close_in-Settled :
      (o : WsState) (d : Pipe api bin) (code : CloseCode) (reason : List ℕ) (mask : Option (List ℕ))
      → d.state ≢ wait_ret
      → (close_in api bin o d code reason mask).1.state ≢ wait_ret
  unfolding close_in send_message
  close_in-Settled opened d code reason mask h = start_closing-Settled _ code reason h
  close_in-Settled (closing _ _) d code reason mask h = h
  close_in-Settled (closed _ _) d code reason mask h = h
  close_in-Settled wait d code reason mask h = λ x. cc
  close_in-Settled wait_ret d code reason mask h = λ x. cc

  pub close-Settled :
      (d : Pipe api bin) (code : CloseCode) (reason : List ℕ) (mask : Option (List ℕ))
      → d.state ≢ wait_ret
      → (close api bin d code reason mask).1.state ≢ wait_ret
  unfolding close
  close-Settled d code reason mask h = close_in-Settled d.state d code reason mask h

  pub send_message-state :
      (d : Pipe api bin) (m : Message) (mask : Option (List ℕ))
      → (send_message api bin d m mask).1.state ≡ d.state
  unfolding send_message
  send_message-state d m mask = refl
