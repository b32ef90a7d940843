-- ===== src/Ws/Duplex/Closing.antt =====
-- A closing websocket.
use hcnet.Base.{
  ℕ, ◌≡◌, ◌≢◌, refl, true, List, [], ◌∷◌, ◌++◌, Option, none, some, ◌⊎◌, inl, inr, Bool-cases, ◌∙◌,
}
use hcnet.Protocol.{CloseCode}
use hcnet.Message.{Message, into_owned}
use hcnet.Error.{ok}
use hcnet.Settings.{Settings}
use hcnet.Buffer.{BinaryMut}
use hcnet.Ws.Web.{WebApi}
use hcnet.Ws.Duplex.State.{state_after, process_io-state}
use hcnet.Ws.Duplex.{
  Pipe, closing, closed, Event, deadline, Polled, Io, more, ends, process_io, closing_to_closed,
  to_closed, closing_wait, closing_process, is_inbuffer_full, opened, close, close_in,
  start_closing, send_message,
}

module _ {E : Type 0} (api : WebApi E) (bin : BinaryMut) where
  -- Pending and still closing, or the end of the connection with the close code and the reason kept.
  abbrev pub Ends : CloseCode → List ℕ → Polled api bin → Type 0
  Ends code reason p =
      ((p.0 ≡ none) × (p.1.state ≡ closing code reason))
      ⊎ ((p.0 ≡ some (ok Message.shutdown)) × (p.1.state ≡ closed code reason))

  to_closed-Ends :
      (d : Pipe api bin) (es : List (Event E)) (code : CloseCode) (reason : List ℕ)
      → d.state ≡ closing code reason
      → Ends code reason (some (ok Message.shutdown), closing_to_closed api bin d, es)
  unfolding closing_to_closed to_closed
  to_closed-Ends d es code reason h = inr (refl, rw h refl)

  -- One event of a closing connection that is not the deadline.
  closing_wait-step :
      (d : Pipe api bin) (i : Io api bin) (es : List (Event E)) (code : CloseCode) (reason : List ℕ)
      → state_after api bin i ≡ closing code reason
      → ((d₁ : Pipe api bin)
          → d₁.state ≡ closing code reason
          → Ends code reason (closing_wait api bin d₁ es))
      → Ends code reason (elim i [
        | more d₁ ↦ closing_wait api bin d₁ es
        | ends r d₁ ↦ (some (ok Message.shutdown), closing_to_closed api bin d₁, es)
      ])
  closing_wait-step d (more d₁) es code reason h next = next d₁ h
  closing_wait-step d (ends r d₁) es code reason h next = to_closed-Ends d₁ es code reason h

  closing_wait-Ends :
      (es : List (Event E)) (d : Pipe api bin) (code : CloseCode) (reason : List ℕ)
      → d.state ≡ closing code reason
      → Ends code reason (closing_wait api bin d es)
  unfolding closing_wait
  closing_wait-Ends [] d code reason h = inl (refl, h)
  closing_wait-Ends (deadline ∷ es) d code reason h = to_closed-Ends d es code reason h
  closing_wait-Ends (e ∷ es) d code reason h =
      closing_wait-step d (process_io api bin true d e) es code reason
        (process_io-state api bin true d e ∙ h) (λ d₁. closing_wait-Ends es d₁ code reason)

  -- The sleep of `closing_time` ends the wait, whatever came before it.
  ends_step :
      (i : Io api bin) (es : List (Event E))
      → ((d₁ : Pipe api bin) → (closing_wait api bin d₁ es).0 ≢ none)
      → let p : Polled api bin = elim i [
        | more d₁ ↦ closing_wait api bin d₁ es
        | ends r d₁ ↦ (some (ok Message.shutdown), closing_to_closed api bin d₁, es)
      ] in
        p.0 ≢ none
  ends_step (more d₁) es next = next d₁
  ends_step (ends r d₁) es next = λ x. cc

  closing_wait_ends :
      (es : List (Event E)) (d : Pipe api bin)
      → (closing_wait api bin d (es ++ deadline ∷ [])).0 ≢ none
  unfolding closing_wait
  closing_wait_ends [] d = λ x. cc
  closing_wait_ends (deadline ∷ es) d = λ x. cc
  closing_wait_ends (e ∷ es) d =
      ends_step (process_io api bin true d e) (es ++ deadline ∷ []) (λ d₁. closing_wait_ends es d₁)

  pub closing_process-Ends :
      (settings : Settings) (es : List (Event E)) (d : Pipe api bin) (code : CloseCode)
      (reason : List ℕ)
      → d.state ≡ closing code reason
      → Ends code reason (closing_process api bin settings d es)
  unfolding closing_process
  closing_process-Ends settings es d code reason h =
      elim (Bool-cases (is_inbuffer_full api bin d settings)) [
        | inl full ↦ rw full (to_closed-Ends d es code reason h)
        | inr room ↦ rw room (closing_wait-Ends es d code reason h)
      ]

  closing_process_ends :
      (settings : Settings) (es : List (Event E)) (d : Pipe api bin)
      → (closing_process api bin settings d (es ++ deadline ∷ [])).0 ≢ none
  unfolding closing_process
  closing_process_ends settings es d = elim (Bool-cases (is_inbuffer_full api bin d settings)) [
    | inl full ↦ rw full (λ x. cc)
    | inr room ↦ rw room (closing_wait_ends es d)
  ]

  close_opened :
      (d : Pipe api bin) (code : CloseCode) (reason : List ℕ) (mask : Option (List ℕ))
      → d.state ≡ opened
      → (api.write_to (into_owned api.close_data (Message.close code reason)) mask).0 ≡ ok tt
      → close api bin d code reason mask ≡ (
        ok tt,
        record (send_message api bin d (Message.close code reason) mask).1 {
          state = closing code reason;
        },
      )
  unfolding close close_in start_closing send_message
  close_opened d code reason mask o w = rw (o, w) refl

  -- `close` on an open websocket, if its frame can be written, appends the frame to what is to be
  -- written. From then on a call of `process` is pending and leaves the connection closing, or says
  -- `Shutdown` and leaves it closed, the code and the reason kept: it gives no message and no error, and
  -- is not pending once the sleep of `closing_time` is over.
  pub close-closing_process :
      (settings : Settings) (d : Pipe api bin) (code : CloseCode) (reason : List ℕ)
      (mask : Option (List ℕ)) (es : List (Event E))
      → d.state ≡ opened
      → (api.write_to (into_owned api.close_data (Message.close code reason)) mask).0 ≡ ok tt
      → let (r, d') = close api bin d code reason mask in
        (r ≡ ok tt)
        × (bin.chunk d'.write
            ≡ bin.chunk d.write
              ++ (api.write_to (into_owned api.close_data (Message.close code reason)) mask).1)
        × Ends code reason (closing_process api bin settings d' es)
        × ((closing_process api bin settings d' (es ++ deadline ∷ [])).0 ≢ none)
  unfolding send_message
  close-closing_process settings d code reason mask es o w =
      rw (close_opened d code reason mask o w) (
        refl,
        bin.chunk-put_slice d.write _,
        closing_process-Ends settings es _ code reason refl,
        closing_process_ends settings es _,
      )
