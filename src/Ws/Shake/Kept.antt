-- ===== src/Ws/Shake/Kept.antt =====
-- The wait for the handshake leaves the state as it is.
use hcnet.Base.{◌≡◌, refl, ◌∙◌, Bool, true, false, List, [], ◌∷◌, some, arith, Bool-cases, inl, inr}
use hcnet.Error.{NetResult, ok, err}
use hcnet.Settings.{Settings}
use hcnet.Buffer.{BinaryMut}
use hcnet.Ws.Web.{WebApi, Parser, Parsed, parsed, partial}
use hcnet.Ws.Duplex.{Pipe, WsState, Event, deadline, Io, more, ends, process_io, is_inbuffer_full}
use hcnet.Ws.Duplex.State.{state_after, process_io-state}
use hcnet.Ws.Shake.{Next, answers, again, after_parse, parse, after_io, shake_wait, shake, Polled}

module _ {E : Type 0} (api : WebApi E) (bin : BinaryMut) {P : Type 0} (parser : Parser E P) where
  abbrev state_of : Next api bin parser → WsState
  state_of (answers r d) = d.state
  state_of (again p d) = d.state

  after_parse-state :
      (p : Parsed E × P) (d : Pipe api bin) → state_of (after_parse api bin parser p d) ≡ d.state
  unfolding after_parse
  after_parse-state (parsed s, p) d = ground arith
  after_parse-state (partial, p) d = refl
  after_parse-state (Parsed.failed e, p) d = refl

  parse-state : (p : P) (d : Pipe api bin) → state_of (parse api bin parser p d) ≡ d.state
  unfolding parse
  parse-state p d = after_parse-state _ _

  after_io-state :
      (settings : Settings) (p : P) (r : NetResult E Bool) (d : Pipe api bin)
      → state_of (after_io api bin parser settings p r d) ≡ d.state
  unfolding after_io
  after_io-state settings p (err e) d = refl
  after_io-state settings p (ok true) d = refl
  after_io-state settings p (ok false) d = ground (arith, parse-state p d)

  after_event :
      (settings : Settings) (p : P) (i : Io api bin) (es : List (Event E)) (s : WsState)
      → state_after api bin i ≡ s
      → ((p : P) (d₁ : Pipe api bin)
          → d₁.state ≡ s
          → (shake_wait api bin parser settings p d₁ es).1.state ≡ s)
      → let q : Polled api bin parser = elim i [
        | more d₁ ↦ shake_wait api bin parser settings p d₁ es
        | ends r d₁ ↦ elim (after_io api bin parser settings p r d₁) [
          | answers a d₂ ↦ (some a, d₂, es)
          | again p₁ d₂ ↦ shake_wait api bin parser settings p₁ d₂ es
        ]
      ] in
        q.1.state ≡ s
  after_event settings p (more d₁) es s h next = next p d₁ h
  after_event settings p (ends r d₁) es s h next =
      after_next (after_io api bin parser settings p r d₁) (after_io-state settings p r d₁ ∙ h)
    where
      after_next :
          (n : Next api bin parser)
          → state_of n ≡ s
          → let q : Polled api bin parser = elim n [
            | answers a d₂ ↦ (some a, d₂, es)
            | again p₁ d₂ ↦ shake_wait api bin parser settings p₁ d₂ es
          ] in
            q.1.state ≡ s
      after_next (answers a d₂) k = k
      after_next (again p₁ d₂) k = next p₁ d₂ k

  shake_wait-state :
      (settings : Settings) (es : List (Event E)) (p : P) (d : Pipe api bin) (s : WsState)
      → d.state ≡ s
      → (shake_wait api bin parser settings p d es).1.state ≡ s
  unfolding shake_wait
  shake_wait-state settings [] p d s h = h
  shake_wait-state settings (deadline ∷ es) p d s h = h
  shake_wait-state settings (e ∷ es) p d s h =
      after_event settings p (process_io api bin false d e) es s
        (process_io-state api bin false d e ∙ h) (λ p₁ d₁. shake_wait-state settings es p₁ d₁ s)

  pub shake-state :
      (settings : Settings) (d : Pipe api bin) (es : List (Event E))
      → (shake api bin parser settings d es).1.state ≡ d.state
  unfolding shake
  shake-state settings d es = elim (Bool-cases (is_inbuffer_full api bin d settings)) [
    | inl full ↦ rw full refl
    | inr room ↦ rw room (shake_wait-state settings es parser.new d d.state refl)
  ]
