-- ===== src/Ws/Shake.antt =====
-- The loop that waits for the request in `WsServer::process` and for the response in
-- `WsClient::process`: src/ws/server.rs and src/ws/client.rs.
pub mod Kept
pub mod Got
use hcnet.Base.{ℕ, Bool, true, false, List, [], ◌∷◌, Option, none, some, if◌then◌else◌}
use hcnet.Error.{NetResult, ok, err, web, timeout, over_inbuffer_size}
use hcnet.Settings.{Settings}
use hcnet.Buffer.{BinaryMut}
use hcnet.Ws.Web.{WebApi, Parser, Parsed, parsed, partial}
use hcnet.Ws.Duplex.{Pipe, Event, deadline, process_io, more, ends, is_inbuffer_full}

module _ {E : Type 0} (api : WebApi E) (bin : BinaryMut) {P : Type 0} (parser : Parser E P) where
  open parser use {parse_buffer, is_partial}

  -- The end of the stream, or the value that was parsed.
  pub data Shaken : Type 0 where
    ended : Shaken
    got : P → Shaken

  -- What follows a read: an answer, or one more turn.
  pub data Next : Type 0 where
    answers : NetResult E Shaken → Pipe api bin → Next
    again : P → Pipe api bin → Next

  after_parse : Parsed E × P → Pipe api bin → Next
  after_parse (parsed s, p) d =
      if is_partial p
      then again p d
      else answers (ok (got p)) (record d { read = bin.advance d.read s })
  after_parse (partial, p) d = again p (record d { read = bin.rewind_mark d.read })
  after_parse (Parsed.failed e, p) d = answers (err (web e)) d

  parse : P → Pipe api bin → Next
  unfolding after_parse
  parse p d =
      let b = bin.mark d.read in after_parse (parse_buffer p (bin.chunk b)) (record d { read = b })

  -- `is_end?`, the parser, and the check at the start of the next `process_io`.
  after_io : Settings → P → NetResult E Bool → Pipe api bin → Next
  unfolding parse
  after_io settings p (err e) d = answers (err e) d
  after_io settings p (ok true) d = answers (ok ended) d
  after_io settings p (ok false) d = elim (parse p d) [
    | answers r d₁ ↦ answers r d₁
    | again p₁ d₁ ↦
        if is_inbuffer_full api bin d₁ settings
        then answers (err over_inbuffer_size) d₁
        else again p₁ d₁
  ]

  abbrev pub Polled : Type 0
  Polled = Option (NetResult E Shaken) × Pipe api bin × List (Event E)

  pub shake_wait : Settings → P → Pipe api bin → List (Event E) → Polled
  unfolding after_io
  shake_wait settings p d [] = (none, d, [])
  shake_wait settings p d (deadline ∷ es) = (some (err timeout), d, es)
  shake_wait settings p d (e ∷ es) = elim (process_io api bin false d e) [
    | more d₁ ↦ shake_wait settings p d₁ es
    | ends r d₁ ↦ elim (after_io settings p r d₁) [
      | answers a d₂ ↦ (some a, d₂, es)
      | again p₁ d₂ ↦ shake_wait settings p₁ d₂ es
    ]
  ]

  pub shake : Settings → Pipe api bin → List (Event E) → Polled
  shake settings d es =
      if is_inbuffer_full api bin d settings
      then (some (err over_inbuffer_size), d, es)
      else shake_wait settings parser.new d es
