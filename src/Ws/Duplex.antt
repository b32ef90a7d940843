-- ===== src/Ws/Duplex.antt =====
-- What the client and the server of src/ws/client.rs and src/ws/server.rs share, word for word: the
-- state with its two buffers, `process_io`, the branches of `process` for an open and for a closing
-- connection.
pub mod State
pub mod Reading
pub mod Delivery
pub mod Closing
pub mod Fragments
use hcnet.Base.{
  ℕ, zero, suc, Bool, true, false, not, List, [], ◌∷◌, ◌++◌, Option, none, some, length, leb, ◌==◌,
  if◌then◌else◌,
}
use hcnet.Protocol.{CloseCode}
use hcnet.Message.{Message, OwnedMessage, from_owned, into_owned}
use hcnet.Error.{
  NetError, NetResult, ok, err, io, web, timeout, over_inbuffer_size, read_timeout, ◌>>=◌,
}
use hcnet.Settings.{Settings}
use hcnet.Buffer.{BinaryMut}
use hcnet.Ws.Web.{WebApi, Parser, Parsed, parsed, partial, FrameRead, frame, eof}
use hcnet.Ws.Web

pub data WsState : Type 0 where
  wait wait_ret opened : WsState
  closing : CloseCode → List ℕ → WsState
  closed : CloseCode → List ℕ → WsState

-- What the `select!`s see: a read that ends with these bytes, none at the end of the stream; a write
-- that took so many; the sleep of `process_io`; the sleep of the state, `shake_timeout` or
-- `closing_time`.
pub data Event (E : Type 0) : Type 0 where
  read : List ℕ → Event E
  read_failed : E → Event E
  wrote : ℕ → Event E
  write_failed : E → Event E
  idle : Event E
  deadline : Event E

module _ {E : Type 0} (api : WebApi E) (bin : BinaryMut) where
  open bin use {Buf, has_remaining, advance, clear, advance_mut}
  open api use {DataFrame}

  pub record Pipe : Type 0 where
    pub state : WsState
    pub read : Buf
    pub write : Buf

  abbrev pub fresh : Pipe
  fresh = record { state = wait; read = bin.new; write = bin.new }

  unfoldable pub is_ready : WsState → Bool
  is_ready opened = true
  is_ready _ = false

  unfoldable pub is_inbuffer_full : Pipe → Settings → Bool
  is_inbuffer_full d settings = leb settings.in_buffer_max (bin.len d.read)

  unfoldable pub is_outbuffer_full : Pipe → Settings → Bool
  is_outbuffer_full d settings = leb settings.out_buffer_max (bin.len d.write)

  -- `mask` is what `rand::random()` gave, for a client.
  unfoldable pub send_message : Pipe → Message → Option (List ℕ) → NetResult E (Unit {0}) × Pipe
  send_message d msg mask =
      let (r, sent) = api.write_to (into_owned api.close_data msg) mask in
      (r, record d { write = bin.put_slice d.write sent })

  pub start_closing :
      NetResult E (Unit {0}) × Pipe → CloseCode → List ℕ → NetResult E (Unit {0}) × Pipe
  start_closing (err e, d) code reason = (err e, d)
  start_closing (ok _, d) code reason = (ok tt, record d { state = closing code reason })

  pub close_in :
      WsState → Pipe → CloseCode → List ℕ → Option (List ℕ) → NetResult E (Unit {0}) × Pipe
  unfolding start_closing
  close_in opened d code reason mask =
      start_closing (send_message d (Message.close code reason) mask) code reason
  close_in (closing _ _) d code reason mask = (ok tt, d)
  close_in (closed _ _) d code reason mask = (ok tt, d)
  close_in _ d code reason mask = (ok tt, record d { state = closing code reason })

  pub close : Pipe → CloseCode → List ℕ → Option (List ℕ) → NetResult E (Unit {0}) × Pipe
  unfolding close_in
  close d code reason mask = close_in d.state d code reason mask

  -- The `select!` of `process_io`: it goes on, or `process_io` returns, true at the end.
  pub data Io : Type 0 where
    more : Pipe → Io
    ends : NetResult E Bool → Pipe → Io

  pub written : Pipe → ℕ → Pipe
  written d n =
      let b = advance d.write n in record d { write = if has_remaining b then b else clear b }

  after_write : Bool → Pipe → Io
  after_write true d = if bin.is_empty d.write then ends (ok true) d else more d
  after_write false d = more d

  unfoldable pub process_io : Bool → Pipe → Event E → Io
  unfolding after_write
  process_io true d (read bytes) = more d
  process_io false d (read bytes) =
      ends (ok (length bytes == 0)) (record d { read = advance_mut d.read bytes })
  process_io true d (read_failed e) = more d
  process_io false d (read_failed e) = ends (err (io e)) d
  process_io only_write d (wrote n) =
      if has_remaining d.write then after_write only_write (written d n) else more d
  process_io only_write d (write_failed e) =
      if has_remaining d.write then ends (err (io e)) d else more d
  process_io only_write d idle = ends (err read_timeout) d
  process_io only_write d deadline = more d

  -- The frames at the front of the buffer: a whole message or an error, the frames of a message that
  -- is not whole yet, or no fuel left.
  pub data Frames : Type 0 where
    message : NetResult E Message → Frames
    part : List DataFrame → Frames
    no_fuel : Frames

  abbrev pub assembled : List DataFrame → NetResult E Message
  assembled vec = do owned ← api.from_dataframes vec; ok (from_owned api.close_data owned)

  pub read_frames : ℕ → List DataFrame → Buf → Frames × Buf
  read_frames zero vec b = (no_fuel, b)
  read_frames (suc fuel) vec b =
      let (r, n) = api.read_dataframe_with_limit (bin.chunk (bin.mark b)) false 100000 in
      let b₁ = advance (bin.mark b) n in
      elim r [
        | frame f ↦ elim (api.is_last f) [
          | true ↦ (message (assembled (vec ++ f ∷ [])), b₁)
          | false ↦ read_frames fuel (vec ++ f ∷ []) b₁
        ]
        | eof ↦ (part vec, bin.rewind_mark b₁)
        | FrameRead.failed e ↦ (message (err (web e)), b₁)
      ]

  -- The head of the loop of an open connection: an answer, or `process_io` with these frames.
  pub data Head : Type 0 where
    answers : NetResult E Message → Pipe → Head
    waits : List DataFrame → Pipe → Head
    spins : Head

  head_of : Settings → Pipe → Frames × Buf → Head
  head_of settings d (message r, b) = answers r (record d { read = b })
  head_of settings d (part vec, b) =
      let d' = record d { read = b } in
      if is_inbuffer_full d' settings then answers (err over_inbuffer_size) d' else waits vec d'
  head_of settings d (no_fuel, b) = spins

  -- Every frame takes a byte at least.
  pub open_head : Settings → List DataFrame → Pipe → Head
  unfolding head_of
  open_head settings vec d = head_of settings d (read_frames (suc (bin.len d.read)) vec d.read)

  abbrev pub Polled : Type 0
  Polled = Option (NetResult E Message) × Pipe × List (Event E)

  -- `process_io` of an open connection, and the turns of the loop that follow.
  pub open_wait : Settings → List DataFrame → Pipe → List (Event E) → Polled
  open_wait settings vec d [] = (none, d, [])
  open_wait settings vec d (e ∷ es) = elim (process_io false d e) [
    | more d₁ ↦ open_wait settings vec d₁ es
    | ends r d₁ ↦ elim r [
      | err x ↦ (some (err x), d₁, es)
      | ok true ↦ (some (ok Message.shutdown), d₁, es)
      | ok false ↦ elim (open_head settings vec d₁) [
        | answers a d₂ ↦ (some a, d₂, es)
        | waits vec' d₂ ↦ open_wait settings vec' d₂ es
        | spins ↦ (none, d₁, es)
      ]
    ]
  ]

  -- Each call of `process` begins with no frames.
  pub open_process : Settings → Pipe → List (Event E) → Polled
  open_process settings d es = elim (open_head settings [] d) [
    | answers a d₁ ↦ (some a, d₁, es)
    | waits vec d₁ ↦ open_wait settings vec d₁ es
    | spins ↦ (none, d, es)
  ]

  to_closed : WsState → WsState
  to_closed (closing code reason) = closed code reason
  to_closed s = s

  pub closing_to_closed : Pipe → Pipe
  unfolding to_closed
  closing_to_closed d = record d { state = to_closed d.state }

  -- The `select!` of a closing connection: how `process_io` ends does not matter.
  pub closing_wait : Pipe → List (Event E) → Polled
  closing_wait d [] = (none, d, [])
  closing_wait d (deadline ∷ es) = (some (ok Message.shutdown), closing_to_closed d, es)
  closing_wait d (e ∷ es) = elim (process_io true d e) [
    | more d₁ ↦ closing_wait d₁ es
    | ends r d₁ ↦ (some (ok Message.shutdown), closing_to_closed d₁, es)
  ]

  pub closing_process : Settings → Pipe → List (Event E) → Polled
  closing_process settings d es =
      if is_inbuffer_full d settings
      then (some (ok Message.shutdown), closing_to_closed d, es)
      else closing_wait d es
