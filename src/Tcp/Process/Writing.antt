-- ===== src/Tcp/Process/Writing.antt =====
-- What a TCP connection does with the bytes that it has to write.
use hcnet.Base.{
  ℕ, ◌+◌, ◌≤◌, ◌≡◌, length-drop, if◌then◌else◌, refl, sym, ap, ◌∙◌, false, List, [], ◌∷◌, ◌++◌,
  length, drop, drop-nil, drop-drop, ltb, arith, inl, inr, Bool-cases, Option-cases,
}
use hcnet.Buffer.{BinaryMut}
use hcnet.Net.{NetApi}
use hcnet.Stream.{MaybeTlsStream}
use hcnet.OnlineCount.{Counters}
use hcnet.Tcp
use hcnet.Tcp.{TcpConn, TcpState, opened, closing, closed, stream}
use hcnet.Tcp.Process.{
  Event, wrote, write_failed, elapsed, Polled, open_head, open_event, open_loop, written,
  closing_loop, last_sleep, stream_process, process, process_on,
}

empty_or : (bs : List ℕ) → ltb 0 (length bs) ≡ false → bs ≡ []
empty_or [] h = refl
empty_or (b ∷ bs) h = ground arith

module _ {E : Type 0} (net : NetApi E) (bin : BinaryMut) where
  open bin use {Buf, chunk, has_remaining, advance, clear}

  -- How many bytes the socket took.
  abbrev pub taken : Event net bin → ℕ
  taken (wrote n) = n
  taken _ = 0

  abbrev pub total : List (Event net bin) → ℕ
  total [] = 0
  total (e ∷ es) = taken e + total es

  -- The events that a call saw, and that what they took is gone from the front of `w`, and no more.
  pub record Writes (w : List ℕ) (es : List (Event net bin)) (p : Polled net bin) : Type 0 where
    pub seen : List (Event net bin)
    pub events : es ≡ seen ++ p.2
    pub unsent : chunk p.1.write ≡ drop (total seen) w

  idle-chunk : (b : Buf) → has_remaining b ≡ false → chunk b ≡ []
  idle-chunk b h = empty_or (chunk b) (sym (bin.has_remaining-chunk b) ∙ h)

  idle-drop : (b : Buf) (n : ℕ) → has_remaining b ≡ false → drop n (chunk b) ≡ chunk b
  idle-drop b n h = rw (idle-chunk b h) (drop-nil n)

  Writes-here :
      (w : List ℕ) (es : List (Event net bin)) (p : Polled net bin)
      → es ≡ p.2
      → chunk p.1.write ≡ w
      → Writes w es p
  Writes-here w es p e h = record { seen = []; events = e; unsent = h }

  Writes-cons :
      (w : List ℕ) (e : Event net bin) (es : List (Event net bin)) (p : Polled net bin)
      → Writes (drop (taken e) w) es p
      → Writes w (e ∷ es) p
  Writes-cons w e es p h = record {
    seen = e ∷ h.seen;
    events = ap (λ (t : List (Event net bin)). e ∷ t) h.events;
    unsent = h.unsent ∙ drop-drop (taken e) (total h.seen) w;
  }

  written-chunk :
      (c : TcpConn net bin) (n : ℕ)
      → n ≤ length (chunk c.write)
      → chunk (written net bin c n).write ≡ drop n (chunk c.write)
  unfolding written
  written-chunk c n h = elim (Bool-cases (has_remaining (advance c.write n))) [
    | inl more ↦ rw more (bin.chunk-advance c.write n h)
    | inr done ↦
        rw done (bin.chunk-clear _ ∙ sym (idle-chunk _ done) ∙ bin.chunk-advance c.write n h)
  ]

  open_event-chunk :
      (c : TcpConn net bin) (e : Event net bin)
      → taken e ≤ length (chunk c.write)
      → chunk (open_event net bin c e).1.write ≡ drop (taken e) (chunk c.write)
  unfolding open_event
  open_event-chunk c (wrote n) h = elim (Bool-cases (has_remaining c.write)) [
    | inl busy ↦ rw (busy, if◌then◌else◌) (written-chunk c n h)
    | inr idle ↦ rw (idle, if◌then◌else◌) (sym (idle-drop c.write n idle))
  ]
  open_event-chunk c (write_failed e) h = elim (Bool-cases (has_remaining c.write)) [
    | inl busy ↦ rw (busy, if◌then◌else◌) refl
    | inr idle ↦ rw (idle, if◌then◌else◌) refl
  ]
  open_event-chunk c _ h = refl

  open_head-write : (c : TcpConn net bin) → (open_head net bin c).1.write ≡ c.write
  unfolding open_head
  open_head-write c = refl

  -- What an event leaves has room for the writes of the later ones.
  room_left :
      (e : Event net bin) (es : List (Event net bin)) (w v : List ℕ)
      → total (e ∷ es) ≤ length w
      → v ≡ drop (taken e) w
      → total es ≤ length v
  room_left e es w v h d = rw (d, length-drop (taken e) w) (omega arith)

  Writes-step :
      (e : Event net bin) (es : List (Event net bin)) (p : Polled net bin) (w v : List ℕ)
      → v ≡ drop (taken e) w
      → Writes v es p
      → Writes w (e ∷ es) p
  Writes-step e es p w v d h = Writes-cons w e es p (rw d at h)

  open_loop-Writes :
      (es : List (Event net bin)) (c : TcpConn net bin)
      → total es ≤ length (chunk c.write)
      → Writes (chunk c.write) es (open_loop net bin c es)
  unfolding open_loop
  open_loop-Writes [] c h = Writes-here _ _ _ refl (ap chunk (open_head-write c))
  open_loop-Writes (e ∷ es) c h = elim (Option-cases (open_head net bin c).0) [
    | inr (r, p) ↦ rw (p, open_loop) (Writes-here _ _ _ refl (ap chunk (open_head-write c)))
    | inl p ↦
        let c₁ : TcpConn net bin = (open_head net bin c).1 in
        let same : chunk c₁.write ≡ chunk c.write = ap chunk (open_head-write c) in
        let room : taken e ≤ length (chunk c₁.write) = rw same (omega arith) in
        let d : chunk (open_event net bin c₁ e).1.write ≡ drop (taken e) (chunk c.write) =
          open_event-chunk c₁ e room ∙ ap (λ (t : List ℕ). drop (taken e) t) same in
        elim (Option-cases (open_event net bin c₁ e).0) [
          | inr (r, q) ↦
              rw (p, q, open_loop) (Writes-step e es _ _ _ d (Writes-here _ _ _ refl refl))
          | inl q ↦
              rw (p, q, open_loop)
                (Writes-step e es _ _ _ d
                  (open_loop-Writes es (open_event net bin c₁ e).1 (room_left e es _ _ h d)))
        ]
  ]

  -- In the last sleep nothing is left to write.
  last_sleep-Writes :
      (es : List (Event net bin)) (c : TcpConn net bin)
      → chunk c.write ≡ []
      → Writes [] es (last_sleep net bin c es)
  unfolding last_sleep
  last_sleep-Writes [] c h = Writes-here _ _ _ refl h
  last_sleep-Writes (elapsed ∷ es) c h = Writes-cons _ _ _ _ (Writes-here _ _ _ refl h)
  last_sleep-Writes (wrote n ∷ es) c h =
      Writes-step (wrote n) es _ [] [] (sym (drop-nil n)) (last_sleep-Writes es c h)
  last_sleep-Writes (e ∷ es) c h = Writes-cons _ _ _ _ (last_sleep-Writes es c h)

  closing_loop-Writes :
      (es : List (Event net bin)) (c : TcpConn net bin)
      → total es ≤ length (chunk c.write)
      → Writes (chunk c.write) es (closing_loop net bin c es)
  unfolding closing_loop
  closing_loop-Writes [] c h = Writes-here _ _ _ refl refl
  closing_loop-Writes (wrote n ∷ es) c h = elim (Bool-cases (has_remaining c.write)) [
    | inr idle ↦
        let d = sym (idle-drop c.write n idle) in
        rw (idle, closing_loop)
          (Writes-step (wrote n) es _ _ _ d
            (closing_loop-Writes es c (room_left (wrote n) es _ _ h d)))
    | inl busy ↦
        let b : Buf = advance c.write n in
        let d : chunk b ≡ drop n (chunk c.write) = bin.chunk-advance c.write n (omega arith) in
        elim (Bool-cases (has_remaining b)) [
          | inl more ↦
              rw (busy, more, closing_loop)
                (Writes-step (wrote n) es _ _ _ d (
                  closing_loop-Writes es (record c { write = b }) (room_left (wrote n) es _ _ h d)))
          | inr done ↦
              rw (busy, done, closing_loop)
                (Writes-step (wrote n) es _ _ [] (sym (idle-chunk b done) ∙ d)
                  (last_sleep-Writes es _ (bin.chunk-clear b)))
        ]
  ]
  closing_loop-Writes (write_failed e ∷ es) c h = elim (Bool-cases (has_remaining c.write)) [
    | inr idle ↦
        rw (idle, closing_loop)
          (Writes-cons _ (write_failed e) es _ (closing_loop-Writes es c (omega arith)))
    | inl busy ↦
        rw (busy, closing_loop) (Writes-cons _ (write_failed e) es _ (Writes-here _ _ _ refl refl))
  ]
  closing_loop-Writes (elapsed ∷ es) c h = Writes-cons _ _ _ _ (Writes-here _ _ _ refl refl)
  closing_loop-Writes (e ∷ es) c h = Writes-cons _ _ _ _ (closing_loop-Writes es c (omega arith))

  stream_process-Writes :
      (o : TcpState) (c : TcpConn net bin) (es : List (Event net bin))
      → total es ≤ length (chunk c.write)
      → Writes (chunk c.write) es (stream_process net bin o c es)
  unfolding stream_process
  stream_process-Writes opened c es h = open_loop-Writes es c h
  stream_process-Writes (closing code reason) c es h = closing_loop-Writes es c h
  stream_process-Writes closed c es h = Writes-here _ _ _ refl refl

  -- Whatever the state of a stream, a call of `process` takes off the front of the write buffer just
  -- the bytes that the socket took in the events it saw, if the events take no more than there is.
  pub process-Writes :
      (c : TcpConn net bin) (st : Counters) (es : List (Event net bin)) (s : MaybeTlsStream net)
      → c.tcp ≡ stream s
      → total es ≤ length (chunk c.write)
      → Writes (chunk c.write) es (process net bin c st es).0
  unfolding process
  process-Writes c st es s t h =
      let on_stream : process_on net bin c.tcp c st es ≡ (stream_process net bin c.state c es, st) =
        ap (λ (x : Tcp.Tcp net bin). process_on net bin x c st es) t in
      rw on_stream (stream_process-Writes c.state c es h)
