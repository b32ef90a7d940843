-- ===== src/Kcp/Process/Calls.antt =====
-- An open KCP stream gives its messages in order.
use hcnet.Base.{
  ℕ, zero, suc, ◌≡◌, ◌≢◌, refl, sym, ap, ◌∙◌, false, List, [], ◌∷◌, ◌++◌, map, some, none, length,
  All, concat, arith, inl, inr, Option-cases, Bool-cases,
}
use hcnet.Message.{Message}
use hcnet.Error.{ok, err}
use hcnet.Buffer.{BinaryMut}
use hcnet.Net.{NetApi}
use hcnet.Stream.{MaybeTlsStream}
use hcnet.Ws.Handshake.{Outcome, returned, panicked}
use hcnet.Codec.RoundTrip.{received}
use hcnet.Tcp.Process
use hcnet.Tcp.Process.Events.{Fits, frames}
use hcnet.Tcp.Process.Events
use hcnet.Kcp
use hcnet.Kcp.{KcpConn, KcpState, opened, closing, closed, stream}
use hcnet.Kcp.Process.{
  Event, read, read_failed, wrote, write_failed, elapsed, incoming, connecting, TcpReceiver, Answer,
  open_head, open_event, written, open_loop, process, process_on, stream_process, Polled,
}
use hcnet.Kcp.Process.Opened
use hcnet.Kcp.Process.Opened.{as_tcp, event_as, answer_as, open_loop-as_tcp}

cons_parts : {A : Type 0} (x y : A) (xs ys : List A) → x ∷ xs ≡ y ∷ ys → (x ≡ y) × (xs ≡ ys)
cons_parts x y xs ys e = (cc, cc)

module _ {E : Type 0} (net : NetApi E) (KcpStream : Type 0) (bin : BinaryMut) where
  abbrev K : Type 0
  K = KcpConn net KcpStream bin

  -- The answers of that many calls of `process`, one after the other, as far as none panics.
  pub answers : ℕ → K → List (Event net KcpStream bin) → List (Outcome (Answer net KcpStream bin))
  answers zero c es = []
  answers (suc n) c es = elim (process net KcpStream bin c es) [
    | returned p ↦ returned p.0 ∷ answers n p.1 p.2
    | panicked ↦ panicked ∷ []
  ]

  process_opened :
      (c : K) (t : KcpStream) (es : List (Event net KcpStream bin))
      → c.kcp ≡ stream t
      → c.state ≡ opened
      → process net KcpStream bin c es ≡ returned (open_loop net KcpStream bin c es)
  unfolding process process_on stream_process
  process_opened c t es k o =
      ap (λ (x : Kcp.Kcp net KcpStream bin). process_on net KcpStream bin x c es) k
      ∙ ap (λ (x : KcpState). returned (stream_process net KcpStream bin x c es)) o

  record Stays (c c' : K) : Type 0 where
    same_kcp : c'.kcp ≡ c.kcp
    same_state : c'.state ≡ c.state

  open_event-Stays :
      (c : K) (e : Event net KcpStream bin) → Stays c (open_event net KcpStream bin c e).1
  unfolding open_event written
  open_event-Stays c (wrote n) = elim (Bool-cases (bin.has_remaining c.write)) [
    | inl h ↦ rw h (record { same_kcp = refl; same_state = refl })
    | inr h ↦ rw h (record { same_kcp = refl; same_state = refl })
  ]
  open_event-Stays c (write_failed e) = elim (Bool-cases (bin.has_remaining c.write)) [
    | inl h ↦ rw h (record { same_kcp = refl; same_state = refl })
    | inr h ↦ rw h (record { same_kcp = refl; same_state = refl })
  ]
  open_event-Stays c _ = record { same_kcp = refl; same_state = refl }

  open_loop-Stays :
      (es : List (Event net KcpStream bin)) (c : K) → Stays c (open_loop net KcpStream bin c es).1
  unfolding open_loop open_head
  open_loop-Stays [] c = record { same_kcp = refl; same_state = refl }
  open_loop-Stays (e ∷ es) c =
      let c₁ : K = (open_head net KcpStream bin c).1 in
      let k = open_event-Stays c₁ e in
      let k' = open_loop-Stays es (open_event net KcpStream bin c₁ e).1 in
      elim (Option-cases (open_head net KcpStream bin c).0) [
        | inr (r, p) ↦ rw (p, open_loop) (record { same_kcp = refl; same_state = refl })
        | inl p ↦ elim (Option-cases (open_event net KcpStream bin c₁ e).0) [
          | inr (r, q) ↦
              rw (p, q, open_loop) (record { same_kcp = k.same_kcp; same_state = k.same_state })
          | inl q ↦
              rw (p, q, open_loop)
                (record {
                  same_kcp = k'.same_kcp ∙ k.same_kcp;
                  same_state = k'.same_state ∙ k.same_state;
                })
        ]
      ]

  -- What the TCP connection over a stream shows of the KCP stream.
  module _ (s : MaybeTlsStream net) where
    answer_back :
        (a : Answer net KcpStream bin) (m : Message)
        → answer_as net KcpStream bin s a ≡ some (ok (Process.TcpReceiver.read m))
        → a ≡ some (ok (TcpReceiver.read m))
    answer_back none m e = ground arith
    answer_back (some (err x)) m e = ground arith
    answer_back (some (ok (TcpReceiver.accept x))) m e = ground arith
    answer_back (some (ok (TcpReceiver.read x))) m e = ground arith
    answer_back (some (ok TcpReceiver.pending)) m e = ground arith

    event_back :
        (e : Event net KcpStream bin) (bytes : List ℕ)
        → event_as net KcpStream bin s e ≡ Process.Event.read bytes
        → e ≡ read bytes
    event_back (read x) bytes e = ground arith
    event_back (read_failed x) bytes e = ground arith
    event_back (wrote x) bytes e = ground arith
    event_back (write_failed x) bytes e = ground arith
    event_back elapsed bytes e = ground arith
    event_back (incoming x) bytes e = ground arith
    event_back (connecting x) bytes e = ground arith

    events_back :
        (es : List (Event net KcpStream bin)) (chunks : List (List ℕ))
        → map (event_as net KcpStream bin s) es ≡ Events.reads net bin chunks
        → es ≡ map read chunks
    events_back [] [] e = refl
    events_back [] (x ∷ xs) e = ground arith
    events_back (x ∷ xs) [] e = ground arith
    events_back (x ∷ es) (bytes ∷ chunks) e =
        let (a, b) = cons_parts _ _ _ _ e in λ i. event_back x bytes a i ∷ events_back es chunks b i

    reads_as :
        (chunks : List (List ℕ))
        → map (event_as net KcpStream bin s) (map read chunks) ≡ Events.reads net bin chunks
    reads_as [] = refl
    reads_as (x ∷ xs) =
        ap (λ (t : List (Process.Event net bin)). Process.Event.read x ∷ t) (reads_as xs)

    -- If the unread bytes of an open framed KCP stream and those of the reads to come, cut anywhere
    -- into non-empty pieces, are the frames of messages that fit the settings, then the calls of
    -- `process` do not panic, and answer with these messages, each once and in order, a close code
    -- in its canonical spelling; where there is a TCP stream to put beside it.
    pub answers_in_order :
        (ms : List Message) (c : K) (chunks : List (List ℕ)) (t : KcpStream)
        → c.kcp ≡ stream t
        → c.state ≡ opened
        → c.settings.is_raw ≡ false
        → All (Fits c.settings) ms
        → All (λ xs. xs ≢ []) chunks
        → bin.chunk c.read ++ concat chunks ≡ frames net bin ms
        → answers (length ms) c (map read chunks)
          ≡ map (λ m. returned (some (ok (TcpReceiver.read (received m))))) ms
    unfolding answers
    answers_in_order [] c chunks t k o framed f hc e = refl
    answers_in_order (m ∷ ms) c chunks t k o framed f hc e =
        let es : List (Event net KcpStream bin) = map read chunks in
        let d =
          Events.deliver net bin chunks (as_tcp net KcpStream bin s c) m (frames net bin ms)
            (ap (Opened.state_as net KcpStream bin s) o) framed f.0
            (Events.frames-IsByte net bin c.settings ms f.1) hc e in
        let same = open_loop-as_tcp net KcpStream bin s es c in
        let q = rw (sym (reads_as chunks), same) at d in
        let p : Polled net KcpStream bin = open_loop net KcpStream bin c es in
        let left = events_back p.2 q.left q.events in
        let stays = open_loop-Stays es c in
        let later =
          answers_in_order ms p.1 q.left t (stays.same_kcp ∙ k) (stays.same_state ∙ o)
            (rw (q.same_settings) framed) (rw (q.same_settings) (f.1)) q.non_empty q.unread in
        rw (process_opened c t es k o, answers, left)
          (λ i. returned (answer_back p.0 (received m) q.answer i) ∷ later i)
