-- ===== src/Tcp/Process/Mixed.antt =====
-- An open TCP connection whose reads and writes are mixed.
use hcnet.Base.{
  ℕ, ◌≡◌, ◌≢◌, refl, sym, ap, ◌∙◌, false, List, [], ◌∷◌, ◌++◌, none, some, All, All-append_left,
  append-Cuts, append-nil, append-nil_right, append_assoc, arith, ◌⊎◌, inl, inr,
}
use hcnet.Message.{Message}
use hcnet.Error.{ok}
use hcnet.Buffer.{BinaryMut}
use hcnet.Net.{NetApi}
use hcnet.Codec.Frame.{IsByte, wire}
use hcnet.Codec.RoundTrip.{received}
use hcnet.Tcp.{TcpConn, opened}
use hcnet.Tcp.Process.{
  Event, wrote, write_failed, read_failed, elapsed, incoming, connecting, TcpReceiver, Polled,
  open_head, open_event, open_loop,
}
use hcnet.Tcp.Process.Events.{
  Fits, open_head_whole, open_head_part, open_loop_answer, open_loop_read,
}
use hcnet.Tcp.Process.Single.{
  Same, open_loop_wrote, wrote-Same, head-Same, open_loop_end_of_events, head_read, both,
}

module _ {E : Type 0} (net : NetApi E) (bin : BinaryMut) where
  open bin use {chunk}

  -- Reads of bytes, and writes.
  abbrev pub IsUsual : List (Event net bin) → Type 0
  IsUsual [] = Unit {0}
  IsUsual (Event.read bytes ∷ es) = (bytes ≢ []) × IsUsual es
  IsUsual (wrote n ∷ es) = IsUsual es
  IsUsual (_ ∷ es) = ⊥

  -- The bytes that the reads bring.
  abbrev pub input : List (Event net bin) → List ℕ
  input [] = []
  input (Event.read bytes ∷ es) = bytes ++ input es
  input (_ ∷ es) = input es

  -- The call hands over the message, with `rest` in the buffer, in the events left and to come; or it has
  -- used the events up, and all they brought is in the buffer.
  abbrev pub Gives : Message → List ℕ → List ℕ → Polled net bin → Type 0
  Gives m rest future p =
      (p.0 ≡ some (ok (TcpReceiver.read (received m))))
      × (chunk p.1.read ++ input p.2 ++ future ≡ rest)

  abbrev pub Waits : List ℕ → Polled net bin → Type 0
  Waits unread p = (p.0 ≡ none) × (chunk p.1.read ≡ unread) × (p.2 ≡ [])

  abbrev pub Goes : TcpConn net bin → Message → List ℕ → List ℕ → List ℕ → Polled net bin → Type 0
  Goes c m rest future unread p = Same net bin c p.1 × (Gives m rest future p ⊎ Waits unread p)

  -- A message that is whole is handed over, whatever the events.
  whole-Goes :
      (es : List (Event net bin)) (c : TcpConn net bin) (m : Message)
      (t rest future unread : List ℕ)
      → (open_head net bin c).0 ≡ some (ok (TcpReceiver.read (received m)))
      → chunk (open_head net bin c).1.read ≡ t
      → rest ≡ t ++ (input es ++ future)
      → Goes c m rest future unread (open_loop net bin c es)
  whole-Goes [] c m t rest future unread a r q =
      rw (open_loop_end_of_events net bin c)
        (head-Same net bin c, inl (a, rw (r, append-nil t) (sym q)))
  whole-Goes (e ∷ es) c m t rest future unread a r q =
      rw (open_loop_answer net bin c e es _ a)
        (head-Same net bin c, inl (refl, rw r (append_assoc t (input (e ∷ es)) future ∙ sym q)))

  -- What an event leaves goes on as the connection did.
  carried_on :
      (c c' : TcpConn net bin) (m : Message) (rest future unread unread' : List ℕ)
      (p : Polled net bin)
      → Same net bin c c'
      → unread' ≡ unread
      → Goes c' m rest future unread' p
      → Goes c m rest future unread p
  carried_on c c' m rest future unread unread' p k e (k', r) = (
    record {
      tcp = k'.tcp ∙ k.tcp;
      settings = k'.settings ∙ k.settings;
      state = k'.state ∙ k.state;
    },
    go r,
  )
    where
      go : Gives m rest future p ⊎ Waits unread' p → Gives m rest future p ⊎ Waits unread p
      go (inl g) = inl g
      go (inr (a, b, d)) = inr (a, b ∙ e, d)

  -- On an open stream where a message that fits is the next to come, a call that sees reads and writes
  -- hands it over or waits for the rest of it.
  pub open_loop-Goes :
      (es : List (Event net bin)) (c : TcpConn net bin) (m : Message) (rest future : List ℕ)
      → c.state ≡ opened
      → c.settings.is_raw ≡ false
      → Fits c.settings m
      → All IsByte rest
      → IsUsual es
      → chunk c.read ++ (input es ++ future) ≡ wire false m ++ rest
      → Goes c m rest future (chunk c.read ++ input es) (open_loop net bin c es)
  open_loop-Goes [] c m rest future o f fits hr u e =
      elim (append-Cuts (chunk c.read) future (wire false m) rest e) [
        | inl (t, p, q) ↦
            let w =
              open_head_whole net bin c m t f fits (All-append_left IsByte t future (rw q at hr))
                p in
            whole-Goes [] c m t rest future _ w.0 w.1 q
        | inr (x, t, p, q) ↦
            let w = open_head_part net bin c m x t f fits p in
            rw (open_loop_end_of_events net bin c)
              (head-Same net bin c, inr (w.0, w.1 ∙ sym (append-nil (chunk c.read)), refl))
      ]
  open_loop-Goes (Event.read xs ∷ es) c m rest future o f fits hr u e =
      elim (append-Cuts (chunk c.read) ((xs ++ input es) ++ future) (wire false m) rest e) [
        | inl (t, p, q) ↦
            let ht = All-append_left IsByte t ((xs ++ input es) ++ future) (rw q at hr) in
            let w = open_head_whole net bin c m t f fits ht p in
            whole-Goes (Event.read xs ∷ es) c m t rest future _ w.0 w.1 q
        | inr (x, t, p, q) ↦
            let w = open_head_part net bin c m x t f fits p in
            let c' : TcpConn net bin = record (open_head net bin c).1 {
              read = bin.advance_mut (open_head net bin c).1.read xs;
            } in
            let now : chunk c'.read ≡ chunk c.read ++ xs =
              bin.chunk-advance_mut _ xs ∙ ap (λ (b : List ℕ). b ++ xs) w.1 in
            let more : chunk c'.read ++ (input es ++ future) ≡ wire false m ++ rest =
              ap (λ (b : List ℕ). b ++ (input es ++ future)) now
              ∙ append_assoc (chunk c.read) xs (input es ++ future)
              ∙ ap (λ (b : List ℕ). chunk c.read ++ b) (sym (append_assoc xs (input es) future))
              ∙ e in
            rw (open_loop_read net bin c xs es w.0 u.0) (
              carried_on c c' m rest future _ _ _ (head_read net bin c xs)
                (ap (λ (b : List ℕ). b ++ input es) now ∙ append_assoc (chunk c.read) xs (input es))
                (open_loop-Goes es c' m rest future ((head_read net bin c xs).state ∙ o)
                  (rw ((head_read net bin c xs).settings) f)
                  (rw ((head_read net bin c xs).settings) fits) hr u.1 more))
      ]
  open_loop-Goes (wrote n ∷ es) c m rest future o f fits hr u e =
      elim (append-Cuts (chunk c.read) (input es ++ future) (wire false m) rest e) [
        | inl (t, p, q) ↦
            let ht = All-append_left IsByte t (input es ++ future) (rw q at hr) in
            let w = open_head_whole net bin c m t f fits ht p in
            whole-Goes (wrote n ∷ es) c m t rest future _ w.0 w.1 q
        | inr (x, t, p, q) ↦
            let w = open_head_part net bin c m x t f fits p in
            let c₁ : TcpConn net bin = (open_head net bin c).1 in
            let c' : TcpConn net bin = (open_event net bin c₁ (wrote n)).1 in
            let k = both net bin c c₁ c' (head-Same net bin c) (wrote-Same net bin c₁ n).0 in
            let now : chunk c'.read ≡ chunk c.read = ap chunk (wrote-Same net bin c₁ n).1 ∙ w.1 in
            rw (open_loop_wrote net bin c n es w.0) (
              carried_on c c' m rest future _ _ _ k (ap (λ (b : List ℕ). b ++ input es) now) (
                open_loop-Goes es c' m rest future (k.state ∙ o) (rw (k.settings) f)
                  (rw (k.settings) fits) hr u
                  (ap (λ (b : List ℕ). b ++ (input es ++ future)) now ∙ e)))
      ]
  open_loop-Goes (read_failed _ ∷ es) c m rest future o f fits hr u e = absurd u
  open_loop-Goes (write_failed _ ∷ es) c m rest future o f fits hr u e = absurd u
  open_loop-Goes (elapsed ∷ es) c m rest future o f fits hr u e = absurd u
  open_loop-Goes (incoming _ ∷ es) c m rest future o f fits hr u e = absurd u
  open_loop-Goes (connecting _ ∷ es) c m rest future o f fits hr u e = absurd u

  -- When the stream is empty, no message can be read: one more message, to come after the end, shows it.
  nothing_read :
      (s : List ℕ) (t : List ℕ) (left : List ℕ)
      → (s ++ t) ++ (left ++ wire false (Message.binary [])) ≡ []
      → ⊥
  nothing_read s t left e =
      let none_left = append-nil_right left _ (append-nil_right (s ++ t) _ e) in ground arith

  -- So a call on a stream that has nothing more to bring waits.
  pub open_loop-Waits :
      (es : List (Event net bin)) (c : TcpConn net bin) (left : List ℕ)
      → c.state ≡ opened
      → c.settings.is_raw ≡ false
      → Fits c.settings (Message.binary [])
      → IsUsual es
      → chunk c.read ++ (input es ++ left) ≡ []
      → Same net bin c (open_loop net bin c es).1
        × Waits (chunk c.read ++ input es) (open_loop net bin c es)
  open_loop-Waits es c left o f fits u ends =
      let none_left : left ≡ [] =
        append-nil_right (input es) left (append-nil_right (chunk c.read) _ ends) in
      let (same, g) =
        open_loop-Goes es c (Message.binary []) [] (left ++ wire false (Message.binary [])) o f fits
          tt u
          (ap (λ (x : List ℕ). chunk c.read ++ x) (sym (append_assoc (input es) left _))
            ∙ sym (append_assoc (chunk c.read) (input es ++ left) _)
            ∙ ap (λ (x : List ℕ). x ++ wire false (Message.binary [])) ends) in
      elim g [
        | inl (a, b) ↦ absurd (
            nothing_read (chunk (open_loop net bin c es).1.read) (input (open_loop net bin c es).2)
              left b)
        | inr w ↦ (same, w)
      ]
