-- ===== src/Ws/Duplex/Delivery.antt =====
-- An open websocket gives its messages in order, however the stream is cut into reads.
use hcnet.Base.{
  ℕ, zero, suc, ◌≤◌, ◌≡◌, ◌≢◌, refl, sym, ap, ◌∙◌, true, false, List, [], ◌∷◌, ◌++◌, map, Option,
  some, length, leb, ◌==◌, All, concat, append-Cuts, append-nil, append_assoc, arith, inl, inr,
  length-append, lt→leb_false,
}
use hcnet.Message.{Message}
use hcnet.Error.{NetResult, ok}
use hcnet.Settings.{Settings}
use hcnet.Buffer.{BinaryMut}
use hcnet.Ws.Web.{WebApi}
use hcnet.Ws.Duplex.{
  Pipe, Event, assembled, answers, waits, open_head, head_of, open_wait, open_process, process_io,
  is_inbuffer_full, Polled,
}
use hcnet.Ws.Duplex.Reading.{
  IsFrame, read_frame, behind, read_whole, read_frames_last, read_frames-part,
}

module _ {E : Type 0} (api : WebApi E) (bin : BinaryMut) where
  open bin use {Buf, chunk, len}
  open api use {DataFrame, is_last}

  -- These bytes are one frame that is the whole of the message.
  pub record Encodes (m : Message) (bs : List ℕ) : Type 0 where
    pub f : DataFrame
    pub is_frame : IsFrame api f bs
    pub last : is_last f ≡ true
    pub says : assembled api bin (f ∷ []) ≡ ok m

  -- A last frame at the front of the buffer ends the message that the frames before it began.
  pub open_head_last :
      (settings : Settings) (vec : List DataFrame) (d : Pipe api bin) (f : DataFrame)
      (bs rest : List ℕ)
      → IsFrame api f bs
      → is_last f ≡ true
      → chunk d.read ≡ bs ++ rest
      → (open_head api bin settings vec d
          ≡ answers (assembled api bin (vec ++ f ∷ [])) (record d { read = behind api bin d.read }))
        × (chunk (behind api bin d.read) ≡ rest)
  unfolding open_head head_of
  open_head_last settings vec d f bs rest fr last e =
      let w = read_whole api bin d.read f bs rest fr e in
      (
        ap (head_of api bin settings d)
            (read_frames_last api bin (len d.read) vec d.read f w.0 last),
        w.1,
      )

  pub open_head_part :
      (settings : Settings) (d : Pipe api bin) (bs : List ℕ) (f : DataFrame) (x : ℕ) (back : List ℕ)
      → IsFrame api f bs
      → bs ≡ chunk d.read ++ x ∷ back
      → length bs ≤ settings.in_buffer_max
      → (open_head api bin settings [] d
          ≡ waits [] (record d { read = bin.rewind_mark (behind api bin d.read) }))
        × (chunk (bin.rewind_mark (behind api bin d.read)) ≡ chunk d.read)
  unfolding open_head head_of is_inbuffer_full
  open_head_part settings d bs f x back fr e fits =
      let what =
        ap (λ (t : List ℕ). (read_frame api t).0) (bin.chunk-mark d.read)
        ∙ fr.cut (chunk d.read) x back e in
      let left : chunk (bin.rewind_mark (behind api bin d.read)) ≡ chunk d.read =
        bin.chunk-rewind_mark _ ∙ bin.marked-advance _ _ ∙ bin.marked-mark d.read in
      let small : leb settings.in_buffer_max (len (bin.rewind_mark (behind api bin d.read)))
          ≡ false =
        rw (bin.len-chunk _, left)
          (lt→leb_false _ _
            (omega (arith, ap length e, length-append (chunk d.read) (x ∷ back)))) in
      (
        ap (head_of api bin settings d) (read_frames-part api bin (len d.read) [] d.read what)
            ∙ rw small refl,
        left,
      )

  abbrev pub reads : List (List ℕ) → List (Event E)
  reads = map Event.read

  -- An answer that is this message, and what it leaves: reads with, behind the unread bytes, `rest`.
  pub record Delivers (m : Message) (rest : List ℕ) (p : Polled api bin) : Type 0 where
    pub left : List (List ℕ)
    pub answer : p.0 ≡ some (ok m)
    pub events : p.2 ≡ reads left
    pub non_empty : All (λ xs. xs ≢ []) left
    pub unread : chunk p.1.read ++ concat left ≡ rest

  pub length-ne-zero : (xs : List ℕ) → xs ≢ [] → (length xs == 0) ≡ false
  length-ne-zero [] h = absurd (h refl)
  length-ne-zero (x ∷ xs) h = ground arith

  pub open_process_answer :
      (settings : Settings) (d d' : Pipe api bin) (r : NetResult E Message) (es : List (Event E))
      → open_head api bin settings [] d ≡ answers r d'
      → open_process api bin settings d es ≡ (some r, d', es)
  unfolding open_process
  open_process_answer settings d d' r es h = rw (h, open_process) refl

  -- A read brings the loop back to its head.
  pub open_process_read :
      (settings : Settings) (d d' : Pipe api bin) (xs : List ℕ) (es : List (Event E))
      → open_head api bin settings [] d ≡ waits [] d'
      → xs ≢ []
      → open_process api bin settings d (Event.read xs ∷ es)
        ≡ open_process api bin settings (record d' { read = bin.advance_mut d'.read xs }) es
  unfolding open_process open_wait process_io
  open_process_read settings d d' xs es h k =
      rw (h, open_process, open_wait, length-ne-zero xs k) refl

  deliver :
      (settings : Settings) (chunks : List (List ℕ)) (d : Pipe api bin) (m : Message)
      (bs rest : List ℕ)
      → Encodes m bs
      → length bs ≤ settings.in_buffer_max
      → All (λ xs. xs ≢ []) chunks
      → chunk d.read ++ concat chunks ≡ bs ++ rest
      → Delivers m rest (open_process api bin settings d (reads chunks))
  deliver settings [] d m bs rest enc fits hc e =
      let w =
        open_head_last settings [] d enc.f bs rest enc.is_frame enc.last (sym (append-nil _) ∙ e) in
      rw (open_process_answer settings d _ _ [] w.0) (record {
        left = [];
        answer = ap some enc.says;
        events = refl;
        non_empty = tt;
        unread = append-nil _ ∙ w.1;
      })
  deliver settings (xs ∷ chunks) d m bs rest enc fits hc e =
      elim (append-Cuts (chunk d.read) (xs ++ concat chunks) bs rest e) [
        | inl (t, p, q) ↦
            let w = open_head_last settings [] d enc.f bs t enc.is_frame enc.last p in
            rw (open_process_answer settings d _ _ (reads (xs ∷ chunks)) w.0) (record {
              left = xs ∷ chunks;
              answer = ap some enc.says;
              events = refl;
              non_empty = hc;
              unread = rw (w.1) (sym q);
            })
        | inr (x, t, p, q) ↦
            let w = open_head_part settings d bs enc.f x t enc.is_frame p fits in
            rw (open_process_read settings d _ xs (reads chunks) w.0 hc.0) (
              deliver settings chunks _ m bs rest enc fits hc.1
                (rw (bin.chunk-advance_mut, w.1, append_assoc) e))
      ]

  -- The answers of that many calls of `process` on an open websocket, one after the other.
  pub answers_of :
      ℕ → Settings → Pipe api bin → List (Event E) → List (Option (NetResult E Message))
  answers_of zero settings d es = []
  answers_of (suc n) settings d es =
      let (r, d', es') = open_process api bin settings d es in r ∷ answers_of n settings d' es'

  -- Messages, each with its bytes.
  abbrev pub AllEncoded : Settings → List Message → List (List ℕ) → Type 0
  AllEncoded settings [] [] = Unit {0}
  AllEncoded settings (m ∷ ms) (bs ∷ bss) =
      Encodes m bs × (length bs ≤ settings.in_buffer_max) × AllEncoded settings ms bss
  AllEncoded settings _ _ = ⊥

  -- If the unread bytes of an open websocket and those of the reads to come, cut anywhere into non-empty
  -- pieces, are messages of one frame each that fit the read buffer, then the calls of `process` answer
  -- with these messages, each once and in order.
  pub open_process_in_order :
      (settings : Settings) (ms : List Message) (bss : List (List ℕ)) (d : Pipe api bin)
      (chunks : List (List ℕ))
      → AllEncoded settings ms bss
      → All (λ xs. xs ≢ []) chunks
      → chunk d.read ++ concat chunks ≡ concat bss
      → answers_of (length ms) settings d (reads chunks) ≡ map (λ m. some (ok m)) ms
  unfolding answers_of
  open_process_in_order settings [] bss d chunks enc hc e = refl
  open_process_in_order settings (m ∷ ms) [] d chunks enc hc e = absurd enc
  open_process_in_order settings (m ∷ ms) (bs ∷ bss) d chunks enc hc e =
      let p = deliver settings chunks d m bs (concat bss) enc.0 enc.1 hc e in
      let next =
        open_process_in_order settings ms bss (open_process api bin settings d (reads chunks)).1
          p.left enc.2 p.non_empty p.unread in
      rw (p.events) (λ i. p.answer i ∷ next i)
