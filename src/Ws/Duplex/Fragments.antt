-- ===== src/Ws/Duplex/Fragments.antt =====
-- Messages of several frames: the frames that are read are a local of `process`.
use hcnet.Base.{
  ℕ, suc, ◌≤◌, ◌<◌, ◌≡◌, ◌≢◌, refl, sym, ap, ◌∙◌, true, false, List, [], ◌∷◌, ◌++◌, none, some,
  length, leb, append-nil, arith, lt→leb_false,
}
use hcnet.Message.{Message}
use hcnet.Error.{NetResult}
use hcnet.Settings.{Settings}
use hcnet.Buffer.{BinaryMut}
use hcnet.Ws.Web.{WebApi, eof}
use hcnet.Ws.Duplex.{
  Pipe, Event, read, read_frames, assembled, answers, waits, open_head, head_of, open_wait,
  open_process, process_io, is_inbuffer_full,
}
use hcnet.Ws.Duplex.Reading.{
  IsFrame, read_frame, behind, read_whole, read_frames_more, read_frames-part,
}
use hcnet.Ws.Duplex.Delivery.{
  open_head_last, open_head_part, open_process_answer, open_process_read, length-ne-zero,
}

module _ {E : Type 0} (api : WebApi E) (bin : BinaryMut) where
  open bin use {Buf, chunk, len}
  open api use {DataFrame, is_last}

  abbrev first_read : Pipe api bin → Pipe api bin
  first_read d = record d { read = bin.rewind_mark (behind api bin (behind api bin d.read)) }

  -- The buffer holds one frame, and the message goes on.
  open_head_fragment :
      (settings : Settings) (d : Pipe api bin) (f : DataFrame) (y : ℕ) (ys : List ℕ)
      → IsFrame api f (y ∷ ys)
      → is_last f ≡ false
      → (read_frame api []).0 ≡ eof
      → chunk d.read ≡ y ∷ ys
      → 0 < settings.in_buffer_max
      → (open_head api bin settings [] d ≡ waits (f ∷ []) (first_read d))
        × (chunk (first_read d).read ≡ [])
  unfolding open_head head_of is_inbuffer_full
  open_head_fragment settings d f y ys fr more stops e room =
      let w = read_whole api bin d.read f (y ∷ ys) [] fr (e ∙ sym (append-nil _)) in
      let b : Buf = behind api bin d.read in
      let next = ap (λ (t : List ℕ). (read_frame api t).0) (bin.chunk-mark b ∙ w.1) ∙ stops in
      let left : chunk (first_read d).read ≡ [] =
        bin.chunk-rewind_mark _ ∙ bin.marked-advance _ _ ∙ bin.marked-mark b ∙ w.1 in
      let small : leb settings.in_buffer_max (len (first_read d).read) ≡ false =
        rw (bin.len-chunk _, left) (lt→leb_false _ _ room) in
      let fuel : len d.read ≡ suc (length ys) = bin.len-chunk d.read ∙ ap length e in
      (
        ap (head_of api bin settings d) (
              read_frames_more api bin (len d.read) [] d.read f w.0 more
              ∙ ap (λ (n : ℕ). read_frames api bin n (f ∷ []) b) fuel
              ∙ read_frames-part api bin (length ys) (f ∷ []) b next)
            ∙ rw small refl,
        left,
      )

  -- A read that completes the message.
  open_wait_completes :
      (settings : Settings) (vec : List DataFrame) (d d' : Pipe api bin) (r : NetResult E Message)
      (xs : List ℕ) (es : List (Event E))
      → xs ≢ []
      → open_head api bin settings vec (record d { read = bin.advance_mut d.read xs })
        ≡ answers r d'
      → open_wait api bin settings vec d (read xs ∷ es) ≡ (some r, d', es)
  unfolding open_wait process_io
  open_wait_completes settings vec d d' r xs es k h =
      rw (open_wait, length-ne-zero api bin xs k, h) refl

  read_last :
      (settings : Settings) (vec : List DataFrame) (d : Pipe api bin) (f : DataFrame) (z : ℕ)
      (zs : List ℕ)
      → IsFrame api f (z ∷ zs)
      → is_last f ≡ true
      → chunk d.read ≡ []
      → open_head api bin settings vec (record d { read = bin.advance_mut d.read (z ∷ zs) })
        ≡ answers
            (assembled api bin (vec ++ f ∷ []))
            (record d { read = behind api bin (bin.advance_mut d.read (z ∷ zs)) })
  read_last settings vec d f z zs fr last e =
      (open_head_last api bin settings vec (record d { read = bin.advance_mut d.read (z ∷ zs) }) f
        (z ∷ zs) [] fr last (bin.chunk-advance_mut d.read (z ∷ zs) ∙ rw e (sym (append-nil _)))).0

  completes :
      (settings : Settings) (vec : List DataFrame) (d : Pipe api bin) (f : DataFrame) (z : ℕ)
      (zs : List ℕ)
      → IsFrame api f (z ∷ zs)
      → is_last f ≡ true
      → chunk d.read ≡ []
      → (open_wait api bin settings vec d (read (z ∷ zs) ∷ [])).0
        ≡ some (assembled api bin (vec ++ f ∷ []))
  completes settings vec d f z zs fr last e =
      rw
        (open_wait_completes settings vec d _ _ (z ∷ zs) [] (λ x. cc)
          (read_last settings vec d f z zs fr last e))
        refl

  open_process_waits :
      (settings : Settings) (vec : List DataFrame) (d d' : Pipe api bin) (es : List (Event E))
      → open_head api bin settings [] d ≡ waits vec d'
      → open_process api bin settings d es ≡ open_wait api bin settings vec d' es
  unfolding open_process
  open_process_waits settings vec d d' es h = rw (h, open_process) refl

  nothing :
      (settings : Settings) (vec : List DataFrame) (d : Pipe api bin)
      → open_wait api bin settings vec d [] ≡ (none, d, [])
  unfolding open_wait
  nothing settings vec d = refl

  -- If a message comes in two frames, and the call of `process` that reads the first is dropped while it
  -- waits for the second, then the next call assembles the second frame alone. A call that is not
  -- dropped assembles both.
  pub open_process_forgets :
      (settings : Settings) (d : Pipe api bin) (f₁ f₂ : DataFrame) (y : ℕ) (ys : List ℕ) (z : ℕ)
      (zs : List ℕ)
      → IsFrame api f₁ (y ∷ ys)
      → is_last f₁ ≡ false
      → IsFrame api f₂ (z ∷ zs)
      → is_last f₂ ≡ true
      → chunk d.read ≡ y ∷ ys
      → length (z ∷ zs) ≤ settings.in_buffer_max
      → let (r, d', _) = open_process api bin settings d [] in
        ((open_process api bin settings d (read (z ∷ zs) ∷ [])).0
          ≡ some (assembled api bin (f₁ ∷ f₂ ∷ [])))
        × (r ≡ none)
        × ((open_process api bin settings d' (read (z ∷ zs) ∷ [])).0
            ≡ some (assembled api bin (f₂ ∷ [])))
  open_process_forgets settings d f₁ f₂ y ys z zs fr₁ more fr₂ last e room =
      let stops = fr₂.cut [] z zs refl in
      let h = open_head_fragment settings d f₁ y ys fr₁ more stops e (omega arith) in
      let d' : Pipe api bin = first_read d in
      let both = completes settings (f₁ ∷ []) d' f₂ z zs fr₂ last h.1 in
      let part = open_head_part api bin settings d' (z ∷ zs) f₂ z zs fr₂ (rw (h.1) refl) room in
      let alone =
        open_process_read api bin settings d' _ (z ∷ zs) [] part.0 (λ x. cc)
        ∙ open_process_answer api bin settings _ _ _ []
            (read_last settings [] _ f₂ z zs fr₂ last (part.1 ∙ h.1)) in
      let pending : open_process api bin settings d [] ≡ (none, d', []) =
        open_process_waits settings (f₁ ∷ []) d d' [] h.0 ∙ nothing settings (f₁ ∷ []) d' in
      (
        rw (open_process_waits settings (f₁ ∷ []) d d' (read (z ∷ zs) ∷ []) h.0) both,
        rw pending refl,
        rw (pending, alone) refl,
      )
