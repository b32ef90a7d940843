-- ===== src/Ws/Duplex/Reading.antt =====
-- What the frame reader of webparse is documented to do, and that the loop over it ends.
use hcnet.Base.{
  ℕ, zero, suc, ◌-◌, ◌≤◌, ◌<◌, ◌≡◌, ◌≢◌, refl, ap, ◌∙◌, true, false, List, [], ◌∷◌, ◌++◌, length,
  length-drop, length-append, drop-append_all, arith, ◌⊎◌, inl, inr, Bool-cases,
}
use hcnet.Settings.{Settings}
use hcnet.Buffer.{BinaryMut}
use hcnet.Ws.Web.{WebApi, FrameRead, frame, eof}
use hcnet.Ws.Duplex.{
  assembled, Pipe, Frames, message, part, no_fuel, read_frames, spins, open_head, head_of,
}

module _ {E : Type 0} (api : WebApi E) where
  open api use {DataFrame, is_last}

  abbrev pub read_frame : List ℕ → FrameRead E DataFrame × ℕ
  read_frame bs = api.read_dataframe_with_limit bs false 100000

  -- A frame takes at least a byte, and no more than there are.
  pub record TakesBytes : Type 0 where
    pub takes :
        (bs : List ℕ) (f : DataFrame)
        → (read_frame bs).0 ≡ frame f
        → (0 < (read_frame bs).1) × ((read_frame bs).1 ≤ length bs)

  -- These bytes are the frame `f`, whatever follows; a proper part of them, from their start, is none.
  pub record IsFrame (f : DataFrame) (bs : List ℕ) : Type 0 where
    pub whole :
        (rest : List ℕ)
        → ((read_frame (bs ++ rest)).0 ≡ frame f) × ((read_frame (bs ++ rest)).1 ≡ length bs)
    pub cut : (xs : List ℕ) (y : ℕ) (ys : List ℕ) → bs ≡ xs ++ y ∷ ys → (read_frame xs).0 ≡ eof

  pub FrameRead-cases :
      (r : FrameRead E DataFrame)
      → ((f : DataFrame) × (r ≡ frame f)) ⊎ (r ≡ eof) ⊎ ((x : E) × (r ≡ FrameRead.failed x))
  FrameRead-cases (frame f) = inl (f, refl)
  FrameRead-cases eof = inr (inl refl)
  FrameRead-cases (FrameRead.failed x) = inr (inr (x, refl))

module _ {E : Type 0} (api : WebApi E) (bin : BinaryMut) where
  open bin use {Buf, chunk}
  open api use {DataFrame, is_last}

  -- The bytes that the reader took from a buffer, and the buffer behind them.
  abbrev pub taken : Buf → ℕ
  taken b = (read_frame api (chunk (bin.mark b))).1

  abbrev pub behind : Buf → Buf
  behind b = bin.advance (bin.mark b) (taken b)

  -- A frame at the front of a buffer, and what is left behind it.
  pub read_whole :
      (b : Buf) (f : DataFrame) (bs rest : List ℕ)
      → IsFrame api f bs
      → chunk b ≡ bs ++ rest
      → ((read_frame api (chunk (bin.mark b))).0 ≡ frame f) × (chunk (behind b) ≡ rest)
  read_whole b f bs rest fr e =
      let same = bin.chunk-mark b ∙ e in
      let w = fr.whole rest in
      let size : taken b ≡ length bs = ap (λ (t : List ℕ). (read_frame api t).1) same ∙ w.1 in
      (
        ap (λ (t : List ℕ). (read_frame api t).0) same ∙ w.0,
        bin.chunk-advance (bin.mark b) (taken b)
              (rw (size, same, length-append bs rest) (omega arith))
            ∙ rw (size, same) (drop-append_all bs rest),
      )

  -- The three ways a step of the loop over the frames goes.
  pub read_frames_last :
      (fuel : ℕ) (vec : List DataFrame) (b : Buf) (f : DataFrame)
      → (read_frame api (chunk (bin.mark b))).0 ≡ frame f
      → is_last f ≡ true
      → read_frames api bin (suc fuel) vec b
        ≡ (message (assembled api bin (vec ++ f ∷ [])), behind b)
  unfolding read_frames
  read_frames_last fuel vec b f e h = rw (e, h, read_frames) refl

  pub read_frames_more :
      (fuel : ℕ) (vec : List DataFrame) (b : Buf) (f : DataFrame)
      → (read_frame api (chunk (bin.mark b))).0 ≡ frame f
      → is_last f ≡ false
      → read_frames api bin (suc fuel) vec b ≡ read_frames api bin fuel (vec ++ f ∷ []) (behind b)
  unfolding read_frames
  read_frames_more fuel vec b f e h = rw (e, h, read_frames) refl

  pub read_frames-part :
      (fuel : ℕ) (vec : List DataFrame) (b : Buf)
      → (read_frame api (chunk (bin.mark b))).0 ≡ eof
      → read_frames api bin (suc fuel) vec b ≡ (part vec, bin.rewind_mark (behind b))
  unfolding read_frames
  read_frames-part fuel vec b e = rw (e, read_frames) refl

module _ {E : Type 0} (api : WebApi E) (bin : BinaryMut) (law : TakesBytes api) where
  open bin use {Buf, chunk, len}
  open api use {DataFrame, is_last}

  len-behind :
      (b : Buf) (f : DataFrame)
      → (read_frame api (chunk (bin.mark b))).0 ≡ frame f
      → (0 < taken api bin b)
        × (len (behind api bin b) ≡ len b - taken api bin b)
        × (taken api bin b ≤ len b)
  len-behind b f e =
      let t = law.takes _ f e in
      let same : length (chunk (bin.mark b)) ≡ len b =
        rw (bin.chunk-mark b, bin.len-chunk b) refl in
      let behind_eq : len (behind api bin b) ≡ length (chunk (bin.mark b)) - taken api bin b =
        bin.len-chunk _
        ∙ ap length (bin.chunk-advance (bin.mark b) (taken api bin b) t.1)
        ∙ length-drop (taken api bin b) (chunk (bin.mark b)) in
      (t.0, omega (arith, same, behind_eq), omega (arith, same, t.1))

  -- The fuel is enough: the loop over the frames of a buffer ends.
  pub read_frames-ends :
      (fuel : ℕ) (vec : List DataFrame) (b : Buf)
      → len b < fuel
      → (read_frames api bin fuel vec b).0 ≢ no_fuel
  unfolding read_frames
  read_frames-ends zero vec b h = absurd (omega arith)
  read_frames-ends (suc fuel) vec b h =
      elim (FrameRead-cases api (read_frame api (chunk (bin.mark b))).0) [
        | inl (f, e) ↦ elim (Bool-cases (is_last f)) [
          | inl last ↦ rw (e, last, read_frames) (λ x. cc)
          | inr open_frame ↦
              let t = len-behind b f e in
              rw (e, open_frame, read_frames)
                (read_frames-ends fuel (vec ++ f ∷ []) (behind api bin b)
                  (omega (arith, t.0, t.1, t.2)))
        ]
        | inr (inl e) ↦ rw (e, read_frames) (λ x. cc)
        | inr (inr (x, e)) ↦ rw (e, read_frames) (λ x. cc)
      ]

  -- The head of the loop of an open connection always goes on to an answer or to a wait.
  pub open_head-ends :
      (settings : Settings) (vec : List DataFrame) (d : Pipe api bin)
      → open_head api bin settings vec d ≢ spins
  unfolding open_head head_of
  open_head-ends settings vec d =
      go (read_frames api bin (suc (len d.read)) vec d.read)
        (read_frames-ends (suc (len d.read)) vec d.read (omega arith))
    where
      go : (p : Frames api bin × Buf) → p.0 ≢ no_fuel → head_of api bin settings d p ≢ spins
      go (message r, b) h = λ x. cc
      go (part v, b) h = ground arith
      go (no_fuel, b) h = absurd (h refl)
