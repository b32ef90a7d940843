-- ===== src/Ws/Shake/Got.antt =====
-- The loop that waits for a request or a response, when one comes whole.
use hcnet.Base.{
  ℕ, ◌<◌, ◌≡◌, ◌≢◌, refl, ap, ◌∙◌, false, List, [], ◌∷◌, ◌++◌, none, some, lt→leb_false,
}
use hcnet.Error.{ok}
use hcnet.Settings.{Settings}
use hcnet.Buffer.{BinaryMut}
use hcnet.Ws.Web.{WebApi, Parser, parsed}
use hcnet.Ws.Duplex.{Pipe, Event, read, process_io, is_inbuffer_full}
use hcnet.Ws.Duplex.Delivery.{length-ne-zero}
use hcnet.Ws.Shake.{shake, shake_wait, after_io, after_parse, parse, got, answers}

module _ {E : Type 0} (api : WebApi E) (bin : BinaryMut) {P : Type 0} (parser : Parser E P) where
  -- These bytes are the text of `p`, for a parser that is new.
  pub record Parses (p : P) (bs : List ℕ) : Type 0 where
    pub non_empty : bs ≢ []
    pub n : ℕ
    pub parse : parser.parse_buffer parser.new bs ≡ (parsed n, p)
    pub whole : parser.is_partial p ≡ false

  -- The pipe behind a text that came in.
  abbrev pub behind : Pipe api bin → List ℕ → ℕ → Pipe api bin
  behind d bs n = record d { read = bin.advance (bin.mark (bin.advance_mut d.read bs)) n }

  room :
      (d : Pipe api bin) (settings : Settings)
      → bin.chunk d.read ≡ []
      → 0 < settings.in_buffer_max
      → is_inbuffer_full api bin d settings ≡ false
  unfolding is_inbuffer_full
  room d settings e h = lt→leb_false _ _ (rw (bin.len-chunk d.read, e) h)

  pub shake_pending :
      (settings : Settings) (d : Pipe api bin)
      → bin.chunk d.read ≡ []
      → 0 < settings.in_buffer_max
      → shake api bin parser settings d [] ≡ (none, d, [])
  unfolding shake shake_wait
  shake_pending settings d e h = rw (room d settings e h) refl

  parse_whole :
      (d : Pipe api bin) (p : P) (bs : List ℕ)
      → (t : Parses p bs) → bin.chunk d.read ≡ bs
      → parse api bin parser parser.new d
        ≡ answers (ok (got p)) (record d { read = bin.advance (bin.mark d.read) t.n })
  unfolding parse after_parse
  parse_whole d p bs t e =
      let same : bin.chunk (bin.mark d.read) ≡ bs = bin.chunk-mark _ ∙ e in
      rw (same, t.parse, after_parse, t.whole) refl

  pub shake_got :
      (settings : Settings) (d : Pipe api bin) (p : P) (bs : List ℕ) (es : List (Event E))
      → (t : Parses p bs) → bin.chunk d.read ≡ []
      → 0 < settings.in_buffer_max
      → shake api bin parser settings d (read bs ∷ es) ≡ (some (ok (got p)), behind d bs t.n, es)
  unfolding shake shake_wait after_io process_io
  shake_got settings d p bs es t e h =
      let d' : Pipe api bin = record d { read = bin.advance_mut d.read bs } in
      let same = bin.chunk-advance_mut d.read bs ∙ ap (λ (x : List ℕ). x ++ bs) e in
      rw
        (
          room d settings e h,
          shake_wait,
          length-ne-zero api bin bs t.non_empty,
          after_io,
          parse_whole d' p bs t same,
        )
        refl
