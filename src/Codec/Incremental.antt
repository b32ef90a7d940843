-- ===== src/Codec/Incremental.antt =====
-- `decode_message` on a stream that arrives in pieces.
use hcnet.Base.{
  ℕ, ◌+◌, ◌^◌, ◌≤◌, ◌<◌, ◌≡◌, ◌≢◌, refl, sym, ap, ◌∙◌, false, List, [], ◌∷◌, ◌++◌, Option, none,
  length, arith, Bool-cases, ◌⊎◌, inl, inr, All,
}
use hcnet.Message.{Message}
use hcnet.Error.{NetResult, ok, err, too_short}
use hcnet.Settings.{Settings}
use hcnet.Buffer.{BinaryMut}
use hcnet.Codec.{decode_message}
use hcnet.Codec.Frame.{IsByte, wire, parse, parse_raw}
use hcnet.Codec.Parse.{parse_framed_waits, parse_framed-append}
use hcnet.Codec.RoundTrip.{IsFrameable, frame_size, parse_cut, parse_too_long}
use hcnet.Codec.Refine.{decode_message-Agrees}

module _ {E : Type 0} where
  parse_raw_waits : (bs : List ℕ) → (parse_raw {E = E} bs).0 ≡ ok none → bs ≡ []
  parse_raw_waits [] e = refl
  parse_raw_waits (b ∷ bs) e = cc

  parse_waits :
      (s : Settings) (bs : List ℕ)
      → (parse {E = E} s bs).0 ≡ ok none
      → ((parse {E = E} s bs).1 ≡ bs) × ((length bs < 4) ⊎ (length bs < s.onemsg_max_size))
  parse_waits s bs = elim (Bool-cases s.is_raw) [
    | inl raw ↦ rw raw (λ e. rw (parse_raw_waits bs e) (refl, inl (omega arith)))
    | inr framed_mode ↦ rw framed_mode (parse_framed_waits s bs)
  ]

  parse-append :
      (s : Settings) (bs more : List ℕ)
      → s.is_raw ≡ false
      → (parse {E = E} s bs).0 ≢ ok none
      → ((parse {E = E} s (bs ++ more)).0 ≡ (parse {E = E} s bs).0)
        × ((parse {E = E} s (bs ++ more)).1 ≡ (parse {E = E} s bs).1 ++ more)
  parse-append s bs more framed_mode = rw framed_mode (parse_framed-append s bs more)

module _ (bin : BinaryMut) (E : Type 0) where
  open bin use {Buf, chunk, len}

  -- While `decode_message` waits for more on a buffer of bytes, it leaves the unread bytes as they
  -- were, and these are fewer than four or fewer than `onemsg_max_size`.
  pub decode_message_waits :
      (b : Buf) (s : Settings)
      → All IsByte (chunk b)
      → (decode_message bin {E = E} b s).0 ≡ ok none
      → (chunk (decode_message bin {E = E} b s).1 ≡ chunk b)
        × ((len b < 4) ⊎ (len b < s.onemsg_max_size))
  decode_message_waits b s h e =
      let d = decode_message-Agrees bin {E = E} b s h in
      let w = parse_waits {E = E} s (chunk b) (sym d.0 ∙ e) in rw (bin.len-chunk b) (d.1 ∙ w.0, w.1)

  -- On a framed connection whose buffer holds a proper part, from its start, of a frame that is
  -- shorter than 2 ^ 24 bytes and no longer than `onemsg_max_size`, `decode_message` waits, and
  -- leaves the part as it was.
  pub decode_message_cut :
      (b : Buf) (m : Message) (s : Settings) (x : ℕ) (back : List ℕ)
      → All IsByte (chunk b)
      → IsFrameable m
      → s.is_raw ≡ false
      → frame_size m < 2 ^ 24
      → frame_size m ≤ s.onemsg_max_size
      → wire false m ≡ chunk b ++ x ∷ back
      → ((decode_message bin {E = E} b s).0 ≡ ok none)
        × (chunk (decode_message bin {E = E} b s).1 ≡ chunk b)
  decode_message_cut b m s x back hb h framed_mode small fits e =
      let d = decode_message-Agrees bin {E = E} b s hb in
      let p = parse_cut {E = E} s m (chunk b) x back h framed_mode small fits e in
      (
        d.0 ∙ ap (λ (r : NetResult E (Option Message) × List ℕ). r.0) p,
        d.1 ∙ ap (λ (r : NetResult E (Option Message) × List ℕ). r.1) p,
      )

  -- On a framed connection, once `decode_message` has an answer, a message or an error, bytes that
  -- came behind do not change it: they stay behind what was left.
  pub decode_message-append :
      (b c : Buf) (s : Settings) (more : List ℕ)
      → All IsByte (chunk b)
      → All IsByte (chunk c)
      → s.is_raw ≡ false
      → chunk c ≡ chunk b ++ more
      → (decode_message bin {E = E} b s).0 ≢ ok none
      → ((decode_message bin {E = E} c s).0 ≡ (decode_message bin {E = E} b s).0)
        × (chunk (decode_message bin {E = E} c s).1
            ≡ chunk (decode_message bin {E = E} b s).1 ++ more)
  decode_message-append b c s more hb hc framed_mode e done =
      let d = decode_message-Agrees bin {E = E} b s hb in
      let d' = decode_message-Agrees bin {E = E} c s hc in
      let p = parse-append {E = E} s (chunk b) more framed_mode (λ w. done (d.0 ∙ w)) in
      (
        d'.0 ∙ ap (λ (bs : List ℕ). (parse {E = E} s bs).0) e ∙ p.0 ∙ sym d.0,
        d'.1
            ∙ ap (λ (bs : List ℕ). (parse {E = E} s bs).1) e
            ∙ p.1
            ∙ ap (λ (bs : List ℕ). bs ++ more) (sym d.1),
      )

  -- On a framed connection a binary message whose frame is 2 ^ 24 to 2 ^ 24 + 3 bytes long is
  -- refused by the receiver as too short: its header has lost the highest bit of the size.
  pub decode_message_too_long :
      (b : Buf) (s : Settings) (v rest : List ℕ) (k : ℕ)
      → All IsByte (chunk b)
      → s.is_raw ≡ false
      → length v + 4 ≡ 2 ^ 24 + k
      → k < 4
      → chunk b ≡ wire false (Message.binary v) ++ rest
      → (decode_message bin {E = E} b s).0 ≡ err too_short
  decode_message_too_long b s v rest k hb framed_mode size h e =
      (decode_message-Agrees bin {E = E} b s hb).0
      ∙ ap (λ (bs : List ℕ). (parse {E = E} s bs).0) e
      ∙ parse_too_long {E = E} s v rest k framed_mode size h
