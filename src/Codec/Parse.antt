-- ===== src/Codec/Parse.antt =====
-- `parse` on any bytes: when it waits, and that it does not look past a frame.
use hcnet.Base.{
  ℕ, ◌+◌, ◌-◌, ◌*◌, ◌<◌, ◌≡◌, ◌≢◌, refl, List, [], ◌∷◌, ◌++◌, none, length, take, arith, ◌⊎◌, inl,
  length-append, take-append_le, drop-append_le,
}
use hcnet.Message.{OpCode, from_u8}
use hcnet.Error.{ok}
use hcnet.Settings.{Settings}
use hcnet.Codec.{message_of}
use hcnet.Codec.Frame.{parse_framed}

module _ {E : Type 0} where
  -- `message_of` always ends in a message or an error.
  message_of-ne-none : (op : OpCode) (val : List ℕ) → message_of {E = E} op val ≢ ok none
  unfolding message_of
  message_of-ne-none OpCode.text val e = ground arith
  message_of-ne-none OpCode.binary val e = cc
  message_of-ne-none OpCode.close [] e = cc
  message_of-ne-none OpCode.close (x ∷ []) e = cc
  message_of-ne-none OpCode.close (x ∷ y ∷ val) e = ground arith
  message_of-ne-none OpCode.ping val e = cc
  message_of-ne-none OpCode.pong val e = cc
  message_of-ne-none OpCode.shutdown val e = cc
  message_of-ne-none OpCode.bad val e = cc

  pub parse_framed_waits :
      (s : Settings) (bs : List ℕ)
      → (parse_framed {E = E} s bs).0 ≡ ok none
      → ((parse_framed {E = E} s bs).1 ≡ bs) × ((length bs < 4) ⊎ (length bs < s.onemsg_max_size))
  parse_framed_waits s [] e = (refl, inl (omega arith))
  parse_framed_waits s (x ∷ []) e = (refl, inl (omega arith))
  parse_framed_waits s (x ∷ y ∷ []) e = (refl, inl (omega arith))
  parse_framed_waits s (x ∷ y ∷ z ∷ []) e = (refl, inl (omega arith))
  parse_framed_waits s (x ∷ y ∷ z ∷ op ∷ rest) e =
      ground (arith, message_of-ne-none (from_u8 op) (take (x * 65536 + y * 256 + z - 4) rest))

  -- More bytes behind a frame do not change it, nor mend an error.
  pub parse_framed-append :
      (s : Settings) (bs more : List ℕ)
      → (parse_framed {E = E} s bs).0 ≢ ok none
      → ((parse_framed {E = E} s (bs ++ more)).0 ≡ (parse_framed {E = E} s bs).0)
        × ((parse_framed {E = E} s (bs ++ more)).1 ≡ (parse_framed {E = E} s bs).1 ++ more)
  parse_framed-append s [] more h = absurd (h refl)
  parse_framed-append s (x ∷ []) more h = absurd (h refl)
  parse_framed-append s (x ∷ y ∷ []) more h = absurd (h refl)
  parse_framed-append s (x ∷ y ∷ z ∷ []) more h = absurd (h refl)
  parse_framed-append s (x ∷ y ∷ z ∷ op ∷ rest) more h =
      let n : ℕ = x * 65536 + y * 256 + z in
      ground (
        arith,
        length-append rest more,
        take-append_le (n - 4) rest more,
        drop-append_le (n - 4) rest more,
      )
