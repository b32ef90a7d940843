-- ===== src/Codec/Refine.antt =====
-- `encode_message` and `decode_message` on any buffer do what `wire` and `parse` say of its bytes.
use hcnet.Base.{
  ℕ, suc, ◌+◌, ◌-◌, ◌*◌, ◌%◌, ◌^◌, ◌≤◌, ◌<◌, ◌≡◌, refl, sym, ap, ◌∙◌, Bool, true, false, List, [],
  ◌∷◌, ◌++◌, Option, length, take, drop, ltb, All, arith, append_assoc, append-nil, bit_or,
  bit_or_byte, bit_or_word, Bool-cases, inl, inr, ltb_false→le, ◌==◌,
}
use hcnet.Protocol
use hcnet.Message.{Message, OpCode, into_u8, from_u8}
use hcnet.Error.{NetResult, ok}
use hcnet.Settings.{Settings}
use hcnet.Buffer.{BinaryMut}
use hcnet.Codec.{
  message_of, encode_u24, put_message, encode_message, header, read_u24, decode_raw, decode_body,
  decode_length, decode_framed, decode_message,
}
use hcnet.Codec.Frame.{IsByte, u24, u16, framed, wire, parse, parse_framed, parse_length, parse_raw}

u24_sum :
    (x y z : ℕ)
    → y < 256
    → z < 256
    → bit_or (bit_or (x * 65536) (y * 256)) z ≡ x * 65536 + y * 256 + z
u24_sum x y z hy hz = rw (bit_or_word x (y * 256) (omega arith)) (
    let e : x * 65536 + y * 256 ≡ (x * 256 + y) * 256 = omega arith in
    rw e (bit_or_byte (x * 256 + y) z hz))

module _ (bin : BinaryMut) where
  open bin use {Buf, chunk, marked, len, get_u8, copy_to_slice, mark}

  chunk-encode_u24 : (b : Buf) (v : ℕ) → chunk (encode_u24 bin b v) ≡ chunk b ++ u24 v
  unfolding encode_u24
  chunk-encode_u24 b v = simp (bin.chunk-put_u8, append_assoc)

  chunk-header :
      (b : Buf) (body : List ℕ) (extra : ℕ) (op : OpCode)
      → chunk (header bin b body extra op)
        ≡ chunk b ++ u24 ((length body + extra) % 2 ^ 32) ++ into_u8 op ∷ []
  unfolding header
  chunk-header b body extra op =
      bin.chunk-put_u8 _ _ ∙ ap (λ (t : List ℕ). t ++ into_u8 op ∷ []) (chunk-encode_u24 b _)

  chunk_sent :
      (b : Buf) (body : List ℕ) (op : OpCode)
      → chunk (bin.put_slice (header bin b body 4 op) body) ≡ chunk b ++ framed op body
  chunk_sent b body op = bin.chunk-put_slice _ body ∙ simp (chunk-header b body 4 op, append_assoc)

  chunk_sent_close :
      (b : Buf) (c : ℕ) (reason : List ℕ)
      → chunk (bin.put_slice (bin.put_u16 (header bin b reason 6 OpCode.close) c) reason)
        ≡ chunk b ++ framed OpCode.close (u16 c ++ reason)
  chunk_sent_close b c reason =
      let size : suc (suc (length reason)) + 4 ≡ length reason + 6 = omega arith in
      bin.chunk-put_slice _ reason
      ∙ rw size (simp (bin.chunk-put_u16, chunk-header b reason 6 OpCode.close, append_assoc))

  chunk-put_message :
      (b : Buf) (m : Message) (raw : Bool) → chunk (put_message bin b m raw) ≡ chunk b ++ wire raw m
  unfolding put_message
  chunk-put_message b (Message.text t) true = bin.chunk-put_slice b t
  chunk-put_message b (Message.text t) false = chunk_sent b t OpCode.text
  chunk-put_message b (Message.binary v) true = bin.chunk-put_slice b v
  chunk-put_message b (Message.binary v) false = chunk_sent b v OpCode.binary
  chunk-put_message b (Message.close code r) true = sym (append-nil (chunk b))
  chunk-put_message b (Message.close code r) false = chunk_sent_close b (Protocol.to_u16 code) r
  chunk-put_message b (Message.ping v) true = sym (append-nil (chunk b))
  chunk-put_message b (Message.ping v) false = chunk_sent b v OpCode.ping
  chunk-put_message b (Message.pong v) true = sym (append-nil (chunk b))
  chunk-put_message b (Message.pong v) false = chunk_sent b v OpCode.pong
  chunk-put_message b Message.shutdown true = sym (append-nil (chunk b))
  chunk-put_message b Message.shutdown false = sym (append-nil (chunk b))
  chunk-put_message b Message.unvaid true = sym (append-nil (chunk b))
  chunk-put_message b Message.unvaid false = sym (append-nil (chunk b))

  -- Three bytes off the front make the length; the mark stays.
  read_u24-chunk :
      (b : Buf) (x y z : ℕ) (rest : List ℕ)
      → y < 256
      → z < 256
      → chunk b ≡ x ∷ y ∷ z ∷ rest
      → ((read_u24 bin b).0 ≡ x * 65536 + y * 256 + z)
        × (chunk (read_u24 bin b).1 ≡ rest)
        × (marked (read_u24 bin b).1 ≡ marked b)
  unfolding read_u24
  read_u24-chunk b x y z rest hy hz e =
      let g₁ = bin.get_u8-chunk b x (y ∷ z ∷ rest) e in
      let g₂ = bin.get_u8-chunk (get_u8 b).1 y (z ∷ rest) g₁.1 in
      let g₃ = bin.get_u8-chunk (get_u8 (get_u8 b).1).1 z rest g₂.1 in
      let big : ltb (bin.remaining b) 3 ≡ false = rw (bin.remaining-chunk b, e) (ground arith) in
      rw (big, g₁.0, g₂.0, g₃.0) (u24_sum x y z hy hz, g₃.1, g₃.2 ∙ g₂.2 ∙ g₁.2)

  module _ {E : Type 0} where
    -- A result and the buffer it leaves, against a result and the bytes that are left.
    abbrev pub Agrees :
        NetResult E (Option Message) × Buf → NetResult E (Option Message) × List ℕ → Type 0
    Agrees r p = (r.0 ≡ p.0) × (chunk r.1 ≡ p.1)

    decode_body-Agrees :
        (b : Buf) (n op : ℕ) (rest : List ℕ)
        → chunk b ≡ op ∷ rest
        → n - 4 ≤ length rest
        → Agrees
            (decode_body bin b n)
            (message_of (from_u8 op) (take (n - 4) rest), drop (n - 4) rest)
    unfolding decode_body
    decode_body-Agrees b n op rest e h =
        let g = bin.get_u8-chunk b op rest e in
        let enough : n - 4 ≤ length (chunk (get_u8 b).1) = rw (g.1) h in
        let c = bin.copy_to_slice-chunk (get_u8 b).1 (n - 4) enough in
        rw (g.0, c.0, c.1, g.1) (refl, refl)

    decode_length-Agrees :
        (b : Buf) (n op : ℕ) (rest bs : List ℕ) (s : Settings)
        → chunk b ≡ op ∷ rest
        → marked b ≡ bs
        → Agrees (decode_length bin b n s) (parse_length s n op rest bs)
    unfolding decode_length
    decode_length-Agrees b n op rest bs s e m =
        let size : len b + 3 ≡ length rest + 4 = rw (bin.len-chunk b, e) (omega arith) in
        elim (Bool-cases (ltb n 4)) [
          | inl short ↦ rw short (refl, e)
          | inr long ↦ elim (Bool-cases (ltb s.onemsg_max_size n)) [
            | inl over ↦ rw (long, over) (refl, e)
            | inr fits ↦ elim (Bool-cases (ltb (length rest + 4) n)) [
              | inl part ↦ rw (long, fits, size, part) (refl, bin.chunk-rewind_mark b ∙ m)
              | inr whole ↦
                  rw (long, fits, size, whole)
                    (decode_body-Agrees b n op rest e
                      (omega (arith, ltb_false→le (length rest + 4) n whole)))
            ]
          ]
        ]

    decode_framed-Agrees :
        (b : Buf) (s : Settings) (xs : List ℕ)
        → chunk b ≡ xs
        → All IsByte xs
        → Agrees (decode_framed bin b s) (parse_framed s xs)
    unfolding decode_framed
    decode_framed-Agrees b s [] e h = rw (bin.len-chunk b, e) (refl, e)
    decode_framed-Agrees b s (x ∷ []) e h = rw (bin.len-chunk b, e) (refl, e)
    decode_framed-Agrees b s (x ∷ y ∷ []) e h = rw (bin.len-chunk b, e) (refl, e)
    decode_framed-Agrees b s (x ∷ y ∷ z ∷ []) e h = rw (bin.len-chunk b, e) (refl, e)
    decode_framed-Agrees b s (x ∷ y ∷ z ∷ op ∷ rest) e h =
        let big : ltb (len b) 4 ≡ false = rw (bin.len-chunk b, e) (ground arith) in
        let r = read_u24-chunk (mark b) x y z (op ∷ rest) h.1.0 h.1.1.0 (bin.chunk-mark b ∙ e) in
        rw (big, r.0) (decode_length-Agrees _ _ op rest _ s r.1 (r.2 ∙ bin.marked-mark b ∙ e))

    decode_raw-Agrees :
        (b : Buf) (xs : List ℕ) → chunk b ≡ xs → Agrees (decode_raw bin b) (parse_raw xs)
    unfolding decode_raw
    decode_raw-Agrees b [] e = rw (bin.len-chunk b, e) (refl, e)
    decode_raw-Agrees b (x ∷ xs) e =
        let some_left : (len b == 0) ≡ false = rw (bin.len-chunk b, e) (ground arith) in
        rw (some_left, e) (refl, bin.chunk-advance_all b)

    -- On a buffer of bytes, `decode_message` gives the result that `parse` gives on its unread bytes,
    -- and leaves the bytes that `parse` leaves.
    pub decode_message-Agrees :
        (b : Buf) (s : Settings)
        → All IsByte (chunk b)
        → Agrees (decode_message bin b s) (parse s (chunk b))
    unfolding decode_message
    decode_message-Agrees b s h = elim (Bool-cases s.is_raw) [
      | inl raw ↦ rw raw (decode_raw-Agrees b (chunk b) refl)
      | inr framed_mode ↦ rw framed_mode (decode_framed-Agrees b s (chunk b) refl h)
    ]

    -- `encode_message` succeeds, keeps what the buffer holds, and appends the message's wire form.
    pub encode_message-wire :
        (b : Buf) (m : Message) (raw : Bool)
        → ((encode_message bin {E = E} b m raw).0 ≡ ok tt)
          × (chunk (encode_message bin {E = E} b m raw).1 ≡ chunk b ++ wire raw m)
    unfolding encode_message
    encode_message-wire b m raw = (refl, chunk-put_message b m raw)
