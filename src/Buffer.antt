-- ===== src/Buffer.antt =====
-- `BinaryMut` of the crate algorithm, by its operations and what its documentation says of them.
-- `chunk` is the bytes not yet read; `marked` is what `rewind_mark` would bring back.
-- `advance_mut b xs` stands for a read that put the bytes `xs` in `chunk_mut()` and for the
-- `advance_mut` that takes them over.
use hcnet.Base.{
  ℕ, ◌/◌, ◌%◌, ◌≤◌, ◌≡◌, refl, Bool, List, [], ◌∷◌, ◌++◌, length, take, drop, ltb, ◌==◌,
}

pub record BinaryMut : Type 1 where
  pub Buf : Type 0
  pub new : Buf
  pub put_u8 : Buf → ℕ → Buf
  pub put_u16 : Buf → ℕ → Buf
  pub put_slice : Buf → List ℕ → Buf
  pub advance_mut : Buf → List ℕ → Buf
  pub len : Buf → ℕ
  pub remaining : Buf → ℕ
  pub has_remaining : Buf → Bool
  pub is_empty : Buf → Bool
  pub chunk : Buf → List ℕ
  pub get_u8 : Buf → ℕ × Buf
  pub copy_to_slice : Buf → ℕ → List ℕ × Buf
  pub advance : Buf → ℕ → Buf
  pub advance_all : Buf → Buf
  pub clear : Buf → Buf
  pub mark : Buf → Buf
  pub rewind_mark : Buf → Buf
  pub marked : Buf → List ℕ
  pub chunk-new : chunk new ≡ []
  pub chunk-put_u8 : (b : Buf) (x : ℕ) → chunk (put_u8 b x) ≡ chunk b ++ x ∷ []
  pub chunk-put_u16 :
      (b : Buf) (x : ℕ) → chunk (put_u16 b x) ≡ chunk b ++ (x / 256) ∷ (x % 256) ∷ []
  pub chunk-put_slice : (b : Buf) (xs : List ℕ) → chunk (put_slice b xs) ≡ chunk b ++ xs
  pub chunk-advance_mut : (b : Buf) (xs : List ℕ) → chunk (advance_mut b xs) ≡ chunk b ++ xs
  pub len-chunk : (b : Buf) → len b ≡ length (chunk b)
  pub remaining-chunk : (b : Buf) → remaining b ≡ length (chunk b)
  pub has_remaining-chunk : (b : Buf) → has_remaining b ≡ ltb 0 (length (chunk b))
  pub is_empty-chunk : (b : Buf) → is_empty b ≡ (length (chunk b) == 0)
  pub get_u8-chunk :
      (b : Buf) (x : ℕ) (xs : List ℕ)
      → chunk b ≡ x ∷ xs
      → ((get_u8 b).0 ≡ x) × (chunk (get_u8 b).1 ≡ xs) × (marked (get_u8 b).1 ≡ marked b)
  pub copy_to_slice-chunk :
      (b : Buf) (n : ℕ)
      → n ≤ length (chunk b)
      → ((copy_to_slice b n).0 ≡ take n (chunk b))
        × (chunk (copy_to_slice b n).1 ≡ drop n (chunk b))
  pub chunk-advance :
      (b : Buf) (n : ℕ) → n ≤ length (chunk b) → chunk (advance b n) ≡ drop n (chunk b)
  pub marked-advance : (b : Buf) (n : ℕ) → marked (advance b n) ≡ marked b
  pub chunk-advance_all : (b : Buf) → chunk (advance_all b) ≡ []
  pub chunk-clear : (b : Buf) → chunk (clear b) ≡ []
  pub chunk-mark : (b : Buf) → chunk (mark b) ≡ chunk b
  pub marked-mark : (b : Buf) → marked (mark b) ≡ chunk b
  pub chunk-rewind_mark : (b : Buf) → chunk (rewind_mark b) ≡ marked b

-- A buffer that meets this: the unread bytes, and those at the mark.
pub record Bytes : Type 0 where
  pub unread : List ℕ
  pub at_mark : List ℕ

abbrev pub first : List ℕ → ℕ
first [] = 0
first (x ∷ xs) = x

abbrev pub push : Bytes → List ℕ → Bytes
push b xs = record b { unread = b.unread ++ xs }

abbrev pub skip : Bytes → ℕ → Bytes
skip b n = record b { unread = drop n b.unread }

pub get_u8_bytes :
    (b : Bytes) (x : ℕ) (xs : List ℕ)
    → b.unread ≡ x ∷ xs
    → (first b.unread ≡ x) × (drop 1 b.unread ≡ xs) × (b.at_mark ≡ b.at_mark)
get_u8_bytes b x xs e = rw e (refl, refl, refl)

abbrev pub bytes : BinaryMut
bytes = record {
  Buf = Bytes;
  new = record { unread = []; at_mark = [] };
  put_u8 = λ b x. push b (x ∷ []);
  put_u16 = λ b x. push b ((x / 256) ∷ (x % 256) ∷ []);
  put_slice = push;
  advance_mut = push;
  len = λ b. length b.unread;
  remaining = λ b. length b.unread;
  has_remaining = λ b. ltb 0 (length b.unread);
  is_empty = λ b. length b.unread == 0;
  chunk = λ b. b.unread;
  get_u8 = λ b. (first b.unread, skip b 1);
  copy_to_slice = λ b n. (take n b.unread, skip b n);
  advance = skip;
  advance_all = λ b. record b { unread = [] };
  clear = λ b. record { unread = []; at_mark = [] };
  mark = λ b. record b { at_mark = b.unread };
  rewind_mark = λ b. record b { unread = b.at_mark };
  marked = λ b. b.at_mark;
  chunk-new = refl;
  chunk-put_u8 = λ b x. refl;
  chunk-put_u16 = λ b x. refl;
  chunk-put_slice = λ b xs. refl;
  chunk-advance_mut = λ b xs. refl;
  len-chunk = λ b. refl;
  remaining-chunk = λ b. refl;
  has_remaining-chunk = λ b. refl;
  is_empty-chunk = λ b. refl;
  get_u8-chunk = get_u8_bytes;
  copy_to_slice-chunk = λ b n h. (refl, refl);
  chunk-advance = λ b n h. refl;
  marked-advance = λ b n. refl;
  chunk-advance_all = λ b. refl;
  chunk-clear = λ b. refl;
  chunk-mark = λ b. refl;
  marked-mark = λ b. refl;
  chunk-rewind_mark = λ b. refl;
}
