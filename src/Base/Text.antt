-- ===== src/Base/Text.antt =====
-- A Rust `String` is its bytes. `from_utf8` accepts the byte strings of RFC 3629.
use Prim.Native.Nat.{ℕ, zero, suc}
use Prim.Native.Char.{code}
use Prim.Native.String.{String}
use mathlib.Core.Bool.{Bool, true, false, ◌&&◌}
use mathlib.Core.List.{List, [], ◌∷◌}
use mathlib.Core.Option.{Option, none, some}
use hcnet.Base.Tests.{ltb, leb, ◌==◌, if◌then◌else◌}

-- The bytes of an ASCII literal.
abbrev pub codes : String → List ℕ
codes String.[] = []
codes (String.◌∷◌ c s) = code c ∷ codes s

-- `==` on strings.
unfoldable pub eq_bytes : List ℕ → List ℕ → Bool
eq_bytes [] [] = true
eq_bytes (x ∷ xs) (y ∷ ys) = x == y && eq_bytes xs ys
eq_bytes _ _ = false

abbrev within : ℕ → ℕ → ℕ → Bool
within lo hi b = leb lo b && leb b hi

-- What the bytes so far have announced: the range of the next byte, and the bytes after it.
pub data Expect : Type 0 where
  start : Expect
  tail : ℕ → ℕ → ℕ → Expect
  bad : Expect

first_byte : ℕ → Expect
first_byte b =
    if ltb b 0x80
    then start
    else if within 0xc2 0xdf b
    then tail 0x80 0xbf 0
    else if b == 0xe0
    then tail 0xa0 0xbf 1
    else if b == 0xed
    then tail 0x80 0x9f 1
    else if within 0xe1 0xef b
    then tail 0x80 0xbf 1
    else if b == 0xf0
    then tail 0x90 0xbf 2
    else if within 0xf1 0xf3 b
    then tail 0x80 0xbf 2
    else if b == 0xf4
    then tail 0x80 0x8f 2
    else bad

next_byte : Expect → ℕ → Expect
unfolding first_byte
next_byte start b = first_byte b
next_byte (tail lo hi zero) b = if within lo hi b then start else bad
next_byte (tail lo hi (suc n)) b = if within lo hi b then tail 0x80 0xbf n else bad
next_byte bad b = bad

scan : Expect → List ℕ → Bool
unfolding next_byte
scan start [] = true
scan (tail lo hi n) [] = false
scan bad [] = false
scan e (b ∷ bs) = scan (next_byte e b) bs

unfoldable pub is_utf8 : List ℕ → Bool
unfolding scan
is_utf8 bs = scan start bs

unfoldable pub from_utf8 : List ℕ → Option (List ℕ)
unfolding is_utf8
from_utf8 bs = if is_utf8 bs then some bs else none
