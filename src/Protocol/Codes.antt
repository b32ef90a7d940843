-- ===== src/Protocol/Codes.antt =====
-- The two conversions of src/protocol.rs undo one another on the codes that have one spelling.
use hcnet.Base.{ℕ, ◌≤◌, ◌≡◌, refl, ◌⊎◌, arith}
use hcnet.Protocol.{CloseCode, other, to_u16, from_u16}

-- Reading a number as a close code and writing it back gives the same number.
pub to_u16-from_u16 : (code : ℕ) → to_u16 (from_u16 code) ≡ code
unfolding to_u16 from_u16
to_u16-from_u16 code = ground arith

-- The numbers that have a variant of their own.
abbrev pub IsNamed : ℕ → Type 0
IsNamed n = (n ≡ 0) ⊎ ((1000 ≤ n) × (n ≤ 1003)) ⊎ ((1005 ≤ n) × (n ≤ 1013)) ⊎ (n ≡ 1015)

-- `Other` holds no number that has a variant of its own.
abbrev pub IsCanonical : CloseCode → Type 0
IsCanonical (other n) = ¬ IsNamed n
IsCanonical _ = Unit {0}

from_u16-other : (n : ℕ) → ¬ IsNamed n → from_u16 n ≡ other n
unfolding from_u16
from_u16-other n h = ground (arith)

-- Writing a close code and reading it back gives the same code, unless it is an `Other` with a number
-- that has a variant of its own.
pub from_u16-to_u16 : (c : CloseCode) → IsCanonical c → from_u16 (to_u16 c) ≡ c
unfolding to_u16 from_u16
from_u16-to_u16 (other n) h = from_u16-other n h
from_u16-to_u16 _ h = refl

pub from_u16-IsCanonical : (n : ℕ) → IsCanonical (from_u16 n)
unfolding from_u16
from_u16-IsCanonical n = ground arith
