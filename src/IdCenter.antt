-- ===== src/IdCenter.antt =====
-- src/id_center.rs: connection ids from one atomic counter, and the same code run by many threads.
pub mod Sequence
pub mod Threads
use hcnet.Base.{ℕ, zero, suc, ◌+◌, ◌-◌, ◌/◌, ◌%◌, ◌^◌, Option, none, some, ltb, if◌then◌else◌}

-- `u64::MAX >> 33`.
abbrev pub max_id : ℕ
max_id = (2 ^ 64 - 1) / 2 ^ 33

-- `NOW.fetch_add(1)` leaves this.
abbrev pub fetch_add : ℕ → ℕ
fetch_add now = (now + 1) % 2 ^ 64

-- The loop of `next_connect_id` on the value of `NOW`, with no other thread in between: the id and
-- the value left. `none` means that the fuel ran out.
pub next_connect_id : ℕ → ℕ → Option (ℕ × ℕ)
next_connect_id zero now = none
next_connect_id (suc fuel) now =
    let again = next_connect_id fuel 1 in
    if ltb max_id now then again else some (now, fetch_add now)
