-- ===== src/IdCenter/Sequence.antt =====
-- The ids that one thread draws, in the order in which it draws them.
use hcnet.Base.{
  ℕ, zero, suc, ◌+◌, ◌%◌, ◌≤◌, ◌≡◌, refl, none, some, arith, ltb, if◌then◌else◌, ◌⊎◌, inl,
}
use hcnet.IdCenter.{max_id, next_connect_id}

-- What `NOW` can hold between two calls.
abbrev pub IsCounter : ℕ → Type 0
IsCounter now = (1 ≤ now) × (now ≤ max_id + 1)

-- The id that a call gives.
abbrev pub issued : ℕ → ℕ
issued now = if ltb max_id now then 1 else now

-- The loop turns at most twice: with any fuel above one, a call with `NOW` between 1 and
-- `max_id + 1` returns an id between 1 and `max_id`, namely the value of `NOW`, or 1 where that is
-- above `max_id`, and leaves the id's successor in `NOW`, which is again between 1 and `max_id + 1`.
pub next_connect_id_total :
    (fuel now : ℕ)
    → IsCounter now
    → (next_connect_id (suc (suc fuel)) now ≡ some (issued now, issued now + 1))
      × (1 ≤ issued now)
      × (issued now ≤ max_id)
      × IsCounter (issued now + 1)
unfolding next_connect_id
next_connect_id_total fuel now (lo, hi) = ground arith

-- `NOW` after a number of calls, from its start value 1; 0 would mean that a call ran out of fuel.
pub counter_after : ℕ → ℕ
counter_after zero = 1
counter_after (suc n) = elim (next_connect_id 2 (counter_after n)) [
  | some (id, left) ↦ left
  | none ↦ 0
]

counter_cases :
    (n : ℕ)
    → (counter_after n ≡ n % max_id + 1) ⊎ ((n % max_id ≡ 0) × (counter_after n ≡ max_id + 1))
unfolding counter_after next_connect_id
counter_cases zero = inl refl
counter_cases (suc n) = ground (arith, counter_cases n)

-- The call number `n`, counted from 0 with no other thread in between, returns `n % max_id + 1`:
-- the ids run from 1 to `max_id` and start again.
pub next_connect_id_nth :
    (n : ℕ) → next_connect_id 2 (counter_after n) ≡ some (n % max_id + 1, n % max_id + 2)
unfolding next_connect_id
next_connect_id_nth n = ground (arith, counter_cases n)
