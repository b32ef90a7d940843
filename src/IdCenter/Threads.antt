-- ===== src/IdCenter/Threads.antt =====
-- `next_connect_id` run by several threads at once: each `fetch_add` and each `store` is one step.
use hcnet.Base.{ℕ, ◌+◌, ◌-◌, ◌^◌, ◌≤◌, ◌<◌, List, [], ◌∷◌, All, arith}
use hcnet.IdCenter.{max_id, fetch_add}

-- `NOW`, the number of threads that have fetched a value above `max_id` and not yet stored 1, and
-- the ids returned so far, latest first.
pub record Shared : Type 0 where
  pub now : ℕ
  pub resetting : ℕ
  pub returned : List ℕ

module _ (threads : ℕ) where
  pub data Step : Shared → Shared → Type 0 where
    return_next :
        (s : Shared)
        → s.now ≤ max_id
        → s.resetting < threads
        → Step s (record s { now = fetch_add s.now; returned = s.now ∷ s.returned })
    fetch_over :
        (s : Shared)
        → max_id < s.now
        → s.resetting < threads
        → Step s (record s { now = fetch_add s.now; resetting = s.resetting + 1 })
    store_one :
        (s : Shared) → 0 < s.resetting → Step s (record s { now = 1; resetting = s.resetting - 1 })

  pub data Reach (s : Shared) : Shared → Type 0 where
    here : Reach s s
    next : {t u : Shared} → Reach s t → Step t u → Reach s u

  abbrev pub IsId : ℕ → Type 0
  IsId n = (1 ≤ n) × (n ≤ max_id)

  -- The counter runs past `max_id + 1` by at most one for each thread that is about to reset it.
  pub record IsSafe (s : Shared) : Type 0 where
    pub low : 1 ≤ s.now
    pub high : s.now ≤ max_id + 1 + s.resetting
    pub busy : s.resetting ≤ threads
    pub ids : All IsId s.returned

  module _ (few : threads < 2 ^ 63) where
    Step-IsSafe : {s t : Shared} → Step s t → IsSafe s → IsSafe t
    Step-IsSafe (return_next s h b) i = record {
      low = omega (arith, i.low, i.high);
      high = omega (arith, i.low, i.high);
      busy = i.busy;
      ids = ((i.low, h), i.ids);
    }
    Step-IsSafe (fetch_over s h b) i = record {
      low = omega (arith, i.high);
      high = omega (arith, i.high);
      busy = omega arith;
      ids = i.ids;
    }
    Step-IsSafe (store_one s h) i = record {
      low = omega arith;
      high = omega arith;
      busy = omega (arith, i.busy);
      ids = i.ids;
    }

    Reach-IsSafe : {s t : Shared} → IsSafe s → Reach s t → IsSafe t
    Reach-IsSafe i here = i
    Reach-IsSafe i (next r st) = Step-IsSafe st (Reach-IsSafe i r)

    -- Fewer than 2 ^ 63 threads, in any interleaving from a counter of 1, are given only ids between
    -- 1 and `max_id`, and the counter never wraps.
    pub returned_range :
        {t : Shared}
        → Reach (record { now = 1; resetting = 0; returned = [] }) t
        → All IsId t.returned × (t.now < 2 ^ 64)
    returned_range r =
        let i =
          Reach-IsSafe
            (record { low = omega arith; high = omega arith; busy = omega arith; ids = tt }) r in
        (i.ids, omega (arith, i.high, i.busy))

  abbrev at : ℕ → ℕ → List ℕ → Shared
  at now resetting returned = record { now = now; resetting = resetting; returned = returned }

  -- With two threads or more, whenever the ids are used up and no thread is resetting the counter,
  -- there is a run of six steps in which the next two ids are both 1: both threads fetch a value
  -- above `max_id`, and the second resets the counter after the first has drawn from it again.
  pub duplicate_id :
      (ids : List ℕ)
      → 2 ≤ threads
      → Reach
          (record { now = max_id + 1; resetting = 0; returned = ids })
          (record { now = 2; resetting = 0; returned = 1 ∷ 1 ∷ ids })
  duplicate_id ids h =
      let first = next here (fetch_over (at (max_id + 1) 0 ids) (omega arith) (omega arith)) in
      let both = next first (fetch_over (at (max_id + 2) 1 ids) (omega arith) (omega arith)) in
      let reset = next both (store_one (at (max_id + 3) 2 ids) (omega arith)) in
      let drawn = next reset (return_next (at 1 1 ids) (omega arith) (omega arith)) in
      let again = next drawn (store_one (at 2 1 (1 ∷ ids)) (omega arith)) in
      next again (return_next (at 1 0 (1 ∷ ids)) (omega arith) (omega arith))
