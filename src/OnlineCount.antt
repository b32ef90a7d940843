-- ===== src/OnlineCount.antt =====
-- src/online_count.rs: a count that handles share. The store holds the counters behind the `Arc`s;
-- no thread panics while it holds the lock, so the lock is never poisoned.
use hcnet.Base.{ℕ, suc, ◌+◌, ◌-◌, ◌^◌, ◌≡◌, ◌<◌, Option, none, some, ◌==◌, if◌then◌else◌, arith}

pub record Counters : Type 0 where
  pub cell : ℕ → ℕ
  pub next : ℕ

-- `Option<Arc<RwLock<usize>>>`: the place of the counter in the store.
pub record OnlineCount : Type 0 where
  pub count : Option ℕ

abbrev pub usize_max : ℕ
usize_max = 2 ^ 64 - 1

-- `v.checked_add(1).unwrap_or(0)` and `v.checked_sub(1).unwrap_or(0)`.
abbrev pub incremented : ℕ → ℕ
incremented v = if v == usize_max then 0 else v + 1

abbrev pub decremented : ℕ → ℕ
decremented v = v - 1

abbrev pub write : Counters → ℕ → ℕ → Counters
write st at v = record st { cell = λ i. if i == at then v else st.cell i }

abbrev pub default : OnlineCount
default = record { count = none }

unfoldable pub new : Counters → OnlineCount × Counters
new st = (
  record { count = some st.next },
  record { cell = (write st st.next 0).cell; next = suc st.next },
)

-- `add` returns one more handle on the same counter.
unfoldable pub add : OnlineCount → Counters → OnlineCount × Counters
add h st = elim h.count [
  | some at ↦ (record { count = h.count }, write st at (incremented (st.cell at)))
  | none ↦ (record { count = h.count }, st)
]

unfoldable pub now : OnlineCount → Counters → ℕ
now h st = elim h.count [ some at ↦ st.cell at | none ↦ 0 ]

-- `Drop`.
unfoldable pub drop : OnlineCount → Counters → Counters
drop h st = elim h.count [ some at ↦ write st at (decremented (st.cell at)) | none ↦ st ]

abbrev pub handle : ℕ → OnlineCount
handle at = record { count = some at }

-- While the count is below `usize::MAX`, a handle taken by `add` raises by one what the handles on
-- that counter read, and leaves other counters alone; its drop brings every count back.
pub add-drop :
    (at j : ℕ) (st : Counters)
    → now (handle at) st < usize_max
    → let (h', st') = add (handle at) st in
      (now (handle j) st' ≡ (if j == at then now (handle at) st + 1 else now (handle j) st))
      × (now (handle j) (drop h' st') ≡ now (handle j) st)
unfolding add now drop
add-drop at j st h = ground arith
