-- ===== src/Tests/Queues.antt =====
-- A channel for the senders of src/sender.rs.
use hcnet.Base.{
  ℕ, ◌≤◌, ◌<◌, ◌≡◌, refl, Bool, true, false, List, [], ◌∷◌, ◌++◌, Option, some, none, length, arith,
  ltb, if◌then◌else◌,
}
use hcnet.Error.{Command}
use hcnet.Sender.{ChannelApi, TrySend, sent, full, closed}

-- A channel as a list, with its capacity and whether the receiver is gone.
pub record Queue : Type 0 where
  pub items : List Command
  pub size : ℕ
  pub gone : Bool

abbrev pub offer : Queue → Command → TrySend × Queue
offer q x =
    if q.gone
    then (closed x, q)
    else if ltb (length q.items) q.size
    then (sent, record q { items = q.items ++ x ∷ [] })
    else (full x, q)

pub offer_room :
    (q : Queue) (x : Command)
    → q.gone ≡ false
    → length q.items < q.size
    → ((offer q x).0 ≡ sent)
      × ((offer q x).1.items ≡ q.items ++ x ∷ [])
      × ((offer q x).1.size ≡ q.size)
      × ((offer q x).1.gone ≡ false)
offer_room q x h k = ground arith

pub offer_full :
    (q : Queue) (x : Command) → q.gone ≡ false → q.size ≤ length q.items → offer q x ≡ (full x, q)
offer_full q x h k = ground arith

pub offer_closed : (q : Queue) (x : Command) → q.gone ≡ true → offer q x ≡ (closed x, q)
offer_closed q x h = ground arith

abbrev pub take_first : Queue → Option Command × Queue
take_first q = elim q.items [ [] ↦ (none, q) | ◌∷◌ x xs ↦ (some x, record q { items = xs }) ]

pub take_first_empty : (q : Queue) → q.items ≡ [] → take_first q ≡ (none, q)
take_first_empty q h = rw h refl

pub take_first_first :
    (q : Queue) (x : Command) (xs : List Command)
    → q.items ≡ x ∷ xs
    → ((take_first q).0 ≡ some x)
      × ((take_first q).1.items ≡ xs)
      × ((take_first q).1.size ≡ q.size)
      × ((take_first q).1.gone ≡ q.gone)
take_first_first q x xs h = rw h (refl, refl, refl, refl)

abbrev pub queues : ChannelApi
queues = record {
  recv = take_first;
  recv_empty = take_first_empty;
  recv_first = take_first_first;
  Channel = Queue;
  channel = λ n. record { items = []; size = n; gone = false };
  try_send = offer;
  is_closed = λ q. q.gone;
  capacity = λ q. q.size;
  queued = λ q. q.items;
  channel_fresh = λ n h. (refl, refl, refl);
  try_send_room = offer_room;
  try_send_full = offer_full;
  try_send_closed = offer_closed;
}
