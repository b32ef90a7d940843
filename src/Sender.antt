-- ===== src/Sender.antt =====
-- src/sender.rs: the sender of a connection's commands, over tokio's bounded channel.
use hcnet.Base.{
  ℕ, zero, suc, ◌+◌, ◌-◌, ◌/◌, ◌^◌, ◌≤◌, ◌<◌, ◌≡◌, refl, sym, ap, ◌∙◌, Bool, true, false, List, [],
  ◌∷◌, ◌++◌, Option, none, some, map, length, take, drop, min, arith, append-nil, append_assoc,
  length-append,
}
use hcnet.Protocol.{CloseCode}
use hcnet.Message.{Message}
use hcnet.Error.{Command, NetResult, ok, err, send_full, send_closed}

-- `Ok(())` and the two cases of `TrySendError`.
pub data TrySend : Type 0 where
  sent : TrySend
  full : Command → TrySend
  closed : Command → TrySend

-- `tokio::sync::mpsc`: the state of a channel, which its senders and the receiver share.
pub record ChannelApi : Type 1 where
  pub Channel : Type 0
  pub channel : ℕ → Channel
  pub try_send : Channel → Command → TrySend × Channel
  pub is_closed : Channel → Bool
  pub capacity : Channel → ℕ
  pub queued : Channel → List Command
  pub channel_fresh :
      (n : ℕ)
      → 0 < n
      → (queued (channel n) ≡ []) × (capacity (channel n) ≡ n) × (is_closed (channel n) ≡ false)
  pub try_send_room :
      (c : Channel) (x : Command)
      → is_closed c ≡ false
      → length (queued c) < capacity c
      → ((try_send c x).0 ≡ sent)
        × (queued (try_send c x).1 ≡ queued c ++ x ∷ [])
        × (capacity (try_send c x).1 ≡ capacity c)
        × (is_closed (try_send c x).1 ≡ false)
  pub try_send_full :
      (c : Channel) (x : Command)
      → is_closed c ≡ false
      → capacity c ≤ length (queued c)
      → try_send c x ≡ (full x, c)
  pub try_send_closed :
      (c : Channel) (x : Command) → is_closed c ≡ true → try_send c x ≡ (closed x, c)
  -- `recv` when it completes with a command; `none` while it is pending.
  pub recv : Channel → Option Command × Channel
  pub recv_empty : (c : Channel) → queued c ≡ [] → recv c ≡ (none, c)
  pub recv_first :
      (c : Channel) (x : Command) (xs : List Command)
      → queued c ≡ x ∷ xs
      → ((recv c).0 ≡ some x)
        × (queued (recv c).1 ≡ xs)
        × (capacity (recv c).1 ≡ capacity c)
        × (is_closed (recv c).1 ≡ is_closed c)

abbrev pub command : Message → Command
command m = record { msg = m }

module _ {E : Type 0} (api : ChannelApi) where
  open api use {Channel, channel, try_send, capacity, queued}

  unfoldable result : TrySend → NetResult E (Unit {0})
  result sent = ok tt
  result (full msg) = err (send_full msg)
  result (closed msg) = err (send_closed msg)

  -- On the channel of the sender.
  unfoldable pub send_message : Channel → Message → NetResult E (Unit {0}) × Channel
  unfolding result
  send_message c msg = let (r, c') = try_send c (record { msg = msg }) in (result r, c')

  unfoldable pub close_with_reason : Channel → CloseCode → List ℕ → NetResult E (Unit {0}) × Channel
  unfolding send_message
  close_with_reason c code reason = send_message c (Message.close code reason)

  -- Messages sent one after the other, while the receiver takes none: the results, and the channel.
  pub send_all : Channel → List Message → List (NetResult E (Unit {0})) × Channel
  send_all c [] = ([], c)
  send_all c (m ∷ ms) =
      let (r, c₁) = send_message c m in let (rs, c₂) = send_all c₁ ms in (r ∷ rs, c₂)

  abbrev accepted : Message → NetResult E (Unit {0})
  accepted m = ok tt

  abbrev refused : Message → NetResult E (Unit {0})
  refused m = err (send_full (command m))

  send_all_full :
      (ms : List Message) (c : Channel)
      → api.is_closed c ≡ false
      → capacity c ≤ length (queued c)
      → send_all c ms ≡ (map refused ms, c)
  unfolding send_all send_message
  send_all_full [] c o h = refl
  send_all_full (m ∷ ms) c o h = rw (api.try_send_full c (command m) o h, send_all_full ms c o h)

  -- On a channel that is open, as many messages as there is room for are accepted, and are queued in
  -- order behind what is there; each later one comes back in `SendFull`, and changes nothing.
  pub send_all_bounded :
      (ms : List Message) (room : ℕ) (c : Channel)
      → api.is_closed c ≡ false
      → length (queued c) + room ≡ capacity c
      → ((send_all c ms).0 ≡ map accepted (take room ms) ++ map refused (drop room ms))
        × (queued (send_all c ms).1 ≡ queued c ++ map command (take room ms))
  unfolding send_all send_message
  send_all_bounded ms zero c o h =
      rw (send_all_full ms c o (omega arith)) (refl, sym (append-nil (queued c)))
  send_all_bounded [] (suc room) c o h = (refl, sym (append-nil (queued c)))
  send_all_bounded (m ∷ ms) (suc room) c o h =
      let (p, q, k, o') = api.try_send_room c (command m) o (omega arith) in
      let c' : Channel = (try_send c (command m)).1 in
      let grown = length-append (queued c) (command m ∷ []) in
      let (rs, qs) = send_all_bounded ms room c' o' (omega (arith, ap length q, grown, k)) in
      (
        rw p (ap (◌∷◌ (ok tt)) rs),
        qs
            ∙ ap (λ (t : List Command). t ++ map command (take room ms)) q
            ∙ append_assoc (queued c) (command m ∷ []) (map command (take room ms)),
      )

pub record NetSender (api : ChannelApi) : Type 0 where
  pub channel : api.Channel
  pub id : ℕ

module _ (api : ChannelApi) where
  -- `capacity.min(usize::MAX >> 3)`. The receiver is the other end of the same channel.
  pub new : ℕ → ℕ → NetSender api
  new capacity id = record { channel = api.channel (min capacity ((2 ^ 64 - 1) / 2 ^ 3)); id = id }

  pub set_connection_id : NetSender api → ℕ → NetSender api
  set_connection_id s id = record s { id = id }

  pub get_connection_id : NetSender api → ℕ
  get_connection_id s = s.id

  pub is_closed : NetSender api → Bool
  is_closed s = api.is_closed s.channel
