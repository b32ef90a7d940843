-- ===== src/Echo/Client/Lines.antt =====
-- What the loop of examples/client_echo.rs sends for the lines that are typed.
use hcnet.Base.{
  ℕ, ◌+◌, ◌≤◌, ◌≡◌, ◌≢◌, refl, sym, ap, ◌∙◌, false, List, [], ◌∷◌, ◌++◌, map, length, codes, arith,
  append-nil, append_assoc, length-append,
}
use hcnet.Protocol.{away}
use hcnet.Message.{Message}
use hcnet.Error.{Command}
use hcnet.Sender.{ChannelApi, TrySend, command, send_message, close_with_reason}
use hcnet.Echo.Client.{
  Order, nothing, exit, send, order, Turn, line, Now, goes, left, panicked, obey, run,
}

module _ (E : Type 0) (api : ChannelApi) (trim : List ℕ → List ℕ)
    (split_whitespace : List ℕ → List (List ℕ)) where
  open api use {Channel, queued, capacity, is_closed}

  -- The order of a line that is typed after a command.
  abbrev asked : List ℕ → Order
  asked l = order (trim l) (split_whitespace (trim l))

  unfoldable ordered : Order → List Message → List Message
  ordered nothing rest = rest
  ordered exit rest = Message.close away (codes "exit") ∷ []
  ordered (send m) rest = m ∷ rest

  -- A message for each line that has a word, up to `exit`, which closes.
  unfoldable pub said : List (List ℕ) → List Message
  unfolding ordered
  said [] = []
  said (l ∷ ls) = ordered (asked l) (said ls)

  obey_sends :
      (m : Message) (content : List ℕ) (ch : Channel)
      → (api.try_send ch (command m)).0 ≡ TrySend.sent
      → obey E api trim split_whitespace (send m) content ch
        ≡ (goes [], (api.try_send ch (command m)).1)
  unfolding obey send_message
  obey_sends m content ch e = rw e refl

  obey_exits :
      (content : List ℕ) (ch : Channel)
      → let bye = command (Message.close away (codes "exit")) in
        (api.try_send ch bye).0 ≡ TrySend.sent
        → obey E api trim split_whitespace exit content ch ≡ (left, (api.try_send ch bye).1)
  unfolding obey close_with_reason
  obey_exits content ch e = rw e refl

  obey-nothing :
      (content : List ℕ) (ch : Channel)
      → content ≡ []
      → obey E api trim split_whitespace nothing content ch ≡ (goes [], ch)
  unfolding obey
  obey-nothing content ch e = ap (λ (x : List ℕ). (goes x, ch)) e

  order-nothing :
      (content : List ℕ) (words : List (List ℕ)) → order content words ≡ nothing → words ≡ []
  unfolding order
  order-nothing content [] e = refl
  order-nothing content (w ∷ words) e = ground arith

  run_line :
      (l : List ℕ) (ts : List Turn) (ch : Channel) (o : Order) (now : Now) (ch' : Channel)
      → asked l ≡ o
      → obey E api trim split_whitespace o (trim l) ch ≡ (now, ch')
      → run E api trim split_whitespace (goes []) ch (line l ∷ ts)
        ≡ run E api trim split_whitespace now ch' ts
  unfolding run
  run_line l ts ch o now ch' e f =
      ap (λ (p : Now × Channel). run E api trim split_whitespace p.0 p.1 ts)
        (ap (λ (x : Order). obey E api trim split_whitespace x (trim l) ch) e ∙ f)

  -- The loop takes these lines without a panic, and sends just these messages.
  abbrev pub Says : List (List ℕ) → List Message → Channel → Type 0
  Says ls ms ch =
      ((run E api trim split_whitespace (goes []) ch (map line ls)).0 ≢ panicked)
      × (queued (run E api trim split_whitespace (goes []) ch (map line ls)).1
          ≡ queued ch ++ map command ms)

  -- On an open channel with room for them, the lines that are typed give the messages of `said`, in
  -- order, and `expect` does not panic, if a trimmed text in which no word is found is empty.
  pub run-said :
      (ls : List (List ℕ)) (ch : Channel)
      -- Where `split_whitespace` finds no word in a trimmed text, the text is empty.
      → ((s : List ℕ) → split_whitespace (trim s) ≡ [] → trim s ≡ [])
      → is_closed ch ≡ false
      → length (queued ch) + length (said ls) ≤ capacity ch
      → Says ls (said ls) ch
  unfolding said
  run-said [] ch blank o room = unfold run in ((λ e. cc), sym (append-nil (queued ch)))
  run-said (l ∷ ls) ch blank o room =
      go (asked l) refl room (λ next o' r. run-said ls next blank o' r)
    where
      go :
          (x : Order)
          → asked l ≡ x
          → length (queued ch) + length (ordered x (said ls)) ≤ capacity ch
          → ((next : Channel)
              → is_closed next ≡ false
              → length (queued next) + length (said ls) ≤ capacity next
              → Says ls (said ls) next)
          → Says (l ∷ ls) (ordered x (said ls)) ch
      go nothing e r rest =
          let empty : trim l ≡ [] =
            blank l (order-nothing (trim l) (split_whitespace (trim l)) e) in
          let next =
            run_line l (map line ls) ch nothing (goes []) ch e (obey-nothing (trim l) ch empty) in
          rw next (rest ch o r)
      go exit e r rest =
          let bye = command (Message.close away (codes "exit")) in
          let (p, q, _, _) = api.try_send_room ch bye o (omega arith) in
          let next = run_line l (map line ls) ch exit left _ e (obey_exits (trim l) ch p) in
          rw next (unfold run in ((λ h. cc), q))
      go (send m) e r rest =
          let (p, q, k, o') = api.try_send_room ch (command m) o (omega arith) in
          let ch' : Channel = (api.try_send ch (command m)).1 in
          let grown = length-append (queued ch) (command m ∷ []) in
          let (a, b) = rest ch' o' (omega (arith, r, ap length q, grown, k)) in
          rw (run_line l (map line ls) ch (send m) (goes []) ch' e (obey_sends m (trim l) ch p)) (
            a,
            b
                ∙ ap (λ (t : List Command). t ++ map command (said ls)) q
                ∙ append_assoc (queued ch) (command m ∷ []) (map command (said ls)),
          )
