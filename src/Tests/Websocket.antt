-- ===== src/Tests/Websocket.antt =====
-- The pipe of a websocket connection: src/ws/client.rs and src/ws/server.rs.
use hcnet.Base.{
  ℕ, ◌≤◌, ◌<◌, ◌≡◌, ◌≢◌, refl, false, List, [], ◌∷◌, ◌++◌, some, none, length, ◌==◌, arith, codes,
}
use hcnet.Protocol.{normal}
use hcnet.Message.{Message, OwnedMessage, from_owned, into_owned}
use hcnet.Error.{ok}
use hcnet.Settings
use hcnet.Buffer.{bytes}
use hcnet.Ws.Web.{WebApi, Scheme, parsed, FrameRead, frame, eof}
use hcnet.Ws.Duplex.{
  Pipe, opened, Event, wrote, deadline, no_fuel, read_frames, open_process, close, closing_process,
}
use hcnet.Ws.Duplex.Reading.{IsFrame, TakesBytes, read_frames-ends}
use hcnet.Ws.Duplex.Delivery.{AllEncoded, answers_of, reads, open_process_in_order}
use hcnet.Ws.Duplex.Closing.{Ends, close-closing_process}
use hcnet.Ws.Duplex.Fragments.{open_process_forgets}
use hcnet.Tests.Wire.{plain_data}
use hcnet.Tests.Upgrade.{plain_api}

-- A frame of two bytes: one if it is the last of its message, and a byte of the message.
unfoldable pub read_two : List ℕ → FrameRead ℕ (ℕ × ℕ) × ℕ
read_two [] = (eof, 0)
read_two (a ∷ []) = (eof, 0)
read_two (a ∷ b ∷ rest) = (frame (a, b), 2)

unfoldable pub payload : List (ℕ × ℕ) → List ℕ
payload [] = []
payload (f ∷ fs) = f.1 ∷ payload fs

unfoldable pub write_two : OwnedMessage (ℕ × List ℕ) → List ℕ
write_two (OwnedMessage.binary (x ∷ xs)) = 1 ∷ x ∷ []
write_two _ = 1 ∷ 8 ∷ []

-- A text of any bytes is a request without headers, and the response 101.
abbrev pub two_byte_api : WebApi ℕ
two_byte_api = record {
  handshake = plain_api;
  close_data = plain_data;
  Url = List ℕ;
  scheme = λ u. Scheme.ws;
  domain = λ u. some u;
  port = λ u. some 80;
  http1_data = λ u hs. ok (codes "GET");
  serialize = λ r. (ok tt, r ∷ []);
  requests = record {
    new = record { key = none; protocol = none; version = none };
    parse_buffer = λ r bs. (parsed (length bs), r);
    is_partial = λ r. false;
  };
  responses = record {
    new = 101;
    parse_buffer = λ r bs. (parsed (length bs), r);
    is_partial = λ r. false;
  };
  DataFrame = ℕ × ℕ;
  is_last = λ f. f.0 == 1;
  read_dataframe_with_limit = λ bs first limit. read_two bs;
  from_dataframes = λ fs. ok (OwnedMessage.binary (payload fs));
  write_to = λ m mask. (ok tt, write_two m);
}

two_bytes-TakesBytes : TakesBytes two_byte_api
unfolding read_two
two_bytes-TakesBytes = record { takes = go }
  where
    go :
        (bs : List ℕ) (f : ℕ × ℕ)
        → (read_two bs).0 ≡ frame f
        → (0 < (read_two bs).1) × ((read_two bs).1 ≤ length bs)
    go [] f e = cc
    go (a ∷ []) f e = cc
    go (a ∷ b ∷ rest) f e = (omega arith, omega arith)

two_bytes-IsFrame : (a b : ℕ) → IsFrame two_byte_api (a, b) (a ∷ b ∷ [])
unfolding read_two
two_bytes-IsFrame a b = record { whole = λ rest. (refl, refl); cut = go }
  where
    go : (xs : List ℕ) (y : ℕ) (ys : List ℕ) → a ∷ b ∷ [] ≡ xs ++ y ∷ ys → (read_two xs).0 ≡ eof
    go [] y ys e = refl
    go (x ∷ []) y ys e = refl
    go (x ∷ z ∷ []) y ys e = absurd (cc)
    go (x ∷ z ∷ v ∷ xs) y ys e = absurd (cc)

abbrev pub holding : List ℕ → Pipe two_byte_api bytes
holding bs = record {
  state = opened;
  read = record { unread = bs; at_mark = [] };
  write = record { unread = []; at_mark = [] };
}

abbrev pub two_messages : List Message
two_messages = Message.binary (7 ∷ []) ∷ Message.binary (9 ∷ []) ∷ []

pub two_messages-AllEncoded :
    AllEncoded two_byte_api bytes Settings.default two_messages ((1 ∷ 7 ∷ []) ∷ (1 ∷ 9 ∷ []) ∷ [])
unfolding payload from_owned
two_messages-AllEncoded = (
  record { f = (1, 7); is_frame = two_bytes-IsFrame 1 7; last = refl; says = refl },
  omega arith,
  (
    record { f = (1, 9); is_frame = two_bytes-IsFrame 1 9; last = refl; says = refl },
    omega arith,
    tt,
  ),
)

open_process_in_order_example :
    answers_of two_byte_api bytes 2 Settings.default
      (holding (1 ∷ []))
      (reads two_byte_api bytes ((7 ∷ 1 ∷ []) ∷ (9 ∷ []) ∷ []))
    ≡ some (ok (Message.binary (7 ∷ []))) ∷ some (ok (Message.binary (9 ∷ []))) ∷ []
open_process_in_order_example =
    open_process_in_order two_byte_api bytes Settings.default two_messages
      ((1 ∷ 7 ∷ []) ∷ (1 ∷ 9 ∷ []) ∷ []) (holding (1 ∷ [])) ((7 ∷ 1 ∷ []) ∷ (9 ∷ []) ∷ [])
      two_messages-AllEncoded ((λ e. cc), ((λ e. cc), tt)) refl

read_frames-ends_example :
    (read_frames two_byte_api bytes 6 []
      (record { unread = 0 ∷ 1 ∷ 0 ∷ 2 ∷ 1 ∷ []; at_mark = [] })).0
    ≢ no_fuel
read_frames-ends_example =
    read_frames-ends two_byte_api bytes two_bytes-TakesBytes 6 []
      (record { unread = 0 ∷ 1 ∷ 0 ∷ 2 ∷ 1 ∷ []; at_mark = [] }) (omega arith)

close-closing_process_example :
    let (r, d') = close two_byte_api bytes (holding []) normal (codes "bye") none in
    (r ≡ ok tt)
    × (d'.write.unread ≡ 1 ∷ 8 ∷ [])
    × Ends two_byte_api bytes normal
        (codes "bye")
        (closing_process two_byte_api bytes Settings.default d' (wrote 1 ∷ []))
    × ((closing_process two_byte_api bytes Settings.default d' (wrote 1 ∷ deadline ∷ [])).0 ≢ none)
unfolding into_owned write_two
close-closing_process_example =
    close-closing_process two_byte_api bytes Settings.default (holding []) normal (codes "bye") none
      (wrote 1 ∷ []) refl refl

open_process_forgets_example :
    let (r, d', _) = open_process two_byte_api bytes Settings.default (holding (0 ∷ 7 ∷ [])) [] in
    ((open_process two_byte_api bytes Settings.default
        (holding (0 ∷ 7 ∷ []))
        (Event.read (1 ∷ 9 ∷ []) ∷ [])).0
      ≡ some (ok (Message.binary (7 ∷ 9 ∷ []))))
    × (r ≡ none)
    × ((open_process two_byte_api bytes Settings.default d' (Event.read (1 ∷ 9 ∷ []) ∷ [])).0
        ≡ some (ok (Message.binary (9 ∷ []))))
unfolding payload from_owned
open_process_forgets_example =
    open_process_forgets two_byte_api bytes Settings.default (holding (0 ∷ 7 ∷ [])) (0, 7) (1, 9) 0
      (7 ∷ []) 1 (9 ∷ []) (two_bytes-IsFrame 0 7) refl (two_bytes-IsFrame 1 9) refl refl
      (omega arith)
