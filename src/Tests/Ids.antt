-- ===== src/Tests/Ids.antt =====
-- Ids, counts, channels and keys: src/id_center.rs, src/listener.rs, src/online_count.rs,
-- src/sender.rs and src/helper.rs.
use hcnet.Base.{
  ℕ, ◌+◌, ◌*◌, ◌/◌, ◌%◌, ◌^◌, ◌≤◌, ◌<◌, ◌≡◌, refl, false, List, [], ◌∷◌, some, none, arith, All,
}
use hcnet.IdCenter.{max_id, next_connect_id}
use hcnet.IdCenter.Sequence.{IsCounter, next_connect_id_total}
use hcnet.IdCenter.Threads.{
  Shared, Reach, here, next, return_next, IsId, returned_range, duplicate_id,
}
use hcnet.OnlineCount.{Counters}
use hcnet.Error.{ok, err, send_full}
use hcnet.Message.{Message}
use hcnet.Net.{NetApi}
use hcnet.Listener
use hcnet.Listener.{WrapListener, accepted, accept_id}
use hcnet.Helper.{PemApi}
use hcnet.Tests.Queues.{Queue, queues}
use hcnet.Sender.{send_all, send_all_bounded}

next_connect_id_total_example :
    (next_connect_id 2 (max_id + 1) ≡ some (1, 2)) × (1 ≤ 1) × (1 ≤ max_id) × IsCounter 2
next_connect_id_total_example = next_connect_id_total 0 (max_id + 1) (omega arith)

abbrev counter_at : ℕ → List ℕ → Shared
counter_at n ids = record { now = n; resetting = 0; returned = ids }

two_ids : Reach 2 (counter_at 1 []) (counter_at 3 (2 ∷ 1 ∷ []))
two_ids =
    next (next here (return_next (counter_at 1 []) (omega arith) (omega arith)))
      (return_next (counter_at 2 (1 ∷ [])) (omega arith) (omega arith))

returned_range_example : All (IsId 2) (2 ∷ 1 ∷ []) × (3 < 2 ^ 64)
returned_range_example = returned_range 2 (omega arith) two_ids

duplicate_id_example :
    Reach 2 (counter_at (max_id + 1) (max_id ∷ [])) (counter_at 2 (1 ∷ 1 ∷ max_id ∷ []))
duplicate_id_example = duplicate_id 2 (max_id ∷ []) (omega arith)

-- Sockets and addresses are numbers, and every handshake succeeds.
abbrev pub calm_net : NetApi ℕ
calm_net = record {
  Socket = ℕ;
  Addr = ℕ;
  Acceptor = ℕ;
  TlsClient = ℕ;
  TlsServer = ℕ;
  accept_tls = λ a s. ok s;
  connect_tls = λ d s. ok s;
}

abbrev second_server : WrapListener calm_net
second_server = record {
  server_id = 2 * 2 ^ 32;
  next_connection_id = 0;
  domain = none;
  accepter = none;
}

accept_id_example :
    (id : ℕ) × ((Listener.accept calm_net (accepted calm_net second_server 5 (7, 8)) (ok (7, 8))).0
      ≡ ok (7, 8, id, none))
    × (id < 2 ^ 64)
    × (id / 2 ^ 32 ≡ 2)
    × (id % 2 ^ 32 ≡ 6)
accept_id_example = accept_id calm_net second_server 2 5 7 8 (omega arith) refl refl

abbrev three_online : Counters
three_online = record { cell = λ i. 3; next = 2 }

abbrev pub one_rsa_key : PemApi ℕ
one_rsa_key = record {
  CertificateDer = ℕ;
  PrivateKeyDer = ℕ;
  read_file = λ path. ok path;
  certs = λ content. ok [];
  pkcs8_private_keys = λ content. ok [];
  rsa_private_keys = λ content. ok (5 ∷ []);
  no_key_found = 0;
}

abbrev ping : ℕ → Message
ping n = Message.ping (n ∷ [])

abbrev one_place : Queue
one_place = record { items = []; size = 1; gone = false }

send_all_bounded_example :
    ((send_all {E = ℕ} queues one_place (ping 1 ∷ ping 2 ∷ [])).0
      ≡ ok tt ∷ err (send_full (record { msg = ping 2 })) ∷ [])
    × ((send_all {E = ℕ} queues one_place (ping 1 ∷ ping 2 ∷ [])).1.items
        ≡ record { msg = ping 1 } ∷ [])
send_all_bounded_example =
    send_all_bounded {E = ℕ} queues (ping 1 ∷ ping 2 ∷ []) 1 one_place refl (omega arith)
