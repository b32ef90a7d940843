-- ===== src/Listener.antt =====
-- src/listener.rs: the TCP listener, its TLS acceptor and the ids of the connections it accepts.
use hcnet.Base.{
  ℕ, zero, suc, ◌+◌, ◌*◌, ◌/◌, ◌%◌, ◌^◌, ◌≤◌, ◌<◌, ◌≡◌, refl, List, Option, none, some, arith,
}
use hcnet.Error.{NetResult, ok, err, ◌>>=◌}
use hcnet.Settings.{Settings}
use hcnet.Net.{NetApi}
use hcnet.Helper.{PemApi, load_certs, load_keys}
use hcnet.IdCenter.{max_id}

module _ {E : Type 0} (net : NetApi E) where
  open net use {Socket, Addr, Acceptor}

  pub record WrapListener : Type 0 where
    pub server_id : ℕ
    pub next_connection_id : ℕ
    pub domain : Option (List ℕ)
    pub accepter : Option Acceptor

  -- Without a certificate and a key: plain connections, and no domain.
  plain : ℕ → WrapListener
  plain server_id = record {
    server_id = server_id * 2 ^ 32 % 2 ^ 64;
    next_connection_id = 0;
    domain = none;
    accepter = none;
  }

  module _ (pem : PemApi E)
      -- `ServerConfig` with this certificate chain and key; the error is "key error".
      (single_cert : List pem.CertificateDer → pem.PrivateKeyDer → NetResult E Acceptor) where
    with_tls : ℕ → Option (List ℕ) → List ℕ → List ℕ → NetResult E WrapListener
    with_tls server_id domain cert key = do
      one_cert ← load_certs pem cert
      one_key ← load_keys pem key
      accepter ← single_cert one_cert one_key
      ok (record {
        server_id = server_id * 2 ^ 32 % 2 ^ 64;
        next_connection_id = 0;
        domain = domain;
        accepter = some accepter;
      })

    new_from : ℕ → Option (List ℕ) → Option (List ℕ) → Option (List ℕ) → NetResult E WrapListener
    unfolding with_tls plain
    new_from server_id domain (some cert) (some key) = with_tls server_id domain cert key
    new_from server_id domain (some cert) none = ok (plain server_id)
    new_from server_id domain none key = ok (plain server_id)

    unfoldable pub new : ℕ → Option (List ℕ) → Settings → NetResult E WrapListener
    unfolding new_from
    new server_id domain settings = new_from server_id domain settings.cert settings.key

  -- The argument is how the operating system's `accept` ends.
  unfoldable pub accept :
      WrapListener
      → NetResult E (Socket × Addr)
      → NetResult E (Socket × Addr × ℕ × Option Acceptor) × WrapListener
  accept l (err e) = (err e, l)
  accept l (ok (stream, addr)) =
      let next : ℕ = (l.next_connection_id + 1) % 2 ^ 32 in
      (
        ok (stream, addr, (l.server_id + next) % 2 ^ 64, l.accepter),
        record l { next_connection_id = next },
      )

  -- The listener after a number of connections.
  pub accepted : WrapListener → ℕ → Socket × Addr → WrapListener
  accepted l zero c = l
  accepted l (suc n) c = (accept (accepted l n c) (ok c)).1

  accepted_fields :
      (l : WrapListener) (n : ℕ) (c : Socket × Addr)
      → l.next_connection_id ≡ 0
      → ((accepted l n c).next_connection_id ≡ n % 2 ^ 32)
        × ((accepted l n c).server_id ≡ l.server_id)
        × ((accepted l n c).accepter ≡ l.accepter)
  unfolding accepted accept
  accepted_fields l zero c h = (h, refl, refl)
  accepted_fields l (suc n) (s, a) h = ground (arith, accepted_fields l n (s, a) h)

  -- The listener with the id `sid`, a value of `IdCenter`, gives its connection number `n`, counted
  -- from 0, an id below 2 ^ 64 that holds `sid` in the high half and (n + 1) % 2 ^ 32 in the low
  -- half.
  pub accept_id :
      (l : WrapListener) (sid n : ℕ) (s : Socket) (a : Addr)
      → sid ≤ max_id
      → l.server_id ≡ sid * 2 ^ 32 % 2 ^ 64
      → l.next_connection_id ≡ 0
      → (id : ℕ) × ((accept (accepted l n (s, a)) (ok (s, a))).0 ≡ ok (s, a, id, l.accepter))
        × (id < 2 ^ 64)
        × (id / 2 ^ 32 ≡ sid)
        × (id % 2 ^ 32 ≡ (n + 1) % 2 ^ 32)
  unfolding accept
  accept_id l sid n s a h e z =
      let f = accepted_fields l n (s, a) z in
      (sid * 2 ^ 32 + (n + 1) % 2 ^ 32, ground (arith, f), omega arith, omega arith, omega arith)

  -- `new`, with or without TLS, starts from the shifted id and no connection.
  pub new_fields :
      (pem : PemApi E)
      (single_cert : List pem.CertificateDer → pem.PrivateKeyDer → NetResult E Acceptor) (sid : ℕ)
      (domain : Option (List ℕ)) (settings : Settings) {l : WrapListener}
      → new pem single_cert sid domain settings ≡ ok l
      → (l.server_id ≡ sid * 2 ^ 32 % 2 ^ 64) × (l.next_connection_id ≡ 0)
  unfolding new
  new_fields pem single_cert sid domain settings e = ground arith
