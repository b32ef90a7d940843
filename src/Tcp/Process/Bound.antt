-- ===== src/Tcp/Process/Bound.antt =====
-- The limit on connections of a listener that `TcpConn::bind_with_listener` of src/tcp/mod.rs made:
-- `listen` with src/settings.rs and src/online_count.rs.
use hcnet.Base.{ℕ, ◌≤◌, ◌<◌, ◌≡◌, ◌↔◌, refl, List, leb, inl, inr, arith, Bool-cases}
use hcnet.Error.{NetResult, ok, err, ◌>>=◌}
use hcnet.Settings.{Settings}
use hcnet.Buffer.{BinaryMut}
use hcnet.Net.{NetApi}
use hcnet.Helper.{PemApi}
use hcnet.Listener
use hcnet.Listener.{WrapListener}
use hcnet.OnlineCount
use hcnet.OnlineCount.{Counters}
use hcnet.Tcp
use hcnet.Tcp.{TcpConn, bind_with_listener}
use hcnet.Tcp.Process.{listen, accept, next}
use hcnet.Tcp.Process.Limit.{
  Site, Reach, Counted, Reach-Counted, now_exact, listen_full, listen_room, taken,
}

module _ {E : Type 0} (net : NetApi E) (bin : BinaryMut) where
  open net use {Socket, Addr, Acceptor}

  module _ (pem : PemApi E)
      (single_cert : List pem.CertificateDer → pem.PrivateKeyDer → NetResult E Acceptor) (id : ℕ)
      (settings : Settings) (st st' : Counters) where
    -- What is bound counts on a counter of its own, from 0, under the default limit.
    bind-Counted :
        (c : TcpConn net bin)
        → bind_with_listener net bin pem single_cert id settings st ≡ ok (c, st')
        → Counted net bin st.next 1024 (record { conn = c; counters = st'; live = 0 })
    unfolding bind_with_listener OnlineCount.new
    bind-Counted c = go (Listener.new net pem single_cert id settings.domain settings)
      where
        go :
            (r : NetResult E (WrapListener net))
            → ◌>>=◌ {B = TcpConn net bin × Counters} r (λ wrap. ok (
              record (Tcp.default net bin) {
                tcp = Tcp.listener wrap;
                id = id;
                count = (OnlineCount.new st).0;
              },
              (OnlineCount.new st).1,
            ))
              ≡ ok (c, st')
            → Counted net bin st.next 1024 (record { conn = c; counters = st'; live = 0 })
        go (err x) e = cc
        go (ok wrap) e = record {
          handle = cc;
          limit = cc;
          exact = ground arith;
          bounded = omega arith;
        }

    -- Whatever settings a TCP listener is bound with, and after any run of arrivals and drops of its
    -- connections, the next socket becomes a connection exactly if fewer than 1024 live, the default of
    -- `max_connections`; it is turned away exactly if 1024 or more live.
    pub bound_limit :
        (c : TcpConn net bin) (y : Site net bin st.next) (l : WrapListener net) (p : Socket × Addr)
        → bind_with_listener net bin pem single_cert id settings st ≡ ok (c, st')
        → Reach net bin st.next (record { conn = c; counters = st'; live = 0 }) y
        → let (r, _, _) = listen net bin y.conn l y.counters (ok p) in
          (((d : TcpConn net bin) × (r ≡ ok (accept d))) ↔ (y.live < 1024))
          × ((r ≡ ok next) ↔ (1024 ≤ y.live))
    bound_limit c y l p e run =
        let i = Reach-Counted net bin st.next 1024 (omega arith) (bind-Counted c e) run in
        let now = now_exact net bin st.next y i in
        elim (Bool-cases
          (leb y.conn.settings.max_connections (OnlineCount.now y.conn.count y.counters))) [
            | inl full ↦
                let much : 1024 ≤ y.live = ground (arith, full, now, i.limit) in
                rw (listen_full net bin st.next y l p full)
                  (((λ (d, q). cc), λ lt. absurd (omega arith)), ((λ _. much), λ _. refl))
            | inr room ↦
                let few : y.live < 1024 = ground (arith, room, now, i.limit) in
                rw (listen_room net bin st.next y l p room) (
                  ((λ _. few), λ _. (taken net bin st.next y l p, refl)),
                  ((λ q. cc), λ much. absurd (omega arith)),
                )
          ]
