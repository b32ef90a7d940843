-- ===== src/Tcp/Process/Limit.antt =====
-- The listener's limit on connections: `listen` of src/tcp/mod.rs with the counters of
-- src/online_count.rs, over the life of a listener.
use hcnet.Base.{
  ℕ, ◌+◌, ◌-◌, ◌%◌, ◌^◌, ◌≤◌, ◌<◌, ◌≡◌, refl, true, false, some, inl, inr, leb, arith, Bool-cases,
}
use hcnet.Error.{NetError, NetResult, ok, err}
use hcnet.Buffer.{BinaryMut}
use hcnet.Net.{NetApi}
use hcnet.Listener
use hcnet.Stream
use hcnet.Listener.{WrapListener}
use hcnet.OnlineCount
use hcnet.OnlineCount.{OnlineCount, Counters, usize_max}
use hcnet.Tcp
use hcnet.Tcp.{TcpConn}
use hcnet.Tcp.Process.{TcpReceiver, listen, accept, next}

module _ {E : Type 0} (net : NetApi E) (bin : BinaryMut) (at : ℕ) where
  open net use {Socket, Addr}

  -- A listener whose count is the counter `at`, and the number of its connections that live.
  pub record Site : Type 0 where
    pub conn : TcpConn net bin
    pub counters : Counters
    pub live : ℕ

  abbrev added : NetResult E (TcpReceiver net bin) → ℕ → ℕ
  added (ok (accept _)) live = live + 1
  added _ live = live

  -- The operating system hands a socket over, or fails; or one of the connections is dropped.
  pub data Step : Site → Site → Type 0 where
    arrive :
        (x : Site) (l : WrapListener net) (outcome : NetResult E (Socket × Addr))
        → Step x (record {
          conn = (listen net bin x.conn l x.counters outcome).1;
          counters = (listen net bin x.conn l x.counters outcome).2;
          live = added (listen net bin x.conn l x.counters outcome).0 x.live;
        })
    leave :
        (x : Site)
        → 0 < x.live
        → Step x (record x {
          counters = OnlineCount.drop (record { count = some at }) x.counters;
          live = x.live - 1;
        })

  pub data Reach (x : Site) : Site → Type 0 where
    here : Reach x x
    then : {y z : Site} → Reach x y → Step y z → Reach x z

  pub record Counted (max : ℕ) (x : Site) : Type 0 where
    pub handle : x.conn.count.count ≡ some at
    pub limit : x.conn.settings.max_connections ≡ max
    pub exact : x.counters.cell at ≡ x.live
    pub bounded : x.live ≤ max

  -- How the counter stands against the number of live connections after `listen`.
  abbrev After : ℕ → Site → NetResult E (TcpReceiver net bin) × TcpConn net bin × Counters → Type 0
  After max x r = Counted max (record { conn = r.1; counters = r.2; live = added r.0 x.live })

  -- The three ends of `listen`.
  abbrev relisten : Site → WrapListener net → TcpConn net bin
  relisten x l = record x.conn { tcp = Tcp.listener l }

  listen_failed :
      (x : Site) (l : WrapListener net) (e : NetError E)
      → listen net bin x.conn l x.counters (err e) ≡ (err e, relisten x l, x.counters)
  unfolding listen Listener.accept
  listen_failed x l e = refl

  pub listen_full :
      (x : Site) (l : WrapListener net) (p : Socket × Addr)
      → leb x.conn.settings.max_connections (OnlineCount.now x.conn.count x.counters) ≡ true
      → listen net bin x.conn l x.counters (ok p)
        ≡ (ok next, relisten x (Listener.accept net l (ok p)).1, x.counters)
  unfolding listen Listener.accept
  listen_full x l (s, a) h = rw (h, listen)

  -- The connection that is handed over.
  abbrev pub taken : Site → WrapListener net → Socket × Addr → TcpConn net bin
  taken x l (s, a) = record (Tcp.default net bin) {
    tcp = Tcp.accept_server (Stream.new net (record { stream = s; accepter = l.accepter }) a);
    addr = some a;
    id = (l.server_id + (l.next_connection_id + 1) % 2 ^ 32) % 2 ^ 64;
    count = (OnlineCount.add x.conn.count x.counters).0;
  }

  pub listen_room :
      (x : Site) (l : WrapListener net) (p : Socket × Addr)
      → leb x.conn.settings.max_connections (OnlineCount.now x.conn.count x.counters) ≡ false
      → listen net bin x.conn l x.counters (ok p) ≡ (
        ok (accept (taken x l p)),
        relisten x (Listener.accept net l (ok p)).1,
        (OnlineCount.add x.conn.count x.counters).1,
      )
  unfolding listen Listener.accept
  listen_room x l (s, a) h = rw (h, listen)

  pub now_exact :
      {max : ℕ} (x : Site) → Counted max x → OnlineCount.now x.conn.count x.counters ≡ x.live
  unfolding OnlineCount.now
  now_exact x i = rw (i.handle, OnlineCount.now) i.exact

  add_exact :
      (max : ℕ) (x : Site)
      → max ≤ usize_max
      → x.live < max
      → Counted max x
      → (OnlineCount.add x.conn.count x.counters).1.cell at ≡ x.live + 1
  unfolding OnlineCount.add
  add_exact max x h lt i = rw (i.handle, OnlineCount.add) (ground (arith, i.exact))

  listen-Counted :
      (max : ℕ) (x : Site) (l : WrapListener net) (r : NetResult E (Socket × Addr))
      → max ≤ usize_max
      → Counted max x
      → After max x (listen net bin x.conn l x.counters r)
  listen-Counted max x l (err e) h i =
      rw (listen_failed x l e)
        (record { handle = i.handle; limit = i.limit; exact = i.exact; bounded = i.bounded })
  listen-Counted max x l (ok p) h i =
      let full = leb x.conn.settings.max_connections (OnlineCount.now x.conn.count x.counters) in
      elim (Bool-cases full) [
        | inl e ↦
            rw (listen_full x l p e)
              (record { handle = i.handle; limit = i.limit; exact = i.exact; bounded = i.bounded })
        | inr e ↦
            let lt : x.live < max = ground (arith, e, now_exact x i, i.limit) in
            rw (listen_room x l p e) (record {
              handle = i.handle;
              limit = i.limit;
              exact = add_exact max x h lt i;
              bounded = omega arith;
            })
      ]

  Step-Counted : (max : ℕ) {x y : Site} → max ≤ usize_max → Step x y → Counted max x → Counted max y
  unfolding OnlineCount.drop
  Step-Counted max h (arrive x l r) i = listen-Counted max x l r h i
  Step-Counted max h (leave x pos) i = record {
    handle = i.handle;
    limit = i.limit;
    exact = ground (arith, i.exact);
    bounded = omega (arith, i.bounded);
  }

  pub Reach-Counted :
      (max : ℕ) {x y : Site} → max ≤ usize_max → Counted max x → Reach x y → Counted max y
  Reach-Counted max h i here = i
  Reach-Counted max h i (then r st) = Step-Counted max h st (Reach-Counted max h i r)

  -- From a listener with a fresh counter and a limit that a `usize` holds, after any run of
  -- arrivals and drops, the counter holds exactly the number of the listener's connections that
  -- live, which is at most `max_connections`.
  pub connections_bounded :
      (c : TcpConn net bin) (st : Counters) {y : Site}
      → c.count.count ≡ some at
      → st.cell at ≡ 0
      → c.settings.max_connections ≤ usize_max
      → Reach (record { conn = c; counters = st; live = 0 }) y
      → (OnlineCount.now y.conn.count y.counters ≡ y.live) × (y.live ≤ c.settings.max_connections)
  connections_bounded c st {y} handle zero_count h r =
      let i =
        Reach-Counted c.settings.max_connections h
          (record { handle = handle; limit = refl; exact = zero_count; bounded = omega arith }) r in
      (now_exact y i, i.bounded)
