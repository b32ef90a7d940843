-- ===== src/Ws/Conn/Run/Watched.antt =====
-- Any handler, watched: it notes whether `on_open` was called, and whether a callback for a message of
-- the peer came before it or `on_open` came twice.
use hcnet.Base.{Bool, true, not, ◌||◌}
use hcnet.Error.{NetResult}
use hcnet.Handler.{Handler}

module _ {E : Type 0} {Conn : Type 0} (handler : Handler E Conn) where
  pub record Watch : Type 0 where
    pub inner : handler.State
    pub seen_open : Bool
    pub bad : Bool

  abbrev pub noted : Watch → handler.State → Watch
  noted w s = record w { inner = s; bad = w.bad || not w.seen_open }

  abbrev pub watched : Handler E Conn
  watched = record {
    State = Watch;
    on_accept = λ w c. let (r, s) = handler.on_accept w.inner c in (r, record w { inner = s });
    on_open = λ w.
        let (r, s) = handler.on_open w.inner in
        (r, record { inner = s; seen_open = true; bad = w.bad || w.seen_open });
    on_close = λ w code reason. noted w (handler.on_close w.inner code reason);
    on_ping = λ w v. let (r, s) = handler.on_ping w.inner v in (r, noted w s);
    on_pong = λ w v. let (r, s) = handler.on_pong w.inner v in (r, noted w s);
    on_message = λ w m. let (r, s) = handler.on_message w.inner m in (r, noted w s);
    on_logic = λ w. let (r, s) = handler.on_logic w.inner in (r, record w { inner = s });
  }

  -- The same for `on_request`, which is called before.
  abbrev pub watched_request :
      {Req Res : Type 0}
      → (handler.State → Req → NetResult E Res × handler.State)
      → Watch
      → Req
      → NetResult E Res × Watch
  watched_request on_request w r = let (x, s) = on_request w.inner r in (x, record w { inner = s })
