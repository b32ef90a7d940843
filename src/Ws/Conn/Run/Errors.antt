-- ===== src/Ws/Conn/Run/Errors.antt =====
-- How `inner_run_handler` of src/ws/mod.rs tells an error.
use hcnet.Base.{◌≡◌, ◌≢◌, refl, ap, List, none, some, codes, ◌⊎◌, inl, inr}
use hcnet.Protocol.{error}
use hcnet.Error.{NetError, NetResult, ok, err}
use hcnet.Buffer.{BinaryMut}
use hcnet.Net.{NetApi}
use hcnet.OnlineCount.{Counters}
use hcnet.Handler.{Handler}
use hcnet.Stream
use hcnet.Ws.Web.{WebApi}
use hcnet.Ws.Conn.{Ws, accept_server, WsConn, try_accept}
use hcnet.Ws.Conn.Run.{Turn, Loop, told, inner_run_with_handler, inner_run_handler}

err-ne-ok : {E A : Type 0} {a : A} (e : NetError E) → ◌≢◌ {A = NetResult E A} (err e) (ok a)
err-ne-ok e h = cc

module _ {E : Type 0} (net : NetApi E) (api : WebApi E) (bin : BinaryMut) where
  -- After a handshake that went well there is none to be done.
  try_accept_twice :
      (w : Ws net api bin)
      → (try_accept net api bin w).0 ≡ ok tt
      → try_accept net api bin (try_accept net api bin w).1 ≡ (ok tt, (try_accept net api bin w).1)
  unfolding try_accept
  try_accept_twice (accept_server a) h = go (Stream.accept net a).0 refl
    where
      go :
          (r : NetResult E (Stream.MaybeTlsStream net × net.Addr))
          → (Stream.accept net a).0 ≡ r
          → try_accept net api bin (try_accept net api bin (accept_server a)).1
            ≡ (ok tt, (try_accept net api bin (accept_server a)).1)
      go (ok (s, addr)) e = rw (e, try_accept) refl
      go (err x) e = absurd (err-ne-ok x (rw (e, try_accept) at h))
  try_accept_twice _ h = refl

  module _ (handler : Handler E (WsConn net api bin))
      (on_request : handler.State → api.Request → NetResult E api.Response × handler.State) where
    open handler use {State, on_close}

    -- What is told of the end of the loop: an error.
    abbrev pub Told : Loop net api bin handler on_request → State → Type 0
    Told (r, h, c) h' =
        ((e : NetError E) × (r ≡ some (err e)) × (h' ≡ on_close h error (codes "NetError")))
        ⊎ (((r ≡ none) ⊎ (r ≡ some (ok tt))) × (h' ≡ h))

    told-Told :
        (p : Loop net api bin handler on_request × Counters)
        → ((told net api bin handler on_request p).0.0 ≡ p.0.0)
          × ((told net api bin handler on_request p).0.2 ≡ p.0.2)
          × Told p.0 (told net api bin handler on_request p).0.1
    unfolding told
    told-Told ((some (err e), h, c), st) = (refl, refl, inl (e, refl, refl))
    told-Told ((some (ok tt), h, c), st) = (refl, refl, inr (inr refl, refl))
    told-Told ((none, h, c), st) = (refl, refl, inr (inl refl, refl))

    run_accepted :
        (h : State) (c : WsConn net api bin) (st : Counters)
        (ts : List (Turn net api bin handler on_request))
        → (try_accept net api bin c.ws).0 ≡ ok tt
        → inner_run_handler net api bin handler on_request h c st ts
          ≡ told net api bin handler on_request
              (inner_run_with_handler net api bin handler on_request h c st ts)
    unfolding inner_run_handler inner_run_with_handler
    run_accepted h c st ts e =
        let first =
          ap (λ (x : NetResult E (Unit {0}) × Ws net api bin). x.0) (try_accept_twice c.ws e) in
        let second =
          ap (λ (x : NetResult E (Unit {0}) × Ws net api bin). x.1) (try_accept_twice c.ws e) in
        rw (e, inner_run_handler, inner_run_with_handler, first, second) refl

    run_refused :
        (h : State) (c : WsConn net api bin) (st : Counters)
        (ts : List (Turn net api bin handler on_request)) (e : NetError E)
        → (try_accept net api bin c.ws).0 ≡ err e
        → inner_run_handler net api bin handler on_request h c st ts
          ≡ inner_run_with_handler net api bin handler on_request h c st ts
    unfolding inner_run_handler inner_run_with_handler
    run_refused h c st ts x e = rw (e, inner_run_handler, inner_run_with_handler) refl

    refused :
        (h : State) (c : WsConn net api bin) (st : Counters)
        (ts : List (Turn net api bin handler on_request)) (e : NetError E)
        → (try_accept net api bin c.ws).0 ≡ err e
        → let ((r, h', _), _) = inner_run_with_handler net api bin handler on_request h c st ts in
          (r ≡ some (err e)) × (h' ≡ h)
    unfolding inner_run_with_handler
    refused h c st ts x e = rw (e, inner_run_with_handler) (refl, refl)

    -- `inner_run_handler` ends as `inner_run_with_handler` does, with the same connection. If the first
    -- handshake fails the handler is not told; then it is told as on the other connections.
    pub inner_run_handler_errors :
        (h : State) (c : WsConn net api bin) (st : Counters)
        (ts : List (Turn net api bin handler on_request))
        → let (p, st₁) = inner_run_with_handler net api bin handler on_request h c st ts in
          let ((r', h₂, c₂), st₂) = inner_run_handler net api bin handler on_request h c st ts in
          (r' ≡ p.0)
          × (c₂ ≡ p.2)
          × (((e : NetError E) × ((try_accept net api bin c.ws).0 ≡ err e)
                × (p.0 ≡ some (err e))
                × (h₂ ≡ h))
              ⊎ (((try_accept net api bin c.ws).0 ≡ ok tt) × Told p h₂))
    inner_run_handler_errors h c st ts = go (try_accept net api bin c.ws).0 refl
      where
        go :
            (r : NetResult E (Unit {0}))
            → (try_accept net api bin c.ws).0 ≡ r
            → let (p, st₁) = inner_run_with_handler net api bin handler on_request h c st ts in
              let ((r', h₂, c₂), st₂) =
                inner_run_handler net api bin handler on_request h c st ts in
              (r' ≡ p.0)
              × (c₂ ≡ p.2)
              × (((e : NetError E) × ((try_accept net api bin c.ws).0 ≡ err e)
                    × (p.0 ≡ some (err e))
                    × (h₂ ≡ h))
                  ⊎ (((try_accept net api bin c.ws).0 ≡ ok tt) × Told p h₂))
        go (ok tt) e =
            let (a, b, d) =
              told-Told (inner_run_with_handler net api bin handler on_request h c st ts) in
            rw (run_accepted h c st ts e) (a, b, inr (e, d))
        go (err x) e =
            let (a, b) = refused h c st ts x e in
            rw (run_refused h c st ts x e) (refl, refl, inl (x, e, a, b))
