-- ===== src/Conn/Run/Errors.antt =====
-- How `inner_run_handler` of src/conn.rs tells an error, for each kind of connection.
use hcnet.Base.{◌≡◌, ap, Option, none, some, codes, ◌⊎◌, inl, inr}
use hcnet.Protocol.{error}
use hcnet.Error.{NetError, NetResult, ok, err}
use hcnet.Buffer.{BinaryMut}
use hcnet.Net.{NetApi}
use hcnet.OnlineCount.{Counters}
use hcnet.Handler.{Handler}
use hcnet.Ws.Handshake.{Outcome, returned}
use hcnet.Ws.Web.{WebApi}
use hcnet.Ws.Conn.{try_accept}
use hcnet.Ws.Conn.Run.Errors as WsErrors
use hcnet.Tcp.Run.Ending
use hcnet.Kcp.Run.Errors.{IsQuiet}
use hcnet.Kcp.Run.Errors as KcpErrors
use hcnet.Conn.{NetConn, tcp, ws, kcp}
use hcnet.Conn.Run.{Turns, handler_of, of_result, inner_run_handler, inner_run_with_handler}

module _ {E : Type 0} (net : NetApi E) (KcpStream : Type 0) (api : WebApi E) (bin : BinaryMut)
    (handler : Handler E (NetConn net KcpStream api bin))
    (on_request : handler.State → api.Request → NetResult E api.Response × handler.State) where
  open handler use {State, on_close}

  -- A websocket whose TLS handshake fails; a connection where that does not happen.
  abbrev pub IsRefused : NetConn net KcpStream api bin → NetError E → Type 0
  IsRefused (ws c) e = (try_accept net api bin c.ws).0 ≡ err e
  IsRefused _ e = ⊥

  abbrev pub IsAccepted : NetConn net KcpStream api bin → Type 0
  IsAccepted (ws c) = (try_accept net api bin c.ws).0 ≡ ok tt
  IsAccepted _ = Unit {0}

  -- The handler that the loop leaves, and the one that is told of an error.
  abbrev pub Told : Option (Outcome (NetResult E (Unit {0}))) → State → State → Type 0
  Told r h h' =
      ((e : NetError E) × (r ≡ some (returned (err e)))
        × (h' ≡ on_close h error (codes "NetError")))
      ⊎ (IsQuiet r × (h' ≡ h))

  abbrev of_one : Option (NetResult E (Unit {0})) → Option (Outcome (NetResult E (Unit {0})))
  of_one = of_result net KcpStream api bin handler on_request

  lifted :
      (r : Option (NetResult E (Unit {0}))) (h h' : State)
      → ((e : NetError E) × (r ≡ some (err e)) × (h' ≡ on_close h error (codes "NetError")))
        ⊎ (((r ≡ none) ⊎ (r ≡ some (ok tt))) × (h' ≡ h))
      → Told (of_one r) h h'
  lifted r h h' (inl (e, a, k)) = inl (e, ap of_one a, k)
  lifted r h h' (inr (inl a, k)) = inr (rw a tt, k)
  lifted r h h' (inr (inr a, k)) = inr (rw a tt, k)

  -- `inner_run_handler` ends as `inner_run_with_handler` does, and leaves the same connection. If
  -- the loop ends with an error the handler is told, by `on_close` with the code `Error` and the
  -- reason "NetError", and of no other end; but where the loop of a websocket does not start, since
  -- its TLS handshake fails, the handler is not told.
  pub inner_run_handler_tells :
      (h : State) (c : NetConn net KcpStream api bin) (st : Counters)
      (ts : Turns net KcpStream api bin handler on_request)
      → let ((r, h₁, c₁), st₁) =
          inner_run_with_handler net KcpStream api bin handler on_request h c st ts in
        let ((r', h₂, c₂), st₂) =
          inner_run_handler net KcpStream api bin handler on_request h c st ts in
        (r' ≡ r)
        × (c₂ ≡ c₁)
        × (((e : NetError E) × IsRefused c e × (r ≡ some (returned (err e))) × (h₂ ≡ h))
            ⊎ (IsAccepted c × Told r h₁ h₂))
  unfolding inner_run_handler inner_run_with_handler
  inner_run_handler_tells h (tcp c) st ts =
      let (a, b, d) =
        Ending.inner_run_handler_errors net bin
          (handler_of net KcpStream api bin handler on_request tcp) h c st ts.of_tcp in
      (ap of_one a, ap (λ x. NetConn.tcp x) b, inr (tt, lifted _ _ _ d))
  inner_run_handler_tells h (ws c) st ts =
      let (a, b, d) =
        WsErrors.inner_run_handler_errors net api bin
          (handler_of net KcpStream api bin handler on_request ws) on_request h c st ts.of_ws in
      (
        ap of_one a,
        ap (λ x. NetConn.ws x) b,
        elim d [
          | inl (e, refused, r, k) ↦ inl (e, refused, ap of_one r, k)
          | inr (accepted, t) ↦ inr (accepted, lifted _ _ _ t)
        ],
      )
  inner_run_handler_tells h (kcp c) st ts =
      let (a, b, d) =
        KcpErrors.inner_run_handler_errors net KcpStream bin
          (handler_of net KcpStream api bin handler on_request kcp) h c ts.of_kcp in
      (a, ap (λ x. NetConn.kcp x) b, inr (tt, d))
