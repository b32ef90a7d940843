-- ===== src/Kcp/Run/Errors.antt =====
-- How `inner_run_handler` of src/kcp/mod.rs tells an error.
use hcnet.Base.{◌≡◌, refl, List, Option, none, some, codes, ◌⊎◌, inl, inr}
use hcnet.Protocol.{error}
use hcnet.Error.{NetError, NetResult, ok, err}
use hcnet.Buffer.{BinaryMut}
use hcnet.Net.{NetApi}
use hcnet.Handler.{Handler}
use hcnet.Kcp.{KcpConn}
use hcnet.Kcp.Run.{Turn, Loop, told, inner_run_with_handler, inner_run_handler}
use hcnet.Ws.Handshake.{Outcome, returned, panicked}

-- An end of a loop that is no error.
abbrev pub IsQuiet : {E : Type 0} → Option (Outcome (NetResult E (Unit {0}))) → Type 0
IsQuiet (some (returned (err e))) = ⊥
IsQuiet _ = Unit {0}

module _ {E : Type 0} (net : NetApi E) (KcpStream : Type 0) (bin : BinaryMut)
    (handler : Handler E (KcpConn net KcpStream bin)) where
  open handler use {State, on_close}

  pub inner_run_handler_errors :
      (h : State) (c : KcpConn net KcpStream bin) (ts : List (Turn net KcpStream bin handler))
      → let (r, h₁, c₁) = inner_run_with_handler net KcpStream bin handler h c ts in
        let (r', h₂, c₂) = inner_run_handler net KcpStream bin handler h c ts in
        (r' ≡ r)
        × (c₂ ≡ c₁)
        × (((e : NetError E) × (r ≡ some (returned (err e)))
              × (h₂ ≡ on_close h₁ error (codes "NetError")))
            ⊎ (IsQuiet r × (h₂ ≡ h₁)))
  unfolding inner_run_handler
  inner_run_handler_errors h c ts = go (inner_run_with_handler net KcpStream bin handler h c ts)
    where
      go :
          (p : Loop net KcpStream bin handler)
          → ((told net KcpStream bin handler p).0 ≡ p.0)
            × ((told net KcpStream bin handler p).2 ≡ p.2)
            × (((e : NetError E) × (p.0 ≡ some (returned (err e)))
                  × ((told net KcpStream bin handler p).1 ≡ on_close p.1 error (codes "NetError")))
                ⊎ (IsQuiet p.0 × ((told net KcpStream bin handler p).1 ≡ p.1)))
      go (some (returned (err e)), h, c) = (refl, refl, inl (e, refl, refl))
      go (some (returned (ok tt)), h, c) = (refl, refl, inr (tt, refl))
      go (some panicked, h, c) = (refl, refl, inr (tt, refl))
      go (none, h, c) = (refl, refl, inr (tt, refl))
