-- ===== src/Tcp/Construct.antt =====
-- The constructors of a TCP connection: what becomes of a timeout.
use hcnet.Base.{
  ℕ, ◌*◌, ◌%◌, ◌^◌, ◌<◌, ◌≡◌, ◌↔◌, refl, none, some, leb, if◌then◌else◌, arith, Bool-cases, inl,
  inr,
}
use hcnet.Error.{ok, err, timeout}
use hcnet.Buffer.{BinaryMut}
use hcnet.Net.{NetApi}
use hcnet.Tcp.{connect_with_settings, connect_with_timeout, secure, Attempt}

module _ {E : Type 0} (net : NetApi E) (bin : BinaryMut) where
  open net use {Socket, Acceptor}

  -- A peer that accepts a plain connection after `delay` milliseconds.
  abbrev pub answers_after : ℕ → Socket → Attempt net bin
  answers_after delay s deadline = if leb delay deadline then some (ok s) else none

  -- With a timeout of `ms` milliseconds, whose microseconds fit 64 bits, a connection attempt runs
  -- into the timeout exactly if the peer takes more than `ms * 1000` milliseconds.
  pub connect_with_timeout_deadline :
      (ms delay id : ℕ) (s : Socket)
      → ms * 1000 < 2 ^ 64
      → (connect_with_timeout net bin (answers_after delay s) (ms * 1000) id ≡ err timeout)
        ↔ (ms * 1000 < delay)
  unfolding connect_with_timeout connect_with_settings secure
  connect_with_timeout_deadline ms delay id s h =
      let exact : ms * 1000 % 2 ^ 64 ≡ ms * 1000 = omega arith in
      elim (Bool-cases (leb delay (ms * 1000))) [
        | inl soon ↦
            rw (exact, connect_with_settings, soon) ((λ e. cc), λ late. absurd (ground arith))
        | inr late ↦ rw (exact, connect_with_settings, late) ((λ _. ground arith), λ _. refl)
      ]
