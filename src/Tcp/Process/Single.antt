-- ===== src/Tcp/Process/Single.antt =====
-- What one event does on an open TCP connection, and what it leaves as it is.
use hcnet.Base.{ℕ, ◌≡◌, refl, ◌∙◌, List, [], ◌∷◌, none, inl, inr, Bool-cases}
use hcnet.Buffer.{BinaryMut}
use hcnet.Net.{NetApi}
use hcnet.Tcp.{TcpConn}
use hcnet.Tcp.Process.{Event, wrote, open_head, open_event, open_loop, written}

module _ {E : Type 0} (net : NetApi E) (bin : BinaryMut) where
  open bin use {chunk}

  -- What a call leaves as it is.
  pub record Same (c c' : TcpConn net bin) : Type 0 where
    pub tcp : c'.tcp ≡ c.tcp
    pub settings : c'.settings ≡ c.settings
    pub state : c'.state ≡ c.state

  open_event_wrote : (c : TcpConn net bin) (n : ℕ) → (open_event net bin c (wrote n)).0 ≡ none
  unfolding open_event
  open_event_wrote c n = elim (Bool-cases (bin.has_remaining c.write)) [
    | inl some_left ↦ rw some_left refl
    | inr none_left ↦ rw none_left refl
  ]

  pub open_loop_wrote :
      (c : TcpConn net bin) (n : ℕ) (es : List (Event net bin))
      → (open_head net bin c).0 ≡ none
      → open_loop net bin c (wrote n ∷ es)
        ≡ open_loop net bin (open_event net bin (open_head net bin c).1 (wrote n)).1 es
  unfolding open_loop
  open_loop_wrote c n es h = rw (h, open_loop, open_event_wrote (open_head net bin c).1 n) refl

  pub wrote-Same :
      (c : TcpConn net bin) (n : ℕ)
      → Same c (open_event net bin c (wrote n)).1
        × ((open_event net bin c (wrote n)).1.read ≡ c.read)
  unfolding open_event written
  wrote-Same c n = elim (Bool-cases (bin.has_remaining c.write)) [
    | inl some_left ↦ rw some_left (record { tcp = refl; settings = refl; state = refl }, refl)
    | inr none_left ↦ rw none_left (record { tcp = refl; settings = refl; state = refl }, refl)
  ]

  pub head-Same : (c : TcpConn net bin) → Same c (open_head net bin c).1
  unfolding open_head
  head-Same c = record { tcp = refl; settings = refl; state = refl }

  pub open_loop_end_of_events :
      (c : TcpConn net bin)
      → open_loop net bin c [] ≡ ((open_head net bin c).0, (open_head net bin c).1, [])
  unfolding open_loop
  open_loop_end_of_events c = refl

  pub head_read :
      (c : TcpConn net bin) (xs : List ℕ)
      → Same c (record (open_head net bin c).1 {
        read = bin.advance_mut (open_head net bin c).1.read xs;
      })
  unfolding open_head
  head_read c xs = record { tcp = refl; settings = refl; state = refl }

  pub both : (c c₁ c₂ : TcpConn net bin) → Same c c₁ → Same c₁ c₂ → Same c c₂
  both c c₁ c₂ k l = record {
    tcp = l.tcp ∙ k.tcp;
    settings = l.settings ∙ k.settings;
    state = l.state ∙ k.state;
  }
