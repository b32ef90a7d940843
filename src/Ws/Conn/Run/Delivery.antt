-- ===== src/Ws/Conn/Run/Delivery.antt =====
-- What a websocket client sends comes out at an open server.
use hcnet.Base.{
  ℕ, ◌<◌, ◌+◌, ◌≡◌, ◌≢◌, refl, ap, ◌∙◌, sym, true, false, List, [], ◌∷◌, ◌++◌, map, none, some,
  length, lt→leb_false, append-nil, append_assoc, length-append, concat, All, arith,
}
use hcnet.Message.{Message, into_owned}
use hcnet.Error.{NetResult, ok}
use hcnet.Settings.{Settings}
use hcnet.Buffer.{BinaryMut}
use hcnet.Net.{NetApi}
use hcnet.OnlineCount.{Counters}
use hcnet.Handler.{Handler}
use hcnet.Tcp.Run.Sending.{IsPlain}
use hcnet.Ws.Web.{WebApi}
use hcnet.Ws.Duplex
use hcnet.Ws.Duplex.{Pipe}
use hcnet.Ws.Duplex.Delivery.{AllEncoded, answers_of, reads, open_process_in_order}
use hcnet.Ws.Client
use hcnet.Ws.Client.{WsClient}
use hcnet.Ws.Conn.{client, WsConn, is_outbuffer_full, outbuffer_full_in, send_message, send_on}
use hcnet.Ws.Conn.Run.{Turn, received, Loop, turn, run, head, on_received, on_command, ended}
use hcnet.Ws.Conn.Run.Meeting.{unwritten}

module _ {E : Type 0} (net : NetApi E) (api : WebApi E) (bin : BinaryMut)
    (handler : Handler E (WsConn net api bin))
    (on_request : handler.State → api.Request → NetResult E api.Response × handler.State) where
  -- A message with the mask that is drawn for it.
  abbrev pub Masked : Type 0
  Masked = Message × List ℕ

  abbrev pub text_of : Masked → NetResult E (Unit {0}) × List ℕ
  text_of (m, mask) = api.write_to (into_owned api.close_data m) (some mask)

  abbrev pub frames : List Masked → List (List ℕ)
  frames = map (λ p. (text_of p).1)

  abbrev pub AllSent : List Masked → Type 0
  AllSent [] = Unit {0}
  AllSent (p ∷ ps) = IsPlain p.0 × ((text_of p).0 ≡ ok tt) × AllSent ps

  abbrev pub sends : List Masked → List (Turn net api bin handler on_request)
  sends = map (λ p. received (some (record { msg = p.0 })) p.1)

  -- The client after a message.
  abbrev buffered : WsClient net api bin → Masked → WsClient net api bin
  buffered cl p = record cl {
    pipe = record cl.pipe { write = bin.put_slice cl.pipe.write (text_of p).1 };
  }

  send_message-buffered :
      (c : WsConn net api bin) (cl : WsClient net api bin) (p : Masked)
      → (text_of p).0 ≡ ok tt
      → send_message net api bin (record c { ws = client cl }) p.0 p.1
        ≡ (ok tt, record c { ws = client (buffered cl p) })
  unfolding send_message send_on Client.send_message Client.with_pipe Duplex.send_message
  send_message-buffered c cl p w =
      ap (λ (r : NetResult E (Unit {0})). (r, record c { ws = client (buffered cl p) })) w

  -- What `?` makes of an operation on the connection.
  abbrev goes :
      handler.State
      → NetResult E (Unit {0}) × WsConn net api bin
      → Loop net api bin handler on_request
  goes h (r, c) = (ended net api bin handler on_request r, h, c)

  on_command_plain :
      (h : handler.State) (c : WsConn net api bin) (mask : List ℕ) (m : Message)
      → IsPlain m
      → on_command net api bin handler on_request h c mask m
        ≡ goes h (send_message net api bin c m mask)
  unfolding on_command
  on_command_plain h c mask (Message.close _ _) plain = absurd plain
  on_command_plain h c mask Message.shutdown plain = absurd plain
  on_command_plain h c mask m plain = refl

  turn_plain :
      (h : handler.State) (c : WsConn net api bin) (cl : WsClient net api bin) (st : Counters)
      (p : Masked)
      → bin.len cl.pipe.write < c.settings.out_buffer_max
      → IsPlain p.0
      → (text_of p).0 ≡ ok tt
      → turn net api bin handler on_request false h
          (record c { ws = client cl })
          st
          (received (some (record { msg = p.0 })) p.1)
        ≡ ((none, h, record c { ws = client (buffered cl p) }), st)
  unfolding turn on_received on_command is_outbuffer_full outbuffer_full_in Duplex.is_outbuffer_full
  turn_plain h c cl st (m, mask) room plain w =
      rw (lt→leb_false _ _ room, turn)
        (ap (λ (l : Loop net api bin handler on_request). (l, st))
          (on_command_plain h (record c { ws = client cl }) mask m plain
            ∙ ap (goes h) (send_message-buffered c cl (m, mask) w)))

  run_next :
      (h : handler.State) (c : WsConn net api bin) (st : Counters)
      (t : Turn net api bin handler on_request) (ts : List (Turn net api bin handler on_request))
      (c' : WsConn net api bin)
      → turn net api bin handler on_request false h c st t ≡ ((none, h, c'), st)
      → run net api bin handler on_request false true h c st (t ∷ ts)
        ≡ run net api bin handler on_request false true h c' st ts
  unfolding run head
  run_next h c st t ts c' e = ap after e
    where
      after :
          Loop net api bin handler on_request × Counters
          → Loop net api bin handler on_request × Counters
      after p =
          let rest = run net api bin handler on_request false true p.0.1 p.0.2 p.1 ts in
          elim p.0.0 [ some r ↦ ((some r, p.0.1, p.0.2), p.1) | none ↦ rest ]

  -- Plain messages that arrive one after the other go into the write buffer in that order.
  pub run-sends :
      (ps : List Masked) (h : handler.State) (c : WsConn net api bin) (cl : WsClient net api bin)
      (st : Counters)
      → AllSent ps
      → bin.len cl.pipe.write + length (concat (frames ps)) < c.settings.out_buffer_max
      → let ((r, h', c'), st') =
          run net api bin handler on_request false true h
            (record c { ws = client cl })
            st
            (sends ps) in
        (r ≡ none)
        × (h' ≡ h)
        × (unwritten net api bin c'.ws ≡ bin.chunk cl.pipe.write ++ concat (frames ps))
  unfolding run head
  run-sends [] h c cl st all room = (refl, refl, sym (append-nil (bin.chunk cl.pipe.write)))
  run-sends (p ∷ ps) h c cl st all room =
      let w = bin.chunk-put_slice cl.pipe.write (text_of p).1 in
      let grown : bin.len (buffered cl p).pipe.write
          ≡ bin.len cl.pipe.write + length (text_of p).1 =
        omega (
          arith,
          bin.len-chunk (buffered cl p).pipe.write,
          ap length w,
          length-append (bin.chunk cl.pipe.write) (text_of p).1,
          bin.len-chunk cl.pipe.write,
        ) in
      let size = length-append (text_of p).1 (concat (frames ps)) in
      let (a, b, d) = run-sends ps h c (buffered cl p) st all.2 (omega (arith, grown, size)) in
      rw
        (run_next h (record c { ws = client cl }) st _ (sends ps)
          (record c { ws = client (buffered cl p) })
          (turn_plain h c cl st p (omega arith) all.0 all.1))
        (
          a,
          b,
          d
              ∙ ap (λ (t : List ℕ). t ++ concat (frames ps)) w
              ∙ append_assoc (bin.chunk cl.pipe.write) (text_of p).1 (concat (frames ps)),
        )

  -- Plain messages that arrive as commands at a client, which has called `on_open` and has nothing to
  -- write, with room for all, each written as one frame that fits the read buffer of the other end: if
  -- what it then has to write comes in at an open websocket with nothing unread, cut anywhere into
  -- non-empty reads, the calls of `process` there answer with the same messages, each once and in order.
  pub run_then_answers :
      (ps : List Masked) (h : handler.State) (c : WsConn net api bin) (cl : WsClient net api bin)
      (st : Counters) (settings : Settings) (d : Pipe api bin) (chunks : List (List ℕ))
      → AllSent ps
      → length (concat (frames ps)) < c.settings.out_buffer_max
      → bin.chunk cl.pipe.write ≡ []
      → AllEncoded api bin settings (map (λ p. p.0) ps) (frames ps)
      → bin.chunk d.read ≡ []
      → All (λ xs. xs ≢ []) chunks
      → concat chunks
        ≡ unwritten net api bin
            (run net api bin handler on_request false true h
              (record c { ws = client cl })
              st
              (sends ps)).0.2.ws
      → answers_of api bin (length (map (λ p. p.0) ps)) settings d (reads api bin chunks)
        ≡ map (λ m. some (ok m)) (map (λ p. p.0) ps)
  run_then_answers ps h c cl st settings d chunks all room nothing enc none_read hc e =
      let sent =
        run-sends ps h c cl st all
          (omega (arith, room, bin.len-chunk cl.pipe.write, ap length nothing)) in
      let came : bin.chunk d.read ++ concat chunks ≡ concat (frames ps) =
        ap (λ (x : List ℕ). x ++ concat chunks) none_read
        ∙ e
        ∙ sent.2
        ∙ ap (λ (x : List ℕ). x ++ concat (frames ps)) nothing in
      open_process_in_order api bin settings (map (λ p. p.0) ps) (frames ps) d chunks enc hc came
