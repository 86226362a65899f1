-- ===== src/NetworkClient/Session/Deliveries.antt =====
-- The receiving client of NetworkClient.cpp keeps in step with its buffer's thread.
use parlo_plus_plus.Common.{
  ℕ, ◌≤◌, ◌≡◌, refl, sym, subst, ap, ◌∙◌, true, false, List, [], ◌∷◌, ◌++◌, map, Bool, ltb,
  append-nil, append_assoc, none, some, ok, length, All, All-append_back, arith,
}
use parlo_plus_plus.Common.Int.{ℤ}
use parlo_plus_plus.Packet.{Packet, tcp_packet}
use parlo_plus_plus.Packet.Build.{IsTcp}
use parlo_plus_plus.ProcessingBuffer.{
  Buffer, Event, received, round, Round, stops, waits, continues, terminates, Thread, step, run,
  start, after_round, process_round,
}
use parlo_plus_plus.ProcessingBuffer.Framing.{wire}
use parlo_plus_plus.ProcessingBuffer.Tracking.{
  arrived, FitsChunks, rounds, step_received, step_round,
}
use parlo_plus_plus.ProcessingBuffer.Stream.{run-IsComplete}
use parlo_plus_plus.NetworkClient.{
  Platform, Client, Exit, returns, raises, undefined, terminated, received_data,
}
use parlo_plus_plus.NetworkClient.Receiving.{in_thread, plain_after, plain_round}
use parlo_plus_plus.NetworkClient.Receiving.{on_packet_owning}
use parlo_plus_plus.NetworkClient.Closing.{set_on_received_data_handler}
use parlo_plus_plus.NetworkClient.Lifetime.{plain_client}
use parlo_plus_plus.ProcessingBuffer.{set_on_packet_processed_handler}
use parlo_plus_plus.Packet.{max_packet_size}
use parlo_plus_plus.NetworkClient.Delivery.{Listens, on_packet-data}
use parlo_plus_plus.NetworkClient.Session.{IsPlain, go_on, session}
use parlo_plus_plus.NetworkClient.Session.Alive.{
  IsGood, step-IsGood, FitsChunks-first, FitsChunks-rest, FitsChunks-rounds, run-IsGood,
}

tcp_packet-same : (p : Packet) → IsPlain p → tcp_packet p.id p.payload false ≡ ok p
unfolding tcp_packet
tcp_packet-same p k =
    let t = k.tcp in
    let a = t.tcp in
    let b = t.some_data in
    let c = t.counted in let d = t.fits in let e = t.unreliable in let f = k.plain in ground arith

-- The client has got as far as the buffer's thread alone, and its user has been told all.
pub record Mirrors (c : Client) (t : Thread) (r : Client × Exit) : Type 0 where
  pub left : r.1 ≡ returns
  pub same : r.0.buffer ≡ t.buffer
  pub told : r.0.notices ≡ c.notices ++ map received_data t.delivered
  pub listens : Listens r.0

-- Bytes that are given to the buffer.
received-Mirrors :
    (pf : Platform) (now : ℤ) (c d : Client) (t : Thread) (bytes : List ℕ)
    → length bytes ≤ 1024
    → t.terminated ≡ false
    → Mirrors c t (d, returns)
    → Mirrors c (step t (received bytes)) (go_on pf now (received bytes) (d, returns))
unfolding go_on
received-Mirrors pf now c d t bytes h alive k =
    let fits : ltb max_packet_size (length bytes) ≡ false = ground (arith, h) in
    rw (step_received t bytes alive h, fits)
      (record {
        left = refl;
        same =
            ap (λ (b : Buffer). record b { internal_buffer = b.internal_buffer ++ bytes }) k.same;
        told = k.told;
        listens = k.listens;
      })

plain_round-plain_after :
    (pf : Platform) (now : ℤ) (d : Client) (r : Round)
    → process_round d.buffer ≡ r
    → plain_round pf now d ≡ plain_after pf now r d
unfolding plain_round
plain_round-plain_after pf now d r e = rw e

told_last :
    (xs : List Packet) (p : Packet)
    → map received_data (xs ++ (p ∷ [])) ≡ map received_data xs ++ (received_data p ∷ [])
told_last [] p = refl
told_last (x ∷ xs) p = ap (◌∷◌ (received_data x)) (told_last xs p)

-- A round with any outcome.
after-Mirrors :
    (pf : Platform) (now : ℤ) (c d : Client) (t : Thread) (r : Round)
    → IsGood (after_round t r)
    → Mirrors c t (d, returns)
    → Mirrors c (after_round t r) (plain_after pf now r d)
unfolding after_round plain_after on_packet_owning
after-Mirrors pf now c d t stops g k = k
after-Mirrors pf now c d t waits g k = k
after-Mirrors pf now c d t (terminates e) g k = cc (g.alive)
after-Mirrors pf now c d t (continues b none) g k = record {
  left = refl;
  same = refl;
  told = rw (append-nil t.delivered) k.told;
  listens = k.listens;
}
after-Mirrors pf now c d t (continues b (some p)) g k =
    let plain = (All-append_back IsPlain t.delivered (p ∷ []) g.plain).0 in
    let (p', made, _, e) =
      on_packet-data pf now p (record d { buffer = b; has_owner = true }) plain.users k.listens
        plain.plain plain.tcp.some_data in
    let same_packet : ok p' ≡ ok p = sym made ∙ tcp_packet-same p plain in
    let at : p' ≡ p = cc in
    rw (e, at)
      (unfold in_thread in
        record {
          left = refl;
          same = refl;
          told =
              ap (λ l. l ++ (received_data p ∷ [])) k.told
              ∙ append_assoc c.notices (map received_data t.delivered) (received_data p ∷ [])
              ∙ ap (◌++◌ c.notices) (sym (told_last t.delivered p));
          listens = k.listens;
        })

go_on_round :
    (pf : Platform) (now : ℤ) (d : Client) → go_on pf now round (d, returns) ≡ plain_round pf now d
unfolding go_on
go_on_round pf now d = refl

go_on-Mirrors :
    (pf : Platform) (now : ℤ) (c : Client) (t : Thread) (e : Event) (r : Client × Exit)
    → FitsChunks (e ∷ [])
    → t.terminated ≡ false
    → IsGood (step t e)
    → Mirrors c t r
    → Mirrors c (step t e) (go_on pf now e r)
go_on-Mirrors pf now c t (received bytes) (d, returns) h alive g k =
    received-Mirrors pf now c d t bytes h.0 alive k
go_on-Mirrors pf now c t round (d, returns) h alive g k =
    let stepped = step_round t (process_round t.buffer) alive refl in
    let same : process_round d.buffer ≡ process_round t.buffer = ap process_round k.same in
    rw
      (
        stepped,
        go_on_round pf now d ∙ plain_round-plain_after pf now d (process_round t.buffer) same,
      )
      (after-Mirrors pf now c d t (process_round t.buffer) (subst IsGood stepped g) k)
go_on-Mirrors pf now c t e (d, raises x) h alive g k = cc (k.left)
go_on-Mirrors pf now c t e (d, undefined) h alive g k = cc (k.left)
go_on-Mirrors pf now c t e (d, terminated) h alive g k = cc (k.left)

session-Mirrors :
    (pf : Platform) (now : ℤ) (c : Client) (es : List Event) (t : Thread) (r : Client × Exit)
    → FitsChunks es
    → IsGood (run t es)
    → Mirrors c t r
    → Mirrors c (run t es) (session pf now es r)
unfolding session run
session-Mirrors pf now c [] t r h g k = k
session-Mirrors pf now c (e ∷ es) t r h g k =
    let rest = FitsChunks-rest e es h in
    let first = FitsChunks-first e es h in
    let next = run-IsGood es (step t e) rest g in
    session-Mirrors pf now c es (step t e) (go_on pf now e r) rest g
      (go_on-Mirrors pf now c t e r first (step-IsGood t e first next).alive next k)

All-IsTcp : (ps : List Packet) → All IsPlain ps → All IsTcp ps
All-IsTcp [] h = tt
All-IsTcp (p ∷ ps) h = (h.0.tcp, All-IsTcp ps h.1)

-- A client as the constructor without a listener makes it, with the handler of data set.
abbrev pub listening : ℤ → Bool → Client
listening rtt open_already = set_on_received_data_handler true (plain_client rtt true open_already)

-- Let the bytes of well-formed, uncompressed packets with IDs of the user's be given to the processing
-- buffer of a client, in any chunks of at most 1024 bytes, with rounds of its processing thread anywhere
-- in between and as many behind as there are packets. For a client that the constructor without a
-- listener has made, that a `shared_ptr` holds and whose handler of data is set, each round ends
-- normally, and the user has been told of exactly these packets, unchanged and in order.
pub session-delivers :
    (pf : Platform) (now rtt : ℤ) (open_already : Bool) (ps : List Packet) (es : List Event)
    → All IsPlain ps
    → FitsChunks es
    → arrived es ≡ wire ps
    → let r = session pf now (es ++ rounds (length ps)) (listening rtt open_already, returns) in
      (r.1 ≡ returns) × (r.0.notices ≡ map received_data ps)
unfolding set_on_received_data_handler plain_client set_on_packet_processed_handler
session-delivers pf now rtt open_already ps es v h e =
    let whole = run-IsComplete ps es (All-IsTcp ps v) h e in
    let k =
      session-Mirrors pf now (listening rtt open_already) (es ++ rounds (length ps)) start
        (listening rtt open_already, returns) (FitsChunks-rounds es (length ps) h)
        (record { alive = whole.1; plain = subst (All IsPlain) (sym whole.0) v })
        (record { left = refl; same = refl; told = refl; listens = (refl, refl) }) in
    (k.left, k.told ∙ ap (map received_data) whole.0)
