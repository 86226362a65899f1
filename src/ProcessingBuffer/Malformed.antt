-- ===== src/ProcessingBuffer/Malformed.antt =====
-- ProcessingBuffer.cpp on bytes that no well-formed packet has.
use parlo_plus_plus.Common.{
  ℕ, ◌+◌, ◌-◌, ◌^◌, ◌≤◌, ◌<◌, ◌≡◌, refl, subst, sym, ap, ◌∙◌, ◌⊎◌, inl, inr, true, false, List, [],
  ◌∷◌, ◌++◌, append-nil, none, invalid_argument, length, All, arith, length-append,
}
use parlo_plus_plus.Common.Bits.{join_bytes}
use parlo_plus_plus.Packet.{Packet, max_packet_size, tcp_packet}
use parlo_plus_plus.Packet.Build.{IsTcp, joined}
use parlo_plus_plus.ProcessingBuffer.{
  Buffer, waits, continues, terminates, body_size, read_header_from, Event, received, round, Thread,
  after_round, process_round, step, run, start,
}
use parlo_plus_plus.ProcessingBuffer.Framing.{wire, IsReady}
use parlo_plus_plus.ProcessingBuffer.Tracking.{
  arrived, rounds, FitsChunks, step_received, step_round,
}
use parlo_plus_plus.ProcessingBuffer.Stream.{IsComplete, run-IsComplete, run-append}

-- A header that says less than its own four bytes has been read.
pub record HasShortHeader (b : Buffer) : Type 0 where
  pub running : b.stop_processing ≡ false
  pub read : b.has_read_header ≡ true
  pub short : b.current_length < 4

process_round-HasShortHeader :
    (b : Buffer)
    → HasShortHeader b
    → length b.internal_buffer < 2 ^ 64 - 4
    → (process_round b ≡ waits) ⊎ (process_round b ≡ continues b none)
unfolding process_round body_size
process_round-HasShortHeader b k h = ground arith

-- Such a header is at the front of the buffer, or has been read from there.
abbrev IsStuck : Buffer → Type 0
IsStuck b =
    HasShortHeader b
    ⊎ (IsReady b
        × (b.has_read_header ≡ false)
        × (id : ℕ) × (c : ℕ) × (low : ℕ) × (rest : List ℕ) × (b.internal_buffer
            ≡ id ∷ c ∷ low ∷ 0 ∷ rest)
        × (low < 4))

-- A round that gives the handler nothing.
abbrev IsSilent : Buffer → Type 0
IsSilent b =
    (process_round b ≡ waits)
    ⊎ ((b' : Buffer) × (process_round b ≡ continues b' none)
        × IsStuck b'
        × (length b'.internal_buffer ≤ length b.internal_buffer))

joined_short : (low : ℕ) → low < 4 → joined low 0 < 4
joined_short low h = rw (join_bytes 0 low (omega arith)) (omega arith)

process_round-unread_short :
    (b : Buffer) (id c low : ℕ) (rest : List ℕ)
    → IsReady b
    → b.has_read_header ≡ false
    → b.internal_buffer ≡ id ∷ c ∷ low ∷ 0 ∷ rest
    → low < 4
    → length rest < 2 ^ 64 - 4
    → (process_round b ≡ continues (read_header_from (id ∷ c ∷ low ∷ 0 ∷ rest) b) none)
      × HasShortHeader (read_header_from (id ∷ c ∷ low ∷ 0 ∷ rest) b)
unfolding process_round body_size
process_round-unread_short b id c low rest r off e h small =
    let short = joined_short low h in (rw e (ground (arith, short)), ground (arith, short))

IsStuck-IsSilent : (b : Buffer) → IsStuck b → length b.internal_buffer < 2 ^ 64 - 4 → IsSilent b
IsStuck-IsSilent b (inl k) h = elim (process_round-HasShortHeader b k h) [
  | inl e ↦ inl e
  | inr e ↦ inr (b, e, inl k, omega arith)
]
IsStuck-IsSilent b (inr (r, off, id, c, low, rest, e, short)) h =
    let size = ap length e in
    let (made, k) =
      process_round-unread_short b id c low rest r off e short (omega (arith, size)) in
    inr (_, made, inl k, unfold read_header_from in omega (arith, size))

-- A header of exactly four bytes ends the process.
pub process_round_empty_packet :
    (b : Buffer) (id c : ℕ) (rest : List ℕ)
    → IsReady b
    → b.has_read_header ≡ false
    → b.internal_buffer ≡ id ∷ c ∷ 4 ∷ 0 ∷ rest
    → process_round b ≡ terminates invalid_argument
unfolding process_round body_size tcp_packet
process_round_empty_packet b id c rest r off e = rw e (ground arith)

IsStuck-append :
    (b : Buffer) (bytes : List ℕ)
    → IsStuck b
    → IsStuck (record b { internal_buffer = b.internal_buffer ++ bytes })
IsStuck-append b bytes (inl k) =
    inl (record { running = k.running; read = k.read; short = k.short })
IsStuck-append b bytes (inr (r, off, id, c, low, rest, e, short)) = inr (
  record { running = r.running; handled = r.handled },
  off,
  id,
  c,
  low,
  rest ++ bytes,
  ap (λ q. q ++ bytes) e,
  short,
)

-- A step of a stuck run, with at most `more` further bytes.
abbrev KeepsStuck : ℕ → Thread → Thread → Type 0
KeepsStuck more t u =
    (u.terminated ≡ false)
    × (u.delivered ≡ t.delivered)
    × IsStuck u.buffer
    × (length u.buffer.internal_buffer ≤ length t.buffer.internal_buffer + more)

step_received-IsStuck :
    (t : Thread) (bytes : List ℕ)
    → t.terminated ≡ false
    → length bytes ≤ max_packet_size
    → IsStuck t.buffer
    → KeepsStuck (length bytes) t (step t (received bytes))
step_received-IsStuck t bytes alive f k =
    subst (KeepsStuck (length bytes) t) (sym (step_received t bytes alive f)) (
      alive,
      refl,
      IsStuck-append t.buffer bytes k,
      omega (arith, length-append t.buffer.internal_buffer bytes),
    )

step_round-IsStuck :
    (t : Thread)
    → t.terminated ≡ false
    → IsStuck t.buffer
    → length t.buffer.internal_buffer < 2 ^ 64 - 4
    → KeepsStuck 0 t (step t round)
unfolding after_round
step_round-IsStuck t alive k h = elim (IsStuck-IsSilent t.buffer k h) [
  | inl e ↦ subst (KeepsStuck 0 t) (sym (step_round t waits alive e)) (alive, refl, k, omega arith)
  | inr (b', e, k', smaller) ↦
      subst (KeepsStuck 0 t) (sym (step_round t (continues b' none) alive e))
        (alive, append-nil t.delivered, k', omega arith)
]

-- From a stuck buffer no packet comes, whatever arrives: below 2 ^ 64 - 4 bytes in all.
run-IsStuck :
    (t : Thread) (es : List Event)
    → t.terminated ≡ false
    → FitsChunks es
    → IsStuck t.buffer
    → length t.buffer.internal_buffer + length (arrived es) < 2 ^ 64 - 4
    → (run t es).delivered ≡ t.delivered
unfolding run arrived
run-IsStuck t [] alive f k h = refl
run-IsStuck t (received bytes ∷ es) alive f k h =
    let (alive', same, k', size) = step_received-IsStuck t bytes alive f.0 k in
    run-IsStuck (step t (received bytes)) es alive' f.1 k'
      (omega (arith, length-append bytes (arrived es), size))
    ∙ same
run-IsStuck t (round ∷ es) alive f k h =
    let (alive', same, k', size) = step_round-IsStuck t alive k (omega arith) in
    run-IsStuck (step t round) es alive' f k' (omega (arith, size)) ∙ same

-- A chunk that arrives at a buffer which has handed over everything.
complete_received :
    (ps : List Packet) (t : Thread) (bytes : List ℕ)
    → IsComplete ps t
    → length bytes ≤ max_packet_size
    → step t (received bytes) ≡ record t { buffer = record t.buffer { internal_buffer = bytes } }
complete_received ps t bytes (_, alive, empty, _, _) h =
    step_received t bytes alive h
    ∙ ap (λ q. record t { buffer = record t.buffer { internal_buffer = q } })
        (ap (λ q. q ++ bytes) empty)

-- Let well-formed packets be received and handed over, and then a header come whose length field is
-- below 4. Whatever arrives from then on, below 2 ^ 64 - 4 bytes in all, in any chunks and with any
-- rounds, the handler is given no further packet.
pub short_header_stalls :
    (ps : List Packet) (es later : List Event) (id c low : ℕ) (rest : List ℕ)
    → All IsTcp ps
    → FitsChunks es
    → arrived es ≡ wire ps
    → low < 4
    → length rest ≤ 1020
    → FitsChunks later
    → length rest + length (arrived later) < 2 ^ 64 - 8
    → (run start (es ++ rounds (length ps) ++ received (id ∷ c ∷ low ∷ 0 ∷ rest) ∷ later)).delivered
      ≡ ps
unfolding run
short_header_stalls ps es later id c low rest v f e short size f' total =
    let t = run start (es ++ rounds (length ps)) in
    let done = run-IsComplete ps es v f e in
    let bytes : List ℕ = id ∷ c ∷ low ∷ 0 ∷ rest in
    let next = complete_received ps t bytes done (omega arith) in
    let stuck : IsStuck (record t.buffer { internal_buffer = bytes }) = inr (
      record { running = done.4.running; handled = done.4.handled },
      done.3,
      id,
      c,
      low,
      rest,
      refl,
      short,
    ) in
    ap (λ (u : Thread). u.delivered) (run-append start (es ++ rounds (length ps)) _)
    ∙ ap (λ (u : Thread). (run u later).delivered) next
    ∙ run-IsStuck (record t { buffer = record t.buffer { internal_buffer = bytes } }) later done.1
        f' stuck (omega arith)
    ∙ done.0

-- A packet with an empty body, a header whose length field is 4, ends the process: behind any
-- well-formed packets, the round that reads it throws out of the thread.
pub empty_packet_terminates :
    (ps : List Packet) (es : List Event) (id c : ℕ) (rest : List ℕ)
    → All IsTcp ps
    → FitsChunks es
    → arrived es ≡ wire ps
    → length rest ≤ 1020
    → (run start
        (es ++ rounds (length ps) ++ received (id ∷ c ∷ 4 ∷ 0 ∷ rest) ∷ round ∷ [])).terminated
      ≡ true
unfolding run after_round
empty_packet_terminates ps es id c rest v f e size =
    let t = run start (es ++ rounds (length ps)) in
    let done = run-IsComplete ps es v f e in
    let bytes : List ℕ = id ∷ c ∷ 4 ∷ 0 ∷ rest in
    let next = complete_received ps t bytes done (omega arith) in
    let u : Thread = record t { buffer = record t.buffer { internal_buffer = bytes } } in
    let ready : IsReady u.buffer = record { running = done.4.running; handled = done.4.handled } in
    let fails = process_round_empty_packet u.buffer id c rest ready done.3 refl in
    ap (λ (w : Thread). w.terminated)
      (run-append start (es ++ rounds (length ps)) _
        ∙ ap (λ (w : Thread). step w round) next
        ∙ step_round u (terminates invalid_argument) done.1 fails)
