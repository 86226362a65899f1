-- ===== src/ProcessingBuffer/Validity.antt =====
-- What the handler of ProcessingBuffer.cpp can be given, for any bytes at all.
use parlo_plus_plus.Common.{
  ℕ, ◌+◌, ◌-◌, ◌^◌, ◌≤◌, ◌<◌, inl, inr, Bool, true, false, ◌&&◌, List, [], ◌∷◌, none, some,
  if◌then◌else◌, is_empty, length, take, drop, All, All-append, arith, length-append, length-drop,
  length-take, Bool-cases, leb, ltb,
}
use parlo_plus_plus.Packet.{Packet, max_packet_size, tcp_packet}
use parlo_plus_plus.Packet.Build.{IsTcp, tcp_packet_total, tcp_packet-IsTcp}
use parlo_plus_plus.ProcessingBuffer.{
  Buffer, Round, waits, stops, continues, terminates, add_data, body_size, read_header_from,
  read_header, hand_over, take_packet, process_body, header_due, Event, received, round, Thread,
  after_round, after_add, process_round, listed, step, run, start, set_on_packet_processed_handler,
}
use parlo_plus_plus.ProcessingBuffer.Tracking.{arrived}

-- The length field is a `uint16_t`, and the queue holds at most `n` bytes.
pub record IsBounded (n : ℕ) (b : Buffer) : Type 0 where
  pub word : b.current_length < 65536
  pub few : length b.internal_buffer ≤ n

abbrev IsSound : ℕ → Round → Type 0
IsSound n stops = Unit {0}
IsSound n waits = Unit {0}
IsSound n (continues b p) = IsBounded n b × All IsTcp (listed p)
IsSound n (terminates e) = Unit {0}

listed-IsTcp : (b : Bool) (p : Packet) → IsTcp p → All IsTcp (listed (if b then some p else none))
listed-IsTcp true p v = (v, tt)
listed-IsTcp false p v = tt

hand_over-IsSound :
    (n : ℕ) (b : Buffer) (id : ℕ) (bytes : List ℕ) (c : Bool)
    → IsBounded n b
    → length bytes < 65532
    → IsSound n (hand_over b (tcp_packet id bytes c))
unfolding hand_over
hand_over-IsSound n b id bytes c k h = elim (tcp_packet_total id bytes c) [
  | inl (_, e) ↦ rw e tt
  | inr (p, e, _, _) ↦ rw e (k, listed-IsTcp b.has_handler p (tcp_packet-IsTcp id bytes c p h e))
]

-- A `size_t` made of a negative difference is more than the queue holds.
body_size-lt :
    (n : ℕ) (b : Buffer)
    → IsBounded n b
    → n < 2 ^ 64 - 4
    → body_size b ≤ length b.internal_buffer
    → body_size b < 65532
unfolding body_size
body_size-lt n b k h enough = omega (arith, k.word, k.few)

take_packet-IsSound :
    (n : ℕ) (b : Buffer)
    → IsBounded n b
    → n < 2 ^ 64 - 4
    → body_size b ≤ length b.internal_buffer
    → IsSound n (take_packet b)
unfolding take_packet
take_packet-IsSound n b k h enough =
    hand_over-IsSound n
      (record b { internal_buffer = drop (body_size b) b.internal_buffer; has_read_header = false })
      b.current_id (take (body_size b) b.internal_buffer) b.is_compressed
      (record {
        word = k.word;
        few = omega (arith, k.few, length-drop (body_size b) b.internal_buffer);
      })
      (omega (arith, body_size-lt n b k h enough, length-take (body_size b) b.internal_buffer))

process_body-IsSound :
    (n : ℕ) (b : Buffer) → IsBounded n b → n < 2 ^ 64 - 4 → IsSound n (process_body b)
process_body-IsSound n b k h =
    elim (Bool-cases (b.has_read_header && leb (body_size b) (length b.internal_buffer))) [
      | inl due ↦
          unfold process_body in
          rw due (unfold take_packet in take_packet-IsSound n b k h (ground arith))
      | inr missing ↦ unfold process_body in rw missing (k, tt)
    ]

read_header_from-IsBounded :
    (n : ℕ) (q : List ℕ) (b : Buffer)
    → IsBounded n b
    → length q ≤ n
    → IsBounded n (read_header_from q b)
unfolding read_header_from
read_header_from-IsBounded n (id ∷ c ∷ low ∷ high ∷ rest) b k h = omega arith
read_header_from-IsBounded n [] b k h = k
read_header_from-IsBounded n (_ ∷ []) b k h = k
read_header_from-IsBounded n (_ ∷ _ ∷ []) b k h = k
read_header_from-IsBounded n (_ ∷ _ ∷ _ ∷ []) b k h = k

-- The two tests before the work of a round, and the test for a header.
guarded-IsSound :
    (n : ℕ) (r : Round) (stopped empty : Bool)
    → IsSound n r
    → IsSound n (if stopped then stops else if empty then waits else r)
guarded-IsSound n r true empty v = tt
guarded-IsSound n r false true v = tt
guarded-IsSound n r false false v = v

due-IsBounded :
    (n : ℕ) (b b' : Buffer) (due : Bool)
    → IsBounded n b
    → IsBounded n b'
    → IsBounded n (if due then b' else b)
due-IsBounded n b b' true k k' = k'
due-IsBounded n b b' false k k' = k

process_round-IsSound :
    (n : ℕ) (b : Buffer) → IsBounded n b → n < 2 ^ 64 - 4 → IsSound n (process_round b)
unfolding process_round
process_round-IsSound n b k h =
    let read = read_header_from-IsBounded n b.internal_buffer b k k.few in
    let due = due-IsBounded n b (read_header b) (header_due b) k read in
    guarded-IsSound n (process_body (if header_due b then read_header b else b)) b.stop_processing
      (is_empty b.internal_buffer) (process_body-IsSound n _ due h)

-- A run in which all packets handed over are well formed.
pub record IsValid (n : ℕ) (t : Thread) : Type 0 where
  pub bounded : IsBounded n t.buffer
  pub sound : All IsTcp t.delivered

after_round-IsValid :
    (n : ℕ) (t : Thread) (r : Round) → IsValid n t → IsSound n r → IsValid n (after_round t r)
unfolding after_round
after_round-IsValid n t stops k v = k
after_round-IsValid n t waits k v = k
after_round-IsValid n t (continues b p) k v = record {
  bounded = v.0;
  sound = All-append IsTcp t.delivered (listed p) k.sound v.1;
}
after_round-IsValid n t (terminates e) k v = record { bounded = k.bounded; sound = k.sound }

if-IsValid :
    (n : ℕ) (b : Bool) (t u : Thread) → IsValid n t → IsValid n u → IsValid n (if b then t else u)
if-IsValid n true t u k k' = k
if-IsValid n false t u k k' = k'

step_round-IsValid : (n : ℕ) (t : Thread) → IsValid n t → n < 2 ^ 64 - 4 → IsValid n (step t round)
unfolding step
step_round-IsValid n t k h =
    let sound = process_round-IsSound n t.buffer k.bounded h in
    if-IsValid n t.terminated t _ k (after_round-IsValid n t (process_round t.buffer) k sound)

after_add-IsValid :
    (n : ℕ) (t : Thread) (bytes : List ℕ)
    → IsValid n t
    → IsValid (n + length bytes) (after_add t (add_data bytes t.buffer))
unfolding after_add add_data
after_add-IsValid n t bytes k = elim (Bool-cases (ltb max_packet_size (length bytes))) [
  | inl over ↦ rw over (record {
    bounded = record { word = k.bounded.word; few = omega (arith, k.bounded.few) };
    sound = k.sound;
  })
  | inr fits ↦ rw fits (record {
    bounded = record {
      word = k.bounded.word;
      few = omega (arith, k.bounded.few, length-append t.buffer.internal_buffer bytes);
    };
    sound = k.sound;
  })
]

IsValid-mono : (n m : ℕ) (t : Thread) → n ≤ m → IsValid n t → IsValid m t
IsValid-mono n m t h k = record {
  bounded = record { word = k.bounded.word; few = omega (arith, k.bounded.few) };
  sound = k.sound;
}

step_received-IsValid :
    (n : ℕ) (t : Thread) (bytes : List ℕ)
    → IsValid n t
    → IsValid (n + length bytes) (step t (received bytes))
unfolding step
step_received-IsValid n t bytes k =
    if-IsValid (n + length bytes) t.terminated t _ (IsValid-mono n _ t (omega arith) k)
      (after_add-IsValid n t bytes k)

pub run-IsValid :
    (n : ℕ) (t : Thread) (es : List Event)
    → IsValid n t
    → n + length (arrived es) < 2 ^ 64 - 4
    → IsValid (n + length (arrived es)) (run t es)
unfolding run arrived
run-IsValid n t [] k h = IsValid-mono n _ t (omega arith) k
run-IsValid n t (received bytes ∷ es) k h =
    let size = length-append bytes (arrived es) in
    let m : ℕ = n + length bytes in
    IsValid-mono (m + length (arrived es)) _ _ (omega (arith, size)) (
      run-IsValid m (step t (received bytes)) es (step_received-IsValid n t bytes k)
        (omega (arith, size)))
run-IsValid n t (round ∷ es) k h =
    run-IsValid n (step t round) es (step_round-IsValid n t k (omega arith)) h

pub start-IsValid : IsValid 0 start
unfolding set_on_packet_processed_handler
start-IsValid = record { bounded = record { word = omega arith; few = omega arith }; sound = tt }

-- Whatever bytes arrive, below 2 ^ 64 - 4 in all, in whatever chunks and with whatever rounds in
-- between: every packet that the handler is given is a TCP packet with a payload that is not empty,
-- whose length field counts the header and the payload, and with a flag of 0 or 1.
pub run_delivers_IsTcp :
    (es : List Event) → length (arrived es) < 2 ^ 64 - 4 → All IsTcp (run start es).delivered
run_delivers_IsTcp es h = (run-IsValid 0 start es start-IsValid (omega arith)).sound
