-- ===== src/ProcessingBuffer/Tracking.antt =====
-- One step of a run of ProcessingBuffer.cpp, kept in step with the packets that were sent.
use parlo_plus_plus.Common.{
  ℕ, true, zero, suc, ◌≤◌, ◌≡◌, refl, sym, ap, ◌∙◌, subst, inl, inr, false, List, [], ◌∷◌, ◌++◌,
  append_assoc, append-nil, none, some, length, All, arith, length-append,
}
use parlo_plus_plus.Packet.{Packet, max_packet_size}
use parlo_plus_plus.Packet.Build.{IsTcp}
use parlo_plus_plus.ProcessingBuffer.{
  Buffer, Round, waits, continues, Event, received, round, Thread, after_round, process_round, step,
}
use parlo_plus_plus.ProcessingBuffer.Framing.{
  wire, IsReady, IsFramed, Advances, idle, keeps, delivers,
}
use parlo_plus_plus.ProcessingBuffer.Rounds.{length-wire}
use parlo_plus_plus.ProcessingBuffer.Rounds.{process_round-Advances}

-- The bytes that arrive in a run, in order.
unfoldable pub arrived : List Event → List ℕ
arrived [] = []
arrived (received bytes ∷ es) = bytes ++ arrived es
arrived (round ∷ es) = arrived es

-- No chunk is larger than `add_data` takes.
abbrev pub FitsChunks : List Event → Type 0
FitsChunks [] = Unit {0}
FitsChunks (received bytes ∷ es) = (length bytes ≤ max_packet_size) × FitsChunks es
FitsChunks (round ∷ es) = FitsChunks es

unfoldable pub rounds : ℕ → List Event
rounds zero = []
rounds (suc n) = round ∷ rounds n

-- A run that has handed over a first part of the packets `ps`, in order and unchanged, while the
-- buffer and the bytes that are still to come, `future`, hold exactly the others, `left`.
pub record Tracks (ps left : List Packet) (future : List ℕ) (t : Thread) : Type 0 where
  pub alive : t.terminated ≡ false
  pub ready : IsReady t.buffer
  pub well_formed : All IsTcp left
  pub in_order : t.delivered ++ left ≡ ps
  pub framed : IsFramed t.buffer future left

pub step_received :
    (t : Thread) (bytes : List ℕ)
    → t.terminated ≡ false
    → length bytes ≤ max_packet_size
    → step t (received bytes) ≡ record t {
      buffer = record t.buffer { internal_buffer = t.buffer.internal_buffer ++ bytes };
    }
unfolding step
step_received t bytes alive h = ground arith

IsFramed-append :
    (b : Buffer) (bytes future : List ℕ) (left : List Packet)
    → IsFramed b (bytes ++ future) left
    → IsFramed (record b { internal_buffer = b.internal_buffer ++ bytes }) future left
IsFramed-append b bytes future left (inl (off, e)) =
    inl (off, append_assoc b.internal_buffer bytes future ∙ e)
IsFramed-append b bytes future left (inr (p, rest, at, k, e)) = inr (
  p,
  rest,
  at,
  record {
    read = k.read;
    same_id = k.same_id;
    same_flag = k.same_flag;
    same_length = k.same_length;
  },
  append_assoc b.internal_buffer bytes future ∙ e,
)

-- A chunk moves from the future into the buffer.
pub step_received-Tracks :
    (ps left : List Packet) (bytes future : List ℕ) (t : Thread)
    → length bytes ≤ max_packet_size
    → Tracks ps left (bytes ++ future) t
    → Tracks ps left future (step t (received bytes))
step_received-Tracks ps left bytes future t h k = rw (step_received t bytes k.alive h) (record {
  alive = k.alive;
  ready = record { running = k.ready.running; handled = k.ready.handled };
  well_formed = k.well_formed;
  in_order = k.in_order;
  framed = IsFramed-append t.buffer bytes future left k.framed;
})

pub step_round :
    (t : Thread) (r : Round)
    → t.terminated ≡ false
    → process_round t.buffer ≡ r
    → step t round ≡ after_round t r
unfolding step
step_round t r alive e = ground arith

abbrev pub rest_of : List Packet → List Packet
rest_of [] = []
rest_of (p ∷ ps) = ps

-- With no byte in the buffer and none to come, no packet is left.
nothing_left :
    (b : Buffer) (future : List ℕ) (left : List Packet)
    → All IsTcp left
    → IsFramed b future left
    → b.internal_buffer ≡ []
    → future ≡ []
    → left ≡ []
nothing_left b future [] v f empty none_left = refl
nothing_left b future (p ∷ rest) v (inl (off, e)) empty none_left = absurd (
    omega (
      arith,
      ap length e,
      ap length empty,
      ap length none_left,
      length-append b.internal_buffer future,
      length-wire p rest v.0,
    ))
nothing_left b future (p ∷ rest) v (inr (p', rest', at, k, e)) empty none_left = absurd (
    omega (
      arith,
      ap length e,
      ap length empty,
      ap length none_left,
      length-append b.internal_buffer future,
      length-append p'.payload (wire rest'),
      (subst (All IsTcp) at v).0.some_data,
    ))

-- A round keeps the run on its track; once all bytes have arrived, it takes the next packet off.
pub step_round-Tracks :
    (ps left : List Packet) (future : List ℕ) (t : Thread)
    → Tracks ps left future t
    → (left' : List Packet) × Tracks ps left' future (step t round)
      × (future ≡ [] → left' ≡ rest_of left)
step_round-Tracks ps left future t k =
    after (process_round-Advances t.buffer future left k.well_formed k.ready k.framed)
  where
    after :
        Advances t.buffer future left
        → (left' : List Packet) × Tracks ps left' future (step t round)
          × (future ≡ [] → left' ≡ rest_of left)
    after (idle empty e) = (
      left,
      rw (step_round t waits k.alive e) (unfold after_round in k),
      λ none_left.
          let over = nothing_left t.buffer future left k.well_formed k.framed empty none_left in
          over ∙ sym (ap rest_of over),
    )
    after (keeps b' e r f more) = (
      left,
      rw (step_round t (continues b' none) k.alive e) (
          unfold after_round in
          record {
            alive = k.alive;
            ready = r;
            well_formed = k.well_formed;
            in_order = rw (append-nil t.delivered) k.in_order;
            framed = f;
          }),
      λ none_left. absurd (more none_left),
    )
    after (delivers b' p rest at e r off f) = (
      rest,
      rw (step_round t (continues b' (some p)) k.alive e) (
          unfold after_round in
          record {
            alive = k.alive;
            ready = r;
            well_formed = (subst (All IsTcp) at k.well_formed).1;
            in_order = append_assoc t.delivered (p ∷ []) rest ∙ rw at at k.in_order;
            framed = inl (off, f);
          }),
      λ _. sym (ap rest_of at),
    )

-- Nothing happens to a run that has ended.
pub step_dead : (t : Thread) (e : Event) → t.terminated ≡ true → step t e ≡ t
unfolding step
step_dead t (received bytes) dead = rw dead
step_dead t round dead = rw dead
