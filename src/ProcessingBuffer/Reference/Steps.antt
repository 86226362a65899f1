-- ===== src/ProcessingBuffer/Reference/Steps.antt =====
-- A round of ProcessingBuffer.cpp beside the reference decoder.
use parlo_plus_plus.Common.{
  ℕ, ◌-◌, ◌^◌, ◌≤◌, ◌<◌, ◌≡◌, ◌≢◌, refl, sym, ap, ◌∙◌, ◌⊎◌, inl, inr, Bool, true, false, List, [],
  ◌∷◌, ◌++◌, none, some, if◌then◌else◌, leb, leb_false→lt, ltb, ◌==◌, length, length-append,
  length-drop, drop, take-append_short, drop-append_short, List-cases, Bool-cases, arith,
}
use parlo_plus_plus.Packet.{Packet}
use parlo_plus_plus.ProcessingBuffer.{
  Buffer, Round, stops, waits, continues, terminates, read_header, read_header_from, process_body,
  process_round,
}
use parlo_plus_plus.ProcessingBuffer.Framing.{IsReady}
use parlo_plus_plus.ProcessingBuffer.Rounds.{
  process_round-read_header, process_round-process_body, process_round_waits, process_body_unread,
}
use parlo_plus_plus.ProcessingBuffer.Reference.{
  decode_body, reference, reference_short, reference_header, decode_body_stuck, decode_body_empty,
  decode_body_missing, decode_body_whole,
}
use parlo_plus_plus.ProcessingBuffer.Reference.Bodies.{
  process_body_stuck, process_body_empty, process_body_missing, process_body-taken,
}

-- What the reference makes of the bytes in the buffer and those to come, behind the header if one has
-- been read.
abbrev pub expect : Buffer → List ℕ → List Packet × Bool
expect b future =
    if b.has_read_header
    then decode_body b.current_id b.is_compressed b.current_length (b.internal_buffer ++ future)
        (reference (drop (b.current_length - 4) (b.internal_buffer ++ future)))
    else reference (b.internal_buffer ++ future)

-- A buffer between two rounds.
pub record IsSteady (b : Buffer) : Type 0 where
  pub ready : IsReady b
  pub word : b.current_length < 65536
  pub bounded : length b.internal_buffer < 2 ^ 64 - 4
  pub some_body : b.has_read_header ≡ true → b.current_length ≢ 4

-- What a round does to what is expected: a packet that is handed over is the first that was, and the
-- process ends where it was to. With nothing to come, a round that hands nothing over takes bytes off
-- the queue or leaves nothing to expect.
abbrev pub Agrees : Buffer → List ℕ → Round → Type 0
Agrees b future stops = ⊥
Agrees b future waits = future ≡ [] → expect b future ≡ ([], false)
Agrees b future (continues b' none) =
    IsSteady b'
    × (expect b' future ≡ expect b future)
    × (length b'.internal_buffer ≤ length b.internal_buffer)
    × (future ≡ []
        → (expect b future ≡ ([], false)) ⊎ (length b'.internal_buffer < length b.internal_buffer))
Agrees b future (continues b' (some p)) =
    IsSteady b'
    × (expect b future ≡ (p ∷ (expect b' future).0, (expect b' future).1))
    × (length b'.internal_buffer < length b.internal_buffer)
Agrees b future (terminates e) = expect b future ≡ ([], true)

-- A buffer whose header has been read, in this round or before: the body's length may be 4 here.
pub record HasRead (b : Buffer) : Type 0 where
  pub ready : IsReady b
  pub word : b.current_length < 65536
  pub bounded : length b.internal_buffer < 2 ^ 64 - 4
  pub has : b.has_read_header ≡ true

module _ (b : Buffer) (future : List ℕ) (k : HasRead b) where
  expect_read :
      expect b future
      ≡ decode_body b.current_id b.is_compressed b.current_length
          (b.internal_buffer ++ future)
          (reference (drop (b.current_length - 4) (b.internal_buffer ++ future)))
  expect_read = rw k.has refl

  steady : b.current_length ≢ 4 → IsSteady b
  steady ne = record { ready = k.ready; word = k.word; bounded = k.bounded; some_body = λ _. ne }

  read_stuck : b.current_length < 4 → Agrees b future (process_body b)
  read_stuck h = rw (process_body_stuck b k.has h k.bounded) (
    steady (λ e. omega (arith, e)),
    refl,
    omega arith,
    λ _. inl (expect_read ∙ decode_body_stuck _ _ _ _ _ h),
  )

  read_empty : b.current_length ≡ 4 → Agrees b future (process_body b)
  read_empty e = rw (process_body_empty b k.has e) (expect_read ∙ decode_body_empty _ _ _ _ _ e)

  read_missing :
      4 < b.current_length
      → length b.internal_buffer < b.current_length - 4
      → Agrees b future (process_body b)
  read_missing h l = rw (process_body_missing b k.has h k.word l) (
    steady (λ e. omega (arith, e)),
    refl,
    omega arith,
    λ none_left. inl (
        expect_read
        ∙ decode_body_missing _ _ _ _ _ h
            (omega (arith, length-append b.internal_buffer future, ap length none_left))),
  )

  read_whole :
      4 < b.current_length
      → b.current_length - 4 ≤ length b.internal_buffer
      → Agrees b future (process_body b)
  read_whole h l =
      let size = length-drop (b.current_length - 4) b.internal_buffer in
      let front = take-append_short (b.current_length - 4) b.internal_buffer future l in
      let back = drop-append_short (b.current_length - 4) b.internal_buffer future l in
      rw (process_body-taken b k.has k.ready h k.word l) (
        record {
          ready = record { running = k.ready.running; handled = k.ready.handled };
          word = k.word;
          bounded = omega (arith, size, k.bounded);
          some_body = λ e. cc (e);
        },
        expect_read
            ∙ decode_body_whole _ _ _ _ _ h (omega (arith, length-append b.internal_buffer future))
            ∙ rw (front, back) refl,
        omega (arith, size),
      )

  pub read_Agrees : Agrees b future (process_body b)
  read_Agrees = elim (Bool-cases (ltb b.current_length 4)) [
    | inl short ↦ read_stuck (ground arith)
    | inr long ↦ elim (Bool-cases (b.current_length == 4)) [
      | inl four ↦ read_empty (ground arith)
      | inr more ↦ elim (Bool-cases (leb (b.current_length - 4) (length b.internal_buffer))) [
        | inl there ↦ read_whole (ground arith) (ground arith)
        | inr missing ↦ read_missing (ground arith) (ground arith)
      ]
    ]
  ]

read_expect :
    (q : List ℕ) (b : Buffer) (future : List ℕ)
    → 4 ≤ length q
    → expect (read_header_from q b) future ≡ reference (q ++ future)
unfolding read_header_from
read_expect (id ∷ compressed ∷ low ∷ high ∷ rest) b future h =
    sym (reference_header id compressed low high (rest ++ future))
read_expect [] b future h = absurd (omega arith)
read_expect (_ ∷ []) b future h = absurd (omega arith)
read_expect (_ ∷ _ ∷ []) b future h = absurd (omega arith)
read_expect (_ ∷ _ ∷ _ ∷ []) b future h = absurd (omega arith)

read_HasRead :
    (q : List ℕ) (b : Buffer)
    → 4 ≤ length q
    → length q < 2 ^ 64 - 4
    → IsReady b
    → HasRead (read_header_from q b) × (length (read_header_from q b).internal_buffer < length q)
unfolding read_header_from
read_HasRead (id ∷ compressed ∷ low ∷ high ∷ rest) b h k r = (
  record {
    ready = record { running = r.running; handled = r.handled };
    word = omega arith;
    bounded = omega arith;
    has = refl;
  },
  omega arith,
)
read_HasRead [] b h k r = absurd (omega arith)
read_HasRead (_ ∷ []) b h k r = absurd (omega arith)
read_HasRead (_ ∷ _ ∷ []) b h k r = absurd (omega arith)
read_HasRead (_ ∷ _ ∷ _ ∷ []) b h k r = absurd (omega arith)

-- A round that begins by reading a header.
Agrees-read :
    (b b' : Buffer) (future : List ℕ) (r : Round)
    → expect b' future ≡ expect b future
    → length b'.internal_buffer < length b.internal_buffer
    → Agrees b' future r
    → Agrees b future r
Agrees-read b b' future stops e h a = a
Agrees-read b b' future waits e h a = λ none_left. sym e ∙ a none_left
Agrees-read b b' future (terminates x) e h a = sym e ∙ a
Agrees-read b b' future (continues c (some p)) e h (s, same, less) = (s, sym e ∙ same, omega arith)
Agrees-read b b' future (continues c none) e h (s, same, fewer, more) = (
  s,
  same ∙ e,
  omega arith,
  λ none_left. elim (more none_left) [
    | inl over ↦ inl (sym e ∙ over)
    | inr less ↦ inr (omega arith)
  ],
)

-- With an empty queue and nothing to come, nothing is expected.
pub expect_nothing : (b : Buffer) → IsSteady b → b.internal_buffer ≡ [] → expect b [] ≡ ([], false)
expect_nothing b k empty = elim (Bool-cases b.has_read_header) [
  | inr off ↦ rw (off, empty) (reference_short [] (omega arith))
  | inl has ↦ elim (Bool-cases (ltb b.current_length 4)) [
    | inl short ↦ rw (has, empty) (decode_body_stuck _ _ _ _ _ (ground arith))
    | inr long ↦
        let ne = k.some_body has in
        rw (has, empty) (decode_body_missing _ _ _ _ _ (ground arith) (ground arith))
  ]
]

unread_Agrees :
    (b : Buffer) (future : List ℕ)
    → IsSteady b
    → 0 < length b.internal_buffer
    → b.has_read_header ≡ false
    → Agrees b future (process_round b)
unread_Agrees b future k some_bytes off = elim (Bool-cases (leb 4 (length b.internal_buffer))) [
  | inl there ↦
      let (read, less) = read_HasRead b.internal_buffer b (ground arith) k.bounded k.ready in
      let same : expect (read_header_from b.internal_buffer b) future ≡ expect b future =
        read_expect b.internal_buffer b future (ground arith) ∙ rw off refl in
      rw (process_round-read_header b k.ready off (ground arith)) (
        Agrees-read b (read_header_from b.internal_buffer b) future _ same less
          (unfold read_header in read_Agrees (read_header_from b.internal_buffer b) future read))
  | inr short ↦
      rw
        (process_round-process_body b k.ready some_bytes (ground arith) ∙ process_body_unread b off)
        (
          k,
          refl,
          omega arith,
          λ none_left. inl (
              rw off (
                reference_short (b.internal_buffer ++ future) (
                  omega (
                    arith,
                    length-append b.internal_buffer future,
                    ap length none_left,
                    (leb_false→lt 4 (length b.internal_buffer) short),
                  )))),
        )
]

-- Every round of a buffer agrees with the reference.
pub process_round-Agrees :
    (b : Buffer) (future : List ℕ) → IsSteady b → Agrees b future (process_round b)
process_round-Agrees b future k = elim (List-cases b.internal_buffer) [
  | inl empty ↦
      rw (process_round_waits b k.ready empty)
        (λ none_left. rw none_left (expect_nothing b k empty))
  | inr some_bytes ↦ elim (Bool-cases b.has_read_header) [
    | inr off ↦ unread_Agrees b future k some_bytes off
    | inl has ↦ rw (process_round-process_body b k.ready some_bytes (ground arith)) (
        read_Agrees b future
          (record { ready = k.ready; word = k.word; bounded = k.bounded; has = has }))
  ]
]
