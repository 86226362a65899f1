-- ===== src/ProcessingBuffer/Framing.antt =====
-- How one round of ProcessingBuffer.cpp cuts the byte stream of well-formed packets.
use parlo_plus_plus.Common.{
  ℕ, ◌≤◌, ◌<◌, ◌≡◌, ◌≢◌, refl, ◌⊎◌, true, false, List, [], ◌∷◌, ◌++◌, none, some, ok, length, take,
  drop, arith,
}
use parlo_plus_plus.Packet.{Packet, flag, tcp_packet, build_packet}
use parlo_plus_plus.Packet.Build.{joined-bytes, IsTcp, build_packet-tcp}
use parlo_plus_plus.ProcessingBuffer.{
  Buffer, waits, continues, read_header_from, body_size, process_body, process_round,
}

-- The bytes of packets sent one after the other.
unfoldable pub wire : List Packet → List ℕ
wire [] = []
wire (p ∷ ps) = build_packet p ++ wire ps

-- A buffer that can hand packets over.
pub record IsReady (b : Buffer) : Type 0 where
  pub running : b.stop_processing ≡ false
  pub handled : b.has_handler ≡ true

-- The buffer has read the header of `p`, and not yet its data.
pub record HasHeader (p : Packet) (b : Buffer) : Type 0 where
  pub read : b.has_read_header ≡ true
  pub same_id : b.current_id ≡ p.id
  pub same_flag : flag b.is_compressed ≡ p.is_compressed
  pub same_length : b.current_length ≡ p.length

-- Behind the front of the queue stands either a header or the data of the packet at hand; `future`
-- is what has not arrived yet, and `left` what is still to be handed over.
abbrev pub IsFramed : Buffer → List ℕ → List Packet → Type 0
IsFramed b future left =
    ((b.has_read_header ≡ false) × (b.internal_buffer ++ future ≡ wire left))
    ⊎ ((p : Packet) × (rest : List Packet) × (left ≡ p ∷ rest)
        × HasHeader p b
        × (b.internal_buffer ++ future ≡ p.payload ++ wire rest))

split-append {ℓ} :
    {A : Type ℓ} (xs f ys w : List A)
    → xs ++ f ≡ ys ++ w
    → length ys ≤ length xs
    → (take (length ys) xs ≡ ys) × (drop (length ys) xs ++ f ≡ w)
split-append xs f [] w e h = (refl, e)
split-append [] f (y ∷ ys) w e h = absurd (omega arith)
split-append (x ∷ xs) f (y ∷ ys) w e h = ground (arith, split-append xs f ys w)

-- The header of the next packet, read where four bytes are there.
pub header-HasHeader :
    (q : List ℕ) (b : Buffer) (future : List ℕ) (p : Packet) (ps : List Packet)
    → IsTcp p
    → 4 ≤ length q
    → q ++ future ≡ build_packet p ++ wire ps
    → HasHeader p (read_header_from q b)
      × ((read_header_from q b).internal_buffer ++ future ≡ p.payload ++ wire ps)
unfolding read_header_from
header-HasHeader (id ∷ c ∷ low ∷ high ∷ rest) b future p ps v h e =
    let e' = rw (build_packet-tcp p v.tcp) at e in ground (arith, e', joined-bytes p.length v.fits)
header-HasHeader [] b future p ps v h e = absurd (omega arith)
header-HasHeader (_ ∷ []) b future p ps v h e = absurd (omega arith)
header-HasHeader (_ ∷ _ ∷ []) b future p ps v h e = absurd (omega arith)
header-HasHeader (_ ∷ _ ∷ _ ∷ []) b future p ps v h e = absurd (omega arith)

body_size-payload :
    (b : Buffer) (p : Packet) → IsTcp p → HasHeader p b → body_size b ≡ length p.payload
unfolding body_size
body_size-payload b p v k = omega (arith, v.counted, v.fits, k.same_length)

-- The packet that the buffer makes of a header and its data is the packet that was sent.
tcp_packet-HasHeader :
    (b : Buffer) (p : Packet)
    → IsTcp p
    → HasHeader p b
    → tcp_packet b.current_id p.payload b.is_compressed ≡ ok p
unfolding tcp_packet
tcp_packet-HasHeader b p v k = ground arith

-- With the data of the packet in the buffer the packet is handed over, and the buffer stands before
-- the next header.
pub process_body_whole :
    (b : Buffer) (future : List ℕ) (p : Packet) (ps : List Packet)
    → IsTcp p
    → IsReady b
    → HasHeader p b
    → b.internal_buffer ++ future ≡ p.payload ++ wire ps
    → length p.payload ≤ length b.internal_buffer
    → (b' : Buffer) × (process_body b ≡ continues b' (some p))
      × IsReady b'
      × (b'.has_read_header ≡ false)
      × (b'.internal_buffer ++ future ≡ wire ps)
unfolding process_body
process_body_whole b future p ps v r k e h =
    let size = body_size-payload b p v k in
    let cut = split-append b.internal_buffer future p.payload (wire ps) e h in
    let made = tcp_packet-HasHeader b p v k in
    (
      record b { internal_buffer = drop (body_size b) b.internal_buffer; has_read_header = false },
      ground (arith, size, cut, made),
      ground arith,
      refl,
      rw size cut.1,
    )

-- Until the data is there nothing happens.
pub process_body_partial :
    (b : Buffer) (p : Packet)
    → IsTcp p
    → HasHeader p b
    → length b.internal_buffer < length p.payload
    → process_body b ≡ continues b none
unfolding process_body
process_body_partial b p v k h = ground (arith, body_size-payload b p v k)

-- What a round does to a framed buffer: it waits, keeps the frame, or hands over the next packet.
pub data Advances (b : Buffer) (future : List ℕ) (left : List Packet) : Type 0 where
  idle : b.internal_buffer ≡ [] → process_round b ≡ waits → Advances b future left
  keeps :
      (b' : Buffer)
      → process_round b ≡ continues b' none
      → IsReady b'
      → IsFramed b' future left
      → future ≢ []
      → Advances b future left
  delivers :
      (b' : Buffer) (p : Packet) (rest : List Packet)
      → left ≡ p ∷ rest
      → process_round b ≡ continues b' (some p)
      → IsReady b'
      → b'.has_read_header ≡ false
      → b'.internal_buffer ++ future ≡ wire rest
      → Advances b future left
