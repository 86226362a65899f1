-- ===== src/ProcessingBuffer/Rounds.antt =====
-- What a round of ProcessingBuffer.cpp comes to in a stream of well-formed packets.
use parlo_plus_plus.Common.{
  ℕ, ◌≤◌, ◌<◌, ◌≡◌, ◌≢◌, refl, ap, ◌∙◌, inl, inr, false, List, [], ◌∷◌, ◌++◌, none, some, leb,
  leb_false→lt, leb→le, length, All, arith, Bool-cases, List-cases, subst, length-append,
}
use parlo_plus_plus.Packet.{Packet, build_packet}
use parlo_plus_plus.Packet.Build.{IsTcp, length-build_tcp}
use parlo_plus_plus.ProcessingBuffer.{
  Buffer, waits, continues, read_header, read_header_from, process_body, process_round, header_due,
}
use parlo_plus_plus.ProcessingBuffer.Framing.{
  wire, IsReady, HasHeader, IsFramed, header-HasHeader, process_body_whole, process_body_partial,
  Advances, idle, keeps, delivers,
}

body_Advances :
    (b b' : Buffer) (future : List ℕ) (left : List Packet) (p : Packet) (rest : List Packet)
    → process_round b ≡ process_body b'
    → left ≡ p ∷ rest
    → IsTcp p
    → IsReady b'
    → HasHeader p b'
    → b'.internal_buffer ++ future ≡ p.payload ++ wire rest
    → Advances b future left
body_Advances b b' future left p rest same at v r k e =
    elim (Bool-cases (leb (length p.payload) (length b'.internal_buffer))) [
      | inl there ↦ whole (process_body_whole b' future p rest v r k e (ground arith))
      | inr missing ↦
          keeps b' (same ∙ process_body_partial b' p v k (ground arith)) r (inr (p, rest, at, k, e))
            (more missing)
    ]
  where
    whole :
        (b'' : Buffer) × (process_body b' ≡ continues b'' (some p))
          × IsReady b''
          × (b''.has_read_header ≡ false)
          × (b''.internal_buffer ++ future ≡ wire rest)
        → Advances b future left
    whole (b'', made, r'', off, e'') = delivers b'' p rest at (same ∙ made) r'' off e''

    more : leb (length p.payload) (length b'.internal_buffer) ≡ false → future ≢ []
    more missing none_left = omega (
      arith,
      leb_false→lt (length p.payload) (length b'.internal_buffer) missing,
      ap length e,
      ap length none_left,
      length-append b'.internal_buffer future,
      length-append p.payload (wire rest),
    )

pub process_round-read_header :
    (b : Buffer)
    → IsReady b
    → b.has_read_header ≡ false
    → 4 ≤ length b.internal_buffer
    → process_round b ≡ process_body (read_header b)
unfolding process_round
process_round-read_header b r off h = ground arith

pub process_round-process_body :
    (b : Buffer)
    → IsReady b
    → 0 < length b.internal_buffer
    → header_due b ≡ false
    → process_round b ≡ process_body b
unfolding process_round
process_round-process_body b r h off = ground arith

pub process_round_waits :
    (b : Buffer) → IsReady b → b.internal_buffer ≡ [] → process_round b ≡ waits
unfolding process_round
process_round_waits b r e = ground arith

read_header_from-IsReady : (q : List ℕ) (b : Buffer) → IsReady b → IsReady (read_header_from q b)
unfolding read_header_from
read_header_from-IsReady (id ∷ c ∷ low ∷ high ∷ rest) b r = ground arith
read_header_from-IsReady [] b r = r
read_header_from-IsReady (_ ∷ []) b r = r
read_header_from-IsReady (_ ∷ _ ∷ []) b r = r
read_header_from-IsReady (_ ∷ _ ∷ _ ∷ []) b r = r

pub process_body_unread :
    (b : Buffer) → b.has_read_header ≡ false → process_body b ≡ continues b none
unfolding process_body
process_body_unread b off = ground arith

pub length-wire : (p : Packet) (ps : List Packet) → IsTcp p → 4 < length (wire (p ∷ ps))
unfolding wire
length-wire p ps v =
    omega (arith, length-append (build_packet p) (wire ps), length-build_tcp p v.tcp, v.some_data)

-- Before a header.
unread_Advances :
    (b : Buffer) (future : List ℕ) (left : List Packet)
    → All IsTcp left
    → IsReady b
    → 0 < length b.internal_buffer
    → b.has_read_header ≡ false
    → b.internal_buffer ++ future ≡ wire left
    → Advances b future left
unfolding wire
unread_Advances b future [] v r h off e =
    absurd (omega (arith, ap length e, length-append b.internal_buffer future))
unread_Advances b future (p ∷ rest) v r h off e =
    elim (Bool-cases (leb 4 (length b.internal_buffer))) [
      | inl there ↦
          let four = leb→le 4 (length b.internal_buffer) there in
          let read = header-HasHeader b.internal_buffer b future p rest v.0 four e in
          body_Advances b (read_header b) future (p ∷ rest) p rest
            (process_round-read_header b r off four) refl v.0
            (unfold read_header in read_header_from-IsReady b.internal_buffer b r)
            (unfold read_header in read.0) (unfold read_header in read.1)
      | inr short ↦
          keeps b (process_round-process_body b r h (ground arith) ∙ process_body_unread b off) r
            (inl (off, e)) (more short)
    ]
  where
    more : leb 4 (length b.internal_buffer) ≡ false → future ≢ []
    more short none_left = omega (
      arith,
      leb_false→lt 4 (length b.internal_buffer) short,
      ap length e,
      ap length none_left,
      length-append b.internal_buffer future,
      length-wire p rest v.0,
    )

-- A round in a framed buffer waits on an empty queue, keeps the frame while bytes are missing, or
-- hands over exactly the next packet that was sent.
pub process_round-Advances :
    (b : Buffer) (future : List ℕ) (left : List Packet)
    → All IsTcp left
    → IsReady b
    → IsFramed b future left
    → Advances b future left
process_round-Advances b future left v r f = elim (List-cases b.internal_buffer) [
  | inl empty ↦ idle empty (process_round_waits b r empty)
  | inr some_bytes ↦ moving some_bytes f
]
  where
    moving : 0 < length b.internal_buffer → IsFramed b future left → Advances b future left
    moving h (inl (off, e)) = unread_Advances b future left v r h off e
    moving h (inr (p, rest, at, k, e)) =
        body_Advances b b future left p rest (process_round-process_body b r h (ground arith)) at
          (subst (All IsTcp) at v).0 r k e
