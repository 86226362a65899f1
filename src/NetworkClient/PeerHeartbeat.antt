-- ===== src/NetworkClient/PeerHeartbeat.antt =====
-- A heartbeat as `sendHeartbeatAsync` makes it, at the client that receives it (NetworkClient.cpp).
use parlo_plus_plus.Common.{
  ◌≡◌, refl, sym, ap, ◌∙◌, inl, true, false, [], ◌∷◌, ◌++◌, append-nil, some, ok, runtime_error,
  length, arith,
}
use parlo_plus_plus.Common.Int.{ℤ}
use parlo_plus_plus.Packet.{Packet, tcp_packet, build_packet}
use parlo_plus_plus.Packet.Build.{tcp_packet_fields, length-build_tcp, tcp_packet-IsTcp, IsTcp}
use parlo_plus_plus.ProcessingBuffer.{Buffer, continues, process_round}
use parlo_plus_plus.ProcessingBuffer.Framing.{wire, IsReady, Advances, idle, keeps, delivers}
use parlo_plus_plus.ProcessingBuffer.Rounds.{process_round-Advances}
use parlo_plus_plus.HeartbeatPacket.{HeartbeatPacket, heartbeat_bytes, heartbeat_of_bytes}
use parlo_plus_plus.HeartbeatPacket.RoundTrip.{
  heartbeat_of_bytes-heartbeat_bytes, length-heartbeat_bytes,
}
use parlo_plus_plus.NetworkClient.{Platform, Client, Exit, raises, terminated}
use parlo_plus_plus.NetworkClient.Receiving.{
  take_heartbeat, on_heartbeat, on_packet, in_thread, client_round,
}

-- A heartbeat as the sender makes it is refused by the receiver's reader, and the handler throws.
on_packet-heartbeat_bytes :
    (pf : Platform) (now : ℤ) (p : Packet) (c : Client) (h : HeartbeatPacket)
    → p.id ≡ 0xfd
    → p.payload ≡ heartbeat_bytes pf.ticks_per_ms h
    → on_packet pf now p c
      ≡ (record c { is_alive = true; missed_heartbeats = 0 }, raises runtime_error)
unfolding on_packet on_heartbeat
on_packet-heartbeat_bytes pf now p c h e same =
    let refused = heartbeat_of_bytes-heartbeat_bytes pf.ticks_per_ms h in
    let dispatched : on_packet pf now p c ≡ on_heartbeat pf now p c = ground arith in
    dispatched
    ∙ ap (λ r. take_heartbeat pf now r (record c { is_alive = true; missed_heartbeats = 0 }))
        (ap (heartbeat_of_bytes pf.ticks_per_ms) same ∙ refused)
    ∙ unfold take_heartbeat in refl

pub client_round-delivers :
    (pf : Platform) (now : ℤ) (c : Client) (b : Buffer) (p : Packet)
    → process_round c.buffer ≡ continues b (some p)
    → client_round pf now c ≡ in_thread (on_packet pf now p (record c { buffer = b }))
unfolding client_round
client_round-delivers pf now c b p e = rw e

-- Whatever heartbeat the library sends to itself ends the receiving process: where a buffer that is
-- running, has a handler and stands before a header holds the bytes of the heartbeat's packet, the
-- next round of the client's processing thread ends in `std::terminate`.
pub client_round-heartbeat :
    (pf : Platform) (now : ℤ) (c : Client) (h : HeartbeatPacket) (p : Packet)
    → tcp_packet 0xfd (heartbeat_bytes pf.ticks_per_ms h) false ≡ ok p
    → IsReady c.buffer
    → c.buffer.has_read_header ≡ false
    → c.buffer.internal_buffer ≡ build_packet p
    → (client_round pf now c).1 ≡ terminated
unfolding wire in_thread
client_round-heartbeat pf now c h p made ready off bytes =
    after (process_round-Advances c.buffer [] (p ∷ []) (v, tt) ready (inl (off, framed)))
  where
    fields : (p.id ≡ 0xfd) × (p.payload ≡ heartbeat_bytes pf.ticks_per_ms h) × (p.is_compressed ≡ 0)
    fields = tcp_packet_fields 0xfd (heartbeat_bytes pf.ticks_per_ms h) false p made

    v : IsTcp p
    v =
        tcp_packet-IsTcp 0xfd (heartbeat_bytes pf.ticks_per_ms h) false p
          (omega (arith, length-heartbeat_bytes pf.ticks_per_ms h)) made

    framed : c.buffer.internal_buffer ++ [] ≡ wire (p ∷ [])
    framed = append-nil c.buffer.internal_buffer ∙ bytes ∙ sym (append-nil (build_packet p))

    after : Advances c.buffer [] (p ∷ []) → (client_round pf now c).1 ≡ terminated
    after (idle empty e) =
        absurd (omega (arith, length-build_tcp p v.tcp, ap length (sym bytes ∙ empty)))
    after (keeps b e r f more) = absurd (more refl)
    after (delivers b p' rest at e r off' f) =
        let same : p' ≡ p = cc in
        let done : process_round c.buffer ≡ continues b (some p) = rw (← same) e in
        ap (λ (r : Client × Exit). r.1)
          (client_round-delivers pf now c b p done
            ∙ ap in_thread
                (on_packet-heartbeat_bytes pf now p (record c { buffer = b }) h fields.0 fields.1))
