-- ===== src/NetworkClient/Heartbeats.antt =====
-- The two heartbeat threads of NetworkClient.cpp: `sendHeartbeatAsync` and
-- `checkForMissedHeartbeats`.
use parlo_plus_plus.Common.{
  ℕ, ◌+◌, ◌≡◌, refl, ap, ◌∙◌, inl, inr, true, false, List, [], ◌∷◌, ◌++◌, Result, ok, throws,
  if◌then◌else◌, ltb, length, arith,
}
use parlo_plus_plus.Common.Int.{ℤ, ◌-ℤ◌, ltb_ℤ, to_coarse}
use parlo_plus_plus.Packet.{Packet, tcp_packet, build_packet}
use parlo_plus_plus.Packet.Build.{
  tcp_packet_fields, tcp_packet-IsTcp, tcp_packet_total, length-build_tcp,
}
use parlo_plus_plus.HeartbeatPacket.RoundTrip.{length-heartbeat_bytes}
use parlo_plus_plus.HeartbeatPacket.{HeartbeatPacket, heartbeat_packet, heartbeat_bytes}
use parlo_plus_plus.NetworkClient.{
  Platform, Client, Exit, returns, heartbeat_id, max_missed_heartbeats, lose_connection,
}
use parlo_plus_plus.NetworkClient.Sending.{send_async, send_async_small}

-- The four readings of the clock in one round: for the test, for the difference, by the packet's
-- constructor, and for the record of the last sending.
pub record Readings : Type 0 where
  pub tested : ℤ
  pub subtracted : ℤ
  pub stamped : ℤ
  pub recorded : ℤ

-- The heartbeat of a round: the time since the last one, whichever way the clock has gone.
unfoldable pub next_heartbeat : Platform → Readings → ℤ → HeartbeatPacket
unfolding heartbeat_packet
next_heartbeat pf t last = heartbeat_packet t.stamped (
    if ltb_ℤ last t.tested
    then to_coarse pf.ticks_per_ms (t.subtracted -ℤ last)
    else to_coarse pf.ticks_per_ms (last -ℤ t.subtracted))

-- The `try` block catches every `std::exception`: what is left of a failed sending is the record.
unfoldable pub caught : Client × Exit → Client
caught (c, exit) = c

unfoldable pub send_pulse : Platform → Result Packet → Client → Client
send_pulse pf (ok p) c = caught (send_async pf (build_packet p) c)
send_pulse pf (throws e) c = c

-- One round of `sendHeartbeatAsync`; the loop ends when it is told to stop.
unfoldable pub send_heartbeat : Platform → Readings → Client → Client
send_heartbeat pf t c =
    if c.stop_sending_heartbeats
    then c
    else send_pulse pf
        (tcp_packet heartbeat_id
          (heartbeat_bytes pf.ticks_per_ms (next_heartbeat pf t c.last_heartbeat_sent)) false)
        (record c { last_heartbeat_sent = t.recorded })

-- One round of `checkForMissedHeartbeats` as one step: the test of the loop, the sleep, the count.
unfoldable pub check_heartbeats : Client → Client × Exit
check_heartbeats c =
    let counted = record c { missed_heartbeats = c.missed_heartbeats + 1 } in
    if c.stop_check_missed_heartbeats
    then (c, returns)
    else if ltb max_missed_heartbeats (c.missed_heartbeats + 1)
    then lose_connection (record counted { is_alive = false })
    else (counted, returns)

length-heartbeat_packet :
    (pf : Platform) (h : HeartbeatPacket) (p : Packet)
    → tcp_packet heartbeat_id (heartbeat_bytes pf.ticks_per_ms h) false ≡ ok p
    → length (build_packet p) ≡ 20
length-heartbeat_packet pf h p made =
    let v =
      tcp_packet-IsTcp heartbeat_id (heartbeat_bytes pf.ticks_per_ms h) false p
        (omega (arith, length-heartbeat_bytes pf.ticks_per_ms h)) made in
    let (_, same, _) =
      tcp_packet_fields heartbeat_id (heartbeat_bytes pf.ticks_per_ms h) false p made in
    omega
      (arith, length-build_tcp p v.tcp, ap length same, length-heartbeat_bytes pf.ticks_per_ms h)

send_heartbeat_running :
    (pf : Platform) (t : Readings) (c : Client)
    → c.stop_sending_heartbeats ≡ false
    → send_heartbeat pf t c
      ≡ send_pulse pf
          (tcp_packet heartbeat_id
            (heartbeat_bytes pf.ticks_per_ms (next_heartbeat pf t c.last_heartbeat_sent))
            false)
          (record c { last_heartbeat_sent = t.recorded })
unfolding send_heartbeat
send_heartbeat_running pf t c on = ground arith

-- Where the sending thread has not been told to stop, the client is connected and a `shared_ptr` owns
-- its `Impl`, each round writes the 20 bytes of one packet with the heartbeat's ID, never compressed,
-- and records the time; nothing else changes.
pub send_heartbeat_writes :
    (pf : Platform) (t : Readings) (c : Client)
    → c.stop_sending_heartbeats ≡ false
    → c.connected ≡ true
    → c.impl_shared ≡ true
    → (p : Packet) × (tcp_packet heartbeat_id
          (heartbeat_bytes pf.ticks_per_ms (next_heartbeat pf t c.last_heartbeat_sent))
          false
        ≡ ok p)
      × (length (build_packet p) ≡ 20)
      × (send_heartbeat pf t c ≡ record c {
        last_heartbeat_sent = t.recorded;
        written = c.written ++ (build_packet p ∷ []);
      })
send_heartbeat_writes pf t c on connected shared =
    elim (tcp_packet_total heartbeat_id bytes false) [
      | inl (empty, _) ↦
          absurd (omega (arith, ap length empty, length-heartbeat_bytes pf.ticks_per_ms h))
      | inr (p, made, _, _) ↦
          let size = length-heartbeat_packet pf h p made in
          let sent =
            send_async_small pf (build_packet p) (record c { last_heartbeat_sent = t.recorded })
              (omega (arith, size)) (omega (arith, size)) connected shared in
          (p, made, size, pulsed p made ∙ ap caught sent ∙ unfold caught in refl)
    ]
  where
    h : HeartbeatPacket
    h = next_heartbeat pf t c.last_heartbeat_sent

    bytes : List ℕ
    bytes = heartbeat_bytes pf.ticks_per_ms h

    pulsed :
        (p : Packet)
        → tcp_packet heartbeat_id bytes false ≡ ok p
        → send_heartbeat pf t c
          ≡ caught (send_async pf (build_packet p) (record c { last_heartbeat_sent = t.recorded }))
    pulsed p made =
        send_heartbeat_running pf t c on
        ∙ ap (λ r. send_pulse pf r (record c { last_heartbeat_sent = t.recorded })) made
        ∙ unfold send_pulse in refl
