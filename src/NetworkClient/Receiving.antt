-- ===== src/NetworkClient/Receiving.antt =====
-- The handler that both constructors of NetworkClient.cpp give to the processing buffer.
use parlo_plus_plus.Common.{
  ℕ, true, false, List, none, some, Result, ok, throws, if◌then◌else◌, ◌==◌,
}
use parlo_plus_plus.Common.Int.{ℤ, ◌+ℤ◌, ◌-ℤ◌, to_coarse, to_int32}
use parlo_plus_plus.Packet.{Packet, tcp_packet}
use parlo_plus_plus.ProcessingBuffer.{Round, stops, waits, continues, terminates, process_round}
use parlo_plus_plus.HeartbeatPacket.{HeartbeatPacket, heartbeat_of_bytes}
use parlo_plus_plus.Compression.{decompress_data}
use parlo_plus_plus.NetworkClient.{
  Platform, Client, Exit, returns, raises, terminated, undefined, server_disconnected,
  client_disconnected, received_heartbeat, received_data, notify_if, notify, heartbeat_id,
  sgoodbye_id, cgoodbye_id,
}

-- The round trip: the time since the packet was sent, in milliseconds, and the time that the packet
-- itself gives, as an `int`.
unfoldable pub round_trip : Platform → ℤ → HeartbeatPacket → ℤ
round_trip pf now h =
    to_int32 (to_coarse pf.ticks_per_ms (now -ℤ h.sent_timestamp) +ℤ h.time_since_last)

unfoldable pub take_heartbeat : Platform → ℤ → Result HeartbeatPacket → Client → Client × Exit
take_heartbeat pf now (throws e) c = (c, raises e)
take_heartbeat pf now (ok h) c =
    notify_if c.on_received_heartbeat received_heartbeat
      (record c { last_rtt = round_trip pf now h })

-- A heartbeat: the connection counts as alive before the packet is read.
unfoldable pub on_heartbeat : Platform → ℤ → Packet → Client → Client × Exit
on_heartbeat pf now p c =
    take_heartbeat pf now (heartbeat_of_bytes pf.ticks_per_ms p.payload)
      (record c { is_alive = true; missed_heartbeats = 0 })

-- The user is handed a new packet, marked as not compressed.
unfoldable pub hand_on : Result Packet → Client → Client × Exit
hand_on (ok p) c = notify (received_data p) c
hand_on (throws e) c = (c, raises e)

unfoldable pub forward : ℕ → Result (List ℕ) → Client → Client × Exit
forward id (throws e) c = (c, raises e)
forward id (ok bytes) c =
    if c.on_received_data then hand_on (tcp_packet id bytes false) c else (c, returns)

unfoldable pub on_data : Platform → Packet → Client → Client × Exit
on_data pf p c =
    if p.is_compressed == 0
    then forward p.id (ok p.payload) c
    else forward p.id (decompress_data pf.inflate p.payload) c

-- The handler of processed packets; `now` is the clock's reading.
unfoldable pub on_packet : Platform → ℤ → Packet → Client → Client × Exit
on_packet pf now p c =
    if p.id == sgoodbye_id
    then notify_if c.on_server_disconnected server_disconnected c
    else if p.id == cgoodbye_id
    then notify_if c.on_client_disconnected client_disconnected c
    else if p.id == heartbeat_id
    then on_heartbeat pf now p c
    else on_data pf p c

-- The handler that the constructor without a listener sets: only there is `owner` assigned.
unfoldable pub on_packet_owning : Platform → ℤ → Packet → Client → Client × Exit
unfolding on_packet
on_packet_owning pf now p c = on_packet pf now p (record c { has_owner = true })

-- One round of the client's processing thread. An exception of the handler leaves the thread's
-- function and ends the process.
unfoldable pub in_thread : Client × Exit → Client × Exit
in_thread (c, returns) = (c, returns)
in_thread (c, raises e) = (c, terminated)
in_thread (c, undefined) = (c, undefined)
in_thread (c, terminated) = (c, terminated)

unfoldable pub client_after : Platform → ℤ → Round → Client → Client × Exit
unfolding in_thread
client_after pf now stops c = (c, returns)
client_after pf now waits c = (c, returns)
client_after pf now (continues b none) c = (record c { buffer = b }, returns)
client_after pf now (continues b (some p)) c =
    in_thread (on_packet pf now p (record c { buffer = b }))
client_after pf now (terminates e) c = (c, terminated)

unfoldable pub client_round : Platform → ℤ → Client → Client × Exit
unfolding client_after
client_round pf now c = client_after pf now (process_round c.buffer) c

-- The same with the handler that the constructor without a listener sets.
unfoldable pub plain_after : Platform → ℤ → Round → Client → Client × Exit
unfolding in_thread
plain_after pf now stops c = (c, returns)
plain_after pf now waits c = (c, returns)
plain_after pf now (continues b none) c = (record c { buffer = b }, returns)
plain_after pf now (continues b (some p)) c =
    in_thread (on_packet_owning pf now p (record c { buffer = b }))
plain_after pf now (terminates e) c = (c, terminated)

unfoldable pub plain_round : Platform → ℤ → Client → Client × Exit
unfolding plain_after
plain_round pf now c = plain_after pf now (process_round c.buffer) c
