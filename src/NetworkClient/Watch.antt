-- ===== src/NetworkClient/Watch.antt =====
-- Checks and heartbeats of a client of NetworkClient.cpp, in any order. A heartbeat that the reader
-- takes has at least one byte more than those that the library writes.
pub mod Steps
pub mod Silence
use parlo_plus_plus.Common.{
  ℕ, ◌+◌, ◌≤◌, ◌<◌, ◌≡◌, refl, sym, ap, ◌∙◌, Bool, true, false, List, [], ◌∷◌, ◌++◌, append-nil,
  append_assoc, ok, if◌then◌else◌, ltb, leb, ◌==◌, length, All, Bool-cases, inl, inr, arith,
}
use parlo_plus_plus.Common.Int.{ℤ, to_fine}
use parlo_plus_plus.Common.Bytes.{load_int64}
use parlo_plus_plus.Packet.{Packet}
use parlo_plus_plus.HeartbeatPacket.{HeartbeatPacket, heartbeat_of_bytes}
use parlo_plus_plus.NetworkClient.{
  Platform, Client, Exit, returns, raises, undefined, terminated, Notice, connection_lost,
  received_heartbeat, notify_if, notify,
}
use parlo_plus_plus.NetworkClient.Receiving.{round_trip, take_heartbeat, on_heartbeat, on_packet}
use parlo_plus_plus.NetworkClient.Heartbeats.{check_heartbeats}
use parlo_plus_plus.NetworkClient.MissedHeartbeats.{IsWatched, check_below, check_above}

-- A round of `checkForMissedHeartbeats`, or a packet and the time at which it is handled.
pub data Pulse : Type 0 where
  silent : Pulse
  heard : ℤ → Packet → Pulse

unfoldable pub take_pulse : Platform → Pulse → Client × Exit → Client × Exit
unfolding check_heartbeats on_packet
take_pulse pf silent (c, returns) = check_heartbeats c
take_pulse pf (heard now p) (c, returns) = on_packet pf now p c
take_pulse pf e (c, raises x) = (c, raises x)
take_pulse pf e (c, undefined) = (c, undefined)
take_pulse pf e (c, terminated) = (c, terminated)

-- It ends with the first pulse that does not return.
unfoldable pub watch : Platform → List Pulse → Client × Exit → Client × Exit
unfolding take_pulse
watch pf [] r = r
watch pf (e ∷ es) r = watch pf es (take_pulse pf e r)

-- A heartbeat that the reader takes.
abbrev pub IsReadable : Pulse → Type 0
IsReadable silent = Unit {0}
IsReadable (heard now p) = (p.id ≡ 0xfd) × (17 ≤ length p.payload)

-- What the user is told, from a count of missed heartbeats on; `handled` says whether there is a
-- handler of heartbeats.
unfoldable pub news : Bool → ℕ → List Pulse → List Notice
news handled n [] = []
news handled n (silent ∷ es) =
    let rest = news handled (n + 1) es in if ltb n 6 then rest else connection_lost ∷ rest
news handled n (heard now p ∷ es) =
    let rest = news handled 0 es in if handled then received_heartbeat ∷ rest else rest

-- The count behind the pulses.
unfoldable pub missed_after : ℕ → List Pulse → ℕ
missed_after n [] = n
missed_after n (silent ∷ es) = missed_after (n + 1) es
missed_after n (heard now p ∷ es) = missed_after 0 es

-- A client that is watched and agrees with its count.
pub record IsCounted (c : Client) : Type 0 where
  pub watched : IsWatched c
  pub living : c.is_alive ≡ leb c.missed_heartbeats 6

-- The client behind pulses.
pub record Watched (c : Client) (es : List Pulse) (r : Client × Exit) : Type 0 where
  pub back : r.1 ≡ returns
  pub counting : IsCounted r.0
  pub counted : r.0.missed_heartbeats ≡ missed_after c.missed_heartbeats es
  pub told : r.0.notices ≡ c.notices ++ news c.on_received_heartbeat c.missed_heartbeats es
