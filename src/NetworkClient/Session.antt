-- ===== src/NetworkClient/Session.antt =====
-- A client of NetworkClient.cpp, made by the constructor without a listener, whose processing buffer is
-- given bytes while its processing thread makes rounds, in any order.
pub mod Alive
pub mod Deliveries
use parlo_plus_plus.Common.{
  ℕ, zero, suc, ◌+◌, ◌≤◌, ◌<◌, ◌≡◌, ◌≢◌, refl, sym, subst, ap, ◌∙◌, ◌⊎◌, inl, inr, Bool, true,
  false, List, [], ◌∷◌, ◌++◌, map, append-nil, append_assoc, Option, none, some, ok, length, All,
  Bool-cases, arith,
}
use parlo_plus_plus.Common.Int.{ℤ}
use parlo_plus_plus.Packet.{Packet, tcp_packet, standard}
use parlo_plus_plus.Packet.Build.{IsTcp}
use parlo_plus_plus.ProcessingBuffer.{
  Buffer, Event, received, round, Round, stops, waits, continues, terminates, Thread, step, run,
  start, listed, after_round, process_round, add_data,
}
use parlo_plus_plus.ProcessingBuffer.Framing.{wire}
use parlo_plus_plus.ProcessingBuffer.Tracking.{
  arrived, FitsChunks, rounds, step_received, step_round,
}
use parlo_plus_plus.ProcessingBuffer.Stream.{run-IsComplete}
use parlo_plus_plus.NetworkClient.{
  Platform, Client, Exit, returns, raises, undefined, terminated, received_data, absorb,
}
use parlo_plus_plus.NetworkClient.Receiving.{on_packet, plain_round}
use parlo_plus_plus.NetworkClient.Reading.{on_read-some}
use parlo_plus_plus.NetworkClient.Delivery.{IsUsers, Listens, on_packet-data}

-- Bytes are given to the buffer as `receiveAsync` gives them, by `addData` with an overflow caught.
unfoldable pub handle : Platform → ℤ → Event → Client → Client × Exit
unfolding absorb add_data plain_round
handle pf now (received bytes) c = (absorb c (add_data bytes c.buffer), returns)
handle pf now round c = plain_round pf now c

unfoldable pub go_on : Platform → ℤ → Event → Client × Exit → Client × Exit
unfolding handle
go_on pf now e (c, returns) = handle pf now e c
go_on pf now e (c, raises x) = (c, raises x)
go_on pf now e (c, undefined) = (c, undefined)
go_on pf now e (c, terminated) = (c, terminated)

-- It ends with the first event that does not return.
unfoldable pub session : Platform → ℤ → List Event → Client × Exit → Client × Exit
session pf now [] r = r
session pf now (e ∷ es) r = session pf now es (go_on pf now e r)

-- A packet of data that is not compressed.
pub record IsPlain (p : Packet) : Type 0 where
  pub tcp : IsTcp p
  pub users : IsUsers p
  pub plain : p.is_compressed ≡ 0
