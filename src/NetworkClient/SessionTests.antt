-- ===== src/NetworkClient/SessionTests.antt =====
-- Runs of whole clients of NetworkClient.cpp.
use parlo_plus_plus.Common.{All, map, ◌≡◌, refl, true, false, List, [], ◌∷◌, ◌++◌, some, ok, arith}
use parlo_plus_plus.Common.Int.{pos}
use parlo_plus_plus.Packet.{Packet, tcp_packet, build_packet}
use parlo_plus_plus.ProcessingBuffer.{
  Event, received, round, start, set_on_packet_processed_handler,
}
use parlo_plus_plus.ProcessingBuffer.Framing.{wire}
use parlo_plus_plus.ProcessingBuffer.Tracking.{arrived, FitsChunks, rounds}
use parlo_plus_plus.NetworkClient.Session.{session}
use parlo_plus_plus.Common.Bytes.{store_int64}
use parlo_plus_plus.NetworkClient.{received_data, Client, returns}
use parlo_plus_plus.NetworkClient.Receiving.{plain_round}
use parlo_plus_plus.NetworkClient.Closing.{set_on_client_disconnected_handler}
use parlo_plus_plus.NetworkClient.Lifetime.{
  plain_client, Happening, connects, sends, reads, check, disconnects, live, live_mute,
}
use parlo_plus_plus.NetworkClient.Examples.{
  windows, served, hello, hello_packet, greeting, greeting-IsPlain,
}
use parlo_plus_plus.NetworkClient.Session.Deliveries.{listening, session-delivers}
use mathlib.Core.Logic.{◌↔◌}
use parlo_plus_plus.HeartbeatPacket.{heartbeat_bytes}
use parlo_plus_plus.NetworkClient.MissedHeartbeats.{IsWatched, copies}
use parlo_plus_plus.NetworkClient.Watch.{IsReadable, Pulse, silent, heard, watch}
use parlo_plus_plus.NetworkClient.Watch.Silence.{tells_loss, HasSilence, watch_loses}
use parlo_plus_plus.NetworkClient.Farewell.{HearsGoodbye, plain_round-goodbye}
use parlo_plus_plus.NetworkClient.{client_disconnected}
use parlo_plus_plus.GoodbyePacket.{goodbye_packet, goodbye_bytes, client_timeout}

abbrev a_life : List Happening
a_life =
    connects
    ∷ sends hello
    ∷ reads (some hello)
    ∷ check
    ∷ disconnects (pos 0) (record { shuts_down = true; closes = true }) true
    ∷ []

live_mute_example :
    let c = live windows a_life (plain_client (pos 0) true true) in
    (c.written ≡ []) × (c.reading ≡ false) × (c.connecting ≡ false)
live_mute_example = live_mute windows a_life (pos 0) true true

-- The first header is read in two pieces, and the second packet with the end of the first.
abbrev reads_and_rounds : List Event
reads_and_rounds =
    received (7 ∷ 0 ∷ [])
    ∷ round
    ∷ received (6 ∷ 0 ∷ 104 ∷ 105 ∷ 9 ∷ 0 ∷ 6 ∷ 0 ∷ [])
    ∷ round
    ∷ received (104 ∷ 105 ∷ [])
    ∷ []

greeting-arrived : arrived reads_and_rounds ≡ wire greeting
unfolding arrived wire build_packet
greeting-arrived = refl

reads_and_rounds-FitsChunks : FitsChunks reads_and_rounds
reads_and_rounds-FitsChunks = (omega arith, (omega arith, (omega arith, tt)))

session-delivers_example :
    let r =
      session windows (pos 0) (reads_and_rounds ++ rounds 2) (listening (pos 0) false, returns) in
    (r.1 ≡ returns) × (r.0.notices ≡ map received_data greeting)
session-delivers_example =
    session-delivers windows (pos 0) (pos 0) false greeting reads_and_rounds greeting-IsPlain
      reads_and_rounds-FitsChunks greeting-arrived

abbrev goodbye_sent : Packet
goodbye_sent = record hello_packet {
  id = 0xff;
  length = 20;
  payload = goodbye_bytes 10000000 (goodbye_packet (pos 77) client_timeout);
}

goodbye_sent_made :
    tcp_packet 0xff (goodbye_bytes 10000000 (goodbye_packet (pos 77) client_timeout)) false
    ≡ ok goodbye_sent
unfolding tcp_packet goodbye_bytes store_int64
goodbye_sent_made = refl

abbrev hears : Client
hears = record (set_on_client_disconnected_handler true (plain_client (pos 0) true false)) {
  buffer = record start.buffer { internal_buffer = build_packet goodbye_sent };
}

hears-HearsGoodbye : HearsGoodbye hears
unfolding set_on_client_disconnected_handler plain_client set_on_packet_processed_handler
hears-HearsGoodbye = record {
  handled = refl;
  shared = refl;
  ready = record { running = refl; handled = refl };
  unread = refl;
}

plain_round-goodbye_example :
    ((plain_round windows (pos 99) hears).1 ≡ returns)
    × ((plain_round windows (pos 99) hears).0.notices ≡ [] ++ (client_disconnected ∷ []))
unfolding set_on_client_disconnected_handler plain_client
plain_round-goodbye_example =
    plain_round-goodbye windows windows (pos 99) (pos 77) hears goodbye_sent hears-HearsGoodbye
      goodbye_sent_made refl

abbrev fresh : Client
fresh = record served { missed_heartbeats = 0 }

fresh-IsWatched : IsWatched fresh
fresh-IsWatched = record { checking = refl; handled = refl; owned = refl; shared = refl }

abbrev long_beat : Packet
long_beat = record hello_packet {
  id = 0xfd;
  length = 21;
  payload =
      0xfd ∷ heartbeat_bytes 10000 (record { time_since_last = pos 5; sent_timestamp = pos 60000 });
}

abbrev pulses : List Pulse
pulses = silent ∷ silent ∷ silent ∷ heard (pos 90000) long_beat ∷ copies 7 silent

pulses-IsReadable : All IsReadable pulses
pulses-IsReadable = (
  tt,
  (
    tt,
    (
      tt,
      (
        (refl, unfold heartbeat_bytes store_int64 in omega arith),
        (tt, (tt, (tt, (tt, (tt, (tt, (tt, tt))))))),
      ),
    ),
  ),
)

watch_loses_example :
    ((watch windows pulses (fresh, returns)).1 ≡ returns)
    × ((tells_loss (watch windows pulses (fresh, returns)).0.notices ≡ true) ↔ HasSilence pulses)
watch_loses_example =
    watch_loses windows pulses fresh fresh-IsWatched refl refl refl pulses-IsReadable
