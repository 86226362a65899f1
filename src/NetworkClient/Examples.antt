-- ===== src/NetworkClient/Examples.antt =====
-- A client and packets for the runs of NetworkClient.cpp, on a clock with 10 000 ticks in a
-- millisecond.
use parlo_plus_plus.Common.{ℕ, All, ◌≡◌, refl, true, false, List, [], ◌∷◌, arith}
use parlo_plus_plus.Common.Int.{pos}
use parlo_plus_plus.Packet.{Packet}
use parlo_plus_plus.Packet.Build.{IsTcp}
use parlo_plus_plus.ProcessingBuffer.{new_buffer, start, set_on_packet_processed_handler}
use parlo_plus_plus.NetworkClient.Session.{IsPlain}
use parlo_plus_plus.Compression.Stored.{stored_deflate, stored_inflate}
use parlo_plus_plus.NetworkClient.{Platform, Client}

abbrev pub windows : Platform
windows = record {
  ticks_per_ms = 10000;
  ticks_per_second = 10000000;
  deflate = stored_deflate;
  inflate = stored_inflate;
}

-- A client with all handlers set, owned by `shared_ptr`s.
abbrev pub served : Client
served = record {
  handlers = record {
    on_server_disconnected = true;
    on_client_disconnected = true;
    on_connection_lost = true;
    on_received_heartbeat = true;
    on_received_data = true;
  };
  impl_shared = true;
  owner_shared = true;
  has_owner = true;
  apply_compression = true;
  connected = true;
  socket_open = true;
  reading = false;
  connecting = false;
  is_alive = true;
  missed_heartbeats = 2;
  stop_check_missed_heartbeats = false;
  stop_sending_heartbeats = false;
  check_thread = true;
  send_thread = true;
  last_rtt = pos 150;
  last_heartbeat_sent = pos 1000;
  buffer = record new_buffer { has_handler = true };
  written = [];
  notices = [];
}

abbrev pub hello : List ℕ
hello = 7 ∷ 0 ∷ 6 ∷ 0 ∷ 104 ∷ 105 ∷ []

abbrev pub hello_packet : Packet
hello_packet = record {
  id = 7;
  is_compressed = 0;
  is_reliable = 0;
  length = 6;
  payload = 104 ∷ 105 ∷ [];
  is_udp = false;
}

abbrev pub greeting : List Packet
greeting = hello_packet ∷ record hello_packet { id = 9 } ∷ []

pub hello_tcp : IsTcp hello_packet
hello_tcp = record {
  tcp = refl;
  some_data = omega arith;
  counted = refl;
  fits = omega arith;
  flag_bit = omega arith;
  unreliable = refl;
}

pub greeting-IsPlain : All IsPlain greeting
greeting-IsPlain = (
  record {
    tcp = hello_tcp;
    users = (λ e. omega (arith, e), λ e. omega (arith, e), λ e. omega (arith, e));
    plain = refl;
  },
  (
    record {
      tcp = record {
        tcp = refl;
        some_data = omega arith;
        counted = refl;
        fits = omega arith;
        flag_bit = omega arith;
        unreliable = refl;
      };
      users = (λ e. omega (arith, e), λ e. omega (arith, e), λ e. omega (arith, e));
      plain = refl;
    },
    tt,
  ),
)

pub served-fresh : served.buffer ≡ start.buffer
unfolding set_on_packet_processed_handler
served-fresh = refl
