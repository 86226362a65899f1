-- ===== src/Listener/Tests.antt =====
-- Runs of Listener.cpp.
use parlo_plus_plus.Common.{bad_weak_ptr, ◌≡◌, refl, true, false, List, [], ◌∷◌, arith}
use parlo_plus_plus.Common.Int.{pos}
use parlo_plus_plus.Packet.{flag}
use parlo_plus_plus.NetworkClient.{Client}
use parlo_plus_plus.NetworkClient.Lifetime.{plain_client, listener_client}
use parlo_plus_plus.NetworkClient.{raises}
use parlo_plus_plus.Listener.{Listener, on_accept_completed, new_listener, start_accepting}
use parlo_plus_plus.Listener.Accepting.{serve_deaf}
use parlo_plus_plus.Listener.Completions.{KeepsOn, on_accept_completed-KeepsOn}
use parlo_plus_plus.Listener.Clients.{
  Occurrence, starts, loops, accepted, gone, serve, stands, Fresh, occurrences, serve-stands,
}

abbrev someone : Client
someone = plain_client (pos 0) true true

-- Address 16 is used again once its client is gone.
abbrev a_day : List Occurrence
a_day =
    starts
    ∷ loops
    ∷ accepted 16 someone
    ∷ accepted 32 someone
    ∷ gone 16
    ∷ accepted 16 someone
    ∷ gone 32
    ∷ []

a_day-Fresh : Fresh 16 false a_day
a_day-Fresh = (λ e. refl, (λ e. absurd (omega (arith, e)), (λ e. refl, tt)))

serve-stands_example :
    occurrences 16 (serve a_day (new_listener true)).network_clients.queue
    ≡ flag (stands 16 false a_day)
serve-stands_example = serve-stands true 16 a_day (omega arith) a_day-Fresh

serve_deaf_example :
    let l = serve a_day (new_listener true) in
    (l.accept_loop ≡ false)
    × (start_accepting l ≡ (record l { running = true }, raises bad_weak_ptr))
serve_deaf_example = serve_deaf true a_day

-- A listener that runs, with one client and one accept under way.
abbrev open_listener : Listener
open_listener = record (new_listener true) {
  running = true;
  accepts = 1;
  network_clients = record { queue = 16 ∷ []; capacity = 64 };
}

on_accept_completed-KeepsOn_example :
    KeepsOn 5 true open_listener
      (on_accept_completed 5 32 true true (listener_client (pos 0)) open_listener)
on_accept_completed-KeepsOn_example =
    on_accept_completed-KeepsOn 5 32 true true (pos 0) open_listener refl
