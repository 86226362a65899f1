-- ===== src/NetworkClient/Closing.antt =====
-- `disconnectAsync`, the destructor and the setters of NetworkClient.cpp.
use parlo_plus_plus.Common.{
  ◌≡◌, refl, ap, Bool, true, false, not, ◌&&◌, ◌||◌, Exception, Result, ok, throws, system_error,
  if◌then◌else◌, arith,
}
use parlo_plus_plus.Common.Int.{ℤ}
use parlo_plus_plus.Packet.{Packet, tcp_packet, build_packet}
use parlo_plus_plus.GoodbyePacket.{goodbye_packet, goodbye_bytes, client_timeout}
use parlo_plus_plus.ProcessingBuffer.{stop}
use parlo_plus_plus.NetworkClient.{
  Platform, Client, Exit, returns, raises, undefined, terminated, cgoodbye_id,
}
use parlo_plus_plus.NetworkClient.Sending.{send_async, send_async_unshared}

-- What the socket answers to `shutdown` and `close`: whether each succeeds or throws.
pub record SocketAnswers : Type 0 where
  pub shuts_down : Bool
  pub closes : Bool

-- Both threads are told to stop and waited for.
unfoldable pub stop_threads : Client → Client
stop_threads c = record c {
  stop_check_missed_heartbeats = true;
  check_thread = c.check_thread && c.stop_check_missed_heartbeats;
  stop_sending_heartbeats = true;
  send_thread = c.send_thread && c.stop_sending_heartbeats;
}

-- `socket.shutdown(); socket.close();` where the socket is open. Either may throw; asio closes a
-- socket even where `close` fails.
unfoldable pub close_socket : SocketAnswers → Client → Client × Exit
close_socket s c =
    if not c.socket_open
    then (c, returns)
    else if not s.shuts_down
    then (c, raises system_error)
    else if not s.closes
    then (record c { socket_open = false }, raises system_error)
    else (record c { socket_open = false }, returns)

unfoldable pub after_close : Client × Exit → Client
after_close (c, returns) = record (stop_threads c) { connected = false }
after_close (c, raises e) = c
after_close (c, undefined) = c
after_close (c, terminated) = c

unfoldable pub after_goodbye : SocketAnswers → Client × Exit → Client
after_goodbye s (c, returns) = after_close (close_socket s c)
after_goodbye s (c, raises e) = c
after_goodbye s (c, undefined) = c
after_goodbye s (c, terminated) = c

unfoldable pub send_built : Platform → Result Packet → Client → Client × Exit
send_built pf (ok p) c = send_async pf (build_packet p) c
send_built pf (throws e) c = (c, raises e)

-- The goodbye message of a client, and its sending.
unfoldable pub send_goodbye : Platform → ℤ → Client → Client × Exit
send_goodbye pf now c =
    send_built pf
      (tcp_packet cgoodbye_id
        (goodbye_bytes pf.ticks_per_second (goodbye_packet now client_timeout)) false)
      c

-- `disconnectAsync`: an exception of any step is logged, and the steps behind it are left out.
unfoldable pub disconnect_async : Platform → ℤ → SocketAnswers → Bool → Client → Client
disconnect_async pf now s send_disconnect_message c =
    if c.connected && c.socket_open
    then after_goodbye s (if send_disconnect_message then send_goodbye pf now c else (c, returns))
    else c

-- The destructor, and then those of the members: a heartbeat thread that has been told to stop before
-- has not been waited for, and a `std::thread` that is still joinable ends the process; the processing
-- buffer is behind them.
unfoldable pub destroy : Client → Client × Exit
unfolding stop_threads stop
destroy c =
    let c' = stop_threads c in
    if c'.check_thread || c'.send_thread
    then (c', terminated)
    else (record c' { buffer = stop c'.buffer }, returns)

unfoldable pub set_apply_compression : Bool → Client → Client
set_apply_compression apply c = record c { apply_compression = apply }

-- The five setters of handlers; an argument says whether the given function holds one.
unfoldable pub set_on_client_disconnected_handler : Bool → Client → Client
set_on_client_disconnected_handler given c = record c {
  handlers = record c.handlers { on_client_disconnected = given };
}

unfoldable pub set_on_connection_lost_handler : Bool → Client → Client
set_on_connection_lost_handler given c = record c {
  handlers = record c.handlers { on_connection_lost = given };
}

unfoldable pub set_on_server_disconnected_handler : Bool → Client → Client
set_on_server_disconnected_handler given c = record c {
  handlers = record c.handlers { on_server_disconnected = given };
}

unfoldable pub set_on_received_heartbeat_handler : Bool → Client → Client
set_on_received_heartbeat_handler given c = record c {
  handlers = record c.handlers { on_received_heartbeat = given };
}

unfoldable pub set_on_received_data_handler : Bool → Client → Client
set_on_received_data_handler given c = record c {
  handlers = record c.handlers { on_received_data = given };
}

-- Without a goodbye message, and with a socket that answers, the client is closed and its threads are
-- told to stop.
pub disconnect_async_silent :
    (pf : Platform) (now : ℤ) (c : Client)
    → c.connected ≡ true
    → c.socket_open ≡ true
    → let c' = disconnect_async pf now (record { shuts_down = true; closes = true }) false c in
      (c'.connected ≡ false)
      × (c'.socket_open ≡ false)
      × (c'.stop_check_missed_heartbeats ≡ true)
      × (c'.stop_sending_heartbeats ≡ true)
      × (c'.written ≡ c.written)
unfolding disconnect_async after_goodbye after_close close_socket stop_threads
disconnect_async_silent pf now c h k = ground arith

send_built_unshared :
    (pf : Platform) (r : Result Packet) (c : Client)
    → c.impl_shared ≡ false
    → (e : Exception) × (send_built pf r c ≡ (c, raises e))
unfolding send_built
send_built_unshared pf (ok p) c h = send_async_unshared pf (build_packet p) c h
send_built_unshared pf (throws e) c h = (e, refl)

-- With a goodbye message, where no `shared_ptr` owns the `Impl`, the failure to send it is all that
-- happens: whatever the socket would answer, the client stays as it was, connected and open.
pub disconnect_async_unshared :
    (pf : Platform) (now : ℤ) (s : SocketAnswers) (c : Client)
    → c.impl_shared ≡ false
    → disconnect_async pf now s true c ≡ c
unfolding disconnect_async send_goodbye after_goodbye
disconnect_async_unshared pf now s c h =
    let (e, failed) = send_built_unshared pf _ c h in
    either_way (c.connected && c.socket_open) (ap (after_goodbye s) failed)
  where
    either_way : (b : Bool) {d : Client} → d ≡ c → (if b then d else c) ≡ c
    either_way true e = e
    either_way false e = refl
