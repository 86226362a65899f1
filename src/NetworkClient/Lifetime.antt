-- ===== src/NetworkClient/Lifetime.antt =====
-- The constructors of NetworkClient.cpp, `connectAsync`, and whole lives of a client.
use parlo_plus_plus.Common.{
  ℕ, ◌≡◌, refl, subst, sym, ◌∙◌, Bool, true, false, ◌||◌, List, [], ◌∷◌, Option, none, some, Result,
  ok, throws, bad_weak_ptr, if◌then◌else◌, arith,
}
use parlo_plus_plus.Common.Int.{ℤ, pos}
use parlo_plus_plus.Packet.{Packet, build_packet}
use parlo_plus_plus.ProcessingBuffer.{new_buffer, set_on_packet_processed_handler}
use parlo_plus_plus.NetworkClient.{
  Platform, Client, Handlers, Exit, returns, raises, undefined, terminated, notify, lose_connection,
  receive_async, absorb, on_read,
}
use parlo_plus_plus.NetworkClient.Sending.{send_async, on_written, send_async_unshared}
use parlo_plus_plus.NetworkClient.Receiving.{on_packet_owning}
use parlo_plus_plus.NetworkClient.Dispatch.{on_packet-Handles}
use parlo_plus_plus.NetworkClient.Heartbeats.{
  Readings, send_heartbeat, send_pulse, caught, check_heartbeats,
}
use parlo_plus_plus.NetworkClient.Closing.{
  SocketAnswers, disconnect_async, after_goodbye, after_close, close_socket, stop_threads,
  disconnect_async_unshared,
}

-- The members as an `Impl` starts out. The class is held by `std::make_unique`, so that no
-- `shared_ptr` owns it; `lastRTT` and `owner` are left without a value, and `rtt` is what stands
-- there. `shared` says whether the user holds the `NetworkClient` by a `shared_ptr`, `open_already`
-- whether the socket that it is given is open.
unfoldable pub new_impl : ℤ → Bool → Bool → Client
new_impl rtt shared open_already = record {
  handlers = record {
    on_server_disconnected = false;
    on_client_disconnected = false;
    on_connection_lost = false;
    on_received_heartbeat = false;
    on_received_data = false;
  };
  impl_shared = false;
  owner_shared = shared;
  has_owner = false;
  apply_compression = false;
  connected = true;
  socket_open = open_already;
  reading = false;
  connecting = false;
  is_alive = true;
  missed_heartbeats = 0;
  stop_check_missed_heartbeats = false;
  stop_sending_heartbeats = false;
  check_thread = false;
  send_thread = false;
  last_rtt = rtt;
  last_heartbeat_sent = pos 0;
  buffer = set_on_packet_processed_handler true new_buffer;
  written = [];
  notices = [];
}

-- The constructor without a listener.
unfoldable pub plain_client : ℤ → Bool → Bool → Client
unfolding new_impl
plain_client rtt shared open_already = new_impl rtt shared open_already

-- An exception in a constructor destroys the `Impl`; a thread that is still joinable ends the
-- process.
unfoldable pub leave_constructor : Client × Exit → Client × Exit
leave_constructor (c, returns) = (c, returns)
leave_constructor (c, raises e) =
    (c, if c.check_thread || c.send_thread then terminated else raises e)
leave_constructor (c, undefined) = (c, undefined)
leave_constructor (c, terminated) = (c, terminated)

-- The constructor with a listener: it sets the owner, starts both threads, and begins to receive.
unfoldable pub listener_client : ℤ → Client × Exit
unfolding new_impl leave_constructor receive_async
listener_client rtt = leave_constructor (
    receive_async (record (new_impl rtt false true) {
      has_owner = true;
      check_thread = true;
      send_thread = true;
    }))

-- `connectAsync`
unfoldable pub connect_async : Client → Client × Exit
connect_async c =
    if c.impl_shared then (record c { connecting = true }, returns) else (c, raises bad_weak_ptr)

-- A new thread is assigned to each `std::thread`; where one is still joinable, that ends the process.
start_threads : Client × Exit → Client × Exit
start_threads (c, returns) =
    if c.check_thread || c.send_thread
    then (c, terminated)
    else (record c { check_thread = true; send_thread = true }, returns)
start_threads (c, raises e) = (c, raises e)
start_threads (c, undefined) = (c, undefined)
start_threads (c, terminated) = (c, terminated)

-- The completion of a connection attempt.
unfoldable pub on_connected : Bool → Client → Client × Exit
unfolding start_threads
on_connected failed c =
    let c' = record c { connecting = false } in
    if failed then lose_connection c' else start_threads (receive_async c')

-- The constructor with a listener never returns: it ends the process.
pub listener_client_terminates : (rtt : ℤ) → (listener_client rtt).1 ≡ terminated
unfolding listener_client
listener_client_terminates rtt = refl

-- What can happen to a client. Handlers of completions are here whether or not the operation has been
-- started.
pub data Happening : Type 0 where
  connects : Happening
  connection : Bool → Happening
  sends : List ℕ → Happening
  sent : Bool → Happening
  reads : Option (List ℕ) → Happening
  packet : ℤ → Packet → Happening
  pulse : Readings → Happening
  check : Happening
  disconnects : ℤ → SocketAnswers → Bool → Happening
  compression : Bool → Happening
  handled : Handlers → Happening

unfoldable pub happen : Platform → Happening → Client → Client
happen pf connects c = (connect_async c).0
happen pf (connection failed) c = (on_connected failed c).0
happen pf (sends bytes) c = (send_async pf bytes c).0
happen pf (sent failed) c = (on_written failed c).0
happen pf (reads bytes) c = (on_read bytes c).0
happen pf (packet now p) c = (on_packet_owning pf now p c).0
happen pf (pulse t) c = send_heartbeat pf t c
happen pf check c = (check_heartbeats c).0
happen pf (disconnects now s goodbye) c = disconnect_async pf now s goodbye c
happen pf (compression apply) c = record c { apply_compression = apply }
happen pf (handled h) c = record c { handlers = h }

unfoldable pub live : Platform → List Happening → Client → Client
live pf [] c = c
live pf (h ∷ hs) c = live pf hs (happen pf h c)

-- A client that has neither written nor begun to read or connect, and cannot.
pub record IsMute (c : Client) : Type 0 where
  pub unshared : c.impl_shared ≡ false
  pub unwritten : c.written ≡ []
  pub unread : c.reading ≡ false
  pub unconnected : c.connecting ≡ false

lose_connection-IsMute : (c : Client) → IsMute c → IsMute (lose_connection c).0
unfolding lose_connection notify
lose_connection-IsMute c m = ground arith

send_pulse-IsMute :
    (pf : Platform) (r : Result Packet) (c : Client) → IsMute c → IsMute (send_pulse pf r c)
unfolding send_pulse caught
send_pulse-IsMute pf (ok p) c m =
    subst (λ (r : Client × Exit). IsMute (caught r))
      (sym (send_async_unshared pf (build_packet p) c m.unshared).1) m
send_pulse-IsMute pf (throws e) c m = m

send_heartbeat-IsMute :
    (pf : Platform) (t : Readings) (c : Client) → IsMute c → IsMute (send_heartbeat pf t c)
unfolding send_heartbeat
send_heartbeat-IsMute pf t c m = if-IsMute c.stop_sending_heartbeats m (
    send_pulse-IsMute pf _ (record c { last_heartbeat_sent = t.recorded })
      (record {
        unshared = m.unshared;
        unwritten = m.unwritten;
        unread = m.unread;
        unconnected = m.unconnected;
      }))
  where
    if-IsMute : (b : Bool) {d e : Client} → IsMute d → IsMute e → IsMute (if b then d else e)
    if-IsMute true k l = k
    if-IsMute false k l = l

happen-IsMute : (pf : Platform) (h : Happening) (c : Client) → IsMute c → IsMute (happen pf h c)
unfolding happen
happen-IsMute pf connects c m = unfold connect_async in ground arith
happen-IsMute pf (connection failed) c m =
    unfold on_connected lose_connection notify receive_async in ground arith
happen-IsMute pf (sends bytes) c m =
    subst (λ (r : Client × Exit). IsMute r.0) (sym (send_async_unshared pf bytes c m.unshared).1) m
happen-IsMute pf (sent failed) c m = unfold on_written notify in ground arith
happen-IsMute pf (reads none) c m = unfold on_read lose_connection notify in ground arith
happen-IsMute pf (reads (some bytes)) c m = unfold on_read absorb receive_async in ground arith
happen-IsMute pf (packet now p) c m =
    unfold on_packet_owning in
    let (_, k) = on_packet-Handles pf now p (record c { has_owner = true }) in
    record {
      unshared = k.impl_shared ∙ m.unshared;
      unwritten = k.written ∙ m.unwritten;
      unread = k.reading ∙ m.unread;
      unconnected = k.connecting ∙ m.unconnected;
    }
happen-IsMute pf (pulse t) c m = send_heartbeat-IsMute pf t c m
happen-IsMute pf check c m = unfold check_heartbeats lose_connection notify in ground arith
happen-IsMute pf (disconnects now s true) c m =
    subst IsMute (sym (disconnect_async_unshared pf now s c m.unshared)) m
happen-IsMute pf (disconnects now s false) c m =
    unfold disconnect_async after_goodbye after_close close_socket stop_threads in ground arith
happen-IsMute pf (compression apply) c m = ground arith
happen-IsMute pf (handled h) c m = ground arith

live-IsMute : (pf : Platform) (hs : List Happening) (c : Client) → IsMute c → IsMute (live pf hs c)
unfolding live
live-IsMute pf [] c m = m
live-IsMute pf (h ∷ hs) c m = live-IsMute pf hs (happen pf h c) (happen-IsMute pf h c m)

-- No client that the code can make ever writes a byte, starts a read or starts to connect, whatever
-- the user calls and whatever else happens to it: its `Impl` is owned by a `unique_ptr`, and each of
-- these methods needs a `shared_ptr` to it.
pub live_mute :
    (pf : Platform) (hs : List Happening) (rtt : ℤ) (shared open_already : Bool)
    → let c = live pf hs (plain_client rtt shared open_already) in
      (c.written ≡ []) × (c.reading ≡ false) × (c.connecting ≡ false)
unfolding plain_client
live_mute pf hs rtt shared open_already =
    let m =
      live-IsMute pf hs (plain_client rtt shared open_already)
        (record { unshared = refl; unwritten = refl; unread = refl; unconnected = refl }) in
    (m.unwritten, m.unread, m.unconnected)
