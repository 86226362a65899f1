-- ===== src/NetworkClient/Dispatch.antt =====
-- Which handler the packet handler of NetworkClient.cpp calls.
use parlo_plus_plus.Common.{
  ℕ, ◌≡◌, ◌≢◌, refl, subst, sym, ap, ◌⊎◌, inl, inr, Bool, true, false, List, [], ◌∷◌, ◌++◌, Result,
  ok, throws, bad_weak_ptr, if◌then◌else◌, ◌==◌, Bool-cases, arith,
}
use parlo_plus_plus.Common.Int.{ℤ}
use parlo_plus_plus.Packet.{Packet, tcp_packet}
use parlo_plus_plus.HeartbeatPacket.{HeartbeatPacket, heartbeat_of_bytes}
use parlo_plus_plus.Compression.{decompress_data}
use parlo_plus_plus.NetworkClient.{
  Platform, Client, Exit, returns, raises, Notice, server_disconnected, client_disconnected,
  connection_lost, received_heartbeat, received_data, notify_if, notify, heartbeat_id, sgoodbye_id,
  cgoodbye_id,
}
use parlo_plus_plus.NetworkClient.Receiving.{
  round_trip, hand_on, take_heartbeat, on_heartbeat, forward, on_data, on_packet,
}

-- The notice that a packet with an ID can lead to.
abbrev pub Fits : ℕ → Notice → Type 0
Fits id server_disconnected = id ≡ 0xfe
Fits id client_disconnected = id ≡ 0xff
Fits id connection_lost = ⊥
Fits id received_heartbeat = id ≡ 0xfd
Fits id (received_data p) =
    (p.id ≡ id) × (id ≢ 0xfd) × (id ≢ 0xfe) × (id ≢ 0xff) × (p.is_compressed ≡ 0)

-- The user is told nothing, or one thing that fits.
abbrev pub Tells : ℕ → Client → Client → Type 0
Tells id c c' =
    (c'.notices ≡ c.notices) ⊎ ((n : Notice) × (c'.notices ≡ c.notices ++ (n ∷ [])) × Fits id n)

-- What no packet changes.
pub record Keeps (c c' : Client) : Type 0 where
  pub connected : c'.connected ≡ c.connected
  pub socket_open : c'.socket_open ≡ c.socket_open
  pub written : c'.written ≡ c.written
  pub buffer : c'.buffer ≡ c.buffer
  pub impl_shared : c'.impl_shared ≡ c.impl_shared
  pub reading : c'.reading ≡ c.reading
  pub connecting : c'.connecting ≡ c.connecting

-- The outcome of handling a packet with an ID.
abbrev pub Handles : ℕ → Client → Client × Exit → Type 0
Handles id c r = Tells id c r.0 × Keeps c r.0

notify_total :
    (n : Notice) (d : Client)
    → ((d.owner_shared ≡ true)
        × (notify n d ≡ (record d { notices = d.notices ++ (n ∷ []) }, returns)))
      ⊎ ((d.owner_shared ≡ false) × (notify n d ≡ (d, raises bad_weak_ptr)))
unfolding notify
notify_total n d = elim (Bool-cases d.owner_shared) [
  | inl e ↦ inl (e, ground arith)
  | inr e ↦ inr (e, ground arith)
]

notify-Handles :
    (id : ℕ) (n : Notice) (c d : Client)
    → Fits id n
    → d.notices ≡ c.notices
    → Keeps c d
    → Handles id c (notify n d)
notify-Handles id n c d f e k = elim (notify_total n d) [
  | inl (_, told) ↦ subst (Handles id c) (sym told) (
    inr (n, ap (λ l. l ++ (n ∷ [])) e, f),
    record {
      connected = k.connected;
      socket_open = k.socket_open;
      written = k.written;
      buffer = k.buffer;
      impl_shared = k.impl_shared;
      reading = k.reading;
      connecting = k.connecting;
    },
  )
  | inr (_, told) ↦ subst (Handles id c) (sym told) (inl e, k)
]

notify_if-Handles :
    (id : ℕ) (present : Bool) (n : Notice) (c d : Client)
    → Fits id n
    → d.notices ≡ c.notices
    → Keeps c d
    → Handles id c (notify_if present n d)
unfolding notify_if
notify_if-Handles id true n c d f e k = notify-Handles id n c d f e k
notify_if-Handles id false n c d f e k = (inl e, k)

take_heartbeat-Handles :
    (pf : Platform) (now : ℤ) (r : Result HeartbeatPacket) (c d : Client)
    → d.notices ≡ c.notices
    → Keeps c d
    → Handles 0xfd c (take_heartbeat pf now r d)
unfolding take_heartbeat
take_heartbeat-Handles pf now (throws e) c d same k = (inl same, k)
take_heartbeat-Handles pf now (ok h) c d same k =
    notify_if-Handles 0xfd d.on_received_heartbeat received_heartbeat c
      (record d { last_rtt = round_trip pf now h }) refl same
      (record {
        connected = k.connected;
        socket_open = k.socket_open;
        written = k.written;
        buffer = k.buffer;
        impl_shared = k.impl_shared;
        reading = k.reading;
        connecting = k.connecting;
      })

Keeps-refl : (c : Client) → Keeps c c
Keeps-refl c = record {
  connected = refl;
  socket_open = refl;
  written = refl;
  buffer = refl;
  impl_shared = refl;
  reading = refl;
  connecting = refl;
}

on_heartbeat-Handles :
    (pf : Platform) (now : ℤ) (p : Packet) (c : Client)
    → p.id ≡ 0xfd
    → Handles p.id c (on_heartbeat pf now p c)
unfolding on_heartbeat
on_heartbeat-Handles pf now p c e =
    subst (λ id. Handles id c (on_heartbeat pf now p c)) (sym e)
      (take_heartbeat-Handles pf now (heartbeat_of_bytes pf.ticks_per_ms p.payload) c
        (record c { is_alive = true; missed_heartbeats = 0 }) refl
        (record {
          connected = refl;
          socket_open = refl;
          written = refl;
          buffer = refl;
          impl_shared = refl;
          reading = refl;
          connecting = refl;
        }))

-- A packet that the user gets carries the ID of the one that arrived.
hand_on-Handles :
    (id : ℕ) (bytes : List ℕ) (c : Client)
    → id ≢ 0xfd
    → id ≢ 0xfe
    → id ≢ 0xff
    → Handles id c (hand_on (tcp_packet id bytes false) c)
unfolding hand_on tcp_packet
hand_on-Handles id [] c h k l = (inl refl, Keeps-refl c)
hand_on-Handles id (x ∷ xs) c h k l =
    notify-Handles id (received_data _) c c (refl, h, k, l, refl) refl (Keeps-refl c)

forward-Handles :
    (id : ℕ) (r : Result (List ℕ)) (c : Client)
    → id ≢ 0xfd
    → id ≢ 0xfe
    → id ≢ 0xff
    → Handles id c (forward id r c)
unfolding forward
forward-Handles id (throws e) c h k l = (inl refl, Keeps-refl c)
forward-Handles id (ok bytes) c h k l = elim (Bool-cases c.on_received_data) [
  | inl present ↦ simp present (hand_on-Handles id bytes c h k l)
  | inr absent ↦ simp absent (inl refl, Keeps-refl c)
]

if-Handles :
    (id : ℕ) (b : Bool) (c : Client) (r r' : Client × Exit)
    → (b ≡ true → Handles id c r)
    → (b ≡ false → Handles id c r')
    → Handles id c (if b then r else r')
if-Handles id true c r r' h k = h refl
if-Handles id false c r r' h k = k refl

-- Every packet that is processed leads to at most one call of a handler, one that fits its ID: user
-- data is handed on under the ID that it came with, not marked as compressed. Whether or not the
-- handling throws, the connection, the socket, the buffer and what was written stay as they were.
pub on_packet-Handles :
    (pf : Platform) (now : ℤ) (p : Packet) (c : Client) → Handles p.id c (on_packet pf now p c)
unfolding on_packet on_data
on_packet-Handles pf now p c =
    if-Handles p.id (p.id == sgoodbye_id) c _ _
      (λ e.
        notify_if-Handles p.id c.on_server_disconnected server_disconnected c c (ground arith) refl
          (Keeps-refl c))
      λ not_server.
        if-Handles p.id (p.id == cgoodbye_id) c _ _
          (λ e.
            notify_if-Handles p.id c.on_client_disconnected client_disconnected c c (ground arith)
              refl (Keeps-refl c))
          λ not_client.
            if-Handles p.id (p.id == heartbeat_id) c _ _
              (λ e. on_heartbeat-Handles pf now p c (ground arith))
              λ not_heartbeat.
                if-Handles p.id (p.is_compressed == 0) c _ _
                  (λ _.
                    forward-Handles p.id (ok p.payload) c (ground arith) (ground arith)
                      (ground arith))
                  (λ _.
                    forward-Handles p.id (decompress_data pf.inflate p.payload) c (ground arith)
                      (ground arith) (ground arith))
