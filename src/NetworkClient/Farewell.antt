-- ===== src/NetworkClient/Farewell.antt =====
-- The goodbye of one client of NetworkClient.cpp at another.
use parlo_plus_plus.Common.{
  ℕ, ◌≡◌, refl, sym, ap, ◌∙◌, inl, true, false, List, [], ◌∷◌, ◌++◌, append-nil, some, ok, length,
  arith,
}
use parlo_plus_plus.Common.Int.{ℤ}
use parlo_plus_plus.Packet.{Packet, tcp_packet, build_packet}
use parlo_plus_plus.Packet.Build.{tcp_packet_fields, length-build_tcp, tcp_packet-IsTcp, IsTcp}
use parlo_plus_plus.GoodbyePacket.{goodbye_packet, goodbye_bytes, client_timeout}
use parlo_plus_plus.GoodbyePacket.RoundTrip.{length-goodbye_bytes}
use parlo_plus_plus.ProcessingBuffer.{Buffer, continues, process_round}
use parlo_plus_plus.ProcessingBuffer.Framing.{wire, IsReady, Advances, idle, keeps, delivers}
use parlo_plus_plus.ProcessingBuffer.Rounds.{process_round-Advances}
use parlo_plus_plus.NetworkClient.{
  Platform, Client, returns, cgoodbye_id, client_disconnected, notify_if, notify,
}
use parlo_plus_plus.NetworkClient.Receiving.{
  on_packet, on_packet_owning, in_thread, plain_after, plain_round,
}

-- The bytes of a goodbye that is made at a time.
abbrev farewell : Platform → ℤ → List ℕ
farewell pf now = goodbye_bytes pf.ticks_per_second (goodbye_packet now client_timeout)

-- The packet that carries it.
pub record Carries (pf : Platform) (now : ℤ) (p : Packet) : Type 0 where
  pub id : p.id ≡ 0xff
  pub payload : p.payload ≡ farewell pf now
  pub tcp : IsTcp p
  pub size : length (build_packet p) ≡ 20
  pub made : tcp_packet cgoodbye_id (farewell pf now) false ≡ ok p

goodbye-Carries :
    (pf : Platform) (now : ℤ) (p : Packet)
    → tcp_packet cgoodbye_id (farewell pf now) false ≡ ok p
    → Carries pf now p
goodbye-Carries pf now p made =
    let sixteen = length-goodbye_bytes pf.ticks_per_second (goodbye_packet now client_timeout) in
    let (same_id, same, _) = tcp_packet_fields cgoodbye_id (farewell pf now) false p made in
    let tcp =
      tcp_packet-IsTcp cgoodbye_id (farewell pf now) false p (omega (arith, sixteen)) made in
    record {
      id = same_id;
      payload = same;
      tcp = tcp;
      size = omega (arith, length-build_tcp p tcp.tcp, ap length same, sixteen);
      made = made;
    }

on_packet-goodbye :
    (pf : Platform) (now : ℤ) (p : Packet) (c : Client)
    → p.id ≡ 0xff
    → c.on_client_disconnected ≡ true
    → c.owner_shared ≡ true
    → in_thread (on_packet_owning pf now p c)
      ≡ (record c { has_owner = true; notices = c.notices ++ (client_disconnected ∷ []) }, returns)
unfolding on_packet on_packet_owning in_thread notify_if notify
on_packet-goodbye pf now p c e h k = rw (e, h, k) refl

plain_round-delivers :
    (pf : Platform) (now : ℤ) (c : Client) (b : Buffer) (p : Packet)
    → process_round c.buffer ≡ continues b (some p)
    → plain_round pf now c ≡ in_thread (on_packet_owning pf now p (record c { buffer = b }))
unfolding plain_round plain_after
plain_round-delivers pf now c b p e = rw e refl

-- A client that hears goodbyes.
pub record HearsGoodbye (c : Client) : Type 0 where
  pub handled : c.on_client_disconnected ≡ true
  pub shared : c.owner_shared ≡ true
  pub ready : IsReady c.buffer
  pub unread : c.buffer.has_read_header ≡ false

-- Let a goodbye packet be made as `disconnectAsync` makes it, by any client at any time, and let its bytes
-- be in the buffer of a client that the constructor without a listener has given its handler, that
-- a `shared_ptr` holds, whose handler of goodbyes is set and whose buffer runs and stands before a
-- header. Then the next round of the processing thread ends normally, and the user is told that the
-- other client has disconnected, once.
pub plain_round-goodbye :
    (pf pf' : Platform) (now now' : ℤ) (c : Client) (p : Packet)
    → HearsGoodbye c
    → tcp_packet 0xff
        (goodbye_bytes pf'.ticks_per_second (goodbye_packet now' client_timeout))
        false
      ≡ ok p
    → c.buffer.internal_buffer ≡ build_packet p
    → ((plain_round pf now c).1 ≡ returns)
      × ((plain_round pf now c).0.notices ≡ c.notices ++ (client_disconnected ∷ []))
unfolding wire
plain_round-goodbye pf pf' now now' c p l made bytes =
    after (process_round-Advances c.buffer [] (p ∷ []) (k.tcp, tt) l.ready (inl (l.unread, framed)))
  where
    k : Carries pf' now' p
    k = goodbye-Carries pf' now' p made

    framed : c.buffer.internal_buffer ++ [] ≡ wire (p ∷ [])
    framed = append-nil c.buffer.internal_buffer ∙ bytes ∙ sym (append-nil (build_packet p))

    after :
        Advances c.buffer [] (p ∷ [])
        → ((plain_round pf now c).1 ≡ returns)
          × ((plain_round pf now c).0.notices ≡ c.notices ++ (client_disconnected ∷ []))
    after (idle empty e) = absurd (omega (arith, k.size, ap length (sym bytes ∙ empty)))
    after (keeps b e r f more) = absurd (more refl)
    after (delivers b p' rest at e r off' f) =
        let same : p' ≡ p = cc in
        let done : process_round c.buffer ≡ continues b (some p) = rw (← same) e in
        rw
          (
            plain_round-delivers pf now c b p done,
            on_packet-goodbye pf now p (record c { buffer = b }) k.id l.handled l.shared,
          )
          (refl, refl)
