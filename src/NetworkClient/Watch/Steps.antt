-- ===== src/NetworkClient/Watch/Steps.antt =====
-- A check or a heartbeat of a watched client of NetworkClient.cpp, and the pulses behind it.
use parlo_plus_plus.Common.{
  ℕ, ◌+◌, ◌≤◌, ◌≡◌, refl, sym, ap, ◌∙◌, Bool, true, false, List, [], ◌∷◌, ◌++◌, append-nil,
  append_assoc, ok, if◌then◌else◌, ltb, length, All, Bool-cases, inl, inr, arith,
}
use parlo_plus_plus.Common.Int.{ℤ, to_fine}
use parlo_plus_plus.Common.Bytes.{load_int64}
use parlo_plus_plus.Packet.{Packet}
use parlo_plus_plus.HeartbeatPacket.{HeartbeatPacket, heartbeat_of_bytes}
use parlo_plus_plus.NetworkClient.{
  Platform, Client, Exit, returns, Notice, connection_lost, received_heartbeat, notify_if, notify,
}
use parlo_plus_plus.NetworkClient.Receiving.{round_trip, take_heartbeat, on_heartbeat, on_packet}
use parlo_plus_plus.NetworkClient.Heartbeats.{check_heartbeats}
use parlo_plus_plus.NetworkClient.MissedHeartbeats.{IsWatched, check_below, check_above}
use parlo_plus_plus.NetworkClient.Watch.{
  Pulse, silent, heard, watch, IsReadable, news, missed_after, IsCounted, Watched,
}

readable :
    (pf : Platform) (bytes : List ℕ)
    → 17 ≤ length bytes
    → (h : HeartbeatPacket) × (heartbeat_of_bytes pf.ticks_per_ms bytes ≡ ok h)
unfolding heartbeat_of_bytes
readable pf bytes h =
    let long : ltb (length bytes) 17 ≡ false = ground arith in
    let h : HeartbeatPacket = record {
      time_since_last = load_int64 bytes 1;
      sent_timestamp = to_fine pf.ticks_per_ms (load_int64 bytes 9);
    } in
    (h, rw long refl)

-- The client behind a heartbeat that is read.
pub record Heard (c d : Client) : Type 0 where
  pub watched : IsWatched d
  pub reset : d.missed_heartbeats ≡ 0
  pub revived : d.is_alive ≡ true
  pub same : d.on_received_heartbeat ≡ c.on_received_heartbeat
  pub told :
      d.notices ≡ c.notices ++ (if c.on_received_heartbeat then received_heartbeat ∷ [] else [])

take_heartbeat-Heard :
    (pf : Platform) (now : ℤ) (h : HeartbeatPacket) (c : Client)
    → IsWatched c
    → (d : Client) × (take_heartbeat pf now
          (ok h)
          (record c { is_alive = true; missed_heartbeats = 0 })
        ≡ (d, returns))
      × Heard c d
unfolding take_heartbeat notify_if notify
take_heartbeat-Heard pf now h c w = elim (Bool-cases c.on_received_heartbeat) [
  | inl on ↦
      let d : Client = record (reset c) { notices = c.notices ++ (received_heartbeat ∷ []) } in
      (
        d,
        rw (on, w.shared) refl,
        record {
          watched = record {
            checking = w.checking;
            handled = w.handled;
            owned = w.owned;
            shared = w.shared;
          };
          reset = refl;
          revived = refl;
          same = refl;
          told = rw on refl;
        },
      )
  | inr off ↦ (
    reset c,
    rw off refl,
    record {
      watched = record {
        checking = w.checking;
        handled = w.handled;
        owned = w.owned;
        shared = w.shared;
      };
      reset = refl;
      revived = refl;
      same = refl;
      told = rw off (sym (append-nil c.notices));
    },
  )
]
  where
    reset : Client → Client
    reset c = record c { is_alive = true; missed_heartbeats = 0; last_rtt = round_trip pf now h }

pub on_packet-Heard :
    (pf : Platform) (now : ℤ) (p : Packet) (c : Client)
    → IsWatched c
    → IsReadable (heard now p)
    → (d : Client) × (on_packet pf now p c ≡ (d, returns)) × Heard c d
unfolding on_packet on_heartbeat
on_packet-Heard pf now p c w (e, long) =
    let (h, ok_h) = readable pf p.payload long in
    let (d, taken, k) = take_heartbeat-Heard pf now h c w in (d, rw (e, ok_h) taken, k)

-- From the client behind the first pulse, which told the user `ns`, to the one before it.
before-Watched :
    (c d : Client) (e : Pulse) (es : List Pulse) (r : Client × Exit) (ns : List Notice)
    → d.on_received_heartbeat ≡ c.on_received_heartbeat
    → d.notices ≡ c.notices ++ ns
    → missed_after c.missed_heartbeats (e ∷ es) ≡ missed_after d.missed_heartbeats es
    → news c.on_received_heartbeat c.missed_heartbeats (e ∷ es)
      ≡ ns ++ news c.on_received_heartbeat d.missed_heartbeats es
    → Watched d es r
    → Watched c (e ∷ es) r
before-Watched c d e es r ns same told count tidings w = record {
  back = w.back;
  counting = w.counting;
  counted = w.counted ∙ sym count;
  told = w.told ∙ rw (same, told) (append_assoc c.notices ns _ ∙ ap (◌++◌ c.notices) (sym tidings));
}

silent-Watched :
    (pf : Platform) (es : List Pulse) (c : Client)
    → IsCounted c
    → ((d : Client) → IsCounted d → Watched d es (watch pf es (d, returns)))
    → Watched c (silent ∷ es) (watch pf es (check_heartbeats c))
unfolding missed_after news
silent-Watched pf es c k rest = elim (Bool-cases (ltb c.missed_heartbeats 6)) [
  | inl below ↦
      let d : Client = record c { missed_heartbeats = c.missed_heartbeats + 1 } in
      rw (check_below c k.watched (ground arith)) (
        before-Watched c d silent es _ [] refl (sym (append-nil c.notices)) refl (rw below refl) (
          rest d (record {
            watched = seen c d refl refl refl refl k;
            living = ground (arith, k.living);
          })))
  | inr at_six ↦
      let d : Client = record c {
        missed_heartbeats = c.missed_heartbeats + 1;
        is_alive = false;
        notices = c.notices ++ (connection_lost ∷ []);
      } in
      rw (check_above c k.watched (ground arith)) (
        before-Watched c d silent es _ (connection_lost ∷ []) refl refl refl (rw at_six refl)
          (rest d (record { watched = seen c d refl refl refl refl k; living = ground arith })))
]
  where
    seen :
        (c d : Client)
        → d.stop_check_missed_heartbeats ≡ c.stop_check_missed_heartbeats
        → d.on_connection_lost ≡ c.on_connection_lost
        → d.has_owner ≡ c.has_owner
        → d.owner_shared ≡ c.owner_shared
        → IsCounted c
        → IsWatched d
    seen c d e f g h k = record {
      checking = e ∙ k.watched.checking;
      handled = f ∙ k.watched.handled;
      owned = g ∙ k.watched.owned;
      shared = h ∙ k.watched.shared;
    }

heard-Watched :
    (pf : Platform) (now : ℤ) (p : Packet) (es : List Pulse) (c : Client)
    → IsCounted c
    → IsReadable (heard now p)
    → ((d : Client) → IsCounted d → Watched d es (watch pf es (d, returns)))
    → Watched c (heard now p ∷ es) (watch pf es (on_packet pf now p c))
unfolding missed_after news
heard-Watched pf now p es c k h rest =
    let (d, handled, heard_it) = on_packet-Heard pf now p c k.watched h in
    rw handled (
      before-Watched c d (heard now p) es _
        (if c.on_received_heartbeat then received_heartbeat ∷ [] else []) heard_it.same
        heard_it.told (rw heard_it.reset refl)
        (rw heard_it.reset (one_more c.on_received_heartbeat (news c.on_received_heartbeat 0 es)))
        (rest d (record {
          watched = heard_it.watched;
          living = heard_it.revived ∙ rw heard_it.reset refl;
        })))
  where
    one_more :
        (b : Bool) (ns : List Notice)
        → (if b then received_heartbeat ∷ ns else ns)
          ≡ (if b then received_heartbeat ∷ [] else []) ++ ns
    one_more true ns = refl
    one_more false ns = refl

-- Whatever the order of checks and readable heartbeats, no handler throws, the count is that of the
-- checks behind the last heartbeat, and the user is told the news.
pub watch-Watched :
    (pf : Platform) (es : List Pulse) (c : Client)
    → IsCounted c
    → All IsReadable es
    → Watched c es (watch pf es (c, returns))
unfolding watch
watch-Watched pf [] c k h = record {
  back = refl;
  counting = k;
  counted = unfold missed_after in refl;
  told = unfold news in sym (append-nil c.notices);
}
watch-Watched pf (silent ∷ es) c k h = silent-Watched pf es c k (λ d l. watch-Watched pf es d l h.1)
watch-Watched pf (heard now p ∷ es) c k h =
    heard-Watched pf now p es c k h.0 (λ d l. watch-Watched pf es d l h.1)
