-- ===== src/HeartbeatPacket/RoundTrip.antt =====
-- What HeartbeatPacket.cpp reads back of what it writes.
use parlo_plus_plus.Common.{
  ℕ, ◌<◌, false, ◌≡◌, refl, ap, ◌∙◌, List, [], ◌∷◌, ◌++◌, append_assoc, ok, throws, runtime_error,
  ltb, length, length-append, arith,
}
use parlo_plus_plus.Common.Int.{IsInt64, to_coarse, to_fine, to_coarse-IsInt64, to_coarse-to_fine}
use parlo_plus_plus.Common.Bytes.{
  store_int64, load_int64, length-store_int64, load_int64-store_int64,
}
use parlo_plus_plus.HeartbeatPacket.{HeartbeatPacket, heartbeat_bytes, heartbeat_of_bytes}

pub length-heartbeat_bytes :
    (ticks : ℕ) (h : HeartbeatPacket) → length (heartbeat_bytes ticks h) ≡ 16
unfolding heartbeat_bytes
length-heartbeat_bytes ticks h = omega (
  arith,
  length-append (store_int64 h.time_since_last) (store_int64 (to_coarse ticks h.sent_timestamp)),
  length-store_int64 h.time_since_last,
  length-store_int64 (to_coarse ticks h.sent_timestamp),
)

-- The reader refuses every array that the writer makes: it wants one more byte in front.
pub heartbeat_of_bytes-heartbeat_bytes :
    (ticks : ℕ) (h : HeartbeatPacket)
    → heartbeat_of_bytes ticks (heartbeat_bytes ticks h) ≡ throws runtime_error
unfolding heartbeat_of_bytes
heartbeat_of_bytes-heartbeat_bytes ticks h = ground (arith, length-heartbeat_bytes ticks h)

-- Behind any one byte, and before any others, the reader gives back the time since the last packet
-- and the time of sending cut to whole milliseconds. Written again, that packet has the same bytes.
pub heartbeat_of_bytes-cons :
    (ticks id : ℕ) (h : HeartbeatPacket) (rest : List ℕ)
    → 0 < ticks
    → IsInt64 h.time_since_last
    → IsInt64 h.sent_timestamp
    → (h' : HeartbeatPacket) × (heartbeat_of_bytes ticks (id ∷ (heartbeat_bytes ticks h ++ rest))
        ≡ ok h')
      × (h'.time_since_last ≡ h.time_since_last)
      × (h'.sent_timestamp ≡ to_fine ticks (to_coarse ticks h.sent_timestamp))
      × (heartbeat_bytes ticks h' ≡ heartbeat_bytes ticks h)
unfolding heartbeat_of_bytes heartbeat_bytes
heartbeat_of_bytes-cons ticks id h rest some_ticks f g = (
  kept,
  ground (arith, long, at_1, at_9),
  refl,
  refl,
  ap (λ c. store_int64 h.time_since_last ++ store_int64 c)
      (to_coarse-to_fine ticks (to_coarse ticks h.sent_timestamp) some_ticks),
)
  where
    kept : HeartbeatPacket
    kept = record h { sent_timestamp = to_fine ticks (to_coarse ticks h.sent_timestamp) }

    first : List ℕ
    first = store_int64 h.time_since_last

    second : List ℕ
    second = store_int64 (to_coarse ticks h.sent_timestamp)

    bytes : List ℕ
    bytes = id ∷ ((first ++ second) ++ rest)

    long : ltb (length bytes) 17 ≡ false
    long = ground (
      arith,
      length-append (first ++ second) rest,
      length-append first second,
      length-store_int64 h.time_since_last,
      length-store_int64 (to_coarse ticks h.sent_timestamp),
    )

    at_1 : load_int64 bytes 1 ≡ h.time_since_last
    at_1 =
        ap (λ bs. load_int64 (id ∷ bs) 1) (append_assoc first second rest)
        ∙ load_int64-store_int64 (id ∷ []) (second ++ rest) 1 h.time_since_last refl f

    at_9 : load_int64 bytes 9 ≡ to_coarse ticks h.sent_timestamp
    at_9 =
        ap (λ bs. load_int64 (id ∷ bs) 9) (append_assoc first second rest)
        ∙ load_int64-store_int64 (id ∷ first) rest 9 (to_coarse ticks h.sent_timestamp)
            (omega (arith, length-store_int64 h.time_since_last))
            (to_coarse-IsInt64 ticks h.sent_timestamp g)
