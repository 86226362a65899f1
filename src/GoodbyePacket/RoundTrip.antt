-- ===== src/GoodbyePacket/RoundTrip.antt =====
-- What GoodbyePacket.cpp reads back of what it writes.
use parlo_plus_plus.Common.{
  ℕ, ◌<◌, ◌≡◌, refl, ap, ◌∙◌, false, List, [], ◌++◌, append_assoc, ok, ltb, length, length-append,
  arith,
}
use parlo_plus_plus.Common.Int.{IsInt64, to_coarse, to_fine, to_coarse-IsInt64, to_coarse-to_fine}
use parlo_plus_plus.Common.Bytes.{
  store_int64, load_int64, length-store_int64, load_int64-store_int64,
}
use parlo_plus_plus.GoodbyePacket.{GoodbyePacket, goodbye_bytes, goodbye_of_bytes}

pub length-goodbye_bytes : (ticks : ℕ) (g : GoodbyePacket) → length (goodbye_bytes ticks g) ≡ 16
unfolding goodbye_bytes
length-goodbye_bytes ticks g = omega (
  arith,
  length-append (store_int64 g.timeout) (store_int64 (to_coarse ticks g.sent_time)),
  length-store_int64 g.timeout,
  length-store_int64 (to_coarse ticks g.sent_time),
)

-- The reader gives back what was written, whatever follows it: the timeout, and the time of sending
-- cut to whole seconds. Written again, that packet has the same bytes.
pub goodbye_of_bytes-goodbye_bytes :
    (ticks : ℕ) (g : GoodbyePacket) (rest : List ℕ)
    → 0 < ticks
    → IsInt64 g.timeout
    → IsInt64 g.sent_time
    → (g' : GoodbyePacket) × (goodbye_of_bytes ticks (goodbye_bytes ticks g ++ rest) ≡ ok g')
      × (g'.timeout ≡ g.timeout)
      × (g'.sent_time ≡ to_fine ticks (to_coarse ticks g.sent_time))
      × (goodbye_bytes ticks g' ≡ goodbye_bytes ticks g)
unfolding goodbye_of_bytes goodbye_bytes
goodbye_of_bytes-goodbye_bytes ticks g rest some_ticks f h = (
  kept,
  ground (arith, long, at_0, at_8),
  refl,
  refl,
  ap (λ c. first ++ store_int64 c)
      (to_coarse-to_fine ticks (to_coarse ticks g.sent_time) some_ticks),
)
  where
    kept : GoodbyePacket
    kept = record g { sent_time = to_fine ticks (to_coarse ticks g.sent_time) }

    first : List ℕ
    first = store_int64 g.timeout

    second : List ℕ
    second = store_int64 (to_coarse ticks g.sent_time)

    bytes : List ℕ
    bytes = (first ++ second) ++ rest

    long : ltb (length bytes) 16 ≡ false
    long = ground (
      arith,
      length-append (first ++ second) rest,
      length-append first second,
      length-store_int64 g.timeout,
      length-store_int64 (to_coarse ticks g.sent_time),
    )

    at_0 : load_int64 bytes 0 ≡ g.timeout
    at_0 =
        ap (λ bs. load_int64 bs 0) (append_assoc first second rest)
        ∙ load_int64-store_int64 [] (second ++ rest) 0 g.timeout refl f

    at_8 : load_int64 bytes 8 ≡ to_coarse ticks g.sent_time
    at_8 =
        ap (λ bs. load_int64 bs 8) (append_assoc first second rest)
        ∙ load_int64-store_int64 first rest 8 (to_coarse ticks g.sent_time)
            (omega (arith, length-store_int64 g.timeout)) (to_coarse-IsInt64 ticks g.sent_time h)
