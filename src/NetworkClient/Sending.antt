-- ===== src/NetworkClient/Sending.antt =====
-- `sendAsync` and `shouldCompressData` of NetworkClient.cpp.
use parlo_plus_plus.Common.{
  ℕ, ◌≤◌, ◌<◌, ◌≡◌, refl, ap, ◌⊎◌, inl, inr, Bool, true, false, not, List, [], ◌∷◌, ◌++◌, Exception,
  Result, ok, throws, invalid_argument, overflow_error, runtime_error, bad_weak_ptr, ◌>>=◌,
  if◌then◌else◌, ltb, length, is_empty, Bool-cases, arith,
}
use mathlib.Core.Logic.{◌↔◌}
use parlo_plus_plus.Common.Int.{ℤ, pos, ltb_ℤ}
use parlo_plus_plus.Packet.{Packet, max_packet_size, tcp_packet}
use parlo_plus_plus.Compression.{compress_data}
use parlo_plus_plus.NetworkClient.{
  Platform, Client, Exit, returns, raises, compression_threshold, rtt_compression_threshold,
  lose_connection,
}

unfoldable pub should_compress_data : Client → List ℕ → ℤ → Result Bool
should_compress_data c bytes rtt =
    if is_empty bytes
    then throws invalid_argument
    else if not c.apply_compression
    then ok false
    else if ltb (length bytes) compression_threshold
    then ok false
    else ok (ltb_ℤ rtt_compression_threshold rtt)

-- `async_write` of the caller's `data`, behind `shared_from_this()` of the `Impl`.
unfoldable pub write : List ℕ → Client → Client × Exit
write bytes c =
    if c.impl_shared
    then (record c { written = c.written ++ (bytes ∷ []) }, returns)
    else (c, raises bad_weak_ptr)

-- The branch that compresses: the packet is made of `finalData`, which is still empty there, and not
-- of `compressedData`. Its bytes go to `finalData`, which nothing reads.
unfoldable pub compressed_packet : Platform → List ℕ → Result Packet
compressed_packet pf [] = throws invalid_argument
compressed_packet pf (x ∷ xs) = do
  compressed ← compress_data pf.deflate (x ∷ xs)
  tcp_packet x [] true

unfoldable pub send_final : Bool → Platform → List ℕ → Client → Client × Exit
send_final false pf bytes c = write bytes c
send_final true pf bytes c = elim (compressed_packet pf bytes) [
  | throws e ↦ (c, raises e)
  | ok p ↦ write bytes c
]

unfoldable pub send_checked : Result Bool → Platform → List ℕ → Client → Client × Exit
unfolding send_final
send_checked (throws e) pf bytes c = (c, raises e)
send_checked (ok compress) pf bytes c = send_final compress pf bytes c

-- `sendAsync`
unfoldable pub send_async : Platform → List ℕ → Client → Client × Exit
send_async pf bytes c =
    if is_empty bytes
    then (c, raises invalid_argument)
    else if ltb max_packet_size (length bytes)
    then (c, raises overflow_error)
    else if not c.connected
    then (c, raises runtime_error)
    else send_checked (should_compress_data c bytes c.last_rtt) pf bytes c

-- The completion of a write: `failed` says whether there was an error.
unfoldable pub on_written : Bool → Client → Client × Exit
unfolding lose_connection
on_written failed c =
    if failed then lose_connection (record c { connected = false }) else (c, returns)

-- `should_compress_data` throws exactly on no data, and otherwise asks for compression exactly where
-- compression is applied, the data has at least 1024 bytes and the round trip takes over 100 ms.
pub should_compress_data_iff :
    (c : Client) (bytes : List ℕ) (rtt : ℕ)
    → ((should_compress_data c bytes (pos rtt) ≡ ok true)
        ↔ ((c.apply_compression ≡ true) × (1024 ≤ length bytes) × (100 < rtt)))
      × ((should_compress_data c bytes (pos rtt) ≡ throws invalid_argument) ↔ (bytes ≡ []))
unfolding should_compress_data
should_compress_data_iff c [] rtt =
    ((λ e. cc, λ h. absurd (omega (arith, h.1))), (λ e. refl, λ e. refl))
should_compress_data_iff c (x ∷ xs) rtt = (
  (λ e. ground arith, λ h. ground arith),
  (λ e. ground arith, λ e. absurd (omega (arith, ap length e))),
)

-- The branch that compresses never has a packet to send.
compressed_packet_throws :
    (pf : Platform) (bytes : List ℕ) → (e : Exception) × (compressed_packet pf bytes ≡ throws e)
unfolding compressed_packet tcp_packet
compressed_packet_throws pf [] = (invalid_argument, refl)
compressed_packet_throws pf (x ∷ xs) = after (compress_data pf.deflate (x ∷ xs))
  where
    after :
        (r : Result (List ℕ))
        → (e : Exception) × ((r >>= λ compressed. tcp_packet x [] true) ≡ throws e)
    after (ok compressed) = (invalid_argument, refl)
    after (throws e) = (e, refl)

-- The bytes are written as they are, under all of the code's conditions.
abbrev pub Writes : List ℕ → Client → Client × Exit → Type 0
Writes bytes c r =
    (r ≡ (record c { written = c.written ++ (bytes ∷ []) }, returns))
    × (0 < length bytes)
    × (length bytes ≤ 1024)
    × (c.connected ≡ true)
    × (c.impl_shared ≡ true)
    × (should_compress_data c bytes c.last_rtt ≡ ok false)

-- An exception leaves the client as it was.
abbrev pub Refuses : Client → Client × Exit → Type 0
Refuses c r = (e : Exception) × (r ≡ (c, raises e))

write_total :
    (bytes : List ℕ) (c : Client)
    → ((c.impl_shared ≡ true)
        × (write bytes c ≡ (record c { written = c.written ++ (bytes ∷ []) }, returns)))
      ⊎ ((c.impl_shared ≡ false) × (write bytes c ≡ (c, raises bad_weak_ptr)))
unfolding write
write_total bytes c = elim (Bool-cases c.impl_shared) [
  | inl e ↦ inl (e, ground arith)
  | inr e ↦ inr (e, ground arith)
]

send_checked_total :
    (pf : Platform) (bytes : List ℕ) (c : Client) (r : Result Bool)
    → 0 < length bytes
    → length bytes ≤ 1024
    → c.connected ≡ true
    → should_compress_data c bytes c.last_rtt ≡ r
    → Writes bytes c (send_checked r pf bytes c) ⊎ Refuses c (send_checked r pf bytes c)
unfolding send_checked
send_checked_total pf bytes c (throws e) h k l same = inr (e, refl)
send_checked_total pf bytes c (ok true) h k l same =
    let (e, fails) = compressed_packet_throws pf bytes in inr (e, rw (fails, send_final))
send_checked_total pf bytes c (ok false) h k l same = elim (write_total bytes c) [
  | inl (s, e) ↦ inl (e, h, k, l, s, same)
  | inr (s, e) ↦ inr (bad_weak_ptr, e)
]

guarded_total :
    (bytes : List ℕ) (c : Client) (over connected : Bool) (r : Client × Exit)
    → (over ≡ false → connected ≡ true → Writes bytes c r ⊎ Refuses c r)
    → Writes bytes c (
        if over
        then (c, raises overflow_error)
        else if not connected
        then (c, raises runtime_error)
        else r)
      ⊎ Refuses c (
          if over
          then (c, raises overflow_error)
          else if not connected
          then (c, raises runtime_error)
          else r)
guarded_total bytes c true connected r k = inr (overflow_error, refl)
guarded_total bytes c false true r k = k refl refl
guarded_total bytes c false false r k = inr (runtime_error, refl)

-- Either the bytes are written or the call throws.
pub send_async_total :
    (pf : Platform) (bytes : List ℕ) (c : Client)
    → Writes bytes c (send_async pf bytes c) ⊎ Refuses c (send_async pf bytes c)
unfolding send_async
send_async_total pf [] c = inr (invalid_argument, refl)
send_async_total pf (x ∷ xs) c =
    guarded_total (x ∷ xs) c (ltb max_packet_size (length (x ∷ xs))) c.connected _ λ fits connected.
      send_checked_total pf (x ∷ xs) c (should_compress_data c (x ∷ xs) c.last_rtt) (omega arith)
        (ground arith) connected refl

-- Where compression is asked for, nothing is sent: `send_async` throws and the client stays as it
-- was.
pub send_async_compressing :
    (pf : Platform) (bytes : List ℕ) (c : Client)
    → should_compress_data c bytes c.last_rtt ≡ ok true
    → Refuses c (send_async pf bytes c)
send_async_compressing pf bytes c e = elim (send_async_total pf bytes c) [
  | inl w ↦ cc (e, w.5)
  | inr r ↦ r
]

-- If all of the conditions hold, the bytes are written, as they are.
pub send_async_writes :
    (pf : Platform) (bytes : List ℕ) (c : Client)
    → 0 < length bytes
    → length bytes ≤ 1024
    → c.connected ≡ true
    → c.impl_shared ≡ true
    → should_compress_data c bytes c.last_rtt ≡ ok false
    → send_async pf bytes c ≡ (record c { written = c.written ++ (bytes ∷ []) }, returns)
unfolding send_async send_checked write
send_async_writes pf [] c h k l s e = absurd (omega arith)
send_async_writes pf (x ∷ xs) c h k l s e = ground arith

-- The code's conditions of a write.
abbrev pub Sendable : List ℕ → Client → Type 0
Sendable bytes c =
    (0 < length bytes)
    × (length bytes ≤ 1024)
    × (c.connected ≡ true)
    × (c.impl_shared ≡ true)
    × (should_compress_data c bytes c.last_rtt ≡ ok false)

-- Where the data is not empty and has at most 1024 bytes, the client is connected, a `shared_ptr` owns
-- its `Impl` and no compression is asked for, `send_async` returns and has written the bytes as they are.
-- In every other case it throws, and the client stays as it was.
pub send_async_exact :
    (pf : Platform) (bytes : List ℕ) (c : Client)
    → (Sendable bytes c
        → send_async pf bytes c ≡ (record c { written = c.written ++ (bytes ∷ []) }, returns))
      × (¬ Sendable bytes c → Refuses c (send_async pf bytes c))
send_async_exact pf bytes c = (
  λ (some_data, fits, connected, shared, plain).
      send_async_writes pf bytes c some_data fits connected shared plain,
  λ f. elim (send_async_total pf bytes c) [
    | inl (_, a, b, d, e, g) ↦ absurd (f (a, b, d, e, g))
    | inr r ↦ r
  ],
)

-- Less data than the threshold is never compressed, so that it is sent.
pub send_async_small :
    (pf : Platform) (bytes : List ℕ) (c : Client)
    → 0 < length bytes
    → length bytes < 1024
    → c.connected ≡ true
    → c.impl_shared ≡ true
    → send_async pf bytes c ≡ (record c { written = c.written ++ (bytes ∷ []) }, returns)
send_async_small pf bytes c h k l s =
    send_async_writes pf bytes c h (omega arith) l s (small bytes h k)
  where
    small :
        (bytes : List ℕ)
        → 0 < length bytes
        → length bytes < 1024
        → should_compress_data c bytes c.last_rtt ≡ ok false
    small [] h k = absurd (omega arith)
    small (x ∷ xs) h k = unfold should_compress_data in ground arith

-- Without a `shared_ptr` to its `Impl` a client sends nothing.
pub send_async_unshared :
    (pf : Platform) (bytes : List ℕ) (c : Client)
    → c.impl_shared ≡ false
    → Refuses c (send_async pf bytes c)
send_async_unshared pf bytes c e = elim (send_async_total pf bytes c) [
  | inl w ↦ cc (e, w.4)
  | inr r ↦ r
]
