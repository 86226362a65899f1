-- ===== src/NetworkClient/Delivery.antt =====
-- Data packets on their way to the user (NetworkClient.cpp).
use parlo_plus_plus.Common.{
  ℕ, ◌<◌, ◌≡◌, ◌≢◌, refl, subst, sym, ap, ◌∙◌, true, false, List, [], ◌∷◌, ◌++◌, some, ok, length,
  arith,
}
use parlo_plus_plus.Common.Int.{ℤ}
use parlo_plus_plus.Packet.{Packet, tcp_packet}
use parlo_plus_plus.Compression.{compress_data, decompress_data}
use parlo_plus_plus.Compression.RoundTrip.{IsLossless, decompress_data-compress_data}
use parlo_plus_plus.NetworkClient.{Platform, Client, Exit, returns, received_data, notify}
use parlo_plus_plus.NetworkClient.Receiving.{hand_on, forward, on_data, on_packet}

-- A user's packet: its ID is not one of the library's.
abbrev pub IsUsers : Packet → Type 0
IsUsers p = (p.id ≢ 0xfd) × (p.id ≢ 0xfe) × (p.id ≢ 0xff)

-- A client that can hand data on.
abbrev pub Listens : Client → Type 0
Listens c = (c.on_received_data ≡ true) × (c.owner_shared ≡ true)

-- The user is given a packet with the ID and these bytes, and nothing else changes.
abbrev pub HandsOver : ℕ → List ℕ → Client → Client × Exit → Type 0
HandsOver id bytes c r =
    (p : Packet) × (tcp_packet id bytes false ≡ ok p)
    × (p.payload ≡ bytes)
    × (r ≡ (record c { notices = c.notices ++ (received_data p ∷ []) }, returns))

forward_ok :
    (id : ℕ) (bytes : List ℕ) (c : Client)
    → 0 < length bytes
    → Listens c
    → HandsOver id bytes c (forward id (ok bytes) c)
unfolding forward hand_on notify tcp_packet
forward_ok id [] c h k = absurd (omega arith)
forward_ok id (x ∷ xs) c h k = (_, refl, refl, ground arith)

on_packet-on_data :
    (pf : Platform) (now : ℤ) (p : Packet) (c : Client)
    → IsUsers p
    → on_packet pf now p c ≡ on_data pf p c
unfolding on_packet
on_packet-on_data pf now p c h = ground arith

on_data_plain :
    (pf : Platform) (p : Packet) (c : Client)
    → p.is_compressed ≡ 0
    → on_data pf p c ≡ forward p.id (ok p.payload) c
unfolding on_data
on_data_plain pf p c e = ground arith

on_data_packed :
    (pf : Platform) (p : Packet) (c : Client)
    → p.is_compressed ≡ 1
    → on_data pf p c ≡ forward p.id (decompress_data pf.inflate p.payload) c
unfolding on_data
on_data_packed pf p c e = ground arith

-- Data that was not compressed reaches the user's handler, if one is set, byte for byte.
pub on_packet-data :
    (pf : Platform) (now : ℤ) (p : Packet) (c : Client)
    → IsUsers p
    → Listens c
    → p.is_compressed ≡ 0
    → 0 < length p.payload
    → HandsOver p.id p.payload c (on_packet pf now p c)
on_packet-data pf now p c h k plain some_bytes =
    subst (HandsOver p.id p.payload c)
      (sym (on_packet-on_data pf now p c h ∙ on_data_plain pf p c plain))
      (forward_ok p.id p.payload c some_bytes k)

-- Data that the sender's `compress_data` packed reaches the user's handler, if one is set, unpacked:
-- over streams that are lossless as zlib documents it.
pub on_packet-compress_data :
    (pf : Platform) (now : ℤ) (p : Packet) (c : Client) (input : List ℕ) (z : pf.deflate.State)
    → IsLossless pf.deflate pf.inflate
    → IsUsers p
    → Listens c
    → p.is_compressed ≡ 1
    → 0 < length input
    → pf.deflate.init input ≡ some z
    → compress_data pf.deflate input ≡ ok p.payload
    → HandsOver p.id input c (on_packet pf now p c)
on_packet-compress_data pf now p c input z lossless h k packed some_bytes set_up sent =
    subst (HandsOver p.id input c)
      (sym (
        on_packet-on_data pf now p c h
        ∙ on_data_packed pf p c packed
        ∙ ap (λ r. forward p.id r c) unpacked))
      (forward_ok p.id input c some_bytes k)
  where
    unpacked : decompress_data pf.inflate p.payload ≡ ok input
    unpacked =
        let (there, out, back) =
          decompress_data-compress_data pf.deflate pf.inflate lossless input z some_bytes set_up in
        cc (sent, out, back)
