-- ===== src/ProcessingBuffer/Reference.antt =====
-- A reference decoder for the bytes of a connection: all of them at once, with no buffer, no chunks
-- and no machine words. It says what ProcessingBuffer.cpp makes of any bytes, malformed ones
-- included.
pub mod Bodies
pub mod Steps
pub mod Agreement
pub mod Settling
use parlo_plus_plus.Common.{
  ℕ, zero, suc, ◌+◌, ◌-◌, ◌≤◌, ◌<◌, ◌≡◌, refl, sym, ap, ◌∙◌, Bool, true, false, not, List, [], ◌∷◌,
  if◌then◌else◌, ltb, ◌==◌, length, length-drop, take, drop, arith,
}
use parlo_plus_plus.Packet.{Packet, flag}
use parlo_plus_plus.Packet.Build.{joined}

abbrev pub tcp_of : ℕ → Bool → ℕ → List ℕ → Packet
tcp_of id compressed len bytes = record {
  id = id;
  is_compressed = flag compressed;
  is_reliable = 0;
  length = len;
  payload = bytes;
  is_udp = false;
}

-- What follows a header, `more` being what is made of the bytes behind the body: the packets, and
-- whether the process ends. A length below 4 leaves the decoder stuck, a length of 4 ends the
-- process, and a body that is not all there is waited for.
unfoldable pub decode_body : ℕ → Bool → ℕ → List ℕ → List Packet × Bool → List Packet × Bool
decode_body id compressed len rest more =
    if ltb len 4
    then ([], false)
    else if len == 4
    then ([], true)
    else if ltb (length rest) (len - 4)
    then ([], false)
    else (tcp_of id compressed len (take (len - 4) rest) ∷ more.0, more.1)

-- The first argument bounds the number of packets.
unfoldable pub decode : ℕ → List ℕ → List Packet × Bool
unfolding decode_body
decode zero bytes = ([], false)
decode (suc n) (id ∷ compressed ∷ low ∷ high ∷ rest) =
    decode_body id (not (compressed == 0)) (joined low high) rest
      (decode n (drop (joined low high - 4) rest))
decode (suc n) _ = ([], false)

-- There are not more packets than bytes.
unfoldable pub reference : List ℕ → List Packet × Bool
unfolding decode
reference bytes = decode (length bytes) bytes

decode_short : (n : ℕ) (bytes : List ℕ) → length bytes < 4 → decode n bytes ≡ ([], false)
unfolding decode
decode_short zero bytes h = refl
decode_short (suc n) [] h = refl
decode_short (suc n) (_ ∷ []) h = refl
decode_short (suc n) (_ ∷ _ ∷ []) h = refl
decode_short (suc n) (_ ∷ _ ∷ _ ∷ []) h = refl
decode_short (suc n) (_ ∷ _ ∷ _ ∷ _ ∷ rest) h = absurd (omega arith)

-- Any bound that is large enough gives the same.
decode_bound :
    (n m : ℕ) (bytes : List ℕ)
    → length bytes ≤ n
    → length bytes ≤ m
    → decode n bytes ≡ decode m bytes
unfolding decode
decode_bound (suc n) (suc m) (id ∷ compressed ∷ low ∷ high ∷ rest) h k =
    let size = length-drop (joined low high - 4) rest in
    ap (decode_body id (not (compressed == 0)) (joined low high) rest) (
      decode_bound n m (drop (joined low high - 4) rest) (omega (arith, size))
        (omega (arith, size)))
decode_bound zero m (_ ∷ _ ∷ _ ∷ _ ∷ rest) h k = absurd (omega arith)
decode_bound (suc n) zero (_ ∷ _ ∷ _ ∷ _ ∷ rest) h k = absurd (omega arith)
decode_bound n m [] h k = decode_short n [] (omega arith) ∙ sym (decode_short m [] (omega arith))
decode_bound n m (x ∷ []) h k =
    decode_short n (x ∷ []) (omega arith) ∙ sym (decode_short m (x ∷ []) (omega arith))
decode_bound n m (x ∷ y ∷ []) h k =
    decode_short n (x ∷ y ∷ []) (omega arith) ∙ sym (decode_short m (x ∷ y ∷ []) (omega arith))
decode_bound n m (x ∷ y ∷ z ∷ []) h k =
    decode_short n (x ∷ y ∷ z ∷ []) (omega arith)
    ∙ sym (decode_short m (x ∷ y ∷ z ∷ []) (omega arith))

pub reference_short : (bytes : List ℕ) → length bytes < 4 → reference bytes ≡ ([], false)
unfolding reference
reference_short bytes h = decode_short (length bytes) bytes h

-- What the reference makes of a header, without a bound.
pub reference_header :
    (id compressed low high : ℕ) (rest : List ℕ)
    → reference (id ∷ compressed ∷ low ∷ high ∷ rest)
      ≡ decode_body id
          (not (compressed == 0))
          (joined low high)
          rest
          (reference (drop (joined low high - 4) rest))
unfolding reference
reference_header id compressed low high rest =
    let size = length-drop (joined low high - 4) rest in
    unfold decode in
    ap (decode_body id (not (compressed == 0)) (joined low high) rest) (
      decode_bound (suc (suc (suc (length rest)))) (length (drop (joined low high - 4) rest))
        (drop (joined low high - 4) rest) (omega (arith, size)) (omega arith))

module _ (id : ℕ) (compressed : Bool) (len : ℕ) (rest : List ℕ) (more : List Packet × Bool) where
  pub decode_body_stuck : len < 4 → decode_body id compressed len rest more ≡ ([], false)
  unfolding decode_body
  decode_body_stuck h = ground arith

  pub decode_body_empty : len ≡ 4 → decode_body id compressed len rest more ≡ ([], true)
  unfolding decode_body
  decode_body_empty h = ground arith

  pub decode_body_missing :
      4 < len → length rest < len - 4 → decode_body id compressed len rest more ≡ ([], false)
  unfolding decode_body
  decode_body_missing h k = ground arith

  pub decode_body_whole :
      4 < len
      → len - 4 ≤ length rest
      → decode_body id compressed len rest more
        ≡ (tcp_of id compressed len (take (len - 4) rest) ∷ more.0, more.1)
  unfolding decode_body
  decode_body_whole h k = ground arith
