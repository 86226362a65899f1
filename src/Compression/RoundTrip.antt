-- ===== src/Compression/RoundTrip.antt =====
-- `decompressData` after `compressData` (NetworkClient.cpp), over what zlib documents of its streams.
use parlo_plus_plus.Common.{ℕ, ◌<◌, ◌≡◌, subst, List, some, ok, length}
use parlo_plus_plus.Compression.{
  Code, z_stream_end, ZStream, accessible, compress_data, decompress_data,
}
use parlo_plus_plus.Compression.Loop.{Emits, emits, pass_through-Emits}

-- What zlib documents: with `Z_FINISH` a deflating stream ends by `Z_STREAM_END`, it never emits
-- nothing, and an inflating stream over all that it emitted emits the input and ends likewise.
pub record IsLossless (deflate inflate : ZStream) : Type 1 where
  pub finishes :
      (input : List ℕ) (z : deflate.State) (bytes : List ℕ) (c : Code)
      → deflate.init input ≡ some z
      → Emits deflate z bytes c
      → (c ≡ z_stream_end) × (0 < length bytes)
  pub inflates :
      (input : List ℕ) (z : deflate.State) (bytes : List ℕ)
      → deflate.init input ≡ some z
      → Emits deflate z bytes z_stream_end
      → (z' : inflate.State) × (inflate.init bytes ≡ some z') × Emits inflate z' input z_stream_end

module _ (deflate inflate : ZStream) (lossless : IsLossless deflate inflate) where
  packed_then :
      (input : List ℕ) (z : deflate.State) (bytes : List ℕ) (c : Code)
      → 0 < length input
      → deflate.init input ≡ some z
      → Emits deflate z bytes c
      → (packed : List ℕ) × (compress_data deflate input ≡ ok packed)
        × (decompress_data inflate packed ≡ ok input)
  unfolding compress_data decompress_data
  packed_then input z bytes c h e emitted =
      let (at_end, some_bytes) = lossless.finishes input z bytes c e emitted in
      let whole : Emits deflate z bytes z_stream_end =
        subst (Emits deflate z bytes) at_end emitted in
      let (z', e', back) = lossless.inflates input z bytes e whole in
      (
        bytes,
        pass_through-Emits deflate input z bytes h e whole,
        pass_through-Emits inflate bytes z' input some_bytes e' back,
      )

  -- Over streams that are lossless as zlib documents it, every input that is not empty and for which
  -- a deflating stream can be set up is compressed, and decompressing the result gives it back.
  pub decompress_data-compress_data :
      (input : List ℕ) (z : deflate.State)
      → 0 < length input
      → deflate.init input ≡ some z
      → (packed : List ℕ) × (compress_data deflate input ≡ ok packed)
        × (decompress_data inflate packed ≡ ok input)
  decompress_data-compress_data input z h e =
      let (bytes, c, _, emitted) = emits deflate z (accessible deflate z) in
      packed_then input z bytes c h e emitted
