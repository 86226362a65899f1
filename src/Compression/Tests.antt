-- ===== src/Compression/Tests.antt =====
-- Runs of the two loops over the streams of `Stored`.
use parlo_plus_plus.Common.{ℕ, ◌≡◌, refl, List, [], ◌∷◌, some, ok, arith}
use parlo_plus_plus.Compression.{Code-discrete, compress_data, decompress_data}
use parlo_plus_plus.Compression.Stored.{
  set_up_deflate, stored_code, stored_deflate, stored_inflate, stored-IsLossless,
}
use parlo_plus_plus.Compression.RoundTrip.{decompress_data-compress_data}

abbrev five_bytes : List ℕ
five_bytes = 1 ∷ 2 ∷ 3 ∷ 4 ∷ 5 ∷ []

compress_five : compress_data stored_deflate five_bytes ≡ ok (0x78 ∷ five_bytes)
unfolding compress_data set_up_deflate Code-discrete stored_code
compress_five = refl

five_set_up : set_up_deflate five_bytes ≡ some (0, 0x78 ∷ five_bytes)
unfolding set_up_deflate
five_set_up = refl

decompress_data-compress_data_example :
    (packed : List ℕ) × (compress_data stored_deflate five_bytes ≡ ok packed)
    × (decompress_data stored_inflate packed ≡ ok five_bytes)
decompress_data-compress_data_example =
    decompress_data-compress_data stored_deflate stored_inflate stored-IsLossless five_bytes
      (0, 0x78 ∷ five_bytes) (omega arith) five_set_up
