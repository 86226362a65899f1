-- ===== src/Compression.antt =====
-- `compressData` and `decompressData` of NetworkClient.cpp: the two loops over a zlib stream. The
-- stream itself, zlib's `deflate` with `Z_FINISH` and `inflate`, is a parameter.
pub mod Loop
pub mod RoundTrip
pub mod Stored
mod Tests
use parlo_plus_plus.Common.{
  ℕ, zero, suc, arith, ◌+◌, ◌-◌, ◌<◌, ◌≡◌, ◌≢◌, refl, List, [], ◌∷◌, ◌++◌, Option, none, some,
  Result, ok, throws, invalid_argument, runtime_error, if◌then◌else◌, ltb, length, is_empty, take,
}
use mathlib.Core.Logic.{dite}
use mathlib.Core.WellFounded.{Acc}

-- What a call of `deflate` or `inflate` returns; `z_error` stands for all other codes.
pub data Code : Type 0 where
  z_ok z_stream_end z_error : Code

unfoldable pub Code-discrete : Discrete Code
Code-discrete z_ok z_ok = yes refl
Code-discrete z_ok z_stream_end = no (λ e. cc)
Code-discrete z_ok z_error = no (λ e. cc)
Code-discrete z_stream_end z_ok = no (λ e. cc)
Code-discrete z_stream_end z_stream_end = yes refl
Code-discrete z_stream_end z_error = no (λ e. cc)
Code-discrete z_error z_ok = no (λ e. cc)
Code-discrete z_error z_stream_end = no (λ e. cc)
Code-discrete z_error z_error = yes refl

pub Code-set : IsSet Code
Code-set = hlevel

-- A zlib stream. `init input` is the state after the stream is set up on the whole input, or `none`
-- if that fails. A call in state `z` writes `chunk z` to the front of the output buffer, returns
-- `code z` and leads to `next z`. A call that returns `Z_OK` has made progress, as zlib documents, so
-- that a measure falls.
pub record ZStream : Type 1 where
  pub State : Type 0
  pub init : List ℕ → Option State
  pub code : State → Code
  pub chunk : State → List ℕ
  pub next : State → State
  pub total_out : State → ℕ
  pub remaining : State → ℕ
  pub progress : (z : State) → code z ≡ z_ok → remaining (next z) < remaining z
  pub total_out-init : (input : List ℕ) (z : State) → init input ≡ some z → total_out z ≡ 0
  pub total_out-next : (z : State) → total_out (next z) ≡ total_out z + length (chunk z)

-- The bytes that the last call wrote are appended: those up to `total_out`.
unfoldable pub collect : List ℕ → List ℕ → ℕ → List ℕ
collect outdata outbuffer total =
    if ltb (length outdata) total
    then outdata ++ take (total - length outdata) outbuffer
    else outdata

module _ (s : ZStream) where
  open s use {State, init, code, chunk, next, total_out, remaining, progress}

  -- One state comes after another one if less remains.
  abbrev pub After : State → State → Type 0
  After z' z = remaining z' < remaining z

  After_acc : (n : ℕ) (z : State) → remaining z < n → Acc After z
  After_acc zero z h = absurd (omega arith)
  After_acc (suc n) z h = Acc.intro z (λ z' later. After_acc n z' (omega arith))

  pub accessible : (z : State) → Acc After z
  unfolding After_acc
  accessible z = After_acc (suc (remaining z)) z (omega arith)

  -- The `do … while (ret == Z_OK)` loop: its last return code and the data collected.
  unfoldable pub pump : (z : State) → List ℕ → Acc After z → Code × List ℕ
  unfolding collect
  pump z outdata (Acc.intro _ smaller) =
      let outdata' = collect outdata (chunk z) (total_out (next z)) in
      dite (Code-discrete (code z) z_ok)
        (λ again. pump (next z) outdata' (smaller (next z) (progress z again)))
        (λ _. (code z, outdata'))

  -- The test behind the loop.
  unfoldable pub finished : Code × List ℕ → Result (List ℕ)
  finished (z_ok, outdata) = throws runtime_error
  finished (z_stream_end, outdata) = ok outdata
  finished (z_error, outdata) = throws runtime_error

  unfoldable pub run_stream : Option State → Result (List ℕ)
  unfolding pump finished accessible
  run_stream none = throws runtime_error
  run_stream (some z) = finished (pump z [] (accessible z))

  -- `compressData` is this on a deflating stream and `decompressData` on an inflating one: the two
  -- bodies differ in nothing else.
  unfoldable pub pass_through : List ℕ → Result (List ℕ)
  unfolding run_stream
  pass_through input = if is_empty input then throws invalid_argument else run_stream (init input)

unfoldable pub compress_data : ZStream → List ℕ → Result (List ℕ)
unfolding pass_through
compress_data deflate input = pass_through deflate input

unfoldable pub decompress_data : ZStream → List ℕ → Result (List ℕ)
unfolding pass_through
decompress_data inflate input = pass_through inflate input
