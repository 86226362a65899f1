-- ===== src/Compression/Loop.antt =====
-- What the loops of NetworkClient.cpp collect from a zlib stream.
use parlo_plus_plus.Common.{
  ℕ, ◌+◌, ◌-◌, ◌<◌, ◌≡◌, ◌≢◌, refl, sym, ap, ◌∙◌, ◌⊎◌, inl, inr, List, [], ◌∷◌, ◌++◌, append-nil,
  append_assoc, Option, none, some, Result, ok, throws, invalid_argument, runtime_error, length,
  take, length-append, take-length-append, arith,
}
use parlo_plus_plus.Compression.{
  Code, z_ok, z_stream_end, Code-discrete, Code-set, ZStream, After, accessible, collect, pump,
  finished, run_stream, pass_through,
}
use mathlib.Core.Logic.{dif_pos, dif_neg}
use mathlib.Core.WellFounded.{Acc}

take_whole : (n : ℕ) (xs : List ℕ) → n ≡ length xs → take n xs ≡ xs
take_whole n xs h = ap (take n) (sym (append-nil xs)) ∙ take-length-append n xs [] h

-- With as much collected as the stream counted before, all of the new chunk is appended.
collect_chunk :
    (outdata outbuffer : List ℕ) (total : ℕ)
    → total ≡ length outdata + length outbuffer
    → collect outdata outbuffer total ≡ outdata ++ outbuffer
unfolding collect
collect_chunk outdata [] total h = ground (arith, append-nil outdata)
collect_chunk outdata (x ∷ xs) total h =
    let whole = take_whole (total - length outdata) (x ∷ xs) (omega arith) in ground (arith, whole)

module _ (s : ZStream) where
  open s use {
    State, init, code, chunk, next, total_out, remaining, progress, total_out-init, total_out-next,
  }

  -- The bytes that a stream emits from a state on, call after call for as long as it returns `Z_OK`,
  -- and the code that ends it.
  pub data Emits : State → List ℕ → Code → Type 0 where
    last :
        {z : State} {bytes : List ℕ} {c : Code}
        → code z ≢ z_ok
        → bytes ≡ chunk z
        → c ≡ code z
        → Emits z bytes c
    more :
        {z : State} {bytes : List ℕ} {c : Code} (rest : List ℕ)
        → code z ≡ z_ok
        → Emits (next z) rest c
        → bytes ≡ chunk z ++ rest
        → Emits z bytes c

  collect_next :
      (z : State) (outdata : List ℕ)
      → total_out z ≡ length outdata
      → collect outdata (chunk z) (total_out (next z)) ≡ outdata ++ chunk z
  collect_next z outdata h =
      collect_chunk outdata (chunk z) (total_out (next z)) (omega (arith, total_out-next z))

  pump_stop :
      (z : State) (outdata : List ℕ) (w : Acc (After s) z)
      → total_out z ≡ length outdata
      → code z ≢ z_ok
      → pump s z outdata w ≡ (code z, outdata ++ chunk z)
  unfolding pump
  pump_stop z outdata (Acc.intro _ smaller) h ends =
      dif_neg (Code-discrete (code z) z_ok) ends _ _
      ∙ ap (λ o. (code z, o)) (collect_next z outdata h)

  pump_again :
      (z : State) (outdata : List ℕ) (smaller : (z' : State) → After s z' z → Acc (After s) z')
      → total_out z ≡ length outdata
      → (again : code z ≡ z_ok)
      → pump s z outdata (Acc.intro z smaller)
        ≡ pump s (next z) (outdata ++ chunk z) (smaller (next z) (progress z again))
  unfolding pump
  pump_again z outdata smaller h again =
      dif_pos (Code-discrete (code z) z_ok) (Code-set (code z) z_ok) again _ _
      ∙ ap (λ o. pump s (next z) o (smaller (next z) (progress z again))) (collect_next z outdata h)

  -- The loop returns what the stream emits, behind what it had.
  pump-Emits :
      (z : State) (bytes : List ℕ) (c : Code) (outdata : List ℕ) (w : Acc (After s) z)
      → Emits z bytes c
      → total_out z ≡ length outdata
      → pump s z outdata w ≡ (c, outdata ++ bytes)
  pump-Emits z bytes c outdata w (last ends at_chunk at_code) h =
      pump_stop z outdata w h ends ∙ rw (at_chunk, at_code)
  pump-Emits z bytes c outdata (Acc.intro _ smaller) (more rest again e at_chunk) h =
      pump_again z outdata smaller h again
      ∙ pump-Emits (next z) rest c (outdata ++ chunk z) (smaller (next z) (progress z again)) e
          (omega (arith, total_out-next z, length-append outdata (chunk z)))
      ∙ ap (λ o. (c, o)) (append_assoc outdata (chunk z) rest ∙ ap (◌++◌ outdata) (sym at_chunk))

  -- Every state emits something and ends, since each call that returns `Z_OK` makes progress.
  pub emits :
      (z : State) → Acc (After s) z → (bytes : List ℕ) × (c : Code) × (c ≢ z_ok) × Emits z bytes c
  emits z (Acc.intro _ smaller) = elim (Code-discrete (code z) z_ok) [
    | no ends ↦ (chunk z, code z, ends, last ends refl refl)
    | yes again ↦
        let (rest, c, ne, e) = emits (next z) (smaller (next z) (progress z again)) in
        (chunk z ++ rest, c, ne, more rest again e refl)
  ]

  -- What comes of an input: nothing is accepted that is empty, the stream may fail to be set up, or
  -- it emits bytes and ends with a code. Only `Z_STREAM_END` makes these bytes the result.
  abbrev pub Passes : List ℕ → Result (List ℕ) → Type 0
  Passes input r =
      ((input ≡ []) × (r ≡ throws invalid_argument))
      ⊎ (((0 < length input) × (init input ≡ none) × (r ≡ throws runtime_error))
          ⊎ ((0 < length input)
              × (z : State) × (bytes : List ℕ) × (c : Code) × (init input ≡ some z)
              × Emits z bytes c
              × (r ≡ finished s (c, bytes))))

  run_stream-Emits :
      (z : State) (input bytes : List ℕ) (c : Code)
      → init input ≡ some z
      → Emits z bytes c
      → run_stream s (some z) ≡ finished s (c, bytes)
  unfolding run_stream
  run_stream-Emits z input bytes c e emitted =
      ap (finished s) (pump-Emits z bytes c [] (accessible s z) emitted (total_out-init input z e))

  run_stream-Passes :
      (input : List ℕ) (o : Option State)
      → 0 < length input
      → init input ≡ o
      → Passes input (run_stream s o)
  run_stream-Passes input none h e = inr (inl (h, e, unfold run_stream in refl))
  run_stream-Passes input (some z) h e =
      let (bytes, c, ne, emitted) = emits z (accessible s z) in
      inr (inr (h, z, bytes, c, e, emitted, run_stream-Emits z input bytes c e emitted))

  pub pass_through-Passes : (input : List ℕ) → Passes input (pass_through s input)
  pass_through-Passes [] = inl (refl, unfold pass_through in refl)
  pass_through-Passes (x ∷ xs) =
      unfold pass_through in run_stream-Passes (x ∷ xs) (init (x ∷ xs)) (omega arith) refl

  pub pass_through-Emits :
      (input : List ℕ) (z : State) (bytes : List ℕ)
      → 0 < length input
      → init input ≡ some z
      → Emits z bytes z_stream_end
      → pass_through s input ≡ ok bytes
  pass_through-Emits [] z bytes h e emitted = absurd (omega arith)
  pass_through-Emits (x ∷ xs) z bytes h e emitted =
      unfold pass_through in
      ap (run_stream s) e ∙ run_stream-Emits z (x ∷ xs) bytes z_stream_end e emitted
