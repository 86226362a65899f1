-- ===== src/Compression/Stored.antt =====
-- A pair of streams for the tests: data goes through unchanged behind one byte of header, two bytes
-- in a call.
use parlo_plus_plus.Common.{
  ℕ, ◌+◌, ◌<◌, ◌≡◌, refl, subst, ap, ◌∙◌, inl, inr, false, List, [], ◌∷◌, ◌++◌, Option, none, some,
  if◌then◌else◌, ltb, ltb→lt, length, take, drop, ◌==◌, Bool-cases, arith,
}
use parlo_plus_plus.Compression.{Code, z_ok, z_stream_end, ZStream, accessible}
use parlo_plus_plus.Compression.Loop.{Emits, last, more, emits}
use parlo_plus_plus.Compression.RoundTrip.{IsLossless}

unfoldable pub stored_code : ℕ × List ℕ → Code
stored_code (n, xs) = if ltb 2 (length xs) then z_ok else z_stream_end

length-drop_two : (xs : List ℕ) → 2 < length xs → length (drop 2 xs) < length xs
length-drop_two [] h = absurd (omega arith)
length-drop_two (x ∷ []) h = absurd (omega arith)
length-drop_two (x ∷ y ∷ xs) h = omega arith

take_two : (xs : List ℕ) → ltb 2 (length xs) ≡ false → take 2 xs ≡ xs
take_two [] h = refl
take_two (x ∷ []) h = refl
take_two (x ∷ y ∷ []) h = refl
take_two (x ∷ y ∷ z ∷ xs) h = absurd (ground arith)

take-drop_two : (xs : List ℕ) → take 2 xs ++ drop 2 xs ≡ xs
take-drop_two [] = refl
take-drop_two (x ∷ []) = refl
take-drop_two (x ∷ y ∷ xs) = refl

pub stored_progress : (z : ℕ × List ℕ) → stored_code z ≡ z_ok → length (drop 2 z.1) < length z.1
unfolding stored_code
stored_progress (n, xs) e = elim (Bool-cases (ltb 2 (length xs))) [
  | inl long ↦ length-drop_two xs (ltb→lt 2 (length xs) long)
  | inr short ↦ absurd (ground arith)
]

abbrev pub stored :
    (init : List ℕ → Option (ℕ × List ℕ))
    → ((input : List ℕ) (z : ℕ × List ℕ) → init input ≡ some z → z.0 ≡ 0)
    → ZStream
stored init zeroed = record {
  State = ℕ × List ℕ;
  init = init;
  code = stored_code;
  chunk = λ z. take 2 z.1;
  next = λ z. (z.0 + length (take 2 z.1), drop 2 z.1);
  total_out = λ z. z.0;
  remaining = λ z. length z.1;
  progress = stored_progress;
  total_out-init = zeroed;
  total_out-next = λ z. refl;
}

unfoldable pub set_up_deflate : List ℕ → Option (ℕ × List ℕ)
set_up_deflate input = some (0, 0x78 ∷ input)

unfoldable pub set_up_inflate : List ℕ → Option (ℕ × List ℕ)
set_up_inflate [] = none
set_up_inflate (x ∷ xs) = if x == 0x78 then some (0, xs) else none

pub deflate_zeroed : (input : List ℕ) (z : ℕ × List ℕ) → set_up_deflate input ≡ some z → z.0 ≡ 0
unfolding set_up_deflate
deflate_zeroed input z e = ground arith

pub inflate_zeroed : (input : List ℕ) (z : ℕ × List ℕ) → set_up_inflate input ≡ some z → z.0 ≡ 0
unfolding set_up_inflate
inflate_zeroed [] z e = cc
inflate_zeroed (x ∷ xs) z e = ground arith

abbrev pub stored_deflate : ZStream
stored_deflate = stored set_up_deflate deflate_zeroed

abbrev pub stored_inflate : ZStream
stored_inflate = stored set_up_inflate inflate_zeroed

-- Such a stream emits all that it holds.
module _ (init : List ℕ → Option (ℕ × List ℕ))
    (zeroed : (input : List ℕ) (z : ℕ × List ℕ) → init input ≡ some z → z.0 ≡ 0) where
  Emits-all :
      (z : ℕ × List ℕ) (bytes : List ℕ) (c : Code)
      → Emits (stored init zeroed) z bytes c
      → (c ≡ z_stream_end) × (bytes ≡ z.1)
  unfolding stored_code
  Emits-all (n, xs) bytes c (last ends at_chunk at_code) = elim (Bool-cases (ltb 2 (length xs))) [
    | inl long ↦ absurd (ends (rw long))
    | inr short ↦ (at_code ∙ rw short, at_chunk ∙ take_two xs short)
  ]
  Emits-all (n, xs) bytes c (more rest again e at_chunk) =
      let (done, same) = Emits-all (n + length (take 2 xs), drop 2 xs) rest c e in
      (done, at_chunk ∙ ap (◌++◌ (take 2 xs)) same ∙ take-drop_two xs)

  holds : (z : ℕ × List ℕ) → Emits (stored init zeroed) z z.1 z_stream_end
  holds z =
      let (bytes, c, _, e) = emits (stored init zeroed) z (accessible (stored init zeroed) z) in
      let (done, same) = Emits-all z bytes c e in
      subst (λ d. Emits (stored init zeroed) z z.1 d) done
        (subst (λ b. Emits (stored init zeroed) z b c) same e)

held : (input : List ℕ) (z : ℕ × List ℕ) → set_up_deflate input ≡ some z → z.1 ≡ 0x78 ∷ input
unfolding set_up_deflate
held input z e = ground arith

pub stored-IsLossless : IsLossless stored_deflate stored_inflate
stored-IsLossless = record {
  finishes = λ input z bytes c e emitted.
      let (done, same) = Emits-all set_up_deflate deflate_zeroed z bytes c emitted in
      (done, omega (arith, ap length same, ap length (held input z e)));
  inflates = λ input z bytes e emitted.
      let (done, same) = Emits-all set_up_deflate deflate_zeroed z bytes z_stream_end emitted in
      (
        (0, input),
        ap set_up_inflate (same ∙ held input z e) ∙ unfold set_up_inflate in refl,
        holds set_up_inflate inflate_zeroed (0, input),
      );
}
