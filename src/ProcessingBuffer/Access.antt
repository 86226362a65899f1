-- ===== src/ProcessingBuffer/Access.antt =====
-- `add_data`, `operator[]` and `bufferCount` of ProcessingBuffer.cpp.
use parlo_plus_plus.Common.{
  ℕ, zero, suc, ◌+◌, ◌-◌, ◌≤◌, ◌<◌, ◌≡◌, refl, sym, ap, ◌∙◌, ◌⊎◌, inl, inr, Bool, true, false, List,
  [], ◌∷◌, ◌++◌, Option, none, some, Result, ok, throws, if◌then◌else◌, overflow_error,
  out_of_range, ltb, ltb→lt, leb, leb→le, leb_false→lt, length, drop, get_elem?, Bool-cases, arith,
  length-append,
}
use mathlib.Core.Logic.{◌↔◌}
use parlo_plus_plus.Packet.{max_packet_size}
use parlo_plus_plus.ProcessingBuffer.{Buffer, front, add_data, at_index, buffer_count}

front-drop :
    (xs : List ℕ) (i : ℕ)
    → i < length xs
    → (x : ℕ) × (front (drop i xs) ≡ ok x) × (get_elem? xs i ≡ some x)
unfolding front
front-drop [] i h = absurd (omega arith)
front-drop (x ∷ xs) zero h = (x, refl, refl)
front-drop (x ∷ xs) (suc i) h = front-drop xs i (omega arith)

-- `operator[]` reads the byte at its index, or throws exactly when the index is not below the count.
pub at_index_total :
    (b : Buffer) (i : ℕ)
    → ((i < buffer_count b)
        × (x : ℕ) × (at_index b i ≡ ok x)
        × (get_elem? b.internal_buffer i ≡ some x))
      ⊎ ((buffer_count b ≤ i) × (at_index b i ≡ throws out_of_range))
unfolding at_index buffer_count
at_index_total b i = elim (Bool-cases (leb (length b.internal_buffer) i)) [
  | inl out ↦ inr (leb→le (length b.internal_buffer) i out, rw out)
  | inr inside ↦
      let h = leb_false→lt (length b.internal_buffer) i inside in
      let (x, e, at) = front-drop b.internal_buffer i h in inl (h, x, rw inside e, at)
]

get_elem?-append_left :
    (xs ys : List ℕ) (i : ℕ) → i < length xs → get_elem? (xs ++ ys) i ≡ get_elem? xs i
get_elem?-append_left [] ys i h = absurd (omega arith)
get_elem?-append_left (x ∷ xs) ys zero h = refl
get_elem?-append_left (x ∷ xs) ys (suc i) h = get_elem?-append_left xs ys i (omega arith)

get_elem?-append_right :
    (xs ys : List ℕ) (i j : ℕ) → i ≡ length xs + j → get_elem? (xs ++ ys) i ≡ get_elem? ys j
get_elem?-append_right [] ys i j h = let e : i ≡ j = omega arith in rw e
get_elem?-append_right (x ∷ xs) ys zero j h = absurd (omega arith)
get_elem?-append_right (x ∷ xs) ys (suc i) j h = get_elem?-append_right xs ys i j (omega arith)

get_elem?_beyond : (xs : List ℕ) (i : ℕ) → length xs ≤ i → get_elem? xs i ≡ none
get_elem?_beyond [] i h = refl
get_elem?_beyond (x ∷ xs) zero h = absurd (omega arith)
get_elem?_beyond (x ∷ xs) (suc i) h = get_elem?_beyond xs i (omega arith)

-- `at_index` in terms of the list.
abbrev pub read : Option ℕ → Result ℕ
read none = throws out_of_range
read (some x) = ok x

at_index-read : (b : Buffer) (i : ℕ) → at_index b i ≡ read (get_elem? b.internal_buffer i)
at_index-read b i = elim (at_index_total b i) [
  | inl (h, x, e, at) ↦ rw (e, at)
  | inr (h, e) ↦ rw (e, get_elem?_beyond b.internal_buffer i (unfold buffer_count in h))
]

split_elem :
    (xs ys : List ℕ) (i : ℕ)
    → get_elem? (xs ++ ys) i
      ≡ (if ltb i (length xs) then get_elem? xs i else get_elem? ys (i - length xs))
split_elem xs ys i = elim (Bool-cases (ltb i (length xs))) [
  | inl old ↦ rw old (get_elem?-append_left xs ys i (ltb→lt i (length xs) old))
  | inr new ↦ rw new (get_elem?-append_right xs ys i (i - length xs) (ground arith))
]

add_data_ok :
    (b b' : Buffer) (bytes : List ℕ)
    → add_data bytes b ≡ ok b'
    → b'.internal_buffer ≡ b.internal_buffer ++ bytes
unfolding add_data
add_data_ok b b' bytes e = ground arith

-- After data has been added, the count has grown by its length, and `operator[]` reads at each index
-- what it read there before, or, from the old count on, the new bytes in their order; beyond them it
-- throws.
pub at_index-add_data :
    (b b' : Buffer) (bytes : List ℕ) (i : ℕ)
    → add_data bytes b ≡ ok b'
    → (buffer_count b' ≡ buffer_count b + length bytes)
      × (at_index b' i ≡ (
          if ltb i (buffer_count b)
          then at_index b i
          else read (get_elem? bytes (i - buffer_count b))))
unfolding buffer_count
at_index-add_data b b' bytes i e =
    let grown = add_data_ok b b' bytes e in
    (
      ap length grown ∙ length-append b.internal_buffer bytes,
      at_index-read b' i
          ∙ ap (λ q. read (get_elem? q i)) grown
          ∙ ap read (split_elem b.internal_buffer bytes i)
          ∙ read_if (ltb i (length b.internal_buffer)) (get_elem? b.internal_buffer i)
              (get_elem? bytes (i - length b.internal_buffer))
          ∙ ap
              (λ r.
                if ltb i (length b.internal_buffer)
                then r
                else read (get_elem? bytes (i - length b.internal_buffer)))
              (sym (at_index-read b i)),
    )
  where
    read_if :
        (t : Bool) (o o' : Option ℕ) → read (if t then o else o') ≡ (if t then read o else read o')
    read_if true o o' = refl
    read_if false o o' = refl

-- `add_data` throws exactly on more than 1024 bytes.
pub add_data_throws_iff :
    (b : Buffer) (bytes : List ℕ)
    → (add_data bytes b ≡ throws overflow_error) ↔ (max_packet_size < length bytes)
unfolding add_data
add_data_throws_iff b bytes = (λ e. ground arith, λ h. ground arith)
