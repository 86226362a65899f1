-- ===== src/Common/Outcome.antt =====
-- The exceptions that the code throws or meets, and results that may be one.

pub data Exception : Type 0 where
  invalid_argument overflow_error out_of_range runtime_error bad_weak_ptr system_error : Exception

pub data Result {ℓ} (A : Type ℓ) : Type ℓ where
  ok : A → Result A
  throws : Exception → Result A

infixl 5 ◌>>=◌
abbrev pub ◌>>=◌ {ℓ κ} : {A : Type ℓ} {B : Type κ} → Result A → (A → Result B) → Result B
ok a >>= f = f a
throws e >>= f = throws e
