-- ===== src/BlockingQueue/Taking.antt =====
-- `take` of a given item (BlockingQueue.h).
use parlo_plus_plus.Common.{
  ◌≡◌, ◌≢◌, refl, ap, ◌⊎◌, inl, inr, true, false, List, [], ◌∷◌, ◌++◌, Option, none, some, All,
}
use parlo_plus_plus.BlockingQueue.{BlockingQueue, keep_first, past, find_erase, taken, take_item}

-- What `find_erase` makes of a list.
abbrev Found {ℓ} : {A : Type ℓ} → A → List A → Option (List A) → Type ℓ
Found {A = A} item xs r =
    ((front : List A) × (back : List A) × (xs ≡ front ++ (item ∷ back))
      × All (λ x. x ≢ item) front
      × (r ≡ some (front ++ back)))
    ⊎ (All (λ x. x ≢ item) xs × (r ≡ none))

past-Found {ℓ} :
    {A : Type ℓ} {x item : A} {xs : List A} {r : Option (List A)} (d : Dec (x ≡ item))
    → Found item xs r
    → Found item (x ∷ xs) (past d xs r)
unfolding past
past-Found {xs = xs} (yes e) f = inl ([], xs, ap (λ y. y ∷ xs) e, tt, refl)
past-Found {x = x} (no ne) (inl (front, back, at, apart, r)) =
    inl (x ∷ front, back, ap (◌∷◌ x) at, (ne, apart), ap (keep_first x) r)
past-Found {x = x} (no ne) (inr (apart, r)) = inr ((ne, apart), ap (keep_first x) r)

find_erase-Found {ℓ} :
    {A : Type ℓ} (same : Discrete A) (item : A) (xs : List A)
    → Found item xs (find_erase same item xs)
unfolding find_erase
find_erase-Found same item [] = inr (tt, refl)
find_erase-Found same item (x ∷ xs) = past-Found (same x item) (find_erase-Found same item xs)

-- `take_item` removes the first item that equals the given one, keeps the order of all others and
-- returns true; where no item equals it, it returns false and changes nothing.
pub take_item_total {ℓ} :
    {A : Type ℓ} (same : Discrete A) (item : A) (q : BlockingQueue A)
    → ((front : List A) × (back : List A) × (q.queue ≡ front ++ (item ∷ back))
        × All (λ x. x ≢ item) front
        × (take_item same item q ≡ (true, record q { queue = front ++ back })))
      ⊎ (All (λ x. x ≢ item) q.queue × (take_item same item q ≡ (false, q)))
unfolding take_item
take_item_total same item q = elim (find_erase-Found same item q.queue) [
  | inl (front, back, at, apart, r) ↦ inl (front, back, at, apart, ap (taken q) r)
  | inr (apart, r) ↦ inr (apart, ap (taken q) r)
]
