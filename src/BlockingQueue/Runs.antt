-- ===== src/BlockingQueue/Runs.antt =====
-- Calls of BlockingQueue.h one after the other, from any threads.
use parlo_plus_plus.Common.{
  ◌+◌, ◌≤◌, ◌≡◌, subst, ap, ◌⊎◌, inl, inr, List, [], ◌∷◌, ◌++◌, append-nil, append_assoc, Option,
  none, some, ltb, ltb→lt, length, length-append, Bool-cases, arith,
}
use mathlib.Core.List.{Sublist}
use mathlib.Core.List.Sublist
use parlo_plus_plus.BlockingQueue.{BlockingQueue, add, take_item}
use parlo_plus_plus.BlockingQueue.Taking.{take_item_total}

pub data Operation {ℓ} (A : Type ℓ) : Type ℓ where
  adds : A → Operation A
  takes : A → Operation A

-- A call that waits changes nothing.
unfoldable pub unless_waiting {ℓ} :
    {A : Type ℓ} → BlockingQueue A → Option (BlockingQueue A) → BlockingQueue A
unless_waiting q none = q
unless_waiting q (some q') = q'

unfoldable pub perform {ℓ} :
    {A : Type ℓ} → Discrete A → Operation A → BlockingQueue A → BlockingQueue A
unfolding unless_waiting
perform same (adds item) q = unless_waiting q (add item q)
perform same (takes item) q = (take_item same item q).1

unfoldable pub run_calls {ℓ} :
    {A : Type ℓ} → Discrete A → List (Operation A) → BlockingQueue A → BlockingQueue A
run_calls same [] q = q
run_calls same (o ∷ os) q = run_calls same os (perform same o q)

-- The items that the calls of a run ask to add.
unfoldable pub offered {ℓ} : {A : Type ℓ} → List (Operation A) → List A
offered [] = []
offered (adds item ∷ os) = item ∷ offered os
offered (takes item ∷ os) = offered os

-- A queue within its capacity whose items are some of those in a list, in its order.
pub record InOrder {ℓ} {A : Type ℓ} (items : List A) (q : BlockingQueue A) : Type ℓ where
  pub sublist : Sublist q.queue items
  pub bounded : length q.queue ≤ q.capacity

pub add_total {ℓ} :
    {A : Type ℓ} (item : A) (q : BlockingQueue A)
    → ((length q.queue + 1 ≤ q.capacity)
        × (add item q ≡ some (record q { queue = q.queue ++ (item ∷ []) })))
      ⊎ (add item q ≡ none)
unfolding add
add_total item q = elim (Bool-cases (ltb (length q.queue) q.capacity)) [
  | inl room ↦ let h = ltb→lt (length q.queue) q.capacity room in inl (omega arith, rw room)
  | inr full ↦ inr (rw full)
]

adds-InOrder {ℓ} :
    {A : Type ℓ} (items : List A) (item : A) (q : BlockingQueue A)
    → InOrder items q
    → InOrder (items ++ (item ∷ [])) (unless_waiting q (add item q))
unfolding unless_waiting
adds-InOrder items item q k = elim (add_total item q) [
  | inl (room, e) ↦ rw e (record {
    sublist = Sublist.append k.sublist (Sublist.refl (item ∷ []));
    bounded = omega (arith, length-append q.queue (item ∷ []));
  })
  | inr e ↦ rw e (record {
    sublist =
        subst (λ l. Sublist l (items ++ (item ∷ []))) (append-nil q.queue)
          (Sublist.append k.sublist (Sublist.cons item (Sublist.refl [])));
    bounded = k.bounded;
  })
]

takes-InOrder {ℓ} :
    {A : Type ℓ} (same : Discrete A) (items : List A) (item : A) (q : BlockingQueue A)
    → InOrder items q
    → InOrder items (take_item same item q).1
takes-InOrder same items item q k = elim (take_item_total same item q) [
  | inl (front, back, at, apart, e) ↦ rw e (record {
    sublist =
        Sublist.trans (Sublist.append (Sublist.refl front) (Sublist.cons item (Sublist.refl back)))
          (subst (λ l. Sublist l items) at k.sublist);
    bounded = omega (
      arith,
      k.bounded,
      ap length at,
      length-append front (item ∷ back),
      length-append front back,
    );
  })
  | inr (apart, e) ↦ rw e k
]

-- Whatever is added and taken, by any calls in any order, a queue that was within its capacity stays
-- so, and its items are some of those that it had and those that the calls asked to add, in that
-- order, none of them more often.
pub run_calls-InOrder {ℓ} :
    {A : Type ℓ} (same : Discrete A) (os : List (Operation A)) (items : List A)
    (q : BlockingQueue A)
    → InOrder items q
    → InOrder (items ++ offered os) (run_calls same os q)
unfolding run_calls offered perform
run_calls-InOrder same [] items q k = rw (append-nil items) k
run_calls-InOrder same (adds item ∷ os) items q k =
    subst (λ l. InOrder l (run_calls same os (unless_waiting q (add item q))))
      (append_assoc items (item ∷ []) (offered os))
      (run_calls-InOrder same os (items ++ (item ∷ [])) (unless_waiting q (add item q))
        (adds-InOrder items item q k))
run_calls-InOrder same (takes item ∷ os) items q k =
    run_calls-InOrder same os items (take_item same item q).1 (takes-InOrder same items item q k)
