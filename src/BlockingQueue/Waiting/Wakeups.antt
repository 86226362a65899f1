-- ===== src/BlockingQueue/Waiting/Wakeups.antt =====
-- That no call of BlockingQueue.h is left waiting for what is there.
use parlo_plus_plus.Common.{
  ℕ, ◌+◌, ◌≤◌, ◌≡◌, refl, sym, ap, ◌∙◌, ◌⊎◌, inl, inr, true, List, [], ◌∷◌, ◌++◌, Option, none,
  some, length, length-append, arith,
}
use parlo_plus_plus.BlockingQueue.{
  BlockingQueue, add, take_item, try_take, take_front, front_popped, unless_empty,
}
use parlo_plus_plus.BlockingQueue.Taking.{take_item_total}
use parlo_plus_plus.BlockingQueue.Runs.{add_total}
use parlo_plus_plus.BlockingQueue.Waiting.{
  Crowd, NotFull, not_full_unheard, not_full_heard, NotEmpty, not_empty_unheard, not_empty_heard,
  AddStep, adds, waits, adds_at_last, waits_again, wakes_unnotified, TakeStep, takes_item, tries,
  takes, waits_for_item, takes_at_last, waits_for_item_again, wakes_for_nothing, Crowds, here,
  added, taken_from,
}

-- While a call of `add` is blocked, there is no more room than calls that have been woken for it; while one
-- of `take` is blocked, there are no more items than calls that have been woken for them.
pub record IsServed {ℓ} {A : Type ℓ} (c : Crowd A) : Type ℓ where
  pub room : (c.adding ≡ []) ⊎ (c.left.capacity ≤ length c.left.queue + length c.retrying)
  pub items : (c.taking ≡ 0) ⊎ (length c.left.queue ≤ c.retaking)

-- What is known before a notification: one is missing.
NotFull-IsServed {ℓ} :
    {A : Type ℓ} {c d : Crowd A}
    → NotFull c d
    → (c.adding ≡ []) ⊎ (c.left.capacity ≤ length c.left.queue + 1 + length c.retrying)
    → (c.taking ≡ 0) ⊎ (length c.left.queue ≤ c.retaking)
    → IsServed d
NotFull-IsServed (not_full_unheard c e) room items = record { room = inl e; items = items }
NotFull-IsServed (not_full_heard c front item back e) (inl empty) items =
    absurd (omega (arith, ap length (sym e ∙ empty), length-append front (item ∷ back)))
NotFull-IsServed (not_full_heard c front item back e) (inr h) items = record {
  room = inr (omega arith);
  items = items;
}

NotEmpty-IsServed {ℓ} :
    {A : Type ℓ} {c d : Crowd A}
    → NotEmpty c d
    → (c.adding ≡ []) ⊎ (c.left.capacity ≤ length c.left.queue + length c.retrying)
    → (c.taking ≡ 0) ⊎ (length c.left.queue ≤ c.retaking + 1)
    → IsServed d
NotEmpty-IsServed (not_empty_unheard c e) room items = record { room = room; items = inl e }
NotEmpty-IsServed (not_empty_heard c n e) room (inl nobody) = absurd (omega (arith, e, nobody))
NotEmpty-IsServed (not_empty_heard c n e) room (inr h) = record {
  room = room;
  items = inr (omega arith);
}

-- The queue holds one item more, or one item less, than another.
record IsLonger {ℓ} {A : Type ℓ} (q p : BlockingQueue A) : Type ℓ where
  longer : length q.queue ≡ length p.queue + 1
  as_large : q.capacity ≡ p.capacity

add-IsLonger {ℓ} :
    {A : Type ℓ} (item : A) (p q : BlockingQueue A) → add item p ≡ some q → IsLonger q p
add-IsLonger {A = A} item p q e = elim (add_total item p) [
  | inl (room, f) ↦
      let same : record p { queue = p.queue ++ (item ∷ []) } ≡ q = cc (e, f) in
      record {
        longer =
            ap (λ (r : BlockingQueue A). length r.queue) (sym same)
            ∙ omega (arith, length-append p.queue (item ∷ []));
        as_large = ap (λ (r : BlockingQueue A). r.capacity) (sym same);
      }
  | inr f ↦ cc (e, f)
]

add-none {ℓ} :
    {A : Type ℓ} (item : A) (p : BlockingQueue A) → add item p ≡ none → p.capacity ≤ length p.queue
unfolding add
add-none item p e = ground (arith, e)

take_item-IsLonger {ℓ} :
    {A : Type ℓ} (same : Discrete A) (item : A) (p q : BlockingQueue A)
    → take_item same item p ≡ (true, q)
    → IsLonger p q
take_item-IsLonger {A = A} same item p q e = elim (take_item_total same item p) [
  | inl (front, back, at, apart, f) ↦
      let found : record p { queue = front ++ back } ≡ q = cc (e, f) in
      record {
        longer = omega (
          arith,
          ap length at,
          length-append front (item ∷ back),
          length-append front back,
          ap (λ (r : BlockingQueue A). length r.queue) found,
        );
        as_large = ap (λ (r : BlockingQueue A). r.capacity) found;
      }
  | inr (apart, f) ↦ cc (e, f)
]

module _ {ℓ} {A : Type ℓ} (pop : List A → List A)
    (pops : (a : A) (l : List A) → pop (a ∷ l) ≡ l) where
  -- Some item has been taken from the front.
  front_popped-IsLonger :
      (p q : BlockingQueue A) (l : List A) (item : A)
      → p.queue ≡ l
      → front_popped pop p l ≡ (some item, q)
      → IsLonger p q
  unfolding front_popped
  front_popped-IsLonger p q [] item at e = cc (e)
  front_popped-IsLonger p q (x ∷ xs) item at e =
      let rest : record p { queue = pop (x ∷ xs) } ≡ q = cc (e) in
      record {
        longer = omega (
          arith,
          ap length at,
          ap length (pops x xs),
          ap (λ (r : BlockingQueue A). length r.queue) rest,
        );
        as_large = ap (λ (r : BlockingQueue A). r.capacity) rest;
      }

  unless_empty-some :
      (t : Option A × BlockingQueue A) (item : A) (q : BlockingQueue A)
      → unless_empty t ≡ some (item, q)
      → t ≡ (some item, q)
  unfolding unless_empty
  unless_empty-some (none, r) item q e = cc (e)
  unless_empty-some (some x, r) item q e = cc (e)

  take_front-IsLonger :
      (p q : BlockingQueue A) (item : A) → take_front pop p ≡ some (item, q) → IsLonger p q
  unfolding take_front
  take_front-IsLonger p q item e =
      front_popped-IsLonger p q p.queue item refl
        (unless_empty-some (front_popped pop p p.queue) item q e)

  take_front-none : (p : BlockingQueue A) → take_front pop p ≡ none → length p.queue ≡ 0
  unfolding take_front front_popped unless_empty
  take_front-none p e = of p.queue e
    where
      of : (l : List A) → unless_empty (front_popped pop p l) ≡ none → length l ≡ 0
      of [] e = refl
      of (x ∷ xs) e = cc (e)

AddStep-IsServed {ℓ} : {A : Type ℓ} {c d : Crowd A} → AddStep c d → IsServed c → IsServed d
AddStep-IsServed (adds {c} item q e told) k =
    let more = add-IsLonger item c.left q e in
    NotEmpty-IsServed told
      (elim k.room [
        | inl empty ↦ inl empty
        | inr h ↦ inr (omega (arith, h, more.longer, more.as_large))
      ])
      (elim k.items [ inl nobody ↦ inl nobody | inr h ↦ inr (omega (arith, h, more.longer)) ])
AddStep-IsServed (waits {c} item e) k = record {
  room = inr (let full = add-none item c.left e in omega (arith, full));
  items = k.items;
}
AddStep-IsServed (adds_at_last {c} front item back q at e told) k =
    let more = add-IsLonger item c.left q e in
    NotEmpty-IsServed told
      (elim k.room [
        | inl empty ↦ inl empty
        | inr h ↦ inr (
            omega (
              arith,
              h,
              more.longer,
              more.as_large,
              ap length at,
              length-append front (item ∷ back),
              length-append front back,
            ))
      ])
      (elim k.items [ inl nobody ↦ inl nobody | inr h ↦ inr (omega (arith, h, more.longer)) ])
AddStep-IsServed (waits_again {c} front item back at e) k = record {
  room = inr (let full = add-none item c.left e in omega (arith, full));
  items = k.items;
}
AddStep-IsServed (wakes_unnotified {c} front item back at) k = record {
  room = elim k.room [
    | inl empty ↦
        absurd (omega (arith, ap length (sym at ∙ empty), length-append front (item ∷ back)))
    | inr h ↦ inr (omega (arith, h))
  ];
  items = k.items;
}

-- An item is gone, which leaves room for one more, and its taker may have been woken.
fewer-IsServed {ℓ} :
    {A : Type ℓ} {c d : Crowd A} (q : BlockingQueue A) (n : ℕ)
    → IsLonger c.left q
    → c.retaking ≤ n + 1
    → NotFull (record c { left = q; retaking = n }) d
    → IsServed c
    → IsServed d
fewer-IsServed {c = c} q n fewer few told k =
    NotFull-IsServed told
      (elim k.room [
        | inl empty ↦ inl empty
        | inr h ↦ inr (omega (arith, h, fewer.longer, fewer.as_large))
      ])
      (elim k.items [ inl nobody ↦ inl nobody | inr h ↦ inr (omega (arith, h, few, fewer.longer)) ])

module _ {ℓ} {A : Type ℓ} (same : Discrete A) (pop : List A → List A)
    (pops : (a : A) (l : List A) → pop (a ∷ l) ≡ l) where
  TakeStep-IsServed : {c d : Crowd A} → TakeStep same pop c d → IsServed c → IsServed d
  unfolding try_take
  TakeStep-IsServed (takes_item {c} item q e told) k =
      fewer-IsServed q c.retaking (take_item-IsLonger same item c.left q e) (omega arith) told k
  TakeStep-IsServed (tries {c} item q e told) k =
      fewer-IsServed q c.retaking (front_popped-IsLonger pop pops c.left q c.left.queue item refl e)
        (omega arith) told k
  TakeStep-IsServed (takes {c} item q e told) k =
      fewer-IsServed q c.retaking (take_front-IsLonger pop pops c.left q item e) (omega arith) told
        k
  TakeStep-IsServed (waits_for_item {c} e) k = record {
    room = k.room;
    items = inr (omega (arith, take_front-none pop pops c.left e));
  }
  TakeStep-IsServed (takes_at_last {c} n item q at e told) k =
      fewer-IsServed q n (take_front-IsLonger pop pops c.left q item e) (omega (arith, at)) told k
  TakeStep-IsServed (waits_for_item_again {c} n at e) k = record {
    room = k.room;
    items = inr (omega (arith, take_front-none pop pops c.left e));
  }
  TakeStep-IsServed (wakes_for_nothing {c} n at) k = record {
    room = k.room;
    items = elim k.items [
      | inl nobody ↦ absurd (omega (arith, at, nobody))
      | inr h ↦ inr (omega (arith, h))
    ];
  }

  -- Let any number of threads call the methods of a BlockingQueue, in any interleaving and with any wake-ups
  -- without a notification, and let `pop` drop the front item. Then no call is left waiting for what is
  -- there: while a call of `add` is blocked, at least as many calls of it have been woken as there is room for
  -- items, and while a call of `take` is blocked, at least as many as there are items.
  pub Crowds-IsServed : {q : BlockingQueue A} {c : Crowd A} → Crowds same pop q c → IsServed c
  Crowds-IsServed here = record { room = inl refl; items = inl refl }
  Crowds-IsServed (added cs s) = AddStep-IsServed s (Crowds-IsServed cs)
  Crowds-IsServed (taken_from cs s) = TakeStep-IsServed s (Crowds-IsServed cs)
