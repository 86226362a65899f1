-- ===== src/BlockingQueue/Fifo.antt =====
-- Producers and consumers of BlockingQueue.h, where `pop` drops the front item as that of
-- `std::queue` does.
use parlo_plus_plus.Common.{
  ◌≤◌, ◌≡◌, refl, sym, ap, ◌∙◌, inl, inr, List, [], ◌∷◌, ◌++◌, append-nil, append_assoc, Option,
  none, some, length, length-append, arith,
}
use parlo_plus_plus.BlockingQueue.{
  BlockingQueue, add, front_popped, try_take, unless_empty, take_front,
}
use parlo_plus_plus.BlockingQueue.Runs.{add_total}

pub data Call {ℓ} (A : Type ℓ) : Type ℓ where
  puts : A → Call A
  gets : Call A
  tries : Call A

-- The queue, the items that calls of `add` came through with, and those that were taken, oldest
-- first.
pub record Exchange {ℓ} (A : Type ℓ) : Type ℓ where
  pub left : BlockingQueue A
  pub added : List A
  pub given : List A

unfoldable pub after_put {ℓ} : {A : Type ℓ} → Exchange A → A → Option (BlockingQueue A) → Exchange A
after_put x item none = x
after_put x item (some q) = record x { left = q; added = x.added ++ (item ∷ []) }

unfoldable pub after_get {ℓ} : {A : Type ℓ} → Exchange A → Option (A × BlockingQueue A) → Exchange A
after_get x none = x
after_get x (some (item, q)) = record x { left = q; given = x.given ++ (item ∷ []) }

-- A call that waits changes nothing, nor does a `tryTake` that finds nothing.
unfoldable pub make {ℓ} : {A : Type ℓ} → (List A → List A) → Call A → Exchange A → Exchange A
unfolding after_put after_get try_take
make pop (puts item) x = after_put x item (add item x.left)
make pop gets x = after_get x (take_front pop x.left)
make pop tries x = after_get x (unless_empty (try_take pop x.left))

unfoldable pub exchange {ℓ} :
    {A : Type ℓ} → (List A → List A) → List (Call A) → Exchange A → Exchange A
unfolding make
exchange pop [] x = x
exchange pop (k ∷ ks) x = exchange pop ks (make pop k x)

module _ {ℓ} {A : Type ℓ} (held : List A) where
  -- What has been taken and what is left are what there was and what has been added.
  pub record IsFifo (x : Exchange A) : Type ℓ where
    pub in_order : x.given ++ x.left.queue ≡ held ++ x.added
    pub bounded : length x.left.queue ≤ x.left.capacity

  put-IsFifo : (x : Exchange A) (item : A) → IsFifo x → IsFifo (after_put x item (add item x.left))
  unfolding after_put
  put-IsFifo x item k = elim (add_total item x.left) [
    | inl (room, e) ↦ rw e (record {
      in_order =
          sym (append_assoc x.given x.left.queue (item ∷ []))
          ∙ ap (λ l. l ++ (item ∷ [])) k.in_order
          ∙ append_assoc held x.added (item ∷ []);
      bounded = omega (arith, length-append x.left.queue (item ∷ []));
    })
    | inr e ↦ rw e k
  ]

  get-IsFifo :
      (pop : List A → List A) (x : Exchange A) (items : List A)
      → ((a : A) (l : List A) → pop (a ∷ l) ≡ l)
      → x.left.queue ≡ items
      → IsFifo x
      → IsFifo (after_get x (unless_empty (front_popped pop x.left items)))
  unfolding after_get unless_empty front_popped
  get-IsFifo pop x [] drops e k = k
  get-IsFifo pop x (a ∷ l) drops e k = rw (drops a l) (record {
    in_order = append_assoc x.given (a ∷ []) l ∙ ap (◌++◌ x.given) (sym e) ∙ k.in_order;
    bounded = omega (arith, k.bounded, ap length e);
  })

  make-IsFifo :
      (pop : List A → List A) (c : Call A) (x : Exchange A)
      → ((a : A) (l : List A) → pop (a ∷ l) ≡ l)
      → IsFifo x
      → IsFifo (make pop c x)
  unfolding make try_take take_front
  make-IsFifo pop (puts item) x drops k = put-IsFifo x item k
  make-IsFifo pop gets x drops k = get-IsFifo pop x x.left.queue drops refl k
  make-IsFifo pop tries x drops k = get-IsFifo pop x x.left.queue drops refl k

  exchange-IsFifo :
      (pop : List A → List A) (cs : List (Call A)) (x : Exchange A)
      → ((a : A) (l : List A) → pop (a ∷ l) ≡ l)
      → IsFifo x
      → IsFifo (exchange pop cs x)
  unfolding exchange
  exchange-IsFifo pop [] x drops k = k
  exchange-IsFifo pop (c ∷ cs) x drops k =
      exchange-IsFifo pop cs (make pop c x) drops (make-IsFifo pop c x drops k)

-- Where `pop` drops the front item, and for any calls of `add`, `take` and `tryTake` in any order on
-- a queue within its capacity: the items that were taken, in the order in which they were, followed
-- by those that are left, are those that were in the queue followed by those that were added, in the
-- order in which they were, and the queue is within its capacity.
pub exchange_fifo {ℓ} :
    {A : Type ℓ} (pop : List A → List A) (cs : List (Call A)) (q : BlockingQueue A)
    → ((a : A) (l : List A) → pop (a ∷ l) ≡ l)
    → length q.queue ≤ q.capacity
    → let x = exchange pop cs (record { left = q; added = []; given = [] }) in
      (x.given ++ x.left.queue ≡ q.queue ++ x.added) × (length x.left.queue ≤ x.left.capacity)
exchange_fifo pop cs q drops room =
    let k =
      exchange-IsFifo q.queue pop cs (record { left = q; added = []; given = [] }) drops
        (record { in_order = sym (append-nil q.queue); bounded = room }) in
    (k.in_order, k.bounded)
