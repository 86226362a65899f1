-- ===== src/Listener/Clients.antt =====
-- The clients that a listener (Listener.cpp) holds.
use parlo_plus_plus.Common.{
  ℕ, suc, subst, ◌+◌, ◌-◌, ◌^◌, ◌≤◌, ◌<◌, ◌≡◌, ◌≢◌, refl, sym, ap, ◌∙◌, inl, inr, Bool, true, false,
  List, [], ◌∷◌, ◌++◌, some, if◌then◌else◌, ◌==◌, length, length-append, All, arith,
}
use native.Mathlib.Decide.{ℕ_discrete}
use parlo_plus_plus.Packet.{flag}
use parlo_plus_plus.BlockingQueue.{BlockingQueue, add, take_item}
use parlo_plus_plus.BlockingQueue.Taking.{take_item_total}
use parlo_plus_plus.NetworkClient.{Client}
use parlo_plus_plus.Listener.{
  Listener, ListenerNotice, new_listener, start_accepting, stop_accepting, set_apply,
  set_on_client_connected_handler, accept_round, tell, on_accepted, on_client_gone,
}

pub data Occurrence : Type 0 where
  starts : Occurrence
  stops : Occurrence
  loops : Occurrence
  applies : Bool → Occurrence
  handled : Bool → Occurrence
  accepted : ℕ → Client → Occurrence
  gone : ℕ → Occurrence

unfoldable pub occur : Occurrence → Listener → Listener
occur starts l = (start_accepting l).0
occur stops l = stop_accepting l
occur loops l = accept_round l
occur (applies apply) l = set_apply apply l
occur (handled given) l = set_on_client_connected_handler given l
occur (accepted address c) l = (on_accepted address c l).0
occur (gone address) l = on_client_gone address l

unfoldable pub serve : List Occurrence → Listener → Listener
serve [] l = l
serve (o ∷ os) l = serve os (occur o l)

-- Whether a client stands at the address afterwards, if `before` says so for the time before: the
-- last event at the address decides.
unfoldable pub stands : ℕ → Bool → List Occurrence → Bool
stands a before [] = before
stands a before (accepted address c ∷ os) = stands a (if address == a then true else before) os
stands a before (gone address ∷ os) = stands a (if address == a then false else before) os
stands a before (starts ∷ os) = stands a before os
stands a before (stops ∷ os) = stands a before os
stands a before (loops ∷ os) = stands a before os
stands a before (applies apply ∷ os) = stands a before os
stands a before (handled given ∷ os) = stands a before os

-- No client is made at the address while another one stands there.
abbrev pub Fresh : ℕ → Bool → List Occurrence → Type 0
Fresh a before [] = Unit {0}
Fresh a before (accepted address c ∷ os) =
    (address ≡ a → before ≡ false) × Fresh a (if address == a then true else before) os
Fresh a before (gone address ∷ os) = Fresh a (if address == a then false else before) os
Fresh a before (starts ∷ os) = Fresh a before os
Fresh a before (stops ∷ os) = Fresh a before os
Fresh a before (loops ∷ os) = Fresh a before os
Fresh a before (applies apply ∷ os) = Fresh a before os
Fresh a before (handled given ∷ os) = Fresh a before os

unfoldable pub occurrences : ℕ → List ℕ → ℕ
occurrences a [] = 0
occurrences a (x ∷ xs) = flag (x == a) + occurrences a xs

occurrences-append :
    (a : ℕ) (xs ys : List ℕ) → occurrences a (xs ++ ys) ≡ occurrences a xs + occurrences a ys
unfolding occurrences
occurrences-append a [] ys = omega arith
occurrences-append a (x ∷ xs) ys = omega (arith, occurrences-append a xs ys)

occurrences_none : (a : ℕ) (xs : List ℕ) → All (λ x. x ≢ a) xs → occurrences a xs ≡ 0
unfolding occurrences
occurrences_none a [] h = refl
occurrences_none a (x ∷ xs) h = let rest = occurrences_none a xs h.1 in ground arith

-- The queue holds an address as often as the flag says, and has room for more.
pub record Holds (a : ℕ) (here : Bool) (more : ℕ) (q : BlockingQueue ℕ) : Type 0 where
  pub counted : occurrences a q.queue ≡ flag here
  pub room : length q.queue + more ≤ q.capacity

add-Holds :
    (a address more : ℕ) (here : Bool) (q : BlockingQueue ℕ)
    → (address ≡ a → here ≡ false)
    → Holds a here (suc more) q
    → (q' : BlockingQueue ℕ) × (add address q ≡ some q')
      × Holds a (if address == a then true else here) more q'
unfolding add occurrences
add-Holds a address more here q fresh k = (
  record q { queue = q.queue ++ (address ∷ []) },
  (let h = k.room in ground arith),
  record {
    counted =
        let old = k.counted in
        let sum = occurrences-append a q.queue (address ∷ []) in ground arith;
    room = omega (arith, k.room, length-append q.queue (address ∷ []));
  },
)

take-Holds :
    (a address more : ℕ) (here : Bool) (q : BlockingQueue ℕ)
    → Holds a here (suc more) q
    → Holds a (if address == a then false else here) more (take_item ℕ_discrete address q).1
unfolding occurrences
take-Holds a address more here q k = elim (take_item_total ℕ_discrete address q) [
  | inl (front, back, at, apart, e) ↦ rw e (record {
    counted =
        let old = k.counted in
        let parts = ap (occurrences a) at ∙ occurrences-append a front (address ∷ back) in
        let sum = occurrences-append a front back in ground arith;
    room = omega (
      arith,
      k.room,
      ap length at,
      length-append front (address ∷ back),
      length-append front back,
    );
  })
  | inr (apart, e) ↦ rw e (record {
    counted =
        let old = k.counted in
        let zero_times = occurrences_none address q.queue apart in ground arith;
    room = omega (arith, k.room);
  })
]

tell_clients :
    (present : Bool) (n : ListenerNotice) (l : Listener)
    → (tell present n l).network_clients ≡ l.network_clients
unfolding tell
tell_clients true n l = refl
tell_clients false n l = refl

accepted_clients :
    (address : ℕ) (c : Client) (l : Listener) (q : BlockingQueue ℕ)
    → add address l.network_clients ≡ some q
    → (on_accepted address c l).0.network_clients ≡ q
unfolding on_accepted
accepted_clients address c l q e = rw e (tell_clients l.has_on_client_connected _ _)

gone_clients :
    (address : ℕ) (l : Listener)
    → (on_client_gone address l).network_clients
      ≡ (take_item ℕ_discrete address l.network_clients).1
unfolding on_client_gone
gone_clients address l =
    ap (λ q. (take_item ℕ_discrete address q).1) (tell_clients l.has_on_client_disconnected _ l)

-- What leaves the clients as they are.
Holds-same :
    (a more : ℕ) (here : Bool) (l l' : Listener)
    → l'.network_clients ≡ l.network_clients
    → Holds a here (suc more) l.network_clients
    → Holds a here more l'.network_clients
Holds-same a more here l l' e k =
    rw e (record { counted = k.counted; room = omega (arith, k.room) })

start_clients : (l : Listener) → (start_accepting l).0.network_clients ≡ l.network_clients
unfolding start_accepting
start_clients l = ground arith

loop_clients : (l : Listener) → (accept_round l).network_clients ≡ l.network_clients
unfolding accept_round
loop_clients l = ground arith

serve-Holds :
    (a : ℕ) (os : List Occurrence) (here : Bool) (l : Listener)
    → Fresh a here os
    → Holds a here (length os) l.network_clients
    → Holds a (stands a here os) 0 (serve os l).network_clients
unfolding serve stands occur
serve-Holds a [] here l f k = k
serve-Holds a (starts ∷ os) here l f k =
    serve-Holds a os here _ f
      (Holds-same a (length os) here l (start_accepting l).0 (start_clients l) k)
serve-Holds a (stops ∷ os) here l f k =
    serve-Holds a os here _ f
      (Holds-same a (length os) here l (stop_accepting l) (unfold stop_accepting in refl) k)
serve-Holds a (loops ∷ os) here l f k =
    serve-Holds a os here _ f (Holds-same a (length os) here l (accept_round l) (loop_clients l) k)
serve-Holds a (applies apply ∷ os) here l f k =
    serve-Holds a os here _ f
      (Holds-same a (length os) here l (set_apply apply l) (unfold set_apply in refl) k)
serve-Holds a (handled given ∷ os) here l f k = serve-Holds a os here _ f (
    Holds-same a (length os) here l (set_on_client_connected_handler given l)
      (unfold set_on_client_connected_handler in refl) k)
serve-Holds a (accepted address c ∷ os) here l f k =
    let (q, e, k') = add-Holds a address (length os) here l.network_clients f.0 k in
    serve-Holds a os _ _ f.1
      (subst (Holds a _ (length os)) (sym (accepted_clients address c l q e)) k')
serve-Holds a (gone address ∷ os) here l f k = serve-Holds a os _ _ f (
    subst (Holds a _ (length os)) (sym (gone_clients address l))
      (take-Holds a address (length os) here l.network_clients k))

-- Let fewer than 2 ^ 64 - 1 things happen to a new listener, and no client be made at an address
-- while another one stands there. Then the address is in the queue of clients once if the last that
-- happened to a client there was that it was accepted, and not at all if it was that it disconnected
-- or lost its connection, or if there was none.
pub serve-stands :
    (shared : Bool) (a : ℕ) (os : List Occurrence)
    → length os < 2 ^ 64 - 1
    → Fresh a false os
    → occurrences a (serve os (new_listener shared)).network_clients.queue
      ≡ flag (stands a false os)
serve-stands shared a os h f =
    (serve-Holds a os false (new_listener shared) f
      (record { counted = unfold occurrences in refl; room = omega arith })).counted
