-- ===== src/Listener/Accepting.antt =====
-- `startAccepting` of Listener.cpp in the life of a listener.
use parlo_plus_plus.Common.{
  Bool, ℕ, ◌≡◌, refl, true, false, List, [], ◌∷◌, Option, none, some, bad_weak_ptr, arith,
}
use parlo_plus_plus.BlockingQueue.{BlockingQueue, add}
use parlo_plus_plus.NetworkClient.{raises}
use parlo_plus_plus.Listener.{
  Listener, new_listener, start_accepting, stop_accepting, set_apply,
  set_on_client_connected_handler, accept_round, tell, connected_to, on_accepted, on_client_gone,
}
use parlo_plus_plus.Listener.Clients.{
  Occurrence, starts, stops, loops, applies, handled, accepted, gone, occur, serve,
}

-- A listener that has not begun to accept, and cannot.
record IsDeaf (l : Listener) : Type 0 where
  pub unshared : l.impl_shared ≡ false
  pub idle : l.accept_loop ≡ false

connected_to-IsDeaf :
    (address : ℕ) (l : Listener) (q : Option (BlockingQueue ℕ))
    → IsDeaf l
    → IsDeaf (connected_to address l q)
unfolding connected_to tell
connected_to-IsDeaf address l none d = d
connected_to-IsDeaf address l (some q) d = ground arith

occur-IsDeaf : (o : Occurrence) (l : Listener) → IsDeaf l → IsDeaf (occur o l)
unfolding occur
occur-IsDeaf starts l d = unfold start_accepting in ground arith
occur-IsDeaf stops l d = unfold stop_accepting in ground arith
occur-IsDeaf loops l d = unfold accept_round in ground arith
occur-IsDeaf (applies apply) l d = unfold set_apply in ground arith
occur-IsDeaf (handled given) l d = unfold set_on_client_connected_handler in ground arith
occur-IsDeaf (accepted address c) l d =
    unfold on_accepted in connected_to-IsDeaf address l (add address l.network_clients) d
occur-IsDeaf (gone address) l d = unfold on_client_gone tell in ground arith

serve-IsDeaf : (os : List Occurrence) (l : Listener) → IsDeaf l → IsDeaf (serve os l)
unfolding serve
serve-IsDeaf [] l d = d
serve-IsDeaf (o ∷ os) l d = serve-IsDeaf os (occur o l) (occur-IsDeaf o l d)

-- Whatever has happened to a listener, its loop of accepts has never been started, and a call of
-- `start_accepting` marks it as running and throws: its `Impl` is owned by a `unique_ptr`.
pub serve_deaf :
    (shared : Bool) (os : List Occurrence)
    → let l = serve os (new_listener shared) in
      (l.accept_loop ≡ false)
      × (start_accepting l ≡ (record l { running = true }, raises bad_weak_ptr))
unfolding start_accepting
serve_deaf shared os =
    let d = serve-IsDeaf os (new_listener shared) (record { unshared = refl; idle = refl }) in
    let e = d.unshared in (d.idle, rw e refl)
