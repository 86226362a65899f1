-- ===== src/Listener.antt =====
-- Listener.cpp. A client is known by its address, by which `std::shared_ptr`s are compared; the
-- constructor of a client is that of NetworkClient.cpp and its outcome an argument here. A round of
-- the loop of `acceptAsync` and a completion of an accept are steps of their own.
pub mod Clients
pub mod Accepting
pub mod Completions
mod Tests
use parlo_plus_plus.Common.{
  ℕ, zero, suc, ◌+◌, ◌-◌, not, runtime_error, ◌≡◌, Bool, true, false, List, [], ◌∷◌, ◌++◌, Option,
  none, some, Exception, bad_weak_ptr, if◌then◌else◌,
}
use native.Mathlib.Decide.{ℕ_discrete}
use parlo_plus_plus.BlockingQueue.{BlockingQueue, new_queue, add, take_item}
use parlo_plus_plus.NetworkClient.{Client, Exit, returns, raises, undefined, terminated}
use parlo_plus_plus.NetworkClient.Closing.{
  set_on_client_disconnected_handler, set_on_connection_lost_handler, set_apply_compression,
}

-- What the listener's user is told.
pub data ListenerNotice : Type 0 where
  client_connected client_disconnected : ℕ → ListenerNotice

-- `impl_shared`, `owner_shared`: whether a `shared_ptr` owns the `Impl` and the `Listener`.
-- `accept_loop`: whether `acceptFuture` runs the loop; `accepts` counts the accepts under way.
pub record Listener : Type 0 where
  pub impl_shared : Bool
  pub owner_shared : Bool
  pub running : Bool
  pub apply_compression : Bool
  pub accept_loop : Bool
  pub accepts : ℕ
  pub network_clients : BlockingQueue ℕ
  pub has_on_client_connected : Bool
  pub has_on_client_disconnected : Bool
  pub notices : List ListenerNotice

-- The `Impl` is held by a `unique_ptr`; nothing sets a handler for disconnected clients.
abbrev pub new_listener : Bool → Listener
new_listener shared = record {
  impl_shared = false;
  owner_shared = shared;
  running = false;
  apply_compression = false;
  accept_loop = false;
  accepts = 0;
  network_clients = new_queue;
  has_on_client_connected = false;
  has_on_client_disconnected = false;
  notices = [];
}

unfoldable pub start_accepting : Listener → Listener × Exit
start_accepting l =
    if l.impl_shared
    then (record l { running = true; accept_loop = true }, returns)
    else (record l { running = true }, raises bad_weak_ptr)

-- It waits for the loop to end.
unfoldable pub stop_accepting : Listener → Listener
stop_accepting l = record l { running = false; accept_loop = false }

-- The destructor.
unfoldable pub destroy_listener : Listener → Listener
unfolding stop_accepting
destroy_listener l = stop_accepting l

-- `clients`
unfoldable pub clients : Listener → BlockingQueue ℕ
clients l = l.network_clients

unfoldable pub set_apply : Bool → Listener → Listener
set_apply apply l = record l { apply_compression = apply }

unfoldable pub set_on_client_connected_handler : Bool → Listener → Listener
set_on_client_connected_handler given l = record l { has_on_client_connected = given }

-- One round of the loop of `acceptAsync`.
unfoldable pub accept_round : Listener → Listener
accept_round l = if l.running then record l { accepts = l.accepts + 1 } else l

-- `if (handler) handler(client)`
unfoldable pub tell : Bool → ListenerNotice → Listener → Listener
tell present n l = if present then record l { notices = l.notices ++ (n ∷ []) } else l

-- What is set on a new client.
unfoldable pub configure : Listener → Client → Client
configure l c =
    let c' = set_on_connection_lost_handler true (set_on_client_disconnected_handler true c) in
    if l.apply_compression then set_apply_compression true c' else c'

-- The queue with the new client; a full queue makes the handler wait, so that it comes no further.
unfoldable pub connected_to : ℕ → Listener → Option (BlockingQueue ℕ) → Listener
unfolding tell
connected_to address l none = l
connected_to address l (some q) =
    tell l.has_on_client_connected (client_connected address) (record l { network_clients = q })

-- The completion of an accept that succeeded, up to its call of `acceptAsync`, for a client that its
-- constructor has made at an address.
unfoldable pub on_accepted : ℕ → Client → Listener → Listener × Client
unfolding connected_to configure
on_accepted address c l = (connected_to address l (add address l.network_clients), configure l c)

-- What a call has come to: it is in the loop of `acceptAsync`; it waits for room in the queue; or it has
-- ended.
pub data Progress : Type 0 where
  looping : Progress
  blocked : Progress
  ended : Exit → Progress

-- A call of `acceptAsync`, as many rounds of its loop later: the loop has ended only if `running` was not
-- set when it was tested.
unfoldable pub accept_async : ℕ → Listener → Listener × Progress
unfolding accept_round
accept_async zero l = (l, if l.running then looping else ended returns)
accept_async (suc n) l =
    let rest = accept_async n (accept_round l) in if l.running then rest else (l, ended returns)

-- Behind `networkClients.add`.
unfoldable pub behind_add : ℕ → Listener → Option (BlockingQueue ℕ) → Listener × Progress
behind_add rounds l none = (l, blocked)
behind_add rounds l (some q) = accept_async rounds l

-- Behind the constructor of the new client. The handler goes on to `acceptAsync`, which it calls; on a
-- full queue it does not come so far.
unfoldable pub after_built : ℕ → ℕ → Client × Exit → Listener → Listener × Progress
unfolding on_accepted behind_add
after_built rounds address (c, returns) l =
    behind_add rounds (on_accepted address c l).0 (add address l.network_clients)
after_built rounds address (c, raises e) l = (l, ended (raises e))
after_built rounds address (c, undefined) l = (l, ended undefined)
after_built rounds address (c, terminated) l = (l, ended terminated)

-- The completion of an accept, `rounds` rounds after it has called `acceptAsync`: `failed` says whether
-- there was an error, `lingers` whether asio took the option, `built` what the constructor of the client
-- came to. `getListenerSharedPtr()` is an argument of that constructor.
unfoldable pub on_accept_completed :
    ℕ → ℕ → Bool → Bool → Client × Exit → Listener → Listener × Progress
unfolding after_built accept_async
on_accept_completed rounds address failed lingers built l =
    let l' = record l { accepts = l.accepts - 1 } in
    if failed
    then accept_async rounds l'
    else if not lingers
    then (l', ended (raises runtime_error))
    else if not l.owner_shared
    then (l', ended (raises bad_weak_ptr))
    else after_built rounds address built l'

-- `NewClient_OnClientDisconnected` and `NewClient_OnConnectionLost`, which do the same.
unfoldable pub on_client_gone : ℕ → Listener → Listener
unfolding tell
on_client_gone address l =
    let l' = tell l.has_on_client_disconnected (client_disconnected address) l in
    record l' { network_clients = (take_item ℕ_discrete address l'.network_clients).1 }
