-- ===== src/Socket/Sharing.antt =====
-- The one socket of a listener: `acceptAsync` of Listener.cpp accepts each connection into
-- `listenerSocket`, and each client that is made keeps a reference to that socket.
use parlo_plus_plus.Common.{
  ℕ, ◌+◌, ◌≤◌, ◌≡◌, refl, ap, ◌∙◌, inl, inr, Bool, true, false, not, ◌&&◌, List, [], ◌∷◌,
  Bool-cases, arith,
}
use parlo_plus_plus.Common.Int.{pos}
use parlo_plus_plus.Packet.{flag}
use parlo_plus_plus.Socket.{
  Asio, IsAsio, set_linger, to_uint32, lingered, accept_async, is_open, shut_and_close,
}
use parlo_plus_plus.Socket.Closing.{shut_and_close_closed}
use parlo_plus_plus.NetworkClient.{Exit}

-- The socket, with the numbers of connections that were accepted and of clients that have closed it.
pub record Desk (a : Asio) : Type 0 where
  pub socket : a.State
  pub accepted : ℕ
  pub gone : ℕ

-- An accept completes, or some client closes its socket in `disconnectAsync`.
pub data Turn : Type 0 where
  connection leaving : Turn

-- The callback of an accept: its socket is the listener's, on which the option is set.
unfoldable pub accepted_into : (a : Asio) → Desk a → a.State × Bool → Desk a
unfolding set_linger
accepted_into a d (s, true) = record d {
  socket = (set_linger a true (pos 5) s).0;
  accepted = d.accepted + 1;
}
accepted_into a d (s, false) = record d { socket = s }

unfoldable pub left_from : (a : Asio) → Desk a → a.State × Exit → Desk a
unfolding is_open
left_from a d (s, exit) = record d {
  socket = s;
  gone = d.gone + flag (is_open a d.socket && not (is_open a s));
}

unfoldable pub turn : (a : Asio) → Turn → Desk a → Desk a
unfolding accepted_into left_from accept_async shut_and_close
turn a connection d = accepted_into a d (accept_async a d.socket)
turn a leaving d = left_from a d (shut_and_close a d.socket)

unfoldable pub turns : (a : Asio) → List Turn → Desk a → Desk a
unfolding turn
turns a [] d = d
turns a (t ∷ ts) d = turns a ts (turn a t d)

-- One connection more has been accepted than closed exactly while the socket is open.
pub record TakesTurns (a : Asio) (d : Desk a) : Type 0 where
  pub one_more : d.accepted ≡ d.gone + flag (a.is_open d.socket)

set_linger-open :
    (a : Asio) → IsAsio a → (s : a.State) → a.is_open (set_linger a true (pos 5) s).0 ≡ a.is_open s
unfolding set_linger lingered
set_linger-open a laws s =
    ap a.is_open (same (a.set_linger true (to_uint32 (pos 5)) s)) ∙ laws.lingers true _ s
  where
    same : {S : Type 0} (r : S × Bool) → (lingered r).0 ≡ r.0
    same (s, true) = refl
    same (s, false) = refl

accepted_into-TakesTurns :
    (a : Asio) (d : Desk a) (r : a.State × Bool)
    → IsAsio a
    → TakesTurns a d
    → (r.1 ≡ true → (a.is_open d.socket ≡ false) × (a.is_open r.0 ≡ true))
    → (r.1 ≡ false → a.is_open r.0 ≡ a.is_open d.socket)
    → TakesTurns a (accepted_into a d r)
unfolding accepted_into
accepted_into-TakesTurns a d (s, true) laws k came stayed =
    let (closed, opened) = came refl in
    record { one_more = rw (set_linger-open a laws s, opened, k.one_more, closed) (omega arith) }
accepted_into-TakesTurns a d (s, false) laws k came stayed = record {
  one_more = rw (stayed refl) k.one_more;
}

accept-TakesTurns :
    (a : Asio) (d : Desk a) → IsAsio a → TakesTurns a d → TakesTurns a (turn a connection d)
unfolding turn accept_async
accept-TakesTurns a d laws k =
    accepted_into-TakesTurns a d (a.accept d.socket) laws k
      (λ e. (
        elim (Bool-cases (a.is_open d.socket)) [
          | inl open_yet ↦ absurd (cc (laws.already_open d.socket open_yet, e))
          | inr closed ↦ closed
        ],
        laws.accepts d.socket e,
      ))
      (λ e. laws.refuses d.socket e)

left_from-TakesTurns :
    (a : Asio) (d : Desk a) (r : a.State × Exit)
    → TakesTurns a d
    → (a.is_open d.socket ≡ false → a.is_open r.0 ≡ false)
    → TakesTurns a (left_from a d r)
unfolding left_from is_open
left_from-TakesTurns a d (s, exit) k stays = elim (Bool-cases (a.is_open d.socket)) [
  | inl was ↦
      let one : d.accepted ≡ d.gone + 1 = k.one_more ∙ ap (λ o. d.gone + flag o) was in
      elim (Bool-cases (a.is_open s)) [
        | inl now ↦ record { one_more = rw (was, now) (omega (arith, one)) }
        | inr now ↦ record { one_more = rw (was, now) (omega (arith, one)) }
      ]
  | inr was ↦
      let none : d.accepted ≡ d.gone + 0 = k.one_more ∙ ap (λ o. d.gone + flag o) was in
      record { one_more = rw (was, stays was) (omega (arith, none)) }
]

leave-TakesTurns : (a : Asio) (d : Desk a) → TakesTurns a d → TakesTurns a (turn a leaving d)
unfolding turn
leave-TakesTurns a d k =
    left_from-TakesTurns a d (shut_and_close a d.socket) k
      (λ e. rw (shut_and_close_closed a d.socket e) e)

turns-TakesTurns :
    (a : Asio) (ts : List Turn) (d : Desk a)
    → IsAsio a
    → TakesTurns a d
    → TakesTurns a (turns a ts d)
unfolding turns
turns-TakesTurns a [] d laws k = k
turns-TakesTurns a (connection ∷ ts) d laws k =
    turns-TakesTurns a ts _ laws (accept-TakesTurns a d laws k)
turns-TakesTurns a (leaving ∷ ts) d laws k = turns-TakesTurns a ts _ laws (leave-TakesTurns a d k)

flag_small : (b : Bool) → flag b ≤ 1
flag_small true = omega arith
flag_small false = omega arith

-- Over asio as it is documented, and from a socket that is closed: however accepts complete and
-- clients leave, the connections that were accepted are as many as the clients that have closed the
-- socket, and one more exactly while the socket is open. So a listener never has two clients at a
-- time.
pub turns_one_client :
    (a : Asio) (ts : List Turn) (s : a.State)
    → IsAsio a
    → a.is_open s ≡ false
    → let d = turns a ts (record { socket = s; accepted = 0; gone = 0 }) in
      (d.accepted ≡ d.gone + flag (a.is_open d.socket)) × (d.accepted ≤ d.gone + 1)
turns_one_client a ts s laws shut =
    let start : Desk a = record { socket = s; accepted = 0; gone = 0 } in
    let k = turns-TakesTurns a ts start laws (record { one_more = rw shut refl }) in
    let small = flag_small (a.is_open (turns a ts start).socket) in
    (k.one_more, omega (arith, k.one_more, small))
