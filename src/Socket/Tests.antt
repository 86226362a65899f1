-- ===== src/Socket/Tests.antt =====
-- Runs of Socket.cpp over an asio socket that is only open or closed.
use parlo_plus_plus.Common.{◌+◌, ◌≤◌, ◌≡◌, refl, Bool, true, false, not, List, [], ◌∷◌}
use parlo_plus_plus.Packet.{flag}
use parlo_plus_plus.Socket.{Asio, IsAsio, shut_and_close}
use parlo_plus_plus.Socket.Closing.{EndsAs, shut_and_close-EndsAs}
use parlo_plus_plus.Socket.Sharing.{Turn, connection, leaving, turns, turns_one_client}

-- `close` fails on a socket that is closed.
abbrev simple : Asio
simple = record {
  State = Bool;
  is_open = λ s. s;
  moved = λ s. false;
  shutdown = λ how s. (s, s);
  close = λ s. (false, s);
  set_linger = λ enable timeout s. (s, s);
  accept = λ s. (true, not s);
  connect = λ s. (true, not s);
}

simple_refuses : (s : Bool) → not s ≡ false → true ≡ s
simple_refuses true e = refl
simple_refuses false e = absurd (cc (e))

simple_open : (s : Bool) → s ≡ true → not s ≡ false
simple_open true e = refl
simple_open false e = absurd (cc (e))

simple-IsAsio : IsAsio simple
simple-IsAsio = record {
  closes = λ s. refl;
  stays = λ how s. refl;
  lingers = λ enable timeout s. refl;
  accepts = λ s e. refl;
  refuses = simple_refuses;
  already_open = simple_open;
}

shut_and_close-EndsAs_example : EndsAs simple true (shut_and_close simple true)
shut_and_close-EndsAs_example = shut_and_close-EndsAs simple simple-IsAsio true

abbrev a_shift : List Turn
a_shift = connection ∷ connection ∷ leaving ∷ connection ∷ []

turns_one_client_example :
    let d = turns simple a_shift (record { socket = false; accepted = 0; gone = 0 }) in
    (d.accepted ≡ d.gone + flag d.socket) × (d.accepted ≤ d.gone + 1)
turns_one_client_example = turns_one_client simple a_shift false simple-IsAsio refl
