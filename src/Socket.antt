-- ===== src/Socket.antt =====
-- Socket.cpp and Socket.h: a `Socket` around an asio socket, which is a parameter. An operation of
-- asio gives the socket as it leaves it and whether it succeeded.
pub mod Closing
pub mod Sharing
mod Tests
use parlo_plus_plus.Common.{
  ℕ, ◌-◌, ◌%◌, ◌^◌, ◌≡◌, Bool, true, false, system_error, runtime_error, if◌then◌else◌,
}
use parlo_plus_plus.Common.Int.{ℤ, pos, negsuc}
use parlo_plus_plus.NetworkClient.{Exit, returns, raises, undefined, terminated}

-- `asio::ip::tcp::socket::shutdown_type`
pub data ShutdownType : Type 0 where
  shutdown_receive shutdown_send shutdown_both : ShutdownType

-- `moved` is the socket that a move leaves behind.
pub record Asio : Type 1 where
  pub State : Type 0
  pub is_open : State → Bool
  pub moved : State → State
  pub shutdown : ShutdownType → State → State × Bool
  pub close : State → State × Bool
  pub set_linger : Bool → ℕ → State → State × Bool
  pub accept : State → State × Bool
  pub connect : State → State × Bool

-- What asio documents: a socket is closed by `close` even where there is an error; no other operation
-- closes one; and a socket that is open already is no peer for an accept, while one that was accepted
-- is open.
pub record IsAsio (a : Asio) : Type 0 where
  pub closes : (s : a.State) → a.is_open (a.close s).0 ≡ false
  pub stays : (how : ShutdownType) (s : a.State) → a.is_open (a.shutdown how s).0 ≡ a.is_open s
  pub lingers :
      (enable : Bool) (timeout : ℕ) (s : a.State)
      → a.is_open (a.set_linger enable timeout s).0 ≡ a.is_open s
  pub accepts : (s : a.State) → (a.accept s).1 ≡ true → a.is_open (a.accept s).0 ≡ true
  pub refuses : (s : a.State) → (a.accept s).1 ≡ false → a.is_open (a.accept s).0 ≡ a.is_open s
  pub already_open : (s : a.State) → a.is_open s ≡ true → (a.accept s).1 ≡ false

-- An operation without an error code throws.
unfoldable pub or_throw : {S : Type 0} → S × Bool → S × Exit
or_throw (s, true) = (s, returns)
or_throw (s, false) = (s, raises system_error)

-- `static_cast<unsigned int>`
unfoldable pub to_uint32 : ℤ → ℕ
to_uint32 (pos n) = n % 2 ^ 32
to_uint32 (negsuc n) = 2 ^ 32 - 1 - n % 2 ^ 32

unfoldable pub lingered : {S : Type 0} → S × Bool → S × Exit
lingered (s, true) = (s, returns)
lingered (s, false) = (s, raises runtime_error)

module _ (a : Asio) where
  -- `setLinger`, with its own exception.
  unfoldable pub set_linger : Bool → ℤ → a.State → a.State × Exit
  unfolding to_uint32 lingered
  set_linger enable timeout s = lingered (a.set_linger enable (to_uint32 timeout) s)

  -- `acceptAsync` up to its callback, which gets the error code and this same socket.
  unfoldable pub accept_async : a.State → a.State × Bool
  accept_async s = a.accept s

  -- `connectAsync` up to its callback, which gets the error code.
  unfoldable pub connect_socket : a.State → a.State × Bool
  connect_socket s = a.connect s

  unfoldable pub shutdown : a.State → a.State × Exit
  unfolding or_throw
  shutdown s = or_throw (a.shutdown shutdown_both s)

  unfoldable pub shutdown_sending : a.State → a.State × Exit
  unfolding or_throw
  shutdown_sending s = or_throw (a.shutdown shutdown_send s)

  unfoldable pub shutdown_receiving : a.State → a.State × Exit
  unfolding or_throw
  shutdown_receiving s = or_throw (a.shutdown shutdown_receive s)

  unfoldable pub close : a.State → a.State × Exit
  unfolding or_throw
  close s = or_throw (a.close s)

  unfoldable pub is_open : a.State → Bool
  is_open s = a.is_open s

  -- The move assignment: `same` says whether both are one object; the second component is the other.
  unfoldable pub assign : Bool → a.State → a.State → a.State × a.State
  assign same this other = if same then (this, other) else (other, a.moved other)

  unfoldable pub closed : a.State × Exit → a.State × Exit
  unfolding close
  closed (s, returns) = close s
  closed (s, raises e) = (s, raises e)
  closed (s, undefined) = (s, undefined)
  closed (s, terminated) = (s, terminated)

  -- `if (socket.isOpen()) { socket.shutdown(); socket.close(); }` of `disconnectAsync`.
  unfoldable pub shut_and_close : a.State → a.State × Exit
  unfolding closed shutdown is_open
  shut_and_close s = if is_open s then closed (shutdown s) else (s, returns)
