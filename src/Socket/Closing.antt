-- ===== src/Socket/Closing.antt =====
-- How `disconnectAsync` of NetworkClient.cpp closes its socket, over Socket.cpp and asio.
use parlo_plus_plus.Common.{
  not, ◌&&◌, ◌||◌, if◌then◌else◌, ◌≡◌, refl, inl, inr, Bool, true, false, Bool-cases, system_error,
}
use parlo_plus_plus.Socket.{
  Asio, IsAsio, shutdown_both, or_throw, shutdown, close, closed, is_open, shut_and_close,
}
use parlo_plus_plus.NetworkClient.{Exit, returns, raises}
use parlo_plus_plus.NetworkClient.Closing.{SocketAnswers}

-- What a socket answers to `shutdown`, and to the `close` behind it.
unfoldable pub answers : (a : Asio) → a.State → SocketAnswers
answers a s = record {
  shuts_down = (a.shutdown shutdown_both s).1;
  closes = (a.close (a.shutdown shutdown_both s).0).1;
}

pub or_throw_ok : {S : Type 0} (r : S × Bool) → r.1 ≡ true → or_throw r ≡ (r.0, returns)
unfolding or_throw
or_throw_ok (s, true) e = refl
or_throw_ok (s, false) e = absurd (cc (e))

pub or_throw_fails :
    {S : Type 0} (r : S × Bool) → r.1 ≡ false → or_throw r ≡ (r.0, raises system_error)
unfolding or_throw
or_throw_fails (s, true) e = absurd (cc (e))
or_throw_fails (s, false) e = refl

module _ (a : Asio) (s : a.State) where
  pub shut_and_close_closed : a.is_open s ≡ false → shut_and_close a s ≡ (s, returns)
  unfolding shut_and_close is_open
  shut_and_close_closed e = rw e refl

  pub shut_and_close_fails :
      a.is_open s ≡ true
      → (a.shutdown shutdown_both s).1 ≡ false
      → shut_and_close a s ≡ ((a.shutdown shutdown_both s).0, raises system_error)
  unfolding shut_and_close is_open shutdown closed
  shut_and_close_fails e f = rw (e, or_throw_fails (a.shutdown shutdown_both s) f) refl

  pub shut_and_close_closes :
      a.is_open s ≡ true
      → (a.shutdown shutdown_both s).1 ≡ true
      → shut_and_close a s ≡ or_throw (a.close (a.shutdown shutdown_both s).0)
  unfolding shut_and_close is_open shutdown closed close
  shut_and_close_closes e f = rw (e, or_throw_ok (a.shutdown shutdown_both s) f) refl

-- How it ends: the socket is open if it was and does not shut down, and an exception says that one of
-- the two calls failed.
abbrev pub EndsAs : (a : Asio) → a.State → a.State × Exit → Type 0
EndsAs a s r =
    (a.is_open r.0 ≡ (a.is_open s && not (answers a s).shuts_down))
    × (r.1 ≡ (
        if not (a.is_open s) || ((answers a s).shuts_down && (answers a s).closes)
        then returns
        else raises system_error))

module _ (a : Asio) (laws : IsAsio a) (s : a.State) where
  -- Over asio as it is documented, what `disconnectAsync` does with the socket leaves it closed, unless
  -- it was open and does not shut down: then `close` is never called, and the socket stays open. An
  -- exception is thrown exactly if the socket was open and one of the two calls fails.
  pub shut_and_close-EndsAs : EndsAs a s (shut_and_close a s)
  unfolding answers
  shut_and_close-EndsAs = elim (Bool-cases (a.is_open s)) [
    | inr shut ↦ rw (shut_and_close_closed a s shut, shut) (refl, refl)
    | inl open_yet ↦ elim (Bool-cases (a.shutdown shutdown_both s).1) [
      | inr refused ↦
          rw
            (
              shut_and_close_fails a s open_yet refused,
              laws.stays shutdown_both s,
              open_yet,
              refused,
            )
            (refl, refl)
      | inl done ↦ elim (Bool-cases (a.close (a.shutdown shutdown_both s).0).1) [
        | inl fine ↦
            rw
              (
                shut_and_close_closes a s open_yet done,
                or_throw_ok (a.close (a.shutdown shutdown_both s).0) fine,
                laws.closes (a.shutdown shutdown_both s).0,
                open_yet,
                done,
                fine,
              )
              (refl, refl)
        | inr failed ↦
            rw
              (
                shut_and_close_closes a s open_yet done,
                or_throw_fails (a.close (a.shutdown shutdown_both s).0) failed,
                laws.closes (a.shutdown shutdown_both s).0,
                open_yet,
                done,
                failed,
              )
              (refl, refl)
      ]
    ]
  ]
