-- ===== src/Listener/Completions.antt =====
-- The completion of an accept in Listener.cpp with the client that NetworkClient.cpp makes.
use parlo_plus_plus.Common.{
  ap, ◌∙◌, if◌then◌else◌, ℕ, zero, suc, ◌+◌, ◌-◌, ◌≡◌, ◌≢◌, refl, inl, inr, Bool, true, false,
  Bool-cases, arith,
}
use parlo_plus_plus.Common.Int.{ℤ}
use parlo_plus_plus.NetworkClient.{Client, Exit, returns, raises, terminated}
use parlo_plus_plus.NetworkClient.Lifetime.{listener_client, listener_client_terminates}
use parlo_plus_plus.Listener.{
  Listener, Progress, looping, ended, accept_round, accept_async, after_built, on_accept_completed,
}

after_built_terminated :
    (rounds address : ℕ) (built : Client × Exit) (l : Listener)
    → built.1 ≡ terminated
    → after_built rounds address built l ≡ (l, ended terminated)
unfolding after_built
after_built_terminated rounds address (c, returns) l e = cc (e)
after_built_terminated rounds address (c, raises x) l e = cc (e)
after_built_terminated rounds address (c, Exit.undefined) l e = cc (e)
after_built_terminated rounds address (c, terminated) l e = refl

taken {ℓ} : {A : Type ℓ} (b : Bool) (x y : A) → b ≡ true → (if b then x else y) ≡ x
taken true x y e = refl
taken false x y e = cc (e)

-- While the listener runs, `acceptAsync` starts one accept in each round and does not end.
accept_async-looping :
    (n : ℕ) (l : Listener)
    → l.running ≡ true
    → ((accept_async n l).1 ≡ looping)
      × ((accept_async n l).0.network_clients ≡ l.network_clients)
      × ((accept_async n l).0.accepts ≡ l.accepts + n)
unfolding accept_async accept_round
accept_async-looping zero l on = (taken l.running looping (ended returns) on, refl, omega arith)
accept_async-looping (suc n) l on =
    let next : Listener = record l { accepts = l.accepts + 1 } in
    let (loops, clients, accepts) = accept_async-looping n next on in
    let e : accept_async (suc n) l ≡ accept_async n next =
      taken l.running _ (l, ended returns) on ∙ ap (accept_async n) (taken l.running next l on) in
    (
      ap (λ (r : Listener × Progress). r.1) e ∙ loops,
      ap (λ (r : Listener × Progress). r.0.network_clients) e ∙ clients,
      omega (arith, accepts, ap (λ (r : Listener × Progress). r.0.accepts) e),
    )

-- How a completion of an accept is going on.
abbrev pub KeepsOn : ℕ → Bool → Listener → Listener × Progress → Type 0
KeepsOn rounds failed l r =
    (r.1 ≢ ended returns)
    × (r.0.network_clients ≡ l.network_clients)
    × (failed ≡ true → (r.1 ≡ looping) × (r.0.accepts ≡ l.accepts - 1 + rounds))

-- While the listener runs, no completion of an accept ever returns, however many rounds go by, whether
-- there was an error, whether asio takes the option and whoever holds the listener: behind an error the
-- loop of `acceptAsync`, which it calls, goes on and has started one more accept in each round; behind
-- an accept that succeeded it ends with an exception, or the constructor of NetworkClient.cpp ends the
-- process. No client comes into the queue.
pub on_accept_completed-KeepsOn :
    (rounds address : ℕ) (failed lingers : Bool) (rtt : ℤ) (l : Listener)
    → l.running ≡ true
    → KeepsOn rounds failed l
        (on_accept_completed rounds address failed lingers (listener_client rtt) l)
unfolding on_accept_completed
on_accept_completed-KeepsOn rounds address true lingers rtt l on =
    let (loops, clients, accepts) =
      accept_async-looping rounds (record l { accepts = l.accepts - 1 }) on in
    (λ e. cc (loops, e), clients, λ e. (loops, accepts))
on_accept_completed-KeepsOn rounds address false false rtt l on =
    (λ e. cc (e), refl, λ e. absurd (cc (e)))
on_accept_completed-KeepsOn rounds address false true rtt l on = elim (Bool-cases l.owner_shared) [
  | inr alone ↦ rw alone (λ e. cc (e), refl, λ e. absurd (cc (e)))
  | inl shared ↦
      rw
        (
          after_built_terminated rounds address (listener_client rtt)
              (record l { accepts = l.accepts - 1 }) (listener_client_terminates rtt),
          shared,
        )
        (λ e. cc (e), refl, λ e. absurd (cc (e)))
]
