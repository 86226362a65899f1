-- ===== src/NetworkClient/MissedHeartbeats.antt =====
-- Rounds of `checkForMissedHeartbeats` (NetworkClient.cpp) while no heartbeat comes.
use parlo_plus_plus.Common.{
  ℕ, zero, suc, ◌+◌, ◌≤◌, ◌<◌, ◌≡◌, Bool, true, false, ◌&&◌, List, [], ◌∷◌, ◌++◌, arith,
}
use parlo_plus_plus.NetworkClient.{Client, returns, connection_lost, notify, lose_connection}
use parlo_plus_plus.NetworkClient.Heartbeats.{check_heartbeats}

-- Rounds of the check with no heartbeat in between.
unfoldable pub checks : ℕ → Client → Client
unfolding check_heartbeats
checks zero c = c
checks (suc n) c = checks n (check_heartbeats c).0

abbrev pub copies {ℓ} : {A : Type ℓ} → ℕ → A → List A
copies zero a = []
copies (suc n) a = a ∷ copies n a

-- A client whose loss its user hears of.
pub record IsWatched (c : Client) : Type 0 where
  pub checking : c.stop_check_missed_heartbeats ≡ false
  pub handled : c.on_connection_lost ≡ true
  pub owned : c.has_owner ≡ true
  pub shared : c.owner_shared ≡ true

pub check_below :
    (c : Client)
    → IsWatched c
    → c.missed_heartbeats < 6
    → check_heartbeats c ≡ (record c { missed_heartbeats = c.missed_heartbeats + 1 }, returns)
unfolding check_heartbeats
check_below c w h = ground arith

pub check_above :
    (c : Client)
    → IsWatched c
    → 6 ≤ c.missed_heartbeats
    → check_heartbeats c ≡ (
      record c {
        missed_heartbeats = c.missed_heartbeats + 1;
        is_alive = false;
        notices = c.notices ++ (connection_lost ∷ []);
      },
      returns,
    )
unfolding check_heartbeats lose_connection notify
check_above c w h = ground arith

-- The outcome of rounds: the count, the notices that were added, and whether the client is alive.
pub record Outcome (c : Client) (missed told : ℕ) (alive : Bool) (c' : Client) : Type 0 where
  pub counted : c'.missed_heartbeats ≡ missed
  pub notified : c'.notices ≡ c.notices ++ copies told connection_lost
  pub living : c'.is_alive ≡ (c.is_alive && alive)
