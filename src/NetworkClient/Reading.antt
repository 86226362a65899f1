-- ===== src/NetworkClient/Reading.antt =====
-- The completion of a read in NetworkClient.cpp.
use parlo_plus_plus.Common.{
  ℕ, ◌≤◌, ◌<◌, ◌≡◌, ◌⊎◌, inl, inr, true, false, List, [], ◌∷◌, ◌++◌, none, some, bad_weak_ptr, ltb,
  length, Bool-cases, arith,
}
use parlo_plus_plus.NetworkClient.{
  Client, Exit, returns, raises, undefined, connection_lost, notify, lose_connection, on_read,
}

-- While a client is connected and a `shared_ptr` owns its `Impl`, a read that succeeds puts its bytes
-- behind those of the buffer if there are at most 1024 of them, and drops all of them if there are
-- more; in both cases the next read is started, and nothing else changes.
pub on_read-some :
    (bytes : List ℕ) (c : Client)
    → c.connected ≡ true
    → c.impl_shared ≡ true
    → ((length bytes ≤ 1024)
        × (on_read (some bytes) c ≡ (
          record c {
            reading = true;
            buffer = record c.buffer { internal_buffer = c.buffer.internal_buffer ++ bytes };
          },
          returns,
        )))
      ⊎ ((1024 < length bytes) × (on_read (some bytes) c ≡ (record c { reading = true }, returns)))
unfolding on_read
on_read-some bytes c h k = elim (Bool-cases (ltb 1024 (length bytes))) [
  | inl over ↦ inr (ground arith, ground arith)
  | inr fits ↦ inl (ground arith, ground arith)
]

-- How the user hears of a lost connection, or why not.
abbrev pub Hears : Client → Client × Exit → Type 0
Hears c r =
    ((c.on_connection_lost ≡ false) × (r ≡ (c, returns)))
    ⊎ (((c.on_connection_lost ≡ true) × (c.has_owner ≡ false) × (r ≡ (c, undefined)))
        ⊎ (((c.on_connection_lost ≡ true)
              × (c.has_owner ≡ true)
              × (c.owner_shared ≡ false)
              × (r ≡ (c, raises bad_weak_ptr)))
            ⊎ ((c.on_connection_lost ≡ true)
                × (c.has_owner ≡ true)
                × (c.owner_shared ≡ true)
                × (r ≡ (record c { notices = c.notices ++ (connection_lost ∷ []) }, returns)))))

lose_connection-Hears : (c : Client) → Hears c (lose_connection c)
unfolding lose_connection notify
lose_connection-Hears c = elim (Bool-cases c.on_connection_lost) [
  | inr silent ↦ inl (silent, ground arith)
  | inl handled ↦ elim (Bool-cases c.has_owner) [
    | inr unknown ↦ inr (inl (handled, unknown, ground arith))
    | inl known ↦ elim (Bool-cases c.owner_shared) [
      | inr alone ↦ inr (inr (inl (handled, known, alone, ground arith)))
      | inl shared ↦ inr (inr (inr (handled, known, shared, ground arith)))
    ]
  ]
]

-- A read that fails leaves the client disconnected and starts no other read. Its user is told of the
-- lost connection if the handler is set, the `Impl` knows its owner and a `shared_ptr` holds that;
-- without the handler nothing more happens, without the `shared_ptr` an exception is thrown, and
-- where the handler is set and the `Impl` does not know its owner, the behaviour is undefined.
pub on_read-none :
    (c : Client) → Hears (record c { reading = false; connected = false }) (on_read none c)
unfolding on_read
on_read-none c = lose_connection-Hears (record c { reading = false; connected = false })
