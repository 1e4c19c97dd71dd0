-- ===== src/Server/ScryptGate.antt =====
-- server/src/store.ts: the slots for hashes that run at a time, and the queue before them.
pub mod Slots
pub mod Tests
use misaka_network.Common.{
  List, Option, [], if◌then◌else◌, leb, length, ltb, none, some, suc, ℕ, ◌++◌, ◌-◌, ◌∷◌,
}

-- scryptInFlight and scryptWaiters; a call is known by a number.
pub record Gate : Type 0 where
  pub in_flight : ℕ
  pub waiters : List ℕ

abbrev pub idle : Gate
idle = record { in_flight = 0; waiters = [] }

pub data Acquired : Type 0 where
  holds waits busy : Acquired

unfoldable pub acquire_scrypt_slot : ℕ → ℕ → Gate → ℕ → Gate × Acquired
acquire_scrypt_slot max_concurrent max_queue g call =
    if ltb g.in_flight max_concurrent
    then (record g { in_flight = suc g.in_flight }, holds)
    else if leb max_queue (length g.waiters)
    then (g, busy)
    else (record g { waiters = g.waiters ++ call ∷ [] }, waits)

abbrev pub hand_over : ℕ → List ℕ → Gate × Option ℕ
hand_over n [] = (record { in_flight = n - 1; waiters = [] }, none)
hand_over n (next ∷ rest) = (record { in_flight = n; waiters = rest }, some next)

-- The gate afterwards, and the call that goes on.
unfoldable pub release_scrypt_slot : Gate → Gate × Option ℕ
release_scrypt_slot g = hand_over g.in_flight g.waiters
