-- ===== src/Server/ScryptGate/Tests.antt =====
-- One slot and a queue of one: the second call waits for the first, the third is refused.
use misaka_network.Common.{[], refl, ◌∷◌, ◌≡◌}
use misaka_network.Server.ScryptGate.{Gate, idle, acquire_scrypt_slot, release_scrypt_slot, busy}
use misaka_network.Server.ScryptGate.Slots.{Runs, begins, asks, finishes, Bounded, Runs-Bounded}

abbrev one_waits : Gate
one_waits = record { in_flight = 1; waiters = 8 ∷ [] }

third_is_refused : (acquire_scrypt_slot 1 1 one_waits 9).1 ≡ busy
unfolding acquire_scrypt_slot
third_is_refused = refl

a_run : Runs 1 1 (record { in_flight = 1; waiters = [] }) (8 ∷ [])
unfolding acquire_scrypt_slot release_scrypt_slot
a_run =
    finishes one_waits (7 ∷ []) 7 refl
      (asks (record { in_flight = 1; waiters = [] }) (7 ∷ []) 8 (asks idle [] 7 begins))

Runs-Bounded_example : Bounded 1 1 (record { in_flight = 1; waiters = [] }) (8 ∷ [])
Runs-Bounded_example = Runs-Bounded 1 1 (record { in_flight = 1; waiters = [] }) (8 ∷ []) a_run
