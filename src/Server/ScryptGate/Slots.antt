-- ===== src/Server/ScryptGate/Slots.antt =====
-- The slots that are counted are those that are held.
use misaka_network.Common.{
  Bool-cases, List, Option, [], any, arith, if◌then◌else◌, inl, inr, leb, length, length-append,
  ltb, nat_eq, none, refl, some, suc, true, ℕ, ◌∷◌, ◌≡◌, ◌≤◌, ◌⊎◌,
}
use misaka_network.Server.ScryptGate.{
  Gate, idle, Acquired, holds, waits, busy, acquire_scrypt_slot, hand_over, release_scrypt_slot,
}

-- The list without one entry of `call`.
abbrev pub give_up : ℕ → List ℕ → List ℕ
give_up call [] = []
give_up call (h ∷ hs) = if nat_eq h call then hs else h ∷ give_up call hs

abbrev pub grant_slot : Acquired → ℕ → List ℕ → List ℕ
grant_slot holds call hs = call ∷ hs
grant_slot waits call hs = hs
grant_slot busy call hs = hs

abbrev pub wake : Option ℕ → List ℕ → List ℕ
wake none hs = hs
wake (some next) hs = next ∷ hs

-- What can happen, with the calls that have a slot: a call asks, and one that has a slot ends.
pub data Runs (max_concurrent max_queue : ℕ) : Gate → List ℕ → Type 0 where
  begins : Runs max_concurrent max_queue idle []
  asks :
      (g : Gate) (hs : List ℕ) (call : ℕ)
      → Runs max_concurrent max_queue g hs
      → Runs max_concurrent max_queue
          (acquire_scrypt_slot max_concurrent max_queue g call).0
          (grant_slot (acquire_scrypt_slot max_concurrent max_queue g call).1 call hs)
  finishes :
      (g : Gate) (hs : List ℕ) (call : ℕ)
      → any (λ h. nat_eq h call) hs ≡ true
      → Runs max_concurrent max_queue g hs
      → Runs max_concurrent max_queue
          (release_scrypt_slot g).0
          (wake (release_scrypt_slot g).1 (give_up call hs))

pub record Bounded (max_concurrent max_queue : ℕ) (g : Gate) (hs : List ℕ) : Type 0 where
  pub counted : g.in_flight ≡ length hs
  pub within : length hs ≤ max_concurrent
  pub queue_within : length g.waiters ≤ max_queue
  pub busy_while_waiting : g.waiters ≡ [] ⊎ (length hs ≡ max_concurrent)

length-give_up :
    (call : ℕ) (hs : List ℕ)
    → any (λ h. nat_eq h call) hs ≡ true
    → suc (length (give_up call hs)) ≡ length hs
length-give_up call [] here = cc
length-give_up call (h ∷ hs) here = ground (arith, length-give_up call hs)

asks-Bounded :
    (max_concurrent max_queue : ℕ) (g : Gate) (hs : List ℕ) (call : ℕ)
    → Bounded max_concurrent max_queue g hs
    → let after = acquire_scrypt_slot max_concurrent max_queue g call in
      Bounded max_concurrent max_queue after.0 (grant_slot after.1 call hs)
unfolding acquire_scrypt_slot
asks-Bounded max_concurrent max_queue g hs call b =
    elim (Bool-cases (ltb g.in_flight max_concurrent)) [
      | inl free ↦
          let empty_queue : g.waiters ≡ [] =
            ground (arith, free, b.counted, b.busy_while_waiting) in
          rw (free, acquire_scrypt_slot)
            (record {
              counted = ground (arith, b.counted);
              within = ground (arith, free, b.counted);
              queue_within = b.queue_within;
              busy_while_waiting = inl empty_queue;
            })
      | inr full ↦
          let all_held : length hs ≡ max_concurrent = ground (arith, full, b.counted, b.within) in
          elim (Bool-cases (leb max_queue (length g.waiters))) [
            | inl crowded ↦ rw (full, acquire_scrypt_slot, crowded) b
            | inr room ↦
                rw (full, acquire_scrypt_slot, room)
                  (record {
                    counted = b.counted;
                    within = b.within;
                    queue_within = ground (arith, room, length-append g.waiters (call ∷ []));
                    busy_while_waiting = inr all_held;
                  })
          ]
    ]

finishes-Bounded :
    (max_concurrent max_queue n : ℕ) (queue hs : List ℕ) (call : ℕ)
    → any (λ h. nat_eq h call) hs ≡ true
    → Bounded max_concurrent max_queue (record { in_flight = n; waiters = queue }) hs
    → let after = hand_over n queue in
      Bounded max_concurrent max_queue after.0 (wake after.1 (give_up call hs))
finishes-Bounded max_concurrent max_queue n [] hs call here b = record {
  counted = omega (arith, b.counted, length-give_up call hs here);
  within = omega (arith, b.within, length-give_up call hs here);
  queue_within = b.queue_within;
  busy_while_waiting = inl refl;
}
finishes-Bounded max_concurrent max_queue n (next ∷ rest) hs call here b =
    let all_held : length hs ≡ max_concurrent = ground (arith, b.busy_while_waiting) in
    record {
      counted = omega (arith, b.counted, length-give_up call hs here);
      within = omega (arith, b.within, length-give_up call hs here);
      queue_within = omega (arith, b.queue_within);
      busy_while_waiting = inr (omega (arith, all_held, length-give_up call hs here));
    }

-- At every time the counter is the number of calls that have a slot, they are no more than the
-- limit, the queue is no longer than its limit, and a call waits only while every slot is taken.
pub Runs-Bounded :
    (max_concurrent max_queue : ℕ) (g : Gate) (hs : List ℕ)
    → Runs max_concurrent max_queue g hs
    → Bounded max_concurrent max_queue g hs
unfolding release_scrypt_slot
Runs-Bounded max_concurrent max_queue _ _ begins = record {
  counted = refl;
  within = omega arith;
  queue_within = omega arith;
  busy_while_waiting = inl refl;
}
Runs-Bounded max_concurrent max_queue _ _ (asks g hs call before) =
    asks-Bounded max_concurrent max_queue g hs call
      (Runs-Bounded max_concurrent max_queue g hs before)
Runs-Bounded max_concurrent max_queue _ _ (finishes g hs call here before) =
    finishes-Bounded max_concurrent max_queue g.in_flight g.waiters hs call here
      (Runs-Bounded max_concurrent max_queue g hs before)
