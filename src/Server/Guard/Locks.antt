-- ===== src/Server/Guard/Locks.antt =====
-- What one guess more does to the attempter's lock.
use misaka_network.Common.{arith, nat_keys, none, some, string_keys, ℕ, ◌≡◌}
use misaka_network.Common.Dict
use misaka_network.Common.Dict.{Dict, get-put, get-put_self}
use misaka_network.Server.Guard.{
  Limits, Guard, AttemptKey, attempt_keys, charge, hold_lock, bump, lock_at,
  record_failed_passcode_attempt, new_lock,
}

module _ (cfg : Limits) (g : Guard) (key : AttemptKey) (now : ℕ) where
  -- The lock that the map has for the attempter after a guess that found none.
  pub fresh_charge :
      let after = (charge cfg g key none now).0 in
      (Dict.get after.attempt_locks key ≡ some g.next_lock)
      × (lock_at after g.next_lock ≡ bump cfg now (new_lock now))
  unfolding charge record_failed_passcode_attempt hold_lock
  fresh_charge = (
    get-put_self g.attempt_locks key g.next_lock,
    ground (
      arith,
      get-put_self g.lock_objects g.next_lock (new_lock now),
      get-put_self (Dict.put g.lock_objects g.next_lock (new_lock now)) g.next_lock
          (bump cfg now (new_lock now)),
    ),
  )

  -- And after one that found the lock `ref`.
  pub held_charge :
      (ref : ℕ)
      → Dict.get g.attempt_locks key ≡ some ref
      → let after = (charge cfg g key (some ref) now).0 in
        (Dict.get after.attempt_locks key ≡ some ref)
        × (lock_at after ref ≡ bump cfg now (lock_at g ref))
  unfolding charge record_failed_passcode_attempt hold_lock
  held_charge ref there =
      (there, ground (arith, get-put_self g.lock_objects ref (bump cfg now (lock_at g ref))))

-- The wrong guesses of an attempter that the map counts.
abbrev pub counted : Guard → AttemptKey → ℕ
counted g key = elim (Dict.get g.attempt_locks key) [
  | none ↦ 0
  | some ref ↦ (lock_at g ref).attempts
]

-- Two wrong guesses of one attempter with no lock yet: one after the other they count as two; when
-- both were under way before either was charged, so that both found no lock, they count as one.
pub guesses_counted :
    (cfg : Limits) (g : Guard) (key : AttemptKey) (t1 t2 : ℕ)
    → Dict.get g.attempt_locks key ≡ none
    → let first = (charge cfg g key none t1).0 in
      (counted (charge cfg first key (some g.next_lock) t2).0 key ≡ 2)
      × (counted (charge cfg first key none t2).0 key ≡ 1)
unfolding bump
guesses_counted cfg g key t1 t2 free =
    let first = (charge cfg g key none t1).0 in
    let one = fresh_charge cfg g key t1 in
    let two = held_charge cfg first key t2 g.next_lock one.0 in
    let again = fresh_charge cfg first key t2 in (ground (arith, one, two), ground (arith, again))
