-- ===== src/Server/GuardTests.antt =====
-- The counters at concrete guesses.
use misaka_network.Common.{List, [], arith, inr, none, refl, some, ℕ, ◌+◌, ◌<◌, ◌∷◌, ◌≡◌, ◌≤◌}
use misaka_network.Common.Dict
use misaka_network.Common.Dict.{Dict}
use misaka_network.Server.Sample.{limits, digests, server}
use misaka_network.Server.Guard.{
  Guard, AttemptKey, attempt_keys, no_guard, charge, open_lock, hold_lock, bump,
  record_failed_passcode_attempt, add_failure, prune_freeze_failures,
}
use misaka_network.Server.Guard.Locks.{counted, guesses_counted}
use misaka_network.Server.Admission.{Server}
use misaka_network.Server.Admission.Replace.{captured}
use misaka_network.Server.Guard.Lockout.{
  LockEvent, guesses, rejects, sweeps, checks, step, run, lock_holds,
}

abbrev attempter : AttemptKey
attempter = ("10.0.0.9", 7)

no_lock : Dict.get no_guard.attempt_locks attempter ≡ none
unfolding Dict.get
no_lock = refl

guesses_counted_example :
    let first = (charge limits no_guard attempter none 1000).0 in
    (counted (charge limits first attempter (some 0) 1010).0 attempter ≡ 2)
    × (counted (charge limits first attempter none 1010).0 attempter ≡ 1)
guesses_counted_example = guesses_counted limits no_guard attempter 1000 1010 no_lock

abbrev two_wrong : Guard
two_wrong = record no_guard {
  attempt_locks = (attempter, 0) ∷ [];
  lock_objects = (0, record { attempts = 2; locked_until = 0; last_attempt_at = 900 }) ∷ [];
  next_lock = 1;
}

two_wrong_lock : Dict.get two_wrong.attempt_locks attempter ≡ some 0
unfolding Dict.get
two_wrong_lock = refl

at_the_limit :
    3 ≤ (charge limits two_wrong attempter (captured two_wrong attempter) 1000).1.attempts
unfolding Dict.get charge hold_lock bump record_failed_passcode_attempt add_failure
    prune_freeze_failures Dict.put
at_the_limit = omega arith

allocated : (ref : ℕ) → Dict.get two_wrong.attempt_locks attempter ≡ some ref → ref < 1
allocated ref there = ground (arith, two_wrong_lock, there)

abbrev guarded : Server
guarded = record server { guard = two_wrong }

-- A guess of the attempter that had found the lock, a wrong proof and a guess of others, and a sweep.
abbrev meanwhile : List LockEvent
meanwhile =
    guesses attempter (some 0) 1100
    ∷ rejects none "10.0.0.8" 1200
    ∷ guesses ("10.0.0.8", 7) none 1300
    ∷ sweeps 1400
    ∷ checks attempter 1500
    ∷ []

lock_holds_example :
    let after =
      run limits digests
        (step limits digests guarded (guesses attempter (captured two_wrong attempter) 1000))
        meanwhile in
    (u : ℕ) × (1000 + 300000 ≤ u) × (open_lock after.guard attempter 2000 ≡ inr u)
lock_holds_example =
    lock_holds limits digests guarded attempter 1000 2000 meanwhile allocated at_the_limit
      (
        (omega arith, omega arith, tt),
        (
          (omega arith, omega arith, tt),
          (
            (omega arith, omega arith, refl),
            ((omega arith, omega arith, tt), ((omega arith, omega arith, tt), tt)),
          ),
        ),
      )
      (omega arith)
