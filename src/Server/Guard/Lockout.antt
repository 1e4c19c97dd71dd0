-- ===== src/Server/Guard/Lockout.antt =====
-- A lock, once it is engaged, holds for its whole duration.
pub mod Shut
use misaka_network.Common.{
  All, Bool-cases, List, Option, Option-cases, String, [], ap, arith, beq→eq, false, inl, inr, ltb,
  nat_eq_iff, nat_keys, none, refl, some, string_keys, subst, suc, sym, true, zero, ℕ, ◌+◌, ◌<◌,
  ◌==◌, ◌∙◌, ◌∷◌, ◌≡◌, ◌≤◌, ◌⊎◌,
}
use misaka_network.Common.Dict
use misaka_network.Common.Dict.{Dict, get-put, get-put_self, get-remove, get-prune_kept}
use misaka_network.Server.Guard.{
  Limits, Guard, AttemptKey, AttemptLock, attempt_keys, charge, hold_lock, bump, lock_at, open_lock,
  record_failed_passcode_attempt, new_lock, sweep_guard, is_node_frozen, lock_is_stale,
}
use misaka_network.Server.Guard.Locks.{fresh_charge, held_charge}
use misaka_network.Server.Sessions.{Session}
use misaka_network.Server.Admission.{Server, Digests, Drawn}
use misaka_network.Server.Admission.Replace.{
  reject_proof, accept_proof, replace, frozen_owner, count_failure, key_of, captured, or_zero,
  locked_at, lock_until, moves_to_full,
}
use misaka_network.Server.Guard.Lockout.Shut.{
  Holds, opened, opened-Holds, guessed-Holds, swept-Holds, rejected-Holds, accepted-Holds,
  removed-Holds, refused_before, charged-Holds,
}

-- What reads or writes the locks, with its time: the check of a registration or a release, a wrong
-- guess with the lock that it found, a wrong proof, a right one, the end of a registration or a
-- release that was let in, and the sweep.
pub data LockEvent : Type 0 where
  checks : AttemptKey → ℕ → LockEvent
  guesses : AttemptKey → Option ℕ → ℕ → LockEvent
  rejects : Option ℕ → String → ℕ → LockEvent
  accepts : Session → Drawn → String → ℕ → LockEvent
  succeeds : AttemptKey → ℕ → LockEvent
  sweeps : ℕ → LockEvent

abbrev pub time_of : LockEvent → ℕ
time_of (checks key now) = now
time_of (guesses key found now) = now
time_of (rejects owner ip now) = now
time_of (accepts old drawn ip now) = now
time_of (succeeds key now) = now
time_of (sweeps now) = now

unfoldable pub step : Limits → Digests → Server → LockEvent → Server
step cfg digests sv (checks key now) = record sv {
  guard = opened sv.guard (open_lock sv.guard key now);
}
step cfg digests sv (guesses key found now) = record sv {
  guard = (charge cfg sv.guard key found now).0;
}
step cfg digests sv (rejects owner ip now) = (reject_proof cfg sv owner ip now).0
step cfg digests sv (accepts old drawn ip now) = (accept_proof cfg digests sv old drawn ip now).0
step cfg digests sv (succeeds key now) = record sv {
  guard = record sv.guard { attempt_locks = Dict.remove sv.guard.attempt_locks key };
}
step cfg digests sv (sweeps now) = record sv { guard = sweep_guard cfg sv.guard now }

unfoldable pub run : Limits → Digests → Server → List LockEvent → Server
unfolding step
run cfg digests sv [] = sv
run cfg digests sv (e ∷ es) = run cfg digests (step cfg digests sv e) es

-- Not what was let in before the lock: a guess that found no lock, and a success.
abbrev pub Spares : AttemptKey → LockEvent → Type 0
Spares key (checks k now) = Unit
Spares key (guesses k none now) = (k == key) ≡ false
Spares key (guesses k (some ref) now) = Unit
Spares key (rejects owner ip now) = Unit
Spares key (accepts old drawn ip now) = Unit
Spares key (succeeds k now) = (k == key) ≡ false
Spares key (sweeps now) = Unit

module _ (cfg : Limits) (key : AttemptKey) (until : ℕ) where
  abbrev Within : LockEvent → Type 0
  Within e = (time_of e < until) × (until ≤ time_of e + cfg.lock_duration_ms) × Spares key e

  step-Holds :
      (digests : Digests) (sv : Server) (e : LockEvent)
      → Within e
      → Holds cfg key until sv.guard
      → Holds cfg key until (step cfg digests sv e).guard
  unfolding step
  step-Holds digests sv (checks k now) w h = opened-Holds cfg key until sv.guard k now w.0 h
  step-Holds digests sv (guesses k none now) w h =
      guessed-Holds cfg key until sv.guard k none now (λ _. w.2) w.1 h
  step-Holds digests sv (guesses k (some ref) now) w h =
      guessed-Holds cfg key until sv.guard k (some ref) now (λ no. absurd (ground (arith, no))) w.1
        h
  step-Holds digests sv (rejects owner ip now) w h =
      rejected-Holds cfg key until sv owner ip now w.1 h
  step-Holds digests sv (accepts old drawn ip now) w h =
      accepted-Holds cfg key until digests sv old drawn ip now w.0 h
  step-Holds digests sv (succeeds k now) w h = removed-Holds cfg key until sv.guard k w.2 h
  step-Holds digests sv (sweeps now) w h = swept-Holds cfg key until sv.guard now w.0 h

  run-Holds :
      (digests : Digests) (sv : Server) (es : List LockEvent)
      → All Within es
      → Holds cfg key until sv.guard
      → Holds cfg key until (run cfg digests sv es).guard
  unfolding run
  run-Holds digests sv [] w h = h
  run-Holds digests sv (e ∷ es) w h =
      run-Holds digests (step cfg digests sv e) es w.1 (step-Holds digests sv e w.0 h)

-- When the wrong guess at time `t`, with the lock that the map has for the attempter, brings the count
-- to the limit, then whatever checks, wrong guesses, proofs and sweeps come, of this attempter and of
-- others, with times from `t` on and before the lock's duration is over, every check of the attempter
-- inside the duration finds it locked, at least up to its end. The time of a guess is that at which its
-- request came in. Left out is what was let in before the lock: a guess that came in before `t`, a
-- guess of the attempter that had found no lock, and its success. The lock that the map has was made
-- before the next one that will be.
pub lock_holds :
    (cfg : Limits) (digests : Digests) (sv : Server) (key : AttemptKey) (t later : ℕ)
    (es : List LockEvent)
    → ((ref : ℕ) → Dict.get sv.guard.attempt_locks key ≡ some ref → ref < sv.guard.next_lock)
    → cfg.max_attempts ≤ (charge cfg sv.guard key (captured sv.guard key) t).1.attempts
    → All (λ e. (t ≤ time_of e) × (time_of e < t + cfg.lock_duration_ms) × Spares key e) es
    → later < t + cfg.lock_duration_ms
    → let after =
        run cfg digests (step cfg digests sv (guesses key (captured sv.guard key) t)) es in
      (u : ℕ) × (t + cfg.lock_duration_ms ≤ u) × (open_lock after.guard key later ≡ inr u)
unfolding step
lock_holds cfg digests sv key t later es old limit fair soon =
    let until = t + cfg.lock_duration_ms in
    let first = step cfg digests sv (guesses key (captured sv.guard key) t) in
    refused_before cfg key until (run cfg digests first es).guard later soon (
      run-Holds cfg key until digests first es (within es fair)
        (charged-Holds cfg key until sv.guard t old limit (omega arith)))
  where
    within :
        (es : List LockEvent)
        → All (λ e. (t ≤ time_of e) × (time_of e < t + cfg.lock_duration_ms) × Spares key e) es
        → All (Within cfg key (t + cfg.lock_duration_ms)) es
    within [] h = tt
    within (e ∷ es) h = ((h.0.1, omega (arith, h.0.0), h.0.2), within es h.1)
