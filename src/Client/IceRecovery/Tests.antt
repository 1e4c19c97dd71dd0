-- ===== src/Client/IceRecovery/Tests.antt =====
-- The theorem on restarts at a concrete run, and a run across two epochs.
use misaka_network.Common.{List, [], count, false, refl, true, ◌∷◌, ◌≡◌, ◌≤◌}
use misaka_network.Client.IceRecovery.{
  Event, View, restarts, fires, ends, connects, listed, resumes, run, unknown, value_or,
}
use misaka_network.Client.IceRecovery.Locks.{is_live}
use misaka_network.Client.IceRecovery.Exclusive.{owners, restarts_exclusive}

-- A connection that is alive and stable, with the signaling up.
abbrev good : View
good = record {
  ok = true;
  now = 1000;
  is_dead = false;
  is_stable = true;
  signaling_ready = true;
  offer_current = true;
}

-- Two requests, of which the second is refused; the offer is sent, and the retry starts again.
abbrev events : List Event
events =
    listed true
    ∷ connects 4
    ∷ restarts
    ∷ restarts
    ∷ resumes 0 good
    ∷ resumes 0 good
    ∷ resumes 0 good
    ∷ fires
    ∷ []

restarts_exclusive_example :
    let p = run unknown events in
    (count (is_live p.generation) p.jobs ≤ 1)
    × (owners p p.ice_restarting ≡ 1)
    × (value_or p.ice_restart_attempts 0 ≤ 5)
restarts_exclusive_example = restarts_exclusive events refl

-- Over the end of an epoch the generations recur: the restart of the old epoch ends after that of
-- the new one has begun, and takes its lock off.
abbrev two_epochs : List Event
two_epochs =
    listed true
    ∷ connects 4
    ∷ restarts
    ∷ ends
    ∷ listed true
    ∷ connects 5
    ∷ restarts
    ∷ resumes 1 good
    ∷ restarts
    ∷ []

two_at_once : count (is_live 0) (run unknown two_epochs).jobs ≡ 2
unfolding run
two_at_once = refl
