-- ===== src/Client/Peers/Tests.antt =====
-- The theorem on connections at a concrete run, and a run across two epochs.
use misaka_network.Common.{
  List, [], arith, count, false, none, refl, some, true, ◌&&◌, ◌++◌, ◌||◌, ◌∷◌, ◌≡◌, ◌≤◌,
}
use misaka_network.Client.Peers.{
  Event, initiates, cleans, ends, listed, offers, resumes, run, unknown, is_held,
}
use misaka_network.Client.Peers.Placed.{is_closed, is_present}
use misaka_network.Client.Peers.Reachable.{no_connection_leaks}

-- An initiation builds a connection; a cleanup comes while it waits for its keys, and an offer.
abbrev events : List Event
events =
    listed true
    ∷ initiates
    ∷ resumes 0 true
    ∷ resumes 0 true
    ∷ cleans
    ∷ offers false
    ∷ resumes 0 true
    ∷ resumes 1 true
    ∷ []

no_connection_leaks_example :
    let p = run unknown events in
    ((is_closed p 0 || is_held p.connection 0) ≡ true)
    × ((is_closed p 0 && is_held p.connection 0) ≡ false)
    × (count (is_present p.network_epoch p.generation) p.tasks ≤ 1)
unfolding run
no_connection_leaks_example = no_connection_leaks events 0 (omega arith)

-- The attempt of an epoch that has ended settles in the next one, where the generations have
-- started again: it takes the entry of the attempt that is in flight.
abbrev two_epochs : List Event
two_epochs =
    listed true ∷ initiates ∷ resumes 0 true ∷ ends ∷ listed true ∷ initiates ∷ resumes 1 true ∷ []

in_flight : (run unknown two_epochs).initiating ≡ some 1
unfolding run
in_flight = refl

taken_off : (run unknown (two_epochs ++ resumes 1 true ∷ [])).initiating ≡ none
unfolding run
taken_off = refl
