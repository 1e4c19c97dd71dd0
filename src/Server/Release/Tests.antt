-- ===== src/Server/Release/Tests.antt =====
-- The theorem on releases at a concrete cluster.
use misaka_network.Common.{refl, some, ◌≡◌, string_keys}
use misaka_network.Common.Dict.{get}
use misaka_network.Server.Sample.{pair, pair-WellFormed}
use misaka_network.Server.Sessions.Invariant.{WellFormed}
use misaka_network.Server.Release.{release_scoped}
use misaka_network.Server.Release.Scope.{release_scoped_exact, spared}

-- A release from alice's address for her identity, seen at bob's session.
release_scoped_exact_example :
    WellFormed (release_scoped pair "10.0.0.1" (some (11, "h1")) 5000).0
    × (get (release_scoped pair "10.0.0.1" (some (11, "h1")) 5000).0.nodes "b"
        ≡ spared "10.0.0.1" (some (11, "h1")) (get pair.nodes "b"))
unfolding get
release_scoped_exact_example =
    release_scoped_exact pair "10.0.0.1" (some (11, "h1")) 5000 "b" pair-WellFormed
      (refl, (refl, tt))
