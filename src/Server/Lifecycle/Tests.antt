-- ===== src/Server/Lifecycle/Tests.antt =====
-- A cluster of two: what ending one session does.
use misaka_network.Server.Sample.{alice, bob, pair, pair-WellFormed}
use misaka_network.Common.Dict
use misaka_network.Server.Lifecycle.Notice.{Peer, Sent, terminate_session-Sent}
use misaka_network.Server.Sessions.{peer_left}
use misaka_network.Server.Lifecycle.{is_open, ready_state}
use misaka_network.Common.{arith, none, refl, some, string_keys, ◌≡◌}
use misaka_network.Server.Lifecycle.Terminate.{terminate_session-WellFormed}
use misaka_network.Server.Lifecycle.Ends.{terminate_session_ends, Ends}
use misaka_network.Server.Sessions.{resolve_re_register_proof, invalid, proof_too_short}
use misaka_network.Server.Sessions.Invariant.{WellFormed}
use misaka_network.Server.Lifecycle.{terminate_session, default_opts}

terminate_session-WellFormed_example : WellFormed (terminate_session pair "a" default_opts 5000)
terminate_session-WellFormed_example =
    terminate_session-WellFormed pair "a" default_opts 5000 pair-WellFormed tt

alice-Ends : Ends pair "a" alice default_opts
unfolding Dict.get
alice-Ends = record { live = refl; mine = refl; dropped = refl }

terminate_session_ends_example :
    let after = terminate_session pair "a" default_opts 5000 in
    (Dict.get after.nodes "a" ≡ none)
    × (terminate_session after "a" default_opts 6000 ≡ after)
    × ((resolve_re_register_proof after alice.re_register_proof 6000).1 ≡ invalid (some 11))
terminate_session_ends_example =
    terminate_session_ends pair "a" alice default_opts 5000 pair-WellFormed alice-Ends 6000
      (omega arith) (unfold proof_too_short in refl) (omega arith)

bob_hears : Peer pair alice "room" "b" bob 2
unfolding Dict.get is_open ready_state
bob_hears = record { other = refl; live = refl; same_channel = refl; on = refl; open_socket = refl }

alice_live : Dict.get pair.nodes "a" ≡ some alice
unfolding Dict.get
alice_live = refl

terminate_session-Sent_example :
    Sent 2 (peer_left "a" 11) (terminate_session pair "a" default_opts 5000).log
terminate_session-Sent_example =
    terminate_session-Sent pair "a" alice default_opts 5000 "room" "b" bob 2 pair-WellFormed
      alice_live refl refl bob_hears
