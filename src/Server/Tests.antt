-- ===== src/Server/Tests.antt =====
-- The server's theorems at concrete states.
use misaka_network.Common.{
  Bool-cases, [], arith, beq→eq, false, inl, inr, nat_keys, none, refl, some, string_keys, subst,
  true, ℕ, ◌+◌, ◌==◌, ◌∷◌, ◌≡◌, ◌≤◌, ◌⊎◌,
}
use misaka_network.Common.Dict
use misaka_network.Server.Admission.Succession.{Admits, TurnsAway, re_register_succeeds}
use misaka_network.Server.Sessions.Tokens.{resolve_session_by_token-exact, opened_by, first_open}
use misaka_network.Server.Sessions.{resolve_session_by_token}
use misaka_network.Common.Dict.{Dict, Distinct}
use misaka_network.Server.Sample.{
  alice, pair, pair-WellFormed, limits, digests, server, server-Sound, carol, carol_record,
  carol_drawn,
}
use misaka_network.Server.Guard.{
  no_guard, is_node_frozen, record_failed_passcode_attempt, add_failure, prune_freeze_failures,
}
use misaka_network.Server.Guard.Freeze as F
use misaka_network.Server.Sessions.{Session, is_session_expired, count_nodes_by_ip}
use misaka_network.Server.Sessions.Invariant.{WellFormed, in_channel}
use misaka_network.Server.Lifecycle.{terminate_session, close_socket}
use misaka_network.Server.Admission.{Server, QrToken, Registration, refused}
use misaka_network.Server.Admission.Publish.{Fresh}
use misaka_network.Server.Admission.Commit.{register_commit, has_conflict, consume_grant}
use misaka_network.Server.Admission.Replace.{re_register, superseding}
use misaka_network.Server.Admission.Safety.{Sound, register_commit-Sound}
use misaka_network.Server.Admission.Keeps.{FreshAfter}
use misaka_network.Server.Backpressure.{Net, Wire}
use misaka_network.Server.Ws.{join, handle_message, join_cluster, cluster_channel_id}
use misaka_network.Server.Ws.Frames.{handle_message-WellFormed, join-ghost}
use misaka_network.Server.Cleanup.{run_cleanup_tick}
use misaka_network.Server.Cleanup.Tick.{run_cleanup_tick-due}
use misaka_network.Server.PendingAuth.{none_pending, check_pending_auth_admission}
use misaka_network.Server.PendingAuth.Exact.{Reached, Exact, admits, begins, Reached-Exact}
use misaka_network.Server.Invitations.Once as Once

engaged : (record_failed_passcode_attempt limits no_guard 7 "10.0.0.9" 1000).1 ≡ true
unfolding record_failed_passcode_attempt add_failure prune_freeze_failures Dict.get
engaged = refl

freeze_holds_example :
    let after =
      F.run limits
        (record_failed_passcode_attempt limits no_guard 7 "10.0.0.9" 1000).0
        (F.success 7 1500 ∷ F.sweep 1600 ∷ []) in
    (u : ℕ) × (1000 + 3600000 ≤ u) × ((is_node_frozen limits after 7 2000).1 ≡ some u)
freeze_holds_example =
    F.freeze_holds limits no_guard 7 "10.0.0.9" 1000 2000 (F.success 7 1500 ∷ F.sweep 1600 ∷ []) tt
      engaged ((omega arith, omega arith), ((omega arith, omega arith), tt)) (omega arith)

carol-Fresh : Fresh pair carol_drawn
unfolding Dict.get
carol-Fresh = record { unused_id = refl; unused_proof = refl; named_proof = refl }

register_commit-Sound_example :
    Sound limits (register_commit limits digests server carol carol_record carol_drawn 2000).0
register_commit-Sound_example =
    register_commit-Sound limits digests server carol carol_record carol_drawn 2000 server-Sound
      carol-Fresh

abbrev net : Net
net = record {
  buffered = λ ws. 0;
  max_buffered_bytes = 1000;
  max_buffered_hard_bytes = 4000;
  slow_consumer_grace_ms = 10000;
}

abbrev wire : Wire
wire = record { sessions = pair; slow_since = []; rechecks = [] }

alice_live : Dict.get pair.nodes "a" ≡ some alice
unfolding Dict.get
alice_live = refl

handle_message-WellFormed_example :
    WellFormed (handle_message limits net wire 1 alice join_cluster 3000).sessions
handle_message-WellFormed_example =
    handle_message-WellFormed limits net wire 1 alice join_cluster 3000 pair-WellFormed alice_live

abbrev ended : Session
ended = record alice { session_id = "z"; socket = none; channel_id = none }

ended_gone : Dict.get pair.nodes "z" ≡ none
unfolding Dict.get
ended_gone = refl

join-ghost_example :
    let after = (join net wire 1 ended 3000).sessions in
    let c = cluster_channel_id 11 "h1" in
    (in_channel after.channels c "z" ≡ true) × (Dict.get after.nodes "z" ≡ none)
join-ghost_example = join-ghost net wire 1 ended 3000 ended_gone refl

run_cleanup_tick-due_example :
    WellFormed (run_cleanup_tick limits server 100000).sessions
    × (Dict.get (run_cleanup_tick limits server 100000).sessions.nodes "a" ≡ none)
run_cleanup_tick-due_example =
    run_cleanup_tick-due limits server 100000 "a" alice pair-WellFormed alice_live
      (unfold is_session_expired in refl)

two_requests :
    Reached 2 1
      (check_pending_auth_admission 2 1
        (check_pending_auth_admission 2 1 none_pending 1 "x").0
        2
        "x").0
unfolding Dict.get check_pending_auth_admission Dict.put
two_requests =
    admits (check_pending_auth_admission 2 1 none_pending 1 "x").0 2 "x" refl
      (admits none_pending 1 "x" refl begins)

Reached-Exact_example :
    Exact 2 1
      (check_pending_auth_admission 2 1
        (check_pending_auth_admission 2 1 none_pending 1 "x").0
        2
        "x").0
Reached-Exact_example =
    Reached-Exact 2 1
      (check_pending_auth_admission 2 1 (check_pending_auth_admission 2 1 none_pending 1 "x").0 2
        "x").0
      two_requests

alice_replaced : Fresh (terminate_session pair "a" superseding 6000) carol_drawn
unfolding terminate_session Dict.get Dict.put Dict.remove Dict.modify close_socket
alice_replaced = record { unused_id = refl; unused_proof = refl; named_proof = refl }

bob_replaced : Fresh (terminate_session pair "b" superseding 6000) carol_drawn
unfolding terminate_session Dict.get Dict.put Dict.remove Dict.modify close_socket
bob_replaced = record { unused_id = refl; unused_proof = refl; named_proof = refl }

fresh_after : FreshAfter server carol_drawn 6000
unfolding Dict.get
fresh_after old live = elim (Bool-cases ("a" == old.session_id)) [
  | inl is_alice ↦
      subst (λ k. Fresh (terminate_session pair k superseding 6000) carol_drawn)
        (beq→eq "a" old.session_id is_alice) alice_replaced
  | inr other ↦ elim (Bool-cases ("b" == old.session_id)) [
    | inl is_bob ↦
        subst (λ k. Fresh (terminate_session pair k superseding 6000) carol_drawn)
          (beq→eq "b" old.session_id is_bob) bob_replaced
    | inr nobody ↦ absurd (ground arith)
  ]
]

re_register_succeeds_example :
    Sound limits
      (re_register limits digests server alice.re_register_proof carol_drawn "10.0.0.1" 6000).0
    × (Admits limits digests server alice.re_register_proof carol_drawn "10.0.0.1" 6000
        ⊎ TurnsAway limits digests server alice.re_register_proof carol_drawn "10.0.0.1" 6000)
re_register_succeeds_example =
    re_register_succeeds limits digests server alice.re_register_proof carol_drawn "10.0.0.1" 6000
      server-Sound fresh_after

abbrev invitation : QrToken
invitation = record {
  owner_node_id = 13;
  channel_id = none;
  pass_code_hash = some "h3";
  created_at = 0;
  expires_at = 300000;
  used = false;
  failed_attempts = 0;
  admission_grant = some "grant";
}

abbrev inviting : Server
inviting = record server { qr_tokens = ("q", invitation) ∷ [] }

abbrev invited : Registration
invited = record carol { invitation = some ("q", "grant") }

carol_admitted :
    Once.is_admitted
      (register_commit limits digests inviting invited carol_record carol_drawn 2000).1
    ≡ true
unfolding register_commit Dict.get has_conflict refused consume_grant Dict.put count_nodes_by_ip
carol_admitted = refl

one_invitation : Distinct inviting.qr_tokens
unfolding Dict.get
one_invitation = (refl, tt)

invitation_admits_once_example :
    let later =
      Once.run limits digests
        (register_commit limits digests inviting invited carol_record carol_drawn 2000).0
        (Once.sweeps 3000 ∷ []) in
    (register_commit limits digests later invited carol_record carol_drawn 4000).0.sessions
    ≡ later.sessions
invitation_admits_once_example =
    Once.invitation_admits_once limits digests inviting invited invited carol_record carol_record
      carol_drawn carol_drawn 2000 4000 "q" "grant" "grant" (Once.sweeps 3000 ∷ []) one_invitation
      refl refl (refl, tt) carol_admitted

resolve_session_by_token-exact_example :
    (resolve_session_by_token pair "ta" 5000).1
    ≡ opened_by pair "ta" 5000 (first_open "ta" 5000 pair.nodes)
resolve_session_by_token-exact_example = resolve_session_by_token-exact pair "ta" 5000 refl

unused_socket : Dict.get pair.authed_sockets 9 ≡ none
unfolding Dict.get
unused_socket = refl

unused_proof : Dict.get pair.re_register_proof_index "00112233445566778899aabbccddeeff" ≡ none
unfolding Dict.get
unused_proof = refl
