-- ===== src/Server/Lifecycle/Ends.antt =====
-- What the end of a session means to its owner and to its peers.
use misaka_network.Server.Lifecycle.Identity.{leave_channel-Shrinks, detach-Shrinks}
use misaka_network.Server.Lifecycle.Invariant.{own_id, leave_channel-WellFormed}
use misaka_network.Server.Sessions.Proofs.{resolve-retired}
use misaka_network.Server.Lifecycle.Teardown.{get-detach, get-leave_channel, proof_named}
use misaka_network.Server.Sessions.Invariant.{WellFormed}
use misaka_network.Common.{
  String, ap, arith, false, length, none, refl, some, string_keys, ℕ, ◌+◌, ◌<◌, ◌==◌, ◌≡◌, ◌≤◌,
}
use misaka_network.Common.Dict
use misaka_network.Common.Dict.{Dict, get-put_self, get-remove_self, length-remove-lt, get-remove}
use misaka_network.Server.Lifecycle.{
  evict, teardown, terminate_session, leave_channel, detach, is_other_socket, TerminateOpts,
  default_opts, off_channel,
}
use misaka_network.Server.Sessions.{
  State, Session, invalid, Tombstone, proof_tombstone_ttl_ms, resolve_re_register_proof,
  proof_too_short,
}

-- The session is live, the call is for its own socket or for none, and it is not to be kept.
pub record Ends (st : State) (sid : String) (session : Session) (opts : TerminateOpts)
    : Type 0 where
  pub live : Dict.get st.nodes sid ≡ some session
  pub mine : is_other_socket opts.only_if_socket session.socket ≡ false
  pub dropped : opts.preserve_session ≡ false

module _ (st : State) (sid : String) (session : Session) (opts : TerminateOpts) (now : ℕ)
    (wf : WellFormed st) (ends : Ends st sid session opts) where
  terminate-teardown : terminate_session st sid opts now ≡ teardown st session opts now
  unfolding terminate_session
  terminate-teardown = rw (ends.live, terminate_session, ends.mine)

  named_proof : (session.re_register_proof == "") ≡ false
  named_proof = proof_named st sid session session wf ends.live (wf.keyed sid session ends.live)

  abbrev before_evict : State
  before_evict = detach (leave_channel st session) session opts

  abbrev tombstone : Tombstone
  tombstone = record { node_id = session.node_id; until = now + proof_tombstone_ttl_ms }

  ended_nodes : (teardown st session opts now).nodes ≡ Dict.remove before_evict.nodes sid
  unfolding teardown evict
  ended_nodes = ground (arith, ends.dropped, named_proof, wf.keyed sid session ends.live)

  ended_index :
      Dict.get (teardown st session opts now).re_register_proof_index session.re_register_proof
      ≡ none
  unfolding teardown evict
  ended_index = ground (
    arith,
    ends.dropped,
    named_proof,
    get-remove_self before_evict.re_register_proof_index session.re_register_proof,
  )

  ended_tombstone :
      0 < session.node_id
      → Dict.get
          (teardown st session opts now).re_register_proof_tombstones
          session.re_register_proof
        ≡ some tombstone
  unfolding teardown evict
  ended_tombstone h = ground (
    arith,
    ends.dropped,
    named_proof,
    get-put_self before_evict.re_register_proof_tombstones session.re_register_proof tombstone,
  )

  pub ended_gone : Dict.get (terminate_session st sid opts now).nodes sid ≡ none
  ended_gone = rw (terminate-teardown, ended_nodes) (get-remove_self before_evict.nodes sid)

  -- One session less.
  pub ended_shorter : length (terminate_session st sid opts now).nodes + 1 ≤ length st.nodes
  ended_shorter =
      let left = leave_channel st session in
      let there =
        get-detach left sid session (off_channel session)
          (leave_channel-WellFormed st sid session wf ends.live)
          (get-leave_channel st sid session wf ends.live) (own_id st sid session wf ends.live) opts
          refl in
      rw (terminate-teardown, ended_nodes)
        (omega (
          arith,
          length-remove-lt before_evict.nodes sid _ there,
          (leave_channel-Shrinks st session).shorter,
          (detach-Shrinks left session opts).shorter,
        ))

  -- When a session is torn down for good, it is off the map, and to end it again changes nothing.
  -- Its proof no longer authenticates; for an hour a try with it is still charged to the owner.
  pub terminate_session_ends :
      (later : ℕ)
      → 0 < session.node_id
      → proof_too_short session.re_register_proof ≡ false
      → later ≤ now + proof_tombstone_ttl_ms
      → let after = terminate_session st sid opts now in
        (Dict.get after.nodes sid ≡ none)
        × (terminate_session after sid default_opts later ≡ after)
        × ((resolve_re_register_proof after session.re_register_proof later).1
            ≡ invalid (some session.node_id))
  terminate_session_ends later pos long soon = rw terminate-teardown (
    gone,
    again,
    ap (λ r. r.1)
        (resolve-retired (teardown st session opts now) session.re_register_proof later long
          tombstone ended_index (ended_tombstone pos) soon),
  )
    where
      gone : Dict.get (teardown st session opts now).nodes sid ≡ none
      gone = rw ended_nodes (get-remove_self before_evict.nodes sid)

      again :
          terminate_session (teardown st session opts now) sid default_opts later
          ≡ teardown st session opts now
      again = unfold terminate_session in rw (gone, terminate_session)
