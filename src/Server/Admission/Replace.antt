-- ===== src/Server/Admission/Replace.antt =====
-- server/src/http.ts: POST /api/re-register and /api/session-renew, which keep an identity.
use misaka_network.Server.Lifecycle.{TerminateOpts, default_opts, terminate_session}
use misaka_network.Server.Admission.{
  Digests, Server, Drawn, Outcome, answer, new_session, invalid_input, locked, publish, ip_limited,
  admitted, node_frozen, invalid_proof, PassCodeRecord,
}
use misaka_network.Common.{
  Bool, Option, String, false, if◌then◌else◌, leb, ltb, nat_keys, none, not, some, string_keys, suc,
  true, zero, ℕ, ◌&&◌, ◌+◌, ◌==◌,
}
use Prim.Native.String.{len}
use misaka_network.Server.Admission.{flush, answer, locked}
use misaka_network.Server.Sessions.{ProofStatus}
use misaka_network.Common.Dict
use misaka_network.Common.Dict.{Dict}
use misaka_network.Server.Guard.{
  Limits, Guard, AttemptKey, attempt_keys, is_node_frozen, record_failed_passcode_attempt, lock_at,
  hold_lock, bump,
}
use misaka_network.Server.Sessions.{
  State, Session, count_nodes_by_ip, find_session_by_token, rotate_re_register_proof,
  resolve_re_register_proof,
}

abbrev pub key_of : String → ℕ → AttemptKey
key_of ip node_id = (ip, node_id)

-- The freeze is looked at only where the owner is known.
unfoldable pub frozen_owner : Limits → Guard → ℕ → ℕ → Guard × Option ℕ
frozen_owner cfg g zero now = (g, none)
frozen_owner cfg g (suc n) now = is_node_frozen cfg g (suc n) now

abbrev pub or_zero : Option ℕ → ℕ
or_zero none = 0
or_zero (some n) = n

-- The failure without an owner counts on the attempter's lock alone.
unfoldable pub count_failure : Limits → Guard → ℕ → String → ℕ → Guard × Bool
count_failure cfg g zero ip now = (g, false)
count_failure cfg g (suc n) ip now = record_failed_passcode_attempt cfg g (suc n) ip now

abbrev frozen_until_of : Limits → Guard → ℕ → ℕ → ℕ
frozen_until_of cfg g node_id now = elim (Dict.get g.node_freezes node_id) [
  | none ↦ now + cfg.node_freeze_duration_ms
  | some freeze ↦ freeze.frozen_until
]

abbrev pub captured : Guard → AttemptKey → Option ℕ
captured g key = Dict.get g.attempt_locks key

-- A proof that does not resolve: charged to its owner, to node 0 if there is none.
unfoldable pub reject_proof : Limits → Server → Option ℕ → String → ℕ → Server × Outcome
unfolding frozen_owner count_failure
reject_proof cfg sv owner ip now =
    let node_id = or_zero owner in
    let key = key_of ip node_id in
    let (held, ref) = hold_lock sv.guard key (captured sv.guard key) now in
    let lock = lock_at held ref in
    if ltb now lock.locked_until
    then (record sv { guard = held }, answer (locked lock.locked_until))
    else (let (checked, frozen) = frozen_owner cfg held node_id now in
        elim frozen [
          | some until ↦ (record sv { guard = checked }, answer (node_frozen until))
          | none ↦
              let bumped = record checked {
                lock_objects = Dict.put checked.lock_objects ref (bump cfg now lock);
              } in
              let (counted, froze) = count_failure cfg bumped node_id ip now in
              (
                record sv { guard = counted },
                flush (
                    if froze
                    then node_frozen (frozen_until_of cfg counted node_id now)
                    else invalid_proof),
              )
        ])

-- The session that takes the old one's place.
abbrev pub successor : Limits → Digests → Session → Drawn → String → ℕ → Session
successor cfg digests old drawn ip now =
    let fields : PassCodeRecord =
      (old.pass_code_hash, old.pass_code_verify_hash, old.pass_code_salt, old.pass_code_algo) in
    let principal =
      if old.turn_principal == ""
      then digests.derive_turn_principal old.node_id old.pass_code_hash
      else old.turn_principal in
    new_session cfg drawn old.node_id fields principal ip now

abbrev pub superseding : TerminateOpts
superseding = record default_opts { close_reason = "RE_REGISTERED"; broadcast_leave = false }

unfoldable pub replace : Limits → Digests → Server → Session → Drawn → String → ℕ → Server × Outcome
replace cfg digests sv old drawn ip now =
    let ended = terminate_session sv.sessions old.session_id superseding now in
    let session = successor cfg digests old drawn ip now in
    (
      record sv {
        sessions = publish ended session;
        guard = record sv.guard {
          attempt_locks = Dict.remove sv.guard.attempt_locks (key_of ip old.node_id);
        };
      },
      answer (admitted drawn.session_id drawn.token (now + cfg.session_ttl_ms) drawn.proof),
    )

abbrev pub lock_until : Guard → Option ℕ → ℕ
lock_until g none = 0
lock_until g (some ref) = (lock_at g ref).locked_until

abbrev pub locked_at : Server → String → ℕ → ℕ
locked_at sv ip node_id = lock_until sv.guard (captured sv.guard (key_of ip node_id))

-- A move to an address that is at its limit.
abbrev pub moves_to_full : Limits → Server → Session → String → Bool
moves_to_full cfg sv old ip =
    leb cfg.max_nodes_per_ip (count_nodes_by_ip sv.sessions.nodes ip) && not (old.ip == ip)

unfoldable pub accept_proof :
    Limits → Digests → Server → Session → Drawn → String → ℕ → Server × Outcome
accept_proof cfg digests sv old drawn ip now =
    if ltb now (locked_at sv ip old.node_id)
    then (sv, answer (locked (locked_at sv ip old.node_id)))
    else if moves_to_full cfg sv old ip
    then (sv, answer ip_limited)
    else replace cfg digests sv old drawn ip now

abbrev pub valid_proof : String → Bool
valid_proof proof = leb 32 (len proof) && leb (len proof) 128

unfoldable pub re_register :
    Limits → Digests → Server → String → Drawn → String → ℕ → Server × Outcome
unfolding reject_proof accept_proof
re_register cfg digests sv proof drawn ip now =
    if not (valid_proof proof)
    then (sv, answer invalid_input)
    else (let (st, status) = resolve_re_register_proof sv.sessions proof now in
        let resolved = record sv { sessions = st } in
        elim status [
          | ProofStatus.invalid owner ↦ reject_proof cfg resolved owner ip now
          | ProofStatus.ok old ↦ accept_proof cfg digests resolved old drawn ip now
        ])

-- POST /api/session-renew, with the new token and proof: the session that the token opens keeps its
-- id.
unfoldable pub renew : Limits → State → Session → String → String → ℕ → State
unfolding rotate_re_register_proof
renew cfg st session token proof now =
    let rotated =
      rotate_re_register_proof
        (record st {
          nodes =
              Dict.modify st.nodes session.session_id
                (λ s. record s { token = token; expires_at = now + cfg.session_ttl_ms });
        })
        session proof now in
    record rotated {
      nodes = Dict.modify rotated.nodes session.session_id (λ s. record s { last_seen = now });
    }

unfoldable pub session_renew : Limits → State → String → String → String → ℕ → State × Bool
unfolding renew
session_renew cfg st bearer token proof now =
    let (resolved, found) = find_session_by_token st bearer now in
    elim found [
      | none ↦ (resolved, false)
      | some session ↦ (renew cfg resolved session token proof now, true)
    ]
