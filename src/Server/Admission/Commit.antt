-- ===== src/Server/Admission/Commit.antt =====
-- server/src/http.ts: POST /api/register after a comparison and after the last hashing.
use misaka_network.Server.Admission.{
  lock_key, PassCodeRecord, Digests, QrToken, charge_guess, Registration, refused, unless_refused,
  Server, holds_text, Outcome, hash, Drawn, publish, is_some_text, answer, new_session,
  invalid_admission_grant, commit, admitted,
}
use misaka_network.Common.{
  Bool, List, Option, String, [], false, if◌then◌else◌, ltb, nat_eq, none, not, some, string_keys,
  true, ℕ, ◌&&◌, ◌+◌, ◌==◌, ◌||◌, ◌∷◌,
}
use misaka_network.Common.Dict
use misaka_network.Common.Dict.{Dict}
use misaka_network.Server.Guard.{Limits, attempt_keys, clear_node_freeze_on_success}
use misaka_network.Server.Sessions.{State, Session, Algo, scrypt, announces}

abbrev pub upgrade_fields : PassCodeRecord → Session → Session
upgrade_fields (h, v, salt, algo) s = record s {
  pass_code_hash = h;
  pass_code_verify_hash = v;
  pass_code_salt = salt;
  pass_code_algo = algo;
}

-- Object.assign(verifier, upgrade)
unfoldable pub upgrade : State → Session → Option PassCodeRecord → State
upgrade st verifier none = st
upgrade st verifier (some fields) = record st {
  nodes = Dict.modify st.nodes verifier.session_id (upgrade_fields fields);
}

-- A session as it is now: the live object, and else the object as it left the map.
abbrev current : State → Session → Session
current st s = elim (Dict.get st.nodes s.session_id) [ none ↦ s | some live ↦ live ]

abbrev algo_or_scrypt : Option Algo → Option Algo
algo_or_scrypt none = some scrypt
algo_or_scrypt (some a) = some a

-- The donor's record if it is complete, and else a new one.
unfoldable pub donate : State → Registration → List Session → Outcome
donate st reg [] = hash reg
donate st reg (first ∷ rest) =
    let donor = current st first in
    if is_some_text donor.pass_code_verify_hash && is_some_text donor.pass_code_salt
    then commit reg (
      donor.pass_code_hash,
      donor.pass_code_verify_hash,
      donor.pass_code_salt,
      algo_or_scrypt donor.pass_code_algo,
    )
    else hash reg

-- After the comparison with the verifier: whether it held, and the fields to upgrade to.
unfoldable pub register_verified :
    Limits → Server → Registration → Session → Bool → Option PassCodeRecord → Server × Outcome
unfolding charge_guess upgrade unless_refused donate
register_verified cfg sv reg verifier false fields = charge_guess cfg sv reg
register_verified cfg sv reg verifier true fields =
    let st = upgrade sv.sessions verifier fields in
    (record sv { sessions = st }, unless_refused cfg st reg.ip (donate st reg reg.same))

-- Another session has the node under another identity.
unfoldable pub has_conflict : ℕ → String → Dict String Session → Bool
has_conflict node_id identity [] = false
has_conflict node_id identity ((k, s) ∷ rest) =
    (nat_eq s.node_id node_id && not (s.pass_code_hash == identity))
    || has_conflict node_id identity rest

-- The invitation at the commit point: none presented, refused, or consumed.
pub data Grant : Type 0 where
  granted : Dict String QrToken → Grant
  denied : Grant

unfoldable pub consume_grant : Dict String QrToken → Option (String × String) → ℕ → Grant
consume_grant tokens none now = granted tokens
consume_grant tokens (some (token, grant)) now = elim (Dict.get tokens token) [
  | none ↦ denied
  | some r ↦
      if r.used || (ltb r.expires_at now || not (holds_text r.admission_grant grant))
      then denied
      else granted (Dict.put tokens token (record r { used = true }))
]

abbrev pub admit : Limits → Digests → Server → Registration → PassCodeRecord → Drawn → Server
admit cfg digests sv reg fields drawn =
    let principal = digests.derive_turn_principal reg.node_id fields.0 in
    let session = new_session cfg drawn reg.node_id fields principal reg.ip reg.started in
    let st = publish sv.sessions session in
    record sv {
      sessions = record st { log = announces "join" reg.node_id ∷ st.log };
      guard =
          clear_node_freeze_on_success
            (record sv.guard { attempt_locks = Dict.remove sv.guard.attempt_locks (lock_key reg) })
            reg.node_id;
    }

-- The commit point, at time `now`.
unfoldable pub register_commit :
    Limits → Digests → Server → Registration → PassCodeRecord → Drawn → ℕ → Server × Outcome
unfolding charge_guess has_conflict refused consume_grant publish
register_commit cfg digests sv reg fields drawn now =
    if has_conflict reg.node_id fields.0 sv.sessions.nodes
    then charge_guess cfg sv reg
    else elim (refused cfg sv.sessions reg.ip) [
      | some r ↦ (sv, answer r)
      | none ↦ elim (consume_grant sv.qr_tokens reg.invitation now) [
        | denied ↦ (sv, answer invalid_admission_grant)
        | granted tokens ↦ (
          admit cfg digests (record sv { qr_tokens = tokens }) reg fields drawn,
          answer (
              admitted drawn.session_id drawn.token (reg.started + cfg.session_ttl_ms) drawn.proof),
        )
      ]
    ]
