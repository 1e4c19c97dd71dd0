-- ===== src/Server/Admission/Begin.antt =====
-- server/src/http.ts: POST /api/register up to the first hashing.
use misaka_network.Server.Admission.{
  locked, lock_key, unless_refused, Digests, QrToken, RegisterBody, has_scrypt, Server, holds_text,
  Outcome, Registration, hash, answer, verify, invalid_input, node_frozen, invalid_admission_grant,
  lock_key, is_pass_code,
}
use misaka_network.Common.{
  Bool, List, Option, String, [], find?, if◌then◌else◌, inl, inr, leb, nat_eq, none, not, some,
  true, ℕ, ◌&&◌, ◌∷◌,
}
use Prim.Native.String.{len}
use misaka_network.Common.Dict.{Dict}
use misaka_network.Server.Guard.{Limits, attempt_keys, is_node_frozen, open_lock}
use misaka_network.Server.Sessions.{State, Session}

abbrev valid_grant : Option String → Bool
valid_grant none = true
valid_grant (some g) = leb 32 (len g) && leb (len g) 128

unfoldable pub valid_body : Limits → RegisterBody → Bool
unfolding is_pass_code
valid_body cfg body =
    leb cfg.node_id_min body.node_id
    && leb body.node_id cfg.node_id_max
    && is_pass_code body.pass_code
    && valid_grant body.admission_grant

-- The first invitation that the grant fits.
find_invitation : Dict String QrToken → ℕ → String → String → ℕ → Option String
find_invitation [] node_id identity grant now = none
find_invitation ((token, r) ∷ rest) node_id identity grant now =
    let later = find_invitation rest node_id identity grant now in
    if not r.used
      && (leb now r.expires_at
          && (nat_eq r.owner_node_id node_id
              && (holds_text r.pass_code_hash identity && holds_text r.admission_grant grant)))
    then some token
    else later

unfoldable pub same_node : ℕ → Dict String Session → List Session
same_node node_id [] = []
same_node node_id ((k, s) ∷ rest) =
    let more = same_node node_id rest in if nat_eq s.node_id node_id then s ∷ more else more

-- A session that has the fields of scrypt, and else the first.
abbrev verifier_of : Session → List Session → Session
verifier_of first rest = get_or_first first (find? has_scrypt (first ∷ rest))
  where
    get_or_first : Session → Option Session → Session
    get_or_first d none = d
    get_or_first d (some s) = s

unfoldable pub next_piece : Limits → State → Registration → List Session → Outcome
unfolding unless_refused
next_piece cfg st reg [] = unless_refused cfg st reg.ip (hash reg)
next_piece cfg st reg (first ∷ rest) = verify reg (verifier_of first rest)

-- From the freeze on.
unfoldable pub begin_guarded : Limits → Server → Registration → Server × Outcome
unfolding next_piece same_node
begin_guarded cfg sv reg =
    let (g, frozen) = is_node_frozen cfg sv.guard reg.node_id reg.started in
    let checked = record sv { guard = g } in
    elim frozen [
      | some until ↦ (checked, answer (node_frozen until))
      | none ↦ elim (open_lock g (lock_key reg) reg.started) [
        | inr until ↦ (checked, answer (locked until))
        | inl (g2, lock) ↦
            let same = same_node reg.node_id sv.sessions.nodes in
            (
              record sv { guard = g2 },
              next_piece cfg sv.sessions (record reg { lock = lock; same = same }) same,
            )
      ]
    ]

abbrev registration : RegisterBody → String → ℕ → String → Option (String × String) → Registration
registration body ip now identity invitation = record {
  node_id = body.node_id;
  ip = ip;
  started = now;
  identity = identity;
  invitation = invitation;
  lock = none;
  same = [];
}

unfoldable pub register_begin :
    Limits → Digests → Server → RegisterBody → String → ℕ → Server × Outcome
unfolding valid_body find_invitation begin_guarded
register_begin cfg digests sv body ip now =
    let identity = digests.hash_pass_code_identity body.pass_code in
    if not (valid_body cfg body) then (sv, answer invalid_input) else elim body.admission_grant [
      | none ↦ begin_guarded cfg sv (registration body ip now identity none)
      | some grant ↦ elim (find_invitation sv.qr_tokens body.node_id identity grant now) [
        | none ↦ (sv, answer invalid_admission_grant)
        | some token ↦
            begin_guarded cfg sv (registration body ip now identity (some (token, grant)))
      ]
    ]
