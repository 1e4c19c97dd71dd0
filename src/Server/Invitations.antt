-- ===== src/Server/Invitations.antt =====
-- server/src/http.ts: POST /api/qr-token and /api/qr-redeem, and the sweep of cleanup.ts over the
-- invitations. The answer to a wrong guess goes out once the counters are on disk, and is a failure
-- if they cannot be written.
pub mod Spent
pub mod Once
use misaka_network.Common.{
  Bool, Option, String, false, if◌then◌else◌, leb, ltb, nat_keys, none, not, some, string_keys, ℕ,
  ◌&&◌, ◌+◌, ◌==◌, ◌||◌,
}
use Prim.Native.String.{◌++◌ as concat}
use misaka_network.Common.Dict
use misaka_network.Common.Dict.{Dict}
use misaka_network.Server.Guard.{
  Limits, is_node_frozen, record_failed_passcode_attempt, clear_node_freeze_on_success, NodeFreeze,
}
use misaka_network.Server.RateLimit.{check_rate_limit}
use misaka_network.Server.Sessions.{find_session_by_token, Session}
use misaka_network.Server.Admission.{Server, QrToken, Digests, is_pass_code}

pub data InvitationResponse : Type 0 where
  unauthorized invalid_input rate_limited invalid_qr_token wrong_passcode : InvitationResponse
  qr_requires_passcode : InvitationResponse
  node_frozen : ℕ → InvitationResponse
  created : String → String → ℕ → InvitationResponse
  redeemed : ℕ → String → String → InvitationResponse

abbrev invitation : Limits → Session → String → ℕ → QrToken
invitation cfg owner channel now = record {
  owner_node_id = owner.node_id;
  channel_id = some channel;
  pass_code_hash = some owner.pass_code_hash;
  created_at = now;
  expires_at = now + cfg.qr_token_ttl_ms;
  used = false;
  failed_attempts = 0;
  admission_grant = none;
}

-- The bearer's token, with the invitation's token and channel that are drawn.
unfoldable pub qr_token :
    Limits → Server → String → String → String → ℕ → Server × InvitationResponse
qr_token cfg sv bearer token channel now =
    let (st, found) = find_session_by_token sv.sessions bearer now in
    let resolved = record sv { sessions = st } in
    elim found [
      | none ↦ (resolved, unauthorized)
      | some owner ↦ (
        record resolved {
          qr_tokens = Dict.put sv.qr_tokens token (invitation cfg owner channel now);
        },
        created token channel (now + cfg.qr_token_ttl_ms),
      )
    ]

abbrev pub failed_once : Limits → QrToken → QrToken
failed_once cfg r = record r {
  failed_attempts = r.failed_attempts + 1;
  used = r.used || leb cfg.max_attempts (r.failed_attempts + 1);
}

-- A wrong guess counts on the node and burns the invitation at the limit.
unfoldable pub fail_redeem :
    Limits → Server → String → QrToken → String → ℕ → Server × InvitationResponse
fail_redeem cfg sv token r ip now =
    let (g, froze) = record_failed_passcode_attempt cfg sv.guard r.owner_node_id ip now in
    (
      record sv { guard = g; qr_tokens = Dict.put sv.qr_tokens token (failed_once cfg r) },
      if froze
          then node_frozen (until (Dict.get g.node_freezes r.owner_node_id))
          else wrong_passcode,
    )
  where
    until : Option NodeFreeze → ℕ
    until none = now + cfg.node_freeze_duration_ms
    until (some freeze) = freeze.frozen_until

abbrev or_text : Option String → String → String
or_text none t = t
or_text (some s) t = s

-- A right guess hands out the grant: the one of before, and else the one that is drawn.
unfoldable pub grant_redeem :
    Server → String → QrToken → String → String → Server × InvitationResponse
grant_redeem sv token r channel drawn =
    let grant = or_text r.admission_grant drawn in
    (
      record sv {
        guard = clear_node_freeze_on_success sv.guard r.owner_node_id;
        qr_tokens = Dict.put sv.qr_tokens token (record r { admission_grant = some grant });
      },
      redeemed r.owner_node_id (or_text r.channel_id channel) grant,
    )

-- From the freeze on, for an invitation that stands.
unfoldable pub redeem_guarded :
    Limits
    → Digests
    → Server
    → String
    → QrToken
    → String
    → String
    → ℕ
    → String
    → String
    → Server × InvitationResponse
unfolding fail_redeem grant_redeem
redeem_guarded cfg digests sv token r pass_code ip now channel drawn =
    let (g, frozen) = is_node_frozen cfg sv.guard r.owner_node_id now in
    let checked = record sv { guard = g } in
    elim frozen [
      | some until ↦ (checked, node_frozen until)
      | none ↦ elim r.pass_code_hash [
        | none ↦ (checked, qr_requires_passcode)
        | some expected ↦
            if expected == ""
            then (checked, qr_requires_passcode)
            else if digests.hash_pass_code_identity pass_code == expected
            then grant_redeem checked token r channel drawn
            else fail_redeem cfg checked token r ip now
      ]
    ]

-- `z.string().regex(/^\d{6}$/)` on the passcode, and the bounds of a node's number.
abbrev valid_redeem : Limits → ℕ → String → Bool
valid_redeem cfg node_id pass_code =
    leb cfg.node_id_min node_id && leb node_id cfg.node_id_max && is_pass_code pass_code

unfoldable pub qr_redeem :
    Limits
    → Digests
    → Server
    → String
    → ℕ
    → String
    → String
    → ℕ
    → String
    → String
    → Server × InvitationResponse
unfolding redeem_guarded
qr_redeem cfg digests sv token my_node_id pass_code ip now channel drawn =
    let (ok, windows) =
      check_rate_limit sv.windows (concat "qr-redeem:" ip) cfg.qr_redeem_rate_limit
        cfg.qr_redeem_rate_window_ms now in
    let counted = record sv { windows = windows } in
    if not ok
    then (counted, rate_limited)
    else if not (valid_redeem cfg my_node_id pass_code)
    then (counted, invalid_input)
    else elim (Dict.get sv.qr_tokens token) [
      | none ↦ (counted, invalid_qr_token)
      | some r ↦
          if r.used || ltb r.expires_at now
          then (counted, invalid_qr_token)
          else redeem_guarded cfg digests counted token r pass_code ip now channel drawn
    ]

unfoldable pub sweep_tokens : Dict String QrToken → ℕ → Dict String QrToken
sweep_tokens tokens now = Dict.prune (λ _ r. ltb r.expires_at now || r.used) tokens
