-- ===== src/Server/Turn/Issue.antt =====
-- server/src/turn.ts: issueCredentials, cut at the provider call.
use misaka_network.Common.{
  Bool, List, Option, String, [], any, count, false, filter, if◌then◌else◌, leb, ltb, max, none,
  not, some, string_keys, true, ℕ, ◌&&◌, ◌*◌, ◌++◌, ◌+◌, ◌-◌, ◌/◌, ◌==◌, ◌||◌, ◌∷◌,
}
use Prim.Native.String.{◌++◌ as concat, len}
use misaka_network.Common.Dict
use misaka_network.Common.Dict.{Dict}
use misaka_network.Server.Turn.{
  Turn, TurnConfig, ActiveCredential, MonthlyUsage, IssuanceRecord, IceServer, by_ip, by_principal,
  by_cid, deny_keys, hour_ms, pessimistic_estimate, drop_credential, prune_active_credentials,
  prune_issuance_history, prune_ip_byte_ledger, prune_deny_list, is_denied, roll_month_if_needed,
  sum_hourly_bytes_for_ip, evaluate_global_kill_switch,
}

pub data IssueReject : Type 0 where
  disabled not_configured state_unavailable global_quota_exceeded ip_rate_limited : IssueReject
  ip_bytes_limited ip_banned session_banned cf_error : IssueReject

pub data IssueResult : Type 0 where
  granted : List IceServer → ℕ → String → IssueResult
  refused : IssueReject → IssueResult

-- A request: the random reservation id is drawn by the caller.
pub record IssueRequest : Type 0 where
  pub session_id : String
  pub ip : String
  pub turn_principal : Option String
  pub custom_identifier : String
  pub reservation : String
  pub month : String
  pub at : ℕ

-- What the first piece comes to: an answer, the answer of the call that is under way for the
-- session, or a call of the provider, whose answer `finish_issue` takes.
pub data Issued : Type 0 where
  answers : IssueResult → Issued
  joins calls : Issued

abbrev pub is_refusal : Issued → Bool
is_refusal (answers (granted servers expires cid)) = false
is_refusal (answers (refused r)) = true
is_refusal joins = false
is_refusal calls = false

unfoldable pub principal_of : Option String → String → String
principal_of none cid = concat "sess:" cid
principal_of (some p) cid = if ltb 0 (len p) then p else concat "sess:" cid

-- reuseFloorMs
abbrev pub reuse_floor_ms : TurnConfig → ℕ
reuse_floor_ms cfg = max 15_000 (cfg.credential_ttl_sec * 1000 / 10)

abbrev pub has_reservation : String → Option ActiveCredential → Bool
has_reservation id none = false
has_reservation id (some c) = elim c.reservation_id [ none ↦ false | some r ↦ r == id ]

abbrev pub reservation_of : TurnConfig → IssueRequest → ActiveCredential
reservation_of cfg req = record {
  session_id = req.session_id;
  ip = req.ip;
  turn_principal = some (principal_of req.turn_principal req.custom_identifier);
  issued_at = req.at;
  expires_at = req.at + cfg.credential_ttl_sec * 1000;
  pessimistic_bytes = pessimistic_estimate cfg;
  cf_actual_bytes = none;
  reservation_id = some req.reservation;
  usage_settled = false;
  revoke_pending = false;
  revoke_attempts = 0;
  last_revoke_attempt_at = none;
}

abbrev pub count_estimate : MonthlyUsage → ℕ → MonthlyUsage
count_estimate u bytes = record u {
  pessimistic_bytes_observed = u.pessimistic_bytes_observed + bytes;
  bytes_observed = max u.cf_bytes_observed (u.pessimistic_bytes_observed + bytes);
}

-- The accounting of a reservation, made before the provider is called.
abbrev pub reserved : TurnConfig → Turn → IssueRequest → Turn
reserved cfg st req = record st {
  active_credentials =
      Dict.put st.active_credentials req.custom_identifier (reservation_of cfg req);
  ip_issuance_history =
      st.ip_issuance_history
      ++ record { ip = req.ip; issued_at = req.at; made_for = req.reservation } ∷ [];
  monthly_usage = count_estimate st.monthly_usage (pessimistic_estimate cfg);
}

unfoldable pub reserve : TurnConfig → Turn → IssueRequest → Turn
unfolding evaluate_global_kill_switch
reserve cfg st req = evaluate_global_kill_switch cfg (reserved cfg st req) req.at

-- issueFreshCredentials up to the provider call.
unfoldable pub issue_fresh : TurnConfig → Turn → IssueRequest → Turn × Issued
unfolding reserve
issue_fresh cfg st req =
    let recent =
      count (λ (r : IssuanceRecord). r.ip == req.ip && leb req.at (r.issued_at + hour_ms))
        st.ip_issuance_history in
    if leb cfg.max_issue_per_hour_per_ip recent
    then (st, answers (refused ip_rate_limited))
    else if leb cfg.max_bytes_per_hour_per_ip (sum_hourly_bytes_for_ip st req.ip req.at)
    then (st, answers (refused ip_bytes_limited))
    else (
      record (reserve cfg st req) {
        in_flight_issues = req.custom_identifier ∷ st.in_flight_issues;
      },
      calls,
    )

-- A credential that is still reserved and has long enough to live is handed out again.
unfoldable pub issue_cached : TurnConfig → Turn → IssueRequest → Turn × Issued
unfolding issue_fresh
issue_cached cfg st req =
    let cid = req.custom_identifier in
    let dropped = record st { credential_cache = Dict.remove st.credential_cache cid } in
    elim (Dict.get st.credential_cache cid) [
      | none ↦ issue_fresh cfg st req
      | some c ↦
          if has_reservation c.reservation_id (Dict.get st.active_credentials cid)
            && ltb (req.at + reuse_floor_ms cfg) c.expires_at
          then (st, answers (granted c.ice_servers c.expires_at cid))
          else issue_fresh cfg dropped req
    ]

unfoldable pub sweep : Turn → IssueRequest → Turn
unfolding prune_active_credentials prune_issuance_history prune_ip_byte_ledger prune_deny_list
    roll_month_if_needed
sweep st req =
    let rolled = prune_issuance_history (roll_month_if_needed st req.month) req.at in
    let kept = prune_ip_byte_ledger (prune_active_credentials rolled req.at) req.at in
    prune_deny_list kept req.at

-- The gates in front of the cache.
unfoldable pub gate : Turn → IssueRequest → Option IssueReject
unfolding is_denied principal_of
gate st req =
    if st.monthly_usage.kill_switch_active
    then some global_quota_exceeded
    else if is_denied st (by_ip req.ip) req.at
    then some ip_banned
    else if is_denied st (by_principal (principal_of req.turn_principal req.custom_identifier))
          req.at
        || is_denied st (by_cid req.custom_identifier) req.at
    then some session_banned
    else none

unfoldable pub issue_credentials : TurnConfig → Turn → IssueRequest → Turn × Issued
unfolding gate issue_cached sweep
issue_credentials cfg st req =
    let swept = sweep st req in
    if not cfg.auto_enabled
    then (st, answers (refused disabled))
    else if not cfg.configured
    then (st, answers (refused not_configured))
    else if not st.is_ready
    then (st, answers (refused state_unavailable))
    else elim (gate swept req) [
      | some r ↦ (swept, answers (refused r))
      | none ↦
          if any (λ c. c == req.custom_identifier) swept.in_flight_issues
          then (swept, joins)
          else issue_cached cfg swept req
    ]

-- The record of one reservation goes.
unfoldable pub remove_record : String → List IssuanceRecord → List IssuanceRecord
remove_record id [] = []
remove_record id (r ∷ rest) =
    let more = remove_record id rest in if r.made_for == id then rest else r ∷ more

unfoldable pub rollback_reservation : TurnConfig → Turn → IssueRequest → Turn
unfolding remove_record
rollback_reservation cfg st req =
    let cid = req.custom_identifier in
    let u = st.monthly_usage in
    let left = u.pessimistic_bytes_observed - pessimistic_estimate cfg in
    let freed =
      if has_reservation req.reservation (Dict.get st.active_credentials cid)
      then drop_credential st cid
      else st in
    record freed {
      ip_issuance_history = remove_record req.reservation st.ip_issuance_history;
      monthly_usage = record u {
        pessimistic_bytes_observed = left;
        bytes_observed = max u.cf_bytes_observed left;
      };
    }

-- The answer of the provider: the servers, or none for a failure or an answer with no usable server.
unfoldable pub finish_issue :
    TurnConfig → Turn → IssueRequest → Option (List IceServer) → Turn × IssueResult
unfolding rollback_reservation
finish_issue cfg st req answer =
    let cid = req.custom_identifier in
    let expires = req.at + cfg.credential_ttl_sec * 1000 in
    let landed = record st {
      in_flight_issues = filter (λ c. not (c == cid)) st.in_flight_issues;
    } in
    elim answer [
      | none ↦ (rollback_reservation cfg landed req, refused cf_error)
      | some servers ↦ (
        record landed {
          credential_cache = Dict.put st.credential_cache cid (record {
            reservation_id = req.reservation;
            ice_servers = servers;
            expires_at = expires;
          });
        },
        granted servers expires cid,
      )
    ]
