-- ===== src/Server/Turn/Tests.antt =====
-- The theorems on TURN credentials at concrete states.
use misaka_network.Common.{
  All, List, Option, String, [], any, arith, false, filter, none, refl, some, string_keys, true, ℕ,
  ◌+◌, ◌∷◌, ◌≡◌, ◌≤◌, ◌⊎◌,
}
use misaka_network.Common.Dict
use misaka_network.Server.Turn.{
  sum_hourly_bytes_for_ip, prune_active_credentials, Turn, TurnConfig, ActiveCredential,
  MonthlyUsage, pessimistic, IceServer, pessimistic_estimate, IpByteLedgerEntry,
}
use misaka_network.Server.Turn.Rollback.{failed_issue_spares, is_other}
use misaka_network.Server.Turn.IceServers.{
  Json, object, array, text, cons, nil, field, end, normalize_ice_servers,
  normalize_ice_servers-HasUrls, HasUrls, is_usable,
}
use misaka_network.Server.Turn.Issue.{
  principal_of, finish_issue, refused, cf_error, IssueRequest, issue_credentials, is_refusal,
  reserve,
}
use misaka_network.Server.Turn.Revoke.{handle_abusive_begin}
use misaka_network.Server.Turn.Burst.{Spending, requests, spend_all, spend_all-Capped}
use misaka_network.Server.Turn.Snapshot
use misaka_network.Server.Turn.Snapshot.{
  validate_ledger, RawCredential, natural, missing, credential_of, validate_credentials, read_entry,
  read_credential, read_counters, counter, optional_counter, non_neg_safe_int,
}
use misaka_network.Server.Turn.Snapshot.Saved.{
  Storable, StorableUse, saved_credentials, saved_ledger, is_young, restart_keeps,
}
use misaka_network.Server.Turn.Snapshot.FailClosed.{Faithful, validate_credentials_keeps}
use misaka_network.Common.Dict.{Dict}
use misaka_network.Server.Turn.Ledger.{confirmed}
use misaka_network.Server.Turn.Conserved.{Orderly, Ending, starts, expires, abuses}
use misaka_network.Server.Turn.Endings.{endings_conserve, reserve-loses}
use misaka_network.Server.Turn.Denied.{spends, reports, turn_run, ban_holds}

-- 8 bytes a second for 300 seconds: 300 bytes for each credential, and 500 for the month.
abbrev config : TurnConfig
config = record {
  auto_enabled = true;
  configured = true;
  credential_ttl_sec = 300;
  pessimistic_rate_bps = 8;
  max_issue_per_hour_per_ip = 60;
  max_bytes_per_hour_per_ip = 10_000;
  max_bytes_per_session = 1_000;
  threshold = 500;
  revoke_all_on_kill = false;
  ban_duration_ms = 86_400_000;
  ip_ban_strikes = 3;
}

abbrev usage : MonthlyUsage
usage = record {
  month_key = "2026-01";
  bytes_observed = 300;
  cf_bytes_observed = 0;
  pessimistic_bytes_observed = 300;
  usage_source = pessimistic;
  last_cf_sync_at = 0;
  last_cf_sync_error_code = none;
  analytics_truncated = false;
  kill_switch_active = false;
  kill_switch_triggered_at = 0;
}

-- It has relayed 40 bytes.
abbrev credential : ActiveCredential
credential = record {
  session_id = "s";
  ip = "10.0.0.1";
  turn_principal = some "p";
  issued_at = 1_000_000;
  expires_at = 1_300_000;
  pessimistic_bytes = 300;
  cf_actual_bytes = some 40;
  reservation_id = some "r0";
  usage_settled = false;
  revoke_pending = false;
  revoke_attempts = 0;
  last_revoke_attempt_at = none;
}

abbrev turn : Turn
turn = record {
  monthly_usage = usage;
  active_credentials = ("cid", credential) ∷ [];
  ip_issuance_history = [];
  deny_list = [];
  ip_byte_ledger = [];
  credential_cache = [];
  in_flight_issues = [];
  global_poll_generation = 0;
  abuse_poll_generation = 0;
  is_ready = true;
}

abbrev ask : String → String → ℕ → IssueRequest
ask cid reservation now = record {
  session_id = "s";
  ip = "10.0.0.2";
  turn_principal = some "p";
  custom_identifier = cid;
  reservation = reservation;
  month = "2026-01";
  at = now;
}

abbrev burst : List Spending
burst = requests (ask "c1" "r1" 1_200_000) ∷ requests (ask "c2" "r2" 1_200_001) ∷ []

same_month : (spend_all config turn burst).monthly_usage.month_key ≡ "2026-01"
unfolding spend_all issue_credentials Dict.get Dict.prune sum_hourly_bytes_for_ip Dict.put
same_month = refl

-- The second request of the burst is refused before the provider is called.
second_refused :
    is_refusal (issue_credentials config (spend_all config turn burst) (ask "c2" "r2" 1_200_002)).1
    ≡ true
unfolding spend_all issue_credentials Dict.get Dict.prune sum_hourly_bytes_for_ip Dict.put
second_refused = refl

spend_all-Capped_example :
    let after = spend_all config turn burst in
    let bytes = after.monthly_usage.bytes_observed in
    (bytes ≤ config.threshold + pessimistic_estimate config)
    × ((bytes ≤ config.threshold)
        ⊎ (is_refusal (issue_credentials config after (ask "c3" "r3" 1_200_002)).1 ≡ true))
spend_all-Capped_example =
    spend_all-Capped config turn burst (ask "c3" "r3" 1_200_002)
      (record { effective = refl; open_below = λ h. omega arith; bound = omega arith }) same_month

turn-Orderly : Orderly turn.active_credentials
unfolding Dict.get
turn-Orderly = record { distinct = (refl, tt); settled = λ k c there pending. ground arith }

credential_there : Dict.get turn.active_credentials "cid" ≡ some credential
unfolding Dict.get
credential_there = refl

abbrev caught : Turn
caught = handle_abusive_begin config turn "cid" credential 40 1_100_000

a_run : Ending config turn (prune_active_credentials caught 1_400_000)
a_run =
    expires caught 1_400_000
      (abuses turn "cid" credential 40 1_100_000 credential_there refl starts)

endings_conserve_example :
    confirmed "10.0.0.1" (prune_active_credentials caught 1_400_000) ≡ confirmed "10.0.0.1" turn
endings_conserve_example =
    endings_conserve "10.0.0.1" config turn (prune_active_credentials caught 1_400_000) turn-Orderly
      a_run

its_principal : principal_of (some "p") "c2" ≡ "p"
unfolding principal_of
its_principal = refl

ban_holds_example :
    is_refusal
      (issue_credentials config
        (turn_run config
          (handle_abusive_begin config turn "cid" credential 40 1_100_000)
          (spends (requests (ask "c1" "r1" 1_200_000)) ∷ reports "c1" 2_000 1_250_000 ∷ []))
        (ask "c2" "r2" 2_000_000)).1
    ≡ true
ban_holds_example =
    ban_holds config turn "cid" credential 40 1_100_000
      (spends (requests (ask "c1" "r1" 1_200_000)) ∷ reports "c1" 2_000 1_250_000 ∷ [])
      (ask "c2" "r2" 2_000_000) (omega arith) (omega arith, (omega arith, tt)) its_principal
      (omega arith)

reserve-loses_example :
    confirmed credential.ip (reserve config turn (ask "cid" "r1" 1_290_000)) + 40
    ≡ confirmed credential.ip turn
reserve-loses_example =
    reserve-loses config turn (ask "cid" "r1" 1_290_000) credential 40 credential_there refl refl
      turn-Orderly

failed_issue_spares_example :
    let (after, answer) = finish_issue config turn (ask "cid" "r9" 1_200_000) none in
    (answer ≡ refused cf_error)
    × (Dict.get after.active_credentials "cid" ≡ some credential)
    × (Dict.get after.credential_cache "cid" ≡ Dict.get turn.credential_cache "cid")
    × (filter (is_other "r9") after.ip_issuance_history
        ≡ filter (is_other "r9") turn.ip_issuance_history)
failed_issue_spares_example =
    failed_issue_spares config turn (ask "cid" "r9" 1_200_000) "cid" credential credential_there
      refl

c1_absent : Dict.get turn.active_credentials "c1" ≡ none
unfolding Dict.get
c1_absent = refl

abbrev body : Json
body = object (
    field "iceServers"
      (object (
        field "urls" (array (cons (text "turn:a") (cons (text "") nil)))
          (field "username" (text "u") (field "credential" (text "w") end))))
      end)

abbrev servers : List IceServer
servers = record { urls = "turn:a" ∷ []; username = some "u"; credential = some "w" } ∷ []

body_accepted : normalize_ice_servers body ≡ some servers
unfolding normalize_ice_servers
body_accepted = refl

normalize_ice_servers-HasUrls_example : All HasUrls servers × (any is_usable servers ≡ true)
normalize_ice_servers-HasUrls_example = normalize_ice_servers-HasUrls body servers body_accepted

-- An entry of a snapshot with a confirmed count, beside one that is no object.
abbrev raw_credential : RawCredential
raw_credential = record {
  session_id = Snapshot.text "s";
  ip = Snapshot.text "10.0.0.1";
  issued_at = natural 1_000;
  expires_at = natural 301_000;
  pessimistic_bytes = natural 300;
  cf_actual_bytes = natural 40;
  turn_principal = missing;
  reservation_id = missing;
  usage_settled = missing;
  revoke_pending = missing;
  revoke_attempts = missing;
  last_revoke_attempt_at = missing;
}

abbrev raw_credentials : Dict String (Option RawCredential)
raw_credentials = ("junk", none) ∷ ("c1", some raw_credential) ∷ []

abbrev loaded : Dict String ActiveCredential
loaded =
    ("c1", credential_of raw_credential "s" "10.0.0.1" 1_000 301_000 300 (some 40) none none) ∷ []

validate_credentials_keeps_example :
    (c : ActiveCredential) × (Dict.get loaded "c1" ≡ some c)
    × Faithful raw_credential "s" "10.0.0.1" c
unfolding validate_credentials read_entry read_credential read_counters counter optional_counter
    non_neg_safe_int Dict.get
validate_credentials_keeps_example =
    validate_credentials_keeps raw_credentials loaded "c1" raw_credential "s" "10.0.0.1" refl refl
      refl refl refl

-- One entry of the ledger is older than an hour, the other is not.
abbrev used : List IpByteLedgerEntry
used =
    record { ip = "10.0.0.1"; bytes = 300; at = 1_000 }
    ∷ record { ip = "10.0.0.1"; bytes = 40; at = 4_000_000 }
    ∷ []

loaded-Storable : All Storable loaded
loaded-Storable = (
  record {
    cid = (omega arith, omega arith);
    session = (omega arith, omega arith);
    address = (omega arith, omega arith);
    principal = tt;
    reservation = tt;
    ordered = omega arith;
    expiry = omega arith;
    estimated = omega arith;
    confirmed = omega arith;
    attempts = omega arith;
    attempted = tt;
  },
  tt,
)

used-StorableUse : All StorableUse used
used-StorableUse = (
  record { address = (omega arith, omega arith); bytes = omega arith; time = omega arith },
  (record { address = (omega arith, omega arith); bytes = omega arith; time = omega arith }, tt),
)

restart_keeps_example :
    (validate_credentials (saved_credentials loaded) ≡ some loaded)
    × (validate_ledger 5_000_000 (saved_ledger used) ≡ some (filter (is_young 5_000_000) used))
restart_keeps_example = restart_keeps loaded used 5_000_000 loaded-Storable used-StorableUse
