-- ===== src/Server/Turn.antt =====
-- server/src/turn.ts, server/src/persist.ts: the state behind the TURN credentials, and what
-- accounts for their use.
pub mod Issue
pub mod Revoke
pub mod Usage
pub mod Burst
pub mod Ledger
pub mod Conserved
pub mod Endings
pub mod Denied
pub mod Rollback
pub mod IceServers
pub mod Snapshot
pub mod Tests
use misaka_network.Common.{
  Bool, Eq, List, Option, String, [], beq_self, beq→eq, false, filter, if◌then◌else◌, leb, ltb, max,
  none, not, refl, some, string_keys, true, ℕ, ◌&&◌, ◌*◌, ◌++◌, ◌+◌, ◌/◌, ◌==◌, ◌↔◌, ◌∷◌, ◌≡◌,
}
use misaka_network.Common.Dict
use misaka_network.Common.Dict.{Dict}

-- The settings of config.ts. `threshold` is the limit of the month in bytes times its percentage,
-- rounded up; the byte counts are whole, so that they reach the one when they reach the other.
pub record TurnConfig : Type 0 where
  pub auto_enabled : Bool
  pub configured : Bool
  pub credential_ttl_sec : ℕ
  pub pessimistic_rate_bps : ℕ
  pub max_issue_per_hour_per_ip : ℕ
  pub max_bytes_per_hour_per_ip : ℕ
  pub max_bytes_per_session : ℕ
  pub threshold : ℕ
  pub revoke_all_on_kill : Bool
  pub ban_duration_ms : ℕ
  pub ip_ban_strikes : ℕ

abbrev pub hour_ms : ℕ
hour_ms = 3_600_000

pub record ActiveCredential : Type 0 where
  pub session_id : String
  pub ip : String
  pub turn_principal : Option String
  pub issued_at : ℕ
  pub expires_at : ℕ
  pub pessimistic_bytes : ℕ
  pub cf_actual_bytes : Option ℕ
  pub reservation_id : Option String
  pub usage_settled : Bool
  pub revoke_pending : Bool
  pub revoke_attempts : ℕ
  pub last_revoke_attempt_at : Option ℕ

pub record IpByteLedgerEntry : Type 0 where
  pub ip : String
  pub bytes : ℕ
  pub at : ℕ

-- An issuance record is known by the reservation that it was made for.
pub record IssuanceRecord : Type 0 where
  pub ip : String
  pub issued_at : ℕ
  pub made_for : String

-- `ip:…`, `principal:…` and `cid:…`.
pub data DenyKey : Type 0 where
  by_ip by_principal by_cid : String → DenyKey

pub record DenyEntry : Type 0 where
  pub until : ℕ
  pub reason : String
  pub at : ℕ
  pub ip : String

pub data UsageSource : Type 0 where
  cloudflare pessimistic : UsageSource

pub record MonthlyUsage : Type 0 where
  pub month_key : String
  pub bytes_observed : ℕ
  pub cf_bytes_observed : ℕ
  pub pessimistic_bytes_observed : ℕ
  pub usage_source : UsageSource
  pub last_cf_sync_at : ℕ
  pub last_cf_sync_error_code : Option String
  pub analytics_truncated : Bool
  pub kill_switch_active : Bool
  pub kill_switch_triggered_at : ℕ

pub record IceServer : Type 0 where
  pub urls : List String
  pub username : Option String
  pub credential : Option String

pub record CachedCredential : Type 0 where
  pub reservation_id : String
  pub ice_servers : List IceServer
  pub expires_at : ℕ

-- TurnState, with the module's own maps and generations and whether the snapshot was read.
pub record Turn : Type 0 where
  pub monthly_usage : MonthlyUsage
  pub active_credentials : Dict String ActiveCredential
  pub ip_issuance_history : List IssuanceRecord
  pub deny_list : Dict DenyKey DenyEntry
  pub ip_byte_ledger : List IpByteLedgerEntry
  pub credential_cache : Dict String CachedCredential
  pub in_flight_issues : List String
  pub global_poll_generation : ℕ
  pub abuse_poll_generation : ℕ
  pub is_ready : Bool

abbrev pub deny_key_eq : DenyKey → DenyKey → Bool
deny_key_eq (by_ip a) (by_ip b) = a == b
deny_key_eq (by_ip a) (by_principal b) = false
deny_key_eq (by_ip a) (by_cid b) = false
deny_key_eq (by_principal a) (by_ip b) = false
deny_key_eq (by_principal a) (by_principal b) = a == b
deny_key_eq (by_principal a) (by_cid b) = false
deny_key_eq (by_cid a) (by_ip b) = false
deny_key_eq (by_cid a) (by_principal b) = false
deny_key_eq (by_cid a) (by_cid b) = a == b

pub deny_key_eq_iff : (a b : DenyKey) → (deny_key_eq a b ≡ true) ↔ (a ≡ b)
deny_key_eq_iff (by_ip a) (by_ip b) = (λ h. cc (beq→eq a b h), λ h. cc (h, beq_self a))
deny_key_eq_iff (by_ip a) (by_principal b) = (λ h. cc, λ h. cc)
deny_key_eq_iff (by_ip a) (by_cid b) = (λ h. cc, λ h. cc)
deny_key_eq_iff (by_principal a) (by_ip b) = (λ h. cc, λ h. cc)
deny_key_eq_iff (by_principal a) (by_principal b) =
    (λ h. cc (beq→eq a b h), λ h. cc (h, beq_self a))
deny_key_eq_iff (by_principal a) (by_cid b) = (λ h. cc, λ h. cc)
deny_key_eq_iff (by_cid a) (by_ip b) = (λ h. cc, λ h. cc)
deny_key_eq_iff (by_cid a) (by_principal b) = (λ h. cc, λ h. cc)
deny_key_eq_iff (by_cid a) (by_cid b) = (λ h. cc (beq→eq a b h), λ h. cc (h, beq_self a))

instance abbrev pub deny_keys : Eq DenyKey
deny_keys = record { beq = deny_key_eq; beq_iff = deny_key_eq_iff }

abbrev pub or_zero : Option ℕ → ℕ
or_zero none = 0
or_zero (some n) = n

-- The local estimate of what a credential can relay in its life.
abbrev pub pessimistic_estimate : TurnConfig → ℕ
pessimistic_estimate cfg = cfg.pessimistic_rate_bps * cfg.credential_ttl_sec / 8

-- A credential's confirmed bytes go to the ledger once: the ledger and the credential afterwards.
unfoldable pub settle_credential_usage :
    List IpByteLedgerEntry
    → ActiveCredential
    → Option ℕ
    → ℕ
    → List IpByteLedgerEntry × ActiveCredential
settle_credential_usage ledger cred observed now =
    let bytes = max (or_zero observed) (or_zero cred.cf_actual_bytes) in
    if cred.usage_settled
    then (ledger, cred)
    else if ltb 0 bytes
    then (
      ledger ++ record { ip = cred.ip; bytes = bytes; at = now } ∷ [],
      record cred { cf_actual_bytes = some bytes; usage_settled = true },
    )
    else (ledger, record cred { usage_settled = true })

abbrev pub drop_credential : Turn → String → Turn
drop_credential st cid = record st {
  active_credentials = Dict.remove st.active_credentials cid;
  credential_cache = Dict.remove st.credential_cache cid;
}

-- Settled, and off the maps.
unfoldable pub settle_and_drop : Turn → String → ActiveCredential → ℕ → Turn
unfolding settle_credential_usage
settle_and_drop st cid cred now =
    drop_credential
      (record st { ip_byte_ledger = (settle_credential_usage st.ip_byte_ledger cred none now).0 })
      cid

unfoldable pub prune_credentials : Turn → List (String × ActiveCredential) → ℕ → Turn
unfolding settle_and_drop
prune_credentials st [] now = st
prune_credentials st ((cid, c) ∷ rest) now =
    prune_credentials (if ltb c.expires_at now then settle_and_drop st cid c now else st) rest now

unfoldable pub prune_active_credentials : Turn → ℕ → Turn
unfolding prune_credentials
prune_active_credentials st now = prune_credentials st st.active_credentials now

unfoldable pub prune_issuance_history : Turn → ℕ → Turn
prune_issuance_history st now = record st {
  ip_issuance_history = filter (λ r. leb now (r.issued_at + hour_ms)) st.ip_issuance_history;
}

unfoldable pub prune_ip_byte_ledger : Turn → ℕ → Turn
prune_ip_byte_ledger st now = record st {
  ip_byte_ledger = filter (λ e. leb now (e.at + hour_ms)) st.ip_byte_ledger;
}

unfoldable pub prune_deny_list : Turn → ℕ → Turn
prune_deny_list st now = record st { deny_list = Dict.prune (λ _ e. leb e.until now) st.deny_list }

unfoldable pub is_denied : Turn → DenyKey → ℕ → Bool
is_denied st key now = elim (Dict.get st.deny_list key) [ none ↦ false | some e ↦ ltb now e.until ]

-- rollMonthIfNeeded
unfoldable pub roll_month_if_needed : Turn → String → Turn
roll_month_if_needed st month = if st.monthly_usage.month_key == month then st else record st {
  monthly_usage = record {
    month_key = month;
    bytes_observed = 0;
    cf_bytes_observed = 0;
    pessimistic_bytes_observed = 0;
    usage_source = pessimistic;
    last_cf_sync_at = 0;
    last_cf_sync_error_code = none;
    analytics_truncated = false;
    kill_switch_active = false;
    kill_switch_triggered_at = 0;
  };
}

-- The estimate of the credentials of an address that are out.
unfoldable pub active_bytes : String → ℕ → Dict String ActiveCredential → ℕ
active_bytes ip now [] = 0
active_bytes ip now ((_, c) ∷ rest) =
    let more = active_bytes ip now rest in
    if c.ip == ip && leb now (c.issued_at + hour_ms) then c.pessimistic_bytes + more else more

unfoldable pub ledger_bytes : String → ℕ → List IpByteLedgerEntry → ℕ
ledger_bytes ip now [] = 0
ledger_bytes ip now (e ∷ rest) =
    let more = ledger_bytes ip now rest in
    if e.ip == ip && leb now (e.at + hour_ms) then e.bytes + more else more

unfoldable pub sum_hourly_bytes_for_ip : Turn → String → ℕ → ℕ
unfolding active_bytes ledger_bytes
sum_hourly_bytes_for_ip st ip now =
    active_bytes ip now st.active_credentials + ledger_bytes ip now st.ip_byte_ledger

-- The mark that a revoke is owed.
abbrev pub pend_revoke : ActiveCredential → ℕ → ActiveCredential
pend_revoke c now = record c {
  revoke_pending = true;
  revoke_attempts = c.revoke_attempts + 1;
  last_revoke_attempt_at = some now;
}

-- The first loop of revokeAllActive, which runs before anything is sent.
unfoldable pub settle_all :
    List IpByteLedgerEntry
    → Dict String ActiveCredential
    → ℕ
    → List IpByteLedgerEntry × Dict String ActiveCredential
unfolding settle_credential_usage
settle_all ledger [] now = (ledger, [])
settle_all ledger ((cid, c) ∷ rest) now =
    let (settled, c') = settle_credential_usage ledger c none now in
    let (final, rest') = settle_all settled rest now in (final, (cid, pend_revoke c' now) ∷ rest')

unfoldable pub revoke_all_begin : Turn → ℕ → Turn
unfolding settle_all
revoke_all_begin st now =
    let (ledger, active) = settle_all st.ip_byte_ledger st.active_credentials now in
    record st { ip_byte_ledger = ledger; active_credentials = active }

unfoldable pub evaluate_global_kill_switch : TurnConfig → Turn → ℕ → Turn
unfolding revoke_all_begin
evaluate_global_kill_switch cfg st now =
    let u = st.monthly_usage in
    let tripped = record st {
      monthly_usage = record u { kill_switch_active = true; kill_switch_triggered_at = now };
    } in
    if not u.kill_switch_active && leb cfg.threshold u.bytes_observed
    then (if cfg.revoke_all_on_kill then revoke_all_begin tripped now else tripped)
    else st
