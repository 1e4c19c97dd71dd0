-- ===== src/Server/Cleanup.antt =====
-- server/src/cleanup.ts: one cleanup tick.
pub mod Sweeps
pub mod Tick
use misaka_network.Common.{
  Bool, List, Option, String, [], false, filter, if◌then◌else◌, leb, ltb, none, some, string_keys,
  true, ℕ, ◌&&◌, ◌+◌, ◌||◌, ◌∷◌,
}
use misaka_network.Common.Dict
use misaka_network.Common.Dict.{Dict}
use misaka_network.Server.RateLimit.{cleanup_rate_limit_windows}
use misaka_network.Server.Guard.{Limits, sweep_guard}
use misaka_network.Server.Sessions.{
  State, Session, is_session_expired, mark_token_expired, cleanup_expired_tombstones,
}
use misaka_network.Server.Lifecycle.{terminate_session, TerminateOpts, default_opts}
use misaka_network.Server.Admission.{Server, Report}
use misaka_network.Server.Invitations.{sweep_tokens}

abbrev is_offline : Option ℕ → Bool
is_offline none = true
is_offline (some ws) = false

-- Expired, or without a socket and untouched for the time that a reconnect has.
abbrev pub is_due : Limits → ℕ → Session → Bool
is_due cfg now s =
    is_session_expired s now
    || (is_offline s.socket && leb (s.last_seen + cfg.disconnected_ttl_ms) now)

-- toPurge: the ids, each with whether the session has expired.
unfoldable pub to_purge : Limits → ℕ → Dict String Session → List (String × Session)
to_purge cfg now [] = []
to_purge cfg now ((k, s) ∷ rest) =
    let more = to_purge cfg now rest in if is_due cfg now s then (k, s) ∷ more else more

abbrev pub purge_opts : Bool → TerminateOpts
purge_opts true = record default_opts { close_code = 4002; close_reason = "SESSION_EXPIRED" }
purge_opts false = record default_opts {
  close_reason = "DISCONNECTED_TTL";
  broadcast_leave = false;
}

unfoldable pub purge : State → String → Session → ℕ → State
purge st k s now =
    let expired = is_session_expired s now in
    let marked = if expired then mark_token_expired st s.token now else st in
    terminate_session marked k (purge_opts expired) now

unfoldable pub purge_all : State → List (String × Session) → ℕ → State
unfolding purge
purge_all st [] now = st
purge_all st ((k, s) ∷ rest) now = purge_all (purge st k s now) rest now

abbrev pub unlock : ℕ → Session → Session
unlock now s =
    if ltb 0 s.locked_until && leb s.locked_until now
    then record s { locked_until = 0; failed_attempts = 0 }
    else s

unfoldable pub unlock_all : ℕ → Dict String Session → Dict String Session
unlock_all now [] = []
unlock_all now ((k, s) ∷ rest) = (k, unlock now s) ∷ unlock_all now rest

abbrev pub no_members : List String → Bool
no_members [] = true
no_members (m ∷ ms) = false

unfoldable pub sweep_reports : Limits → ℕ → List Report → List Report
sweep_reports cfg now = filter (λ r. leb now (r.reported_at + cfg.report_ttl_ms))

unfoldable pub sweep_sessions : Limits → State → ℕ → State
unfolding purge_all to_purge unlock_all
sweep_sessions cfg st now =
    let purged = purge_all st (to_purge cfg now st.nodes) now in
    record purged { nodes = unlock_all now purged.nodes }

unfoldable pub run_cleanup_tick : Limits → Server → ℕ → Server
unfolding sweep_sessions sweep_reports
run_cleanup_tick cfg sv now =
    let swept = sweep_sessions cfg sv.sessions now in
    let emptied = record swept { channels = Dict.prune (λ _ ms. no_members ms) swept.channels } in
    record sv {
      sessions = cleanup_expired_tombstones emptied now;
      guard = sweep_guard cfg sv.guard now;
      qr_tokens = sweep_tokens sv.qr_tokens now;
      reports = sweep_reports cfg now sv.reports;
      windows = cleanup_rate_limit_windows sv.windows now;
    }
