-- ===== src/Server/Reports.antt =====
-- server/src/http.ts: POST /api/report and POST /api/transfer-done, which let a session write to the
-- server's own account of others and of itself. A test `now - at < w` is written `now < at + w`.
-- The sum of the bytes is exact below 2 ^ 53.
pub mod Bounded
pub mod Tests
use misaka_network.Common.{
  Bool, List, Option, String, [], any, count, if◌then◌else◌, leb, ltb, nat_eq, none, not, some,
  string_keys, ℕ, ◌&&◌, ◌++◌, ◌+◌, ◌==◌, ◌∷◌,
}
use Prim.Native.String.{◌++◌ as concat}
use misaka_network.Server.Guard.{Limits}
use misaka_network.Server.RateLimit.{check_rate_limit}
use misaka_network.Server.Sessions.{Session, announces, find_session_by_token, State}
use misaka_network.Server.Admission.{Server, Reason, Report}
use misaka_network.Common.Dict.{Dict}

pub data Reply : Type 0 where
  done invalid_input unauthorized cannot_report_self node_not_found rate_limited : Reply

abbrev pub valid_node : Limits → ℕ → Bool
valid_node cfg node_id = leb cfg.node_id_min node_id && leb node_id cfg.node_id_max

unfoldable pub target_exists : ℕ → Dict String Session → Bool
target_exists node_id = any (λ e. nat_eq e.1.node_id node_id)

abbrev pub from_ip : Limits → String → ℕ → Report → Bool
from_ip cfg ip now r = (r.reporter_ip == ip) && ltb now (r.reported_at + cfg.report_rate_window_ms)

abbrev pub on_target : Limits → ℕ → ℕ → Report → Bool
on_target cfg node_id now r =
    nat_eq r.target_node_id node_id && ltb now (r.reported_at + cfg.report_warn_window_ms)

-- The warning is announced under the number that it is about.
unfoldable pub warn : Limits → List Report → ℕ → ℕ → State → State
warn cfg reports node_id now st =
    if leb cfg.report_warn_count (count (on_target cfg node_id now) reports)
    then record st { log = announces "channel" node_id ∷ st.log }
    else st

abbrev pub new_report : String → Session → ℕ → Reason → String → ℕ → Report
new_report id source node_id reason ip now = record {
  id = id;
  source_node_id = source.node_id;
  target_node_id = node_id;
  reason = reason;
  reporter_ip = ip;
  reported_at = now;
}

-- From the session on.
unfoldable pub report_from : Limits → Server → Session → Report → Server × Reply
unfolding target_exists warn
report_from cfg sv source r =
    if nat_eq source.node_id r.target_node_id
    then (sv, cannot_report_self)
    else if not (target_exists r.target_node_id sv.sessions.nodes)
    then (sv, node_not_found)
    else if leb cfg.report_rate_max (count (from_ip cfg r.reporter_ip r.reported_at) sv.reports)
    then (sv, rate_limited)
    else (let filed = sv.reports ++ r ∷ [] in
        (
          record sv {
            reports = filed;
            sessions = warn cfg filed r.target_node_id r.reported_at sv.sessions;
          },
          done,
        ))

unfoldable pub report : Limits → Server → ℕ → Reason → String → String → String → ℕ → Server × Reply
unfolding report_from
report cfg sv node_id reason source_token id ip now =
    if not (valid_node cfg node_id)
    then (sv, invalid_input)
    else (let (st, source) = find_session_by_token sv.sessions source_token now in
        elim source [
          | none ↦ (record sv { sessions = st }, unauthorized)
          | some s ↦
              report_from cfg (record sv { sessions = st }) s
                (new_report id s node_id reason ip now)
        ])

abbrev pub bytes_or_zero : Option ℕ → ℕ
bytes_or_zero none = 0
bytes_or_zero (some n) = n

unfoldable pub count_transfer : Limits → Server → Session → Option ℕ → String → ℕ → Server × Reply
count_transfer cfg sv s bytes ip now =
    let (ok, windows) =
      check_rate_limit sv.windows (concat "transfer-done:" ip) cfg.transfer_done_rate_limit
        cfg.transfer_done_rate_window_ms now in
    let counted = record sv { windows = windows } in
    if not ok then (counted, rate_limited) else (
      record counted {
        total_transfers = sv.total_transfers + 1;
        total_bytes = sv.total_bytes + bytes_or_zero bytes;
        sessions = record sv.sessions { log = announces "transfer" s.node_id ∷ sv.sessions.log };
      },
      done,
    )

unfoldable pub transfer_done : Limits → Server → String → Option ℕ → String → ℕ → Server × Reply
unfolding count_transfer
transfer_done cfg sv token bytes ip now =
    if not (leb (bytes_or_zero bytes) cfg.max_transfer_bytes)
    then (sv, invalid_input)
    else (let (st, found) = find_session_by_token sv.sessions token now in
        elim found [
          | none ↦ (record sv { sessions = st }, unauthorized)
          | some s ↦ count_transfer cfg (record sv { sessions = st }) s bytes ip now
        ])
