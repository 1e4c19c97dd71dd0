-- ===== src/Server/Reports/Bounded.antt =====
-- What an address can write.
use misaka_network.Common.{
  All, All-append, All-filter, Bool, Bool-cases, List, Option, Option-cases, String, [], arith,
  beq→eq, count, count-append, false, filter, inl, inr, leb, leb→le, nat_eq, not, string_keys,
  subst, true, ℕ, ◌&&◌, ◌*◌, ◌++◌, ◌+◌, ◌∷◌, ◌≡◌, ◌≤◌,
}
use misaka_network.Server.Guard.{Limits}
use misaka_network.Server.Sessions.{Session, State, find_session_by_token}
use misaka_network.Server.Admission.{Server, Reason, Report}
use misaka_network.Server.Run.{started}
use misaka_network.Server.RateLimit.{check_rate_limit}
use Prim.Native.String.{◌++◌ as concat}
use misaka_network.Server.Cleanup.{run_cleanup_tick, sweep_reports}
use misaka_network.Server.Reports.{
  from_ip, report, report_from, transfer_done, count_transfer, bytes_or_zero, new_report,
  valid_node, target_exists,
}

-- Reports, finished transfers and ticks, and whatever else happens to the sessions between them.
pub data Event : Type 0 where
  reports : ℕ → Reason → String → String → String → ℕ → Event
  finishes : String → Option ℕ → String → ℕ → Event
  ticks : ℕ → Event
  changes : State → Event

unfoldable pub step : Limits → Server → Event → Server
step cfg sv (reports node_id reason token id ip now) =
    (report cfg sv node_id reason token id ip now).0
step cfg sv (finishes token bytes ip now) = (transfer_done cfg sv token bytes ip now).0
step cfg sv (ticks now) = run_cleanup_tick cfg sv now
step cfg sv (changes st) = record sv { sessions = st }

unfoldable pub run : Limits → Server → List Event → Server
unfolding step
run cfg sv [] = sv
run cfg sv (e ∷ es) = run cfg (step cfg sv e) es

abbrev time_of : ℕ → Event → ℕ
time_of before (reports node_id reason token id ip now) = now
time_of before (finishes token bytes ip now) = now
time_of before (ticks now) = now
time_of before (changes st) = before

-- The clock does not run backwards.
abbrev pub Ordered : ℕ → List Event → Type 0
Ordered before [] = Unit
Ordered before (e ∷ es) = (before ≤ time_of before e) × Ordered (time_of before e) es

-- The reports of an address in the window that ends at `t`.
abbrev pub inside : Limits → String → ℕ → Report → Bool
inside cfg ip t r = from_ip cfg ip t r && leb r.reported_at t

record Fair (cfg : Limits) (before : ℕ) (sv : Server) : Type 0 where
  past : All (λ r. r.reported_at ≤ before) sv.reports
  few : (ip : String) (t : ℕ) → count (inside cfg ip t) sv.reports ≤ cfg.report_rate_max
  honest : sv.total_bytes ≤ sv.total_transfers * cfg.max_transfer_bytes

All-later :
    (b c : ℕ) (rs : List Report)
    → b ≤ c
    → All (λ r. r.reported_at ≤ b) rs
    → All (λ r. r.reported_at ≤ c) rs
All-later b c [] h a = tt
All-later b c (r ∷ rs) h a = (omega (arith, h, a.0), All-later b c rs h a.1)

-- A later window holds no more of the old reports than the one that ends now.
count-later :
    (cfg : Limits) (ip : String) (now t : ℕ) (rs : List Report)
    → now ≤ t
    → count (inside cfg ip t) rs ≤ count (from_ip cfg ip now) rs
count-later cfg ip now t [] h = omega arith
count-later cfg ip now t (r ∷ rs) h = ground (arith, count-later cfg ip now t rs h)

count-filter : (p q : Report → Bool) (rs : List Report) → count p (filter q rs) ≤ count p rs
count-filter p q [] = omega arith
count-filter p q (r ∷ rs) = ground (arith, count-filter p q rs)

few-filed :
    (cfg : Limits) (r : Report) (rs : List Report) (ip : String) (t : ℕ)
    → leb cfg.report_rate_max (count (from_ip cfg r.reporter_ip r.reported_at) rs) ≡ false
    → count (inside cfg ip t) rs ≤ cfg.report_rate_max
    → count (inside cfg ip t) (rs ++ r ∷ []) ≤ cfg.report_rate_max
few-filed cfg r rs ip t room old =
    rw (count-append (inside cfg ip t) rs (r ∷ [])) (elim (Bool-cases (inside cfg ip t r)) [
      | inr out ↦ rw out (omega (arith, old))
      | inl counts ↦
          let same : r.reporter_ip ≡ ip = beq→eq r.reporter_ip ip (ground (arith, counts)) in
          let room_here : leb cfg.report_rate_max (count (from_ip cfg ip r.reported_at) rs)
              ≡ false =
            subst (λ x. leb cfg.report_rate_max (count (from_ip cfg x r.reported_at) rs) ≡ false)
              same room in
          let later = count-later cfg ip r.reported_at t rs (ground (arith, counts)) in
          rw counts (ground (arith, room_here, later))
    ])

later-Fair : (cfg : Limits) (b c : ℕ) (sv : Server) → b ≤ c → Fair cfg b sv → Fair cfg c sv
later-Fair cfg b c sv h f = record {
  past = All-later b c sv.reports h f.past;
  few = f.few;
  honest = f.honest;
}

report_from-Fair :
    (cfg : Limits) (before : ℕ) (sv : Server) (s : Session) (r : Report)
    → before ≤ r.reported_at
    → Fair cfg before sv
    → Fair cfg r.reported_at (report_from cfg sv s r).0
unfolding report_from
report_from-Fair cfg before sv s r h f =
    let same = later-Fair cfg before r.reported_at sv h f in
    elim (Bool-cases (nat_eq s.node_id r.target_node_id)) [
      | inl own ↦ rw (own, report_from) same
      | inr other ↦ elim (Bool-cases (not (target_exists r.target_node_id sv.sessions.nodes))) [
        | inl missing ↦ rw (other, missing, report_from) same
        | inr there ↦
            elim (Bool-cases (
              leb cfg.report_rate_max
                (count (from_ip cfg r.reporter_ip r.reported_at) sv.reports))) [
                  | inl many ↦ rw (other, there, many, report_from) same
                  | inr room ↦
                      rw (other, there, room, report_from)
                        (record {
                          past =
                              All-append (λ x. x.reported_at ≤ r.reported_at) sv.reports (r ∷ [])
                                same.past (omega arith, tt);
                          few = λ ip t. few-filed cfg r sv.reports ip t room (f.few ip t);
                          honest = f.honest;
                        })
                ]
      ]
    ]

report-Fair :
    (cfg : Limits) (before : ℕ) (sv : Server) (node_id : ℕ) (reason : Reason) (token id ip : String)
    (now : ℕ)
    → before ≤ now
    → Fair cfg before sv
    → Fair cfg now (report cfg sv node_id reason token id ip now).0
unfolding report
report-Fair cfg before sv node_id reason token id ip now h f =
    let (st, source) = find_session_by_token sv.sessions token now in
    elim (Bool-cases (not (valid_node cfg node_id))) [
      | inl bad ↦ rw (bad, report) (later-Fair cfg before now sv h f)
      | inr valid ↦ elim (Option-cases (find_session_by_token sv.sessions token now).1) [
        | inl unknown ↦
            rw (valid, report, unknown)
              (record {
                past = All-later before now sv.reports h f.past;
                few = f.few;
                honest = f.honest;
              })
        | inr (s, found) ↦
            rw (valid, report, found)
              (report_from-Fair cfg before (record sv { sessions = st }) s
                (new_report id s node_id reason ip now) h
                (record { past = f.past; few = f.few; honest = f.honest }))
      ]
    ]

count_transfer-Fair :
    (cfg : Limits) (now : ℕ) (sv : Server) (s : Session) (bytes : Option ℕ) (ip : String) (at : ℕ)
    → leb (bytes_or_zero bytes) cfg.max_transfer_bytes ≡ true
    → Fair cfg now sv
    → Fair cfg now (count_transfer cfg sv s bytes ip at).0
unfolding count_transfer
count_transfer-Fair cfg now sv s bytes ip at small f =
    elim (Bool-cases (
      not
        (check_rate_limit sv.windows (concat "transfer-done:" ip) cfg.transfer_done_rate_limit
          cfg.transfer_done_rate_window_ms at).0)) [
            | inl refused ↦
                rw (refused, count_transfer)
                  (record { past = f.past; few = f.few; honest = f.honest })
            | inr ok ↦
                rw (ok, count_transfer)
                  (record {
                    past = f.past;
                    few = f.few;
                    honest = grind (
                      arith,
                      f.honest,
                      leb→le (bytes_or_zero bytes) cfg.max_transfer_bytes small,
                    );
                  })
          ]

transfer_done-Fair :
    (cfg : Limits) (before : ℕ) (sv : Server) (token : String) (bytes : Option ℕ) (ip : String)
    (now : ℕ)
    → before ≤ now
    → Fair cfg before sv
    → Fair cfg now (transfer_done cfg sv token bytes ip now).0
unfolding transfer_done
transfer_done-Fair cfg before sv token bytes ip now h f =
    let st = (find_session_by_token sv.sessions token now).0 in
    let later = later-Fair cfg before now sv h f in
    let same : Fair cfg now (record sv { sessions = st }) = record {
      past = later.past;
      few = f.few;
      honest = f.honest;
    } in
    elim (Bool-cases (leb (bytes_or_zero bytes) cfg.max_transfer_bytes)) [
      | inr big ↦ rw (big, transfer_done) later
      | inl small ↦ elim (Option-cases (find_session_by_token sv.sessions token now).1) [
        | inl unknown ↦ rw (small, transfer_done, unknown) same
        | inr (s, found) ↦
            rw (small, transfer_done, found)
              (count_transfer-Fair cfg now (record sv { sessions = st }) s bytes ip now small same)
      ]
    ]

tick-Fair :
    (cfg : Limits) (before : ℕ) (sv : Server) (now : ℕ)
    → before ≤ now
    → Fair cfg before sv
    → Fair cfg now (run_cleanup_tick cfg sv now)
unfolding run_cleanup_tick sweep_reports
tick-Fair cfg before sv now h f = record {
  past =
      All-filter (λ r. r.reported_at ≤ now) (λ r. leb now (r.reported_at + cfg.report_ttl_ms))
        sv.reports (All-later before now sv.reports h f.past);
  few = λ ip t. omega (
    arith,
    f.few ip t,
    count-filter (inside cfg ip t) (λ r. leb now (r.reported_at + cfg.report_ttl_ms)) sv.reports,
  );
  honest = f.honest;
}

run-Fair :
    (cfg : Limits) (before : ℕ) (sv : Server) (es : List Event)
    → Ordered before es
    → Fair cfg before sv
    → (now : ℕ) × Fair cfg now (run cfg sv es)
unfolding run step
run-Fair cfg before sv [] o f = (before, f)
run-Fair cfg before sv (reports node_id reason token id ip now ∷ es) o f =
    run-Fair cfg now _ es o.1 (report-Fair cfg before sv node_id reason token id ip now o.0 f)
run-Fair cfg before sv (finishes token bytes ip now ∷ es) o f =
    run-Fair cfg now _ es o.1 (transfer_done-Fair cfg before sv token bytes ip now o.0 f)
run-Fair cfg before sv (ticks now ∷ es) o f =
    run-Fair cfg now _ es o.1 (tick-Fair cfg before sv now o.0 f)
run-Fair cfg before sv (changes st ∷ es) o f =
    run-Fair cfg before _ es o.1 (record { past = f.past; few = f.few; honest = f.honest })

-- From a server that has just started, whatever is reported and finished, with a clock that does
-- not run backwards: every window of the reports' length, wherever it ends, holds at most
-- `report_rate_max` of the reports of one address that are kept, and the published sum of the bytes
-- is at most the greatest transfer for each that was counted.
pub reports_bounded :
    (cfg : Limits) (es : List Event) (ip : String) (t : ℕ)
    → Ordered 0 es
    → (count (inside cfg ip t) (run cfg started es).reports ≤ cfg.report_rate_max)
      × ((run cfg started es).total_bytes
          ≤ (run cfg started es).total_transfers * cfg.max_transfer_bytes)
reports_bounded cfg es ip t o =
    let (now, f) =
      run-Fair cfg 0 started es o
        (record { past = tt; few = λ ip t. omega arith; honest = omega arith }) in
    (f.few ip t, f.honest)
