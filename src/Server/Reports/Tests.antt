-- ===== src/Server/Reports/Tests.antt =====
-- The theorem on reports at a concrete run.
use misaka_network.Common.{List, [], arith, count, some, ◌*◌, ◌∷◌, ◌≤◌}
use misaka_network.Server.Sample.{pair, limits}
use misaka_network.Server.Run.{started}
use misaka_network.Server.Admission.{spam}
use misaka_network.Server.Reports.Bounded.{
  Event, reports, finishes, ticks, changes, run, inside, reports_bounded,
}

-- Alice reports bob and counts a transfer, before and after a tick.
abbrev events : List Event
events =
    changes pair
    ∷ reports 12 spam "ta" "r1" "10.0.0.1" 1000
    ∷ finishes "ta" (some 4096) "10.0.0.1" 2000
    ∷ ticks 3000
    ∷ reports 12 spam "ta" "r2" "10.0.0.1" 4000
    ∷ []

reports_bounded_example :
    (count (inside limits "10.0.0.1" 4000) (run limits started events).reports ≤ 5)
    × ((run limits started events).total_bytes
        ≤ (run limits started events).total_transfers * limits.max_transfer_bytes)
reports_bounded_example =
    reports_bounded limits events "10.0.0.1" 4000
      (omega arith, (omega arith, (omega arith, (omega arith, (omega arith, tt)))))
