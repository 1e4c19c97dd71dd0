-- ===== src/Server/RateLimit/Tests.antt =====
-- The limiter on a concrete history: two requests of one address, one of another, a cleanup.
use misaka_network.Common.{ℕ, ◌≤◌, String, ◌≡◌, refl, ltb, List, [], ◌∷◌, arith}
use misaka_network.Common.Dict
use misaka_network.Server.RateLimit.{check_rate_limit, cleanup_rate_limit_windows}
use misaka_network.Server.RateLimit.Window.{inside}
use misaka_network.Server.RateLimit.Bound.{
  Event, step, request, tick, Budget, run, start, admitted_bounded, verdict_exact,
}

abbrev limits : String → ℕ
limits k = 2

abbrev windows_ms : String → ℕ
windows_ms k = 60000

abbrev history : List Event
history = request "a" 1000 ∷ request "b" 1500 ∷ request "a" 2000 ∷ tick 3000 ∷ request "a" 4000 ∷ []

abbrev budget : Budget limits windows_ms "a"
budget = record { some_room = omega arith; short = omega arith }

admitted_bounded_example : inside 60000 5000 (run limits windows_ms "a" start history).admitted ≤ 2
admitted_bounded_example = admitted_bounded limits windows_ms "a" history budget (omega arith) 5000

verdict_exact_example :
    let s = run limits windows_ms "a" start history in
    (check_rate_limit s.windows "a" 2 60000 5000).0 ≡ ltb (inside 60000 5000 s.admitted) 2
verdict_exact_example =
    verdict_exact limits windows_ms "a" history 5000 budget (omega arith) (omega arith)

-- The third request of "a" was refused.
history_refused : (run limits windows_ms "a" start history).admitted ≡ 2000 ∷ 1000 ∷ []
unfolding run step start check_rate_limit cleanup_rate_limit_windows Dict.get Dict.put Dict.prune
history_refused = refl
