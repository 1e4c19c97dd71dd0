-- ===== src/Server/RateLimit.antt =====
-- server/src/ratelimit.ts: the sliding-window limiter of every HTTP budget.
-- `Date.now()` is an argument. A test `t > now - windowMs` is written `now < t + windowMs`.
pub mod Tests
mod Window
pub mod Bound
use misaka_network.Common.{
  ℕ, ◌+◌, ◌-◌, String, Bool, true, false, ◌||◌, List, [], ◌∷◌, ◌++◌, Option, none, some, length,
  filter, ltb, leb, if◌then◌else◌, string_keys,
}
use misaka_network.Common.Dict
use misaka_network.Common.Dict.{Dict}

abbrev pub Windows : Type 0
Windows = Dict String (List ℕ)

-- The stamps inside the window that ends at `now`.
abbrev pub recent : ℕ → ℕ → List ℕ → List ℕ
recent window now = filter (λ t. ltb now (t + window))

-- The answer for one key, and the stamps that are stored under it.
admit : Option (List ℕ) → ℕ → ℕ → ℕ → Bool × List ℕ
admit none limit window now = (true, now ∷ [])
admit (some stamps) limit window now =
    let kept = recent window now stamps in
    if leb limit (length kept) then (false, kept) else (true, kept ++ now ∷ [])

unfoldable pub check_rate_limit : Windows → String → ℕ → ℕ → ℕ → Bool × Windows
unfolding admit
check_rate_limit ws key limit window now =
    let (ok, stamps) = admit (Dict.get ws key) limit window now in (ok, Dict.put ws key stamps)

-- `stamps[stamps.length - 1]`
abbrev pub last_or_zero : List ℕ → ℕ
last_or_zero [] = 0
last_or_zero (x ∷ []) = x
last_or_zero (x ∷ y ∷ xs) = last_or_zero (y ∷ xs)

abbrev idle_grace_ms : ℕ
idle_grace_ms = 120000

abbrev is_idle : ℕ → List ℕ → Bool
is_idle now [] = true
is_idle now (x ∷ xs) = ltb idle_grace_ms (now - last_or_zero (x ∷ xs))

unfoldable pub cleanup_rate_limit_windows : Windows → ℕ → Windows
cleanup_rate_limit_windows ws now = Dict.prune (λ _ stamps. is_idle now stamps) ws
