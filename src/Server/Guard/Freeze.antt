-- ===== src/Server/Guard/Freeze.antt =====
-- A freeze, once it is engaged, holds for its whole duration.
use misaka_network.Common.{
  All, List, Option, Option-cases, String, [], ap, arith, inl, inr, nat_eq_iff, nat_keys, none,
  refl, some, string_keys, true, ℕ, ◌+◌, ◌<◌, ◌∷◌, ◌≡◌, ◌≤◌,
}
use misaka_network.Common.Dict
use misaka_network.Common.Dict.{
  Dict, get-put_self, get-put, get-remove, get-prune, Distinct, unless, put-Distinct,
  prune-Distinct, remove-Distinct,
}
use misaka_network.Server.Guard.{
  Limits, Guard, NodeFreeze, is_node_frozen, record_failed_passcode_attempt,
  clear_node_freeze_on_success, sweep_guard, add_failure, age_freeze, age_all, freeze_is_garbage,
  freeze_or_new, thaw,
}

-- What happens to the freezes: the four operations that write them, with their times.
pub data FreezeEvent : Type 0 where
  check : ℕ → ℕ → FreezeEvent
  failed : ℕ → String → ℕ → FreezeEvent
  success : ℕ → ℕ → FreezeEvent
  sweep : ℕ → FreezeEvent

abbrev pub time_of : FreezeEvent → ℕ
time_of (check node now) = now
time_of (failed node ip now) = now
time_of (success node now) = now
time_of (sweep now) = now

unfoldable pub step : Limits → Guard → FreezeEvent → Guard
step cfg g (check node now) = (is_node_frozen cfg g node now).0
step cfg g (failed node ip now) = (record_failed_passcode_attempt cfg g node ip now).0
step cfg g (success node now) = clear_node_freeze_on_success g node
step cfg g (sweep now) = sweep_guard cfg g now

unfoldable pub run : Limits → Guard → List FreezeEvent → Guard
unfolding step
run cfg g [] = g
run cfg g (e ∷ es) = run cfg (step cfg g e) es

-- Until when a freeze holds.
abbrev pub until_of : Option NodeFreeze → ℕ
until_of none = 0
until_of (some freeze) = freeze.frozen_until

abbrev aged : Limits → ℕ → Option NodeFreeze → Option NodeFreeze
aged cfg now none = none
aged cfg now (some freeze) = some (age_freeze cfg now freeze)

get-age_all :
    (cfg : Limits) (now : ℕ) (m : Dict ℕ NodeFreeze) (k : ℕ)
    → Dict.get (age_all cfg now m) k ≡ aged cfg now (Dict.get m k)
unfolding Dict.get age_all
get-age_all cfg now [] k = refl
get-age_all cfg now ((j, f) ∷ m) k = ground (arith, get-age_all cfg now m k)

age_all-Distinct :
    (cfg : Limits) (now : ℕ) (m : Dict ℕ NodeFreeze) → Distinct m → Distinct (age_all cfg now m)
unfolding age_all
age_all-Distinct cfg now [] d = tt
age_all-Distinct cfg now ((j, f) ∷ m) d =
    (rw (get-age_all cfg now m j, d.0) refl, age_all-Distinct cfg now m d.1)

step-Distinct :
    (cfg : Limits) (g : Guard) (e : FreezeEvent)
    → Distinct g.node_freezes
    → Distinct (step cfg g e).node_freezes
unfolding step is_node_frozen record_failed_passcode_attempt clear_node_freeze_on_success
    sweep_guard
step-Distinct cfg g (check n now) d = elim (Option-cases (Dict.get g.node_freezes n)) [
  | inl gone ↦ ground arith
  | inr (f, there) ↦ ground (arith, put-Distinct g.node_freezes n (thaw cfg f now))
]
step-Distinct cfg g (failed n ip now) d = put-Distinct g.node_freezes n _ d
step-Distinct cfg g (success n now) d = ground (arith, remove-Distinct g.node_freezes n)
step-Distinct cfg g (sweep now) d =
    age_all-Distinct cfg now _
      (prune-Distinct (λ _ f. freeze_is_garbage cfg now f) g.node_freezes d)

add_failure-until :
    (cfg : Limits) (f : NodeFreeze) (ip : String) (now until : ℕ)
    → until ≤ now + cfg.node_freeze_duration_ms
    → until ≤ f.frozen_until
    → until ≤ (add_failure cfg f ip now).0.frozen_until
unfolding add_failure
add_failure-until cfg f ip now until a b = ground arith

add_failure-engages :
    (cfg : Limits) (f : NodeFreeze) (ip : String) (now : ℕ)
    → (add_failure cfg f ip now).1 ≡ true
    → (add_failure cfg f ip now).0.frozen_until ≡ now + cfg.node_freeze_duration_ms
unfolding add_failure
add_failure-engages cfg f ip now h = ground arith

module _ (cfg : Limits) (node until : ℕ) where
  -- A freeze until at least `until` stands at an event that comes before, and no more than the
  -- duration of a freeze before.
  abbrev Within : FreezeEvent → Type 0
  Within e = (time_of e < until) × (until ≤ time_of e + cfg.node_freeze_duration_ms)

  step-until :
      (g : Guard) (e : FreezeEvent)
      → Distinct g.node_freezes
      → Within e
      → until ≤ until_of (Dict.get g.node_freezes node)
      → until ≤ until_of (Dict.get (step cfg g e).node_freezes node)
  unfolding step is_node_frozen record_failed_passcode_attempt clear_node_freeze_on_success
      sweep_guard age_freeze
  step-until g (check n now) d w h = elim (Option-cases (Dict.get g.node_freezes n)) [
    | inl gone ↦ ground arith
    | inr (f, there) ↦ ground (
      arith,
      get-put g.node_freezes n node (thaw cfg f now),
      w.0,
      nat_eq_iff n node,
      ap (λ k. Dict.get g.node_freezes k),
    )
  ]
  step-until g (failed n ip now) d w h =
      let f = freeze_or_new (Dict.get g.node_freezes n) in
      ground (
        arith,
        get-put g.node_freezes n node (add_failure cfg f ip now).0,
        add_failure-until cfg f ip now until w.1,
        nat_eq_iff n node,
        ap (λ k. Dict.get g.node_freezes k),
      )
  step-until g (success n now) d w h = ground (arith, get-remove g.node_freezes n node, w.0)
  step-until g (sweep now) d w h = ground (
    arith,
    w.0,
    get-prune (λ _ f. freeze_is_garbage cfg now f) g.node_freezes node d,
    get-age_all cfg now (Dict.prune (λ _ f. freeze_is_garbage cfg now f) g.node_freezes) node,
  )

  run-until :
      (g : Guard) (es : List FreezeEvent)
      → Distinct g.node_freezes
      → All Within es
      → until ≤ until_of (Dict.get g.node_freezes node)
      → until ≤ until_of (Dict.get (run cfg g es).node_freezes node)
  unfolding run
  run-until g [] d w h = h
  run-until g (e ∷ es) d w h =
      run-until (step cfg g e) es (step-Distinct cfg g e d) w.1 (step-until g e d w.0 h)

  frozen_before :
      (g : Guard) (t : ℕ)
      → t < until
      → until ≤ until_of (Dict.get g.node_freezes node)
      → (u : ℕ) × (until ≤ u) × ((is_node_frozen cfg g node t).1 ≡ some u)
  unfolding is_node_frozen
  frozen_before g t lt h = (
    until_of (Dict.get g.node_freezes node),
    h,
    elim (Option-cases (Dict.get g.node_freezes node)) [
      | inl gone ↦ ground arith
      | inr (f, there) ↦ ground arith
    ],
  )

-- When a failed guess at time `t0` freezes the node, then whatever checks, further failures,
-- successful registrations and sweeps come before the freeze's duration is over, on this node or on
-- others, every check of the node inside the duration finds it frozen, at least up to its end.
pub freeze_holds :
    (cfg : Limits) (g : Guard) (node : ℕ) (ip : String) (t0 t : ℕ) (es : List FreezeEvent)
    → Distinct g.node_freezes
    → (record_failed_passcode_attempt cfg g node ip t0).1 ≡ true
    → All (λ e. (t0 ≤ time_of e) × (time_of e < t0 + cfg.node_freeze_duration_ms)) es
    → t < t0 + cfg.node_freeze_duration_ms
    → let after = run cfg (record_failed_passcode_attempt cfg g node ip t0).0 es in
      (u : ℕ) × (t0 + cfg.node_freeze_duration_ms ≤ u)
      × ((is_node_frozen cfg after node t).1 ≡ some u)
unfolding record_failed_passcode_attempt step
freeze_holds cfg g node ip t0 t es d froze times lt =
    let first = (record_failed_passcode_attempt cfg g node ip t0).0 in
    let until = t0 + cfg.node_freeze_duration_ms in
    frozen_before cfg node until (run cfg first es) t lt (
      run-until cfg node until first es (step-Distinct cfg g (failed node ip t0) d)
        (within es times)
        (ground (
          arith,
          get-put_self g.node_freezes node
              (add_failure cfg (freeze_or_new (Dict.get g.node_freezes node)) ip t0).0,
          add_failure-engages cfg (freeze_or_new (Dict.get g.node_freezes node)) ip t0 froze,
        )))
  where
    within :
        (es : List FreezeEvent)
        → All (λ e. (t0 ≤ time_of e) × (time_of e < t0 + cfg.node_freeze_duration_ms)) es
        → All (Within cfg node (t0 + cfg.node_freeze_duration_ms)) es
    within [] h = tt
    within (e ∷ es) h = ((h.0.1, omega (arith, h.0.0)), within es h.1)
