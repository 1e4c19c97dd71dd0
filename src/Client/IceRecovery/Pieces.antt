-- ===== src/Client/IceRecovery/Pieces.antt =====
-- What each piece of a restart keeps.
use misaka_network.Common.{
  All, Bool-cases, Option, arith, inl, inr, ltb, nat_eq, none, not, refl, some, ℕ, ◌&&◌, ◌+◌, ◌<◌,
  ◌≡◌, ◌≤◌,
}
use misaka_network.Client.IceRecovery.{
  Ice, Job, Stage, View, backing_off, rebuilding, until_stable, creating, installing, finished,
  value_or, rebuild, offer_step, mark_offline, still_current, pc_still_current,
  max_ice_restart_attempts, begin_offer, with_connection, go_on, resume_job, reconnecting,
  precondition_budget_ms,
}
use misaka_network.Client.IceRecovery.Locks.{Locked, bump-Locked, clear-Locked}

pub record Sound (p : Ice) : Type 0 where
  pub locked : Locked p.generation p.ice_restarting p.jobs
  pub few : value_or p.ice_restart_attempts 0 ≤ max_ice_restart_attempts
  pub young : All (λ j. j.attempts < max_ice_restart_attempts) p.jobs

-- What a piece of a restart may do.
pub record Resumed (p : Ice) (r : Ice × Stage) : Type 0 where
  pub locked : Locked r.0.generation r.0.ice_restarting p.jobs
  pub few : value_or r.0.ice_restart_attempts 0 ≤ max_ice_restart_attempts
  pub same : r.0.jobs ≡ p.jobs

pub mark_offline-Resumed :
    (p : Ice) (gen : ℕ) (stage : Stage)
    → Resumed p (p, stage)
    → Resumed p (mark_offline p gen, stage)
mark_offline-Resumed p gen stage r = elim (Bool-cases (nat_eq p.generation gen)) [
  | inl mine ↦ rw mine (record { locked = r.locked; few = r.few; same = refl })
  | inr other ↦ rw other r
]

pub stays : (p : Ice) (stage : Stage) → Sound p → Resumed p (p, stage)
stays p stage s = record { locked = s.locked; few = s.few; same = refl }

pub rebuild-Resumed :
    (p : Ice) (j : Job) → j.attempts < max_ice_restart_attempts → Sound p → Resumed p (rebuild p j)
rebuild-Resumed p j h s = record {
  locked =
      bump-Locked (p.generation + 1) none p.jobs
        (clear-Locked p.generation p.ice_restarting p.jobs s.locked);
  few = omega (arith, h);
  same = refl;
}

pub begin_offer-Resumed :
    (p : Ice) (j : Job) (pc : ℕ) (v : View)
    → j.attempts < max_ice_restart_attempts
    → Sound p
    → Resumed p (begin_offer p j pc v)
unfolding begin_offer
begin_offer-Resumed p j pc v h s = elim (Bool-cases v.signaling_ready) [
  | inl ready ↦
      rw (ready, begin_offer) (record { locked = s.locked; few = omega (arith, h); same = refl })
  | inr down ↦ rw (down, begin_offer) (record { locked = s.locked; few = s.few; same = refl })
]

pub with_connection-Resumed :
    (p : Ice) (j : Job) (pc : ℕ) (v : View)
    → j.attempts < max_ice_restart_attempts
    → Sound p
    → Resumed p (with_connection p j pc v)
unfolding with_connection
with_connection-Resumed p j pc v h s =
    let started = value_or p.precondition_started v.now in
    let noted : Ice = record p { precondition_started = some started } in
    let there : Sound noted = record { locked = s.locked; few = s.few; young = s.young } in
    elim (Bool-cases (ltb (started + precondition_budget_ms) v.now)) [
      | inl late ↦
          let r =
            mark_offline-Resumed (record noted { precondition_started = none }) j.gen finished
              (record { locked = s.locked; few = s.few; same = refl }) in
          rw (late, with_connection) (record { locked = r.locked; few = r.few; same = r.same })
      | inr early ↦ elim (Bool-cases v.is_stable) [
        | inl stable ↦
            let r = begin_offer-Resumed noted j pc v h there in
            rw (early, stable, with_connection)
              (record { locked = r.locked; few = r.few; same = r.same })
        | inr glare ↦
            rw (early, glare, with_connection)
              (record { locked = s.locked; few = s.few; same = refl })
      ]
    ]

pub go_on-Resumed :
    (p : Ice) (j : Job) (v : View) (o : Option ℕ)
    → j.attempts < max_ice_restart_attempts
    → Sound p
    → Resumed p (go_on p j v o)
unfolding go_on
go_on-Resumed p j v none h s = rebuild-Resumed p j h s
go_on-Resumed p j v (some pc) h s = elim (Bool-cases v.is_dead) [
  | inl dead ↦ rw dead (rebuild-Resumed p j h s)
  | inr alive ↦ rw alive (with_connection-Resumed p j pc v h s)
]

pub offer_step-Resumed :
    (p : Ice) (j : Job) (pc : ℕ) (v : View) (done : Ice) (stage : Stage)
    → Sound p
    → Resumed p (done, stage)
    → Resumed p (offer_step p j pc v done stage)
offer_step-Resumed p j pc v done stage s on = elim (Bool-cases v.ok) [
  | inr failed ↦ elim (Bool-cases (pc_still_current p j pc)) [
    | inl mine ↦ rw (failed, mine) (record { locked = s.locked; few = s.few; same = refl })
    | inr other ↦ rw (failed, other) (stays p finished s)
  ]
  | inl ok ↦ elim (Bool-cases (pc_still_current p j pc && v.offer_current)) [
    | inl current ↦ rw (ok, current) on
    | inr stale ↦ rw (ok, stale) (record { locked = s.locked; few = s.few; same = refl })
  ]
]

pub resume_job-Resumed :
    (p : Ice) (j : Job) (stage : Stage) (v : View)
    → j.attempts < max_ice_restart_attempts
    → Sound p
    → Resumed p (resume_job p j stage v)
unfolding resume_job
resume_job-Resumed p j backing_off v h s = elim (Bool-cases (still_current p j)) [
  | inr stale ↦ rw stale (stays p finished s)
  | inl current ↦
      let r =
        go_on-Resumed (record p { status = reconnecting }) j v p.connection h
          (record { locked = s.locked; few = s.few; young = s.young }) in
      rw current (record { locked = r.locked; few = r.few; same = r.same })
]
resume_job-Resumed p j rebuilding v h s = elim (Bool-cases (not v.ok && still_current p j)) [
  | inl failed ↦ rw failed (record { locked = s.locked; few = s.few; same = refl })
  | inr over ↦ rw over (stays p finished s)
]
resume_job-Resumed p j (until_stable pc) v h s = elim (Bool-cases v.ok) [
  | inr glare ↦ rw glare (record { locked = s.locked; few = s.few; same = refl })
  | inl stable ↦ elim (Bool-cases (pc_still_current p j pc)) [
    | inr stale ↦ rw (stable, stale) (stays p finished s)
    | inl current ↦ rw (stable, current) (begin_offer-Resumed p j pc v h s)
  ]
]
resume_job-Resumed p j (creating pc) v h s =
    offer_step-Resumed p j pc v p (installing pc) s (stays p (installing pc) s)
resume_job-Resumed p j (installing pc) v h s =
    offer_step-Resumed p j pc v _ finished s
      (record { locked = s.locked; few = s.few; same = refl })
resume_job-Resumed p j finished v h s = stays p finished s
