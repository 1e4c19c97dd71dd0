-- ===== src/Client/IceRecovery/Exclusive.antt =====
-- Within an epoch the restarts of a peer exclude one another, and their number is bounded.
use misaka_network.Common.{
  All, Bool, Bool-cases, List, Option, Option-cases, [], any, arith, count, false, get_elem?,
  if◌then◌else◌, inl, inr, leb, nat_eq, none, not, refl, set, some, subst, suc, sym, true, zero, ℕ,
  ◌<◌, ◌||◌, ◌∷◌, ◌≡◌, ◌≤◌,
}
use misaka_network.Client.IceRecovery.{
  Ice, Job, Stage, View, Event, step, run, unknown, backing_off, rebuilding, until_stable, creating,
  installing, finished, is_held, value_or, is_absent, is_finished, restarts, fires_connected, fires,
  recovers, cleans, bumps, ends, connects, listed, resumes, resume_if, resume_at, mark_offline,
  max_ice_restart_attempts, resume_job, attempt_ice_restart, fire_retry,
}
use misaka_network.Client.IceRecovery.Locks.{
  is_live, Locked, bump-Locked, clear-Locked, take-Locked, kept-Locked, ended-Locked,
}
use misaka_network.Client.IceRecovery.Pieces.{Sound, resume_job-Resumed}

All-set_young :
    (n : ℕ) (jobs : List Job) (k : ℕ) (j : Job) (stage : Stage)
    → get_elem? jobs k ≡ some j
    → All (λ x. x.attempts < n) jobs
    → All (λ x. x.attempts < n) (set jobs k (record j { stage = stage }))
All-set_young n [] k j stage at h = tt
All-set_young n (x ∷ jobs) zero j stage at h =
    let here : x ≡ j = ground (arith, at) in (subst (λ y. y.attempts < n) here h.0, h.1)
All-set_young n (x ∷ jobs) (suc k) j stage at h = (h.0, All-set_young n jobs k j stage at h.1)

young_at :
    (n : ℕ) (jobs : List Job) (k : ℕ) (j : Job)
    → get_elem? jobs k ≡ some j
    → All (λ x. x.attempts < n) jobs
    → j.attempts < n
young_at n [] k j at h = absurd (ground (arith, at))
young_at n (x ∷ jobs) zero j at h =
    let here : x ≡ j = ground (arith, at) in subst (λ y. y.attempts < n) here h.0
young_at n (x ∷ jobs) (suc k) j at h = young_at n jobs k j at h.1

finished-eq : (stage : Stage) → is_finished stage ≡ true → stage ≡ finished
finished-eq backing_off h = absurd (ground (arith, h))
finished-eq rebuilding h = absurd (ground (arith, h))
finished-eq (until_stable pc) h = absurd (ground (arith, h))
finished-eq (creating pc) h = absurd (ground (arith, h))
finished-eq (installing pc) h = absurd (ground (arith, h))
finished-eq finished h = refl

resumes-Sound :
    (p : Ice) (k : ℕ) (j : Job) (v : View)
    → get_elem? p.jobs k ≡ some j
    → Sound p
    → Sound (resume_if p k j v (is_finished j.stage))
resumes-Sound p k j v at s = elim (Bool-cases (is_finished j.stage)) [
  | inl over ↦ rw over s
  | inr live ↦
      let r =
        resume_job-Resumed p j j.stage v (young_at max_ice_restart_attempts p.jobs k j at s.young)
          s in
      let next = (resume_job p j j.stage v).0 in
      let stage = (resume_job p j j.stage v).1 in
      let young = All-set_young max_ice_restart_attempts p.jobs k j stage at s.young in
      rw live (elim (Bool-cases (is_finished stage)) [
        | inr on ↦ rw on (record {
          locked = rw r.same (
              kept-Locked next.generation next.ice_restarting p.jobs k j stage at live on r.locked);
          few = r.few;
          young = rw r.same young;
        })
        | inl over ↦
            let locked =
              subst
                (λ x.
                  Locked next.generation
                    (if is_held next.ice_restarting j.gen then none else next.ice_restarting)
                    (set p.jobs k (record j { stage = x })))
                (sym (finished-eq stage over))
                (ended-Locked next.generation next.ice_restarting p.jobs k j at live r.locked) in
            elim (Bool-cases (is_held next.ice_restarting j.gen)) [
              | inl mine ↦
                  rw (over, mine)
                    (record {
                      locked = rw r.same (rw mine at locked);
                      few = r.few;
                      young = rw r.same young;
                    })
              | inr other ↦
                  rw (over, other)
                    (record {
                      locked = rw r.same (rw other at locked);
                      few = r.few;
                      young = rw r.same young;
                    })
            ]
      ])
]

absent→none : (o : Option ℕ) → is_absent o ≡ true → o ≡ none
absent→none none h = refl
absent→none (some n) h = absurd (ground (arith, h))

restart-Sound : (p : Ice) → Sound p → Sound (attempt_ice_restart p)
unfolding attempt_ice_restart
restart-Sound p s = elim (Bool-cases (is_absent p.ice_restarting)) [
  | inr busy ↦ rw (busy, attempt_ice_restart) s
  | inl free ↦
      elim (Bool-cases (leb max_ice_restart_attempts (value_or p.ice_restart_attempts 0))) [
        | inl spent ↦ elim (Bool-cases (is_absent p.retry_timer)) [
          | inl quiet ↦
              rw (free, spent, quiet, attempt_ice_restart)
                (record { locked = s.locked; few = s.few; young = s.young })
          | inr waits ↦ rw (free, spent, waits, attempt_ice_restart) s
        ]
        | inr room ↦
            rw (free, room, attempt_ice_restart)
              (record {
                locked = take-Locked p.generation p.jobs _ refl refl (
                    subst (λ l. Locked p.generation l p.jobs) (absent→none p.ice_restarting free)
                      s.locked);
                few = s.few;
                young = (ground (arith, room), s.young);
              })
      ]
]

offline-Sound : (p : Ice) (gen : ℕ) → Sound p → Sound (mark_offline p gen)
offline-Sound p gen s = elim (Bool-cases (nat_eq p.generation gen)) [
  | inl mine ↦ rw mine (record { locked = s.locked; few = s.few; young = s.young })
  | inr other ↦ rw other s
]

fires-Sound : (p : Ice) (b : Bool) (o : Option ℕ) → Sound p → Sound (fire_retry p b o)
unfolding fire_retry
fires-Sound p b none s = s
fires-Sound p b (some gen) s =
    let fired : Ice = record p { retry_timer = none } in
    let there : Sound fired = record { locked = s.locked; few = s.few; young = s.young } in
    elim (Bool-cases (not (nat_eq p.generation gen) || nat_eq p.network_epoch 0)) [
      | inl stale ↦ rw (stale, fire_retry) there
      | inr current ↦ elim (Bool-cases b) [
        | inl up ↦
            rw (current, up, fire_retry)
              (record { locked = s.locked; few = s.few; young = s.young })
        | inr down ↦
            elim (Bool-cases (leb max_ice_restart_attempts (value_or p.ice_restart_attempts 0))) [
              | inl spent ↦ rw (current, down, spent, fire_retry) (offline-Sound fired gen there)
              | inr room ↦
                  rw (current, down, room, fire_retry)
                    (rw (room, attempt_ice_restart) at (restart-Sound fired there))
            ]
      ]
    ]

at-Sound : (p : Ice) (k : ℕ) (v : View) → Sound p → Sound (resume_at p k v (get_elem? p.jobs k))
at-Sound p k v s = elim (Option-cases (get_elem? p.jobs k)) [
  | inl gone ↦ rw gone s
  | inr (j, at) ↦ rw at (resumes-Sound p k j v at s)
]

abbrev pub is_end : Event → Bool
is_end restarts = false
is_end fires_connected = false
is_end fires = false
is_end recovers = false
is_end cleans = false
is_end bumps = false
is_end ends = true
is_end (connects pc) = false
is_end (listed b) = false
is_end (resumes k v) = false

step-Sound : (p : Ice) (e : Event) → is_end e ≡ false → Sound p → Sound (step p e)
unfolding step
step-Sound p restarts h s = restart-Sound p s
step-Sound p fires_connected h s = fires-Sound p true p.retry_timer s
step-Sound p fires h s = fires-Sound p false p.retry_timer s
step-Sound p recovers h s = record { locked = s.locked; few = omega arith; young = s.young }
step-Sound p cleans h s = record {
  locked = clear-Locked p.generation p.ice_restarting p.jobs s.locked;
  few = omega arith;
  young = s.young;
}
step-Sound p bumps h s = record {
  locked = bump-Locked p.generation p.ice_restarting p.jobs s.locked;
  few = s.few;
  young = s.young;
}
step-Sound p ends h s = absurd (ground (arith, h))
step-Sound p (connects pc) h s = record { locked = s.locked; few = s.few; young = s.young }
step-Sound p (listed b) h s = record { locked = s.locked; few = s.few; young = s.young }
step-Sound p (resumes k v) h s = at-Sound p k v s

run-Sound : (p : Ice) (es : List Event) → any is_end es ≡ false → Sound p → Sound (run p es)
unfolding run
run-Sound p [] h s = s
run-Sound p (e ∷ es) h s = run-Sound (step p e) es (ground arith) (step-Sound p e (ground arith) s)

unknown-Sound : Sound unknown
unknown-Sound = record {
  locked = record {
    owned = λ g h. absurd (ground (arith, h));
    present = λ h. absurd (omega (arith, h));
    past = tt;
  };
  few = omega arith;
  young = tt;
}

-- The restarts that hold the lock: those of the generation that took it.
abbrev pub owners : Ice → Option ℕ → ℕ
owners p none = 1
owners p (some g) = count (is_live g) p.jobs

-- Within one epoch, whatever asks for restarts, whatever replaces the connection and however the
-- restarts are interleaved: at most one restart of the present generation is under way; a lock that
-- is taken is that of exactly one restart under way, so that it is never left behind; and at most
-- five restarts are counted since the last recovery or cleanup.
pub restarts_exclusive :
    (es : List Event)
    → any is_end es ≡ false
    → let p = run unknown es in
      (count (is_live p.generation) p.jobs ≤ 1)
      × (owners p p.ice_restarting ≡ 1)
      × (value_or p.ice_restart_attempts 0 ≤ 5)
restarts_exclusive es one_epoch =
    let p = run unknown es in
    let s = run-Sound unknown es one_epoch unknown-Sound in
    (
      elim (Bool-cases (leb 1 (count (is_live p.generation) p.jobs))) [
        | inl busy ↦
            omega (arith, s.locked.owned p.generation (s.locked.present (ground (arith, busy))))
        | inr idle ↦ ground (arith, idle)
      ],
      elim (Option-cases p.ice_restarting) [
        | inl free ↦ rw free refl
        | inr (g, taken) ↦ rw taken (s.locked.owned g (rw taken (ground arith)))
      ],
      s.few,
    )
