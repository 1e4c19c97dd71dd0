-- ===== src/Server/Guard/Lockout/Shut.antt =====
-- server/src/http.ts, cleanup.ts: what each operation leaves of a lock that is engaged.
use misaka_network.Common.{
  Bool-cases, Option, Option-cases, String, ap, arith, beq→eq, false, inl, inr, ltb, nat_eq_iff,
  nat_keys, none, refl, some, string_keys, subst, suc, sym, true, zero, ℕ, ◌+◌, ◌<◌, ◌==◌, ◌∙◌, ◌≡◌,
  ◌≤◌, ◌⊎◌,
}
use misaka_network.Common.Dict
use misaka_network.Common.Dict.{Dict, get-put, get-put_self, get-remove, get-prune_kept}
use misaka_network.Server.Guard.{
  Limits, Guard, AttemptKey, AttemptLock, attempt_keys, charge, hold_lock, bump, lock_at, open_lock,
  record_failed_passcode_attempt, new_lock, sweep_guard, is_node_frozen, lock_is_stale,
}
use misaka_network.Server.Guard.Locks.{fresh_charge, held_charge}
use misaka_network.Server.Sessions.{Session}
use misaka_network.Server.Admission.{Server, Digests, Drawn}
use misaka_network.Server.Admission.Replace.{
  reject_proof, accept_proof, replace, frozen_owner, count_failure, key_of, captured, or_zero,
  locked_at, lock_until, moves_to_full,
}

abbrev pub opened : Guard → (Guard × Option ℕ) ⊎ ℕ → Guard
opened g (inl (after, lock)) = after
opened g (inr until) = g

module _ (cfg : Limits) (key : AttemptKey) (until : ℕ) where
  -- The map has the attempter's lock, which is none of those to come, and it is not over before.
  pub record Holds (g : Guard) : Type 0 where
    ref : ℕ
    there : Dict.get g.attempt_locks key ≡ some ref
    old : ref < g.next_lock
    shut : until ≤ (lock_at g ref).locked_until

  bumped-Holds :
      (g : Guard) (ref : ℕ) (lock : AttemptLock) (now : ℕ)
      → lock ≡ lock_at g ref
      → until ≤ now + cfg.lock_duration_ms
      → Holds g
      → Holds (record g { lock_objects = Dict.put g.lock_objects ref (bump cfg now lock) })
  unfolding bump
  bumped-Holds g ref lock now same soon h = record {
    ref = h.ref;
    there = h.there;
    old = h.old;
    shut = ground (
      arith,
      h.shut,
      get-put g.lock_objects ref h.ref (bump cfg now lock),
      nat_eq_iff ref h.ref,
      ap (λ l. l.locked_until) same,
      ap (λ r. (lock_at g r).locked_until) {x = ref} {y = h.ref},
    );
  }

  hold_lock-Holds :
      (g : Guard) (k : AttemptKey) (found : Option ℕ) (now : ℕ)
      → (found ≡ none → (k == key) ≡ false)
      → Holds g
      → Holds (hold_lock g k found now).0
  unfolding hold_lock
  hold_lock-Holds g k (some ref) now other h = h
  hold_lock-Holds g k none now other h = record {
    ref = h.ref;
    there = ground (arith, h.there, other refl, get-put g.attempt_locks k key g.next_lock);
    old = omega (arith, h.old);
    shut = ground (
      arith,
      h.shut,
      h.old,
      get-put g.lock_objects g.next_lock h.ref (new_lock now),
      nat_eq_iff g.next_lock h.ref,
    );
  }

  -- What leaves the locks alone.
  same-Holds :
      (g after : Guard)
      → after.attempt_locks ≡ g.attempt_locks
      → after.lock_objects ≡ g.lock_objects
      → after.next_lock ≡ g.next_lock
      → Holds g
      → Holds after
  same-Holds g after m o n h = record {
    ref = h.ref;
    there = rw m h.there;
    old = rw n h.old;
    shut = rw o h.shut;
  }

  pub removed-Holds :
      (g : Guard) (k : AttemptKey)
      → (k == key) ≡ false
      → Holds g
      → Holds (record g { attempt_locks = Dict.remove g.attempt_locks k })
  removed-Holds g k other h = record {
    ref = h.ref;
    there = ground (arith, h.there, other, get-remove g.attempt_locks k key);
    old = h.old;
    shut = h.shut;
  }

  pub opened-Holds :
      (g : Guard) (k : AttemptKey) (now : ℕ)
      → now < until
      → Holds g
      → Holds (opened g (open_lock g k now))
  unfolding open_lock
  opened-Holds g k now before h = elim (Option-cases (Dict.get g.attempt_locks k)) [
    | inl nothing ↦ rw (nothing, open_lock) h
    | inr (ref, found) ↦ elim (Bool-cases (ltb now (lock_at g ref).locked_until)) [
      | inl shut ↦ rw (found, open_lock, shut) h
      | inr over ↦ elim (Bool-cases (ltb 0 (lock_at g ref).locked_until)) [
        | inr never ↦ rw (found, open_lock, over, never) h
        | inl once ↦
            rw (found, open_lock, over, once)
              (removed-Holds g k
                (ground (
                  arith,
                  attempt_keys.beq_iff k key,
                  found,
                  h.there,
                  h.shut,
                  before,
                  over,
                  ap (λ x. Dict.get g.attempt_locks x) {x = k} {y = key},
                  ap (λ r. (lock_at g r).locked_until) {x = ref} {y = h.ref},
                ))
                h)
      ]
    ]
  ]

  pub guessed-Holds :
      (g : Guard) (k : AttemptKey) (found : Option ℕ) (now : ℕ)
      → (found ≡ none → (k == key) ≡ false)
      → until ≤ now + cfg.lock_duration_ms
      → Holds g
      → Holds (charge cfg g k found now).0
  unfolding charge record_failed_passcode_attempt
  guessed-Holds g k found now other soon h =
      let held = hold_lock g k found now in
      same-Holds _ _ refl refl refl (
        bumped-Holds held.0 held.1 (lock_at held.0 held.1) now refl soon
          (hold_lock-Holds g k found now other h))

  pub swept-Holds : (g : Guard) (now : ℕ) → now < until → Holds g → Holds (sweep_guard cfg g now)
  unfolding sweep_guard
  swept-Holds g now before h = record {
    ref = h.ref;
    there =
        get-prune_kept (λ _ ref. lock_is_stale cfg g now ref) g.attempt_locks key
          (λ v found. ground (
            arith,
            found,
            h.there,
            h.shut,
            before,
            ap (λ r. (lock_at g r).locked_until) {x = v} {y = h.ref},
          ))
        ∙ h.there;
    old = h.old;
    shut = h.shut;
  }

  frozen_owner-objects :
      (g : Guard) (node_id now : ℕ)
      → (frozen_owner cfg g node_id now).0.lock_objects ≡ g.lock_objects
  unfolding frozen_owner is_node_frozen
  frozen_owner-objects g zero now = refl
  frozen_owner-objects g (suc n) now = ground arith

  frozen_owner-Holds :
      (g : Guard) (node_id now : ℕ) → Holds g → Holds (frozen_owner cfg g node_id now).0
  unfolding frozen_owner is_node_frozen
  frozen_owner-Holds g zero now h = h
  frozen_owner-Holds g (suc n) now h =
      same-Holds g _ (ground arith) (frozen_owner-objects g (suc n) now) (ground arith) h

  counted-Holds :
      (g : Guard) (node_id : ℕ) (ip : String) (now : ℕ)
      → Holds g
      → Holds (count_failure cfg g node_id ip now).0
  unfolding count_failure record_failed_passcode_attempt
  counted-Holds g zero ip now h = h
  counted-Holds g (suc n) ip now h = same-Holds g _ refl refl refl h

  -- The attempter has a lock in the map, so a lock that is made anew is another's.
  another : (g : Guard) (k : AttemptKey) → Holds g → captured g k ≡ none → (k == key) ≡ false
  another g k h nothing = ground (
    arith,
    attempt_keys.beq_iff k key,
    nothing,
    h.there,
    ap (λ x. Dict.get g.attempt_locks x) {x = k} {y = key},
  )

  pub rejected-Holds :
      (sv : Server) (owner : Option ℕ) (ip : String) (now : ℕ)
      → until ≤ now + cfg.lock_duration_ms
      → Holds sv.guard
      → Holds (reject_proof cfg sv owner ip now).0.guard
  unfolding reject_proof
  rejected-Holds sv owner ip now soon h =
      let node_id = or_zero owner in
      let k = key_of ip node_id in
      let found = captured sv.guard k in
      let (held, ref) = hold_lock sv.guard k found now in
      let held_h : Holds held = hold_lock-Holds sv.guard k found now (another sv.guard k h) h in
      let checked = frozen_owner cfg held node_id now in
      let checked_h = frozen_owner-Holds held node_id now held_h in
      let same : lock_at held ref ≡ lock_at checked.0 ref =
        ap (λ m. lock_at (record held { lock_objects = m }) ref)
          (sym (frozen_owner-objects held node_id now)) in
      elim (Bool-cases (ltb now (lock_at held ref).locked_until)) [
        | inl shut ↦ rw (shut, reject_proof) held_h
        | inr free ↦ elim (Option-cases checked.1) [
          | inr (u, frozen) ↦ rw (free, reject_proof, frozen) checked_h
          | inl warm ↦
              rw (free, reject_proof, warm)
                (counted-Holds _ node_id ip now
                  (bumped-Holds checked.0 ref (lock_at held ref) now same soon checked_h))
        ]
      ]

  pub accepted-Holds :
      (digests : Digests) (sv : Server) (old : Session) (drawn : Drawn) (ip : String) (now : ℕ)
      → now < until
      → Holds sv.guard
      → Holds (accept_proof cfg digests sv old drawn ip now).0.guard
  unfolding accept_proof replace
  accepted-Holds digests sv old drawn ip now before h =
      let k = key_of ip old.node_id in
      elim (Bool-cases (k == key)) [
        | inl own ↦
            let mine : locked_at sv ip old.node_id ≡ (lock_at sv.guard h.ref).locked_until =
              ap (lock_until sv.guard) (
                subst (λ x. Dict.get sv.guard.attempt_locks x ≡ some h.ref) (sym (beq→eq k key own))
                  h.there) in
            let shut : ltb now (locked_at sv ip old.node_id) ≡ true =
              ground (arith, mine, h.shut, before) in
            rw (shut, accept_proof) h
        | inr other ↦ elim (Bool-cases (ltb now (locked_at sv ip old.node_id))) [
          | inl shut ↦ rw (shut, accept_proof) h
          | inr free ↦ elim (Bool-cases (moves_to_full cfg sv old ip)) [
            | inl full ↦ rw (free, accept_proof, full) h
            | inr room ↦ rw (free, accept_proof, room) (removed-Holds sv.guard k other h)
          ]
        ]
      ]

  pub refused_before :
      (g : Guard) (now : ℕ)
      → now < until
      → Holds g
      → (u : ℕ) × (until ≤ u) × (open_lock g key now ≡ inr u)
  unfolding open_lock
  refused_before g now before h =
      ((lock_at g h.ref).locked_until, h.shut, ground (arith, h.there, h.shut, before))

  pub charged-Holds :
      (g : Guard) (t : ℕ)
      → ((ref : ℕ) → Dict.get g.attempt_locks key ≡ some ref → ref < g.next_lock)
      → cfg.max_attempts ≤ (charge cfg g key (captured g key) t).1.attempts
      → until ≤ t + cfg.lock_duration_ms
      → Holds (charge cfg g key (captured g key) t).0
  unfolding charge record_failed_passcode_attempt hold_lock bump
  charged-Holds g t old limit soon = elim (Option-cases (captured g key)) [
    | inl nothing ↦
        let after = fresh_charge cfg g key t in
        let enough : cfg.max_attempts ≤ (charge cfg g key none t).1.attempts =
          rw nothing at limit in
        rw nothing (record {
          ref = g.next_lock;
          there = after.0;
          old = omega arith;
          shut = ground (
            arith,
            ap (λ l. l.locked_until) after.1,
            enough,
            soon,
            get-put_self g.lock_objects g.next_lock (new_lock t),
          );
        })
    | inr (ref, there) ↦
        let after = held_charge cfg g key t ref there in
        let enough : cfg.max_attempts ≤ (charge cfg g key (some ref) t).1.attempts =
          rw there at limit in
        rw there (record {
          ref = ref;
          there = after.0;
          old = old ref there;
          shut = ground (arith, ap (λ l. l.locked_until) after.1, enough, soon);
        })
  ]
