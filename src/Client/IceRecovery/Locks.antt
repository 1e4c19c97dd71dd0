-- ===== src/Client/IceRecovery/Locks.antt =====
-- The lock of the restarts and the jobs that take it.
use misaka_network.Common.{
  All, Bool, Bool-cases, List, Option, [], arith, count, false, get_elem?, if◌then◌else◌, inl, inr,
  leb, nat_eq, nat_eq_iff, none, not, refl, set, some, subst, suc, sym, true, zero, ℕ, ◌&&◌, ◌+◌,
  ◌∙◌, ◌∷◌, ◌≡◌, ◌≤◌,
}
use misaka_network.Client.IceRecovery.{Job, Stage, finished, is_held, is_finished}

-- A restart of a generation that has not finished.
abbrev pub is_live : ℕ → Job → Bool
is_live g j = nat_eq j.gen g && not (is_finished j.stage)

pub record Locked (gen : ℕ) (lock : Option ℕ) (jobs : List Job) : Type 0 where
  pub owned : (g : ℕ) → is_held lock g ≡ true → count (is_live g) jobs ≡ 1
  pub present : 1 ≤ count (is_live gen) jobs → is_held lock gen ≡ true
  pub past : All (λ j. j.gen ≤ gen) jobs

pub All-raise :
    (m n : ℕ) (jobs : List Job) → m ≤ n → All (λ j. j.gen ≤ m) jobs → All (λ j. j.gen ≤ n) jobs
All-raise m n [] h a = tt
All-raise m n (j ∷ jobs) h a = (omega (arith, h, a.0), All-raise m n jobs h a.1)

pub count-past :
    (gen : ℕ) (jobs : List Job) → All (λ j. j.gen ≤ gen) jobs → count (is_live (gen + 1)) jobs ≡ 0
count-past gen [] h = refl
count-past gen (j ∷ jobs) h = ground (arith, h.0, count-past gen jobs h.1)

pub bump-Locked :
    (gen : ℕ) (lock : Option ℕ) (jobs : List Job)
    → Locked gen lock jobs
    → Locked (gen + 1) lock jobs
bump-Locked gen lock jobs s = record {
  owned = s.owned;
  present = λ h. absurd (omega (arith, h, count-past gen jobs s.past));
  past = All-raise gen (gen + 1) jobs (omega arith) s.past;
}

pub clear-Locked :
    (gen : ℕ) (lock : Option ℕ) (jobs : List Job)
    → Locked gen lock jobs
    → Locked (gen + 1) none jobs
clear-Locked gen lock jobs s = record {
  owned = λ g h. absurd (ground arith);
  present = λ h. absurd (omega (arith, h, count-past gen jobs s.past));
  past = All-raise gen (gen + 1) jobs (omega arith) s.past;
}

pub take-Locked :
    (gen : ℕ) (jobs : List Job) (j : Job)
    → j.gen ≡ gen
    → is_finished j.stage ≡ false
    → Locked gen none jobs
    → Locked gen (some gen) (j ∷ jobs)
take-Locked gen jobs j own live s =
    let free : count (is_live gen) jobs ≡ 0 = elim (Bool-cases (leb 1 (count (is_live gen) jobs))) [
      | inl busy ↦ absurd (ground (arith, busy, s.present))
      | inr idle ↦ ground (arith, idle)
    ] in
    record {
      owned = λ g h.
          let e : gen ≡ g = (nat_eq_iff gen g).0 h in
          subst (λ x. count (is_live x) (j ∷ jobs) ≡ 1) e (ground (arith, own, live, free));
      present = λ h. ground arith;
      past = (omega (arith, own), s.past);
    }

pub count-kept :
    (g : ℕ) (jobs : List Job) (k : ℕ) (j : Job) (stage : Stage)
    → get_elem? jobs k ≡ some j
    → is_finished stage ≡ is_finished j.stage
    → count (is_live g) (set jobs k (record j { stage = stage })) ≡ count (is_live g) jobs
count-kept g [] k j stage at same = refl
count-kept g (x ∷ jobs) zero j stage at same =
    let here : x ≡ j = ground (arith, at) in rw (here, same) refl
count-kept g (x ∷ jobs) (suc k) j stage at same =
    ground (arith, count-kept g jobs k j stage at same)

pub count-finish :
    (g : ℕ) (jobs : List Job) (k : ℕ) (j : Job)
    → get_elem? jobs k ≡ some j
    → is_finished j.stage ≡ false
    → count (is_live g) (set jobs k (record j { stage = finished }))
        + (if nat_eq j.gen g then 1 else 0)
      ≡ count (is_live g) jobs
count-finish g [] k j at live = absurd (ground (arith, at))
count-finish g (x ∷ jobs) zero j at live =
    let here : x ≡ j = ground (arith, at) in rw here (ground (arith, live))
count-finish g (x ∷ jobs) (suc k) j at live = ground (arith, count-finish g jobs k j at live)

pub All-set_gen :
    (gen : ℕ) (jobs : List Job) (k : ℕ) (j : Job) (stage : Stage)
    → get_elem? jobs k ≡ some j
    → All (λ x. x.gen ≤ gen) jobs
    → All (λ x. x.gen ≤ gen) (set jobs k (record j { stage = stage }))
All-set_gen gen [] k j stage at h = tt
All-set_gen gen (x ∷ jobs) zero j stage at h =
    let here : x ≡ j = ground (arith, at) in (subst (λ y. y.gen ≤ gen) here h.0, h.1)
All-set_gen gen (x ∷ jobs) (suc k) j stage at h = (h.0, All-set_gen gen jobs k j stage at h.1)

-- A job that goes on, and one that ends and releases its lock.
pub kept-Locked :
    (gen : ℕ) (lock : Option ℕ) (jobs : List Job) (k : ℕ) (j : Job) (stage : Stage)
    → get_elem? jobs k ≡ some j
    → is_finished j.stage ≡ false
    → is_finished stage ≡ false
    → Locked gen lock jobs
    → Locked gen lock (set jobs k (record j { stage = stage }))
kept-Locked gen lock jobs k j stage at live on s = record {
  owned = λ g h. count-kept g jobs k j stage at (on ∙ sym live) ∙ s.owned g h;
  present =
      λ h. s.present (subst (λ n. 1 ≤ n) (count-kept gen jobs k j stage at (on ∙ sym live)) h);
  past = All-set_gen gen jobs k j stage at s.past;
}

pub ended-Locked :
    (gen : ℕ) (lock : Option ℕ) (jobs : List Job) (k : ℕ) (j : Job)
    → get_elem? jobs k ≡ some j
    → is_finished j.stage ≡ false
    → Locked gen lock jobs
    → Locked gen
        (if is_held lock j.gen then none else lock)
        (set jobs k (record j { stage = finished }))
ended-Locked gen none jobs k j at live s = record {
  owned = λ g h. absurd (ground arith);
  present = λ h. s.present (omega (arith, h, count-finish gen jobs k j at live));
  past = All-set_gen gen jobs k j finished at s.past;
}
ended-Locked gen (some m) jobs k j at live s = elim (Bool-cases (nat_eq m j.gen)) [
  | inl mine ↦ rw mine (record {
    owned = λ g h. absurd (ground arith);
    present = λ h.
        let before = s.present (omega (arith, h, count-finish gen jobs k j at live)) in
        absurd
          (ground (arith, mine, before, s.owned gen before, count-finish gen jobs k j at live, h));
    past = All-set_gen gen jobs k j finished at s.past;
  })
  | inr other ↦ rw other (record {
    owned = λ g h. ground (arith, other, h, s.owned g h, count-finish g jobs k j at live);
    present = λ h. s.present (omega (arith, h, count-finish gen jobs k j at live));
    past = All-set_gen gen jobs k j finished at s.past;
  })
]
