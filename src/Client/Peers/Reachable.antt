-- ===== src/Client/Peers/Reachable.antt =====
-- No connection of a peer is left open out of reach, and no two attempts compete.
use misaka_network.Client.Peers.{
  Peer, Task, Stage, Event, step, run, unknown, until_ready, until_turn, until_keys, until_offer,
  until_answer_turn, until_answer_keys, settling, finished, initiates, cleans, ends, listed, offers,
  resumes, is_held, settle, handle_remote_offer, replace_if, answer_if, initiate_web_rtc,
  abandon_peer_connection, resume_task, end_network_epoch, resume_at, cleanup_peer_connection,
  keep_or_abandon, bump_peer_generation, build_unless, is_peer_generation_attempt_current,
  first_stage, is_peer_connection_attempt_current,
}
use misaka_network.Client.Peers.Placed.{
  Sound, Placed, is_present, is_closed, PcBelow, All-at, bump-Single, All-set_at, epoch-Single,
  build-Placed, start-Single, abandon-Placed, close-Placed, All-map, PcBelow-mono, set-Single,
}
use misaka_network.Common.{
  Bool, Bool-cases, List, Option, Option-cases, [], arith, count, false, get_elem?, inl, inr, none,
  refl, some, subst, true, ℕ, ◌&&◌, ◌+◌, ◌<◌, ◌||◌, ◌∷◌, ◌≡◌, ◌≤◌,
}

cleanup-Sound : (p : Peer) → Sound p → Sound (cleanup_peer_connection p)
unfolding cleanup_peer_connection bump_peer_generation
cleanup-Sound p s = elim (Option-cases p.connection) [
  | inl bare ↦
      rw (bare, cleanup_peer_connection)
        (record {
          placed = subst (λ o. Placed p.next_pc o p.closed) bare s.placed;
          bounded = s.bounded;
          alone = bump-Single p.network_epoch p.generation p.tasks s.alone;
        })
  | inr (pc, has) ↦
      rw (has, cleanup_peer_connection)
        (record {
          placed =
              close-Placed p.next_pc pc p.closed
                (subst (λ o. Placed p.next_pc o p.closed) has s.placed);
          bounded = s.bounded;
          alone = bump-Single p.network_epoch p.generation p.tasks s.alone;
        })
]

first_stage-PcBelow : (n : ℕ) (o : Option ℕ) → PcBelow n (first_stage o)
first_stage-PcBelow n none = tt
first_stage-PcBelow n (some pc) = tt

initiate-Sound : (p : Peer) → Sound p → Sound (initiate_web_rtc p)
unfolding initiate_web_rtc bump_peer_generation
initiate-Sound p s = elim (Bool-cases (is_held p.initiating p.generation)) [
  | inl joins ↦ rw (joins, initiate_web_rtc) s
  | inr starts ↦
      rw (starts, initiate_web_rtc)
        (record {
          placed = s.placed;
          bounded = (first_stage-PcBelow p.next_pc p.connection, s.bounded);
          alone =
              start-Single p.network_epoch p.generation (first_stage p.connection) p.tasks s.alone;
        })
]

ends-Sound : (p : Peer) → Sound p → Sound (end_network_epoch p)
unfolding end_network_epoch cleanup_peer_connection bump_peer_generation
ends-Sound p s = elim (Option-cases p.connection) [
  | inl bare ↦
      rw (bare, end_network_epoch)
        (record {
          placed = subst (λ o. Placed p.next_pc o p.closed) bare s.placed;
          bounded = s.bounded;
          alone = epoch-Single p.network_epoch p.generation p.tasks s.alone;
        })
  | inr (pc, has) ↦
      rw (has, end_network_epoch)
        (record {
          placed =
              close-Placed p.next_pc pc p.closed
                (subst (λ o. Placed p.next_pc o p.closed) has s.placed);
          bounded = s.bounded;
          alone = epoch-Single p.network_epoch p.generation p.tasks s.alone;
        })
]

replace_if-Sound : (o : Option ℕ) (p : Peer) → Sound p → Sound (replace_if o p)
unfolding replace_if
replace_if-Sound none p s = s
replace_if-Sound (some pc) p s = cleanup-Sound p s

answer_if-Sound : (o : Option ℕ) (p : Peer) → Sound p → Sound (answer_if o p)
unfolding answer_if bump_peer_generation
answer_if-Sound none p s = record {
  placed = s.placed;
  bounded = (tt, s.bounded);
  alone = start-Single p.network_epoch p.generation until_answer_turn p.tasks s.alone;
}
answer_if-Sound (some pc) p s = s

listed-Sound : (p : Peer) (b : Bool) → Sound p → Sound (record p { in_roster = b })
listed-Sound p b s = record { placed = s.placed; bounded = s.bounded; alone = s.alone }

offers-Sound : (p : Peer) (b : Bool) → Sound p → Sound (handle_remote_offer p b)
unfolding handle_remote_offer
offers-Sound p true s =
    let kept = replace_if p.connection (record p { in_roster = true }) in
    answer_if-Sound kept.connection kept
      (replace_if-Sound p.connection (record p { in_roster = true }) (listed-Sound p true s))
offers-Sound p false s =
    answer_if-Sound p.connection (record p { in_roster = true }) (listed-Sound p true s)

-- A task that goes on changes what the connection is, and no task but itself.
record Resumed (p : Peer) (r : Peer × Stage) : Type 0 where
  placed : Placed r.0.next_pc r.0.connection r.0.closed
  grows : p.next_pc ≤ r.0.next_pc
  stage : PcBelow r.0.next_pc r.1
  tasks : r.0.tasks ≡ p.tasks
  epoch : r.0.network_epoch ≡ p.network_epoch
  gen : r.0.generation ≡ p.generation

stays-Resumed :
    (p : Peer) (stage : Stage) → Sound p → PcBelow p.next_pc stage → Resumed p (p, stage)
stays-Resumed p stage s below = record {
  placed = s.placed;
  grows = omega arith;
  stage = below;
  tasks = refl;
  epoch = refl;
  gen = refl;
}

built-Resumed :
    (p : Peer) (t : Task) (o : Option ℕ) (next : ℕ → Stage) (over : Stage)
    → p.connection ≡ o
    → Sound p
    → ((pc : ℕ) → PcBelow (pc + 1) (next pc))
    → PcBelow p.next_pc over
    → Resumed p (build_unless p t o next over)
built-Resumed p t (some pc) next over has s fresh ended = stays-Resumed p over s ended
built-Resumed p t none next over has s fresh ended =
    elim (Bool-cases (is_peer_generation_attempt_current p t)) [
      | inl current ↦ rw current (record {
        placed =
            build-Placed p.next_pc p.closed (subst (λ o. Placed p.next_pc o p.closed) has s.placed);
        grows = omega arith;
        stage = fresh p.next_pc;
        tasks = refl;
        epoch = refl;
        gen = refl;
      })
      | inr stale ↦ rw stale (stays-Resumed p over s ended)
    ]

kept-Resumed :
    (p : Peer) (t : Task) (pc : ℕ) (next over : Stage)
    → Sound p
    → pc < p.next_pc
    → PcBelow p.next_pc next
    → PcBelow p.next_pc over
    → Resumed p (keep_or_abandon p t pc next over)
unfolding abandon_peer_connection
kept-Resumed p t pc next over s below on ended =
    elim (Bool-cases (is_peer_connection_attempt_current p t pc)) [
      | inl current ↦ rw current (stays-Resumed p next s on)
      | inr stale ↦ rw stale (record {
        placed = abandon-Placed p.next_pc pc p.connection p.closed below s.placed;
        grows = omega arith;
        stage = ended;
        tasks = refl;
        epoch = refl;
        gen = refl;
      })
    ]

settle-Resumed : (p : Peer) (t : Task) → Sound p → Resumed p (settle p t, finished)
settle-Resumed p t s = elim (Bool-cases (is_held p.initiating t.gen)) [
  | inl mine ↦ rw mine (record {
    placed = s.placed;
    grows = omega arith;
    stage = tt;
    tasks = refl;
    epoch = refl;
    gen = refl;
  })
  | inr other ↦ rw other (stays-Resumed p finished s tt)
]

resume-Resumed :
    (p : Peer) (t : Task) (stage : Stage) (ok : Bool)
    → Sound p
    → PcBelow p.next_pc stage
    → Resumed p (resume_task p t stage ok)
unfolding resume_task
resume-Resumed p t until_ready ok s below =
    elim (Bool-cases (ok && is_peer_generation_attempt_current p t)) [
      | inl on ↦ rw on (stays-Resumed p until_turn s tt)
      | inr off ↦ rw off (stays-Resumed p settling s tt)
    ]
resume-Resumed p t until_turn true s below =
    built-Resumed p t p.connection until_keys settling refl s (λ pc. omega arith) tt
resume-Resumed p t until_turn false s below = stays-Resumed p settling s tt
resume-Resumed p t (until_keys pc) true s below =
    kept-Resumed p t pc (until_offer pc) settling s below below tt
resume-Resumed p t (until_keys pc) false s below = stays-Resumed p settling s tt
resume-Resumed p t (until_offer pc) true s below =
    kept-Resumed p t pc settling settling s below tt tt
resume-Resumed p t (until_offer pc) false s below = stays-Resumed p settling s tt
resume-Resumed p t until_answer_turn true s below =
    built-Resumed p t p.connection until_answer_keys finished refl s (λ pc. omega arith) tt
resume-Resumed p t until_answer_turn false s below = stays-Resumed p finished s tt
resume-Resumed p t (until_answer_keys pc) true s below =
    kept-Resumed p t pc finished finished s below tt tt
resume-Resumed p t (until_answer_keys pc) false s below = stays-Resumed p finished s tt
resume-Resumed p t settling ok s below = settle-Resumed p t s
resume-Resumed p t finished ok s below = stays-Resumed p finished s tt

resumes-Sound :
    (p : Peer) (k : ℕ) (ok : Bool) → Sound p → Sound (resume_at p k ok (get_elem? p.tasks k))
resumes-Sound p k ok s = elim (Option-cases (get_elem? p.tasks k)) [
  | inl gone ↦ rw gone s
  | inr (t, at) ↦
      let below = All-at (λ u. PcBelow p.next_pc u.stage) p.tasks k t at s.bounded in
      let r = resume-Resumed p t t.stage ok s below in
      let next = (resume_task p t t.stage ok).0 in
      let stage = (resume_task p t t.stage ok).1 in
      rw at (record {
        placed = r.placed;
        bounded = rw r.tasks (
            All-set_at (λ u. PcBelow next.next_pc u.stage) p.tasks k (record t { stage = stage })
              r.stage
              (All-map (λ u. PcBelow p.next_pc u.stage) (λ u. PcBelow next.next_pc u.stage) p.tasks
                (λ u. PcBelow-mono p.next_pc next.next_pc u.stage r.grows) s.bounded));
        alone =
            rw (r.tasks, r.epoch, r.gen)
              (set-Single p.network_epoch p.generation p.tasks k t stage at s.alone);
      })
]

step-Sound : (p : Peer) (e : Event) → Sound p → Sound (step p e)
unfolding step
step-Sound p initiates s = initiate-Sound p s
step-Sound p cleans s = cleanup-Sound p s
step-Sound p ends s = ends-Sound p s
step-Sound p (listed b) s = listed-Sound p b s
step-Sound p (offers b) s = offers-Sound p b s
step-Sound p (resumes k ok) s = resumes-Sound p k ok s

run-Sound : (p : Peer) (es : List Event) → Sound p → Sound (run p es)
unfolding run
run-Sound p [] s = s
run-Sound p (e ∷ es) s = run-Sound (step p e) es (step-Sound p e s)

unknown-Sound : Sound unknown
unknown-Sound = record {
  placed = record {
    accounted = λ d h. absurd (omega (arith, h));
    opened = λ d h. refl;
    made = λ d h. absurd (ground (arith, h));
  };
  bounded = tt;
  alone = record { past = tt; single = omega arith };
}

-- Whatever attempts, offers, cleanups and ends of the epoch there are for a peer, and however the
-- work between them is interleaved and fails: every connection that was ever built for it is either
-- closed or the one in the map, so that a cleanup reaches it; the one in the map is not closed; and
-- at most one attempt is of the present epoch and generation.
pub no_connection_leaks :
    (es : List Event) (pc : ℕ)
    → pc < (run unknown es).next_pc
    → let p = run unknown es in
      ((is_closed p pc || is_held p.connection pc) ≡ true)
      × ((is_closed p pc && is_held p.connection pc) ≡ false)
      × (count (is_present p.network_epoch p.generation) p.tasks ≤ 1)
no_connection_leaks es pc made =
    let s = run-Sound unknown es unknown-Sound in
    let p = run unknown es in
    (
      s.placed.accounted pc made,
      elim (Bool-cases (is_held p.connection pc)) [
        | inl held ↦ ground (arith, held, s.placed.opened pc held)
        | inr free ↦ ground (arith, free)
      ],
      s.alone.single,
    )
