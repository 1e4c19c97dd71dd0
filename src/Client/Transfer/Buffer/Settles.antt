-- ===== src/Client/Transfer/Buffer/Settles.antt =====
-- No wait for a channel lasts for ever.
use misaka_network.Common.{
  Bool, Bool-cases, List, [], arith, false, inl, inr, leb, ltb, not, refl, true, ℕ, ◌*◌, ◌+◌, ◌-◌,
  ◌<◌, ◌||◌, ◌∷◌, ◌≡◌, ◌≤◌,
}
use misaka_network.Client.Transfer.Buffer.{
  Wait, waiting, settled, Outcome, resolved, timed_out, WaitEvent, low, dead, abort, poll, on_event,
  run_wait, wait_for_buffer, high_water_mark, aborted,
}

abbrev pub is_settled : Wait → Bool
is_settled (waiting last deadline) = false
is_settled (settled o) = true

abbrev is_poll : WaitEvent → Bool
is_poll low = false
is_poll dead = false
is_poll abort = false
is_poll (poll now is_open amount) = true

-- The polls come one after the other, each later than the one before.
abbrev pub Rising : ℕ → List WaitEvent → Type 0
Rising before [] = Unit
Rising before (low ∷ es) = Rising before es
Rising before (dead ∷ es) = Rising before es
Rising before (abort ∷ es) = Rising before es
Rising before (poll now is_open amount ∷ es) = (before < now) × Rising now es

stays : (t : ℕ) (o : Outcome) (es : List WaitEvent) → run_wait t (settled o) es ≡ settled o
unfolding run_wait on_event
stays t o [] = refl
stays t o (e ∷ es) = stays t o es

abbrev pub polls : List WaitEvent → ℕ
polls [] = 0
polls (low ∷ es) = polls es
polls (dead ∷ es) = polls es
polls (abort ∷ es) = polls es
polls (poll now is_open amount ∷ es) = 1 + polls es

-- How many polls a wait has left: those until its deadline, and a whole round for each byte above
-- the mark.
abbrev rounds : ℕ → ℕ → ℕ → ℕ → ℕ
rounds t last deadline before = (last - high_water_mark) * (t + 1) + (deadline - before)

rounds_fall : (a l t : ℕ) → a < l → a * (t + 1) + (t + 1) ≤ l * (t + 1)
rounds_fall a l t h = grind arith

waits_end :
    (t last deadline before : ℕ) (es : List WaitEvent)
    → deadline ≤ before + t
    → Rising before es
    → rounds t last deadline before < polls es
    → is_settled (run_wait t (waiting last deadline) es) ≡ true
unfolding run_wait on_event
waits_end t last deadline before [] d r enough = absurd (omega (arith, enough))
waits_end t last deadline before (low ∷ es) d r enough = rw (stays t resolved es) refl
waits_end t last deadline before (dead ∷ es) d r enough = rw (stays t resolved es) refl
waits_end t last deadline before (abort ∷ es) d r enough = rw (stays t aborted es) refl
waits_end t last deadline before (poll now is_open amount ∷ es) d r enough =
    elim (Bool-cases (not is_open || leb amount high_water_mark)) [
      | inl drained ↦ rw (drained, run_wait, stays t resolved es) refl
      | inr full ↦ elim (Bool-cases (ltb amount last)) [
        | inl progress ↦
            rw (full, run_wait, progress)
              (waits_end t amount (now + t) now es (omega arith) r.1 (
                omega (
                  arith,
                  enough,
                  rounds_fall (amount - high_water_mark) (last - high_water_mark) t
                      (ground (arith, full, progress)),
                )))
        | inr stuck ↦ elim (Bool-cases (leb deadline now)) [
          | inl late ↦ rw (full, run_wait, stuck, late, stays t timed_out es) refl
          | inr early ↦
              rw (full, run_wait, stuck, early)
                (waits_end t last deadline now es (omega (arith, d, r.0)) r.1
                  (ground (arith, enough, r.0)))
        ]
      ]
    ]

-- A wait that starts at some time is over after a number of polls, whatever the channel does: with
-- `t` milliseconds without progress allowed, after `t + 1` of them for each byte above the high
-- water mark and `t + 1` more, at the latest.
pub wait_for_buffer_ends :
    (t now amount : ℕ) (is_open is_aborted : Bool) (es : List WaitEvent)
    → Rising now es
    → (amount - high_water_mark + 1) * (t + 1) ≤ polls es
    → is_settled (run_wait t (wait_for_buffer t now is_open amount is_aborted) es) ≡ true
unfolding wait_for_buffer
wait_for_buffer_ends t now amount is_open is_aborted es r enough =
    elim (Bool-cases (not is_open || leb amount high_water_mark)) [
      | inl drained ↦ rw (drained, wait_for_buffer, stays t resolved es) refl
      | inr full ↦ elim (Bool-cases is_aborted) [
        | inl gone ↦ rw (full, wait_for_buffer, gone, stays t aborted es) refl
        | inr here ↦
            rw (full, wait_for_buffer, here)
              (waits_end t amount (now + t) now es (omega arith) r (
                omega (
                  arith,
                  enough,
                  rounds_fall (amount - high_water_mark) (amount - high_water_mark + 1) t
                      (omega arith),
                )))
      ]
    ]
