-- ===== src/Client/Transfer/Buffer.antt =====
-- client/src/lib/transfer/flow-control.ts: waitForBuffer, the wait of a lane for a channel to drain.
pub mod Settles
use misaka_network.Common.{Bool, List, [], if◌then◌else◌, leb, ltb, not, ℕ, ◌*◌, ◌+◌, ◌||◌, ◌∷◌}

abbrev pub high_water_mark : ℕ
high_water_mark = 8 * 1024 * 1024

pub data Outcome : Type 0 where
  resolved aborted timed_out : Outcome

-- The promise: its no-progress deadline and the amount that was last seen, or how it has settled.
pub data Wait : Type 0 where
  waiting : ℕ → ℕ → Wait
  settled : Outcome → Wait

-- What the listeners and the interval report: `bufferedamountlow`, a close or an error, an abort,
-- and a poll at a time, with whether the channel is open and with its buffered amount.
pub data WaitEvent : Type 0 where
  low dead abort : WaitEvent
  poll : ℕ → Bool → ℕ → WaitEvent

-- The check of the first call.
unfoldable pub wait_for_buffer : ℕ → ℕ → Bool → ℕ → Bool → Wait
wait_for_buffer no_progress_ms now is_open amount is_aborted =
    if not is_open || leb amount high_water_mark
    then settled resolved
    else if is_aborted
    then settled aborted
    else waiting amount (now + no_progress_ms)

abbrev pub on_poll : ℕ → ℕ → ℕ → ℕ → Bool → ℕ → Wait
on_poll no_progress_ms last deadline now is_open amount =
    if not is_open || leb amount high_water_mark
    then settled resolved
    else if ltb amount last
    then waiting amount (now + no_progress_ms)
    else if leb deadline now
    then settled timed_out
    else waiting last deadline

unfoldable pub on_event : ℕ → Wait → WaitEvent → Wait
on_event no_progress_ms (settled o) e = settled o
on_event no_progress_ms (waiting last deadline) low = settled resolved
on_event no_progress_ms (waiting last deadline) dead = settled resolved
on_event no_progress_ms (waiting last deadline) abort = settled aborted
on_event no_progress_ms (waiting last deadline) (poll now is_open amount) =
    on_poll no_progress_ms last deadline now is_open amount

unfoldable pub run_wait : ℕ → Wait → List WaitEvent → Wait
unfolding on_event
run_wait no_progress_ms w [] = w
run_wait no_progress_ms w (e ∷ es) = run_wait no_progress_ms (on_event no_progress_ms w e) es
