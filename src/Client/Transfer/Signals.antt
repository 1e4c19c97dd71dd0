-- ===== src/Client/Transfer/Signals.antt =====
-- client/src/lib/transfer/flow-control.ts: the control signals of the transfers, and the promises
-- and the abort controllers that wait on them.
pub mod Woken
use misaka_network.Common.{
  Bool, List, Option, String, [], false, if◌then◌else◌, nat_eq, none, some, string_keys, true, ℕ,
  ◌++◌, ◌∷◌,
}
use misaka_network.Common.Dict.{Dict, get, put, remove, modify, has}

-- `notify_resume` is the chain of the promises that the closure resolves, the oldest first; the
-- slot `buffer_abort` holds one controller.
pub record TransferSignal : Type 0 where
  pub paused : Bool
  pub cancelled : Bool
  pub notify_resume : List ℕ
  pub buffer_abort : Option ℕ

-- The map, with the promises that have been resolved and the controllers that have been aborted.
pub record Flow : Type 0 where
  pub transfer_signals : Dict String TransferSignal
  pub resolved : List ℕ
  pub aborted : List ℕ

abbrev pub fresh_signal : TransferSignal
fresh_signal = record { paused = false; cancelled = false; notify_resume = []; buffer_abort = none }

abbrev pub write_signal : Flow → String → (TransferSignal → TransferSignal) → Flow
write_signal f id g = record f { transfer_signals = modify f.transfer_signals id g }

abbrev pub resolve : Flow → List ℕ → Flow
resolve f promises = record f { resolved = f.resolved ++ promises }

unfoldable pub get_signal : Flow → String → Flow
get_signal f id =
    if has f.transfer_signals id
    then f
    else record f { transfer_signals = put f.transfer_signals id fresh_signal }

abbrev pub park : ℕ → TransferSignal → TransferSignal
park promise s = record s { notify_resume = s.notify_resume ++ (promise ∷ []) }

abbrev pub park_if_paused : Flow → String → ℕ → Option TransferSignal → Flow
park_if_paused f id promise none = resolve f (promise ∷ [])
park_if_paused f id promise (some s) =
    if s.paused then write_signal f id (park promise) else resolve f (promise ∷ [])

unfoldable pub wait_while_paused : Flow → String → ℕ → Flow
wait_while_paused f id promise = park_if_paused f id promise (get f.transfer_signals id)

unfoldable pub pause_transfer : Flow → String → Flow
unfolding get_signal
pause_transfer f id = write_signal (get_signal f id) id (λ s. record s { paused = true })

abbrev pub promises_of : Option TransferSignal → List ℕ
promises_of none = []
promises_of (some s) = s.notify_resume

-- What `resumeTransfer` and `cancelTransfer` share: the closure is taken, then called.
unfoldable pub notify : Flow → String → (TransferSignal → TransferSignal) → Flow
notify f id g =
    resolve
      (write_signal f id (λ s. let s1 = g s in record s1 { paused = false; notify_resume = [] }))
      (promises_of (get f.transfer_signals id))

unfoldable pub resume_transfer : Flow → String → Flow
unfolding notify get_signal
resume_transfer f id = notify (get_signal f id) id (λ s. s)

abbrev pub abort_held : Flow → String → Option ℕ → Flow
abort_held f id none = f
abort_held f id (some controller) =
    record (write_signal f id (λ s. record s { buffer_abort = none })) {
      aborted = controller ∷ f.aborted;
    }

abbrev pub held : Option TransferSignal → Option ℕ
held none = none
held (some s) = s.buffer_abort

unfoldable pub abort_buffer_waits : Flow → String → Flow
abort_buffer_waits f id = abort_held f id (held (get f.transfer_signals id))

unfoldable pub cancel_transfer : Flow → String → Flow
unfolding notify get_signal abort_buffer_waits
cancel_transfer f id =
    abort_buffer_waits (notify (get_signal f id) id (λ s. record s { cancelled = true })) id

unfoldable pub clear_transfer_signal : Flow → String → Flow
clear_transfer_signal f id = record f { transfer_signals = remove f.transfer_signals id }

-- The drain of a lane in send-engine.ts writes its controller before it waits for the buffer.
unfoldable pub hold_controller : Flow → String → ℕ → Flow
unfolding get_signal
hold_controller f id controller =
    write_signal (get_signal f id) id (λ s. record s { buffer_abort = some controller })

abbrev pub let_go : ℕ → TransferSignal → TransferSignal
let_go controller s = elim s.buffer_abort [
  | none ↦ s
  | some c ↦ if nat_eq c controller then record s { buffer_abort = none } else s
]

-- And takes it off afterwards, where it is still there.
unfoldable pub release_controller : Flow → String → ℕ → Flow
release_controller f id controller = write_signal f id (let_go controller)

-- One call.
pub data Call : Type 0 where
  wait hold release : String → ℕ → Call
  pause resume cancel abort clear : String → Call

unfoldable pub step : Flow → Call → Flow
unfolding wait_while_paused pause_transfer resume_transfer cancel_transfer abort_buffer_waits
    clear_transfer_signal hold_controller release_controller
step f (wait id promise) = wait_while_paused f id promise
step f (hold id controller) = hold_controller f id controller
step f (release id controller) = release_controller f id controller
step f (pause id) = pause_transfer f id
step f (resume id) = resume_transfer f id
step f (cancel id) = cancel_transfer f id
step f (abort id) = abort_buffer_waits f id
step f (clear id) = clear_transfer_signal f id

unfoldable pub run : Flow → List Call → Flow
unfolding step
run f [] = f
run f (c ∷ cs) = run (step f c) cs
