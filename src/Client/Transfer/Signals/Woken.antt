-- ===== src/Client/Transfer/Signals/Woken.antt =====
-- No lane that is parked stays so.
use misaka_network.Client.Transfer.Signals.{
  step, run, TransferSignal, Flow, get_signal, notify, Call, write_signal, wait, hold, release,
  pause, resume, cancel, abort, clear, fresh_signal, resume_transfer, let_go, wait_while_paused,
  abort_buffer_waits, promises_of, clear_transfer_signal, cancel_transfer, park, pause_transfer,
  held, hold_controller, release_controller,
}
use misaka_network.Common.{
  Bool, Bool-cases, List, Option, Option-cases, String, [], any, any-append, ap, arith, beq_self,
  beq→eq, false, if◌then◌else◌, inl, inr, nat_eq, none, refl, some, string_keys, sym, true, ℕ, ◌&&◌,
  ◌++◌, ◌==◌, ◌||◌, ◌∙◌, ◌∷◌, ◌≡◌,
}
use misaka_network.Common.Dict.{apply_some, get-modify, get-put, get-remove, has, get, Dict}

abbrev is_in : ℕ → List ℕ → Bool
is_in promise l = any (λ x. nat_eq x promise) l

abbrev pub is_resolved : Flow → ℕ → Bool
is_resolved f promise = is_in promise f.resolved

abbrev is_parked_in : Option TransferSignal → ℕ → Bool
is_parked_in none promise = false
is_parked_in (some s) promise = s.paused && is_in promise s.notify_resume

-- Among the promises of a transfer that is paused.
abbrev pub is_parked : Flow → String → ℕ → Bool
is_parked f id promise = is_parked_in (get f.transfer_signals id) promise

abbrev is_known : Flow → String → ℕ → Bool
is_known f id promise = is_resolved f promise || is_parked f id promise

abbrev is_clear : String → Call → Bool
is_clear id (wait j promise) = false
is_clear id (hold j controller) = false
is_clear id (release j controller) = false
is_clear id (pause j) = false
is_clear id (resume j) = false
is_clear id (cancel j) = false
is_clear id (abort j) = false
is_clear id (clear j) = j == id

abbrev pub clears : String → List Call → Bool
clears id cs = any (is_clear id) cs

has-none : (m : Dict String TransferSignal) (id : String) → has m id ≡ false → get m id ≡ none
unfolding has
has-none m id h = elim (Option-cases (get m id)) [
  | inl none_there ↦ none_there
  | inr (s, there) ↦ absurd (ground (arith, there))
]

get_signal-parked :
    (f : Flow) (i j : String) (promise : ℕ)
    → is_parked (get_signal f i) j promise ≡ is_parked f j promise
unfolding get_signal
get_signal-parked f i j promise = elim (Bool-cases (has f.transfer_signals i)) [
  | inl there ↦ rw there refl
  | inr gone ↦
      rw (gone, get-put f.transfer_signals i j fresh_signal)
        (elim (Bool-cases (i == j)) [
          | inl same ↦
              let e : get f.transfer_signals j ≡ none =
                ap (λ k. get f.transfer_signals k) (sym (beq→eq i j same))
                ∙ has-none f.transfer_signals i gone in
              rw (same, e) refl
          | inr differ ↦ rw differ refl
        ])
]

get_signal-resolved : (f : Flow) (i : String) → (get_signal f i).resolved ≡ f.resolved
unfolding get_signal
get_signal-resolved f i = elim (Bool-cases (has f.transfer_signals i)) [
  | inl there ↦ rw there refl
  | inr gone ↦ rw gone refl
]

write-parked :
    (f : Flow) (i j : String) (promise : ℕ) (g : TransferSignal → TransferSignal)
    → is_parked (write_signal f i g) j promise
      ≡ is_parked_in
          (if i == j then apply_some g (get f.transfer_signals j) else get f.transfer_signals j)
          promise
write-parked f i j promise g = rw (get-modify f.transfer_signals i j g) refl

is_in-append :
    (promise : ℕ) (xs ys : List ℕ)
    → is_in promise (xs ++ ys) ≡ (is_in promise xs || is_in promise ys)
is_in-append promise xs ys = any-append (λ x. nat_eq x promise) xs ys

abbrev quieted : (TransferSignal → TransferSignal) → TransferSignal → TransferSignal
quieted g s = let s1 = g s in record s1 { paused = false; notify_resume = [] }

notify-known :
    (f : Flow) (i j : String) (promise : ℕ) (g : TransferSignal → TransferSignal)
    → is_known f j promise ≡ true
    → is_known (notify f i g) j promise ≡ true
unfolding notify
notify-known f i j promise g h =
    rw
      (
        get-modify f.transfer_signals i j (quieted g),
        is_in-append promise f.resolved (promises_of (get f.transfer_signals i)),
      )
      (elim (Bool-cases (i == j)) [
        | inl same ↦
            let e : get f.transfer_signals i ≡ get f.transfer_signals j =
              ap (λ k. get f.transfer_signals k) (beq→eq i j same) in
            rw (same, e)
              (elim (Option-cases (get f.transfer_signals j)) [
                | inl gone ↦ ground (arith, gone)
                | inr (s, there) ↦ ground (arith, there)
              ])
        | inr differ ↦ rw differ (ground arith)
      ])

-- What keeps its flag and its waiters under a write keeps what is known.
keeping-known :
    (f : Flow) (i j : String) (promise : ℕ) (g : TransferSignal → TransferSignal)
    → ((s : TransferSignal)
        → is_parked_in (some s) promise ≡ true
        → is_parked_in (some (g s)) promise ≡ true)
    → is_known f j promise ≡ true
    → is_known (write_signal f i g) j promise ≡ true
keeping-known f i j promise g keeps h =
    rw (get-modify f.transfer_signals i j g) (elim (Bool-cases (i == j)) [
      | inr differ ↦ rw differ h
      | inl same ↦ rw same (elim (Option-cases (get f.transfer_signals j)) [
        | inl gone ↦ rw gone (rw gone at h)
        | inr (s, there) ↦ rw there (ground (arith, there, keeps s))
      ])
    ])

get_signal-known :
    (f : Flow) (i j : String) (promise : ℕ)
    → is_known f j promise ≡ true
    → is_known (get_signal f i) j promise ≡ true
get_signal-known f i j promise h = rw (get_signal-resolved f i, get_signal-parked f i j promise) h

wait-known :
    (f : Flow) (i j : String) (p promise : ℕ)
    → is_known f j promise ≡ true
    → is_known (wait_while_paused f i p) j promise ≡ true
unfolding wait_while_paused
wait-known f i j p promise h = elim (Option-cases (get f.transfer_signals i)) [
  | inl gone ↦ rw (gone, is_in-append promise f.resolved (p ∷ [])) (ground arith)
  | inr (s, there) ↦ elim (Bool-cases s.paused) [
    | inl parked ↦
        rw (there, parked)
          (keeping-known f i j promise (park p)
            (λ s2 known. ground (arith, is_in-append promise s2.notify_resume (p ∷ []), known)) h)
    | inr free ↦ rw (there, free, is_in-append promise f.resolved (p ∷ [])) (ground arith)
  ]
]

abort-known :
    (f : Flow) (i j : String) (promise : ℕ)
    → is_known f j promise ≡ true
    → is_known (abort_buffer_waits f i) j promise ≡ true
unfolding abort_buffer_waits
abort-known f i j promise h = elim (Option-cases (held (get f.transfer_signals i))) [
  | inl none_held ↦ rw none_held h
  | inr (c, at_c) ↦
      rw at_c
        (keeping-known f i j promise (λ s. record s { buffer_abort = none }) (λ s known. known) h)
]

clear-known :
    (f : Flow) (i j : String) (promise : ℕ)
    → (i == j) ≡ false
    → is_known f j promise ≡ true
    → is_known (clear_transfer_signal f i) j promise ≡ true
unfolding clear_transfer_signal
clear-known f i j promise other_id h = rw (get-remove f.transfer_signals i j, other_id) h

let_go-keeps :
    (c promise : ℕ) (s : TransferSignal)
    → is_parked_in (some s) promise ≡ true
    → is_parked_in (some (let_go c s)) promise ≡ true
let_go-keeps c promise s h = elim (Option-cases s.buffer_abort) [
  | inl free ↦ rw free h
  | inr (d, at_d) ↦ rw at_d (ground arith)
]

step-known :
    (f : Flow) (id : String) (promise : ℕ) (c : Call)
    → is_clear id c ≡ false
    → is_known f id promise ≡ true
    → is_known (step f c) id promise ≡ true
unfolding step pause_transfer resume_transfer cancel_transfer hold_controller release_controller
step-known f id promise (wait i p) k h = wait-known f i id p promise h
step-known f id promise (hold i c) k h =
    keeping-known (get_signal f i) i id promise (λ s. record s { buffer_abort = some c })
      (λ s known. known) (get_signal-known f i id promise h)
step-known f id promise (release i c) k h =
    keeping-known f i id promise (let_go c) (let_go-keeps c promise) h
step-known f id promise (pause i) k h =
    keeping-known (get_signal f i) i id promise (λ s. record s { paused = true })
      (λ s known. ground (arith, known)) (get_signal-known f i id promise h)
step-known f id promise (resume i) k h =
    notify-known (get_signal f i) i id promise (λ s. s) (get_signal-known f i id promise h)
step-known f id promise (cancel i) k h = abort-known _ i id promise (
    notify-known (get_signal f i) i id promise (λ s. record s { cancelled = true })
      (get_signal-known f i id promise h))
step-known f id promise (abort i) k h = abort-known f i id promise h
step-known f id promise (clear i) k h = clear-known f i id promise k h

run-known :
    (f : Flow) (id : String) (promise : ℕ) (cs : List Call)
    → clears id cs ≡ false
    → is_known f id promise ≡ true
    → is_known (run f cs) id promise ≡ true
unfolding run
run-known f id promise [] k h = h
run-known f id promise (c ∷ cs) k h =
    run-known (step f c) id promise cs (ground arith) (step-known f id promise c (ground arith) h)

-- After the promises of a transfer are notified, what is known of it is resolved.
notify-resolved :
    (f : Flow) (id : String) (promise : ℕ) (g : TransferSignal → TransferSignal)
    → is_known f id promise ≡ true
    → is_resolved (notify f id g) promise ≡ true
unfolding notify
notify-resolved f id promise g h =
    rw (is_in-append promise f.resolved (promises_of (get f.transfer_signals id)))
      (elim (Option-cases (get f.transfer_signals id)) [
        | inl gone ↦ ground (arith, gone)
        | inr (s, there) ↦ ground (arith, there)
      ])

abort-resolved :
    (f : Flow) (id : String) (promise : ℕ)
    → is_resolved (abort_buffer_waits f id) promise ≡ is_resolved f promise
unfolding abort_buffer_waits
abort-resolved f id promise = elim (Option-cases (held (get f.transfer_signals id))) [
  | inl free ↦ rw free refl
  | inr (c, at_c) ↦ rw at_c refl
]

wait-starts :
    (f : Flow) (id : String) (promise : ℕ)
    → is_known (wait_while_paused f id promise) id promise ≡ true
unfolding wait_while_paused
wait-starts f id promise = elim (Option-cases (get f.transfer_signals id)) [
  | inl gone ↦ rw (gone, is_in-append promise f.resolved (promise ∷ [])) (ground arith)
  | inr (s, there) ↦ elim (Bool-cases s.paused) [
    | inl paused ↦
        rw
          (
            there,
            paused,
            get-modify f.transfer_signals id id (park promise),
            beq_self id,
            there,
            is_in-append promise s.notify_resume (promise ∷ []),
          )
          (ground (arith, paused))
    | inr free ↦ rw (there, free, is_in-append promise f.resolved (promise ∷ [])) (ground arith)
  ]
]

-- No wake-up is lost. Whatever calls follow the wait of a lane, of this transfer or of others, as
-- long as none of them clears the transfer's signal: its promise is resolved, or it is among those
-- of a transfer that is paused; and a resume or a cancel that comes then resolves it.
pub no_wake_up_lost :
    (f : Flow) (id : String) (promise : ℕ) (cs : List Call)
    → clears id cs ≡ false
    → let g = run (wait_while_paused f id promise) cs in
      ((is_resolved g promise || is_parked g id promise) ≡ true)
      × (is_resolved (resume_transfer g id) promise ≡ true)
      × (is_resolved (cancel_transfer g id) promise ≡ true)
unfolding resume_transfer cancel_transfer
no_wake_up_lost f id promise cs kept =
    let g = run (wait_while_paused f id promise) cs in
    let known =
      run-known (wait_while_paused f id promise) id promise cs kept (wait-starts f id promise) in
    let there = get_signal-known g id id promise known in
    (
      known,
      notify-resolved (get_signal g id) id promise (λ s. s) there,
      abort-resolved _ id promise
          ∙ notify-resolved (get_signal g id) id promise (λ s. record s { cancelled = true }) there,
    )
