-- ===== src/Client/IceRecovery.antt =====
-- client/src/store/network/ice-recovery.ts: the restarts of a peer's ICE agent, with their lock, their
-- count and their retries.
-- The maps are keyed by the peer, so an `Ice` is the entries of one of them. What a restart finds
-- when it goes on, the browser's states of the connection among it, is a `View`. A restart is cut at
-- its `await`s. The rebuilding of a connection is that of peer-runtime.ts: here it is only the bumps
-- of the generation.
pub mod Locks
pub mod Pieces
pub mod Exclusive
pub mod Tests
use misaka_network.Common.{
  Bool, List, Option, [], false, get_elem?, if◌then◌else◌, leb, ltb, nat_eq, none, not, set, some,
  true, ℕ, ◌&&◌, ◌+◌, ◌||◌, ◌∷◌,
}

abbrev pub max_ice_restart_attempts : ℕ
max_ice_restart_attempts = 5

abbrev pub precondition_budget_ms : ℕ
precondition_budget_ms = 60_000

-- The back-off, the rebuilding, whenSignalingStable, createOffer and setLocalDescription.
pub data Stage : Type 0 where
  backing_off rebuilding : Stage
  until_stable creating installing : ℕ → Stage
  finished : Stage

-- A call of attemptIceRestart, with the count that it read.
pub record Job : Type 0 where
  pub epoch : ℕ
  pub gen : ℕ
  pub attempts : ℕ
  pub stage : Stage

pub data Status : Type 0 where
  other_status reconnecting offline : Status

pub record Ice : Type 0 where
  pub network_epoch : ℕ
  pub generation : ℕ
  pub connection : Option ℕ
  pub in_roster : Bool
  pub status : Status
  pub ice_restarting : Option ℕ
  pub ice_restart_attempts : Option ℕ
  -- The generation that the retry was scheduled for.
  pub retry_timer : Option ℕ
  pub precondition_started : Option ℕ
  pub jobs : List Job
  pub offers_sent : ℕ

pub record View : Type 0 where
  -- The promise that was awaited has resolved.
  pub ok : Bool
  pub now : ℕ
  pub is_dead : Bool
  pub is_stable : Bool
  pub signaling_ready : Bool
  pub offer_current : Bool

abbrev pub is_held : Option ℕ → ℕ → Bool
is_held none n = false
is_held (some m) n = nat_eq m n

abbrev pub value_or : Option ℕ → ℕ → ℕ
value_or none d = d
value_or (some n) d = n

abbrev pub is_absent : Option ℕ → Bool
is_absent none = true
is_absent (some n) = false

abbrev pub still_current : Ice → Job → Bool
still_current p j = nat_eq j.epoch p.network_epoch && nat_eq p.generation j.gen && p.in_roster

abbrev pub pc_still_current : Ice → Job → ℕ → Bool
pc_still_current p j pc = still_current p j && is_held p.connection pc

abbrev pub schedule_ice_restart_retry : Ice → ℕ → Ice
schedule_ice_restart_retry p gen = record p { retry_timer = some gen }

abbrev pub mark_offline : Ice → ℕ → Ice
mark_offline p gen =
    if nat_eq p.generation gen
    then record p { precondition_started = none; status = offline }
    else p

abbrev pub clear_peer_ice_recovery : Ice → Ice
clear_peer_ice_recovery p = record p {
  precondition_started = none;
  ice_restart_attempts = none;
  ice_restarting = none;
  retry_timer = none;
}

-- What cleanupPeerConnection does to these maps.
abbrev pub clean_up : Ice → Ice
clean_up p = record (clear_peer_ice_recovery p) { generation = p.generation + 1; connection = none }

abbrev pub take_lock : Ice → ℕ → Ice
take_lock p attempts = record p {
  ice_restarting = some p.generation;
  jobs =
      record {
        epoch = p.network_epoch;
        gen = p.generation;
        attempts = attempts;
        stage = backing_off;
      }
      ∷ p.jobs;
}

unfoldable pub attempt_ice_restart : Ice → Ice
attempt_ice_restart p =
    let attempts = value_or p.ice_restart_attempts 0 in
    if not (is_absent p.ice_restarting)
    then p
    else if leb max_ice_restart_attempts attempts
    then (if is_absent p.retry_timer then schedule_ice_restart_retry p p.generation else p)
    else take_lock p attempts

-- From a stable connection on: the offer is begun, or tried again later.
unfoldable pub begin_offer : Ice → Job → ℕ → View → Ice × Stage
begin_offer p j pc v =
    if not v.signaling_ready then (schedule_ice_restart_retry p j.gen, finished) else (
      record p { ice_restart_attempts = some (j.attempts + 1); precondition_started = none },
      creating pc,
    )

-- With a connection that is alive.
unfoldable pub with_connection : Ice → Job → ℕ → View → Ice × Stage
unfolding begin_offer
with_connection p j pc v =
    let started = value_or p.precondition_started v.now in
    let noted = record p { precondition_started = some started } in
    if ltb (started + precondition_budget_ms) v.now
    then (mark_offline (record noted { precondition_started = none }) j.gen, finished)
    else if not v.is_stable
    then (noted, until_stable pc)
    else begin_offer noted j pc v

-- cleanupPeerConnection, the count, and the bump of initiateWebRTC.
abbrev pub rebuild : Ice → Job → Ice × Stage
rebuild p j =
    let cleaned = clean_up p in
    (
      record cleaned {
        ice_restart_attempts = some (j.attempts + 1);
        precondition_started = none;
        generation = cleaned.generation + 1;
      },
      rebuilding,
    )

unfoldable pub go_on : Ice → Job → View → Option ℕ → Ice × Stage
unfolding with_connection
go_on p j v none = rebuild p j
go_on p j v (some pc) = if v.is_dead then rebuild p j else with_connection p j pc v

-- The offer at its two waits: a failure is tried again if the connection is still the one, an offer
-- that was overtaken in any case.
abbrev pub offer_step : Ice → Job → ℕ → View → Ice → Stage → Ice × Stage
offer_step p j pc v done stage =
    if not v.ok
    then (if pc_still_current p j pc then schedule_ice_restart_retry p j.gen else p, finished)
    else if pc_still_current p j pc && v.offer_current
    then (done, stage)
    else (schedule_ice_restart_retry p j.gen, finished)

unfoldable pub resume_job : Ice → Job → Stage → View → Ice × Stage
unfolding go_on begin_offer
resume_job p j backing_off v =
    if not (still_current p j)
    then (p, finished)
    else go_on (record p { status = reconnecting }) j v p.connection
resume_job p j rebuilding v =
    (if not v.ok && still_current p j then schedule_ice_restart_retry p j.gen else p, finished)
resume_job p j (until_stable pc) v =
    if not v.ok
    then (schedule_ice_restart_retry p j.gen, finished)
    else if not (pc_still_current p j pc)
    then (p, finished)
    else begin_offer p j pc v
resume_job p j (creating pc) v = offer_step p j pc v p (installing pc)
resume_job p j (installing pc) v =
    offer_step p j pc v
      (schedule_ice_restart_retry (record p { offers_sent = p.offers_sent + 1 }) j.gen) finished
resume_job p j finished v = (p, finished)

abbrev pub is_finished : Stage → Bool
is_finished backing_off = false
is_finished rebuilding = false
is_finished (until_stable pc) = false
is_finished (creating pc) = false
is_finished (installing pc) = false
is_finished finished = true

-- The `finally`: the lock goes if it is of the job's generation.
abbrev pub release_lock : Ice → Job → Stage → Ice
release_lock p j stage =
    if is_finished stage && is_held p.ice_restarting j.gen
    then record p { ice_restarting = none }
    else p

abbrev pub resume_if : Ice → ℕ → Job → View → Bool → Ice
resume_if p k j v true = p
resume_if p k j v false =
    let (next, stage) = resume_job p j j.stage v in
    let released = release_lock next j stage in
    record released { jobs = set released.jobs k (record j { stage = stage }) }

abbrev pub resume_at : Ice → ℕ → View → Option Job → Ice
resume_at p k v none = p
resume_at p k v (some j) = resume_if p k j v (is_finished j.stage)

-- The retry's timer.
unfoldable pub fire_retry : Ice → Bool → Option ℕ → Ice
unfolding attempt_ice_restart
fire_retry p is_connected none = p
fire_retry p is_connected (some gen) =
    let fired = record p { retry_timer = none } in
    if not (nat_eq p.generation gen) || nat_eq p.network_epoch 0
    then fired
    else if is_connected
    then record fired { precondition_started = none }
    else if leb max_ice_restart_attempts (value_or p.ice_restart_attempts 0)
    then mark_offline fired gen
    else attempt_ice_restart fired

-- endNetworkEpoch: a peer that has a connection or a row is cleaned up, the generations start again.
unfoldable pub end_epoch : Ice → Ice
end_epoch p =
    let known = not (is_absent p.connection) || p.in_roster in
    record (if known then clean_up p else p) {
      network_epoch = p.network_epoch + 1;
      generation = 0;
      in_roster = false;
    }

-- What happens to a peer. A connection is made, lost or replaced elsewhere; the states `failed` and a
-- lasting `disconnected` ask for a restart, `connected` and `completed` reset the count.
pub data Event : Type 0 where
  restarts fires_connected fires recovers cleans bumps ends : Event
  connects : ℕ → Event
  listed : Bool → Event
  resumes : ℕ → View → Event

unfoldable pub step : Ice → Event → Ice
unfolding attempt_ice_restart resume_job fire_retry end_epoch
step p restarts = attempt_ice_restart p
step p fires_connected = fire_retry p true p.retry_timer
step p fires = fire_retry p false p.retry_timer
step p recovers = record p { ice_restart_attempts = some 0 }
step p cleans = clean_up p
step p bumps = record p { generation = p.generation + 1 }
step p ends = end_epoch p
step p (connects pc) = record p { connection = some pc }
step p (listed b) = record p { in_roster = b }
step p (resumes k v) = resume_at p k v (get_elem? p.jobs k)

unfoldable pub run : Ice → List Event → Ice
unfolding step
run p [] = p
run p (e ∷ es) = run (step p e) es

abbrev pub unknown : Ice
unknown = record {
  network_epoch = 1;
  generation = 0;
  connection = none;
  in_roster = false;
  status = other_status;
  ice_restarting = none;
  ice_restart_attempts = none;
  retry_timer = none;
  precondition_started = none;
  jobs = [];
  offers_sent = 0;
}
