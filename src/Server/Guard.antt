-- ===== src/Server/Guard.antt =====
-- server/src/http.ts and store.ts: the counters that bound passcode guessing, a lock for each
-- attempter (address and node) and a freeze for each node.
-- A lock object is shared between the map and the requests that fetched it, so the map holds
-- references into `lock_objects`: a request that resumes writes its own object, whatever the map
-- holds by then. A test `at >= now - w` is written `now <= at + w`.
pub mod Freeze
pub mod Locks
pub mod Lockout
use misaka_network.Common.{
  Bool, Eq, List, Option, String, [], ap, arith, false, filter, if◌then◌else◌, inl, inr, leb,
  length, ltb, nat_eq, nat_keys, none, some, string_keys, true, ℕ, ◌&&◌, ◌++◌, ◌+◌, ◌==◌, ◌||◌, ◌↔◌,
  ◌∷◌, ◌≡◌, ◌⊎◌,
}
use misaka_network.Common.Dict
use misaka_network.Common.Dict.{Dict}

-- server/src/config.ts; no number of nodes is `MAX_NODES=0`, that is no limit.
pub record Limits : Type 0 where
  pub node_id_min : ℕ
  pub node_id_max : ℕ
  pub max_nodes : Option ℕ
  pub max_nodes_per_ip : ℕ
  pub max_attempts : ℕ
  pub lock_duration_ms : ℕ
  pub node_freeze_threshold : ℕ
  pub node_freeze_window_ms : ℕ
  pub node_freeze_duration_ms : ℕ
  pub session_ttl_ms : ℕ
  pub qr_token_ttl_ms : ℕ
  pub disconnected_ttl_ms : ℕ
  pub max_blocked_ids : ℕ
  pub qr_redeem_rate_limit : ℕ
  pub qr_redeem_rate_window_ms : ℕ
  pub transfer_done_rate_limit : ℕ
  pub transfer_done_rate_window_ms : ℕ
  pub max_transfer_bytes : ℕ
  pub report_rate_max : ℕ
  pub report_rate_window_ms : ℕ
  pub report_warn_count : ℕ
  pub report_warn_window_ms : ℕ
  pub report_ttl_ms : ℕ

pub record AttemptLock : Type 0 where
  pub attempts : ℕ
  pub locked_until : ℕ
  pub last_attempt_at : ℕ

pub record Failure : Type 0 where
  pub at_time : ℕ
  pub ip : String

pub record NodeFreeze : Type 0 where
  pub recent_failures : List Failure
  pub frozen_until : ℕ

-- `${ip}::${nodeId}`: the node's digits follow the last colon, so the text tells the pair.
abbrev pub AttemptKey : Type 0
AttemptKey = String × ℕ

abbrev pub same_key : AttemptKey → AttemptKey → Bool
same_key (ip, n) (jp, m) = (ip == jp) && nat_eq n m

pub same_key_iff : (x y : AttemptKey) → (same_key x y ≡ true) ↔ (x ≡ y)
same_key_iff (ip, n) (jp, m) = (
  λ h. ground (arith, string_keys.beq_iff ip jp),
  λ h. ground (arith, string_keys.beq_iff ip jp, ap (λ p. p.0) h, ap (λ p. p.1) h),
)

instance abbrev pub attempt_keys : Eq AttemptKey
attempt_keys = record { beq = same_key; beq_iff = same_key_iff }

pub record Guard : Type 0 where
  pub attempt_locks : Dict AttemptKey ℕ
  pub lock_objects : Dict ℕ AttemptLock
  pub next_lock : ℕ
  pub node_freezes : Dict ℕ NodeFreeze

abbrev pub no_guard : Guard
no_guard = record { attempt_locks = []; lock_objects = []; next_lock = 0; node_freezes = [] }

abbrev pub recent_failures_at : Limits → ℕ → List Failure → List Failure
recent_failures_at cfg now = filter (λ r. leb now (r.at_time + cfg.node_freeze_window_ms))

unfoldable pub prune_freeze_failures : Limits → NodeFreeze → ℕ → NodeFreeze
prune_freeze_failures cfg freeze now = record freeze {
  recent_failures = recent_failures_at cfg now freeze.recent_failures;
}

abbrev pub thaw : Limits → NodeFreeze → ℕ → NodeFreeze
thaw cfg freeze now = prune_freeze_failures cfg (record freeze { frozen_until = 0 }) now

-- Until when the node is frozen, if it is.
unfoldable pub is_node_frozen : Limits → Guard → ℕ → ℕ → Guard × Option ℕ
unfolding prune_freeze_failures
is_node_frozen cfg g node_id now = elim (Dict.get g.node_freezes node_id) [
  | none ↦ (g, none)
  | some freeze ↦
      if ltb now freeze.frozen_until
      then (g, some freeze.frozen_until)
      else if ltb 0 freeze.frozen_until
      then (record g { node_freezes = Dict.put g.node_freezes node_id (thaw cfg freeze now) }, none)
      else (g, none)
]

abbrev freeze_or_new : Option NodeFreeze → NodeFreeze
freeze_or_new none = record { recent_failures = []; frozen_until = 0 }
freeze_or_new (some freeze) = freeze

-- The freeze after one more failure, and whether it is at the threshold.
unfoldable pub add_failure : Limits → NodeFreeze → String → ℕ → NodeFreeze × Bool
unfolding prune_freeze_failures
add_failure cfg freeze ip now =
    let pruned = prune_freeze_failures cfg freeze now in
    let failures = pruned.recent_failures ++ record { at_time = now; ip = ip } ∷ [] in
    if leb cfg.node_freeze_threshold (length failures)
    then (
      record { recent_failures = failures; frozen_until = now + cfg.node_freeze_duration_ms },
      true,
    )
    else (record pruned { recent_failures = failures }, false)

unfoldable pub record_failed_passcode_attempt : Limits → Guard → ℕ → String → ℕ → Guard × Bool
unfolding add_failure
record_failed_passcode_attempt cfg g node_id ip now =
    let (freeze, froze) =
      add_failure cfg (freeze_or_new (Dict.get g.node_freezes node_id)) ip now in
    (record g { node_freezes = Dict.put g.node_freezes node_id freeze }, froze)

unfoldable pub clear_node_freeze_on_success : Guard → ℕ → Guard
clear_node_freeze_on_success g node_id = elim (Dict.get g.node_freezes node_id) [
  | none ↦ g
  | some freeze ↦
      if nat_eq freeze.frozen_until 0
      then record g { node_freezes = Dict.remove g.node_freezes node_id }
      else g
]

abbrev pub new_lock : ℕ → AttemptLock
new_lock now = record { attempts = 0; locked_until = 0; last_attempt_at = now }

abbrev pub lock_at : Guard → ℕ → AttemptLock
lock_at g ref = elim (Dict.get g.lock_objects ref) [ none ↦ new_lock 0 | some lock ↦ lock ]

-- Whether the attempter is locked, and else the lock that the request goes on with: one that has
-- run out is deleted.
unfoldable pub open_lock : Guard → AttemptKey → ℕ → (Guard × Option ℕ) ⊎ ℕ
open_lock g key now = elim (Dict.get g.attempt_locks key) [
  | none ↦ inl (g, none)
  | some ref ↦
      let until = (lock_at g ref).locked_until in
      if ltb now until
      then inr until
      else if ltb 0 until
      then inl (record g { attempt_locks = Dict.remove g.attempt_locks key }, none)
      else inl (g, some ref)
]

-- if (!lock) { lock = {…}; attemptLocks.set(lockKey, lock) }
unfoldable pub hold_lock : Guard → AttemptKey → Option ℕ → ℕ → Guard × ℕ
hold_lock g key (some ref) now = (g, ref)
hold_lock g key none now = (
  record g {
    attempt_locks = Dict.put g.attempt_locks key g.next_lock;
    lock_objects = Dict.put g.lock_objects g.next_lock (new_lock now);
    next_lock = g.next_lock + 1;
  },
  g.next_lock,
)

unfoldable pub bump : Limits → ℕ → AttemptLock → AttemptLock
bump cfg now lock = record {
  attempts = lock.attempts + 1;
  locked_until =
      if leb cfg.max_attempts (lock.attempts + 1)
      then now + cfg.lock_duration_ms
      else lock.locked_until;
  last_attempt_at = now;
}

-- One failed guess: on the attempter's lock and on the node. The lock as it is afterwards, and
-- whether the node froze.
unfoldable pub charge : Limits → Guard → AttemptKey → Option ℕ → ℕ → Guard × AttemptLock × Bool
unfolding hold_lock bump
charge cfg g key captured now =
    let (held, ref) = hold_lock g key captured now in
    let lock = bump cfg now (lock_at held ref) in
    let bumped = record held { lock_objects = Dict.put held.lock_objects ref lock } in
    let (failed, froze) = record_failed_passcode_attempt cfg bumped key.1 key.0 now in
    (failed, lock, froze)

abbrev lock_is_stale : Limits → Guard → ℕ → ℕ → Bool
lock_is_stale cfg g now ref =
    let lock = lock_at g ref in
    (nat_eq lock.locked_until 0 || leb lock.locked_until now)
    && leb (lock.last_attempt_at + cfg.lock_duration_ms) now

abbrev last_failure_at : List Failure → ℕ
last_failure_at [] = 0
last_failure_at (r ∷ []) = r.at_time
last_failure_at (r ∷ q ∷ rs) = last_failure_at (q ∷ rs)

abbrev freeze_is_over : ℕ → NodeFreeze → Bool
freeze_is_over now freeze = nat_eq freeze.frozen_until 0 || leb freeze.frozen_until now

abbrev freeze_is_garbage : Limits → ℕ → NodeFreeze → Bool
freeze_is_garbage cfg now freeze =
    freeze_is_over now freeze
    && leb (last_failure_at freeze.recent_failures + cfg.node_freeze_window_ms) now

-- The freeze that the sweep leaves: with its time run out it keeps the failures inside the window.
unfoldable pub age_freeze : Limits → ℕ → NodeFreeze → NodeFreeze
age_freeze cfg now freeze =
    if freeze_is_over now freeze
    then record {
      recent_failures =
          filter (λ r. ltb now (r.at_time + cfg.node_freeze_window_ms)) freeze.recent_failures;
      frozen_until = 0;
    }
    else freeze

unfoldable pub age_all : Limits → ℕ → Dict ℕ NodeFreeze → Dict ℕ NodeFreeze
age_all cfg now [] = []
age_all cfg now ((n, freeze) ∷ rest) = (n, age_freeze cfg now freeze) ∷ age_all cfg now rest

-- The two sweeps of runCleanupTick over the counters.
unfoldable pub sweep_guard : Limits → Guard → ℕ → Guard
unfolding age_all
sweep_guard cfg g now = record g {
  attempt_locks = Dict.prune (λ _ ref. lock_is_stale cfg g now ref) g.attempt_locks;
  node_freezes =
      age_all cfg now (Dict.prune (λ _ freeze. freeze_is_garbage cfg now freeze) g.node_freezes);
}
