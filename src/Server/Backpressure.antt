-- ===== src/Server/Backpressure.antt =====
-- server/src/ws.ts: sending to a socket whose peer may not be reading.
-- `bufferedAmount` is what the platform has queued for a socket; it is an argument.
use misaka_network.Common.{
  Bool, Option, false, if◌then◌else◌, leb, ltb, none, not, some, true, ℕ, ◌+◌, ◌||◌, ◌∷◌, nat_keys,
  string_keys,
}
use misaka_network.Common.Dict
use misaka_network.Common.Dict.{Dict}
use misaka_network.Server.Sessions.{State, Frame, sent}
use misaka_network.Server.Lifecycle.{is_open, close_socket}

pub record Net : Type 0 where
  pub buffered : ℕ → ℕ
  pub max_buffered_bytes : ℕ
  pub max_buffered_hard_bytes : ℕ
  pub slow_consumer_grace_ms : ℕ

-- The sessions, with `slowConsumerSince` and the sockets that have a recheck timer.
pub record Wire : Type 0 where
  pub sessions : State
  pub slow_since : Dict ℕ ℕ
  pub rechecks : Dict ℕ ℕ

unfoldable pub clear_slow_consumer_timer : Wire → ℕ → Wire
clear_slow_consumer_timer w ws = record w { rechecks = Dict.remove w.rechecks ws }

-- The close frame; the socket is terminated a second later.
unfoldable pub shed_slow_consumer : Wire → ℕ → Wire
unfolding clear_slow_consumer_timer
shed_slow_consumer w ws =
    let cleared =
      clear_slow_consumer_timer (record w { slow_since = Dict.remove w.slow_since ws }) ws in
    record cleared { sessions = close_socket cleared.sessions ws 1008 "SLOW_CONSUMER" }

-- The timer of `armSlowConsumerRecheck`, by the time it runs out at.
unfoldable pub arm_slow_consumer_recheck : Net → Wire → ℕ → ℕ → Wire
arm_slow_consumer_recheck net w ws now = elim (Dict.get w.rechecks ws) [
  | some due ↦ w
  | none ↦ record w { rechecks = Dict.put w.rechecks ws (now + net.slow_consumer_grace_ms) }
]

abbrev pub is_stuck : Net → Option ℕ → ℕ → Bool
is_stuck net none now = false
is_stuck net (some since) now = leb (since + net.slow_consumer_grace_ms) now

-- What the timer does.
unfoldable pub recheck : Net → Wire → ℕ → ℕ → Wire
unfolding shed_slow_consumer arm_slow_consumer_recheck
recheck net w ws now =
    let fired = record w { rechecks = Dict.remove w.rechecks ws } in
    if not (is_open w.sessions ws)
    then fired
    else if ltb (net.buffered ws) net.max_buffered_bytes
    then record fired { slow_since = Dict.remove w.slow_since ws }
    else if leb net.max_buffered_hard_bytes (net.buffered ws)
        || is_stuck net (Dict.get w.slow_since ws) now
    then shed_slow_consumer fired ws
    else arm_slow_consumer_recheck net fired ws now

-- Over the soft mark: the first time starts the clock.
unfoldable pub hold_back : Net → Wire → ℕ → ℕ → Wire
unfolding shed_slow_consumer arm_slow_consumer_recheck
hold_back net w ws now = elim (Dict.get w.slow_since ws) [
  | none ↦
      arm_slow_consumer_recheck net (record w { slow_since = Dict.put w.slow_since ws now }) ws now
  | some since ↦
      if leb net.max_buffered_hard_bytes (net.buffered ws)
        || leb (since + net.slow_consumer_grace_ms) now
      then shed_slow_consumer w ws
      else w
]

-- Whether the frame was enqueued.
unfoldable pub send_with_backpressure : Net → Wire → ℕ → Frame → ℕ → Wire × Bool
unfolding hold_back clear_slow_consumer_timer
send_with_backpressure net w ws frame now =
    if not (is_open w.sessions ws)
    then (w, false)
    else if leb net.max_buffered_bytes (net.buffered ws)
    then (hold_back net w ws now, false)
    else (
      clear_slow_consumer_timer
          (record w {
            slow_since = Dict.remove w.slow_since ws;
            sessions = record w.sessions { log = sent ws frame ∷ w.sessions.log };
          })
          ws,
      true,
    )

unfoldable pub send : Net → Wire → ℕ → Frame → ℕ → Wire
send net w ws frame now = (send_with_backpressure net w ws frame now).0
