-- ===== src/Server/Connection.antt =====
-- server/src/ws.ts: the life of a connection, from AUTH to its close.
pub mod Keeps
use misaka_network.Common.{
  Bool, Option, String, false, if◌then◌else◌, nat_eq, none, some, string_keys, true, ℕ,
}
use misaka_network.Common.Dict
use misaka_network.Common.Dict.{Dict}
use misaka_network.Server.Guard.{Limits}
use misaka_network.Server.Backpressure.{Net, Wire, send, clear_slow_consumer_timer}
use misaka_network.Server.Sessions.{
  State, Session, TokenStatus, resolve_session_by_token, is_session_expired, unmark_socket,
  mark_socket_authenticated, welcome,
}
use misaka_network.Server.Lifecycle.{close_socket, terminate_session, TerminateOpts, default_opts}
use misaka_network.Server.Ws.{Message, auth, handle_message}

abbrev is_current : Option ℕ → ℕ → Bool
is_current none ws = true
is_current (some old) ws = nat_eq old ws

-- A reconnect closes the socket it takes the place of.
unfoldable pub supersede : State → Option ℕ → ℕ → State
supersede st none ws = st
supersede st (some old) ws =
    if nat_eq old ws then st else close_socket (unmark_socket st old) old 1000 "SUPERSEDED"

abbrev pub connected : ℕ → String → ℕ → Session → Session
connected ws ip now s = record s { socket = some ws; last_seen = now; ip = ip }

-- The session's socket becomes this one.
unfoldable pub attach : State → Session → ℕ → String → ℕ → State
unfolding supersede
attach st s ws ip now =
    let cleared = supersede st s.socket ws in
    mark_socket_authenticated
      (record cleared { nodes = Dict.modify cleared.nodes s.session_id (connected ws ip now) }) ws
      s.session_id

-- The first frame: the wire after it, and the id of the session that the connection now holds.
unfoldable pub authenticate : Net → Wire → ℕ → String → String → ℕ → Wire × Option String
unfolding attach
authenticate net w ws token ip now =
    let (st, status) = resolve_session_by_token w.sessions token now in
    elim status [
      | TokenStatus.ok s ↦ (
        send net (record w { sessions = attach st s ws ip now }) ws
            (welcome s.session_id s.node_id s.expires_at) now,
        some s.session_id,
      )
      | TokenStatus.expired ↦
          (record w { sessions = close_socket st ws 4002 "SESSION_EXPIRED" }, none)
      | TokenStatus.invalid ↦
          (record w { sessions = close_socket st ws 4001 "INVALID_TOKEN" }, none)
    ]

unfoldable pub first_frame : Net → Wire → ℕ → Message → String → ℕ → Wire × Option String
unfolding authenticate
first_frame net w ws (auth token) ip now = authenticate net w ws token ip now
first_frame net w ws _ ip now =
    (record w { sessions = close_socket w.sessions ws 4003 "AUTH_EXPECTED" }, none)

-- A later frame, for the session object that the connection holds.
unfoldable pub later_frame : Limits → Net → Wire → ℕ → Session → Message → ℕ → Wire
later_frame cfg net w ws s msg now =
    if is_session_expired s now
    then record w { sessions = close_socket w.sessions ws 4002 "SESSION_EXPIRED" }
    else handle_message cfg net
        (record w {
          sessions = record w.sessions {
            nodes = Dict.modify w.sessions.nodes s.session_id (λ t. record t { last_seen = now });
          };
        })
        ws (record s { last_seen = now }) msg now

abbrev pub closing_opts : ℕ → TerminateOpts
closing_opts ws = record default_opts {
  only_if_socket = some ws;
  preserve_session = true;
  closes_socket = false;
}

-- The socket is closed; the session stays for a reconnect.
unfoldable pub on_close : Wire → ℕ → Option String → ℕ → Wire
on_close w ws held now =
    let cleared = clear_slow_consumer_timer w ws in
    elim held [
      | none ↦ record cleared { sessions = unmark_socket cleared.sessions ws }
      | some sid ↦ record cleared {
        sessions = terminate_session cleared.sessions sid (closing_opts ws) now;
      }
    ]
