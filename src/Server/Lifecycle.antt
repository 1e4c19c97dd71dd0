-- ===== src/Server/Lifecycle.antt =====
-- server/src/session-lifecycle.ts: the one way in which a session ends or loses its socket.
pub mod Invariant
pub mod Teardown
pub mod Terminate
pub mod Ends
pub mod Identity
pub mod Others
pub mod Notice
pub mod Tests
use misaka_network.Common.{
  Bool, List, Option, String, [], false, filter, if◌then◌else◌, nat_eq, nat_keys, none, not, some,
  string_keys, true, ℕ, ◌==◌, ◌∷◌,
}
use misaka_network.Common.Dict
use misaka_network.Common.Dict.{Dict}
use misaka_network.Server.Sessions.{
  State, Session, Frame, ReadyState, Effect, sent, closes, announces, peer_left, connecting, opened,
  closing, closed, unindex_re_register_proof, unmark_socket,
}

-- `session.socket`'s `readyState`; a socket that is not known is closed.
unfoldable pub ready_state : State → ℕ → ReadyState
ready_state st ws = elim (Dict.get st.sockets ws) [ none ↦ closed | some r ↦ r ]

unfoldable pub is_open : State → ℕ → Bool
unfolding ready_state
is_open st ws = elim (ready_state st ws) [ opened ↦ true | _ ↦ false ]

pub peer_send : State → ℕ → Frame → List Effect → List Effect
peer_send st ws frame log = if is_open st ws then sent ws frame ∷ log else log

abbrev can_close : ReadyState → Bool
can_close connecting = true
can_close opened = true
can_close closing = false
can_close closed = false

-- `sock.close(code, reason)` on a socket that is connecting or open.
unfoldable pub close_socket : State → ℕ → ℕ → String → State
unfolding ready_state
close_socket st ws code reason =
    if can_close (ready_state st ws)
    then record st {
      sockets = Dict.put st.sockets ws closing;
      log = closes ws code reason ∷ st.log;
    }
    else st

pub record TerminateOpts : Type 0 where
  pub close_code : ℕ
  pub close_reason : String
  pub broadcast_leave : Bool
  pub only_if_socket : Option ℕ
  pub preserve_session : Bool
  pub closes_socket : Bool

abbrev pub default_opts : TerminateOpts
default_opts = record {
  close_code = 1000;
  close_reason = "";
  broadcast_leave = true;
  only_if_socket = none;
  preserve_session = false;
  closes_socket = true;
}

-- What the loop over the channel sends: a frame to every other member that has a socket.
pub notify_peer : State → String → Frame → String → List Effect → List Effect
unfolding peer_send
notify_peer st session_id frame peer_sid log =
    if peer_sid == session_id then log else elim (Dict.get st.nodes peer_sid) [
      | none ↦ log
      | some peer ↦ elim peer.socket [ none ↦ log | some ws ↦ peer_send st ws frame log ]
    ]

pub notify_peers : State → String → Frame → List String → List Effect → List Effect
unfolding notify_peer
notify_peers st session_id frame [] log = log
notify_peers st session_id frame (p ∷ ps) log =
    notify_peers st session_id frame ps (notify_peer st session_id frame p log)

-- `ch.delete(sessionId)`, and the channel goes when nobody is left.
unfoldable pub without : String → List String → List String
without k = filter (λ x. not (x == k))

unfoldable pub store_members :
    Dict String (List String) → String → List String → Dict String (List String)
store_members channels c [] = Dict.remove channels c
store_members channels c (m ∷ ms) = Dict.put channels c (m ∷ ms)

abbrev pub off_channel : Session → Session
off_channel s = record s { channel_id = none }

-- Steps 1 and 2: PEER_LEFT to the others, then out of the channel.
unfoldable pub leave : State → Session → String → State
leave st session c = elim (Dict.get st.channels c) [
  | none ↦ record st { nodes = Dict.modify st.nodes session.session_id off_channel }
  | some members ↦ record st {
    nodes = Dict.modify st.nodes session.session_id off_channel;
    channels = store_members st.channels c (without session.session_id members);
    log =
        notify_peers st session.session_id (peer_left session.session_id session.node_id) members
          st.log;
  }
]

unfoldable pub leave_channel : State → Session → State
unfolding leave
leave_channel st session = elim session.channel_id [
  | none ↦ st
  | some c ↦ if c == "" then st else leave st session c
]

abbrev pub off_socket : Session → Session
off_socket s = record s { socket = none }

-- Step 3: out of the socket index, and closed.
unfoldable pub detach : State → Session → TerminateOpts → State
unfolding unmark_socket
detach st session opts = elim session.socket [
  | none ↦ st
  | some ws ↦
      let unmarked = unmark_socket st ws in
      let detached = record unmarked {
        nodes = Dict.modify unmarked.nodes session.session_id off_socket;
      } in
      if opts.closes_socket
      then close_socket detached ws opts.close_code opts.close_reason
      else detached
]

-- Step 4: out of the map, unless the session is kept for a reconnect.
unfoldable pub evict : State → Session → TerminateOpts → ℕ → State
unfolding unindex_re_register_proof
evict st session opts now =
    if opts.preserve_session
    then record st {
      nodes = Dict.modify st.nodes session.session_id (λ s. record s { last_seen = now });
    }
    else (let cleared =
          unindex_re_register_proof st session.re_register_proof session.node_id now in
        record cleared { nodes = Dict.remove cleared.nodes session.session_id })

pub announce_leave : State → Session → TerminateOpts → State
announce_leave st session opts =
    if opts.broadcast_leave
    then record st { log = announces "leave" session.node_id ∷ st.log }
    else st

unfoldable pub teardown : State → Session → TerminateOpts → ℕ → State
unfolding leave_channel detach evict announce_leave
teardown st session opts now =
    announce_leave (evict (detach (leave_channel st session) session opts) session opts now) session
      opts

abbrev pub is_other_socket : Option ℕ → Option ℕ → Bool
is_other_socket none current = false
is_other_socket (some ws) none = true
is_other_socket (some ws) (some current) = not (nat_eq current ws)

abbrev pub unmark_dead : State → Option ℕ → State
unmark_dead st none = st
unmark_dead st (some ws) = unmark_socket st ws

-- An object outside the map has neither socket nor channel: with a socket to compare with it is
-- superseded, and without one it is gone already.
unfoldable pub terminate_session : State → String → TerminateOpts → ℕ → State
unfolding teardown unmark_socket
terminate_session st sid opts now = elim (Dict.get st.nodes sid) [
  | none ↦ unmark_dead st opts.only_if_socket
  | some session ↦
      if is_other_socket opts.only_if_socket session.socket
      then unmark_dead st opts.only_if_socket
      else teardown st session opts now
]
