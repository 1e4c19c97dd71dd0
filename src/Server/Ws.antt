-- ===== src/Server/Ws.antt =====
-- server/src/ws.ts: what an authenticated connection may ask for, and how it begins and ends.
-- A frame is handled for the session object that the connection holds. An object that has left the
-- map is written without effect on `nodes`.
pub mod Keeps
pub mod Join
pub mod Frames
use misaka_network.Server.Guard.{Limits}
use misaka_network.Common.{
  Bool, List, Option, String, [], any, false, if◌then◌else◌, leb, length, ltb, none, not, some,
  string_keys, suc, true, zero, ℕ, ◌%◌, ◌&&◌, ◌++◌, ◌+◌, ◌/◌, ◌==◌, ◌||◌, ◌∷◌,
}
use Prim.Native.String.{◌++◌ as concat, slice}
use misaka_network.Common.Dict
use misaka_network.Common.Dict.{Dict}
use misaka_network.Server.Backpressure.{Net, Wire, send}
use misaka_network.Server.Sessions.{
  State, Session, Frame, TokenStatus, resolve_session_by_token, is_session_expired, unmark_socket,
  mark_socket_authenticated, peer_joined, peer_left, peer_offline, pong, failure,
}
use misaka_network.Server.Lifecycle.{
  is_open, close_socket, without, store_members, terminate_session, default_opts, TerminateOpts,
  off_channel,
}

-- A frame of the schema. The payload of an SDP or a candidate is a text here.
pub data Message : Type 0 where
  auth : String → Message
  ping join_cluster leave_channel : Message
  signal_sdp signal_ice : String → String → Message
  signal_ice_end : String → Option String → Message
  block : String → Message

-- The digits of a number, `fuel` of them at most.
unfoldable pub decimal : ℕ → ℕ → String
decimal zero n = ""
decimal (suc fuel) n =
    let last = slice "0123456789" (n % 10) (n % 10 + 1) in
    let front = decimal fuel (n / 10) in if ltb n 10 then last else concat front last

-- `cluster-${nodeId}-${passCodeHash.slice(0, 16)}`; a node's number has five digits at most.
unfoldable pub cluster_channel_id : ℕ → String → String
unfolding decimal
cluster_channel_id node_id hash =
    concat "cluster-" (concat (decimal 20 node_id) (concat "-" (slice hash 0 16)))

abbrev pub blocks : Session → String → Bool
blocks s sid = any (λ b. b == sid) s.blocked_ids

unfoldable pub is_target_reachable : State → String → Bool
is_target_reachable st target = elim (Dict.get st.nodes target) [
  | none ↦ false
  | some t ↦ elim t.socket [ none ↦ false | some ws ↦ is_open st ws ]
]

abbrev pub in_channel_of : Option String → String → Bool
in_channel_of none c = false
in_channel_of (some d) c = d == c

unfoldable pub assert_same_channel : State → Session → String → Bool
assert_same_channel st s target = elim s.channel_id [
  | none ↦ false
  | some c ↦
      if c == ""
      then false
      else elim (Dict.get st.nodes target) [ none ↦ false | some t ↦ in_channel_of t.channel_id c ]
]

abbrev blocked_by : Session → Option String → Bool
blocked_by target none = false
blocked_by target (some from) = blocks target from

-- The forwarding, with the frame for the sender if the target is offline.
unfoldable pub forward_to_session :
    Net → Wire → String → Frame → Option String → Option (ℕ × Frame) → ℕ → Wire
forward_to_session net w target frame from missing now =
    let offline : Wire = elim missing [ none ↦ w | some (ws, reply) ↦ send net w ws reply now ] in
    elim (Dict.get w.sessions.nodes target) [
      | none ↦ offline
      | some t ↦ elim t.socket [
        | none ↦ offline
        | some ws ↦
            if not (is_open w.sessions ws)
            then offline
            else if blocked_by t from
            then w
            else send net w ws frame now
      ]
    ]

unfoldable pub forward_all : Net → Wire → List String → Frame → ℕ → Wire
unfolding forward_to_session
forward_all net w [] frame now = w
forward_all net w (p ∷ ps) frame now =
    forward_all net (forward_to_session net w p frame none none now) ps frame now

-- leaveChannel, with the channel it leaves.
unfoldable pub leave_named : Net → Wire → Session → String → ℕ → Wire
leave_named net w s c now =
    let left = record w {
      sessions = record w.sessions {
        nodes = Dict.modify w.sessions.nodes s.session_id off_channel;
      };
    } in
    elim (Dict.get w.sessions.channels c) [
      | none ↦ left
      | some members ↦
          let others = without s.session_id members in
          let told = forward_all net left others (peer_left s.session_id s.node_id) now in
          record told {
            sessions = record told.sessions {
              channels = store_members told.sessions.channels c others;
            };
          }
    ]

unfoldable pub leave : Net → Wire → Session → ℕ → Wire
unfolding leave_named
leave net w s now = elim s.channel_id [
  | none ↦ w
  | some c ↦ if c == "" then w else leave_named net w s c now
]

-- One peer of the channel: each of the two is told of the other, unless one blocks the other.
unfoldable pub introduce : Net → Wire → ℕ → Session → String → ℕ → Wire
introduce net w ws s peer_sid now = elim (Dict.get w.sessions.nodes peer_sid) [
  | none ↦ w
  | some peer ↦
      if blocks peer s.session_id || blocks s peer.session_id
      then w
      else send net
          (forward_to_session net w peer_sid (peer_joined s.session_id s.node_id s.joined_at false)
            (some s.session_id) none now)
          ws (peer_joined peer.session_id peer.node_id peer.joined_at true) now
]

unfoldable pub introduce_all : Net → Wire → ℕ → Session → List String → ℕ → Wire
unfolding introduce
introduce_all net w ws s [] now = w
introduce_all net w ws s (p ∷ ps) now = introduce_all net (introduce net w ws s p now) ws s ps now

-- ch.add(sessionId)
abbrev pub add_member : String → List String → List String
add_member sid ms = if any (λ x. x == sid) ms then ms else ms ++ sid ∷ []

abbrev pub members_or_new : Option (List String) → List String
members_or_new none = []
members_or_new (some ms) = ms

abbrev pub in_cluster : String → Session → Session
in_cluster c s = record s { channel_id = some c }

-- From the empty channel on.
unfoldable pub enter : Net → Wire → ℕ → Session → String → ℕ → Wire
unfolding introduce_all
enter net w ws s c now =
    let members = members_or_new (Dict.get w.sessions.channels c) in
    let met = introduce_all net w ws s members now in
    record met {
      sessions = record met.sessions {
        channels = Dict.put met.sessions.channels c (add_member s.session_id members);
        nodes = Dict.modify met.sessions.nodes s.session_id (in_cluster c);
      };
    }

unfoldable pub join : Net → Wire → ℕ → Session → ℕ → Wire
unfolding leave enter
join net w ws s now =
    let c = cluster_channel_id s.node_id s.pass_code_hash in
    if in_channel_of s.channel_id c then w else enter net (leave net w s now) ws s c now

-- SDP, candidate and end of candidates: to a reachable member of the same channel.
unfoldable pub signal : Net → Wire → ℕ → Session → String → Frame → Option Frame → ℕ → Wire
unfolding forward_to_session
signal net w ws s target frame not_in_channel now =
    if not (is_target_reachable w.sessions target)
    then send net w ws (peer_offline target) now
    else if not (assert_same_channel w.sessions s target)
    then elim not_in_channel [ none ↦ w | some reply ↦ send net w ws reply now ]
    else if blocks s target
    then w
    else forward_to_session net w target frame (some s.session_id) (some (ws, peer_offline target))
        now

abbrev pub add_block : String → Session → Session
add_block sid s = record s {
  blocked_ids =
      if any (λ b. b == sid) s.blocked_ids then s.blocked_ids else s.blocked_ids ++ sid ∷ [];
}

unfoldable pub block_session : Limits → Net → Wire → Session → String → ℕ → Wire
block_session cfg net w s sid now =
    if leb cfg.max_blocked_ids (length s.blocked_ids) && not (blocks s sid)
    then w
    else forward_to_session net
        (record w {
          sessions = record w.sessions {
            nodes = Dict.modify w.sessions.nodes s.session_id (add_block sid);
          };
        })
        sid (peer_left s.session_id s.node_id) none none now

abbrev pub or_empty : Option String → String
or_empty none = ""
or_empty (some c) = c

-- The schema accepts AUTH again; no case handles it.
unfoldable pub handle_message : Limits → Net → Wire → ℕ → Session → Message → ℕ → Wire
unfolding join leave signal block_session
handle_message cfg net w ws s (auth token) now = w
handle_message cfg net w ws s ping now = send net w ws pong now
handle_message cfg net w ws s join_cluster now = join net w ws s now
handle_message cfg net w ws s leave_channel now = leave net w s now
handle_message cfg net w ws s (signal_sdp target sdp) now =
    signal net w ws s target (Frame.signal_sdp s.session_id s.node_id sdp)
      (some (failure "NOT_IN_CHANNEL")) now
handle_message cfg net w ws s (signal_ice target candidate) now =
    signal net w ws s target (Frame.signal_ice s.session_id s.node_id candidate) none now
handle_message cfg net w ws s (signal_ice_end target candidate) now =
    signal net w ws s target (Frame.signal_ice_end s.session_id s.node_id (or_empty candidate)) none
      now
handle_message cfg net w ws s (block sid) now = block_session cfg net w s sid now
