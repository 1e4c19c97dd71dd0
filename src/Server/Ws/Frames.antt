-- ===== src/Server/Ws/Frames.antt =====
-- Every frame of an authenticated connection keeps the maps in agreement; and what a frame does
-- that arrives for a session that has ended.
use misaka_network.Common.{
  Bool-cases, Option, Option-cases, String, ap, arith, beq_self, inl, inr, leb, length, none, not,
  refl, some, string_keys, true, ℕ, ◌&&◌, ◌∙◌, ◌≡◌,
}
use misaka_network.Common.Dict
use misaka_network.Common.Dict.{Dict, get-put, get-modify}
use misaka_network.Server.Guard.{Limits}
use misaka_network.Server.Sessions.{State, Session, Frame, peer_left, peer_offline, pong, failure}
use misaka_network.Server.Sessions.Invariant.{WellFormed, modify-Keyed, in_channel}
use misaka_network.Server.Backpressure.{Net, Wire}
use misaka_network.Server.Ws.{
  leave, enter, join, handle_message, signal, block_session, add_block, Message, blocks,
  cluster_channel_id, or_empty, ping, auth, join_cluster, leave_channel, signal_sdp, signal_ice,
  signal_ice_end, block, add_member, members_or_new, in_cluster,
}
use misaka_network.Server.Ws.Keeps.{
  core, WellFormed-core, core-send, core-forward, leave-WellFormed,
}
use misaka_network.Server.Ws.Join.{join-WellFormed, core-enter, entered, is_member-add_member}

pub core-signal :
    (net : Net) (w : Wire) (ws : ℕ) (s : Session) (target : String) (frame : Frame)
    (reply : Option Frame) (now : ℕ)
    → core (signal net w ws s target frame reply now).sessions ≡ core w.sessions
unfolding signal
core-signal net w ws s target frame none now = ground (
  arith,
  core-send net w ws (peer_offline target) now,
  core-forward net w target frame (some s.session_id) (some (ws, peer_offline target)) now,
)
core-signal net w ws s target frame (some reply) now = ground (
  arith,
  core-send net w ws (peer_offline target) now,
  core-send net w ws reply now,
  core-forward net w target frame (some s.session_id) (some (ws, peer_offline target)) now,
)

-- A write to a session that leaves alone what the maps point at.
pub touched-WellFormed :
    (st : State) (sid : String) (f : Session → Session)
    → ((t : Session)
        → ((f t).session_id ≡ t.session_id)
          × ((f t).channel_id ≡ t.channel_id)
          × ((f t).socket ≡ t.socket)
          × ((f t).re_register_proof ≡ t.re_register_proof))
    → WellFormed st
    → WellFormed (record st { nodes = Dict.modify st.nodes sid f })
touched-WellFormed st sid f same wf = record {
  keyed = modify-Keyed st.nodes sid f (λ t. (same t).0) wf.keyed;
  member = λ c k. elim (Option-cases (Dict.get st.nodes k)) [
    | inl gone ↦ ground (arith, get-modify st.nodes sid k f, wf.member c k)
    | inr (t, there) ↦ ground (arith, get-modify st.nodes sid k f, wf.member c k, same t)
  ];
  authed = λ w k. elim (Option-cases (Dict.get st.nodes k)) [
    | inl gone ↦ ground (arith, get-modify st.nodes sid k f, wf.authed w k)
    | inr (t, there) ↦ ground (arith, get-modify st.nodes sid k f, wf.authed w k, same t)
  ];
  indexed = λ p k. elim (Option-cases (Dict.get st.nodes k)) [
    | inl gone ↦ ground (arith, get-modify st.nodes sid k f, wf.indexed p k)
    | inr (t, there) ↦ ground (arith, get-modify st.nodes sid k f, wf.indexed p k, same t)
  ];
  populated = wf.populated;
  no_channel = wf.no_channel;
  no_proof = wf.no_proof;
}

block-WellFormed :
    (cfg : Limits) (net : Net) (w : Wire) (s : Session) (sid : String) (now : ℕ)
    → WellFormed w.sessions
    → WellFormed (block_session cfg net w s sid now).sessions
unfolding block_session
block-WellFormed cfg net w s sid now wf =
    elim (Bool-cases (leb cfg.max_blocked_ids (length s.blocked_ids) && not (blocks s sid))) [
      | inl full ↦ rw (full, block_session) wf
      | inr room ↦
          let noted = record w {
            sessions = record w.sessions {
              nodes = Dict.modify w.sessions.nodes s.session_id (add_block sid);
            };
          } in
          rw (room, block_session)
            (WellFormed-core noted.sessions _
              (core-forward net noted sid (peer_left s.session_id s.node_id) none none now)
              (touched-WellFormed w.sessions s.session_id (add_block sid)
                (λ t. (refl, refl, refl, refl)) wf))
    ]

-- Whatever an authenticated connection of a live session asks for, the maps agree afterwards: the
-- members of each channel are the live sessions that are in it, and no channel stays empty.
pub handle_message-WellFormed :
    (cfg : Limits) (net : Net) (w : Wire) (ws : ℕ) (s : Session) (msg : Message) (now : ℕ)
    → WellFormed w.sessions
    → Dict.get w.sessions.nodes s.session_id ≡ some s
    → WellFormed (handle_message cfg net w ws s msg now).sessions
unfolding handle_message
handle_message-WellFormed cfg net w ws s (auth token) now wf live = wf
handle_message-WellFormed cfg net w ws s ping now wf live =
    WellFormed-core w.sessions _ (core-send net w ws pong now) wf
handle_message-WellFormed cfg net w ws s join_cluster now wf live =
    join-WellFormed net w ws s now wf live
handle_message-WellFormed cfg net w ws s leave_channel now wf live =
    leave-WellFormed net w s now wf live
handle_message-WellFormed cfg net w ws s (signal_sdp target sdp) now wf live =
    WellFormed-core w.sessions _
      (core-signal net w ws s target (Frame.signal_sdp s.session_id s.node_id sdp)
        (some (failure "NOT_IN_CHANNEL")) now)
      wf
handle_message-WellFormed cfg net w ws s (signal_ice target c) now wf live =
    WellFormed-core w.sessions _
      (core-signal net w ws s target (Frame.signal_ice s.session_id s.node_id c) none now) wf
handle_message-WellFormed cfg net w ws s (signal_ice_end target c) now wf live =
    WellFormed-core w.sessions _
      (core-signal net w ws s target (Frame.signal_ice_end s.session_id s.node_id (or_empty c)) none
        now)
      wf
handle_message-WellFormed cfg net w ws s (block sid) now wf live =
    block-WellFormed cfg net w s sid now wf

join-enter :
    (net : Net) (w : Wire) (ws : ℕ) (s : Session) (now : ℕ)
    → s.channel_id ≡ none
    → join net w ws s now ≡ enter net w ws s (cluster_channel_id s.node_id s.pass_code_hash) now
unfolding join leave
join-enter net w ws s now out = ground arith

-- A JOIN_CLUSTER that arrives for a session that has left the map, on a socket that is still
-- closing, puts the dead session's id into the channel: a member that is no live session.
pub join-ghost :
    (net : Net) (w : Wire) (ws : ℕ) (s : Session) (now : ℕ)
    → Dict.get w.sessions.nodes s.session_id ≡ none
    → s.channel_id ≡ none
    → let after = (join net w ws s now).sessions in
      let c = cluster_channel_id s.node_id s.pass_code_hash in
      (in_channel after.channels c s.session_id ≡ true) × (Dict.get after.nodes s.session_id ≡ none)
join-ghost net w ws s now gone out =
    let c = cluster_channel_id s.node_id s.pass_code_hash in
    let same : core (join net w ws s now).sessions ≡ core (entered w.sessions s.session_id c) =
      ap (λ v. core v.sessions) (join-enter net w ws s now out) ∙ core-enter net w ws s c now in
    let ms = members_or_new (Dict.get w.sessions.channels c) in
    (
      ap (λ k. in_channel k.1 c s.session_id) same
          ∙ ground (
            arith,
            get-put w.sessions.channels c c (add_member s.session_id ms),
            is_member-add_member s.session_id s.session_id ms,
            beq_self s.session_id,
            beq_self c,
          ),
      ap (λ k. Dict.get k.0 s.session_id) same
          ∙ ground
              (arith, get-modify w.sessions.nodes s.session_id s.session_id (in_cluster c), gone),
    )
