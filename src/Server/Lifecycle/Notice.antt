-- ===== src/Server/Lifecycle/Notice.antt =====
-- The others in the channel hear of the end of a session.
use misaka_network.Server.Lifecycle.Invariant.{not_empty}
use misaka_network.Common.{
  Bool-cases, List, Option-cases, String, [], arith, beq_self, beq→eq, false, inl, inr, refl, some,
  string_keys, subst, sym, true, ℕ, ◌==◌, ◌∷◌, ◌≡◌, ◌⊎◌,
}
use misaka_network.Common.Dict
use misaka_network.Common.Dict.{Dict}
use misaka_network.Server.Sessions.{
  State, Session, Frame, Effect, sent, unindex_re_register_proof, unmark_socket, peer_left,
}
use misaka_network.Server.Sessions.Invariant.{is_member, WellFormed, in_channel}
use misaka_network.Server.Lifecycle.{
  is_open, peer_send, notify_peer, notify_peers, detach, evict, announce_leave, close_socket,
  TerminateOpts, can_close, ready_state, terminate_session, leave_channel, leave, teardown,
  is_other_socket,
}

-- Whether the frame was sent on the socket.
abbrev pub Sent : ℕ → Frame → List Effect → Type 0
Sent ws frame [] = ⊥
Sent ws frame (e ∷ log) = (e ≡ sent ws frame) ⊎ Sent ws frame log

module _ (st : State) (sid : String) (frame : Frame) where
  notify_peer-Sent :
      (p : String) (log : List Effect) (ws : ℕ) (f : Frame)
      → Sent ws f log
      → Sent ws f (notify_peer st sid frame p log)
  unfolding notify_peer peer_send
  notify_peer-Sent p log ws f h = elim (Bool-cases (p == sid)) [
    | inl own ↦ rw (own, notify_peer) h
    | inr other ↦ elim (Option-cases (Dict.get st.nodes p)) [
      | inl gone ↦ rw (other, notify_peer, gone) h
      | inr (peer, live) ↦ elim (Option-cases peer.socket) [
        | inl off ↦ rw (other, notify_peer, live, off) h
        | inr (w, on) ↦ elim (Bool-cases (is_open st w)) [
          | inl opened_w ↦ rw (other, notify_peer, live, on, peer_send, opened_w) (inr h)
          | inr shut ↦ rw (other, notify_peer, live, on, peer_send, shut) h
        ]
      ]
    ]
  ]

  notify_peers-Sent :
      (ps : List String) (log : List Effect) (ws : ℕ) (f : Frame)
      → Sent ws f log
      → Sent ws f (notify_peers st sid frame ps log)
  unfolding notify_peers
  notify_peers-Sent [] log ws f h = h
  notify_peers-Sent (p ∷ ps) log ws f h =
      notify_peers-Sent ps (notify_peer st sid frame p log) ws f (notify_peer-Sent p log ws f h)

  -- An open socket of a live session.
  notify_peer-tells :
      (p : String) (log : List Effect) (peer : Session) (ws : ℕ)
      → (p == sid) ≡ false
      → Dict.get st.nodes p ≡ some peer
      → peer.socket ≡ some ws
      → is_open st ws ≡ true
      → Sent ws frame (notify_peer st sid frame p log)
  unfolding notify_peer peer_send
  notify_peer-tells p log peer ws other live on opened_ws =
      rw (other, notify_peer, live, on, peer_send, opened_ws) (inl refl)

  notify_peers-tells :
      (ps : List String) (log : List Effect) (p : String) (peer : Session) (ws : ℕ)
      → is_member p ps ≡ true
      → (p == sid) ≡ false
      → Dict.get st.nodes p ≡ some peer
      → peer.socket ≡ some ws
      → is_open st ws ≡ true
      → Sent ws frame (notify_peers st sid frame ps log)
  unfolding notify_peers
  notify_peers-tells [] log p peer ws mem other live on opened_ws = cc
  notify_peers-tells (q ∷ ps) log p peer ws mem other live on opened_ws =
      elim (Bool-cases (q == p)) [
        | inl same ↦ notify_peers-Sent ps (notify_peer st sid frame q log) ws frame (
            subst (λ x. Sent ws frame (notify_peer st sid frame x log)) (sym (beq→eq q p same))
              (notify_peer-tells p log peer ws other live on opened_ws))
        | inr differ ↦
            notify_peers-tells ps (notify_peer st sid frame q log) p peer ws (ground arith) other
              live on opened_ws
      ]

close_socket-Sent :
    (st : State) (w code : ℕ) (reason : String) (ws : ℕ) (f : Frame)
    → Sent ws f st.log
    → Sent ws f (close_socket st w code reason).log
unfolding close_socket
close_socket-Sent st w code reason ws f h = elim (Bool-cases (can_close (ready_state st w))) [
  | inl live ↦ rw (live, close_socket) (inr h)
  | inr dead ↦ rw (dead, close_socket) h
]

detach-Sent :
    (st : State) (s : Session) (opts : TerminateOpts) (ws : ℕ) (f : Frame)
    → Sent ws f st.log
    → Sent ws f (detach st s opts).log
unfolding detach unmark_socket
detach-Sent st s opts ws f h = elim (Option-cases s.socket) [
  | inl off ↦ rw (off, detach) h
  | inr (w, on) ↦ elim (Bool-cases opts.closes_socket) [
    | inl closing_it ↦
        rw (on, detach, closing_it) (close_socket-Sent _ w opts.close_code opts.close_reason ws f h)
    | inr left_open ↦ rw (on, detach, left_open) h
  ]
]

log-evict :
    (st : State) (s : Session) (opts : TerminateOpts) (now : ℕ) → (evict st s opts now).log ≡ st.log
unfolding evict unindex_re_register_proof
log-evict st s opts now = ground arith

announce_leave-Sent :
    (st : State) (s : Session) (opts : TerminateOpts) (ws : ℕ) (f : Frame)
    → Sent ws f st.log
    → Sent ws f (announce_leave st s opts).log
unfolding announce_leave
announce_leave-Sent st s opts ws f h = elim (Bool-cases opts.broadcast_leave) [
  | inl loud ↦ rw (loud, announce_leave) (inr h)
  | inr quiet ↦ rw (quiet, announce_leave) h
]

-- A peer: another live session of the same channel, with an open socket.
pub record Peer (st : State) (session : Session) (c p : String) (peer : Session) (ws : ℕ)
    : Type 0 where
  pub other : (p == session.session_id) ≡ false
  pub live : Dict.get st.nodes p ≡ some peer
  pub same_channel : peer.channel_id ≡ some c
  pub on : peer.socket ≡ some ws
  pub open_socket : is_open st ws ≡ true

leave_channel-tells :
    (st : State) (sid : String) (session : Session) (c p : String) (peer : Session) (ws : ℕ)
    → WellFormed st
    → Dict.get st.nodes sid ≡ some session
    → session.channel_id ≡ some c
    → Peer st session c p peer ws
    → Sent ws (peer_left session.session_id session.node_id) (leave_channel st session).log
unfolding leave_channel leave
leave_channel-tells st sid session c p peer ws wf live at there =
    let mem : in_channel st.channels c p ≡ true =
      ground (arith, wf.member c p, there.live, there.same_channel, beq_self c) in
    elim (Option-cases (Dict.get st.channels c)) [
      | inl gone ↦ absurd (ground (arith, mem, gone))
      | inr (ms, has) ↦
          rw (at, leave_channel, not_empty st sid session wf live c at, has, leave)
            (notify_peers-tells st session.session_id (peer_left session.session_id session.node_id)
              ms st.log p peer ws (ground (arith, mem, has)) there.other there.live there.on
              there.open_socket)
    ]

-- When a session that is in a channel is ended, or loses its socket, every other member of the
-- channel whose socket is open is sent PEER_LEFT with the session's id and node.
pub terminate_session-Sent :
    (st : State) (sid : String) (session : Session) (opts : TerminateOpts) (now : ℕ) (c p : String)
    (peer : Session) (ws : ℕ)
    → WellFormed st
    → Dict.get st.nodes sid ≡ some session
    → is_other_socket opts.only_if_socket session.socket ≡ false
    → session.channel_id ≡ some c
    → Peer st session c p peer ws
    → Sent ws (peer_left session.session_id session.node_id) (terminate_session st sid opts now).log
unfolding terminate_session teardown
terminate_session-Sent st sid session opts now c p peer ws wf live mine at there =
    let frame = peer_left session.session_id session.node_id in
    let left = leave_channel st session in
    let bare = detach left session opts in
    let told =
      detach-Sent left session opts ws frame
        (leave_channel-tells st sid session c p peer ws wf live at there) in
    rw (live, terminate_session, mine)
      (announce_leave-Sent (evict bare session opts now) session opts ws frame
        (subst (λ l. Sent ws frame l) (sym (log-evict bare session opts now)) told))
