-- ===== src/Server/Run/Shrinks.antt =====
-- Beside an admission, nothing that happens adds a session or changes an identity.
use misaka_network.Common.{
  Bool-cases, List, Option-cases, String, [], ap, arith, false, inl, inr, leb, length, nat_keys,
  none, not, refl, some, string_keys, subst, sym, ℕ, ◌&&◌, ◌==◌, ◌∷◌, ◌≡◌,
}
use misaka_network.Common.Dict
use misaka_network.Common.Dict.{Dict, get-modify}
use misaka_network.Server.Guard.{Limits}
use misaka_network.Server.Sessions.{
  State, Session, Frame, peer_left, pong, failure, rotate_re_register_proof, is_session_expired,
  cleanup_expired_tombstones,
}
use misaka_network.Server.Sessions.Invariant.{WellFormed}
use misaka_network.Server.Lifecycle.Identity.{
  Shrinks, same-Shrinks, trans-Shrinks, modify-Shrinks, leave_channel-Shrinks,
}
use misaka_network.Server.Admission.{Server}
use misaka_network.Server.Admission.Replace.{renew}
use misaka_network.Server.Admission.Renew.{core-rotate, with_proof, with_token}
use misaka_network.Server.Backpressure.{Net, Wire}
use misaka_network.Server.Ws.{
  leave, join, handle_message, block_session, add_block, Message, blocks, in_channel_of,
  cluster_channel_id, or_empty, ping, auth, join_cluster, leave_channel, signal_sdp, signal_ice,
  signal_ice_end, block, in_cluster,
}
use misaka_network.Server.Ws.Keeps.{core-send, core-forward, core-close_socket, leave-leave_channel}
use misaka_network.Server.Ws.Join.{core-enter}
use misaka_network.Server.Ws.Frames.{core-signal}
use misaka_network.Server.Connection.{attach, connected, later_frame}
use misaka_network.Server.Connection.Keeps.{core-attach}
use misaka_network.Server.Cleanup.{
  run_cleanup_tick, sweep_sessions, unlock_all, to_purge, purge_all,
}
use misaka_network.Server.Cleanup.Sweeps.{purge_all-Shrinks, get-unlock_all, unlocked}

pub core-Shrinks :
    (nodes : Dict String Session)
    {a b : Dict String Session × Dict String (List String) × Dict String String × Dict ℕ String}
    → b ≡ a
    → Shrinks nodes a.0
    → Shrinks nodes b.0
core-Shrinks nodes same less = subst (λ m. Shrinks nodes m) (sym (ap (λ c. c.0) same)) less

pub renew-Shrinks :
    (cfg : Limits) (st : State) (s : Session) (token next : String) (now : ℕ)
    → (s.re_register_proof == "") ≡ false
    → Shrinks st.nodes (renew cfg st s token next now).nodes
unfolding renew
renew-Shrinks cfg st s token next now had =
    let sid = s.session_id in
    let f = with_token cfg token now in
    let st1 : State = record st { nodes = Dict.modify st.nodes sid f } in
    let st2 = rotate_re_register_proof st1 s next now in
    trans-Shrinks st.nodes st2.nodes _
      (core-Shrinks st.nodes (core-rotate st1 s next now had) (
        trans-Shrinks st.nodes st1.nodes _ (modify-Shrinks st.nodes sid f (λ t. refl))
          (modify-Shrinks st1.nodes sid (with_proof next) (λ t. refl))))
      (modify-Shrinks st2.nodes sid (λ t. record t { last_seen = now }) (λ t. refl))

pub attach-Shrinks :
    (st : State) (s : Session) (ws : ℕ) (ip : String) (now : ℕ)
    → Dict.get st.authed_sockets ws ≡ none
    → WellFormed st
    → Dict.get st.nodes s.session_id ≡ some s
    → Shrinks st.nodes (attach st s ws ip now).nodes
attach-Shrinks st s ws ip now unused wf live =
    core-Shrinks st.nodes (core-attach st s ws ip now unused wf live)
      (modify-Shrinks st.nodes s.session_id (connected ws ip now) (λ t. refl))

leave-Shrinks :
    (net : Net) (w : Wire) (s : Session) (now : ℕ)
    → Shrinks w.sessions.nodes (leave net w s now).sessions.nodes
leave-Shrinks net w s now =
    core-Shrinks w.sessions.nodes (leave-leave_channel net w s now)
      (leave_channel-Shrinks w.sessions s)

join-Shrinks :
    (net : Net) (w : Wire) (ws : ℕ) (s : Session) (now : ℕ)
    → Shrinks w.sessions.nodes (join net w ws s now).sessions.nodes
unfolding join
join-Shrinks net w ws s now =
    let c = cluster_channel_id s.node_id s.pass_code_hash in
    let out = leave net w s now in
    elim (Bool-cases (in_channel_of s.channel_id c)) [
      | inl already ↦ rw (already, join) (same-Shrinks w.sessions.nodes)
      | inr elsewhere ↦
          rw (elsewhere, join)
            (trans-Shrinks w.sessions.nodes out.sessions.nodes _ (leave-Shrinks net w s now) (
              core-Shrinks out.sessions.nodes (core-enter net out ws s c now)
                (modify-Shrinks out.sessions.nodes s.session_id (in_cluster c) (λ t. refl))))
    ]

block-Shrinks :
    (cfg : Limits) (net : Net) (w : Wire) (s : Session) (sid : String) (now : ℕ)
    → Shrinks w.sessions.nodes (block_session cfg net w s sid now).sessions.nodes
unfolding block_session
block-Shrinks cfg net w s sid now =
    elim (Bool-cases (leb cfg.max_blocked_ids (length s.blocked_ids) && not (blocks s sid))) [
      | inl full ↦ rw (full, block_session) (same-Shrinks w.sessions.nodes)
      | inr room ↦
          let noted = record w {
            sessions = record w.sessions {
              nodes = Dict.modify w.sessions.nodes s.session_id (add_block sid);
            };
          } in
          rw (room, block_session)
            (core-Shrinks w.sessions.nodes
              (core-forward net noted sid (peer_left s.session_id s.node_id) none none now)
              (modify-Shrinks w.sessions.nodes s.session_id (add_block sid) (λ t. refl)))
    ]

handle_message-Shrinks :
    (cfg : Limits) (net : Net) (w : Wire) (ws : ℕ) (s : Session) (msg : Message) (now : ℕ)
    → Shrinks w.sessions.nodes (handle_message cfg net w ws s msg now).sessions.nodes
unfolding handle_message
handle_message-Shrinks cfg net w ws s (auth token) now = same-Shrinks w.sessions.nodes
handle_message-Shrinks cfg net w ws s ping now =
    core-Shrinks w.sessions.nodes (core-send net w ws pong now) (same-Shrinks w.sessions.nodes)
handle_message-Shrinks cfg net w ws s join_cluster now = join-Shrinks net w ws s now
handle_message-Shrinks cfg net w ws s leave_channel now = leave-Shrinks net w s now
handle_message-Shrinks cfg net w ws s (signal_sdp target sdp) now =
    core-Shrinks w.sessions.nodes
      (core-signal net w ws s target (Frame.signal_sdp s.session_id s.node_id sdp)
        (some (failure "NOT_IN_CHANNEL")) now)
      (same-Shrinks w.sessions.nodes)
handle_message-Shrinks cfg net w ws s (signal_ice target c) now =
    core-Shrinks w.sessions.nodes
      (core-signal net w ws s target (Frame.signal_ice s.session_id s.node_id c) none now)
      (same-Shrinks w.sessions.nodes)
handle_message-Shrinks cfg net w ws s (signal_ice_end target c) now =
    core-Shrinks w.sessions.nodes
      (core-signal net w ws s target (Frame.signal_ice_end s.session_id s.node_id (or_empty c)) none
        now)
      (same-Shrinks w.sessions.nodes)
handle_message-Shrinks cfg net w ws s (block sid) now = block-Shrinks cfg net w s sid now

pub later_frame-Shrinks :
    (cfg : Limits) (net : Net) (w : Wire) (ws : ℕ) (s : Session) (msg : Message) (now : ℕ)
    → Shrinks w.sessions.nodes (later_frame cfg net w ws s msg now).sessions.nodes
unfolding later_frame
later_frame-Shrinks cfg net w ws s msg now = elim (Bool-cases (is_session_expired s now)) [
  | inl over ↦
      rw (over, later_frame)
        (core-Shrinks w.sessions.nodes (core-close_socket w.sessions ws 4002 "SESSION_EXPIRED")
          (same-Shrinks w.sessions.nodes))
  | inr open_still ↦
      let f : Session → Session = λ t. record t { last_seen = now } in
      let seen = record w {
        sessions = record w.sessions { nodes = Dict.modify w.sessions.nodes s.session_id f };
      } in
      rw (open_still, later_frame)
        (trans-Shrinks w.sessions.nodes seen.sessions.nodes _
          (modify-Shrinks w.sessions.nodes s.session_id f (λ t. refl))
          (handle_message-Shrinks cfg net seen ws (record s { last_seen = now }) msg now))
]

length-unlock_all : (now : ℕ) (m : Dict String Session) → length (unlock_all now m) ≡ length m
unfolding unlock_all
length-unlock_all now [] = refl
length-unlock_all now ((j, s) ∷ m) = ground (arith, length-unlock_all now m)

unlock_all-Shrinks : (now : ℕ) (m : Dict String Session) → Shrinks m (unlock_all now m)
unfolding unlocked
unlock_all-Shrinks now m = record {
  kept = λ k s h. elim (Option-cases (Dict.get m k)) [
    | inl gone ↦ ground (arith, get-unlock_all now m k)
    | inr (t, there) ↦ ground (arith, get-unlock_all now m k)
  ];
  shorter = omega (arith, length-unlock_all now m);
}

pub run_cleanup_tick-Shrinks :
    (cfg : Limits) (sv : Server) (now : ℕ)
    → Shrinks sv.sessions.nodes (run_cleanup_tick cfg sv now).sessions.nodes
unfolding run_cleanup_tick sweep_sessions cleanup_expired_tombstones
run_cleanup_tick-Shrinks cfg sv now =
    let list = to_purge cfg now sv.sessions.nodes in
    let purged = purge_all sv.sessions list now in
    trans-Shrinks sv.sessions.nodes purged.nodes _ (purge_all-Shrinks sv.sessions list now)
      (unlock_all-Shrinks now purged.nodes)
