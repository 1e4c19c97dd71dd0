-- ===== src/Server/Ws/Keeps.antt =====
-- What a frame changes in the maps, whatever is sent on the way.
use misaka_network.Common.{
  Bool-cases, List, Option, Option-cases, String, [], ap, arith, false, inl, inr, none, refl, some,
  string_keys, true, ℕ, ◌==◌, ◌∙◌, ◌∷◌, ◌≡◌,
}
use misaka_network.Common.Dict
use misaka_network.Common.Dict.{Dict, get-put, get-modify}
use misaka_network.Server.Sessions.{State, Session, Frame, peer_joined, peer_left}
use misaka_network.Server.Sessions.Invariant.{WellFormed}
use misaka_network.Server.Lifecycle.{close_socket}
use misaka_network.Server.Lifecycle as Life
use misaka_network.Server.Lifecycle.Invariant.{leave_channel-WellFormed}
use misaka_network.Server.Backpressure.{
  Net, Wire, recheck, send, send_with_backpressure, hold_back, shed_slow_consumer,
  arm_slow_consumer_recheck, clear_slow_consumer_timer,
}
use misaka_network.Server.Ws.{
  forward_to_session, forward_all, introduce, introduce_all, leave, leave_named,
}

-- The maps that `WellFormed` is about.
abbrev pub core :
    State → Dict String Session × Dict String (List String) × Dict String String × Dict ℕ String
core st = (st.nodes, st.channels, st.re_register_proof_index, st.authed_sockets)

pub WellFormed-core : (a b : State) → core b ≡ core a → WellFormed a → WellFormed b
WellFormed-core a b same wf =
    let n : b.nodes ≡ a.nodes = ap (λ c. c.0) same in
    let c : b.channels ≡ a.channels = ap (λ c. c.1) same in
    let p : b.re_register_proof_index ≡ a.re_register_proof_index = ap (λ c. c.2) same in
    let s : b.authed_sockets ≡ a.authed_sockets = ap (λ c. c.3) same in
    record {
      keyed = rw n wf.keyed;
      member = rw (n, c) wf.member;
      authed = rw (n, s) wf.authed;
      indexed = rw (n, p) wf.indexed;
      populated = rw c wf.populated;
      no_channel = rw c wf.no_channel;
      no_proof = rw p wf.no_proof;
    }

pub core-close_socket :
    (st : State) (ws code : ℕ) (reason : String) → core (close_socket st ws code reason) ≡ core st
unfolding close_socket
core-close_socket st ws code reason = ground arith

core-shed : (w : Wire) (ws : ℕ) → core (shed_slow_consumer w ws).sessions ≡ core w.sessions
unfolding shed_slow_consumer clear_slow_consumer_timer
core-shed w ws = core-close_socket w.sessions ws 1008 "SLOW_CONSUMER"

pub core-recheck :
    (net : Net) (w : Wire) (ws now : ℕ) → core (recheck net w ws now).sessions ≡ core w.sessions
unfolding recheck shed_slow_consumer arm_slow_consumer_recheck clear_slow_consumer_timer
core-recheck net w ws now = ground (arith, core-close_socket w.sessions ws 1008 "SLOW_CONSUMER")

pub core-send :
    (net : Net) (w : Wire) (ws : ℕ) (frame : Frame) (now : ℕ)
    → core (send net w ws frame now).sessions ≡ core w.sessions
unfolding send send_with_backpressure hold_back arm_slow_consumer_recheck clear_slow_consumer_timer
core-send net w ws frame now = ground (arith, core-shed w ws)

pub core-forward :
    (net : Net) (w : Wire) (target : String) (frame : Frame) (from : Option String)
    (missing : Option (ℕ × Frame)) (now : ℕ)
    → core (forward_to_session net w target frame from missing now).sessions ≡ core w.sessions
unfolding forward_to_session
core-forward net w target frame from none now =
    elim (Option-cases (Dict.get w.sessions.nodes target)) [
      | inl gone ↦ ground arith
      | inr (t, live) ↦ elim (Option-cases t.socket) [
        | inl off ↦ ground arith
        | inr (ws, on) ↦ ground (arith, core-send net w ws frame now)
      ]
    ]
core-forward net w target frame from (some (back, reply)) now =
    elim (Option-cases (Dict.get w.sessions.nodes target)) [
      | inl gone ↦ ground (arith, core-send net w back reply now)
      | inr (t, live) ↦ elim (Option-cases t.socket) [
        | inl off ↦ ground (arith, core-send net w back reply now)
        | inr (ws, on) ↦
            ground (arith, core-send net w ws frame now, core-send net w back reply now)
      ]
    ]

core-forward_all :
    (net : Net) (w : Wire) (ps : List String) (frame : Frame) (now : ℕ)
    → core (forward_all net w ps frame now).sessions ≡ core w.sessions
unfolding forward_all
core-forward_all net w [] frame now = refl
core-forward_all net w (p ∷ ps) frame now =
    core-forward_all net (forward_to_session net w p frame none none now) ps frame now
    ∙ core-forward net w p frame none none now

core-introduce :
    (net : Net) (w : Wire) (ws : ℕ) (s : Session) (p : String) (now : ℕ)
    → core (introduce net w ws s p now).sessions ≡ core w.sessions
unfolding introduce
core-introduce net w ws s p now = elim (Option-cases (Dict.get w.sessions.nodes p)) [
  | inl gone ↦ ground arith
  | inr (peer, live) ↦
      let frame = peer_joined s.session_id s.node_id s.joined_at false in
      let told = forward_to_session net w p frame (some s.session_id) none now in
      let back = peer_joined peer.session_id peer.node_id peer.joined_at true in
      ground (
        arith,
        core-send net told ws back now ∙ core-forward net w p frame (some s.session_id) none now,
      )
]

pub core-introduce_all :
    (net : Net) (w : Wire) (ws : ℕ) (s : Session) (ps : List String) (now : ℕ)
    → core (introduce_all net w ws s ps now).sessions ≡ core w.sessions
unfolding introduce_all
core-introduce_all net w ws s [] now = refl
core-introduce_all net w ws s (p ∷ ps) now =
    core-introduce_all net (introduce net w ws s p now) ws s ps now
    ∙ core-introduce net w ws s p now

-- Leaving a channel by LEAVE_CHANNEL and at the end of a session come to the same maps.
pub leave-leave_channel :
    (net : Net) (w : Wire) (s : Session) (now : ℕ)
    → core (leave net w s now).sessions ≡ core (Life.leave_channel w.sessions s)
unfolding leave leave_named Life.leave_channel Life.leave
leave-leave_channel net w s now = elim (Option-cases s.channel_id) [
  | inl out ↦ rw (out, leave, Life.leave_channel) refl
  | inr (c, at) ↦ elim (Bool-cases (c == "")) [
    | inl nameless ↦ rw (at, leave, Life.leave_channel, nameless) refl
    | inr named ↦ elim (Option-cases (Dict.get w.sessions.channels c)) [
      | inl gone ↦ rw (at, leave, Life.leave_channel, named, gone, leave_named, Life.leave) refl
      | inr (ms, has) ↦
          let others = Life.without s.session_id ms in
          let left = record w {
            sessions = record w.sessions {
              nodes = Dict.modify w.sessions.nodes s.session_id Life.off_channel;
            };
          } in
          rw (at, leave, Life.leave_channel, named, has, leave_named, Life.leave)
            (ap (λ k. (k.0, Life.store_members k.1 c others, k.2, k.3))
              (core-forward_all net left others (peer_left s.session_id s.node_id) now))
    ]
  ]
]

pub leave-WellFormed :
    (net : Net) (w : Wire) (s : Session) (now : ℕ)
    → WellFormed w.sessions
    → Dict.get w.sessions.nodes s.session_id ≡ some s
    → WellFormed (leave net w s now).sessions
leave-WellFormed net w s now wf live =
    WellFormed-core (Life.leave_channel w.sessions s) (leave net w s now).sessions
      (leave-leave_channel net w s now) (leave_channel-WellFormed w.sessions s.session_id s wf live)
