-- ===== src/Server/Lifecycle/Identity.antt =====
-- The end of a session changes nobody's identity and adds no session.
use misaka_network.Common.{
  Bool-cases, Option, Option-cases, String, arith, drop, inl, inr, length, none, refl, some,
  string_keys, subst, sym, ℕ, ◌==◌, ◌≡◌, ◌≤◌,
}
use misaka_network.Common.Dict
use misaka_network.Common.Dict.{
  Dict, get-modify, get-remove, length-modify, length-remove-le, length-remove-lt,
}
use misaka_network.Server.Sessions.{State, Session, unindex_re_register_proof, unmark_socket}
use misaka_network.Server.Lifecycle.{
  off_channel, off_socket, leave, leave_channel, detach, evict, announce_leave, teardown,
  terminate_session, close_socket, TerminateOpts, is_other_socket, unmark_dead,
}

-- The node and the identity of a session.
abbrev pub identity_of : Option Session → Option (ℕ × String)
identity_of none = none
identity_of (some s) = some (s.node_id, s.pass_code_hash)

-- Whoever is there afterwards was there before, as the same identity.
pub record Shrinks (before after : Dict String Session) : Type 0 where
  pub kept :
      (k : String) (s : Session)
      → Dict.get after k ≡ some s
      → identity_of (Dict.get before k) ≡ some (s.node_id, s.pass_code_hash)
  pub shorter : length after ≤ length before

pub same-Shrinks : (nodes : Dict String Session) → Shrinks nodes nodes
same-Shrinks nodes = record { kept = λ k s h. rw h refl; shorter = omega arith }

pub trans-Shrinks : (a b c : Dict String Session) → Shrinks a b → Shrinks b c → Shrinks a c
trans-Shrinks a b c f g = record {
  kept = λ k s h. elim (Option-cases (Dict.get b k)) [
    | inl gone ↦ absurd (ground (arith, g.kept k s h, gone))
    | inr (t, there) ↦ ground (arith, g.kept k s h, f.kept k t there)
  ];
  shorter = omega (arith, f.shorter, g.shorter);
}

pub modify-Shrinks :
    (nodes : Dict String Session) (sid : String) (f : Session → Session)
    → ((s : Session) → identity_of (some (f s)) ≡ identity_of (some s))
    → Shrinks nodes (Dict.modify nodes sid f)
modify-Shrinks nodes sid f same = record {
  kept = λ k s h. elim (Option-cases (Dict.get nodes k)) [
    | inl gone ↦ absurd (ground (arith, get-modify nodes sid k f))
    | inr (t, there) ↦ ground (arith, get-modify nodes sid k f, same t)
  ];
  shorter = rw (length-modify nodes sid f) (omega arith);
}

remove-Shrinks :
    (nodes : Dict String Session) (sid : String) → Shrinks nodes (Dict.remove nodes sid)
remove-Shrinks nodes sid = record {
  kept = λ k s h. ground (arith, get-remove nodes sid k);
  shorter = length-remove-le nodes sid;
}

pub leave_channel-Shrinks :
    (st : State) (session : Session) → Shrinks st.nodes (leave_channel st session).nodes
unfolding leave_channel leave
leave_channel-Shrinks st session =
    let less = modify-Shrinks st.nodes session.session_id off_channel (λ s. refl) in
    let same = same-Shrinks st.nodes in
    elim (Option-cases session.channel_id) [
      | inl out ↦ rw (out, leave_channel) same
      | inr (c, at) ↦ elim (Bool-cases (c == "")) [
        | inl nameless ↦ rw (at, leave_channel, nameless) same
        | inr named ↦ elim (Option-cases (Dict.get st.channels c)) [
          | inl gone ↦ rw (at, leave_channel, named, gone, leave) less
          | inr (ms, has) ↦ rw (at, leave_channel, named, has, leave) less
        ]
      ]
    ]

pub close_socket-nodes :
    (st : State) (ws code : ℕ) (reason : String) → (close_socket st ws code reason).nodes ≡ st.nodes
unfolding close_socket
close_socket-nodes st ws code reason = ground arith

pub detach-Shrinks :
    (st : State) (session : Session) (opts : TerminateOpts)
    → Shrinks st.nodes (detach st session opts).nodes
unfolding detach unmark_socket
detach-Shrinks st session opts = elim (Option-cases session.socket) [
  | inl none_left ↦ rw (none_left, detach) (same-Shrinks st.nodes)
  | inr (ws, has) ↦
      let less = modify-Shrinks st.nodes session.session_id off_socket (λ s. refl) in
      elim (Bool-cases opts.closes_socket) [
        | inl closes ↦ rw (has, detach, closes) (rw close_socket-nodes less)
        | inr open_still ↦ rw (has, detach, open_still) less
      ]
]

evict-Shrinks :
    (st : State) (session : Session) (opts : TerminateOpts) (now : ℕ)
    → Shrinks st.nodes (evict st session opts now).nodes
unfolding evict unindex_re_register_proof
evict-Shrinks st session opts now = elim (Bool-cases opts.preserve_session) [
  | inl keep ↦ rw (keep, evict) (modify-Shrinks st.nodes session.session_id _ (λ s. refl))
  | inr drop ↦ elim (Bool-cases (session.re_register_proof == "")) [
    | inl nameless ↦ rw (drop, evict, nameless) (remove-Shrinks st.nodes session.session_id)
    | inr named ↦ rw (drop, evict, named) (remove-Shrinks st.nodes session.session_id)
  ]
]

pub announce_leave-nodes :
    (st : State) (s : Session) (opts : TerminateOpts) → (announce_leave st s opts).nodes ≡ st.nodes
unfolding announce_leave
announce_leave-nodes st s opts = ground arith

teardown-Shrinks :
    (st : State) (s : Session) (opts : TerminateOpts) (now : ℕ)
    → Shrinks st.nodes (teardown st s opts now).nodes
unfolding teardown
teardown-Shrinks st s opts now =
    let left = leave_channel st s in
    let bare = detach left s opts in
    let gone = evict bare s opts now in
    subst (λ m. Shrinks st.nodes m) (sym (announce_leave-nodes gone s opts))
      (trans-Shrinks st.nodes bare.nodes gone.nodes
        (trans-Shrinks st.nodes left.nodes bare.nodes (leave_channel-Shrinks st s)
          (detach-Shrinks left s opts))
        (evict-Shrinks bare s opts now))

pub unmark_dead-nodes : (st : State) (o : Option ℕ) → (unmark_dead st o).nodes ≡ st.nodes
unfolding unmark_socket
unmark_dead-nodes st none = refl
unmark_dead-nodes st (some ws) = refl

pub terminate_session-Shrinks :
    (st : State) (sid : String) (opts : TerminateOpts) (now : ℕ)
    → Shrinks st.nodes (terminate_session st sid opts now).nodes
unfolding terminate_session
terminate_session-Shrinks st sid opts now = elim (Option-cases (Dict.get st.nodes sid)) [
  | inl gone ↦ rw (gone, terminate_session) dead
  | inr (s, live) ↦ elim (Bool-cases (is_other_socket opts.only_if_socket s.socket)) [
    | inl other ↦ rw (live, terminate_session, other) dead
    | inr mine ↦ rw (live, terminate_session, mine) (teardown-Shrinks st s opts now)
  ]
]
  where
    dead : Shrinks st.nodes (unmark_dead st opts.only_if_socket).nodes
    dead =
        subst (λ m. Shrinks st.nodes m) (sym (unmark_dead-nodes st opts.only_if_socket))
          (same-Shrinks st.nodes)
