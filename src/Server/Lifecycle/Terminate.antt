-- ===== src/Server/Lifecycle/Terminate.antt =====
-- The whole of `terminateSession` of server/src/sessions.ts.
use misaka_network.Server.Lifecycle.Teardown.{teardown-WellFormed}
use misaka_network.Server.Sessions.Invariant.{WellFormed, socket_of}
use misaka_network.Server.Sessions.{State, unmark_socket}
use misaka_network.Common.{
  Bool-cases, Option, Option-cases, String, arith, beq_self, inl, inr, nat_keys, none, refl, some,
  string_keys, true, ℕ, ◌≡◌,
}
use misaka_network.Common.Dict
use misaka_network.Common.Dict.{
  Dict, get-put, get-remove, get-modify, get-put_self, get-remove_self,
}
use misaka_network.Server.Lifecycle.{terminate_session, unmark_dead, is_other_socket, TerminateOpts}

-- The socket that a caller compares with has authenticated no other session: it is the one of the
-- connection whose session this is.
abbrev pub OwnSocket : State → String → Option ℕ → Type 0
OwnSocket st sid none = Unit
OwnSocket st sid (some ws) = (k : String) → Dict.get st.authed_sockets ws ≡ some k → k ≡ sid

-- So where it is not the session's socket, it is in no index, and to unmark it changes nothing.
unmark_dead-WellFormed :
    (st : State) (sid : String) (o : Option ℕ)
    → WellFormed st
    → OwnSocket st sid o
    → is_other_socket o (socket_of (Dict.get st.nodes sid)) ≡ true
    → WellFormed (unmark_dead st o)
unfolding unmark_socket
unmark_dead-WellFormed st sid none wf own h = wf
unmark_dead-WellFormed st sid (some ws) wf own h =
    elim (Option-cases (Dict.get st.authed_sockets ws)) [
      | inl unknown ↦ record {
        keyed = wf.keyed;
        member = wf.member;
        authed = λ w k.
            ground
              (arith, get-remove st.authed_sockets ws w, wf.authed w k, wf.authed ws k, unknown);
        indexed = wf.indexed;
        populated = wf.populated;
        no_channel = wf.no_channel;
        no_proof = wf.no_proof;
      }
      | inr (k, known) ↦ absurd (ground (arith, own k known, wf.authed ws sid, beq_self sid))
    ]

-- However a session ends, the maps still agree: the channels hold live members only, the indexes of
-- sockets and proofs point at the sessions that have them, and no empty channel stays.
pub terminate_session-WellFormed :
    (st : State) (sid : String) (opts : TerminateOpts) (now : ℕ)
    → WellFormed st
    → OwnSocket st sid opts.only_if_socket
    → WellFormed (terminate_session st sid opts now)
unfolding terminate_session
terminate_session-WellFormed st sid opts now wf own = elim (Option-cases (Dict.get st.nodes sid)) [
  | inl gone ↦ rw (gone, terminate_session) (vacant opts.only_if_socket own gone)
  | inr (session, live) ↦ elim (Bool-cases (is_other_socket opts.only_if_socket session.socket)) [
    | inl other ↦
        rw (live, terminate_session, other)
          (unmark_dead-WellFormed st sid opts.only_if_socket wf own (rw live other))
    | inr mine ↦
        rw (live, terminate_session, mine) (teardown-WellFormed st sid session opts now wf live)
  ]
]
  where
    vacant :
        (o : Option ℕ)
        → OwnSocket st sid o
        → Dict.get st.nodes sid ≡ none
        → WellFormed (unmark_dead st o)
    vacant none own gone = wf
    vacant (some ws) own gone = unmark_dead-WellFormed st sid (some ws) wf own (rw gone refl)
