-- ===== src/Server/Lifecycle/Others.antt =====
-- The end of a session leaves every other session as it is.
use misaka_network.Common.Dict
use misaka_network.Common.{
  Bool-cases, Option-cases, String, ap, false, inl, inr, refl, string_keys, subst, sym, ℕ, ◌==◌,
  ◌∙◌, ◌≡◌,
}
use misaka_network.Common.Dict.{Dict, get-modify, get-remove, get}
use misaka_network.Server.Sessions.{State, Session, unindex_re_register_proof, unmark_socket}
use misaka_network.Server.Lifecycle.{
  off_channel, off_socket, leave, leave_channel, detach, evict, teardown, terminate_session,
  TerminateOpts, is_other_socket,
}
use misaka_network.Server.Lifecycle.Identity.{
  close_socket-nodes, announce_leave-nodes, unmark_dead-nodes,
}
use misaka_network.Server.Sessions.Invariant.{WellFormed}

module _ (s : Session) (k : String) (differ : (s.session_id == k) ≡ false) where
  leave_channel-other : (st : State) → get (leave_channel st s).nodes k ≡ get st.nodes k
  unfolding leave_channel leave
  leave_channel-other st = elim (Option-cases s.channel_id) [
    | inl out ↦ rw (out, leave_channel) refl
    | inr (c, at) ↦ elim (Bool-cases (c == "")) [
      | inl nameless ↦ rw (at, leave_channel, nameless) refl
      | inr named ↦ elim (Option-cases (get st.channels c)) [
        | inl gone ↦
            rw (at, leave_channel, named, gone, leave)
              (rw (get-modify st.nodes s.session_id k off_channel, differ) refl)
        | inr (ms, has) ↦
            rw (at, leave_channel, named, has, leave)
              (rw (get-modify st.nodes s.session_id k off_channel, differ) refl)
      ]
    ]
  ]

  detach-other :
      (st : State) (opts : TerminateOpts) → get (detach st s opts).nodes k ≡ get st.nodes k
  unfolding detach unmark_socket
  detach-other st opts = elim (Option-cases s.socket) [
    | inl away ↦ rw (away, detach) refl
    | inr (ws, has) ↦
        let kept : get (Dict.modify st.nodes s.session_id off_socket) k ≡ get st.nodes k =
          rw (get-modify st.nodes s.session_id k off_socket, differ) refl in
        elim (Bool-cases opts.closes_socket) [
          | inl closes ↦ rw (has, detach, closes) (rw close_socket-nodes kept)
          | inr stays ↦ rw (has, detach, stays) kept
        ]
  ]

  evict-other :
      (st : State) (opts : TerminateOpts) (now : ℕ)
      → get (evict st s opts now).nodes k ≡ get st.nodes k
  unfolding evict unindex_re_register_proof
  evict-other st opts now =
      let kept : get (Dict.remove st.nodes s.session_id) k ≡ get st.nodes k =
        rw (get-remove st.nodes s.session_id k, differ) refl in
      elim (Bool-cases opts.preserve_session) [
        | inl keep ↦
            rw (keep, evict)
              (rw (get-modify st.nodes s.session_id k (λ t. record t { last_seen = now }), differ)
                refl)
        | inr dropped ↦ elim (Bool-cases (s.re_register_proof == "")) [
          | inl nameless ↦ rw (dropped, evict, nameless) kept
          | inr named ↦ rw (dropped, evict, named) kept
        ]
      ]

  teardown-other :
      (st : State) (opts : TerminateOpts) (now : ℕ)
      → get (teardown st s opts now).nodes k ≡ get st.nodes k
  unfolding teardown
  teardown-other st opts now =
      let left = leave_channel st s in
      let bare = detach left s opts in
      ap (λ m. get m k) (announce_leave-nodes (evict bare s opts now) s opts)
      ∙ evict-other bare opts now
      ∙ detach-other left opts
      ∙ leave_channel-other st

pub terminate_session-other :
    (st : State) (sid k : String) (opts : TerminateOpts) (now : ℕ)
    → WellFormed st
    → (sid == k) ≡ false
    → get (terminate_session st sid opts now).nodes k ≡ get st.nodes k
unfolding terminate_session
terminate_session-other st sid k opts now wf differ =
    let dead = ap (λ m. get m k) (unmark_dead-nodes st opts.only_if_socket) in
    elim (Option-cases (get st.nodes sid)) [
      | inl gone ↦ rw (gone, terminate_session) dead
      | inr (s, live) ↦ elim (Bool-cases (is_other_socket opts.only_if_socket s.socket)) [
        | inl other ↦ rw (live, terminate_session, other) dead
        | inr mine ↦
            rw (live, terminate_session, mine)
              (teardown-other s k (subst (λ x. (x == k) ≡ false) (sym (wf.keyed sid s live)) differ)
                st opts now)
      ]
    ]
