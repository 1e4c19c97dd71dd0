-- ===== src/Server/Lifecycle/Teardown.antt =====
-- What `terminateSession` of server/src/sessions.ts takes down, step by step.
use misaka_network.Server.Lifecycle.Invariant.{not_empty, own_id, leave_channel-WellFormed}
use misaka_network.Server.Sessions.Invariant.{WellFormed, modify-Keyed, holds→eq, remove-Keyed}
use misaka_network.Server.Sessions.{State, Session}
use misaka_network.Common.{
  Bool-cases, Option-cases, String, ap, arith, beq_self, false, inl, inr, nat_keys, none, refl,
  some, string_keys, ℕ, ◌==◌, ◌∙◌, ◌≡◌,
}
use misaka_network.Common.Dict
use misaka_network.Common.Dict.{
  Dict, get-put, get-remove, get-modify, get-put_self, get-remove_self,
}
use misaka_network.Server.Lifecycle.{
  off_channel, off_socket, leave, leave_channel, detach, evict, announce_leave, teardown,
  close_socket, TerminateOpts, can_close, ready_state,
}

-- Off its channel, the session is what `off_channel` makes of it.
pub get-leave_channel :
    (st : State) (sid : String) (session : Session)
    → WellFormed st
    → Dict.get st.nodes sid ≡ some session
    → Dict.get (leave_channel st session).nodes sid ≡ some (off_channel session)
unfolding leave_channel leave
get-leave_channel st sid session wf live = elim (Option-cases session.channel_id) [
  | inl out ↦ rw (out, leave_channel) (live ∙ (λ i. some (record session { channel_id = out i })))
  | inr (c, at) ↦ elim (Option-cases (Dict.get st.channels c)) [
    | inl gone ↦
        rw (at, leave_channel, not_empty st sid session wf live c at, gone, leave)
          (ground (
            arith,
            get-modify st.nodes session.session_id sid off_channel,
            own_id st sid session wf live,
            string_keys.beq_iff session.session_id sid,
            live,
          ))
    | inr (ms, has) ↦
        rw (at, leave_channel, not_empty st sid session wf live c at, has, leave)
          (ground (
            arith,
            get-modify st.nodes session.session_id sid off_channel,
            own_id st sid session wf live,
            string_keys.beq_iff session.session_id sid,
            live,
          ))
  ]
]

close_socket-WellFormed :
    (st : State) (ws code : ℕ) (reason : String)
    → WellFormed st
    → WellFormed (close_socket st ws code reason)
unfolding close_socket
close_socket-WellFormed st ws code reason wf = elim (Bool-cases (can_close (ready_state st ws))) [
  | inl shut ↦ rw shut (record {
    keyed = wf.keyed;
    member = wf.member;
    authed = wf.authed;
    indexed = wf.indexed;
    populated = wf.populated;
    no_channel = wf.no_channel;
    no_proof = wf.no_proof;
  })
  | inr still ↦ rw still wf
]

abbrev touch : ℕ → Session → Session
touch now s = record s { last_seen = now }

-- `session` is the object as the caller holds it; `cur` is what the map has under its id.
module _ (st : State) (sid : String) (session cur : Session) (wf : WellFormed st)
    (live : Dict.get st.nodes sid ≡ some cur) (own : session.session_id ≡ sid) where
  detached-WellFormed :
      (ws : ℕ)
      → cur.socket ≡ some ws
      → WellFormed (record st {
        nodes = Dict.modify st.nodes sid off_socket;
        authed_sockets = Dict.remove st.authed_sockets ws;
      })
  detached-WellFormed ws has = record {
    keyed = modify-Keyed st.nodes sid off_socket (λ s. refl) wf.keyed;
    member = λ d k.
        ground
          (arith, get-modify st.nodes sid k off_socket, wf.member d k, string_keys.beq_iff sid k);
    authed = λ w k. ground (
      arith,
      get-modify st.nodes sid k off_socket,
      get-remove st.authed_sockets ws w,
      wf.authed w k,
      wf.authed ws k,
      wf.authed ws sid,
      holds→eq (Dict.get st.authed_sockets ws) sid,
      live,
      has,
      string_keys.beq_iff sid k,
    );
    indexed = λ p k.
        ground
          (arith, get-modify st.nodes sid k off_socket, wf.indexed p k, string_keys.beq_iff sid k);
    populated = wf.populated;
    no_channel = wf.no_channel;
    no_proof = wf.no_proof;
  }

  detach-WellFormed :
      (opts : TerminateOpts) → cur.socket ≡ session.socket → WellFormed (detach st session opts)
  unfolding detach
  detach-WellFormed opts same = elim (Option-cases session.socket) [
    | inl off ↦ rw (off, detach) wf
    | inr (ws, on) ↦ elim (Bool-cases opts.closes_socket) [
      | inl shut ↦
          rw (on, detach, shut, own)
            (close_socket-WellFormed _ ws opts.close_code opts.close_reason
              (detached-WellFormed ws (same ∙ on)))
      | inr leave_open ↦ rw (on, detach, leave_open, own) (detached-WellFormed ws (same ∙ on))
    ]
  ]

  pub get-detach :
      (opts : TerminateOpts)
      → cur.socket ≡ session.socket
      → Dict.get (detach st session opts).nodes sid ≡ some (off_socket cur)
  unfolding detach close_socket
  get-detach opts same = elim (Option-cases session.socket) [
    | inl off ↦ rw (off, detach) (live ∙ (λ i. some (record cur { socket = (same ∙ off) i })))
    | inr (ws, on) ↦ ground (arith, get-modify st.nodes sid sid off_socket, beq_self sid)
  ]

  pub proof_named : (cur.re_register_proof == "") ≡ false
  proof_named = ground (
    arith,
    wf.indexed cur.re_register_proof sid,
    live,
    wf.no_proof,
    string_keys.beq_iff cur.re_register_proof "",
    beq_self cur.re_register_proof,
    ap (λ d. Dict.get st.re_register_proof_index d) {x = cur.re_register_proof} {y = ""},
  )

  evict-WellFormed :
      (opts : TerminateOpts) (now : ℕ)
      → cur.socket ≡ none
      → cur.channel_id ≡ none
      → cur.re_register_proof ≡ session.re_register_proof
      → WellFormed (evict st session opts now)
  unfolding evict
  evict-WellFormed opts now off out same = elim (Bool-cases opts.preserve_session) [
    | inl kept ↦
        rw (kept, own)
          (record {
            keyed = modify-Keyed st.nodes sid (touch now) (λ s. refl) wf.keyed;
            member = λ d k. ground (
              arith,
              get-modify st.nodes sid k (touch now),
              wf.member d k,
              string_keys.beq_iff sid k,
            );
            authed = λ w k. ground (
              arith,
              get-modify st.nodes sid k (touch now),
              wf.authed w k,
              string_keys.beq_iff sid k,
            );
            indexed = λ p k. ground (
              arith,
              get-modify st.nodes sid k (touch now),
              wf.indexed p k,
              string_keys.beq_iff sid k,
            );
            populated = wf.populated;
            no_channel = wf.no_channel;
            no_proof = wf.no_proof;
          })
    | inr dropped ↦
        rw (dropped, own, ← same, proof_named)
          (record {
            keyed = remove-Keyed st.nodes sid wf.keyed;
            member = λ d k. ground (
              arith,
              get-remove st.nodes sid k,
              wf.member d k,
              live,
              out,
              string_keys.beq_iff sid k,
            );
            authed = λ w k. ground (
              arith,
              get-remove st.nodes sid k,
              wf.authed w k,
              live,
              off,
              string_keys.beq_iff sid k,
            );
            indexed = λ p k. ground (
              arith,
              get-remove st.nodes sid k,
              get-remove st.re_register_proof_index cur.re_register_proof p,
              wf.indexed p k,
              wf.indexed cur.re_register_proof k,
              wf.indexed cur.re_register_proof sid,
              holds→eq (Dict.get st.re_register_proof_index cur.re_register_proof) sid,
              live,
              beq_self cur.re_register_proof,
              string_keys.beq_iff sid k,
              string_keys.beq_iff cur.re_register_proof p,
            );
            populated = wf.populated;
            no_channel = wf.no_channel;
            no_proof = ground (
              arith,
              get-remove st.re_register_proof_index cur.re_register_proof "",
              wf.no_proof,
            );
          })
  ]

announce_leave-WellFormed :
    (st : State) (session : Session) (opts : TerminateOpts)
    → WellFormed st
    → WellFormed (announce_leave st session opts)
unfolding announce_leave
announce_leave-WellFormed st session opts wf = elim (Bool-cases opts.broadcast_leave) [
  | inl loud ↦ rw loud (record {
    keyed = wf.keyed;
    member = wf.member;
    authed = wf.authed;
    indexed = wf.indexed;
    populated = wf.populated;
    no_channel = wf.no_channel;
    no_proof = wf.no_proof;
  })
  | inr quiet ↦ rw quiet wf
]

pub teardown-WellFormed :
    (st : State) (sid : String) (session : Session) (opts : TerminateOpts) (now : ℕ)
    → WellFormed st
    → Dict.get st.nodes sid ≡ some session
    → WellFormed (teardown st session opts now)
unfolding teardown
teardown-WellFormed st sid session opts now wf live =
    let own = own_id st sid session wf live in
    let left = leave_channel st session in
    let left_wf = leave_channel-WellFormed st sid session wf live in
    let left_live = get-leave_channel st sid session wf live in
    let off_wf =
      detach-WellFormed left sid session (off_channel session) left_wf left_live own opts refl in
    let off_live =
      get-detach left sid session (off_channel session) left_wf left_live own opts refl in
    announce_leave-WellFormed _ session opts (
      evict-WellFormed (detach left session opts) sid session (off_socket (off_channel session))
        off_wf off_live own opts now refl refl refl)
