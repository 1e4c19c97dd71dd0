-- ===== src/Server/Run/Kept.antt =====
-- A server that runs is sound at every time.
use misaka_network.Common.{
  Bool-cases, Option, ap, arith, beq_self, inl, inr, length, none, refl, some, string_keys, subst,
  sym, ℕ, ◌∙◌, ◌≡◌, nat_keys,
}
use misaka_network.Common.Dict
use misaka_network.Common.Dict.{Dict, get-modify}
use misaka_network.Server.Guard.{Limits}
use misaka_network.Server.Sessions.{Session, empty, is_session_expired}
use misaka_network.Server.Sessions.Invariant.{WellFormed}
use misaka_network.Server.Lifecycle.Identity.{Shrinks}
use misaka_network.Server.Lifecycle.Identity.{terminate_session-Shrinks}
use misaka_network.Server.Lifecycle.Terminate.{terminate_session-WellFormed}
use misaka_network.Server.Admission.{Server, Digests}
use misaka_network.Server.Admission.Safety.{Sound, Fits, register_commit-Sound}
use misaka_network.Server.Admission.Keeps.{Fits_le, Shrinks-OneIdentity, re_register-Sound}
use misaka_network.Server.Admission.Renew.{renew-WellFormed}
use misaka_network.Server.Backpressure.{Net, Wire}
use misaka_network.Server.Ws.{Message}
use misaka_network.Server.Ws.Keeps.{
  WellFormed-core, core-close_socket, core, core-send, core-recheck,
}
use misaka_network.Server.Run.Requests.{Tame, quiet-Tame, hung_up-core, serve-Tame, verified-Tame}
use misaka_network.Server.Ws.Frames.{touched-WellFormed, handle_message-WellFormed}
use misaka_network.Server.Connection.{later_frame}
use misaka_network.Server.Connection.Keeps.{attach-WellFormed}
use misaka_network.Server.Cleanup.Tick.{run_cleanup_tick-WellFormed}
use misaka_network.Server.Run.{
  Reached, started, starts, registers, re_registers, renews, connects, frames, ends, ticks, serves,
  verifies, sends, rechecks, closes, moves, hangs_up,
}
use misaka_network.Server.Run.Shrinks.{
  renew-Shrinks, attach-Shrinks, later_frame-Shrinks, run_cleanup_tick-Shrinks,
}

later_frame-WellFormed :
    (cfg : Limits) (net : Net) (w : Wire) (ws : ℕ) (s : Session) (msg : Message) (now : ℕ)
    → WellFormed w.sessions
    → Dict.get w.sessions.nodes s.session_id ≡ some s
    → WellFormed (later_frame cfg net w ws s msg now).sessions
unfolding later_frame
later_frame-WellFormed cfg net w ws s msg now wf live =
    elim (Bool-cases (is_session_expired s now)) [
      | inl over ↦
          rw (over, later_frame)
            (WellFormed-core w.sessions _ (core-close_socket w.sessions ws 4002 "SESSION_EXPIRED")
              wf)
      | inr open_still ↦
          let f : Session → Session = λ t. record t { last_seen = now } in
          let seen = record w {
            sessions = record w.sessions { nodes = Dict.modify w.sessions.nodes s.session_id f };
          } in
          rw (open_still, later_frame)
            (handle_message-WellFormed cfg net seen ws (f s) msg now
              (touched-WellFormed w.sessions s.session_id f (λ t. (refl, refl, refl, refl)) wf)
              (ground (
                arith,
                get-modify w.sessions.nodes s.session_id s.session_id f,
                live,
                beq_self s.session_id,
              )))
    ]

-- What adds no session and changes no identity keeps a sound server sound where the maps agree.
Shrinks-Sound :
    (cfg : Limits) (sv : Server) (after : Server)
    → Sound cfg sv
    → WellFormed after.sessions
    → Shrinks sv.sessions.nodes after.sessions.nodes
    → Sound cfg after
Shrinks-Sound cfg sv after sound agree less = record {
  agree = agree;
  capacity =
      Fits_le cfg.max_nodes (length after.sessions.nodes) (length sv.sessions.nodes) less.shorter
        sound.capacity;
  one_identity = Shrinks-OneIdentity sv.sessions.nodes after.sessions.nodes less sound.one_identity;
}

empty-Fits : (o : Option ℕ) → Fits o 0
empty-Fits none = tt
empty-Fits (some limit) = omega arith

empty-WellFormed : WellFormed empty
unfolding Dict.get
empty-WellFormed = record {
  keyed = λ k s h. cc;
  member = λ c k. refl;
  authed = λ w k. refl;
  indexed = λ p k. refl;
  populated = λ c h. cc;
  no_channel = refl;
  no_proof = refl;
}

started-Sound : (cfg : Limits) → Sound cfg started
unfolding Dict.get
started-Sound cfg = record {
  agree = empty-WellFormed;
  capacity = empty-Fits cfg.max_nodes;
  one_identity = λ j k s t js kt same. cc;
}

Tame-Sound :
    (cfg : Limits) (sv after : Server)
    → Sound cfg sv
    → Tame sv.sessions after.sessions
    → Sound cfg after
Tame-Sound cfg sv after sound tame =
    Shrinks-Sound cfg sv after sound (tame.agree sound.agree) tame.less

-- A server that has run since it started is sound at every time: its maps agree, it has no more
-- sessions than its limit, and the sessions of a node all have one identity. A run is any sequence of
-- the pieces of registrations; re-registrations and renewals; invitations made and redeemed; reports,
-- finished transfers and releases of each kind; connections and the frames they send; frames sent and
-- their rechecks, sockets that the server, the network or the peers open and close; ends of sessions
-- and ticks. What the server draws is fresh, each socket authenticates once, frames come from the
-- connections of live sessions, a verifier is upgraded under its own identity, and where only the
-- session of one socket is to end, that socket has authenticated no other.
pub Reached-Sound :
    (cfg : Limits) (digests : Digests) (sv : Server) → Reached cfg digests sv → Sound cfg sv
Reached-Sound cfg digests _ starts = started-Sound cfg
Reached-Sound cfg digests _ (registers sv reg fields drawn now fresh before) =
    register_commit-Sound cfg digests sv reg fields drawn now (Reached-Sound cfg digests sv before)
      fresh
Reached-Sound cfg digests _ (serves sv request before) =
    Tame-Sound cfg sv _ (Reached-Sound cfg digests sv before) (serve-Tame cfg digests sv request)
Reached-Sound cfg digests _ (verifies sv reg verifier held fields own before) =
    Tame-Sound cfg sv _ (Reached-Sound cfg digests sv before)
      (verified-Tame cfg sv reg verifier held fields own)
Reached-Sound cfg digests _ (sends sv net w ws frame now same before) =
    Tame-Sound cfg sv _ (Reached-Sound cfg digests sv before)
      (quiet-Tame _ _ (core-send net w ws frame now ∙ ap core same))
Reached-Sound cfg digests _ (rechecks sv net w ws now same before) =
    Tame-Sound cfg sv _ (Reached-Sound cfg digests sv before)
      (quiet-Tame _ _ (core-recheck net w ws now ∙ ap core same))
Reached-Sound cfg digests _ (closes sv ws code reason before) =
    Tame-Sound cfg sv _ (Reached-Sound cfg digests sv before)
      (quiet-Tame _ _ (core-close_socket sv.sessions ws code reason))
Reached-Sound cfg digests _ (hangs_up sv w ws now same unknown before) =
    Tame-Sound cfg sv _ (Reached-Sound cfg digests sv before) (
      quiet-Tame _ _ (
        hung_up-core w ws now (ap (λ st. Dict.get st.authed_sockets ws) same ∙ unknown)
        ∙ ap core same))
Reached-Sound cfg digests _ (moves sv sockets before) =
    Tame-Sound cfg sv _ (Reached-Sound cfg digests sv before) (quiet-Tame _ _ refl)
Reached-Sound cfg digests _ (re_registers sv proof drawn ip now fresh before) =
    re_register-Sound cfg digests sv proof drawn ip now (Reached-Sound cfg digests sv before) fresh
Reached-Sound cfg digests _ (renews sv s token next now live unused named had before) =
    let sound = Reached-Sound cfg digests sv before in
    Shrinks-Sound cfg sv _ sound
      (renew-WellFormed cfg sv.sessions s token next now sound.agree live unused named had)
      (renew-Shrinks cfg sv.sessions s token next now had)
Reached-Sound cfg digests _ (connects sv s ws ip now unused live before) =
    let sound = Reached-Sound cfg digests sv before in
    Shrinks-Sound cfg sv _ sound (attach-WellFormed sv.sessions s ws ip now unused sound.agree live)
      (attach-Shrinks sv.sessions s ws ip now unused sound.agree live)
Reached-Sound cfg digests _ (frames sv net w ws s msg now same live before) =
    let sound = Reached-Sound cfg digests sv before in
    Shrinks-Sound cfg sv _ sound
      (later_frame-WellFormed cfg net w ws s msg now
        (subst (λ st. WellFormed st) (sym same) sound.agree)
        (ap (λ st. Dict.get st.nodes s.session_id) same ∙ live))
      (subst (λ st. Shrinks st.nodes (later_frame cfg net w ws s msg now).sessions.nodes) same
        (later_frame-Shrinks cfg net w ws s msg now))
Reached-Sound cfg digests _ (ends sv sid opts now own before) =
    let sound = Reached-Sound cfg digests sv before in
    Shrinks-Sound cfg sv _ sound
      (terminate_session-WellFormed sv.sessions sid opts now sound.agree own)
      (terminate_session-Shrinks sv.sessions sid opts now)
Reached-Sound cfg digests _ (ticks sv now before) =
    let sound = Reached-Sound cfg digests sv before in
    Shrinks-Sound cfg sv _ sound (run_cleanup_tick-WellFormed cfg sv now sound.agree)
      (run_cleanup_tick-Shrinks cfg sv now)
