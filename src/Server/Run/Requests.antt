-- ===== src/Server/Run/Requests.antt =====
-- What the requests that admit nobody leave of the sessions.
use misaka_network.Common.{
  Bool, Bool-cases, Option, Option-cases, String, [], ap, arith, false, inl, inr, nat_eq, nat_keys,
  none, refl, some, string_keys, true, ℕ, ◌∙◌, ◌∷◌, ◌≡◌,
}
use misaka_network.Common.Dict
use misaka_network.Common.Dict.{Dict, get-modify, length-modify}
use misaka_network.Server.Guard.{Limits}
use misaka_network.Server.Sessions.{
  State, Session, find_session_by_token, resolve_session_by_token, token_result, unless_expired,
  mark_token_expired, unmark_socket,
}
use misaka_network.Server.Sessions.Invariant.{WellFormed}
use misaka_network.Server.Lifecycle.{terminate_session}
use misaka_network.Server.Lifecycle.Identity.{
  Shrinks, same-Shrinks, trans-Shrinks, terminate_session-Shrinks,
}
use misaka_network.Server.Lifecycle.Terminate.{terminate_session-WellFormed}
use misaka_network.Server.Admission.{
  Server, Digests, Registration, RegisterBody, PassCodeRecord, charge_guess, Report, Reason,
}
use misaka_network.Server.Admission.Begin.{register_begin, begin_guarded}
use misaka_network.Server.Admission.Commit.{register_verified, upgrade, upgrade_fields}
use misaka_network.Server.Invitations.{
  qr_token, qr_redeem, redeem_guarded, fail_redeem, grant_redeem,
}
use misaka_network.Server.Reports.{
  report, report_from, warn, transfer_done, count_transfer, valid_node, new_report,
}
use misaka_network.Server.Release.{
  release, release_opts, release_scoped, release_bearer, release_bypass, release_open,
  release_matched, release_unmatched, to_release, Scope,
}
use misaka_network.Server.Release.Scope.{release_all-WellFormed, release_all-Shrinks}
use misaka_network.Server.Connection.{on_close}
use misaka_network.Server.Backpressure.{Wire, clear_slow_consumer_timer}
use misaka_network.Server.Ws.Keeps.{core, WellFormed-core}
use misaka_network.Server.Ws.Frames.{touched-WellFormed}
use misaka_network.Server.Run.Shrinks.{core-Shrinks}
use misaka_network.Server.Run.{
  Request, serve, KeepsIdentity, begins, invites, redeems, reports, finishes, releases,
  releases_by_ip, bypasses, opens_release, matches, mismatches, looks_up,
}

-- The maps agree afterwards, no session is added and none gets another identity.
pub record Tame (before after : State) : Type 0 where
  pub agree : WellFormed before → WellFormed after
  pub less : Shrinks before.nodes after.nodes

pub quiet-Tame : (before after : State) → core after ≡ core before → Tame before after
quiet-Tame before after same = record {
  agree = WellFormed-core before after same;
  less = core-Shrinks before.nodes same (same-Shrinks before.nodes);
}

trans-Tame : (a b c : State) → Tame a b → Tame b c → Tame a c
trans-Tame a b c f g = record {
  agree = λ wf. g.agree (f.agree wf);
  less = trans-Shrinks a.nodes b.nodes c.nodes f.less g.less;
}

find-core :
    (st : State) (token : String) (now : ℕ) → core (find_session_by_token st token now).0 ≡ core st
unfolding find_session_by_token resolve_session_by_token token_result unless_expired
    mark_token_expired
find-core st token now = ground arith

begin-sessions :
    (cfg : Limits) (digests : Digests) (sv : Server) (body : RegisterBody) (ip : String) (now : ℕ)
    → (register_begin cfg digests sv body ip now).0.sessions ≡ sv.sessions
unfolding register_begin begin_guarded
begin-sessions cfg digests sv body ip now = ground arith

invite-core :
    (cfg : Limits) (sv : Server) (bearer token channel : String) (now : ℕ)
    → core (qr_token cfg sv bearer token channel now).0.sessions ≡ core sv.sessions
unfolding qr_token
invite-core cfg sv bearer token channel now = ground (arith, find-core sv.sessions bearer now)

redeem-sessions :
    (cfg : Limits) (digests : Digests) (sv : Server) (token : String) (node_id : ℕ)
    (code ip : String) (now : ℕ) (channel drawn : String)
    → (qr_redeem cfg digests sv token node_id code ip now channel drawn).0.sessions ≡ sv.sessions
unfolding qr_redeem redeem_guarded fail_redeem grant_redeem
redeem-sessions cfg digests sv token node_id code ip now channel drawn = ground arith

finish-core :
    (cfg : Limits) (sv : Server) (token : String) (bytes : Option ℕ) (ip : String) (now : ℕ)
    → core (transfer_done cfg sv token bytes ip now).0.sessions ≡ core sv.sessions
unfolding transfer_done count_transfer
finish-core cfg sv token bytes ip now = ground (arith, find-core sv.sessions token now)

open-sessions :
    (cfg : Limits) (sv : Server) (node_id : ℕ) (ip : String) (now : ℕ)
    → (release_open cfg sv node_id ip now).0.sessions ≡ sv.sessions
unfolding release_open
open-sessions cfg sv node_id ip now = ground arith

ends-Tame :
    (st : State) (sid : String) (now : ℕ) → Tame st (terminate_session st sid release_opts now)
ends-Tame st sid now = record {
  agree = λ wf. terminate_session-WellFormed st sid release_opts now wf tt;
  less = terminate_session-Shrinks st sid release_opts now;
}

scoped-Tame :
    (st : State) (ip : String) (scope : Scope) (now : ℕ)
    → Tame st (release_scoped st ip scope now).0
unfolding release_scoped
scoped-Tame st ip scope now = record {
  agree = release_all-WellFormed st (to_release ip scope st.nodes) now;
  less = release_all-Shrinks st (to_release ip scope st.nodes) now;
}

release-Tame : (st : State) (token : String) (now : ℕ) → Tame st (release st token now)
unfolding release
release-Tame st token now =
    let searched = quiet-Tame st (find_session_by_token st token now).0 (find-core st token now) in
    elim (Option-cases (find_session_by_token st token now).1) [
      | inl nobody ↦ rw (nobody, release) searched
      | inr (s, found) ↦
          rw (found, release) (trans-Tame st _ _ searched (ends-Tame _ s.session_id now))
    ]

bearer-Tame :
    (sv : Server) (token ip : String) (now : ℕ)
    → Tame sv.sessions (release_bearer sv token ip now).0.sessions
unfolding release_bearer
bearer-Tame sv token ip now =
    let st = sv.sessions in
    let searched = quiet-Tame st (find_session_by_token st token now).0 (find-core st token now) in
    elim (Option-cases (find_session_by_token st token now).1) [
      | inl nobody ↦ rw (nobody, release_bearer) searched
      | inr (s, found) ↦
          rw (found, release_bearer)
            (trans-Tame st _ _ searched (scoped-Tame _ ip (some (s.node_id, s.pass_code_hash)) now))
    ]

filed-core :
    (cfg : Limits) (sv : Server) (source : Session) (r : Report)
    → core (report_from cfg sv source r).0.sessions ≡ core sv.sessions
unfolding report_from warn
filed-core cfg sv source r = ground arith

report-core :
    (cfg : Limits) (sv : Server) (node_id : ℕ) (reason : Reason) (token id ip : String) (now : ℕ)
    → core (report cfg sv node_id reason token id ip now).0.sessions ≡ core sv.sessions
unfolding report
report-core cfg sv node_id reason token id ip now =
    let (st, found) = find_session_by_token sv.sessions token now in
    let searched = find-core sv.sessions token now in
    elim (Bool-cases (valid_node cfg node_id)) [
      | inr bad ↦ rw (bad, report) refl
      | inl good ↦ elim (Option-cases found) [
        | inl nobody ↦ rw (good, report, nobody) searched
        | inr (s, is_s) ↦
            rw (good, report, is_s)
              (filed-core cfg (record sv { sessions = st }) s
                  (new_report id s node_id reason ip now)
                ∙ searched)
      ]
    ]

remove_missing : (m : Dict ℕ String) (k : ℕ) → Dict.get m k ≡ none → Dict.remove m k ≡ m
unfolding Dict.get Dict.remove
remove_missing [] k gone = refl
remove_missing ((j, v) ∷ m) k gone = elim (Bool-cases (nat_eq j k)) [
  | inl same ↦ absurd (ground (arith, gone, same))
  | inr differ ↦
      rw differ (ap (λ r. (j, v) ∷ r) (remove_missing m k (ground (arith, gone, differ))))
]

-- A socket that never authenticated is in no index.
pub hung_up-core :
    (w : Wire) (ws now : ℕ)
    → Dict.get w.sessions.authed_sockets ws ≡ none
    → core (on_close w ws none now).sessions ≡ core w.sessions
unfolding on_close unmark_socket clear_slow_consumer_timer
hung_up-core w ws now unknown =
    ap (λ m. (w.sessions.nodes, w.sessions.channels, w.sessions.re_register_proof_index, m))
      (remove_missing w.sessions.authed_sockets ws unknown)

pub serve-Tame :
    (cfg : Limits) (digests : Digests) (sv : Server) (request : Request)
    → Tame sv.sessions (serve cfg digests sv request).sessions
unfolding serve
serve-Tame cfg digests sv (begins body ip now) =
    quiet-Tame _ _ (ap core (begin-sessions cfg digests sv body ip now))
serve-Tame cfg digests sv (invites bearer token channel now) =
    quiet-Tame _ _ (invite-core cfg sv bearer token channel now)
serve-Tame cfg digests sv (redeems token node_id code ip now channel drawn) =
    quiet-Tame _ _
      (ap core (redeem-sessions cfg digests sv token node_id code ip now channel drawn))
serve-Tame cfg digests sv (reports node_id reason token id ip now) =
    quiet-Tame _ _ (report-core cfg sv node_id reason token id ip now)
serve-Tame cfg digests sv (finishes token bytes ip now) =
    quiet-Tame _ _ (finish-core cfg sv token bytes ip now)
serve-Tame cfg digests sv (releases token now) = release-Tame sv.sessions token now
serve-Tame cfg digests sv (releases_by_ip token ip now) = bearer-Tame sv token ip now
serve-Tame cfg digests sv (bypasses ip now) =
    unfold release_bypass in scoped-Tame sv.sessions ip none now
serve-Tame cfg digests sv (opens_release node_id ip now) =
    quiet-Tame _ _ (ap core (open-sessions cfg sv node_id ip now))
serve-Tame cfg digests sv (matches node_id ip identity now) =
    unfold release_matched in scoped-Tame sv.sessions ip (some (node_id, identity)) now
serve-Tame cfg digests sv (mismatches node_id ip lock now flushed) =
    unfold release_unmatched in quiet-Tame _ _ refl
serve-Tame cfg digests sv (looks_up token now) = quiet-Tame _ _ (find-core sv.sessions token now)

upgrade-Shrinks :
    (st : State) (verifier : Session) (fields : PassCodeRecord)
    → KeepsIdentity st verifier (some fields)
    → Shrinks st.nodes (upgrade st verifier (some fields)).nodes
unfolding upgrade
upgrade-Shrinks st verifier fields own = record {
  kept = λ k s h. elim (Option-cases (Dict.get st.nodes k)) [
    | inl gone ↦
        absurd (
          ground
            (arith, get-modify st.nodes verifier.session_id k (upgrade_fields fields), h, gone))
    | inr (t, there) ↦ ground (
      arith,
      get-modify st.nodes verifier.session_id k (upgrade_fields fields),
      h,
      there,
      own t,
      string_keys.beq_iff verifier.session_id k,
      ap (λ x. Dict.get st.nodes x) {x = verifier.session_id} {y = k},
    )
  ];
  shorter = omega (arith, length-modify st.nodes verifier.session_id (upgrade_fields fields));
}

pub verified-Tame :
    (cfg : Limits) (sv : Server) (reg : Registration) (verifier : Session) (held : Bool)
    (fields : Option PassCodeRecord)
    → KeepsIdentity sv.sessions verifier fields
    → Tame sv.sessions (register_verified cfg sv reg verifier held fields).0.sessions
unfolding register_verified charge_guess upgrade
verified-Tame cfg sv reg verifier false fields own = quiet-Tame _ _ refl
verified-Tame cfg sv reg verifier true none own = quiet-Tame _ _ refl
verified-Tame cfg sv reg verifier true (some fields) own = record {
  agree =
      touched-WellFormed sv.sessions verifier.session_id (upgrade_fields fields)
        (λ t. (refl, refl, refl, refl));
  less = upgrade-Shrinks sv.sessions verifier fields own;
}
