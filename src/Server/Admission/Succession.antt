-- ===== src/Server/Admission/Succession.antt =====
-- server/src/http.ts: what a re-registration does to the sessions.
use misaka_network.Common.{
  Bool, Bool-cases, Option, String, ap, arith, false, inl, inr, ltb, none, refl, some, string_keys,
  subst, sym, true, ℕ, ◌+◌, ◌==◌, ◌||◌, ◌∙◌, ◌≡◌, ◌⊎◌,
}
use misaka_network.Common.Dict
use misaka_network.Common.Dict.{Dict, get-put, get-put_self}
use misaka_network.Server.Guard.{Limits}
use misaka_network.Server.Sessions.{
  State, Session, resolve_re_register_proof, proof_too_short, is_session_expired,
  index_re_register_proof, ProofStatus,
}
use misaka_network.Server.Sessions.Proofs.{resolve-ok, resolve-live}
use misaka_network.Server.Lifecycle.{terminate_session}
use misaka_network.Server.Lifecycle.Others.{terminate_session-other}
use misaka_network.Server.Lifecycle.Ends.{ended_gone}
use misaka_network.Server.Admission.{
  Server, Digests, Drawn, answer, admitted, publish, invalid_input,
}
use misaka_network.Server.Admission.Safety.{Sound}
use misaka_network.Server.Admission.Replace.{
  re_register, replace, successor, superseding, accept_proof, reject_proof, valid_proof, locked_at,
  moves_to_full,
}
use misaka_network.Server.Admission.Keeps.{
  FreshAfter, re_register-Sound, ProofStatus-cases, reject-sessions, resolve-nodes,
}
use misaka_network.Server.Invitations.Once.{is_admitted}

-- The session that the proof is for, and that is not past its time.
pub record Proves (st : State) (proof : String) (now : ℕ) (old : Session) : Type 0 where
  pub live : Dict.get st.nodes old.session_id ≡ some old
  pub its_proof : old.re_register_proof ≡ proof
  pub in_time : is_session_expired old now ≡ false

-- The session `s` has the place of `old`.
pub record Succeeds (drawn : Drawn) (old s : Session) : Type 0 where
  pub its_id : s.session_id ≡ drawn.session_id
  pub its_token : s.token ≡ drawn.token
  pub its_proof : s.re_register_proof ≡ drawn.proof
  pub same_node : s.node_id ≡ old.node_id
  pub same_identity : s.pass_code_hash ≡ old.pass_code_hash
  pub same_check : s.pass_code_verify_hash ≡ old.pass_code_verify_hash
  pub same_salt : s.pass_code_salt ≡ old.pass_code_salt

-- The map afterwards: the successor is in it and its proof is indexed, the old session is gone, and
-- every other session is as it was.
pub record Replaced (before after : State) (drawn : Drawn) (old : Session) : Type 0 where
  pub successor_live :
      (s : Session) × (Dict.get after.nodes drawn.session_id ≡ some s) × Succeeds drawn old s
  pub indexed : Dict.get after.re_register_proof_index drawn.proof ≡ some drawn.session_id
  pub old_gone :
      (drawn.session_id == old.session_id) ≡ false → Dict.get after.nodes old.session_id ≡ none
  pub others :
      (k : String)
      → (drawn.session_id == k) ≡ false
      → (old.session_id == k) ≡ false
      → Dict.get after.nodes k ≡ Dict.get before.nodes k

-- The attempter is locked, or the address has no room for a session that moves there.
abbrev pub held_up : Limits → Server → Session → String → ℕ → Bool
held_up cfg sv old ip now = ltb now (locked_at sv ip old.node_id) || moves_to_full cfg sv old ip

abbrev pub Admits : Limits → Digests → Server → String → Drawn → String → ℕ → Type 0
Admits cfg digests sv proof drawn ip now =
    let after = re_register cfg digests sv proof drawn ip now in
    (old : Session) × Proves sv.sessions proof now old
    × (held_up cfg sv old ip now ≡ false)
    × (after.1
        ≡ answer (admitted drawn.session_id drawn.token (now + cfg.session_ttl_ms) drawn.proof))
    × Replaced sv.sessions after.0.sessions drawn old

abbrev pub TurnsAway : Limits → Digests → Server → String → Drawn → String → ℕ → Type 0
TurnsAway cfg digests sv proof drawn ip now =
    let after = re_register cfg digests sv proof drawn ip now in
    (after.0.sessions.nodes ≡ sv.sessions.nodes)
    × (is_admitted after.1 ≡ false)
    × ((old : Session)
        → valid_proof proof ≡ true
        → Proves sv.sessions proof now old
        → (old.session_id == "") ≡ false
        → held_up cfg sv old ip now ≡ true)

module _ (cfg : Limits) (digests : Digests) (sv : Server) (drawn : Drawn) (ip : String) (now : ℕ)
    (sound : Sound cfg sv) where
  replace-Replaced :
      (old : Session)
      → Dict.get sv.sessions.nodes old.session_id ≡ some old
      → Replaced sv.sessions (replace cfg digests sv old drawn ip now).0.sessions drawn old
  unfolding replace publish index_re_register_proof
  replace-Replaced old live =
      let st = sv.sessions in
      let ended = terminate_session st old.session_id superseding now in
      let s = successor cfg digests old drawn ip now in
      record {
        successor_live = (
          s,
          get-put_self ended.nodes drawn.session_id s,
          record {
            its_id = refl;
            its_token = refl;
            its_proof = refl;
            same_node = refl;
            same_identity = refl;
            same_check = refl;
            same_salt = refl;
          },
        );
        indexed = get-put_self ended.re_register_proof_index drawn.proof drawn.session_id;
        old_gone = λ other.
            get-put ended.nodes drawn.session_id old.session_id s
            ∙ rw other (
                ended_gone st old.session_id old superseding now sound.agree
                  (record { live = live; mine = refl; dropped = refl }));
        others = λ k other differ.
            get-put ended.nodes drawn.session_id k s
            ∙ rw other
                (terminate_session-other st old.session_id k superseding now sound.agree differ);
      }

  accept-Admits :
      (old : Session) (open_to : held_up cfg sv old ip now ≡ false)
      → accept_proof cfg digests sv old drawn ip now ≡ replace cfg digests sv old drawn ip now
  unfolding accept_proof
  accept-Admits old open_to = ground (arith, open_to)

  accept-refuses :
      (old : Session)
      → held_up cfg sv old ip now ≡ true
      → ((accept_proof cfg digests sv old drawn ip now).0 ≡ sv)
        × (is_admitted (accept_proof cfg digests sv old drawn ip now).1 ≡ false)
  unfolding accept_proof
  accept-refuses old held = ground (arith, held)

  reject-not_admitted :
      (owner : Option ℕ) (st : State)
      → is_admitted (reject_proof cfg (record sv { sessions = st }) owner ip now).1 ≡ false
  unfolding reject_proof
  reject-not_admitted owner st = ground arith

  -- The answer of a proof that resolves is that of the session that it is for.
  resolved-ok :
      (proof : String) (old : Session)
      → valid_proof proof ≡ true
      → (resolve_re_register_proof sv.sessions proof now).1 ≡ ProofStatus.ok old
      → Proves sv.sessions proof now old
        × (re_register cfg digests sv proof drawn ip now
            ≡ accept_proof cfg digests sv old drawn ip now)
  unfolding re_register
  resolved-ok proof old good is_ok =
      let long : proof_too_short proof ≡ false = unfold proof_too_short in ground arith in
      let (same, live, mine, in_time) =
        resolve-ok sv.sessions proof now sound.agree long old is_ok in
      (
        record { live = live; its_proof = mine; in_time = in_time },
        rw (good, re_register, is_ok, same) refl,
      )

  resolved-invalid :
      (proof : String) (owner : Option ℕ)
      → valid_proof proof ≡ true
      → (resolve_re_register_proof sv.sessions proof now).1 ≡ ProofStatus.invalid owner
      → TurnsAway cfg digests sv proof drawn ip now
  unfolding re_register
  resolved-invalid proof owner good is_invalid =
      let long : proof_too_short proof ≡ false = unfold proof_too_short in ground arith in
      let st = (resolve_re_register_proof sv.sessions proof now).0 in
      let answer : re_register cfg digests sv proof drawn ip now
          ≡ reject_proof cfg (record sv { sessions = st }) owner ip now =
        rw (good, re_register, is_invalid) refl in
      (
        ap (λ r. r.0.sessions.nodes) answer
            ∙ ap (λ x. x.nodes)
                (reject-sessions cfg digests (record sv { sessions = st }) drawn ip now owner)
            ∙ resolve-nodes sv.sessions proof now,
        ap (λ r. is_admitted r.1) answer ∙ reject-not_admitted owner st,
        λ old _ proves named. absurd (
            ground (
              arith,
              is_invalid,
              resolve-live sv.sessions proof now sound.agree long old proves.live proves.its_proof
                  named proves.in_time,
            )),
      )

  resolved_ends :
      (proof : String) (old : Session)
      → valid_proof proof ≡ true
      → (resolve_re_register_proof sv.sessions proof now).1 ≡ ProofStatus.ok old
      → Admits cfg digests sv proof drawn ip now ⊎ TurnsAway cfg digests sv proof drawn ip now
  unfolding replace
  resolved_ends proof old good is_ok =
      let long : proof_too_short proof ≡ false = unfold proof_too_short in ground arith in
      let (proves, accepted) = resolved-ok proof old good is_ok in
      elim (Bool-cases (held_up cfg sv old ip now)) [
        | inr free ↦
            let answered = accepted ∙ accept-Admits old free in
            inl (
              old,
              proves,
              free,
              ap (λ r. r.1) answered,
              subst (λ r. Replaced sv.sessions r.0.sessions drawn old) (sym answered)
                  (replace-Replaced old proves.live),
            )
        | inl held ↦
            let (kept, refusal) = accept-refuses old held in
            inr (
              ap (λ r. r.0.sessions.nodes) accepted ∙ ap (λ x. x.sessions.nodes) kept,
              ap (λ r. is_admitted r.1) accepted ∙ refusal,
              λ other _ also named.
                  let is_other =
                    resolve-live sv.sessions proof now sound.agree long other also.live
                      also.its_proof named also.in_time in
                  let same : old ≡ other = ground (arith, is_ok, is_other) in
                  subst (λ o. held_up cfg sv o ip now ≡ true) same held,
            )
      ]

  malformed_ends :
      (proof : String) → valid_proof proof ≡ false → TurnsAway cfg digests sv proof drawn ip now
  unfolding re_register
  malformed_ends proof bad =
      let gone : re_register cfg digests sv proof drawn ip now ≡ (sv, answer invalid_input) =
        rw (bad, re_register) refl in
      (
        ap (λ r. r.0.sessions.nodes) gone,
        ap (λ r. is_admitted r.1) gone,
        λ old good _ _. absurd (ground (arith, good, bad)),
      )

-- A re-registration keeps the server sound, and is one of two. Either the proof is that of a live
-- session in its time, no lock and no full address holds it up, the answer is the drawn id, token and
-- proof, and the session is replaced: a successor with them and with the node, the identity and the
-- verifying hash and salt of the old one is in the map, the drawn proof is indexed, the old session is
-- gone, unless the drawn id is its own, and every other session is as it was. Or the answer does not
-- admit and the map of sessions is as it was; that is so only where the proof is malformed or no live
-- session in its time, with an id, has it, or where that session is held up. What the server draws is
-- fresh.
pub re_register_succeeds :
    (cfg : Limits) (digests : Digests) (sv : Server) (proof : String) (drawn : Drawn) (ip : String)
    (now : ℕ)
    → Sound cfg sv
    → FreshAfter sv drawn now
    → Sound cfg (re_register cfg digests sv proof drawn ip now).0
      × (Admits cfg digests sv proof drawn ip now ⊎ TurnsAway cfg digests sv proof drawn ip now)
re_register_succeeds cfg digests sv proof drawn ip now sound fresh = (
  re_register-Sound cfg digests sv proof drawn ip now sound fresh,
  elim (Bool-cases (valid_proof proof)) [
    | inr bad ↦ inr (malformed_ends cfg digests sv drawn ip now sound proof bad)
    | inl good ↦ elim (ProofStatus-cases (resolve_re_register_proof sv.sessions proof now).1) [
      | inl (old, is_ok) ↦ resolved_ends cfg digests sv drawn ip now sound proof old good is_ok
      | inr (owner, is_invalid) ↦
          inr (resolved-invalid cfg digests sv drawn ip now sound proof owner good is_invalid)
    ]
  ],
)
