-- ===== src/Server/Admission/Keeps.antt =====
-- A re-registration keeps the server sound: one session takes another's place.
use misaka_network.Common.{
  Bool-cases, Option, Option-cases, String, arith, false, inl, inr, length, ltb, none, refl, some,
  string_keys, ℕ, ◌≡◌, ◌≤◌, ◌⊎◌,
}
use misaka_network.Common.Dict
use misaka_network.Common.Dict.{Dict, get-put, length-put-le}
use misaka_network.Server.Guard.{Limits}
use misaka_network.Server.Sessions.{
  State, Session, ProofStatus, resolve_re_register_proof, proof_too_short, index_re_register_proof,
}
use misaka_network.Server.Sessions.Proofs.{resolve-ok, resolve-WellFormed}
use misaka_network.Server.Lifecycle.{terminate_session}
use misaka_network.Server.Lifecycle.Identity.{Shrinks, terminate_session-Shrinks}
use misaka_network.Server.Lifecycle.Ends.{ended_shorter, Ends}
use misaka_network.Server.Lifecycle.Terminate.{terminate_session-WellFormed}
use misaka_network.Server.Admission.{Server, Digests, Drawn, publish}
use misaka_network.Server.Admission.Publish.{Fresh, publish-WellFormed}
use misaka_network.Server.Admission.Safety.{
  Sound, Sound-sessions, OneIdentity, Fits, put-OneIdentity,
}
use misaka_network.Server.Admission.Replace.{
  re_register, replace, successor, superseding, accept_proof, reject_proof, valid_proof, locked_at,
  moves_to_full,
}

pub Shrinks-OneIdentity :
    (nodes after : Dict String Session)
    → Shrinks nodes after
    → OneIdentity nodes
    → OneIdentity after
Shrinks-OneIdentity nodes after less one j k s t js kt same =
    elim (Option-cases (Dict.get nodes j)) [
      | inl gone ↦ absurd (ground (arith, less.kept j s js, gone))
      | inr (s0, there) ↦ elim (Option-cases (Dict.get nodes k)) [
        | inl gone ↦ absurd (ground (arith, less.kept k t kt, gone))
        | inr (t0, too) ↦
            ground (arith, less.kept j s js, less.kept k t kt, one j k s0 t0 there too)
      ]
    ]

pub Fits_le : (o : Option ℕ) (m n : ℕ) → m ≤ n → Fits o n → Fits o m
Fits_le none m n le h = tt
Fits_le (some limit) m n le h = omega (arith, le, h)

-- What the server draws is fresh once the superseded session is gone.
abbrev pub FreshAfter : Server → Drawn → ℕ → Type 0
FreshAfter sv drawn now =
    (old : Session)
    → Dict.get sv.sessions.nodes old.session_id ≡ some old
    → Fresh (terminate_session sv.sessions old.session_id superseding now) drawn

module _ (cfg : Limits) (digests : Digests) (sv : Server) (drawn : Drawn) (ip : String)
    (now : ℕ) where
  replace-Sound :
      (old : Session)
      → Dict.get sv.sessions.nodes old.session_id ≡ some old
      → FreshAfter sv drawn now
      → Sound cfg sv
      → Sound cfg (replace cfg digests sv old drawn ip now).0
  unfolding replace publish index_re_register_proof
  replace-Sound old live fresh sound =
      let st = sv.sessions in
      let ended = terminate_session st old.session_id superseding now in
      let s = successor cfg digests old drawn ip now in
      let less = terminate_session-Shrinks st old.session_id superseding now in
      let ends : Ends st old.session_id old superseding = record {
        live = live;
        mine = refl;
        dropped = refl;
      } in
      record {
        agree =
            publish-WellFormed ended drawn s
              (terminate_session-WellFormed st old.session_id superseding now sound.agree tt)
              (fresh old live)
              (record { its_id = refl; its_proof = refl; no_socket = refl; in_no_channel = refl });
        capacity =
            Fits_le cfg.max_nodes _ (length st.nodes)
              (omega (
                arith,
                length-put-le ended.nodes s.session_id s,
                ended_shorter st old.session_id old superseding now sound.agree ends,
              ))
              sound.capacity;
        one_identity =
            put-OneIdentity ended.nodes s.session_id s
              (Shrinks-OneIdentity st.nodes ended.nodes less sound.one_identity)
              (λ k t there same. elim (Option-cases (Dict.get st.nodes k)) [
                | inl gone ↦ absurd (ground (arith, less.kept k t there, gone))
                | inr (t0, too) ↦ ground (
                  arith,
                  less.kept k t there,
                  sound.one_identity k old.session_id t0 old too live,
                )
              ]);
      }

  accept-Sound :
      (old : Session)
      → Dict.get sv.sessions.nodes old.session_id ≡ some old
      → FreshAfter sv drawn now
      → Sound cfg sv
      → Sound cfg (accept_proof cfg digests sv old drawn ip now).0
  unfolding accept_proof
  accept-Sound old live fresh sound = elim (Bool-cases (ltb now (locked_at sv ip old.node_id))) [
    | inl shut ↦ rw (shut, accept_proof) sound
    | inr free ↦ elim (Bool-cases (moves_to_full cfg sv old ip)) [
      | inl full ↦ rw (free, accept_proof, full) sound
      | inr room ↦ rw (free, accept_proof, room) (replace-Sound old live fresh sound)
    ]
  ]

  pub reject-sessions :
      (owner : Option ℕ) → (reject_proof cfg sv owner ip now).0.sessions ≡ sv.sessions
  unfolding reject_proof
  reject-sessions owner = ground arith

pub ProofStatus-cases :
    (o : ProofStatus)
    → ((s : Session) × (o ≡ ProofStatus.ok s)) ⊎ ((n : Option ℕ) × (o ≡ ProofStatus.invalid n))
ProofStatus-cases (ProofStatus.ok s) = inl (s, refl)
ProofStatus-cases (ProofStatus.invalid n) = inr (n, refl)

pub resolve-nodes :
    (st : State) (proof : String) (now : ℕ)
    → (resolve_re_register_proof st proof now).0.nodes ≡ st.nodes
unfolding resolve_re_register_proof
resolve-nodes st proof now = ground arith

-- A re-registration keeps the server sound, whatever proof it comes with. What the server draws is
-- fresh.
pub re_register-Sound :
    (cfg : Limits) (digests : Digests) (sv : Server) (proof : String) (drawn : Drawn) (ip : String)
    (now : ℕ)
    → Sound cfg sv
    → FreshAfter sv drawn now
    → Sound cfg (re_register cfg digests sv proof drawn ip now).0
unfolding re_register
re_register-Sound cfg digests sv proof drawn ip now sound fresh =
    elim (Bool-cases (valid_proof proof)) [
      | inr bad ↦ rw (bad, re_register) sound
      | inl good ↦
          let long : proof_too_short proof ≡ false = unfold proof_too_short in ground arith in
          elim (ProofStatus-cases (resolve_re_register_proof sv.sessions proof now).1) [
            | inl (old, is_ok) ↦
                let (same, live, mine, open_still) =
                  resolve-ok sv.sessions proof now sound.agree long old is_ok in
                rw (good, re_register, is_ok, same)
                  (accept-Sound cfg digests sv drawn ip now old live fresh sound)
            | inr (owner, is_invalid) ↦
                rw (good, re_register, is_invalid)
                  (let resolved = record sv {
                    sessions = (resolve_re_register_proof sv.sessions proof now).0;
                  } in
                    Sound-sessions cfg resolved _
                      (reject-sessions cfg digests resolved drawn ip now owner)
                      (record {
                        agree = resolve-WellFormed sv.sessions proof now sound.agree long;
                        capacity = rw (resolve-nodes sv.sessions proof now) sound.capacity;
                        one_identity = rw (resolve-nodes sv.sessions proof now) sound.one_identity;
                      }))
          ]
    ]
