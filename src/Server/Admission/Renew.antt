-- ===== src/Server/Admission/Renew.antt =====
-- A renewal: the session keeps its id, and its proof is another.
use misaka_network.Common.{
  String, arith, beq_self, false, none, refl, some, string_keys, ℕ, ◌+◌, ◌==◌, ◌≡◌,
}
use misaka_network.Common.Dict
use misaka_network.Common.Dict.{Dict, get-put, get-remove, get-modify}
use misaka_network.Server.Sessions.{
  State, Session, rotate_re_register_proof, unindex_re_register_proof, index_re_register_proof,
}
use misaka_network.Server.Sessions.Invariant.{WellFormed, modify-Keyed, holds→eq}
use misaka_network.Server.Ws.Keeps.{core, WellFormed-core}
use misaka_network.Server.Ws.Frames.{touched-WellFormed}
use misaka_network.Server.Guard.{Limits}
use misaka_network.Server.Admission.Replace.{renew}

abbrev pub with_proof : String → Session → Session
with_proof next s = record s { re_register_proof = next }

abbrev pub rotated : State → String → String → String → State
rotated st sid old next = record st {
  nodes = Dict.modify st.nodes sid (with_proof next);
  re_register_proof_index = Dict.put (Dict.remove st.re_register_proof_index old) next sid;
}

module _ (st : State) (sid : String) (s : Session) (next : String) (wf : WellFormed st)
    (live : Dict.get st.nodes sid ≡ some s)
    (unused : Dict.get st.re_register_proof_index next ≡ none) (named : (next == "") ≡ false) where
  rotated-WellFormed : WellFormed (rotated st sid s.re_register_proof next)
  rotated-WellFormed =
      let old = s.re_register_proof in
      let f = with_proof next in
      record {
        keyed = modify-Keyed st.nodes sid f (λ t. refl) wf.keyed;
        member = λ c k.
            ground (arith, get-modify st.nodes sid k f, wf.member c k, string_keys.beq_iff sid k);
        authed = λ w k.
            ground (arith, get-modify st.nodes sid k f, wf.authed w k, string_keys.beq_iff sid k);
        indexed = λ p k. ground (
          arith,
          get-put (Dict.remove st.re_register_proof_index old) next p sid,
          get-remove st.re_register_proof_index old p,
          get-modify st.nodes sid k f,
          wf.indexed p k,
          wf.indexed next k,
          wf.indexed old k,
          wf.indexed old sid,
          holds→eq (Dict.get st.re_register_proof_index old) sid,
          wf.indexed p sid,
          string_keys.beq_iff sid k,
          string_keys.beq_iff old p,
          string_keys.beq_iff next p,
          beq_self old,
          live,
          unused,
        );
        populated = wf.populated;
        no_channel = wf.no_channel;
        no_proof = ground (
          arith,
          get-put (Dict.remove st.re_register_proof_index old) next "" sid,
          get-remove st.re_register_proof_index old "",
          wf.no_proof,
          named,
        );
      }

pub core-rotate :
    (st : State) (s : Session) (next : String) (now : ℕ)
    → (s.re_register_proof == "") ≡ false
    → core (rotate_re_register_proof st s next now)
      ≡ core (rotated st s.session_id s.re_register_proof next)
unfolding rotate_re_register_proof unindex_re_register_proof index_re_register_proof
core-rotate st s next now named = rw (named, unindex_re_register_proof) refl

abbrev pub with_token : Limits → String → ℕ → Session → Session
with_token cfg token now s = record s { token = token; expires_at = now + cfg.session_ttl_ms }

-- A renewal of a live session, with a new proof that nobody has, keeps the maps in agreement: the
-- index has the new proof for the session, and the old proof no more.
pub renew-WellFormed :
    (cfg : Limits) (st : State) (s : Session) (token next : String) (now : ℕ)
    → WellFormed st
    → Dict.get st.nodes s.session_id ≡ some s
    → Dict.get st.re_register_proof_index next ≡ none
    → (next == "") ≡ false
    → (s.re_register_proof == "") ≡ false
    → WellFormed (renew cfg st s token next now)
unfolding renew
renew-WellFormed cfg st s token next now wf live unused named had =
    let sid = s.session_id in
    let f = with_token cfg token now in
    let st1 : State = record st { nodes = Dict.modify st.nodes sid f } in
    let wf1 : WellFormed st1 = touched-WellFormed st sid f (λ t. (refl, refl, refl, refl)) wf in
    let live1 : Dict.get st1.nodes sid ≡ some (f s) =
      ground (arith, get-modify st.nodes sid sid f, live, beq_self sid) in
    touched-WellFormed (rotate_re_register_proof st1 s next now) sid
      (λ t. record t { last_seen = now }) (λ t. (refl, refl, refl, refl))
      (WellFormed-core (rotated st1 sid s.re_register_proof next)
        (rotate_re_register_proof st1 s next now) (core-rotate st1 s next now had)
        (rotated-WellFormed st1 sid (f s) next wf1 live1 unused named))
