-- ===== src/Server/Admission/Publish.antt =====
-- A session that enters the map.
use misaka_network.Common.{ap, arith, false, none, refl, string_keys, ◌==◌, ◌≡◌, nat_keys}
use misaka_network.Common.Dict
use misaka_network.Common.Dict.{Dict, get-put, get-put_self}
use misaka_network.Server.Sessions.{State, Session, index_re_register_proof}
use misaka_network.Server.Sessions.Invariant.{WellFormed, put-Keyed, in_channel, holds}
use misaka_network.Server.Admission.{publish, Drawn}

-- What the server draws is new: the id is no session's and names none, the proof is not indexed.
pub record Fresh (st : State) (drawn : Drawn) : Type 0 where
  pub unused_id : Dict.get st.nodes drawn.session_id ≡ none
  pub unused_proof : Dict.get st.re_register_proof_index drawn.proof ≡ none
  pub named_proof : (drawn.proof == "") ≡ false

-- A session before its socket and its channel.
pub record Offline (drawn : Drawn) (s : Session) : Type 0 where
  pub its_id : s.session_id ≡ drawn.session_id
  pub its_proof : s.re_register_proof ≡ drawn.proof
  pub no_socket : s.socket ≡ none
  pub in_no_channel : s.channel_id ≡ none

pub publish-WellFormed :
    (st : State) (drawn : Drawn) (s : Session)
    → WellFormed st
    → Fresh st drawn
    → Offline drawn s
    → WellFormed (publish st s)
unfolding publish index_re_register_proof
publish-WellFormed st drawn s wf fresh off =
    let sid = s.session_id in
    let unused : Dict.get st.nodes sid ≡ none = rw off.its_id fresh.unused_id in
    let no_index : Dict.get st.re_register_proof_index s.re_register_proof ≡ none =
      rw off.its_proof fresh.unused_proof in
    let named : (s.re_register_proof == "") ≡ false = rw off.its_proof fresh.named_proof in
    record {
      keyed = put-Keyed st.nodes sid s refl wf.keyed;
      member = λ c k. ground (
        arith,
        get-put st.nodes sid k s,
        wf.member c k,
        wf.member c sid,
        string_keys.beq_iff sid k,
        ap (λ x. in_channel st.channels c x),
        off.in_no_channel,
        unused,
      );
      authed = λ w k. ground (
        arith,
        get-put st.nodes sid k s,
        wf.authed w k,
        wf.authed w sid,
        string_keys.beq_iff sid k,
        ap (λ x. holds (Dict.get st.authed_sockets w) x),
        off.no_socket,
        unused,
      );
      indexed = λ p k. ground (
        arith,
        get-put st.nodes sid k s,
        get-put st.re_register_proof_index s.re_register_proof p sid,
        wf.indexed p k,
        wf.indexed p sid,
        string_keys.beq_iff sid k,
        string_keys.beq_iff s.re_register_proof p,
        unused,
        no_index,
        ap (λ x. Dict.get st.re_register_proof_index x),
      );
      populated = wf.populated;
      no_channel = wf.no_channel;
      no_proof = ground (
        arith,
        get-put st.re_register_proof_index s.re_register_proof "" sid,
        wf.no_proof,
        named,
      );
    }
