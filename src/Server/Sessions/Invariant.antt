-- ===== src/Server/Sessions/Invariant.antt =====
-- The maps of store.ts agree: each one that points into `nodes` is the inverse of a session's field.
use misaka_network.Common.{
  Bool, Eq, List, Option, Option-cases, String, [], any, ap, arith, beq_self, beq→eq, false, inl,
  inr, nat_keys, none, refl, some, string_keys, true, ℕ, ◌==◌, ◌≡◌, ◌≢◌,
}
use misaka_network.Common.Dict
use misaka_network.Common.Dict.{Dict, get-modify, get-remove, get-put}
use misaka_network.Server.Sessions.{State, Session, empty}

-- `o` holds the key `k`.
abbrev pub holds {ℓ} : {K : Type ℓ} ⦃e : Eq K⦄ → Option K → K → Bool
holds none k = false
holds (some j) k = j == k

pub holds→eq {ℓ} : {K : Type ℓ} ⦃e : Eq K⦄ (o : Option K) (k : K) → holds o k ≡ true → o ≡ some k
holds→eq none k h = cc
holds→eq (some j) k h = ap some (beq→eq j k h)

pub holds_self {ℓ} : {K : Type ℓ} ⦃e : Eq K⦄ (k : K) → holds (some k) k ≡ true
holds_self k = beq_self k

abbrev pub channel_of : Option Session → Option String
channel_of none = none
channel_of (some s) = s.channel_id

abbrev pub socket_of : Option Session → Option ℕ
socket_of none = none
socket_of (some s) = s.socket

abbrev pub proof_of : Option Session → Option String
proof_of none = none
proof_of (some s) = some s.re_register_proof

abbrev pub members_of : Option (List String) → List String
members_of none = []
members_of (some ms) = ms

abbrev pub is_member : String → List String → Bool
is_member k = any (λ x. x == k)

abbrev pub in_channel : Dict String (List String) → String → String → Bool
in_channel channels c k = is_member k (members_of (Dict.get channels c))

pub record WellFormed (st : State) : Type 0 where
  -- A session stands under its own id.
  pub keyed : (k : String) (s : Session) → Dict.get st.nodes k ≡ some s → s.session_id ≡ k
  -- The members of a channel are the live sessions that are in it.
  pub member :
      (c k : String) → in_channel st.channels c k ≡ holds (channel_of (Dict.get st.nodes k)) c
  -- An authenticated socket is the socket of the live session that it is indexed under.
  pub authed :
      (w : ℕ) (k : String)
      → holds (Dict.get st.authed_sockets w) k ≡ holds (socket_of (Dict.get st.nodes k)) w
  -- A proof is indexed exactly when it is the proof of a live session.
  pub indexed :
      (p k : String)
      → holds (Dict.get st.re_register_proof_index p) k ≡ holds (proof_of (Dict.get st.nodes k)) p
  -- No channel without members, and no channel or proof without a name.
  pub populated : (c : String) → Dict.get st.channels c ≢ some []
  pub no_channel : Dict.get st.channels "" ≡ none
  pub no_proof : Dict.get st.re_register_proof_index "" ≡ none

abbrev pub Keyed : Dict String Session → Type 0
Keyed nodes = (k : String) (s : Session) → Dict.get nodes k ≡ some s → s.session_id ≡ k

-- A write that leaves the ids alone.
pub modify-Keyed :
    (nodes : Dict String Session) (sid : String) (f : Session → Session)
    → ((s : Session) → (f s).session_id ≡ s.session_id)
    → Keyed nodes
    → Keyed (Dict.modify nodes sid f)
modify-Keyed nodes sid f same keyed k s h = elim (Option-cases (Dict.get nodes k)) [
  | inl gone ↦ ground (arith, get-modify nodes sid k f)
  | inr (t, e) ↦ ground (arith, get-modify nodes sid k f, keyed k t e, same t)
]

pub remove-Keyed :
    (nodes : Dict String Session) (sid : String) → Keyed nodes → Keyed (Dict.remove nodes sid)
remove-Keyed nodes sid keyed k s h = ground (arith, get-remove nodes sid k, keyed k s)

pub put-Keyed :
    (nodes : Dict String Session) (sid : String) (v : Session)
    → v.session_id ≡ sid
    → Keyed nodes
    → Keyed (Dict.put nodes sid v)
put-Keyed nodes sid v same keyed k s h =
    ground (arith, get-put nodes sid k v, keyed k s, string_keys.beq_iff sid k)

pub empty-WellFormed : WellFormed empty
unfolding Dict.get
empty-WellFormed = record {
  keyed = λ k s h. cc;
  member = λ c k. refl;
  authed = λ w k. refl;
  indexed = λ p k. refl;
  populated = λ c h. cc;
  no_channel = refl;
  no_proof = refl;
}
