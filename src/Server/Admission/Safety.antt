-- ===== src/Server/Admission/Safety.antt =====
-- What no registration can break, whatever runs between its pieces.
use misaka_network.Common.{
  Bool-cases, Option, Option-cases, String, [], arith, false, inl, inr, length, none, refl, some,
  string_keys, ℕ, ◌∷◌, ◌≡◌, ◌≤◌, ◌⊎◌,
}
use misaka_network.Common.Dict
use misaka_network.Common.Dict.{
  Dict, get-put, get-put_self, length-put-le, get-modify, length-modify,
}
use misaka_network.Server.Guard.{Limits}
use misaka_network.Server.Sessions.{State, Session, index_re_register_proof, announces, Effect}
use misaka_network.Server.Sessions.Invariant.{WellFormed}
use misaka_network.Server.Admission.{
  publish, Drawn, Server, refused, new_session, Registration, PassCodeRecord, Digests, charge_guess,
  QrToken,
}
use misaka_network.Server.Admission.Publish.{Fresh, publish-WellFormed}
use misaka_network.Server.Admission.Commit.{
  register_commit, has_conflict, consume_grant, admit, granted, denied, Grant,
}

abbrev pub Fits : Option ℕ → ℕ → Type 0
Fits none n = Unit
Fits (some max_nodes) n = n ≤ max_nodes

-- Two sessions of one node have one identity.
abbrev pub OneIdentity : Dict String Session → Type 0
OneIdentity nodes =
    (j k : String) (s t : Session)
    → Dict.get nodes j ≡ some s
    → Dict.get nodes k ≡ some t
    → s.node_id ≡ t.node_id
    → s.pass_code_hash ≡ t.pass_code_hash

pub record Sound (cfg : Limits) (sv : Server) : Type 0 where
  pub agree : WellFormed sv.sessions
  pub capacity : Fits cfg.max_nodes (length sv.sessions.nodes)
  pub one_identity : OneIdentity sv.sessions.nodes

no_conflict :
    (nodes : Dict String Session) (node_id : ℕ) (identity k : String) (s : Session)
    → has_conflict node_id identity nodes ≡ false
    → Dict.get nodes k ≡ some s
    → s.node_id ≡ node_id
    → s.pass_code_hash ≡ identity
unfolding has_conflict Dict.get
no_conflict [] node_id identity k s h live same = cc
no_conflict ((j, t) ∷ rest) node_id identity k s h live same = ground (
  arith,
  no_conflict rest node_id identity k s,
  string_keys.beq_iff s.pass_code_hash identity,
  string_keys.beq_iff t.pass_code_hash identity,
)

pub put-OneIdentity :
    (nodes : Dict String Session) (sid : String) (s : Session)
    → OneIdentity nodes
    → ((k : String) (t : Session)
        → Dict.get nodes k ≡ some t
        → t.node_id ≡ s.node_id
        → t.pass_code_hash ≡ s.pass_code_hash)
    → OneIdentity (Dict.put nodes sid s)
put-OneIdentity nodes sid s one fits j k a b ja kb same =
    ground (arith, get-put nodes sid j s, get-put nodes sid k s, one j k a b, fits j a, fits k b)

room :
    (cfg : Limits) (st : State) (ip : String) (s : Session)
    → refused cfg st ip ≡ none
    → Fits cfg.max_nodes (length (publish st s).nodes)
unfolding refused publish index_re_register_proof
room cfg st ip s free = elim (Option-cases cfg.max_nodes) [
  | inl unlimited ↦ rw (unlimited, Fits) tt
  | inr (m, limit) ↦ rw (limit, Fits) (ground (arith, limit, length-put-le st.nodes s.session_id s))
]

charge_guess-sessions :
    (cfg : Limits) (sv : Server) (reg : Registration)
    → (charge_guess cfg sv reg).0.sessions ≡ sv.sessions
unfolding charge_guess
charge_guess-sessions cfg sv reg = refl

announce-WellFormed :
    (st : State) (e : Effect) → WellFormed st → WellFormed (record st { log = e ∷ st.log })
announce-WellFormed st e wf = record {
  keyed = wf.keyed;
  member = wf.member;
  authed = wf.authed;
  indexed = wf.indexed;
  populated = wf.populated;
  no_channel = wf.no_channel;
  no_proof = wf.no_proof;
}

pub Grant-cases :
    (g : Grant) → (g ≡ denied) ⊎ ((tokens : Dict String QrToken) × (g ≡ granted tokens))
Grant-cases denied = inl refl
Grant-cases (granted tokens) = inr (tokens, refl)

-- What is sound is a matter of the sessions alone.
pub Sound-sessions :
    (cfg : Limits) (sv after : Server)
    → after.sessions ≡ sv.sessions
    → Sound cfg sv
    → Sound cfg after
Sound-sessions cfg sv after same sound = record {
  agree = rw same sound.agree;
  capacity = rw same sound.capacity;
  one_identity = rw same sound.one_identity;
}

module _ (cfg : Limits) (digests : Digests) (sv : Server) (reg : Registration)
    (fields : PassCodeRecord) (drawn : Drawn) where
  abbrev joining : Session
  joining =
      new_session cfg drawn reg.node_id fields (digests.derive_turn_principal reg.node_id fields.0)
        reg.ip reg.started

  admit-Sound :
      Sound cfg sv
      → Fresh sv.sessions drawn
      → has_conflict reg.node_id fields.0 sv.sessions.nodes ≡ false
      → refused cfg sv.sessions reg.ip ≡ none
      → Sound cfg (admit cfg digests sv reg fields drawn)
  admit-Sound sound fresh free fits = record {
    agree = announce-WellFormed (publish sv.sessions joining) (announces "join" reg.node_id) (
        publish-WellFormed sv.sessions drawn joining sound.agree fresh
          (record { its_id = refl; its_proof = refl; no_socket = refl; in_no_channel = refl }));
    capacity = room cfg sv.sessions reg.ip joining fits;
    one_identity =
        unfold publish index_re_register_proof in
        put-OneIdentity sv.sessions.nodes drawn.session_id joining sound.one_identity
          (λ k t live same. no_conflict sv.sessions.nodes reg.node_id fields.0 k t free live same);
  }

  -- The commit point keeps the server sound, whatever the earlier pieces of the registration found
  -- and whatever has happened since: the maps agree, there are no more sessions than the limit, and
  -- the sessions of a node all have one identity. What the server draws is fresh.
  pub register_commit-Sound :
      (now : ℕ)
      → Sound cfg sv
      → Fresh sv.sessions drawn
      → Sound cfg (register_commit cfg digests sv reg fields drawn now).0
  unfolding register_commit
  register_commit-Sound now sound fresh =
      elim (Bool-cases (has_conflict reg.node_id fields.0 sv.sessions.nodes)) [
        | inl conflict ↦
            rw (conflict, register_commit)
              (Sound-sessions cfg sv _ (charge_guess-sessions cfg sv reg) sound)
        | inr free ↦ elim (Option-cases (refused cfg sv.sessions reg.ip)) [
          | inr (r, full) ↦ rw (free, register_commit, full) sound
          | inl fits ↦ elim (Grant-cases (consume_grant sv.qr_tokens reg.invitation now)) [
            | inl refused_grant ↦ rw (free, register_commit, fits, refused_grant) sound
            | inr (tokens, taken) ↦
                rw (free, register_commit, fits, taken)
                  (Sound-sessions cfg (admit cfg digests sv reg fields drawn) _ refl
                    (admit-Sound sound fresh free fits))
          ]
        ]
      ]
