-- ===== src/Server/Sessions/Proofs.antt =====
-- What `resolveReRegisterProof` answers.
use misaka_network.Server.Sessions.Invariant.{WellFormed, holds→eq}
use misaka_network.Common.{
  Bool-cases, Option-cases, String, ap, arith, beq_self, beq→eq, false, if◌then◌else◌, inl, inr,
  ltb, none, refl, some, string_keys, subst, sym, true, ℕ, ◌==◌, ◌∙◌, ◌≡◌, ◌≢◌, ◌≤◌,
}
use misaka_network.Common.Dict
use misaka_network.Server.Sessions.{
  State, Tombstone, invalid, proof_too_short, resolve_re_register_proof, resolve_tombstone, Session,
  ProofStatus, resolve_indexed, is_session_expired,
}

module _ (st : State) (proof : String) (now : ℕ) (long : proof_too_short proof ≡ false) where
  -- A proof that was retired is charged to its owner, as long as its tombstone stands.
  pub resolve-retired :
      (tomb : Tombstone)
      → Dict.get st.re_register_proof_index proof ≡ none
      → Dict.get st.re_register_proof_tombstones proof ≡ some tomb
      → now ≤ tomb.until
      → resolve_re_register_proof st proof now ≡ (st, invalid (some tomb.node_id))
  unfolding resolve_re_register_proof
  resolve-retired tomb a b c = ground arith

resolve_tombstone-WellFormed :
    (st : State) (proof : String) (now : ℕ)
    → WellFormed st
    → WellFormed (resolve_tombstone st proof now).0
unfolding resolve_tombstone
resolve_tombstone-WellFormed st proof now wf =
    elim (Option-cases (Dict.get st.re_register_proof_tombstones proof)) [
      | inl gone ↦ rw (gone, resolve_tombstone) wf
      | inr (tomb, there) ↦ elim (Bool-cases (ltb tomb.until now)) [
        | inl over ↦
            rw (there, resolve_tombstone, over)
              (record {
                keyed = wf.keyed;
                member = wf.member;
                authed = wf.authed;
                indexed = wf.indexed;
                populated = wf.populated;
                no_channel = wf.no_channel;
                no_proof = wf.no_proof;
              })
        | inr stands ↦ rw (there, resolve_tombstone, stands) wf
      ]
    ]

not_ok :
    (st : State) (proof : String) (now : ℕ) (s : Session)
    → (resolve_tombstone st proof now).1 ≢ ProofStatus.ok s
unfolding resolve_tombstone
not_ok st proof now s h = ground arith

module _ (st : State) (proof : String) (now : ℕ) (wf : WellFormed st)
    (long : proof_too_short proof ≡ false) where
  -- An indexed proof is a live session's.
  indexed_session :
      (k : String)
      → Dict.get st.re_register_proof_index proof ≡ some k
      → (s : Session) × (Dict.get st.nodes k ≡ some s) × ((s.re_register_proof == proof) ≡ true)
  indexed_session k at = elim (Option-cases (Dict.get st.nodes k)) [
    | inl gone ↦ absurd (ground (arith, wf.indexed proof k, at, gone, beq_self k))
    | inr (s, live) ↦ (s, live, ground (arith, wf.indexed proof k, at, live, beq_self k))
  ]

  unindexed :
      Dict.get st.re_register_proof_index proof ≡ none
      → resolve_re_register_proof st proof now ≡ resolve_tombstone st proof now
  unfolding resolve_re_register_proof
  unindexed gone = rw (long, resolve_re_register_proof, gone) refl

  nameless :
      (k : String)
      → Dict.get st.re_register_proof_index proof ≡ some k
      → (k == "") ≡ true
      → resolve_re_register_proof st proof now ≡ resolve_tombstone st proof now
  unfolding resolve_re_register_proof
  nameless k at no_name = rw (long, resolve_re_register_proof, at, no_name) refl

  indexed :
      (k : String) (s : Session)
      → Dict.get st.re_register_proof_index proof ≡ some k
      → (k == "") ≡ false
      → Dict.get st.nodes k ≡ some s
      → resolve_re_register_proof st proof now ≡ (
        st,
        if is_session_expired s now then ProofStatus.invalid (some s.node_id) else ProofStatus.ok s,
      )
  unfolding resolve_re_register_proof resolve_indexed
  indexed k s at named live =
      let (t, t_live, t_mine) = indexed_session k at in
      let mine : (s.re_register_proof == proof) ≡ true = ground (arith, live, t_live, t_mine) in
      elim (Bool-cases (is_session_expired s now)) [
        | inl over ↦
            rw (long, resolve_re_register_proof, at, named, resolve_indexed, live, mine, over) refl
        | inr open_still ↦
            rw (long, resolve_re_register_proof, at, named, resolve_indexed, live, mine, open_still)
              refl
      ]

  pub resolve-WellFormed : WellFormed (resolve_re_register_proof st proof now).0
  resolve-WellFormed =
      let tombstone = resolve_tombstone-WellFormed st proof now wf in
      elim (Option-cases (Dict.get st.re_register_proof_index proof)) [
        | inl gone ↦ rw (unindexed gone) tombstone
        | inr (k, at) ↦ elim (Bool-cases (k == "")) [
          | inl no_name ↦ rw (nameless k at no_name) tombstone
          | inr named ↦
              let (s, live, mine) = indexed_session k at in rw (indexed k s at named live) wf
        ]
      ]

  -- The answer `ok` leaves the state as it was and names a live session that has not expired and
  -- has the proof.
  pub resolve-ok :
      (s : Session)
      → (resolve_re_register_proof st proof now).1 ≡ ProofStatus.ok s
      → ((resolve_re_register_proof st proof now).0 ≡ st)
        × (Dict.get st.nodes s.session_id ≡ some s)
        × (s.re_register_proof ≡ proof)
        × (is_session_expired s now ≡ false)
  resolve-ok s h = elim (Option-cases (Dict.get st.re_register_proof_index proof)) [
    | inl gone ↦ absurd (not_ok st proof now s (sym (ap (λ r. r.1) (unindexed gone)) ∙ h))
    | inr (k, at) ↦ elim (Bool-cases (k == "")) [
      | inl no_name ↦
          absurd (not_ok st proof now s (sym (ap (λ r. r.1) (nameless k at no_name)) ∙ h))
      | inr named ↦
          let (t, live, mine) = indexed_session k at in
          let answer = indexed k t at named live in
          let same : t ≡ s = ground (arith, answer, h) in
          (
            ap (λ r. r.0) answer,
            subst (λ x. Dict.get st.nodes x.session_id ≡ some x) same
                (subst (λ x. Dict.get st.nodes x ≡ some t) (sym (wf.keyed k t live)) live),
            subst (λ x. x.re_register_proof ≡ proof) same (beq→eq t.re_register_proof proof mine),
            ground (arith, answer, h, same),
          )
    ]
  ]

  -- And every live session that has the proof, an id and has not expired is what is answered.
  pub resolve-live :
      (s : Session)
      → Dict.get st.nodes s.session_id ≡ some s
      → s.re_register_proof ≡ proof
      → (s.session_id == "") ≡ false
      → is_session_expired s now ≡ false
      → (resolve_re_register_proof st proof now).1 ≡ ProofStatus.ok s
  resolve-live s live mine named in_time =
      let at : Dict.get st.re_register_proof_index proof ≡ some s.session_id =
        holds→eq (Dict.get st.re_register_proof_index proof) s.session_id
          (wf.indexed proof s.session_id ∙ rw (live, mine) (beq_self proof)) in
      ap (λ r. r.1) (indexed s.session_id s at named live) ∙ rw in_time refl
