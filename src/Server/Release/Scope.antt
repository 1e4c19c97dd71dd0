-- ===== src/Server/Release/Scope.antt =====
-- A release ends the sessions that it is for, and no other.
use misaka_network.Common.{
  Bool, Bool-cases, List, Option, Option-cases, String, [], any, arith, beq_self, beq→eq, false,
  if◌then◌else◌, inl, inr, none, refl, some, subst, true, ℕ, ◌==◌, ◌∙◌, ◌∷◌, ◌≡◌, string_keys,
}
use misaka_network.Common.Dict
use misaka_network.Common.Dict.{Dict, Distinct, get}
use misaka_network.Server.Sessions.{State, Session}
use misaka_network.Server.Sessions.Invariant.{WellFormed}
use misaka_network.Server.Lifecycle.{terminate_session}
use misaka_network.Server.Lifecycle.Terminate.{terminate_session-WellFormed}
use misaka_network.Server.Lifecycle.Ends.{ended_gone}
use misaka_network.Server.Lifecycle.Identity.{
  Shrinks, same-Shrinks, trans-Shrinks, terminate_session-Shrinks,
}
use misaka_network.Server.Lifecycle.Others.{terminate_session-other}
use misaka_network.Server.Cleanup.Sweeps.{gone-Shrinks}
use misaka_network.Server.Release.{
  release_opts, Scope, in_scope, to_release, release_all, release_scoped,
}

abbrev listed : String → List Session → Bool
listed k = any (λ s. s.session_id == k)

abbrev in_scope? : String → Scope → Option Session → Bool
in_scope? ip scope none = false
in_scope? ip scope (some s) = in_scope ip scope s

-- What is under a key afterwards.
abbrev pub spared : String → Scope → Option Session → Option Session
spared ip scope none = none
spared ip scope (some s) = if in_scope ip scope s then none else some s

abbrev Keyed : Dict String Session → Type 0
Keyed m = (k : String) (s : Session) → get m k ≡ some s → s.session_id ≡ k

tail-Keyed :
    (j : String) (t : Session) (m : Dict String Session)
    → get m j ≡ none
    → Keyed ((j, t) ∷ m)
    → Keyed m
unfolding Dict.get
tail-Keyed j t m fresh keyed k s h = elim (Bool-cases (j == k)) [
  | inl same ↦
      let e : get m k ≡ none = subst (λ x. get m x ≡ none) (beq→eq j k same) fresh in
      absurd (ground (arith, e, h))
  | inr differ ↦ keyed k s (rw differ h)
]

head-Keyed :
    (j : String) (t : Session) (m : Dict String Session) → Keyed ((j, t) ∷ m) → t.session_id ≡ j
unfolding Dict.get
head-Keyed j t m keyed = keyed j t (rw (beq_self j) refl)

listed-to_release :
    (ip : String) (scope : Scope) (m : Dict String Session) (k : String)
    → Distinct m
    → Keyed m
    → listed k (to_release ip scope m) ≡ in_scope? ip scope (get m k)
unfolding to_release Dict.get
listed-to_release ip scope [] k d keyed = refl
listed-to_release ip scope ((j, t) ∷ m) k d keyed =
    let rest = listed-to_release ip scope m k d.1 (tail-Keyed j t m d.0 keyed) in
    let own = head-Keyed j t m keyed in
    elim (Bool-cases (j == k)) [
      | inl same ↦
          let gone : get m k ≡ none = subst (λ x. get m x ≡ none) (beq→eq j k same) d.0 in
          let none_later : listed k (to_release ip scope m) ≡ false = rest ∙ rw gone refl in
          elim (Bool-cases (in_scope ip scope t)) [
            | inl due ↦ rw (same, due, own, same) refl
            | inr free ↦ rw (same, free) none_later
          ]
      | inr differ ↦ elim (Bool-cases (in_scope ip scope t)) [
        | inl due ↦ rw (differ, due, own, differ) rest
        | inr free ↦ rw (differ, free) rest
      ]
    ]

ended :
    (st : State) (k : String) (now : ℕ)
    → WellFormed st
    → get (terminate_session st k release_opts now).nodes k ≡ none
ended st k now wf = elim (Option-cases (get st.nodes k)) [
  | inl gone ↦ gone-Shrinks st.nodes _ k (terminate_session-Shrinks st k release_opts now) gone
  | inr (s, live) ↦
      ended_gone st k s release_opts now wf (record { live = live; mine = refl; dropped = refl })
]

pub release_all-WellFormed :
    (st : State) (due : List Session) (now : ℕ)
    → WellFormed st
    → WellFormed (release_all st due now)
unfolding release_all
release_all-WellFormed st [] now wf = wf
release_all-WellFormed st (s ∷ due) now wf =
    release_all-WellFormed (terminate_session st s.session_id release_opts now) due now
      (terminate_session-WellFormed st s.session_id release_opts now wf tt)

pub release_all-Shrinks :
    (st : State) (due : List Session) (now : ℕ) → Shrinks st.nodes (release_all st due now).nodes
unfolding release_all
release_all-Shrinks st [] now = same-Shrinks st.nodes
release_all-Shrinks st (s ∷ due) now =
    let next = terminate_session st s.session_id release_opts now in
    trans-Shrinks st.nodes next.nodes _ (terminate_session-Shrinks st s.session_id release_opts now)
      (release_all-Shrinks next due now)

release_all_ends :
    (st : State) (due : List Session) (now : ℕ) (k : String)
    → WellFormed st
    → listed k due ≡ true
    → get (release_all st due now).nodes k ≡ none
unfolding release_all
release_all_ends st [] now k wf h = cc
release_all_ends st (s ∷ due) now k wf h =
    let next = terminate_session st s.session_id release_opts now in
    elim (Bool-cases (s.session_id == k)) [
      | inl same ↦ gone-Shrinks next.nodes _ k (release_all-Shrinks next due now) (
          subst (λ x. get next.nodes x ≡ none) (beq→eq s.session_id k same)
            (ended st s.session_id now wf))
      | inr differ ↦
          release_all_ends next due now k
            (terminate_session-WellFormed st s.session_id release_opts now wf tt) (ground arith)
    ]

release_all_spares :
    (st : State) (due : List Session) (now : ℕ) (k : String)
    → WellFormed st
    → listed k due ≡ false
    → get (release_all st due now).nodes k ≡ get st.nodes k
unfolding release_all
release_all_spares st [] now k wf h = refl
release_all_spares st (s ∷ due) now k wf h =
    let next = terminate_session st s.session_id release_opts now in
    release_all_spares next due now k
      (terminate_session-WellFormed st s.session_id release_opts now wf tt) (ground arith)
    ∙ terminate_session-other st s.session_id k release_opts now wf (ground arith)

-- A release by address ends the sessions of that address that it is for, the caller's node and
-- identity or all of them, and leaves every other session as it is; the maps stay in agreement.
pub release_scoped_exact :
    (st : State) (ip : String) (scope : Scope) (now : ℕ) (k : String)
    → WellFormed st
    → Distinct st.nodes
    → WellFormed (release_scoped st ip scope now).0
      × (get (release_scoped st ip scope now).0.nodes k ≡ spared ip scope (get st.nodes k))
unfolding release_scoped
release_scoped_exact st ip scope now k wf d =
    let due = to_release ip scope st.nodes in
    let known = listed-to_release ip scope st.nodes k d wf.keyed in
    (
      release_all-WellFormed st due now wf,
      elim (Bool-cases (listed k due)) [
        | inl there ↦
            release_all_ends st due now k wf there ∙ elim (Option-cases (get st.nodes k)) [
              | inl gone ↦ rw gone refl
              | inr (s, live) ↦ rw live (ground (arith, known, there, live))
            ]
        | inr away ↦
            release_all_spares st due now k wf away ∙ elim (Option-cases (get st.nodes k)) [
              | inl gone ↦ rw gone refl
              | inr (s, live) ↦ rw live (ground (arith, known, away, live))
            ]
      ],
    )
