-- ===== src/Server/Cleanup/Sweeps.antt =====
-- What a tick leaves: no session that was due, and the maps in agreement.
use misaka_network.Common.{
  Bool, Bool-cases, List, Option, Option-cases, String, [], any, ap, arith, beq→eq, false,
  if◌then◌else◌, inl, inr, none, refl, some, string_keys, subst, true, ℕ, ◌==◌, ◌∷◌, ◌≡◌,
}
use misaka_network.Common.Dict
use misaka_network.Common.Dict.{Dict}
use misaka_network.Server.Guard.{Limits}
use misaka_network.Server.Sessions.{State, Session, is_session_expired, mark_token_expired}
use misaka_network.Server.Sessions.Invariant.{WellFormed}
use misaka_network.Server.Lifecycle.{is_other_socket}
use misaka_network.Server.Lifecycle.Terminate.{terminate_session-WellFormed, OwnSocket}
use misaka_network.Server.Lifecycle.Ends.{ended_gone}
use misaka_network.Server.Lifecycle.Identity.{
  Shrinks, same-Shrinks, trans-Shrinks, terminate_session-Shrinks,
}
use misaka_network.Server.Ws.Keeps.{core, WellFormed-core}
use misaka_network.Server.Cleanup.{
  is_due, to_purge, purge, purge_all, purge_opts, unlock_all, unlock,
}

core-mark :
    (st : State) (b : Bool) (token : String) (now : ℕ)
    → core (if b then mark_token_expired st token now else st) ≡ core st
unfolding mark_token_expired
core-mark st b token now = ground arith

purge-WellFormed :
    (st : State) (k : String) (s : Session) (now : ℕ)
    → WellFormed st
    → WellFormed (purge st k s now)
unfolding purge
purge-WellFormed st k s now wf =
    let marked = if is_session_expired s now then mark_token_expired st s.token now else st in
    terminate_session-WellFormed marked k (purge_opts (is_session_expired s now)) now
      (WellFormed-core st marked (core-mark st (is_session_expired s now) s.token now) wf)
      (own (is_session_expired s now))
  where
    own :
        (b : Bool)
        → OwnSocket
            (if is_session_expired s now then mark_token_expired st s.token now else st)
            k
            (purge_opts b).only_if_socket
    own true = tt
    own false = tt

pub purge_all-WellFormed :
    (st : State) (due : List (String × Session)) (now : ℕ)
    → WellFormed st
    → WellFormed (purge_all st due now)
unfolding purge_all
purge_all-WellFormed st [] now wf = wf
purge_all-WellFormed st ((k, s) ∷ rest) now wf =
    purge_all-WellFormed (purge st k s now) rest now (purge-WellFormed st k s now wf)

purge-Shrinks :
    (st : State) (k : String) (s : Session) (now : ℕ) → Shrinks st.nodes (purge st k s now).nodes
unfolding purge
purge-Shrinks st k s now =
    let marked = if is_session_expired s now then mark_token_expired st s.token now else st in
    subst (λ m. Shrinks m (purge st k s now).nodes)
      (ap (λ c. c.0) (core-mark st (is_session_expired s now) s.token now))
      (terminate_session-Shrinks marked k (purge_opts (is_session_expired s now)) now)

pub purge_all-Shrinks :
    (st : State) (due : List (String × Session)) (now : ℕ)
    → Shrinks st.nodes (purge_all st due now).nodes
unfolding purge_all
purge_all-Shrinks st [] now = same-Shrinks st.nodes
purge_all-Shrinks st ((k, s) ∷ rest) now =
    trans-Shrinks st.nodes (purge st k s now).nodes _ (purge-Shrinks st k s now)
      (purge_all-Shrinks (purge st k s now) rest now)

-- Who is gone stays gone.
pub gone-Shrinks :
    (before after : Dict String Session) (k : String)
    → Shrinks before after
    → Dict.get before k ≡ none
    → Dict.get after k ≡ none
gone-Shrinks before after k less gone = elim (Option-cases (Dict.get after k)) [
  | inl away ↦ away
  | inr (s, there) ↦ absurd (ground (arith, less.kept k s there, gone))
]

purge_gone :
    (st : State) (k : String) (s : Session) (now : ℕ)
    → WellFormed st
    → Dict.get (purge st k s now).nodes k ≡ none
unfolding purge
purge_gone st k s now wf =
    let b = is_session_expired s now in
    let marked = if b then mark_token_expired st s.token now else st in
    let marked_wf = WellFormed-core st marked (core-mark st b s.token now) wf in
    elim (Option-cases (Dict.get marked.nodes k)) [
      | inl gone ↦
          gone-Shrinks marked.nodes _ k (terminate_session-Shrinks marked k (purge_opts b) now) gone
      | inr (t, live) ↦
          ended_gone marked k t (purge_opts b) now marked_wf
            (record { live = live; mine = to_all b t.socket; dropped = for_good b })
    ]
  where
    to_all : (b : Bool) (o : Option ℕ) → is_other_socket (purge_opts b).only_if_socket o ≡ false
    to_all true o = refl
    to_all false o = refl

    for_good : (b : Bool) → (purge_opts b).preserve_session ≡ false
    for_good true = refl
    for_good false = refl

abbrev listed : String → List (String × Session) → Bool
listed k = any (λ e. e.0 == k)

pub listed-to_purge :
    (cfg : Limits) (now : ℕ) (nodes : Dict String Session) (k : String) (s : Session)
    → Dict.get nodes k ≡ some s
    → is_due cfg now s ≡ true
    → listed k (to_purge cfg now nodes) ≡ true
unfolding to_purge Dict.get
listed-to_purge cfg now [] k s h due = cc
listed-to_purge cfg now ((j, t) ∷ rest) k s h due = ground (arith, listed-to_purge cfg now rest k s)

pub purge_all_gone :
    (st : State) (due : List (String × Session)) (now : ℕ) (k : String)
    → WellFormed st
    → listed k due ≡ true
    → Dict.get (purge_all st due now).nodes k ≡ none
unfolding purge_all
purge_all_gone st [] now k wf h = cc
purge_all_gone st ((j, s) ∷ rest) now k wf h = elim (Bool-cases (j == k)) [
  | inl same ↦
      gone-Shrinks (purge st j s now).nodes _ k (purge_all-Shrinks (purge st j s now) rest now) (
        subst (λ x. Dict.get (purge st j s now).nodes x ≡ none) (beq→eq j k same)
          (purge_gone st j s now wf))
  | inr differ ↦
      purge_all_gone (purge st j s now) rest now k (purge-WellFormed st j s now wf) (ground arith)
]

unfoldable pub unlocked : ℕ → Option Session → Option Session
unlocked now none = none
unlocked now (some s) = some (unlock now s)

pub get-unlock_all :
    (now : ℕ) (m : Dict String Session) (k : String)
    → Dict.get (unlock_all now m) k ≡ unlocked now (Dict.get m k)
unfolding unlock_all Dict.get unlocked
get-unlock_all now [] k = refl
get-unlock_all now ((j, s) ∷ m) k = ground (arith, get-unlock_all now m k)
