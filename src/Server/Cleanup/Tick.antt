-- ===== src/Server/Cleanup/Tick.antt =====
-- What a whole tick promises of the sessions.
use misaka_network.Common.{
  List, Option-cases, String, [], ap, arith, false, inl, inr, none, refl, some, string_keys, sym,
  true, ℕ, ◌∙◌, ◌∷◌, ◌≡◌,
}
use misaka_network.Common.Dict
use misaka_network.Common.Dict.{Dict, get-prune_kept}
use misaka_network.Server.Guard.{Limits}
use misaka_network.Server.Sessions.{State, Session, cleanup_expired_tombstones}
use misaka_network.Server.Sessions.Invariant.{WellFormed, members_of, is_member}
use misaka_network.Server.Admission.{Server}
use misaka_network.Server.Cleanup.{
  is_due, to_purge, purge_all, unlock_all, sweep_sessions, run_cleanup_tick, no_members,
}
use misaka_network.Server.Cleanup.Sweeps.{
  purge_all-WellFormed, purge_all_gone, listed-to_purge, get-unlock_all, unlocked,
}

unlock_all-WellFormed :
    (st : State) (now : ℕ)
    → WellFormed st
    → WellFormed (record st { nodes = unlock_all now st.nodes })
unfolding unlocked
unlock_all-WellFormed st now wf = record {
  keyed = λ k s. elim (Option-cases (Dict.get st.nodes k)) [
    | inl gone ↦ ground (arith, get-unlock_all now st.nodes k)
    | inr (t, there) ↦ ground (arith, get-unlock_all now st.nodes k, wf.keyed k t there)
  ];
  member = λ c k. elim (Option-cases (Dict.get st.nodes k)) [
    | inl gone ↦ ground (arith, get-unlock_all now st.nodes k, wf.member c k)
    | inr (t, there) ↦ ground (arith, get-unlock_all now st.nodes k, wf.member c k)
  ];
  authed = λ w k. elim (Option-cases (Dict.get st.nodes k)) [
    | inl gone ↦ ground (arith, get-unlock_all now st.nodes k, wf.authed w k)
    | inr (t, there) ↦ ground (arith, get-unlock_all now st.nodes k, wf.authed w k)
  ];
  indexed = λ p k. elim (Option-cases (Dict.get st.nodes k)) [
    | inl gone ↦ ground (arith, get-unlock_all now st.nodes k, wf.indexed p k)
    | inr (t, there) ↦ ground (arith, get-unlock_all now st.nodes k, wf.indexed p k)
  ];
  populated = wf.populated;
  no_channel = wf.no_channel;
  no_proof = wf.no_proof;
}

abbrev sweep_channels : Dict String (List String) → Dict String (List String)
sweep_channels = Dict.prune (λ _ ms. no_members ms)

get-sweep_channels :
    (st : State) (c : String)
    → WellFormed st
    → Dict.get (sweep_channels st.channels) c ≡ Dict.get st.channels c
get-sweep_channels st c wf =
    get-prune_kept (λ _ ms. no_members ms) st.channels c (λ ms. occupied ms)
  where
    occupied : (ms : List String) → Dict.get st.channels c ≡ some ms → no_members ms ≡ false
    occupied [] h = absurd (wf.populated c h)
    occupied (m ∷ ms) h = refl

swept-WellFormed :
    (st : State) (now : ℕ)
    → WellFormed st
    → WellFormed
        (cleanup_expired_tombstones (record st { channels = sweep_channels st.channels }) now)
unfolding cleanup_expired_tombstones
swept-WellFormed st now wf = record {
  keyed = wf.keyed;
  member = λ c k. ap (λ o. is_member k (members_of o)) (get-sweep_channels st c wf) ∙ wf.member c k;
  authed = wf.authed;
  indexed = wf.indexed;
  populated = λ c h. wf.populated c (sym (get-sweep_channels st c wf) ∙ h);
  no_channel = get-sweep_channels st "" wf ∙ wf.no_channel;
  no_proof = wf.no_proof;
}

pub run_cleanup_tick-WellFormed :
    (cfg : Limits) (sv : Server) (now : ℕ)
    → WellFormed sv.sessions
    → WellFormed (run_cleanup_tick cfg sv now).sessions
unfolding run_cleanup_tick sweep_sessions cleanup_expired_tombstones
run_cleanup_tick-WellFormed cfg sv now wf =
    let list = to_purge cfg now sv.sessions.nodes in
    let purged = purge_all sv.sessions list now in
    swept-WellFormed (record purged { nodes = unlock_all now purged.nodes }) now
      (unlock_all-WellFormed purged now (purge_all-WellFormed sv.sessions list now wf))

-- A tick keeps the maps in agreement, and ends every session that has expired at that time or has
-- been without a socket and untouched for the reconnect time.
pub run_cleanup_tick-due :
    (cfg : Limits) (sv : Server) (now : ℕ) (k : String) (s : Session)
    → WellFormed sv.sessions
    → Dict.get sv.sessions.nodes k ≡ some s
    → is_due cfg now s ≡ true
    → WellFormed (run_cleanup_tick cfg sv now).sessions
      × (Dict.get (run_cleanup_tick cfg sv now).sessions.nodes k ≡ none)
unfolding run_cleanup_tick sweep_sessions cleanup_expired_tombstones
run_cleanup_tick-due cfg sv now k s wf live due =
    let list = to_purge cfg now sv.sessions.nodes in
    let purged = purge_all sv.sessions list now in
    let away =
      purge_all_gone sv.sessions list now k wf
        (listed-to_purge cfg now sv.sessions.nodes k s live due) in
    (
      run_cleanup_tick-WellFormed cfg sv now wf,
      unfold unlocked in get-unlock_all now purged.nodes k ∙ ap (unlocked now) away,
    )
