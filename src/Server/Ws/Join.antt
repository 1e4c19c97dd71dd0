-- ===== src/Server/Ws/Join.antt =====
-- JOIN_CLUSTER, and every frame: what they leave of the maps.
use misaka_network.Common.{
  Bool-cases, List, String, [], any-append, ap, arith, beq→eq, false, inl, inr, none, refl, some,
  string_keys, ℕ, ◌==◌, ◌||◌, ◌∙◌, ◌∷◌, ◌≡◌, ◌≢◌,
}
use Prim.Native.String.{◌++◌ as concat, slice, len}
use text.Mathlib.TextPositions.{len-append}
use misaka_network.Server.Ws.{decimal, in_channel_of}
use misaka_network.Server.Lifecycle.Teardown.{get-leave_channel}
use misaka_network.Common.Dict
use misaka_network.Common.Dict.{Dict, get-put, get-modify}
use misaka_network.Server.Sessions.{State, Session}
use misaka_network.Server.Sessions.Invariant.{WellFormed, modify-Keyed, is_member}
use misaka_network.Server.Lifecycle as Life
use misaka_network.Server.Backpressure.{Net, Wire}
use misaka_network.Server.Ws.{
  leave, enter, join, in_cluster, add_member, members_or_new, cluster_channel_id,
}
use misaka_network.Server.Ws.Keeps.{
  core, WellFormed-core, core-introduce_all, leave-WellFormed, leave-leave_channel,
}

pub is_member-add_member :
    (sid k : String) (ms : List String)
    → is_member k (add_member sid ms) ≡ (sid == k || is_member k ms)
is_member-add_member sid k ms = ground (
  arith,
  any-append (λ x. x == k) ms (sid ∷ []),
  string_keys.beq_iff sid k,
  ap (λ x. is_member x ms),
)

add_member-full : (sid : String) (ms : List String) → add_member sid ms ≢ []
add_member-full sid [] h = ground arith
add_member-full sid (m ∷ ms) h = ground arith

-- The sessions with `sid` in the channel `c`.
abbrev pub entered : State → String → String → State
entered st sid c = record st {
  channels = Dict.put st.channels c (add_member sid (members_or_new (Dict.get st.channels c)));
  nodes = Dict.modify st.nodes sid (in_cluster c);
}

entered-WellFormed :
    (st : State) (sid c : String) (s : Session)
    → WellFormed st
    → Dict.get st.nodes sid ≡ some s
    → s.channel_id ≡ none
    → (c == "") ≡ false
    → WellFormed (entered st sid c)
entered-WellFormed st sid c s wf live out named =
    let ms = members_or_new (Dict.get st.channels c) in
    record {
      keyed = modify-Keyed st.nodes sid (in_cluster c) (λ t. refl) wf.keyed;
      member = λ d k. ground (
        arith,
        get-put st.channels c d (add_member sid ms),
        get-modify st.nodes sid k (in_cluster c),
        is_member-add_member sid k ms,
        wf.member d k,
        wf.member d sid,
        wf.member c k,
        string_keys.beq_iff sid k,
        string_keys.beq_iff c d,
        live,
        out,
      );
      authed = λ w k. ground (
        arith,
        get-modify st.nodes sid k (in_cluster c),
        wf.authed w k,
        string_keys.beq_iff sid k,
      );
      indexed = λ p k. ground (
        arith,
        get-modify st.nodes sid k (in_cluster c),
        wf.indexed p k,
        string_keys.beq_iff sid k,
      );
      populated = λ d. ground (
        arith,
        add_member-full sid ms,
        get-put st.channels c d (add_member sid ms),
        wf.populated d,
      );
      no_channel =
          ground (arith, get-put st.channels c "" (add_member sid ms), wf.no_channel, named);
      no_proof = wf.no_proof;
    }

pub core-enter :
    (net : Net) (w : Wire) (ws : ℕ) (s : Session) (c : String) (now : ℕ)
    → core (enter net w ws s c now).sessions ≡ core (entered w.sessions s.session_id c)
unfolding enter
core-enter net w ws s c now =
    let members = members_or_new (Dict.get w.sessions.channels c) in
    ap
      (λ k. (
        Dict.modify k.0 s.session_id (in_cluster c),
        Dict.put k.1 c (add_member s.session_id members),
        k.2,
        k.3,
      ))
      (core-introduce_all net w ws s members now)

cluster-named : (node_id : ℕ) (hash : String) → (cluster_channel_id node_id hash == "") ≡ false
unfolding cluster_channel_id
cluster-named node_id hash =
    let rest = concat (decimal 20 node_id) (concat "-" (slice hash 0 16)) in
    elim (Bool-cases (cluster_channel_id node_id hash == "")) [
      | inl nameless ↦
          let empty_text = ap len (beq→eq (cluster_channel_id node_id hash) "" nameless) in
          absurd (omega (arith, empty_text, len-append "cluster-" rest))
      | inr named ↦ named
    ]

left_alone :
    (st : State) (s : Session)
    → WellFormed st
    → Dict.get st.nodes s.session_id ≡ some s
    → Dict.get (Life.leave_channel st s).nodes s.session_id ≡ some (record s { channel_id = none })
left_alone st s wf live = get-leave_channel st s.session_id s wf live

-- A live session that asks for its cluster is put in it, and the maps still agree.
pub join-WellFormed :
    (net : Net) (w : Wire) (ws : ℕ) (s : Session) (now : ℕ)
    → WellFormed w.sessions
    → Dict.get w.sessions.nodes s.session_id ≡ some s
    → WellFormed (join net w ws s now).sessions
unfolding join
join-WellFormed net w ws s now wf live =
    let c = cluster_channel_id s.node_id s.pass_code_hash in
    let out = leave net w s now in
    let same = leave-leave_channel net w s now in
    let there : Dict.get out.sessions.nodes s.session_id ≡ some (Life.off_channel s) =
      ap (λ k. Dict.get k.0 s.session_id) same ∙ left_alone w.sessions s wf live in
    elim (Bool-cases (in_channel_of s.channel_id c)) [
      | inl already ↦ rw (already, join) wf
      | inr elsewhere ↦
          rw (elsewhere, join)
            (WellFormed-core (entered out.sessions s.session_id c)
              (enter net out ws s c now).sessions (core-enter net out ws s c now)
              (entered-WellFormed out.sessions s.session_id c (Life.off_channel s)
                (leave-WellFormed net w s now wf live) there refl
                (cluster-named s.node_id s.pass_code_hash)))
    ]
