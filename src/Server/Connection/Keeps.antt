-- ===== src/Server/Connection/Keeps.antt =====
-- A connection that authenticates keeps the maps in agreement, and so does one that closes.
use misaka_network.Common.{
  Option, Option-cases, String, ap, arith, false, inl, inr, nat_eq, nat_keys, none, refl, some,
  string_keys, ℕ, ◌≡◌,
}
use misaka_network.Common.Dict
use misaka_network.Common.Dict.{Dict, get-put, get-remove, get-modify}
use misaka_network.Server.Sessions.{State, Session, unmark_socket, mark_socket_authenticated}
use misaka_network.Server.Sessions.Invariant.{WellFormed, modify-Keyed, holds→eq}
use misaka_network.Server.Connection.{attach, supersede, connected}
use misaka_network.Server.Ws.Keeps.{core, WellFormed-core, core-close_socket}

-- The index of sockets without the socket that is taken over.
abbrev pub freed : Dict ℕ String → Option ℕ → Dict ℕ String
freed authed none = authed
freed authed (some old) = Dict.remove authed old

abbrev pub attached : State → String → Option ℕ → ℕ → String → ℕ → State
attached st sid before ws ip now = record st {
  nodes = Dict.modify st.nodes sid (connected ws ip now);
  authed_sockets = Dict.put (freed st.authed_sockets before) ws sid;
}

pub core-attach :
    (st : State) (s : Session) (ws : ℕ) (ip : String) (now : ℕ)
    → Dict.get st.authed_sockets ws ≡ none
    → WellFormed st
    → Dict.get st.nodes s.session_id ≡ some s
    → core (attach st s ws ip now) ≡ core (attached st s.session_id s.socket ws ip now)
unfolding attach supersede mark_socket_authenticated unmark_socket
core-attach st s ws ip now unused wf live = elim (Option-cases s.socket) [
  | inl off ↦ rw (off, supersede, freed) refl
  | inr (old, on) ↦
      let differ : nat_eq old ws ≡ false =
        ground (arith, wf.authed ws s.session_id, live, on, unused) in
      rw (on, supersede, freed, differ)
        (ap
          (λ k. (
            Dict.modify k.0 s.session_id (connected ws ip now),
            k.1,
            k.2,
            Dict.put k.3 ws s.session_id,
          ))
          (core-close_socket (unmark_socket st old) old 1000 "SUPERSEDED"))
]

attached-WellFormed :
    (st : State) (s : Session) (ws : ℕ) (ip : String) (now : ℕ)
    → Dict.get st.authed_sockets ws ≡ none
    → WellFormed st
    → Dict.get st.nodes s.session_id ≡ some s
    → WellFormed (attached st s.session_id s.socket ws ip now)
attached-WellFormed st s ws ip now unused wf live =
    let sid = s.session_id in
    let f = connected ws ip now in
    record {
      keyed = modify-Keyed st.nodes sid f (λ t. refl) wf.keyed;
      member = λ c k.
          ground (arith, get-modify st.nodes sid k f, wf.member c k, string_keys.beq_iff sid k);
      authed = λ w k. elim (Option-cases s.socket) [
        | inl off ↦ ground (
          arith,
          off,
          get-put st.authed_sockets ws w sid,
          get-modify st.nodes sid k f,
          wf.authed w k,
          wf.authed ws k,
          wf.authed w sid,
          string_keys.beq_iff sid k,
          live,
          unused,
        )
        | inr (old, on) ↦ ground (
          arith,
          on,
          get-put (Dict.remove st.authed_sockets old) ws w sid,
          get-remove st.authed_sockets old w,
          get-modify st.nodes sid k f,
          wf.authed w k,
          wf.authed ws k,
          wf.authed old k,
          wf.authed old sid,
          holds→eq (Dict.get st.authed_sockets old) sid,
          wf.authed w sid,
          string_keys.beq_iff sid k,
          live,
          unused,
        )
      ];
      indexed = λ p k.
          ground (arith, get-modify st.nodes sid k f, wf.indexed p k, string_keys.beq_iff sid k);
      populated = wf.populated;
      no_channel = wf.no_channel;
      no_proof = wf.no_proof;
    }

-- A socket that has authenticated nobody takes over a live session, from the socket that it had if
-- it had one: the maps agree afterwards, so that the index has the new socket and not the old.
pub attach-WellFormed :
    (st : State) (s : Session) (ws : ℕ) (ip : String) (now : ℕ)
    → Dict.get st.authed_sockets ws ≡ none
    → WellFormed st
    → Dict.get st.nodes s.session_id ≡ some s
    → WellFormed (attach st s ws ip now)
attach-WellFormed st s ws ip now unused wf live =
    WellFormed-core (attached st s.session_id s.socket ws ip now) (attach st s ws ip now)
      (core-attach st s ws ip now unused wf live)
      (attached-WellFormed st s ws ip now unused wf live)
