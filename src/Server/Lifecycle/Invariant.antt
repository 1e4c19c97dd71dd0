-- ===== src/Server/Lifecycle/Invariant.antt =====
-- Ending a session, in whatever way, keeps the maps in agreement.
use misaka_network.Server.Sessions.Invariant.{in_channel, is_member, WellFormed, modify-Keyed}
use misaka_network.Server.Sessions.{State, Session}
use misaka_network.Common.{
  List, Option-cases, String, [], ap, arith, false, if◌then◌else◌, inl, inr, none, not, refl, some,
  string_keys, ◌&&◌, ◌==◌, ◌∷◌, ◌≡◌, ◌≢◌,
}
use misaka_network.Common.Dict
use misaka_network.Common.Dict.{
  Dict, get-put, get-remove, get-modify, get-put_self, get-remove_self,
}
use misaka_network.Server.Lifecycle.{off_channel, leave, leave_channel, without, store_members}

is_member-without :
    (k j : String) (ms : List String)
    → is_member j (without k ms) ≡ (is_member j ms && not (k == j))
unfolding without
is_member-without k j [] = refl
is_member-without k j (m ∷ ms) = ground (
  arith,
  is_member-without k j ms,
  string_keys.beq_iff m k,
  string_keys.beq_iff m j,
  string_keys.beq_iff k j,
)

in_channel-store_members :
    (channels : Dict String (List String)) (c d k : String) (ms : List String)
    → in_channel (store_members channels c ms) d k
      ≡ (if c == d then is_member k ms else in_channel channels d k)
unfolding store_members
in_channel-store_members channels c d k [] = ground (arith, get-remove channels c d)
in_channel-store_members channels c d k (m ∷ ms) = ground (arith, get-put channels c d (m ∷ ms))

populated-store_members :
    (channels : Dict String (List String)) (c d : String) (ms : List String)
    → Dict.get channels d ≢ some []
    → Dict.get (store_members channels c ms) d ≢ some []
unfolding store_members
populated-store_members channels c d [] h = ground (arith, get-remove channels c d)
populated-store_members channels c d (m ∷ ms) h = ground (arith, get-put channels c d (m ∷ ms))

-- A nameless channel has no members to store.
get-store_members :
    (channels : Dict String (List String)) (c : String) (ms : List String)
    → Dict.get channels "" ≡ none
    → c ≢ ""
    → Dict.get (store_members channels c ms) "" ≡ none
unfolding store_members
get-store_members channels c [] h n = ground (arith, get-remove channels c "")
get-store_members channels c (m ∷ ms) h n =
    ground (arith, get-put channels c "" (m ∷ ms), string_keys.beq_iff c "")

module _ (st : State) (sid : String) (session : Session) (wf : WellFormed st)
    (live : Dict.get st.nodes sid ≡ some session) where
  pub own_id : session.session_id ≡ sid
  own_id = wf.keyed sid session live

  vacant-WellFormed :
      (c : String)
      → session.channel_id ≡ some c
      → Dict.get st.channels c ≡ none
      → WellFormed (leave st session c)
  vacant-WellFormed c at gone =
      absurd (ground (arith, wf.member c sid, live, string_keys.beq_iff c c))

  named : (c : String) (ms : List String) → Dict.get st.channels c ≡ some ms → c ≢ ""
  named c ms has e = cc (rw e at has, wf.no_channel)

  leave-WellFormed :
      (c : String) (ms : List String)
      → session.channel_id ≡ some c
      → Dict.get st.channels c ≡ some ms
      → WellFormed (leave st session c)
  unfolding leave
  leave-WellFormed c ms at has =
      rw (has, leave, own_id)
        (record {
          keyed = modify-Keyed st.nodes sid off_channel (λ s. refl) wf.keyed;
          member = λ d k. ground (
            arith,
            in_channel-store_members st.channels c d k (without sid ms),
            is_member-without sid k ms,
            get-modify st.nodes sid k off_channel,
            wf.member d k,
            string_keys.beq_iff sid k,
            string_keys.beq_iff c d,
          );
          authed = λ w k. ground (
            arith,
            get-modify st.nodes sid k off_channel,
            wf.authed w k,
            string_keys.beq_iff sid k,
          );
          indexed = λ p k. ground (
            arith,
            get-modify st.nodes sid k off_channel,
            wf.indexed p k,
            string_keys.beq_iff sid k,
          );
          populated =
              λ d. populated-store_members st.channels c d (without sid ms) (wf.populated d);
          no_channel = ground (
            arith,
            get-store_members st.channels c (without sid ms) wf.no_channel (named c ms has),
          );
          no_proof = wf.no_proof;
        })

  pub not_empty : (c : String) → session.channel_id ≡ some c → c == "" ≡ false
  not_empty c at = ground (
    arith,
    wf.member c sid,
    wf.no_channel,
    string_keys.beq_iff c "",
    ap (λ d. Dict.get st.channels d) {x = c} {y = ""},
  )

  pub leave_channel-WellFormed : WellFormed (leave_channel st session)
  unfolding leave_channel
  leave_channel-WellFormed = elim (Option-cases session.channel_id) [
    | inl out ↦ rw (out, leave_channel) wf
    | inr (c, at) ↦
        rw (at, leave_channel, not_empty c at)
          (elim (Option-cases (Dict.get st.channels c)) [
            | inl gone ↦ vacant-WellFormed c at gone
            | inr (ms, has) ↦ leave-WellFormed c ms at has
          ])
  ]
