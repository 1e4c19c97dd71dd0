-- ===== src/Server/Sessions/Tokens.antt =====
-- What `resolveSessionByToken` answers: a live session exactly when there is one with the token.
use misaka_network.Common.{
  Bool, List, Option, Option-cases, String, [], arith, false, if◌then◌else◌, inl, inr, ltb, none,
  not, refl, some, string_keys, ℕ, ◌&&◌, ◌==◌, ◌||◌, ◌∷◌, ◌≡◌,
}
use misaka_network.Common.Dict
use misaka_network.Common.Dict.{Dict}
use misaka_network.Server.Sessions.{
  State, Session, TokenStatus, scan_tokens, is_session_expired, resolve_session_by_token,
  token_result, unless_expired,
}

-- A session that the token opens at this time.
abbrev pub opens : String → ℕ → Session → Bool
opens token now s = (s.token == token) && not (is_session_expired s now)

abbrev pub first_open : String → ℕ → List (String × Session) → Option Session
first_open token now [] = none
first_open token now ((k, s) ∷ rest) =
    let later = first_open token now rest in if opens token now s then some s else later

scan_first :
    (token : String) (now : ℕ) (saw : Bool) (entries : List (String × Session))
    → (scan_tokens token now saw entries).0 ≡ first_open token now entries
unfolding scan_tokens
scan_first token now saw [] = refl
scan_first token now saw ((k, s) ∷ rest) =
    ground (arith, scan_first token now (saw || (s.token == token)) rest)

abbrev has_expired : String → ℕ → List (String × Session) → Bool
has_expired token now [] = false
has_expired token now ((k, s) ∷ rest) =
    ((s.token == token) && is_session_expired s now) || has_expired token now rest

scan_saw :
    (token : String) (now : ℕ) (saw : Bool) (entries : List (String × Session))
    → first_open token now entries ≡ none
    → (scan_tokens token now saw entries).1 ≡ (saw || has_expired token now entries)
unfolding scan_tokens
scan_saw token now saw [] h = ground arith
scan_saw token now saw ((k, s) ∷ rest) h =
    ground (arith, scan_saw token now (saw || (s.token == token)) rest)

-- What is answered without an open session: expired where a session with the token is still there
-- and past its time, or the token was marked less than five minutes ago.
abbrev pub lapsed : State → String → ℕ → TokenStatus
lapsed st token now =
    if has_expired token now st.nodes
    then TokenStatus.expired
    else elim (Dict.get st.expired_token_tombstones token) [
      | none ↦ TokenStatus.invalid
      | some until ↦ if ltb now until then TokenStatus.expired else TokenStatus.invalid
    ]

abbrev pub opened_by : State → String → ℕ → Option Session → TokenStatus
opened_by st token now none = lapsed st token now
opened_by st token now (some s) = TokenStatus.ok s

-- A token opens the first session that has it and has not expired. Without one the answer is
-- `expired` where a session with the token is still there and past its time, or where the token was
-- marked as expired less than five minutes ago, and else `invalid`.
pub resolve_session_by_token-exact :
    (st : State) (token : String) (now : ℕ)
    → (token == "") ≡ false
    → (resolve_session_by_token st token now).1
      ≡ opened_by st token now (first_open token now st.nodes)
unfolding resolve_session_by_token token_result unless_expired
resolve_session_by_token-exact st token now named =
    elim (Option-cases (first_open token now st.nodes)) [
      | inr (s, open_now) ↦ ground (arith, scan_first token now false st.nodes, open_now, named)
      | inl nobody ↦ ground (
        arith,
        scan_first token now false st.nodes,
        scan_saw token now false st.nodes nobody,
        nobody,
        named,
      )
    ]
