-- ===== src/Server/Turn/Revoke.antt =====
-- server/src/turn.ts: the denial of an abusive session, and the three ways in which a credential is
-- revoked: for abuse, by the kill switch, and by the retry loop.
use misaka_network.Common.{
  Bool, Option, String, [], false, if◌then◌else◌, leb, ltb, none, some, string_keys, true, ℕ, ◌&&◌,
  ◌+◌, ◌==◌, ◌||◌, ◌∷◌,
}
use misaka_network.Common.Dict
use misaka_network.Common.Dict.{Dict}
use misaka_network.Server.Turn.{
  Turn, TurnConfig, ActiveCredential, DenyKey, DenyEntry, by_ip, by_principal, by_cid, deny_keys,
  settle_credential_usage, drop_credential, pend_revoke,
}
use Prim.Native.String.{◌++◌ as concat}
use misaka_network.Server.Ws.{decimal}

-- A strike of an address: a denial of a session there that still runs.
abbrev is_strike : Bool → String → ℕ → DenyKey → DenyEntry → Bool
is_strike cids ip now (by_ip _) e = false
is_strike cids ip now (by_principal _) e = e.ip == ip && ltb now e.until
is_strike cids ip now (by_cid _) e = cids && (e.ip == ip && ltb now e.until)

unfoldable pub strikes : Bool → String → ℕ → Dict DenyKey DenyEntry → ℕ
strikes cids ip now [] = 0
strikes cids ip now ((k, e) ∷ rest) =
    let more = strikes cids ip now rest in if is_strike cids ip now k e then more + 1 else more

abbrev pub deny_entry : TurnConfig → String → String → ℕ → DenyEntry
deny_entry cfg ip reason now = record {
  until = now + cfg.ban_duration_ms;
  reason = reason;
  at = now;
  ip = ip;
}

-- The two denials of the session.
abbrev pub deny_session :
    TurnConfig → Turn → String → String → String → String → ℕ → Dict DenyKey DenyEntry
deny_session cfg st principal ip reason cid now =
    Dict.put (Dict.put st.deny_list (by_principal principal) (deny_entry cfg ip reason now))
      (by_cid cid) (deny_entry cfg ip reason now)

unfoldable pub effective_strikes : String → ℕ → Dict DenyKey DenyEntry → ℕ
unfolding strikes
effective_strikes ip now denied =
    let by_principals = strikes false ip now denied in
    if ltb 0 by_principals then by_principals else strikes true ip now denied

abbrev pub strike_reason : String → ℕ → String
strike_reason reason n = concat reason (concat "_STRIKES_" (decimal 20 n))

-- applyDeny, for a session whose customIdentifier is known.
unfoldable pub apply_deny : TurnConfig → Turn → String → String → String → String → ℕ → Turn
unfolding effective_strikes
apply_deny cfg st principal ip reason cid now =
    let denied = deny_session cfg st principal ip reason cid now in
    let n = effective_strikes ip now denied in
    if leb cfg.ban_duration_ms 0
    then st
    else if leb cfg.ip_ban_strikes n
    then record st {
      deny_list = Dict.put denied (by_ip ip) (deny_entry cfg ip (strike_reason reason n) now);
    }
    else record st { deny_list = denied }

-- What a continuation finds of the object that it holds: it still stands in the map, or it has been
-- replaced there or taken off, with what it held when that happened.
pub data Held : Type 0 where
  kept : Held
  detached : ActiveCredential → Held

abbrev pub held_credential : Turn → String → Held → Option ActiveCredential
held_credential st cid kept = Dict.get st.active_credentials cid
held_credential st cid (detached c) = some c

-- A write to the object that is held: it shows in the map while the object stands there.
unfoldable pub write_held : Turn → String → Held → (ActiveCredential → ActiveCredential) → Turn
write_held st cid kept f = record st {
  active_credentials = Dict.modify st.active_credentials cid f;
}
write_held st cid (detached c) f = st

abbrev pub denied_principal : String → ActiveCredential → String
denied_principal cid c = elim c.turn_principal [
  | none ↦ concat "sess:" cid
  | some p ↦ if p == "" then concat "sess:" cid else p
]

-- handleAbusiveCredential before the flush: settled, denied, and marked.
unfoldable pub handle_abusive_begin : TurnConfig → Turn → String → ActiveCredential → ℕ → ℕ → Turn
unfolding settle_credential_usage apply_deny
handle_abusive_begin cfg st cid c bytes now =
    let (ledger, settled) = settle_credential_usage st.ip_byte_ledger c (some bytes) now in
    apply_deny cfg
      (record st {
        ip_byte_ledger = ledger;
        active_credentials = Dict.put st.active_credentials cid (pend_revoke settled now);
      })
      (denied_principal cid c) c.ip "SESSION_BYTES_EXCEEDED" cid now

-- After the provider's answer: for abuse, and for each credential of the kill switch's sweep.
unfoldable pub revoke_answered : Turn → String → Held → Bool → ℕ → Turn
unfolding write_held
revoke_answered st cid held ok now =
    if ok then drop_credential st cid else write_held st cid held (λ c. pend_revoke c now)

-- The object settles, if it has not: what it adds to the ledger.
unfoldable pub settle_held : Turn → String → Held → ℕ → Turn
unfolding settle_credential_usage
settle_held st cid held now = elim (held_credential st cid held) [
  | none ↦ st
  | some c ↦ record st { ip_byte_ledger = (settle_credential_usage st.ip_byte_ledger c none now).0 }
]

-- One credential of the retry loop; a credential that is still out is revoked again.
unfoldable pub retry_revoke : Turn → String → Held → Bool → ℕ → Turn
unfolding settle_held write_held
retry_revoke st cid held ok now = elim (held_credential st cid held) [
  | none ↦ st
  | some c ↦
      if ltb c.expires_at now || ok
      then drop_credential (settle_held st cid held now) cid
      else write_held st cid held (λ d. record d {
        revoke_attempts = d.revoke_attempts + 1;
        last_revoke_attempt_at = some now;
      })
]
