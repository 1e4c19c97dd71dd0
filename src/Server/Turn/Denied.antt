-- ===== src/Server/Turn/Denied.antt =====
-- A session that was caught is refused for the whole time of its ban.
pub mod Kept
use misaka_network.Server.Turn.Denied.Kept.{
  prune_credentials-deny, sweep-deny, issue-deny, roll-deny, reserve-deny, evaluate-deny,
}
use misaka_network.Server.Turn.Revoke.{
  kept, detached, apply_deny, revoke_answered, write_held, detached, retry_revoke, settle_held,
  deny_session, handle_abusive_begin, deny_entry, effective_strikes, denied_principal,
  strike_reason,
}
use misaka_network.Common.{
  All, Bool, Bool-cases, List, Option, Option-cases, String, [], ap, arith, inl, inr, leb, ltb,
  none, refl, some, string_keys, subst, true, ℕ, ◌+◌, ◌<◌, ◌∙◌, ◌∷◌, ◌≡◌, ◌≤◌, ◌⊎◌,
}
use misaka_network.Common.Dict
use misaka_network.Common.Dict.{Dict, get-put, get-prune_kept, get-put_self}
use misaka_network.Server.Turn.{
  Turn, TurnConfig, ActiveCredential, DenyKey, DenyEntry, deny_keys, prune_credentials,
  prune_active_credentials, prune_issuance_history, prune_ip_byte_ledger, prune_deny_list,
  settle_and_drop, roll_month_if_needed, revoke_all_begin, evaluate_global_kill_switch,
  by_principal, by_cid, by_ip, is_denied,
}
use misaka_network.Server.Turn.Issue.{
  IssueRequest, issue_credentials, issue_cached, issue_fresh, reserve, sweep, finish_issue,
  rollback_reservation, principal_of, is_refusal, gate,
}
use misaka_network.Server.Turn.Usage.{
  record_usage, finish_global_poll, apply_monthly_total, correct_estimate, corrected,
}
use misaka_network.Server.Turn.Burst.{Spending, requests, answered, revoked, retried, spend}

-- Everything that happens to the state.
pub data TurnEvent : Type 0 where
  spends : Spending → TurnEvent
  reports : String → ℕ → ℕ → TurnEvent
  totals : ℕ → Option (ℕ × Bool) → String → ℕ → TurnEvent

unfoldable pub turn_step : TurnConfig → Turn → TurnEvent → Turn
turn_step cfg st (spends e) = spend cfg st e
turn_step cfg st (reports cid bytes now) = record_usage cfg st cid bytes now
turn_step cfg st (totals generation answer code now) =
    finish_global_poll cfg st generation answer code now

unfoldable pub turn_run : TurnConfig → Turn → List TurnEvent → Turn
unfolding turn_step
turn_run cfg st [] = st
turn_run cfg st (e ∷ es) = turn_run cfg (turn_step cfg st e) es

abbrev pub until_of : Option DenyEntry → ℕ
until_of none = 0
until_of (some e) = e.until

-- No request comes after the end, and no report so early that its ban would end before.
abbrev pub InBan : TurnConfig → ℕ → TurnEvent → Type 0
InBan cfg until (spends (requests req)) = req.at < until
InBan cfg until (spends (answered req servers)) = Unit
InBan cfg until (spends (revoked cid held ok now)) = Unit
InBan cfg until (spends (retried cid held ok now)) = Unit
InBan cfg until (reports cid bytes now) = until ≤ now + cfg.ban_duration_ms
InBan cfg until (totals generation answer code now) = Unit

module _ (key : DenyKey) (until : ℕ) where
  -- A sweep inside the ban leaves the entry.
  sweep-until :
      (st : Turn) (req : IssueRequest)
      → req.at < until
      → until ≤ until_of (Dict.get st.deny_list key)
      → until ≤ until_of (Dict.get (sweep st req).deny_list key)
  sweep-until st req early h =
      let stays : Dict.get (sweep st req).deny_list key ≡ Dict.get st.deny_list key =
        ap (λ m. Dict.get m key) (sweep-deny st req)
        ∙ get-prune_kept (λ _ e. leb e.until req.at) st.deny_list key
            (λ e there. ground (arith, there, h)) in
      rw stays h

spend-deny :
    (cfg : TurnConfig) (st : Turn) (e : Spending)
    → ((spend cfg st e).deny_list ≡ st.deny_list)
      ⊎ ((req : IssueRequest) × (e ≡ requests req)
          × ((spend cfg st e).deny_list ≡ (sweep st req).deny_list))
unfolding spend
spend-deny cfg st (requests req) = elim (issue-deny cfg st req) [
  | inl same ↦ inl same
  | inr swept ↦ inr (req, refl, swept)
]
spend-deny cfg st (answered req none) =
    inl (unfold finish_issue rollback_reservation in ground arith)
spend-deny cfg st (answered req (some servers)) = inl (unfold finish_issue in refl)
spend-deny cfg st (revoked cid kept ok now) =
    inl (unfold revoke_answered write_held in ground arith)
spend-deny cfg st (revoked cid (detached c) ok now) =
    inl (unfold revoke_answered write_held in ground arith)
spend-deny cfg st (retried cid kept ok now) =
    inl (unfold retry_revoke write_held settle_held in ground arith)
spend-deny cfg st (retried cid (detached c) ok now) =
    inl (unfold retry_revoke write_held settle_held in ground arith)

apply_deny-until :
    (cfg : TurnConfig) (st : Turn) (principal ip reason cid p : String) (now until : ℕ)
    → until ≤ now + cfg.ban_duration_ms
    → until ≤ until_of (Dict.get st.deny_list (by_principal p))
    → until
      ≤ until_of
          (Dict.get (apply_deny cfg st principal ip reason cid now).deny_list (by_principal p))
unfolding apply_deny
apply_deny-until cfg st principal ip reason cid p now until early h =
    let denied = deny_session cfg st principal ip reason cid now in
    let entry = deny_entry cfg ip reason now in
    let first = Dict.put st.deny_list (by_principal principal) entry in
    let n = effective_strikes ip now denied in
    ground (
      arith,
      get-put st.deny_list (by_principal principal) (by_principal p) entry,
      get-put first (by_cid cid) (by_principal p) entry,
      get-put denied (by_ip ip) (by_principal p) (deny_entry cfg ip (strike_reason reason n) now),
    )

apply_deny-engages :
    (cfg : TurnConfig) (st : Turn) (principal ip reason cid : String) (now : ℕ)
    → 0 < cfg.ban_duration_ms
    → until_of (
        Dict.get (apply_deny cfg st principal ip reason cid now).deny_list (by_principal principal))
      ≡ now + cfg.ban_duration_ms
unfolding apply_deny
apply_deny-engages cfg st principal ip reason cid now bans =
    let denied = deny_session cfg st principal ip reason cid now in
    let entry = deny_entry cfg ip reason now in
    let first = Dict.put st.deny_list (by_principal principal) entry in
    let n = effective_strikes ip now denied in
    ground (
      arith,
      bans,
      get-put_self st.deny_list (by_principal principal) entry,
      get-put first (by_cid cid) (by_principal principal) entry,
      get-put denied (by_ip ip) (by_principal principal)
          (deny_entry cfg ip (strike_reason reason n) now),
    )

report-until :
    (cfg : TurnConfig) (st : Turn) (cid p : String) (bytes now until : ℕ)
    → until ≤ now + cfg.ban_duration_ms
    → until ≤ until_of (Dict.get st.deny_list (by_principal p))
    → until ≤ until_of (Dict.get (record_usage cfg st cid bytes now).deny_list (by_principal p))
unfolding record_usage handle_abusive_begin correct_estimate
report-until cfg st cid p bytes now until early h =
    elim (Option-cases (Dict.get st.active_credentials cid)) [
      | inl gone ↦ rw (gone, record_usage) h
      | inr (c, there) ↦ elim (Bool-cases (leb cfg.max_bytes_per_session bytes)) [
        | inl over ↦
            rw (there, record_usage, over)
              (apply_deny-until cfg _ (denied_principal cid (corrected c bytes)) c.ip
                "SESSION_BYTES_EXCEEDED" cid p now until early (ground (arith, h)))
        | inr under ↦ rw (there, record_usage, under) (ground (arith, h))
      ]
    ]

total-deny :
    (cfg : TurnConfig) (st : Turn) (total : ℕ) (truncated : Bool) (now : ℕ)
    → (apply_monthly_total cfg st total truncated now).deny_list ≡ st.deny_list
unfolding apply_monthly_total prune_active_credentials
total-deny cfg st total truncated now =
    evaluate-deny cfg _ now ∙ prune_credentials-deny st st.active_credentials now

totals-deny :
    (cfg : TurnConfig) (st : Turn) (generation : ℕ) (answer : Option (ℕ × Bool)) (code : String)
    (now : ℕ)
    → (finish_global_poll cfg st generation answer code now).deny_list ≡ st.deny_list
unfolding finish_global_poll
totals-deny cfg st generation none code now = ground arith
totals-deny cfg st generation (some (total, truncated)) code now =
    ground (arith, total-deny cfg st total truncated now)

step-until :
    (cfg : TurnConfig) (st : Turn) (e : TurnEvent) (p : String) (until : ℕ)
    → InBan cfg until e
    → until ≤ until_of (Dict.get st.deny_list (by_principal p))
    → until ≤ until_of (Dict.get (turn_step cfg st e).deny_list (by_principal p))
unfolding turn_step
step-until cfg st (reports cid bytes now) p until w h =
    report-until cfg st cid p bytes now until w h
step-until cfg st (totals generation answer code now) p until w h =
    rw (totals-deny cfg st generation answer code now) h
step-until cfg st (spends e) p until w h = elim (spend-deny cfg st e) [
  | inl same ↦ rw same h
  | inr (req, is, swept) ↦
      rw swept
        (sweep-until (by_principal p) until st req (subst (λ x. InBan cfg until (spends x)) is w) h)
]

run-until :
    (cfg : TurnConfig) (st : Turn) (es : List TurnEvent) (p : String) (until : ℕ)
    → All (InBan cfg until) es
    → until ≤ until_of (Dict.get st.deny_list (by_principal p))
    → until ≤ until_of (Dict.get (turn_run cfg st es).deny_list (by_principal p))
unfolding turn_run
run-until cfg st [] p until w h = h
run-until cfg st (e ∷ es) p until w h =
    run-until cfg (turn_step cfg st e) es p until w.1 (step-until cfg st e p until w.0 h)

refused_inside :
    (cfg : TurnConfig) (st : Turn) (req : IssueRequest) (p : String) (until : ℕ)
    → principal_of req.turn_principal req.custom_identifier ≡ p
    → req.at < until
    → until ≤ until_of (Dict.get st.deny_list (by_principal p))
    → is_refusal (issue_credentials cfg st req).1 ≡ true
unfolding issue_credentials
refused_inside cfg st req p until is early h =
    let swept = sweep st req in
    let banned : is_denied swept (by_principal p) req.at ≡ true =
      unfold is_denied in ground (arith, sweep-until (by_principal p) until st req early h) in
    elim (Option-cases (gate swept req)) [
      | inl open_gate ↦ absurd (unfold gate in ground (arith, is, banned, open_gate))
      | inr (reason, shut) ↦ ground (arith, shut)
    ]

-- A session that is caught with too many bytes at time `t0` is refused for the whole time of the
-- ban, whatever requests, answers, revokes, retries and polls come in between: a request of its
-- principal, under any session and from any address, gets no credential and no call is made for it.
pub ban_holds :
    (cfg : TurnConfig) (st : Turn) (cid : String) (c : ActiveCredential) (bytes t0 : ℕ)
    (es : List TurnEvent) (req : IssueRequest)
    → 0 < cfg.ban_duration_ms
    → All (InBan cfg (t0 + cfg.ban_duration_ms)) es
    → principal_of req.turn_principal req.custom_identifier ≡ denied_principal cid c
    → req.at < t0 + cfg.ban_duration_ms
    → is_refusal
        (issue_credentials cfg (turn_run cfg (handle_abusive_begin cfg st cid c bytes t0) es) req).1
      ≡ true
unfolding handle_abusive_begin
ban_holds cfg st cid c bytes t0 es req bans times is early =
    let until = t0 + cfg.ban_duration_ms in
    let caught = handle_abusive_begin cfg st cid c bytes t0 in
    let p = denied_principal cid c in
    refused_inside cfg (turn_run cfg caught es) req p until is early (
      run-until cfg caught es p until times
        (omega (arith, apply_deny-engages cfg _ p c.ip "SESSION_BYTES_EXCEEDED" cid t0 bans)))
