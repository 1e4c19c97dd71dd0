-- ===== src/Server/Turn/Burst.antt =====
-- The kill switch, and how far a burst of requests can get past its threshold.
use misaka_network.Common.{
  Bool, Bool-cases, List, Option, Option-cases, String, [], arith, false, inl, inr, ltb, max, none,
  refl, some, string_keys, subst, sym, true, ℕ, ◌+◌, ◌∷◌, ◌≡◌, ◌≤◌, ◌⊎◌,
}
use misaka_network.Common.Dict
use misaka_network.Common.Dict.{Dict}
use misaka_network.Server.Turn.{
  Turn, TurnConfig, ActiveCredential, MonthlyUsage, IceServer, prune_credentials,
  prune_active_credentials, prune_issuance_history, prune_ip_byte_ledger, prune_deny_list,
  settle_and_drop, roll_month_if_needed, revoke_all_begin, evaluate_global_kill_switch,
  pessimistic_estimate,
}
use misaka_network.Server.Turn.Issue.{
  reserved, IssueRequest, issue_credentials, issue_cached, issue_fresh, finish_issue,
  rollback_reservation, reserve, sweep, gate, is_refusal, global_quota_exceeded,
}
use misaka_network.Server.Turn.Revoke.{
  Held, kept, detached, revoke_answered, retry_revoke, write_held, settle_held,
}

-- What happens between two polls.
pub data Spending : Type 0 where
  requests : IssueRequest → Spending
  answered : IssueRequest → Option (List IceServer) → Spending
  revoked retried : String → Held → Bool → ℕ → Spending

unfoldable pub spend : TurnConfig → Turn → Spending → Turn
spend cfg st (requests req) = (issue_credentials cfg st req).0
spend cfg st (answered req servers) = (finish_issue cfg st req servers).0
spend cfg st (revoked cid held ok now) = revoke_answered st cid held ok now
spend cfg st (retried cid held ok now) = retry_revoke st cid held ok now

unfoldable pub spend_all : TurnConfig → Turn → List Spending → Turn
unfolding spend
spend_all cfg st [] = st
spend_all cfg st (e ∷ es) = spend_all cfg (spend cfg st e) es

-- The effective bytes are the greater of the two counts; they are past the threshold only with the
-- switch engaged, and then by no more than one credential's estimate.
pub record Capped (cfg : TurnConfig) (u : MonthlyUsage) : Type 0 where
  pub effective : u.bytes_observed ≡ max u.cf_bytes_observed u.pessimistic_bytes_observed
  pub open_below : u.kill_switch_active ≡ false → u.bytes_observed ≤ cfg.threshold
  pub bound : u.bytes_observed ≤ cfg.threshold + pessimistic_estimate cfg

prune_credentials-usage :
    (st : Turn) (cs : List (String × ActiveCredential)) (now : ℕ)
    → (prune_credentials st cs now).monthly_usage ≡ st.monthly_usage
unfolding prune_credentials settle_and_drop
prune_credentials-usage st [] now = refl
prune_credentials-usage st ((cid, c) ∷ rest) now = elim (Bool-cases (ltb c.expires_at now)) [
  | inl old ↦
      rw (old, prune_credentials) (prune_credentials-usage (settle_and_drop st cid c now) rest now)
  | inr young ↦ rw (young, prune_credentials) (prune_credentials-usage st rest now)
]

roll-Capped :
    (cfg : TurnConfig) (st : Turn) (month : String)
    → Capped cfg st.monthly_usage
    → Capped cfg (roll_month_if_needed st month).monthly_usage
unfolding roll_month_if_needed
roll-Capped cfg st month c = ground arith

sweep-usage :
    (st : Turn) (req : IssueRequest)
    → (sweep st req).monthly_usage ≡ (roll_month_if_needed st req.month).monthly_usage
unfolding sweep prune_active_credentials prune_issuance_history prune_ip_byte_ledger prune_deny_list
sweep-usage st req =
    let rolled = prune_issuance_history (roll_month_if_needed st req.month) req.at in
    prune_credentials-usage rolled rolled.active_credentials req.at

-- Where the bytes before are below the threshold or at it, a new estimate leads to a capped state.
evaluate-Capped :
    (cfg : TurnConfig) (st : Turn) (now : ℕ)
    → st.monthly_usage.bytes_observed
      ≡ max st.monthly_usage.cf_bytes_observed st.monthly_usage.pessimistic_bytes_observed
    → st.monthly_usage.bytes_observed ≤ cfg.threshold + pessimistic_estimate cfg
    → Capped cfg (evaluate_global_kill_switch cfg st now).monthly_usage
unfolding evaluate_global_kill_switch revoke_all_begin
evaluate-Capped cfg st now e b = ground arith

reserve-Capped :
    (cfg : TurnConfig) (st : Turn) (req : IssueRequest)
    → Capped cfg st.monthly_usage
    → st.monthly_usage.kill_switch_active ≡ false
    → Capped cfg (reserve cfg st req).monthly_usage
unfolding reserve
reserve-Capped cfg st req c off =
    evaluate-Capped cfg (reserved cfg st req) req.at refl
      (ground (arith, c.open_below off, c.effective))

fresh-Capped :
    (cfg : TurnConfig) (st : Turn) (req : IssueRequest)
    → Capped cfg st.monthly_usage
    → st.monthly_usage.kill_switch_active ≡ false
    → Capped cfg (issue_fresh cfg st req).0.monthly_usage
unfolding issue_fresh
fresh-Capped cfg st req c off = ground (arith, reserve-Capped cfg st req c off)

cached-Capped :
    (cfg : TurnConfig) (st : Turn) (req : IssueRequest)
    → Capped cfg st.monthly_usage
    → st.monthly_usage.kill_switch_active ≡ false
    → Capped cfg (issue_cached cfg st req).0.monthly_usage
unfolding issue_cached
cached-Capped cfg st req c off =
    let cid = req.custom_identifier in
    let dropped = record st { credential_cache = Dict.remove st.credential_cache cid } in
    elim (Option-cases (Dict.get st.credential_cache cid)) [
      | inl nothing ↦ rw (nothing, issue_cached) (fresh-Capped cfg st req c off)
      | inr (cached, there) ↦
          rw (there, issue_cached) (ground (arith, fresh-Capped cfg dropped req c off))
    ]

gate-open :
    (st : Turn) (req : IssueRequest)
    → gate st req ≡ none
    → st.monthly_usage.kill_switch_active ≡ false
unfolding gate
gate-open st req h = ground arith

issue-Capped :
    (cfg : TurnConfig) (st : Turn) (req : IssueRequest)
    → Capped cfg st.monthly_usage
    → Capped cfg (issue_credentials cfg st req).0.monthly_usage
unfolding issue_credentials
issue-Capped cfg st req c =
    let swept = sweep st req in
    let kept : Capped cfg swept.monthly_usage =
      subst (λ u. Capped cfg u) (sym (sweep-usage st req)) (roll-Capped cfg st req.month c) in
    elim (Option-cases (gate swept req)) [
      | inl open_gate ↦
          ground (
            arith,
            open_gate,
            kept,
            cached-Capped cfg swept req kept (gate-open swept req open_gate),
          )
      | inr (reason, shut) ↦ ground (arith, shut, kept)
    ]

finish-Capped :
    (cfg : TurnConfig) (st : Turn) (req : IssueRequest) (answer : Option (List IceServer))
    → Capped cfg st.monthly_usage
    → Capped cfg (finish_issue cfg st req answer).0.monthly_usage
unfolding finish_issue rollback_reservation
finish-Capped cfg st req none c = ground arith
finish-Capped cfg st req (some servers) c = c

revoked-usage :
    (st : Turn) (cid : String) (held : Held) (ok : Bool) (now : ℕ)
    → (revoke_answered st cid held ok now).monthly_usage ≡ st.monthly_usage
unfolding revoke_answered write_held
revoked-usage st cid kept ok now = ground arith
revoked-usage st cid (detached c) ok now = ground arith

retried-usage :
    (st : Turn) (cid : String) (held : Held) (ok : Bool) (now : ℕ)
    → (retry_revoke st cid held ok now).monthly_usage ≡ st.monthly_usage
unfolding retry_revoke write_held settle_held
retried-usage st cid kept ok now = ground arith
retried-usage st cid (detached c) ok now = ground arith

spend-Capped :
    (cfg : TurnConfig) (st : Turn) (e : Spending)
    → Capped cfg st.monthly_usage
    → Capped cfg (spend cfg st e).monthly_usage
unfolding spend
spend-Capped cfg st (requests req) c = issue-Capped cfg st req c
spend-Capped cfg st (answered req servers) c = finish-Capped cfg st req servers c
spend-Capped cfg st (revoked cid held ok now) c = rw (revoked-usage st cid held ok now) c
spend-Capped cfg st (retried cid held ok now) c = rw (retried-usage st cid held ok now) c

engaged_refuses :
    (cfg : TurnConfig) (st : Turn) (req : IssueRequest)
    → st.monthly_usage.kill_switch_active ≡ true
    → st.monthly_usage.month_key ≡ req.month
    → is_refusal (issue_credentials cfg st req).1 ≡ true
unfolding issue_credentials gate
engaged_refuses cfg st req on same =
    let swept = sweep st req in
    let still : swept.monthly_usage.kill_switch_active ≡ true =
      unfold roll_month_if_needed in
      ground
        (arith, sweep-usage st req, string_keys.beq_iff st.monthly_usage.month_key req.month) in
    let shut : gate swept req ≡ some global_quota_exceeded = rw (still, gate) refl in
    ground (arith, shut)

all-Capped :
    (cfg : TurnConfig) (st : Turn) (es : List Spending)
    → Capped cfg st.monthly_usage
    → Capped cfg (spend_all cfg st es).monthly_usage
unfolding spend_all
all-Capped cfg st [] c = c
all-Capped cfg st (e ∷ es) c = all-Capped cfg (spend cfg st e) es (spend-Capped cfg st e c)

-- However many requests come, in any order with the provider's answers to them and with revokes and
-- retries, and whatever months begin, the bytes that are counted never get past the threshold by
-- more than one credential's estimate, and once they are past it the next request of the same month
-- is refused.
pub spend_all-Capped :
    (cfg : TurnConfig) (st : Turn) (es : List Spending) (req : IssueRequest)
    → Capped cfg st.monthly_usage
    → (spend_all cfg st es).monthly_usage.month_key ≡ req.month
    → let after = spend_all cfg st es in
      let bytes = after.monthly_usage.bytes_observed in
      (bytes ≤ cfg.threshold + pessimistic_estimate cfg)
      × ((bytes ≤ cfg.threshold) ⊎ (is_refusal (issue_credentials cfg after req).1 ≡ true))
spend_all-Capped cfg st es req c same =
    let after = spend_all cfg st es in
    let capped = all-Capped cfg st es c in
    (
      capped.bound,
      elim (Bool-cases after.monthly_usage.kill_switch_active) [
        | inl on ↦ inr (engaged_refuses cfg after req on same)
        | inr off ↦ inl (capped.open_below off)
      ],
    )
