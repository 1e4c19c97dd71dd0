-- ===== src/Server/Turn/Usage.antt =====
-- server/src/turn.ts: what the two analytics polls write when their pages have arrived.
use misaka_network.Common.{
  Bool, Option, String, [], false, if◌then◌else◌, leb, ltb, max, nat_eq, none, not, some,
  string_keys, true, ℕ, ◌&&◌, ◌+◌, ◌-◌, ◌==◌, ◌||◌, ◌∷◌,
}
use misaka_network.Common.Dict
use misaka_network.Common.Dict.{Dict}
use misaka_network.Server.Turn.{
  Turn, TurnConfig, ActiveCredential, MonthlyUsage, cloudflare, prune_active_credentials,
  evaluate_global_kill_switch, roll_month_if_needed,
}
use misaka_network.Server.Turn.Revoke.{handle_abusive_begin}

abbrev is_truncation : Option String → Bool
is_truncation none = false
is_truncation (some code) = code == "ANALYTICS_TRUNCATED"

unfoldable pub set_analytics_truncated : MonthlyUsage → Bool → MonthlyUsage
set_analytics_truncated u true = record u {
  analytics_truncated = true;
  last_cf_sync_error_code = some "ANALYTICS_TRUNCATED";
}
set_analytics_truncated u false =
    if u.analytics_truncated
    then record u {
      analytics_truncated = false;
      last_cf_sync_error_code =
          if is_truncation u.last_cf_sync_error_code then none else u.last_cf_sync_error_code;
    }
    else u

-- The bytes of a credential as the provider reports them, where they exceed the estimate.
unfoldable pub correct_estimate : Turn → String → ActiveCredential → ℕ → Turn
correct_estimate st cid c actual =
    let u = st.monthly_usage in
    let observed = u.pessimistic_bytes_observed + (actual - c.pessimistic_bytes) in
    let reported = record c { cf_actual_bytes = some actual } in
    if ltb c.pessimistic_bytes actual
    then record st {
      active_credentials =
          Dict.put st.active_credentials cid (record reported { pessimistic_bytes = actual });
      monthly_usage = record u {
        pessimistic_bytes_observed = observed;
        bytes_observed = max u.cf_bytes_observed observed;
      };
    }
    else record st { active_credentials = Dict.put st.active_credentials cid reported }

abbrev pub corrected : ActiveCredential → ℕ → ActiveCredential
corrected c actual = record c {
  cf_actual_bytes = some actual;
  pessimistic_bytes = max c.pessimistic_bytes actual;
}

-- One row of the abuse poll, up to the first thing that it waits for.
unfoldable pub record_usage : TurnConfig → Turn → String → ℕ → ℕ → Turn
unfolding correct_estimate handle_abusive_begin
record_usage cfg st cid actual now = elim (Dict.get st.active_credentials cid) [
  | none ↦ st
  | some c ↦
      let noted = correct_estimate st cid c actual in
      if leb cfg.max_bytes_per_session actual
      then handle_abusive_begin cfg noted cid (corrected c actual) actual now
      else noted
]

unfoldable pub sum_pessimistic : Dict String ActiveCredential → ℕ
sum_pessimistic [] = 0
sum_pessimistic ((_, c) ∷ rest) = c.pessimistic_bytes + sum_pessimistic rest

-- The counters after the total of the month, which is a lower bound where the answer was cut short.
unfoldable pub reconcile_usage : TurnConfig → MonthlyUsage → ℕ → ℕ → Bool → ℕ → MonthlyUsage
unfolding set_analytics_truncated
reconcile_usage cfg usage active total true now =
    let u = set_analytics_truncated usage true in
    let low = max u.cf_bytes_observed total in
    record u { cf_bytes_observed = low; bytes_observed = max low u.pessimistic_bytes_observed }
reconcile_usage cfg usage active total false now =
    let u = set_analytics_truncated usage false in
    let effective = max total active in
    let clears = u.kill_switch_active && ltb effective cfg.threshold in
    record u {
      cf_bytes_observed = total;
      pessimistic_bytes_observed = active;
      bytes_observed = effective;
      usage_source = cloudflare;
      last_cf_sync_at = now;
      last_cf_sync_error_code = none;
      kill_switch_active = u.kill_switch_active && not clears;
      kill_switch_triggered_at = if clears then 0 else u.kill_switch_triggered_at;
    }

-- An authoritative total also ends the state in which nothing is issued.
unfoldable pub apply_monthly_total : TurnConfig → Turn → ℕ → Bool → ℕ → Turn
unfolding reconcile_usage sum_pessimistic
apply_monthly_total cfg st total truncated now =
    let swept = prune_active_credentials st now in
    let active = sum_pessimistic swept.active_credentials in
    evaluate_global_kill_switch cfg
      (record swept {
        monthly_usage = reconcile_usage cfg swept.monthly_usage active total truncated now;
        is_ready = swept.is_ready || not truncated;
      })
      now

-- A poll that a later one has overtaken writes nothing.
unfoldable pub finish_global_poll : TurnConfig → Turn → ℕ → Option (ℕ × Bool) → String → ℕ → Turn
unfolding apply_monthly_total
finish_global_poll cfg st generation answer code now =
    if not (nat_eq generation st.global_poll_generation) then st else elim answer [
      | none ↦ record st {
        monthly_usage = record st.monthly_usage { last_cf_sync_error_code = some code };
      }
      | some (total, truncated) ↦ apply_monthly_total cfg st total truncated now
    ]

unfoldable pub begin_global_poll : Turn → String → Turn
begin_global_poll st month =
    roll_month_if_needed (record st { global_poll_generation = st.global_poll_generation + 1 })
      month
