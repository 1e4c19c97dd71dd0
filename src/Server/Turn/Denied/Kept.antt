-- ===== src/Server/Turn/Denied/Kept.antt =====
-- server/src/turn.ts: what an issuance and the month do to the deny list.
use misaka_network.Common.{
  Bool-cases, List, Option-cases, String, [], ap, arith, inl, inr, leb, ltb, refl, string_keys, ℕ,
  ◌∙◌, ◌∷◌, ◌≡◌, ◌⊎◌,
}
use misaka_network.Common.Dict
use misaka_network.Common.Dict.{Dict, get-put, get-prune_kept, get-put_self}
use misaka_network.Server.Turn.{
  Turn, TurnConfig, ActiveCredential, deny_keys, prune_credentials, prune_active_credentials,
  prune_issuance_history, prune_ip_byte_ledger, prune_deny_list, settle_and_drop,
  roll_month_if_needed, revoke_all_begin, evaluate_global_kill_switch,
}
use misaka_network.Server.Turn.Issue.{
  IssueRequest, issue_credentials, issue_cached, issue_fresh, reserve, sweep,
}

pub prune_credentials-deny :
    (st : Turn) (cs : List (String × ActiveCredential)) (now : ℕ)
    → (prune_credentials st cs now).deny_list ≡ st.deny_list
unfolding prune_credentials settle_and_drop
prune_credentials-deny st [] now = refl
prune_credentials-deny st ((cid, c) ∷ rest) now = elim (Bool-cases (ltb c.expires_at now)) [
  | inl old ↦
      rw (old, prune_credentials) (prune_credentials-deny (settle_and_drop st cid c now) rest now)
  | inr young ↦ rw (young, prune_credentials) (prune_credentials-deny st rest now)
]

pub evaluate-deny :
    (cfg : TurnConfig) (st : Turn) (now : ℕ)
    → (evaluate_global_kill_switch cfg st now).deny_list ≡ st.deny_list
unfolding evaluate_global_kill_switch revoke_all_begin
evaluate-deny cfg st now = ground arith

pub reserve-deny :
    (cfg : TurnConfig) (st : Turn) (req : IssueRequest)
    → (reserve cfg st req).deny_list ≡ st.deny_list
unfolding reserve
reserve-deny cfg st req = evaluate-deny cfg _ req.at

fresh-deny :
    (cfg : TurnConfig) (st : Turn) (req : IssueRequest)
    → (issue_fresh cfg st req).0.deny_list ≡ st.deny_list
unfolding issue_fresh
fresh-deny cfg st req = ground (arith, reserve-deny cfg st req)

cached-deny :
    (cfg : TurnConfig) (st : Turn) (req : IssueRequest)
    → (issue_cached cfg st req).0.deny_list ≡ st.deny_list
unfolding issue_cached
cached-deny cfg st req =
    let dropped = record st {
      credential_cache = Dict.remove st.credential_cache req.custom_identifier;
    } in
    elim (Option-cases (Dict.get st.credential_cache req.custom_identifier)) [
      | inl nothing ↦ rw (nothing, issue_cached) (fresh-deny cfg st req)
      | inr (cached, there) ↦ rw (there, issue_cached) (ground (arith, fresh-deny cfg dropped req))
    ]

pub roll-deny :
    (st : Turn) (month : String) → (roll_month_if_needed st month).deny_list ≡ st.deny_list
unfolding roll_month_if_needed
roll-deny st month = ground arith

pub sweep-deny :
    (st : Turn) (req : IssueRequest)
    → (sweep st req).deny_list ≡ Dict.prune (λ _ e. leb e.until req.at) st.deny_list
unfolding sweep prune_active_credentials prune_issuance_history prune_ip_byte_ledger prune_deny_list
sweep-deny st req =
    let rolled = prune_issuance_history (roll_month_if_needed st req.month) req.at in
    ap (Dict.prune (λ _ e. leb e.until req.at))
      (prune_credentials-deny rolled rolled.active_credentials req.at ∙ roll-deny st req.month)

pub issue-deny :
    (cfg : TurnConfig) (st : Turn) (req : IssueRequest)
    → ((issue_credentials cfg st req).0.deny_list ≡ st.deny_list)
      ⊎ ((issue_credentials cfg st req).0.deny_list ≡ (sweep st req).deny_list)
unfolding issue_credentials
issue-deny cfg st req = ground (arith, cached-deny cfg (sweep st req) req)
