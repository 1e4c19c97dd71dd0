-- ===== src/Server/Turn/Rollback.antt =====
-- A provider call that fails takes back its own reservation and nothing else.
use misaka_network.Common.{
  Bool, List, String, [], any, ap, arith, beq_self, false, filter, none, not, refl, some,
  string_keys, subst, sym, ◌++◌, ◌==◌, ◌∷◌, ◌≡◌,
}
use misaka_network.Common.Dict
use misaka_network.Common.Dict.{Dict, get-put, get-remove}
use misaka_network.Server.Turn.{
  Turn, TurnConfig, ActiveCredential, IssuanceRecord, evaluate_global_kill_switch,
}
use misaka_network.Server.Turn.Issue.{
  IssueRequest, refused, cf_error, finish_issue, rollback_reservation, reserve, reservation_of,
  has_reservation, remove_record,
}

abbrev pub is_other : String → IssuanceRecord → Bool
is_other id r = not (r.made_for == id)

remove_record-others :
    (id : String) (rs : List IssuanceRecord)
    → filter (is_other id) (remove_record id rs) ≡ filter (is_other id) rs
unfolding remove_record
remove_record-others id [] = refl
remove_record-others id (r ∷ rs) = ground (arith, remove_record-others id rs)

remove_record-append :
    (id : String) (rs : List IssuanceRecord) (r : IssuanceRecord)
    → any (λ (x : IssuanceRecord). x.made_for == id) rs ≡ false
    → r.made_for ≡ id
    → remove_record id (rs ++ r ∷ []) ≡ rs
unfolding remove_record
remove_record-append id [] r fresh mine = rw (mine, beq_self id) refl
remove_record-append id (x ∷ rs) r fresh mine = ground (arith, remove_record-append id rs r)

-- Whatever has happened since the reservation, a failure leaves alone every credential of another
-- reservation, with what is cached for it, and every record of another, and it is answered by an
-- error.
pub failed_issue_spares :
    (cfg : TurnConfig) (st : Turn) (req : IssueRequest) (k : String) (c : ActiveCredential)
    → Dict.get st.active_credentials k ≡ some c
    → has_reservation req.reservation (some c) ≡ false
    → let (after, answer) = finish_issue cfg st req none in
      (answer ≡ refused cf_error)
      × (Dict.get after.active_credentials k ≡ some c)
      × (Dict.get after.credential_cache k ≡ Dict.get st.credential_cache k)
      × (filter (is_other req.reservation) after.ip_issuance_history
          ≡ filter (is_other req.reservation) st.ip_issuance_history)
unfolding finish_issue rollback_reservation
failed_issue_spares cfg st req k c there other =
    let cid = req.custom_identifier in
    let not_it : cid ≡ k
        → has_reservation req.reservation (Dict.get st.active_credentials cid) ≡ false =
      λ same.
        subst (λ x. has_reservation req.reservation (Dict.get st.active_credentials x) ≡ false)
          (sym same) (rw there other) in
    (
      refl,
      ground
          (arith, there, get-remove st.active_credentials cid k, not_it, string_keys.beq_iff cid k),
      ground (arith, get-remove st.credential_cache cid k, not_it, string_keys.beq_iff cid k),
      remove_record-others req.reservation st.ip_issuance_history,
    )

-- A reservation whose call fails at once leaves no trace in the accounts of a session that had no
-- credential: neither the credential, nor the record, nor the bytes.
pub failed_issue_undoes :
    (cfg : TurnConfig) (st : Turn) (req : IssueRequest) (k : String)
    → Dict.get st.active_credentials req.custom_identifier ≡ none
    → any (λ (r : IssuanceRecord). r.made_for == req.reservation) st.ip_issuance_history ≡ false
    → cfg.revoke_all_on_kill ≡ false
    → let after = (finish_issue cfg (reserve cfg st req) req none).0 in
      (Dict.get after.active_credentials k ≡ Dict.get st.active_credentials k)
      × (after.ip_issuance_history ≡ st.ip_issuance_history)
      × (after.monthly_usage.pessimistic_bytes_observed
          ≡ st.monthly_usage.pessimistic_bytes_observed)
unfolding finish_issue rollback_reservation reserve evaluate_global_kill_switch
failed_issue_undoes cfg st req k absent fresh manual = ground (
  arith,
  absent,
  manual,
  get-put st.active_credentials req.custom_identifier k (reservation_of cfg req),
  get-put st.active_credentials req.custom_identifier req.custom_identifier
      (reservation_of cfg req),
  get-remove (Dict.put st.active_credentials req.custom_identifier (reservation_of cfg req))
      req.custom_identifier k,
  beq_self req.custom_identifier,
  beq_self req.reservation,
  string_keys.beq_iff req.custom_identifier k,
  ap (λ x. Dict.get st.active_credentials x),
  remove_record-append req.reservation st.ip_issuance_history
      (record { ip = req.ip; issued_at = req.at; made_for = req.reservation }),
)
