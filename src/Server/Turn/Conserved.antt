-- ===== src/Server/Turn/Conserved.antt =====
-- However credentials end, their confirmed bytes stay with the address.
use misaka_network.Common.{
  Bool, Bool-cases, List, Option, String, [], ap, arith, beq_self, beq→eq, false, inl, inr, leb,
  ltb, none, not, refl, some, string_keys, subst, sym, true, ℕ, ◌&&◌, ◌+◌, ◌==◌, ◌∙◌, ◌∷◌, ◌≡◌,
}
use misaka_network.Common.Dict
use misaka_network.Common.Dict.{
  Dict, Distinct, get-put, get-remove, get-modify, put-Distinct, remove-Distinct,
}
use misaka_network.Server.Turn.{
  Turn, TurnConfig, ActiveCredential, settle_and_drop, prune_credentials, prune_active_credentials,
  evaluate_global_kill_switch, settle_credential_usage, revoke_all_begin, settle_all,
  IpByteLedgerEntry, pend_revoke,
}
use misaka_network.Server.Turn.Revoke.{
  kept, handle_abusive_begin, revoke_answered, retry_revoke, apply_deny, denied_principal,
}
use misaka_network.Server.Turn.Ledger.{
  confirmed, settle_and_drop-confirmed, unsettled_bytes, settled_bytes, owed, unsettled-put,
  settled-append, settle-settled, owed_by,
}

-- Each credential stands once, and one that is to be revoked has settled.
pub record Orderly (active : Dict String ActiveCredential) : Type 0 where
  pub distinct : Distinct active
  pub settled :
      (cid : String) (c : ActiveCredential)
      → Dict.get active cid ≡ some c
      → c.revoke_pending ≡ true
      → c.usage_settled ≡ true

-- The ways in which credentials end, from one state to another, while the object that a
-- continuation holds stands in the map.
pub data Ending (cfg : TurnConfig) (st : Turn) : Turn → Type 0 where
  starts : Ending cfg st st
  expires : (t : Turn) (now : ℕ) → Ending cfg st t → Ending cfg st (prune_active_credentials t now)
  trips :
      (t : Turn) (now : ℕ) → Ending cfg st t → Ending cfg st (evaluate_global_kill_switch cfg t now)
  abuses :
      (t : Turn) (cid : String) (c : ActiveCredential) (bytes now : ℕ)
      → Dict.get t.active_credentials cid ≡ some c
      → c.cf_actual_bytes ≡ some bytes
      → Ending cfg st t
      → Ending cfg st (handle_abusive_begin cfg t cid c bytes now)
  answers :
      (t : Turn) (cid : String) (c : ActiveCredential) (ok : Bool) (now : ℕ)
      → Dict.get t.active_credentials cid ≡ some c
      → c.revoke_pending ≡ true
      → Ending cfg st t
      → Ending cfg st (revoke_answered t cid kept ok now)
  retries :
      (t : Turn) (cid : String) (ok : Bool) (now : ℕ)
      → Ending cfg st t
      → Ending cfg st (retry_revoke t cid kept ok now)

-- What a step has to show of the state after it.
pub record Same (ip : String) (before after : Turn) : Type 0 where
  pub orderly : Orderly after.active_credentials
  pub conserved : confirmed ip after ≡ confirmed ip before

pub remove-Orderly :
    (active : Dict String ActiveCredential) (cid : String)
    → Orderly active
    → Orderly (Dict.remove active cid)
remove-Orderly active cid o = record {
  distinct = remove-Distinct active cid o.distinct;
  settled = λ k c there pending. ground (arith, get-remove active cid k, o.settled k c);
}

pub put-Orderly :
    (active : Dict String ActiveCredential) (cid : String) (c : ActiveCredential)
    → Orderly active
    → (c.revoke_pending ≡ true → c.usage_settled ≡ true)
    → Orderly (Dict.put active cid c)
put-Orderly active cid c o s = record {
  distinct = put-Distinct active cid c o.distinct;
  settled = λ k d there pending. ground (arith, get-put active cid k c, o.settled k d);
}

pub prune_credentials-Same :
    (ip : String) (st : Turn) (cs : List (String × ActiveCredential)) (now : ℕ)
    → Distinct cs
    → ((k : String) (c : ActiveCredential)
        → Dict.get cs k ≡ some c
        → Dict.get st.active_credentials k ≡ some c)
    → Orderly st.active_credentials
    → Same ip st (prune_credentials st cs now)
unfolding prune_credentials Dict.get settle_and_drop
prune_credentials-Same ip st [] now d same o = record { orderly = o; conserved = refl }
prune_credentials-Same ip st ((cid, c) ∷ rest) now d same o =
    let there : Dict.get st.active_credentials cid ≡ some c =
      same cid c (ground (arith, beq_self cid)) in
    let rest_same : (k : String) (e : ActiveCredential)
        → Dict.get rest k ≡ some e
        → (cid == k) ≡ false =
      λ k e h. elim (Bool-cases (cid == k)) [
        | inl eq ↦ cc (d.0, h, ap (λ x. Dict.get rest x) (beq→eq cid k eq))
        | inr ne ↦ ne
      ] in
    elim (Bool-cases (ltb c.expires_at now)) [
      | inl old ↦
          let next = settle_and_drop st cid c now in
          let tail : Same ip next (prune_credentials next rest now) =
            prune_credentials-Same ip next rest now d.1
              (λ k e h.
                ground
                  (arith, get-remove st.active_credentials cid k, rest_same k e h, same k e, h))
              (remove-Orderly st.active_credentials cid o) in
          rw (old, prune_credentials)
            (record {
              orderly = tail.orderly;
              conserved =
                  tail.conserved ∙ settle_and_drop-confirmed ip st cid c now o.distinct there;
            })
      | inr young ↦
          rw (young, prune_credentials)
            (prune_credentials-Same ip st rest now d.1
              (λ k e h. same k e (ground (arith, rest_same k e h, h))) o)
    ]

nothing_owed :
    (ip : String) (ledger : List IpByteLedgerEntry) (c : ActiveCredential) (o : Option ℕ) (now : ℕ)
    → owed ip (settle_credential_usage ledger c o now).1 ≡ 0
unfolding settle_credential_usage
nothing_owed ip ledger c o now = ground arith

settle_all-bytes :
    (ip : String) (ledger : List IpByteLedgerEntry) (m : Dict String ActiveCredential) (now : ℕ)
    → settled_bytes ip (settle_all ledger m now).0 + unsettled_bytes ip (settle_all ledger m now).1
      ≡ settled_bytes ip ledger + unsettled_bytes ip m
unfolding settle_all unsettled_bytes
settle_all-bytes ip ledger [] now = refl
settle_all-bytes ip ledger ((cid, c) ∷ m) now =
    let one = settle_credential_usage ledger c none now in
    omega (
      arith,
      settle_all-bytes ip one.0 m now,
      settle-settled ip ledger c now,
      nothing_owed ip ledger c none now,
    )

get-settle_all :
    (ledger : List IpByteLedgerEntry) (m : Dict String ActiveCredential) (now : ℕ) (k : String)
    (c : ActiveCredential)
    → Dict.get (settle_all ledger m now).1 k ≡ some c
    → c.usage_settled ≡ true
unfolding settle_all Dict.get settle_credential_usage
get-settle_all ledger [] now k c h = cc
get-settle_all ledger ((j, d) ∷ m) now k c h =
    ground (arith, get-settle_all (settle_credential_usage ledger d none now).0 m now k c)

none-settle_all :
    (ledger : List IpByteLedgerEntry) (m : Dict String ActiveCredential) (now : ℕ) (k : String)
    → Dict.get m k ≡ none
    → Dict.get (settle_all ledger m now).1 k ≡ none
unfolding settle_all Dict.get
none-settle_all ledger [] now k h = refl
none-settle_all ledger ((j, d) ∷ m) now k h =
    ground (arith, none-settle_all (settle_credential_usage ledger d none now).0 m now k)

settle_all-Distinct :
    (ledger : List IpByteLedgerEntry) (m : Dict String ActiveCredential) (now : ℕ)
    → Distinct m
    → Distinct (settle_all ledger m now).1
unfolding settle_all
settle_all-Distinct ledger [] now d = tt
settle_all-Distinct ledger ((j, c) ∷ m) now d =
    let next = (settle_credential_usage ledger c none now).0 in
    (none-settle_all next m now j d.0, settle_all-Distinct next m now d.1)

revoke_all-Same :
    (ip : String) (st : Turn) (now : ℕ)
    → Orderly st.active_credentials
    → Same ip st (revoke_all_begin st now)
unfolding revoke_all_begin
revoke_all-Same ip st now o = record {
  orderly = record {
    distinct = settle_all-Distinct st.ip_byte_ledger st.active_credentials now o.distinct;
    settled =
        λ k c there pending. get-settle_all st.ip_byte_ledger st.active_credentials now k c there;
  };
  conserved = settle_all-bytes ip st.ip_byte_ledger st.active_credentials now;
}

pub evaluate-Same :
    (ip : String) (cfg : TurnConfig) (st : Turn) (now : ℕ)
    → Orderly st.active_credentials
    → Same ip st (evaluate_global_kill_switch cfg st now)
unfolding evaluate_global_kill_switch
evaluate-Same ip cfg st now o =
    let u = st.monthly_usage in
    let tripped : Turn = record st {
      monthly_usage = record u { kill_switch_active = true; kill_switch_triggered_at = now };
    } in
    elim (Bool-cases (not u.kill_switch_active && leb cfg.threshold u.bytes_observed)) [
      | inr below ↦
          rw (below, evaluate_global_kill_switch) (record { orderly = o; conserved = refl })
      | inl past ↦ elim (Bool-cases cfg.revoke_all_on_kill) [
        | inl all ↦
            rw (past, evaluate_global_kill_switch, all)
              (record {
                orderly = (revoke_all-Same ip tripped now o).orderly;
                conserved = (revoke_all-Same ip tripped now o).conserved;
              })
        | inr only ↦
            rw (past, evaluate_global_kill_switch, only) (record { orderly = o; conserved = refl })
      ]
    ]

apply_deny-active :
    (cfg : TurnConfig) (st : Turn) (principal ip reason cid : String) (now : ℕ)
    → (apply_deny cfg st principal ip reason cid now).active_credentials ≡ st.active_credentials
unfolding apply_deny
apply_deny-active cfg st principal ip reason cid now = ground arith

apply_deny-ledger :
    (cfg : TurnConfig) (st : Turn) (principal ip reason cid : String) (now : ℕ)
    → (apply_deny cfg st principal ip reason cid now).ip_byte_ledger ≡ st.ip_byte_ledger
unfolding apply_deny
apply_deny-ledger cfg st principal ip reason cid now = ground arith

settle_observed :
    (ip : String) (ledger : List IpByteLedgerEntry) (c : ActiveCredential) (bytes now : ℕ)
    → c.cf_actual_bytes ≡ some bytes
    → settled_bytes ip (settle_credential_usage ledger c (some bytes) now).0
      ≡ settled_bytes ip ledger + owed ip c
unfolding settle_credential_usage
settle_observed ip ledger c bytes now same =
    ground (arith, settled-append ip ledger (record { ip = c.ip; bytes = bytes; at = now }))

settle-is_settled :
    (ledger : List IpByteLedgerEntry) (c : ActiveCredential) (o : Option ℕ) (now : ℕ)
    → (settle_credential_usage ledger c o now).1.usage_settled ≡ true
unfolding settle_credential_usage
settle-is_settled ledger c o now = ground arith

pub abusive-Same :
    (ip : String) (cfg : TurnConfig) (st : Turn) (cid : String) (c : ActiveCredential)
    (bytes now : ℕ)
    → Dict.get st.active_credentials cid ≡ some c
    → c.cf_actual_bytes ≡ some bytes
    → Orderly st.active_credentials
    → Same ip st (handle_abusive_begin cfg st cid c bytes now)
unfolding handle_abusive_begin
abusive-Same ip cfg st cid c bytes now there reported o =
    let one = settle_credential_usage st.ip_byte_ledger c (some bytes) now in
    let marked = pend_revoke one.1 now in
    let settled = settle-is_settled st.ip_byte_ledger c (some bytes) now in
    let noted : Turn = record st {
      ip_byte_ledger = one.0;
      active_credentials = Dict.put st.active_credentials cid marked;
    } in
    let p = denied_principal cid c in
    record {
      orderly =
          subst (λ m. Orderly m)
            (sym (apply_deny-active cfg noted p c.ip "SESSION_BYTES_EXCEEDED" cid now))
            (put-Orderly st.active_credentials cid marked o (λ h. settled));
      conserved = omega (
        arith,
        ap (unsettled_bytes ip)
            (apply_deny-active cfg noted p c.ip "SESSION_BYTES_EXCEEDED" cid now),
        ap (settled_bytes ip) (apply_deny-ledger cfg noted p c.ip "SESSION_BYTES_EXCEEDED" cid now),
        settle_observed ip st.ip_byte_ledger c bytes now reported,
        unsettled-put ip st.active_credentials cid marked,
        nothing_owed ip st.ip_byte_ledger c (some bytes) now,
        ap (owed_by ip) there,
      );
    }
