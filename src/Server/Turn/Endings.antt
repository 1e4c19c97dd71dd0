-- ===== src/Server/Turn/Endings.antt =====
-- The conservation over whole runs, and the one way in which it fails.
use misaka_network.Common.{
  Bool, Bool-cases, Option-cases, String, [], ap, arith, beq_self, false, inl, inr, ltb, none, refl,
  some, string_keys, true, ℕ, ◌+◌, ◌||◌, ◌∙◌, ◌∷◌, ◌≡◌,
}
use misaka_network.Common.Dict
use misaka_network.Common.Dict.{Dict, Distinct, get-put, get-modify}
use misaka_network.Server.Turn.{
  Turn, TurnConfig, ActiveCredential, pend_revoke, settle_credential_usage,
  evaluate_global_kill_switch, prune_active_credentials,
}
use misaka_network.Server.Turn.Issue.{IssueRequest, reserve, reserved, reservation_of}
use misaka_network.Server.Turn.Revoke.{kept, revoke_answered, retry_revoke, write_held, settle_held}
use misaka_network.Server.Turn.Ledger.{
  owed, owed_by, unsettled_bytes, confirmed, settle-settled, unsettled-remove, unsettled-put,
}
use misaka_network.Server.Turn.Conserved.{
  Orderly, Same, Ending, starts, expires, trips, abuses, answers, retries, remove-Orderly,
  put-Orderly, prune_credentials-Same, evaluate-Same, abusive-Same,
}

unsettled-modify :
    (ip : String) (m : Dict String ActiveCredential) (k : String)
    (f : ActiveCredential → ActiveCredential)
    → ((c : ActiveCredential) → owed ip (f c) ≡ owed ip c)
    → unsettled_bytes ip (Dict.modify m k f) ≡ unsettled_bytes ip m
unfolding unsettled_bytes Dict.modify
unsettled-modify ip [] k f same = refl
unsettled-modify ip ((j, c) ∷ m) k f same = ground (arith, same c, unsettled-modify ip m k f same)

modify-Distinct :
    (m : Dict String ActiveCredential) (k : String) (f : ActiveCredential → ActiveCredential)
    → Distinct m
    → Distinct (Dict.modify m k f)
unfolding Dict.modify Dict.get
modify-Distinct [] k f d = tt
modify-Distinct ((j, c) ∷ m) k f d = ground (arith, get-modify m k j f, modify-Distinct m k f d.1)

-- A write that leaves alone what is owed and whether it has settled.
modify-Same :
    (ip : String) (st : Turn) (cid : String) (f : ActiveCredential → ActiveCredential)
    → ((c : ActiveCredential) → owed ip (f c) ≡ owed ip c)
    → ((c : ActiveCredential)
        → Dict.get st.active_credentials cid ≡ some c
        → (f c).revoke_pending ≡ true
        → (f c).usage_settled ≡ true)
    → Orderly st.active_credentials
    → Same ip st (record st { active_credentials = Dict.modify st.active_credentials cid f })
modify-Same ip st cid f owes settles o = record {
  orderly = record {
    distinct = modify-Distinct st.active_credentials cid f o.distinct;
    settled = λ k d there pending. elim (Option-cases (Dict.get st.active_credentials k)) [
      | inl gone ↦ ground (arith, get-modify st.active_credentials cid k f)
      | inr (c, was) ↦ ground (
        arith,
        get-modify st.active_credentials cid k f,
        o.settled k c,
        settles c,
        string_keys.beq_iff cid k,
        ap (λ x. Dict.get st.active_credentials x),
      )
    ];
  };
  conserved = omega (arith, unsettled-modify ip st.active_credentials cid f owes);
}

answered-Same :
    (ip : String) (st : Turn) (cid : String) (c : ActiveCredential) (ok : Bool) (now : ℕ)
    → Dict.get st.active_credentials cid ≡ some c
    → c.revoke_pending ≡ true
    → Orderly st.active_credentials
    → Same ip st (revoke_answered st cid kept ok now)
unfolding revoke_answered write_held
answered-Same ip st cid c ok now there pending o =
    let settled : c.usage_settled ≡ true = o.settled cid c there pending in
    elim (Bool-cases ok) [
      | inl revoked ↦
          rw (revoked, revoke_answered)
            (record {
              orderly = remove-Orderly st.active_credentials cid o;
              conserved = ground (
                arith,
                unsettled-remove ip st.active_credentials cid o.distinct,
                ap (owed_by ip) there,
                settled,
              );
            })
      | inr failed ↦
          rw (failed, revoke_answered)
            (modify-Same ip st cid (λ d. pend_revoke d now) (λ d. refl)
              (λ d at marked. ground (arith, at, there, settled)) o)
    ]

settle_held-eq :
    (st : Turn) (cid : String) (c : ActiveCredential) (now : ℕ)
    → Dict.get st.active_credentials cid ≡ some c
    → settle_held st cid kept now
      ≡ record st { ip_byte_ledger = (settle_credential_usage st.ip_byte_ledger c none now).0 }
unfolding settle_held
settle_held-eq st cid c now there = rw (there, settle_held) refl

retried-Same :
    (ip : String) (st : Turn) (cid : String) (ok : Bool) (now : ℕ)
    → Orderly st.active_credentials
    → Same ip st (retry_revoke st cid kept ok now)
unfolding retry_revoke write_held
retried-Same ip st cid ok now o = elim (Option-cases (Dict.get st.active_credentials cid)) [
  | inl gone ↦ rw (gone, retry_revoke) (record { orderly = o; conserved = refl })
  | inr (c, there) ↦ elim (Bool-cases (ltb c.expires_at now || ok)) [
    | inl ended ↦
        rw (there, retry_revoke, ended, settle_held-eq st cid c now there)
          (record {
            orderly = remove-Orderly st.active_credentials cid o;
            conserved = omega (
              arith,
              settle-settled ip st.ip_byte_ledger c now,
              unsettled-remove ip st.active_credentials cid o.distinct,
              ap (owed_by ip) there,
            );
          })
    | inr out ↦
        rw (there, retry_revoke, out)
          (modify-Same ip st cid _ (λ d. refl) (λ d at marked. o.settled cid d at marked) o)
  ]
]

module _ (ip : String) (cfg : TurnConfig) (st : Turn) where
  after : (t u : Turn) → Same ip st t → (Orderly t.active_credentials → Same ip t u) → Same ip st u
  after t u s step = record {
    orderly = (step s.orderly).orderly;
    conserved = (step s.orderly).conserved ∙ s.conserved;
  }

  Ending-Same : (t : Turn) → Orderly st.active_credentials → Ending cfg st t → Same ip st t
  unfolding prune_active_credentials
  Ending-Same _ o starts = record { orderly = o; conserved = refl }
  Ending-Same _ o (expires t now e) =
      after t (prune_active_credentials t now) (Ending-Same t o e)
        (λ ot. prune_credentials-Same ip t t.active_credentials now ot.distinct (λ k c h. h) ot)
  Ending-Same _ o (trips t now e) =
      after t (evaluate_global_kill_switch cfg t now) (Ending-Same t o e)
        (λ ot. evaluate-Same ip cfg t now ot)
  Ending-Same _ o (abuses t cid c bytes now there reported e) =
      after t _ (Ending-Same t o e) (λ ot. abusive-Same ip cfg t cid c bytes now there reported ot)
  Ending-Same _ o (answers t cid c ok now there pending e) =
      after t _ (Ending-Same t o e) (λ ot. answered-Same ip t cid c ok now there pending ot)
  Ending-Same _ o (retries t cid ok now e) =
      after t _ (Ending-Same t o e) (λ ot. retried-Same ip t cid ok now ot)

-- However the credentials of an address end, by expiry, by abuse, by the kill switch and by retries
-- of a failed revoke, in any order and number, its confirmed bytes stay the same: what the ledger
-- has of it together with what its credentials have still to bring. None is lost or counted twice.
-- The object that a step holds stands in the map.
pub endings_conserve :
    (ip : String) (cfg : TurnConfig) (st t : Turn)
    → Orderly st.active_credentials
    → Ending cfg st t
    → confirmed ip t ≡ confirmed ip st
endings_conserve ip cfg st t o e = (Ending-Same ip cfg st t o e).conserved

-- A session whose credential is about to expire is given a new one in its place, and the old one is
-- not settled: its address loses the confirmed bytes of it.
pub reserve-loses :
    (cfg : TurnConfig) (st : Turn) (req : IssueRequest) (c : ActiveCredential) (bytes : ℕ)
    → Dict.get st.active_credentials req.custom_identifier ≡ some c
    → c.usage_settled ≡ false
    → c.cf_actual_bytes ≡ some bytes
    → Orderly st.active_credentials
    → confirmed c.ip (reserve cfg st req) + bytes ≡ confirmed c.ip st
unfolding reserve
reserve-loses cfg st req c bytes there unsettled reported o =
    let cid = req.custom_identifier in
    let next = reserved cfg st req in
    let fresh = reservation_of cfg req in
    let orderly : Orderly next.active_credentials =
      put-Orderly st.active_credentials cid fresh o (λ h. cc) in
    let put_bytes = unsettled-put c.ip st.active_credentials cid fresh in
    let was : owed_by c.ip (Dict.get st.active_credentials cid) ≡ bytes =
      rw there (ground (arith, beq_self c.ip, unsettled, reported)) in
    let nothing : owed c.ip fresh ≡ 0 = ground arith in
    omega (arith, (evaluate-Same c.ip cfg next req.at orderly).conserved, put_bytes, was, nothing)
