-- ===== src/Server/Turn/Snapshot/Saved.antt =====
-- server/src/persist.ts: what JSON.stringify writes of the credentials and of the ledger, and what the
-- next start reads of it.
use misaka_network.Common.{
  All, Bool, Bool-cases, List, Option, String, [], ap, arith, false, filter, if◌then◌else◌, inl,
  inr, leb, ltb, none, refl, some, true, ℕ, ◌+◌, ◌<◌, ◌∷◌, ◌≡◌, ◌≤◌,
}
use misaka_network.Common.Dict.{Dict}
use misaka_network.Server.Turn.{ActiveCredential, IpByteLedgerEntry}
use misaka_network.Server.Turn.Snapshot.{
  Value, missing, natural, text, flag, RawCredential, RawLedgerEntry, keep, skip, counter,
  optional_counter, filled_text, short_text, is_true, principal_text, credential_of, read_counters,
  read_credential, read_entry, validate_credentials, hour_ms, non_neg_safe_int, read_ledger_entry,
  read_item, validate_ledger, max_safe_integer, max_str_len, max_ip_len, max_cid_len,
  max_principal_len, len,
}

-- A field that is undefined is not written.
abbrev pub saved_counter : Option ℕ → Value
saved_counter none = missing
saved_counter (some n) = natural n

abbrev pub saved_text : Option String → Value
saved_text none = missing
saved_text (some s) = text s

abbrev pub saved_flag : Bool → Value
saved_flag false = missing
saved_flag true = flag true

unfoldable pub saved_credential : ActiveCredential → RawCredential
saved_credential c = record {
  session_id = text c.session_id;
  ip = text c.ip;
  issued_at = natural c.issued_at;
  expires_at = natural c.expires_at;
  pessimistic_bytes = natural c.pessimistic_bytes;
  cf_actual_bytes = saved_counter c.cf_actual_bytes;
  turn_principal = saved_text c.turn_principal;
  reservation_id = saved_text c.reservation_id;
  usage_settled = saved_flag c.usage_settled;
  revoke_pending = saved_flag c.revoke_pending;
  revoke_attempts = natural c.revoke_attempts;
  last_revoke_attempt_at = saved_counter c.last_revoke_attempt_at;
}

unfoldable pub saved_credentials : Dict String ActiveCredential → Dict String (Option RawCredential)
unfolding saved_credential
saved_credentials [] = []
saved_credentials ((cid, c) ∷ rest) = (cid, some (saved_credential c)) ∷ saved_credentials rest

unfoldable pub saved_ledger : List IpByteLedgerEntry → List (Option RawLedgerEntry)
saved_ledger [] = []
saved_ledger (e ∷ es) =
    some (record { ip = text e.ip; bytes = natural e.bytes; at = natural e.at }) ∷ saved_ledger es

-- Of the length that the check allows, and not empty.
abbrev pub Named : ℕ → String → Type 0
Named limit s = (0 < len s) × (len s ≤ limit)

abbrev pub AllOf : {A : Type 0} → (A → Type 0) → Option A → Type 0
AllOf P none = Unit
AllOf P (some a) = P a

abbrev pub Safe : ℕ → Type 0
Safe n = n ≤ max_safe_integer

pub record Storable (entry : String × ActiveCredential) : Type 0 where
  pub cid : Named max_cid_len entry.0
  pub session : Named max_str_len entry.1.session_id
  pub address : Named max_ip_len entry.1.ip
  pub principal : AllOf (Named max_principal_len) entry.1.turn_principal
  pub reservation : AllOf (λ s. len s ≤ max_str_len) entry.1.reservation_id
  pub ordered : entry.1.issued_at ≤ entry.1.expires_at
  pub expiry : Safe entry.1.expires_at
  pub estimated : Safe entry.1.pessimistic_bytes
  pub confirmed : AllOf Safe entry.1.cf_actual_bytes
  pub attempts : Safe entry.1.revoke_attempts
  pub attempted : AllOf Safe entry.1.last_revoke_attempt_at

pub record StorableUse (e : IpByteLedgerEntry) : Type 0 where
  pub address : Named max_ip_len e.ip
  pub bytes : Safe e.bytes
  pub time : Safe e.at

counter-saved : (n : ℕ) → Safe n → counter (natural n) ≡ some n
unfolding counter non_neg_safe_int
counter-saved n safe = ground (arith, safe)

optional_counter-saved : (o : Option ℕ) → AllOf Safe o → optional_counter (saved_counter o) ≡ some o
unfolding optional_counter non_neg_safe_int
optional_counter-saved none safe = refl
optional_counter-saved (some n) safe = ground (arith, safe)

filled_text-saved : (limit : ℕ) (s : String) → Named limit s → filled_text (text s) ≡ some s
filled_text-saved limit s (filled, short) = ground (arith, filled)

principal-saved :
    (o : Option String)
    → AllOf (Named max_principal_len) o
    → principal_text (filled_text (saved_text o)) ≡ o
principal-saved none named = refl
principal-saved (some s) (filled, short) = ground (arith, filled, short)

short_text-saved :
    (limit : ℕ) (o : Option String)
    → AllOf (λ s. len s ≤ limit) o
    → short_text limit (saved_text o) ≡ o
short_text-saved limit none short = refl
short_text-saved limit (some s) short = ground (arith, short)

is_true-saved : (b : Bool) → is_true (saved_flag b) ≡ b
is_true-saved false = refl
is_true-saved true = refl

credential_of-saved :
    (c : ActiveCredential)
    → (cid : String) → Storable (cid, c)
    → credential_of
        (saved_credential c)
        c.session_id
        c.ip
        c.issued_at
        c.expires_at
        c.pessimistic_bytes
        c.cf_actual_bytes
        (some c.revoke_attempts)
        c.last_revoke_attempt_at
      ≡ c
unfolding saved_credential
credential_of-saved c cid ok = λ i. record c {
  turn_principal = principal-saved c.turn_principal ok.principal i;
  reservation_id = short_text-saved max_str_len c.reservation_id ok.reservation i;
  usage_settled = is_true-saved c.usage_settled i;
  revoke_pending = is_true-saved c.revoke_pending i;
}

read_counters-saved :
    (c : ActiveCredential)
    → (cid : String) → Storable (cid, c)
    → read_counters (saved_credential c) c.session_id c.ip ≡ keep c
unfolding read_counters saved_credential
read_counters-saved c cid ok =
    let early : ltb c.expires_at c.issued_at ≡ false = ground (arith, ok.ordered) in
    let issued : Safe c.issued_at = ground (arith, ok.ordered, ok.expiry) in
    rw
      (
        counter-saved c.issued_at issued,
        counter-saved c.expires_at ok.expiry,
        counter-saved c.pessimistic_bytes ok.estimated,
        early,
        optional_counter-saved c.cf_actual_bytes ok.confirmed,
        optional_counter-saved (some c.revoke_attempts) ok.attempts,
        optional_counter-saved c.last_revoke_attempt_at ok.attempted,
      )
      (ap keep (credential_of-saved c cid ok))

read_entry-saved :
    (cid : String) (c : ActiveCredential)
    → Storable (cid, c)
    → read_entry cid (some (saved_credential c)) ≡ keep c
unfolding read_entry read_credential saved_credential
read_entry-saved cid c ok =
    rw
      (
        filled_text-saved max_str_len c.session_id ok.session,
        filled_text-saved max_ip_len c.ip ok.address,
      )
      (ground (arith, read_counters-saved c cid ok, ok.cid, ok.session, ok.address))

-- The credentials survive a restart.
validate_credentials-saved :
    (creds : Dict String ActiveCredential)
    → All Storable creds
    → validate_credentials (saved_credentials creds) ≡ some creds
unfolding validate_credentials saved_credentials
validate_credentials-saved [] ok = refl
validate_credentials-saved ((cid, c) ∷ rest) ok =
    rw (read_entry-saved cid c ok.0, validate_credentials-saved rest ok.1) refl

abbrev pub is_young : ℕ → IpByteLedgerEntry → Bool
is_young now e = leb now (e.at + hour_ms)

read_item-saved :
    (now : ℕ) (e : IpByteLedgerEntry)
    → StorableUse e
    → read_item now (some (record { ip = text e.ip; bytes = natural e.bytes; at = natural e.at }))
      ≡ (if is_young now e then keep e else skip)
unfolding read_item read_ledger_entry non_neg_safe_int
read_item-saved now e ok = ground (arith, ok.address, ok.bytes, ok.time)

validate_ledger-saved :
    (now : ℕ) (es : List IpByteLedgerEntry)
    → All StorableUse es
    → validate_ledger now (saved_ledger es) ≡ some (filter (is_young now) es)
unfolding validate_ledger saved_ledger
validate_ledger-saved now [] ok = refl
validate_ledger-saved now (e ∷ es) ok = elim (Bool-cases (is_young now e)) [
  | inl young ↦ rw (read_item-saved now e ok.0, young, validate_ledger-saved now es ok.1) refl
  | inr old ↦ rw (read_item-saved now e ok.0, old, validate_ledger-saved now es ok.1) refl
]

-- What was used survives a restart. A map of credentials with keys, sessions and addresses of the
-- lengths that the check allows and counts that are safe integers, each ending no earlier than it
-- began, is read back exactly as it was saved, with its confirmed and estimated bytes and what is left
-- to revoke. A ledger of such entries is read back at any time as those of its entries that are at
-- most an hour old, in their order.
pub restart_keeps :
    (creds : Dict String ActiveCredential) (es : List IpByteLedgerEntry) (now : ℕ)
    → All Storable creds
    → All StorableUse es
    → (validate_credentials (saved_credentials creds) ≡ some creds)
      × (validate_ledger now (saved_ledger es) ≡ some (filter (is_young now) es))
restart_keeps creds es now ok used =
    (validate_credentials-saved creds ok, validate_ledger-saved now es used)
