-- ===== src/Server/Turn/Snapshot.antt =====
-- server/src/persist.ts: the check of the credentials and of the ledger in turn-state.json. A file
-- that fails it makes the issuance fail closed. The lengths of texts are counted in characters.
pub mod FailClosed
pub mod Saved
use misaka_network.Common.{
  Bool, List, Option, String, [], false, if◌then◌else◌, leb, ltb, nat_eq, none, not, some, ℕ, ◌&&◌,
  ◌+◌, ◌||◌, ◌∷◌,
}
use Prim.Native.String.{len}
use misaka_network.Common.Dict.{Dict}
use misaka_network.Server.Turn.{ActiveCredential, IpByteLedgerEntry}

-- What a field can be: missing, a natural number, a text, a flag, or anything else, the negative
-- numbers and the fractions among it.
pub data Value : Type 0 where
  missing other : Value
  natural : ℕ → Value
  text : String → Value
  flag : Bool → Value

pub record RawCredential : Type 0 where
  pub session_id : Value
  pub ip : Value
  pub issued_at : Value
  pub expires_at : Value
  pub pessimistic_bytes : Value
  pub cf_actual_bytes : Value
  pub turn_principal : Value
  pub reservation_id : Value
  pub usage_settled : Value
  pub revoke_pending : Value
  pub revoke_attempts : Value
  pub last_revoke_attempt_at : Value

pub record RawLedgerEntry : Type 0 where
  pub ip : Value
  pub bytes : Value
  pub at : Value

abbrev pub max_safe_integer : ℕ
max_safe_integer = 9007199254740991

abbrev pub max_str_len : ℕ
max_str_len = 256

abbrev pub max_ip_len : ℕ
max_ip_len = 64

abbrev pub max_cid_len : ℕ
max_cid_len = 64

abbrev pub max_principal_len : ℕ
max_principal_len = 64

-- nonNegSafeInt, with what stands for a missing field; none is its null.
unfoldable pub non_neg_safe_int : {A : Type 0} → Value → Option A → (ℕ → A) → Option A
non_neg_safe_int missing fallback got = fallback
non_neg_safe_int (natural n) fallback got = if leb n max_safe_integer then some (got n) else none
non_neg_safe_int (text s) fallback got = none
non_neg_safe_int (flag b) fallback got = none
non_neg_safe_int other fallback got = none

unfoldable pub counter : Value → Option ℕ
unfolding non_neg_safe_int
counter v = non_neg_safe_int v (some 0) (λ n. n)

unfoldable pub optional_counter : Value → Option (Option ℕ)
unfolding non_neg_safe_int
optional_counter v = non_neg_safe_int v (some none) (λ n. some n)

abbrev pub filled_text : Value → Option String
filled_text (text s) = if nat_eq (len s) 0 then none else some s
filled_text (natural n) = none
filled_text (flag b) = none
filled_text missing = none
filled_text other = none

abbrev pub short_text : ℕ → Value → Option String
short_text limit (text s) = if leb (len s) limit then some s else none
short_text limit (natural n) = none
short_text limit (flag b) = none
short_text limit missing = none
short_text limit other = none

abbrev pub is_true : Value → Bool
is_true (flag b) = b
is_true (text s) = false
is_true (natural n) = false
is_true missing = false
is_true other = false

abbrev pub value_or_zero : Option ℕ → ℕ
value_or_zero none = 0
value_or_zero (some n) = n

-- An entry is kept, left out, or fails the whole file.
pub data Read (A : Type 0) : Type 0 where
  keep : A → Read A
  skip fail : Read A

abbrev pub or_fail : {A B : Type 0} → Option A → (A → Read B) → Read B
or_fail none go = fail
or_fail (some a) go = go a

abbrev pub or_skip : {A B : Type 0} → Option A → (A → Read B) → Read B
or_skip none go = skip
or_skip (some a) go = go a

abbrev pub principal_text : Option String → Option String
principal_text none = none
principal_text (some s) = if leb (len s) max_principal_len then some s else none

abbrev pub credential_of :
    RawCredential → String → String → ℕ → ℕ → ℕ → Option ℕ → Option ℕ → Option ℕ → ActiveCredential
credential_of raw session_id ip issued_at expires_at pessimistic_bytes cf attempts last = record {
  session_id = session_id;
  ip = ip;
  turn_principal = principal_text (filled_text raw.turn_principal);
  issued_at = issued_at;
  expires_at = expires_at;
  pessimistic_bytes = pessimistic_bytes;
  cf_actual_bytes = cf;
  reservation_id = short_text max_str_len raw.reservation_id;
  usage_settled = is_true raw.usage_settled;
  revoke_pending = is_true raw.revoke_pending;
  revoke_attempts = value_or_zero attempts;
  last_revoke_attempt_at = last;
}

-- From the session and the address on.
unfoldable pub read_counters : RawCredential → String → String → Read ActiveCredential
unfolding counter optional_counter
read_counters raw session_id ip = or_fail (counter raw.issued_at) λ issued_at.
    or_fail (counter raw.expires_at) λ expires_at. or_fail (counter raw.pessimistic_bytes) λ bytes.
      if ltb expires_at issued_at
      then fail
      else or_fail (optional_counter raw.cf_actual_bytes) λ cf.
        or_fail (optional_counter raw.revoke_attempts) λ attempts.
          or_fail (optional_counter raw.last_revoke_attempt_at) λ last.
            keep (credential_of raw session_id ip issued_at expires_at bytes cf attempts last)

unfoldable pub read_credential : RawCredential → Read ActiveCredential
unfolding read_counters
read_credential raw = or_skip (filled_text raw.session_id) λ session_id.
    or_skip (filled_text raw.ip) λ ip.
      if ltb max_str_len (len session_id) || ltb max_ip_len (len ip)
      then fail
      else read_counters raw session_id ip

abbrev pub is_cid : String → Bool
is_cid cid = not (nat_eq (len cid) 0) && leb (len cid) max_cid_len

-- None is an entry that is no object.
unfoldable pub read_entry : String → Option RawCredential → Read ActiveCredential
unfolding read_credential
read_entry cid none = skip
read_entry cid (some raw) = if is_cid cid then read_credential raw else skip

abbrev pub add_read :
    String
    → Read ActiveCredential
    → Option (Dict String ActiveCredential)
    → Option (Dict String ActiveCredential)
add_read cid skip rest = rest
add_read cid fail rest = none
add_read cid (keep c) none = none
add_read cid (keep c) (some creds) = some ((cid, c) ∷ creds)

-- The entries of the object, whose keys stand once; none fails the file.
unfoldable pub validate_credentials :
    Dict String (Option RawCredential) → Option (Dict String ActiveCredential)
unfolding read_entry
validate_credentials [] = some []
validate_credentials ((cid, raw) ∷ rest) =
    add_read cid (read_entry cid raw) (validate_credentials rest)

abbrev pub hour_ms : ℕ
hour_ms = 3_600_000

unfoldable pub read_ledger_entry : ℕ → RawLedgerEntry → Read IpByteLedgerEntry
unfolding non_neg_safe_int
read_ledger_entry now raw = or_skip (filled_text raw.ip) λ ip.
    if ltb max_ip_len (len ip)
    then fail
    else or_fail (non_neg_safe_int raw.bytes none (λ n. n)) λ bytes.
      or_fail (non_neg_safe_int raw.at none (λ n. n)) λ at.
        if ltb (at + hour_ms) now then skip else keep (record { ip = ip; bytes = bytes; at = at })

abbrev pub push_read :
    Read IpByteLedgerEntry → Option (List IpByteLedgerEntry) → Option (List IpByteLedgerEntry)
push_read skip rest = rest
push_read fail rest = none
push_read (keep e) none = none
push_read (keep e) (some es) = some (e ∷ es)

unfoldable pub read_item : ℕ → Option RawLedgerEntry → Read IpByteLedgerEntry
unfolding read_ledger_entry
read_item now none = skip
read_item now (some raw) = read_ledger_entry now raw

unfoldable pub validate_ledger : ℕ → List (Option RawLedgerEntry) → Option (List IpByteLedgerEntry)
unfolding read_item
validate_ledger now [] = some []
validate_ledger now (raw ∷ rest) = push_read (read_item now raw) (validate_ledger now rest)
