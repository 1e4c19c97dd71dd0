-- ===== src/Server/Turn/Ledger.antt =====
-- No confirmed byte of an address is lost when its credentials end.
use misaka_network.Common.{
  Bool-cases, List, Option, String, [], ap, arith, beq→eq, if◌then◌else◌, inl, inr, none, refl,
  some, string_keys, subst, ℕ, ◌++◌, ◌+◌, ◌==◌, ◌∷◌, ◌≡◌,
}
use misaka_network.Common.Dict
use misaka_network.Common.Dict.{
  Dict, Distinct, get-put, get-remove, get-modify, put-Distinct, remove-Distinct,
}
use misaka_network.Server.Turn.{
  Turn, ActiveCredential, IpByteLedgerEntry, or_zero, settle_credential_usage, settle_and_drop,
}

-- What the ledger has of an address, whatever its age.
unfoldable pub settled_bytes : String → List IpByteLedgerEntry → ℕ
settled_bytes ip [] = 0
settled_bytes ip (e ∷ rest) =
    let more = settled_bytes ip rest in if e.ip == ip then e.bytes + more else more

-- What a credential has still to bring to the ledger.
abbrev pub owed : String → ActiveCredential → ℕ
owed ip c = if c.ip == ip then (if c.usage_settled then 0 else or_zero c.cf_actual_bytes) else 0

abbrev pub owed_by : String → Option ActiveCredential → ℕ
owed_by ip none = 0
owed_by ip (some c) = owed ip c

unfoldable pub unsettled_bytes : String → Dict String ActiveCredential → ℕ
unsettled_bytes ip [] = 0
unsettled_bytes ip ((_, c) ∷ rest) = owed ip c + unsettled_bytes ip rest

-- The confirmed bytes of an address.
abbrev pub confirmed : String → Turn → ℕ
confirmed ip st = settled_bytes ip st.ip_byte_ledger + unsettled_bytes ip st.active_credentials

pub settled-append :
    (ip : String) (xs : List IpByteLedgerEntry) (e : IpByteLedgerEntry)
    → settled_bytes ip (xs ++ e ∷ []) ≡ settled_bytes ip xs + (if e.ip == ip then e.bytes else 0)
unfolding settled_bytes
settled-append ip [] e = ground arith
settled-append ip (x ∷ xs) e = ground (arith, settled-append ip xs e)

pub settle-settled :
    (ip : String) (ledger : List IpByteLedgerEntry) (c : ActiveCredential) (now : ℕ)
    → settled_bytes ip (settle_credential_usage ledger c none now).0
      ≡ settled_bytes ip ledger + owed ip c
unfolding settle_credential_usage
settle-settled ip ledger c now = ground (
  arith,
  settled-append ip ledger (record { ip = c.ip; bytes = or_zero c.cf_actual_bytes; at = now }),
)

unsettled-remove-none :
    (ip : String) (m : Dict String ActiveCredential) (k : String)
    → Dict.get m k ≡ none
    → unsettled_bytes ip (Dict.remove m k) ≡ unsettled_bytes ip m
unfolding unsettled_bytes Dict.remove Dict.get
unsettled-remove-none ip [] k h = refl
unsettled-remove-none ip ((j, c) ∷ m) k h = ground (arith, unsettled-remove-none ip m k)

pub unsettled-remove :
    (ip : String) (m : Dict String ActiveCredential) (k : String)
    → Distinct m
    → unsettled_bytes ip (Dict.remove m k) + owed_by ip (Dict.get m k) ≡ unsettled_bytes ip m
unfolding unsettled_bytes Dict.remove Dict.get
unsettled-remove ip [] k d = refl
unsettled-remove ip ((j, c) ∷ m) k d = elim (Bool-cases (j == k)) [
  | inl same ↦ ground (
    arith,
    same,
    unsettled-remove-none ip m k,
    subst (λ x. Dict.get m x ≡ none) (beq→eq j k same) d.0,
  )
  | inr differ ↦ ground (arith, differ, unsettled-remove ip m k d.1)
]

pub unsettled-put :
    (ip : String) (m : Dict String ActiveCredential) (k : String) (c : ActiveCredential)
    → unsettled_bytes ip (Dict.put m k c) + owed_by ip (Dict.get m k)
      ≡ unsettled_bytes ip m + owed ip c
unfolding unsettled_bytes Dict.put Dict.get
unsettled-put ip [] k c = omega arith
unsettled-put ip ((j, d) ∷ m) k c = ground (arith, unsettled-put ip m k c)

pub settle_and_drop-confirmed :
    (ip : String) (st : Turn) (cid : String) (c : ActiveCredential) (now : ℕ)
    → Distinct st.active_credentials
    → Dict.get st.active_credentials cid ≡ some c
    → confirmed ip (settle_and_drop st cid c now) ≡ confirmed ip st
unfolding settle_and_drop
settle_and_drop-confirmed ip st cid c now d there = omega (
  arith,
  settle-settled ip st.ip_byte_ledger c now,
  unsettled-remove ip st.active_credentials cid d,
  ap (owed_by ip) there,
)
