-- ===== src/Server/Turn/Snapshot/FailClosed.antt =====
-- A snapshot that is accepted has lost no credential's bytes.
use misaka_network.Common.{
  Bool-cases, Option, String, [], ap, arith, beq_self, beq→eq, false, inl, inr, ltb, none, refl,
  some, string_keys, subst, true, ◌==◌, ◌||◌, ◌∙◌, ◌∷◌, ◌≡◌, ◌≤◌, ◌⊎◌,
}
use misaka_network.Common.Dict.{Dict, get}
use misaka_network.Server.Turn.{ActiveCredential}
use misaka_network.Server.Turn.Snapshot.{
  RawCredential, Read, keep, skip, fail, counter, optional_counter, filled_text, or_fail,
  read_counters, read_credential, read_entry, is_cid, add_read, validate_credentials, credential_of,
  max_str_len, max_ip_len, len,
}

-- The credential is that of the entry, with all that counts.
pub record Faithful (raw : RawCredential) (session_id ip : String) (c : ActiveCredential)
    : Type 0 where
  pub session : c.session_id ≡ session_id
  pub address : c.ip ≡ ip
  pub estimated : counter raw.pessimistic_bytes ≡ some c.pessimistic_bytes
  pub confirmed : optional_counter raw.cf_actual_bytes ≡ some c.cf_actual_bytes
  pub ordered : c.issued_at ≤ c.expires_at

abbrev KeptOrFails : RawCredential → String → String → Read ActiveCredential → Type 0
KeptOrFails raw s ip r = (r ≡ fail) ⊎ ((c : ActiveCredential) × (r ≡ keep c) × Faithful raw s ip c)

or_fail-cases :
    {A B : Type 0} (o : Option A) (go : A → Read B) (P : Read B → Type 0)
    → P fail
    → ((a : A) → o ≡ some a → P (go a))
    → P (or_fail o go)
or_fail-cases none go P bad good = bad
or_fail-cases (some a) go P bad good = good a refl

counters-KeptOrFails :
    (raw : RawCredential) (s ip : String) → KeptOrFails raw s ip (read_counters raw s ip)
unfolding read_counters
counters-KeptOrFails raw s ip =
    let P = KeptOrFails raw s ip in
    or_fail-cases (counter raw.issued_at) _ P (inl refl) λ issued h1.
      or_fail-cases (counter raw.expires_at) _ P (inl refl) λ expires h2.
        or_fail-cases (counter raw.pessimistic_bytes) _ P (inl refl) λ bytes h3.
          elim (Bool-cases (ltb expires issued)) [
            | inl early ↦ rw early (inl refl)
            | inr ordered ↦ rw ordered (
                or_fail-cases (optional_counter raw.cf_actual_bytes) _ P (inl refl) λ cf h4.
                  or_fail-cases (optional_counter raw.revoke_attempts) _ P (inl refl) λ attempts h5.
                    or_fail-cases (optional_counter raw.last_revoke_attempt_at) _ P (inl refl)
                      λ last h6. inr (
                        credential_of raw s ip issued expires bytes cf attempts last,
                        refl,
                        record {
                          session = refl;
                          address = refl;
                          estimated = h3;
                          confirmed = h4;
                          ordered = ground (arith, ordered);
                        },
                      ))
          ]

entry-KeptOrFails :
    (cid : String) (raw : RawCredential) (s ip : String)
    → is_cid cid ≡ true
    → filled_text raw.session_id ≡ some s
    → filled_text raw.ip ≡ some ip
    → KeptOrFails raw s ip (read_entry cid (some raw))
unfolding read_entry read_credential
entry-KeptOrFails cid raw s ip named has_session has_ip =
    rw (named, has_session, has_ip)
      (elim (Bool-cases (ltb max_str_len (len s) || ltb max_ip_len (len ip))) [
        | inl long ↦ rw long (inl refl)
        | inr short ↦ rw short (counters-KeptOrFails raw s ip)
      ])

-- What an accepted file says of its first entry and of the others.
add_read-inv :
    (cid : String) (r : Read ActiveCredential) (rest : Option (Dict String ActiveCredential))
    (creds : Dict String ActiveCredential)
    → add_read cid r rest ≡ some creds
    → (before : Dict String ActiveCredential) × (rest ≡ some before)
      × ((k : String) → (cid == k) ≡ false → get creds k ≡ get before k)
unfolding get
add_read-inv cid skip none creds h = absurd (ground (arith, h))
add_read-inv cid skip (some before) creds h =
    (before, refl, λ k differ. ap (λ m. get m k) (ground (arith, h)))
add_read-inv cid fail rest creds h = absurd (ground (arith, h))
add_read-inv cid (keep c) none creds h = absurd (ground (arith, h))
add_read-inv cid (keep c) (some before) creds h =
    let e : creds ≡ (cid, c) ∷ before = ground (arith, h) in
    (before, refl, λ k differ. rw (e, differ) refl)

add_read-kept :
    (cid : String) (c : ActiveCredential) (rest : Option (Dict String ActiveCredential))
    (creds : Dict String ActiveCredential)
    → add_read cid (keep c) rest ≡ some creds
    → get creds cid ≡ some c
unfolding get
add_read-kept cid c none creds h = absurd (ground (arith, h))
add_read-kept cid c (some before) creds h =
    let e : creds ≡ (cid, c) ∷ before = ground (arith, h) in rw (e, beq_self cid) refl

-- A snapshot never lowers what was used. Where the credentials of a file are accepted, every entry
-- that has a session, an address and a key of the allowed length is there, with the bytes that it was
-- issued for and those that were confirmed exactly as the file has them, and it does not end before it
-- began: a bad count fails the whole file and is never dropped.
pub validate_credentials_keeps :
    (raws : Dict String (Option RawCredential)) (creds : Dict String ActiveCredential)
    (cid : String) (raw : RawCredential) (s ip : String)
    → validate_credentials raws ≡ some creds
    → get raws cid ≡ some (some raw)
    → is_cid cid ≡ true
    → filled_text raw.session_id ≡ some s
    → filled_text raw.ip ≡ some ip
    → (c : ActiveCredential) × (get creds cid ≡ some c) × Faithful raw s ip c
unfolding validate_credentials get
validate_credentials_keeps [] creds cid raw s ip ok there named hs hi =
    absurd (ground (arith, there))
validate_credentials_keeps ((k, r0) ∷ raws) creds cid raw s ip ok there named hs hi =
    elim (Bool-cases (k == cid)) [
      | inl same ↦
          let e : k ≡ cid = beq→eq k cid same in
          let here : r0 ≡ some raw =
            (let h : some r0 ≡ some (some raw) = rw same at there in ground (arith, h)) in
          let head : add_read cid (read_entry cid (some raw)) (validate_credentials raws)
              ≡ some creds =
            subst
              (λ x. add_read x (read_entry x (some raw)) (validate_credentials raws) ≡ some creds) e
              (subst (λ x. add_read k (read_entry k x) (validate_credentials raws) ≡ some creds)
                here ok) in
          elim (entry-KeptOrFails cid raw s ip named hs hi) [
            | inl failed ↦ absurd (let h = (rw failed at head) in ground (arith, h))
            | inr (c, kept, faithful) ↦ (
              c,
              add_read-kept cid c (validate_credentials raws) creds (rw kept at head),
              faithful,
            )
          ]
      | inr differ ↦
          let (before, ok_before, agree) =
            add_read-inv k (read_entry k r0) (validate_credentials raws) creds ok in
          let (c, got, faithful) =
            validate_credentials_keeps raws before cid raw s ip ok_before (rw differ at there) named
              hs hi in
          (c, agree cid differ ∙ got, faithful)
    ]
