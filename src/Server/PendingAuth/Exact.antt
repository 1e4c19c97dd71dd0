-- ===== src/Server/PendingAuth/Exact.antt =====
-- The counters are exactly the slots that are taken.
use misaka_network.Common.{
  Bool, Bool-cases, Option, Option-cases, String, [], ap, arith, false, if◌then◌else◌, inl, inr,
  leb, nat_keys, none, not, refl, some, string_keys, subst, suc, true, ℕ, ◌&&◌, ◌+◌, ◌-◌, ◌==◌, ◌∷◌,
  ◌≡◌, ◌≤◌,
}
use misaka_network.Common.Dict
use misaka_network.Common.Dict.{Dict, get-put, get-remove}
use misaka_network.Server.PendingAuth.{
  Pending, Reservation, none_pending, check_pending_auth_admission, release_pending_auth,
  claim_pending_auth_socket, at_ip, lower, spend, free_slot, or_zero, drop_socket, holds_socket,
  unlease,
}

-- How many entries pass a test.
unfoldable pub tally : (Reservation → Bool) → Dict ℕ Reservation → ℕ
tally test [] = 0
tally test ((k, r) ∷ m) = let rest = tally test m in if test r then suc rest else rest

abbrev one_if : Bool → ℕ
one_if true = 1
one_if false = 0

abbrev pub tested : (Reservation → Bool) → Option Reservation → Bool
tested test none = false
tested test (some r) = test r

tally-put :
    (test : Reservation → Bool) (m : Dict ℕ Reservation) (k : ℕ) (r : Reservation)
    → tally test (Dict.put m k r) + one_if (tested test (Dict.get m k))
      ≡ tally test m + one_if (test r)
unfolding tally Dict.put Dict.get
tally-put test [] k r = ground arith
tally-put test ((j, q) ∷ m) k r = ground (arith, tally-put test m k r)

abbrev pub is_open : Reservation → Bool
is_open r = not r.released

abbrev pub is_open_at : String → Reservation → Bool
is_open_at ip r = not r.released && (r.ip == ip)

-- What can happen: a request is admitted or refused once, and claimed or released after that.
pub data Reached (max_pending max_per_ip : ℕ) : Pending → Type 0 where
  begins : Reached max_pending max_per_ip none_pending
  admits :
      (p : Pending) (req : ℕ) (ip : String)
      → Dict.get p.reservations req ≡ none
      → Reached max_pending max_per_ip p
      → Reached max_pending max_per_ip
          (check_pending_auth_admission max_pending max_per_ip p req ip).0
  claims :
      (p : Pending) (ws req : ℕ) (r : Reservation)
      → Dict.get p.reservations req ≡ some r
      → Reached max_pending max_per_ip p
      → Reached max_pending max_per_ip (claim_pending_auth_socket p ws req r)
  releases :
      (p : Pending) (req : ℕ) (r : Reservation) (ws : Option ℕ)
      → Dict.get p.reservations req ≡ some r
      → Reached max_pending max_per_ip p
      → Reached max_pending max_per_ip (release_pending_auth p req r ws)

pub record Exact (max_pending max_per_ip : ℕ) (p : Pending) : Type 0 where
  pub total : p.global ≡ tally is_open p.reservations
  pub by_address : (ip : String) → at_ip p ip ≡ tally (is_open_at ip) p.reservations
  pub within : p.global ≤ max_pending
  pub within_address : (ip : String) → at_ip p ip ≤ max_per_ip

at_ip-lower :
    (by_ip : Dict String ℕ) (ip jp : String)
    → or_zero (Dict.get (lower by_ip ip) jp)
      ≡ (if ip == jp then or_zero (Dict.get by_ip jp) - 1 else or_zero (Dict.get by_ip jp))
unfolding lower
at_ip-lower by_ip ip jp = elim (Option-cases (Dict.get by_ip ip)) [
  | inl gone ↦
      ground (arith, get-remove by_ip ip jp, string_keys.beq_iff ip jp, ap (λ k. Dict.get by_ip k))
  | inr (n, there) ↦ ground (
    arith,
    get-remove by_ip ip jp,
    get-put by_ip ip jp (n - 1),
    string_keys.beq_iff ip jp,
    ap (λ k. Dict.get by_ip k),
  )
]

module _ (max_pending max_per_ip : ℕ) (p : Pending) (exact : Exact max_pending max_per_ip p) where
  admit-Exact :
      (req : ℕ) (ip : String)
      → Dict.get p.reservations req ≡ none
      → Exact max_pending max_per_ip
          (check_pending_auth_admission max_pending max_per_ip p req ip).0
  unfolding check_pending_auth_admission
  admit-Exact req ip unseen =
      let r : Reservation = record { ip = ip; released = false; leased = true } in
      elim (Bool-cases (leb max_pending p.global)) [
        | inl full ↦ rw (full, check_pending_auth_admission) exact
        | inr room ↦ elim (Bool-cases (leb max_per_ip (at_ip p ip))) [
          | inl ip_full ↦ rw (room, check_pending_auth_admission, ip_full) exact
          | inr ip_room ↦
              rw (room, check_pending_auth_admission, ip_room)
                (record {
                  total =
                      ground (arith, tally-put is_open p.reservations req r, exact.total, unseen);
                  by_address = λ jp. ground (
                    arith,
                    tally-put (is_open_at jp) p.reservations req r,
                    exact.by_address jp,
                    exact.by_address ip,
                    get-put p.by_ip ip jp (at_ip p ip + 1),
                    string_keys.beq_iff ip jp,
                    unseen,
                    ap (λ k. at_ip p k),
                  );
                  within = ground arith;
                  within_address = λ jp. ground (
                    arith,
                    get-put p.by_ip ip jp (at_ip p ip + 1),
                    exact.within_address jp,
                    string_keys.beq_iff ip jp,
                  );
                })
        ]
      ]

  -- A write that leaves address and release alone.
  same-Exact :
      (req : ℕ) (r s : Reservation) (sockets : Dict ℕ Bool)
      → Dict.get p.reservations req ≡ some r
      → s.ip ≡ r.ip
      → s.released ≡ r.released
      → Exact max_pending max_per_ip
          (record p { sockets = sockets; reservations = Dict.put p.reservations req s })
  same-Exact req r s sockets there same_ip same_state = record {
    total = ground (arith, tally-put is_open p.reservations req s, exact.total, there);
    by_address = λ jp.
        ground (arith, tally-put (is_open_at jp) p.reservations req s, exact.by_address jp, there);
    within = exact.within;
    within_address = exact.within_address;
  }

  free-Exact :
      (req : ℕ) (r : Reservation) (sockets : Dict ℕ Bool)
      → Dict.get p.reservations req ≡ some r
      → r.released ≡ false
      → Exact max_pending max_per_ip (free_slot (record p { sockets = sockets }) req r)
  unfolding free_slot
  free-Exact req r sockets there unreleased = record {
    total = ground (arith, tally-put is_open p.reservations req (spend r), exact.total, there);
    by_address = λ jp. ground (
      arith,
      tally-put (is_open_at jp) p.reservations req (spend r),
      exact.by_address jp,
      at_ip-lower p.by_ip r.ip jp,
      there,
    );
    within = ground (arith, exact.within);
    within_address = λ jp. ground (arith, at_ip-lower p.by_ip r.ip jp, exact.within_address jp);
  }

  claim-Exact :
      (ws req : ℕ) (r : Reservation)
      → Dict.get p.reservations req ≡ some r
      → Exact max_pending max_per_ip (claim_pending_auth_socket p ws req r)
  unfolding claim_pending_auth_socket
  claim-Exact ws req r there =
      same-Exact req r (unlease r) (Dict.put p.sockets ws true) there refl refl

  release-Exact :
      (req : ℕ) (r : Reservation) (ws : Option ℕ)
      → Dict.get p.reservations req ≡ some r
      → Exact max_pending max_per_ip (release_pending_auth p req r ws)
  unfolding release_pending_auth
  release-Exact req r ws there = elim (Bool-cases r.released) [
    | inl already ↦ rw (already, release_pending_auth) exact
    | inr unreleased ↦ elim (Bool-cases (holds_socket p ws)) [
      | inr lost ↦
          rw (unreleased, release_pending_auth, lost)
            (subst
              (λ v. Exact max_pending max_per_ip (record p {
                reservations =
                    Dict.put p.reservations req
                      (record { ip = r.ip; released = v; leased = false });
              }))
              unreleased (same-Exact req r (unlease r) p.sockets there refl refl))
      | inl held ↦ rw (unreleased, release_pending_auth, held) (freed ws unreleased)
    ]
  ]
    where
      freed :
          (o : Option ℕ)
          → r.released ≡ false
          → Exact max_pending max_per_ip (free_slot (drop_socket p o) req r)
      freed none u = free-Exact req r p.sockets there u
      freed (some s) u = free-Exact req r (Dict.remove p.sockets s) there u

-- However requests are admitted, claimed by their sockets and released, by the lease timer, a close,
-- an error or a successful AUTH, once or more often, in any order: the global counter is the number
-- of slots that are taken, the counter of each address is the number of its slots, and neither ever
-- exceeds its limit.
pub Reached-Exact :
    (max_pending max_per_ip : ℕ) (p : Pending)
    → Reached max_pending max_per_ip p
    → Exact max_pending max_per_ip p
unfolding tally Dict.get
Reached-Exact m n p begins = record {
  total = refl;
  by_address = λ ip. refl;
  within = omega arith;
  within_address = λ ip. omega arith;
}
Reached-Exact m n p (admits q req ip unseen before) =
    admit-Exact m n q (Reached-Exact m n q before) req ip unseen
Reached-Exact m n p (claims q ws req r there before) =
    claim-Exact m n q (Reached-Exact m n q before) ws req r there
Reached-Exact m n p (releases q req r ws there before) =
    release-Exact m n q (Reached-Exact m n q before) req r ws there
