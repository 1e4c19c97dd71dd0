-- ===== src/Server/Invitations/Spent.antt =====
-- An invitation that is used up: what keeps it so, and that it is refused.
use misaka_network.Common.{
  Bool, Option, Option-cases, String, [], ap, arith, drop, false, inl, inr, none, not, refl, some,
  string_keys, true, ℕ, ◌&&◌, ◌==◌, ◌||◌, ◌∷◌, ◌≡◌, ◌≢◌,
}
use misaka_network.Common.Dict
use misaka_network.Common.Dict.{Dict, get-put, get-put_self, get-remove, get-prune, Distinct}
use misaka_network.Server.Guard.{Limits}
use misaka_network.Server.Admission.{Server, QrToken, Digests}
use misaka_network.Server.Admission.Commit.{consume_grant, Grant, granted, denied}
use misaka_network.Server.Invitations.{
  redeem_guarded, fail_redeem, grant_redeem, failed_once, or_text,
}

-- No invitation `t` is left to use.
unfoldable pub spent : Dict String QrToken → String → Bool
spent [] t = true
spent ((j, r) ∷ rest) t = (not (j == t) || r.used) && spent rest t

pub spent-put :
    (m : Dict String QrToken) (k t : String) (r : QrToken)
    → (not (k == t) || r.used) ≡ true
    → spent m t ≡ true
    → spent (Dict.put m k r) t ≡ true
unfolding spent Dict.put
spent-put [] k t r u s = ground arith
spent-put ((j, q) ∷ m) k t r u s = ground (
  arith,
  spent-put m k t r u,
  string_keys.beq_iff j k,
  string_keys.beq_iff j t,
  string_keys.beq_iff k t,
)

pub spent-prune :
    (drop : String → QrToken → Bool) (m : Dict String QrToken) (t : String)
    → spent m t ≡ true
    → spent (Dict.prune drop m) t ≡ true
unfolding spent Dict.prune
spent-prune drop [] t s = refl
spent-prune drop ((j, q) ∷ m) t s = ground (arith, spent-prune drop m t)

pub spent-get :
    (m : Dict String QrToken) (t : String) (r : QrToken)
    → spent m t ≡ true
    → Dict.get m t ≡ some r
    → r.used ≡ true
unfolding spent Dict.get
spent-get [] t r s h = cc
spent-get ((j, q) ∷ m) t r s h = ground (arith, spent-get m t r)

gone-spent :
    (rest : Dict String QrToken) (k : String) → Dict.get rest k ≡ none → spent rest k ≡ true
unfolding spent Dict.get
gone-spent [] k gone = refl
gone-spent ((i, p) ∷ rest) k gone = ground (arith, gone-spent rest k)

-- To use the only invitation `t` is to spend it.
put-spent :
    (m : Dict String QrToken) (t : String) (r : QrToken)
    → r.used ≡ true
    → Distinct m
    → spent (Dict.put m t r) t ≡ true
unfolding spent Dict.put
put-spent [] t r u d = ground arith
put-spent ((j, q) ∷ m) t r u d =
    ground (
      arith,
      put-spent m t r u d.1,
      gone-spent m j d.0,
      string_keys.beq_iff j t,
      ap (λ k. spent m k),
    )

-- The invitations once the grant is settled.
abbrev pub settled : Dict String QrToken → Grant → Dict String QrToken
settled tokens denied = tokens
settled tokens (granted after) = after

pub consume_grant-spent :
    (tokens : Dict String QrToken) (o : Option (String × String)) (now : ℕ) (t : String)
    → spent tokens t ≡ true
    → spent (settled tokens (consume_grant tokens o now)) t ≡ true
unfolding consume_grant
consume_grant-spent tokens none now t s = s
consume_grant-spent tokens (some (u, g)) now t s = elim (Option-cases (Dict.get tokens u)) [
  | inl gone ↦ ground arith
  | inr (r, there) ↦ ground (arith, spent-put tokens u t (record r { used = true }))
]

-- A spent invitation is refused, and one that is accepted is spent.
pub spent-denied :
    (tokens : Dict String QrToken) (t g : String) (now : ℕ)
    → spent tokens t ≡ true
    → consume_grant tokens (some (t, g)) now ≡ denied
unfolding consume_grant
spent-denied tokens t g now s = elim (Option-cases (Dict.get tokens t)) [
  | inl gone ↦ ground arith
  | inr (r, there) ↦ ground (arith, spent-get tokens t r s there)
]

pub granted-spent :
    (tokens : Dict String QrToken) (t g : String) (now : ℕ)
    → Distinct tokens
    → consume_grant tokens (some (t, g)) now ≢ denied
    → spent (settled tokens (consume_grant tokens (some (t, g)) now)) t ≡ true
unfolding consume_grant
granted-spent tokens t g now d h = elim (Option-cases (Dict.get tokens t)) [
  | inl gone ↦ ground arith
  | inr (r, there) ↦ ground (arith, put-spent tokens t (record r { used = true }) refl d)
]

pub elsewhere :
    (cfg : Limits) (digests : Digests) (sv : Server) (token : String) (r : QrToken)
    (pass_code ip : String) (now : ℕ) (channel drawn t : String)
    → (token == t) ≡ false
    → spent sv.qr_tokens t ≡ true
    → spent (redeem_guarded cfg digests sv token r pass_code ip now channel drawn).0.qr_tokens t
      ≡ true
unfolding redeem_guarded fail_redeem grant_redeem
elsewhere cfg digests sv token r pass_code ip now channel drawn t other s = ground (
  arith,
  spent-put sv.qr_tokens token t (failed_once cfg r),
  spent-put sv.qr_tokens token t
      (record r { admission_grant = some (or_text r.admission_grant drawn) }),
)
