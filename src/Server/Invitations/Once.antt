-- ===== src/Server/Invitations/Once.antt =====
-- An invitation admits one registration.
use misaka_network.Server.Invitations.Spent.{
  spent, spent-put, spent-prune, consume_grant-spent, spent-denied, granted-spent, elsewhere,
  spent-get,
}
use misaka_network.Common.{
  All, Bool, Bool-cases, List, Option-cases, String, [], ap, arith, false, inl, inr, ltb, not, refl,
  some, string_keys, true, ℕ, ◌==◌, ◌||◌, ◌∷◌, ◌≡◌,
}
use Prim.Native.String.{◌++◌ as concat}
use misaka_network.Server.RateLimit.{check_rate_limit}
use misaka_network.Common.Dict
use misaka_network.Common.Dict.{Dict, get-put, get-put_self, get-remove, get-prune, Distinct}
use misaka_network.Server.Guard.{Limits}
use misaka_network.Server.Sessions.{find_session_by_token}
use misaka_network.Server.Admission.{
  Server, Digests, Registration, PassCodeRecord, Drawn, refused, charge_guess, Outcome, answer,
  admitted,
}
use misaka_network.Server.Admission.Commit.{register_commit, consume_grant, has_conflict}
use misaka_network.Server.Admission.Safety.{Grant-cases}
use misaka_network.Server.Invitations.{qr_token, qr_redeem, sweep_tokens, invitation}

-- What writes the invitations.
pub data InvitationEvent : Type 0 where
  commits : Registration → PassCodeRecord → Drawn → ℕ → InvitationEvent
  creates : String → String → String → ℕ → InvitationEvent
  redeems : String → ℕ → String → String → ℕ → String → String → InvitationEvent
  sweeps : ℕ → InvitationEvent

unfoldable pub step : Limits → Digests → Server → InvitationEvent → Server
step cfg digests sv (commits reg fields drawn now) =
    (register_commit cfg digests sv reg fields drawn now).0
step cfg digests sv (creates bearer token channel now) =
    (qr_token cfg sv bearer token channel now).0
step cfg digests sv (redeems token node_id pass_code ip now channel drawn) =
    (qr_redeem cfg digests sv token node_id pass_code ip now channel drawn).0
step cfg digests sv (sweeps now) = record sv { qr_tokens = sweep_tokens sv.qr_tokens now }

unfoldable pub run : Limits → Digests → Server → List InvitationEvent → Server
unfolding step
run cfg digests sv [] = sv
run cfg digests sv (e ∷ es) = run cfg digests (step cfg digests sv e) es

-- A new invitation has another token.
abbrev pub draws_another : String → InvitationEvent → Bool
draws_another t (creates bearer token channel now) = not (token == t)
draws_another t (commits reg fields drawn now) = true
draws_another t (redeems token node_id pass_code ip now channel drawn) = true
draws_another t (sweeps now) = true

module _ (cfg : Limits) (digests : Digests) (sv : Server) where
  -- The invitations that a commit leaves.
  commit-tokens :
      (reg : Registration) (fields : PassCodeRecord) (drawn : Drawn) (now : ℕ) (t : String)
      → spent sv.qr_tokens t ≡ true
      → spent (register_commit cfg digests sv reg fields drawn now).0.qr_tokens t ≡ true
  unfolding register_commit charge_guess
  commit-tokens reg fields drawn now t s =
      let kept = consume_grant-spent sv.qr_tokens reg.invitation now t s in
      elim (Bool-cases (has_conflict reg.node_id fields.0 sv.sessions.nodes)) [
        | inl conflict ↦ rw (conflict, register_commit) s
        | inr free ↦ elim (Option-cases (refused cfg sv.sessions reg.ip)) [
          | inr (r, full) ↦ rw (free, register_commit, full) s
          | inl fits ↦ elim (Grant-cases (consume_grant sv.qr_tokens reg.invitation now)) [
            | inl turned ↦ rw (free, register_commit, fits, turned) s
            | inr (tokens, taken) ↦
                rw (free, register_commit, fits, taken) (ground (arith, kept, taken))
          ]
        ]
      ]

  -- A commit with a spent invitation leaves the sessions as they are.
  spent-turned_away :
      (reg : Registration) (fields : PassCodeRecord) (drawn : Drawn) (now : ℕ) (t g : String)
      → reg.invitation ≡ some (t, g)
      → spent sv.qr_tokens t ≡ true
      → (register_commit cfg digests sv reg fields drawn now).0.sessions ≡ sv.sessions
  unfolding register_commit charge_guess
  spent-turned_away reg fields drawn now t g with_t s =
      let no = spent-denied sv.qr_tokens t g now s in
      elim (Bool-cases (has_conflict reg.node_id fields.0 sv.sessions.nodes)) [
        | inl conflict ↦ rw (conflict, register_commit) refl
        | inr free ↦ elim (Option-cases (refused cfg sv.sessions reg.ip)) [
          | inr (r, full) ↦ rw (free, register_commit, full) refl
          | inl fits ↦ rw (free, register_commit, fits, with_t, no) refl
        ]
      ]

  abbrev counted : String → ℕ → Server
  counted ip now = record sv {
    windows =
        (check_rate_limit sv.windows (concat "qr-redeem:" ip) cfg.qr_redeem_rate_limit
          cfg.qr_redeem_rate_window_ms now).1;
  }

  step-spent :
      (e : InvitationEvent) (t : String)
      → draws_another t e ≡ true
      → spent sv.qr_tokens t ≡ true
      → spent (step cfg digests sv e).qr_tokens t ≡ true
  unfolding step qr_token qr_redeem sweep_tokens
  step-spent (commits reg fields drawn now) t d s = commit-tokens reg fields drawn now t s
  step-spent (creates bearer token channel now) t d s =
      elim (Option-cases (find_session_by_token sv.sessions bearer now).1) [
        | inl nobody ↦ ground arith
        | inr (owner, live) ↦
            ground (arith, spent-put sv.qr_tokens token t (invitation cfg owner channel now))
      ]
  step-spent (redeems token node_id pass_code ip now channel drawn) t d s =
      elim (Option-cases (Dict.get sv.qr_tokens token)) [
        | inl gone ↦ ground arith
        | inr (r, there) ↦ ground (
          arith,
          elsewhere cfg digests (counted ip now) token r pass_code ip now channel drawn t,
          string_keys.beq_iff token t,
          ap (λ k. Dict.get sv.qr_tokens k),
          spent-get sv.qr_tokens t r s,
        )
      ]
  step-spent (sweeps now) t d s =
      spent-prune (λ _ r. ltb r.expires_at now || r.used) sv.qr_tokens t s

run-spent :
    (cfg : Limits) (digests : Digests) (sv : Server) (es : List InvitationEvent) (t : String)
    → All (λ e. draws_another t e ≡ true) es
    → spent sv.qr_tokens t ≡ true
    → spent (run cfg digests sv es).qr_tokens t ≡ true
unfolding run
run-spent cfg digests sv [] t d s = s
run-spent cfg digests sv (e ∷ es) t d s =
    run-spent cfg digests (step cfg digests sv e) es t d.1 (step-spent cfg digests sv e t d.0 s)

abbrev pub is_admitted : Outcome → Bool
is_admitted (answer (admitted a b c d)) = true
is_admitted _ = false

admitted-spent :
    (cfg : Limits) (digests : Digests) (sv : Server) (reg : Registration) (fields : PassCodeRecord)
    (drawn : Drawn) (now : ℕ) (t g : String)
    → Distinct sv.qr_tokens
    → reg.invitation ≡ some (t, g)
    → is_admitted (register_commit cfg digests sv reg fields drawn now).1 ≡ true
    → spent (register_commit cfg digests sv reg fields drawn now).0.qr_tokens t ≡ true
unfolding register_commit charge_guess refused
admitted-spent cfg digests sv reg fields drawn now t g d with_t joined =
    ground (
      arith,
      granted-spent sv.qr_tokens t g now d,
      ap (λ o. consume_grant sv.qr_tokens o now) with_t,
    )

-- When a registration that presented the invitation `t` is admitted, no later one that presents it
-- is, whatever registrations, redemptions, new invitations (with other tokens) and sweeps come
-- between, and however far the later one had already come: it leaves the sessions as they are.
pub invitation_admits_once :
    (cfg : Limits) (digests : Digests) (sv : Server) (reg reg2 : Registration)
    (fields fields2 : PassCodeRecord) (drawn drawn2 : Drawn) (now now2 : ℕ) (t g g2 : String)
    (es : List InvitationEvent)
    → Distinct sv.qr_tokens
    → reg.invitation ≡ some (t, g)
    → reg2.invitation ≡ some (t, g2)
    → All (λ e. draws_another t e ≡ true) es
    → is_admitted (register_commit cfg digests sv reg fields drawn now).1 ≡ true
    → let later = run cfg digests (register_commit cfg digests sv reg fields drawn now).0 es in
      (register_commit cfg digests later reg2 fields2 drawn2 now2).0.sessions ≡ later.sessions
invitation_admits_once cfg digests sv reg reg2 fields fields2 drawn drawn2 now now2 t g g2 es d r r2
      other joined =
    let first = (register_commit cfg digests sv reg fields drawn now).0 in
    spent-turned_away cfg digests (run cfg digests first es) reg2 fields2 drawn2 now2 t g2 r2 (
      run-spent cfg digests first es t other
        (admitted-spent cfg digests sv reg fields drawn now t g d r joined))
