-- ===== src/Server/Release.antt =====
-- server/src/http.ts: POST /api/release and POST /api/release-by-ip.
-- A release by passcode waits for scrypt: `release_open` is what comes before the loop over the
-- candidates and `release_matched` and `release_unmatched` what comes after it. Whether one of them
-- matched is the platform's answer.
pub mod Scope
pub mod Tests
use misaka_network.Common.{
  Bool, List, Option, String, [], if◌then◌else◌, inl, inr, leb, length, nat_eq, none, not, some,
  string_keys, ℕ, ◌&&◌, ◌==◌, ◌||◌, ◌∷◌, ◌⊎◌,
}
use misaka_network.Common.Dict
use misaka_network.Common.Dict.{Dict}
use misaka_network.Server.Guard.{
  Limits, attempt_keys, is_node_frozen, open_lock, charge, clear_node_freeze_on_success,
}
use misaka_network.Server.Sessions.{State, Session, find_session_by_token}
use misaka_network.Server.Lifecycle.{terminate_session, TerminateOpts, default_opts}
use misaka_network.Server.Admission.{Server}

abbrev pub release_opts : TerminateOpts
release_opts = record default_opts { close_code = 1000; close_reason = "RELEASED" }

abbrev pub release_found : State × Option Session → ℕ → State
release_found (st, none) now = st
release_found (st, some s) now = terminate_session st s.session_id release_opts now

-- POST /api/release: 204 whether a session was found or not.
unfoldable pub release : State → String → ℕ → State
release st token now = release_found (find_session_by_token st token now) now

-- Whom a release by address is for: everybody there, or the sessions of one node and identity.
abbrev pub Scope : Type 0
Scope = Option (ℕ × String)

abbrev pub in_scope : String → Scope → Session → Bool
in_scope ip none s = s.ip == ip
in_scope ip (some (node_id, identity)) s =
    (s.ip == ip) && nat_eq s.node_id node_id && (s.pass_code_hash == identity)

-- toRelease
unfoldable pub to_release : String → Scope → Dict String Session → List Session
to_release ip scope [] = []
to_release ip scope ((k, s) ∷ rest) =
    let more = to_release ip scope rest in if in_scope ip scope s then s ∷ more else more

unfoldable pub release_all : State → List Session → ℕ → State
release_all st [] now = st
release_all st (s ∷ rest) now =
    release_all (terminate_session st s.session_id release_opts now) rest now

-- The sessions that are left, and how many were released.
unfoldable pub release_scoped : State → String → Scope → ℕ → State × ℕ
unfolding to_release release_all
release_scoped st ip scope now =
    let due = to_release ip scope st.nodes in (release_all st due now, length due)

pub data Reply : Type 0 where
  unauthorized persist_failed : Reply
  node_frozen wrong_passcode : ℕ → Reply
  released : ℕ → Reply

abbrev pub replied : Server → State × ℕ → Server × Reply
replied sv (st, n) = (record sv { sessions = st }, released n)

-- With a token.
unfoldable pub release_bearer : Server → String → String → ℕ → Server × Reply
unfolding release_scoped
release_bearer sv token ip now =
    let (st, caller) = find_session_by_token sv.sessions token now in
    elim caller [
      | none ↦ (record sv { sessions = st }, unauthorized)
      | some s ↦
          replied (record sv { sessions = st })
            (release_scoped st ip (some (s.node_id, s.pass_code_hash)) now)
    ]

-- Without one, in a test build that is called on its loopback.
unfoldable pub release_bypass : Server → String → ℕ → Server × Reply
unfolding release_scoped
release_bypass sv ip now = replied sv (release_scoped sv.sessions ip none now)

-- With a passcode: the freeze and the lock. The lock that goes on to the comparison.
unfoldable pub release_open : Limits → Server → ℕ → String → ℕ → Server × (Reply ⊎ Option ℕ)
release_open cfg sv node_id ip now =
    let (g, frozen) = is_node_frozen cfg sv.guard node_id now in
    let checked = record sv { guard = g } in
    elim frozen [
      | some until ↦ (checked, inl (node_frozen until))
      | none ↦ elim (open_lock g (ip, node_id) now) [
        | inr until ↦ (checked, inl (wrong_passcode until))
        | inl (g2, lock) ↦ (record sv { guard = g2 }, inr lock)
      ]
    ]

-- The answer of a guess that failed, once it is on disk where a lock or a freeze is new.
abbrev pub release_refused : Bool → Bool → Reply
release_refused must_flush flushed =
    if must_flush && not flushed then persist_failed else unauthorized

unfoldable pub release_unmatched :
    Limits → Server → ℕ → String → Option ℕ → ℕ → Bool → Server × Reply
release_unmatched cfg sv node_id ip lock now flushed =
    let (g, held, froze) = charge cfg sv.guard (ip, node_id) lock now in
    (record sv { guard = g }, release_refused (leb cfg.max_attempts held.attempts || froze) flushed)

unfoldable pub release_matched : Server → ℕ → String → String → ℕ → Server × Reply
unfolding release_scoped
release_matched sv node_id ip identity now =
    let unlocked = record sv.guard {
      attempt_locks = Dict.remove sv.guard.attempt_locks (ip, node_id);
    } in
    replied (record sv { guard = clear_node_freeze_on_success unlocked node_id })
      (release_scoped sv.sessions ip (some (node_id, identity)) now)
