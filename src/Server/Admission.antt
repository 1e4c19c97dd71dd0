-- ===== src/Server/Admission.antt =====
-- server/src/http.ts: POST /api/register and /api/re-register.
-- A registration runs in three pieces, between its `await`s: `register_begin` up to the first
-- hashing, `register_verified` after a comparison with a session's verifier, and `register_commit`
-- after the last hashing. What it fetched before an `await` is carried in a `Registration`. Other
-- requests may change the server between two pieces.
pub mod Begin
pub mod Commit
pub mod Replace
pub mod Publish
pub mod Safety
pub mod Keeps
pub mod Succession
pub mod Renew
use Prim.Native.Char.{code}
use Prim.Native.String.{len, char_at}
use misaka_network.Server.RateLimit.{Windows}
use misaka_network.Common.{
  Bool, List, Option, String, [], false, if◌then◌else◌, leb, length, nat_eq, none, not, some,
  string_keys, true, ℕ, ◌&&◌, ◌+◌, ◌-◌, ◌==◌,
}
use misaka_network.Common.Dict
use misaka_network.Common.Dict.{Dict}
use misaka_network.Server.Guard.{Limits, Guard, AttemptKey, attempt_keys, charge}
use misaka_network.Server.Sessions.{
  State, Session, Algo, sha256, scrypt, count_nodes_by_ip, index_re_register_proof,
}

-- The keyed digests of store.ts, which are made of a digest of the platform's.
pub record Digests : Type 0 where
  pub hash_pass_code_identity : String → String
  pub derive_turn_principal : ℕ → String → String

pub record QrToken : Type 0 where
  pub owner_node_id : ℕ
  pub channel_id : Option String
  pub pass_code_hash : Option String
  pub created_at : ℕ
  pub expires_at : ℕ
  pub used : Bool
  pub failed_attempts : ℕ
  pub admission_grant : Option String

pub data Reason : Type 0 where
  spam malicious harassment other : Reason

pub record Report : Type 0 where
  pub id : String
  pub source_node_id : ℕ
  pub target_node_id : ℕ
  pub reason : Reason
  pub reporter_ip : String
  pub reported_at : ℕ

pub record Server : Type 0 where
  pub sessions : State
  pub guard : Guard
  pub qr_tokens : Dict String QrToken
  pub reports : List Report
  pub windows : Windows
  pub total_transfers : ℕ
  pub total_bytes : ℕ

pub data Response : Type 0 where
  invalid_input invalid_admission_grant network_full ip_limited persist_failed : Response
  invalid_proof : Response
  node_frozen locked : ℕ → Response
  occupied : ℕ → Response
  admitted : String → String → ℕ → String → Response

-- A body that has the types of the schema.
pub record RegisterBody : Type 0 where
  pub node_id : ℕ
  pub pass_code : String
  pub admission_grant : Option String

abbrev pub PassCodeRecord : Type 0
PassCodeRecord = String × Option String × Option String × Option Algo

pub record Registration : Type 0 where
  pub node_id : ℕ
  pub ip : String
  pub started : ℕ
  pub identity : String
  -- The invitation and the grant that was presented with it.
  pub invitation : Option (String × String)
  pub lock : Option ℕ
  pub same : List Session

abbrev pub lock_key : Registration → AttemptKey
lock_key reg = (reg.ip, reg.node_id)

abbrev is_digit : String → ℕ → Bool
is_digit s i = let c = code (char_at s i) in leb 48 c && leb c 57

-- /^\d{6}$/
unfoldable pub is_pass_code : String → Bool
is_pass_code s =
    nat_eq (len s) 6
    && is_digit s 0
    && is_digit s 1
    && is_digit s 2
    && is_digit s 3
    && is_digit s 4
    && is_digit s 5

abbrev pub holds_text : Option String → String → Bool
holds_text none t = false
holds_text (some s) t = s == t

abbrev pub is_some_text : Option String → Bool
is_some_text none = false
is_some_text (some s) = not (s == "")

abbrev is_scrypt : Option Algo → Bool
is_scrypt none = false
is_scrypt (some sha256) = false
is_scrypt (some scrypt) = true

abbrev pub has_scrypt : Session → Bool
has_scrypt s =
    is_scrypt s.pass_code_algo
    && is_some_text s.pass_code_salt
    && is_some_text s.pass_code_verify_hash

pub data Outcome : Type 0 where
  -- The answer.
  answer : Response → Outcome
  -- The answer, once the counters are on disk.
  flush : Response → Outcome
  -- await verifyAndMaybeUpgrade(passCode, verifier)
  verify : Registration → Session → Outcome
  -- await newPassCodeRecord(passCode)
  hash : Registration → Outcome
  -- No more to wait for: on with the record of another session.
  commit : Registration → PassCodeRecord → Outcome

unfoldable pub flush_answer : Bool → Response → Response
flush_answer true r = r
flush_answer false r = persist_failed

abbrev pub at_capacity : Option ℕ → ℕ → Bool
at_capacity none n = false
at_capacity (some max_nodes) n = leb max_nodes n

-- The two checks that come before and after the hashing.
unfoldable pub refused : Limits → State → String → Option Response
refused cfg st ip =
    if at_capacity cfg.max_nodes (length st.nodes)
    then some network_full
    else if leb cfg.max_nodes_per_ip (count_nodes_by_ip st.nodes ip)
    then some ip_limited
    else none

unfoldable pub unless_refused : Limits → State → String → Outcome → Outcome
unfolding refused
unless_refused cfg st ip go = elim (refused cfg st ip) [ none ↦ go | some r ↦ answer r ]

-- A guess that failed: charged, and answered once it is on disk.
unfoldable pub charge_guess : Limits → Server → Registration → Server × Outcome
charge_guess cfg sv reg =
    let (g, lock, froze) = charge cfg sv.guard (lock_key reg) reg.lock reg.started in
    (
      record sv { guard = g },
      flush (
          if leb cfg.max_attempts lock.attempts
          then locked lock.locked_until
          else occupied (cfg.max_attempts - lock.attempts)),
    )

-- What the server draws: the session's id, its token and its proof.
pub record Drawn : Type 0 where
  pub session_id : String
  pub token : String
  pub proof : String

abbrev pub new_session : Limits → Drawn → ℕ → PassCodeRecord → String → String → ℕ → Session
new_session cfg drawn node_id (h, v, salt, algo) principal ip now = record {
  session_id = drawn.session_id;
  node_id = node_id;
  pass_code_hash = h;
  pass_code_verify_hash = v;
  pass_code_salt = salt;
  pass_code_algo = algo;
  token = drawn.token;
  re_register_proof = drawn.proof;
  turn_principal = principal;
  socket = none;
  last_seen = now;
  channel_id = none;
  blocked_ids = [];
  failed_attempts = 0;
  locked_until = 0;
  joined_at = now;
  expires_at = now + cfg.session_ttl_ms;
  ip = ip;
}

-- nodes.set(sessionId, session); indexReRegisterProof(reRegisterProof, sessionId)
unfoldable pub publish : State → Session → State
publish st s =
    index_re_register_proof (record st { nodes = Dict.put st.nodes s.session_id s })
      s.re_register_proof s.session_id
