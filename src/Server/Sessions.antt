-- ===== src/Server/Sessions.antt =====
-- server/src/types.ts and store.ts: the live sessions and the maps that point into them.
-- A session object is known by its session id. Every reference to it goes through `nodes`: an
-- object that has left the map has no socket and no channel (`terminate` writes both), and no
-- operation reads it again. A socket is a number; `sockets` is its `readyState`, which the peer and
-- the network change. What is sent, closed or announced goes to `log`, newest first. `Date.now()`,
-- `nanoid` and `randomBytes` are arguments.
pub mod Invariant
pub mod Tokens
pub mod Proofs
use misaka_network.Common.{
  Bool, List, Option, String, [], false, if◌then◌else◌, leb, ltb, nat_keys, none, not, some,
  string_keys, suc, true, ℕ, ◌&&◌, ◌+◌, ◌==◌, ◌||◌, ◌∷◌,
}
use Prim.Native.String.{len}
use misaka_network.Common.Dict
use misaka_network.Common.Dict.{Dict}

pub data Algo : Type 0 where
  sha256 scrypt : Algo

pub record Session : Type 0 where
  pub session_id : String
  pub node_id : ℕ
  pub pass_code_hash : String
  pub pass_code_verify_hash : Option String
  pub pass_code_salt : Option String
  pub pass_code_algo : Option Algo
  pub token : String
  pub re_register_proof : String
  pub turn_principal : String
  pub socket : Option ℕ
  pub last_seen : ℕ
  pub channel_id : Option String
  pub blocked_ids : List String
  pub failed_attempts : ℕ
  pub locked_until : ℕ
  pub joined_at : ℕ
  pub expires_at : ℕ
  pub ip : String

pub data ReadyState : Type 0 where
  connecting opened closing closed : ReadyState

pub data Frame : Type 0 where
  welcome : String → ℕ → ℕ → Frame
  peer_joined : String → ℕ → ℕ → Bool → Frame
  peer_left : String → ℕ → Frame
  peer_offline : String → Frame
  pong : Frame
  failure : String → Frame
  signal_sdp signal_ice signal_ice_end : String → ℕ → String → Frame

pub data Effect : Type 0 where
  sent : ℕ → Frame → Effect
  closes : ℕ → ℕ → String → Effect
  announces : String → ℕ → Effect

pub record Tombstone : Type 0 where
  pub node_id : ℕ
  pub until : ℕ

pub record State : Type 0 where
  pub nodes : Dict String Session
  pub channels : Dict String (List String)
  pub re_register_proof_index : Dict String String
  pub re_register_proof_tombstones : Dict String Tombstone
  pub expired_token_tombstones : Dict String ℕ
  pub authed_sockets : Dict ℕ String
  pub sockets : Dict ℕ ReadyState
  pub log : List Effect

abbrev pub empty : State
empty = record {
  nodes = [];
  channels = [];
  re_register_proof_index = [];
  re_register_proof_tombstones = [];
  expired_token_tombstones = [];
  authed_sockets = [];
  sockets = [];
  log = [];
}

abbrev pub proof_tombstone_ttl_ms : ℕ
proof_tombstone_ttl_ms = 3600000

abbrev pub expired_token_tombstone_ms : ℕ
expired_token_tombstone_ms = 300000

unfoldable pub index_re_register_proof : State → String → String → State
index_re_register_proof st proof session_id = record st {
  re_register_proof_index = Dict.put st.re_register_proof_index proof session_id;
  re_register_proof_tombstones = Dict.remove st.re_register_proof_tombstones proof;
}

-- The owner's number is always given here; 0 leaves no tombstone.
unfoldable pub unindex_re_register_proof : State → String → ℕ → ℕ → State
unindex_re_register_proof st proof node_id now = if proof == "" then st else record st {
  re_register_proof_index = Dict.remove st.re_register_proof_index proof;
  re_register_proof_tombstones =
      if ltb 0 node_id
      then Dict.put st.re_register_proof_tombstones proof
          (record { node_id = node_id; until = now + proof_tombstone_ttl_ms })
      else st.re_register_proof_tombstones;
}

unfoldable pub is_session_expired : Session → ℕ → Bool
is_session_expired s now = ltb 0 s.expires_at && leb s.expires_at now

pub data ProofStatus : Type 0 where
  ok : Session → ProofStatus
  invalid : Option ℕ → ProofStatus

-- `proof.length`, in UTF-16 units; a proof is hexadecimal.
unfoldable pub proof_too_short : String → Bool
proof_too_short proof = ltb (len proof) 32

-- What the tombstones say of a proof that is not indexed.
unfoldable pub resolve_tombstone : State → String → ℕ → State × ProofStatus
resolve_tombstone st proof now = elim (Dict.get st.re_register_proof_tombstones proof) [
  | none ↦ (st, invalid none)
  | some tomb ↦
      if ltb tomb.until now
      then (
        record st {
          re_register_proof_tombstones = Dict.remove st.re_register_proof_tombstones proof;
        },
        invalid none,
      )
      else (st, invalid (some tomb.node_id))
]

abbrev drop_index : State → String → State
drop_index st proof = record st {
  re_register_proof_index = Dict.remove st.re_register_proof_index proof;
}

resolve_indexed : State → String → String → ℕ → State × ProofStatus
unfolding resolve_tombstone is_session_expired
resolve_indexed st proof session_id now = elim (Dict.get st.nodes session_id) [
  | none ↦ resolve_tombstone (drop_index st proof) proof now
  | some session ↦
      if not (session.re_register_proof == proof)
      then (drop_index st proof, invalid (some session.node_id))
      else if is_session_expired session now
      then (st, invalid (some session.node_id))
      else (st, ok session)
]

unfoldable pub resolve_re_register_proof : State → String → ℕ → State × ProofStatus
unfolding resolve_indexed resolve_tombstone
resolve_re_register_proof st proof now =
    if proof_too_short proof
    then (st, invalid none)
    else elim (Dict.get st.re_register_proof_index proof) [
      | none ↦ resolve_tombstone st proof now
      | some session_id ↦
          if session_id == ""
          then resolve_tombstone st proof now
          else resolve_indexed st proof session_id now
    ]

-- A fresh proof takes the place of the session's proof, in the session too.
unfoldable pub rotate_re_register_proof : State → Session → String → ℕ → State
unfolding unindex_re_register_proof index_re_register_proof
rotate_re_register_proof st session next now =
    let cleared = unindex_re_register_proof st session.re_register_proof session.node_id now in
    let renewed = record cleared {
      nodes =
          Dict.modify cleared.nodes session.session_id (λ s. record s { re_register_proof = next });
    } in
    index_re_register_proof renewed next session.session_id

unfoldable pub mark_token_expired : State → String → ℕ → State
mark_token_expired st token now = if token == "" then st else record st {
  expired_token_tombstones =
      Dict.put st.expired_token_tombstones token (now + expired_token_tombstone_ms);
}

pub data TokenStatus : Type 0 where
  ok : Session → TokenStatus
  expired invalid : TokenStatus

-- The loop over `nodes.values()`: the first live session with the token, and whether an expired
-- one was passed on the way, which marks the token.
unfoldable pub scan_tokens : String → ℕ → Bool → List (String × Session) → Option Session × Bool
scan_tokens token now saw [] = (none, saw)
scan_tokens token now saw ((k, s) ∷ rest) =
    let later = scan_tokens token now (saw || (s.token == token)) rest in
    let found : Option Session × Bool = (some s, saw) in
    if (s.token == token) && not (is_session_expired s now) then found else later

unfoldable pub unless_expired : State → String → ℕ → State × TokenStatus
unless_expired st token now = elim (Dict.get st.expired_token_tombstones token) [
  | none ↦ (st, invalid)
  | some until ↦ if ltb now until then (st, expired) else (
    record st { expired_token_tombstones = Dict.remove st.expired_token_tombstones token },
    invalid,
  )
]

unfoldable pub token_result : State → String → ℕ → Option Session → Bool → State × TokenStatus
unfolding unless_expired
token_result st token now (some s) saw = (st, ok s)
token_result st token now none true = (st, expired)
token_result st token now none false = unless_expired st token now

unfoldable pub resolve_session_by_token : State → String → ℕ → State × TokenStatus
unfolding scan_tokens token_result mark_token_expired
resolve_session_by_token st token now =
    if token == ""
    then (st, invalid)
    else (let (found, saw) = scan_tokens token now false st.nodes in
        token_result (if saw then mark_token_expired st token now else st) token now found saw)

abbrev live_session : TokenStatus → Option Session
live_session (ok s) = some s
live_session expired = none
live_session invalid = none

unfoldable pub find_session_by_token : State → String → ℕ → State × Option Session
find_session_by_token st token now =
    let (st', r) = resolve_session_by_token st token now in (st', live_session r)

unfoldable pub cleanup_expired_tombstones : State → ℕ → State
cleanup_expired_tombstones st now = record st {
  re_register_proof_tombstones =
      Dict.prune (λ _ tomb. ltb tomb.until now) st.re_register_proof_tombstones;
  expired_token_tombstones = Dict.prune (λ _ until. leb until now) st.expired_token_tombstones;
}

-- The index of authenticated sockets.
unfoldable pub mark_socket_authenticated : State → ℕ → String → State
mark_socket_authenticated st ws session_id = record st {
  authed_sockets = Dict.put st.authed_sockets ws session_id;
}

unfoldable pub unmark_socket : State → ℕ → State
unmark_socket st ws = record st { authed_sockets = Dict.remove st.authed_sockets ws }

unfoldable pub count_nodes_by_ip : Dict String Session → String → ℕ
count_nodes_by_ip [] ip = 0
count_nodes_by_ip ((k, s) ∷ rest) ip =
    let more = count_nodes_by_ip rest ip in if s.ip == ip then suc more else more

unfoldable pub get_online_count : Dict String Session → ℕ
get_online_count [] = 0
get_online_count ((k, s) ∷ rest) =
    let more = get_online_count rest in elim s.socket [ none ↦ more | some _ ↦ suc more ]
