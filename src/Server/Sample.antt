-- ===== src/Server/Sample.antt =====
-- A cluster of two sessions, and a server that holds it, for the tests.
use misaka_network.Common.{
  String, [], arith, false, none, refl, some, string_keys, ◌==◌, ◌∷◌, ◌≡◌, ◌≢◌,
}
use misaka_network.Common.Dict
use misaka_network.Server.Sessions.{State, Session, sha256, opened}
use misaka_network.Server.Sessions.Invariant.{WellFormed}
use misaka_network.Server.Guard.{Limits, no_guard}
use misaka_network.Server.Admission.{Server, Digests, Registration, PassCodeRecord, Drawn}
use misaka_network.Server.Admission.Safety.{Sound, OneIdentity}

abbrev pub alice : Session
alice = record {
  session_id = "a";
  node_id = 11;
  pass_code_hash = "h1";
  pass_code_verify_hash = none;
  pass_code_salt = none;
  pass_code_algo = some sha256;
  token = "ta";
  re_register_proof = "0123456789abcdef0123456789abcdef";
  turn_principal = "pa";
  socket = some 1;
  last_seen = 0;
  channel_id = some "room";
  blocked_ids = [];
  failed_attempts = 0;
  locked_until = 0;
  joined_at = 0;
  expires_at = 90000;
  ip = "10.0.0.1";
}

abbrev pub bob : Session
bob = record {
  session_id = "b";
  node_id = 12;
  pass_code_hash = "h2";
  pass_code_verify_hash = none;
  pass_code_salt = none;
  pass_code_algo = some sha256;
  token = "tb";
  re_register_proof = "fedcba9876543210fedcba9876543210";
  turn_principal = "pb";
  socket = some 2;
  last_seen = 0;
  channel_id = some "room";
  blocked_ids = [];
  failed_attempts = 0;
  locked_until = 0;
  joined_at = 0;
  expires_at = 90000;
  ip = "10.0.0.2";
}

abbrev pub pair : State
pair = record {
  nodes = ("a", alice) ∷ ("b", bob) ∷ [];
  channels = ("room", "a" ∷ "b" ∷ []) ∷ [];
  re_register_proof_index =
      ("0123456789abcdef0123456789abcdef", "a") ∷ ("fedcba9876543210fedcba9876543210", "b") ∷ [];
  re_register_proof_tombstones = [];
  expired_token_tombstones = [];
  authed_sockets = (1, "a") ∷ (2, "b") ∷ [];
  sockets = (1, opened) ∷ (2, opened) ∷ [];
  log = [];
}

-- A literal equals another only where the test says so.
literals_differ : (x y : String) → (x == y) ≡ false → x ≢ y
literals_differ x y h e = ground (arith, string_keys.beq_iff x y)

pub pair-WellFormed : WellFormed pair
unfolding Dict.get
pair-WellFormed = record {
  keyed = λ k s h.
      ground
        (arith, string_keys.beq_iff "a" k, string_keys.beq_iff "b" k, literals_differ "a" "b" refl);
  member = λ c k. ground (
    arith,
    string_keys.beq_iff "room" c,
    string_keys.beq_iff "a" k,
    string_keys.beq_iff "b" k,
    literals_differ "a" "b" refl,
  );
  authed = λ w k.
      ground
        (arith, string_keys.beq_iff "a" k, string_keys.beq_iff "b" k, literals_differ "a" "b" refl);
  indexed = λ p k. ground (
    arith,
    string_keys.beq_iff "0123456789abcdef0123456789abcdef" p,
    string_keys.beq_iff "fedcba9876543210fedcba9876543210" p,
    literals_differ "0123456789abcdef0123456789abcdef" "fedcba9876543210fedcba9876543210" refl,
    string_keys.beq_iff "a" k,
    string_keys.beq_iff "b" k,
    literals_differ "a" "b" refl,
  );
  populated = λ c h. ground arith;
  no_channel = refl;
  no_proof = refl;
}

abbrev pub limits : Limits
limits = record {
  node_id_min = 1;
  node_id_max = 20001;
  max_nodes = some 5000;
  max_nodes_per_ip = 10;
  max_attempts = 3;
  lock_duration_ms = 300000;
  node_freeze_threshold = 1;
  node_freeze_window_ms = 3600000;
  node_freeze_duration_ms = 3600000;
  session_ttl_ms = 1800000;
  qr_token_ttl_ms = 300000;
  disconnected_ttl_ms = 300000;
  max_blocked_ids = 2000;
  qr_redeem_rate_limit = 10;
  qr_redeem_rate_window_ms = 60000;
  transfer_done_rate_limit = 60;
  transfer_done_rate_window_ms = 60000;
  max_transfer_bytes = 1000000000;
  report_rate_max = 5;
  report_rate_window_ms = 600000;
  report_warn_count = 3;
  report_warn_window_ms = 86400000;
  report_ttl_ms = 86400000;
}

abbrev pub digests : Digests
digests = record { hash_pass_code_identity = λ code. code; derive_turn_principal = λ n hash. hash }

abbrev pub server : Server
server = record {
  sessions = pair;
  guard = no_guard;
  qr_tokens = [];
  reports = [];
  windows = [];
  total_transfers = 0;
  total_bytes = 0;
}

pair-OneIdentity : OneIdentity pair.nodes
unfolding Dict.get
pair-OneIdentity j k s t js kt same = ground (
  arith,
  string_keys.beq_iff "a" j,
  string_keys.beq_iff "b" j,
  string_keys.beq_iff "a" k,
  string_keys.beq_iff "b" k,
)

pub server-Sound : Sound limits server
server-Sound = record {
  agree = pair-WellFormed;
  capacity = omega arith;
  one_identity = pair-OneIdentity;
}

abbrev pub carol_drawn : Drawn
carol_drawn = record { session_id = "c"; token = "tc"; proof = "00112233445566778899aabbccddeeff" }

abbrev pub carol : Registration
carol = record {
  node_id = 13;
  ip = "10.0.0.3";
  started = 1000;
  identity = "h3";
  invitation = none;
  lock = none;
  same = [];
}

abbrev pub carol_record : PassCodeRecord
carol_record = ("h3", some "v3", some "s3", none)
