-- ===== src/Client/Peers.antt =====
-- client/src/store/network/peer-runtime.ts, session-scope.ts, negotiation-controller.ts: which
-- RTCPeerConnection belongs to a peer, and the asynchronous work that builds one.
-- The maps are keyed by the peer, and the work for one peer reads and writes its entries alone, so a
-- `Peer` is the entries of one of them. A connection is a number. A task is cut at its `await`s; its
-- settled promise still has the `finally` of `initiateWebRTC` before it.
pub mod Placed
pub mod Reachable
pub mod Tests
use misaka_network.Common.{
  Bool, List, Option, [], false, get_elem?, if◌then◌else◌, nat_eq, none, set, some, true, ℕ, ◌&&◌,
  ◌+◌, ◌∷◌,
}

pub data Stage : Type 0 where
  -- whenSignalingReady and ensureAutoTurnReady of initiateWebRTCInner.
  until_ready until_turn : Stage
  -- generateECDHKeyPair and createOffer.
  until_keys until_offer : ℕ → Stage
  -- ensureAutoTurnReady and generateECDHKeyPair of handleRemoteSDP.
  until_answer_turn : Stage
  until_answer_keys : ℕ → Stage
  settling finished : Stage

pub record Task : Type 0 where
  pub epoch : ℕ
  pub gen : ℕ
  pub stage : Stage

pub record Peer : Type 0 where
  pub network_epoch : ℕ
  pub generation : ℕ
  pub connection : Option ℕ
  -- The generation of the initiation that is in flight.
  pub initiating : Option ℕ
  pub in_roster : Bool
  pub tasks : List Task
  -- The next number, and the connections that have been closed.
  pub next_pc : ℕ
  pub closed : List ℕ

abbrev pub is_held : Option ℕ → ℕ → Bool
is_held none n = false
is_held (some m) n = nat_eq m n

unfoldable pub bump_peer_generation : Peer → Peer
bump_peer_generation p = record p { generation = p.generation + 1 }

unfoldable pub is_peer_generation_attempt_current : Peer → Task → Bool
is_peer_generation_attempt_current p t =
    nat_eq t.epoch p.network_epoch && nat_eq p.generation t.gen && p.in_roster

unfoldable pub is_peer_connection_attempt_current : Peer → Task → ℕ → Bool
unfolding is_peer_generation_attempt_current
is_peer_connection_attempt_current p t pc =
    is_peer_generation_attempt_current p t && is_held p.connection pc

unfoldable pub abandon_peer_connection : Peer → ℕ → Peer
abandon_peer_connection p pc = record p {
  connection = if is_held p.connection pc then none else p.connection;
  closed = pc ∷ p.closed;
}

abbrev pub close_connection : Peer → Option ℕ → Peer
close_connection p none = p
close_connection p (some pc) = record p { connection = none; closed = pc ∷ p.closed }

unfoldable pub cleanup_peer_connection : Peer → Peer
unfolding bump_peer_generation
cleanup_peer_connection p = close_connection (bump_peer_generation p) p.connection

abbrev pub start_task : Peer → Stage → Peer
start_task p stage = record p {
  tasks = record { epoch = p.network_epoch; gen = p.generation; stage = stage } ∷ p.tasks;
}

-- Up to the first `await`: with a connection there the promise is settled at once.
abbrev pub first_stage : Option ℕ → Stage
first_stage none = until_ready
first_stage (some pc) = settling

unfoldable pub initiate_web_rtc : Peer → Peer
unfolding bump_peer_generation
initiate_web_rtc p =
    if is_held p.initiating p.generation
    then p
    else (let bumped = bump_peer_generation p in
        record (start_task bumped (first_stage p.connection)) {
          initiating = some bumped.generation;
        })

-- createPeerConnection; peerConnections.set
abbrev pub build : Peer → Peer
build p = record p { connection = some p.next_pc; next_pc = p.next_pc + 1 }

-- What follows a wait for TURN: `next` is the wait for the keys, `over` the end.
abbrev pub build_unless : Peer → Task → Option ℕ → (ℕ → Stage) → Stage → Peer × Stage
build_unless p t none next over =
    if is_peer_generation_attempt_current p t then (build p, next p.next_pc) else (p, over)
build_unless p t (some pc) next over = (p, over)

-- What follows a wait with a connection in hand.
abbrev pub keep_or_abandon : Peer → Task → ℕ → Stage → Stage → Peer × Stage
keep_or_abandon p t pc next over =
    if is_peer_connection_attempt_current p t pc
    then (p, next)
    else (abandon_peer_connection p pc, over)

-- The `finally` of initiateWebRTC.
abbrev pub settle : Peer → Task → Peer
settle p t = if is_held p.initiating t.gen then record p { initiating = none } else p

-- The task goes on: what it waited for is there, or has failed.
unfoldable pub resume_task : Peer → Task → Stage → Bool → Peer × Stage
unfolding is_peer_generation_attempt_current is_peer_connection_attempt_current
    abandon_peer_connection
resume_task p t until_ready ok =
    (p, if ok && is_peer_generation_attempt_current p t then until_turn else settling)
resume_task p t until_turn ok =
    if ok then build_unless p t p.connection until_keys settling else (p, settling)
resume_task p t (until_keys pc) ok =
    if ok then keep_or_abandon p t pc (until_offer pc) settling else (p, settling)
resume_task p t (until_offer pc) ok =
    if ok then keep_or_abandon p t pc settling settling else (p, settling)
resume_task p t until_answer_turn ok =
    if ok then build_unless p t p.connection until_answer_keys finished else (p, finished)
resume_task p t (until_answer_keys pc) ok =
    if ok then keep_or_abandon p t pc finished finished else (p, finished)
resume_task p t settling ok = (settle p t, finished)
resume_task p t finished ok = (p, finished)

abbrev pub resume_at : Peer → ℕ → Bool → Option Task → Peer
resume_at p k ok none = p
resume_at p k ok (some t) =
    let (next, stage) = resume_task p t t.stage ok in
    record next { tasks = set next.tasks k (record t { stage = stage }) }

unfoldable pub replace_if : Option ℕ → Peer → Peer
unfolding cleanup_peer_connection
replace_if none p = p
replace_if (some pc) p = cleanup_peer_connection p

unfoldable pub answer_if : Option ℕ → Peer → Peer
unfolding bump_peer_generation
answer_if none p = start_task (bump_peer_generation p) until_answer_turn
answer_if (some pc) p = p

-- An offer from the peer. A connection whose channel has failed without a key is replaced.
unfoldable pub handle_remote_offer : Peer → Bool → Peer
unfolding replace_if answer_if
handle_remote_offer p failed_unencrypted =
    let in_cluster = record p { in_roster = true } in
    let kept = if failed_unencrypted then replace_if p.connection in_cluster else in_cluster in
    answer_if kept.connection kept

-- The peer is cleaned up where it has a connection or a row; then the maps are emptied.
unfoldable pub end_network_epoch : Peer → Peer
unfolding cleanup_peer_connection
end_network_epoch p =
    let cleaned = cleanup_peer_connection (record p { network_epoch = p.network_epoch + 1 }) in
    record cleaned { generation = 0; initiating = none; in_roster = false }

pub data Event : Type 0 where
  initiates cleans ends : Event
  listed : Bool → Event
  offers : Bool → Event
  resumes : ℕ → Bool → Event

unfoldable pub step : Peer → Event → Peer
unfolding initiate_web_rtc cleanup_peer_connection end_network_epoch handle_remote_offer resume_task
step p initiates = initiate_web_rtc p
step p cleans = cleanup_peer_connection p
step p ends = end_network_epoch p
step p (listed b) = record p { in_roster = b }
step p (offers failed_unencrypted) = handle_remote_offer p failed_unencrypted
step p (resumes k ok) = resume_at p k ok (get_elem? p.tasks k)

unfoldable pub run : Peer → List Event → Peer
unfolding step
run p [] = p
run p (e ∷ es) = run (step p e) es

abbrev pub unknown : Peer
unknown = record {
  network_epoch = 0;
  generation = 0;
  connection = none;
  initiating = none;
  in_roster = false;
  tasks = [];
  next_pc = 0;
  closed = [];
}
