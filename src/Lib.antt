-- ===== src/Lib.antt =====
-- Misaka Network: verification of the signalling server with its TURN credentials, and of the parts
-- of the client that carry a transfer: its protocol, its account of chunks and its peer connections.
--
-- The server (server/src) keeps its sessions in memory. HTTP routes admit a session for a node and a
-- passcode (`http.ts`); its WebSocket then joins the channel of its identity and passes signals to
-- the other members (`ws.ts`). Every way in which a session ends goes through one function
-- (`session-lifecycle.ts`), a periodic tick sweeps what is due (`cleanup.ts`), and every budget of
-- HTTP requests is a sliding window (`ratelimit.ts`). The maps are those of `store.ts`. It hands out
-- TURN credentials against budgets of bytes and revokes them (`turn.ts`). The client (client/src)
-- builds one connection to each peer (`store/network/peer-runtime.ts`), cuts a file into frames and
-- paces them (`lib/transfer`), keeps a bitmap of the chunks that it has and sends it as runs
-- (`lib/chunk-bitmap.ts`).
--
-- The files and the code:
--   Common, Common/Tests, Common/Lists, Common/Dict
--       Boolean tests on numbers and texts, lists over the native numbers, a `Map` as an association
--       list in insertion order. Used by all.
--   Server/RateLimit                    server/src/ratelimit.ts
--       `check_rate_limit` is checkRateLimit, `cleanup_rate_limit_windows` its cleanup. Window has the
--       lemmas on time stamps, Bound the runs of requests of any keys.
--   Server/Sessions                     server/src/store.ts, server/src/types.ts
--       `State` is the module's maps; each exported function has its name. Invariant says when the
--       maps agree, Tokens and Proofs what the two resolvers answer.
--   Server/Lifecycle                    server/src/session-lifecycle.ts
--       `terminate_session` is terminateSession, in its four steps. Invariant, Teardown, Terminate,
--       Identity, Ends and Notice say what it keeps, what it ends and whom it tells.
--   Server/Guard                        server/src/http.ts, store.ts, cleanup.ts
--       The lock of an attempter and the freeze of a node. Freeze and Lockout (with
--       Shut) say how long they hold, Locks what one guess more does.
--   Server/Admission                    server/src/http.ts
--       Begin, Commit: POST /api/register, cut at its `await`s. Replace: POST /api/re-register and
--       /api/session-renew. Publish, Safety, Keeps and Renew say what they cannot break, Succession
--       what a re-registration does to the sessions.
--   Server/Invitations                  server/src/http.ts, cleanup.ts
--       POST /api/qr-token and /api/qr-redeem. Spent and Once say that an invitation is used once.
--   Server/Backpressure, Server/Ws, Server/Connection, Server/PendingAuth     server/src/ws.ts
--       Sending to a slow peer, the frames of a connection, its AUTH and close, and the slots of
--       connections that have not authenticated. Ws/Keeps, Ws/Join, Ws/Frames, Connection/Keeps
--       and PendingAuth/Exact have the proofs.
--   Server/ScryptGate                   server/src/store.ts
--       The slots of the scrypt hashes and the queue before them. Slots counts who has one.
--   Server/Cleanup                      server/src/cleanup.ts
--       `run_cleanup_tick` is runCleanupTick. Sweeps and Tick say what it leaves.
--   Server/Release, Server/Reports      server/src/http.ts
--       POST /api/release and /api/release-by-ip, POST /api/report and /api/transfer-done. Scope says
--       whom a release ends, Bounded what the reports of an address can add up to.
--   Server/Turn                         server/src/turn.ts, persist.ts
--       `Turn` is the persisted state with the cache. Issue: issueCredentials and its rollback. Revoke:
--       the deny list, the abusive credentials and the retries. Usage: the two polls from the point
--       where their pages have arrived. IceServers: normalizeIceServers. Snapshot: validateTurnState's
--       credentials and ledger; FailClosed and Saved have its proofs. Burst, Denied and its Kept, Ledger,
--       Conserved, Endings and Rollback have the proofs. A credential that a function holds across a
--       wait while the map may drop or replace it is a `Held`: known by its place in the map, or a copy
--       of its own.
--   Server/Run                          server/src/http.ts, ws.ts, session-lifecycle.ts, cleanup.ts
--       The requests, frames, sockets, ends and ticks of a server in any order. Shrinks, Requests and
--       Kept say what they keep.
--   Server/Sample, Server/Tests, Server/GuardTests and the other Tests
--       Concrete states, and the theorems at them.
--   Client/Bitmap                       client/src/lib/chunk-bitmap.ts
--       The bitmap as a list of bytes. Bytes has tables over all 256 bytes, Sets and Indexes say what
--       each function reads and writes, Refines relates it to a set.
--   Client/Ranges                       client/src/lib/chunk-bitmap.ts
--       Runs of chunks: Scan from a bitmap, Normalize off the wire, RoundTrip back to a bitmap.
--   Client/Transfer                     client/src/lib/transfer/protocol.ts, flow-control.ts
--       Frame: the binary frame of a chunk, on lists of bytes. Geometry: how many chunks and of what
--       length. Meta: validateMetaMessage, on texts as lists of UTF-16 units. Buffer: waitForBuffer, as
--       what its listeners and its interval report. Signals: the control signals of the transfers; a
--       promise and an AbortController are numbers.
--   Client/Peers                        client/src/store/network/peer-runtime.ts, session-scope.ts,
--                                       negotiation-controller.ts
--       The connection of a peer and the tasks that build one, resumed in any order. Placed has the
--       lemmas, Reachable the steps.
--   Client/IceRecovery                  client/src/store/network/ice-recovery.ts
--       attemptIceRestart, its lock and its retries. Locks and Pieces have the lemmas, Exclusive the
--       steps; Tests has a run across two epochs.
--
-- Conventions. An object that the source shares is known by a key: a session by its id, a socket and
-- a request by a number, a lock by a reference. `Date.now()`, the random draws, the results of
-- scrypt and the keyed digests are arguments. Times and counts are natural numbers, and a test on a
-- difference of times is written with a sum, so that no subtraction is cut off. What is sent, closed
-- and announced is appended to a log. Where a function waits (`await`), it is cut into pieces, and a
-- theorem about a piece holds in every state, so that anything may have run before it.
--
-- The only fuel is that of `decimal` in Server/Ws: 20 digits, where a node's number has at most five.
-- All other recursion is on the data.
--
-- Not modelled: the parsing of requests and frames before their fields have the types of the schema;
-- the origin check and the readiness of the persisted locks, which refuse a request before it is
-- looked at; the writing of snapshots to disk, of which only success or failure is an argument, and
-- the rest of their validation; the timers themselves; the calls of the TURN provider with their pages and deadlines, and
-- the status views; the activity feed; the scrypt comparisons of a release, of which the verdict is an
-- argument. Of the client, the send and receive engines, the data channels, keys and offers, the
-- first watchdog of a connection, the
-- database and the interface. They are the platform's or other parts' concern.
--
-- The runs of Server/Run take a frame from the connection of a live session. The source handles one
-- also for a session that has ended while its socket is still closing; Ws/Frames looks at that case.
-- An AUTH is taken there as the search for the token, the attachment of the socket and the sending of
-- the answer, and a renewal as the search and the change of the session. The fields that a comparison
-- hands back for an upgrade keep the session's identity, as verifyAndMaybeUpgrade of server/src/store.ts
-- has it.
mod Common
pub mod Server
pub mod Client
