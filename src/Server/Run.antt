-- ===== src/Server/Run.antt =====
-- server/src: the requests, frames and timers of http.ts, ws.ts and cleanup.ts, in any order.
pub mod Shrinks
pub mod Requests
pub mod Kept
pub mod Tests
use misaka_network.Common.{
  Bool, Option, String, [], false, nat_keys, none, some, string_keys, ℕ, ◌==◌, ◌≡◌,
}
use misaka_network.Common.Dict
use misaka_network.Common.Dict.{Dict}
use misaka_network.Server.Guard.{Limits, no_guard}
use misaka_network.Server.Sessions.{State, Session, Frame, ReadyState, empty, find_session_by_token}
use misaka_network.Server.Lifecycle.{terminate_session, TerminateOpts, close_socket}
use misaka_network.Server.Lifecycle.Terminate.{OwnSocket}
use misaka_network.Server.Admission.{
  Server, Digests, Registration, RegisterBody, Reason, PassCodeRecord, Drawn,
}
use misaka_network.Server.Admission.Publish.{Fresh}
use misaka_network.Server.Admission.Commit.{register_commit, register_verified}
use misaka_network.Server.Admission.Begin.{register_begin}
use misaka_network.Server.Invitations.{qr_token, qr_redeem}
use misaka_network.Server.Reports.{report, transfer_done}
use misaka_network.Server.Release.{
  release, release_bearer, release_bypass, release_open, release_matched, release_unmatched,
}
use misaka_network.Server.Admission.Replace.{re_register, renew}
use misaka_network.Server.Admission.Keeps.{FreshAfter}
use misaka_network.Server.Backpressure.{Net, Wire, send, recheck}
use misaka_network.Server.Ws.{Message}
use misaka_network.Server.Connection.{attach, later_frame, on_close}
use misaka_network.Server.Cleanup.{run_cleanup_tick}

-- A server that has just started, without a snapshot.
abbrev pub started : Server
started = record {
  sessions = empty;
  guard = no_guard;
  qr_tokens = [];
  reports = [];
  windows = [];
  total_transfers = 0;
  total_bytes = 0;
}

-- The requests that admit nobody and need nothing of the state: the first piece of a registration;
-- an invitation made and redeemed; a report and a finished transfer; a release with a token, by
-- address, or by a passcode before and after it was compared; the search for the session of a token,
-- which every other request with one begins with.
pub data Request : Type 0 where
  begins : RegisterBody → String → ℕ → Request
  invites : String → String → String → ℕ → Request
  redeems : String → ℕ → String → String → ℕ → String → String → Request
  reports : ℕ → Reason → String → String → String → ℕ → Request
  finishes : String → Option ℕ → String → ℕ → Request
  releases : String → ℕ → Request
  releases_by_ip : String → String → ℕ → Request
  bypasses : String → ℕ → Request
  opens_release : ℕ → String → ℕ → Request
  matches : ℕ → String → String → ℕ → Request
  mismatches : ℕ → String → Option ℕ → ℕ → Bool → Request
  looks_up : String → ℕ → Request

unfoldable pub serve : Limits → Digests → Server → Request → Server
serve cfg digests sv (begins body ip now) = (register_begin cfg digests sv body ip now).0
serve cfg digests sv (invites bearer token channel now) =
    (qr_token cfg sv bearer token channel now).0
serve cfg digests sv (redeems token node_id pass_code ip now channel drawn) =
    (qr_redeem cfg digests sv token node_id pass_code ip now channel drawn).0
serve cfg digests sv (reports node_id reason token id ip now) =
    (report cfg sv node_id reason token id ip now).0
serve cfg digests sv (finishes token bytes ip now) = (transfer_done cfg sv token bytes ip now).0
serve cfg digests sv (releases token now) = record sv { sessions = release sv.sessions token now }
serve cfg digests sv (releases_by_ip token ip now) = (release_bearer sv token ip now).0
serve cfg digests sv (bypasses ip now) = (release_bypass sv ip now).0
serve cfg digests sv (opens_release node_id ip now) = (release_open cfg sv node_id ip now).0
serve cfg digests sv (matches node_id ip identity now) =
    (release_matched sv node_id ip identity now).0
serve cfg digests sv (mismatches node_id ip lock now flushed) =
    (release_unmatched cfg sv node_id ip lock now flushed).0
serve cfg digests sv (looks_up token now) = record sv {
  sessions = (find_session_by_token sv.sessions token now).0;
}

-- The upgrade of a verifier, which is handed back by the comparison, has the session's own identity.
abbrev pub KeepsIdentity : State → Session → Option PassCodeRecord → Type 0
KeepsIdentity st verifier none = Unit
KeepsIdentity st verifier (some fields) =
    (s : Session) → Dict.get st.nodes verifier.session_id ≡ some s → s.pass_code_hash ≡ fields.0

-- What can happen to a server. What it draws is fresh, a connection authenticates once, and a frame
-- comes from the connection of a live session. `moves` is the network and the peers, which open and
-- close sockets; the fill of their buffers is another at every step.
pub data Reached (cfg : Limits) (digests : Digests) : Server → Type 0 where
  starts : Reached cfg digests started
  registers :
      (sv : Server) (reg : Registration) (fields : PassCodeRecord) (drawn : Drawn) (now : ℕ)
      → Fresh sv.sessions drawn
      → Reached cfg digests sv
      → Reached cfg digests (register_commit cfg digests sv reg fields drawn now).0
  serves :
      (sv : Server) (request : Request)
      → Reached cfg digests sv
      → Reached cfg digests (serve cfg digests sv request)
  verifies :
      (sv : Server) (reg : Registration) (verifier : Session) (held : Bool)
      (fields : Option PassCodeRecord)
      → KeepsIdentity sv.sessions verifier fields
      → Reached cfg digests sv
      → Reached cfg digests (register_verified cfg sv reg verifier held fields).0
  re_registers :
      (sv : Server) (proof : String) (drawn : Drawn) (ip : String) (now : ℕ)
      → FreshAfter sv drawn now
      → Reached cfg digests sv
      → Reached cfg digests (re_register cfg digests sv proof drawn ip now).0
  renews :
      (sv : Server) (s : Session) (token next : String) (now : ℕ)
      → Dict.get sv.sessions.nodes s.session_id ≡ some s
      → Dict.get sv.sessions.re_register_proof_index next ≡ none
      → (next == "") ≡ false
      → (s.re_register_proof == "") ≡ false
      → Reached cfg digests sv
      → Reached cfg digests (record sv { sessions = renew cfg sv.sessions s token next now })
  connects :
      (sv : Server) (s : Session) (ws : ℕ) (ip : String) (now : ℕ)
      → Dict.get sv.sessions.authed_sockets ws ≡ none
      → Dict.get sv.sessions.nodes s.session_id ≡ some s
      → Reached cfg digests sv
      → Reached cfg digests (record sv { sessions = attach sv.sessions s ws ip now })
  frames :
      (sv : Server) (net : Net) (w : Wire) (ws : ℕ) (s : Session) (msg : Message) (now : ℕ)
      → w.sessions ≡ sv.sessions
      → Dict.get sv.sessions.nodes s.session_id ≡ some s
      → Reached cfg digests sv
      → Reached cfg digests (record sv { sessions = (later_frame cfg net w ws s msg now).sessions })
  sends :
      (sv : Server) (net : Net) (w : Wire) (ws : ℕ) (frame : Frame) (now : ℕ)
      → w.sessions ≡ sv.sessions
      → Reached cfg digests sv
      → Reached cfg digests (record sv { sessions = (send net w ws frame now).sessions })
  rechecks :
      (sv : Server) (net : Net) (w : Wire) (ws now : ℕ)
      → w.sessions ≡ sv.sessions
      → Reached cfg digests sv
      → Reached cfg digests (record sv { sessions = (recheck net w ws now).sessions })
  closes :
      (sv : Server) (ws code : ℕ) (reason : String)
      → Reached cfg digests sv
      → Reached cfg digests (record sv { sessions = close_socket sv.sessions ws code reason })
  hangs_up :
      (sv : Server) (w : Wire) (ws now : ℕ)
      → w.sessions ≡ sv.sessions
      → Dict.get sv.sessions.authed_sockets ws ≡ none
      → Reached cfg digests sv
      → Reached cfg digests (record sv { sessions = (on_close w ws none now).sessions })
  moves :
      (sv : Server) (sockets : Dict ℕ ReadyState)
      → Reached cfg digests sv
      → Reached cfg digests (record sv { sessions = record sv.sessions { sockets = sockets } })
  ends :
      (sv : Server) (sid : String) (opts : TerminateOpts) (now : ℕ)
      → OwnSocket sv.sessions sid opts.only_if_socket
      → Reached cfg digests sv
      → Reached cfg digests (record sv { sessions = terminate_session sv.sessions sid opts now })
  ticks :
      (sv : Server) (now : ℕ)
      → Reached cfg digests sv
      → Reached cfg digests (run_cleanup_tick cfg sv now)
