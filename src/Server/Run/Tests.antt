-- ===== src/Server/Run/Tests.antt =====
-- A short run: a node registers, connects, joins its cluster, and a tick passes.
use misaka_network.Common.{[], nat_keys, none, refl, some, string_keys, ◌∷◌, ◌≡◌}
use misaka_network.Common.Dict
use misaka_network.Server.Sample.{limits, digests, carol, carol_record, carol_drawn}
use misaka_network.Server.Sessions.{
  Session, opened, index_re_register_proof, mark_socket_authenticated, count_nodes_by_ip,
}
use misaka_network.Server.Admission.{Server, new_session, publish, refused}
use misaka_network.Server.Admission.Publish.{Fresh}
use misaka_network.Server.Admission.Commit.{register_commit, has_conflict, consume_grant}
use misaka_network.Server.Admission.Safety.{Sound}
use misaka_network.Server.Backpressure.{Net, Wire}
use misaka_network.Server.Ws.{join_cluster}
use misaka_network.Server.Connection.{attach, later_frame, supersede, connected}
use misaka_network.Server.Cleanup.{run_cleanup_tick}
use misaka_network.Server.Run.{
  Reached, started, starts, registers, connects, frames, ticks, serves, serve, invites, moves,
}
use misaka_network.Server.Run.Kept.{Reached-Sound}

abbrev net : Net
net = record {
  buffered = λ ws. 0;
  max_buffered_bytes = 1000;
  max_buffered_hard_bytes = 4000;
  slow_consumer_grace_ms = 10000;
}

abbrev member : Session
member = new_session limits carol_drawn 13 carol_record "h3" "10.0.0.3" 1000

abbrev registered : Server
registered = (register_commit limits digests started carol carol_record carol_drawn 2000).0

abbrev connected_server : Server
connected_server = record registered {
  sessions = attach registered.sessions member 9 "10.0.0.3" 2500;
}

abbrev on_line : Session
on_line = connected 9 "10.0.0.3" 2500 member

-- The socket is open.
abbrev open_server : Server
open_server = record connected_server {
  sessions = record connected_server.sessions { sockets = (9, opened) ∷ [] };
}

abbrev wire : Wire
wire = record { sessions = open_server.sessions; slow_since = []; rechecks = [] }

abbrev joined_server : Server
joined_server = record open_server {
  sessions = (later_frame limits net wire 9 on_line join_cluster 3000).sessions;
}

first-Fresh : Fresh started.sessions carol_drawn
unfolding Dict.get
first-Fresh = record { unused_id = refl; unused_proof = refl; named_proof = refl }

socket_unused : Dict.get registered.sessions.authed_sockets 9 ≡ none
unfolding register_commit Dict.get has_conflict refused consume_grant Dict.put publish
    index_re_register_proof count_nodes_by_ip
socket_unused = refl

member_live : Dict.get registered.sessions.nodes "c" ≡ some member
unfolding register_commit Dict.get has_conflict refused consume_grant Dict.put publish
    index_re_register_proof count_nodes_by_ip
member_live = refl

on_line_live : Dict.get open_server.sessions.nodes "c" ≡ some on_line
unfolding register_commit Dict.get has_conflict refused consume_grant Dict.put publish
    index_re_register_proof count_nodes_by_ip attach supersede mark_socket_authenticated Dict.modify
on_line_live = refl

-- The node invites somebody, and a tick passes.
abbrev last_server : Server
last_server =
    run_cleanup_tick limits (serve limits digests joined_server (invites "t3" "inv" "room" 3500))
      4000

a_run : Reached limits digests last_server
a_run = ticks _ 4000 (
    serves joined_server (invites "t3" "inv" "room" 3500) (
      frames open_server net wire 9 on_line join_cluster 3000 refl on_line_live (
        moves connected_server ((9, opened) ∷ []) (
          connects registered member 9 "10.0.0.3" 2500 socket_unused member_live
            (registers started carol carol_record carol_drawn 2000 first-Fresh starts)))))

Reached-Sound_example : Sound limits last_server
Reached-Sound_example = Reached-Sound limits digests last_server a_run
