-- ===== src/Examples/Rooms.antt =====
-- A client and the server of src/session together.
use sf4_netplay_launcher.Prelude.{
  ◌-◌, ltb, if◌then◌else◌, ◌≡◌, ◌≢◌, refl, true, false, none, some, ◌∷◌, [], arith, map, bytes_eq,
}
use sf4_netplay_launcher.Prelude.Int.{ℤ, pos, negsuc}
use sf4_netplay_launcher.Session.Protocol.{
  conn_id_eq, ConnectionId, FixedPoint, MatchData, no_chara, clear, is_all_ready, hash_invalid,
  join_request,
}
use sf4_netplay_launcher.Checkpoints.{Simulation}
use sf4_netplay_launcher.Session.Client.{
  send_ggpo_frame, Client, Env, is_local_player, got_hello_resp, got_join_reject, send_join,
  send_ready, on_error, error_of, close_connection, sce_unknown, sce_lobby_full, sce_hash_invalid,
}
use sf4_netplay_launcher.Session.Client.Step.{start, handle, step, received, failed}
use sf4_netplay_launcher.Session.Wire.{serve, to_server, read_lobby}
use sf4_netplay_launcher.Session.GgpoRelay.{
  GgpoRelay, VirtualPeer, Winsock, Started, ensure_winsock, start_loop, create_virtual_peer,
  close_sockets, inject_to,
}
use sf4_netplay_launcher.Session.GgpoRelay
use sf4_netplay_launcher.Session.GgpoRelay.Tunnel.{frame}
use sf4_netplay_launcher.Session.Server.Step
use sf4_netplay_launcher.Session.Joining.{
  request_of, newcomer, joined, informed, join_accepted, join_refused,
}
use sf4_netplay_launcher.Session.Readiness.{first, readied, acknowledged, ready_acknowledged}
use sf4_netplay_launcher.Session.Server.{
  Incoming, to_string, decimal, Server, PeerAddr, SessionMember, broadcast, to_string, decimal,
  lookup, has_name, register_to_wait, join_reject, side0, all_loaded,
}
use sf4_netplay_launcher.Session.Server.Step.{ok, snapshot, members_of}
use sf4_netplay_launcher.Session.Server
use sf4_netplay_launcher.Session.Client

abbrev fixed_zero : FixedPoint
fixed_zero = record { fractional = 0; integral = pos 0 }

abbrev game : Simulation
game = record {
  frames_simulated = fixed_zero;
  snapshot_map = [];
  hash_checkpoints = [];
  is_leaving = false;
}

abbrev identity : ConnectionId
identity = record { host = b'h' ∷ []; user = b'7' ∷ [] }

abbrev no_match : MatchData
no_match = record {
  ready0 = negsuc 0;
  ready1 = negsuc 0;
  chara0 = no_chara;
  chara1 = no_chara;
  stage_id = pos 0;
  rng_seed = 0;
}

abbrev alice : Client
unfolding Client.init
alice = record (Client.init (b'x' ∷ []) (b'a' ∷ []) 7000 no_match identity true) {
  conn = some 5;
  is_connected = true;
}

-- The server has greeted connection 7.
abbrev server : Server
unfolding Server.init clear
server = record (Server.init (b'h' ∷ []) (b'x' ∷ []) true (pos 3) fixed_zero) {
  cid_map = (7, identity) ∷ [];
}

abbrev local : PeerAddr
local = record { is_local_host = true; text = [] }

abbrev env : Env
env = record { send_ok = λ k. true; strict_desync = false; dump_length = λ f. 0 }

join_accepted_example :
    let t = joined server alice identity 7 local in
    let u = informed alice game identity t in
    (map to_server (handle (start alice game) (got_hello_resp (some identity))).sent
      ≡ join_request (some (request_of alice)) ∷ [])
    × ((serve server 7 local (pos 2) (send_join (request_of alice))
          ≡ ok t (broadcast (newcomer alice identity 7 local ∷ []) (snapshot t)))
        × ((u.lobby_data
              ≡ read_lobby (record server.lobby_data {
                members = members_of (newcomer alice identity 7 local ∷ []);
              }))
            × ((u.match_data ≡ server.match_data) × (is_local_player u ≡ true))))
unfolding Client.init Server.init clear has_name bytes_eq
join_accepted_example =
    join_accepted alice game server identity 7 local (pos 2) refl refl refl refl tt

-- A client of another version.
abbrev stranger : Client
stranger = record alice { sidecar_hash = b'y' ∷ [] }

join_refused_example :
    (serve server 7 local (pos 2) (send_join (request_of stranger))
      ≡ ok server ((7, join_reject hash_invalid) ∷ []))
    × ((step env stranger game (received (some (got_join_reject (some hash_invalid)) ∷ []))
          ≡ failed (record (start stranger game) {
            client = record stranger { conn = none };
            calls = on_error sce_hash_invalid ∷ close_connection 5 ∷ [];
          }))
        × (sce_hash_invalid ≢ sce_unknown))
unfolding Client.init Server.init clear register_to_wait bytes_eq
join_refused_example =
    join_refused env stranger game server identity 7 local (pos 2) 5 refl refl refl refl
      (λ e. ground (arith, e))

abbrev full_table : Server
full_table = record server { clients = newcomer alice identity 7 local ∷ [] }

abbrev acknowledged_number : ℤ
acknowledged_number =
    (acknowledged alice game (readied full_table side0 (pos 3))
      (pos 3)).outstanding_ready_request_number

ready_acknowledged_example :
    (serve full_table 7 local (pos 3) send_ready
      ≡ ok
          (readied full_table side0 (pos 3))
          (broadcast full_table.clients (snapshot (readied full_table side0 (pos 3)))))
    × (acknowledged_number ≡ negsuc 0)
unfolding Client.init Server.init clear bytes_eq is_all_ready
ready_acknowledged_example =
    ready_acknowledged alice game full_table 7 side0 local 3 identity refl
      (first (newcomer alice identity 7 local) [] refl refl)

-- Two players whose clients and relays are up.
abbrev bob_identity : ConnectionId
bob_identity = record { host = b'h' ∷ []; user = b'9' ∷ [] }

abbrev bob : Client
bob = record alice { cid = bob_identity }

abbrev bob_seat : SessionMember
bob_seat = newcomer bob bob_identity 9 local

abbrev both_seated : Server
both_seated = record server {
  clients = newcomer alice identity 7 local ∷ bob_seat ∷ [];
  cid_map = (7, identity) ∷ (9, bob_identity) ∷ [];
}

abbrev idle_relay : GgpoRelay
idle_relay = record {
  active = false;
  winsock_init = false;
  local_ggpo_port = 0;
  has_client = false;
  peers = [];
  stats = record { outbound_frames = 0; outbound_bytes = 0; inbound_frames = 0; inbound_bytes = 0 };
}

-- A system that gives the sockets 1, 2, … to the ports from 40000 to 40002.
abbrev winsock : Winsock
winsock = record {
  startup_ok = true;
  bind_port = λ p. if ltb 40002 p then none else some (p - 39999);
}

abbrev bob_at_table : Client
bob_at_table = record bob {
  lobby_data = record server.lobby_data { members = members_of both_seated.clients };
}

abbrev bobs_relay : GgpoRelay
unfolding GgpoRelay.start ensure_winsock GgpoRelay.reset start_loop create_virtual_peer conn_id_eq
    bytes_eq close_sockets
bobs_relay = (GgpoRelay.start winsock idle_relay 7000 (some bob_at_table)).relay

abbrev datagram : Incoming
datagram = record {
  conn = 7;
  message_number = pos 8;
  peer_addr = some local;
  body = to_server (send_ggpo_frame (frame identity bob_identity (b'!' ∷ [])));
}

abbrev strangers_peer : VirtualPeer
strangers_peer = record {
  conn_id = record { host = b'h' ∷ []; user = b'0' ∷ [] };
  sock = some 4;
  virtual_port = 40001;
}

abbrev alices_peer : VirtualPeer
alices_peer = record { conn_id = identity; sock = some 1; virtual_port = 40000 }

-- Bob's relay, with a peer in front of Alice's.
abbrev two_peers : GgpoRelay
two_peers = record idle_relay {
  active = true;
  local_ggpo_port = 7000;
  peers = strangers_peer ∷ alices_peer ∷ [];
}
