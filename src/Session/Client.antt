-- ===== src/Session/Client.antt =====
-- src/session/sf4e__SessionClient.cxx: the client of the lobby server, which also compares the
-- checkpoints of the two players' games. The networking library appears as the requests sent, with
-- the results of Send given; what the callbacks and other components do is listed as calls.
pub mod Step
pub mod Events
pub mod Buffers
pub mod Desync
pub mod Hashes
pub mod Detection
use sf4_netplay_launcher.Prelude.{
  ℕ, ◌+◌, ◌%◌, ◌^◌, Bool, true, false, not, ◌&&◌, ◌||◌, Option, none, some, List, [], ◌∷◌, ◌++◌,
  Bytes, bytes_eq, length, leb, ◌==◌, if◌then◌else◌,
}
use sf4_netplay_launcher.Prelude.Int.{ℤ, pos, negsuc, eqz, ltz, add_nat}
use sf4_netplay_launcher.Prelude.FrameMap.{FrameMap, find, emplace, assign, erase, erase_first}
use sf4_netplay_launcher.Session.Protocol.{
  ConnectionId, conn_id_eq, MemberData, LobbyData, MatchData, CharaConditions, JoinResult, join_ok,
  request_invalid, lobby_full, name_taken, hash_invalid, JoinRequest, Settings, null_lobby,
}
use sf4_netplay_launcher.Checkpoints.{
  Snapshot, same_snapshot, SnapshotMeta, HashCheckpoint, Simulation, hash_checkpoint_age_frames,
}

-- BattleHashV2.
pub record BattleHash : Type 0 where
  pub frame_idx : ℤ
  pub overall : ℕ
  pub flow : ℕ
  pub chara0 : ℕ
  pub chara1 : ℕ
  pub from_player : Bool

-- BattleGgpoFrame.
pub record GgpoFrame : Type 0 where
  pub src : ConnectionId
  pub dest : ConnectionId
  pub payload : Bytes

pub record GgpoTunnelStats : Type 0 where
  pub send_count : ℕ
  pub send_bytes : ℕ
  pub recv_count : ℕ
  pub recv_bytes : ℕ

-- `conn` is `none` for k_HSteamNetConnection_Invalid.
pub record Client : Type 0 where
  pub name : Bytes
  pub lobby_data : LobbyData
  pub match_data : MatchData
  pub outstanding_ready_request_number : ℤ
  pub snapshots_enabled : Bool
  pub sidecar_hash : Bytes
  pub ggpo_port : ℕ
  pub pending_remote_snapshots : FrameMap Snapshot
  pub pending_remote_hashes : FrameMap BattleHash
  pub cid : ConnectionId
  pub is_connected : Bool
  pub conn : Option ℕ
  pub ggpo_tunnel_stats : GgpoTunnelStats
  pub punch_go_received : Bool

pub data ErrorType : Type 0 where
  sce_unknown sce_hash_invalid sce_lobby_full sce_name_taken sce_request_invalid : ErrorType

-- A message from the server after parsing, as in Session/Protocol: `none` where `get_to` throws.
pub data Message : Type 0 where
  got_no_json got_no_type got_all_ready got_synced got_punch_go got_forward got_other : Message
  got_hello_resp : Option ConnectionId → Message
  got_join_reject : Option JoinResult → Message
  got_data_update : Option (LobbyData × MatchData) → Message
  got_snapshot : Option Snapshot → Message
  got_hash : Option BattleHash → Message
  got_ggpo_frame : Option GgpoFrame → Message

-- What the client sends.
pub data Request : Type 0 where
  send_hello send_ready send_reset send_loaded send_punch_ready : Request
  send_join : JoinRequest → Request
  send_results : ℤ → Request
  send_settings : Settings → Request
  send_env : ℕ → Request
  send_chara : CharaConditions → Request
  send_stage : ℤ → Request
  send_snapshot : Snapshot → Request
  send_hash : BattleHash → Request
  send_ggpo_frame : GgpoFrame → Request

-- What the client calls: its callbacks, the closing of a connection, the relay of GGPO's datagrams
-- (GgpoRelay::InjectFromPeer), and the alerts and HandleControlPlaneLoss of the facade.
pub data Call : Type 0 where
  on_error : ErrorType → Call
  on_ready on_battle_synced push_alert control_plane_loss : Call
  close_connection : ℕ → Call
  inject_from_peer : ConnectionId → Bytes → Call

-- Whether the k-th Send of a call gives k_EResultOK, whether the environment asks for strict
-- termination, and the length of a frame as JSON text.
pub record Env : Type 0 where
  pub send_ok : ℕ → Bool
  pub strict_desync : Bool
  pub dump_length : GgpoFrame → ℕ

-- The client, the game, and what was sent and called since the function was entered.
pub record Turn : Type 0 where
  pub client : Client
  pub game : Simulation
  pub sent : List Request
  pub calls : List Call

abbrev pub send : Turn → Request → Turn
send t r = record t { sent = t.sent ++ r ∷ [] }

abbrev pub call : Turn → Call → Turn
call t c = record t { calls = t.calls ++ c ∷ [] }

abbrev pub with_client : Turn → Client → Turn
with_client t c = record t { client = c }

-- RS_ISLEAVING is written where `is_over` holds.
abbrev pub leave_if : Bool → Simulation → Simulation
leave_if is_over g = record g { is_leaving = is_over || g.is_leaving }

-- The loop of IsLocalPlayer over the first two members.
unfoldable pub is_player : List MemberData → ConnectionId → Bool
is_player [] cid = false
is_player (a ∷ []) cid = conn_id_eq a.conn_id cid
is_player (a ∷ b ∷ rest) cid = conn_id_eq a.conn_id cid || conn_id_eq b.conn_id cid

abbrev pub is_local_player : Client → Bool
is_local_player c = is_player c.lobby_data.members c.cid

unfoldable pub report_hash_mismatch :
    Env → Client → Simulation → HashCheckpoint → BattleHash → Simulation
report_hash_mismatch env c g local remote =
    if local.hashes.overall == remote.overall
    then g
    else leave_if (env.strict_desync && remote.from_player && is_local_player c) g

abbrev pub error_of : JoinResult → ErrorType
error_of hash_invalid = sce_hash_invalid
error_of lobby_full = sce_lobby_full
error_of name_taken = sce_name_taken
error_of request_invalid = sce_request_invalid
error_of join_ok = sce_unknown

-- The constructor; the members that it leaves unset are arguments.
unfoldable pub init : Bytes → Bytes → ℕ → MatchData → ConnectionId → Bool → Client
init sidecar_hash name ggpo_port match_data cid snapshots_enabled = record {
  name = name;
  lobby_data = null_lobby;
  match_data = match_data;
  outstanding_ready_request_number = negsuc 0;
  snapshots_enabled = snapshots_enabled;
  sidecar_hash = sidecar_hash;
  ggpo_port = ggpo_port;
  pending_remote_snapshots = [];
  pending_remote_hashes = [];
  cid = cid;
  is_connected = false;
  conn = none;
  ggpo_tunnel_stats = record { send_count = 0; send_bytes = 0; recv_count = 0; recv_bytes = 0 };
  punch_go_received = false;
}
