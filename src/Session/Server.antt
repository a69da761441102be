-- ===== src/Session/Server.antt =====
-- src/session/sf4e__SessionServer.cxx: the lobby server. The networking library (sending, accepting
-- and closing connections) appears as the list of packets sent; logging is left out.
pub mod Handle
pub mod Step
pub mod Roster
pub mod Moves
pub mod Lobby
pub mod Results
pub mod Authority
pub mod Tracking
pub mod Convergence
pub mod Identity
pub mod Punch
pub mod Loading
use sf4_netplay_launcher.Prelude.{
  ℕ, zero, suc, ◌+◌, ◌/◌, ◌%◌, Bool, true, false, not, ◌&&◌, Option, none, some, List, [], ◌∷◌,
  ◌++◌, map, Bytes, bytes_eq, length, ltb, leb, ◌==◌, if◌then◌else◌, get_elem?,
}
use sf4_netplay_launcher.Prelude.Int.{ℤ, pos, negsuc}
use sf4_netplay_launcher.Session.Protocol.{
  ConnectionId, conn_id_eq, FixedPoint, MemberData, LobbyData, CharaConditions, MatchData, clear,
  clear_ready, is_all_ready, null_lobby, no_chara, set_loaded, clear_loaded, is_loaded, JoinResult,
  join_ok, request_invalid, lobby_full, name_taken, hash_invalid, JoinRequest, Settings, Addressed,
  Body, not_json, no_type, hello, forward, ggpo_frame, join_request, set_chara, set_env, set_stage,
  report_results, set_settings, lobby_ready, battle_loaded, lobby_reset, battle_snapshot,
  battle_hash, punch_ready, other,
}

pub record SessionMember : Type 0 where
  pub member : MemberData
  pub conn : ℕ

pub record Server : Type 0 where
  pub identity : Bytes
  pub sidecar_hash : Bytes
  pub cid_map : List (ℕ × ConnectionId)
  pub clients : List SessionMember
  pub data_dirty : Bool
  pub lobby_data : LobbyData
  pub match_data : MatchData
  pub punch_ready0 : Bool
  pub punch_ready1 : Bool

abbrev pub max_users : ℕ
max_users = 4

-- The constructor.
unfoldable pub init : Bytes → Bytes → Bool → ℤ → FixedPoint → Server
unfolding clear
init identity sidecar_hash edition_select round_count round_time = record {
  identity = identity;
  sidecar_hash = sidecar_hash;
  cid_map = [];
  clients = [];
  data_dirty = false;
  lobby_data = record null_lobby {
    id = record { host = identity; key = b'1' ∷ [] };
    edition_select = edition_select;
    round_count = round_count;
    round_time = round_time;
  };
  match_data = clear (record {
    ready0 = pos 0;
    ready1 = pos 0;
    chara0 = no_chara;
    chara1 = no_chara;
    stage_id = pos 0;
    rng_seed = 0;
  });
  punch_ready0 = false;
  punch_ready1 = false;
}

-- A SteamNetworkingIPAddr: IsLocalHost, and the text of ToString without the port.
pub record PeerAddr : Type 0 where
  pub is_local_host : Bool
  pub text : Bytes

-- A peer of another kind than an IP address has no address.
pub record Incoming : Type 0 where
  pub conn : ℕ
  pub message_number : ℤ
  pub peer_addr : Option PeerAddr
  pub body : Body

-- `forwarded` is the message itself, serialised anew or copied.
pub data Outgoing : Type 0 where
  hello_resp : ConnectionId → Outgoing
  join_reject : JoinResult → Outgoing
  data_update : LobbyData → MatchData → Outgoing
  lobby_all_ready battle_synced punch_go : Outgoing
  forwarded : Incoming → Outgoing

-- A packet and the connection that it is sent on.
abbrev pub Packet : Type 0
Packet = ℕ × Outgoing

abbrev pub broadcast : List SessionMember → Outgoing → List Packet
broadcast clients msg = map (λ (c : SessionMember). (c.conn, msg)) clients

abbrev pub lookup : ℕ → List (ℕ × ConnectionId) → Option ConnectionId
lookup conn [] = none
lookup conn ((k, cid) ∷ rest) = if k == conn then some cid else lookup conn rest

-- `std::to_string`: `left` more digits at most, in front of those in `out`.
unfoldable pub decimal : ℕ → ℕ → Bytes → Bytes
decimal zero n out = out
decimal (suc left) n out =
    let rest = decimal left (n / 10) ((b'0' + n % 10) ∷ out) in
    if ltb n 10 then (b'0' + n) ∷ out else rest

-- A connection handle is a uint32, of at most 10 digits.
unfoldable pub to_string : ℕ → Bytes
unfolding decimal
to_string conn = decimal 10 conn []

-- A player's side is an index below 2.
pub data Side : Type 0 where
  side0 side1 : Side

-- The loop that looks for the sender among the first two clients; `none` for -1.
unfoldable pub side_of : List SessionMember → ℕ → Option Side
side_of [] conn = none
side_of (a ∷ []) conn = if a.conn == conn then some side0 else none
side_of (a ∷ b ∷ rest) conn =
    if a.conn == conn then some side0 else if b.conn == conn then some side1 else none

unfoldable pub has_name : Bytes → List SessionMember → Bool
has_name name [] = false
has_name name (c ∷ cs) = if bytes_eq c.member.name name then true else has_name name cs

-- The text of the peer's address, empty for the local host.
abbrev pub peer_addr_str : PeerAddr → Bytes
peer_addr_str a = if a.is_local_host then [] else a.text

unfoldable pub register_to_wait :
    Server → ℕ → JoinRequest → PeerAddr → ConnectionId → Server × JoinResult
register_to_wait s conn request addr cid =
    if not (bytes_eq request.sidecar_hash s.sidecar_hash)
    then (s, hash_invalid)
    else if leb max_users (length s.clients)
    then (s, lobby_full)
    else if has_name request.username s.clients
    then (s, name_taken)
    else (
      record s {
        clients =
            s.clients
            ++ record {
              member = record {
                conn_id = cid;
                name = request.username;
                ip = peer_addr_str addr;
                port = request.port;
                flags = 0;
              };
              conn = conn;
            }
              ∷ [];
      },
      join_ok,
    )

abbrev pub remove_at {ℓ} : {A : Type ℓ} → List A → ℕ → List A
remove_at [] i = []
remove_at (x ∷ xs) zero = xs
remove_at (x ∷ xs) (suc i) = x ∷ remove_at xs i

-- `none` is the undefined behaviour of `clients.begin() + loserIndex` out of range.
unfoldable pub handle_results : Server → ℤ → Option Server
unfolding clear
handle_results s (negsuc n) = none
handle_results s (pos i) = elim (get_elem? s.clients i) [
  | none ↦ none
  | some loser ↦ some (record s {
    clients = remove_at (s.clients ++ loser ∷ []) i;
    match_data = clear s.match_data;
  })
]

abbrev pub unload : SessionMember → SessionMember
unload c = record c { member = record c.member { flags = clear_loaded c.member.flags } }

unfoldable pub reset_battle_sync : Server → Server
reset_battle_sync s = record s { clients = map unload s.clients }

unfoldable pub reset_lobby_for_rematch : Server → Server
unfolding reset_battle_sync clear_ready
reset_lobby_for_rematch s =
    let t = reset_battle_sync (record s { match_data = clear_ready s.match_data }) in
    record t { punch_ready0 = false; punch_ready1 = false; data_dirty = true }

-- The loop of MT_BATTLE_LOADED: the sender's flag is set, and the result says whether all are.
unfoldable pub mark_loaded : ℕ → List SessionMember → List SessionMember
mark_loaded conn [] = []
mark_loaded conn (c ∷ cs) =
    (if c.conn == conn
      then record c { member = record c.member { flags = set_loaded c.member.flags } }
      else c)
    ∷ mark_loaded conn cs

unfoldable pub all_loaded : List SessionMember → Bool
all_loaded [] = true
all_loaded (c ∷ cs) = is_loaded c.member.flags && all_loaded cs
