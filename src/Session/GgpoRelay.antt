-- ===== src/Session/GgpoRelay.antt =====
-- src/session/sf4e__GgpoRelay.cxx: GGPO's datagrams go through the session. Each other member of the
-- lobby has a virtual port on the loopback address, to which the local GGPO sends what is for him.
pub mod Start
pub mod Tunnel
use sf4_netplay_launcher.Prelude.{
  ℕ, ◌+◌, ◌%◌, ◌^◌, Bool, true, false, not, ◌&&◌, ◌||◌, Option, none, some, List, [], ◌∷◌, ◌++◌,
  Bytes, length, map, ◌==◌, if◌then◌else◌,
}
use sf4_netplay_launcher.Session.Protocol.{ConnectionId, conn_id_eq, MemberData}
use sf4_netplay_launcher.Session.Client.{Client, Env, Turn}
use sf4_netplay_launcher.Session.Client.Events.{send_ggpo}

-- `sock` is `none` for INVALID_SOCKET.
pub record VirtualPeer : Type 0 where
  pub conn_id : ConnectionId
  pub sock : Option ℕ
  pub virtual_port : ℕ

pub record TransportStats : Type 0 where
  pub outbound_frames : ℕ
  pub outbound_bytes : ℕ
  pub inbound_frames : ℕ
  pub inbound_bytes : ℕ

-- `has_client` says whether the pointer to the client is not null.
pub record GgpoRelay : Type 0 where
  pub active : Bool
  pub winsock_init : Bool
  pub local_ggpo_port : ℕ
  pub has_client : Bool
  pub peers : List VirtualPeer
  pub stats : TransportStats

-- What the system does: whether WSAStartup succeeds, and the socket bound to a loopback port, `none`
-- if it cannot be made or bound.
pub record Winsock : Type 0 where
  pub startup_ok : Bool
  pub bind_port : ℕ → Option ℕ

abbrev pub ggpo_relay_virtual_base : ℕ
ggpo_relay_virtual_base = 40000

unfoldable pub ensure_winsock : Winsock → GgpoRelay → GgpoRelay × Bool
ensure_winsock os r =
    if r.winsock_init || os.startup_ok then (record r { winsock_init = true }, true) else (r, false)

-- The sockets that CloseSockets closes.
unfoldable pub close_sockets : List VirtualPeer → List ℕ
close_sockets [] = []
close_sockets (p ∷ ps) = elim p.sock [ none ↦ close_sockets ps | some s ↦ s ∷ close_sockets ps ]

-- Reset; the sockets closed are those of the peers.
unfoldable pub reset : GgpoRelay → GgpoRelay
reset r = record r { active = false; local_ggpo_port = 0; has_client = false; peers = [] }

-- The relay, the sockets closed so far, and the result.
pub record Started : Type 0 where
  pub relay : GgpoRelay
  pub closed : List ℕ
  pub is_ok : Bool

-- `none` if no socket can be bound to the port.
unfoldable pub create_virtual_peer : Winsock → GgpoRelay → ConnectionId → ℕ → Option GgpoRelay
create_virtual_peer os r conn_id virtual_port =
    let (s, ready) = ensure_winsock os r in
    if not ready then none else elim (os.bind_port virtual_port) [
      | none ↦ none
      | some sock ↦ some (record s {
        peers =
            s.peers
            ++ record { conn_id = conn_id; sock = some sock; virtual_port = virtual_port } ∷ [];
      })
    ]

-- The loop over the members; a port is a uint16.
unfoldable pub start_loop :
    Winsock → GgpoRelay → List ℕ → ConnectionId → List MemberData → ℕ → Started
start_loop os r closed cid [] next = record { relay = r; closed = closed; is_ok = true }
start_loop os r closed cid (m ∷ ms) next = elim (conn_id_eq m.conn_id cid) [
  | true ↦ start_loop os r closed cid ms next
  | false ↦ elim (create_virtual_peer os r m.conn_id next) [
    | none ↦ record { relay = reset r; closed = closed ++ close_sockets r.peers; is_ok = false }
    | some s ↦ start_loop os s closed cid ms ((next + 1) % 2 ^ 16)
  ]
]

unfoldable pub start : Winsock → GgpoRelay → ℕ → Option Client → Started
start os r local_ggpo_port none = record {
  relay = reset r;
  closed = close_sockets r.peers;
  is_ok = false;
}
start os r local_ggpo_port (some client) =
    let (s, ready) = ensure_winsock os (reset r) in
    if (local_ggpo_port == 0) || not ready
    then record { relay = reset r; closed = close_sockets r.peers; is_ok = false }
    else start_loop os
        (record s { local_ggpo_port = local_ggpo_port; has_client = true; active = true })
        (close_sockets r.peers) client.cid client.lobby_data.members ggpo_relay_virtual_base

unfoldable pub find_peer : List VirtualPeer → ConnectionId → Option VirtualPeer
find_peer [] conn_id = none
find_peer (p ∷ ps) conn_id =
    let rest = find_peer ps conn_id in if conn_id_eq p.conn_id conn_id then some p else rest

-- The port of 127.0.0.1.
unfoldable pub get_remote_endpoint : GgpoRelay → ConnectionId → Option ℕ
get_remote_endpoint r remote_conn =
    if r.active
    then elim (find_peer r.peers remote_conn) [ none ↦ none | some p ↦ some p.virtual_port ]
    else none

abbrev pub count_inbound : GgpoRelay → ℕ → GgpoRelay
count_inbound r len = record r {
  stats = record r.stats {
    inbound_frames = (r.stats.inbound_frames + 1) % 2 ^ 64;
    inbound_bytes = (r.stats.inbound_bytes + len) % 2 ^ 64;
  };
}

abbrev pub count_outbound : GgpoRelay → ℕ → GgpoRelay
count_outbound r len = record r {
  stats = record r.stats {
    outbound_frames = (r.stats.outbound_frames + 1) % 2 ^ 64;
    outbound_bytes = (r.stats.outbound_bytes + len) % 2 ^ 64;
  };
}

-- A datagram from a socket to a loopback port.
pub record Loopback : Type 0 where
  pub sock : ℕ
  pub port : ℕ
  pub payload : Bytes

-- The first peer with the identity and a valid socket.
unfoldable pub inject_to : List VirtualPeer → ConnectionId → Option ℕ
inject_to [] src = none
inject_to (p ∷ ps) src =
    let rest = inject_to ps src in
    elim p.sock [ none ↦ rest | some s ↦ if conn_id_eq p.conn_id src then some s else rest ]

unfoldable pub inject_from_peer : GgpoRelay → ConnectionId → Bytes → GgpoRelay × List Loopback
inject_from_peer r src [] = (r, [])
inject_from_peer r src (b ∷ bs) = if not r.active then (r, []) else elim (inject_to r.peers src) [
  | none ↦ (r, [])
  | some s ↦ (
    count_inbound r (length (b ∷ bs)),
    record { sock = s; port = r.local_ggpo_port; payload = b ∷ bs } ∷ [],
  )
]

-- The inner loop of Pump, on what recvfrom returns until it fails; an empty datagram ends it too.
unfoldable pub pump_socket : Env → GgpoRelay → Turn → ConnectionId → List Bytes → GgpoRelay × Turn
pump_socket env r t conn_id [] = (r, t)
pump_socket env r t conn_id ([] ∷ rest) = (r, t)
pump_socket env r t conn_id ((b ∷ bs) ∷ rest) =
    pump_socket env (count_outbound r (length (b ∷ bs))) (send_ggpo env t conn_id (b ∷ bs)).0
      conn_id rest

-- The loop over the peers; `inbox` is what arrived at each socket.
unfoldable pub pump_peers :
    Env → GgpoRelay → Turn → (ℕ → List Bytes) → List VirtualPeer → GgpoRelay × Turn
pump_peers env r t inbox [] = (r, t)
pump_peers env r t inbox (p ∷ ps) =
    let (s, u) = elim p.sock as (λ o. GgpoRelay × Turn) [
      | none ↦ (r, t)
      | some sock ↦ pump_socket env r t p.conn_id (inbox sock)
    ] in
    pump_peers env s u inbox ps

unfoldable pub pump : Env → GgpoRelay → Turn → (ℕ → List Bytes) → GgpoRelay × Turn
pump env r t inbox =
    if not r.active || not r.has_client then (r, t) else pump_peers env r t inbox r.peers
