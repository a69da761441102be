-- ===== src/Session/Server/Handle.antt =====
-- SessionServer::Step of src/session/sf4e__SessionServer.cxx, and the callback on connections.
use sf4_netplay_launcher.Prelude.{
  ℕ, Bool, true, false, not, ◌&&◌, ◌||◌, Option, none, some, List, [], ◌∷◌, ◌++◌, bytes_eq, ◌==◌,
  if◌then◌else◌,
}
use sf4_netplay_launcher.Prelude.Int.{ℤ}
use sf4_netplay_launcher.Session.Protocol.{
  ConnectionId, conn_id_eq, CharaConditions, MatchData, is_all_ready, join_ok, request_invalid,
  JoinRequest, Settings, Addressed, Body, hello, forward, ggpo_frame, join_request, set_chara,
  set_env, set_stage, report_results, set_settings, lobby_ready, battle_loaded, lobby_reset,
  battle_snapshot, battle_hash, punch_ready,
}
use sf4_netplay_launcher.Session.Server.{
  PeerAddr, SessionMember, Server, Incoming, hello_resp, join_reject, punch_go, forwarded, Packet,
  broadcast, lookup, to_string, Side, side0, side1, side_of, register_to_wait, handle_results,
  reset_lobby_for_rematch, mark_loaded, all_loaded,
}

-- The server, what it has sent since Step was called, and the two flags of Step.
pub record Turn : Type 0 where
  pub server : Server
  pub sent : List Packet
  pub send_all_ready : Bool
  pub send_battle_synced : Bool

abbrev pub emit : Turn → List Packet → Turn
emit t packets = record t { sent = t.sent ++ packets }

-- The state after a change of data.
abbrev pub dirty : Turn → Server → Turn
dirty t s = record t { server = record s { data_dirty = true } }

-- A connection that has no identity yet: only a hello is answered.
unfoldable pub greet : Turn → Incoming → Body → Turn
greet t m hello =
    let cid : ConnectionId = record { host = t.server.identity; user = to_string m.conn } in
    emit (record t { server = record t.server { cid_map = (m.conn, cid) ∷ t.server.cid_map } })
      ((m.conn, hello_resp cid) ∷ [])
greet t m _ = t

-- To the first client with the destination's identity.
unfoldable pub send_to : List SessionMember → ConnectionId → Incoming → List Packet
send_to [] dest m = []
send_to (c ∷ cs) dest m =
    if conn_id_eq c.member.conn_id dest then (c.conn, forwarded m) ∷ [] else send_to cs dest m

-- To every other client.
unfoldable pub send_others : List SessionMember → Incoming → List Packet
send_others [] m = []
send_others (c ∷ cs) m =
    if c.conn == m.conn then send_others cs m else (c.conn, forwarded m) ∷ send_others cs m

-- `frame.src.host == _identity && frame.src.user != std::to_string(conn)`
unfoldable pub is_fraudulent : Server → Incoming → Addressed → Bool
is_fraudulent s m a = bytes_eq a.src.host s.identity && not (bytes_eq a.src.user (to_string m.conn))

unfoldable pub join : Turn → Incoming → ConnectionId → PeerAddr → Option JoinRequest → Turn
join t m cid addr none = emit t ((m.conn, join_reject request_invalid) ∷ [])
join t m cid addr (some request) =
    let (s, result) = register_to_wait t.server m.conn request addr cid in
    elim result [ join_ok ↦ dirty t s | reason ↦ emit t ((m.conn, join_reject reason) ∷ []) ]

-- The request is read first; then the address is dereferenced, which is null for a peer without one.
abbrev pub join_from :
    Turn → Incoming → ConnectionId → Option JoinRequest → Option PeerAddr → Option Turn
join_from t m cid request (some addr) = some (join t m cid addr request)
join_from t m cid none none = some (emit t ((m.conn, join_reject request_invalid) ∷ []))
join_from t m cid (some request) none = none

abbrev pub put_chara : MatchData → Side → CharaConditions → MatchData
put_chara d side0 chara = record d { chara0 = chara }
put_chara d side1 chara = record d { chara1 = chara }

abbrev pub put_ready : MatchData → Side → ℤ → MatchData
put_ready d side0 n = record d { ready0 = n }
put_ready d side1 n = record d { ready1 = n }

abbrev pub with_match : Server → MatchData → Server
with_match s d = record s { match_data = d }

abbrev pub with_settings : Server → Settings → Server
with_settings s r = record s {
  lobby_data = record s.lobby_data {
    edition_select = r.edition_select;
    round_count = r.round_count;
    round_time = r.round_time;
    training_mode = r.training_mode;
  };
}

-- The `go` is sent once both players are ready, and the flags start anew.
abbrev pub punch : Turn → Server → Turn
punch t s =
    if s.punch_ready0 && s.punch_ready1
    then emit (record t { server = record s { punch_ready0 = false; punch_ready1 = false } })
        (broadcast s.clients punch_go)
    else record t { server = s }

abbrev pub put_punch : Server → Side → Server
put_punch s side0 = record s { punch_ready0 = true }
put_punch s side1 = record s { punch_ready1 = true }

abbrev pub load : Turn → ℕ → Turn
load t conn =
    let clients = mark_loaded conn t.server.clients in
    dirty (record t { send_battle_synced = all_loaded clients })
      (record t.server { clients = clients })

abbrev pub ready : Turn → Side → ℤ → Turn
ready t i n =
    let d = put_ready t.server.match_data i n in
    dirty (record t { send_all_ready = t.send_all_ready || is_all_ready d }) (with_match t.server d)

-- The handlers that only the first player, on side 0, may use.
unfoldable pub host_only : Turn → Option Side → Option Server → Turn
host_only t (some side0) (some s) = dirty t s
host_only t _ _ = t

abbrev pub on_some {ℓ κ} : {A : Type ℓ} {B : Type κ} → (A → B) → Option A → Option B
on_some f none = none
on_some f (some a) = some (f a)

-- The handlers that either player may use.
unfoldable pub player_only : Turn → Option Side → Body → Incoming → Turn
player_only t none body m = t
player_only t (some i) (set_chara (some chara)) m =
    dirty t (with_match t.server (put_chara t.server.match_data i chara))
player_only t (some i) (lobby_ready true) m = ready t i m.message_number
player_only t (some i) lobby_reset m = record t { server = reset_lobby_for_rematch t.server }
player_only t (some i) punch_ready m = punch t (put_punch t.server i)
player_only t (some i) _ m = t

-- The `if` chain on the type, for a connection with identity `cid`; `none` is undefined behaviour.
unfoldable pub dispatch : Turn → Incoming → ConnectionId → Body → Option Turn
dispatch t m cid (forward (some a)) = some (emit t (send_to t.server.clients a.dest m))
dispatch t m cid (join_request request) = join_from t m cid request m.peer_addr
dispatch t m cid (set_env seed) = some (
    host_only t (side_of t.server.clients m.conn)
      (on_some (λ (n : ℕ). with_match t.server (record t.server.match_data { rng_seed = n })) seed))
dispatch t m cid (set_stage stage) = some (
    host_only t (side_of t.server.clients m.conn) (
      on_some (λ (n : ℤ). with_match t.server (record t.server.match_data { stage_id = n })) stage))
dispatch t m cid (set_settings settings) =
    some (host_only t (side_of t.server.clients m.conn) (on_some (with_settings t.server) settings))
dispatch t m cid battle_loaded = some (load t m.conn)
dispatch t m cid (report_results (some loser)) = on_some (dirty t) (handle_results t.server loser)
dispatch t m cid battle_snapshot = some (emit t (send_others t.server.clients m))
dispatch t m cid battle_hash = some (emit t (send_others t.server.clients m))
dispatch t m cid (ggpo_frame (some a)) =
    some (if is_fraudulent t.server m a then t else emit t (send_to t.server.clients a.dest m))
dispatch t m cid (set_chara chara) =
    some (player_only t (side_of t.server.clients m.conn) (set_chara chara) m)
dispatch t m cid (lobby_ready read) =
    some (player_only t (side_of t.server.clients m.conn) (lobby_ready read) m)
dispatch t m cid lobby_reset = some (player_only t (side_of t.server.clients m.conn) lobby_reset m)
dispatch t m cid punch_ready = some (player_only t (side_of t.server.clients m.conn) punch_ready m)
dispatch t m cid _ = some t

-- The body of the loop of Step, on one message.
unfoldable pub handle : Turn → Incoming → Option Turn
handle t m = elim (lookup m.conn t.server.cid_map) [
  | none ↦ some (greet t m m.body)
  | some cid ↦ dispatch t m cid m.body
]
