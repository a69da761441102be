-- ===== src/Session/Joining.antt =====
-- The client and the server of src/session, from the server's greeting to the first update.
use sf4_netplay_launcher.Prelude.{
  ℕ, ◌≡◌, ◌≢◌, refl, ◌∙◌, ap, true, false, none, some, ◌∷◌, [], map, List, ◌++◌, All, length, ltb,
  leb, bytes_eq, arith,
}
use sf4_netplay_launcher.Prelude.Int.{ℤ}
use sf4_netplay_launcher.Session.Protocol.{
  ConnectionId, conn_id_eq, JoinResult, join_ok, request_invalid, lobby_full, name_taken,
  hash_invalid, JoinRequest, join_request,
}
use sf4_netplay_launcher.Session.Client.{
  Client, sce_unknown, got_hello_resp, got_join_reject, got_data_update, send_join, on_error,
  close_connection, Env, is_player, is_local_player, error_of,
}
use sf4_netplay_launcher.Session.Client.Step.{
  start, handle, reject, take_identity, update_data, loop, failed, step, poll_messages, received,
}
use sf4_netplay_launcher.Session.Protocol.LobbyIds.{conn_id_eq_refl}
use sf4_netplay_launcher.Session.Wire.{to_server, read_member, read_lobby, serve}
use sf4_netplay_launcher.Session.Server.{
  SessionMember, Server, PeerAddr, peer_addr_str, broadcast, lookup, register_to_wait, has_name,
  join_reject,
}
use sf4_netplay_launcher.Session.Server.Step.{Outcome, ok, snapshot, members_of}
use sf4_netplay_launcher.Session.Server.Handle
use sf4_netplay_launcher.Session.Server.Step
use sf4_netplay_launcher.Checkpoints.{Simulation}

abbrev pub request_of : Client → JoinRequest
request_of c = record { sidecar_hash = c.sidecar_hash; username = c.name; port = c.ggpo_port }

-- What the client sends when it learns its identity.
greeted-sent :
    (c : Client) (g : Simulation) (cid : ConnectionId)
    → (handle (start c g) (got_hello_resp (some cid))).sent ≡ send_join (request_of c) ∷ []
unfolding handle take_identity
greeted-sent c g cid = refl

abbrev pub newcomer : Client → ConnectionId → ℕ → PeerAddr → SessionMember
newcomer c cid conn addr = record {
  member = record {
    conn_id = cid;
    name = c.name;
    ip = peer_addr_str addr;
    port = c.ggpo_port;
    flags = 0;
  };
  conn = conn;
}

abbrev pub joined : Server → Client → ConnectionId → ℕ → PeerAddr → Server
joined s c cid conn addr = record s {
  clients = s.clients ++ newcomer c cid conn addr ∷ [];
  data_dirty = false;
}

registers :
    (s : Server) (c : Client) (cid : ConnectionId) (conn : ℕ) (addr : PeerAddr)
    → bytes_eq c.sidecar_hash s.sidecar_hash ≡ true
    → leb 4 (length s.clients) ≡ false
    → has_name c.name s.clients ≡ false
    → register_to_wait s conn (request_of c) addr cid
      ≡ (record s { clients = s.clients ++ newcomer c cid conn addr ∷ [] }, join_ok)
unfolding register_to_wait
registers s c cid conn addr h l m = rw (h, l, m) refl

-- What the server's turn does with the result of RegisterToWait.
abbrev concluded : Server → ℕ → Server × JoinResult → Handle.Turn
concluded s conn p = elim p.1 [
  | join_ok ↦ Handle.dirty (Step.start s) p.0
  | reason ↦ Handle.emit (Step.start s) ((conn, join_reject reason) ∷ [])
]

serve-join :
    (s : Server) (c : Client) (cid : ConnectionId) (conn : ℕ) (addr : PeerAddr) (n : ℤ)
    → lookup conn s.cid_map ≡ some cid
    → serve s conn addr n (send_join (request_of c))
      ≡ Step.finish (concluded s conn (register_to_wait s conn (request_of c) addr cid))
unfolding Step.step Step.loop Handle.handle Handle.dispatch Handle.join
serve-join s c cid conn addr n k = rw k refl

serve-joined :
    (s : Server) (c : Client) (cid : ConnectionId) (conn : ℕ) (addr : PeerAddr) (n : ℤ)
    → lookup conn s.cid_map ≡ some cid
    → bytes_eq c.sidecar_hash s.sidecar_hash ≡ true
    → leb 4 (length s.clients) ≡ false
    → has_name c.name s.clients ≡ false
    → serve s conn addr n (send_join (request_of c))
      ≡ ok
          (joined s c cid conn addr)
          (broadcast (joined s c cid conn addr).clients (snapshot (joined s c cid conn addr)))
unfolding Step.finish Step.flush_data Step.flush_ready Step.flush_synced
serve-joined s c cid conn addr n k h l m =
    serve-join s c cid conn addr n k
    ∙ ap (λ p. Step.finish (concluded s conn p)) (registers s c cid conn addr h l m)

concluded_refusal :
    (s : Server) (conn : ℕ) (reason : JoinResult)
    → s.data_dirty ≡ false
    → reason ≢ join_ok
    → Step.finish (concluded s conn (s, reason)) ≡ ok s ((conn, join_reject reason) ∷ [])
unfolding Step.finish Step.flush_data Step.flush_ready Step.flush_synced
concluded_refusal s conn join_ok d x = absurd (x refl)
concluded_refusal s conn request_invalid d x = rw d refl
concluded_refusal s conn lobby_full d x = rw d refl
concluded_refusal s conn name_taken d x = rw d refl
concluded_refusal s conn hash_invalid d x = rw d refl

-- Nobody in the lobby holds the identity.
abbrev pub Fresh : ConnectionId → SessionMember → Type 0
Fresh cid m = conn_id_eq m.member.conn_id cid ≡ false

is_player_last :
    (ms : List SessionMember) (m : SessionMember)
    → All (Fresh m.member.conn_id) ms
    → is_player (map read_member (members_of (ms ++ m ∷ []))) m.member.conn_id ≡ ltb (length ms) 2
unfolding is_player
is_player_last [] m h = conn_id_eq_refl m.member.conn_id
is_player_last (a ∷ []) m h = rw (h.0, conn_id_eq_refl m.member.conn_id) refl
is_player_last (a ∷ b ∷ ms) m h = rw (h.0, h.1.0) (ground arith)

-- The client after the update for `t`, the identity known.
abbrev pub informed : Client → Simulation → ConnectionId → Server → Client
informed c g cid t =
    (handle (handle (start c g) (got_hello_resp (some cid))) (
      got_data_update (
        some (
          read_lobby (record t.lobby_data { members = members_of t.clients }),
          t.match_data,
        )))).client

-- A client that the server greeted and that asks to join, with the server's hash, to a lobby with room, under a name that is free there: the server sends all clients, the newcomer behind the others, one and the same update; with it the newcomer has the server's lobby, its members and its match, and he takes himself for a player exactly if at most one client was there before him.
pub join_accepted :
    (c : Client) (g : Simulation) (s : Server) (cid : ConnectionId) (conn : ℕ) (addr : PeerAddr)
    (n : ℤ)
    → lookup conn s.cid_map ≡ some cid
    → bytes_eq c.sidecar_hash s.sidecar_hash ≡ true
    → leb 4 (length s.clients) ≡ false
    → has_name c.name s.clients ≡ false
    → All (Fresh cid) s.clients
    → let t = joined s c cid conn addr in
      let u = informed c g cid t in
      (map to_server (handle (start c g) (got_hello_resp (some cid))).sent
        ≡ join_request (some (request_of c)) ∷ [])
      × ((serve s conn addr n (send_join (request_of c))
            ≡ ok t (broadcast (s.clients ++ newcomer c cid conn addr ∷ []) (snapshot t)))
          × ((u.lobby_data
                ≡ read_lobby (record s.lobby_data {
                  members = members_of (s.clients ++ newcomer c cid conn addr ∷ []);
                }))
              × ((u.match_data ≡ s.match_data) × (is_local_player u ≡ ltb (length s.clients) 2))))
unfolding handle take_identity update_data
join_accepted c g s cid conn addr n k h l m f = (
  refl,
  (
    serve-joined s c cid conn addr n k h l m,
    (refl, (refl, is_player_last s.clients (newcomer c cid conn addr) f)),
  ),
)

register_refusal :
    (s : Server) (conn : ℕ) (request : JoinRequest) (addr : PeerAddr) (cid : ConnectionId)
    → (register_to_wait s conn request addr cid).1 ≢ join_ok
    → (register_to_wait s conn request addr cid).0 ≡ s
unfolding register_to_wait
register_refusal s conn request addr cid h = ground (arith, h)

error_of-known : (reason : JoinResult) → reason ≢ join_ok → error_of reason ≢ sce_unknown
error_of-known reason h = ground (arith, h)

-- A request to join that RegisterToWait refuses changes nothing on a server without changes to announce, and is answered by the reason; with that answer the Step of the client fails, after it has called OnError with the code of the reason, which is not the code for an unknown one, and given up the connection.
pub join_refused :
    (env : Env) (c : Client) (g : Simulation) (s : Server) (cid : ConnectionId) (conn : ℕ)
    (addr : PeerAddr) (n : ℤ) (own_conn : ℕ)
    → lookup conn s.cid_map ≡ some cid
    → s.data_dirty ≡ false
    → c.conn ≡ some own_conn
    → c.is_connected ≡ true
    → (register_to_wait s conn (request_of c) addr cid).1 ≢ join_ok
    → let reason = (register_to_wait s conn (request_of c) addr cid).1 in
      (serve s conn addr n (send_join (request_of c)) ≡ ok s ((conn, join_reject reason) ∷ []))
      × ((step env c g (received (some (got_join_reject (some reason)) ∷ []))
            ≡ failed (record (start c g) {
              client = record c { conn = none };
              calls = on_error (error_of reason) ∷ close_connection own_conn ∷ [];
            }))
          × (error_of reason ≢ sce_unknown))
unfolding step poll_messages loop reject
join_refused env c g s cid conn addr n own_conn k d o i x = (
  serve-join s c cid conn addr n k
      ∙ ap (λ t. Step.finish (concluded s conn (t, reason)))
          (register_refusal s conn (request_of c) addr cid x)
      ∙ concluded_refusal s conn reason d x,
  (rw (o, i) refl, error_of-known reason x),
)
  where
    reason : JoinResult
    reason = (register_to_wait s conn (request_of c) addr cid).1
