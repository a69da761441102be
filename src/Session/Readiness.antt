-- ===== src/Session/Readiness.antt =====
-- A player's ready request, from his client in src/session through the server and back.
use mathlib.Core.List.{append-nil}
use sf4_netplay_launcher.Prelude.{
  ℕ, ◌≡◌, refl, true, false, some, ◌∷◌, [], map, List, ◌++◌, Bytes, bytes_eq, ◌==◌, Bool-cases, inl,
  inr, if◌then◌else◌,
}
use sf4_netplay_launcher.Prelude.Int.{ℤ, pos, negsuc, eqz_refl}
use sf4_netplay_launcher.Session.Protocol.{ConnectionId, MatchData, is_all_ready}
use sf4_netplay_launcher.Session.Client.{Client, got_data_update, send_ready}
use sf4_netplay_launcher.Session.Client.Step.{
  start, handle, ready_number, settle_ready, update_data,
}
use sf4_netplay_launcher.Session.Client.Events
use sf4_netplay_launcher.Session.Wire.{read_member, read_lobby, serve}
use sf4_netplay_launcher.Session.Server.{
  SessionMember, Server, PeerAddr, lobby_all_ready, Packet, broadcast, lookup, Side, side0, side1,
  side_of,
}
use sf4_netplay_launcher.Session.Server.Step.{ok, snapshot, members_of}
use sf4_netplay_launcher.Session.Server.Handle
use sf4_netplay_launcher.Session.Server.Step
use sf4_netplay_launcher.Checkpoints.{Simulation}

-- The place of the player `name`, on connection `conn`, among the clients; no two have one name.
pub data Seated (conn : ℕ) (name : Bytes) : List SessionMember → Side → Type 0 where
  first :
      (a : SessionMember) (rest : List SessionMember)
      → (a.conn == conn) ≡ true
      → bytes_eq a.member.name name ≡ true
      → Seated conn name (a ∷ rest) side0
  second :
      (a b : SessionMember) (rest : List SessionMember)
      → (a.conn == conn) ≡ false
      → bytes_eq a.member.name name ≡ false
      → (b.conn == conn) ≡ true
      → bytes_eq b.member.name name ≡ true
      → Seated conn name (a ∷ b ∷ rest) side1

side_of-Seated :
    {conn : ℕ} {name : Bytes} {clients : List SessionMember} {i : Side}
    → Seated conn name clients i
    → side_of clients conn ≡ some i
unfolding side_of
side_of-Seated (first a [] h k) = rw h refl
side_of-Seated (first a (b ∷ rest) h k) = rw h refl
side_of-Seated (second a b rest h k h' k') = rw (h, h') refl

ready_number-Seated :
    {conn : ℕ} {name : Bytes} {clients : List SessionMember} {i : Side}
    → Seated conn name clients i
    → (d : MatchData) (n : ℤ)
    → ready_number (map read_member (members_of clients)) name (Handle.put_ready d i n) ≡ some n
unfolding ready_number
ready_number-Seated (first a [] h k) d n = rw k refl
ready_number-Seated (first a (b ∷ rest) h k) d n = rw k refl
ready_number-Seated (second a b rest h k h' k') d n = rw (k, k') refl

-- The server once the player on side `i` is ready, by message number `n`.
abbrev pub readied : Server → Side → ℤ → Server
readied s i n = record s { match_data = Handle.put_ready s.match_data i n; data_dirty = false }

abbrev all_ready_packets : Server → List Packet
all_ready_packets t = if is_all_ready t.match_data then broadcast t.clients lobby_all_ready else []

serve-ready :
    (s : Server) (conn : ℕ) (name : Bytes) (i : Side) (addr : PeerAddr) (n : ℤ) (cid : ConnectionId)
    → lookup conn s.cid_map ≡ some cid
    → side_of s.clients conn ≡ some i
    → serve s conn addr n send_ready
      ≡ ok
          (readied s i n)
          (broadcast s.clients (snapshot (readied s i n)) ++ all_ready_packets (readied s i n))
unfolding Step.step Step.loop Handle.handle Handle.dispatch Handle.player_only Step.finish
    Step.flush_data Step.flush_ready Step.flush_synced
serve-ready s conn name i addr n cid k h =
    elim (Bool-cases (is_all_ready (Handle.put_ready s.match_data i n))) [
      | inl e ↦ rw (k, h, e) refl
      | inr e ↦ rw (k, h, e, append-nil (broadcast s.clients (snapshot (readied s i n)))) refl
    ]

-- The client whose ready request has number `n`, after the update that the server then sends.
abbrev pub acknowledged : Client → Simulation → Server → ℤ → Client
acknowledged c g t n =
    (handle (start (Events.lobby_ready (start c g) (some n)).client g) (
      got_data_update (
        some (
          read_lobby (record t.lobby_data { members = members_of t.clients }),
          t.match_data,
        )))).client

-- A player who is ready is told so: the server takes the number of his request as his ready number, sends the update to all clients, and the word that all are ready if the other player is ready too; after that update the request is no longer outstanding in the player's client.
pub ready_acknowledged :
    (c : Client) (g : Simulation) (s : Server) (conn : ℕ) (i : Side) (addr : PeerAddr) (n : ℕ)
    (cid : ConnectionId)
    → lookup conn s.cid_map ≡ some cid
    → Seated conn c.name s.clients i
    → (serve s conn addr (pos n) send_ready
        ≡ ok (readied s i (pos n)) (
            broadcast s.clients (snapshot (readied s i (pos n)))
            ++ all_ready_packets (readied s i (pos n))))
      × ((acknowledged c g (readied s i (pos n)) (pos n)).outstanding_ready_request_number
          ≡ negsuc 0)
unfolding handle update_data settle_ready Events.lobby_ready
ready_acknowledged c g s conn i addr n cid k seat = (
  serve-ready s conn c.name i addr (pos n) cid k (side_of-Seated seat),
  rw (ready_number-Seated seat s.match_data (pos n), eqz_refl (pos n)) refl,
)
