-- ===== src/Session/Server/Step.antt =====
-- SessionServer::Step of src/session/sf4e__SessionServer.cxx as a whole, and the other entry points.
use sf4_netplay_launcher.Prelude.{
  ℕ, Bool, true, false, Option, none, some, List, [], ◌∷◌, map, ◌==◌, if◌then◌else◌,
}
use sf4_netplay_launcher.Session.Protocol.{MemberData}
use sf4_netplay_launcher.Session.Server.{
  SessionMember, Server, Incoming, Outgoing, data_update, lobby_all_ready, battle_synced, Packet,
  broadcast,
}
use sf4_netplay_launcher.Session.Server.Handle.{Turn, emit, handle}

-- What Step returns: 0 or -1, with the server and the packets sent; or undefined behaviour.
pub data Outcome : Type 0 where
  ok failed : Server → List Packet → Outcome
  undefined : Outcome

abbrev pub members_of : List SessionMember → List MemberData
members_of clients = map (λ (c : SessionMember). c.member) clients

-- The update that every client gets.
abbrev pub snapshot : Server → Outgoing
snapshot s = data_update (record s.lobby_data { members = members_of s.clients }) s.match_data

-- The broadcasts at the end of Step.
unfoldable pub flush_data : Turn → Turn
flush_data t =
    if t.server.data_dirty
    then emit (record t { server = record t.server { data_dirty = false } })
        (broadcast t.server.clients (snapshot t.server))
    else t

unfoldable pub flush_ready : Turn → Turn
flush_ready t = if t.send_all_ready then emit t (broadcast t.server.clients lobby_all_ready) else t

unfoldable pub flush_synced : Turn → Turn
flush_synced t =
    if t.send_battle_synced then emit t (broadcast t.server.clients battle_synced) else t

unfoldable pub finish : Turn → Outcome
finish t = let u = flush_synced (flush_ready (flush_data t)) in ok u.server u.sent

-- The loop over the messages; a null pointer among them ends Step at once.
unfoldable pub loop : Turn → List (Option Incoming) → Outcome
loop t [] = finish t
loop t (none ∷ rest) = failed t.server t.sent
loop t (some m ∷ rest) = elim (handle t m) [ none ↦ undefined | some u ↦ loop u rest ]

-- What ReceiveMessagesOnPollGroup returns: a negative number, or that many messages.
pub data Poll : Type 0 where
  poll_error : Poll
  received : List (Option Incoming) → Poll

abbrev pub start : Server → Turn
start s = record { server = s; sent = []; send_all_ready = false; send_battle_synced = false }

unfoldable pub step : Server → Poll → Outcome
step s poll_error = failed s []
step s (received messages) = loop (start s) messages

-- The states of a connection that the callback tells apart.
pub data ConnectionState : Type 0 where
  closed_by_peer problem_detected_locally connecting other_state : ConnectionState

unfoldable pub erase_client : ℕ → List SessionMember → List SessionMember
erase_client conn [] = []
erase_client conn (c ∷ cs) = if c.conn == conn then cs else c ∷ erase_client conn cs

unfoldable pub has_client : ℕ → List SessionMember → Bool
has_client conn [] = false
has_client conn (c ∷ cs) = if c.conn == conn then true else has_client conn cs

unfoldable pub drop_client : Server → ℕ → Server
drop_client s conn =
    if has_client conn s.clients
    then record s { clients = erase_client conn s.clients; data_dirty = true }
    else s

-- OnSteamNetConnectionStatusChanged; the flag says whether the connection had been connected.
unfoldable pub on_status_changed : Server → ConnectionState → Bool → ℕ → Server
on_status_changed s closed_by_peer true conn = drop_client s conn
on_status_changed s problem_detected_locally true conn = drop_client s conn
on_status_changed s _ _ conn = s

-- Close() clears the clients.
unfoldable pub close : Server → Server
close s = record s { clients = [] }
