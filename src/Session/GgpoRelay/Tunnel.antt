-- ===== src/Session/GgpoRelay/Tunnel.antt =====
-- A datagram of GGPO through src/session: the relay of one client, the server, the other client.
use sf4_netplay_launcher.Prelude.{ℕ, Option, none, some, List, [], ◌∷◌, if◌then◌else◌, Bytes}
use sf4_netplay_launcher.Session.Protocol.{ConnectionId, conn_id_eq}
use sf4_netplay_launcher.Session.Client.{Client, GgpoFrame}
use sf4_netplay_launcher.Session.Client
use sf4_netplay_launcher.Session.Server.{Server, SessionMember}
use sf4_netplay_launcher.Session.GgpoRelay.{GgpoRelay}

-- The connection of the first client with an identity.
abbrev pub conn_of : List SessionMember → ConnectionId → Option ℕ
conn_of [] cid = none
conn_of (c ∷ cs) cid = if conn_id_eq c.member.conn_id cid then some c.conn else conn_of cs cid

-- The frame that carries a datagram.
abbrev pub frame : ConnectionId → ConnectionId → Bytes → GgpoFrame
frame src dest payload = record { src = src; dest = dest; payload = payload }
