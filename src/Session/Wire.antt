-- ===== src/Session/Wire.antt =====
-- The messages between src/session/sf4e__SessionClient.cxx and sf4e__SessionServer.cxx: what the one
-- sends as the other reads it, after the JSON text in between.
use sf4_netplay_launcher.Prelude.{ℕ, true, Option, none, some, ◌∷◌, [], map}
use sf4_netplay_launcher.Prelude.Int.{ℤ}
use sf4_netplay_launcher.Session.Protocol.{
  MemberData, LobbyData, Body, hello, ggpo_frame, join_request, set_chara, set_env, set_stage,
  report_results, set_settings, lobby_ready, battle_loaded, lobby_reset, battle_snapshot,
  battle_hash, punch_ready,
}
use sf4_netplay_launcher.Session.Client.{
  Message, got_all_ready, got_synced, got_punch_go, got_hello_resp, got_join_reject,
  got_data_update, Request, send_hello, send_ready, send_reset, send_loaded, send_punch_ready,
  send_join, send_results, send_settings, send_env, send_chara, send_stage, send_snapshot,
  send_hash, send_ggpo_frame,
}
use sf4_netplay_launcher.Session.Server.{
  PeerAddr, Outgoing, hello_resp, join_reject, data_update, lobby_all_ready, battle_synced,
  punch_go, forwarded, Server,
}
use sf4_netplay_launcher.Session.Server.Step.{Outcome, step, received}

-- The flags of a member are no part of the JSON text, so they are read as 0.
abbrev pub read_member : MemberData → MemberData
read_member m = record m { flags = 0 }

abbrev pub read_lobby : LobbyData → LobbyData
read_lobby l = record l { members = map read_member l.members }

-- A forwarded message is read as its sender wrote it, which the server does not look at: `none`.
abbrev pub to_client : Outgoing → Option Message
to_client (hello_resp cid) = some (got_hello_resp (some cid))
to_client (join_reject reason) = some (got_join_reject (some reason))
to_client (data_update l d) = some (got_data_update (some (read_lobby l, d)))
to_client lobby_all_ready = some got_all_ready
to_client battle_synced = some got_synced
to_client punch_go = some got_punch_go
to_client (forwarded m) = none

abbrev pub to_server : Request → Body
to_server send_hello = hello
to_server send_ready = lobby_ready true
to_server send_reset = lobby_reset
to_server send_loaded = battle_loaded
to_server send_punch_ready = punch_ready
to_server (send_join r) = join_request (some r)
to_server (send_results loser) = report_results (some loser)
to_server (send_settings s) = set_settings (some s)
to_server (send_env seed) = set_env (some seed)
to_server (send_chara chara) = set_chara (some chara)
to_server (send_stage stage) = set_stage (some stage)
to_server (send_snapshot s) = battle_snapshot
to_server (send_hash h) = battle_hash
to_server (send_ggpo_frame f) = ggpo_frame (some (record { src = f.src; dest = f.dest }))

-- The server's Step on one request that came alone, as message number `n` of its connection.
abbrev pub serve : Server → ℕ → PeerAddr → ℤ → Request → Outcome
serve s conn addr n r = step s (
    received (
      some (record { conn = conn; message_number = n; peer_addr = some addr; body = to_server r })
      ∷ []))
