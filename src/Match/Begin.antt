-- ===== src/Match/Begin.antt =====
-- src/sf4e/sf4e__UserApp.cxx: the start of GGPO when the tasks of a battle are registered.
use sf4_netplay_launcher.Prelude.{
  ℕ, Bool, true, false, not, ◌&&◌, none, some, List, [], ◌∷◌, Bytes, ltb, ◌==◌, if◌then◌else◌,
  length, map,
}
use sf4_netplay_launcher.Session.Protocol.{MemberData, ConnectionId, conn_id_eq}
use sf4_netplay_launcher.Session.Client.{is_player}
use sf4_netplay_launcher.Session.GgpoRelay.{GgpoRelay, Winsock, start, get_remote_endpoint}
use sf4_netplay_launcher.Match.{
  NetplayConfig, Facade, App, World, Netplay, Player, local_player, remote_player, spectator,
  push_alert, waiting_in_lobby, no_host_to_spectate, udp_relay_unavailable, udp_relay_required,
  tunnel_not_started,
}
use sf4_netplay_launcher.Match.Battle.{
  GgpoCalls, start_ggpo, spectate, retire_ggpo_session, abort_ggpo_match,
  cancel_deferred_ggpo_close, reset_relay,
}
use sf4_netplay_launcher.Match.Control.{
  has_endpoint, restore_broker_ggpo_endpoint, apply_ggpo_transport_config, report_ggpo_transport,
  reset_ggpo_battle_watch,
}
use sf4_netplay_launcher.Match.Menu.{loopback}
use sf4_netplay_launcher.Match.Transport.{
  Network, TransportEnv, TransportMode, legacy_session_tunnel, udp_relay, p2p, unknown_mode,
  Prepared, prepare_for_battle,
}

-- What the start of a battle finds: the network, SF4E_GGPO_TRANSPORT, Winsock, the results of GGPO,
-- and the address of the session server as a text.
pub record Outside : Type 0 where
  pub network : Network
  pub env : TransportEnv
  pub winsock : Winsock
  pub ggpo : GgpoCalls
  pub spectate_ok : Bool
  pub server_addr : Bytes

-- `(uint8_t)effective`, for a mode that names a member.
abbrev pub number_of : NetplayConfig → TransportMode → ℕ
number_of cfg legacy_session_tunnel = 0
number_of cfg udp_relay = 1
number_of cfg p2p = 2
number_of cfg unknown_mode = cfg.ggpo_transport

abbrev pub is_legacy : TransportMode → Bool
is_legacy legacy_session_tunnel = true
is_legacy udp_relay = false
is_legacy p2p = false
is_legacy unknown_mode = false

-- The outcome of the choice of the transport: over with the battle's start, or on to GGPO, with or
-- without the tunnel.
pub data Choice : Type 0 where
  given_up : App → Choice
  go_on : Bool → App → Choice

-- The configuration that the choice starts from.
unfoldable pub transport_config : Facade → NetplayConfig
transport_config f =
    let cfg = f.config in
    restore_broker_ggpo_endpoint f (
      if (cfg.use_central_session == 2)
        && (cfg.ggpo_transport == 0)
        && not (length cfg.ggpo_room_token == 0)
        && ltb 0 cfg.ggpo_remote_port
      then record cfg { ggpo_transport = 1 }
      else cfg)

-- A session left over is closed, since the registration binds its port.
abbrev pub release_port : App → App
release_port a =
    if a.system.ggpo then reset_relay (retire_ggpo_session (cancel_deferred_ggpo_close a)) else a

abbrev pub settle : World → Prepared → Choice
settle w p =
    let b = record p.app { facade = apply_ggpo_transport_config p.cfg p.app.facade } in
    let mode = number_of p.cfg p.effective in
    if not p.is_prepared
    then given_up
        (abort_ggpo_match w udp_relay_unavailable (report_ggpo_transport mode false [] 0 b))
    else if is_legacy p.effective
    then go_on true (report_ggpo_transport mode true [] 0 b)
    else go_on false
        (report_ggpo_transport mode false p.cfg.ggpo_remote_host p.cfg.ggpo_remote_port b)

unfoldable pub choose_transport : World → Outside → Netplay → App → Choice
choose_transport w o n a =
    let cfg = transport_config a.facade in
    if not (cfg.use_central_session == 2)
    then go_on n.use_relay a
    else if cfg.ggpo_transport == 0
    then given_up (abort_ggpo_match w udp_relay_required (report_ggpo_transport 1 false [] 0 a))
    else settle w (prepare_for_battle o.network o.env cfg n (release_port a))

-- The address of a member: his own, or the server's for a member without one.
abbrev pub member_ip : Outside → MemberData → Bytes
member_ip o m = if length m.ip == 0 then o.server_addr else m.ip

-- The chain of conditions for a remote player; its last two take what is left.
unfoldable pub remote_of : Outside → Facade → GgpoRelay → Bool → MemberData → Player
remote_of o f r is_tunnel m = elim (if is_tunnel then get_remote_endpoint r m.conn_id else none) [
  | some port ↦ remote_player loopback port
  | none ↦
      if not is_tunnel && has_endpoint f.config.ggpo_remote_port f.config.ggpo_remote_host
      then remote_player f.config.ggpo_remote_host f.config.ggpo_remote_port
      else remote_player (member_ip o m) m.port
]

unfoldable pub player_of : Outside → Facade → GgpoRelay → Bool → ConnectionId → MemberData → Player
player_of o f r is_tunnel cid m =
    if conn_id_eq m.conn_id cid then local_player else remote_of o f r is_tunnel m

abbrev pub spectator_of : Outside → MemberData → Player
spectator_of o m = spectator (member_ip o m) m.port

-- From the lobby's members to GGPO, for a lobby of two members at least.
unfoldable pub start_players : World → Outside → Netplay → Bool → List MemberData → App → App
start_players w o n is_tunnel [] a = a
start_players w o n is_tunnel (m0 ∷ []) a = a
start_players w o n is_tunnel (m0 ∷ m1 ∷ rest) a =
    let player = player_of o a.facade a.relay is_tunnel n.client.cid in
    reset_ggpo_battle_watch w (
      start_ggpo w o.ggpo (player m0) (player m1) (map (spectator_of o) rest)
        n.client.match_data.rng_seed a)

-- The tunnel is started first, where it is used.
unfoldable pub start_over : World → Outside → Netplay → Bool → App → App
start_over w o n false a = start_players w o n false n.client.lobby_data.members a
start_over w o n true a =
    let s = start o.winsock a.relay n.client.ggpo_port (some n.client) in
    let b = record a { relay = s.relay } in
    if s.is_ok
    then start_players w o n true n.client.lobby_data.members b
    else push_alert tunnel_not_started b

-- After the choice the client is the one that netplay holds by then.
unfoldable pub start_chosen : World → Outside → Choice → App
start_chosen w o (given_up a) = a
start_chosen w o (go_on is_tunnel a) = elim a.netplay [
  | none ↦ a
  | some n ↦ start_over w o n is_tunnel a
]

unfoldable pub start_spectator : World → Outside → Netplay → List MemberData → App → App
start_spectator w o n [] a = push_alert no_host_to_spectate a
start_spectator w o n (m ∷ rest) a =
    spectate o.spectate_ok (member_ip o m) m.port n.client.match_data.rng_seed a

unfoldable pub on_vs_battle_tasks_registered : World → Outside → App → App
on_vs_battle_tasks_registered w o a = elim a.netplay [
  | none ↦ a
  | some n ↦
      if ltb (length n.client.lobby_data.members) 2
      then push_alert waiting_in_lobby a
      else if is_player n.client.lobby_data.members n.client.cid
      then start_chosen w o (choose_transport w o n a)
      else start_spectator w o n n.client.lobby_data.members a
]
