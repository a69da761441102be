-- ===== src/Match/Control.antt =====
-- The functions of src/sf4e/sf4e__NetplayFacade.cxx that set up, watch and tear down netplay, and
-- the two of src/sf4e/sf4e__UserApp.cxx around them. Logs and the overlay's windows are left out.
use sf4_netplay_launcher.Prelude.{
  ℕ, ◌+◌, ◌%◌, ◌^◌, Bool, true, false, not, ◌&&◌, ◌||◌, none, some, [], ◌∷◌, Bytes, ltb, ◌==◌,
  if◌then◌else◌, length,
}
use sf4_netplay_launcher.Prelude.Int.{negsuc}
use sf4_netplay_launcher.Gate.{is_running, on_fatal}
use sf4_netplay_launcher.Session.Client.Events.{disconnect, lobby_reset_rematch}
use sf4_netplay_launcher.Session.Server.{reset_lobby_for_rematch}
use sf4_netplay_launcher.Match.{
  NetplayConfig, netplay_config_is_active, no_transport, GgpoSyncPhase, nothing, starting, Alert,
  fight_continues, returned_to_menu, graphics_tip, close_server, reset_pacer, App, World,
  push_alert, effect, on_client, Facade, System,
}
use sf4_netplay_launcher.Match.Battle.{
  retire_ggpo_session, clear_battle_state, leave_battle, reset_relay,
}

unfoldable pub notify_game_ready : App → App
notify_game_ready a = record a { facade = record a.facade { game_ready = true } }

-- `cfg.ggpoRemotePort > 0 && cfg.ggpoRemoteHost[0]`
abbrev pub has_endpoint : ℕ → Bytes → Bool
has_endpoint port [] = false
has_endpoint port (b ∷ bs) = ltb 0 port

unfoldable pub capture_broker_ggpo_endpoint : NetplayConfig → Facade → Facade
capture_broker_ggpo_endpoint cfg f =
    if has_endpoint cfg.ggpo_remote_port cfg.ggpo_remote_host
    then record f { broker_port = cfg.ggpo_remote_port; broker_host = cfg.ggpo_remote_host }
    else f

unfoldable pub restore_broker_ggpo_endpoint : Facade → NetplayConfig → NetplayConfig
restore_broker_ggpo_endpoint f cfg =
    if has_endpoint f.broker_port f.broker_host
    then record cfg { ggpo_remote_port = f.broker_port; ggpo_remote_host = f.broker_host }
    else cfg

-- The two variables of the environment: SF4E_RELAY begins with 0, SF4E_NETPLAY_DEV with 1.
unfoldable pub init_from_payload : Bool → Bool → NetplayConfig → App → App
init_from_payload no_relay is_dev cfg a =
    let f = capture_broker_ggpo_endpoint cfg (record a.facade { config = cfg }) in
    let c = record cfg {
      use_relay = if no_relay then 0 else cfg.use_relay;
      dev_overlay = if cfg.dev_overlay == 0 && is_dev then 1 else cfg.dev_overlay;
    } in
    record a {
      facade = record f {
        config = c;
        auto_pending = netplay_config_is_active c;
        dwell_ticks = 0;
        frames_since_ready = 0;
        sent_lobby_settings = false;
        pad_captured = not (c.device_idx == 0xff) && not (c.device_type == 0xff);
      };
    }

unfoldable pub apply_ggpo_transport_config : NetplayConfig → Facade → Facade
apply_ggpo_transport_config cfg f =
    let c = record f.config { ggpo_transport = cfg.ggpo_transport } in
    let d =
      if not (cfg.ggpo_transport == 0)
      then record c {
        ggpo_remote_port = cfg.ggpo_remote_port;
        ggpo_remote_host = cfg.ggpo_remote_host;
      }
      else restore_broker_ggpo_endpoint f c in
    record f {
      config =
          if length cfg.ggpo_room_token == 0
          then d
          else record d { ggpo_room_token = cfg.ggpo_room_token };
    }

unfoldable pub report_ggpo_transport : ℕ → Bool → Bytes → ℕ → App → App
report_ggpo_transport mode is_tunnel host port a = record a {
  facade = record a.facade {
    transport = record {
      effective_mode = mode;
      legacy_tunnel_active = is_tunnel;
      remote_host = host;
      remote_port = port;
    };
  };
}

unfoldable pub notify_ggpo_sync_phase : GgpoSyncPhase → App → App
notify_ggpo_sync_phase phase a = record a { facade = record a.facade { sync_phase = phase } }

unfoldable pub reset_ggpo_battle_watch : World → App → App
reset_ggpo_battle_watch w a = record a {
  facade = record a.facade {
    battle_start_tick = w.now;
    fallback_tried = false;
    sync_phase = starting;
  };
}

-- Netplay and the server are destroyed once they are disconnected and closed.
abbrev pub drop_netplay : App → App
drop_netplay a = record (on_client disconnect a) { netplay = none }

abbrev pub drop_server : App → App
drop_server a = elim a.server [
  | none ↦ a
  | some s ↦ record (effect close_server a) { server = none }
]

-- What ShutdownNetplay writes to the variables of the facade.
abbrev pub shut_facade : Facade → Facade
shut_facade f = record f {
  transport = no_transport;
  sync_phase = nothing;
  battle_start_tick = 0;
  fallback_tried = false;
  defer_close = false;
  deferred_pending = false;
  sent_lobby_settings = false;
  broker_host = [];
  broker_port = 0;
  control_plane_lost = false;
  verification_lost_at = negsuc 0;
}

unfoldable pub shutdown_netplay : Bool → App → App
shutdown_netplay close_ggpo a =
    let b = reset_relay (effect reset_pacer (if close_ggpo then retire_ggpo_session a else a)) in
    let c = drop_server (drop_netplay b) in record c { facade = shut_facade c.facade }

-- fUserApp::ShutdownNetplay.
unfoldable pub user_shutdown_netplay : Bool → App → App
user_shutdown_netplay close_ggpo a =
    shutdown_netplay close_ggpo (record a { pending_match_start = false })

-- `if (fSystem::ggpo)` of HandleNetplayFailure.
abbrev pub fail_session : World → App → App
fail_session w a =
    let b = leave_battle (w.has_system && not w.battle_idle) a in
    record b { system = record b.system { gate = on_fatal b.system.gate; update_allowed = false } }

-- For a reason that is neither null nor empty.
unfoldable pub handle_netplay_failure : World → Alert → Bool → App → App
handle_netplay_failure w reason close_ggpo a =
    let b = push_alert reason a in
    shutdown_netplay close_ggpo (if b.system.ggpo then fail_session w b else b)

abbrev pub is_fight_running : World → System → Bool
is_fight_running w s =
    s.ggpo && is_running s.gate.phase && not s.gate.fatal_error && w.has_system && not w.battle_idle

unfoldable pub handle_control_plane_loss : World → Alert → App → App
handle_control_plane_loss w reason a =
    if a.facade.control_plane_lost
    then a
    else if not (is_fight_running w a.system) || a.relay.active
    then handle_netplay_failure w reason true a
    else push_alert fight_continues (record a {
      facade = record a.facade {
        control_plane_lost = true;
        verification_lost_at = a.game.frames_simulated.integral;
      };
    })

unfoldable pub finalize_control_plane_loss_after_battle : App → App
finalize_control_plane_loss_after_battle a =
    if not a.facade.control_plane_lost
    then a
    else shutdown_netplay true (push_alert returned_to_menu a)

-- The result, and the variables once the function has returned.
unfoldable pub should_defer_ggpo_close : World → Facade → Bool × Facade
should_defer_ggpo_close w f =
    if not f.defer_close
    then (false, f)
    else if ltb w.now f.defer_close_until
    then (true, f)
    else (false, record f { defer_close = false })

abbrev pub close_at_once : Facade → Facade
close_at_once f = record f { defer_close = false; deferred_pending = false }

unfoldable pub notify_match_ended : World → App → App
notify_match_ended w a =
    let b = clear_battle_state a in
    let at_once = record b { facade = close_at_once b.facade } in
    if b.facade.control_plane_lost then at_once else elim b.netplay [
      | none ↦ at_once
      | some n ↦
          if ltb 2 (length n.client.lobby_data.members)
          then record b {
            facade = record b.facade {
              defer_close = true;
              deferred_pending = true;
              defer_close_until = (w.now + 120000) % 2 ^ 32;
            };
          }
          else at_once
    ]

unfoldable pub check_graphics_warning : App → App
check_graphics_warning a =
    if a.facade.graphics_warned || not (netplay_config_is_active a.facade.config)
    then a
    else push_alert graphics_tip (record a { facade = record a.facade { graphics_warned = true } })

-- fUserApp::ResetLobbyForRematch.
unfoldable pub reset_lobby : App → App
reset_lobby a = if a.facade.control_plane_lost then a else elim a.server [
  | none ↦ on_client lobby_reset_rematch a
  | some s ↦ record a { server = some (reset_lobby_for_rematch s) }
]
