-- ===== src/Match/Frame.antt =====
-- Once per frame: NetplayFacade::TickFrame of src/sf4e/sf4e__NetplayFacade.cxx, and the start of a
-- match from the lobby in src/sf4e/sf4e__UserApp.cxx.
use sf4_netplay_launcher.Prelude.{
  ℕ, ◌+◌, ◌-◌, ◌%◌, ◌^◌, Bool, true, false, not, ◌&&◌, ◌||◌, none, some, List, [], ◌∷◌, Bytes,
  bytes_eq, ltb, leb, ◌==◌, if◌then◌else◌, length,
}
use sf4_netplay_launcher.Prelude.Int.{pos}
use sf4_netplay_launcher.Session.Protocol.{LobbyData}
use sf4_netplay_launcher.Session.Client.{Client, Env, Turn}
use sf4_netplay_launcher.Session.Client.Events.{lobby_set_settings}
use sf4_netplay_launcher.Session.GgpoRelay.{pump}
use sf4_netplay_launcher.Match.{
  NetplayConfig, host, join, idle, waiting_to_join, sync_timed_out, go_to_versus, App, World,
  push_alert, effect, Netplay, on_client, turn_of, after_turn, in_play, GgpoSyncPhase, nothing,
  starting, connected, synchronizing, Effect,
}
use sf4_netplay_launcher.Match.Battle.{
  clear_battle_state, retire_ggpo_session, abort_ggpo_match, reset_relay,
}
use sf4_netplay_launcher.Match.Control.{should_defer_ggpo_close}
use sf4_netplay_launcher.Match.Menu.{round_time}

-- The settings of the battle; a training room is a long ordinary battle.
abbrev pub versus_of : LobbyData → Effect
versus_of d =
    if d.training_mode
    then go_to_versus d.edition_select (pos 99) (record { fractional = 0; integral = pos 9999 })
    else go_to_versus d.edition_select d.round_count d.round_time

-- Whether the main menu is in the foreground is an argument. The client is not null.
unfoldable pub start_match_from_lobby : Bool → Netplay → App → App × Bool
start_match_from_lobby on_menu n a =
    let b = clear_battle_state a in
    let c = record b { vs = record b.vs { session_synced = false; session_sent_loaded = false } } in
    if ltb (length n.client.lobby_data.members) 2
    then (push_alert waiting_to_join c, false)
    else if not on_menu
    then (c, false)
    else (
      effect (versus_of n.client.lobby_data) (record c {
        vs = record c.vs {
          skip_to_versus = true;
          has_pre_battle_hook = true;
          has_battle_hook = true;
        };
      }),
      true,
    )

-- The callback OnReady of the client.
unfoldable pub on_ready : Bool → Netplay → App → App
on_ready on_menu n a =
    let (b, started) = start_match_from_lobby on_menu n a in
    record b { pending_match_start = not started }

unfoldable pub try_start_pending_match : Bool → App → App
try_start_pending_match on_menu a = if not a.pending_match_start then a else elim a.netplay [
  | none ↦ a
  | some n ↦
      if ltb (length n.client.lobby_data.members) 2
      then a
      else let (b, started) = start_match_from_lobby on_menu n a in
        if started then record b { pending_match_start = false } else b
]

-- The first member has the client's name.
abbrev pub is_first_member : Client → Bool
is_first_member c = elim c.lobby_data.members [ [] ↦ false | m ∷ rest ↦ bytes_eq m.name c.name ]

abbrev pub is_host : NetplayConfig → Bool
is_host cfg = elim cfg.mode [ idle ↦ false | host ↦ true | join ↦ false ]

-- Lobby_SetSettings with the settings of the configuration.
abbrev pub settings_request : NetplayConfig → Turn → Turn
settings_request cfg t =
    lobby_set_settings t (not (cfg.edition_select == 0)) cfg.round_count (round_time cfg)
      (leb 9 cfg.version && not (cfg.training_mode == 0))

-- The host's settings, with the client of netplay; `send_ok` is the result of the sending.
abbrev pub send_settings_with : Bool → App → Netplay → App
send_settings_with send_ok a n =
    if n.client.is_connected && is_first_member n.client
    then (let b = on_client (settings_request a.facade.config) a in
        if send_ok then record b { facade = record b.facade { sent_lobby_settings = true } } else b)
    else a

unfoldable pub send_lobby_settings : Bool → App → App
send_lobby_settings send_ok a =
    if a.facade.sent_lobby_settings || not (is_host a.facade.config)
    then a
    else elim a.netplay [ none ↦ a | some n ↦ send_settings_with send_ok a n ]

unfoldable pub pump_tunnel : Env → (ℕ → List Bytes) → App → App
pump_tunnel env inbox a = elim a.netplay [
  | none ↦ a
  | some n ↦
      if a.relay.active && n.use_relay
      then (let (r, t) = pump env a.relay (turn_of a n) inbox in
          record (after_turn a n t) { relay = r })
      else a
]

abbrev pub is_in_play : GgpoSyncPhase → Bool
is_in_play in_play = true
is_in_play nothing = false
is_in_play starting = false
is_in_play connected = false
is_in_play synchronizing = false

-- The difference of two tick counts of 32 bits.
abbrev pub elapsed : ℕ → ℕ → ℕ
elapsed now since = (now + 2 ^ 32 - since) % 2 ^ 32

abbrev pub sync_timeout_ms : ℕ
sync_timeout_ms = 20000

unfoldable pub is_sync_timed_out : World → App → Bool
is_sync_timed_out w a =
    a.system.ggpo
    && not a.system.update_allowed
    && not a.facade.fallback_tried
    && a.facade.transport.effective_mode == 1
    && not a.facade.transport.legacy_tunnel_active
    && not (is_in_play a.facade.sync_phase)
    && not (a.facade.battle_start_tick == 0)
    && ltb sync_timeout_ms (elapsed w.now a.facade.battle_start_tick)

unfoldable pub check_sync_timeout : World → App → App
check_sync_timeout w a =
    if is_sync_timed_out w a
    then abort_ggpo_match w sync_timed_out
        (record a { facade = record a.facade { fallback_tried = true } })
    else a

unfoldable pub close_deferred : World → App → App
close_deferred w a =
    if not (a.facade.deferred_pending && a.system.ggpo)
    then a
    else let (deferred, f) = should_defer_ggpo_close w a.facade in
      let b = record a { facade = f } in
      if deferred
      then b
      else let c = reset_relay (retire_ggpo_session b) in
        record c { facade = record c.facade { deferred_pending = false; defer_close = false } }

-- What a frame finds: whether the menu is in the foreground, the result of sending the settings,
-- the environment of the client, and the datagrams at the sockets of the tunnel.
pub record Tick : Type 0 where
  pub on_menu : Bool
  pub send_ok : Bool
  pub env : Env
  pub inbox : ℕ → List Bytes

unfoldable pub tick_frame : World → Tick → App → App
tick_frame w t a = close_deferred w (
    check_sync_timeout w (
      pump_tunnel t.env t.inbox
        (send_lobby_settings t.send_ok (try_start_pending_match t.on_menu a))))
