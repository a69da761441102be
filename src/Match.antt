-- ===== src/Match.antt =====
-- The game side of netplay: what src/sf4e/sf4e__NetplayFacade.cxx, src/sf4e/sf4e__UserApp.cxx,
-- src/sf4e/sf4e__GameEvents.cxx and the session's part of
-- src/sf4e/sf4e__Game__Battle__System.cxx keep in their static variables, as one record. The
-- children have the functions of these files and what is proved of them.
pub mod Battle
pub mod Control
pub mod Menu
pub mod Frame
pub mod Transport
pub mod Begin
pub mod Versus
pub mod Run
pub mod Lifetime
pub mod Degraded
pub mod AutoStart
pub mod Vps
pub mod Deferral
pub mod Loading
pub mod Update
use sf4_netplay_launcher.Prelude.{
  ℕ, zero, Bool, true, false, ◌||◌, Option, none, some, List, [], ◌∷◌, ◌++◌, Bytes, ◌==◌,
}
use sf4_netplay_launcher.Prelude.Int.{ℤ}
use sf4_netplay_launcher.Gate.{GgpoGateModel}
use sf4_netplay_launcher.Checkpoints.{Simulation}
use sf4_netplay_launcher.Session.Protocol.{FixedPoint}
use sf4_netplay_launcher.Session.Client.{Client, Turn, Request, Call}
use sf4_netplay_launcher.Session.Server.{Server}
use sf4_netplay_launcher.Session.GgpoRelay.{GgpoRelay}

-- Any other number in the field acts as `idle`.
pub data NetplayMode : Type 0 where
  idle host join : NetplayMode

-- src/common/sf4e__NetplayConfig.hxx; a text is what stands before its terminator.
pub record NetplayConfig : Type 0 where
  pub version : ℕ
  pub mode : NetplayMode
  pub session_host : Bytes
  pub session_port : ℕ
  pub room_key : Bytes
  pub display_name : Bytes
  pub input_delay : ℕ
  pub ggpo_port : ℕ
  pub edition_select : ℕ
  pub round_count : ℤ
  pub round_time_integral : ℤ
  pub use_relay : ℕ
  pub dev_overlay : ℕ
  pub device_type : ℕ
  pub device_idx : ℕ
  pub use_central_session : ℕ
  pub relay_room_code : Bytes
  pub ggpo_transport : ℕ
  pub player_role : ℕ
  pub ggpo_remote_port : ℕ
  pub ggpo_remote_host : Bytes
  pub match_id : Bytes
  pub ggpo_room_token : Bytes
  pub ggpo_disconnect_timeout_ms : ℕ
  pub ggpo_disconnect_notify_ms : ℕ
  pub training_mode : ℕ

abbrev pub netplay_config_is_active : NetplayConfig → Bool
netplay_config_is_active cfg = elim cfg.mode [ idle ↦ false | host ↦ true | join ↦ true ]

pub record GgpoTransportStatus : Type 0 where
  pub effective_mode : ℕ
  pub legacy_tunnel_active : Bool
  pub remote_host : Bytes
  pub remote_port : ℕ

abbrev pub no_transport : GgpoTransportStatus
no_transport = record {
  effective_mode = 0;
  legacy_tunnel_active = false;
  remote_host = [];
  remote_port = 0;
}

pub data GgpoSyncPhase : Type 0 where
  nothing starting connected synchronizing in_play : GgpoSyncPhase

-- The messages of PushAlert, each named for its text.
pub data Alert : Type 0 where
  fight_continues returned_to_menu server_not_started graphics_tip : Alert
  waiting_to_join waiting_in_lobby no_host_to_spectate : Alert
  lost_connection server_error sync_timed_out opponent_unreachable : Alert
  could_not_start could_not_add_players input_failed sync_failed buffer_full : Alert
  udp_relay_unavailable udp_relay_required tunnel_not_started : Alert
  relay_required relay_failed punch_failed : Alert
  connection_unstable connection_restored opponent_disconnected : Alert

-- A player as GGPO is told of him; a remote one has an address and a port.
pub data Player : Type 0 where
  local_player : Player
  remote_player spectator : Bytes → ℕ → Player

-- The calls of GGPO, of the pacing controller and of the game that are of interest here, in the
-- order in which they are made. The battle mode is entered with the edition, the rounds and the
-- time that are written for it.
pub data Effect : Type 0 where
  session_started : List Player → Effect
  spectating_started : Bytes → ℕ → Effect
  close_session reset_pacer pacer_for_session : Effect
  add_local_input sync_input advance_frame engine_update : Effect
  close_server engine_close_battle : Effect
  go_to_versus : Bool → ℤ → FixedPoint → Effect

-- The statics of fSystem that belong to the session.
pub record System : Type 0 where
  pub ggpo : Bool
  pub gate : GgpoGateModel
  pub update_allowed : Bool
  pub halt_after_next : Bool
  pub ggpo_connection_interrupted : Bool
  pub has_local_player : Bool
  pub last_ggpo_save_frame : ℤ
  pub goes_to_match_start : Bool

-- The statics of NetplayFacade.
pub record Facade : Type 0 where
  pub config : NetplayConfig
  pub broker_host : Bytes
  pub broker_port : ℕ
  pub transport : GgpoTransportStatus
  pub sync_phase : GgpoSyncPhase
  pub battle_start_tick : ℕ
  pub fallback_tried : Bool
  pub auto_pending : Bool
  pub graphics_warned : Bool
  pub defer_close : Bool
  pub deferred_pending : Bool
  pub defer_close_until : ℕ
  pub dwell_ticks : ℕ
  pub frames_since_ready : ℕ
  pub game_ready : Bool
  pub pad_captured : Bool
  pub sent_lobby_settings : Bool
  pub control_plane_lost : Bool
  pub verification_lost_at : ℤ

-- The statics of fVsBattle and fVsPreBattle that netplay writes.
pub record VsBattle : Type 0 where
  pub session_sent_loaded : Bool
  pub session_synced : Bool
  pub terminate_on_next_left_battle : Bool
  pub next_match_random_seed : Option ℕ
  pub skip_to_versus : Bool
  pub has_battle_hook : Bool
  pub has_pre_battle_hook : Bool

-- fUserApp::Netplay.
pub record Netplay : Type 0 where
  pub client : Client
  pub use_relay : Bool
  pub device_type : ℕ
  pub device_idx : ℕ
  pub delay : ℕ

pub record App : Type 0 where
  pub system : System
  pub facade : Facade
  pub vs : VsBattle
  pub netplay : Option Netplay
  pub server : Option Server
  pub pending_match_start : Bool
  pub game : Simulation
  pub relay : GgpoRelay
  pub sent : List Request
  pub calls : List Call
  pub alerts : List Alert
  pub effects : List Effect

-- What the functions ask of Windows and of the game: the tick count of 32 bits, whether the game
-- has a battle system, and whether its battle flow is idle.
pub record World : Type 0 where
  pub now : ℕ
  pub has_system : Bool
  pub battle_idle : Bool

abbrev pub push_alert : Alert → App → App
push_alert alert a = record a { alerts = a.alerts ++ alert ∷ [] }

abbrev pub effect : Effect → App → App
effect e a = record a { effects = a.effects ++ e ∷ [] }

-- A function of the session client, run on the client that netplay owns.
abbrev pub turn_of : App → Netplay → Turn
turn_of a n = record { client = n.client; game = a.game; sent = a.sent; calls = a.calls }

abbrev pub after_turn : App → Netplay → Turn → App
after_turn a n t = record a {
  netplay = some (record n { client = t.client });
  game = t.game;
  sent = t.sent;
  calls = t.calls;
}

abbrev pub on_client : (Turn → Turn) → App → App
on_client f a = elim a.netplay [ none ↦ a | some n ↦ after_turn a n (f (turn_of a n)) ]
