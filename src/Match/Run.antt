-- ===== src/Match/Run.antt =====
-- What can happen to the application, one action after another: the parts of Steam_PostUpdate in
-- src/sf4e/sf4e__UserApp.cxx, the detours of the game, the events of GGPO, the callbacks of the
-- networking library and of the session client, and the buttons of src/sf4e/sf4e__Overlay.cxx.
use sf4_netplay_launcher.Prelude.{
  ℕ, Bool, true, false, ◌&&◌, ◌||◌, Option, none, some, List, [], ◌∷◌, if◌then◌else◌,
}
use sf4_netplay_launcher.Session.Client.{Env}
use sf4_netplay_launcher.Session.Client.Events.{Link, on_status_changed, was_connected}
use sf4_netplay_launcher.Session.Client.Step.{ok, failed, Poll}
use sf4_netplay_launcher.Session.Server.Step
use sf4_netplay_launcher.Match.{
  NetplayConfig, App, World, after_turn, turn_of, lost_connection, server_error,
}
use sf4_netplay_launcher.Match.Control.{
  handle_control_plane_loss, user_shutdown_netplay, init_from_payload, notify_game_ready,
}
use sf4_netplay_launcher.Match.Menu.{Menu, tick_main_menu}
use sf4_netplay_launcher.Match.Frame.{Tick, tick_frame, on_ready}
use sf4_netplay_launcher.Match.Transport.{step_on}
use sf4_netplay_launcher.Match.Update.{
  GgpoEvent, on_event, close_battle, Frame, battle_update, resimulate, press_pause, press_halt,
}
use sf4_netplay_launcher.Match.Begin.{Outside}
use sf4_netplay_launcher.Match.Versus.{
  Block, has_initialized, check_and_maybe_exit, prepare_battle_request, register_tasks,
  exit_foreground, on_battle_synced,
}

-- The client's callback on its connection, which handles the loss of the room in a match itself.
-- The flag says that the new state is one of the two in which the connection is over.
unfoldable pub connection_changed : World → Link → Link → Bool → ℕ → App → App
connection_changed w old new is_over conn a = elim a.netplay [
  | none ↦ a
  | some n ↦
      let b = after_turn a n (on_status_changed (turn_of a n) old new a.system.ggpo conn) in
      if is_over && was_connected old && a.system.ggpo
      then handle_control_plane_loss w lost_connection b
      else b
]

-- Step of the client; the result says that it failed. Its callbacks are actions of their own.
unfoldable pub step_client : Env → Poll → App → App × Bool
step_client env p a = elim a.netplay [
  | none ↦ (a, false)
  | some n ↦ elim (step_on env (turn_of a n) p) [
    | ok t ↦ (after_turn a n t, false)
    | failed t ↦ (after_turn a n t, true)
  ]
]

-- Step of the server; `none` is its undefined behaviour.
unfoldable pub step_server : Step.Poll → App → Option (App × Bool)
step_server p a = elim a.server [
  | none ↦ some (a, false)
  | some s ↦ elim (Step.step s p) [
    | Step.ok s' sent ↦ some (record a { server = some s' }, false)
    | Step.failed s' sent ↦ some (record a { server = some s' }, true)
    | Step.undefined ↦ none
  ]
]

abbrev pub report_failures : World → Bool → Bool → App → App
report_failures w client_failed server_failed a =
    if client_failed
    then handle_control_plane_loss w lost_connection a
    else if server_failed
    then handle_control_plane_loss w server_error a
    else a

abbrev pub reported : World → Bool → Option (App × Bool) → Option App
reported w client_failed none = none
reported w client_failed (some (a, server_failed)) =
    some (report_failures w client_failed server_failed a)

-- The two steps of a tick, and the loss of the room that they report.
unfoldable pub step_both : World → Env → Poll → Step.Poll → App → Option App
step_both w env cp sp a =
    let (b, client_failed) = step_client env cp a in reported w client_failed (step_server sp b)

pub data Action : Type 0 where
  payload : Bool → Bool → NetplayConfig → Action
  game_is_ready shut_down end_of_battle_event : Action
  menu_tick : Menu → Action
  steps : World → Env → Poll → Step.Poll → Action
  frame_tick : World → Tick → Action
  lobby_is_ready : Bool → Action
  battle_is_synced : Action
  connection : World → Link → Link → Bool → ℕ → Action
  ggpo_event : World → GgpoEvent → Action
  battle_frame : World → Frame → Action
  rollback_frame : World → Bool → Frame → Action
  battle_begins : World → Outside → Action
  battle_loads : Block → Bool → Action
  battle_request leaves_battle : Action
  battle_closes : World → Action
  pause_button : Bool → Action
  halt_button : Action

unfoldable pub act : Action → App → Option App
act (payload no_relay is_dev cfg) a = some (init_from_payload no_relay is_dev cfg a)
act game_is_ready a = some (notify_game_ready a)
act shut_down a = some (user_shutdown_netplay true a)
act end_of_battle_event a = some (exit_foreground a)
act (menu_tick m) a = some (tick_main_menu m a)
act (steps w env cp sp) a = step_both w env cp sp a
act (frame_tick w t) a = some (tick_frame w t a)
act (lobby_is_ready on_menu) a = some (elim a.netplay [ none ↦ a | some n ↦ on_ready on_menu n a ])
act battle_is_synced a = some (on_battle_synced a)
act (connection w old new is_over conn) a = some (connection_changed w old new is_over conn a)
act (ggpo_event w e) a = some (on_event w e a)
act (battle_frame w f) a = battle_update w f a
act (rollback_frame w is_synced f) a = resimulate w is_synced f a
act (battle_begins w o) a = some (register_tasks w o a)
act (battle_loads block initialized) a = some (has_initialized block initialized a).0
act battle_request a = some (prepare_battle_request a).0
act leaves_battle a = some (check_and_maybe_exit a).0
act (battle_closes w) a = some (close_battle w a)
act (pause_button paused) a = some (press_pause paused a)
act halt_button a = some (press_halt a)

-- `none` is undefined behaviour: in the server, or in front of the array of checkpoints.
unfoldable pub run : List Action → App → Option App
run [] a = some a
run (x ∷ xs) a = elim (act x a) [ none ↦ none | some b ↦ run xs b ]

-- The buttons that pause the simulation, or have it paused.
abbrev pub is_button : Action → Bool
is_button (pause_button paused) = true
is_button halt_button = true
is_button _ = false

abbrev pub has_button : List Action → Bool
has_button [] = false
has_button (x ∷ xs) = is_button x || has_button xs
