-- ===== src/Match/Lifetime/Actions.antt =====
-- Every action of Match/Run.antt keeps the invariant of the session of GGPO, and so does a run.
use sf4_netplay_launcher.Prelude.{
  ℕ, ◌≡◌, refl, subst, Bool, true, false, ◌&&◌, Option, none, some, List, [], ◌∷◌, arith, if_cases,
  option_cases,
}
use sf4_netplay_launcher.Gate.{set_manual_pause}
use sf4_netplay_launcher.Session.Client.{Env}
use sf4_netplay_launcher.Match.{lost_connection, server_error, App, World, turn_of}
use sf4_netplay_launcher.Match.Control.{user_shutdown_netplay}
use sf4_netplay_launcher.Match.Frame.{on_ready}
use sf4_netplay_launcher.Match.Update.{press_pause, press_halt}
use sf4_netplay_launcher.Match.Lifetime.{
  timeouts, SessionInv, unopened-SessionInv, shutdown-SessionInv,
}
use sf4_netplay_launcher.Match.Lifetime.Quiet.{Keeps, Keeps-SessionInv, tick_main_menu-Keeps}
use sf4_netplay_launcher.Match.Lifetime.Lobby.{
  pending-Keeps, on_ready-Keeps, has_initialized-Keeps, check_exit-Keeps, request-Keeps,
  synced-Keeps, exit_foreground-Keeps, payload-Keeps, ready-Keeps, step_client-Keeps,
  step_server-Keeps,
}
use sf4_netplay_launcher.Session.Client.Events.{Link, on_status_changed, was_connected}
use sf4_netplay_launcher.Session.Client.Step.{Poll}
use sf4_netplay_launcher.Session.Server.Step
use sf4_netplay_launcher.Match.Run.{
  connection_changed, step_client, step_server, report_failures, reported, step_both, Action,
  payload, game_is_ready, shut_down, end_of_battle_event, menu_tick, steps, frame_tick,
  lobby_is_ready, battle_is_synced, connection, ggpo_event, battle_frame, rollback_frame,
  battle_begins, battle_loads, battle_request, leaves_battle, battle_closes, pause_button,
  halt_button, act, run, is_button, has_button,
}
use sf4_netplay_launcher.Match.Lifetime.Loss.{handle_control_plane_loss-SessionInv}
use sf4_netplay_launcher.Match.Lifetime.Frames.{
  Holds, battle_update-SessionInv, resimulate-SessionInv,
}
use sf4_netplay_launcher.Match.Lifetime.Battles.{
  on_event-SessionInv, close_battle-SessionInv, tick_frame-SessionInv,
}
use sf4_netplay_launcher.Match.Lifetime.Prepares.{after_turn-Keeps}
use sf4_netplay_launcher.Match.Lifetime.Begins.{register_tasks-SessionInv}

module _ (q : Bool) where
  connection_changed-SessionInv :
      (w : World) (old new : Link) (is_over : Bool) (conn : ℕ) (a : App)
      → SessionInv q a
      → SessionInv q (connection_changed w old new is_over conn a)
  unfolding connection_changed
  connection_changed-SessionInv w old new is_over conn a h =
      option_cases (SessionInv q) a.netplay _ _ (λ e. h)
        (λ n e.
          let t = on_status_changed (turn_of a n) old new a.system.ggpo conn in
          let k = Keeps-SessionInv q (after_turn-Keeps a n t) h in
          if_cases (SessionInv q) (is_over && was_connected old && a.system.ggpo) _ _
            (λ o. handle_control_plane_loss-SessionInv q w lost_connection _ refl k) (λ o. k))

  report_failures-SessionInv :
      (w : World) (t s : Bool) (a : App) → SessionInv q a → SessionInv q (report_failures w t s a)
  report_failures-SessionInv w true s a h =
      handle_control_plane_loss-SessionInv q w lost_connection a refl h
  report_failures-SessionInv w false true a h =
      handle_control_plane_loss-SessionInv q w server_error a refl h
  report_failures-SessionInv w false false a h = h

  reported-SessionInv :
      (w : World) (t : Bool) (b : App) (o : Option (App × Bool))
      → ((r : App × Bool) → o ≡ some r → Keeps b r.0)
      → SessionInv q b
      → Holds (SessionInv q) (reported w t o)
  reported-SessionInv w t b none k h = tt
  reported-SessionInv w t b (some (c, s)) k h =
      report_failures-SessionInv w t s c (Keeps-SessionInv q (k (c, s) refl) h)

  step_both-SessionInv :
      (w : World) (env : Env) (cp : Poll) (sp : Step.Poll) (a : App)
      → SessionInv q a
      → Holds (SessionInv q) (step_both w env cp sp a)
  unfolding step_both
  step_both-SessionInv w env cp sp a h =
      let k = Keeps-SessionInv q (step_client-Keeps env cp a) h in
      let (b, failed) = step_client env cp a in
      reported-SessionInv w failed b (step_server sp b) (step_server-Keeps sp b) k

  -- The buttons, where they may be pressed.
  press_pause-SessionInv :
      (paused : Bool) (a : App) → q ≡ true → SessionInv q a → SessionInv q (press_pause paused a)
  unfolding press_pause set_manual_pause
  press_pause-SessionInv paused a e h = ground arith

  press_halt-SessionInv : (a : App) → q ≡ true → SessionInv q a → SessionInv q (press_halt a)
  unfolding press_halt
  press_halt-SessionInv a e h = ground arith

  user_shutdown-SessionInv :
      (a : App) → SessionInv q a → SessionInv q (user_shutdown_netplay true a)
  unfolding user_shutdown_netplay
  user_shutdown-SessionInv a h =
      shutdown-SessionInv q _ (Keeps-SessionInv q (pending-Keeps false a) h).base

  act-SessionInv :
      (x : Action) (a : App)
      → (is_button x ≡ true → q ≡ true)
      → SessionInv q a
      → Holds (SessionInv q) (act x a)
  unfolding act
  act-SessionInv (payload no_relay is_dev cfg) a p h =
      Keeps-SessionInv q (payload-Keeps no_relay is_dev cfg a) h
  act-SessionInv game_is_ready a p h = Keeps-SessionInv q (ready-Keeps a) h
  act-SessionInv shut_down a p h = user_shutdown-SessionInv a h
  act-SessionInv end_of_battle_event a p h = Keeps-SessionInv q (exit_foreground-Keeps a) h
  act-SessionInv (menu_tick m) a p h = Keeps-SessionInv q (tick_main_menu-Keeps m a) h
  act-SessionInv (steps w env cp sp) a p h = step_both-SessionInv w env cp sp a h
  act-SessionInv (frame_tick w t) a p h = tick_frame-SessionInv q w t a h
  act-SessionInv (lobby_is_ready on_menu) a p h =
      option_cases (SessionInv q) a.netplay a (λ n. on_ready on_menu n a) (λ e. h)
        (λ n e. Keeps-SessionInv q (on_ready-Keeps on_menu n a) h)
  act-SessionInv battle_is_synced a p h = Keeps-SessionInv q (synced-Keeps a) h
  act-SessionInv (connection w old new is_over conn) a p h =
      connection_changed-SessionInv w old new is_over conn a h
  act-SessionInv (ggpo_event w e) a p h = on_event-SessionInv q w e a h
  act-SessionInv (battle_frame w f) a p h = battle_update-SessionInv q w f a h
  act-SessionInv (rollback_frame w t f) a p h = resimulate-SessionInv q w t f a h
  act-SessionInv (battle_begins w o) a p h = register_tasks-SessionInv q w o a h
  act-SessionInv (battle_loads block t) a p h =
      Keeps-SessionInv q (has_initialized-Keeps block t a) h
  act-SessionInv battle_request a p h = Keeps-SessionInv q (request-Keeps a) h
  act-SessionInv leaves_battle a p h = Keeps-SessionInv q (check_exit-Keeps a) h
  act-SessionInv (battle_closes w) a p h = close_battle-SessionInv q w a h
  act-SessionInv (pause_button paused) a p h = press_pause-SessionInv paused a (p refl) h
  act-SessionInv halt_button a p h = press_halt-SessionInv a (p refl) h

  Holds-some : (o : Option App) (b : App) → o ≡ some b → Holds (SessionInv q) o → SessionInv q b
  Holds-some o b e h = subst (Holds (SessionInv q)) e h

  run-Holds :
      (xs : List Action) (a : App)
      → (has_button xs ≡ true → q ≡ true)
      → SessionInv q a
      → Holds (SessionInv q) (run xs a)
  unfolding run
  run-Holds [] a p h = h
  run-Holds (x ∷ xs) a p h =
      option_cases (Holds (SessionInv q)) (act x a) none (run xs) (λ e. tt)
        (λ b e.
          run-Holds xs b (λ t. p (ground arith))
            (Holds-some _ b e (act-SessionInv x a (λ t. p (ground arith)) h)))

-- The program before its first action: no session was opened, nothing reported, and the simulation
-- is neither paused nor degraded.
pub record IsStart (a : App) : Type 0 where
  pub unopened : a.system.ggpo ≡ false
  pub unpaused : a.system.gate.manual_pause ≡ false
  pub unhalted : a.system.halt_after_next ≡ false
  pub healthy : a.facade.control_plane_lost ≡ false
  pub silent : a.alerts ≡ []
  pub idle : a.effects ≡ []

start-SessionInv : (q : Bool) (a : App) → IsStart a → SessionInv q a
start-SessionInv q a h = unopened-SessionInv q a h.unopened (record {
  balanced = rw (h.idle, h.unopened) refl;
  undeferred = λ e. cc;
  unpaused = λ e. h.unpaused;
  unhalted = λ e. h.unhalted;
  unreported = λ e. rw h.silent refl;
})

-- In every state that the program reaches: GGPO's sessions were opened as often as closed, and once
-- more while one is open; while one is open, the gate has one of a session's phases, and
-- bUpdateAllowed is set unless the player has paused; a session whose closing is deferred belongs to
-- a battle that is closing; and a fight that has lost its room never defers the closing.
pub run-SessionInv :
    (xs : List Action) (a b : App) → IsStart a → run xs a ≡ some b → SessionInv true b
run-SessionInv xs a b h e =
    Holds-some true _ b e (run-Holds true xs a (λ t. refl) (start-SessionInv true a h))

-- However long GGPO takes to synchronize: as long as no button of the overlay pauses the simulation,
-- no run of the program ever reports that the synchronization timed out.
pub run-unreported :
    (xs : List Action) (a b : App)
    → IsStart a
    → has_button xs ≡ false
    → run xs a ≡ some b
    → timeouts b.alerts ≡ 0
run-unreported xs a b h p e =
    (Holds-some false _ b e
        (run-Holds false xs a (λ t. cc) (start-SessionInv false a h))).base.unreported
      refl
