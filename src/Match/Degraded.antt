-- ===== src/Match/Degraded.antt =====
-- The loss of the room in src/sf4e/sf4e__NetplayFacade.cxx: HandleControlPlaneLoss in and outside of
-- a fight, and the end of a fight that has lost its room.
use sf4_netplay_launcher.Prelude.{
  ◌≡◌, refl, ap, ◌∙◌, true, false, not, none, List, [], ◌∷◌, ◌++◌, if◌then◌else◌, arith, if_cases,
}
use mathlib.Core.List.{append_assoc}
use sf4_netplay_launcher.Gate.{on_battle_closing}
use sf4_netplay_launcher.Session.GgpoRelay.{reset}
use sf4_netplay_launcher.Match.{
  Alert, fight_continues, returned_to_menu, reset_pacer, engine_close_battle, Facade, App, World,
  push_alert, effect,
}
use sf4_netplay_launcher.Match.Battle.{retire_ggpo_session, clear_battle_state, reset_relay}
use sf4_netplay_launcher.Match.Control.{
  shutdown_netplay, is_fight_running, handle_control_plane_loss,
  finalize_control_plane_loss_after_battle, should_defer_ggpo_close, notify_match_ended,
}
use sf4_netplay_launcher.Match.Update.{close_battle}

-- What ShutdownNetplay leaves.
pub record IsShut (a : App) : Type 0 where
  pub no_session : a.system.ggpo ≡ false
  pub no_client : a.netplay ≡ none
  pub no_server : a.server ≡ none
  pub no_tunnel : a.relay.active ≡ false
  pub undeferred : a.facade.deferred_pending ≡ false
  pub healthy : a.facade.control_plane_lost ≡ false
  pub no_broker : a.facade.broker_port ≡ 0
  pub unsent : a.facade.sent_lobby_settings ≡ false

retire_unopened : (a : App) → (retire_ggpo_session a).system.ggpo ≡ false
unfolding retire_ggpo_session
retire_unopened a = ground arith

retire-alerts : (a : App) → (retire_ggpo_session a).alerts ≡ a.alerts
unfolding retire_ggpo_session
retire-alerts a = ground arith

pub shutdown-IsShut : (a : App) → IsShut (shutdown_netplay true a)
unfolding shutdown_netplay reset
shutdown-IsShut a = ground (arith, retire_unopened a)

pub shutdown-alerts : (a : App) → (shutdown_netplay true a).alerts ≡ a.alerts
unfolding shutdown_netplay
shutdown-alerts a = ground (arith, retire-alerts a)

-- A fight goes on without its room.
pub degraded : App → App
degraded a = push_alert fight_continues (record a {
  facade = record a.facade {
    control_plane_lost = true;
    verification_lost_at = a.game.frames_simulated.integral;
  };
})

loss_degrades :
    (w : World) (reason : Alert) (a : App)
    → is_fight_running w a.system ≡ true
    → a.relay.active ≡ false
    → a.facade.control_plane_lost ≡ false
    → handle_control_plane_loss w reason a ≡ degraded a
unfolding handle_control_plane_loss degraded
loss_degrades w reason a e t h = rw (h, e, t) refl

degraded-lost : (a : App) → (degraded a).facade.control_plane_lost ≡ true
unfolding degraded
degraded-lost a = refl

degraded-system : (a : App) → (degraded a).system ≡ a.system
unfolding degraded
degraded-system a = refl

degraded-game : (a : App) → (degraded a).game ≡ a.game
unfolding degraded
degraded-game a = refl

degraded-netplay : (a : App) → (degraded a).netplay ≡ a.netplay
unfolding degraded
degraded-netplay a = refl

degraded-server : (a : App) → (degraded a).server ≡ a.server
unfolding degraded
degraded-server a = refl

degraded-alerts :
    (a : App) (l : List Alert) → (degraded a).alerts ++ l ≡ (a.alerts ++ fight_continues ∷ []) ++ l
unfolding degraded
degraded-alerts a l = refl

loss_again :
    (w : World) (reason : Alert) (a : App)
    → handle_control_plane_loss w reason (degraded a) ≡ degraded a
unfolding handle_control_plane_loss degraded
loss_again w reason a = refl

notify-alerts : (w : World) (a : App) → (notify_match_ended w a).alerts ≡ a.alerts
unfolding notify_match_ended clear_battle_state
notify-alerts w a = ground arith

notify-lost :
    (w : World) (a : App)
    → (notify_match_ended w a).facade.control_plane_lost ≡ a.facade.control_plane_lost
unfolding notify_match_ended clear_battle_state
notify-lost w a = ground arith

deferral-lost :
    (w : World) (f : Facade)
    → (should_defer_ggpo_close w f).1.control_plane_lost ≡ f.control_plane_lost
unfolding should_defer_ggpo_close
deferral-lost w f = ground arith

-- The part of CloseBattle in front of the game's own function.
retire-lost :
    (a : App) → (retire_ggpo_session a).facade.control_plane_lost ≡ a.facade.control_plane_lost
unfolding retire_ggpo_session
retire-lost a = ground arith

finalize_lost :
    (a : App)
    → a.facade.control_plane_lost ≡ true
    → IsShut (finalize_control_plane_loss_after_battle a)
      × (finalize_control_plane_loss_after_battle a).alerts ≡ a.alerts ++ returned_to_menu ∷ []
unfolding finalize_control_plane_loss_after_battle
finalize_lost a h =
    if_cases (λ (b : App). IsShut b × (b.alerts ≡ a.alerts ++ returned_to_menu ∷ []))
      (not a.facade.control_plane_lost) a (shutdown_netplay true (push_alert returned_to_menu a))
      (λ e. absurd (ground arith))
      (λ e. (
        shutdown-IsShut (push_alert returned_to_menu a),
        shutdown-alerts (push_alert returned_to_menu a),
      ))

-- What CloseBattle has done before it calls the game's own function.
before_close : World → App → App
before_close w a =
    if not a.system.ggpo
    then a
    else (let c =
          notify_match_ended w
            (record a { system = record a.system { gate = on_battle_closing a.system.gate } }) in
        let (deferred, f) = should_defer_ggpo_close w c.facade in
        let d = record c { facade = f } in
        let e = if deferred then effect reset_pacer d else reset_relay (retire_ggpo_session d) in
        record e { system = record e.system { ggpo_connection_interrupted = false } })

before_close-lost :
    (w : World) (a : App)
    → ((before_close w a).facade.control_plane_lost ≡ a.facade.control_plane_lost)
      × ((before_close w a).alerts ≡ a.alerts)
unfolding before_close
before_close-lost w a =
    let c =
      notify_match_ended w
        (record a { system = record a.system { gate = on_battle_closing a.system.gate } }) in
    let d = record c { facade = (should_defer_ggpo_close w c.facade).1 } in
    let b = record a { system = record a.system { gate = on_battle_closing a.system.gate } } in
    (
      ground (arith, notify-lost w b, deferral-lost w c.facade, retire-lost d),
      ground (arith, notify-alerts w b, retire-alerts d),
    )

close_lost :
    (w : World) (a : App)
    → a.facade.control_plane_lost ≡ true
    → IsShut (close_battle w a) × (close_battle w a).alerts ≡ a.alerts ++ returned_to_menu ∷ []
unfolding close_battle
close_lost w a h =
    let (p, q) = before_close-lost w a in
    let (shut, said) = finalize_lost (effect engine_close_battle (before_close w a)) (p ∙ h) in
    unfold before_close in (shut, said ∙ ap (λ l. l ++ returned_to_menu ∷ []) q)

append_two : (l : List Alert) (x y : Alert) → (l ++ x ∷ []) ++ y ∷ [] ≡ l ++ x ∷ y ∷ []
append_two l x y = append_assoc l (x ∷ []) (y ∷ [])

-- A fight that loses its room, with no tunnel: GGPO, the gate, the game, the client and the server
-- are left alone and one warning is shown, however often the loss is reported again; and once the
-- battle is closed, netplay is torn down as a whole, without a closing deferred for spectators, and
-- one notice more is shown.
pub loss_in_fight :
    (w w' w'' : World) (reason reason' : Alert) (a : App)
    → is_fight_running w a.system ≡ true
    → a.relay.active ≡ false
    → a.facade.control_plane_lost ≡ false
    → let b = handle_control_plane_loss w reason a in
      (b.system ≡ a.system)
      × (b.game ≡ a.game)
      × (b.netplay ≡ a.netplay)
      × (b.server ≡ a.server)
      × (handle_control_plane_loss w' reason' b ≡ b)
      × IsShut (close_battle w'' b)
      × ((close_battle w'' b).alerts ≡ a.alerts ++ fight_continues ∷ returned_to_menu ∷ [])
loss_in_fight w w' w'' reason reason' a e t h =
    let p = loss_degrades w reason a e t h in
    let (shut, said) = close_lost w'' (degraded a) (degraded-lost a) in
    rw p (
      degraded-system a,
      degraded-game a,
      degraded-netplay a,
      degraded-server a,
      loss_again w' reason' a,
      shut,
      said
          ∙ (degraded-alerts a (returned_to_menu ∷ [])
              ∙ append_two a.alerts fight_continues returned_to_menu),
    )
