-- ===== src/Match/Lifetime/Loss.antt =====
-- The invariant of the session of GGPO is kept where the room is lost.
use sf4_netplay_launcher.Prelude.{
  ◌≡◌, refl, Bool, true, not, ◌||◌, [], ◌∷◌, if◌then◌else◌, arith, if_cases,
}
use sf4_netplay_launcher.Prelude.Int.{ℤ}
use sf4_netplay_launcher.Gate.{on_fatal}
use sf4_netplay_launcher.Match.{Alert, fight_continues, returned_to_menu, App, World, push_alert}
use sf4_netplay_launcher.Match.Control.{
  fail_session, handle_netplay_failure, is_fight_running, handle_control_plane_loss,
  finalize_control_plane_loss_after_battle,
}
use sf4_netplay_launcher.Match.Lifetime.{timeouts, IsBalanced, SessionInv, shutdown-SessionInv}
use sf4_netplay_launcher.Match.Lifetime.Quiet.{Keeps-SessionInv, push_alert-Keeps}

module _ (q : Bool) where
  pub push_alert-SessionInv :
      (x : Alert) (a : App) → timeouts (x ∷ []) ≡ 0 → SessionInv q a → SessionInv q (push_alert x a)
  push_alert-SessionInv x a e h = Keeps-SessionInv q (push_alert-Keeps x a e) h

  -- The state of the game and of the session that fails, before the shutdown.
  fail_session-IsBalanced :
      (w : World) (t : Bool) (a : App)
      → IsBalanced q a
      → IsBalanced q (if t then fail_session w a else a)
  unfolding on_fatal
  fail_session-IsBalanced w t a h = ground arith

  handle_netplay_failure-SessionInv :
      (w : World) (reason : Alert) (a : App)
      → timeouts (reason ∷ []) ≡ 0
      → SessionInv q a
      → SessionInv q (handle_netplay_failure w reason true a)
  unfolding handle_netplay_failure
  handle_netplay_failure-SessionInv w reason a e h = shutdown-SessionInv q _ (
      fail_session-IsBalanced w a.system.ggpo (push_alert reason a)
        (push_alert-SessionInv reason a e h).base)

  -- The room may be lost while a fight runs, where no closing is deferred.
  degrade-SessionInv :
      (w : World) (n : ℤ) (a : App)
      → is_fight_running w a.system ≡ true
      → SessionInv q a
      → SessionInv q (record a {
        facade = record a.facade { control_plane_lost = true; verification_lost_at = n };
      })
  degrade-SessionInv w n a e h = ground arith

  pub handle_control_plane_loss-SessionInv :
      (w : World) (reason : Alert) (a : App)
      → timeouts (reason ∷ []) ≡ 0
      → SessionInv q a
      → SessionInv q (handle_control_plane_loss w reason a)
  unfolding handle_control_plane_loss
  handle_control_plane_loss-SessionInv w reason a r h =
      if_cases (SessionInv q) a.facade.control_plane_lost _ _ (λ e. h)
        (λ e.
          if_cases (SessionInv q) (not (is_fight_running w a.system) || a.relay.active) _ _
            (λ e'. handle_netplay_failure-SessionInv w reason a r h)
            (λ e'.
              push_alert-SessionInv fight_continues _ refl
                (degrade-SessionInv w a.game.frames_simulated.integral a (ground arith) h)))

  pub finalize-SessionInv :
      (a : App) → SessionInv q a → SessionInv q (finalize_control_plane_loss_after_battle a)
  unfolding finalize_control_plane_loss_after_battle
  finalize-SessionInv a h =
      if_cases (SessionInv q) (not a.facade.control_plane_lost) _ _ (λ e. h)
        (λ e. shutdown-SessionInv q _ (push_alert-SessionInv returned_to_menu a refl h).base)
