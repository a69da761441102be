-- ===== src/Match/Deferral.antt =====
-- The closing that is deferred for spectators: NotifyMatchEnded, ShouldDeferGgpoClose and TickFrame in
-- src/sf4e/sf4e__NetplayFacade.cxx, with CloseBattle of src/sf4e/sf4e__Game__Battle__System.cxx.
use sf4_netplay_launcher.Prelude.{
  ℕ, ◌+◌, ◌%◌, ◌^◌, ◌≤◌, ◌<◌, ◌≡◌, true, false, some, List, [], ◌∷◌, arith, length,
}
use sf4_netplay_launcher.Session.Client.Events
use sf4_netplay_launcher.Match.{Netplay, App, World, in_play}
use sf4_netplay_launcher.Match.Battle.{clear_battle_state}
use sf4_netplay_launcher.Match.Control.{should_defer_ggpo_close, notify_match_ended}
use sf4_netplay_launcher.Match.Frame.{
  Tick, tick_frame, pump_tunnel, send_lobby_settings, try_start_pending_match,
}

-- Frames, one after another, each with what it finds.
pub run_frames : List (World × Tick) → App → App
run_frames [] a = a
run_frames ((w, t) ∷ rest) a = run_frames rest (tick_frame w t a)

-- Every frame stands before the time.
abbrev pub AllBefore : ℕ → List (World × Tick) → Type 0
AllBefore until [] = Unit
AllBefore until ((w, t) ∷ rest) = (w.now < until) × AllBefore until rest

-- What of the application the deferred closing depends on is the same.
record Same (a b : App) : Type 0 where
  system : b.system ≡ a.system
  defers : b.facade.defer_close ≡ a.facade.defer_close
  pending : b.facade.deferred_pending ≡ a.facade.deferred_pending
  until : b.facade.defer_close_until ≡ a.facade.defer_close_until
  phase : b.facade.sync_phase ≡ a.facade.sync_phase

-- What stands in front of the test of the synchronization.
abbrev before_check : Tick → App → App
before_check t a =
    pump_tunnel t.env t.inbox (send_lobby_settings t.send_ok (try_start_pending_match t.on_menu a))

-- GGPO has synchronized, its session is open, and its closing is deferred until the time.
record IsDeferred (until : ℕ) (a : App) : Type 0 where
  opened : a.system.ggpo ≡ true
  pending : a.facade.deferred_pending ≡ true
  defers : a.facade.defer_close ≡ true
  due : a.facade.defer_close_until ≡ until
  synchronized : a.facade.sync_phase ≡ in_play

-- The state behind NotifyMatchEnded.
ended :
    (w : World) (a : App) (n : Netplay)
    → a.system.ggpo ≡ true
    → a.facade.control_plane_lost ≡ false
    → a.netplay ≡ some n
    → 2 < length n.client.lobby_data.members
    → ((notify_match_ended w a).system ≡ a.system)
      × ((notify_match_ended w a).facade ≡ record a.facade {
        defer_close = true;
        deferred_pending = true;
        defer_close_until = (w.now + 120000) % 2 ^ 32;
      })
unfolding notify_match_ended clear_battle_state Events.clear_battle_state
ended w a n o l e m = (ground arith, ground arith)

-- A battle with spectators that ends in the last two minutes before the tick count wraps: the time
-- lies behind it at once, and no closing is deferred.
pub deferral_wraps :
    (w : World) (a : App) (n : Netplay)
    → a.system.ggpo ≡ true
    → a.facade.control_plane_lost ≡ false
    → a.netplay ≡ some n
    → 2 < length n.client.lobby_data.members
    → w.now < 2 ^ 32
    → 2 ^ 32 ≤ w.now + 120000
    → (should_defer_ggpo_close w (notify_match_ended w a).facade).0 ≡ false
unfolding should_defer_ggpo_close
deferral_wraps w a n o l e m k s = let (d, u) = ended w a n o l e m in ground (arith, u)
