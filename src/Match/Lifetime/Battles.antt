-- ===== src/Match/Lifetime/Battles.antt =====
-- The invariant of the session of GGPO is kept by the events of GGPO, at the end of a battle, by the
-- tick of a frame and at the start of a battle.
use sf4_netplay_launcher.Prelude.{◌≡◌, refl, Bool, true, false, not, ◌&&◌, [], ◌∷◌, arith, if_cases}
use sf4_netplay_launcher.Gate.{
  battle_closing, on_running, on_battle_closing, on_connection_interrupted, on_connection_resumed,
}
use sf4_netplay_launcher.Match.{
  sync_timed_out, connection_unstable, connection_restored, opponent_disconnected, reset_pacer,
  engine_close_battle, App, World,
}
use sf4_netplay_launcher.Match.Battle.{clear_battle_state}
use sf4_netplay_launcher.Match.Control.{
  notify_ggpo_sync_phase, should_defer_ggpo_close, notify_match_ended,
}
use sf4_netplay_launcher.Match.Frame.{
  is_sync_timed_out, check_sync_timeout, close_deferred, Tick, tick_frame,
}
use sf4_netplay_launcher.Match.Update.{
  GgpoEvent, connected_to_peer, synchronizing_with_peer, synchronized_with_peer, now_running,
  interrupted, resumed, disconnected_from_peer, timesync, on_event, close_battle,
}
use sf4_netplay_launcher.Match.Lifetime.{
  timeouts, timeouts-append, SessionInv, effect-SessionInv, retire-SessionInv,
  reset_relay-SessionInv, abort-SessionInv,
}
use sf4_netplay_launcher.Match.Lifetime.Quiet.{Keeps-SessionInv}
use sf4_netplay_launcher.Match.Lifetime.Lobby.{before_timeout-Keeps}
use sf4_netplay_launcher.Match.Lifetime.Loss.{finalize-SessionInv}

module _ (q : Bool) where
  pub on_event-SessionInv :
      (w : World) (e : GgpoEvent) (a : App) → SessionInv q a → SessionInv q (on_event w e a)
  unfolding on_event on_connection_interrupted on_connection_resumed on_running
      notify_ggpo_sync_phase
  on_event-SessionInv w connected_to_peer a h = ground arith
  on_event-SessionInv w synchronizing_with_peer a h = ground arith
  on_event-SessionInv w synchronized_with_peer a h = h
  on_event-SessionInv w now_running a h = ground arith
  on_event-SessionInv w interrupted a h =
      ground (arith, timeouts-append a.alerts (connection_unstable ∷ []))
  on_event-SessionInv w resumed a h =
      ground (arith, timeouts-append a.alerts (connection_restored ∷ []))
  on_event-SessionInv w disconnected_from_peer a h =
      ground (arith, timeouts-append a.alerts (opponent_disconnected ∷ []))
  on_event-SessionInv w timesync a h = h

  -- A closing may be deferred once the battle is closing.
  notify_match_ended-SessionInv :
      (w : World) (a : App)
      → a.system.gate.phase ≡ battle_closing
      → SessionInv q a
      → SessionInv q (notify_match_ended w a)
  unfolding notify_match_ended clear_battle_state
  notify_match_ended-SessionInv w a e h = ground arith

  closing-SessionInv :
      (a : App)
      → a.system.ggpo ≡ true
      → SessionInv q a
      → (on_battle_closing a.system.gate).phase ≡ battle_closing
        × SessionInv q
            (record a { system = record a.system { gate = on_battle_closing a.system.gate } })
  unfolding on_battle_closing
  closing-SessionInv a e h = (ground arith, ground arith)

  should_defer-SessionInv :
      (w : World) (a : App)
      → SessionInv q a
      → SessionInv q (record a { facade = (should_defer_ggpo_close w a.facade).1 })
  unfolding should_defer_ggpo_close
  should_defer-SessionInv w a h = ground arith

  uninterrupted-SessionInv :
      (a : App)
      → SessionInv q a
      → SessionInv q (record a { system = record a.system { ggpo_connection_interrupted = false } })
  uninterrupted-SessionInv a h = ground arith

  pub close_battle-SessionInv :
      (w : World) (a : App) → SessionInv q a → SessionInv q (close_battle w a)
  unfolding close_battle
  close_battle-SessionInv w a h =
      let c =
        notify_match_ended w
          (record a { system = record a.system { gate = on_battle_closing a.system.gate } }) in
      let d = record c { facade = (should_defer_ggpo_close w c.facade).1 } in
      finalize-SessionInv q _ (
        effect-SessionInv q engine_close_battle _ refl refl (
          if_cases (SessionInv q) (not a.system.ggpo) _ _ (λ e. h)
            (λ e.
              let k = closing-SessionInv a (ground arith) h in
              let l = should_defer-SessionInv w c (notify_match_ended-SessionInv w _ k.0 k.1) in
              uninterrupted-SessionInv _ (
                if_cases (SessionInv q) (should_defer_ggpo_close w c.facade).0 _ _
                  (λ o. effect-SessionInv q reset_pacer d refl refl l)
                  (λ o. reset_relay-SessionInv q _ (retire-SessionInv q d l.base))))))

  -- Without a pause the synchronization never times out.
  unpaused_timeout :
      (w : World) (a : App)
      → SessionInv q a
      → is_sync_timed_out w a ≡ true
      → q ≡ false
      → timeouts (sync_timed_out ∷ []) ≡ 0
  unfolding is_sync_timed_out
  unpaused_timeout w a h e o = absurd (ground arith)

  tried-SessionInv :
      (a : App)
      → SessionInv q a
      → SessionInv q (record a { facade = record a.facade { fallback_tried = true } })
  tried-SessionInv a h = ground arith

  check_sync_timeout-SessionInv :
      (w : World) (a : App) → SessionInv q a → SessionInv q (check_sync_timeout w a)
  unfolding check_sync_timeout
  check_sync_timeout-SessionInv w a h =
      if_cases (SessionInv q) (is_sync_timed_out w a) _ _
        (λ e.
          abort-SessionInv q w sync_timed_out _ (unpaused_timeout w a h e)
            (tried-SessionInv a h).base)
        (λ e. h)

  undeferred-SessionInv :
      (a : App)
      → SessionInv q a
      → SessionInv q
          (record a { facade = record a.facade { deferred_pending = false; defer_close = false } })
  undeferred-SessionInv a h = ground arith

  close_deferred-SessionInv :
      (w : World) (a : App) → SessionInv q a → SessionInv q (close_deferred w a)
  unfolding close_deferred
  close_deferred-SessionInv w a h =
      let b = record a { facade = (should_defer_ggpo_close w a.facade).1 } in
      let k = should_defer-SessionInv w a h in
      if_cases (SessionInv q) (not (a.facade.deferred_pending && a.system.ggpo)) _ _ (λ e. h)
        (λ e.
          if_cases (SessionInv q) (should_defer_ggpo_close w a.facade).0 _ _ (λ o. k)
            (λ o.
              undeferred-SessionInv _ (reset_relay-SessionInv q _ (retire-SessionInv q b k.base))))

  pub tick_frame-SessionInv :
      (w : World) (t : Tick) (a : App) → SessionInv q a → SessionInv q (tick_frame w t a)
  unfolding tick_frame
  tick_frame-SessionInv w t a h =
      close_deferred-SessionInv w _
        (check_sync_timeout-SessionInv w _ (Keeps-SessionInv q (before_timeout-Keeps t a) h))
