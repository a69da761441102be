-- ===== src/Match/Update.antt =====
-- The detours of src/sf4e/sf4e__Game__Battle__System.cxx that run once per frame, at the end of a
-- battle and on the events of GGPO. What the library returns is an argument.
use sf4_netplay_launcher.Prelude.{Bool, true, false, not, ◌&&◌, Option, none, some, if◌then◌else◌}
use sf4_netplay_launcher.Prelude.Int.{ℤ}
use sf4_netplay_launcher.Gate.{
  continue, stall_prediction, skip_not_synced, skip_other, fatal, classify_ggpo_result, on_running,
  on_battle_closing, on_connection_interrupted, on_connection_resumed, on_prediction_threshold,
  on_frame_accepted, set_manual_pause,
}
use sf4_netplay_launcher.Checkpoints.{
  CharaState, SemanticHashes, capture_snapshot, capture_hash_checkpoint,
}
use sf4_netplay_launcher.Match.{
  App, World, push_alert, effect, connected, synchronizing, in_play, input_failed, sync_failed,
  connection_unstable, connection_restored, opponent_disconnected, add_local_input, sync_input,
  advance_frame, engine_update, engine_close_battle, reset_pacer,
}
use sf4_netplay_launcher.Match.Battle.{
  may_advance_deterministic_frame, retire_ggpo_session, abort_ggpo_match, leave_battle, reset_relay,
}
use sf4_netplay_launcher.Match.Control.{
  notify_match_ended, should_defer_ggpo_close, finalize_control_plane_loss_after_battle,
  notify_ggpo_sync_phase,
}

-- The events of GGPO.
pub data GgpoEvent : Type 0 where
  connected_to_peer synchronizing_with_peer synchronized_with_peer now_running : GgpoEvent
  interrupted resumed disconnected_from_peer timesync : GgpoEvent

-- For the interruption and the resumption: the gate after the call, and whether it says to act.
abbrev pub interrupt : World → App → App
interrupt w a =
    let (g, is_new) = on_connection_interrupted w.now a.system.gate in
    let b = record a { system = record a.system { gate = g } } in
    if is_new
    then push_alert connection_unstable
        (record b { system = record b.system { ggpo_connection_interrupted = true } })
    else b

abbrev pub resume : App → App
resume a =
    let (g, is_over) = on_connection_resumed a.system.gate in
    let b = record a { system = record a.system { gate = g } } in
    if is_over
    then push_alert connection_restored
        (record b { system = record b.system { ggpo_connection_interrupted = false } })
    else b

-- ggpo_on_event_callback; the pacing controller takes the recommendation of `timesync`.
unfoldable pub on_event : World → GgpoEvent → App → App
on_event w connected_to_peer a = notify_ggpo_sync_phase connected a
on_event w synchronizing_with_peer a = notify_ggpo_sync_phase synchronizing a
on_event w synchronized_with_peer a = a
on_event w now_running a =
    notify_ggpo_sync_phase in_play
      (record a { system = record a.system { gate = on_running a.system.gate } })
on_event w interrupted a = interrupt w a
on_event w resumed a = resume a
on_event w disconnected_from_peer a =
    let b = leave_battle w.has_system a in
    push_alert opponent_disconnected (record b {
      system = record b.system {
        gate = (on_connection_resumed b.system.gate).0;
        ggpo_connection_interrupted = false;
      };
    })
on_event w timesync a = a

-- CloseBattle, around the game's own function. Freeing the saved states is left out.
unfoldable pub close_battle : World → App → App
close_battle w a =
    let b =
      if not a.system.ggpo
      then a
      else (let c =
            notify_match_ended w
              (record a { system = record a.system { gate = on_battle_closing a.system.gate } }) in
          let (deferred, f) = should_defer_ggpo_close w c.facade in
          let d = record c { facade = f } in
          let e = if deferred then effect reset_pacer d else reset_relay (retire_ggpo_session d) in
          record e { system = record e.system { ggpo_connection_interrupted = false } }) in
    finalize_control_plane_loss_after_battle (effect engine_close_battle b)

-- What GGPO and the game give to one frame: the results of the three calls, the state of the two
-- characters after the update, and its hashes.
pub record Frame : Type 0 where
  pub add_result : ℤ
  pub sync_result : ℤ
  pub is_advanced : Bool
  pub chara0 : CharaState
  pub chara1 : CharaState
  pub hashes : SemanticHashes
  pub frames_simulated : ℤ

-- How the branch of BattleUpdate for a session ends: with the write in front of the array of
-- checkpoints, with a `return`, or at its end, behind which BattleUpdate goes on.
pub data Branch : Type 0 where
  out_of_bounds : Branch
  returned falls_through : App → Branch

-- BattleUpdate of the game, after which it has simulated one frame more.
abbrev pub run_engine : Frame → App → App
run_engine f a = effect engine_update (record a {
  game = record a.game {
    frames_simulated = record a.game.frames_simulated { integral = f.frames_simulated };
  };
})

-- CaptureSnapshot and CaptureHashCheckpoint.
abbrev pub capture : Frame → App → Branch
capture f a = elim (capture_hash_checkpoint (capture_snapshot a.game f.chara0 f.chara1) f.hashes) [
  | none ↦ out_of_bounds
  | some g ↦ falls_through (record a { game = g })
]

-- From the engine's update to the end of the branch.
unfoldable pub advance : World → Frame → App → Branch
advance w f a =
    let b = effect advance_frame (run_engine f a) in
    if not f.is_advanced
    then falls_through (abort_ggpo_match w sync_failed b)
    else capture f
        (record b { system = record b.system { gate = on_frame_accepted b.system.gate } })

unfoldable pub synchronize : World → Frame → App → Branch
synchronize w f a =
    let b = effect sync_input a in
    elim (classify_ggpo_result f.sync_result) [
      | continue ↦ advance w f b
      | fatal ↦ returned (abort_ggpo_match w sync_failed b)
      | stall_prediction ↦ returned b
      | skip_not_synced ↦ returned b
      | skip_other ↦ returned b
    ]

-- Without a local player no input is added, and the result stays GGPO_OK.
unfoldable pub update_session : World → Frame → App → Branch
update_session w f a =
    let b = if a.system.has_local_player then effect add_local_input a else a in
    elim (if a.system.has_local_player then classify_ggpo_result f.add_result else continue) [
      | continue ↦ synchronize w f b
      | stall_prediction ↦
          returned
            (record b { system = record b.system { gate = on_prediction_threshold b.system.gate } })
      | skip_not_synced ↦ returned b
      | skip_other ↦ returned b
      | fatal ↦ returned (abort_ggpo_match w input_failed b)
    ]

-- `if (bHaltAfterNext)`, the end of BattleUpdate.
unfoldable pub halt : App → App
halt a = if not a.system.halt_after_next then a else record a {
  system = record a.system {
    halt_after_next = false;
    update_allowed = false;
    gate = set_manual_pause true a.system.gate;
  };
}

abbrev pub finish : Branch → Option App
finish out_of_bounds = none
finish (returned a) = some a
finish (falls_through a) = some (halt a)

-- The frames that the overlay asks to simulate beyond this one are left out; there are none in play.
unfoldable pub battle_update : World → Frame → App → Option App
battle_update w f a =
    if not (may_advance_deterministic_frame a.system)
    then some a
    else finish (
        if a.system.ggpo && not w.battle_idle
        then update_session w f a
        else falls_through (run_engine f a))

-- ggpo_advance_frame_callback: one frame that GGPO simulates again.
unfoldable pub resimulate : World → Bool → Frame → App → Option App
resimulate w is_synced f a =
    let b = effect sync_input a in
    if not is_synced
    then some (abort_ggpo_match w sync_failed b)
    else let c = effect advance_frame (run_engine f b) in
      if not f.is_advanced then some (abort_ggpo_match w sync_failed c) else elim (capture f c) [
        | out_of_bounds ↦ none
        | returned d ↦ some d
        | falls_through d ↦ some d
      ]

-- The buttons of the overlay that pause and resume the simulation (src/sf4e/sf4e__Overlay.cxx).
unfoldable pub press_pause : Bool → App → App
press_pause paused a = record a {
  system = record a.system {
    update_allowed = not paused;
    gate = set_manual_pause paused a.system.gate;
  };
}

unfoldable pub press_halt : App → App
press_halt a = record a { system = record a.system { halt_after_next = true } }
