-- ===== src/Gate.antt =====
-- src/common/sf4e__GgpoGate.hxx and .cxx: the reasons that gate deterministic simulation.
pub mod History
use sf4_netplay_launcher.Prelude.{ℕ, Bool, true, false, not, ◌&&◌, if◌then◌else◌}
use sf4_netplay_launcher.Prelude.Int.{ℤ, is_pos}

pub data SimulationPhase : Type 0 where
  no_session waiting_for_running running battle_closing : SimulationPhase

pub data AdvancePolicy : Type 0 where
  continue stall_prediction skip_not_synced skip_other fatal : AdvancePolicy

-- The `switch` on the error code; the last branch is `default`.
unfoldable pub classify_ggpo_result : ℤ → AdvancePolicy
classify_ggpo_result code =
    if is_pos code 0
    then continue
    else if is_pos code 4
    then stall_prediction
    else if is_pos code 6
    then skip_not_synced
    else if is_pos code 7
    then skip_other
    else if is_pos code 8
    then skip_other
    else fatal

pub record GgpoGateModel : Type 0 where
  pub phase : SimulationPhase
  pub manual_pause : Bool
  pub fatal_error : Bool
  pub prediction_stalled : Bool
  pub connection_warning_active : Bool
  pub connection_warning_started_at_ms : ℕ

unfoldable pub reset : GgpoGateModel
reset = record {
  phase = no_session;
  manual_pause = false;
  fatal_error = false;
  prediction_stalled = false;
  connection_warning_active = false;
  connection_warning_started_at_ms = 0;
}

unfoldable pub on_session_started : GgpoGateModel → GgpoGateModel
on_session_started m = record m {
  phase = waiting_for_running;
  fatal_error = false;
  prediction_stalled = false;
  connection_warning_active = false;
  connection_warning_started_at_ms = 0;
}

-- `if (phase == PHASE_WAITING_FOR_RUNNING) phase = PHASE_RUNNING`
abbrev phase_on_running : SimulationPhase → SimulationPhase
phase_on_running waiting_for_running = running
phase_on_running p = p

unfoldable pub on_running : GgpoGateModel → GgpoGateModel
on_running m = record m { phase = phase_on_running m.phase }

-- `if (phase != PHASE_NO_SESSION) phase = PHASE_BATTLE_CLOSING`
abbrev phase_on_closing : SimulationPhase → SimulationPhase
phase_on_closing no_session = no_session
phase_on_closing p = battle_closing

unfoldable pub on_battle_closing : GgpoGateModel → GgpoGateModel
on_battle_closing m = record m { phase = phase_on_closing m.phase }

unfoldable pub on_session_closed : GgpoGateModel → GgpoGateModel
on_session_closed m = record m {
  phase = no_session;
  prediction_stalled = false;
  connection_warning_active = false;
}

unfoldable pub set_manual_pause : Bool → GgpoGateModel → GgpoGateModel
set_manual_pause paused m = record m { manual_pause = paused }

unfoldable pub on_fatal : GgpoGateModel → GgpoGateModel
on_fatal m = record m { fatal_error = true }

-- The result says whether the warning newly became active.
unfoldable pub on_connection_interrupted : ℕ → GgpoGateModel → GgpoGateModel × Bool
on_connection_interrupted now_ms m = if m.connection_warning_active then (m, false) else (
  record m { connection_warning_active = true; connection_warning_started_at_ms = now_ms },
  true,
)

-- The result says whether a warning was active.
unfoldable pub on_connection_resumed : GgpoGateModel → GgpoGateModel × Bool
on_connection_resumed m =
    if not m.connection_warning_active
    then (m, false)
    else (record m { connection_warning_active = false }, true)

unfoldable pub on_prediction_threshold : GgpoGateModel → GgpoGateModel
on_prediction_threshold m = record m { prediction_stalled = true }

unfoldable pub on_frame_accepted : GgpoGateModel → GgpoGateModel
on_frame_accepted m = record m { prediction_stalled = false }

abbrev pub is_running : SimulationPhase → Bool
is_running running = true
is_running p = false

unfoldable pub can_advance_deterministic_frame : GgpoGateModel → Bool
can_advance_deterministic_frame m = is_running m.phase && not m.manual_pause && not m.fatal_error
