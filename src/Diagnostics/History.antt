-- ===== src/Diagnostics/History.antt =====
-- The calls that record into RollbackDiagnostics of src/common/sf4e__RollbackDiagnostics.cxx, and what
-- any history of them leads to.
use sf4_netplay_launcher.Prelude.{List, [], ◌∷◌}
use sf4_netplay_launcher.Prelude.Int.{ℤ}
use sf4_netplay_launcher.Diagnostics.{Double}
use sf4_netplay_launcher.Diagnostics.Recorder.{
  RollbackDiagnostics, reset_for_match, record_op, record_skip, record_ggpo_result,
  on_frame_advanced, on_rollback_callback, on_outer_frame, on_session_ended,
  on_connection_interrupted, on_connection_resumed, on_terminal_disconnect, on_timesync_event,
  periodic_summary_due,
}

pub data Event (D : Type 0) : Type 0 where
  op : ℤ → D → Event D
  skip : ℤ → D → Event D
  ggpo_result : ℤ → ℤ → Event D
  frame_advanced rollback outer_frame session_ended : D → Event D
  interrupted resumed disconnected : D → Event D
  timesync : ℤ → Event D
  summary : D → D → Event D

module _ {D : Type 0} (o : Double D) where
  unfoldable pub observe : RollbackDiagnostics D → Event D → RollbackDiagnostics D
  observe s (op i ms) = record_op o s i ms
  observe s (skip reason t) = record_skip o s reason t
  observe s (ggpo_result site code) = record_ggpo_result o s site code
  observe s (frame_advanced t) = on_frame_advanced o s t
  observe s (rollback t) = on_rollback_callback o s
  observe s (outer_frame t) = on_outer_frame o s
  observe s (session_ended t) = on_session_ended o s t
  observe s (interrupted t) = on_connection_interrupted o s t
  observe s (resumed t) = on_connection_resumed o s t
  observe s (disconnected t) = on_terminal_disconnect o s t
  observe s (timesync frames) = on_timesync_event o s frames
  observe s (summary t period) = (periodic_summary_due o s t period).0

  -- A match after its events, the newest first.
  abbrev pub watched : RollbackDiagnostics D → D → List (Event D) → RollbackDiagnostics D
  watched s t0 [] = reset_for_match o s t0
  watched s t0 (e ∷ h) = observe (watched s t0 h) e
