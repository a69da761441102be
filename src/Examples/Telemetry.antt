-- ===== src/Examples/Telemetry.antt =====
-- Runs of the model of src/common/sf4e__RollbackDiagnostics.cxx, with times in hundredths.
use sf4_netplay_launcher.Prelude.{
  ℕ, ◌+◌, ◌-◌, ◌*◌, ◌/◌, Bool, true, false, refl, Option, none, some, List, [], ◌∷◌, ltb, leb, ◌==◌,
}
use sf4_netplay_launcher.Prelude.Int.{pos}
use sf4_netplay_launcher.Diagnostics.{Double}
use sf4_netplay_launcher.Diagnostics.Timing.{reset}
use sf4_netplay_launcher.Diagnostics.Recorder.{RollbackDiagnostics}
use sf4_netplay_launcher.Diagnostics.History.{
  Event, skip, frame_advanced, rollback, interrupted, resumed, watched,
}
use sf4_netplay_launcher.Diagnostics.Episodes.{IsOrdered, Balanced, watched-Balanced}

-- A time in hundredths, or -1.
abbrev Time : Type 0
Time = Option ℕ

abbrev lt : Time → Time → Bool
lt a none = false
lt none (some b) = true
lt (some a) (some b) = ltb a b

abbrev le : Time → Time → Bool
le none b = true
le (some a) none = false
le (some a) (some b) = leb a b

abbrev eq : Time → Time → Bool
eq (some a) (some b) = a == b
eq none none = true
eq _ _ = false

abbrev on_times : (ℕ → ℕ → ℕ) → Time → Time → Time
on_times f (some a) (some b) = some (f a b)
on_times f _ _ = none

abbrev times : Double Time
times = record {
  hundredths = some;
  minus_one = none;
  lt = lt;
  le = le;
  eq = eq;
  add = on_times (λ a b. a + b);
  sub = on_times (λ a b. a - b);
  mul = on_times (λ a b. a * b / 100);
}

times-IsOrdered : IsOrdered times
times-IsOrdered = record { lt-minus_one = refl; le-minus_one = refl }

abbrev durations : List Time
durations = some 30 ∷ some 1700 ∷ some 999999 ∷ none ∷ []

abbrev before_match : RollbackDiagnostics Time
unfolding reset
before_match = record {
  enabled = true;
  ops = [];
  skip_reasons = [];
  ggpo_results = [];
  total_rollback_callbacks = 0;
  rollback_callbacks_this_outer_frame = 0;
  max_rollback_callbacks_per_outer_frame = 0;
  outer_frames_with_rollback = 0;
  outer_frames = 0;
  current_resim_burst = 0;
  max_resim_burst = 0;
  resim_burst_buckets = [];
  resim_bursts = 0;
  connection_warnings = 0;
  connection_resumes = 0;
  terminal_disconnects = 0;
  connection_warning_start_ms = none;
  connection_warning_duration = reset times;
  timesync_events = 0;
  timesync_frames_total = 0;
  timesync_max_frames = 0;
  prediction_stalls = 0;
  prediction_stall_start_ms = none;
  prediction_stall_duration = reset times;
  match_start_ms = none;
  last_periodic_emit_ms = none;
}

-- A stall inside a connection warning, and a burst, the newest event first.
abbrev events : List (Event Time)
events =
    frame_advanced (some 900)
    ∷ rollback (some 850)
    ∷ rollback (some 800)
    ∷ resumed (some 700)
    ∷ frame_advanced (some 600)
    ∷ skip (pos 1) (some 500)
    ∷ interrupted (some 400)
    ∷ []

watched-Balanced_example : Balanced times (watched times before_match (some 100) events)
watched-Balanced_example =
    watched-Balanced times times-IsOrdered before_match (some 100) events
      (tt, (tt, (tt, (tt, (tt, ((refl, refl), ((refl, refl), tt)))))))
