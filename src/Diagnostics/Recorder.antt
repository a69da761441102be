-- ===== src/Diagnostics/Recorder.antt =====
-- RollbackDiagnostics of src/common/sf4e__RollbackDiagnostics.hxx and .cxx, without the gauges,
-- which no function of the component changes but the reset, and without the text of the summary.
use sf4_netplay_launcher.Prelude.{
  ℕ, suc, ◌+◌, ◌%◌, ◌^◌, Bool, true, false, not, ◌&&◌, Option, none, some, List, [], ◌∷◌, ltb, leb,
  ◌==◌, if◌then◌else◌,
}
use sf4_netplay_launcher.Prelude.Int.{ℤ, pos, negsuc}
use sf4_netplay_launcher.Diagnostics.{Double, bump, update_at, repeat}
use sf4_netplay_launcher.Diagnostics.Timing.{TimingStat, reset, record_time}

abbrev pub op_count : ℕ
op_count = 29

abbrev pub skip_count : ℕ
skip_count = 5

abbrev pub skip_prediction_threshold : ℕ
skip_prediction_threshold = 1

abbrev pub call_count : ℕ
call_count = 4

abbrev pub num_result_slots : ℕ
num_result_slots = 13

abbrev pub burst_upper : List ℕ
burst_upper = 1 ∷ 2 ∷ 3 ∷ 4 ∷ 6 ∷ 8 ∷ 12 ∷ 0xffffffff ∷ []

pub record RollbackDiagnostics (D : Type 0) : Type 0 where
  pub enabled : Bool
  pub ops : List (TimingStat D)
  pub skip_reasons : List ℕ
  pub ggpo_results : List (List ℕ)
  pub total_rollback_callbacks : ℕ
  pub rollback_callbacks_this_outer_frame : ℕ
  pub max_rollback_callbacks_per_outer_frame : ℕ
  pub outer_frames_with_rollback : ℕ
  pub outer_frames : ℕ
  pub current_resim_burst : ℕ
  pub max_resim_burst : ℕ
  pub resim_burst_buckets : List ℕ
  pub resim_bursts : ℕ
  pub connection_warnings : ℕ
  pub connection_resumes : ℕ
  pub terminal_disconnects : ℕ
  pub connection_warning_start_ms : D
  pub connection_warning_duration : TimingStat D
  pub timesync_events : ℕ
  pub timesync_frames_total : ℕ
  pub timesync_max_frames : ℕ
  pub prediction_stalls : ℕ
  pub prediction_stall_start_ms : D
  pub prediction_stall_duration : TimingStat D
  pub match_start_ms : D
  pub last_periodic_emit_ms : D

-- An index that passes `i < 0 || i >= n`.
abbrev pub index_below : ℕ → ℤ → Option ℕ
index_below n (pos i) = if ltb i n then some i else none
index_below n (negsuc i) = none

-- Slot 0 for -1 and codes out of range.
abbrev pub result_slot : ℤ → ℕ
result_slot (pos code) = if leb code 11 then suc code else 0
result_slot (negsuc code) = 0

-- The first bucket whose bound is not below the length.
unfoldable pub bump_first : ℕ → List ℕ → List ℕ → List ℕ
bump_first n (upper ∷ uppers) (c ∷ cs) =
    let rest = bump_first n uppers cs in if leb n upper then ((c + 1) % 2 ^ 32) ∷ cs else c ∷ rest
bump_first n _ cs = cs

module _ {D : Type 0} (o : Double D) where
  abbrev Diag : Type 0
  Diag = RollbackDiagnostics D

  -- A start time of no episode is below 0.
  abbrev pub is_open : D → Bool
  is_open start = o.le (o.hundredths 0) start

  -- ResetForMatch; `memset` also clears the times.
  unfoldable pub reset_for_match : Diag → D → Diag
  unfolding reset
  reset_for_match s now_ms = record {
    enabled = s.enabled;
    ops = repeat op_count (reset o);
    skip_reasons = repeat skip_count 0;
    ggpo_results = repeat call_count (repeat num_result_slots 0);
    total_rollback_callbacks = 0;
    rollback_callbacks_this_outer_frame = 0;
    max_rollback_callbacks_per_outer_frame = 0;
    outer_frames_with_rollback = 0;
    outer_frames = 0;
    current_resim_burst = 0;
    max_resim_burst = 0;
    resim_burst_buckets = repeat 8 0;
    resim_bursts = 0;
    connection_warnings = 0;
    connection_resumes = 0;
    terminal_disconnects = 0;
    connection_warning_start_ms = o.minus_one;
    connection_warning_duration = reset o;
    timesync_events = 0;
    timesync_frames_total = 0;
    timesync_max_frames = 0;
    prediction_stalls = 0;
    prediction_stall_start_ms = o.minus_one;
    prediction_stall_duration = reset o;
    match_start_ms = now_ms;
    last_periodic_emit_ms = now_ms;
  }

  unfoldable pub record_op : Diag → ℤ → D → Diag
  record_op s op ms = if not s.enabled then s else elim (index_below op_count op) [
    | none ↦ s
    | some i ↦ record s { ops = update_at (λ t. record_time o t ms) s.ops i }
  ]

  -- The part of RecordSkip on a prediction threshold.
  abbrev pub open_stall : Diag → ℕ → D → Diag
  open_stall s reason now_ms =
      if (reason == skip_prediction_threshold) && o.lt s.prediction_stall_start_ms (o.hundredths 0)
      then record s {
        prediction_stalls = (s.prediction_stalls + 1) % 2 ^ 32;
        prediction_stall_start_ms = now_ms;
      }
      else s

  unfoldable pub record_skip : Diag → ℤ → D → Diag
  record_skip s reason now_ms = if not s.enabled then s else elim (index_below skip_count reason) [
    | none ↦ s
    | some i ↦ open_stall (record s { skip_reasons = bump 64 s.skip_reasons i }) i now_ms
  ]

  unfoldable pub record_ggpo_result : Diag → ℤ → ℤ → Diag
  record_ggpo_result s call_site code =
      if not s.enabled then s else elim (index_below call_count call_site) [
        | none ↦ s
        | some i ↦ record s {
          ggpo_results =
              update_at (λ (row : List ℕ). bump 32 row (result_slot code)) s.ggpo_results i;
        }
      ]

  -- The end of a prediction stall, if one is open.
  unfoldable pub close_stall : Diag → D → Diag
  close_stall s now_ms =
      if is_open s.prediction_stall_start_ms
      then record s {
        prediction_stall_duration =
            record_time o s.prediction_stall_duration (o.sub now_ms s.prediction_stall_start_ms);
        prediction_stall_start_ms = o.minus_one;
      }
      else s

  -- The end of a connection warning, if one is open.
  unfoldable pub close_warning : Diag → D → Diag
  close_warning s now_ms =
      if is_open s.connection_warning_start_ms
      then record s {
        connection_warning_duration =
            record_time o s.connection_warning_duration
              (o.sub now_ms s.connection_warning_start_ms);
        connection_warning_start_ms = o.minus_one;
      }
      else s

  -- The end of a burst, if one is open.
  unfoldable pub close_burst : Diag → Diag
  close_burst s =
      if ltb 0 s.current_resim_burst
      then record s {
        max_resim_burst =
            if ltb s.max_resim_burst s.current_resim_burst
            then s.current_resim_burst
            else s.max_resim_burst;
        resim_bursts = (s.resim_bursts + 1) % 2 ^ 64;
        resim_burst_buckets = bump_first s.current_resim_burst burst_upper s.resim_burst_buckets;
        current_resim_burst = 0;
      }
      else s

  unfoldable pub on_frame_advanced : Diag → D → Diag
  on_frame_advanced s now_ms = if not s.enabled then s else close_burst (close_stall s now_ms)

  unfoldable pub on_rollback_callback : Diag → Diag
  on_rollback_callback s = if not s.enabled then s else record s {
    total_rollback_callbacks = (s.total_rollback_callbacks + 1) % 2 ^ 64;
    rollback_callbacks_this_outer_frame = (s.rollback_callbacks_this_outer_frame + 1) % 2 ^ 32;
    current_resim_burst = (s.current_resim_burst + 1) % 2 ^ 32;
  }

  -- The part of OnOuterFrame on the callbacks of the frame.
  unfoldable pub close_outer_frame : Diag → Diag
  close_outer_frame s =
      if ltb 0 s.rollback_callbacks_this_outer_frame
      then record s {
        outer_frames_with_rollback = (s.outer_frames_with_rollback + 1) % 2 ^ 64;
        max_rollback_callbacks_per_outer_frame =
            if ltb s.max_rollback_callbacks_per_outer_frame s.rollback_callbacks_this_outer_frame
            then s.rollback_callbacks_this_outer_frame
            else s.max_rollback_callbacks_per_outer_frame;
        rollback_callbacks_this_outer_frame = 0;
      }
      else s

  unfoldable pub on_outer_frame : Diag → Diag
  on_outer_frame s =
      if not s.enabled
      then s
      else close_burst
          (close_outer_frame (record s { outer_frames = (s.outer_frames + 1) % 2 ^ 64 }))

  unfoldable pub on_session_ended : Diag → D → Diag
  on_session_ended s now_ms =
      if not s.enabled
      then s
      else let t = close_stall s now_ms in
        if ltb 0 t.current_resim_burst then on_outer_frame t else t

  unfoldable pub on_connection_interrupted : Diag → D → Diag
  on_connection_interrupted s now_ms =
      if not s.enabled
      then s
      else if o.lt s.connection_warning_start_ms (o.hundredths 0)
      then record s {
        connection_warnings = (s.connection_warnings + 1) % 2 ^ 32;
        connection_warning_start_ms = now_ms;
      }
      else s

  unfoldable pub on_connection_resumed : Diag → D → Diag
  on_connection_resumed s now_ms =
      if not s.enabled
      then s
      else close_warning (record s { connection_resumes = (s.connection_resumes + 1) % 2 ^ 32 })
          now_ms

  unfoldable pub on_terminal_disconnect : Diag → D → Diag
  on_terminal_disconnect s now_ms =
      if not s.enabled
      then s
      else close_warning (record s { terminal_disconnects = (s.terminal_disconnects + 1) % 2 ^ 32 })
          now_ms

  -- `framesAhead` is an int; a positive one is added and compared as it is.
  abbrev pub add_frames : Diag → ℤ → Diag
  add_frames s (negsuc n) = s
  add_frames s (pos n) =
      if ltb 0 n
      then record s {
        timesync_frames_total = (s.timesync_frames_total + n) % 2 ^ 64;
        timesync_max_frames = if ltb s.timesync_max_frames n then n else s.timesync_max_frames;
      }
      else s

  unfoldable pub on_timesync_event : Diag → ℤ → Diag
  on_timesync_event s frames_ahead =
      if not s.enabled
      then s
      else add_frames (record s { timesync_events = (s.timesync_events + 1) % 2 ^ 32 }) frames_ahead

  unfoldable pub periodic_summary_due : Diag → D → D → Diag × Bool
  periodic_summary_due s now_ms period_sec =
      if not s.enabled
      then (s, false)
      else if o.le (o.mul period_sec (o.hundredths 100000)) (o.sub now_ms s.last_periodic_emit_ms)
      then (record s { last_periodic_emit_ms = now_ms }, true)
      else (s, false)
