-- ===== src/Diagnostics/Episodes.antt =====
-- The episodes that src/common/sf4e__RollbackDiagnostics.cxx measures: prediction stalls and
-- connection warnings, over any history of a match.
use sf4_netplay_launcher.Prelude.{
  ℕ, ◌+◌, ◌%◌, ◌^◌, Bool, true, false, not, ◌≡◌, refl, sym, ◌∙◌, List, [], ◌∷◌, All, arith,
  if◌then◌else◌, Bool-cases, inl, inr, ltb, ◌==◌, ◌&&◌,
}
use sf4_netplay_launcher.Prelude.Int.{ℤ, pos, negsuc}
use sf4_netplay_launcher.Diagnostics.{Double}
use sf4_netplay_launcher.Diagnostics.Branches.{if-holds, elim-holds, due-holds}
use sf4_netplay_launcher.Diagnostics.Timing.{record_time, reset}
use sf4_netplay_launcher.Diagnostics.Recorder.{
  RollbackDiagnostics, is_open, reset_for_match, record_op, record_skip, record_ggpo_result,
  close_stall, close_warning, close_burst, close_outer_frame, on_frame_advanced,
  on_rollback_callback, on_outer_frame, on_session_ended, on_connection_interrupted,
  on_connection_resumed, on_terminal_disconnect, on_timesync_event, periodic_summary_due,
  index_below, skip_count, open_stall, op_count, call_count, add_frames,
}
use sf4_netplay_launcher.Diagnostics.History.{
  Event, op, skip, ggpo_result, frame_advanced, rollback, outer_frame, session_ended, interrupted,
  resumed, disconnected, timesync, summary, observe, watched,
}

-- What the code relies on of `double`: -1.0 is below 0.0.
pub record IsOrdered {D : Type 0} (o : Double D) : Type 0 where
  pub lt-minus_one : o.lt o.minus_one (o.hundredths 0) ≡ true
  pub le-minus_one : o.le (o.hundredths 0) o.minus_one ≡ false

module _ {D : Type 0} (o : Double D) where
  -- The clock never reads below 0.
  abbrev pub IsTime : D → Type 0
  IsTime t = (o.le (o.hundredths 0) t ≡ true) × (o.lt t (o.hundredths 0) ≡ false)

  abbrev pub AtTime : Event D → Type 0
  AtTime (skip reason t) = IsTime t
  AtTime (interrupted t) = IsTime t
  AtTime _ = Unit

  -- A start time, and the number of episodes begun and measured.
  pub record Counted (start : D) (begun : ℕ) (measured : ℕ) : Type 0 where
    pub sign : o.lt start (o.hundredths 0) ≡ not (is_open o start)
    pub balance : begun % 2 ^ 32 ≡ (measured + (if is_open o start then 1 else 0)) % 2 ^ 32

  pub record Balanced (s : RollbackDiagnostics D) : Type 0 where
    pub stalls :
        Counted s.prediction_stall_start_ms s.prediction_stalls s.prediction_stall_duration.count
    pub warnings :
        Counted s.connection_warning_start_ms s.connection_warnings
          s.connection_warning_duration.count

  module _ (ordered : IsOrdered o) where
    reset-Balanced : (s : RollbackDiagnostics D) (t0 : D) → Balanced (reset_for_match o s t0)
    unfolding reset_for_match reset
    reset-Balanced s t0 = record { stalls = none_begun; warnings = none_begun }
      where
        none_begun : Counted o.minus_one 0 0
        none_begun = record {
          sign = ordered.lt-minus_one ∙ rw ordered.le-minus_one refl;
          balance = rw ordered.le-minus_one refl;
        }

    closed-Counted :
        {start : D} {begun measured : ℕ}
        → Counted start begun measured
        → is_open o start ≡ true
        → Counted o.minus_one begun ((measured + 1) % 2 ^ 64)
    closed-Counted c e = record {
      sign = ordered.lt-minus_one ∙ rw ordered.le-minus_one refl;
      balance = rw ordered.le-minus_one (omega (arith, closing c e));
    }
      where
        closing :
            {start : D} {begun measured : ℕ}
            → Counted start begun measured
            → is_open o start ≡ true
            → begun % 2 ^ 32 ≡ (measured + 1) % 2 ^ 32
        closing c e = c.balance ∙ rw e refl

    opened-Counted :
        (start t : D) (begun measured : ℕ)
        → IsTime t
        → Counted start begun measured
        → o.lt start (o.hundredths 0) ≡ true
        → Counted t ((begun + 1) % 2 ^ 32) measured
    opened-Counted start t begun measured (le, lt) c e = record {
      sign = lt ∙ rw le refl;
      balance = rw le (omega (arith, shut (is_open o start) (sym c.sign ∙ e) c.balance));
    }
      where
        shut :
            (b : Bool)
            → not b ≡ true
            → begun % 2 ^ 32 ≡ (measured + (if b then 1 else 0)) % 2 ^ 32
            → begun % 2 ^ 32 ≡ measured % 2 ^ 32
        shut b h k = ground arith

    close_stall-Balanced :
        (s : RollbackDiagnostics D) (t : D) → Balanced s → Balanced (close_stall o s t)
    unfolding close_stall record_time
    close_stall-Balanced s t v = elim (Bool-cases (is_open o s.prediction_stall_start_ms)) [
      | inl e ↦ rw e (record { stalls = closed-Counted v.stalls e; warnings = v.warnings })
      | inr e ↦ rw e v
    ]

    close_warning-Balanced :
        (s : RollbackDiagnostics D) (t : D) → Balanced s → Balanced (close_warning o s t)
    unfolding close_warning record_time
    close_warning-Balanced s t v = elim (Bool-cases (is_open o s.connection_warning_start_ms)) [
      | inl e ↦ rw e (record { stalls = v.stalls; warnings = closed-Counted v.warnings e })
      | inr e ↦ rw e v
    ]

    same-Balanced :
        (s t : RollbackDiagnostics D)
        → t.prediction_stall_start_ms ≡ s.prediction_stall_start_ms
        → t.prediction_stalls ≡ s.prediction_stalls
        → t.prediction_stall_duration ≡ s.prediction_stall_duration
        → t.connection_warning_start_ms ≡ s.connection_warning_start_ms
        → t.connection_warnings ≡ s.connection_warnings
        → t.connection_warning_duration ≡ s.connection_warning_duration
        → Balanced s
        → Balanced t
    same-Balanced s t a b c d e f v = record {
      stalls = rw (a, b, c) v.stalls;
      warnings = rw (d, e, f) v.warnings;
    }

    close_burst-Balanced : (s : RollbackDiagnostics D) → Balanced s → Balanced (close_burst o s)
    unfolding close_burst
    close_burst-Balanced s v = elim (Bool-cases (ltb 0 s.current_resim_burst)) [
      | inl e ↦ rw e (same-Balanced s _ refl refl refl refl refl refl v)
      | inr e ↦ rw e v
    ]

    close_outer_frame-Balanced :
        (s : RollbackDiagnostics D) → Balanced s → Balanced (close_outer_frame o s)
    unfolding close_outer_frame
    close_outer_frame-Balanced s v =
        elim (Bool-cases (ltb 0 s.rollback_callbacks_this_outer_frame)) [
          | inl e ↦ rw e (same-Balanced s _ refl refl refl refl refl refl v)
          | inr e ↦ rw e v
        ]

    on_outer_frame-Balanced :
        (s : RollbackDiagnostics D) → Balanced s → Balanced (on_outer_frame o s)
    unfolding on_outer_frame
    on_outer_frame-Balanced s v = if-holds Balanced (not s.enabled) s _ v (
        close_burst-Balanced _
          (close_outer_frame-Balanced _ (same-Balanced s _ refl refl refl refl refl refl v)))

    open_stall-Balanced :
        (s : RollbackDiagnostics D) (reason : ℕ) (t : D)
        → IsTime t
        → Balanced s
        → Balanced (open_stall o s reason t)
    open_stall-Balanced s reason t h v =
        elim (Bool-cases ((reason == 1) && o.lt s.prediction_stall_start_ms (o.hundredths 0))) [
          | inl e ↦ rw e (record {
            stalls =
                opened-Counted s.prediction_stall_start_ms t s.prediction_stalls
                  s.prediction_stall_duration.count h v.stalls (ground arith);
            warnings = v.warnings;
          })
          | inr e ↦ rw e v
        ]

    record_skip-Balanced :
        (s : RollbackDiagnostics D) (reason : ℤ) (t : D)
        → IsTime t
        → Balanced s
        → Balanced (record_skip o s reason t)
    unfolding record_skip
    record_skip-Balanced s reason t h v = if-holds Balanced (not s.enabled) s _ v (
        elim-holds Balanced (index_below skip_count reason) s _ v
          (λ i. open_stall-Balanced _ i t h (same-Balanced s _ refl refl refl refl refl refl v)))

    add_frames-Balanced :
        (s : RollbackDiagnostics D) (frames : ℤ) → Balanced s → Balanced (add_frames o s frames)
    add_frames-Balanced s (negsuc n) v = v
    add_frames-Balanced s (pos n) v =
        if-holds Balanced (ltb 0 n) _ s (same-Balanced s _ refl refl refl refl refl refl v) v

    on_frame_advanced-Balanced :
        (s : RollbackDiagnostics D) (t : D) → Balanced s → Balanced (on_frame_advanced o s t)
    unfolding on_frame_advanced
    on_frame_advanced-Balanced s t v =
        if-holds Balanced (not s.enabled) s _ v
          (close_burst-Balanced _ (close_stall-Balanced s t v))

    on_session_ended-Balanced :
        (s : RollbackDiagnostics D) (t : D) → Balanced s → Balanced (on_session_ended o s t)
    unfolding on_session_ended
    on_session_ended-Balanced s t v =
        let w = close_stall-Balanced s t v in
        if-holds Balanced (not s.enabled) s _ v (
          if-holds Balanced (ltb 0 (close_stall o s t).current_resim_burst) _ (close_stall o s t)
            (on_outer_frame-Balanced _ w) w)

    on_connection_interrupted-Balanced :
        (s : RollbackDiagnostics D) (t : D)
        → IsTime t
        → Balanced s
        → Balanced (on_connection_interrupted o s t)
    unfolding on_connection_interrupted
    on_connection_interrupted-Balanced s t h v =
        if-holds Balanced (not s.enabled) s _ v
          (elim (Bool-cases (o.lt s.connection_warning_start_ms (o.hundredths 0))) [
            | inl e ↦ rw e (record {
              stalls = v.stalls;
              warnings =
                  opened-Counted s.connection_warning_start_ms t s.connection_warnings
                    s.connection_warning_duration.count h v.warnings e;
            })
            | inr e ↦ rw e v
          ])

    observe-Balanced :
        (s : RollbackDiagnostics D) (e : Event D) → AtTime e → Balanced s → Balanced (observe o s e)
    unfolding observe record_op on_rollback_callback record_ggpo_result on_connection_resumed
        on_terminal_disconnect on_timesync_event periodic_summary_due
    observe-Balanced s (op i ms) h v = if-holds Balanced (not s.enabled) s _ v (
        elim-holds Balanced (index_below op_count i) s _ v
          (λ j. same-Balanced s _ refl refl refl refl refl refl v))
    observe-Balanced s (skip reason t) h v = record_skip-Balanced s reason t h v
    observe-Balanced s (ggpo_result site code) h v = if-holds Balanced (not s.enabled) s _ v (
        elim-holds Balanced (index_below call_count site) s _ v
          (λ j. same-Balanced s _ refl refl refl refl refl refl v))
    observe-Balanced s (frame_advanced t) h v = on_frame_advanced-Balanced s t v
    observe-Balanced s (rollback t) h v =
        if-holds Balanced (not s.enabled) s _ v (same-Balanced s _ refl refl refl refl refl refl v)
    observe-Balanced s (outer_frame t) h v = on_outer_frame-Balanced s v
    observe-Balanced s (session_ended t) h v = on_session_ended-Balanced s t v
    observe-Balanced s (interrupted t) h v = on_connection_interrupted-Balanced s t h v
    observe-Balanced s (resumed t) h v =
        if-holds Balanced (not s.enabled) s _ v
          (close_warning-Balanced _ t (same-Balanced s _ refl refl refl refl refl refl v))
    observe-Balanced s (disconnected t) h v =
        if-holds Balanced (not s.enabled) s _ v
          (close_warning-Balanced _ t (same-Balanced s _ refl refl refl refl refl refl v))
    observe-Balanced s (timesync frames) h v =
        if-holds Balanced (not s.enabled) s _ v
          (add_frames-Balanced _ frames (same-Balanced s _ refl refl refl refl refl refl v))
    observe-Balanced s (summary t period) h v =
        due-holds Balanced (not s.enabled) _ s (record s { last_periodic_emit_ms = t }) v
          (same-Balanced s _ refl refl refl refl refl refl v)

    -- After any events of a match, if the clock never reads below 0, the prediction stalls begun are those whose duration was measured and the one still open, and so are the connection warnings; both up to the wrap-around of a 32-bit count.
    pub watched-Balanced :
        (s : RollbackDiagnostics D) (t0 : D) (h : List (Event D))
        → All AtTime h
        → Balanced (watched o s t0 h)
    watched-Balanced s t0 [] k = reset-Balanced s t0
    watched-Balanced s t0 (e ∷ h) (k, ks) =
        observe-Balanced (watched o s t0 h) e k (watched-Balanced s t0 h ks)
