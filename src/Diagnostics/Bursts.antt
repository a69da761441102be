-- ===== src/Diagnostics/Bursts.antt =====
-- The bursts of resimulation that src/common/sf4e__RollbackDiagnostics.cxx counts.
use sf4_netplay_launcher.Prelude.{
  ℕ, ◌+◌, ◌%◌, ◌^◌, ◌<◌, Bool, true, false, not, ◌≡◌, refl, sym, ◌∙◌, List, [], ◌∷◌, length, arith,
  if◌then◌else◌, Bool-cases, inl, inr, ltb, leb, ◌==◌, ◌&&◌,
}
use sf4_netplay_launcher.Prelude.Int.{ℤ, pos, negsuc}
use sf4_netplay_launcher.Diagnostics.{Double}
use sf4_netplay_launcher.Diagnostics.Branches.{if-holds, elim-holds, due-holds}
use sf4_netplay_launcher.Diagnostics.Histogram.{sum}
use sf4_netplay_launcher.Diagnostics.Recorder.{
  RollbackDiagnostics, bump_first, burst_upper, is_open, reset_for_match, record_op, record_skip,
  record_ggpo_result, close_stall, close_warning, close_burst, close_outer_frame, on_frame_advanced,
  on_rollback_callback, on_outer_frame, on_session_ended, on_connection_interrupted,
  on_connection_resumed, on_terminal_disconnect, on_timesync_event, periodic_summary_due,
  index_below, skip_count, open_stall, op_count, call_count, add_frames,
}
use sf4_netplay_launcher.Diagnostics.History.{
  Event, op, skip, ggpo_result, frame_advanced, rollback, outer_frame, session_ended, interrupted,
  resumed, disconnected, timesync, summary, observe, watched,
}

abbrev bounded : List ℕ → ℕ → Bool
bounded [] n = false
bounded (u ∷ us) n = if leb n u then true else bounded us n

sum-bump_first :
    (n : ℕ) (us cs : List ℕ)
    → length us ≡ length cs
    → bounded us n ≡ true
    → sum (bump_first n us cs) % 2 ^ 32 ≡ (sum cs + 1) % 2 ^ 32
unfolding bump_first
sum-bump_first n [] cs e h = ground arith
sum-bump_first n (u ∷ us) [] e h = omega arith
sum-bump_first n (u ∷ us) (c ∷ cs) e h = elim (Bool-cases (leb n u)) [
  | inl f ↦ rw f (omega arith)
  | inr f ↦ rw f (omega (arith, sum-bump_first n us cs (omega arith) (ground arith)))
]

length-bump_first : (n : ℕ) (us cs : List ℕ) → length (bump_first n us cs) ≡ length cs
unfolding bump_first
length-bump_first n [] cs = refl
length-bump_first n (u ∷ us) [] = refl
length-bump_first n (u ∷ us) (c ∷ cs) = elim (Bool-cases (leb n u)) [
  | inl f ↦ rw f refl
  | inr f ↦ rw f (omega (arith, length-bump_first n us cs))
]

bounded-burst : (n : ℕ) → n < 2 ^ 32 → bounded burst_upper n ≡ true
bounded-burst n h = ground arith

-- The bursts ended, by length and in all, and the one open.
pub record Counts (current : ℕ) (bursts : ℕ) (buckets : List ℕ) : Type 0 where
  pub size : length buckets ≡ 8
  pub fits : current < 2 ^ 32
  pub total : sum buckets % 2 ^ 32 ≡ bursts % 2 ^ 32

module _ {D : Type 0} (o : Double D) where
  abbrev pub Tallied : RollbackDiagnostics D → Type 0
  Tallied s = Counts s.current_resim_burst s.resim_bursts s.resim_burst_buckets

  close_burst-Tallied : (s : RollbackDiagnostics D) → Tallied s → Tallied (close_burst o s)
  unfolding close_burst
  close_burst-Tallied s v = elim (Bool-cases (ltb 0 s.current_resim_burst)) [
    | inl e ↦ rw e (record {
      size = length-bump_first s.current_resim_burst burst_upper s.resim_burst_buckets ∙ v.size;
      fits = omega arith;
      total = omega (
        arith,
        v.total,
        sum-bump_first s.current_resim_burst burst_upper s.resim_burst_buckets (sym v.size)
            (bounded-burst s.current_resim_burst v.fits),
      );
    })
    | inr e ↦ rw e v
  ]

  close_outer_frame-Tallied :
      (s : RollbackDiagnostics D) → Tallied s → Tallied (close_outer_frame o s)
  unfolding close_outer_frame
  close_outer_frame-Tallied s v =
      if-holds Tallied (ltb 0 s.rollback_callbacks_this_outer_frame) _ s v v

  on_outer_frame-Tallied : (s : RollbackDiagnostics D) → Tallied s → Tallied (on_outer_frame o s)
  unfolding on_outer_frame
  on_outer_frame-Tallied s v =
      if-holds Tallied (not s.enabled) s _ v (close_burst-Tallied _ (close_outer_frame-Tallied _ v))

  close_stall-Tallied :
      (s : RollbackDiagnostics D) (t : D) → Tallied s → Tallied (close_stall o s t)
  unfolding close_stall
  close_stall-Tallied s t v = if-holds Tallied (is_open o s.prediction_stall_start_ms) _ s v v

  close_warning-Tallied :
      (s : RollbackDiagnostics D) (t : D) → Tallied s → Tallied (close_warning o s t)
  unfolding close_warning
  close_warning-Tallied s t v = if-holds Tallied (is_open o s.connection_warning_start_ms) _ s v v

  on_session_ended-Tallied :
      (s : RollbackDiagnostics D) (t : D) → Tallied s → Tallied (on_session_ended o s t)
  unfolding on_session_ended
  on_session_ended-Tallied s t v =
      let u = close_stall o s t in
      let w = close_stall-Tallied s t v in
      if-holds Tallied (not s.enabled) s _ v (
        if-holds Tallied (ltb 0 u.current_resim_burst) (on_outer_frame o u) u
          (on_outer_frame-Tallied u w) w)

  open_stall-Tallied :
      (s : RollbackDiagnostics D) (reason : ℕ) (t : D)
      → Tallied s
      → Tallied (open_stall o s reason t)
  open_stall-Tallied s reason t v =
      if-holds Tallied ((reason == 1) && o.lt s.prediction_stall_start_ms (o.hundredths 0)) _ s v v

  add_frames-Tallied :
      (s : RollbackDiagnostics D) (frames : ℤ) → Tallied s → Tallied (add_frames o s frames)
  add_frames-Tallied s (negsuc n) v = v
  add_frames-Tallied s (pos n) v = if-holds Tallied (ltb 0 n) _ s v v

  observe-Tallied : (s : RollbackDiagnostics D) (e : Event D) → Tallied s → Tallied (observe o s e)
  unfolding observe record_op record_skip on_rollback_callback record_ggpo_result on_frame_advanced
      on_connection_interrupted on_connection_resumed on_terminal_disconnect on_timesync_event
      periodic_summary_due
  observe-Tallied s (op i ms) v =
      if-holds Tallied (not s.enabled) s _ v
        (elim-holds Tallied (index_below op_count i) s _ v (λ j. v))
  observe-Tallied s (skip reason t) v =
      if-holds Tallied (not s.enabled) s _ v
        (elim-holds Tallied (index_below skip_count reason) s _ v (λ i. open_stall-Tallied _ i t v))
  observe-Tallied s (ggpo_result site code) v =
      if-holds Tallied (not s.enabled) s _ v
        (elim-holds Tallied (index_below call_count site) s _ v (λ j. v))
  observe-Tallied s (frame_advanced t) v =
      if-holds Tallied (not s.enabled) s _ v (close_burst-Tallied _ (close_stall-Tallied s t v))
  observe-Tallied s (rollback t) v =
      if-holds Tallied (not s.enabled) s _ v
        (record { size = v.size; fits = omega arith; total = v.total })
  observe-Tallied s (outer_frame t) v = on_outer_frame-Tallied s v
  observe-Tallied s (session_ended t) v = on_session_ended-Tallied s t v
  observe-Tallied s (interrupted t) v =
      if-holds Tallied (not s.enabled) s _ v
        (if-holds Tallied (o.lt s.connection_warning_start_ms (o.hundredths 0)) _ s v v)
  observe-Tallied s (resumed t) v =
      if-holds Tallied (not s.enabled) s _ v (close_warning-Tallied _ t v)
  observe-Tallied s (disconnected t) v =
      if-holds Tallied (not s.enabled) s _ v (close_warning-Tallied _ t v)
  observe-Tallied s (timesync frames) v =
      if-holds Tallied (not s.enabled) s _ v (add_frames-Tallied _ frames v)
  observe-Tallied s (summary t period) v =
      due-holds Tallied (not s.enabled) _ s (record s { last_periodic_emit_ms = t }) v v

  -- After any events of a match, the histogram of burst lengths has its eight buckets, and they add up to the number of bursts ended, both up to the wrap-around of a bucket: each burst is in exactly one bucket. The open burst always fits in the last bucket.
  pub watched-Tallied :
      (s : RollbackDiagnostics D) (t0 : D) (h : List (Event D)) → Tallied (watched o s t0 h)
  unfolding reset_for_match
  watched-Tallied s t0 [] = record { size = refl; fits = omega arith; total = refl }
  watched-Tallied s t0 (e ∷ h) = observe-Tallied (watched o s t0 h) e (watched-Tallied s t0 h)
