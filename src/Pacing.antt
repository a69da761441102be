-- ===== src/Pacing.antt =====
-- src/common/sf4e__PacingController.hxx: the budget of waits with which a client that is ahead of
-- the other slows down. A `double` is an abstract type with the operations that the code uses.
pub mod Budget
use sf4_netplay_launcher.Prelude.{
  ℕ, zero, suc, ◌+◌, ◌%◌, ◌^◌, Bool, true, false, not, ◌||◌, if◌then◌else◌,
}
use sf4_netplay_launcher.Prelude.Int.{ℤ, pos, negsuc}

-- A literal is given in hundredths, and `of_int` is the conversion of an integer that is not negative.
pub record Double (D : Type 0) : Type 0 where
  pub hundredths : ℕ → D
  pub of_int : ℕ → D
  pub lt : D → D → Bool
  pub le : D → D → Bool
  pub add : D → D → D
  pub sub : D → D → D
  pub mul : D → D → D
  pub div : D → D → D

pub record PacingController (D : Type 0) : Type 0 where
  pub max_recommendation_frames : D
  pub max_step_ms : D
  pub min_wait_ms : D
  pub enabled : Bool
  pub outstanding_ms : D
  pub recommendations_received : ℕ
  pub frames_recommended_total : ℕ
  pub ms_accepted_total : D
  pub ms_applied_total : D
  pub max_single_wait_ms : D
  pub max_outstanding_ms : D
  pub ms_discarded_on_reset : D
  pub ms_replaced_total : D
  pub ms_discarded_disabled : D
  pub wait_requests : ℕ
  pub ms_requested_total : D
  pub max_requested_wait_ms : D
  pub wait_failures : ℕ
  pub wait_timeouts : ℕ
  pub fallback_sleeps : ℕ

module _ {D : Type 0} (r : Double D) where
  abbrev pub nought : D
  nought = r.hundredths 0

  -- A frame in milliseconds, `1000.0 / 60.0`.
  abbrev pub frame_ms : D
  frame_ms = r.div (r.hundredths 100000) (r.hundredths 6000)

  unfoldable pub reset_stats : PacingController D → PacingController D
  reset_stats p = record p {
    recommendations_received = 0;
    frames_recommended_total = 0;
    ms_accepted_total = nought;
    ms_applied_total = nought;
    max_single_wait_ms = nought;
    max_outstanding_ms = nought;
    ms_discarded_on_reset = nought;
    ms_replaced_total = nought;
    ms_discarded_disabled = nought;
    wait_requests = 0;
    ms_requested_total = nought;
    max_requested_wait_ms = nought;
    wait_failures = 0;
    wait_timeouts = 0;
    fallback_sleeps = 0;
  }

  unfoldable pub init_defaults : PacingController D → PacingController D
  unfolding reset_stats
  init_defaults p = reset_stats (record p {
    max_recommendation_frames = r.hundredths 900;
    max_step_ms = r.hundredths 300;
    min_wait_ms = r.hundredths 100;
    enabled = true;
    outstanding_ms = nought;
  })

  unfoldable pub reset : PacingController D → PacingController D
  reset p = record p {
    ms_discarded_on_reset = r.add p.ms_discarded_on_reset p.outstanding_ms;
    outstanding_ms = nought;
  }

  -- The clamped recommendation in milliseconds.
  abbrev pub recommended_ms : PacingController D → ℕ → D
  recommended_ms p frames =
      r.mul
        (if r.lt p.max_recommendation_frames (r.of_int frames)
          then p.max_recommendation_frames
          else r.of_int frames)
        frame_ms

  abbrev pub accept : PacingController D → D → PacingController D
  accept p ms =
      if not p.enabled
      then record p { ms_discarded_disabled = r.add p.ms_discarded_disabled ms }
      else record p {
        ms_replaced_total = r.add p.ms_replaced_total p.outstanding_ms;
        outstanding_ms = ms;
        ms_accepted_total = r.add p.ms_accepted_total ms;
        max_outstanding_ms = if r.lt p.max_outstanding_ms ms then ms else p.max_outstanding_ms;
      }

  abbrev pub recommended : PacingController D → ℕ → PacingController D
  recommended p zero = p
  recommended p (suc n) =
      accept (record p { frames_recommended_total = (p.frames_recommended_total + suc n) % 2 ^ 64 })
        (recommended_ms p (suc n))

  unfoldable pub on_recommendation : PacingController D → ℤ → PacingController D
  on_recommendation p (negsuc n) = record p {
    recommendations_received = (p.recommendations_received + 1) % 2 ^ 32;
  }
  on_recommendation p (pos n) =
      recommended
        (record p { recommendations_received = (p.recommendations_received + 1) % 2 ^ 32 }) n

  unfoldable pub next_wait_ms : PacingController D → D
  next_wait_ms p =
      if not p.enabled || r.lt p.outstanding_ms p.min_wait_ms
      then nought
      else if r.lt p.outstanding_ms p.max_step_ms
      then p.outstanding_ms
      else p.max_step_ms

  unfoldable pub on_wait_requested : PacingController D → D → PacingController D
  on_wait_requested p requested_ms = if r.le requested_ms nought then p else record p {
    wait_requests = (p.wait_requests + 1) % 2 ^ 64;
    ms_requested_total = r.add p.ms_requested_total requested_ms;
    max_requested_wait_ms =
        if r.lt p.max_requested_wait_ms requested_ms then requested_ms else p.max_requested_wait_ms;
  }

  unfoldable pub on_wait_failure : PacingController D → Bool → PacingController D
  on_wait_failure p timeout = record p {
    wait_failures = (p.wait_failures + 1) % 2 ^ 32;
    wait_timeouts = if timeout then (p.wait_timeouts + 1) % 2 ^ 32 else p.wait_timeouts;
  }

  unfoldable pub on_fallback_sleep : PacingController D → PacingController D
  on_fallback_sleep p = record p { fallback_sleeps = (p.fallback_sleeps + 1) % 2 ^ 32 }

  unfoldable pub on_waited : PacingController D → D → PacingController D
  on_waited p actual_ms =
      if r.le actual_ms nought
      then p
      else let left = r.sub p.outstanding_ms actual_ms in
        record p {
          ms_applied_total = r.add p.ms_applied_total actual_ms;
          max_single_wait_ms =
              if r.lt p.max_single_wait_ms actual_ms then actual_ms else p.max_single_wait_ms;
          outstanding_ms = if r.lt left nought then nought else left;
        }
