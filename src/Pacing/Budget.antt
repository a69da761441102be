-- ===== src/Pacing/Budget.antt =====
-- The debt of src/common/sf4e__PacingController.hxx over any history of calls, and the next wait.
use sf4_netplay_launcher.Prelude.{
  ℕ, zero, suc, Bool, true, false, ◌≡◌, refl, List, [], ◌∷◌, not, ◌||◌, if◌then◌else◌,
}
use sf4_netplay_launcher.Prelude.Int.{ℤ, pos, negsuc}
use sf4_netplay_launcher.Diagnostics.Branches.{if-holds}
use sf4_netplay_launcher.Pacing.{
  Double, PacingController, nought, frame_ms, reset_stats, reset, recommended_ms, recommended,
  on_recommendation, next_wait_ms, on_wait_requested, on_wait_failure, on_fallback_sleep, on_waited,
}

-- What the proof uses of the order of the doubles and of rounding; all of it holds of NaN too,
-- which is not less than anything, nor at most anything.
pub record IsOrdered {D : Type 0} (r : Double D) : Type 0 where
  pub lt_irrefl : (x : D) → r.lt x x ≡ false
  pub lt_asym : (x y : D) → r.lt x y ≡ true → r.lt y x ≡ false
  pub of_int_nonneg : (n : ℕ) → r.lt (r.of_int n) (nought r) ≡ false
  -- The product with a positive constant is monotone.
  pub mul_frame_mono :
      (x y : D) → r.lt x y ≡ false → r.lt (r.mul x (frame_ms r)) (r.mul y (frame_ms r)) ≡ false
  pub mul_frame_nonneg :
      (x : D) → r.lt x (nought r) ≡ false → r.lt (r.mul x (frame_ms r)) (nought r) ≡ false
  -- Taking something away makes nothing larger.
  pub sub_le :
      (l x a : D) → r.lt l x ≡ false → r.le a (nought r) ≡ false → r.lt l (r.sub x a) ≡ false

module _ {D : Type 0} (r : Double D) where
  -- What is done to a controller.
  pub data Event : Type 0 where
    reset_event fallback_sleep reset_stats_event : Event
    recommendation : ℤ → Event
    wait_requested waited : D → Event
    wait_failure : Bool → Event

  unfoldable pub apply : PacingController D → Event → PacingController D
  apply p reset_event = reset r p
  apply p fallback_sleep = on_fallback_sleep r p
  apply p reset_stats_event = reset_stats r p
  apply p (recommendation n) = on_recommendation r p n
  apply p (wait_requested ms) = on_wait_requested r p ms
  apply p (waited ms) = on_waited r p ms
  apply p (wait_failure b) = on_wait_failure r p b

  unfoldable pub history : PacingController D → List Event → PacingController D
  history p [] = p
  history p (e ∷ es) = history (apply p e) es

  -- A whole recommendation of the most frames.
  abbrev pub limit : PacingController D → D
  limit p = r.mul p.max_recommendation_frames (frame_ms r)

  pub record Bounded (p : PacingController D) : Type 0 where
    pub config_nonneg : r.lt p.max_recommendation_frames (nought r) ≡ false
    pub step_nonneg : r.lt p.max_step_ms (nought r) ≡ false
    pub debt_nonneg : r.lt p.outstanding_ms (nought r) ≡ false
    pub debt_limited : r.lt (limit p) p.outstanding_ms ≡ false

  module _ (laws : IsOrdered r) where
    clamp-limited : (m x : D) (b : Bool) → r.lt m x ≡ b → r.lt m (if b then m else x) ≡ false
    clamp-limited m x true h = laws.lt_irrefl m
    clamp-limited m x false h = h

    recommended-nonneg :
        (p : PacingController D) (n : ℕ)
        → Bounded p
        → r.lt (recommended_ms r p n) (nought r) ≡ false
    recommended-nonneg p n h = laws.mul_frame_nonneg _ (
        if-holds (λ x. r.lt x (nought r) ≡ false) (r.lt p.max_recommendation_frames (r.of_int n))
          p.max_recommendation_frames (r.of_int n) h.config_nonneg (laws.of_int_nonneg n))

    recommended-limited :
        (p : PacingController D) (n : ℕ) → r.lt (limit p) (recommended_ms r p n) ≡ false
    recommended-limited p n =
        laws.mul_frame_mono p.max_recommendation_frames _
          (clamp-limited p.max_recommendation_frames (r.of_int n) _ refl)

    recommended-Bounded : (p : PacingController D) (n : ℕ) → Bounded p → Bounded (recommended r p n)
    recommended-Bounded p zero h = h
    recommended-Bounded p (suc n) h =
        if-holds Bounded (not p.enabled) _ _
          (record {
            config_nonneg = h.config_nonneg;
            step_nonneg = h.step_nonneg;
            debt_nonneg = h.debt_nonneg;
            debt_limited = h.debt_limited;
          })
          (record {
            config_nonneg = h.config_nonneg;
            step_nonneg = h.step_nonneg;
            debt_nonneg = recommended-nonneg p (suc n) h;
            debt_limited = recommended-limited p (suc n);
          })

    debt_free : (p : PacingController D) → Bounded p → r.lt (limit p) (nought r) ≡ false
    debt_free p h = laws.mul_frame_nonneg p.max_recommendation_frames h.config_nonneg

    left-nonneg :
        (x : D) (b : Bool)
        → r.lt x (nought r) ≡ b
        → r.lt (if b then nought r else x) (nought r) ≡ false
    left-nonneg x true h = laws.lt_irrefl (nought r)
    left-nonneg x false h = h

    on_waited-Bounded : (p : PacingController D) (ms : D) → Bounded p → Bounded (on_waited r p ms)
    unfolding on_waited
    on_waited-Bounded p ms h = repaid (r.le ms (nought r)) refl
      where
        left : D
        left = r.sub p.outstanding_ms ms

        repaid :
            (b : Bool)
            → r.le ms (nought r) ≡ b
            → Bounded (
                if b then p else record p {
                  ms_applied_total = r.add p.ms_applied_total ms;
                  max_single_wait_ms =
                      if r.lt p.max_single_wait_ms ms then ms else p.max_single_wait_ms;
                  outstanding_ms = if r.lt left (nought r) then nought r else left;
                })
        repaid true e = h
        repaid false e = record {
          config_nonneg = h.config_nonneg;
          step_nonneg = h.step_nonneg;
          debt_nonneg = left-nonneg left _ refl;
          debt_limited =
              if-holds (λ x. r.lt (limit p) x ≡ false) (r.lt left (nought r)) (nought r) left
                (debt_free p h) (laws.sub_le (limit p) p.outstanding_ms ms h.debt_limited e);
        }

    same-Bounded :
        (p q : PacingController D)
        → q.max_recommendation_frames ≡ p.max_recommendation_frames
        → q.max_step_ms ≡ p.max_step_ms
        → q.outstanding_ms ≡ p.outstanding_ms
        → Bounded p
        → Bounded q
    same-Bounded p q c m d h = record {
      config_nonneg = rw c h.config_nonneg;
      step_nonneg = rw m h.step_nonneg;
      debt_nonneg = rw d h.debt_nonneg;
      debt_limited = rw (c, d) h.debt_limited;
    }

    apply-Bounded : (p : PacingController D) (e : Event) → Bounded p → Bounded (apply p e)
    unfolding apply reset on_fallback_sleep reset_stats on_wait_failure on_recommendation
        on_wait_requested
    apply-Bounded p reset_event h = record {
      config_nonneg = h.config_nonneg;
      step_nonneg = h.step_nonneg;
      debt_nonneg = laws.lt_irrefl (nought r);
      debt_limited = debt_free p h;
    }
    apply-Bounded p fallback_sleep h = same-Bounded p _ refl refl refl h
    apply-Bounded p reset_stats_event h = same-Bounded p _ refl refl refl h
    apply-Bounded p (recommendation (negsuc n)) h = same-Bounded p _ refl refl refl h
    apply-Bounded p (recommendation (pos n)) h =
        recommended-Bounded _ n (same-Bounded p _ refl refl refl h)
    apply-Bounded p (wait_requested ms) h =
        if-holds Bounded (r.le ms (nought r)) p _ h (same-Bounded p _ refl refl refl h)
    apply-Bounded p (waited ms) h = on_waited-Bounded p ms h
    apply-Bounded p (wait_failure b) h = same-Bounded p _ refl refl refl h

    history-Bounded :
        (p : PacingController D) (es : List Event) → Bounded p → Bounded (history p es)
    unfolding history
    history-Bounded p [] h = h
    history-Bounded p (e ∷ es) h = history-Bounded (apply p e) es (apply-Bounded p e h)

    next_wait-step :
        (p : PacingController D) (b : Bool)
        → r.lt p.outstanding_ms p.max_step_ms ≡ b
        → (r.lt p.max_step_ms (if b then p.outstanding_ms else p.max_step_ms) ≡ false)
          × (r.lt p.outstanding_ms (if b then p.outstanding_ms else p.max_step_ms) ≡ false)
    next_wait-step p true h = (laws.lt_asym _ _ h, laws.lt_irrefl p.outstanding_ms)
    next_wait-step p false h = (laws.lt_irrefl p.max_step_ms, h)

    -- The wait that is asked for is neither longer than a step nor than the debt.
    next_wait-limited :
        (p : PacingController D)
        → Bounded p
        → (r.lt p.max_step_ms (next_wait_ms r p) ≡ false)
          × (r.lt p.outstanding_ms (next_wait_ms r p) ≡ false)
    unfolding next_wait_ms
    next_wait-limited p h =
        if-holds (λ w. (r.lt p.max_step_ms w ≡ false) × (r.lt p.outstanding_ms w ≡ false))
          (not p.enabled || r.lt p.outstanding_ms p.min_wait_ms) (nought r) _
          (h.step_nonneg, h.debt_nonneg) (next_wait-step p _ refl)

    -- From a controller with a debt in bounds and a configuration that is not negative, whatever recommendations, waits, failures and resets follow: the debt is not negative and at most the longest recommendation, which repeated recommendations do not add up to exceed, and the next wait is at most the budget of one frame and at most the debt.
    pub history-waits :
        (p : PacingController D) (es : List Event)
        → Bounded p
        → let q = history p es in
          (r.lt q.outstanding_ms (nought r) ≡ false)
          × ((r.lt (limit q) q.outstanding_ms ≡ false)
              × ((r.lt q.max_step_ms (next_wait_ms r q) ≡ false)
                  × (r.lt q.outstanding_ms (next_wait_ms r q) ≡ false)))
    history-waits p es h =
        let k = history-Bounded p es h in
        (k.debt_nonneg, (k.debt_limited, next_wait-limited (history p es) k))
