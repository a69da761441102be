-- ===== src/Examples/Pace.antt =====
-- Runs of the model of src/common/sf4e__PacingController.hxx, with times in hundredths.
use sf4_netplay_launcher.Prelude.{
  ℕ, ◌+◌, ◌-◌, ◌*◌, ◌/◌, false, ◌≡◌, refl, List, [], ◌∷◌, ltb, leb, arith,
}
use sf4_netplay_launcher.Prelude.Int.{pos}
use sf4_netplay_launcher.Pacing.{
  Double, PacingController, init_defaults, next_wait_ms, on_recommendation, on_waited,
}
use sf4_netplay_launcher.Pacing.Budget.{
  IsOrdered, Event, recommendation, waited, limit, history, apply, history-waits,
}

abbrev times : Double ℕ
times = record {
  hundredths = λ n. n;
  of_int = λ n. n * 100;
  lt = ltb;
  le = leb;
  add = λ a b. a + b;
  sub = λ a b. a - b;
  mul = λ a b. a * b / 100;
  div = λ a b. a * 100 / b;
}

times-IsOrdered : IsOrdered times
times-IsOrdered = record {
  lt_irrefl = λ x. ground arith;
  lt_asym = λ x y h. ground (arith, h);
  of_int_nonneg = λ n. ground arith;
  mul_frame_mono = λ x y h. ground (arith, h);
  mul_frame_nonneg = λ x h. ground (arith, h);
  sub_le = λ l x a h k. ground (arith, h, k);
}

abbrev fresh : PacingController ℕ
unfolding init_defaults
fresh = init_defaults times (record {
  max_recommendation_frames = 0;
  max_step_ms = 0;
  min_wait_ms = 0;
  enabled = false;
  outstanding_ms = 0;
  recommendations_received = 0;
  frames_recommended_total = 0;
  ms_accepted_total = 0;
  ms_applied_total = 0;
  max_single_wait_ms = 0;
  max_outstanding_ms = 0;
  ms_discarded_on_reset = 0;
  ms_replaced_total = 0;
  ms_discarded_disabled = 0;
  wait_requests = 0;
  ms_requested_total = 0;
  max_requested_wait_ms = 0;
  wait_failures = 0;
  wait_timeouts = 0;
  fallback_sleeps = 0;
})

abbrev events : List (Event times)
events = recommendation (pos 12) ∷ waited 310 ∷ recommendation (pos 4) ∷ waited 290 ∷ []

-- Four frames replace what is left of nine, 66.64 ms, of which 2.90 were waited.
unfoldable left : PacingController ℕ
left = history times fresh events

left_ms : left.outstanding_ms ≡ 6374
unfolding left history apply on_recommendation on_waited init_defaults
left_ms = refl

history-waits_example :
    (ltb left.outstanding_ms 0 ≡ false)
    × ((ltb (limit times left) left.outstanding_ms ≡ false)
        × ((ltb left.max_step_ms (next_wait_ms times left) ≡ false)
            × (ltb left.outstanding_ms (next_wait_ms times left) ≡ false)))
unfolding left init_defaults
history-waits_example =
    history-waits times times-IsOrdered fresh events
      (record { config_nonneg = refl; step_nonneg = refl; debt_nonneg = refl; debt_limited = refl })
