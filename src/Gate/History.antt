-- ===== src/Gate/History.antt =====
-- The gate of src/common/sf4e__GgpoGate.hxx after any sequence of the host's calls.
use sf4_netplay_launcher.Prelude.{
  ℕ, suc, ◌+◌, Bool, true, false, not, ◌&&◌, ◌≡◌, refl, List, [], ◌∷◌, arith, if◌then◌else◌,
}
use sf4_netplay_launcher.Gate.{
  GgpoGateModel, SimulationPhase, reset, on_session_started, on_running, on_battle_closing,
  on_session_closed, set_manual_pause, on_fatal, on_connection_interrupted, on_connection_resumed,
  on_prediction_threshold, on_frame_accepted, is_running, can_advance_deterministic_frame,
}

-- One constructor for each member function that the host calls.
pub data Event : Type 0 where
  session_started running battle_closing session_closed fatal : Event
  manual_pause : Bool → Event
  interrupted : ℕ → Event
  resumed prediction_threshold frame_accepted : Event

unfoldable pub step : Event → GgpoGateModel → GgpoGateModel
unfolding on_session_started on_running on_battle_closing on_session_closed on_fatal
    set_manual_pause on_connection_interrupted on_connection_resumed on_prediction_threshold
    on_frame_accepted
step session_started m = on_session_started m
step running m = on_running m
step battle_closing m = on_battle_closing m
step session_closed m = on_session_closed m
step fatal m = on_fatal m
step (manual_pause paused) m = set_manual_pause paused m
step (interrupted now_ms) m = (on_connection_interrupted now_ms m).0
step resumed m = (on_connection_resumed m).0
step prediction_threshold m = on_prediction_threshold m
step frame_accepted m = on_frame_accepted m

-- The gate after a history, whose newest event stands first.
unfoldable pub run : List Event → GgpoGateModel
unfolding reset
run [] = reset
run (e ∷ h) = step e (run h)

-- What a history says of each reason by itself. The last pause request:
abbrev pub paused : List Event → Bool
paused [] = false
paused (manual_pause b ∷ h) = b
paused (_ ∷ h) = paused h

-- a fatal error since the last session began:
abbrev pub failed : List Event → Bool
failed [] = false
failed (fatal ∷ h) = true
failed (session_started ∷ h) = false
failed (_ ∷ h) = failed h

-- the last lifecycle event that had an effect:
abbrev pub lifecycle : List Event → SimulationPhase
lifecycle [] = SimulationPhase.no_session
lifecycle (session_started ∷ h) = SimulationPhase.waiting_for_running
lifecycle (session_closed ∷ h) = SimulationPhase.no_session
lifecycle (running ∷ h) = elim (lifecycle h) [
  | SimulationPhase.waiting_for_running ↦ SimulationPhase.running
  | p ↦ p
]
lifecycle (battle_closing ∷ h) = elim (lifecycle h) [
  | SimulationPhase.no_session ↦ SimulationPhase.no_session
  | _ ↦ SimulationPhase.battle_closing
]
lifecycle (_ ∷ h) = lifecycle h

phase_run : (h : List Event) → (run h).phase ≡ lifecycle h
unfolding run step
phase_run [] = refl
phase_run (running ∷ h) = ground (arith, phase_run h)
phase_run (battle_closing ∷ h) = ground (arith, phase_run h)
phase_run (session_started ∷ h) = refl
phase_run (session_closed ∷ h) = refl
phase_run (fatal ∷ h) = phase_run h
phase_run (manual_pause b ∷ h) = phase_run h
phase_run (interrupted t ∷ h) = ground (arith, phase_run h)
phase_run (resumed ∷ h) = ground (arith, phase_run h)
phase_run (_ ∷ h) = phase_run h

manual_pause_run : (h : List Event) → (run h).manual_pause ≡ paused h
unfolding run step
manual_pause_run [] = refl
manual_pause_run (manual_pause b ∷ h) = refl
manual_pause_run (_ ∷ h) = ground (arith, manual_pause_run h)

fatal_error_run : (h : List Event) → (run h).fatal_error ≡ failed h
unfolding run step
fatal_error_run [] = refl
fatal_error_run (fatal ∷ h) = refl
fatal_error_run (session_started ∷ h) = refl
fatal_error_run (_ ∷ h) = ground (arith, fatal_error_run h)

-- After any history the next deterministic frame may advance exactly when the lifecycle events
-- alone lead to the running phase, the last pause request alone is off, and no fatal error has come
-- since the last session began: the reasons do not clobber one another, and connection warnings and
-- prediction stalls never block.
pub can_advance_exact :
    (h : List Event)
    → can_advance_deterministic_frame (run h)
      ≡ (is_running (lifecycle h) && not (paused h) && not (failed h))
unfolding can_advance_deterministic_frame
can_advance_exact h = simp (phase_run h, manual_pause_run h, fatal_error_run h)

abbrev count : Bool → ℕ → ℕ
count true n = suc n
count false n = n

-- The alerts that the host raises: calls of OnConnectionInterrupted that return true.
abbrev pub raised : List Event → ℕ
raised [] = 0
raised (interrupted t ∷ h) = count (on_connection_interrupted t (run h)).1 (raised h)
raised (_ ∷ h) = raised h

-- The alerts that the host clears: calls of OnConnectionResumed that return true.
abbrev pub cleared : List Event → ℕ
cleared [] = 0
cleared (resumed ∷ h) = count (on_connection_resumed (run h)).1 (cleared h)
cleared (_ ∷ h) = cleared h

-- The warnings that end with their session.
abbrev pub dropped : List Event → ℕ
dropped [] = 0
dropped (session_started ∷ h) = count (run h).connection_warning_active (dropped h)
dropped (session_closed ∷ h) = count (run h).connection_warning_active (dropped h)
dropped (_ ∷ h) = dropped h

-- Every connection warning is alerted exactly once and ended exactly once: after any history the
-- alerts raised are those cleared, those dropped with their session, and the one still active.
pub alerts_balance :
    (h : List Event)
    → raised h ≡ cleared h + dropped h + (if (run h).connection_warning_active then 1 else 0)
unfolding run step
alerts_balance [] = refl
alerts_balance (interrupted t ∷ h) = ground (arith, alerts_balance h)
alerts_balance (_ ∷ h) = ground (arith, alerts_balance h)
