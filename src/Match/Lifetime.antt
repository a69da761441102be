-- ===== src/Match/Lifetime.antt =====
-- The invariant of the session of GGPO, for the functions that open and close it. The children
-- have all actions of Match/Run.antt.
pub mod Loss
pub mod Frames
pub mod Battles
pub mod Prepares
pub mod Begins
pub mod Actions
pub mod Quiet
pub mod Lobby
use sf4_netplay_launcher.Prelude.{
  Bytes, ℕ, zero, suc, ◌+◌, ◌≡◌, refl, sym, ap, ◌∙◌, Bool, true, false, not, ◌&&◌, ◌||◌, Option,
  none, some, List, [], ◌∷◌, ◌++◌, if◌then◌else◌, arith, inl, inr, Bool-cases, Option-cases, ltb,
  if_cases,
}
use sf4_netplay_launcher.Gate.{
  SimulationPhase, no_session, waiting_for_running, running, battle_closing, AdvancePolicy,
  continue, stall_prediction, skip_not_synced, skip_other, fatal, classify_ggpo_result,
  GgpoGateModel, reset, on_session_started, on_running, on_battle_closing, on_session_closed,
  set_manual_pause, on_fatal, on_connection_interrupted, on_connection_resumed,
  on_prediction_threshold, on_frame_accepted, is_running, can_advance_deterministic_frame,
}
use sf4_netplay_launcher.Session.Client.{Turn}
use sf4_netplay_launcher.Match.{
  NetplayMode, idle, host, join, NetplayConfig, netplay_config_is_active, GgpoTransportStatus,
  no_transport, GgpoSyncPhase, nothing, starting, connected, synchronizing, in_play, Alert,
  fight_continues, returned_to_menu, server_not_started, graphics_tip, waiting_to_join,
  waiting_in_lobby, no_host_to_spectate, lost_connection, server_error, sync_timed_out,
  opponent_unreachable, could_not_start, could_not_add_players, input_failed, sync_failed,
  buffer_full, udp_relay_unavailable, udp_relay_required, tunnel_not_started, relay_required,
  relay_failed, punch_failed, connection_unstable, connection_restored, opponent_disconnected,
  Player, local_player, remote_player, spectator, Effect, session_started, spectating_started,
  close_session, reset_pacer, pacer_for_session, add_local_input, sync_input, advance_frame,
  engine_update, close_server, engine_close_battle, go_to_versus, System, Facade, VsBattle, Netplay,
  App, World, push_alert, effect, turn_of, after_turn, on_client,
}
use sf4_netplay_launcher.Match.Battle.{
  may_advance_deterministic_frame, retire_ggpo_session, clear_battle_state, leave_battle,
  reset_relay, abort_ggpo_match, cancel_deferred_ggpo_close, begin_session, prepare_match_start,
  is_local, GgpoCalls, add_players, added_spectators, start_ggpo, spectate, disconnect_settings,
}
use sf4_netplay_launcher.Match.Control.{
  notify_game_ready, has_endpoint, capture_broker_ggpo_endpoint, restore_broker_ggpo_endpoint,
  init_from_payload, apply_ggpo_transport_config, report_ggpo_transport, notify_ggpo_sync_phase,
  reset_ggpo_battle_watch, drop_netplay, drop_server, shut_facade, shutdown_netplay,
  user_shutdown_netplay, fail_session, handle_netplay_failure, is_fight_running,
  handle_control_plane_loss, finalize_control_plane_loss_after_battle, should_defer_ggpo_close,
  close_at_once, notify_match_ended, check_graphics_warning, reset_lobby,
}

-- How often sessions were opened, and closed.
abbrev pub opened : List Effect → ℕ
opened [] = 0
opened (session_started players ∷ rest) = suc (opened rest)
opened (spectating_started ip port ∷ rest) = suc (opened rest)
opened (_ ∷ rest) = opened rest

abbrev pub closed : List Effect → ℕ
closed [] = 0
closed (close_session ∷ rest) = suc (closed rest)
closed (_ ∷ rest) = closed rest

pub opened-append : (xs ys : List Effect) → opened (xs ++ ys) ≡ opened xs + opened ys
opened-append [] ys = omega arith
opened-append (session_started players ∷ rest) ys = omega (arith, opened-append rest ys)
opened-append (spectating_started ip port ∷ rest) ys = omega (arith, opened-append rest ys)
opened-append (_ ∷ rest) ys = omega (arith, opened-append rest ys)

pub closed-append : (xs ys : List Effect) → closed (xs ++ ys) ≡ closed xs + closed ys
closed-append [] ys = omega arith
closed-append (close_session ∷ rest) ys = omega (arith, closed-append rest ys)
closed-append (_ ∷ rest) ys = omega (arith, closed-append rest ys)

abbrev pub held : Bool → ℕ
held true = 1
held false = 0

-- How often a synchronization was reported as timed out.
abbrev pub timeouts : List Alert → ℕ
timeouts [] = 0
timeouts (sync_timed_out ∷ rest) = suc (timeouts rest)
timeouts (_ ∷ rest) = timeouts rest

pub timeouts-append : (xs ys : List Alert) → timeouts (xs ++ ys) ≡ timeouts xs + timeouts ys
timeouts-append [] ys = omega arith
timeouts-append (sync_timed_out ∷ rest) ys = omega (arith, timeouts-append rest ys)
timeouts-append (_ ∷ rest) ys = omega (arith, timeouts-append rest ys)

abbrev pub end_session : App → App
end_session a = effect close_session (record a {
  system = record a.system {
    ggpo = false;
    gate = on_session_closed a.system.gate;
    ggpo_connection_interrupted = false;
  };
})

retire_closed : (a : App) → (retire_ggpo_session a).system.ggpo ≡ false
unfolding retire_ggpo_session
retire_closed a = ground arith

cancelled :
    (a : App) → (retire_ggpo_session (cancel_deferred_ggpo_close a)).facade.deferred_pending ≡ false
unfolding retire_ggpo_session cancel_deferred_ggpo_close
cancelled a = ground arith

pub abort_unopened :
    (w : World) (reason : Alert) (a : App) → (abort_ggpo_match w reason a).system.ggpo ≡ false
unfolding abort_ggpo_match clear_battle_state retire_ggpo_session
abort_unopened w reason a = ground arith

abbrev pub has_phase : SimulationPhase → Bool
has_phase no_session = false
has_phase waiting_for_running = true
has_phase running = true
has_phase battle_closing = true

-- The flag says whether a button of the overlay has paused the simulation.
module _ (q : Bool) where
  -- What needs no open session.
  pub record IsBalanced (a : App) : Type 0 where
    pub balanced : opened a.effects ≡ closed a.effects + held a.system.ggpo
    pub undeferred : a.facade.control_plane_lost ≡ true → a.facade.deferred_pending ≡ false
    pub unpaused : q ≡ false → a.system.gate.manual_pause ≡ false
    pub unhalted : q ≡ false → a.system.halt_after_next ≡ false
    pub unreported : q ≡ false → timeouts a.alerts ≡ 0

  pub record SessionInv (a : App) : Type 0 where
    pub base : IsBalanced a
    pub allowed : a.system.ggpo ≡ true → a.system.update_allowed ≡ not a.system.gate.manual_pause
    pub phased : a.system.ggpo ≡ true → has_phase a.system.gate.phase ≡ true
    pub closing :
        a.facade.deferred_pending ≡ true
        → a.system.ggpo ≡ true
        → a.system.gate.phase ≡ battle_closing

  -- An effect that opens and closes no session.
  pub effect-IsBalanced :
      (e : Effect) (a : App)
      → opened (e ∷ []) ≡ 0
      → closed (e ∷ []) ≡ 0
      → IsBalanced a
      → IsBalanced (effect e a)
  effect-IsBalanced e a p o h =
      ground (arith, opened-append a.effects (e ∷ []), closed-append a.effects (e ∷ []))

  pub effect-SessionInv :
      (e : Effect) (a : App)
      → opened (e ∷ []) ≡ 0
      → closed (e ∷ []) ≡ 0
      → SessionInv a
      → SessionInv (effect e a)
  effect-SessionInv e a p o h = record {
    base = effect-IsBalanced e a p o h.base;
    allowed = h.allowed;
    phased = h.phased;
    closing = h.closing;
  }

  end_session-SessionInv :
      (a : App) → a.system.ggpo ≡ true → IsBalanced a → SessionInv (end_session a)
  unfolding on_session_closed
  end_session-SessionInv a e h = ground (
    arith,
    opened-append a.effects (close_session ∷ []),
    closed-append a.effects (close_session ∷ []),
  )

  pub unopened-SessionInv : (a : App) → a.system.ggpo ≡ false → IsBalanced a → SessionInv a
  unopened-SessionInv a e h = record {
    base = h;
    allowed = λ o. cc;
    phased = λ o. cc;
    closing = λ p o. cc;
  }

  pub retire-SessionInv : (a : App) → IsBalanced a → SessionInv (retire_ggpo_session a)
  unfolding retire_ggpo_session
  retire-SessionInv a h =
      if_cases SessionInv (not a.system.ggpo) _ _ (λ e. unopened-SessionInv a (ground arith) h)
        (λ e.
          effect-SessionInv reset_pacer (end_session a) refl refl
            (end_session-SessionInv a (ground arith) h))

  pub on_client-SessionInv : (f : Turn → Turn) (a : App) → SessionInv a → SessionInv (on_client f a)
  on_client-SessionInv f a h = ground arith

  pub clear_battle_state-SessionInv : (a : App) → SessionInv a → SessionInv (clear_battle_state a)
  unfolding clear_battle_state
  clear_battle_state-SessionInv a h = ground arith

  pub leave_battle-SessionInv : (t : Bool) (a : App) → SessionInv a → SessionInv (leave_battle t a)
  leave_battle-SessionInv t a h = ground arith

  pub reset_relay-SessionInv : (a : App) → SessionInv a → SessionInv (reset_relay a)
  reset_relay-SessionInv a h = ground arith

  -- What an abort writes before the session is closed.
  abbrev stopped : Alert → App → App
  stopped reason a = record (push_alert reason a) {
    system = record a.system {
      gate = on_fatal a.system.gate;
      update_allowed = false;
      ggpo_connection_interrupted = false;
    };
  }

  stopped-IsBalanced :
      (reason : Alert) (a : App)
      → (q ≡ false → timeouts (reason ∷ []) ≡ 0)
      → IsBalanced a
      → IsBalanced (stopped reason a)
  unfolding on_fatal
  stopped-IsBalanced reason a r h = record {
    balanced = h.balanced;
    undeferred = h.undeferred;
    unpaused = h.unpaused;
    unhalted = h.unhalted;
    unreported = λ e. omega (arith, timeouts-append a.alerts (reason ∷ []), r e, h.unreported e);
  }

  pub abort-SessionInv :
      (w : World) (reason : Alert) (a : App)
      → (q ≡ false → timeouts (reason ∷ []) ≡ 0)
      → IsBalanced a
      → SessionInv (abort_ggpo_match w reason a)
  unfolding abort_ggpo_match
  abort-SessionInv w reason a r h = leave_battle-SessionInv w.has_system _ (
      clear_battle_state-SessionInv _ (
        reset_relay-SessionInv _
          (retire-SessionInv (stopped reason a) (stopped-IsBalanced reason a r h))))

  -- A state about to hold a session: none is open, none is to be closed later, and the next frame may
  -- be simulated unless the player pauses.
  pub record IsFresh (a : App) : Type 0 where
    pub base : IsBalanced a
    pub unopened : a.system.ggpo ≡ false
    pub uncancelled : a.facade.deferred_pending ≡ false
    pub waiting : a.system.gate.phase ≡ waiting_for_running
    pub advancing : a.system.update_allowed ≡ not a.system.gate.manual_pause

  pub begin_session-IsFresh : (a : App) → IsBalanced a → IsFresh (begin_session a)
  unfolding begin_session on_session_started
  begin_session-IsFresh a h =
      let b = cancel_deferred_ggpo_close a in
      let r = retire-SessionInv b (unfold cancel_deferred_ggpo_close in ground arith) in
      let c = effect-IsBalanced pacer_for_session (retire_ggpo_session b) refl refl r.base in
      ground (
        arith,
        retire_closed b,
        cancelled a,
        opened-append (retire_ggpo_session b).effects (pacer_for_session ∷ []),
      )

  open_session-SessionInv :
      (players : List Player) (t : Bool) (a : App)
      → IsFresh a
      → SessionInv (
          effect
            (session_started players)
            (record a { system = record a.system { ggpo = true; has_local_player = t } }))
  open_session-SessionInv players t a h = ground (
    arith,
    opened-append a.effects (session_started players ∷ []),
    closed-append a.effects (session_started players ∷ []),
  )

  pub prepare_match_start-SessionInv :
      (seed : ℕ) (a : App) → SessionInv a → SessionInv (prepare_match_start seed a)
  unfolding prepare_match_start
  prepare_match_start-SessionInv seed a h = ground arith

  uninterrupted-IsFresh :
      (a : App)
      → IsFresh a
      → IsFresh (record a { system = record a.system { ggpo_connection_interrupted = false } })
  uninterrupted-IsFresh a h = ground arith

  pub start_ggpo-SessionInv :
      (w : World) (g : GgpoCalls) (p0 p1 : Player) (others : List Player) (seed : ℕ) (a : App)
      → IsBalanced a
      → SessionInv (start_ggpo w g p0 p1 others seed a)
  unfolding start_ggpo
  start_ggpo-SessionInv w g p0 p1 others seed a h =
      let f = uninterrupted-IsFresh _ (begin_session-IsFresh a h) in
      let o =
        open_session-SessionInv (p0 ∷ p1 ∷ added_spectators p0 p1 others) (add_players g p0 p1).1 _
          f in
      if_cases SessionInv (not g.start_ok) _ _
        (λ e. abort-SessionInv w could_not_start _ (λ o. refl) f.base)
        (λ e.
          if_cases SessionInv (add_players g p0 p1).0 _ _
            (λ e'. prepare_match_start-SessionInv seed _ o)
            (λ e'. abort-SessionInv w could_not_add_players _ (λ o'. refl) o.base))

  spectate_opens :
      (ip : Bytes) (port : ℕ) (a : App)
      → IsFresh a
      → SessionInv (
          effect
            (spectating_started ip port)
            (record a { system = record a.system { ggpo = true } }))
  spectate_opens ip port a h = ground (
    arith,
    opened-append a.effects (spectating_started ip port ∷ []),
    closed-append a.effects (spectating_started ip port ∷ []),
  )

  pub spectate-SessionInv :
      (is_ok : Bool) (ip : Bytes) (port seed : ℕ) (a : App)
      → IsBalanced a
      → SessionInv (spectate is_ok ip port seed a)
  unfolding spectate
  spectate-SessionInv is_ok ip port seed a h =
      let f = begin_session-IsFresh a h in
      prepare_match_start-SessionInv seed _ (
        if_cases SessionInv is_ok _ _ (λ e. spectate_opens ip port _ f)
          (λ e. unopened-SessionInv _ f.unopened f.base))

  drop_netplay-SessionInv : (a : App) → SessionInv a → SessionInv (drop_netplay a)
  drop_netplay-SessionInv a h = ground arith

  drop_server-SessionInv : (a : App) → SessionInv a → SessionInv (drop_server a)
  drop_server-SessionInv a h = ground (
    arith,
    opened-append a.effects (close_server ∷ []),
    closed-append a.effects (close_server ∷ []),
  )

  shut_facade-SessionInv :
      (a : App) → SessionInv a → SessionInv (record a { facade = shut_facade a.facade })
  shut_facade-SessionInv a h = ground arith

  pub shutdown-SessionInv : (a : App) → IsBalanced a → SessionInv (shutdown_netplay true a)
  unfolding shutdown_netplay
  shutdown-SessionInv a h =
      let r =
        effect-SessionInv reset_pacer (retire_ggpo_session a) refl refl (retire-SessionInv a h) in
      shut_facade-SessionInv _
        (drop_server-SessionInv _ (drop_netplay-SessionInv _ (reset_relay-SessionInv _ r)))
