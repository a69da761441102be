-- ===== src/Match/Battle.antt =====
-- The lifetime of a GGPO session in src/sf4e/sf4e__Game__Battle__System.cxx, and the parts of
-- src/sf4e/sf4e__NetplayFacade.cxx that it calls. Logs and diagnostics are left out.
use sf4_netplay_launcher.Prelude.{
  ℕ, ◌+◌, ◌*◌, ◌/◌, ◌%◌, ◌^◌, Bool, true, false, not, ◌&&◌, ◌||◌, none, some, [], ltb, leb, ◌∷◌,
  List, Bytes, if◌then◌else◌,
}
use sf4_netplay_launcher.Prelude.Int.{negsuc}
use sf4_netplay_launcher.Gate.{
  on_session_started, on_session_closed, on_fatal, can_advance_deterministic_frame,
}
use sf4_netplay_launcher.Checkpoints.{clear_hash_checkpoints}
use sf4_netplay_launcher.Session.Client.Events
use sf4_netplay_launcher.Session.GgpoRelay.{reset}
use sf4_netplay_launcher.Match.{
  NetplayConfig, System, Alert, App, World, push_alert, effect, on_client, session_started,
  close_session, reset_pacer, pacer_for_session, could_not_start, could_not_add_players,
  spectating_started, Player, local_player, remote_player, spectator,
}

unfoldable pub may_advance_deterministic_frame : System → Bool
may_advance_deterministic_frame s =
    if not s.ggpo
    then s.update_allowed
    else s.update_allowed && can_advance_deterministic_frame s.gate

unfoldable pub retire_ggpo_session : App → App
retire_ggpo_session a =
    if not a.system.ggpo
    then a
    else effect reset_pacer (
        effect close_session (record a {
          system = record a.system {
            ggpo = false;
            gate = on_session_closed a.system.gate;
            ggpo_connection_interrupted = false;
          };
        }))

-- NetplayFacade::ClearBattleState, with or without a client.
unfoldable pub clear_battle_state : App → App
clear_battle_state a = elim a.netplay [
  | none ↦ record a { game = record (clear_hash_checkpoints a.game) { snapshot_map = [] } }
  | some n ↦ on_client Events.clear_battle_state a
]

abbrev pub leave_battle : Bool → App → App
leave_battle is_over a =
    if is_over then record a { game = record a.game { is_leaving = true } } else a

abbrev pub reset_relay : App → App
reset_relay a = record a { relay = reset a.relay }

unfoldable pub abort_ggpo_match : World → Alert → App → App
abort_ggpo_match w reason a =
    let b = push_alert reason a in
    let c = record b {
      system = record b.system {
        gate = on_fatal b.system.gate;
        update_allowed = false;
        ggpo_connection_interrupted = false;
      };
    } in
    leave_battle w.has_system (clear_battle_state (reset_relay (retire_ggpo_session c)))

unfoldable pub cancel_deferred_ggpo_close : App → App
cancel_deferred_ggpo_close a = record a {
  facade = record a.facade { defer_close = false; deferred_pending = false; defer_close_until = 0 };
}

-- The common beginning of StartGGPO and StartSpectating.
unfoldable pub begin_session : App → App
begin_session a =
    let b = retire_ggpo_session (cancel_deferred_ggpo_close a) in
    effect pacer_for_session (record b {
      system = record b.system {
        gate = on_session_started b.system.gate;
        update_allowed = not b.system.gate.manual_pause;
        has_local_player = false;
        last_ggpo_save_frame = negsuc 0;
      };
    })

-- The common end of the two.
unfoldable pub prepare_match_start : ℕ → App → App
prepare_match_start rng_seed a = record a {
  system = record a.system { goes_to_match_start = true };
  vs = record a.vs { terminate_on_next_left_battle = true; next_match_random_seed = some rng_seed };
}

abbrev pub is_local : Player → Bool
is_local local_player = true
is_local (remote_player host port) = false
is_local (spectator host port) = false

-- What ggpo_start_session gives, and what ggpo_add_player gives for the two players; adding a
-- spectator that fails changes nothing.
pub record GgpoCalls : Type 0 where
  pub start_ok : Bool
  pub add_ok0 : Bool
  pub add_ok1 : Bool

-- The loop over the two players: whether it ends without an abort, and whether a player that was
-- added is the local one.
abbrev pub add_players : GgpoCalls → Player → Player → Bool × Bool
add_players g p0 p1 =
    if not g.add_ok0
    then (false, false)
    else if not g.add_ok1
    then (false, is_local p0)
    else (true, is_local p0 || is_local p1)

-- The spectators that are added: none, unless the first player is the local one.
abbrev pub added_spectators : Player → Player → List Player → List Player
added_spectators p0 p1 others = if is_local p0 && not (is_local p1) then others else []

-- The two players, and the others.
unfoldable pub start_ggpo : World → GgpoCalls → Player → Player → List Player → ℕ → App → App
start_ggpo w g p0 p1 others rng_seed a =
    let b = begin_session a in
    let c = record b { system = record b.system { ggpo_connection_interrupted = false } } in
    if not g.start_ok
    then abort_ggpo_match w could_not_start c
    else (let d = effect (session_started (p0 ∷ p1 ∷ added_spectators p0 p1 others)) (record c {
      system = record c.system { ggpo = true; has_local_player = (add_players g p0 p1).1 };
    }) in
        if (add_players g p0 p1).0
        then prepare_match_start rng_seed d
        else abort_ggpo_match w could_not_add_players d)

-- StartSpectating, at the host's address, with or without success of ggpo_start_spectating.
unfoldable pub spectate : Bool → Bytes → ℕ → ℕ → App → App
spectate is_ok host_ip host_port rng_seed a =
    let b = begin_session a in
    prepare_match_start rng_seed (
      if is_ok
      then effect (spectating_started host_ip host_port)
          (record b { system = record b.system { ggpo = true } })
      else b)

-- ApplyGgpoDisconnectSettings: the two times for the library, of 16 bits each.
unfoldable pub disconnect_settings : NetplayConfig → ℕ × ℕ
disconnect_settings cfg =
    if leb 8 cfg.version && ltb 0 cfg.ggpo_disconnect_timeout_ms
    then (
      cfg.ggpo_disconnect_timeout_ms,
      (if ltb 0 cfg.ggpo_disconnect_notify_ms
          then cfg.ggpo_disconnect_notify_ms
          else cfg.ggpo_disconnect_timeout_ms / 2),
    )
    else let derived = (1000 + cfg.input_delay * 500) % 2 ^ 16 in
      let timeout = if ltb derived 3000 then 3000 else derived in (timeout, timeout / 2)
