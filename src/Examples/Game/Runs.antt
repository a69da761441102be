-- ===== src/Examples/Game/Runs.antt =====
-- Runs of the models of src/sf4e: the application from its start to a battle and behind it.
use sf4_netplay_launcher.Prelude.{◌≡◌, refl, true, false, [], ◌∷◌, ◌++◌, arith, bytes_eq}
use sf4_netplay_launcher.Session.Protocol.{conn_id_eq}
use sf4_netplay_launcher.Session.Client
use sf4_netplay_launcher.Session.Client.{Client, Env, send_loaded as loaded_message, is_player}
use sf4_netplay_launcher.Match.{fight_continues, returned_to_menu, lost_connection, server_error}
use sf4_netplay_launcher.Match.Control.{
  handle_control_plane_loss, should_defer_ggpo_close, notify_match_ended,
}
use sf4_netplay_launcher.Match.Transport.{probe_udp_relay_health}
use sf4_netplay_launcher.Match.Begin.{on_vs_battle_tasks_registered}
use sf4_netplay_launcher.Match.Update.{close_battle}
use sf4_netplay_launcher.Match.Run.{act, run}
use sf4_netplay_launcher.Match.Lifetime.{opened, timeouts, SessionInv}
use sf4_netplay_launcher.Match.Lifetime.Actions.{IsStart, run-SessionInv, run-unreported}
use sf4_netplay_launcher.Match.Degraded.{IsShut, loss_in_fight}
use sf4_netplay_launcher.Match.AutoStart.{
  tick_all, IsUsable, IsWaiting, IsStarted, auto_start_exact,
}
use sf4_netplay_launcher.Match.Vps.{IsSilent, vps_silent}
use sf4_netplay_launcher.Match.Deferral.{deferral_wraps}
use sf4_netplay_launcher.Match.Loading.{poll_all, poll_all_unsynced}
use sf4_netplay_launcher.Examples.Game.{
  alice, two_players, with_spectator, new_app, world, silence, outside, waits_long, whole_battle,
  behind, fighting, waiting, usable, bare, at_vps, three_polls, watched, w_end,
}

new_app-IsStart : IsStart new_app
new_app-IsStart = record {
  unopened = refl;
  unpaused = refl;
  unhalted = refl;
  healthy = refl;
  silent = refl;
  idle = refl;
}

run-SessionInv_example : SessionInv true (behind whole_battle)
unfolding run act
run-SessionInv_example =
    run-SessionInv whole_battle new_app (behind whole_battle) new_app-IsStart refl

run-unreported_example : timeouts (behind waits_long).alerts ≡ 0
unfolding run act
run-unreported_example =
    run-unreported waits_long new_app (behind waits_long) new_app-IsStart refl refl

loss_in_fight_example :
    let b = handle_control_plane_loss (world 7) lost_connection fighting in
    (b.system ≡ fighting.system)
    × (b.game ≡ fighting.game)
    × (b.netplay ≡ fighting.netplay)
    × (b.server ≡ fighting.server)
    × (handle_control_plane_loss (world 8) server_error b ≡ b)
    × IsShut (close_battle (world 9) b)
    × ((close_battle (world 9) b).alerts
        ≡ fighting.alerts ++ fight_continues ∷ returned_to_menu ∷ [])
loss_in_fight_example =
    loss_in_fight (world 7) (world 8) (world 9) lost_connection server_error fighting refl refl refl

usable-IsUsable : IsUsable usable
usable-IsUsable = record {
  root = refl;
  pad_system = refl;
  pad = (0, 1);
  captures = refl;
  listens = λ port. refl;
}

auto_start_exact_example :
    IsWaiting (tick_all (bare ∷ usable ∷ []) waiting)
    × ((tick_all (bare ∷ usable ∷ []) waiting).netplay ≡ waiting.netplay)
    × IsStarted (tick_all (bare ∷ usable ∷ usable ∷ []) waiting)
auto_start_exact_example =
    auto_start_exact (bare ∷ usable ∷ []) usable waiting
      (record { pending = refl; ready = refl; active = refl }) (omega arith) usable-IsUsable

silence-IsSilent : IsSilent silence
unfolding probe_udp_relay_health
silence-IsSilent = record { no_peer = λ k. refl; no_relay = λ k. refl }

vps_silent_example :
    ((on_vs_battle_tasks_registered (world 5) outside at_vps).system.ggpo ≡ false)
    × (opened (on_vs_battle_tasks_registered (world 5) outside at_vps).effects ≡ opened [])
unfolding is_player conn_id_eq bytes_eq alice Client.init
vps_silent_example =
    vps_silent (world 5) outside two_players at_vps refl (omega arith) refl refl refl
      silence-IsSilent

poll_all_unsynced_example :
    ((poll_all three_polls new_app).0.sent ≡ loaded_message ∷ [])
    × ((poll_all three_polls new_app).1 ≡ false)
poll_all_unsynced_example = poll_all_unsynced three_polls new_app two_players refl refl refl

deferral_wraps_example :
    (should_defer_ggpo_close w_end (notify_match_ended w_end watched).facade).0 ≡ false
unfolding alice
deferral_wraps_example =
    deferral_wraps w_end watched with_spectator refl refl refl (omega arith) (omega arith)
      (omega arith)
