-- ===== src/Match/Lifetime/Prepares.antt =====
-- PrepareForBattle leaves the session of GGPO alone.
use sf4_netplay_launcher.Prelude.{
  ℕ, refl, Bool, true, false, Option, none, some, [], ◌∷◌, arith, if_cases,
}
use sf4_netplay_launcher.Session.Client.{Turn, Client}
use sf4_netplay_launcher.Match.{
  NetplayConfig, relay_required, relay_failed, punch_failed, Netplay, App, push_alert, turn_of,
  after_turn,
}
use sf4_netplay_launcher.Match.Lifetime.{timeouts-append}
use sf4_netplay_launcher.Match.Lifetime.Quiet.{Keeps, Keeps-refl, Keeps-trans, push_alert-Keeps}
use sf4_netplay_launcher.Session.Protocol.{MatchData}
use sf4_netplay_launcher.Match.Transport.{
  TransportEnv, env_unset, env_legacy, env_udp, env_p2p, env_auto, TransportMode,
  legacy_session_tunnel, udp_relay, p2p, unknown_mode, Network, player_slot, Prepared, refuse,
  reach_relay, lacks_context, with_slot, prepare_relay, without_punch, punch_endpoint, after_punch,
  prepare_p2p, prepare_requested, prepare_for_battle,
}

reach_relay-Keeps :
    (n : Network) (cfg : NetplayConfig) (slot : ℕ) (d : MatchData) (a : App)
    → Keeps a (reach_relay n cfg slot d a).app
unfolding reach_relay
reach_relay-Keeps n cfg slot d a = ground (arith, timeouts-append a.alerts (relay_failed ∷ []))

with_slot-Keeps :
    (n : Network) (cfg : NetplayConfig) (d : MatchData) (a : App) (o : Option ℕ)
    → Keeps a (with_slot n cfg d a o).app
with_slot-Keeps n cfg d a none = Keeps-refl a
with_slot-Keeps n cfg d a (some slot) = reach_relay-Keeps n cfg slot d a

prepare_relay-Keeps :
    (n : Network) (cfg : NetplayConfig) (c : Client) (a : App)
    → Keeps a (prepare_relay n cfg c a).app
unfolding prepare_relay
prepare_relay-Keeps n cfg c a =
    if_cases (λ (p : Prepared). Keeps a p.app) (lacks_context cfg c)
      (refuse cfg udp_relay (push_alert relay_failed a))
      (with_slot n cfg c.match_data a (player_slot c.lobby_data.members c.cid))
      (λ e. push_alert-Keeps relay_failed a refl)
      (λ e. with_slot-Keeps n cfg c.match_data a (player_slot c.lobby_data.members c.cid))

pub after_turn-Keeps : (a : App) (np : Netplay) (t : Turn) → Keeps a (after_turn a np t)
after_turn-Keeps a np t = ground arith

without_punch-Keeps :
    (n : Network) (env : TransportEnv) (cfg : NetplayConfig) (c : Client) (a : App)
    → Keeps a (without_punch n env cfg c a).app
unfolding without_punch
without_punch-Keeps n env_p2p cfg c a = push_alert-Keeps punch_failed a refl
without_punch-Keeps n env_unset cfg c a = prepare_relay-Keeps n cfg c a
without_punch-Keeps n env_legacy cfg c a = prepare_relay-Keeps n cfg c a
without_punch-Keeps n env_udp cfg c a = prepare_relay-Keeps n cfg c a
without_punch-Keeps n env_auto cfg c a = prepare_relay-Keeps n cfg c a

after_punch-Keeps :
    (n : Network) (env : TransportEnv) (cfg : NetplayConfig) (r : Turn × Bool) (a : App)
    → Keeps a (after_punch n env cfg r a).app
after_punch-Keeps n env cfg (t, true) a = Keeps-refl a
after_punch-Keeps n env cfg (t, false) a = without_punch-Keeps n env cfg t.client a

prepare_p2p-Keeps :
    (n : Network) (env : TransportEnv) (cfg : NetplayConfig) (np : Netplay) (a : App)
    → Keeps a (prepare_p2p n env cfg np a).app
unfolding prepare_p2p
prepare_p2p-Keeps n env cfg np a =
    let r = punch_endpoint n cfg (turn_of a np) in
    Keeps-trans (after_turn-Keeps a np r.0) (after_punch-Keeps n env cfg r (after_turn a np r.0))

prepare_requested-Keeps :
    (mode : TransportMode) (n : Network) (env : TransportEnv) (cfg : NetplayConfig) (np : Netplay)
    (a : App)
    → Keeps a (prepare_requested mode n env cfg np a).app
prepare_requested-Keeps legacy_session_tunnel n env cfg np a =
    push_alert-Keeps relay_required a refl
prepare_requested-Keeps udp_relay n env cfg np a = prepare_relay-Keeps n cfg np.client a
prepare_requested-Keeps p2p n env cfg np a = prepare_p2p-Keeps n env cfg np a
prepare_requested-Keeps unknown_mode n env cfg np a = Keeps-refl a

pub prepare-Keeps :
    (n : Network) (env : TransportEnv) (cfg : NetplayConfig) (np : Netplay) (a : App)
    → Keeps a (prepare_for_battle n env cfg np a).app
unfolding prepare_for_battle
prepare-Keeps n env_legacy cfg np a = Keeps-refl a
prepare-Keeps n env_unset cfg np a = prepare_requested-Keeps _ n env_unset cfg np a
prepare-Keeps n env_udp cfg np a = prepare_requested-Keeps _ n env_udp cfg np a
prepare-Keeps n env_p2p cfg np a = prepare_requested-Keeps _ n env_p2p cfg np a
prepare-Keeps n env_auto cfg np a = prepare_requested-Keeps _ n env_auto cfg np a
