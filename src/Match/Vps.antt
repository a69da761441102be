-- ===== src/Match/Vps.antt =====
-- The transport of a session at the relay on the VPS, in src/sf4e/sf4e__UserApp.cxx and
-- src/session/sf4e__GgpoTransport.cxx.
use sf4_netplay_launcher.Prelude.{
  ℕ, ◌≤◌, ◌≡◌, refl, subst, ◌∙◌, Bool, true, false, not, ◌||◌, Option, none, some, List, [], ◌∷◌,
  ◌++◌, ◌==◌, arith, if_cases, length,
}
use sf4_netplay_launcher.Session.Protocol.{MatchData}
use sf4_netplay_launcher.Session.Client.{Turn, Client, is_player}
use sf4_netplay_launcher.Match.{
  NetplayConfig, Alert, udp_relay_unavailable, udp_relay_required, Effect, close_session,
  reset_pacer, Facade, Netplay, App, World, turn_of,
}
use sf4_netplay_launcher.Match.Battle.{
  retire_ggpo_session, clear_battle_state, abort_ggpo_match, cancel_deferred_ggpo_close,
}
use sf4_netplay_launcher.Match.Control.{restore_broker_ggpo_endpoint, report_ggpo_transport}
use sf4_netplay_launcher.Match.Transport.{
  TransportEnv, env_unset, env_legacy, env_udp, env_p2p, env_auto, TransportMode,
  legacy_session_tunnel, udp_relay, p2p, unknown_mode, Network, try_coordinated_p2p_punch, punch,
  probe_udp_relay_health, player_slot, Prepared, refuse, reach_relay, lacks_context, with_slot,
  prepare_relay, without_punch, punch_endpoint, after_punch, prepare_p2p, prepare_requested,
  prepare_for_battle,
}
use sf4_netplay_launcher.Match.Begin.{
  Outside, number_of, is_legacy, Choice, given_up, go_on, transport_config, release_port, settle,
  choose_transport, start_chosen, on_vs_battle_tasks_registered,
}
use sf4_netplay_launcher.Match.Lifetime.{opened, opened-append, abort_unopened}
use sf4_netplay_launcher.Match.Lifetime.Prepares.{prepare-Keeps}

abbrev pub is_legacy_env : TransportEnv → Bool
is_legacy_env env_legacy = true
is_legacy_env _ = false

-- The network gives nothing: no answer of the relay to the probes, and none of the peer to a punch.
pub record IsSilent (n : Network) : Type 0 where
  pub no_peer : (k : ℕ) → n.peer_answers k ≡ false
  pub no_relay : (k : ℕ) → probe_udp_relay_health n k ≡ false

-- What PrepareForBattle gives is never the tunnel, and where the network is silent it gives nothing.
record IsSound (n : Network) (p : Prepared) : Type 0 where
  no_legacy : p.is_prepared ≡ true → is_legacy p.effective ≡ false
  no_miracle : IsSilent n → p.is_prepared ≡ false

refuse-IsSound :
    (n : Network) (cfg : NetplayConfig) (mode : TransportMode) (a : App)
    → IsSound n (refuse cfg mode a)
refuse-IsSound n cfg mode a = record { no_legacy = λ e. cc; no_miracle = λ s. refl }

reach_relay-IsSound :
    (n : Network) (cfg : NetplayConfig) (slot : ℕ) (d : MatchData) (a : App)
    → IsSound n (reach_relay n cfg slot d a)
unfolding reach_relay
reach_relay-IsSound n cfg slot d a =
    if_cases (IsSound n) (not (probe_udp_relay_health n 0 || probe_udp_relay_health n 1)) _ _
      (λ e. refuse-IsSound n cfg udp_relay _)
      (λ e. record {
        no_legacy = λ h. ground arith;
        no_miracle = λ s. absurd (ground (arith, s.no_relay 0, s.no_relay 1));
      })

with_slot-IsSound :
    (n : Network) (cfg : NetplayConfig) (d : MatchData) (a : App) (o : Option ℕ)
    → IsSound n (with_slot n cfg d a o)
with_slot-IsSound n cfg d a none = refuse-IsSound n cfg udp_relay a
with_slot-IsSound n cfg d a (some slot) = reach_relay-IsSound n cfg slot d a

prepare_relay-IsSound :
    (n : Network) (cfg : NetplayConfig) (c : Client) (a : App) → IsSound n (prepare_relay n cfg c a)
unfolding prepare_relay
prepare_relay-IsSound n cfg c a =
    if_cases (IsSound n) (lacks_context cfg c) _ _ (λ e. refuse-IsSound n cfg udp_relay _)
      (λ e. with_slot-IsSound n cfg c.match_data a (player_slot c.lobby_data.members c.cid))

without_punch-IsSound :
    (n : Network) (env : TransportEnv) (cfg : NetplayConfig) (c : Client) (a : App)
    → IsSound n (without_punch n env cfg c a)
unfolding without_punch
without_punch-IsSound n env_p2p cfg c a = refuse-IsSound n cfg p2p _
without_punch-IsSound n env_unset cfg c a = prepare_relay-IsSound n cfg c a
without_punch-IsSound n env_legacy cfg c a = prepare_relay-IsSound n cfg c a
without_punch-IsSound n env_udp cfg c a = prepare_relay-IsSound n cfg c a
without_punch-IsSound n env_auto cfg c a = prepare_relay-IsSound n cfg c a

-- A punch succeeds by an answer of the peer alone.
punched_by_peer :
    (n : Network) (cfg : NetplayConfig) (t : Turn) → IsSilent n → (punch_endpoint n cfg t).1 ≡ false
unfolding punch try_coordinated_p2p_punch
punched_by_peer n cfg t s = ground (arith, s.no_peer 0, s.no_peer 1)

after_punch-IsSound :
    (n : Network) (env : TransportEnv) (cfg : NetplayConfig) (r : Turn × Bool) (a : App)
    → (IsSilent n → r.1 ≡ false)
    → IsSound n (after_punch n env cfg r a)
after_punch-IsSound n env cfg (t, true) a h = record {
  no_legacy = λ e. refl;
  no_miracle = λ s. absurd (ground (arith, h s));
}
after_punch-IsSound n env cfg (t, false) a h = without_punch-IsSound n env cfg t.client a

prepare_requested-IsSound :
    (mode : TransportMode) (n : Network) (env : TransportEnv) (cfg : NetplayConfig) (np : Netplay)
    (a : App)
    → IsSound n (prepare_requested mode n env cfg np a)
unfolding prepare_p2p
prepare_requested-IsSound legacy_session_tunnel n env cfg np a = refuse-IsSound n cfg udp_relay _
prepare_requested-IsSound udp_relay n env cfg np a = prepare_relay-IsSound n cfg np.client a
prepare_requested-IsSound p2p n env cfg np a =
    after_punch-IsSound n env cfg (punch_endpoint n cfg (turn_of a np)) _
      (punched_by_peer n cfg (turn_of a np))
prepare_requested-IsSound unknown_mode n env cfg np a = refuse-IsSound n cfg unknown_mode a

prepare-IsSound :
    (n : Network) (env : TransportEnv) (cfg : NetplayConfig) (np : Netplay) (a : App)
    → is_legacy_env env ≡ false
    → IsSound n (prepare_for_battle n env cfg np a)
unfolding prepare_for_battle
prepare-IsSound n env_legacy cfg np a h = absurd (ground arith)
prepare-IsSound n env_unset cfg np a h = prepare_requested-IsSound _ n env_unset cfg np a
prepare-IsSound n env_udp cfg np a h = prepare_requested-IsSound _ n env_udp cfg np a
prepare-IsSound n env_p2p cfg np a h = prepare_requested-IsSound _ n env_p2p cfg np a
prepare-IsSound n env_auto cfg np a h = prepare_requested-IsSound _ n env_auto cfg np a

restored_session :
    (f : Facade) → (transport_config f).use_central_session ≡ f.config.use_central_session
unfolding transport_config restore_broker_ggpo_endpoint
restored_session f = ground arith

abort-opened :
    (w : World) (reason : Alert) (a : App)
    → opened (abort_ggpo_match w reason a).effects ≡ opened a.effects
unfolding abort_ggpo_match retire_ggpo_session clear_battle_state
abort-opened w reason a = ground (
  arith,
  opened-append a.effects (close_session ∷ []),
  opened-append (a.effects ++ close_session ∷ []) (reset_pacer ∷ []),
)

release-opened : (a : App) → opened (release_port a).effects ≡ opened a.effects
unfolding retire_ggpo_session cancel_deferred_ggpo_close
release-opened a = ground (
  arith,
  opened-append a.effects (close_session ∷ []),
  opened-append (a.effects ++ close_session ∷ []) (reset_pacer ∷ []),
)

-- A choice from a state with the effects `es`: given up, it leaves no session and has opened none;
-- and it goes on only without the tunnel, and not where the network is silent.
IsSafe : Network → List Effect → Choice → Type 0
IsSafe n es (given_up b) = (b.system.ggpo ≡ false) × (opened b.effects ≡ opened es)
IsSafe n es (go_on t b) = (t ≡ false) × ¬ (IsSilent n)

give_up-IsSafe :
    (n : Network) (es : List Effect) (w : World) (reason : Alert) (mode : ℕ) (a : App)
    → opened a.effects ≡ opened es
    → IsSafe n es (given_up (abort_ggpo_match w reason (report_ggpo_transport mode false [] 0 a)))
unfolding IsSafe
give_up-IsSafe n es w reason mode a h =
    let b = report_ggpo_transport mode false [] 0 a in
    (abort_unopened w reason b, abort-opened w reason b ∙ (unfold report_ggpo_transport in h))

go_on-IsSafe :
    (n : Network) (es : List Effect) (t : Bool) (b : App)
    → t ≡ false
    → ¬ (IsSilent n)
    → IsSafe n es (go_on t b)
unfolding IsSafe
go_on-IsSafe n es t b h k = (h, k)

settle-IsSafe :
    (n : Network) (es : List Effect) (w : World) (p : Prepared)
    → IsSound n p
    → opened p.app.effects ≡ opened es
    → IsSafe n es (settle w p)
settle-IsSafe n es w p s h =
    if_cases (IsSafe n es) (not p.is_prepared) _ _
      (λ e. give_up-IsSafe n es w udp_relay_unavailable (number_of p.cfg p.effective) _ h)
      (λ e.
        if_cases (IsSafe n es) (is_legacy p.effective) _ _
          (λ k. absurd (ground (arith, s.no_legacy)))
          (λ k.
            go_on-IsSafe n es _ _ (ground arith) (λ silent. ground (arith, s.no_miracle silent))))

choose-IsSafe :
    (w : World) (o : Outside) (n : Netplay) (a : App)
    → a.facade.config.use_central_session ≡ 2
    → is_legacy_env o.env ≡ false
    → IsSafe o.network a.effects (choose_transport w o n a)
unfolding choose_transport
choose-IsSafe w o n a c e =
    let cfg = transport_config a.facade in
    let p = prepare_for_battle o.network o.env cfg n (release_port a) in
    let k = prepare-Keeps o.network o.env cfg n (release_port a) in
    if_cases (IsSafe o.network a.effects) (not (cfg.use_central_session == 2)) _ _
      (λ h. absurd (ground (arith, restored_session a.facade)))
      (λ h.
        if_cases (IsSafe o.network a.effects) (cfg.ggpo_transport == 0) _ _
          (λ z. give_up-IsSafe o.network a.effects w udp_relay_required 1 a refl)
          (λ z.
            settle-IsSafe o.network a.effects w p
              (prepare-IsSound o.network o.env cfg n (release_port a) e)
              (k.opens ∙ release-opened a)))

-- Unless SF4E_GGPO_TRANSPORT asks for it, a session at the VPS goes on to GGPO without the tunnel,
-- and only where the relay has answered a probe or the peer a punch.
pub vps_choice :
    (w : World) (o : Outside) (n : Netplay) (a b : App) (t : Bool)
    → a.facade.config.use_central_session ≡ 2
    → is_legacy_env o.env ≡ false
    → choose_transport w o n a ≡ go_on t b
    → (t ≡ false) × ¬ (IsSilent o.network)
unfolding IsSafe
vps_choice w o n a b t c e h = subst (IsSafe o.network a.effects) h (choose-IsSafe w o n a c e)

started_safe :
    (w : World) (o : Outside) (es : List Effect) (c : Choice)
    → IsSafe o.network es c
    → IsSilent o.network
    → ((start_chosen w o c).system.ggpo ≡ false) × (opened (start_chosen w o c).effects ≡ opened es)
unfolding IsSafe start_chosen
started_safe w o es (given_up b) h s = h
started_safe w o es (go_on t b) h s = absurd (h.1 s)

-- A player in a lobby of two members at least, of a session at the VPS whose relay does not answer,
-- and whose peer does not either: unless SF4E_GGPO_TRANSPORT asks for the tunnel, the start of the
-- battle opens no session of GGPO, and leaves none open.
pub vps_silent :
    (w : World) (o : Outside) (n : Netplay) (a : App)
    → a.netplay ≡ some n
    → 2 ≤ length n.client.lobby_data.members
    → is_player n.client.lobby_data.members n.client.cid ≡ true
    → a.facade.config.use_central_session ≡ 2
    → is_legacy_env o.env ≡ false
    → IsSilent o.network
    → ((on_vs_battle_tasks_registered w o a).system.ggpo ≡ false)
      × (opened (on_vs_battle_tasks_registered w o a).effects ≡ opened a.effects)
unfolding on_vs_battle_tasks_registered
vps_silent w o n a e l p c v s =
    let (closed, same) =
      started_safe w o a.effects (choose_transport w o n a) (choose-IsSafe w o n a c v) s in
    (ground (arith, e, p, closed), ground (arith, e, p, same))
