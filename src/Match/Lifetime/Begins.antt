-- ===== src/Match/Lifetime/Begins.antt =====
-- The invariant of the session of GGPO is kept at the start of a battle and, with the other modules
-- here, by every action of Match/Run.antt.
use sf4_netplay_launcher.Prelude.{
  ℕ, ◌≡◌, refl, Bool, true, false, not, some, List, [], ◌∷◌, if◌then◌else◌, arith, ltb, ◌==◌,
  if_cases, option_cases, length, Bytes,
}
use sf4_netplay_launcher.Session.Client.{is_player}
use sf4_netplay_launcher.Match.{
  NetplayConfig, Alert, waiting_in_lobby, no_host_to_spectate, udp_relay_unavailable,
  udp_relay_required, tunnel_not_started, Netplay, App, World, push_alert,
}
use sf4_netplay_launcher.Match.Battle.{abort_ggpo_match, cancel_deferred_ggpo_close}
use sf4_netplay_launcher.Match.Control.{
  restore_broker_ggpo_endpoint, apply_ggpo_transport_config, report_ggpo_transport,
  reset_ggpo_battle_watch,
}
use sf4_netplay_launcher.Match.Lifetime.{
  timeouts, SessionInv, retire-SessionInv, reset_relay-SessionInv, abort-SessionInv,
  start_ggpo-SessionInv, spectate-SessionInv,
}
use sf4_netplay_launcher.Match.Lifetime.Quiet.{Keeps, Keeps-SessionInv, vs-Keeps}
use sf4_netplay_launcher.Session.Protocol.{MemberData}
use sf4_netplay_launcher.Session.GgpoRelay.{GgpoRelay, start}
use sf4_netplay_launcher.Match.Transport.{Prepared, prepare_for_battle}
use sf4_netplay_launcher.Match.Lifetime.Prepares.{prepare-Keeps}
use sf4_netplay_launcher.Match.Begin.{
  Outside, number_of, is_legacy, Choice, given_up, go_on, transport_config, release_port, settle,
  choose_transport, start_players, start_over, start_chosen, start_spectator,
  on_vs_battle_tasks_registered,
}
use sf4_netplay_launcher.Match.Versus.{register_tasks}
use sf4_netplay_launcher.Match.Lifetime.Loss.{push_alert-SessionInv}

apply_config-Keeps :
    (cfg : NetplayConfig) (a : App)
    → Keeps a (record a { facade = apply_ggpo_transport_config cfg a.facade })
unfolding apply_ggpo_transport_config restore_broker_ggpo_endpoint
apply_config-Keeps cfg a = ground arith

watch-Keeps : (w : World) (a : App) → Keeps a (reset_ggpo_battle_watch w a)
unfolding reset_ggpo_battle_watch
watch-Keeps w a = ground arith

report-Keeps :
    (mode : ℕ) (t : Bool) (ip : Bytes) (port : ℕ) (a : App)
    → Keeps a (report_ggpo_transport mode t ip port a)
unfolding report_ggpo_transport
report-Keeps mode t ip port a = ground arith

module _ (q : Bool) where
  -- What holds of the state that a choice leads to.
  ChoiceHolds : Choice → Type 0
  ChoiceHolds (given_up a) = SessionInv q a
  ChoiceHolds (go_on is_tunnel a) = SessionInv q a

  cancel-SessionInv : (a : App) → SessionInv q a → SessionInv q (cancel_deferred_ggpo_close a)
  unfolding cancel_deferred_ggpo_close
  cancel-SessionInv a h = ground arith

  release_port-SessionInv : (a : App) → SessionInv q a → SessionInv q (release_port a)
  release_port-SessionInv a h =
      if_cases (SessionInv q) a.system.ggpo _ _
        (λ e. reset_relay-SessionInv q _ (retire-SessionInv q _ (cancel-SessionInv a h).base))
        (λ e. h)

  give_up-SessionInv :
      (w : World) (reason : Alert) (mode : ℕ) (a : App)
      → timeouts (reason ∷ []) ≡ 0
      → SessionInv q a
      → SessionInv q (abort_ggpo_match w reason (report_ggpo_transport mode false [] 0 a))
  give_up-SessionInv w reason mode a e h =
      abort-SessionInv q w reason _ (λ o. e)
        (Keeps-SessionInv q (report-Keeps mode false [] 0 a) h).base

  settle-Holds : (w : World) (p : Prepared) → SessionInv q p.app → ChoiceHolds (settle w p)
  unfolding ChoiceHolds
  settle-Holds w p h =
      let k = Keeps-SessionInv q (apply_config-Keeps p.cfg p.app) h in
      if_cases ChoiceHolds (not p.is_prepared) _ _
        (λ e. give_up-SessionInv w udp_relay_unavailable (number_of p.cfg p.effective) _ refl k)
        (λ e.
          if_cases ChoiceHolds (is_legacy p.effective) _ _
            (λ o. Keeps-SessionInv q (report-Keeps _ true [] 0 _) k)
            (λ o.
              Keeps-SessionInv q
                (report-Keeps _ false p.cfg.ggpo_remote_host p.cfg.ggpo_remote_port _) k))

  choose-Holds :
      (w : World) (o : Outside) (n : Netplay) (a : App)
      → SessionInv q a
      → ChoiceHolds (choose_transport w o n a)
  unfolding choose_transport ChoiceHolds
  choose-Holds w o n a h =
      let cfg = transport_config a.facade in
      if_cases ChoiceHolds (not (cfg.use_central_session == 2)) _ _ (λ e. h)
        (λ e.
          if_cases ChoiceHolds (cfg.ggpo_transport == 0) _ _
            (λ z. give_up-SessionInv w udp_relay_required 1 a refl h)
            (λ z. settle-Holds w (prepare_for_battle o.network o.env cfg n (release_port a)) (
              Keeps-SessionInv q (prepare-Keeps o.network o.env cfg n (release_port a))
                (release_port-SessionInv a h))))

  start_players-SessionInv :
      (w : World) (o : Outside) (n : Netplay) (t : Bool) (members : List MemberData) (a : App)
      → SessionInv q a
      → SessionInv q (start_players w o n t members a)
  unfolding start_players
  start_players-SessionInv w o n t [] a h = h
  start_players-SessionInv w o n t (m0 ∷ []) a h = h
  start_players-SessionInv w o n t (m0 ∷ m1 ∷ rest) a h =
      Keeps-SessionInv q (watch-Keeps w _) (start_ggpo-SessionInv q w o.ggpo _ _ _ _ a h.base)

  relay-SessionInv :
      (r : GgpoRelay) (a : App) → SessionInv q a → SessionInv q (record a { relay = r })
  relay-SessionInv r a h = ground arith

  start_over-SessionInv :
      (w : World) (o : Outside) (n : Netplay) (t : Bool) (a : App)
      → SessionInv q a
      → SessionInv q (start_over w o n t a)
  unfolding start_over
  start_over-SessionInv w o n false a h =
      start_players-SessionInv w o n false n.client.lobby_data.members a h
  start_over-SessionInv w o n true a h =
      let s = start o.winsock a.relay n.client.ggpo_port (some n.client) in
      let k = relay-SessionInv s.relay a h in
      if_cases (SessionInv q) s.is_ok _ _
        (λ e. start_players-SessionInv w o n true n.client.lobby_data.members _ k)
        (λ e. push_alert-SessionInv q tunnel_not_started _ refl k)

  start_chosen-SessionInv :
      (w : World) (o : Outside) (c : Choice) → ChoiceHolds c → SessionInv q (start_chosen w o c)
  unfolding start_chosen ChoiceHolds
  start_chosen-SessionInv w o (given_up a) h = h
  start_chosen-SessionInv w o (go_on t a) h =
      option_cases (SessionInv q) a.netplay _ _ (λ e. h) (λ n e. start_over-SessionInv w o n t a h)

  start_spectator-SessionInv :
      (w : World) (o : Outside) (n : Netplay) (members : List MemberData) (a : App)
      → SessionInv q a
      → SessionInv q (start_spectator w o n members a)
  unfolding start_spectator
  start_spectator-SessionInv w o n [] a h = push_alert-SessionInv q no_host_to_spectate a refl h
  start_spectator-SessionInv w o n (m ∷ rest) a h =
      spectate-SessionInv q o.spectate_ok _ m.port _ a h.base

  begin_with-SessionInv :
      (w : World) (o : Outside) (a : App) (n : Netplay)
      → SessionInv q a
      → SessionInv q (
          if ltb (length n.client.lobby_data.members) 2
          then push_alert waiting_in_lobby a
          else if is_player n.client.lobby_data.members n.client.cid
          then start_chosen w o (choose_transport w o n a)
          else start_spectator w o n n.client.lobby_data.members a)
  begin_with-SessionInv w o a n h =
      if_cases (SessionInv q) (ltb (length n.client.lobby_data.members) 2) _ _
        (λ e. push_alert-SessionInv q waiting_in_lobby a refl h)
        (λ e.
          if_cases (SessionInv q) (is_player n.client.lobby_data.members n.client.cid) _ _
            (λ p. start_chosen-SessionInv w o _ (choose-Holds w o n a h))
            (λ p. start_spectator-SessionInv w o n n.client.lobby_data.members a h))

  pub register_tasks-SessionInv :
      (w : World) (o : Outside) (a : App) → SessionInv q a → SessionInv q (register_tasks w o a)
  unfolding register_tasks on_vs_battle_tasks_registered
  register_tasks-SessionInv w o a h =
      if_cases (SessionInv q) a.vs.has_battle_hook _ _
        (λ e. Keeps-SessionInv q (vs-Keeps _ _) (
          option_cases (SessionInv q) a.netplay _ _ (λ z. h)
            (λ n z. begin_with-SessionInv w o a n h)))
        (λ e. h)
