-- ===== src/Match/Lifetime/Lobby.antt =====
-- The other actions that neither open nor close a session of GGPO and leave its state alone: the
-- lobby, the tunnel, the event of the battle, and the steps of the client and of the server.
use sf4_netplay_launcher.Prelude.{
  ℕ, ◌≡◌, refl, Bool, false, not, ◌&&◌, ◌||◌, some, List, [], ◌∷◌, if◌then◌else◌, arith, ltb,
  if_cases, option_cases, Bytes, length,
}
use sf4_netplay_launcher.Session.Protocol.{LobbyData}
use sf4_netplay_launcher.Session.Client.{Env}
use sf4_netplay_launcher.Session.Client.Step.{Poll}
use sf4_netplay_launcher.Session.Server.Step
use sf4_netplay_launcher.Match.{NetplayConfig, waiting_to_join, Netplay, App}
use sf4_netplay_launcher.Match.Battle.{clear_battle_state}
use sf4_netplay_launcher.Match.Control.{
  notify_game_ready, capture_broker_ggpo_endpoint, init_from_payload, reset_lobby,
}
use sf4_netplay_launcher.Match.Frame.{
  versus_of, start_match_from_lobby, on_ready, try_start_pending_match, is_first_member, is_host,
  settings_request, send_settings_with, send_lobby_settings, pump_tunnel, Tick,
}
use sf4_netplay_launcher.Match.Versus.{
  Block, has_initialized, check_and_maybe_exit, prepare_battle_request, exit_foreground,
  on_battle_synced,
}
use sf4_netplay_launcher.Match.Run.{step_client, step_server}
use sf4_netplay_launcher.Match.Lifetime.{opened, closed}
use sf4_netplay_launcher.Match.Lifetime.Quiet.{
  Keeps, Keeps-refl, Keeps-trans, push_alert-Keeps, effect-Keeps, facade-Keeps, vs-Keeps,
  on_client-Keeps, clear_battle_state-Keeps,
}

versus_closed : (d : LobbyData) → (opened (versus_of d ∷ []) ≡ 0) × (closed (versus_of d ∷ []) ≡ 0)
versus_closed d = ground arith

pub pending-Keeps : (t : Bool) (a : App) → Keeps a (record a { pending_match_start = t })
pending-Keeps t a = ground arith

start_match-Keeps :
    (on_menu : Bool) (n : Netplay) (a : App) → Keeps a (start_match_from_lobby on_menu n a).0
unfolding start_match_from_lobby
start_match-Keeps on_menu n a =
    let c = clear_battle_state a in
    let k =
      Keeps-trans (clear_battle_state-Keeps a)
        (vs-Keeps (record c.vs { session_synced = false; session_sent_loaded = false }) c) in
    if_cases (λ (r : App × Bool). Keeps a r.0) (ltb (length n.client.lobby_data.members) 2) _ _
      (λ e. Keeps-trans k (push_alert-Keeps waiting_to_join _ refl))
      (λ e.
        if_cases (λ (r : App × Bool). Keeps a r.0) (not on_menu) _ _ (λ e'. k)
          (λ e'. Keeps-trans k (
            Keeps-trans (vs-Keeps _ _) (
              effect-Keeps (versus_of n.client.lobby_data) _ (versus_closed n.client.lobby_data).0
                (versus_closed n.client.lobby_data).1))))

pub on_ready-Keeps : (on_menu : Bool) (n : Netplay) (a : App) → Keeps a (on_ready on_menu n a)
unfolding on_ready
on_ready-Keeps on_menu n a = Keeps-trans (start_match-Keeps on_menu n a) (pending-Keeps _ _)

try_start_with-Keeps :
    (on_menu : Bool) (a : App) (n : Netplay)
    → Keeps a (
        if ltb (length n.client.lobby_data.members) 2
        then a
        else let (b, started) = start_match_from_lobby on_menu n a in
          if started then record b { pending_match_start = false } else b)
try_start_with-Keeps on_menu a n =
    let k = start_match-Keeps on_menu n a in
    if_cases (Keeps a) (ltb (length n.client.lobby_data.members) 2) _ _ (λ e. Keeps-refl a)
      (λ e.
        if_cases (Keeps a) (start_match_from_lobby on_menu n a).1 _ _
          (λ s. Keeps-trans k (pending-Keeps false _)) (λ s. k))

try_start-Keeps : (on_menu : Bool) (a : App) → Keeps a (try_start_pending_match on_menu a)
unfolding try_start_pending_match
try_start-Keeps on_menu a =
    if_cases (Keeps a) (not a.pending_match_start) _ _ (λ e. Keeps-refl a)
      (λ e.
        option_cases (Keeps a) a.netplay _ _ (λ h. Keeps-refl a)
          (λ n h. try_start_with-Keeps on_menu a n))

send_settings_with-Keeps : (t : Bool) (a : App) (n : Netplay) → Keeps a (send_settings_with t a n)
send_settings_with-Keeps t a n =
    let k = on_client-Keeps (settings_request a.facade.config) a in
    if_cases (Keeps a) (n.client.is_connected && is_first_member n.client) _ _
      (λ e. if_cases (Keeps a) t _ _ (λ e'. Keeps-trans k (facade-Keeps _ _ refl refl)) (λ e'. k))
      (λ e. Keeps-refl a)

send_lobby_settings-Keeps : (t : Bool) (a : App) → Keeps a (send_lobby_settings t a)
unfolding send_lobby_settings
send_lobby_settings-Keeps t a =
    if_cases (Keeps a) (a.facade.sent_lobby_settings || not (is_host a.facade.config)) _ _
      (λ e. Keeps-refl a)
      (λ e.
        option_cases (Keeps a) a.netplay _ _ (λ h. Keeps-refl a)
          (λ n h. send_settings_with-Keeps t a n))

pump_tunnel-Keeps :
    (env : Env) (inbox : ℕ → List Bytes) (a : App) → Keeps a (pump_tunnel env inbox a)
unfolding pump_tunnel
pump_tunnel-Keeps env inbox a = ground arith

-- The first half of a frame.
pub before_timeout-Keeps :
    (t : Tick) (a : App)
    → Keeps a (
        pump_tunnel t.env t.inbox
          (send_lobby_settings t.send_ok (try_start_pending_match t.on_menu a)))
before_timeout-Keeps t a =
    Keeps-trans (try_start-Keeps t.on_menu a)
      (Keeps-trans (send_lobby_settings-Keeps t.send_ok _) (pump_tunnel-Keeps t.env t.inbox _))

pub has_initialized-Keeps :
    (block : Block) (t : Bool) (a : App) → Keeps a (has_initialized block t a).0
unfolding has_initialized
has_initialized-Keeps block t a = ground arith

pub check_exit-Keeps : (a : App) → Keeps a (check_and_maybe_exit a).0
unfolding check_and_maybe_exit
check_exit-Keeps a = ground arith

pub request-Keeps : (a : App) → Keeps a (prepare_battle_request a).0
unfolding prepare_battle_request
request-Keeps a = vs-Keeps _ a

pub synced-Keeps : (a : App) → Keeps a (on_battle_synced a)
unfolding on_battle_synced
synced-Keeps a = vs-Keeps _ a

reset_lobby-Keeps : (a : App) → Keeps a (reset_lobby a)
unfolding reset_lobby
reset_lobby-Keeps a = ground arith

pub exit_foreground-Keeps : (a : App) → Keeps a (exit_foreground a)
unfolding exit_foreground reset_lobby
exit_foreground-Keeps a = ground arith

pub payload-Keeps :
    (no_relay is_dev : Bool) (cfg : NetplayConfig) (a : App)
    → Keeps a (init_from_payload no_relay is_dev cfg a)
unfolding init_from_payload capture_broker_ggpo_endpoint
payload-Keeps no_relay is_dev cfg a = ground arith

pub ready-Keeps : (a : App) → Keeps a (notify_game_ready a)
unfolding notify_game_ready
ready-Keeps a = facade-Keeps _ a refl refl

pub step_client-Keeps : (env : Env) (p : Poll) (a : App) → Keeps a (step_client env p a).0
unfolding step_client
step_client-Keeps env p a = ground arith

pub step_server-Keeps :
    (p : Step.Poll) (a : App) (r : App × Bool) → step_server p a ≡ some r → Keeps a r.0
unfolding step_server
step_server-Keeps p a r h = ground arith
