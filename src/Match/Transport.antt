-- ===== src/Match/Transport.antt =====
-- src/session/sf4e__GgpoTransport.cxx: the choice of the way for GGPO's datagrams in front of a
-- battle, PrepareForBattle with what it calls. What the network answers is given.
use sf4_netplay_launcher.Prelude.{
  ℕ, zero, suc, Bool, true, false, not, ◌&&◌, ◌||◌, Option, none, some, List, [], ◌∷◌, Bytes,
  bytes_eq, ◌==◌, if◌then◌else◌, length, take,
}
use sf4_netplay_launcher.Session.Protocol.{
  MemberData, ConnectionId, conn_id_eq, is_all_ready, MatchData,
}
use sf4_netplay_launcher.Session.Client.{Client, Env, Turn}
use sf4_netplay_launcher.Session.Client.Events.{
  Link, on_status_changed, punch_reset, punch_send_ready,
}
use sf4_netplay_launcher.Session.Client.Step.{Outcome, ok, failed, Poll, poll_messages}
use sf4_netplay_launcher.GgpoTransport.{is_registration_context, await_registration}
use sf4_netplay_launcher.Match.{
  NetplayConfig, relay_required, relay_failed, punch_failed, App, push_alert, Netplay, turn_of,
  after_turn,
}
use sf4_netplay_launcher.Match.Control.{has_endpoint}

-- SF4E_GGPO_TRANSPORT; no other text has a meaning.
pub data TransportEnv : Type 0 where
  env_unset env_legacy env_udp env_p2p env_auto : TransportEnv

-- GgpoTransportMode, with the numbers that name none of its members.
pub data TransportMode : Type 0 where
  legacy_session_tunnel udp_relay p2p unknown_mode : TransportMode

abbrev pub mode_of : ℕ → TransportMode
mode_of zero = legacy_session_tunnel
mode_of (suc zero) = udp_relay
mode_of (suc (suc zero)) = p2p
mode_of (suc (suc (suc n))) = unknown_mode

unfoldable pub parse_transport_env : TransportEnv → ℕ → TransportMode
parse_transport_env env_unset config = mode_of config
parse_transport_env env_auto config = mode_of config
parse_transport_env env_legacy config = legacy_session_tunnel
parse_transport_env env_udp config = udp_relay
parse_transport_env env_p2p config = p2p

-- A change of the client's connection, of which RunCallbacks tells it.
pub record Change : Type 0 where
  pub old_state : Link
  pub new_state : Link
  pub conn : ℕ

-- A round of the punching: the changes, and then the messages.
pub record Round : Type 0 where
  pub changes : List Change
  pub poll : Poll

-- What the network gives: what happens in each round of the punching until its deadline and whether
-- the request for it is sent, whether the peer answers a punch, and for each attempt the answer to
-- the health probe, whether the socket for the registration can be had, and the answers there.
pub record Network : Type 0 where
  pub punch_sent : Bool
  pub punch_rounds : List Round
  pub peer_answers : ℕ → Bool
  pub health : ℕ → Option Bytes
  pub has_socket : ℕ → Bool
  pub answers : ℕ → List (Option Bytes)
  pub env : Env

-- SessionClient::Step on a client that has sent and called before.
unfoldable pub step_on : Env → Turn → Poll → Outcome
step_on env t p = elim t.client.conn [
  | none ↦ ok t
  | some conn ↦ if not t.client.is_connected then ok t else poll_messages env t p
]

-- RunCallbacks, as far as this client is concerned; no session of GGPO is open here.
unfoldable pub run_callbacks : Turn → List Change → Turn
run_callbacks t [] = t
run_callbacks t (c ∷ cs) =
    run_callbacks (on_status_changed t c.old_state c.new_state false c.conn) cs

-- The loop of TryCoordinatedP2pPunch; the Boolean says that no step failed.
unfoldable pub await_punch : Env → Turn → List Round → Turn × Bool
await_punch env t [] = (t, true)
await_punch env t (r ∷ rest) = elim (step_on env (run_callbacks t r.changes) r.poll) [
  | ok u ↦ if u.client.punch_go_received then (u, true) else await_punch env u rest
  | failed u ↦ (u, false)
]

unfoldable pub try_coordinated_p2p_punch : Network → NetplayConfig → Turn → Turn × Bool
try_coordinated_p2p_punch n cfg t =
    if cfg.ggpo_port == 0
    then (t, false)
    else (let u = punch_reset t in
        if not n.punch_sent
        then (u, false)
        else (let (v, going) = await_punch n.env (punch_send_ready u) n.punch_rounds in
            (v, going && n.peer_answers 0)))

-- The two attempts for an endpoint that is there.
unfoldable pub punch : Network → NetplayConfig → Turn → Turn × Bool
punch n cfg t =
    let (u, done) = try_coordinated_p2p_punch n cfg t in
    if done then (u, true) else (u, n.peer_answers 1)

-- ProbeUdpRelayHealth, for a host and a port that are there.
unfoldable pub probe_udp_relay_health : Network → ℕ → Bool
probe_udp_relay_health n attempt = elim (n.health attempt) [
  | none ↦ false
  | some response ↦ bytes_eq (take 5 response) (b'S' ∷ b'F' ∷ b'4' ∷ b'O' ∷ b'K' ∷ [])
]

-- RegisterWithUdpRelay.
unfoldable pub register_with_udp_relay : Network → ℕ → Bytes → NetplayConfig → ℕ → MatchData → Bool
register_with_udp_relay n attempt relay_host cfg slot d =
    is_registration_context relay_host cfg.ggpo_room_token cfg.ggpo_port slot d.ready0 d.ready1
    && n.has_socket attempt
    && await_registration (n.answers attempt)

-- The loop for `playerSlot`, from index `i` on.
unfoldable pub player_slot : List MemberData → ConnectionId → Option ℕ
player_slot [] cid = none
player_slot (a ∷ []) cid = if conn_id_eq a.conn_id cid then some 0 else none
player_slot (a ∷ b ∷ rest) cid =
    if conn_id_eq a.conn_id cid then some 0 else if conn_id_eq b.conn_id cid then some 1 else none

-- The configuration afterwards, the way chosen, the result, and the application.
pub record Prepared : Type 0 where
  pub cfg : NetplayConfig
  pub effective : TransportMode
  pub is_prepared : Bool
  pub app : App

abbrev pub refuse : NetplayConfig → TransportMode → App → Prepared
refuse cfg mode a = record { cfg = cfg; effective = mode; is_prepared = false; app = a }

abbrev pub relay_host_of : NetplayConfig → Bytes
relay_host_of cfg =
    if length cfg.ggpo_remote_host == 0 then cfg.session_host else cfg.ggpo_remote_host

-- Two probes and two registrations at most, for a player in place `slot`.
unfoldable pub reach_relay : Network → NetplayConfig → ℕ → MatchData → App → Prepared
reach_relay n cfg slot d a =
    let relay_host = relay_host_of cfg in
    if not (probe_udp_relay_health n 0 || probe_udp_relay_health n 1)
    then refuse cfg udp_relay (push_alert relay_failed a)
    else if register_with_udp_relay n 0 relay_host cfg slot d
        || register_with_udp_relay n 1 relay_host cfg slot d
    then record {
      cfg = record cfg { ggpo_remote_host = relay_host; ggpo_transport = 1 };
      effective = udp_relay;
      is_prepared = true;
      app = a;
    }
    else refuse cfg udp_relay (push_alert relay_failed a)

-- What the branch for the relay lacks: an endpoint, a token, or both players ready.
abbrev pub lacks_context : NetplayConfig → Client → Bool
lacks_context cfg c =
    (length (relay_host_of cfg) == 0)
    || (cfg.ggpo_remote_port == 0)
    || (length cfg.ggpo_room_token == 0)
    || not (is_all_ready c.match_data)

abbrev pub with_slot : Network → NetplayConfig → MatchData → App → Option ℕ → Prepared
with_slot n cfg d a none = refuse cfg udp_relay a
with_slot n cfg d a (some slot) = reach_relay n cfg slot d a

-- The branch for the relay.
unfoldable pub prepare_relay : Network → NetplayConfig → Client → App → Prepared
prepare_relay n cfg c a =
    if lacks_context cfg c
    then refuse cfg udp_relay (push_alert relay_failed a)
    else with_slot n cfg c.match_data a (player_slot c.lobby_data.members c.cid)

-- Punching failed: the relay, unless the environment forbids it.
unfoldable pub without_punch : Network → TransportEnv → NetplayConfig → Client → App → Prepared
without_punch n env_p2p cfg c a = refuse cfg p2p (push_alert punch_failed a)
without_punch n env_unset cfg c a = prepare_relay n cfg c a
without_punch n env_legacy cfg c a = prepare_relay n cfg c a
without_punch n env_udp cfg c a = prepare_relay n cfg c a
without_punch n env_auto cfg c a = prepare_relay n cfg c a

abbrev pub punch_endpoint : Network → NetplayConfig → Turn → Turn × Bool
punch_endpoint n cfg t =
    if has_endpoint cfg.ggpo_remote_port cfg.ggpo_remote_host then punch n cfg t else (t, false)

abbrev pub after_punch : Network → TransportEnv → NetplayConfig → Turn × Bool → App → Prepared
after_punch n env cfg (t, punched) a =
    if punched
    then record {
      cfg = record cfg { ggpo_transport = 2 };
      effective = p2p;
      is_prepared = true;
      app = a;
    }
    else without_punch n env cfg t.client a

-- The branch for punching.
unfoldable pub prepare_p2p : Network → TransportEnv → NetplayConfig → Netplay → App → Prepared
prepare_p2p n env cfg np a =
    let r = punch_endpoint n cfg (turn_of a np) in after_punch n env cfg r (after_turn a np r.0)

abbrev pub prepare_requested :
    TransportMode → Network → TransportEnv → NetplayConfig → Netplay → App → Prepared
prepare_requested legacy_session_tunnel n env cfg np a =
    refuse cfg udp_relay (push_alert relay_required a)
prepare_requested udp_relay n env cfg np a = prepare_relay n cfg np.client a
prepare_requested p2p n env cfg np a = prepare_p2p n env cfg np a
prepare_requested unknown_mode n env cfg np a = refuse cfg unknown_mode a

unfoldable pub prepare_for_battle :
    Network → TransportEnv → NetplayConfig → Netplay → App → Prepared
prepare_for_battle n env cfg np a = elim env [
  | env_legacy ↦ record {
    cfg = record cfg { ggpo_transport = 0 };
    effective = legacy_session_tunnel;
    is_prepared = true;
    app = a;
  }
  | env_unset ↦
      prepare_requested (parse_transport_env env_unset cfg.ggpo_transport) n env_unset cfg np a
  | env_udp ↦ prepare_requested (parse_transport_env env_udp cfg.ggpo_transport) n env_udp cfg np a
  | env_p2p ↦ prepare_requested (parse_transport_env env_p2p cfg.ggpo_transport) n env_p2p cfg np a
  | env_auto ↦
      prepare_requested (parse_transport_env env_auto cfg.ggpo_transport) n env_auto cfg np a
]
