-- ===== src/Session/Client/Events.antt =====
-- The other entry points of src/session/sf4e__SessionClient.cxx: connecting and disconnecting, the
-- callback on the connection, and the requests of the user interface and of the game.
use sf4_netplay_launcher.Prelude.{
  ℕ, ◌+◌, ◌%◌, ◌^◌, Bool, true, false, not, ◌&&◌, Option, none, some, [], ◌∷◌, Bytes, if◌then◌else◌,
}
use sf4_netplay_launcher.Prelude.Int.{ℤ}
use sf4_netplay_launcher.Session.Protocol.{ConnectionId, FixedPoint, CharaConditions, null_lobby}
use sf4_netplay_launcher.Checkpoints.{clear_hash_checkpoints}
use sf4_netplay_launcher.Session.Client.{
  GgpoFrame, Client, send_hello, send_ready, send_results, send_reset, send_settings, send_env,
  send_chara, send_stage, send_loaded, send_punch_ready, send_ggpo_frame, push_alert,
  control_plane_loss, close_connection, Env, Turn, send, call, with_client,
}

-- Connect to a server in the same process.
unfoldable pub connect_local : Client → ℕ → Client
connect_local c new_conn = record c {
  snapshots_enabled = false;
  conn = some new_conn;
  is_connected = true;
}

-- Connect by address; the library gives a connection, or the invalid one.
unfoldable pub connect_by_address : Client → Option ℕ → Client
connect_by_address c new_conn = record c { snapshots_enabled = true; conn = new_conn }

unfoldable pub disconnect : Turn → Turn
disconnect t = elim t.client.conn [
  | none ↦ t
  | some conn ↦
      with_client (call t (close_connection conn))
        (record t.client { conn = none; is_connected = false; lobby_data = null_lobby })
]

-- The states of a connection that the callback tells apart.
pub data Link : Type 0 where
  link_connecting link_connected link_closed_by_peer link_problem_locally link_other : Link

abbrev pub was_connected : Link → Bool
was_connected link_connected = true
was_connected _ = false

-- The alert, for an old state and for a problem found locally.
abbrev pub alert : Turn → Link → Bool → Bool → Turn
alert t link_connecting was_in_match is_problem = call t push_alert
alert t _ was_in_match is_problem = if not was_in_match && is_problem then call t push_alert else t

abbrev pub lose : Turn → Link → Bool → Bool → ℕ → Turn
lose t old was_in_match is_problem conn =
    let u = call (alert t old was_in_match is_problem) (close_connection conn) in
    let v = with_client u (record u.client { conn = none; is_connected = false }) in
    if was_in_match then call v control_plane_loss else v

-- OnSteamNetConnectionStatusChanged: the old and the new state, whether GGPO runs, and the
-- connection.
unfoldable pub on_status_changed : Turn → Link → Link → Bool → ℕ → Turn
on_status_changed t old link_closed_by_peer has_ggpo conn =
    lose t old (was_connected old && has_ggpo) false conn
on_status_changed t old link_problem_locally has_ggpo conn =
    lose t old (was_connected old && has_ggpo) true conn
on_status_changed t old link_connected has_ggpo conn =
    send (with_client t (record t.client { is_connected = true })) send_hello
on_status_changed t old _ has_ggpo conn = t

-- Lobby_Ready; the library writes the number of the message, or leaves it.
unfoldable pub lobby_ready : Turn → Option ℤ → Turn
lobby_ready t none = send t send_ready
lobby_ready t (some n) =
    send (with_client t (record t.client { outstanding_ready_request_number = n })) send_ready

-- The requests that leave the client as it is.
unfoldable pub lobby_report_results : Turn → ℤ → Turn
lobby_report_results t loser_side = send t (send_results loser_side)

unfoldable pub lobby_reset_rematch : Turn → Turn
lobby_reset_rematch t = send t send_reset

unfoldable pub lobby_set_settings : Turn → Bool → ℤ → FixedPoint → Bool → Turn
lobby_set_settings t edition_select round_count round_time training_mode = send t (
    send_settings (record {
      edition_select = edition_select;
      round_count = round_count;
      round_time = round_time;
      training_mode = training_mode;
    }))

unfoldable pub pre_battle_set_env : Turn → ℕ → Turn
pre_battle_set_env t rng_seed = send t (send_env rng_seed)

unfoldable pub pre_battle_set_chara : Turn → CharaConditions → Turn
pre_battle_set_chara t chara = send t (send_chara chara)

unfoldable pub pre_battle_set_stage : Turn → ℤ → Turn
pre_battle_set_stage t stage_id = send t (send_stage stage_id)

unfoldable pub battle_loaded : Turn → Turn
battle_loaded t = send t send_loaded

unfoldable pub punch_reset : Turn → Turn
punch_reset t = with_client t (record t.client { punch_go_received = false })

unfoldable pub punch_send_ready : Turn → Turn
punch_send_ready t = send t send_punch_ready

-- SendGgpoFrame, for a pointer that is not null; the result says whether anything is sent.
unfoldable pub send_ggpo : Env → Turn → ConnectionId → Bytes → Turn × Bool
send_ggpo env t dest [] = (t, false)
send_ggpo env t dest (b ∷ bs) = elim t.client.conn [
  | none ↦ (t, false)
  | some conn ↦
      let frame : GgpoFrame = record { src = t.client.cid; dest = dest; payload = b ∷ bs } in
      (
        send
            (with_client t (record t.client {
              ggpo_tunnel_stats = record t.client.ggpo_tunnel_stats {
                send_count = (t.client.ggpo_tunnel_stats.send_count + 1) % 2 ^ 64;
                send_bytes =
                    (t.client.ggpo_tunnel_stats.send_bytes + env.dump_length frame) % 2 ^ 64;
              };
            }))
            (send_ggpo_frame frame),
        true,
      )
]

-- NetplayFacade::ClearBattleState of src/sf4e/sf4e__NetplayFacade.cxx, for a client that exists.
unfoldable pub clear_battle_state : Turn → Turn
clear_battle_state t = record t {
  client = record t.client { pending_remote_snapshots = []; pending_remote_hashes = [] };
  game = record (clear_hash_checkpoints t.game) { snapshot_map = [] };
}
