-- ===== src/Examples/Game.antt =====
-- Data for the runs of the models of src/sf4e: the application at its start, in a lobby, in a fight.
pub mod Runs
use sf4_netplay_launcher.Prelude.{
  ℕ, ◌≡◌, refl, Bool, true, false, none, some, List, [], ◌∷◌, ◌++◌, arith, bytes_eq, Option,
}
use sf4_netplay_launcher.Prelude.Int.{pos, negsuc}
use sf4_netplay_launcher.Gate.{SimulationPhase, no_session, running, GgpoGateModel}
use sf4_netplay_launcher.Session.Protocol.{
  ConnectionId, conn_id_eq, MemberData, MatchData, null_lobby, no_chara,
}
use sf4_netplay_launcher.Session.Client
use sf4_netplay_launcher.Session.Client.{Client, Env, send_loaded as loaded_message, is_player}
use sf4_netplay_launcher.Match.{
  join, NetplayConfig, no_transport, nothing, in_play, fight_continues, returned_to_menu,
  lost_connection, server_error, Facade, Netplay, App, World,
}
use sf4_netplay_launcher.Match.Control.{
  handle_control_plane_loss, should_defer_ggpo_close, notify_match_ended,
}
use sf4_netplay_launcher.Match.Menu.{Menu}
use sf4_netplay_launcher.Match.Frame.{close_deferred, Tick}
use sf4_netplay_launcher.Match.Transport.{env_unset, Network, probe_udp_relay_health}
use sf4_netplay_launcher.Match.Begin.{Outside, on_vs_battle_tasks_registered}
use sf4_netplay_launcher.Match.Versus.{Block}
use sf4_netplay_launcher.Match.Update.{now_running, close_battle}
use sf4_netplay_launcher.Match.Run.{
  Action, frame_tick, ggpo_event, battle_begins, battle_closes, pause_button, act, run,
}
use sf4_netplay_launcher.Match.Lifetime.{opened, timeouts, SessionInv}
use sf4_netplay_launcher.Match.Lifetime.Actions.{IsStart, run-SessionInv, run-unreported}
use sf4_netplay_launcher.Match.Degraded.{IsShut, loss_in_fight}
use sf4_netplay_launcher.Match.AutoStart.{
  tick_all, IsUsable, IsWaiting, IsStarted, auto_start_exact,
}
use sf4_netplay_launcher.Match.Vps.{IsSilent, vps_silent}
use sf4_netplay_launcher.Match.Deferral.{deferral_wraps}
use sf4_netplay_launcher.Match.Loading.{poll_all, poll_all_unsynced}

abbrev pub config : NetplayConfig
config = record {
  version = 10;
  mode = join;
  session_host = b'h' ∷ [];
  session_port = 23450;
  room_key = [];
  display_name = b'a' ∷ [];
  input_delay = 2;
  ggpo_port = 7000;
  edition_select = 0;
  round_count = pos 3;
  round_time_integral = pos 99;
  use_relay = 0;
  dev_overlay = 0;
  device_type = 1;
  device_idx = 0;
  use_central_session = 0;
  relay_room_code = [];
  ggpo_transport = 0;
  player_role = 0;
  ggpo_remote_port = 0;
  ggpo_remote_host = [];
  match_id = [];
  ggpo_room_token = [];
  ggpo_disconnect_timeout_ms = 0;
  ggpo_disconnect_notify_ms = 0;
  training_mode = 0;
}

abbrev pub identity : ConnectionId
identity = record { host = b'h' ∷ []; user = b'7' ∷ [] }

abbrev pub bob_identity : ConnectionId
bob_identity = record { host = b'h' ∷ []; user = b'8' ∷ [] }

abbrev pub own_member : MemberData
own_member = record { conn_id = identity; name = b'a' ∷ []; ip = []; port = 7000; flags = 0 }

abbrev pub bob_member : MemberData
bob_member = record {
  conn_id = bob_identity;
  name = b'b' ∷ [];
  ip = b'1' ∷ [];
  port = 7001;
  flags = 0;
}

abbrev pub no_match : MatchData
no_match = record {
  ready0 = negsuc 0;
  ready1 = negsuc 0;
  chara0 = no_chara;
  chara1 = no_chara;
  stage_id = pos 0;
  rng_seed = 0;
}

-- A client in a lobby of these members.
unfoldable pub alice : List MemberData → Client
alice members = record (Client.init (b'x' ∷ []) (b'a' ∷ []) 7000 no_match identity true) {
  lobby_data = record null_lobby { members = members };
}

abbrev pub netplay : List MemberData → Netplay
netplay members = record {
  client = alice members;
  use_relay = false;
  device_type = 1;
  device_idx = 0;
  delay = 2;
}

abbrev pub two_players : Netplay
two_players = netplay (own_member ∷ bob_member ∷ [])

abbrev pub with_spectator : Netplay
with_spectator = netplay (own_member ∷ bob_member ∷ bob_member ∷ [])

abbrev pub new_facade : Facade
new_facade = record {
  config = config;
  broker_host = [];
  broker_port = 0;
  transport = no_transport;
  sync_phase = nothing;
  battle_start_tick = 0;
  fallback_tried = false;
  auto_pending = false;
  graphics_warned = true;
  defer_close = false;
  deferred_pending = false;
  defer_close_until = 0;
  dwell_ticks = 0;
  frames_since_ready = 0;
  game_ready = true;
  pad_captured = false;
  sent_lobby_settings = false;
  control_plane_lost = false;
  verification_lost_at = pos 0;
}

abbrev pub gate_at : SimulationPhase → GgpoGateModel
gate_at phase = record {
  phase = phase;
  manual_pause = false;
  fatal_error = false;
  prediction_stalled = false;
  connection_warning_active = false;
  connection_warning_started_at_ms = 0;
}

abbrev pub new_app : App
new_app = record {
  system = record {
    ggpo = false;
    gate = gate_at no_session;
    update_allowed = true;
    halt_after_next = false;
    ggpo_connection_interrupted = false;
    has_local_player = false;
    last_ggpo_save_frame = negsuc 0;
    goes_to_match_start = false;
  };
  facade = new_facade;
  vs = record {
    session_sent_loaded = false;
    session_synced = false;
    terminate_on_next_left_battle = false;
    next_match_random_seed = none;
    skip_to_versus = false;
    has_battle_hook = true;
    has_pre_battle_hook = false;
  };
  netplay = some two_players;
  server = none;
  pending_match_start = false;
  game = record {
    frames_simulated = record { fractional = 0; integral = pos 0 };
    snapshot_map = [];
    hash_checkpoints = [];
    is_leaving = false;
  };
  relay = record {
    active = false;
    winsock_init = false;
    local_ggpo_port = 0;
    has_client = false;
    peers = [];
    stats = record {
      outbound_frames = 0;
      outbound_bytes = 0;
      inbound_frames = 0;
      inbound_bytes = 0;
    };
  };
  sent = [];
  calls = [];
  alerts = [];
  effects = [];
}

abbrev pub world : ℕ → World
world now = record { now = now; has_system = true; battle_idle = false }

abbrev pub env : Env
env = record { send_ok = λ k. true; strict_desync = true; dump_length = λ f. 0 }

abbrev pub tick : Tick
tick = record { on_menu = false; send_ok = true; env = env; inbox = λ k. [] }

-- Neither the relay nor the peer answers.
abbrev pub silence : Network
silence = record {
  punch_sent = true;
  punch_rounds = [];
  peer_answers = λ k. false;
  health = λ k. none;
  has_socket = λ k. true;
  answers = λ k. [];
  env = env;
}

abbrev pub outside : Outside
outside = record {
  network = silence;
  env = env_unset;
  winsock = record { startup_ok = true; bind_port = λ p. none };
  ggpo = record { start_ok = true; add_ok0 = true; add_ok1 = true };
  spectate_ok = true;
  server_addr = b'h' ∷ [];
}

-- A battle that begins, and waits for its peer for half a minute.
abbrev pub waits_long : List Action
waits_long = battle_begins (world 5) outside ∷ frame_tick (world 30000) tick ∷ []

-- A battle that runs and is closed.
abbrev pub whole_battle : List Action
whole_battle =
    battle_begins (world 5) outside
    ∷ ggpo_event (world 6) now_running
    ∷ pause_button true
    ∷ frame_tick (world 7) tick
    ∷ battle_closes (world 9)
    ∷ []

abbrev pub or_else : App → Option App → App
or_else a none = a
or_else a (some b) = b

abbrev pub behind : List Action → App
unfolding run
behind xs = or_else new_app (run xs new_app)

-- The fight of a battle that runs.
abbrev pub fighting : App
fighting = record new_app { system = record new_app.system { ggpo = true; gate = gate_at running } }

-- The menu's ticks 178 and 58 have passed.
abbrev pub waiting : App
waiting = record new_app {
  netplay = none;
  facade = record new_facade { auto_pending = true; frames_since_ready = 178; dwell_ticks = 58 };
}

abbrev pub usable : Menu
usable = record {
  has_root = true;
  has_pad_system = true;
  captured = some (0, 1);
  connect = λ address. some 5;
  can_listen = λ port. true;
  sidecar_hash = b'x' ∷ [];
  match_data = no_match;
  cid = identity;
  snapshots_enabled = true;
}

abbrev pub bare : Menu
bare = record usable { has_root = false; captured = none }

-- A session at the VPS.
abbrev pub at_vps : App
at_vps = record new_app {
  facade = record new_facade {
    config = record config {
      use_central_session = 2;
      ggpo_transport = 1;
      ggpo_room_token = b't' ∷ [];
      ggpo_remote_port = 23459;
      ggpo_remote_host = b'r' ∷ [];
    };
  };
}

-- The overlay holds the battle back at first.
abbrev pub three_polls : List (Block × Bool)
three_polls =
    (record { initialization = true; termination = false }, true)
    ∷ (record { initialization = false; termination = false }, true)
    ∷ (record { initialization = false; termination = false }, true)
    ∷ []

-- A fight with a spectator.
abbrev pub watched : App
watched = record fighting { netplay = some with_spectator }

abbrev pub w_end : World
w_end = world 4294967295

-- It has synchronized.
abbrev pub synchronized : App
synchronized = record watched { facade = record new_facade { sync_phase = in_play } }

abbrev pub two_frames : List (World × Tick)
two_frames = (world 9, tick) ∷ (world 100, tick) ∷ []
