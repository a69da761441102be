-- ===== src/Match/Menu.antt =====
-- The main menu: NetplayFacade::TickMainMenu of src/sf4e/sf4e__NetplayFacade.cxx, which starts
-- netplay once the game is ready, with StartServer and StartSession of src/sf4e/sf4e__UserApp.cxx.
use sf4_netplay_launcher.Prelude.{
  ℕ, ◌+◌, ◌-◌, ◌^◌, Bool, true, false, not, ◌&&◌, Option, none, some, ◌∷◌, ◌++◌, Bytes, ltb, ◌==◌,
  if◌then◌else◌, length,
}
use sf4_netplay_launcher.Prelude.Int.{ℤ, pos, negsuc}
use sf4_netplay_launcher.Session.Protocol.{FixedPoint, MatchData, ConnectionId}
use sf4_netplay_launcher.Session.Client
use sf4_netplay_launcher.Session.Client.Events.{connect_by_address, disconnect}
use sf4_netplay_launcher.Session.Server
use sf4_netplay_launcher.Session.Server.{Server, to_string}
use sf4_netplay_launcher.StateHash.{to_unsigned}
use sf4_netplay_launcher.Updater.{codes}
use sf4_netplay_launcher.Match.{
  NetplayConfig, host, join, idle, server_not_started, App, push_alert, Facade, on_client,
}
use sf4_netplay_launcher.Match.Control.{check_graphics_warning}

abbrev pub min_frames_after_ready : ℕ
min_frames_after_ready = 180

abbrev pub min_dwell_before_auto_start : ℕ
min_dwell_before_auto_start = 60

-- What one tick of the menu finds: the root event, the pad system, the pad that
-- TryCapturePadForSide gives, the connection that the networking library gives for an address,
-- whether the server can listen, the sidecar's hash, and the members of a new client that its
-- constructor leaves unset.
pub record Menu : Type 0 where
  pub has_root : Bool
  pub has_pad_system : Bool
  pub captured : Option (ℕ × ℕ)
  pub connect : Bytes → Option ℕ
  pub can_listen : ℕ → Bool
  pub sidecar_hash : Bytes
  pub match_data : MatchData
  pub cid : ConnectionId
  pub snapshots_enabled : Bool

-- `snprintf(…, "%s:%u", host, port)`
abbrev pub address_of : Bytes → ℕ → Bytes
address_of name port = name ++ b':' ∷ to_string port

abbrev pub loopback : Bytes
loopback = codes "127.0.0.1"

abbrev pub player_name : NetplayConfig → Bytes
player_name cfg = if length cfg.display_name == 0 then codes "Player" else cfg.display_name

-- The conversion to 16 bits.
unfoldable pub to_short : ℤ → ℤ
to_short i =
    let word = to_unsigned 16 i in
    if ltb word (2 ^ 15) then pos word else negsuc (2 ^ 16 - 1 - word)

-- `{ 0, (short)s_config.roundTimeIntegral }`
abbrev pub round_time : NetplayConfig → FixedPoint
round_time cfg = record { fractional = 0; integral = to_short cfg.round_time_integral }

-- A client that was there before is destroyed, which closes its connection.
unfoldable pub start_session : Menu → Bytes → App → App
start_session m address a =
    let cfg = a.facade.config in
    let new_client =
      Client.init m.sidecar_hash (player_name cfg) cfg.ggpo_port m.match_data m.cid
        m.snapshots_enabled in
    record (on_client disconnect a) {
      netplay = some (record {
        client = connect_by_address new_client (m.connect address);
        use_relay = not (cfg.use_relay == 0);
        device_type = cfg.device_type;
        device_idx = cfg.device_idx;
        delay = cfg.input_delay;
      });
    }

-- The result says whether the server listens; where it does not, none is left.
unfoldable pub start_server : Menu → App → App × Bool
start_server m a =
    let cfg = a.facade.config in
    if m.can_listen cfg.session_port
    then (
      record a {
        server = some (
            Server.init cfg.session_host m.sidecar_hash (not (cfg.edition_select == 0))
              cfg.round_count (round_time cfg));
      },
      true,
    )
    else (record a { server = none }, false)

abbrev pub not_pending : App → App
not_pending a = record a { facade = record a.facade { auto_pending = false } }

-- The three ways of a host, from useCentralSession, and the way of a guest.
unfoldable pub start_host : Menu → App → App
start_host m a =
    let cfg = a.facade.config in
    if cfg.use_central_session == 2
    then not_pending (start_session m (address_of cfg.session_host cfg.session_port) a)
    else if cfg.use_central_session == 1
    then not_pending (start_session m (address_of loopback cfg.session_port) a)
    else let (b, server_ok) = start_server m a in
      if server_ok
      then not_pending (start_session m (address_of loopback cfg.session_port) b)
      else not_pending (push_alert server_not_started b)

unfoldable pub start_netplay : Menu → App → App
start_netplay m a = elim a.facade.config.mode [
  | idle ↦ a
  | host ↦ start_host m a
  | join ↦
      not_pending
        (start_session m (address_of a.facade.config.session_host a.facade.config.session_port) a)
]

-- TryCapturePadForSide, unless a pad is captured; `none` is its failure.
unfoldable pub capture_pad : Menu → App → Option App
capture_pad m a = if a.facade.pad_captured then some a else elim m.captured [
  | none ↦ none
  | some (idx, type) ↦ some (record a {
    facade = record a.facade {
      pad_captured = true;
      config = record a.facade.config { device_idx = idx; device_type = type };
    };
  })
]

unfoldable pub begin_netplay : Menu → App → App
begin_netplay m a =
    let b = check_graphics_warning a in
    elim (capture_pad m b) [ none ↦ b | some c ↦ start_netplay m c ]

-- From `s_autoStartDwellTicks++` on.
unfoldable pub dwell : Menu → App → App
dwell m a =
    let b = record a { facade = record a.facade { dwell_ticks = a.facade.dwell_ticks + 1 } } in
    if not m.has_root
    then b
    else if not m.has_pad_system
    then b
    else if ltb b.facade.dwell_ticks min_dwell_before_auto_start
    then b
    else begin_netplay m b

unfoldable pub tick_main_menu : Menu → App → App
tick_main_menu m a =
    if not a.facade.auto_pending
    then a
    else if not a.facade.game_ready
    then a
    else let b = record a {
      facade = record a.facade { frames_since_ready = a.facade.frames_since_ready + 1 };
    } in
      if ltb b.facade.frames_since_ready min_frames_after_ready then b else dwell m b

unfoldable pub is_pad_capture_phase_ready : Menu → Facade → Bool
is_pad_capture_phase_ready m f =
    f.auto_pending
    && f.game_ready
    && not (ltb f.frames_since_ready min_frames_after_ready)
    && not (ltb f.dwell_ticks min_dwell_before_auto_start)
    && m.has_pad_system

unfoldable pub is_pad_capture_pending : Menu → Facade → Bool
is_pad_capture_pending m f =
    f.auto_pending
    && not f.pad_captured
    && not (not (f.config.device_idx == 0xff) && not (f.config.device_type == 0xff))
    && is_pad_capture_phase_ready m f
