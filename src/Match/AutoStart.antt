-- ===== src/Match/AutoStart.antt =====
-- How long TickMainMenu of src/sf4e/sf4e__NetplayFacade.cxx waits before it starts netplay.
use sf4_netplay_launcher.Prelude.{
  ◌≢◌, ℕ, ◌+◌, ◌-◌, ◌≤◌, ◌<◌, ◌≡◌, refl, ap, ◌∙◌, Bool, true, false, Option, none, some, List, [],
  ◌∷◌, ◌++◌, ◌==◌, arith, if_cases, option_cases, Bytes, length,
}
use sf4_netplay_launcher.Match.{
  NetplayMode, idle, host, join, netplay_config_is_active, Facade, Netplay, App,
}
use sf4_netplay_launcher.Match.Control.{check_graphics_warning}
use sf4_netplay_launcher.Match.Menu.{
  Menu, address_of, start_session, start_server, not_pending, start_host, start_netplay,
  capture_pad, begin_netplay, dwell, tick_main_menu,
}

-- The ticks of the menu, one after another.
pub tick_all : List Menu → App → App
tick_all [] a = a
tick_all (m ∷ ms) a = tick_all ms (tick_main_menu m a)

-- A menu in which netplay can be started: the game's objects are there, and a pad is captured.
pub record IsUsable (m : Menu) : Type 0 where
  pub root : m.has_root ≡ true
  pub pad_system : m.has_pad_system ≡ true
  pub pad : ℕ × ℕ
  pub captures : m.captured ≡ some pad
  pub listens : (port : ℕ) → m.can_listen port ≡ true

-- Netplay waits to be started.
pub record IsWaiting (a : App) : Type 0 where
  pub pending : a.facade.auto_pending ≡ true
  pub ready : a.facade.game_ready ≡ true
  pub active : netplay_config_is_active a.facade.config ≡ true

-- The ticks in which netplay still waits.
abbrev pub ticks_left : Facade → ℕ
ticks_left f = (179 - f.frames_since_ready) + (59 - f.dwell_ticks)

abbrev pub has_netplay : Option Netplay → Bool
has_netplay none = false
has_netplay (some n) = true

-- Netplay is started.
pub record IsStarted (a : App) : Type 0 where
  pub settled : a.facade.auto_pending ≡ false
  pub owned : has_netplay a.netplay ≡ true

start_session-IsStarted :
    (m : Menu) (address : Bytes) (a : App) → IsStarted (not_pending (start_session m address a))
unfolding start_session
start_session-IsStarted m address a = ground arith

start_host-IsStarted :
    (m : Menu) (a : App) → ((port : ℕ) → m.can_listen port ≡ true) → IsStarted (start_host m a)
unfolding start_host start_server
start_host-IsStarted m a h =
    if_cases IsStarted (a.facade.config.use_central_session == 2) _ _
      (λ e. start_session-IsStarted m _ a)
      (λ e.
        if_cases IsStarted (a.facade.config.use_central_session == 1) _ _
          (λ k. start_session-IsStarted m _ a)
          (λ k. rw (h a.facade.config.session_port) (start_session-IsStarted m _ _)))

abbrev is_active_mode : NetplayMode → Bool
is_active_mode mode = elim mode [ idle ↦ false | host ↦ true | join ↦ true ]

start_mode-IsStarted :
    (mode : NetplayMode) (m : Menu) (a : App)
    → ((port : ℕ) → m.can_listen port ≡ true)
    → is_active_mode mode ≡ true
    → IsStarted (elim mode as (λ x. App) [
      | idle ↦ a
      | host ↦ start_host m a
      | join ↦
          not_pending (
            start_session m
              (address_of a.facade.config.session_host a.facade.config.session_port)
              a)
    ])
start_mode-IsStarted idle m a h e = cc
start_mode-IsStarted host m a h e = start_host-IsStarted m a h
start_mode-IsStarted join m a h e = start_session-IsStarted m _ a

start_netplay-IsStarted :
    (m : Menu) (a : App)
    → ((port : ℕ) → m.can_listen port ≡ true)
    → netplay_config_is_active a.facade.config ≡ true
    → IsStarted (start_netplay m a)
unfolding start_netplay
start_netplay-IsStarted m a h e = start_mode-IsStarted a.facade.config.mode m a h e

-- A pad is there already, or it is captured now.
capture_pad_fails :
    (m : Menu) (a : App) (pad : ℕ × ℕ) → m.captured ≡ some pad → capture_pad m a ≢ none
unfolding capture_pad
capture_pad_fails m a pad e h = ground arith

capture_pad_mode :
    (m : Menu) (a b : App) → capture_pad m a ≡ some b → b.facade.config.mode ≡ a.facade.config.mode
unfolding capture_pad
capture_pad_mode m a b h = ground arith

warned_mode : (a : App) → (check_graphics_warning a).facade.config.mode ≡ a.facade.config.mode
unfolding check_graphics_warning
warned_mode a = ground arith

begin_netplay-IsStarted :
    (m : Menu) (a : App)
    → IsUsable m
    → netplay_config_is_active a.facade.config ≡ true
    → IsStarted (begin_netplay m a)
unfolding begin_netplay
begin_netplay-IsStarted m a u e =
    let b = check_graphics_warning a in
    option_cases IsStarted (capture_pad m b) _ _
      (λ h. absurd (capture_pad_fails m b u.pad u.captures h))
      (λ c h.
        start_netplay-IsStarted m c u.listens
          (ap is_active_mode (capture_pad_mode m b c h ∙ warned_mode a) ∙ e))

-- A tick while netplay still has to wait, whatever the menu finds.
wait_tick :
    (m : Menu) (a : App)
    → IsWaiting a
    → 0 < ticks_left a.facade
    → IsWaiting (tick_main_menu m a)
      × (ticks_left (tick_main_menu m a).facade + 1 ≡ ticks_left a.facade)
      × ((tick_main_menu m a).netplay ≡ a.netplay)
unfolding tick_main_menu dwell
wait_tick m a h l = (
  record { pending = ground arith; ready = ground arith; active = ground arith },
  ground arith,
  ground arith,
)

start_tick :
    (m : Menu) (a : App)
    → IsUsable m
    → IsWaiting a
    → ticks_left a.facade ≡ 0
    → IsStarted (tick_main_menu m a)
unfolding tick_main_menu dwell
start_tick m a u h l =
    let f = record a.facade { frames_since_ready = a.facade.frames_since_ready + 1 } in
    let b = record a { facade = f } in
    let c = record b { facade = record b.facade { dwell_ticks = b.facade.dwell_ticks + 1 } } in
    ground (arith, h.pending, h.ready, u.root, u.pad_system, begin_netplay-IsStarted m c u h.active)

tick_all-waits :
    (ms : List Menu) (a : App)
    → IsWaiting a
    → length ms ≤ ticks_left a.facade
    → IsWaiting (tick_all ms a)
      × (ticks_left (tick_all ms a).facade + length ms ≡ ticks_left a.facade)
      × ((tick_all ms a).netplay ≡ a.netplay)
unfolding tick_all
tick_all-waits [] a h l = (h, omega arith, refl)
tick_all-waits (m ∷ ms) a h l =
    let (w, t, k) = wait_tick m a h (omega arith) in
    let (w', t', k') = tick_all-waits ms (tick_main_menu m a) w (omega arith) in
    (w', omega arith, k' ∙ k)

tick_all-append :
    (ms : List Menu) (m : Menu) (a : App)
    → tick_all (ms ++ m ∷ []) a ≡ tick_main_menu m (tick_all ms a)
unfolding tick_all
tick_all-append [] m a = refl
tick_all-append (x ∷ ms) m a = tick_all-append ms m (tick_main_menu x a)

-- Once the game is ready, netplay waits for the 179 ticks and the 59 further ones that are left of
-- them, whatever the menu finds meanwhile, and starts nothing; the tick behind them starts it, in
-- the mode of a host or of a guest, if the menu, a pad and the server's port are to be had then.
pub auto_start_exact :
    (ms : List Menu) (m : Menu) (a : App)
    → IsWaiting a
    → length ms ≡ ticks_left a.facade
    → IsUsable m
    → IsWaiting (tick_all ms a)
      × ((tick_all ms a).netplay ≡ a.netplay)
      × IsStarted (tick_all (ms ++ m ∷ []) a)
auto_start_exact ms m a h l u =
    let (w, t, k) = tick_all-waits ms a h (omega arith) in
    (w, k, rw (tick_all-append ms m a) (start_tick m (tick_all ms a) u w (omega arith)))
