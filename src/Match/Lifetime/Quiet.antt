-- ===== src/Match/Lifetime/Quiet.antt =====
-- The actions that neither open nor close a session of GGPO and leave its state alone: the main
-- menu. Match/Lifetime/Lobby.antt has the others of this kind.
use sf4_netplay_launcher.Prelude.{
  ◌+◌, ◌≡◌, refl, ◌∙◌, Bool, true, not, ◌||◌, Option, none, some, [], ◌∷◌, ◌==◌, arith, ltb,
  if_cases, Bytes,
}
use sf4_netplay_launcher.Session.Client.{Turn}
use sf4_netplay_launcher.Match.{
  NetplayMode, idle, host, join, netplay_config_is_active, Alert, server_not_started, graphics_tip,
  Effect, Facade, VsBattle, App, push_alert, effect, on_client,
}
use sf4_netplay_launcher.Match.Battle.{clear_battle_state}
use sf4_netplay_launcher.Match.Control.{check_graphics_warning}
use sf4_netplay_launcher.Match.Menu.{
  min_frames_after_ready, min_dwell_before_auto_start, Menu, address_of, start_session,
  start_server, not_pending, start_host, start_netplay, capture_pad, begin_netplay, dwell,
  tick_main_menu,
}
use sf4_netplay_launcher.Match.Lifetime.{
  opened, closed, opened-append, closed-append, timeouts, timeouts-append, SessionInv,
}

pub record Keeps (a b : App) : Type 0 where
  pub system : b.system ≡ a.system
  pub lost : b.facade.control_plane_lost ≡ a.facade.control_plane_lost
  pub deferred : b.facade.deferred_pending ≡ a.facade.deferred_pending
  pub opens : opened b.effects ≡ opened a.effects
  pub closes : closed b.effects ≡ closed a.effects
  pub reports : timeouts b.alerts ≡ timeouts a.alerts

pub Keeps-refl : (a : App) → Keeps a a
Keeps-refl a = ground arith

pub Keeps-trans : {a b c : App} → Keeps a b → Keeps b c → Keeps a c
Keeps-trans h k = record {
  system = k.system ∙ h.system;
  lost = k.lost ∙ h.lost;
  deferred = k.deferred ∙ h.deferred;
  opens = k.opens ∙ h.opens;
  closes = k.closes ∙ h.closes;
  reports = k.reports ∙ h.reports;
}

pub Keeps-SessionInv : (q : Bool) {a b : App} → Keeps a b → SessionInv q a → SessionInv q b
Keeps-SessionInv q h k = ground arith

pub push_alert-Keeps : (x : Alert) (a : App) → timeouts (x ∷ []) ≡ 0 → Keeps a (push_alert x a)
push_alert-Keeps x a e = ground (arith, timeouts-append a.alerts (x ∷ []))

-- An effect that opens and closes no session.
pub effect-Keeps :
    (e : Effect) (a : App) → opened (e ∷ []) ≡ 0 → closed (e ∷ []) ≡ 0 → Keeps a (effect e a)
effect-Keeps e a p q =
    ground (arith, opened-append a.effects (e ∷ []), closed-append a.effects (e ∷ []))

-- What is written to the other variables.
pub facade-Keeps :
    (f : Facade) (a : App)
    → f.control_plane_lost ≡ a.facade.control_plane_lost
    → f.deferred_pending ≡ a.facade.deferred_pending
    → Keeps a (record a { facade = f })
facade-Keeps f a p q = ground arith

pub vs-Keeps : (v : VsBattle) (a : App) → Keeps a (record a { vs = v })
vs-Keeps v a = ground arith

pub on_client-Keeps : (f : Turn → Turn) (a : App) → Keeps a (on_client f a)
on_client-Keeps f a = ground arith

pub clear_battle_state-Keeps : (a : App) → Keeps a (clear_battle_state a)
unfolding clear_battle_state
clear_battle_state-Keeps a = ground arith

start_session-Keeps :
    (m : Menu) (address : Bytes) (a : App) → Keeps a (not_pending (start_session m address a))
unfolding start_session
start_session-Keeps m address a = ground arith

start_server-Keeps : (m : Menu) (a : App) → Keeps a (start_server m a).0
unfolding start_server
start_server-Keeps m a = ground arith

start_host-Keeps : (m : Menu) (a : App) → Keeps a (start_host m a)
unfolding start_host
start_host-Keeps m a =
    if_cases (Keeps a) (a.facade.config.use_central_session == 2) _ _
      (λ e. start_session-Keeps m _ a)
      (λ e.
        if_cases (Keeps a) (a.facade.config.use_central_session == 1) _ _
          (λ e'. start_session-Keeps m _ a)
          (λ e'.
            if_cases (Keeps a) (start_server m a).1 _ _
              (λ k. Keeps-trans (start_server-Keeps m a) (start_session-Keeps m _ _))
              (λ k. Keeps-trans (start_server-Keeps m a) (
                Keeps-trans (push_alert-Keeps server_not_started _ refl)
                  (facade-Keeps _ _ refl refl)))))

start_with : NetplayMode → Menu → App → App
start_with mode m a = elim mode [
  | idle ↦ a
  | host ↦ start_host m a
  | join ↦
      not_pending
        (start_session m (address_of a.facade.config.session_host a.facade.config.session_port) a)
]

start_with-Keeps : (mode : NetplayMode) (m : Menu) (a : App) → Keeps a (start_with mode m a)
unfolding start_with
start_with-Keeps idle m a = Keeps-refl a
start_with-Keeps host m a = start_host-Keeps m a
start_with-Keeps join m a = start_session-Keeps m _ a

start_netplay-Keeps : (m : Menu) (a : App) → Keeps a (start_netplay m a)
unfolding start_netplay
start_netplay-Keeps m a = unfold start_with in start_with-Keeps a.facade.config.mode m a

check_graphics_warning-Keeps : (a : App) → Keeps a (check_graphics_warning a)
unfolding check_graphics_warning
check_graphics_warning-Keeps a =
    if_cases (Keeps a) (a.facade.graphics_warned || not (netplay_config_is_active a.facade.config))
      _ _ (λ e. Keeps-refl a)
      (λ e.
        Keeps-trans (facade-Keeps (record a.facade { graphics_warned = true }) a refl refl)
          (push_alert-Keeps graphics_tip _ refl))

capture_pad-Keeps : (m : Menu) (a b : App) → capture_pad m a ≡ some b → Keeps a b
unfolding capture_pad
capture_pad-Keeps m a b h = ground arith

begin_with : Menu → App → Option App → App
begin_with m b none = b
begin_with m b (some c) = start_netplay m c

begin_with-Keeps :
    (m : Menu) (b : App) (o : Option App)
    → ((c : App) → o ≡ some c → Keeps b c)
    → Keeps b (begin_with m b o)
unfolding begin_with
begin_with-Keeps m b none h = Keeps-refl b
begin_with-Keeps m b (some c) h = Keeps-trans (h c refl) (start_netplay-Keeps m c)

begin_netplay-Keeps : (m : Menu) (a : App) → Keeps a (begin_netplay m a)
unfolding begin_netplay
begin_netplay-Keeps m a =
    let b = check_graphics_warning a in
    Keeps-trans (check_graphics_warning-Keeps a)
      (unfold begin_with in begin_with-Keeps m b (capture_pad m b) (capture_pad-Keeps m b))

dwell-Keeps : (m : Menu) (a : App) → Keeps a (dwell m a)
unfolding dwell
dwell-Keeps m a =
    let f = record a.facade { dwell_ticks = a.facade.dwell_ticks + 1 } in
    let b = record a { facade = f } in
    let k = facade-Keeps f a refl refl in
    if_cases (Keeps a) (not m.has_root) _ _ (λ e. k)
      (λ e.
        if_cases (Keeps a) (not m.has_pad_system) _ _ (λ e'. k)
          (λ e'.
            if_cases (Keeps a) (ltb b.facade.dwell_ticks min_dwell_before_auto_start) _ _ (λ l. k)
              (λ l. Keeps-trans k (begin_netplay-Keeps m b))))

pub tick_main_menu-Keeps : (m : Menu) (a : App) → Keeps a (tick_main_menu m a)
unfolding tick_main_menu
tick_main_menu-Keeps m a =
    let f = record a.facade { frames_since_ready = a.facade.frames_since_ready + 1 } in
    let b = record a { facade = f } in
    let k = facade-Keeps f a refl refl in
    if_cases (Keeps a) (not a.facade.auto_pending) _ _ (λ e. Keeps-refl a)
      (λ e.
        if_cases (Keeps a) (not a.facade.game_ready) _ _ (λ e'. Keeps-refl a)
          (λ e'.
            if_cases (Keeps a) (ltb b.facade.frames_since_ready min_frames_after_ready) _ _ (λ l. k)
              (λ l. Keeps-trans k (dwell-Keeps m b))))
