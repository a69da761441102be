-- ===== src/Match/Versus.antt =====
-- src/sf4e/sf4e__GameEvents.cxx: the detours of the game's event VSBattle, which hold a battle back
-- until the session server has said that all players have loaded.
use sf4_netplay_launcher.Prelude.{
  ℕ, Bool, true, false, not, ◌&&◌, Option, none, some, if◌then◌else◌,
}
use sf4_netplay_launcher.Session.Client.Events.{battle_loaded}
use sf4_netplay_launcher.Match.{App, World, on_client}
use sf4_netplay_launcher.Match.Begin.{Outside, on_vs_battle_tasks_registered}
use sf4_netplay_launcher.Match.Control.{reset_lobby}

-- The flags of the overlay that hold a battle back.
pub record Block : Type 0 where
  pub initialization : Bool
  pub termination : Bool

abbrev pub send_loaded : App → App
send_loaded a =
    if a.vs.session_sent_loaded
    then a
    else on_client battle_loaded (record a { vs = record a.vs { session_sent_loaded = true } })

-- HasInitialized; the game's own function is asked first.
unfoldable pub has_initialized : Block → Bool → App → App × Bool
has_initialized block initialized a =
    if not initialized
    then (a, false)
    else if block.initialization
    then (a, false)
    else elim a.netplay [
      | none ↦ (a, true)
      | some n ↦ (send_loaded a, (send_loaded a).vs.session_synced)
    ]

unfoldable pub is_termination_complete : Block → Bool → Bool
is_termination_complete block terminated = terminated && not block.termination

-- CheckAndMaybeExitBasedOnExitType; the result says that the event is ended at once, and otherwise
-- the game's own function is called.
unfoldable pub check_and_maybe_exit : App → App × Bool
check_and_maybe_exit a =
    if a.vs.terminate_on_next_left_battle
    then (record a { vs = record a.vs { terminate_on_next_left_battle = false } }, true)
    else (a, false)

-- PrepareBattleRequest: the seed that the request gets, if there is a request.
unfoldable pub prepare_battle_request : App → App × Option ℕ
prepare_battle_request a =
    (record a { vs = record a.vs { next_match_random_seed = none } }, a.vs.next_match_random_seed)

-- RegisterTasks of the battle: the hook is called once.
unfoldable pub register_tasks : World → Outside → App → App
register_tasks w o a =
    if a.vs.has_battle_hook
    then (let b = on_vs_battle_tasks_registered w o a in
        record b { vs = record b.vs { has_battle_hook = false } })
    else a

-- ExitForeground.
unfoldable pub exit_foreground : App → App
exit_foreground a =
    let b : App = elim a.netplay [ none ↦ a | some n ↦ reset_lobby a ] in
    record b { vs = record b.vs { session_sent_loaded = false; session_synced = false } }

-- The callback OnBattleSynced of the client, in src/sf4e/sf4e__UserApp.cxx.
unfoldable pub on_battle_synced : App → App
on_battle_synced a = record a { vs = record a.vs { session_synced = true } }
