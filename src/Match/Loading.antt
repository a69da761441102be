-- ===== src/Match/Loading.antt =====
-- The wait of a battle for the session server, in src/sf4e/sf4e__GameEvents.cxx.
use sf4_netplay_launcher.Prelude.{
  ◌≡◌, refl, Bool, true, false, not, ◌&&◌, ◌||◌, some, List, [], ◌∷◌, ◌++◌, if◌then◌else◌, arith,
  inl, inr, Bool-cases,
}
use sf4_netplay_launcher.Session.Client.Events.{battle_loaded}
use sf4_netplay_launcher.Session.Client.{send_loaded as loaded_message}
use sf4_netplay_launcher.Match.{Netplay, App, turn_of, after_turn}
use sf4_netplay_launcher.Match.Versus.{Block, has_initialized}

-- The game asks again and again whether the battle is initialised.
pub poll_all : List (Block × Bool) → App → App × Bool
poll_all [] a = (a, false)
poll_all ((block, initialized) ∷ rest) a =
    let (b, is_done) = has_initialized block initialized a in
    let later = poll_all rest b in if is_done then (b, true) else later

-- A poll that gets as far as netplay.
abbrev pub reaches_netplay : List (Block × Bool) → Bool
reaches_netplay [] = false
reaches_netplay ((block, initialized) ∷ rest) =
    (initialized && not block.initialization) || reaches_netplay rest

-- Once the message is sent, polls change nothing until the server has answered.
sent_poll :
    (block : Block) (t : Bool) (a : App) (n : Netplay)
    → a.netplay ≡ some n
    → a.vs.session_synced ≡ false
    → a.vs.session_sent_loaded ≡ true
    → has_initialized block t a ≡ (a, false)
unfolding has_initialized
sent_poll block t a n e s l = ground arith

sent_polls :
    (polls : List (Block × Bool)) (a : App) (n : Netplay)
    → a.netplay ≡ some n
    → a.vs.session_synced ≡ false
    → a.vs.session_sent_loaded ≡ true
    → poll_all polls a ≡ (a, false)
unfolding poll_all
sent_polls [] a n e s l = refl
sent_polls ((block, t) ∷ rest) a n e s l =
    ground (arith, sent_poll block t a n e s l, sent_polls rest a n e s l)

-- A poll that does not get as far as netplay.
short_poll :
    (block : Block) (t : Bool) (a : App)
    → t && not block.initialization ≡ false
    → has_initialized block t a ≡ (a, false)
unfolding has_initialized
short_poll block t a h = ground arith

-- The application behind the first poll that gets there.
abbrev after_loaded : App → Netplay → App
after_loaded a n =
    after_turn (record a { vs = record a.vs { session_sent_loaded = true } }) n
      (battle_loaded (turn_of a n))

first_poll :
    (block : Block) (t : Bool) (a : App) (n : Netplay)
    → a.netplay ≡ some n
    → a.vs.session_synced ≡ false
    → a.vs.session_sent_loaded ≡ false
    → t && not block.initialization ≡ true
    → has_initialized block t a ≡ (after_loaded a n, false)
unfolding has_initialized
first_poll block t a n e s l h = ground arith

-- The message of a client that has loaded is sent at the first poll that gets as far as netplay, and
-- never again; the battle does not begin while the server has not said that all have loaded.
pub poll_all_unsynced :
    (polls : List (Block × Bool)) (a : App) (n : Netplay)
    → a.netplay ≡ some n
    → a.vs.session_synced ≡ false
    → a.vs.session_sent_loaded ≡ false
    → ((poll_all polls a).0.sent
        ≡ (if reaches_netplay polls then a.sent ++ loaded_message ∷ [] else a.sent))
      × ((poll_all polls a).1 ≡ false)
unfolding poll_all battle_loaded
poll_all_unsynced [] a n e s l = (refl, refl)
poll_all_unsynced ((block, t) ∷ rest) a n e s l =
    elim (Bool-cases (t && not block.initialization)) [
      | inl h ↦ ground (
        arith,
        first_poll block t a n e s l h,
        sent_polls rest (after_loaded a n)
            (record n { client = (battle_loaded (turn_of a n)).client }) refl s refl,
      )
      | inr h ↦ ground (arith, short_poll block t a h, poll_all_unsynced rest a n e s l)
    ]
