-- ===== src/Examples/Host.antt =====
-- Runs of the models of src/common/sf4e__GgpoGate.hxx and src/common/sf4e__StateHash.hxx.
use sf4_netplay_launcher.Prelude.{true, false, not, ◌&&◌, ◌≡◌, List, [], ◌∷◌}
use sf4_netplay_launcher.Prelude.Int.{negsuc}
use sf4_netplay_launcher.Gate.{can_advance_deterministic_frame, is_running}
use sf4_netplay_launcher.Gate.History.{
  Event, session_started, running, manual_pause, interrupted, resumed, run, lifecycle, paused,
  failed, can_advance_exact,
}
use sf4_netplay_launcher.StateHash.{init}
use sf4_netplay_launcher.StateHash.Encoding.{
  Field, byte, dword, int, hash_fields, fnv1a, encode_all, hash_fields-fnv1a,
}

-- A warning inside a manual pause, the newest event first.
abbrev history : List Event
history =
    manual_pause false
    ∷ resumed
    ∷ interrupted 30
    ∷ interrupted 20
    ∷ manual_pause true
    ∷ running
    ∷ session_started
    ∷ []

can_advance_exact_example :
    can_advance_deterministic_frame (run history)
    ≡ (is_running (lifecycle history) && not (paused history) && not (failed history))
can_advance_exact_example = can_advance_exact history

abbrev fields : List Field
fields = dword 0x01020304 ∷ int (negsuc 0) ∷ byte 9 ∷ []

hash_fields-fnv1a_example :
    (hash_fields init fields).h ≡ fnv1a 0xcbf29ce484222325 (encode_all fields)
hash_fields-fnv1a_example = hash_fields-fnv1a fields
