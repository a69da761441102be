-- ===== src/Examples/Client.antt =====
-- Runs of the models of src/session/sf4e__SessionClient.cxx and of the checkpoints of the game.
use sf4_netplay_launcher.Prelude.{
  ℕ, ◌≤◌, ◌≡◌, refl, true, false, some, ◌∷◌, [], arith, bytes_eq, length,
}
use sf4_netplay_launcher.Prelude.Int.{pos, negsuc}
use sf4_netplay_launcher.Session.Protocol.{
  ConnectionId, conn_id_eq, FixedPoint, MemberData, MatchData, null_lobby, no_chara,
}
use sf4_netplay_launcher.Checkpoints.{
  CharaState, SemanticHashes, HashCheckpoint, Simulation, find_hash_checkpoint,
}
use sf4_netplay_launcher.Checkpoints.Ring.{run, recall, hashes_of, find-run_exact}
use sf4_netplay_launcher.Session.Client.{BattleHash, Client, init, Env, Turn, got_hash, is_player}
use sf4_netplay_launcher.Session.Client.Step.{start, reconcile, Poll, received, is_aged}
use sf4_netplay_launcher.Session.Client.Buffers.{
  by_step, by_connect_local, by_disconnect, history, history-Bounded,
}
use sf4_netplay_launcher.Session.Client.Desync.{
  any_desync, all_to_send, all_to_keep, outcome, reconcile_exact,
}
use sf4_netplay_launcher.Session.Client.Detection.{receive_and_check, desync_detected}

abbrev fixed_zero : FixedPoint
fixed_zero = record { fractional = 0; integral = pos 0 }

abbrev idle : CharaState
idle = record {
  status = pos 1;
  root_pos0 = 0;
  root_pos1 = 0;
  root_pos2 = 0;
  root_pos3 = 0;
  side = pos 0;
  vit = fixed_zero;
  vitmax = fixed_zero;
  revenge = fixed_zero;
  revengemax = fixed_zero;
  recoverable = fixed_zero;
  recoverablemax = fixed_zero;
  super = fixed_zero;
  supermax = fixed_zero;
  sctimeamt = fixed_zero;
  sctimemax = fixed_zero;
  uctime = fixed_zero;
  uctimemax = fixed_zero;
  damage = fixed_zero;
  combodamage = fixed_zero;
}

abbrev hashes : ℕ → SemanticHashes
hashes n = record { overall = n; flow = 1; chara0 = 2; chara1 = 3 }

abbrev game : Simulation
game = record {
  frames_simulated = record { fractional = 0; integral = pos 130 };
  snapshot_map =
      (
        pos 60,
        (
          record { frame_idx = pos 60; chara0 = idle; chara1 = idle },
          record { sent = false; confirmed = false },
        ),
      )
      ∷ [];
  hash_checkpoints = [];
  is_leaving = false;
}

-- Frame 60 is captured, 90 after it, and 60 again after a rollback.
find-run_exact_example :
    (s : Simulation) × ((run game ((60, hashes 8) ∷ (90, hashes 7) ∷ (60, hashes 6) ∷ []) ≡ some s)
      × (hashes_of (find_hash_checkpoint s (pos 60)) ≡ some (hashes 8)))
unfolding recall
find-run_exact_example =
    find-run_exact game 60 ((60, hashes 8) ∷ (90, hashes 7) ∷ (60, hashes 6) ∷ []) (omega arith)
      ((omega arith, omega arith), ((omega arith, omega arith), ((omega arith, omega arith), tt)))

abbrev identity : ConnectionId
identity = record { host = b'h' ∷ []; user = b'7' ∷ [] }

abbrev no_match : MatchData
no_match = record {
  ready0 = negsuc 0;
  ready1 = negsuc 0;
  chara0 = no_chara;
  chara1 = no_chara;
  stage_id = pos 0;
  rng_seed = 0;
}

abbrev alice : Client
unfolding init
alice = init (b'x' ∷ []) (b'a' ∷ []) 7000 no_match identity true

abbrev env : Env
env = record { send_ok = λ k. true; strict_desync = true; dump_length = λ f. 0 }

abbrev remote : ℕ → BattleHash
remote n = record {
  frame_idx = pos n;
  overall = n;
  flow = 0;
  chara0 = 0;
  chara1 = 0;
  from_player = true;
}

abbrev two_hashes : Poll
two_hashes = received (some (got_hash (some (remote 30))) ∷ some (got_hash (some (remote 60))) ∷ [])

history-Bounded_example :
    length
      (history game alice (
        by_connect_local 5
        ∷ by_step env game two_hashes
        ∷ by_disconnect
        ∷ [])).pending_remote_hashes
    ≤ 64
unfolding init
history-Bounded_example =
    history-Bounded game alice
      (by_connect_local 5 ∷ by_step env game two_hashes ∷ by_disconnect ∷ []) (omega arith)

abbrev at_work : Turn
at_work = start alice game

reconcile_exact_example : reconcile (pos 130) at_work game.snapshot_map ≡ (
  outcome at_work
      (any_desync (pos 130) [] game.snapshot_map)
      (all_to_send (pos 130) game.snapshot_map),
  all_to_keep (pos 130) [] game.snapshot_map,
)
unfolding init
reconcile_exact_example = reconcile_exact (pos 130) at_work game.snapshot_map

abbrev checkpoint : ℕ → ℕ → HashCheckpoint
checkpoint n h = record { frame_idx = pos n; valid = true; sent = false; hashes = hashes h }

abbrev own_member : MemberData
own_member = record { conn_id = identity; name = b'a' ∷ []; ip = []; port = 7000; flags = 0 }

abbrev playing : Turn
playing = start (record alice { lobby_data = record null_lobby { members = own_member ∷ [] } }) game

desync_detected_example :
    (receive_and_check env
      (pos 130)
      playing
      (checkpoint 90 7)
      (checkpoint 60 5 ∷ checkpoint 90 6 ∷ [])).game.is_leaving
    ≡ true
unfolding init is_player conn_id_eq bytes_eq is_aged
desync_detected_example =
    desync_detected env (pos 130) playing (checkpoint 90 7) (checkpoint 60 5 ∷ []) (checkpoint 90 6)
      [] refl refl refl refl (refl, tt) refl
