-- ===== src/Match/Lifetime/Frames.antt =====
-- The invariant of the session of GGPO is kept by the frames of the battle, by the events of GGPO
-- and at the end of the battle.
use sf4_netplay_launcher.Prelude.{
  refl, Bool, true, false, not, ◌&&◌, Option, none, some, if◌then◌else◌, arith, if_cases,
  option_cases,
}
use sf4_netplay_launcher.Gate.{
  AdvancePolicy, continue, stall_prediction, skip_not_synced, skip_other, fatal,
  classify_ggpo_result, set_manual_pause, on_prediction_threshold, on_frame_accepted,
}
use sf4_netplay_launcher.Checkpoints.{Simulation, capture_hash_checkpoint, capture_snapshot}
use sf4_netplay_launcher.Match.{
  input_failed, sync_failed, add_local_input, sync_input, advance_frame, engine_update, App, World,
  effect,
}
use sf4_netplay_launcher.Match.Battle.{may_advance_deterministic_frame, abort_ggpo_match}
use sf4_netplay_launcher.Match.Update.{
  Frame, Branch, out_of_bounds, returned, falls_through, run_engine, capture, advance, synchronize,
  update_session, halt, finish, battle_update, resimulate,
}
use sf4_netplay_launcher.Match.Lifetime.{SessionInv, effect-SessionInv, abort-SessionInv}
use sf4_netplay_launcher.Match.Lifetime.Quiet.{Keeps, Keeps-trans, Keeps-SessionInv, effect-Keeps}

-- A property of the application behind a branch of BattleUpdate, and behind an action, where there
-- is one.
abbrev Within : (App → Type 0) → Branch → Type 0
Within P out_of_bounds = Unit
Within P (returned a) = P a
Within P (falls_through a) = P a

abbrev pub Holds : (App → Type 0) → Option App → Type 0
Holds P none = Unit
Holds P (some a) = P a

-- What the session does with a result: on, out with the frame skipped, or out with the match.
policy_cases :
    (P : Branch → Type 0) (p : AdvancePolicy) (go stall skip0 skip1 stop : Branch)
    → P go
    → P stall
    → P skip0
    → P skip1
    → P stop
    → P (elim p [
      | continue ↦ go
      | stall_prediction ↦ stall
      | skip_not_synced ↦ skip0
      | skip_other ↦ skip1
      | fatal ↦ stop
    ])
policy_cases P continue go stall skip0 skip1 stop a b c d e = a
policy_cases P stall_prediction go stall skip0 skip1 stop a b c d e = b
policy_cases P skip_not_synced go stall skip0 skip1 stop a b c d e = c
policy_cases P skip_other go stall skip0 skip1 stop a b c d e = d
policy_cases P fatal go stall skip0 skip1 stop a b c d e = e

game-Keeps : (g : Simulation) (a : App) → Keeps a (record a { game = g })
game-Keeps g a = ground arith

run_engine-Keeps : (f : Frame) (a : App) → Keeps a (run_engine f a)
run_engine-Keeps f a = Keeps-trans (game-Keeps _ a) (effect-Keeps engine_update _ refl refl)

module _ (q : Bool) where
  capture-SessionInv : (f : Frame) (a : App) → SessionInv q a → Within (SessionInv q) (capture f a)
  capture-SessionInv f a h =
      option_cases (Within (SessionInv q))
        (capture_hash_checkpoint (capture_snapshot a.game f.chara0 f.chara1) f.hashes) out_of_bounds
        (λ g. falls_through (record a { game = g })) (λ e. tt)
        (λ g e. Keeps-SessionInv q (game-Keeps g a) h)

  accepted-SessionInv :
      (a : App)
      → SessionInv q a
      → SessionInv q
          (record a { system = record a.system { gate = on_frame_accepted a.system.gate } })
  unfolding on_frame_accepted
  accepted-SessionInv a h = ground arith

  threshold-SessionInv :
      (a : App)
      → SessionInv q a
      → SessionInv q
          (record a { system = record a.system { gate = on_prediction_threshold a.system.gate } })
  unfolding on_prediction_threshold
  threshold-SessionInv a h = ground arith

  advance-SessionInv :
      (w : World) (f : Frame) (a : App) → SessionInv q a → Within (SessionInv q) (advance w f a)
  unfolding advance
  advance-SessionInv w f a h =
      let b = effect advance_frame (run_engine f a) in
      let k =
        Keeps-SessionInv q
          (Keeps-trans (run_engine-Keeps f a) (effect-Keeps advance_frame _ refl refl)) h in
      if_cases (Within (SessionInv q)) (not f.is_advanced) _ _
        (λ e. abort-SessionInv q w sync_failed b (λ o. refl) k.base)
        (λ e. capture-SessionInv f _ (accepted-SessionInv b k))

  synchronize-SessionInv :
      (w : World) (f : Frame) (a : App) → SessionInv q a → Within (SessionInv q) (synchronize w f a)
  unfolding synchronize
  synchronize-SessionInv w f a h =
      let k = effect-SessionInv q sync_input a refl refl h in
      policy_cases (Within (SessionInv q)) (classify_ggpo_result f.sync_result) _ _ _ _ _
        (advance-SessionInv w f _ k) k k k (abort-SessionInv q w sync_failed _ (λ o. refl) k.base)

  added-SessionInv :
      (t : Bool) (a : App)
      → SessionInv q a
      → SessionInv q (if t then effect add_local_input a else a)
  added-SessionInv true a h = effect-SessionInv q add_local_input a refl refl h
  added-SessionInv false a h = h

  update_session-SessionInv :
      (w : World) (f : Frame) (a : App)
      → SessionInv q a
      → Within (SessionInv q) (update_session w f a)
  unfolding update_session
  update_session-SessionInv w f a h =
      let k = added-SessionInv a.system.has_local_player a h in
      let b = if a.system.has_local_player then effect add_local_input a else a in
      policy_cases (Within (SessionInv q))
        (if a.system.has_local_player then classify_ggpo_result f.add_result else continue)
        (synchronize w f b)
        (returned
          (record b { system = record b.system { gate = on_prediction_threshold b.system.gate } }))
        (returned b) (returned b) (returned (abort_ggpo_match w input_failed b))
        (synchronize-SessionInv w f b k) (threshold-SessionInv b k) k k
        (abort-SessionInv q w input_failed b (λ o. refl) k.base)

  -- The pause that `halt_after_next` asks for, in a state where only a button can have asked.
  pub halt-SessionInv : (a : App) → SessionInv q a → SessionInv q (halt a)
  unfolding halt set_manual_pause
  halt-SessionInv a h = ground arith

  finish-SessionInv : (r : Branch) → Within (SessionInv q) r → Holds (SessionInv q) (finish r)
  finish-SessionInv out_of_bounds h = tt
  finish-SessionInv (returned a) h = h
  finish-SessionInv (falls_through a) h = halt-SessionInv a h

  pub battle_update-SessionInv :
      (w : World) (f : Frame) (a : App)
      → SessionInv q a
      → Holds (SessionInv q) (battle_update w f a)
  unfolding battle_update
  battle_update-SessionInv w f a h =
      if_cases (Holds (SessionInv q)) (not (may_advance_deterministic_frame a.system)) _ _ (λ e. h)
        (λ e. finish-SessionInv _ (
          if_cases (Within (SessionInv q)) (a.system.ggpo && not w.battle_idle) _ _
            (λ o. update_session-SessionInv w f a h)
            (λ o. Keeps-SessionInv q (run_engine-Keeps f a) h)))

  unwrap-SessionInv :
      (r : Branch)
      → Within (SessionInv q) r
      → Holds
          (SessionInv q)
          (elim r [ out_of_bounds ↦ none | returned d ↦ some d | falls_through d ↦ some d ])
  unwrap-SessionInv out_of_bounds h = tt
  unwrap-SessionInv (returned d) h = h
  unwrap-SessionInv (falls_through d) h = h

  pub resimulate-SessionInv :
      (w : World) (t : Bool) (f : Frame) (a : App)
      → SessionInv q a
      → Holds (SessionInv q) (resimulate w t f a)
  unfolding resimulate
  resimulate-SessionInv w t f a h =
      let k = effect-SessionInv q sync_input a refl refl h in
      let b = run_engine f (effect sync_input a) in
      let l =
        Keeps-SessionInv q
          (Keeps-trans (run_engine-Keeps f _) (effect-Keeps advance_frame b refl refl)) k in
      if_cases (Holds (SessionInv q)) (not t) _ _
        (λ e. abort-SessionInv q w sync_failed _ (λ o. refl) k.base)
        (λ e.
          if_cases (Holds (SessionInv q)) (not f.is_advanced) _ _
            (λ e'. abort-SessionInv q w sync_failed _ (λ o. refl) l.base)
            (λ e'. unwrap-SessionInv _ (capture-SessionInv f _ l)))
