-- ===== src/Session/Client/Detection.antt =====
-- A hash that one client of src/session/sf4e__SessionClient.cxx sends meets the checkpoint of another.
use sf4_netplay_launcher.Prelude.{
  true, false, ◌≡◌, refl, sym, ◌∙◌, some, List, [], ◌∷◌, ◌++◌, arith, ◌==◌, All,
}
use sf4_netplay_launcher.Prelude.Int.{ℤ, eqz}
use sf4_netplay_launcher.Prelude.FrameMap.{find, find-erase_other, find-assign}
use sf4_netplay_launcher.Checkpoints.{HashCheckpoint}
use sf4_netplay_launcher.Session.Client.{
  BattleHash, got_hash, Env, Turn, is_local_player, report_hash_mismatch,
}
use sf4_netplay_launcher.Session.Client.Step.{
  buffer_hash, handle, battle_hash_of, offer_hash, compare_hash, is_aged, exchange_one, exchange,
}
use sf4_netplay_launcher.Session.Client.Hashes.{exchange_one-Quiet}

-- A checkpoint of another frame leaves a buffered hash where it is.
exchange_one-find :
    (env : Env) (now : ℤ) (t : Turn) (cp : HashCheckpoint) (f : ℤ)
    → eqz cp.frame_idx f ≡ false
    → find f (exchange_one env now t cp).0.client.pending_remote_hashes
      ≡ find f t.client.pending_remote_hashes
unfolding exchange_one offer_hash compare_hash
exchange_one-find env now t cp f h =
    ground (arith, h, find-erase_other cp.frame_idx f t.client.pending_remote_hashes h)

exchange_one-leaving :
    (env : Env) (now : ℤ) (t : Turn) (cp : HashCheckpoint)
    → t.game.is_leaving ≡ true
    → (exchange_one env now t cp).0.game.is_leaving ≡ true
unfolding exchange_one offer_hash compare_hash report_hash_mismatch
exchange_one-leaving env now t cp h = ground (arith, h)

exchange-leaving :
    (env : Env) (now : ℤ) (t : Turn) (cps : List HashCheckpoint)
    → t.game.is_leaving ≡ true
    → (exchange env now t cps).0.game.is_leaving ≡ true
unfolding exchange
exchange-leaving env now t [] h = h
exchange-leaving env now t (cp ∷ rest) h =
    exchange-leaving env now (exchange_one env now t cp).0 rest
      (exchange_one-leaving env now t cp h)

-- A checkpoint that meets a different hash of its frame.
meets :
    (env : Env) (now : ℤ) (t : Turn) (cp : HashCheckpoint) (remote : BattleHash)
    → env.strict_desync ≡ true
    → is_local_player t.client ≡ true
    → is_aged now cp ≡ true
    → find cp.frame_idx t.client.pending_remote_hashes ≡ some remote
    → remote.from_player ≡ true
    → (cp.hashes.overall == remote.overall) ≡ false
    → (exchange_one env now t cp).0.game.is_leaving ≡ true
unfolding exchange_one offer_hash compare_hash report_hash_mismatch
meets env now t cp remote s p a f r d = ground (arith, s, p, a, f, r, d)

abbrev pub OfOtherFrame : ℤ → HashCheckpoint → Type 0
OfOtherFrame f cp = eqz cp.frame_idx f ≡ false

exchange-meets :
    (env : Env) (now : ℤ) (t : Turn) (before : List HashCheckpoint) (cp : HashCheckpoint)
    (after : List HashCheckpoint) (remote : BattleHash)
    → env.strict_desync ≡ true
    → is_local_player t.client ≡ true
    → is_aged now cp ≡ true
    → All (OfOtherFrame cp.frame_idx) before
    → find cp.frame_idx t.client.pending_remote_hashes ≡ some remote
    → remote.from_player ≡ true
    → (cp.hashes.overall == remote.overall) ≡ false
    → (exchange env now t (before ++ cp ∷ after)).0.game.is_leaving ≡ true
unfolding exchange
exchange-meets env now t [] cp after remote s p a o f r d =
    exchange-leaving env now (exchange_one env now t cp).0 after
      (meets env now t cp remote s p a f r d)
exchange-meets env now t (c ∷ before) cp after remote s p a o f r d =
    exchange-meets env now (exchange_one env now t c).0 before cp after remote s
      ((exchange_one-Quiet env now t c).0 ∙ p) a o.1
      (exchange_one-find env now t c cp.frame_idx o.0 ∙ f) r d

-- The hash of a checkpoint arrives, and the next pass looks at the ring `cps`.
abbrev pub receive_and_check : Env → ℤ → Turn → HashCheckpoint → List HashCheckpoint → Turn
receive_and_check env now t theirs cps =
    (exchange env now (handle t (got_hash (some (battle_hash_of theirs)))) cps).0

-- The hash that a player sends of his checkpoint, received by another player in strict mode whose own checkpoint of that frame is aged and has another overall hash, the only one of its frame so far in the ring: the next pass of that player ends the match, whatever else his ring and his buffer hold.
pub desync_detected :
    (env : Env) (now : ℤ) (t : Turn) (theirs : HashCheckpoint) (before : List HashCheckpoint)
    (ours : HashCheckpoint) (after : List HashCheckpoint)
    → env.strict_desync ≡ true
    → is_local_player t.client ≡ true
    → is_aged now ours ≡ true
    → theirs.frame_idx ≡ ours.frame_idx
    → All (OfOtherFrame ours.frame_idx) before
    → (ours.hashes.overall == theirs.hashes.overall) ≡ false
    → (receive_and_check env now t theirs (before ++ ours ∷ after)).game.is_leaving ≡ true
unfolding handle buffer_hash
desync_detected env now t theirs before ours after s p a same others d =
    exchange-meets env now (handle t (got_hash (some (battle_hash_of theirs)))) before ours after
      (battle_hash_of theirs) s p a others (rw (sym same) (find-assign theirs.frame_idx _ _)) refl d
