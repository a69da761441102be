-- ===== src/Session/Client/Hashes.antt =====
-- The exchange of hashes in Step of src/session/sf4e__SessionClient.cxx.
use mathlib.Core.List.{append-nil, append_assoc}
use sf4_netplay_launcher.Prelude.{
  Bool, false, not, ◌&&◌, ◌≡◌, refl, sym, ◌∙◌, ap, ap₂, List, [], ◌∷◌, ◌++◌, if◌then◌else◌, arith,
}
use sf4_netplay_launcher.Prelude.Int.{ℤ}
use sf4_netplay_launcher.Checkpoints.{HashCheckpoint}
use sf4_netplay_launcher.Session.Client.{
  Request, send_hash, Env, Turn, is_local_player, report_hash_mismatch,
}
use sf4_netplay_launcher.Session.Client.Step.{
  battle_hash_of, offer_hash, compare_hash, is_aged, exchange_one, exchange,
}

-- The hashes that a player's pass sends.
abbrev pub due_hashes : Bool → ℤ → List HashCheckpoint → List Request
due_hashes player now [] = []
due_hashes player now (cp ∷ rest) =
    (if is_aged now cp && not cp.sent && player then send_hash (battle_hash_of cp) ∷ [] else [])
    ++ due_hashes player now rest

-- What one checkpoint does to the rest of the client.
abbrev Quiet : Env → Turn → Turn → Type 0
Quiet env t u =
    (is_local_player u.client ≡ is_local_player t.client)
    × ((env.strict_desync && is_local_player t.client) ≡ false
        → u.game.is_leaving ≡ t.game.is_leaving)

compare_hash-Quiet :
    (env : Env) (t : Turn) (cp : HashCheckpoint) → Quiet env t (compare_hash env t cp)
unfolding compare_hash report_hash_mismatch
compare_hash-Quiet env t cp = (ground arith, λ h. ground (arith, h))

compare_hash-sent :
    (env : Env) (t : Turn) (cp : HashCheckpoint) → (compare_hash env t cp).sent ≡ t.sent
unfolding compare_hash
compare_hash-sent env t cp = ground arith

pub exchange_one-Quiet :
    (env : Env) (now : ℤ) (t : Turn) (cp : HashCheckpoint)
    → Quiet env t (exchange_one env now t cp).0
unfolding exchange_one offer_hash
exchange_one-Quiet env now t cp =
    let quiet = compare_hash-Quiet env (offer_hash env t cp).0 cp in
    (ground (arith, quiet.0), λ h. ground (arith, h, quiet.1))

exchange_one-sent :
    (env : Env) (now : ℤ) (t : Turn) (cp : HashCheckpoint)
    → (exchange_one env now t cp).0.sent
      ≡ t.sent ++ due_hashes (is_local_player t.client) now (cp ∷ [])
unfolding exchange_one offer_hash
exchange_one-sent env now t cp =
    ground (arith, append-nil t.sent, compare_hash-sent env (offer_hash env t cp).0 cp)

-- The pass over the checkpoints: a player sends the hashes of all the aged checkpoints that are not sent, in the order of the ring; anyone else sends none.
pub exchange-sent_exact :
    (env : Env) (now : ℤ) (t : Turn) (cps : List HashCheckpoint)
    → (exchange env now t cps).0.sent ≡ t.sent ++ due_hashes (is_local_player t.client) now cps
unfolding exchange
exchange-sent_exact env now t [] = sym (append-nil t.sent)
exchange-sent_exact env now t (cp ∷ rest) =
    let u = (exchange_one env now t cp).0 in
    let player = is_local_player t.client in
    let due = due_hashes player now (cp ∷ []) in
    exchange-sent_exact env now u rest
    ∙ ap₂ (λ xs p. xs ++ due_hashes p now rest) (exchange_one-sent env now t cp)
        (exchange_one-Quiet env now t cp).0
    ∙ append_assoc t.sent due (due_hashes player now rest)
    ∙ ap (λ xs. t.sent ++ xs) (append_assoc _ [] (due_hashes player now rest))

-- The hashes end a match only for a player in strict mode: without that mode, or for a spectator, the pass leaves the game's state to leave as it is.
pub exchange-quiet :
    (env : Env) (now : ℤ) (t : Turn) (cps : List HashCheckpoint)
    → (env.strict_desync && is_local_player t.client) ≡ false
    → (exchange env now t cps).0.game.is_leaving ≡ t.game.is_leaving
unfolding exchange
exchange-quiet env now t [] h = refl
exchange-quiet env now t (cp ∷ rest) h =
    let (same, quiet) = exchange_one-Quiet env now t cp in
    exchange-quiet env now (exchange_one env now t cp).0 rest
      (ap (λ p. env.strict_desync && p) same ∙ h)
    ∙ quiet h
