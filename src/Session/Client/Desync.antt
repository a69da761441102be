-- ===== src/Session/Client/Desync.antt =====
-- The pass over the local snapshots in Step of src/session/sf4e__SessionClient.cxx, in one formula.
use mathlib.Core.List.{append-nil, append_assoc}
use sf4_netplay_launcher.Prelude.{
  Bool, true, false, not, ◌&&◌, ◌||◌, ◌≡◌, refl, ◌∙◌, ap, Option, none, some, List, [], ◌∷◌, ◌++◌,
  if◌then◌else◌, arith,
}
use sf4_netplay_launcher.Prelude.Int.{ℤ, ltz, add_nat}
use sf4_netplay_launcher.Prelude.FrameMap.{FrameMap, find}
use sf4_netplay_launcher.Checkpoints.{Snapshot, SnapshotMeta, same_snapshot}
use sf4_netplay_launcher.Session.Client.{Request, send_snapshot, Turn, leave_if}
use sf4_netplay_launcher.Session.Client.Step.{reconcile_one, reconcile}

-- One local snapshot.
pub record Entry : Type 0 where
  pub frame_idx : ℤ
  pub local : Snapshot
  pub meta : SnapshotMeta

abbrev pub entry : ℤ × (Snapshot × SnapshotMeta) → Entry
entry (f, (local, meta)) = record { frame_idx = f; local = local; meta = meta }

-- A second was simulated since.
abbrev pub is_old : ℤ → Entry → Bool
is_old now e = not (ltz now (add_nat e.frame_idx 60))

-- The remote snapshot of the frame is there, and differs.
abbrev pub differs : Entry → Option Snapshot → Bool
differs e none = false
differs e (some remote) = not (same_snapshot remote e.local)

abbrev pub is_there : Option Snapshot → Bool
is_there none = false
is_there (some remote) = true

abbrev pub to_send : ℤ → Entry → List Request
to_send now e = if is_old now e && not e.meta.sent then send_snapshot e.local ∷ [] else []

abbrev pub all_to_send : ℤ → FrameMap (Snapshot × SnapshotMeta) → List Request
all_to_send now [] = []
all_to_send now (x ∷ m) = to_send now (entry x) ++ all_to_send now m

module _ (now : ℤ) (pending : FrameMap Snapshot) where
  abbrev pub is_desync : Entry → Bool
  is_desync e = is_old now e && not e.meta.confirmed && differs e (find e.frame_idx pending)

  abbrev pub is_settled : Entry → Bool
  is_settled e = e.meta.confirmed || is_there (find e.frame_idx pending)

  abbrev pub to_keep : Entry → FrameMap (Snapshot × SnapshotMeta)
  to_keep e =
      if is_old now e
      then (if is_settled e
          then []
          else (e.frame_idx, (e.local, record e.meta { sent = true })) ∷ [])
      else (e.frame_idx, (e.local, e.meta)) ∷ []

  abbrev pub any_desync : FrameMap (Snapshot × SnapshotMeta) → Bool
  any_desync [] = false
  any_desync (x ∷ m) = any_desync m || is_desync (entry x)

  abbrev pub all_to_keep : FrameMap (Snapshot × SnapshotMeta) → FrameMap (Snapshot × SnapshotMeta)
  all_to_keep [] = []
  all_to_keep (x ∷ m) = to_keep (entry x) ++ all_to_keep m

abbrev pub outcome : Turn → Bool → List Request → Turn
outcome t is_over requests = record t { sent = t.sent ++ requests; game = leave_if is_over t.game }

reconcile_one_exact :
    (now : ℤ) (t : Turn) (x : ℤ × (Snapshot × SnapshotMeta))
    → reconcile_one now t x.0 x.1.0 x.1.1 ≡ (
      outcome t (is_desync now t.client.pending_remote_snapshots (entry x)) (to_send now (entry x)),
      to_keep now t.client.pending_remote_snapshots (entry x),
    )
unfolding reconcile_one
reconcile_one_exact now t (f, (local, meta)) = ground (arith, append-nil t.sent)

-- Two outcomes, one after the other.
outcomes :
    (t : Turn) (a b : Bool) (xs ys : List Request)
    → outcome (outcome t a xs) b ys ≡ outcome t (b || a) (xs ++ ys)
outcomes t a true xs ys = rw (append_assoc t.sent xs ys) refl
outcomes t a false xs ys = rw (append_assoc t.sent xs ys) refl

-- The pass sends each local snapshot of at least 60 frames that was not sent yet, in the order of the frames; ends the match if one of these frames is not confirmed and the other player's snapshot of it is there and differs; erases those that are confirmed or found in the buffer, and keeps all the others.
pub reconcile_exact :
    (now : ℤ) (t : Turn) (m : FrameMap (Snapshot × SnapshotMeta))
    → reconcile now t m ≡ (
      outcome t (any_desync now t.client.pending_remote_snapshots m) (all_to_send now m),
      all_to_keep now t.client.pending_remote_snapshots m,
    )
unfolding reconcile
reconcile_exact now t [] = rw (append-nil t.sent) refl
reconcile_exact now t (x ∷ rest) =
    let pending = t.client.pending_remote_snapshots in
    let desync = is_desync now pending (entry x) in
    let kept = to_keep now pending (entry x) in
    let more = reconcile_exact now (outcome t desync (to_send now (entry x))) rest in
    ap (λ p. ((reconcile now p.0 rest).0, p.1 ++ (reconcile now p.0 rest).1))
      (reconcile_one_exact now t x)
    ∙ ap (λ p. (p.0, kept ++ p.1)) more
    ∙ ap (λ u. (u, kept ++ all_to_keep now pending rest))
        (outcomes t desync (any_desync now pending rest) (to_send now (entry x))
          (all_to_send now rest))
