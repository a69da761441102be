-- ===== src/Checkpoints/Ring.antt =====
-- The ring of hash checkpoints of src/sf4e/sf4e__Game__Battle__System.cxx, over a history of captures.
use mathlib.Core.Bool.{false≢true}
use sf4_netplay_launcher.Prelude.{
  ℕ, zero, suc, ◌+◌, ◌/◌, ◌%◌, ◌<◌, ◌≢◌, ◌≡◌, refl, sym, ◌∙◌, ap, Option, none, some, List, [], ◌∷◌,
  ◌&&◌, length, get_elem?, arith, All, ◌==◌, ==_iff, Bool-cases, ◌⊎◌, if◌then◌else◌, inl, inr,
}
use sf4_netplay_launcher.Prelude.Int.{pos, eqz, eqz_refl}
use sf4_netplay_launcher.Diagnostics.{update_at, repeat}
use sf4_netplay_launcher.Checkpoints.{
  SemanticHashes, HashCheckpoint, Simulation, no_checkpoint, capture_slot, capture_hash_checkpoint,
  find_hash_checkpoint, clear_hash_checkpoints,
}

-- The game at frame `n`.
abbrev pub at_frame : Simulation → ℕ → Simulation
at_frame g n = record g { frames_simulated = record { fractional = 0; integral = pos n } }

-- The captures of a match, the newest first; frames may come again after a rollback.
unfoldable pub run : Simulation → List (ℕ × SemanticHashes) → Option Simulation
run g [] = some (clear_hash_checkpoints g)
run g ((n, h) ∷ log) = elim (run g log) [
  | none ↦ none
  | some s ↦ capture_hash_checkpoint (at_frame s n) h
]

-- The newest capture of frame `m`.
unfoldable pub recall : ℕ → List (ℕ × SemanticHashes) → Option SemanticHashes
recall m [] = none
recall m ((n, h) ∷ log) = if n == m then some h else recall m log

-- Frames that are less than the span of the ring apart.
abbrev pub Near : ℕ → ℕ × SemanticHashes → Type 0
Near m (n, h) = (n < m + 1920) × (m < n + 1920)

abbrev pub hashes_of : Option HashCheckpoint → Option SemanticHashes
hashes_of none = none
hashes_of (some c) = some c.hashes

-- What FindHashCheckpoint reads in a slot.
abbrev look : ℕ → Option HashCheckpoint → Option HashCheckpoint
look m none = none
look m (some slot) = if slot.valid && eqz slot.frame_idx (pos m) then some slot else none

module _ (f : HashCheckpoint → HashCheckpoint) where
  get-update_at :
      (cs : List HashCheckpoint) (i : ℕ)
      → i < length cs
      → (c : HashCheckpoint) × (get_elem? (update_at f cs i) i ≡ some (f c))
  get-update_at [] i h = absurd (omega (arith, h))
  get-update_at (c ∷ cs) zero h = (c, refl)
  get-update_at (c ∷ cs) (suc i) h = get-update_at cs i (omega (arith, h))

  get-update_at_other :
      (cs : List HashCheckpoint) (i j : ℕ) → i ≢ j → get_elem? (update_at f cs i) j ≡ get_elem? cs j
  get-update_at_other [] i j h = refl
  get-update_at_other (c ∷ cs) zero zero h = absurd (h refl)
  get-update_at_other (c ∷ cs) zero (suc j) h = refl
  get-update_at_other (c ∷ cs) (suc i) zero h = refl
  get-update_at_other (c ∷ cs) (suc i) (suc j) h = get-update_at_other cs i j (λ e. h (ap suc e))

  length-update_at : (cs : List HashCheckpoint) (i : ℕ) → length (update_at f cs i) ≡ length cs
  length-update_at [] i = refl
  length-update_at (c ∷ cs) zero = refl
  length-update_at (c ∷ cs) (suc i) = ap suc (length-update_at cs i)

-- Two captured frames in one slot that are near are the same frame.
slots_apart :
    (m n : ℕ)
    → m % 30 ≡ 0
    → n % 30 ≡ 0
    → n < m + 1920
    → m < n + 1920
    → n ≢ m
    → n / 30 % 64 ≢ m / 30 % 64
slots_apart m n hm hn a b h e = h (omega arith)

-- The slots of the ring answer for the frame `m` what the newest capture of `m` in `log` says.
abbrev Recalls : List HashCheckpoint → ℕ → List (ℕ × SemanticHashes) → Type 0
Recalls cs m log =
    (length cs ≡ 64) × (hashes_of (look m (get_elem? cs (m / 30 % 64))) ≡ recall m log)

captured-same :
    (cs : List HashCheckpoint) (m : ℕ) (h : SemanticHashes)
    → length cs ≡ 64
    → hashes_of
        (look m (get_elem? (update_at (capture_slot (pos m) h) cs (m / 30 % 64)) (m / 30 % 64)))
      ≡ some h
captured-same cs m h len =
    let (c, e) = get-update_at (capture_slot (pos m) h) cs (m / 30 % 64) (omega (arith, len)) in
    rw (e, eqz_refl (pos m)) refl

capture-Recalls :
    (cs : List HashCheckpoint) (m n : ℕ) (h : SemanticHashes) (log : List (ℕ × SemanticHashes))
    → m % 30 ≡ 0
    → n % 30 ≡ 0
    → Near m (n, h)
    → Recalls cs m log
    → Recalls (update_at (capture_slot (pos n) h) cs (n / 30 % 64)) m ((n, h) ∷ log)
unfolding recall
capture-Recalls cs m n h log hm hn near (len, e) = (
  length-update_at (capture_slot (pos n) h) cs (n / 30 % 64) ∙ len,
  elim (Bool-cases (n == m)) [
    | inl same ↦ rw (sym ((==_iff n m).0 same), (==_iff n n).1 refl) (captured-same cs n h len)
    | inr other ↦
        let apart = λ (i : n ≡ m). false≢true (sym other ∙ (==_iff n m).1 i) in
        rw
          (
            other,
            get-update_at_other (capture_slot (pos n) h) cs (n / 30 % 64) (m / 30 % 64)
                (slots_apart m n hm hn near.0 near.1 apart),
          )
          e
  ],
)

look-repeat : (k i m : ℕ) → look m (get_elem? (repeat k no_checkpoint) i) ≡ none
look-repeat zero i m = refl
look-repeat (suc k) zero m = refl
look-repeat (suc k) (suc i) m = look-repeat k i m

empty-Recalls : (m : ℕ) → Recalls (repeat 64 no_checkpoint) m []
unfolding recall
empty-Recalls m = (refl, rw (look-repeat 64 (m / 30 % 64) m) refl)

abbrev captured : Simulation → ℕ → SemanticHashes → Simulation
captured s n h = record (at_frame s n) {
  hash_checkpoints = update_at (capture_slot (pos n) h) s.hash_checkpoints (n / 30 % 64);
}

capture_lem :
    (s : Simulation) (n : ℕ) (h : SemanticHashes)
    → ((n % 30 ≢ 0) × (capture_hash_checkpoint (at_frame s n) h ≡ some (at_frame s n)))
      ⊎ ((n % 30 ≡ 0) × (capture_hash_checkpoint (at_frame s n) h ≡ some (captured s n h)))
unfolding capture_hash_checkpoint
capture_lem s n h = elim (Bool-cases (n % 30 == 0)) [
  | inl e ↦ inr ((==_iff (n % 30) 0).0 e, rw e refl)
  | inr e ↦ inl (λ i. false≢true (sym e ∙ (==_iff (n % 30) 0).1 i), rw e refl)
]

run-Recalls :
    (g : Simulation) (m : ℕ) (log : List (ℕ × SemanticHashes))
    → m % 30 ≡ 0
    → All (Near m) log
    → (s : Simulation) × ((run g log ≡ some s) × Recalls s.hash_checkpoints m log)
unfolding run clear_hash_checkpoints recall
run-Recalls g m [] hm near = (clear_hash_checkpoints g, (refl, empty-Recalls m))
run-Recalls g m ((n, h) ∷ log) hm near =
    let (s, (e, k)) = run-Recalls g m log hm near.1 in
    elim (capture_lem s n h) [
      | inl (hn, c) ↦
          (at_frame s n, (rw e c, (k.0, k.1 ∙ skipped (λ i. hn (ap (λ x. x % 30) i ∙ hm)))))
      | inr (hn, c) ↦
          (captured s n h, (rw e c, capture-Recalls s.hash_checkpoints m n h log hm hn near.0 k))
    ]
  where
    skipped : n ≢ m → recall m log ≡ (if n == m then some h else recall m log)
    skipped apart = ground (arith, apart)

find_lem :
    (g : Simulation) (m : ℕ)
    → m % 30 ≡ 0
    → find_hash_checkpoint g (pos m) ≡ look m (get_elem? g.hash_checkpoints (m / 30 % 64))
unfolding find_hash_checkpoint
find_lem g m h = rw ((==_iff (m % 30) 0).1 h) refl

-- Whatever frames are captured in whatever order, frames again after a rollback among them, for frames
-- that are not negative: if they are all less than 1920 frames from `m`, a multiple of 30,
-- FindHashCheckpoint then has for `m` the hashes of its newest capture, or nothing if `m` was not
-- captured.
pub find-run_exact :
    (g : Simulation) (m : ℕ) (log : List (ℕ × SemanticHashes))
    → m % 30 ≡ 0
    → All (Near m) log
    → (s : Simulation) × ((run g log ≡ some s)
        × (hashes_of (find_hash_checkpoint s (pos m)) ≡ recall m log))
find-run_exact g m log hm near =
    let (s, (e, k)) = run-Recalls g m log hm near in (s, (e, ap hashes_of (find_lem s m hm) ∙ k.1))
