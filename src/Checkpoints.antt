-- ===== src/Checkpoints.antt =====
-- src/sf4e/sf4e__Game__Battle__System.cxx: the snapshots and the hash checkpoints of the simulated
-- frames, with which two clients detect that their games differ. What the getters of the game
-- return is given as records; the rest of the file hooks the game and is not modelled.
pub mod Ring
pub mod Semantic
use sf4_netplay_launcher.Prelude.{
  ℕ, suc, ◌*◌, ◌/◌, ◌%◌, Bool, true, false, not, ◌&&◌, Option, none, some, List, [], ◌∷◌, Bytes,
  bytes_eq, ltb, ◌==◌, if◌then◌else◌, get_elem?,
}
use sf4_netplay_launcher.Prelude.Int.{ℤ, pos, negsuc, eqz}
use sf4_netplay_launcher.Prelude.FrameMap.{FrameMap, emplace, erase}
use sf4_netplay_launcher.Session.Protocol.{FixedPoint}
use sf4_netplay_launcher.StateHash.{Hasher, init, u32, u64, i32, f32, fixed, to_unsigned}
use sf4_netplay_launcher.Diagnostics.{update_at, repeat}

-- CharaStateSnapshot of src/session/sf4e__SessionProtocol.hxx: what the getters say of a character.
-- A float is its bit pattern.
pub record CharaState : Type 0 where
  pub status : ℤ
  pub root_pos0 : ℕ
  pub root_pos1 : ℕ
  pub root_pos2 : ℕ
  pub root_pos3 : ℕ
  pub side : ℤ
  pub vit : FixedPoint
  pub vitmax : FixedPoint
  pub revenge : FixedPoint
  pub revengemax : FixedPoint
  pub recoverable : FixedPoint
  pub recoverablemax : FixedPoint
  pub super : FixedPoint
  pub supermax : FixedPoint
  pub sctimeamt : FixedPoint
  pub sctimemax : FixedPoint
  pub uctime : FixedPoint
  pub uctimemax : FixedPoint
  pub damage : FixedPoint
  pub combodamage : FixedPoint

-- StateSnapshot.
pub record Snapshot : Type 0 where
  pub frame_idx : ℤ
  pub chara0 : CharaState
  pub chara1 : CharaState

-- The words that the snapshot consists of, which `memcmp` compares.
abbrev pub fixed_words : FixedPoint → Bytes → Bytes
fixed_words f rest = f.fractional ∷ to_unsigned 16 f.integral ∷ rest

abbrev pub chara_words : CharaState → Bytes → Bytes
chara_words c rest =
    to_unsigned 32 c.status
    ∷ c.root_pos0
    ∷ c.root_pos1
    ∷ c.root_pos2
    ∷ c.root_pos3
    ∷ to_unsigned 32 c.side
    ∷ fixed_words c.vit (
        fixed_words c.vitmax (
          fixed_words c.revenge (
            fixed_words c.revengemax (
              fixed_words c.recoverable (
                fixed_words c.recoverablemax (
                  fixed_words c.super (
                    fixed_words c.supermax (
                      fixed_words c.sctimeamt (
                        fixed_words c.sctimemax (
                          fixed_words c.uctime (
                            fixed_words c.uctimemax
                              (fixed_words c.damage (fixed_words c.combodamage rest)))))))))))))

unfoldable pub snapshot_words : Snapshot → Bytes
snapshot_words s = to_unsigned 32 s.frame_idx ∷ chara_words s.chara0 (chara_words s.chara1 [])

-- `memcmp(a, b, sizeof(StateSnapshot)) == 0`
unfoldable pub same_snapshot : Snapshot → Snapshot → Bool
same_snapshot a b = bytes_eq (snapshot_words a) (snapshot_words b)

-- StateSnapshotMeta.
pub record SnapshotMeta : Type 0 where
  pub sent : Bool
  pub confirmed : Bool

pub record SemanticHashes : Type 0 where
  pub overall : ℕ
  pub flow : ℕ
  pub chara0 : ℕ
  pub chara1 : ℕ

pub record HashCheckpoint : Type 0 where
  pub frame_idx : ℤ
  pub valid : Bool
  pub sent : Bool
  pub hashes : SemanticHashes

-- The static variables of fSystem that the session client reads and writes, the number of frames
-- simulated, and whether the game was told to leave the battle (RS_ISLEAVING).
pub record Simulation : Type 0 where
  pub frames_simulated : FixedPoint
  pub snapshot_map : FrameMap (Snapshot × SnapshotMeta)
  pub hash_checkpoints : List HashCheckpoint
  pub is_leaving : Bool

abbrev pub num_hash_checkpoints : ℕ
num_hash_checkpoints = 64

abbrev pub hash_checkpoint_interval : ℕ
hash_checkpoint_interval = 30

abbrev pub hash_checkpoint_age_frames : ℕ
hash_checkpoint_age_frames = 30

-- The numbers of the battle flow that are hashed.
pub record BattleFlow : Type 0 where
  pub current : ℕ
  pub previous : ℕ
  pub current_substate : ℕ
  pub previous_substate : ℕ
  pub current_frame : FixedPoint
  pub current_substate_frame : FixedPoint
  pub previous_frame : FixedPoint
  pub previous_substate_frame : FixedPoint

abbrev pub hash_fixed : Hasher → FixedPoint → Hasher
hash_fixed h f = fixed h f.fractional f.integral

unfoldable pub hash_flow : FixedPoint → BattleFlow → Hasher
hash_flow num_frames b =
    let h1 = hash_fixed init num_frames in
    let h2 = u32 (u32 (u32 (u32 h1 b.current) b.previous) b.current_substate) b.previous_substate in
    hash_fixed
      (hash_fixed (hash_fixed (hash_fixed h2 b.current_frame) b.current_substate_frame)
        b.previous_frame)
      b.previous_substate_frame

unfoldable pub hash_chara : CharaState → Hasher
hash_chara c =
    let h1 = i32 (i32 init c.status) c.side in
    let h2 = f32 (f32 (f32 (f32 h1 c.root_pos0) c.root_pos1) c.root_pos2) c.root_pos3 in
    let h3 = hash_fixed (hash_fixed h2 c.vit) c.vitmax in
    let h4 = hash_fixed (hash_fixed h3 c.revenge) c.revengemax in
    let h5 = hash_fixed (hash_fixed h4 c.recoverable) c.recoverablemax in
    let h6 = hash_fixed (hash_fixed h5 c.super) c.supermax in
    let h7 = hash_fixed (hash_fixed h6 c.sctimeamt) c.sctimemax in
    let h8 = hash_fixed (hash_fixed h7 c.uctime) c.uctimemax in
    hash_fixed (hash_fixed h8 c.combodamage) c.damage

-- `ch.Value()` of each hasher, and the hash of the three.
unfoldable pub compute_semantic_hashes :
    FixedPoint → BattleFlow → CharaState → CharaState → SemanticHashes
unfolding hash_flow hash_chara
compute_semantic_hashes num_frames b c0 c1 =
    let flow = (hash_flow num_frames b).h in
    let chara0 = (hash_chara c0).h in
    let chara1 = (hash_chara c1).h in
    record {
      overall = (u64 (u64 (u64 init flow) chara0) chara1).h;
      flow = flow;
      chara0 = chara0;
      chara1 = chara1;
    }

-- HashCheckpoint().
abbrev pub no_checkpoint : HashCheckpoint
no_checkpoint = record {
  frame_idx = negsuc 0;
  valid = false;
  sent = false;
  hashes = record { overall = 0; flow = 0; chara0 = 0; chara1 = 0 };
}

-- `(frameIdx / 30) % 64`, the slot of a frame number; `none` where it is negative, out of the array.
abbrev pub slot_of : ℤ → Option ℕ
slot_of (pos n) = some (n / hash_checkpoint_interval % num_hash_checkpoints)
slot_of (negsuc n) =
    if suc n / hash_checkpoint_interval % num_hash_checkpoints == 0 then some 0 else none

-- `frameIdx % k == 0`
abbrev pub is_multiple : ℤ → ℕ → Bool
is_multiple (pos n) k = n % k == 0
is_multiple (negsuc n) k = suc n % k == 0

abbrev pub capture_slot : ℤ → SemanticHashes → HashCheckpoint → HashCheckpoint
capture_slot frame_idx hashes slot = record {
  frame_idx = frame_idx;
  valid = true;
  sent = if eqz slot.frame_idx frame_idx then slot.sent else false;
  hashes = hashes;
}

-- CaptureHashCheckpoint, on the hashes of the current frame; `none` is a write outside the array.
unfoldable pub capture_hash_checkpoint : Simulation → SemanticHashes → Option Simulation
capture_hash_checkpoint g hashes =
    let frame_idx = g.frames_simulated.integral in
    if not (is_multiple frame_idx hash_checkpoint_interval)
    then some g
    else elim (slot_of frame_idx) [
      | none ↦ none
      | some i ↦ some (record g {
        hash_checkpoints = update_at (capture_slot frame_idx hashes) g.hash_checkpoints i;
      })
    ]

-- FindHashCheckpoint; `none` is the null pointer.
unfoldable pub find_hash_checkpoint : Simulation → ℤ → Option HashCheckpoint
find_hash_checkpoint g (negsuc n) = none
find_hash_checkpoint g (pos n) =
    if not (n % hash_checkpoint_interval == 0)
    then none
    else elim (get_elem? g.hash_checkpoints (n / hash_checkpoint_interval % num_hash_checkpoints)) [
      | none ↦ none
      | some slot ↦ if slot.valid && eqz slot.frame_idx (pos n) then some slot else none
    ]

unfoldable pub clear_hash_checkpoints : Simulation → Simulation
clear_hash_checkpoints g = record g { hash_checkpoints = repeat num_hash_checkpoints no_checkpoint }

-- CaptureSnapshot, on what the getters return: a snapshot of this second replaces an older one.
unfoldable pub capture_snapshot : Simulation → CharaState → CharaState → Simulation
capture_snapshot g c0 c1 =
    let frame_idx = g.frames_simulated.integral in
    if not (is_multiple frame_idx 60) then g else record g {
      snapshot_map =
          emplace frame_idx
            (
              record { frame_idx = frame_idx; chara0 = c0; chara1 = c1 },
              record { sent = false; confirmed = false },
            )
            (erase frame_idx g.snapshot_map);
    }
