-- ===== src/Checkpoints/Semantic.antt =====
-- The two checks of a frame in src/sf4e/sf4e__Game__Battle__System.cxx agree on the characters: the
-- hash depends on what the snapshot holds, and on nothing else.
use sf4_netplay_launcher.Prelude.{
  ℕ, ◌+◌, true, ◌≡◌, refl, sym, ◌∙◌, ap, Bytes, get_or, bytes_eq_sound,
}
use sf4_netplay_launcher.StateHash.{Hasher, init, u16, u32, i16, i32, f32, fixed}
use sf4_netplay_launcher.Checkpoints.{
  Snapshot, snapshot_words, same_snapshot, hash_chara, compute_semantic_hashes, BattleFlow,
}
use sf4_netplay_launcher.Session.Protocol.{FixedPoint}

-- A fixed-point number of two words.
abbrev pair : Hasher → ℕ → ℕ → Hasher
pair h fractional integral = u16 (u16 h fractional) integral

-- The hash of a character whose words begin at index `k`.
abbrev hash_words : (ℕ → ℕ) → ℕ → Hasher
hash_words w k =
    let h1 = u32 (u32 init (w k)) (w (k + 5)) in
    let h2 = u32 (u32 (u32 (u32 h1 (w (k + 1))) (w (k + 2))) (w (k + 3))) (w (k + 4)) in
    let h3 = pair (pair h2 (w (k + 6)) (w (k + 7))) (w (k + 8)) (w (k + 9)) in
    let h4 = pair (pair h3 (w (k + 10)) (w (k + 11))) (w (k + 12)) (w (k + 13)) in
    let h5 = pair (pair h4 (w (k + 14)) (w (k + 15))) (w (k + 16)) (w (k + 17)) in
    let h6 = pair (pair h5 (w (k + 18)) (w (k + 19))) (w (k + 20)) (w (k + 21)) in
    let h7 = pair (pair h6 (w (k + 22)) (w (k + 23))) (w (k + 24)) (w (k + 25)) in
    let h8 = pair (pair h7 (w (k + 26)) (w (k + 27))) (w (k + 28)) (w (k + 29)) in
    pair (pair h8 (w (k + 32)) (w (k + 33))) (w (k + 30)) (w (k + 31))

abbrev nth : Bytes → ℕ → ℕ
nth ws i = get_or ws i 0

words_chara0 : (s : Snapshot) → hash_chara s.chara0 ≡ hash_words (nth (snapshot_words s)) 1
unfolding hash_chara snapshot_words i16 i32 f32 fixed
words_chara0 s = refl

words_chara1 : (s : Snapshot) → hash_chara s.chara1 ≡ hash_words (nth (snapshot_words s)) 35
unfolding hash_chara snapshot_words i16 i32 f32 fixed
words_chara1 s = refl

same_snapshot-hash_chara :
    (a b : Snapshot)
    → same_snapshot a b ≡ true
    → (hash_chara a.chara0 ≡ hash_chara b.chara0) × (hash_chara a.chara1 ≡ hash_chara b.chara1)
unfolding same_snapshot
same_snapshot-hash_chara a b h =
    let e = ap nth (bytes_eq_sound (snapshot_words a) (snapshot_words b) h) in
    (
      words_chara0 a ∙ ap (λ w. hash_words w 1) e ∙ sym (words_chara0 b),
      words_chara1 a ∙ ap (λ w. hash_words w 35) e ∙ sym (words_chara1 b),
    )

-- Two snapshots that `memcmp` finds equal have equal semantic hashes at the same numbers of the battle flow: where the older check sees no difference, the newer one can only see one in the flow.
pub same_snapshot-compute :
    (num_frames : FixedPoint) (flow : BattleFlow) (a b : Snapshot)
    → same_snapshot a b ≡ true
    → compute_semantic_hashes num_frames flow a.chara0 a.chara1
      ≡ compute_semantic_hashes num_frames flow b.chara0 b.chara1
unfolding compute_semantic_hashes
same_snapshot-compute num_frames flow a b h =
    let (p, q) = same_snapshot-hash_chara a b h in rw (p, q) refl
