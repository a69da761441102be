-- ===== src/UdpRelay/Wire.antt =====
-- The number format that src/session/sf4e__GgpoTransport.cxx writes and
-- src/relay/ggpo_udp_relay.cxx reads, and lemmas on positions in a packet.
use Prim.Native.Nat.add
use native.Mathlib.Nat.{pow-suc, pow-le-pow_right}
use sf4_netplay_launcher.Prelude.{
  ℕ, zero, suc, ◌+◌, ◌*◌, ◌%◌, ◌^◌, ◌≤◌, ◌<◌, ◌≡◌, refl, ap, ◌∙◌, List, [], ◌∷◌, ◌++◌, arith, Bytes,
  length, take, drop, get_or, All,
}
use sf4_netplay_launcher.Prelude.Bits.{or_fields}
use sf4_netplay_launcher.GgpoTransport.{write_be, write_u64_be}
use sf4_netplay_launcher.UdpRelay.Packet.{read_be, read_u64_be}

read_be_step :
    (n x b : ℕ) (rest : Bytes)
    → x < 2 ^ 56
    → b < 256
    → read_be (suc n) x (b ∷ rest) ≡ read_be n (x * 256 + b) rest
unfolding read_be
read_be_step n x b rest hx hb =
    let small : x * 2 ^ 8 % 2 ^ 64 ≡ x * 2 ^ 8 = omega arith in
    rw (small, or_fields 56 8 x b hx (omega arith))

abbrev value_be : ℕ → Bytes → ℕ
value_be x [] = x
value_be x (b ∷ bs) = value_be (x * 256 + b) bs

abbrev IsByte : ℕ → Type 0
IsByte b = b < 256

-- While at most 8 bytes have been read no bit is shifted out.
read_be-value :
    (bs rest : Bytes) (x k : ℕ)
    → All IsByte bs
    → x < 256 ^ k
    → k + length bs ≤ 8
    → read_be (length bs) x (bs ++ rest) ≡ value_be x bs
read_be-value [] rest x k h hx hk = unfold read_be in refl
read_be-value (b ∷ bs) rest x k h hx hk =
    read_be_step (length bs) x b (bs ++ rest)
      (omega (arith, pow-le-pow_right {n = 256} (omega arith) {i = k} {j = 7} (omega arith))) h.0
    ∙ read_be-value bs rest (x * 256 + b) (suc k) h.1 (omega (arith, pow-suc 256 k)) (omega arith)

-- The 8 bytes that WriteU64Be writes of a uint64_t are read back by ReadU64Be, whatever follows.
pub read_u64_be-write_u64_be :
    (v : ℕ) (rest : Bytes) → v < 2 ^ 64 → read_u64_be (write_u64_be v ++ rest) ≡ v
unfolding read_u64_be write_u64_be
read_u64_be-write_u64_be v rest h =
    read_be-value (write_be 8 v []) rest 0 0 (omega arith) (omega arith) (omega arith) ∙ omega arith

module _ {ℓ} {A : Type ℓ} where
  pub drop_past : (n i : ℕ) (xs ys : List A) → length xs ≡ n → drop (n + i) (xs ++ ys) ≡ drop i ys
  drop_past zero i [] ys h = rw (add.zero i)
  drop_past zero i (x ∷ xs) ys h = absurd (omega arith)
  drop_past (suc n) i [] ys h = absurd (omega arith)
  drop_past (suc n) i (x ∷ xs) ys h = rw (add.suc n i) (drop_past n i xs ys (omega arith))

  pub get_or_past :
      (n i : ℕ) (xs ys : List A) (a : A)
      → length xs ≡ n
      → get_or (xs ++ ys) (n + i) a ≡ get_or ys i a
  get_or_past zero i [] ys a h = rw (add.zero i)
  get_or_past zero i (x ∷ xs) ys a h = absurd (omega arith)
  get_or_past (suc n) i [] ys a h = absurd (omega arith)
  get_or_past (suc n) i (x ∷ xs) ys a h = rw (add.suc n i) (get_or_past n i xs ys a (omega arith))

  pub take_exact : (n : ℕ) (xs ys : List A) → length xs ≡ n → take n (xs ++ ys) ≡ xs
  take_exact zero [] ys h = refl
  take_exact zero (x ∷ xs) ys h = absurd (omega arith)
  take_exact (suc n) [] ys h = absurd (omega arith)
  take_exact (suc n) (x ∷ xs) ys h = ap (◌∷◌ x) (take_exact n xs ys (omega arith))
