-- ===== src/StateHash/Detection.antt =====
-- What the hash of src/common/sf4e__StateHash.hxx is sure to detect. Each step of FNV-1a can be
-- undone, since the prime is odd, so a single differing byte is never lost.
use Prim.Native.Nat.{bit_xor}
use sf4_netplay_launcher.Prelude.{
  ℕ, ◌*◌, ◌%◌, ◌^◌, ◌<◌, ◌≡◌, sym, ◌∙◌, ap, ◌≢◌, [], ◌∷◌, ◌++◌, arith, Bytes, All,
}
use sf4_netplay_launcher.Prelude.Bits.{xor-lt, xor_comm, xor_cancel}
use sf4_netplay_launcher.StateHash.{Hasher, u8, fnv_prime}
use sf4_netplay_launcher.StateHash.Encoding.{feed, feed-append_cons}

abbrev pub IsByte : ℕ → Type 0
IsByte b = b < 256

abbrev pub InRange : Hasher → Type 0
InRange s = s.h < 2 ^ 64

-- The inverse of the prime modulo 2 ^ 64.
abbrev prime_inverse : ℕ
prime_inverse = 14886173955864302971

mul_undone : (x : ℕ) → x < 2 ^ 64 → x * fnv_prime % 2 ^ 64 * prime_inverse % 2 ^ 64 ≡ x
mul_undone x h = omega arith

u8_range : (s : Hasher) (v : ℕ) → InRange (u8 s v)
unfolding u8
u8_range s v = omega arith

-- Two steps that meet had met before the multiplication.
unmultiplied :
    (s t : Hasher) (a b : ℕ)
    → InRange s
    → InRange t
    → IsByte a
    → IsByte b
    → u8 s a ≡ u8 t b
    → bit_xor s.h a ≡ bit_xor t.h b
unfolding u8
unmultiplied s t a b hs ht ha hb e =
    sym (mul_undone _ (xor-lt 64 s.h a hs (omega arith)))
    ∙ ap (λ (r : Hasher). r.h * prime_inverse % 2 ^ 64) e
    ∙ mul_undone _ (xor-lt 64 t.h b ht (omega arith))

u8_byte : (s : Hasher) (a b : ℕ) → InRange s → IsByte a → IsByte b → u8 s a ≡ u8 s b → a ≡ b
u8_byte s a b hs ha hb e = cc (
  unmultiplied s s a b hs hs ha hb e,
  xor_comm 64 s.h a hs (omega arith),
  xor_comm 64 s.h b hs (omega arith),
  xor_cancel 64 a s.h (omega arith) hs,
  xor_cancel 64 b s.h (omega arith) hs,
)

u8_state : (s t : Hasher) (v : ℕ) → InRange s → InRange t → IsByte v → u8 s v ≡ u8 t v → s ≡ t
u8_state s t v hs ht hv e = ap (λ (n : ℕ). record { h = n }) same
  where
    same : s.h ≡ t.h
    same = cc (
      unmultiplied s t v v hs ht hv hv e,
      xor_cancel 64 s.h v hs (omega arith),
      xor_cancel 64 t.h v ht (omega arith),
    )

feed_range : (s : Hasher) (bs : Bytes) → InRange s → InRange (feed s bs)
unfolding feed
feed_range s [] hs = hs
feed_range s (b ∷ bs) hs = feed_range (u8 s b) bs (u8_range s b)

-- No stream of bytes merges two states of the hasher.
feed_state :
    (s t : Hasher) (bs : Bytes)
    → InRange s
    → InRange t
    → All IsByte bs
    → feed s bs ≡ feed t bs
    → s ≡ t
unfolding feed
feed_state s t [] hs ht hb e = e
feed_state s t (b ∷ bs) hs ht hb e =
    u8_state s t b hs ht hb.0 (feed_state (u8 s b) (u8 t b) bs (u8_range s b) (u8_range t b) hb.1 e)

-- Two streams that differ in exactly one byte always hash differently, whatever state in range the
-- hasher starts from, and whatever bytes stand before and after the one that differs.
pub one_byte_detected :
    (s : Hasher) (xs ys : Bytes) (a b : ℕ)
    → InRange s
    → IsByte a
    → IsByte b
    → All IsByte ys
    → a ≢ b
    → (feed s (xs ++ a ∷ ys)).h ≢ (feed s (xs ++ b ∷ ys)).h
one_byte_detected s xs ys a b hs ha hb hy ne e = ne (
    u8_byte t a b (feed_range s xs hs) ha hb
      (feed_state _ _ ys (u8_range t a) (u8_range t b) hy met))
  where
    t : Hasher
    t = feed s xs

    met : feed (u8 t a) ys ≡ feed (u8 t b) ys
    met =
        sym (feed-append_cons s xs a ys)
        ∙ ap (λ (n : ℕ). record { h = n }) e
        ∙ feed-append_cons s xs b ys
