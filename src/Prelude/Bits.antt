-- ===== src/Prelude/Bits.antt =====
-- `^` and `|` of the native numbers at variables: one equation for the lowest digit, from which the
-- laws of exclusive or and the meaning of `x << k | low` follow by induction on the width.
use Prim.Native.Nat.{max, digits, bitwise, differ, bit_or, bit_xor, bit_or-bitwise, bit_xor-bitwise}
use native.Mathlib.Nat.{le_refl, pow-suc}
use Prim.Native.Nat.{ℕ, zero, suc, ◌+◌, ◌*◌, ◌/◌, ◌%◌, ◌^◌, ◌≤◌, ◌<◌}
use mathlib.Core.Path.{◌≡◌, refl, ap, ◌∙◌}
use native.Mathlib.Omega.{arith}

module _ (z : ℕ → ℕ) (f : ℕ → ℕ → ℕ) where
  -- More fuel than the first number changes nothing.
  digits_stable : (n m a b : ℕ) → a ≤ n → a ≤ m → digits z f n a b ≡ digits z f m a b
  digits_stable zero zero zero b p q = refl
  digits_stable zero zero (suc a) b p q = absurd (omega arith)
  digits_stable (suc n) zero zero b p q = refl
  digits_stable (suc n) zero (suc a) b p q = absurd (omega arith)
  digits_stable zero (suc m) zero b p q = refl
  digits_stable zero (suc m) (suc a) b p q = absurd (omega arith)
  digits_stable (suc n) (suc m) zero b p q = refl
  digits_stable (suc n) (suc m) (suc a) b p q =
      let half = digits_stable n m (suc a / 2) (b / 2) (omega arith) (omega arith) in
      ap (λ (t : ℕ). t * 2 + f (suc a % 2) (b % 2)) half

  bitwise_step :
      (a b : ℕ)
      → bitwise z f (suc a) b ≡ bitwise z f (suc a / 2) (b / 2) * 2 + f (suc a % 2) (b % 2)
  bitwise_step a b =
      let half = digits_stable a (suc a / 2) (suc a / 2) (b / 2) (omega arith) (le_refl _) in
      ap (λ (t : ℕ). t * 2 + f (suc a % 2) (b % 2)) half

differ_digits : (x y : ℕ) → x < 2 → y < 2 → differ x y ≡ (x + y) % 2
differ_digits zero y p q = omega arith
differ_digits (suc zero) zero p q = refl
differ_digits (suc zero) (suc zero) p q = refl
differ_digits (suc zero) (suc (suc y)) p q = absurd (omega arith)
differ_digits (suc (suc x)) y p q = absurd (omega arith)

xor_differ : (a b : ℕ) → bit_xor a b ≡ bit_xor (a / 2) (b / 2) * 2 + differ (a % 2) (b % 2)
xor_differ zero b = simp bit_xor-bitwise (omega arith)
xor_differ (suc a) b = simp bit_xor-bitwise (bitwise_step (λ y. y) differ a b)

xor_step : (a b : ℕ) → bit_xor a b ≡ bit_xor (a / 2) (b / 2) * 2 + (a + b) % 2
xor_step a b =
    omega (arith, xor_differ a b, differ_digits (a % 2) (b % 2) (omega arith) (omega arith))

or_step : (a b : ℕ) → bit_or a b ≡ bit_or (a / 2) (b / 2) * 2 + max (a % 2) (b % 2)
or_step zero b = simp bit_or-bitwise (omega arith)
or_step (suc a) b = simp bit_or-bitwise (bitwise_step (λ y. y) max a b)

-- A result of exclusive or fits the width of its operands.
pub xor-lt : (k a b : ℕ) → a < 2 ^ k → b < 2 ^ k → bit_xor a b < 2 ^ k
xor-lt zero zero zero p q = omega arith
xor-lt zero zero (suc b) p q = absurd (omega arith)
xor-lt zero (suc a) b p q = absurd (omega arith)
xor-lt (suc k) a b p q =
    let w = pow-suc 2 k in
    omega (arith, w, xor_step a b, xor-lt k (a / 2) (b / 2) (omega (arith, w)) (omega (arith, w)))

pub xor_comm : (k a b : ℕ) → a < 2 ^ k → b < 2 ^ k → bit_xor a b ≡ bit_xor b a
xor_comm zero zero zero p q = refl
xor_comm zero zero (suc b) p q = absurd (omega arith)
xor_comm zero (suc a) b p q = absurd (omega arith)
xor_comm (suc k) a b p q =
    let w = pow-suc 2 k in
    omega (
      arith,
      xor_step a b,
      xor_step b a,
      xor_comm k (a / 2) (b / 2) (omega (arith, w)) (omega (arith, w)),
    )

-- Exclusive or with the same number twice gives the number back.
pub xor_cancel : (k a b : ℕ) → a < 2 ^ k → b < 2 ^ k → bit_xor (bit_xor a b) b ≡ a
xor_cancel zero zero zero p q = refl
xor_cancel zero zero (suc b) p q = absurd (omega arith)
xor_cancel zero (suc a) b p q = absurd (omega arith)
xor_cancel (suc k) a b p q =
    let w = pow-suc 2 k in
    let half : bit_xor a b / 2 ≡ bit_xor (a / 2) (b / 2) = omega (arith, xor_step a b) in
    let back = xor_cancel k (a / 2) (b / 2) (omega (arith, w)) (omega (arith, w)) in
    xor_step (bit_xor a b) b
    ∙ ap (λ (t : ℕ). bit_xor t (b / 2) * 2 + (bit_xor a b + b) % 2) half
    ∙ omega (arith, back, xor_step a b)

or_zero : (k a : ℕ) → a < 2 ^ k → bit_or a 0 ≡ a
or_zero zero zero p = refl
or_zero zero (suc a) p = absurd (omega arith)
or_zero (suc k) a p =
    let w = pow-suc 2 k in omega (arith, or_step a 0, or_zero k (a / 2) (omega (arith, w)))

or_double : (q r : ℕ) → bit_or (q * 2) r ≡ bit_or q (r / 2) * 2 + r % 2
or_double q r =
    let half : q * 2 / 2 ≡ q = omega arith in
    omega (arith, or_step (q * 2) r, ap (λ (t : ℕ). bit_or t (r / 2)) half)

-- `q << m | r` is a sum when `r` fits the bits that the shift freed.
pub or_fields : (k m q r : ℕ) → q < 2 ^ k → r < 2 ^ m → bit_or (q * 2 ^ m) r ≡ q * 2 ^ m + r
or_fields k zero q r p h =
    let e : q * 2 ^ 0 ≡ q = omega arith in
    omega (
      arith,
      ap (λ (t : ℕ). bit_or t 0) e,
      or_zero k q p,
      ap (bit_or (q * 1)) {x = r} {y = 0} (omega arith),
    )
or_fields k (suc m) q r p h =
    let w = pow-suc 2 m in
    let e : q * 2 ^ suc m ≡ q * 2 ^ m * 2 = omega (arith, ap (λ (t : ℕ). q * t) w) in
    omega (
      arith,
      e,
      ap (λ (t : ℕ). bit_or t r) e,
      or_double (q * 2 ^ m) r,
      or_fields k m q (r / 2) p (omega (arith, w)),
    )
