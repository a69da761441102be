-- ===== src/StateHash.antt =====
-- src/common/sf4e__StateHash.hxx: the 64-bit FNV-1a hasher with its canonical encoding.
-- A cast to uint8_t and a mask `& 0xff` are `% 256`; a shift `>> k` is `/ 2 ^ k`.
pub mod Encoding
pub mod Detection
use Prim.Native.Nat.{bit_xor}
use sf4_netplay_launcher.Prelude.{ℕ, ◌-◌, ◌*◌, ◌/◌, ◌%◌, ◌^◌}
use sf4_netplay_launcher.Prelude.Int.{ℤ, pos, negsuc}

pub record Hasher : Type 0 where
  pub h : ℕ

abbrev pub offset_basis : ℕ
offset_basis = 14695981039346656037

abbrev pub fnv_prime : ℕ
fnv_prime = 1099511628211

-- The constructor `Hasher()`.
abbrev pub init : Hasher
init = record { h = offset_basis }

unfoldable pub u8 : Hasher → ℕ → Hasher
u8 s v = record { h = bit_xor s.h v * fnv_prime % 2 ^ 64 }

unfoldable pub u16 : Hasher → ℕ → Hasher
u16 s v = u8 (u8 s (v % 256)) (v / 2 ^ 8 % 256)

unfoldable pub u32 : Hasher → ℕ → Hasher
u32 s v = u8 (u8 (u8 (u8 s (v % 256)) (v / 2 ^ 8 % 256)) (v / 2 ^ 16 % 256)) (v / 2 ^ 24 % 256)

unfoldable pub u64 : Hasher → ℕ → Hasher
u64 s v = u32 (u32 s (v % 2 ^ 32)) (v / 2 ^ 32)

-- The conversion of a signed integer to the unsigned type of `w` bits.
abbrev pub to_unsigned : ℕ → ℤ → ℕ
to_unsigned w (pos n) = n % 2 ^ w
to_unsigned w (negsuc n) = 2 ^ w - 1 - n % 2 ^ w

unfoldable pub i16 : Hasher → ℤ → Hasher
i16 s v = u16 s (to_unsigned 16 v)

unfoldable pub i32 : Hasher → ℤ → Hasher
i32 s v = u32 s (to_unsigned 32 v)

-- A float is given by its bit pattern, which is what the function hashes.
unfoldable pub f32 : Hasher → ℕ → Hasher
f32 s bits = u32 s bits

unfoldable pub fixed : Hasher → ℕ → ℤ → Hasher
fixed s fractional integral = i16 (u16 s fractional) integral
