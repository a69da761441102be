-- ===== src/GgpoTransport.antt =====
-- src/session/sf4e__GgpoTransport.cxx: the client's side of the registration with the UDP relay.
-- This file has the wire format that RegisterWithUdpRelay writes.
use sf4_netplay_launcher.Prelude.{
  ℕ, zero, suc, ◌-◌, ◌/◌, ◌%◌, ◌^◌, false, true, List, bytes_eq, Option, none, some, [], ◌∷◌, ◌++◌,
  Bytes, length, take, Bool, ◌||◌, ltb, not, ◌==◌, if◌then◌else◌,
}
use sf4_netplay_launcher.Prelude.Int.{ℤ, pos, negsuc}

-- The loop of WriteU64Be, from the last byte to the first: `n` bytes are left to write.
unfoldable pub write_be : ℕ → ℕ → Bytes → Bytes
write_be zero value out = out
write_be (suc n) value out = write_be n (value / 2 ^ 8) ((value % 256) ∷ out)

unfoldable pub write_u64_be : ℕ → Bytes
unfolding write_be
write_u64_be value = write_be 8 value []

-- `(uint64_t)` of an int64_t.
abbrev pub to_u64 : ℤ → ℕ
to_u64 (pos n) = n
to_u64 (negsuc n) = 2 ^ 64 - 1 - n

abbrev pub is_negative : ℤ → Bool
is_negative (pos n) = false
is_negative (negsuc n) = true

-- "SF4G", the token, the version 3, the player's slot, and the two ready numbers.
unfoldable pub registration_packet : Bytes → ℕ → ℤ → ℤ → Bytes
unfolding write_u64_be
registration_packet token player_slot ready0 ready1 =
    (b'S' ∷ b'F' ∷ b'4' ∷ b'G' ∷ [])
    ++ (take 32 token
        ++ (3 ∷ player_slot ∷ (write_u64_be (to_u64 ready0) ++ write_u64_be (to_u64 ready1))))

-- The first test of RegisterWithUdpRelay, on the arguments that it looks at.
unfoldable pub is_registration_context : Bytes → Bytes → ℕ → ℕ → ℤ → ℤ → Bool
is_registration_context relay_host token local_ggpo_port player_slot ready0 ready1 = not (
    (length relay_host == 0)
    || not (length token == 32)
    || (local_ggpo_port == 0)
    || ltb 1 player_slot
    || is_negative ready0
    || is_negative ready1)

-- What the loop of RegisterWithUdpRelay gets from one probe: nothing in time, or a response.
-- The list ends at the deadline.
unfoldable pub await_registration : List (Option Bytes) → Bool
await_registration [] = false
await_registration (none ∷ rest) = await_registration rest
await_registration (some response ∷ rest) =
    if bytes_eq (take 4 response) (b'S' ∷ b'F' ∷ b'4' ∷ b'R' ∷ [])
    then true
    else await_registration rest
