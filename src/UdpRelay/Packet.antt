-- ===== src/UdpRelay/Packet.antt =====
-- The wire format of src/relay/ggpo_udp_relay.cxx.
use Prim.Native.Nat.{bit_or}
use sf4_netplay_launcher.Prelude.{
  ℕ, zero, suc, ◌+◌, ◌*◌, ◌%◌, ◌^◌, Bool, ◌&&◌, [], ◌∷◌, Bytes, bytes_eq, take, drop, length,
  get_or, ◌==◌,
}

abbrev pub magic_reg : Bytes
magic_reg = b'S' ∷ b'F' ∷ b'4' ∷ b'G' ∷ []

abbrev pub magic_health : Bytes
magic_health = b'S' ∷ b'F' ∷ b'4' ∷ b'H' ∷ []

abbrev pub resp_health : Bytes
resp_health = b'S' ∷ b'F' ∷ b'4' ∷ b'O' ∷ b'K' ∷ []

abbrev pub resp_registered : Bytes
resp_registered = b'S' ∷ b'F' ∷ b'4' ∷ b'R' ∷ []

abbrev pub resp_waiting : Bytes
resp_waiting = b'S' ∷ b'F' ∷ b'4' ∷ b'W' ∷ []

abbrev pub reg_packet_len_legacy : ℕ
reg_packet_len_legacy = 4 + 32

abbrev pub reg_packet_len_v2 : ℕ
reg_packet_len_v2 = 4 + 32 + 2

abbrev pub reg_packet_len_v3 : ℕ
reg_packet_len_v3 = 4 + 32 + 1 + 1 + 8 + 8

-- The loop of ReadU64Be, with the rounds left: `value = (value << 8) | data[i]` on a uint64_t.
unfoldable pub read_be : ℕ → ℕ → Bytes → ℕ
read_be zero value data_bytes = value
read_be (suc n) value data_bytes =
    read_be n (bit_or (value * 2 ^ 8 % 2 ^ 64) (get_or data_bytes 0 0)) (drop 1 data_bytes)

unfoldable pub read_u64_be : Bytes → ℕ
unfolding read_be
read_u64_be data_bytes = read_be 8 0 data_bytes

-- `memcmp(buf, magic, 4) == 0`
abbrev pub has_magic : Bytes → Bytes → Bool
has_magic buf magic = bytes_eq (take 4 buf) magic

-- The tests that the main loop makes on a packet of `n` bytes, `n = length buf`.
unfoldable pub is_health : Bytes → Bool
is_health buf = (length buf == 4) && has_magic buf magic_health

unfoldable pub is_reg_legacy : Bytes → Bool
is_reg_legacy buf = (length buf == reg_packet_len_legacy) && has_magic buf magic_reg

unfoldable pub is_reg_v2 : Bytes → Bool
is_reg_v2 buf = (length buf == reg_packet_len_v2) && has_magic buf magic_reg

unfoldable pub is_reg_v3 : Bytes → Bool
is_reg_v3 buf =
    (length buf == reg_packet_len_v3) && has_magic buf magic_reg && (get_or buf 36 0 == 3)
