-- ===== src/Examples/Codes.antt =====
-- Runs of the model of src/launcher/netplay/netplay_room_code.cxx.
use sf4_netplay_launcher.Prelude.{◌≡◌, refl, true, [], ◌∷◌, ◌++◌, Bytes, arith, map, some, bytes_eq}
use sf4_netplay_launcher.RoomCode.{
  trim_start, trim_end, trim_room_code, format_room_code, split_last_colon, read_digits, signed,
  atoi, parse_room_code, to_upper, to_lower, sf4, has_prefix, is_short_room_code,
  normalize_relay_room_code, format_short_room_code, parse_short_room_code,
  looks_like_host_port_address,
}
use sf4_netplay_launcher.RoomCode.Address.{parse_room_code-format_room_code}
use sf4_netplay_launcher.RoomCode.Short.{normalize_relay_room_code-format_short_room_code}

-- An IPv6 loopback address.
abbrev host : Bytes
host = b':' ∷ b':' ∷ b'1' ∷ []

parse_room_code-format_room_code_example :
    parse_room_code (format_room_code host 9000 256) 128 ≡ some (host, 9000)
parse_room_code-format_room_code_example =
    parse_room_code-format_room_code b':' (b':' ∷ b'1' ∷ []) 9000 256 128 refl (omega arith)
      (omega arith) (omega arith) (omega arith) (omega arith)

abbrev typed : Bytes
typed = b'a' ∷ b'B' ∷ b'3' ∷ b'z' ∷ []

normalize_relay_room_code-format_short_room_code_example :
    let code = format_short_room_code (map to_upper typed) 32 in
    (normalize_relay_room_code typed 32 ≡ some code)
    × ((normalize_relay_room_code (map to_lower sf4 ++ typed) 32 ≡ some code)
        × (parse_short_room_code code 32 ≡ some (map to_upper typed)))
normalize_relay_room_code-format_short_room_code_example =
    normalize_relay_room_code-format_short_room_code typed 32 32 (omega arith, (omega arith, refl))
      (omega arith) (omega arith)

-- A code that is cut at 31 characters keeps the blanks in front of the cut.
abbrev twenty : Bytes
twenty =
    b'A' ∷ b'A' ∷ b'A' ∷ b'A' ∷ b'A' ∷ b'A' ∷ b'A' ∷ b'A' ∷ b'A' ∷ b'A' ∷ b'A' ∷ b'A' ∷ b'A' ∷ b'A'
    ∷ b'A' ∷ b'A' ∷ b'A' ∷ b'A' ∷ b'A' ∷ b'A' ∷ []

abbrev blanks : Bytes
blanks = b' ' ∷ b' ' ∷ b' ' ∷ b' ' ∷ b' ' ∷ b' ' ∷ b' ' ∷ []

kept_blanks :
    normalize_relay_room_code (twenty ++ blanks ++ b'!' ∷ []) 32 ≡ some (sf4 ++ twenty ++ blanks)
unfolding normalize_relay_room_code is_short_room_code has_prefix trim_room_code trim_start trim_end
    bytes_eq
kept_blanks = refl

unchanged_address : looks_like_host_port_address host ≡ true
unfolding looks_like_host_port_address is_short_room_code has_prefix trim_room_code trim_start
    trim_end bytes_eq parse_room_code split_last_colon atoi signed read_digits
unchanged_address = refl
