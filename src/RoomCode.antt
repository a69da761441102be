-- ===== src/RoomCode.antt =====
-- src/launcher/netplay/netplay_room_code.cxx, and TrimRoomCodeInPlace of src/common/sf4e__NetUtil.cxx:
-- the codes by which a player finds a room, an address or a short code. A text is the list of its
-- characters without the terminating zero; the copy into a buffer of k characters cuts it to k - 1.
pub mod Trim
pub mod Address
pub mod Short
use sf4_netplay_launcher.Prelude.{
  ℕ, zero, suc, ◌%◌, ◌^◌, ◌+◌, ◌-◌, ◌*◌, ◌++◌, Bool, true, false, not, ◌&&◌, ◌||◌, Option, none,
  some, List, [], ◌∷◌, Bytes, bytes_eq, map, length, take, drop, ltb, leb, ◌==◌, if◌then◌else◌,
}
use sf4_netplay_launcher.Prelude.Int.{ℤ, pos, negsuc}
use sf4_netplay_launcher.Session.Server.{to_string}

-- `strncpy_s` with _TRUNCATE, or `snprintf`, into a buffer of `k` characters.
abbrev pub truncate : ℕ → Bytes → Bytes
truncate k s = take (k - 1) s

abbrev pub is_blank : ℕ → Bool
is_blank c = (c == b' ') || (c == b'\t') || (c == b'\r') || (c == b'\n')

-- The two loops of TrimRoomCodeInPlace.
unfoldable pub trim_start : Bytes → Bytes
trim_start [] = []
trim_start (c ∷ cs) = let rest = trim_start cs in if is_blank c then rest else c ∷ cs

abbrev pub cons_unless_blank : ℕ → Bytes → Bytes
cons_unless_blank c [] = if is_blank c then [] else c ∷ []
cons_unless_blank c (d ∷ ds) = c ∷ d ∷ ds

unfoldable pub trim_end : Bytes → Bytes
trim_end [] = []
trim_end (c ∷ cs) = cons_unless_blank c (trim_end cs)

unfoldable pub trim_room_code : Bytes → Bytes
trim_room_code s = trim_end (trim_start s)

unfoldable pub format_room_code : Bytes → ℕ → ℕ → Bytes
format_room_code host port out_code_len = truncate out_code_len (host ++ b':' ∷ to_string port)

-- What is in front of the last colon (strrchr) and behind it.
abbrev pub colon_at : ℕ → Bytes → Option (Bytes × Bytes) → Option (Bytes × Bytes)
colon_at c cs (some (a, b)) = some (c ∷ a, b)
colon_at c cs none = if c == b':' then some ([], cs) else none

unfoldable pub split_last_colon : Bytes → Option (Bytes × Bytes)
split_last_colon [] = none
split_last_colon (c ∷ cs) = colon_at c cs (split_last_colon cs)

abbrev pub is_digit : ℕ → Bool
is_digit c = leb b'0' c && leb c b'9'

-- The characters that `isspace` holds of.
abbrev pub is_space : ℕ → Bool
is_space c = (c == b' ') || (leb 9 c && leb c 13)

-- The digits at the front.
unfoldable pub read_digits : ℕ → Bytes → ℕ
read_digits acc [] = acc
read_digits acc (c ∷ cs) =
    let rest = read_digits (acc * 10 + (c - b'0')) cs in if is_digit c then rest else acc

abbrev pub negate : ℕ → ℤ
negate zero = pos 0
negate (suc n) = negsuc n

-- `atoi`, without the bound of `int`: what is above it is not a port either way.
unfoldable pub signed : Bytes → ℤ
signed [] = pos 0
signed (c ∷ cs) =
    if c == b'-'
    then negate (read_digits 0 cs)
    else if c == b'+'
    then pos (read_digits 0 cs)
    else pos (read_digits 0 (c ∷ cs))

unfoldable pub atoi : Bytes → ℤ
atoi [] = pos 0
atoi (c ∷ cs) = let rest = atoi cs in if is_space c then rest else signed (c ∷ cs)

abbrev pub is_nil : Bytes → Bool
is_nil [] = true
is_nil (c ∷ cs) = false

abbrev pub non_empty : Bytes → Option Bytes
non_empty [] = none
non_empty (c ∷ cs) = some (c ∷ cs)

-- The host and the port of a code, once both are there.
abbrev pub take_port : ℕ → Bytes → ℤ → Option (Bytes × ℕ)
take_port out_host_len host (negsuc n) = none
take_port out_host_len host (pos port) =
    if ltb port 1 || ltb 65535 port then none else elim (non_empty (truncate out_host_len host)) [
      | none ↦ none
      | some out_host ↦ some (out_host, port % 2 ^ 16)
    ]

abbrev pub parse_parts : ℕ → Option (Bytes × Bytes) → Option (Bytes × ℕ)
parse_parts out_host_len none = none
parse_parts out_host_len (some (host, port_str)) =
    if is_nil host then none else take_port out_host_len host (atoi port_str)

unfoldable pub parse_room_code : Bytes → ℕ → Option (Bytes × ℕ)
parse_room_code room_code out_host_len =
    let buf = trim_room_code (truncate 256 room_code) in
    if is_nil buf then none else parse_parts out_host_len (split_last_colon buf)

abbrev pub is_upper : ℕ → Bool
is_upper c = leb b'A' c && leb c b'Z'

abbrev pub is_lower : ℕ → Bool
is_lower c = leb b'a' c && leb c b'z'

abbrev pub is_alnum_code_char : ℕ → Bool
is_alnum_code_char c = is_digit c || is_upper c || is_lower c

abbrev pub all_alnum : Bytes → Bool
all_alnum [] = true
all_alnum (c ∷ cs) = is_alnum_code_char c && all_alnum cs

abbrev pub to_upper : ℕ → ℕ
to_upper c = if is_lower c then c - b'a' + b'A' else c

abbrev pub to_lower : ℕ → ℕ
to_lower c = if is_upper c then c + 32 else c

abbrev pub sf4 : Bytes
sf4 = b'S' ∷ b'F' ∷ b'4' ∷ b'-' ∷ []

-- `_strnicmp(buf, "SF4-", 4) == 0`
unfoldable pub has_prefix : Bytes → Bool
has_prefix buf = bytes_eq (map to_lower (take 4 buf)) (map to_lower sf4)

abbrev pub is_token : Bytes → Bool
is_token token = leb 4 (length token) && leb (length token) 20 && all_alnum token

unfoldable pub is_short_room_code : Bytes → Bool
is_short_room_code room_code =
    let buf = trim_room_code (truncate 32 room_code) in has_prefix buf && is_token (drop 4 buf)

unfoldable pub normalize_relay_room_code : Bytes → ℕ → Option Bytes
normalize_relay_room_code room_code out_code_len =
    let buf = trim_room_code (truncate 32 room_code) in
    let code = map to_upper (if has_prefix buf then buf else truncate 32 (sf4 ++ buf)) in
    if is_short_room_code code then some (truncate out_code_len code) else none

unfoldable pub format_short_room_code : Bytes → ℕ → Bytes
format_short_room_code token out_code_len = truncate out_code_len (sf4 ++ token)

-- The token, which is the result where it is not empty.
unfoldable pub parse_short_room_code : Bytes → ℕ → Option Bytes
parse_short_room_code room_code out_token_len =
    if is_short_room_code room_code
    then non_empty (truncate out_token_len (drop 4 (trim_room_code (truncate 32 room_code))))
    else none

abbrev pub is_some_address : Option (Bytes × ℕ) → Bool
is_some_address none = false
is_some_address (some a) = true

unfoldable pub looks_like_host_port_address : Bytes → Bool
looks_like_host_port_address room_code =
    if is_nil room_code || is_short_room_code room_code
    then false
    else is_some_address (parse_room_code room_code 128)
