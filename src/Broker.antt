-- ===== src/Broker.antt =====
-- src/launcher/netplay/room_broker_client.cxx: the address of the room broker, and the hosts that it
-- may not have. A text is the list of its characters without the terminating zero.
pub mod Private
pub mod Url
use sf4_netplay_launcher.Prelude.{
  ℕ, zero, suc, ◌-◌, ◌%◌, ◌^◌, ◌++◌, Bool, true, false, not, ◌&&◌, ◌||◌, Option, none, some, List,
  [], ◌∷◌, Bytes, length, drop, ltb, leb, ◌==◌, if◌then◌else◌,
}
use sf4_netplay_launcher.Prelude.Int.{ℤ, pos, negsuc}
use sf4_netplay_launcher.RoomCode.{
  truncate, trim_room_code, is_digit, is_space, read_digits, atoi, is_nil,
}
use sf4_netplay_launcher.Updater.{codes, same_text, begins_with, until, behind}

-- SF4E_ALLOW_LOCAL_BROKER and SF4E_ALLOW_HTTP_BROKER.
pub record BrokerEnv : Type 0 where
  pub allow_local : Bool
  pub allow_http : Bool

unfoldable pub skip_digits : Bytes → Bytes
skip_digits [] = []
skip_digits (c ∷ cs) = let rest = skip_digits cs in if is_digit c then rest else c ∷ cs

-- The number at the front, in 32 bits, and what is behind it; for a number of less than 64 bits.
abbrev pub digits_of : Bytes → Option (ℕ × Bytes)
digits_of [] = none
digits_of (c ∷ cs) =
    if is_digit c then some (read_digits 0 (c ∷ cs) % 2 ^ 32, skip_digits (c ∷ cs)) else none

abbrev pub negated : Option (ℕ × Bytes) → Option (ℕ × Bytes)
negated none = none
negated (some (n, rest)) = some ((2 ^ 32 - n) % 2 ^ 32, rest)

abbrev pub signed_digits : Bytes → Option (ℕ × Bytes)
signed_digits [] = none
signed_digits (c ∷ cs) =
    if c == b'-'
    then negated (digits_of cs)
    else if c == b'+'
    then digits_of cs
    else digits_of (c ∷ cs)

-- "%u"
unfoldable pub scan_unsigned : Bytes → Option (ℕ × Bytes)
scan_unsigned [] = none
scan_unsigned (c ∷ cs) =
    let rest = scan_unsigned cs in if is_space c then rest else signed_digits (c ∷ cs)

abbrev pub behind_dot : Bytes → Option Bytes
behind_dot [] = none
behind_dot (c ∷ cs) = if c == b'.' then some cs else none

abbrev pub and_number : ℕ → Option (List ℕ) → Option (List ℕ)
and_number n none = none
and_number n (some ns) = some (n ∷ ns)

-- ".%u", so many times.
unfoldable pub scan_more : ℕ → Bytes → Option (List ℕ)
scan_more zero s = some []
scan_more (suc k) s = elim (behind_dot s) [
  | none ↦ none
  | some t ↦ elim (scan_unsigned t) [
    | none ↦ none
    | some (n, rest) ↦ and_number n (scan_more k rest)
  ]
]

-- `sscanf_s(host, "%u.%u.%u.%u", …)`, where it gives 4.
unfoldable pub scan_quad : Bytes → Option (List ℕ)
scan_quad host = elim (scan_unsigned host) [
  | none ↦ none
  | some (n, rest) ↦ and_number n (scan_more 3 rest)
]

-- The tests of the first two numbers.
unfoldable pub is_blocked_quad : Bool → ℕ → ℕ → Bool
is_blocked_quad allow_local a b =
    if a == 127
    then not allow_local
    else if a == 10
    then true
    else if (a == 172) && leb 16 b && leb b 31
    then true
    else if (a == 192) && (b == 168)
    then true
    else if (a == 169) && (b == 254)
    then true
    else if (a == 100) && leb 64 b && leb b 127
    then true
    else a == 0

abbrev pub is_blocked_numbers : Bool → Option (List ℕ) → Bool
is_blocked_numbers allow_local (some (a ∷ b ∷ rest)) = is_blocked_quad allow_local a b
is_blocked_numbers allow_local _ = false

unfoldable pub is_blocked_broker_host_literal : Bool → Bytes → Bool
is_blocked_broker_host_literal allow_local host =
    if is_nil host
    then true
    else if same_text host (codes "localhost")
    then not allow_local
    else if same_text host (codes "metadata.google.internal")
        || same_text host (codes "metadata.goog")
    then true
    else is_blocked_numbers allow_local (scan_quad host)

pub record BrokerUrlParts : Type 0 where
  pub host : Bytes
  pub port : ℕ
  pub https : Bool
  pub path_prefix : Bytes

-- A false result, the parts, or the end of the process: `strncpy_s` with a count does not take a host
-- that the buffer has no room for.
pub data ParseResult : Type 0 where
  refused invalid_parameter : ParseResult
  parsed : BrokerUrlParts → ParseResult

-- The checks of the host, once the port is known.
unfoldable pub check_host : BrokerEnv → Bool → Bytes → ℕ → Bytes → ParseResult
check_host e https host port path =
    if is_nil host
    then refused
    else if is_blocked_broker_host_literal e.allow_local host
    then refused
    else if not https && not e.allow_http
    then refused
    else parsed (record { host = host; port = port; https = https; path_prefix = path })

abbrev pub default_port : Bool → ℕ
default_port https = if https then 443 else 80

-- The port is behind the first colon, if there is one.
unfoldable pub check_port : BrokerEnv → Bool → Bytes → Bytes → Option ℤ → ParseResult
check_port e https path host none = check_host e https host (default_port https) path
check_port e https path host (some (negsuc n)) = refused
check_port e https path host (some (pos port)) =
    if ltb port 1 || ltb 65535 port then refused else check_host e https host port path

abbrev pub port_text : Option Bytes → Option ℤ
port_text none = none
port_text (some s) = some (atoi s)

abbrev pub split_port : BrokerEnv → Bool → Bytes → Bytes → ParseResult
split_port e https path host_port =
    check_port e https path (until b':' host_port) (port_text (behind b':' host_port))

-- With what is behind the first slash, if there is one.
unfoldable pub split_path : BrokerEnv → Bool → Bytes → Option Bytes → ParseResult
split_path e https p none = split_port e https (b'/' ∷ []) (truncate 256 p)
split_path e https p (some path) =
    if leb 256 (length (until b'/' p))
    then invalid_parameter
    else split_port e https (truncate 128 (b'/' ∷ path)) (until b'/' p)

-- What is behind the scheme.
abbrev pub parse_authority : BrokerEnv → Bool → Bytes → ParseResult
parse_authority e https p = split_path e https p (behind b'/' p)

unfoldable pub parse_broker_base_url : BrokerEnv → Bytes → ParseResult
parse_broker_base_url e base_url =
    let buf = trim_room_code (truncate 512 base_url) in
    if is_nil buf
    then refused
    else if begins_with buf (codes "https://")
    then parse_authority e true (drop 8 buf)
    else if begins_with buf (codes "http://")
    then parse_authority e false (drop 7 buf)
    else refused

abbrev pub ends_on_slash : Bytes → Bool
ends_on_slash [] = false
ends_on_slash (c ∷ []) = c == b'/'
ends_on_slash (c ∷ d ∷ ds) = ends_on_slash (d ∷ ds)

abbrev pub without_slash : Bytes → Bytes
without_slash [] = []
without_slash (c ∷ cs) = if c == b'/' then cs else c ∷ cs

-- JoinBrokerPath, into a buffer of so many characters.
unfoldable pub join_broker_path : BrokerUrlParts → Bytes → ℕ → Bytes
join_broker_path parts suffix out_path_len =
    let prefix = if is_nil parts.path_prefix then b'/' ∷ [] else parts.path_prefix in
    truncate out_path_len (
      if ends_on_slash prefix
      then prefix ++ without_slash suffix
      else prefix ++ b'/' ∷ without_slash suffix)
