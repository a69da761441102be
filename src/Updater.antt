-- ===== src/Updater.antt =====
-- src/launcher/update/github_release_client.cxx: which addresses the updater downloads from, and which
-- of two versions is the newer. A text is the list of its characters, as in RoomCode.
pub mod Hosts
pub mod Versions
use Prim.Native.Char.{code}
use Prim.Native.String.{String}
use sf4_netplay_launcher.Prelude.{
  ℕ, zero, suc, ◌^◌, ◌*◌, ◌+◌, ◌-◌, Bool, true, false, not, ◌&&◌, ◌||◌, Option, none, some, List,
  [], ◌∷◌, ◌++◌, Bytes, bytes_eq, map, length, take, drop, ltb, leb, ◌==◌, if◌then◌else◌,
}
use sf4_netplay_launcher.Prelude.Int.{ℤ, pos, negsuc, eqz, sub_int}
use sf4_netplay_launcher.RoomCode.{to_lower, truncate, is_nil, is_digit, is_space, negate}

-- The characters of a literal.
abbrev pub codes : String → Bytes
codes String.[] = []
codes (String.◌∷◌ c s) = code c ∷ codes s

-- `_stricmp(a, b) == 0`, and `_strnicmp(a, b, strlen(b)) == 0`.
unfoldable pub same_text : Bytes → Bytes → Bool
same_text a b = bytes_eq (map to_lower a) (map to_lower b)

abbrev pub begins_with : Bytes → Bytes → Bool
begins_with a b = same_text (take (length b) a) b

-- What is in front of the first character `c`, all of the text if it has none.
unfoldable pub until : ℕ → Bytes → Bytes
until c [] = []
until c (d ∷ ds) = let rest = until c ds in if d == c then [] else d ∷ rest

-- What is behind the first character `c`, if the text has it.
unfoldable pub behind : ℕ → Bytes → Option Bytes
behind c [] = none
behind c (d ∷ ds) = let rest = behind c ds in if d == c then some ds else rest

-- A false result, the host, or the end of the process: `strncpy_s` with a count does not take a host
-- that the buffer has no room for.
pub data HostResult : Type 0 where
  no_host invalid_parameter : HostResult
  host_of : Bytes → HostResult

abbrev pub or_all : Bytes → Option Bytes → Bytes
or_all s none = s
or_all s (some t) = t

-- The host in the buffer, cut at the user name and at the port.
abbrev pub cut_host : Bytes → HostResult
cut_host buf =
    let host = until b':' (or_all buf (behind b'@' buf)) in
    if is_nil host then no_host else host_of host

abbrev pub copy_host : Bytes → Option Bytes → ℕ → HostResult
copy_host host_start none out_host_len = cut_host (truncate out_host_len host_start)
copy_host host_start (some path) out_host_len =
    if leb out_host_len (length (until b'/' host_start))
    then invalid_parameter
    else cut_host (until b'/' host_start)

unfoldable pub parse_https_host_from_url : Bytes → ℕ → HostResult
parse_https_host_from_url url out_host_len =
    if begins_with url (codes "https://")
    then copy_host (drop 8 url) (behind b'/' (drop 8 url)) out_host_len
    else no_host

unfoldable pub is_allowed_update_host : Bytes → Bool
is_allowed_update_host host =
    not (is_nil host)
    && (same_text host (codes "api.github.com")
        || same_text host (codes "github.com")
        || same_text host (codes "www.github.com")
        || same_text host (codes "objects.githubusercontent.com")
        || same_text host (codes "codeload.github.com"))

-- `none` if the process ends.
unfoldable pub is_allowed_update_url : Bytes → Option Bool
is_allowed_update_url url = elim (parse_https_host_from_url url 256) [
  | no_host ↦ some false
  | invalid_parameter ↦ none
  | host_of host ↦ some (is_allowed_update_host host)
]

-- `%d` of sscanf: blanks, a sign and at least one digit; `none` if there is no number.
unfoldable pub scan_digits : ℕ → Bytes → ℕ × Bytes
scan_digits acc [] = (acc, [])
scan_digits acc (c ∷ cs) =
    let rest = scan_digits (acc * 10 + (c - b'0')) cs in if is_digit c then rest else (acc, c ∷ cs)

abbrev pub scan_number : (ℕ → ℤ) → Bytes → Option (ℤ × Bytes)
scan_number f [] = none
scan_number f (c ∷ cs) =
    let (n, rest) = scan_digits 0 (c ∷ cs) in if is_digit c then some (f n, rest) else none

abbrev pub scan_signed : Bytes → Option (ℤ × Bytes)
scan_signed [] = none
scan_signed (c ∷ cs) =
    if c == b'-'
    then scan_number negate cs
    else if c == b'+'
    then scan_number pos cs
    else scan_number pos (c ∷ cs)

unfoldable pub scan_int : Bytes → Option (ℤ × Bytes)
scan_int [] = none
scan_int (c ∷ cs) = let rest = scan_int cs in if is_space c then rest else scan_signed (c ∷ cs)

-- A dot and a number behind it.
abbrev pub scan_dot_int : Bytes → Option (ℤ × Bytes)
scan_dot_int [] = none
scan_dot_int (c ∷ cs) = if c == b'.' then scan_int cs else none

abbrev pub skip_v : Bytes → Bytes
skip_v [] = []
skip_v (c ∷ cs) = let rest = skip_v cs in if (c == b'v') || (c == b'V') then rest else c ∷ cs

pub record Version : Type 0 where
  pub major : ℤ
  pub minor : ℤ
  pub patch : ℤ

abbrev pub with_patch : ℤ → ℤ → Option (ℤ × Bytes) → Version
with_patch major minor none = record { major = major; minor = minor; patch = pos 0 }
with_patch major minor (some (n, rest)) = record { major = major; minor = minor; patch = n }

abbrev pub with_minor : ℤ → Option (ℤ × Bytes) → Version
with_minor major none = record { major = major; minor = pos 0; patch = pos 0 }
with_minor major (some (n, rest)) = with_patch major n (scan_dot_int rest)

abbrev pub with_major : Option (ℤ × Bytes) → Version
with_major none = record { major = pos 0; minor = pos 0; patch = pos 0 }
with_major (some (n, rest)) = with_minor n (scan_dot_int rest)

-- What is not there stays 0.
unfoldable pub parse_version_triple : Bytes → Version
parse_version_triple tag = with_major (scan_int (skip_v tag))

abbrev pub compare_triples : Version → Version → ℤ
compare_triples a b =
    if not (eqz a.major b.major)
    then sub_int a.major b.major
    else if not (eqz a.minor b.minor)
    then sub_int a.minor b.minor
    else sub_int a.patch b.patch

abbrev pub is_int : ℤ → Bool
is_int (pos n) = ltb n (2 ^ 31)
is_int (negsuc n) = ltb n (2 ^ 31)

abbrev pub is_int_version : Version → Bool
is_int_version v = is_int v.major && is_int v.minor && is_int v.patch

-- A number that is read with "%d", or a difference, that an int does not hold is undefined behaviour.
unfoldable pub compare_versions : Bytes → Bytes → Option ℤ
compare_versions a b =
    let v = parse_version_triple a in
    let u = parse_version_triple b in
    let d = compare_triples v u in
    if is_int_version v && is_int_version u && is_int d then some d else none
