-- ===== src/RoomCode/Short.antt =====
-- The short codes of src/launcher/netplay/netplay_room_code.cxx.
use sf4_netplay_launcher.Prelude.{
  ℕ, suc, ◌-◌, ◌≤◌, ◌≡◌, refl, ap, Bool, true, false, [], ◌∷◌, ◌++◌, Bytes, arith, length, map,
  some, ◌&&◌, bytes_eq,
}
use sf4_netplay_launcher.RoomCode.{
  truncate, is_blank, trim_room_code, is_alnum_code_char, all_alnum, to_upper, to_lower, sf4,
  has_prefix, is_token, is_short_room_code, normalize_relay_room_code, format_short_room_code,
  parse_short_room_code,
}
use sf4_netplay_launcher.RoomCode.Trim.{NoBlankLast, trim_room_code-kept}
use sf4_netplay_launcher.RoomCode.Address.{take-all}

alnum-not-blank : (c : ℕ) → is_alnum_code_char c ≡ true → is_blank c ≡ false
alnum-not-blank c h = ground (arith, h)

alnum-last : (c : ℕ) (s : Bytes) → is_blank c ≡ false → all_alnum s ≡ true → NoBlankLast (c ∷ s)
alnum-last c [] b h = b
alnum-last c (d ∷ ds) b h =
    let (x, y) = both (is_alnum_code_char d) (all_alnum ds) h in
    alnum-last d ds (alnum-not-blank d x) y
  where
    both : (a b : Bool) → (a && b) ≡ true → (a ≡ true) × (b ≡ true)
    both a b h = ground (arith, h)

upper-alnum : (c : ℕ) → is_alnum_code_char c ≡ true → is_alnum_code_char (to_upper c) ≡ true
upper-alnum c h = ground (arith, h)

-- A room's token: 4 to 20 letters and digits.
abbrev pub IsRoomToken : Bytes → Type 0
IsRoomToken t = (4 ≤ length t) × ((length t ≤ 20) × (all_alnum t ≡ true))

IsRoomToken-is_token : (t : Bytes) → IsRoomToken t → is_token t ≡ true
IsRoomToken-is_token t (low, (high, h)) = ground (arith, low, high, h)

length-map : (f : ℕ → ℕ) (t : Bytes) → length (map f t) ≡ length t
length-map f [] = refl
length-map f (c ∷ cs) = ap suc (length-map f cs)

all_alnum-upper : (t : Bytes) → all_alnum t ≡ true → all_alnum (map to_upper t) ≡ true
all_alnum-upper [] h = refl
all_alnum-upper (c ∷ cs) h = ground (arith, h, upper-alnum c, all_alnum-upper cs)

upper-IsRoomToken : (t : Bytes) → IsRoomToken t → IsRoomToken (map to_upper t)
upper-IsRoomToken t (low, (high, h)) =
    let same = length-map to_upper t in
    (omega (arith, same, low), (omega (arith, same, high), all_alnum-upper t h))

-- A token behind a prefix that starts and ends on no blank.
trim-code : (t : Bytes) → IsRoomToken t → trim_room_code (truncate 32 (sf4 ++ t)) ≡ sf4 ++ t
trim-code t (low, (high, h)) =
    rw (take-all 27 t (omega (arith, high)))
      (trim_room_code-kept (sf4 ++ t) refl (alnum-last b'-' t refl h))

trim-lower :
    (t : Bytes)
    → IsRoomToken t
    → trim_room_code (truncate 32 (map to_lower sf4 ++ t)) ≡ map to_lower sf4 ++ t
trim-lower t (low, (high, h)) =
    rw (take-all 27 t (omega (arith, high)))
      (trim_room_code-kept (map to_lower sf4 ++ t) refl (alnum-last b'-' t refl h))

trim-token : (t : Bytes) → IsRoomToken t → trim_room_code (truncate 32 t) ≡ t
trim-token [] h = ground (arith, h)
trim-token (c ∷ cs) (low, (high, h)) =
    let first = alnum-not-blank c (ground (arith, h)) in
    rw (take-all 31 (c ∷ cs) (omega (arith, high)))
      (trim_room_code-kept (c ∷ cs) first (alnum-last c cs first (ground (arith, h))))

-- A token has no dash.
token-prefix : (t : Bytes) → IsRoomToken t → has_prefix t ≡ false
unfolding has_prefix bytes_eq
token-prefix [] h = ground (arith, h)
token-prefix (a ∷ []) h = ground (arith, h)
token-prefix (a ∷ b ∷ []) h = ground (arith, h)
token-prefix (a ∷ b ∷ c ∷ []) h = ground (arith, h)
token-prefix (a ∷ b ∷ c ∷ d ∷ t) h = ground (arith, h)

short-format : (t : Bytes) → IsRoomToken t → is_short_room_code (sf4 ++ t) ≡ true
unfolding is_short_room_code has_prefix bytes_eq
short-format t h = rw (trim-code t h) (IsRoomToken-is_token t h)

normalize-token :
    (t : Bytes) (n : ℕ)
    → IsRoomToken t
    → normalize_relay_room_code t n ≡ some (truncate n (sf4 ++ map to_upper t))
unfolding normalize_relay_room_code
normalize-token t n h =
    rw
      (
        trim-token t h,
        token-prefix t h,
        take-all 27 t (omega (arith, h.1.0)),
        short-format (map to_upper t) (upper-IsRoomToken t h),
      )
      refl

normalize-lower :
    (t : Bytes) (n : ℕ)
    → IsRoomToken t
    → normalize_relay_room_code (map to_lower sf4 ++ t) n
      ≡ some (truncate n (sf4 ++ map to_upper t))
unfolding normalize_relay_room_code has_prefix bytes_eq
normalize-lower t n h =
    rw (trim-lower t h, short-format (map to_upper t) (upper-IsRoomToken t h)) refl

parse-format :
    (t : Bytes) (n m : ℕ)
    → IsRoomToken t
    → 25 ≤ n
    → 21 ≤ m
    → parse_short_room_code (format_short_room_code t n) m ≡ some t
unfolding parse_short_room_code format_short_room_code
parse-format [] n m h room out = ground (arith, h)
parse-format (c ∷ cs) n m h room out =
    let t = c ∷ cs in
    rw
      (
        take-all (n - 1) (sf4 ++ t) (omega (arith, h.1.0)),
        short-format t h,
        trim-code t h,
        take-all (m - 1) t (omega (arith, h.1.0)),
      )
      refl

-- A token of 4 to 20 letters and digits, entered in any case, alone or behind the prefix in small letters, is normalised to the short code of the token in capitals, and the token in capitals is read back from this code.
pub normalize_relay_room_code-format_short_room_code :
    (t : Bytes) (n m : ℕ)
    → IsRoomToken t
    → 25 ≤ n
    → 21 ≤ m
    → let code = format_short_room_code (map to_upper t) n in
      (normalize_relay_room_code t n ≡ some code)
      × ((normalize_relay_room_code (map to_lower sf4 ++ t) n ≡ some code)
          × (parse_short_room_code code m ≡ some (map to_upper t)))
unfolding format_short_room_code
normalize_relay_room_code-format_short_room_code t n m h room out = (
  normalize-token t n h,
  (normalize-lower t n h, parse-format (map to_upper t) n m (upper-IsRoomToken t h) room out),
)
