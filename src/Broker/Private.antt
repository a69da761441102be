-- ===== src/Broker/Private.antt =====
-- The blocked hosts of src/launcher/netplay/room_broker_client.cxx, as addresses.
use sf4_netplay_launcher.Prelude.{
  ℕ, zero, suc, ◌+◌, ◌-◌, ◌*◌, ◌%◌, ◌/◌, ◌^◌, ◌++◌, ◌<◌, ◌≡◌, refl, ap, ◌∙◌, true, false, ◌&&◌,
  ◌||◌, Bool, some, List, [], ◌∷◌, Bytes, All, arith, if_cases, ltb, leb, ◌==◌, bytes_eq,
}
use sf4_netplay_launcher.RoomCode.{is_digit, read_digits, is_nil, to_lower}
use sf4_netplay_launcher.RoomCode.Address.{IsDigit, to_string-digits}
use sf4_netplay_launcher.Session.Server.{decimal, to_string}
use sf4_netplay_launcher.Session.Server.Identity.{read_decimal, to_string-read_decimal}
use sf4_netplay_launcher.Updater.{codes, same_text}
use sf4_netplay_launcher.Broker.{
  skip_digits, scan_unsigned, scan_more, scan_quad, is_blocked_quad, is_blocked_broker_host_literal,
}

-- What does not go on with a digit.
abbrev pub NoDigit : Bytes → Type 0
NoDigit [] = Unit
NoDigit (c ∷ cs) = is_digit c ≡ false

read_digits-append :
    (acc : ℕ) (s t : Bytes)
    → All IsDigit s
    → NoDigit t
    → read_digits acc (s ++ t) ≡ read_decimal acc s
unfolding read_digits
read_digits-append acc [] [] h k = refl
read_digits-append acc [] (c ∷ cs) h k = rw k refl
read_digits-append acc (c ∷ cs) t (h, hs) k = rw h (
    read_digits-append (acc * 10 + (c - b'0')) cs t hs k
    ∙ ap (λ n. read_decimal n cs) (omega arith))

skip_digits-append : (s t : Bytes) → All IsDigit s → NoDigit t → skip_digits (s ++ t) ≡ t
unfolding skip_digits
skip_digits-append [] [] h k = refl
skip_digits-append [] (c ∷ cs) h k = rw k refl
skip_digits-append (c ∷ cs) t (h, hs) k = rw h (skip_digits-append cs t hs k)

-- A number that has a first digit is scanned to its end.
scan-digits :
    (c : ℕ) (cs t : Bytes) (n : ℕ)
    → All IsDigit (c ∷ cs)
    → NoDigit t
    → read_decimal 0 (c ∷ cs) ≡ n
    → n < 2 ^ 32
    → scan_unsigned (c ∷ cs ++ t) ≡ some (n, t)
unfolding scan_unsigned
scan-digits c cs t n (h, hs) k e l =
    let r = read_digits-append 0 (c ∷ cs) t (h, hs) k ∙ e in
    let q = skip_digits-append (c ∷ cs) t (h, hs) k in ground (arith, h, r, q)

decimal-filled :
    (left n : ℕ) (out : Bytes) → is_nil out ≡ false → is_nil (decimal left n out) ≡ false
unfolding decimal
decimal-filled zero n out h = h
decimal-filled (suc left) n out h =
    if_cases (λ s. is_nil s ≡ false) (ltb n 10) ((b'0' + n) ∷ out) _ (λ e. refl)
      (λ e. decimal-filled left (n / 10) ((b'0' + n % 10) ∷ out) refl)

to_string-filled : (n : ℕ) → is_nil (to_string n) ≡ false
unfolding to_string decimal
to_string-filled n =
    if_cases (λ s. is_nil s ≡ false) (ltb n 10) ((b'0' + n) ∷ []) _ (λ e. refl)
      (λ e. decimal-filled 9 (n / 10) ((b'0' + n % 10) ∷ []) refl)

scan-filled :
    (s t : Bytes) (n : ℕ)
    → All IsDigit s
    → is_nil s ≡ false
    → NoDigit t
    → read_decimal 0 s ≡ n
    → n < 2 ^ 32
    → scan_unsigned (s ++ t) ≡ some (n, t)
scan-filled [] t n h f k e l = absurd (ground (arith, f))
scan-filled (c ∷ cs) t n h f k e l = scan-digits c cs t n h k e l

scan-number :
    (n : ℕ) (t : Bytes) → n < 2 ^ 32 → NoDigit t → scan_unsigned (to_string n ++ t) ≡ some (n, t)
scan-number n t l k =
    scan-filled (to_string n) t n (to_string-digits n) (to_string-filled n) k
      (to_string-read_decimal n (omega (arith, l))) l

-- An address of four numbers, and what may follow it.
abbrev pub dotted : ℕ → ℕ → ℕ → ℕ → Bytes → Bytes
dotted a b c d t =
    to_string a ++ b'.' ∷ (to_string b ++ b'.' ∷ (to_string c ++ b'.' ∷ (to_string d ++ t)))

scan_more-step :
    (k : ℕ) (s : Bytes) (n : ℕ) (rest : Bytes) (ns : List ℕ)
    → scan_unsigned s ≡ some (n, rest)
    → scan_more k rest ≡ some ns
    → scan_more (suc k) (b'.' ∷ s) ≡ some (n ∷ ns)
unfolding scan_more
scan_more-step k s n rest ns h e = ground (arith, h, e)

scan_quad-step :
    (s : Bytes) (n : ℕ) (rest : Bytes) (ns : List ℕ)
    → scan_unsigned s ≡ some (n, rest)
    → scan_more 3 rest ≡ some ns
    → scan_quad s ≡ some (n ∷ ns)
unfolding scan_quad
scan_quad-step s n rest ns h e = ground (arith, h, e)

scan_quad-dotted :
    (a b c d : ℕ) (t : Bytes)
    → a < 2 ^ 32
    → b < 2 ^ 32
    → c < 2 ^ 32
    → d < 2 ^ 32
    → NoDigit t
    → scan_quad (dotted a b c d t) ≡ some (a ∷ b ∷ c ∷ d ∷ [])
unfolding scan_quad scan_more
scan_quad-dotted a b c d t la lb lc ld k =
    scan_quad-step (dotted a b c d t) a _ _ (scan-number a _ la refl) (
      scan_more-step 2 _ b _ _ (scan-number b _ lb refl) (
        scan_more-step 1 _ c _ _ (scan-number c _ lc refl)
          (scan_more-step 0 _ d _ _ (scan-number d t ld k) refl)))

same_text-digit :
    (s t : Bytes) (d : ℕ) (ds : Bytes)
    → All IsDigit s
    → is_nil s ≡ false
    → is_digit (to_lower d) ≡ false
    → same_text (s ++ t) (d ∷ ds) ≡ false
unfolding same_text bytes_eq
same_text-digit [] t d ds h f k = absurd (ground (arith, f))
same_text-digit (c ∷ cs) t d ds (h, hs) f k = ground (arith, h)

append-filled : (s t : Bytes) → is_nil s ≡ false → is_nil (s ++ t) ≡ false
append-filled [] t f = absurd (ground (arith, f))
append-filled (c ∷ cs) t f = refl

-- The blocks of addresses, by their first number and the range of their second: the loopback, the
-- private ones, the link-local one, the shared one of carriers, and the one of this host.
abbrev pub private_ranges : List (ℕ × ℕ × ℕ)
private_ranges =
    (10, 0, 255)
    ∷ (172, 16, 31)
    ∷ (192, 168, 168)
    ∷ (169, 254, 254)
    ∷ (100, 64, 127)
    ∷ (0, 0, 255)
    ∷ []

abbrev pub blocked_ranges : Bool → List (ℕ × ℕ × ℕ)
blocked_ranges true = private_ranges
blocked_ranges false = (127, 0, 255) ∷ private_ranges

abbrev pub in_ranges : List (ℕ × ℕ × ℕ) → ℕ → ℕ → Bool
in_ranges [] a b = false
in_ranges ((first, low, high) ∷ rest) a b =
    ((a == first) && leb low b && leb b high) || in_ranges rest a b

quad_ranges :
    (allow_local : Bool) (a b : ℕ)
    → b < 256
    → is_blocked_quad allow_local a b ≡ in_ranges (blocked_ranges allow_local) a b
unfolding is_blocked_quad
quad_ranges true a b l = ground (arith, l)
quad_ranges false a b l = ground (arith, l)

-- A host that begins with a dotted address, followed by anything but a digit, is blocked exactly if
-- the address is in one of the blocked ranges, of which the loopback is none where the environment
-- allows it.
pub is_blocked-dotted :
    (allow_local : Bool) (a b c d : ℕ) (t : Bytes)
    → a < 256
    → b < 256
    → c < 256
    → d < 256
    → NoDigit t
    → is_blocked_broker_host_literal allow_local (dotted a b c d t)
      ≡ in_ranges (blocked_ranges allow_local) a b
unfolding is_blocked_broker_host_literal
is_blocked-dotted allow_local a b c d t la lb lc ld k =
    let rest = b'.' ∷ (to_string b ++ b'.' ∷ (to_string c ++ b'.' ∷ (to_string d ++ t))) in
    rw
      (
        append-filled (to_string a) rest (to_string-filled a),
        same_text-digit (to_string a) rest b'l' (codes "ocalhost") (to_string-digits a)
            (to_string-filled a) refl,
        same_text-digit (to_string a) rest b'm' (codes "etadata.google.internal")
            (to_string-digits a) (to_string-filled a) refl,
        same_text-digit (to_string a) rest b'm' (codes "etadata.goog") (to_string-digits a)
            (to_string-filled a) refl,
        scan_quad-dotted a b c d t (omega (arith, la)) (omega (arith, lb)) (omega (arith, lc))
            (omega (arith, ld)) k,
      )
      (quad_ranges allow_local a b lb)
