-- ===== src/Updater/Versions.antt =====
-- The comparison of versions in src/launcher/update/github_release_client.cxx.
use mathlib.Core.List.{append-nil}
use sf4_netplay_launcher.Prelude.{
  ◌/◌, ◌%◌, Bool-cases, inl, inr, ◌&&◌, ◌||◌, ℕ, zero, suc, ◌+◌, ◌-◌, ◌*◌, ◌<◌, ◌≡◌, refl, sym, ◌∙◌,
  ap, Bool, true, false, [], ◌∷◌, ◌++◌, Bytes, All, arith, some, ltb, ◌==◌,
}
use sf4_netplay_launcher.Prelude.Int.{ℤ, pos, negsuc, eqz}
use sf4_netplay_launcher.Session.Server.{to_string, decimal}
use sf4_netplay_launcher.Session.Server.Identity.{read_decimal, to_string-read_decimal}
use sf4_netplay_launcher.RoomCode.{is_digit}
use sf4_netplay_launcher.RoomCode.Address.{IsDigit, to_string-digits}
use sf4_netplay_launcher.Updater.{
  scan_digits, scan_int, skip_v, parse_version_triple, Version, compare_triples, is_int,
  compare_versions,
}

-- A text that goes on with no digit.
abbrev NoDigitFirst : Bytes → Type 0
NoDigitFirst [] = Unit
NoDigitFirst (c ∷ cs) = is_digit c ≡ false

scan_digits-append :
    (acc : ℕ) (s rest : Bytes)
    → All IsDigit s
    → NoDigitFirst rest
    → scan_digits acc (s ++ rest) ≡ (read_decimal acc s, rest)
unfolding scan_digits
scan_digits-append acc [] [] h k = refl
scan_digits-append acc [] (c ∷ cs) h k = rw k refl
scan_digits-append acc (c ∷ cs) rest (h, hs) k = rw h (
    scan_digits-append (acc * 10 + (c - b'0')) cs rest hs k
    ∙ ap (λ n. (read_decimal n cs, rest)) (omega arith))

scan_int-digits :
    (c : ℕ) (cs rest : Bytes)
    → All IsDigit (c ∷ cs)
    → NoDigitFirst rest
    → scan_int ((c ∷ cs) ++ rest) ≡ some (pos (read_decimal 0 (c ∷ cs)), rest)
unfolding scan_int
scan_int-digits c cs rest (h, hs) k =
    ground (arith, h, scan_digits-append 0 (c ∷ cs) rest (h, hs) k)

-- A number has a digit.
abbrev IsCons : Bytes → Type 0
IsCons s = (c : ℕ) × ((cs : Bytes) × (s ≡ c ∷ cs))

decimal-IsCons : (left n c : ℕ) (cs : Bytes) → IsCons (decimal left n (c ∷ cs))
unfolding decimal
decimal-IsCons zero n c cs = (c, (cs, refl))
decimal-IsCons (suc left) n c cs = elim (Bool-cases (ltb n 10)) [
  | inl e ↦ rw e (b'0' + n, (c ∷ cs, refl))
  | inr e ↦ rw e (decimal-IsCons left (n / 10) (b'0' + n % 10) (c ∷ cs))
]

to_string-IsCons : (n : ℕ) → IsCons (to_string n)
unfolding to_string decimal
to_string-IsCons n = elim (Bool-cases (ltb n 10)) [
  | inl e ↦ rw e (b'0' + n, ([], refl))
  | inr e ↦ rw e (decimal-IsCons 9 (n / 10) (b'0' + n % 10) [])
]

scan_int-number :
    (s rest : Bytes)
    → IsCons s
    → All IsDigit s
    → NoDigitFirst rest
    → scan_int (s ++ rest) ≡ some (pos (read_decimal 0 s), rest)
scan_int-number [] rest (c, (cs, e)) h k = ground (arith, e)
scan_int-number (c ∷ cs) rest e h k = scan_int-digits c cs rest h k

scan_int-to_string :
    (n : ℕ) (rest : Bytes)
    → n < 0x100000000
    → NoDigitFirst rest
    → scan_int (to_string n ++ rest) ≡ some (pos n, rest)
scan_int-to_string n rest h k =
    scan_int-number (to_string n) rest (to_string-IsCons n) (to_string-digits n) k
    ∙ ap (λ m. some (pos m, rest)) (to_string-read_decimal n h)

skip_v-number : (s rest : Bytes) → IsCons s → All IsDigit s → skip_v (s ++ rest) ≡ s ++ rest
skip_v-number [] rest (c, (cs, e)) h = ground (arith, e)
skip_v-number (c ∷ cs) rest e (h, hs) = ground (arith, h)

-- Three numbers that an int holds, and their tag, as the releases are named.
pub record Triple : Type 0 where
  pub major : ℕ
  pub minor : ℕ
  pub patch : ℕ

abbrev pub Fits : Triple → Type 0
Fits t = (t.major < 0x80000000) × ((t.minor < 0x80000000) × (t.patch < 0x80000000))

abbrev pub tag : Triple → Bytes
tag t = b'v' ∷ (to_string t.major ++ b'.' ∷ (to_string t.minor ++ b'.' ∷ to_string t.patch))

parse_version_triple-tag :
    (t : Triple)
    → Fits t
    → parse_version_triple (tag t)
      ≡ record { major = pos t.major; minor = pos t.minor; patch = pos t.patch }
unfolding parse_version_triple
parse_version_triple-tag t (a, (b, c)) =
    rw
      (
        skip_v-number (to_string t.major) (b'.' ∷ (to_string t.minor ++ b'.' ∷ to_string t.patch))
            (to_string-IsCons t.major) (to_string-digits t.major),
        scan_int-to_string t.major (b'.' ∷ (to_string t.minor ++ b'.' ∷ to_string t.patch))
            (omega (arith, a)) refl,
        scan_int-to_string t.minor (b'.' ∷ to_string t.patch) (omega (arith, b)) refl,
        ap scan_int (sym (append-nil (to_string t.patch)))
            ∙ scan_int-to_string t.patch [] (omega (arith, c)) tt,
      )
      refl

abbrev pub older : Triple → Triple → Bool
older t u =
    ltb t.major u.major
    || ((t.major == u.major)
        && (ltb t.minor u.minor || ((t.minor == u.minor) && ltb t.patch u.patch)))

abbrev pub same_version : Triple → Triple → Bool
same_version t u = (t.major == u.major) && ((t.minor == u.minor) && (t.patch == u.patch))

abbrev pub is_negative : ℤ → Bool
is_negative (pos n) = false
is_negative (negsuc n) = true

-- The numbers of a tag.
abbrev version_of : Triple → Version
version_of t = record { major = pos t.major; minor = pos t.minor; patch = pos t.patch }

Compared : Triple → Triple → ℤ → Type 0
Compared t u d =
    (is_negative d ≡ older t u) × ((eqz d (pos 0) ≡ same_version t u) × (is_int d ≡ true))

compare_triples_lem :
    (t u : Triple) → Fits t → Fits u → Compared t u (compare_triples (version_of t) (version_of u))
unfolding Compared
compare_triples_lem t u h k = (ground arith, (ground arith, ground (arith, h, k)))

-- Two release tags of three numbers below 2^31 compare as their numbers do, from the major one to the
-- patch, and without an overflow: the result is negative exactly for an older version in front, and 0
-- exactly for the same version.
pub compare_versions_exact :
    (t u : Triple)
    → Fits t
    → Fits u
    → (d : ℤ) × ((compare_versions (tag t) (tag u) ≡ some d)
        × ((is_negative d ≡ older t u) × (eqz d (pos 0) ≡ same_version t u)))
unfolding compare_versions Compared
compare_versions_exact t u h k =
    let (lt, (eq, int)) = compare_triples_lem t u h k in
    (
      compare_triples (version_of t) (version_of u),
      (
        rw (parse_version_triple-tag t h, parse_version_triple-tag u k) (ground (arith, h, k, int)),
        (lt, eq),
      ),
    )
