-- ===== src/UdpRelay/Token.antt =====
-- The room token of src/relay/ggpo_udp_relay.cxx: IsHexToken and TokenMatches.
-- `isxdigit`, `tolower` and `strncmp` are those of the C library in the "C" locale.
use sf4_netplay_launcher.Prelude.{
  ℕ, zero, suc, ◌+◌, ◌≤◌, ◌≡◌, refl, subst, ◌↔◌, ap, Bool, true, ◌&&◌, ◌||◌, List, [], ◌∷◌, map,
  arith, Bytes, length, take, leb, ◌==◌, if◌then◌else◌,
}

abbrev is_between : ℕ → ℕ → ℕ → Bool
is_between lo hi c = leb lo c && leb c hi

abbrev pub isxdigit : ℕ → Bool
isxdigit c = is_between b'0' b'9' c || is_between b'a' b'f' c || is_between b'A' b'F' c

abbrev pub tolower : ℕ → ℕ
tolower c = if is_between b'A' b'Z' c then c + 32 else c

-- `strncmp(a, b, n) == 0`; the end of a list is its terminator.
abbrev pub strncmp_eq : ℕ → Bytes → Bytes → Bool
strncmp_eq zero a b = true
strncmp_eq (suc n) [] [] = true
strncmp_eq (suc n) [] (y ∷ ys) = y == 0
strncmp_eq (suc n) (x ∷ xs) [] = x == 0
strncmp_eq (suc n) (x ∷ xs) (y ∷ ys) = (x == y) && ((x == 0) || strncmp_eq n xs ys)

abbrev all_hex : Bytes → Bool
all_hex [] = true
all_hex (c ∷ cs) = isxdigit c && all_hex cs

unfoldable pub is_hex_token : Bytes → ℕ → Bool
is_hex_token token len = (len == 32) && all_hex (take len token)

unfoldable pub token_matches : Bytes → Bytes → Bool
token_matches expected received =
    strncmp_eq 32 (map tolower (take 32 expected)) (map tolower (take 32 received))

strncmp_sound :
    (n : ℕ) (a b : Bytes)
    → length a ≡ n
    → length b ≡ n
    → strncmp_eq n (map tolower a) (map tolower b) ≡ true
    → all_hex a ≡ true
    → map tolower a ≡ map tolower b
strncmp_sound zero [] [] p q h x = refl
strncmp_sound zero [] (y ∷ b) p q h x = absurd (omega arith)
strncmp_sound zero (y ∷ a) b p q h x = absurd (omega arith)
strncmp_sound (suc n) [] b p q h x = absurd (omega arith)
strncmp_sound (suc n) (y ∷ a) [] p q h x = absurd (omega arith)
strncmp_sound (suc n) (y ∷ a) (z ∷ b) p q h x = ground (arith, strncmp_sound n a b)

length-take_of_le {ℓ} : {A : Type ℓ} (n : ℕ) (xs : List A) → n ≤ length xs → length (take n xs) ≡ n
length-take_of_le zero xs h = refl
length-take_of_le (suc n) [] h = absurd (omega arith)
length-take_of_le (suc n) (x ∷ xs) h = ap suc (length-take_of_le n xs (omega arith))

pub take_all {ℓ} : {A : Type ℓ} (n : ℕ) (xs : List A) → length xs ≡ n → take n xs ≡ xs
take_all zero [] h = refl
take_all zero (x ∷ xs) h = absurd (omega arith)
take_all (suc n) [] h = absurd (omega arith)
take_all (suc n) (x ∷ xs) h = ap (◌∷◌ x) (take_all n xs (omega arith))

strncmp_refl : (n : ℕ) (a : Bytes) → strncmp_eq n a a ≡ true
strncmp_refl zero a = refl
strncmp_refl (suc n) [] = refl
strncmp_refl (suc n) (x ∷ a) = ground (arith, strncmp_refl n a)

is_hex_token_inv :
    (token : Bytes) (len : ℕ)
    → is_hex_token token len ≡ true
    → (len ≡ 32) × (all_hex (take len token) ≡ true)
unfolding is_hex_token
is_hex_token_inv token len h = ground arith

-- When the expected token has passed IsHexToken and at least 32 bytes were received, TokenMatches
-- holds exactly if the first 32 bytes received are the token up to the case of its letters: that
-- `strncmp` stops at a NUL byte lets no shorter token through.
pub token_matches_exact :
    (expected received : Bytes)
    → is_hex_token expected (length expected) ≡ true
    → 32 ≤ length received
    → (token_matches expected received ≡ true)
      ↔ (map tolower expected ≡ map tolower (take 32 received))
unfolding is_hex_token token_matches
token_matches_exact expected received hex enough = (
  λ h.
      strncmp_sound 32 expected (take 32 received) size (length-take_of_le 32 received enough)
        (rw whole at h) digits,
  λ e. rw (whole, e) (strncmp_refl 32 (map tolower (take 32 received))),
)
  where
    tests : (length expected ≡ 32) × (all_hex (take (length expected) expected) ≡ true)
    tests = is_hex_token_inv expected (length expected) hex

    size : length expected ≡ 32
    size = tests.0

    whole : take 32 expected ≡ expected
    whole = take_all 32 expected size

    digits : all_hex expected ≡ true
    digits = subst (λ t. all_hex t ≡ true) (take_all (length expected) expected refl) (tests.1)
