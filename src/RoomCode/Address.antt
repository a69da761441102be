-- ===== src/RoomCode/Address.antt =====
-- The round trip of the addresses of src/launcher/netplay/netplay_room_code.cxx.
use sf4_netplay_launcher.Prelude.{
  ℕ, zero, suc, ◌+◌, ◌-◌, ◌*◌, ◌/◌, ◌%◌, ◌≤◌, ◌<◌, ◌≡◌, refl, ◌∙◌, ap, true, false, [], ◌∷◌, ◌++◌,
  Bytes, All, arith, Bool-cases, inl, inr, length, take, some, none, ltb, length-append,
}
use sf4_netplay_launcher.Prelude.Int.{pos}
use sf4_netplay_launcher.Session.Server.{decimal, to_string}
use sf4_netplay_launcher.Session.Server.Identity.{read_decimal, to_string-read_decimal}
use sf4_netplay_launcher.RoomCode.{
  is_blank, trim_room_code, format_room_code, split_last_colon, is_digit, read_digits, signed, atoi,
  take_port, parse_room_code,
}
use sf4_netplay_launcher.RoomCode.Trim.{NoBlankLast, trim_room_code-kept}

abbrev pub IsDigit : ℕ → Type 0
IsDigit c = is_digit c ≡ true

below_ten : (n : ℕ) → ltb n 10 ≡ true → n < 10
below_ten n h = ground (arith, h)

char_of : (n : ℕ) → n < 10 → IsDigit (b'0' + n)
char_of n h = ground (arith, h)

decimal-digits : (left n : ℕ) (out : Bytes) → All IsDigit out → All IsDigit (decimal left n out)
unfolding decimal
decimal-digits zero n out h = h
decimal-digits (suc left) n out h = elim (Bool-cases (ltb n 10)) [
  | inl e ↦ rw e (char_of n (below_ten n e), h)
  | inr e ↦ rw e (decimal-digits left (n / 10) _ (char_of (n % 10) (omega arith), h))
]

-- Digits to their end are read as a whole.
read_digits-digits : (acc : ℕ) (s : Bytes) → All IsDigit s → read_digits acc s ≡ read_decimal acc s
unfolding read_digits
read_digits-digits acc [] h = refl
read_digits-digits acc (c ∷ cs) (h, hs) =
    rw h
      (read_digits-digits (acc * 10 + (c - b'0')) cs hs ∙ ap (λ k. read_decimal k cs) (omega arith))

pub take-all : (k : ℕ) (s : Bytes) → length s ≤ k → take k s ≡ s
take-all zero [] h = refl
take-all zero (c ∷ cs) h = absurd (omega (arith, h))
take-all (suc k) [] h = refl
take-all (suc k) (c ∷ cs) h = ap (λ x. c ∷ x) (take-all k cs (omega (arith, h)))

split-digits : (s : Bytes) → All IsDigit s → split_last_colon s ≡ none
unfolding split_last_colon
split-digits [] h = refl
split-digits (c ∷ cs) (h, hs) = rw (split-digits cs hs) (ground (arith, h))

split-append :
    (host s : Bytes) → All IsDigit s → split_last_colon (host ++ b':' ∷ s) ≡ some (host, s)
unfolding split_last_colon
split-append [] s h = rw (split-digits s h) refl
split-append (c ∷ cs) s h = rw (split-append cs s h) refl

atoi-digits : (s : Bytes) → All IsDigit s → atoi s ≡ pos (read_decimal 0 s)
unfolding atoi signed
atoi-digits [] h = refl
atoi-digits (c ∷ cs) (h, hs) = ground (arith, h, read_digits-digits 0 (c ∷ cs) (h, hs))

length-decimal : (left n : ℕ) (out : Bytes) → length (decimal left n out) ≤ left + length out
unfolding decimal
length-decimal zero n out = omega arith
length-decimal (suc left) n out = elim (Bool-cases (ltb n 10)) [
  | inl e ↦ rw e (omega arith)
  | inr e ↦ rw e (omega (arith, length-decimal left (n / 10) ((b'0' + n % 10) ∷ out)))
]

last-digits : (c : ℕ) (s : Bytes) → is_blank c ≡ false → All IsDigit s → NoBlankLast (c ∷ s)
last-digits c [] h hs = h
last-digits c (d ∷ ds) h (e, hs) = last-digits d ds (ground (arith, e)) hs

last-append : (xs : Bytes) (c : ℕ) (s : Bytes) → NoBlankLast (c ∷ s) → NoBlankLast (xs ++ c ∷ s)
last-append [] c s h = h
last-append (x ∷ []) c s h = h
last-append (x ∷ y ∷ ys) c s h = last-append (y ∷ ys) c s h

abbrev address : Bytes → ℕ → Bytes
address host port = host ++ b':' ∷ to_string port

pub to_string-digits : (n : ℕ) → All IsDigit (to_string n)
unfolding to_string
to_string-digits n = decimal-digits 10 n [] tt

length-address : (host : Bytes) (port : ℕ) → length (address host port) ≤ length host + 11
unfolding to_string
length-address host port =
    omega (arith, length-append host (b':' ∷ to_string port), length-decimal 10 port [])

trim-address :
    (c : ℕ) (host : Bytes) (port : ℕ)
    → is_blank c ≡ false
    → trim_room_code (address (c ∷ host) port) ≡ address (c ∷ host) port
trim-address c host port h = trim_room_code-kept (address (c ∷ host) port) h (
    last-append (c ∷ host) b':' (to_string port)
      (last-digits b':' (to_string port) refl (to_string-digits port)))

take_port-address :
    (n : ℕ) (c : ℕ) (host : Bytes) (port : ℕ)
    → 1 ≤ port
    → port ≤ 65535
    → take (n - 1) (c ∷ host) ≡ c ∷ host
    → take_port n (c ∷ host) (pos port) ≡ some (c ∷ host, port)
take_port-address n c host port low high t = rw t (ground (arith, low, high))

-- A room's address, a host without blanks at its front and its port, is read back from its code, though the host may hold colons itself, if the buffers have room.
pub parse_room_code-format_room_code :
    (c : ℕ) (host : Bytes) (port out_code_len out_host_len : ℕ)
    → is_blank c ≡ false
    → 1 ≤ port
    → port ≤ 65535
    → length (c ∷ host) ≤ 244
    → length (c ∷ host) + 12 ≤ out_code_len
    → length (c ∷ host) < out_host_len
    → parse_room_code (format_room_code (c ∷ host) port out_code_len) out_host_len
      ≡ some (c ∷ host, port)
unfolding parse_room_code format_room_code
parse_room_code-format_room_code c host port code_len host_len blank low high fits room out =
    let code = address (c ∷ host) port in
    let short = length-address (c ∷ host) port in
    rw
      (
        take-all (code_len - 1) code (omega (arith, short)),
        take-all 255 code (omega (arith, short)),
        trim-address c host port blank,
        split-append (c ∷ host) (to_string port) (to_string-digits port),
        atoi-digits (to_string port) (to_string-digits port)
            ∙ ap pos (to_string-read_decimal port (omega (arith, high))),
      )
      (take_port-address host_len c host port low high
        (take-all (host_len - 1) (c ∷ host) (omega (arith, out))))
