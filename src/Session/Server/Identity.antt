-- ===== src/Session/Server/Identity.antt =====
-- The identities that src/session/sf4e__SessionServer.cxx gives to connections, and the frames that
-- it refuses to relay.
use sf4_netplay_launcher.Prelude.{
  ℕ, zero, suc, ◌+◌, ◌-◌, ◌*◌, ◌/◌, ◌%◌, ◌<◌, true, ◌≡◌, refl, sym, ◌∙◌, some, [], ◌∷◌, Bytes,
  Bool-cases, inl, inr, arith, ap, ltb, bytes_eq, bytes_eq_sound, bytes_eq_refl,
}
use sf4_netplay_launcher.Session.Protocol.{Addressed, ConnectionId, ggpo_frame}
use sf4_netplay_launcher.Session.Server.{Server, Incoming, decimal, to_string}
use sf4_netplay_launcher.Session.Server.Handle.{Turn, dispatch, is_fraudulent}

-- The number that digits spell, behind those already read.
abbrev pub read_decimal : ℕ → Bytes → ℕ
read_decimal n [] = n
read_decimal n (c ∷ cs) = read_decimal (10 * n + (c - b'0')) cs

abbrev pow10 : ℕ → ℕ
pow10 zero = 1
pow10 (suc n) = 10 * pow10 n

decimal-read :
    (left n : ℕ) (out : Bytes)
    → n < pow10 left
    → read_decimal 0 (decimal left n out) ≡ read_decimal n out
unfolding decimal
decimal-read zero n out h = ap (λ k. read_decimal k out) (omega arith)
decimal-read (suc left) n out h = elim (Bool-cases (ltb n 10)) [
  | inl e ↦ rw e (ap (λ k. read_decimal k out) (omega arith))
  | inr e ↦ rw e (
      decimal-read left (n / 10) ((b'0' + n % 10) ∷ out) (omega arith)
      ∙ ap (λ k. read_decimal k out) (omega arith))
]

-- The text of a 32-bit connection handle, read as a decimal number, is that handle: ten digits are enough.
pub to_string-read_decimal :
    (conn : ℕ) → conn < 0x100000000 → read_decimal 0 (to_string conn) ≡ conn
unfolding to_string
to_string-read_decimal conn h = decimal-read 10 conn [] (omega arith)

-- The identity that `greet` gives to a connection.
abbrev pub identity_of : Server → ℕ → ConnectionId
identity_of s conn = record { host = s.identity; user = to_string conn }

to_string-injective :
    (a b : ℕ) → a < 0x100000000 → b < 0x100000000 → to_string a ≡ to_string b → a ≡ b
to_string-injective a b ha hb e =
    sym (to_string-read_decimal a ha) ∙ ap (read_decimal 0) e ∙ to_string-read_decimal b hb

is_fraudulent-other :
    (s : Server) (m : Incoming) (a : Addressed) (k : ℕ)
    → m.conn < 0x100000000
    → k < 0x100000000
    → (¬ (k ≡ m.conn))
    → a.src ≡ identity_of s k
    → is_fraudulent s m a ≡ true
unfolding is_fraudulent
is_fraudulent-other s m a k hm hk ne e =
    elim (Bool-cases (bytes_eq a.src.user (to_string m.conn))) [
      | inl f ↦ absurd (
          ne (
            to_string-injective k m.conn hk hm
              (sym (ap (λ (c : ConnectionId). c.user) e) ∙ bytes_eq_sound _ _ f)))
      | inr f ↦ rw (ap (λ (c : ConnectionId). c.host) e, bytes_eq_refl s.identity, f) refl
    ]

-- A GGPO frame whose source is the identity of another connection changes nothing and is relayed to nobody.
pub dispatch-impersonation :
    (t : Turn) (m : Incoming) (cid : ConnectionId) (a : Addressed) (k : ℕ)
    → m.conn < 0x100000000
    → k < 0x100000000
    → (¬ (k ≡ m.conn))
    → a.src ≡ identity_of t.server k
    → dispatch t m cid (ggpo_frame (some a)) ≡ some t
unfolding dispatch
dispatch-impersonation t m cid a k hm hk ne e =
    rw (is_fraudulent-other t.server m a k hm hk ne e, dispatch) refl
