-- ===== src/Session/Protocol/LobbyIds.antt =====
-- The comparisons of connection and lobby IDs in src/session/sf4e__SessionProtocol.cxx.
use sf4_netplay_launcher.Prelude.{
  Bool, true, ◌≡◌, ◌↔◌, ◌⊎◌, refl, ap₂, ◌&&◌, ◌||◌, inl, inr, Bool-cases, bytes_eq, bytes_eq_sound,
  bytes_eq_refl, arith, Bytes,
}
use sf4_netplay_launcher.Session.Protocol.{ConnectionId, conn_id_eq, LobbyId, lobby_id_eq, is_empty}

pub conn_id_eq_refl : (cid : ConnectionId) → conn_id_eq cid cid ≡ true
unfolding conn_id_eq
conn_id_eq_refl cid = rw (bytes_eq_refl cid.host, bytes_eq_refl cid.user) refl

-- The host or the key is empty.
abbrev is_unreachable : LobbyId → Bool
is_unreachable a = is_empty a.host || is_empty a.key

and_true : (x y : Bool) → (x && y) ≡ true → (x ≡ true) × (y ≡ true)
and_true x y h = ground arith

lobby_id_eq_sound :
    (a b : LobbyId)
    → lobby_id_eq a b ≡ true
    → ((is_unreachable a ≡ true) × (is_unreachable b ≡ true)) ⊎ (a ≡ b)
unfolding lobby_id_eq
lobby_id_eq_sound a b h = elim (Bool-cases (is_unreachable a)) [
  | inl e ↦ inl (e, ground arith)
  | inr e ↦
      let (p, q) = and_true (bytes_eq a.host b.host) (bytes_eq a.key b.key) (ground arith) in
      inr (
        ap₂ (λ (h : Bytes) (k : Bytes). record { host = h; key = k })
          (bytes_eq_sound a.host b.host p) (bytes_eq_sound a.key b.key q))
]

lobby_id_eq_refl : (a : LobbyId) → lobby_id_eq a a ≡ true
unfolding lobby_id_eq
lobby_id_eq_refl a = elim (Bool-cases (is_unreachable a)) [
  | inl e ↦ rw e refl
  | inr e ↦ rw (e, bytes_eq_refl a.host, bytes_eq_refl a.key) refl
]

lobby_id_eq_unreachable :
    (a b : LobbyId) → is_unreachable a ≡ true → is_unreachable b ≡ true → lobby_id_eq a b ≡ true
unfolding lobby_id_eq
lobby_id_eq_unreachable a b p q = rw (p, q) refl

-- Two lobby IDs compare equal exactly if they are the same, or neither is reachable: for each of them, the host or the key is empty.
lobby_id_eq_iff :
    (a b : LobbyId)
    → (lobby_id_eq a b ≡ true) ↔ (((is_unreachable a ≡ true) × (is_unreachable b ≡ true)) ⊎ (a ≡ b))
lobby_id_eq_iff a b = (
  lobby_id_eq_sound a b,
  λ s. elim s [ inl u ↦ lobby_id_eq_unreachable a b u.0 u.1 | inr e ↦ rw e (lobby_id_eq_refl b) ],
)
