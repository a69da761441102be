-- ===== src/Session/Server/Loading.antt =====
-- When src/session/sf4e__SessionServer.cxx tells the clients that the battle is synced.
use sf4_netplay_launcher.Prelude.{
  ℕ, Bool, true, false, ◌&&◌, ◌||◌, ◌≡◌, refl, ◌∙◌, ap, ap₂, List, [], ◌∷◌, map, arith, ◌==◌,
  if◌then◌else◌, Bool-cases, inl, inr,
}
use sf4_netplay_launcher.Session.Protocol.{set_loaded, is_loaded}
use sf4_netplay_launcher.Session.Server.{SessionMember, mark_loaded, all_loaded}
use sf4_netplay_launcher.Session.Server.Handle.{Turn, load}

-- The handler of MT_BATTLE_LOADED for messages of several connections, the last one first.
abbrev pub loads : Turn → List ℕ → Turn
loads t [] = t
loads t (conn ∷ conns) = load (loads t conns) conn

abbrev pub is_among : ℕ → List ℕ → Bool
is_among conn [] = false
is_among conn (k ∷ ks) = (conn == k) || is_among conn ks

-- Every client had loaded before, or has said so in one of the messages.
abbrev pub covered : List SessionMember → List ℕ → Bool
covered [] conns = true
covered (c ∷ cs) conns = (is_loaded c.member.flags || is_among c.conn conns) && covered cs conns

abbrev mark : ℕ → SessionMember → SessionMember
mark conn c =
    if c.conn == conn
    then record c { member = record c.member { flags = set_loaded c.member.flags } }
    else c

abbrev marks : List ℕ → SessionMember → SessionMember
marks [] c = c
marks (k ∷ ks) c = mark k (marks ks c)

mark_loaded-map : (conn : ℕ) (cs : List SessionMember) → mark_loaded conn cs ≡ map (mark conn) cs
unfolding mark_loaded
mark_loaded-map conn [] = refl
mark_loaded-map conn (c ∷ cs) = ap (λ xs. mark conn c ∷ xs) (mark_loaded-map conn cs)

map-marks :
    (k : ℕ) (ks : List ℕ) (cs : List SessionMember)
    → map (mark k) (map (marks ks) cs) ≡ map (marks (k ∷ ks)) cs
map-marks k ks [] = refl
map-marks k ks (c ∷ cs) = ap (λ xs. marks (k ∷ ks) c ∷ xs) (map-marks k ks cs)

map-no_marks : (cs : List SessionMember) → cs ≡ map (marks []) cs
map-no_marks [] = refl
map-no_marks (c ∷ cs) = ap (λ xs. c ∷ xs) (map-no_marks cs)

clients-loads :
    (t : Turn) (ks : List ℕ) → (loads t ks).server.clients ≡ map (marks ks) t.server.clients
clients-loads t [] = map-no_marks t.server.clients
clients-loads t (k ∷ ks) =
    mark_loaded-map k (loads t ks).server.clients
    ∙ ap (map (mark k)) (clients-loads t ks)
    ∙ map-marks k ks t.server.clients

conn-marks : (ks : List ℕ) (c : SessionMember) → (marks ks c).conn ≡ c.conn
conn-marks [] c = refl
conn-marks (k ∷ ks) c = ground (arith, conn-marks ks c)

is_loaded-set_loaded : (flags : ℕ) → is_loaded (set_loaded flags) ≡ true
is_loaded-set_loaded flags = ground arith

or_false : (b : Bool) → b ≡ (b || false)
or_false true = refl
or_false false = refl

or_true : (b : Bool) → true ≡ (b || true)
or_true true = refl
or_true false = refl

or_swap : (a x y : Bool) → ((a || y) || x) ≡ (a || (x || y))
or_swap true x y = refl
or_swap false true true = refl
or_swap false true false = refl
or_swap false false true = refl
or_swap false false false = refl

is_loaded-mark :
    (k : ℕ) (c : SessionMember)
    → is_loaded (mark k c).member.flags ≡ (is_loaded c.member.flags || (c.conn == k))
is_loaded-mark k c = elim (Bool-cases (c.conn == k)) [
  | inl e ↦ rw e (is_loaded-set_loaded c.member.flags ∙ or_true (is_loaded c.member.flags))
  | inr e ↦ rw e (or_false (is_loaded c.member.flags))
]

is_loaded-marks :
    (ks : List ℕ) (c : SessionMember)
    → is_loaded (marks ks c).member.flags ≡ (is_loaded c.member.flags || is_among c.conn ks)
is_loaded-marks [] c = or_false (is_loaded c.member.flags)
is_loaded-marks (k ∷ ks) c =
    is_loaded-mark k (marks ks c)
    ∙ ap₂ (λ (a : Bool) (n : ℕ). a || (n == k)) (is_loaded-marks ks c) (conn-marks ks c)
    ∙ or_swap (is_loaded c.member.flags) (c.conn == k) (is_among c.conn ks)

all_loaded-marks :
    (ks : List ℕ) (cs : List SessionMember) → all_loaded (map (marks ks) cs) ≡ covered cs ks
unfolding all_loaded
all_loaded-marks ks [] = refl
all_loaded-marks ks (c ∷ cs) = ap₂ (λ a b. a && b) (is_loaded-marks ks c) (all_loaded-marks ks cs)

-- After the handling of one or more messages that a client has loaded the battle, and of no others,
-- in any order and repeated or not, the flag by which Step broadcasts that the battle is synced is
-- set exactly if every client has loaded: before, or by one of these messages.
pub synced_exact :
    (t : Turn) (conn : ℕ) (conns : List ℕ)
    → (loads t (conn ∷ conns)).send_battle_synced ≡ covered t.server.clients (conn ∷ conns)
synced_exact t conn conns =
    ap all_loaded (clients-loads t (conn ∷ conns))
    ∙ all_loaded-marks (conn ∷ conns) t.server.clients
