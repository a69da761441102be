-- ===== src/Session/Server/Roster.antt =====
-- Who is in the lobby of src/session/sf4e__SessionServer.cxx: how many clients, under which names.
use mathlib.Core.List.{
  Mem, Nodup, Nodup-cons, Perm, Sublist, mem-cons, not-mem-nil, perm_append_singleton,
  sublist-cons_self, map-append,
}
use mathlib.Core.Option.{none-ne-some, some-injective}
use mathlib.Core.HLevel.{⊥_prop}
use mathlib.Core.List.Nodup
use mathlib.Core.List.Perm
use mathlib.Core.List.Sublist
use mathlib.Core.Logic.Or
use sf4_netplay_launcher.Prelude.{
  ℕ, zero, suc, ◌≤◌, ◌<◌, false, ◌≡◌, refl, sym, ap, ◌∙◌, subst, inl, inr, Option-cases, none, some,
  List, [], ◌∷◌, ◌++◌, map, arith, Bytes, bytes_eq, bytes_eq_iff, length, length-append, get_elem?,
  leb, ◌==◌, Bool-cases,
}
use sf4_netplay_launcher.Session.Server.{
  SessionMember, Server, PeerAddr, max_users, has_name, register_to_wait, remove_at, handle_results,
  unload, mark_loaded,
}
use sf4_netplay_launcher.Session.Protocol.{ConnectionId, clear, JoinRequest}
use sf4_netplay_launcher.Prelude.Int.{ℤ, pos, negsuc}
use sf4_netplay_launcher.Session.Server.Step.{erase_client}

abbrev pub names : List SessionMember → List Bytes
names = map (λ (c : SessionMember). c.member.name)

-- The lobby has at most four clients, with distinct names.
pub record Inv (ns : List Bytes) : Type 0 where
  pub bounded : length ns ≤ max_users
  pub distinct : Nodup ns

-- What one operation does to the list of names.
pub data Roster (ns : List Bytes) (ms : List Bytes) : Type 0 where
  kept : ms ≡ ns → Roster ns ms
  joined : (n : Bytes) → (¬ Mem n ns) → length ns < max_users → ms ≡ ns ++ n ∷ [] → Roster ns ms
  rotated : Perm ms ns → length ms ≡ length ns → Roster ns ms
  left : Sublist ms ns → length ms ≤ length ns → Roster ns ms

pub Roster-Inv : {ns ms : List Bytes} → Roster ns ms → Inv ns → Inv ms
Roster-Inv (kept e) v = subst Inv (sym e) v
Roster-Inv {ns} {ms} (joined n fresh room e) v = subst Inv (sym e) (record {
  bounded = omega (arith, length-append ns (n ∷ []));
  distinct = Perm.nodup (Perm.symm (perm_append_singleton n ns)) (Nodup-cons.1 (fresh, v.distinct));
})
Roster-Inv (rotated p e) v = record {
  bounded = omega (arith, v.bounded);
  distinct = Perm.nodup (Perm.symm p) v.distinct;
}
Roster-Inv (left s h) v = record {
  bounded = omega (arith, v.bounded);
  distinct = Nodup.sublist s v.distinct;
}

has_name-mem : (n : Bytes) (cs : List SessionMember) → has_name n cs ≡ false → ¬ Mem n (names cs)
unfolding has_name
has_name-mem n [] h m = not-mem-nil m
has_name-mem n (c ∷ cs) h m = elim (Bool-cases (bytes_eq c.member.name n)) [
  | inl e ↦ ground arith
  | inr e ↦
      Or.elim ⊥_prop (mem-cons.0 m)
        (λ (eq : n ≡ c.member.name). ground (arith, (bytes_eq_iff c.member.name n).1 (sym eq)))
        (λ rest. has_name-mem n cs (ground arith) rest)
]

-- Moving an entry to the end.
rotate-perm {ℓ} :
    {A : Type ℓ} (xs : List A) (i : ℕ) {x : A}
    → get_elem? xs i ≡ some x
    → Perm (remove_at (xs ++ x ∷ []) i) xs
rotate-perm [] i e = ground arith
rotate-perm (y ∷ xs) zero {x} e =
    subst (λ u. Perm (xs ++ x ∷ []) (u ∷ xs)) (some-injective x y (sym e))
      (perm_append_singleton x xs)
rotate-perm (y ∷ xs) (suc i) e = Perm.cons y (rotate-perm xs i e)

rotate-length {ℓ} :
    {A : Type ℓ} (xs : List A) (i : ℕ) {x : A}
    → get_elem? xs i ≡ some x
    → length (remove_at (xs ++ x ∷ []) i) ≡ length xs
rotate-length [] i e = ground arith
rotate-length (y ∷ xs) zero {x} e = omega (arith, length-append xs (x ∷ []))
rotate-length (y ∷ xs) (suc i) e = ap suc (rotate-length xs i e)

abbrev pub clients_of : Server → List Bytes
clients_of s = names s.clients

length-names : (cs : List SessionMember) → length (names cs) ≡ length cs
length-names [] = refl
length-names (c ∷ cs) = ap suc (length-names cs)

pub register_to_wait-Roster :
    (s : Server) (conn : ℕ) (request : JoinRequest) (addr : PeerAddr) (cid : ConnectionId)
    → Roster (clients_of s) (clients_of (register_to_wait s conn request addr cid).0)
unfolding register_to_wait
register_to_wait-Roster s conn request addr cid =
    elim (Bool-cases (bytes_eq request.sidecar_hash s.sidecar_hash)) [
      | inr e ↦ rw e (kept refl)
      | inl e ↦ elim (Bool-cases (leb max_users (length s.clients))) [
        | inl f ↦ rw (e, f) (kept refl)
        | inr f ↦ elim (Bool-cases (has_name request.username s.clients)) [
          | inl g ↦ rw (e, f, g) (kept refl)
          | inr g ↦
              rw (e, f, g)
                (joined request.username (has_name-mem request.username s.clients g)
                  (ground (arith, length-names s.clients))
                  (map-append (λ (c : SessionMember). c.member.name) s.clients _))
        ]
      ]
    ]

pub mark_loaded-names :
    (conn : ℕ) (cs : List SessionMember) → names (mark_loaded conn cs) ≡ names cs
unfolding mark_loaded
mark_loaded-names conn [] = refl
mark_loaded-names conn (c ∷ cs) = elim (Bool-cases (c.conn == conn)) [
  | inl e ↦ rw e (ap (λ xs. c.member.name ∷ xs) (mark_loaded-names conn cs))
  | inr e ↦ rw e (ap (λ xs. c.member.name ∷ xs) (mark_loaded-names conn cs))
]

pub unload-names : (cs : List SessionMember) → names (map unload cs) ≡ names cs
unload-names [] = refl
unload-names (c ∷ cs) = ap (λ xs. c.member.name ∷ xs) (unload-names cs)

abbrev rotated_server : Server → ℕ → SessionMember → Server
unfolding clear
rotated_server s i loser = record s {
  clients = remove_at (s.clients ++ loser ∷ []) i;
  match_data = clear s.match_data;
}

handle_results-none :
    (s : Server) (i : ℕ) → get_elem? s.clients i ≡ none → handle_results s (pos i) ≡ none
unfolding handle_results
handle_results-none s i e = rw (e, handle_results) refl

handle_results-some :
    (s : Server) (i : ℕ) (loser : SessionMember)
    → get_elem? s.clients i ≡ some loser
    → handle_results s (pos i) ≡ some (rotated_server s i loser)
unfolding handle_results
handle_results-some s i loser e = rw (e, handle_results) refl

pub handle_results-Roster :
    (s : Server) (i : ℤ) (t : Server)
    → handle_results s i ≡ some t
    → Roster (clients_of s) (clients_of t)
unfolding handle_results
handle_results-Roster s (negsuc n) t h = absurd (none-ne-some _ h)
handle_results-Roster s (pos i) t h = elim (Option-cases (get_elem? s.clients i)) [
  | inl e ↦ absurd (none-ne-some _ (sym (handle_results-none s i e) ∙ h))
  | inr (loser, e) ↦
      subst (λ (u : Server). Roster (clients_of s) (clients_of u))
        (some-injective _ _ (sym (handle_results-some s i loser e) ∙ h))
        (rotated (Perm.map (λ (c : SessionMember). c.member.name) (rotate-perm s.clients i e)) (
          length-names (remove_at (s.clients ++ loser ∷ []) i)
          ∙ rotate-length s.clients i e
          ∙ sym (length-names s.clients)))
]

pub erase_client-sublist :
    (conn : ℕ) (cs : List SessionMember) → Sublist (names (erase_client conn cs)) (names cs)
unfolding erase_client
erase_client-sublist conn [] = Sublist.refl []
erase_client-sublist conn (c ∷ cs) = elim (Bool-cases (c.conn == conn)) [
  | inl e ↦ rw e (sublist-cons_self c.member.name (names cs))
  | inr e ↦ rw e (Sublist.cons-cons c.member.name (erase_client-sublist conn cs))
]

pub erase_client-length :
    (conn : ℕ) (cs : List SessionMember) → length (names (erase_client conn cs)) ≤ length (names cs)
unfolding erase_client
erase_client-length conn [] = omega arith
erase_client-length conn (c ∷ cs) = ground (arith, erase_client-length conn cs)
