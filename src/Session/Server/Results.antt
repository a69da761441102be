-- ===== src/Session/Server/Results.antt =====
-- HandleResults and its caller in src/session/sf4e__SessionServer.cxx.
use std.Logic.{↔_trans}
use mathlib.Core.Option.{none-ne-some}
use sf4_netplay_launcher.Prelude.{
  ℕ, zero, suc, ◌<◌, ◌≡◌, ◌↔◌, refl, sym, ◌∙◌, inl, inr, Option, Option-cases, none, some, List, [],
  ◌∷◌, ◌++◌, arith, ap, length, take, drop, get_elem?,
}
use sf4_netplay_launcher.Prelude.Int.{ℤ, pos, negsuc}
use sf4_netplay_launcher.Session.Protocol.{
  Body, clear, ConnectionId, JoinRequest, forward, ggpo_frame, join_request, report_results,
}
use sf4_netplay_launcher.Session.Server.{
  Server, SessionMember, Incoming, PeerAddr, handle_results, remove_at,
}
use sf4_netplay_launcher.Session.Server.Handle.{Turn, dispatch, dirty, on_some, join_from}

rotate {ℓ} :
    {A : Type ℓ} (xs : List A) (i : ℕ) {x : A}
    → get_elem? xs i ≡ some x
    → remove_at (xs ++ x ∷ []) i ≡ (take i xs ++ drop (suc i) xs) ++ x ∷ []
rotate [] i e = ground arith
rotate (y ∷ xs) zero e = refl
rotate (y ∷ xs) (suc i) e = ap (λ ys. y ∷ ys) (rotate xs i e)

-- The index is that of a client.
abbrev pub InRange : ℤ → List SessionMember → Type 0
InRange (pos i) cs = i < length cs
InRange (negsuc n) cs = ⊥

get_elem?-length {ℓ} :
    {A : Type ℓ} (xs : List A) (i : ℕ) {x : A} → get_elem? xs i ≡ some x → i < length xs
get_elem?-length [] i e = ground arith
get_elem?-length (y ∷ xs) zero e = omega arith
get_elem?-length (y ∷ xs) (suc i) e = omega (arith, get_elem?-length xs i e)

get_elem?-none {ℓ} : {A : Type ℓ} (xs : List A) (i : ℕ) → get_elem? xs i ≡ none → ¬ (i < length xs)
get_elem?-none [] i e = omega arith
get_elem?-none (y ∷ xs) zero e = ground arith
get_elem?-none (y ∷ xs) (suc i) e = omega (arith, get_elem?-none xs i e)

-- At the index of a client, HandleResults moves this client behind the others, which keep their order, and clears the match; it changes nothing else of the server.
pub handle_results-rotates :
    (s : Server) (i : ℕ) (loser : SessionMember)
    → get_elem? s.clients i ≡ some loser
    → handle_results s (pos i)
      ≡ some (record s {
        clients = (take i s.clients ++ drop (suc i) s.clients) ++ loser ∷ [];
        match_data = clear s.match_data;
      })
unfolding handle_results
handle_results-rotates s i loser e =
    rw (e, handle_results)
      (ap (λ cs. some (record s { clients = cs; match_data = clear s.match_data }))
        (rotate s.clients i e))

handle_results_undefined :
    (s : Server) (i : ℤ) → (handle_results s i ≡ none) ↔ (¬ InRange i s.clients)
unfolding handle_results
handle_results_undefined s (negsuc n) = (λ e r. r, λ k. refl)
handle_results_undefined s (pos i) = elim (Option-cases (get_elem? s.clients i)) [
  | inl e ↦ (λ h. get_elem?-none s.clients i e, λ k. rw (e, handle_results) refl)
  | inr (loser, e) ↦ (
    λ h. absurd (none-ne-some _ (sym h ∙ handle_results-rotates s i loser e)),
    λ k. absurd (k (get_elem?-length s.clients i e)),
  )
]

on_some-none {ℓ κ} :
    {A : Type ℓ} {B : Type κ} (f : A → B) (o : Option A) → (on_some f o ≡ none) ↔ (o ≡ none)
on_some-none f none = (λ e. refl, λ e. refl)
on_some-none f (some a) =
    (λ e. absurd (none-ne-some _ (sym e)), λ e. absurd (none-ne-some _ (sym e)))

-- A report of the results whose loser is the index of no client, or a request to join of a peer that
-- has no IP address.
abbrev pub IsUndefined : List SessionMember → Option PeerAddr → Body → Type 0
IsUndefined cs addr (report_results (some loser)) = ¬ InRange loser cs
IsUndefined cs addr (join_request (some request)) = addr ≡ none
IsUndefined cs addr _ = ⊥

some-none {ℓ} : {A : Type ℓ} (a : A) → (some a ≡ none) ↔ ⊥
some-none a = (λ e. none-ne-some a (sym e), λ r. absurd r)

join-IsUndefined :
    (t : Turn) (m : Incoming) (cid : ConnectionId) (r : Option JoinRequest) (addr : Option PeerAddr)
    → (join_from t m cid r addr ≡ none) ↔ IsUndefined t.server.clients addr (join_request r)
join-IsUndefined t m cid none (some addr) = some-none _
join-IsUndefined t m cid none none = some-none _
join-IsUndefined t m cid (some r) none = (λ e. refl, λ e. refl)
join-IsUndefined t m cid (some r) (some addr) =
    (λ e. absurd (none-ne-some _ (sym e)), λ e. absurd (none-ne-some _ (sym e)))

-- For a connection with an identity, the handling of a message is undefined behaviour exactly if the
-- message reports results with a loser that is the index of no client, or is a request to join that
-- can be read and its peer has no IP address. Nothing else is asked: neither that the sender of a
-- report has joined the lobby, nor that the loser is a player.
pub dispatch-IsUndefined_exact :
    (t : Turn) (m : Incoming) (cid : ConnectionId) (body : Body)
    → (dispatch t m cid body ≡ none) ↔ IsUndefined t.server.clients m.peer_addr body
unfolding dispatch
dispatch-IsUndefined_exact t m cid (report_results (some loser)) =
    ↔_trans (on_some-none (dirty t) (handle_results t.server loser))
      (handle_results_undefined t.server loser)
dispatch-IsUndefined_exact t m cid (join_request r) = join-IsUndefined t m cid r m.peer_addr
dispatch-IsUndefined_exact t m cid (report_results none) = some-none _
dispatch-IsUndefined_exact t m cid (forward none) = some-none _
dispatch-IsUndefined_exact t m cid (forward (some a)) = some-none _
dispatch-IsUndefined_exact t m cid (ggpo_frame none) = some-none _
dispatch-IsUndefined_exact t m cid (ggpo_frame (some a)) = some-none _
dispatch-IsUndefined_exact t m cid _ = some-none _
