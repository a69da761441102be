-- ===== src/Session/Server/Convergence.antt =====
-- The updates that Step of src/session/sf4e__SessionServer.cxx broadcasts.
use mathlib.Core.List.{append-nil, append_assoc}
use sf4_netplay_launcher.Prelude.{
  Bool, true, false, ◌≡◌, refl, sym, ◌∙◌, subst, Option, none, some, List, [], ◌∷◌, ◌++◌,
  Bool-cases, inl, inr, if◌then◌else◌, ap,
}
use sf4_netplay_launcher.Session.Server.{
  Server, Incoming, Packet, broadcast, lobby_all_ready, battle_synced,
}
use sf4_netplay_launcher.Session.Server.Handle.{Turn, handle, emit}
use sf4_netplay_launcher.Session.Server.Step.{
  Outcome, ok, failed, undefined, finish, flush_data, flush_ready, flush_synced, loop, step, start,
  snapshot, Poll, poll_error, received,
}
use sf4_netplay_launcher.Session.Server.Tracking.{Tracks, same-Tracks, handle-Tracks}

-- The packets hold the update `msg` to each of the clients.
pub record Announced (packets : List Packet) (to_all : List Packet) : Type 0 where
  pub before : List Packet
  pub after : List Packet
  pub placed : packets ≡ (before ++ to_all) ++ after

-- What the clients know after Step: all that there is, as before the call or by an update to all of them.
pub data Converged (s t : Server) (packets : List Packet) : Type 0 where
  unchanged : s.data_dirty ≡ false → snapshot t ≡ snapshot s → Converged s t packets
  announced : Announced packets (broadcast t.clients (snapshot t)) → Converged s t packets

-- The two other broadcasts change no state, and come behind the packets sent so far.
Extends : Turn → Turn → Type 0
Extends u v = (v.server ≡ u.server) × ((after : List Packet) × (v.sent ≡ u.sent ++ after))

emit-Extends :
    (u : Turn) (is_sent : Bool) (packets : List Packet)
    → Extends u (if is_sent then emit u packets else u)
unfolding Extends
emit-Extends u true packets = (refl, (packets, refl))
emit-Extends u false packets = (refl, ([], sym (append-nil u.sent)))

flush-Extends : (u : Turn) → Extends u (flush_synced (flush_ready u))
unfolding Extends flush_synced flush_ready
flush-Extends u =
    let v = flush_ready u in
    let (a, (xs, p)) =
      emit-Extends u u.send_all_ready (broadcast u.server.clients lobby_all_ready) in
    let (b, (ys, q)) =
      emit-Extends v v.send_battle_synced (broadcast v.server.clients battle_synced) in
    (b ∙ a, (xs ++ ys, q ∙ ap (λ zs. zs ++ ys) p ∙ append_assoc u.sent xs ys))

-- The result of Step, for a server that was `s`.
data Ended (s : Server) : Outcome → Type 0 where
  at_ok :
      {t : Server} {packets : List Packet}
      → t.data_dirty ≡ false
      → Converged s t packets
      → Ended s (ok t packets)
  at_failed : {t : Server} {packets : List Packet} → Ended s (failed t packets)
  at_undefined : Ended s undefined

Extends-Ended :
    (s : Server) (d v : Turn)
    → d.server.data_dirty ≡ false
    → Converged s d.server d.sent
    → Extends d v
    → Ended s (ok v.server v.sent)
unfolding Extends
Extends-Ended s d v e c (same, (after, p)) =
    at_ok (ap (λ (x : Server). x.data_dirty) same ∙ e) (later c)
  where
    later : Converged s d.server d.sent → Converged s v.server v.sent
    later (unchanged f g) = unchanged f (ap snapshot same ∙ g)
    later (announced a) = announced (record {
      before = a.before;
      after = a.after ++ after;
      placed =
          p
          ∙ ap (λ zs. zs ++ after) a.placed
          ∙ append_assoc (a.before ++ broadcast d.server.clients (snapshot d.server)) a.after after
          ∙ ap
              (λ (x : Server). (a.before ++ broadcast x.clients (snapshot x)) ++ (a.after ++ after))
              (sym same);
    })

flushed-Converged :
    (s : Server) (u : Turn)
    → Tracks (start s) u
    → ((flush_data u).server.data_dirty ≡ false)
      × Converged s (flush_data u).server (flush_data u).sent
unfolding flush_data Tracks
flushed-Converged s u k = elim (Bool-cases u.server.data_dirty) [
  | inl e ↦
      rw e (refl, announced (record { before = u.sent; after = []; placed = sym (append-nil _) }))
  | inr e ↦ rw e (refl, unchanged (k e).0 (k e).1)
]

finish-Ended : (s : Server) (u : Turn) → Tracks (start s) u → Ended s (finish u)
unfolding finish
finish-Ended s u k =
    let (e, c) = flushed-Converged s u k in
    Extends-Ended s (flush_data u) (flush_synced (flush_ready (flush_data u))) e c
      (flush-Extends (flush_data u))

then-Tracks : (t u v : Turn) → Tracks t u → Tracks u v → Tracks t v
unfolding Tracks
then-Tracks t u v f g e = let (a, b) = g e in let (c, d) = f a in (c, b ∙ d)

loop-Ended :
    (s : Server) (t : Turn) (ms : List (Option Incoming)) → Tracks (start s) t → Ended s (loop t ms)
unfolding loop
loop-Ended s t [] k = finish-Ended s t k
loop-Ended s t (none ∷ ms) k = at_failed
loop-Ended s t (some m ∷ ms) k =
    next (handle t m)
      (λ u e. loop-Ended s u ms (then-Tracks (start s) t u k (handle-Tracks t m u e)))
  where
    next :
        (o : Option Turn)
        → ((u : Turn) → o ≡ some u → Ended s (loop u ms))
        → Ended s (elim o [ none ↦ undefined | some u ↦ loop u ms ])
    next none g = at_undefined
    next (some u) g = g u refl

step-Ended : (s : Server) (p : Poll) → Ended s (step s p)
unfolding step
step-Ended s poll_error = at_failed
step-Ended s (received ms) = loop-Ended s (start s) ms (same-Tracks (start s) (start s) refl refl)

Ended-ok :
    {s t : Server} {packets : List Packet}
    → Ended s (ok t packets)
    → (t.data_dirty ≡ false) × Converged s t packets
Ended-ok (at_ok e c) = (e, c)

-- A call of Step that returns 0 leaves no data dirty, and either every client of the server that it leaves was sent what this server now says of the lobby, its members and the match, or that is what it said before the call, and no data was dirty then.
pub step-Converged :
    (s t : Server) (p : Poll) (packets : List Packet)
    → step s p ≡ ok t packets
    → (t.data_dirty ≡ false) × Converged s t packets
step-Converged s t p packets h = Ended-ok (subst (Ended s) h (step-Ended s p))
