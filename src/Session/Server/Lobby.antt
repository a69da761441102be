-- ===== src/Session/Server/Lobby.antt =====
-- The lobby of src/session/sf4e__SessionServer.cxx under every call of the server.
use mathlib.Core.List.{Nodup-nil}
use sf4_netplay_launcher.Prelude.{
  ℕ, Bool, true, ◌≡◌, refl, sym, subst, inl, inr, Option, none, some, List, [], ◌∷◌, Bytes,
  Bool-cases, arith, ap,
}
use sf4_netplay_launcher.Prelude.Int.{ℤ}
use sf4_netplay_launcher.Session.Protocol.{FixedPoint}
use sf4_netplay_launcher.Session.Server.{Packet, Server, Incoming, init}
use sf4_netplay_launcher.Session.Server.Handle.{Turn, handle}
use sf4_netplay_launcher.Session.Server.Step.{
  Outcome, ok, failed, undefined, finish, loop, step, start, Poll, poll_error, received,
  ConnectionState, closed_by_peer, problem_detected_locally, on_status_changed, drop_client,
  has_client, close,
}
use sf4_netplay_launcher.Session.Server.Roster.{
  Roster-Inv, Inv, names, clients_of, left, erase_client-sublist, erase_client-length,
}
use sf4_netplay_launcher.Session.Server.Moves.{handle-Moves, finish-clients}

abbrev pub Lobby : Server → Type 0
Lobby s = Inv (clients_of s)

-- The server that a call of Step leaves has a property.
data Settled (P : Server → Type 0) : Outcome → Type 0 where
  at_ok : {s : Server} {packets : List Packet} → P s → Settled P (ok s packets)
  at_failed : {s : Server} {packets : List Packet} → P s → Settled P (failed s packets)
  at_undefined : Settled P undefined

loop-Settled : (t : Turn) (ms : List (Option Incoming)) → Lobby t.server → Settled Lobby (loop t ms)
unfolding loop finish
loop-Settled t [] v = at_ok (subst Inv (ap names (sym (finish-clients t))) v)
loop-Settled t (none ∷ ms) v = at_failed v
loop-Settled t (some m ∷ ms) v =
    next (handle t m) (λ u e. loop-Settled u ms (Roster-Inv (handle-Moves t m u e) v))
  where
    next :
        (o : Option Turn)
        → ((u : Turn) → o ≡ some u → Settled Lobby (loop u ms))
        → Settled Lobby (elim o [ none ↦ undefined | some u ↦ loop u ms ])
    next none k = at_undefined
    next (some u) k = k u refl

step-Settled : (s : Server) (p : Poll) → Lobby s → Settled Lobby (step s p)
unfolding step
step-Settled s poll_error v = at_failed v
step-Settled s (received ms) v = loop-Settled (start s) ms v

ok-Lobby : {s : Server} {packets : List Packet} → Settled Lobby (ok s packets) → Lobby s
ok-Lobby (at_ok v) = v

failed-Lobby : {s : Server} {packets : List Packet} → Settled Lobby (failed s packets) → Lobby s
failed-Lobby (at_failed v) = v

drop_client-Lobby : (s : Server) (conn : ℕ) → Lobby s → Lobby (drop_client s conn)
unfolding drop_client
drop_client-Lobby s conn v = elim (Bool-cases (has_client conn s.clients)) [
  | inl e ↦ rw e (
      Roster-Inv (left (erase_client-sublist conn s.clients) (erase_client-length conn s.clients))
        v)
  | inr e ↦ rw e v
]

on_status_changed-Lobby :
    (s : Server) (state : ConnectionState) (was_connected : Bool) (conn : ℕ)
    → Lobby s
    → Lobby (on_status_changed s state was_connected conn)
unfolding on_status_changed
on_status_changed-Lobby s closed_by_peer true conn v = drop_client-Lobby s conn v
on_status_changed-Lobby s problem_detected_locally true conn v = drop_client-Lobby s conn v
on_status_changed-Lobby s _ _ conn v = v

empty-Inv : Inv []
empty-Inv = record { bounded = omega arith; distinct = Nodup-nil }

-- The states that the calls of the program lead to from a new server.
pub data Reachable : Server → Type 0 where
  by_init :
      (identity sidecar_hash : Bytes) (edition_select : Bool) (round_count : ℤ)
      (round_time : FixedPoint)
      → Reachable (init identity sidecar_hash edition_select round_count round_time)
  by_step :
      {s t : Server} {packets : List Packet}
      → Reachable s
      → (p : Poll) → step s p ≡ ok t packets
      → Reachable t
  by_failed_step :
      {s t : Server} {packets : List Packet}
      → Reachable s
      → (p : Poll) → step s p ≡ failed t packets
      → Reachable t
  by_status :
      {s : Server}
      → Reachable s
      → (state : ConnectionState) (was_connected : Bool) (conn : ℕ)
      → Reachable (on_status_changed s state was_connected conn)
  by_close : {s : Server} → Reachable s → Reachable (close s)

-- In every reachable state of the server, the lobby has at most four clients, and no two clients have the same name.
pub Reachable-Lobby : {s : Server} → Reachable s → Lobby s
unfolding init close
Reachable-Lobby (by_init _ _ _ _ _) = empty-Inv
Reachable-Lobby (by_step {s} r p e) =
    ok-Lobby (subst (Settled Lobby) e (step-Settled s p (Reachable-Lobby r)))
Reachable-Lobby (by_failed_step {s} r p e) =
    failed-Lobby (subst (Settled Lobby) e (step-Settled s p (Reachable-Lobby r)))
Reachable-Lobby (by_status {s} r state was_connected conn) =
    on_status_changed-Lobby s state was_connected conn (Reachable-Lobby r)
Reachable-Lobby (by_close r) = empty-Inv
