-- ===== src/Session/Server/Moves.antt =====
-- What each handler of src/session/sf4e__SessionServer.cxx does to the list of clients.
use mathlib.Core.Option.{none-ne-some, some-injective}
use sf4_netplay_launcher.Prelude.{
  Bool, true, false, ◌≡◌, refl, subst, inl, inr, Option, none, some, List, [], ◌∷◌, Bool-cases,
  arith, if◌then◌else◌, ap, ◌&&◌,
}
use sf4_netplay_launcher.Session.Protocol.{
  JoinResult, Body, hello, forward, ggpo_frame, join_request, set_chara, set_env, set_stage,
  report_results, set_settings, lobby_ready, battle_loaded, lobby_reset, punch_ready, join_ok,
  request_invalid, name_taken, lobby_full, hash_invalid, ConnectionId, JoinRequest,
}
use sf4_netplay_launcher.Session.Server.{
  PeerAddr, Packet, Server, Incoming, Side, side0, side1, side_of, lookup, handle_results,
  reset_lobby_for_rematch, join_reject, register_to_wait,
}
use sf4_netplay_launcher.Session.Server.Handle.{
  Turn, emit, dispatch, handle, greet, join, join_from, host_only, player_only, on_some, dirty,
  put_punch, punch, is_fraudulent,
}
use sf4_netplay_launcher.Session.Server.Step.{flush_data, flush_ready, flush_synced}
use sf4_netplay_launcher.Session.Server.Roster.{
  Roster, kept, names, clients_of, register_to_wait-Roster, mark_loaded-names, unload-names,
  handle_results-Roster,
}

abbrev pub Moves : Turn → Turn → Type 0
Moves t u = Roster (clients_of t.server) (clients_of u.server)

join-Moves :
    (t : Turn) (m : Incoming) (cid : ConnectionId) (addr : PeerAddr) (r : Option JoinRequest)
    → Moves t (join t m cid addr r)
unfolding join
join-Moves t m cid addr none = kept refl
join-Moves t m cid addr (some r) =
    after (register_to_wait t.server m.conn r addr cid)
      (register_to_wait-Roster t.server m.conn r addr cid)
  where
    after :
        (x : Server × JoinResult)
        → Roster (clients_of t.server) (clients_of x.0)
        → Moves t (elim x.1 [
          | join_ok ↦ dirty t x.0
          | reason ↦ emit t ((m.conn, join_reject reason) ∷ [])
        ])
    after (s, join_ok) e = e
    after (s, request_invalid) e = kept refl
    after (s, name_taken) e = kept refl
    after (s, lobby_full) e = kept refl
    after (s, hash_invalid) e = kept refl

host_only-Moves {ℓ} :
    {A : Type ℓ} (t : Turn) (i : Option Side) (f : A → Server) (o : Option A)
    → ((a : A) → (f a).clients ≡ t.server.clients)
    → Moves t (host_only t i (on_some f o))
unfolding host_only
host_only-Moves t (some side0) f (some a) h = kept (ap names (h a))
host_only-Moves t (some side0) f none h = kept refl
host_only-Moves t (some side1) f o h = kept refl
host_only-Moves t none f o h = kept refl

punch-Moves : (t : Turn) (s : Server) → s.clients ≡ t.server.clients → Moves t (punch t s)
punch-Moves t s h = elim (Bool-cases (s.punch_ready0 && s.punch_ready1)) [
  | inl e ↦ rw e (kept (ap names h))
  | inr e ↦ rw e (kept (ap names h))
]

put_punch-clients : (s : Server) (i : Side) → (put_punch s i).clients ≡ s.clients
put_punch-clients s side0 = refl
put_punch-clients s side1 = refl

player_only-Moves :
    (t : Turn) (i : Side) (body : Body) (m : Incoming) → Moves t (player_only t (some i) body m)
unfolding player_only reset_lobby_for_rematch
player_only-Moves t i (set_chara (some chara)) m = kept refl
player_only-Moves t i (lobby_ready true) m = kept refl
player_only-Moves t i lobby_reset m = kept (unload-names t.server.clients)
player_only-Moves t i punch_ready m =
    punch-Moves t (put_punch t.server i) (put_punch-clients t.server i)
player_only-Moves t i _ m = kept refl

by_player-Moves :
    (t : Turn) (i : Option Side) (body : Body) (m : Incoming) → Moves t (player_only t i body m)
unfolding player_only
by_player-Moves t none body m = kept refl
by_player-Moves t (some i) body m = player_only-Moves t i body m

greet-Moves : (t : Turn) (m : Incoming) (body : Body) → Moves t (greet t m body)
unfolding greet
greet-Moves t m hello = kept refl
greet-Moves t m _ = kept refl

result : (t : Turn) {x u : Turn} → Moves t x → some x ≡ some u → Moves t u
result t {x} {u} k h = subst (Moves t) (some-injective x u h) k

relayed-Moves :
    (t : Turn) (is_dropped : Bool) (packets : List Packet)
    → Moves t (if is_dropped then t else emit t packets)
relayed-Moves t true packets = kept refl
relayed-Moves t false packets = kept refl

results-Moves :
    (t : Turn) (o : Option Server)
    → ((s : Server) → o ≡ some s → Roster (clients_of t.server) (clients_of s))
    → (u : Turn) → on_some (dirty t) o ≡ some u
    → Moves t u
results-Moves t none k u h = absurd (none-ne-some u h)
results-Moves t (some s) k u h = result t (k s refl) h

join_from-Moves :
    (t : Turn) (m : Incoming) (cid : ConnectionId) (r : Option JoinRequest) (addr : Option PeerAddr)
    (u : Turn)
    → join_from t m cid r addr ≡ some u
    → Moves t u
join_from-Moves t m cid r (some addr) u h = result t (join-Moves t m cid addr r) h
join_from-Moves t m cid none none u h = result t (kept refl) h
join_from-Moves t m cid (some r) none u h = absurd (none-ne-some u h)

dispatch-Moves :
    (t : Turn) (m : Incoming) (cid : ConnectionId) (body : Body) (u : Turn)
    → dispatch t m cid body ≡ some u
    → Moves t u
unfolding dispatch
dispatch-Moves t m cid (join_request r) u h = join_from-Moves t m cid r m.peer_addr u h
dispatch-Moves t m cid (set_env seed) u h =
    result t (host_only-Moves t (side_of t.server.clients m.conn) _ seed (λ a. refl)) h
dispatch-Moves t m cid (set_stage stage) u h =
    result t (host_only-Moves t (side_of t.server.clients m.conn) _ stage (λ a. refl)) h
dispatch-Moves t m cid (set_settings r) u h =
    result t (host_only-Moves t (side_of t.server.clients m.conn) _ r (λ a. refl)) h
dispatch-Moves t m cid battle_loaded u h =
    result t (kept (mark_loaded-names m.conn t.server.clients)) h
dispatch-Moves t m cid (report_results (some loser)) u h =
    results-Moves t (handle_results t.server loser) (handle_results-Roster t.server loser) u h
dispatch-Moves t m cid (ggpo_frame (some a)) u h =
    result t (relayed-Moves t (is_fraudulent t.server m a) _) h
dispatch-Moves t m cid (set_chara c) u h =
    result t (by_player-Moves t (side_of t.server.clients m.conn) (set_chara c) m) h
dispatch-Moves t m cid (lobby_ready read) u h =
    result t (by_player-Moves t (side_of t.server.clients m.conn) (lobby_ready read) m) h
dispatch-Moves t m cid lobby_reset u h =
    result t (by_player-Moves t (side_of t.server.clients m.conn) lobby_reset m) h
dispatch-Moves t m cid punch_ready u h =
    result t (by_player-Moves t (side_of t.server.clients m.conn) punch_ready m) h
dispatch-Moves t m cid (forward (some a)) u h = result t (kept refl) h
dispatch-Moves t m cid _ u h = result t (kept refl) h

pub handle-Moves : (t : Turn) (m : Incoming) (u : Turn) → handle t m ≡ some u → Moves t u
unfolding handle
handle-Moves t m u h = looked_up (lookup m.conn t.server.cid_map) h
  where
    looked_up :
        (o : Option ConnectionId)
        → elim o [ none ↦ some (greet t m m.body) | some cid ↦ dispatch t m cid m.body ] ≡ some u
        → Moves t u
    looked_up none h = result t (greet-Moves t m m.body) h
    looked_up (some cid) h = dispatch-Moves t m cid m.body u h

pub finish-clients :
    (t : Turn) → (flush_synced (flush_ready (flush_data t))).server.clients ≡ t.server.clients
unfolding flush_synced flush_ready flush_data
finish-clients t = ground arith
