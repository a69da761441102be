-- ===== src/Session/Server/Tracking.antt =====
-- The data of src/session/sf4e__SessionServer.cxx is dirty whenever what the clients are told may have
-- changed: every handler, message by message.
use mathlib.Core.Option.{some-injective}
use mathlib.Core.Option.{none-ne-some}
use sf4_netplay_launcher.Prelude.{
  Bool, true, false, ◌≡◌, refl, sym, ◌∙◌, subst, Option, none, some, List, [], ◌∷◌, Bool-cases, inl,
  inr, arith, if◌then◌else◌, ◌&&◌,
}
use sf4_netplay_launcher.Session.Protocol.{
  Body, ConnectionId, JoinRequest, JoinResult, join_ok, request_invalid, lobby_full, name_taken,
  hash_invalid, hello, forward, ggpo_frame, join_request, set_chara, set_env, set_stage,
  report_results, set_settings, lobby_ready, battle_loaded, lobby_reset, battle_snapshot,
  battle_hash, punch_ready,
}
use sf4_netplay_launcher.Session.Server.{
  PeerAddr, Server, Incoming, Packet, Side, side0, side1, side_of, lookup, register_to_wait,
  handle_results, reset_lobby_for_rematch, join_reject,
}
use sf4_netplay_launcher.Session.Server.Handle.{
  Turn, greet, handle, dispatch, dirty, on_some, emit, join, join_from, host_only, player_only,
  is_fraudulent, punch, put_punch,
}
use sf4_netplay_launcher.Session.Server.Step.{snapshot}

-- A change of what the clients are told leaves the data dirty.
unfoldable pub Tracks : Turn → Turn → Type 0
Tracks t u =
    u.server.data_dirty ≡ false
    → (t.server.data_dirty ≡ false) × (snapshot u.server ≡ snapshot t.server)

pub same-Tracks :
    (t u : Turn)
    → u.server.data_dirty ≡ t.server.data_dirty
    → snapshot u.server ≡ snapshot t.server
    → Tracks t u
unfolding Tracks
same-Tracks t u d s e = (sym d ∙ e, s)

dirty-Tracks : (t u : Turn) → u.server.data_dirty ≡ true → Tracks t u
unfolding Tracks
dirty-Tracks t u d e = ground arith

result : (t x u : Turn) → Tracks t x → some x ≡ some u → Tracks t u
result t x u k h = subst (Tracks t) (some-injective x u h) k

still : (t u : Turn) → some t ≡ some u → Tracks t u
still t u h = result t t u (same-Tracks t t refl refl) h

put_punch-snapshot :
    (s : Server) (i : Side)
    → ((put_punch s i).data_dirty ≡ s.data_dirty) × (snapshot (put_punch s i) ≡ snapshot s)
put_punch-snapshot s side0 = (refl, refl)
put_punch-snapshot s side1 = (refl, refl)

punch-snapshot :
    (t : Turn) (s : Server)
    → ((punch t s).server.data_dirty ≡ s.data_dirty) × (snapshot (punch t s).server ≡ snapshot s)
punch-snapshot t s = elim (Bool-cases (s.punch_ready0 && s.punch_ready1)) [
  | inl e ↦ rw e (refl, refl)
  | inr e ↦ rw e (refl, refl)
]

player_only-Tracks :
    (t : Turn) (i : Option Side) (body : Body) (m : Incoming) → Tracks t (player_only t i body m)
unfolding player_only reset_lobby_for_rematch
player_only-Tracks t none body m = same-Tracks t t refl refl
player_only-Tracks t (some i) (set_chara (some chara)) m = dirty-Tracks t _ refl
player_only-Tracks t (some i) (lobby_ready true) m = dirty-Tracks t _ refl
player_only-Tracks t (some i) lobby_reset m = dirty-Tracks t _ refl
player_only-Tracks t (some i) punch_ready m =
    let p = punch-snapshot t (put_punch t.server i) in
    let q = put_punch-snapshot t.server i in
    same-Tracks t (punch t (put_punch t.server i)) (p.0 ∙ q.0) (p.1 ∙ q.1)
player_only-Tracks t (some i) _ m = same-Tracks t t refl refl

host_only-Tracks : (t : Turn) (i : Option Side) (s : Option Server) → Tracks t (host_only t i s)
unfolding host_only
host_only-Tracks t (some side0) (some s) = dirty-Tracks t _ refl
host_only-Tracks t (some side0) none = same-Tracks t t refl refl
host_only-Tracks t (some side1) s = same-Tracks t t refl refl
host_only-Tracks t none s = same-Tracks t t refl refl

join-Tracks :
    (t : Turn) (m : Incoming) (cid : ConnectionId) (addr : PeerAddr) (r : Option JoinRequest)
    → Tracks t (join t m cid addr r)
unfolding join
join-Tracks t m cid addr none = same-Tracks t _ refl refl
join-Tracks t m cid addr (some r) = after (register_to_wait t.server m.conn r addr cid)
  where
    after :
        (x : Server × JoinResult)
        → Tracks t (elim x.1 [
          | join_ok ↦ dirty t x.0
          | reason ↦ emit t ((m.conn, join_reject reason) ∷ [])
        ])
    after (s, join_ok) = dirty-Tracks t _ refl
    after (s, request_invalid) = same-Tracks t _ refl refl
    after (s, name_taken) = same-Tracks t _ refl refl
    after (s, lobby_full) = same-Tracks t _ refl refl
    after (s, hash_invalid) = same-Tracks t _ refl refl

relayed-Tracks :
    (t : Turn) (is_dropped : Bool) (packets : List Packet)
    → Tracks t (if is_dropped then t else emit t packets)
relayed-Tracks t true packets = same-Tracks t _ refl refl
relayed-Tracks t false packets = same-Tracks t _ refl refl

results-Tracks :
    (t : Turn) (o : Option Server) (u : Turn) → on_some (dirty t) o ≡ some u → Tracks t u
results-Tracks t none u h = ground arith
results-Tracks t (some s) u h = result t (dirty t s) u (dirty-Tracks t _ refl) h

join_from-Tracks :
    (t : Turn) (m : Incoming) (cid : ConnectionId) (r : Option JoinRequest) (addr : Option PeerAddr)
    (u : Turn)
    → join_from t m cid r addr ≡ some u
    → Tracks t u
join_from-Tracks t m cid r (some addr) u h = result t _ u (join-Tracks t m cid addr r) h
join_from-Tracks t m cid none none u h = result t _ u (same-Tracks t _ refl refl) h
join_from-Tracks t m cid (some r) none u h = absurd (none-ne-some u h)

dispatch-Tracks :
    (t : Turn) (m : Incoming) (cid : ConnectionId) (body : Body) (u : Turn)
    → dispatch t m cid body ≡ some u
    → Tracks t u
unfolding dispatch
dispatch-Tracks t m cid (join_request r) u h = join_from-Tracks t m cid r m.peer_addr u h
dispatch-Tracks t m cid (set_env seed) u h =
    result t _ u (host_only-Tracks t (side_of t.server.clients m.conn) _) h
dispatch-Tracks t m cid (set_stage stage) u h =
    result t _ u (host_only-Tracks t (side_of t.server.clients m.conn) _) h
dispatch-Tracks t m cid (set_settings r) u h =
    result t _ u (host_only-Tracks t (side_of t.server.clients m.conn) _) h
dispatch-Tracks t m cid battle_loaded u h = result t _ u (dirty-Tracks t _ refl) h
dispatch-Tracks t m cid (report_results (some loser)) u h =
    results-Tracks t (handle_results t.server loser) u h
dispatch-Tracks t m cid (ggpo_frame (some a)) u h =
    result t _ u (relayed-Tracks t (is_fraudulent t.server m a) _) h
dispatch-Tracks t m cid (set_chara c) u h =
    result t _ u (player_only-Tracks t (side_of t.server.clients m.conn) (set_chara c) m) h
dispatch-Tracks t m cid (lobby_ready read) u h =
    result t _ u (player_only-Tracks t (side_of t.server.clients m.conn) (lobby_ready read) m) h
dispatch-Tracks t m cid lobby_reset u h =
    result t _ u (player_only-Tracks t (side_of t.server.clients m.conn) lobby_reset m) h
dispatch-Tracks t m cid punch_ready u h =
    result t _ u (player_only-Tracks t (side_of t.server.clients m.conn) punch_ready m) h
dispatch-Tracks t m cid (forward (some a)) u h = result t _ u (relayed-Tracks t false _) h
dispatch-Tracks t m cid battle_snapshot u h = result t _ u (relayed-Tracks t false _) h
dispatch-Tracks t m cid battle_hash u h = result t _ u (relayed-Tracks t false _) h
dispatch-Tracks t m cid _ u h = still t u h

greet-Tracks : (t : Turn) (m : Incoming) (body : Body) → Tracks t (greet t m body)
unfolding greet
greet-Tracks t m hello = same-Tracks t _ refl refl
greet-Tracks t m _ = same-Tracks t _ refl refl

pub handle-Tracks : (t : Turn) (m : Incoming) (u : Turn) → handle t m ≡ some u → Tracks t u
unfolding handle
handle-Tracks t m u h = looked_up (lookup m.conn t.server.cid_map) h
  where
    looked_up :
        (o : Option ConnectionId)
        → elim o [ none ↦ some (greet t m m.body) | some cid ↦ dispatch t m cid m.body ] ≡ some u
        → Tracks t u
    looked_up none h = result t _ u (greet-Tracks t m m.body) h
    looked_up (some cid) h = dispatch-Tracks t m cid m.body u h
