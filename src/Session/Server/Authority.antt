-- ===== src/Session/Server/Authority.antt =====
-- Who may change what in src/session/sf4e__SessionServer.cxx.
use mathlib.Core.Option.{none-ne-some, some-injective}
use sf4_netplay_launcher.Prelude.{
  ℕ, Bool, true, false, ◌≡◌, refl, ◌∙◌, subst, Option, none, some, List, [], ◌∷◌, arith,
  if◌then◌else◌,
}
use sf4_netplay_launcher.Prelude.Int.{ℤ}
use sf4_netplay_launcher.Session.Protocol.{
  Body, CharaConditions, ConnectionId, JoinRequest, JoinResult, LobbyData, join_ok, request_invalid,
  lobby_full, name_taken, hash_invalid, forward, ggpo_frame, join_request, set_chara, set_env,
  set_stage, report_results, set_settings, lobby_ready, battle_loaded, lobby_reset, punch_ready,
}
use sf4_netplay_launcher.Session.Server.{
  Server, Incoming, Packet, PeerAddr, Side, side0, side1, side_of, register_to_wait,
  reset_lobby_for_rematch, join_reject,
}
use sf4_netplay_launcher.Session.Server.Handle.{
  Turn, dispatch, dirty, emit, join, join_from, host_only, player_only, is_fraudulent, punch,
  put_punch, put_chara, put_ready,
}

-- What only the first player may set: the lobby's settings, the stage and the seed.
pub record Environment : Type 0 where
  pub lobby_data : LobbyData
  pub stage_id : ℤ
  pub rng_seed : ℕ

abbrev pub environment : Server → Environment
environment s = record {
  lobby_data = s.lobby_data;
  stage_id = s.match_data.stage_id;
  rng_seed = s.match_data.rng_seed;
}

-- A message that reports results, which clears the match.
abbrev pub IsReport : Body → Type 0
IsReport (report_results loser) = Unit
IsReport _ = ⊥

abbrev Same : Turn → Turn → Type 0
Same t u = environment u.server ≡ environment t.server

result : (t : Turn) {x u : Turn} → Same t x → some x ≡ some u → Same t u
result t {x} {u} k h = subst (Same t) (some-injective x u h) k

put_chara-Same :
    (t : Turn) (i : Side) (c : CharaConditions)
    → Same t (dirty t (record t.server { match_data = put_chara t.server.match_data i c }))
put_chara-Same t side0 c = refl
put_chara-Same t side1 c = refl

put_ready-Same :
    (t : Turn) (i : Side) (n : ℤ)
    → environment (record t.server { match_data = put_ready t.server.match_data i n })
      ≡ environment t.server
put_ready-Same t side0 n = refl
put_ready-Same t side1 n = refl

punch-Same : (t : Turn) (s : Server) → environment (punch t s).server ≡ environment s
punch-Same t s = ground arith

put_punch-Same : (s : Server) (i : Side) → environment (put_punch s i) ≡ environment s
put_punch-Same s side0 = refl
put_punch-Same s side1 = refl

player_only-Same :
    (t : Turn) (i : Option Side) (body : Body) (m : Incoming) → Same t (player_only t i body m)
unfolding player_only reset_lobby_for_rematch
player_only-Same t none body m = refl
player_only-Same t (some i) (set_chara (some chara)) m = put_chara-Same t i chara
player_only-Same t (some i) (lobby_ready true) m = put_ready-Same t i m.message_number
player_only-Same t (some i) lobby_reset m = refl
player_only-Same t (some i) punch_ready m =
    punch-Same t (put_punch t.server i) ∙ put_punch-Same t.server i
player_only-Same t (some i) _ m = refl

host_only-Same :
    (t : Turn) (i : Option Side) (s : Option Server)
    → (¬ (i ≡ some side0))
    → Same t (host_only t i s)
unfolding host_only
host_only-Same t none s k = refl
host_only-Same t (some side0) s k = absurd (k refl)
host_only-Same t (some side1) s k = refl

register_to_wait-Same :
    (s : Server) (conn : ℕ) (r : JoinRequest) (addr : PeerAddr) (cid : ConnectionId)
    → environment (register_to_wait s conn r addr cid).0 ≡ environment s
unfolding register_to_wait
register_to_wait-Same s conn r addr cid = ground arith

join-Same :
    (t : Turn) (m : Incoming) (cid : ConnectionId) (addr : PeerAddr) (r : Option JoinRequest)
    → Same t (join t m cid addr r)
unfolding join
join-Same t m cid addr none = refl
join-Same t m cid addr (some r) =
    after (register_to_wait t.server m.conn r addr cid)
      (register_to_wait-Same t.server m.conn r addr cid)
  where
    after :
        (x : Server × JoinResult)
        → environment x.0 ≡ environment t.server
        → Same t (elim x.1 [
          | join_ok ↦ dirty t x.0
          | reason ↦ emit t ((m.conn, join_reject reason) ∷ [])
        ])
    after (s, join_ok) e = e
    after (s, request_invalid) e = refl
    after (s, name_taken) e = refl
    after (s, lobby_full) e = refl
    after (s, hash_invalid) e = refl

relayed-Same :
    (t : Turn) (is_dropped : Bool) (packets : List Packet)
    → Same t (if is_dropped then t else emit t packets)
relayed-Same t true packets = refl
relayed-Same t false packets = refl

join_from-Same :
    (t : Turn) (m : Incoming) (cid : ConnectionId) (r : Option JoinRequest) (addr : Option PeerAddr)
    (u : Turn)
    → join_from t m cid r addr ≡ some u
    → Same t u
join_from-Same t m cid r (some addr) u h = result t (join-Same t m cid addr r) h
join_from-Same t m cid none none u h = result t (refl) h
join_from-Same t m cid (some r) none u h = absurd (none-ne-some u h)

-- A message of a connection that is not the first player's, and that does not report results, changes neither the lobby's settings nor the stage nor the seed of the match.
pub dispatch-environment :
    (t : Turn) (m : Incoming) (cid : ConnectionId) (body : Body)
    → (¬ (side_of t.server.clients m.conn ≡ some side0))
    → (¬ IsReport body)
    → (u : Turn) → dispatch t m cid body ≡ some u
    → environment u.server ≡ environment t.server
unfolding dispatch
dispatch-environment t m cid (join_request r) k n u h = join_from-Same t m cid r m.peer_addr u h
dispatch-environment t m cid (set_env seed) k n u h =
    result t (host_only-Same t (side_of t.server.clients m.conn) _ k) h
dispatch-environment t m cid (set_stage stage) k n u h =
    result t (host_only-Same t (side_of t.server.clients m.conn) _ k) h
dispatch-environment t m cid (set_settings r) k n u h =
    result t (host_only-Same t (side_of t.server.clients m.conn) _ k) h
dispatch-environment t m cid battle_loaded k n u h = result t refl h
dispatch-environment t m cid (report_results loser) k n u h = absurd (n tt)
dispatch-environment t m cid (ggpo_frame (some a)) k n u h =
    result t (relayed-Same t (is_fraudulent t.server m a) _) h
dispatch-environment t m cid (set_chara c) k n u h =
    result t (player_only-Same t (side_of t.server.clients m.conn) (set_chara c) m) h
dispatch-environment t m cid (lobby_ready read) k n u h =
    result t (player_only-Same t (side_of t.server.clients m.conn) (lobby_ready read) m) h
dispatch-environment t m cid lobby_reset k n u h =
    result t (player_only-Same t (side_of t.server.clients m.conn) lobby_reset m) h
dispatch-environment t m cid punch_ready k n u h =
    result t (player_only-Same t (side_of t.server.clients m.conn) punch_ready m) h
dispatch-environment t m cid (forward (some a)) k n u h = result t refl h
dispatch-environment t m cid _ k n u h = result t refl h
