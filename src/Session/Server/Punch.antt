-- ===== src/Session/Server/Punch.antt =====
-- The agreement to punch in src/session/sf4e__SessionServer.cxx.
use sf4_netplay_launcher.Prelude.{ℕ, false, ◌≡◌, refl, ◌∙◌, ap, some, arith}
use sf4_netplay_launcher.Session.Protocol.{ConnectionId, punch_ready}
use sf4_netplay_launcher.Session.Server.{Incoming, Side, side0, side1, side_of, broadcast, punch_go}
use sf4_netplay_launcher.Session.Server.Handle.{Turn, emit, dispatch, player_only, put_punch, punch}

abbrev pub opponent : Side → Side
opponent side0 = side1
opponent side1 = side0

-- The state in which one of the two players is ready to punch.
abbrev pub half_ready : Turn → Side → Turn
half_ready t i = record t { server = put_punch t.server i }

dispatch-punch :
    (t : Turn) (m : Incoming) (cid : ConnectionId) (i : Side)
    → side_of t.server.clients m.conn ≡ some i
    → dispatch t m cid punch_ready ≡ some (punch t (put_punch t.server i))
unfolding dispatch player_only
dispatch-punch t m cid i e = rw (e, dispatch) refl

punch_first :
    (t : Turn) (i : Side)
    → t.server.punch_ready0 ≡ false
    → t.server.punch_ready1 ≡ false
    → punch t (put_punch t.server i) ≡ half_ready t i
punch_first t side0 a b = ground arith
punch_first t side1 a b = ground arith

punch_again :
    (t : Turn) (i : Side)
    → t.server.punch_ready0 ≡ false
    → t.server.punch_ready1 ≡ false
    → punch (half_ready t i) (put_punch (half_ready t i).server i) ≡ half_ready t i
punch_again t side0 a b = ground arith
punch_again t side1 a b = ground arith

punch_second :
    (t : Turn) (i : Side)
    → t.server.punch_ready0 ≡ false
    → t.server.punch_ready1 ≡ false
    → punch (half_ready t i) (put_punch (half_ready t i).server (opponent i))
      ≡ emit t (broadcast t.server.clients punch_go)
punch_second t side0 a b = ground arith
punch_second t side1 a b = ground arith

side_of-half_ready :
    (t : Turn) (i : Side) (conn : ℕ)
    → side_of (half_ready t i).server.clients conn ≡ side_of t.server.clients conn
side_of-half_ready t side0 conn = refl
side_of-half_ready t side1 conn = refl

-- While neither player is ready to punch, the first player who says he is changes nothing else, is noted once however often he says so, and sends nothing; when his opponent then says so too, every client is sent the go, and neither is noted as ready any more.
pub punch_pairs :
    (t : Turn) (m1 m2 : Incoming) (cid1 cid2 : ConnectionId) (i : Side)
    → side_of t.server.clients m1.conn ≡ some i
    → side_of t.server.clients m2.conn ≡ some (opponent i)
    → t.server.punch_ready0 ≡ false
    → t.server.punch_ready1 ≡ false
    → (dispatch t m1 cid1 punch_ready ≡ some (half_ready t i))
      × (dispatch (half_ready t i) m1 cid1 punch_ready ≡ some (half_ready t i))
      × (dispatch (half_ready t i) m2 cid2 punch_ready
          ≡ some (emit t (broadcast t.server.clients punch_go)))
punch_pairs t m1 m2 cid1 cid2 i e1 e2 a b = (
  dispatch-punch t m1 cid1 i e1 ∙ ap (λ (u : Turn). some u) (punch_first t i a b),
  dispatch-punch (half_ready t i) m1 cid1 i (side_of-half_ready t i m1.conn ∙ e1)
      ∙ ap (λ (u : Turn). some u) (punch_again t i a b),
  dispatch-punch (half_ready t i) m2 cid2 (opponent i) (side_of-half_ready t i m2.conn ∙ e2)
      ∙ ap (λ (u : Turn). some u) (punch_second t i a b),
)
