-- ===== src/Session/Client/Buffers.antt =====
-- The buffer of remote hashes of src/session/sf4e__SessionClient.cxx stays bounded, over any history.
use sf4_netplay_launcher.Prelude.{
  ℕ, suc, ◌≤◌, ◌≡◌, refl, sym, ◌∙◌, subst, Bool, true, false, not, ◌&&◌, Option, none, some, List,
  [], ◌∷◌, Bytes, length, leb, arith, if◌then◌else◌,
}
use sf4_netplay_launcher.Prelude.Int.{ℤ}
use sf4_netplay_launcher.Prelude.FrameMap.{FrameMap, erase_first, length-assign, length-erase}
use sf4_netplay_launcher.Diagnostics.Branches.{if-holds, elim-holds}
use sf4_netplay_launcher.Session.Protocol.{ConnectionId}
use sf4_netplay_launcher.Checkpoints.{Snapshot, SnapshotMeta, HashCheckpoint, Simulation}
use sf4_netplay_launcher.Session.Client.{
  BattleHash, Client, Message, got_no_json, got_no_type, got_all_ready, got_synced, got_punch_go,
  got_forward, got_other, got_hello_resp, got_join_reject, got_data_update, got_snapshot, got_hash,
  got_ggpo_frame, Env, Turn,
}
use sf4_netplay_launcher.Session.Client.Step.{
  take_identity, reject, update_data, take_snapshot, buffer_hash, on_ggpo_frame_received, handle,
  reconcile_one, reconcile, offer_hash, compare_hash, exchange_one, exchange, reconcile_snapshots,
  exchange_hashes, finish, Outcome, ok, failed, loop, Poll, poll_error, received, start,
  poll_messages, step,
}
use sf4_netplay_launcher.Session.Client.Events.{
  connect_local, connect_by_address, disconnect, Link, link_connecting, link_connected,
  link_closed_by_peer, link_problem_locally, link_other, was_connected, lose, on_status_changed,
  lobby_ready, punch_reset, send_ggpo, clear_battle_state,
}

pub reconcile_one-client :
    (now : ℤ) (t : Turn) (f : ℤ) (local : Snapshot) (meta : SnapshotMeta)
    → (reconcile_one now t f local meta).0.client ≡ t.client
unfolding reconcile_one
reconcile_one-client now t f local meta = ground arith

pub reconcile-client :
    (now : ℤ) (t : Turn) (m : FrameMap (Snapshot × SnapshotMeta))
    → (reconcile now t m).0.client ≡ t.client
unfolding reconcile
reconcile-client now t [] = refl
reconcile-client now t ((f, (local, meta)) ∷ rest) =
    reconcile-client now (reconcile_one now t f local meta).0 rest
    ∙ reconcile_one-client now t f local meta

abbrev pub Bounded : Client → Type 0
Bounded c = length c.pending_remote_hashes ≤ 64

length-erase_first :
    (m : FrameMap BattleHash)
    → length m ≤ 64
    → suc (length (if leb 64 (length m) then erase_first m else m)) ≤ 64
length-erase_first [] h = ground arith
length-erase_first (e ∷ m) h = ground (arith, h)

pub length-buffer_hash :
    (m : FrameMap BattleHash) (b : BattleHash) → length m ≤ 64 → length (buffer_hash m b) ≤ 64
unfolding buffer_hash
length-buffer_hash m b h =
    let kept = if leb 64 (length m) then erase_first m else m in
    omega (arith, length-assign b.frame_idx b kept, length-erase_first m h)

handle-Bounded : (t : Turn) (m : Message) → Bounded t.client → Bounded (handle t m).client
unfolding handle take_identity update_data take_snapshot on_ggpo_frame_received
handle-Bounded t got_no_json h = h
handle-Bounded t got_no_type h = h
handle-Bounded t got_all_ready h = h
handle-Bounded t got_synced h = h
handle-Bounded t got_punch_go h = h
handle-Bounded t got_forward h = h
handle-Bounded t got_other h = h
handle-Bounded t (got_hello_resp none) h = h
handle-Bounded t (got_hello_resp (some cid)) h = h
handle-Bounded t (got_join_reject r) h = h
handle-Bounded t (got_data_update none) h = h
handle-Bounded t (got_data_update (some (l, d))) h = h
handle-Bounded t (got_snapshot none) h = h
handle-Bounded t (got_snapshot (some r)) h = ground (arith, h)
handle-Bounded t (got_hash none) h = h
handle-Bounded t (got_hash (some b)) h = length-buffer_hash t.client.pending_remote_hashes b h
handle-Bounded t (got_ggpo_frame none) h = h
handle-Bounded t (got_ggpo_frame (some f)) h = ground (arith, h)

compare_hash-Bounded :
    (env : Env) (t : Turn) (cp : HashCheckpoint)
    → Bounded t.client
    → Bounded (compare_hash env t cp).client
unfolding compare_hash
compare_hash-Bounded env t cp h =
    ground (arith, h, length-erase cp.frame_idx t.client.pending_remote_hashes)

exchange_one-Bounded :
    (env : Env) (now : ℤ) (t : Turn) (cp : HashCheckpoint)
    → Bounded t.client
    → Bounded (exchange_one env now t cp).0.client
unfolding exchange_one offer_hash
exchange_one-Bounded env now t cp h =
    ground (arith, h, compare_hash-Bounded env (offer_hash env t cp).0 cp)

exchange-Bounded :
    (env : Env) (now : ℤ) (t : Turn) (cps : List HashCheckpoint)
    → Bounded t.client
    → Bounded (exchange env now t cps).0.client
unfolding exchange
exchange-Bounded env now t [] h = h
exchange-Bounded env now t (cp ∷ rest) h =
    exchange-Bounded env now (exchange_one env now t cp).0 rest
      (exchange_one-Bounded env now t cp h)

finish-Bounded : (env : Env) (t : Turn) → Bounded t.client → Bounded (finish env t).client
unfolding finish exchange_hashes reconcile_snapshots
finish-Bounded env t h =
    let now = t.game.frames_simulated.integral in
    let u = reconcile_snapshots now t in
    if-holds (λ v. Bounded v.client) t.client.snapshots_enabled (exchange_hashes env now u) t
      (exchange-Bounded env now u u.game.hash_checkpoints
        (subst Bounded (sym (reconcile-client now t t.game.snapshot_map)) h))
      h

-- The turn that Step leaves, whatever it returns.
abbrev pub left_by : Outcome → Turn
left_by (ok t) = t
left_by (failed t) = t

loop-Bounded :
    (env : Env) (t : Turn) (ms : List (Option Message))
    → Bounded t.client
    → Bounded (left_by (loop env t ms)).client
unfolding loop reject
loop-Bounded env t [] h = finish-Bounded env t h
loop-Bounded env t (none ∷ rest) h = h
loop-Bounded env t (some (got_join_reject (some r)) ∷ rest) h = h
loop-Bounded env t (some m ∷ rest) h = loop-Bounded env (handle t m) rest (handle-Bounded t m h)

poll-Bounded :
    (env : Env) (t : Turn) (p : Poll)
    → Bounded t.client
    → Bounded (left_by (poll_messages env t p)).client
unfolding poll_messages
poll-Bounded env t poll_error h = h
poll-Bounded env t (received ms) h = loop-Bounded env t ms h

step-Bounded :
    (env : Env) (c : Client) (g : Simulation) (p : Poll)
    → Bounded c
    → Bounded (left_by (step env c g p)).client
unfolding step
step-Bounded env c g p h =
    let P : Outcome → Type 0 = λ o. Bounded (left_by o).client in
    let run = poll_messages env (start c g) p in
    elim-holds P c.conn (ok (start c g)) (λ n. if not c.is_connected then ok (start c g) else run) h
      (λ n.
        if-holds P (not c.is_connected) (ok (start c g)) run h (poll-Bounded env (start c g) p h))

-- What changes a client: its entry points, those that only send left out.
pub data Event : Type 0 where
  by_step : Env → Simulation → Poll → Event
  by_connect_local : ℕ → Event
  by_connect : Option ℕ → Event
  by_disconnect by_punch_reset by_clear : Event
  by_status : Link → Link → Bool → ℕ → Event
  by_ready : Option ℤ → Event
  by_send_ggpo : Env → ConnectionId → Bytes → Event

-- The game at hand matters to Step alone.
unfoldable pub react : Simulation → Client → Event → Client
react g c (by_step env now p) = (left_by (step env c now p)).client
react g c (by_connect_local n) = connect_local c n
react g c (by_connect n) = connect_by_address c n
react g c by_disconnect = (disconnect (start c g)).client
react g c by_punch_reset = (punch_reset (start c g)).client
react g c by_clear = (clear_battle_state (start c g)).client
react g c (by_status old new has_ggpo n) = (on_status_changed (start c g) old new has_ggpo n).client
react g c (by_ready n) = (lobby_ready (start c g) n).client
react g c (by_send_ggpo env dest bytes) = (send_ggpo env (start c g) dest bytes).0.client

unfoldable pub history : Simulation → Client → List Event → Client
history g c [] = c
history g c (e ∷ es) = history g (react g c e) es

lose-Bounded :
    (t : Turn) (old : Link) (was_in_match is_problem : Bool) (n : ℕ)
    → Bounded t.client
    → Bounded (lose t old was_in_match is_problem n).client
lose-Bounded t link_connecting w b n h = ground (arith, h)
lose-Bounded t link_connected w b n h = ground (arith, h)
lose-Bounded t link_closed_by_peer w b n h = ground (arith, h)
lose-Bounded t link_problem_locally w b n h = ground (arith, h)
lose-Bounded t link_other w b n h = ground (arith, h)

react-Bounded : (g : Simulation) (c : Client) (e : Event) → Bounded c → Bounded (react g c e)
unfolding react connect_local connect_by_address disconnect punch_reset clear_battle_state
    on_status_changed lobby_ready send_ggpo
react-Bounded g c (by_step env now p) h = step-Bounded env c now p h
react-Bounded g c (by_connect_local n) h = h
react-Bounded g c (by_connect n) h = h
react-Bounded g c by_disconnect h = ground (arith, h)
react-Bounded g c by_punch_reset h = h
react-Bounded g c by_clear h = omega arith
react-Bounded g c (by_status old link_connecting w n) h = h
react-Bounded g c (by_status old link_connected w n) h = h
react-Bounded g c (by_status old link_other w n) h = h
react-Bounded g c (by_status old link_closed_by_peer w n) h =
    lose-Bounded (start c g) old (was_connected old && w) false n h
react-Bounded g c (by_status old link_problem_locally w n) h =
    lose-Bounded (start c g) old (was_connected old && w) true n h
react-Bounded g c (by_ready none) h = h
react-Bounded g c (by_ready (some n)) h = h
react-Bounded g c (by_send_ggpo env dest []) h = h
react-Bounded g c (by_send_ggpo env dest (b ∷ bs)) h = ground (arith, h)

-- A client never buffers more than 64 remote hashes, whatever it is sent, and whatever its user and its connection do, in any order.
pub history-Bounded :
    (g : Simulation) (c : Client) (es : List Event)
    → length c.pending_remote_hashes ≤ 64
    → length (history g c es).pending_remote_hashes ≤ 64
unfolding history
history-Bounded g c [] h = h
history-Bounded g c (e ∷ es) h = history-Bounded g (react g c e) es (react-Bounded g c e h)
