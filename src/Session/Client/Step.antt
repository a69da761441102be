-- ===== src/Session/Client/Step.antt =====
-- SessionClient::Step of src/session/sf4e__SessionClient.cxx.
use sf4_netplay_launcher.Prelude.{
  ℕ, ◌+◌, ◌%◌, ◌^◌, Bool, true, not, ◌&&◌, Option, none, some, List, [], ◌∷◌, ◌++◌, Bytes, bytes_eq,
  length, leb, if◌then◌else◌,
}
use sf4_netplay_launcher.Prelude.Int.{ℤ, negsuc, eqz, ltz, add_nat}
use sf4_netplay_launcher.Prelude.FrameMap.{FrameMap, find, emplace, assign, erase, erase_first}
use sf4_netplay_launcher.Session.Protocol.{
  ConnectionId, conn_id_eq, MemberData, LobbyData, MatchData, JoinResult,
}
use sf4_netplay_launcher.Checkpoints.{
  Snapshot, same_snapshot, SnapshotMeta, HashCheckpoint, Simulation, hash_checkpoint_age_frames,
}
use sf4_netplay_launcher.Session.Client.{
  BattleHash, GgpoFrame, Client, Message, got_all_ready, got_synced, got_punch_go, got_hello_resp,
  got_join_reject, got_data_update, got_snapshot, got_hash, got_ggpo_frame, send_join,
  send_snapshot, send_hash, on_error, on_ready, on_battle_synced, close_connection,
  inject_from_peer, Env, Turn, send, call, with_client, leave_if, is_local_player,
  report_hash_mismatch, error_of,
}

abbrev pub max_pending_remote_hashes : ℕ
max_pending_remote_hashes = 64

-- MT_SESSION_HELLO_RESP: the identity, answered by the request to join.
unfoldable pub take_identity : Turn → ConnectionId → Turn
take_identity t cid = send (with_client t (record t.client { cid = cid })) (
    send_join (record {
      sidecar_hash = t.client.sidecar_hash;
      username = t.client.name;
      port = t.client.ggpo_port;
    }))

abbrev pub close_link : Turn → Option ℕ → Turn
close_link t none = t
close_link t (some conn) = call t (close_connection conn)

-- MT_SESSION_JOINREJ, up to its `return -1`.
unfoldable pub reject : Turn → JoinResult → Turn
reject t result =
    let u = call t (on_error (error_of result)) in
    with_client (close_link u t.client.conn) (record t.client { conn = none })

-- The ready number of the first of the two players that has the client's name.
unfoldable pub ready_number : List MemberData → Bytes → MatchData → Option ℤ
ready_number [] name d = none
ready_number (a ∷ []) name d = if bytes_eq a.name name then some d.ready0 else none
ready_number (a ∷ b ∷ rest) name d =
    if bytes_eq a.name name
    then some d.ready0
    else if bytes_eq b.name name
    then some d.ready1
    else none

-- MT_SESSION_DATAUPDATE: a ready request that the update contains is no longer outstanding.
unfoldable pub settle_ready : ℤ → Option ℤ → ℤ
settle_ready outstanding none = outstanding
settle_ready outstanding (some n) =
    if ltz (negsuc 0) outstanding && eqz n outstanding then negsuc 0 else outstanding

unfoldable pub update_data : Client → LobbyData → MatchData → Client
update_data c lobby d = record c {
  lobby_data = lobby;
  match_data = d;
  outstanding_ready_request_number =
      settle_ready c.outstanding_ready_request_number (ready_number lobby.members c.name d);
}

-- MT_BATTLE_SNAPSHOT, against the local snapshot of its frame if there is one: that is then
-- confirmed, and erased if it was sent.
unfoldable pub confirm : Simulation → Snapshot → Snapshot → SnapshotMeta → Simulation
confirm g remote local meta =
    let h = leave_if (not (same_snapshot remote local)) g in
    record h {
      snapshot_map =
          if meta.sent
          then erase remote.frame_idx g.snapshot_map
          else assign remote.frame_idx (local, record meta { confirmed = true }) g.snapshot_map;
    }

unfoldable pub take_snapshot : Turn → Snapshot → Turn
take_snapshot t remote = elim (find remote.frame_idx t.game.snapshot_map) [
  | none ↦ with_client t (record t.client {
    pending_remote_snapshots = emplace remote.frame_idx remote t.client.pending_remote_snapshots;
  })
  | some (local, meta) ↦ record t { game = confirm t.game remote local meta }
]

-- MT_BATTLE_HASH: the buffer is bounded by giving up its oldest frame.
unfoldable pub buffer_hash : FrameMap BattleHash → BattleHash → FrameMap BattleHash
buffer_hash pending m =
    assign m.frame_idx m
      (if leb max_pending_remote_hashes (length pending) then erase_first pending else pending)

-- OnGgpoFrameReceived.
unfoldable pub on_ggpo_frame_received : Turn → GgpoFrame → Turn
on_ggpo_frame_received t frame =
    if not (conn_id_eq frame.dest t.client.cid)
    then t
    else call
        (with_client t (record t.client {
          ggpo_tunnel_stats = record t.client.ggpo_tunnel_stats {
            recv_count = (t.client.ggpo_tunnel_stats.recv_count + 1) % 2 ^ 64;
            recv_bytes = (t.client.ggpo_tunnel_stats.recv_bytes + length frame.payload) % 2 ^ 64;
          };
        }))
        (inject_from_peer frame.src frame.payload)

-- The `if` chain on the type, for the messages that do not end Step.
unfoldable pub handle : Turn → Message → Turn
handle t (got_hello_resp (some cid)) = take_identity t cid
handle t (got_data_update (some (lobby, d))) = with_client t (update_data t.client lobby d)
handle t got_all_ready = call t on_ready
handle t got_synced = call t on_battle_synced
handle t (got_snapshot (some remote)) = take_snapshot t remote
handle t (got_hash (some m)) =
    with_client t
      (record t.client { pending_remote_hashes = buffer_hash t.client.pending_remote_hashes m })
handle t (got_ggpo_frame (some frame)) = on_ggpo_frame_received t frame
handle t got_punch_go = with_client t (record t.client { punch_go_received = true })
handle t _ = t

-- What is left of one local snapshot after the pass over all of them: an old one is sent once,
-- compared with the other player's if that is there, and erased when it is both sent and confirmed.
unfoldable pub reconcile_one :
    ℤ → Turn → ℤ → Snapshot → SnapshotMeta → Turn × FrameMap (Snapshot × SnapshotMeta)
reconcile_one now t frame_idx local meta =
    if ltz now (add_nat frame_idx 60)
    then (t, (frame_idx, (local, meta)) ∷ [])
    else let u = if meta.sent then t else send t (send_snapshot local) in
      if meta.confirmed then (u, []) else elim (find frame_idx t.client.pending_remote_snapshots) [
        | none ↦ (u, (frame_idx, (local, record meta { sent = true })) ∷ [])
        | some remote ↦ (record u { game = leave_if (not (same_snapshot remote local)) u.game }, [])
      ]

unfoldable pub reconcile :
    ℤ → Turn → FrameMap (Snapshot × SnapshotMeta) → Turn × FrameMap (Snapshot × SnapshotMeta)
reconcile now t [] = (t, [])
reconcile now t ((frame_idx, (local, meta)) ∷ rest) =
    let (u, kept) = reconcile_one now t frame_idx local meta in
    let (v, more) = reconcile now u rest in (v, kept ++ more)

-- One checkpoint of the exchange of hashes: only a player sends it.
abbrev pub battle_hash_of : HashCheckpoint → BattleHash
battle_hash_of cp = record {
  frame_idx = cp.frame_idx;
  overall = cp.hashes.overall;
  flow = cp.hashes.flow;
  chara0 = cp.hashes.chara0;
  chara1 = cp.hashes.chara1;
  from_player = true;
}

unfoldable pub offer_hash : Env → Turn → HashCheckpoint → Turn × HashCheckpoint
offer_hash env t cp =
    if not cp.sent && is_local_player t.client
    then (send t (send_hash (battle_hash_of cp)), record cp { sent = env.send_ok (length t.sent) })
    else (t, cp)

unfoldable pub compare_hash : Env → Turn → HashCheckpoint → Turn
compare_hash env t cp = elim (find cp.frame_idx t.client.pending_remote_hashes) [
  | none ↦ t
  | some remote ↦ record t {
    client = record t.client {
      pending_remote_hashes = erase cp.frame_idx t.client.pending_remote_hashes;
    };
    game = report_hash_mismatch env t.client t.game cp remote;
  }
]

unfoldable pub is_aged : ℤ → HashCheckpoint → Bool
is_aged now cp = cp.valid && not (ltz now (add_nat cp.frame_idx hash_checkpoint_age_frames))

unfoldable pub exchange_one : Env → ℤ → Turn → HashCheckpoint → Turn × HashCheckpoint
exchange_one env now t cp =
    if is_aged now cp
    then (let (u, offered) = offer_hash env t cp in (compare_hash env u cp, offered))
    else (t, cp)

unfoldable pub exchange : Env → ℤ → Turn → List HashCheckpoint → Turn × List HashCheckpoint
exchange env now t [] = (t, [])
exchange env now t (cp ∷ rest) =
    let (u, done) = exchange_one env now t cp in
    let (v, more) = exchange env now u rest in (v, done ∷ more)

-- The passes behind the loop over the messages.
unfoldable pub reconcile_snapshots : ℤ → Turn → Turn
reconcile_snapshots now t =
    let (u, kept) = reconcile now t t.game.snapshot_map in
    record u { game = record u.game { snapshot_map = kept } }

unfoldable pub exchange_hashes : Env → ℤ → Turn → Turn
exchange_hashes env now t =
    let (u, checked) = exchange env now t t.game.hash_checkpoints in
    record u { game = record u.game { hash_checkpoints = checked } }

unfoldable pub finish : Env → Turn → Turn
finish env t =
    let now = t.game.frames_simulated.integral in
    if t.client.snapshots_enabled then exchange_hashes env now (reconcile_snapshots now t) else t

-- What Step returns: 0 or -1.
pub data Outcome : Type 0 where
  ok failed : Turn → Outcome

-- The loop over the messages; a null pointer or a rejection ends Step at once.
unfoldable pub loop : Env → Turn → List (Option Message) → Outcome
loop env t [] = ok (finish env t)
loop env t (none ∷ rest) = failed t
loop env t (some (got_join_reject (some result)) ∷ rest) = failed (reject t result)
loop env t (some m ∷ rest) = loop env (handle t m) rest

-- What ReceiveMessagesOnConnection returns: a negative number, or that many messages.
pub data Poll : Type 0 where
  poll_error : Poll
  received : List (Option Message) → Poll

abbrev pub start : Client → Simulation → Turn
start c g = record { client = c; game = g; sent = []; calls = [] }

unfoldable pub poll_messages : Env → Turn → Poll → Outcome
poll_messages env t poll_error = failed t
poll_messages env t (received messages) = loop env t messages

unfoldable pub step : Env → Client → Simulation → Poll → Outcome
step env c g p = elim c.conn [
  | none ↦ ok (start c g)
  | some conn ↦ if not c.is_connected then ok (start c g) else poll_messages env (start c g) p
]
