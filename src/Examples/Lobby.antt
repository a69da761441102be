-- ===== src/Examples/Lobby.antt =====
-- Runs of the model of src/session/sf4e__SessionServer.cxx.
use sf4_netplay_launcher.Prelude.{
  ℕ, true, false, ◌≡◌, ◌↔◌, refl, none, some, List, [], ◌∷◌, bytes_eq, arith,
}
use sf4_netplay_launcher.Prelude.Int.{pos}
use sf4_netplay_launcher.Session.Protocol.{
  punch_ready, Body, hello, join_request, set_stage, report_results, ggpo_frame, Addressed,
}
use sf4_netplay_launcher.Session.Server.{
  side1, broadcast, punch_go, SessionMember, Server, Incoming, PeerAddr, Packet, init, side_of,
  has_name, register_to_wait,
}
use sf4_netplay_launcher.Session.Server.Handle.{emit, greet, join, dispatch, handle, host_only}
use sf4_netplay_launcher.Session.Server.Step.{
  Outcome, ok, failed, undefined, Poll, received, step, start, loop, finish, flush_data,
  flush_ready, flush_synced, closed_by_peer, on_status_changed,
}
use sf4_netplay_launcher.Session.Server.Lobby.{Lobby, by_init, by_step, by_status, Reachable-Lobby}
use sf4_netplay_launcher.Session.Server.Convergence.{Converged, step-Converged}
use sf4_netplay_launcher.Session.Server.Authority.{environment, dispatch-environment}
use sf4_netplay_launcher.Session.Server.Identity.{identity_of, dispatch-impersonation}
use sf4_netplay_launcher.Session.Server.Results.{IsUndefined, dispatch-IsUndefined_exact}
use sf4_netplay_launcher.Session.Server.Punch.{half_ready, punch_pairs}
use sf4_netplay_launcher.Session.Server.Loading.{loads, covered, synced_exact}

abbrev server : Server
server = init (b'h' ∷ []) (b'x' ∷ []) true (pos 3) (record { fractional = 0; integral = pos 99 })

abbrev local : PeerAddr
local = record { is_local_host = true; text = [] }

abbrev message : ℕ → Body → Incoming
message conn body = record {
  conn = conn;
  message_number = pos 1;
  peer_addr = some local;
  body = body;
}

abbrev joins : ℕ → ℕ → Incoming
joins conn name =
    message conn
      (join_request (some (record { sidecar_hash = b'x' ∷ []; username = name ∷ []; port = 1 })))

-- Two connections say hello and join the lobby.
abbrev arrivals : Poll
arrivals = received (
    some (message 71 hello)
    ∷ some (message 82 hello)
    ∷ some (joins 71 b'a')
    ∷ some (joins 82 b'b')
    ∷ [])

abbrev left_by : Outcome → Server
left_by (ok s packets) = s
left_by (failed s packets) = s
left_by undefined = server

abbrev sent_by : Outcome → List Packet
sent_by (ok s packets) = packets
sent_by (failed s packets) = packets
sent_by undefined = []

unfoldable pub joined : Server
joined = left_by (step server arrivals)

unfoldable pub first_packets : List Packet
first_packets = sent_by (step server arrivals)

arrivals_ok : step server arrivals ≡ ok joined first_packets
unfolding joined first_packets step loop handle greet dispatch join register_to_wait finish
    flush_data flush_ready flush_synced init bytes_eq has_name
arrivals_ok = refl

Reachable-Lobby_example : Lobby (on_status_changed joined closed_by_peer true 71)
Reachable-Lobby_example = Reachable-Lobby (
    by_status
      (by_step
        (by_init (b'h' ∷ []) (b'x' ∷ []) true (pos 3)
          (record { fractional = 0; integral = pos 99 }))
        arrivals arrivals_ok)
      closed_by_peer true 71)

step-Converged_example : (joined.data_dirty ≡ false) × Converged server joined first_packets
step-Converged_example = step-Converged server joined arrivals first_packets arrivals_ok

-- The second player asks for another stage.
dispatch-environment_example : environment (start joined).server ≡ environment (start joined).server
unfolding joined step loop handle greet dispatch join register_to_wait finish flush_data flush_ready
    flush_synced init bytes_eq has_name side_of host_only
dispatch-environment_example =
    dispatch-environment (start joined) (message 82 (set_stage (some (pos 4))))
      (identity_of joined 82) (set_stage (some (pos 4))) (λ e. ground arith) (λ r. r) (start joined)
      refl

abbrev masked : Addressed
masked = record { src = identity_of joined 71; dest = identity_of joined 71 }

dispatch-impersonation_example :
    dispatch
      (start joined)
      (message 82 (ggpo_frame (some masked)))
      (identity_of joined 82)
      (ggpo_frame (some masked))
    ≡ some (start joined)
dispatch-impersonation_example =
    dispatch-impersonation (start joined) (message 82 (ggpo_frame (some masked)))
      (identity_of joined 82) masked 71 (omega arith) (omega arith) (omega arith) refl

dispatch-IsUndefined_exact_example :
    (dispatch
        (start joined)
        (message 82 (report_results (some (pos 2))))
        (identity_of joined 82)
        (report_results (some (pos 2)))
      ≡ none)
    ↔ IsUndefined joined.clients (some local) (report_results (some (pos 2)))
dispatch-IsUndefined_exact_example =
    dispatch-IsUndefined_exact (start joined) (message 82 (report_results (some (pos 2))))
      (identity_of joined 82) (report_results (some (pos 2)))

abbrev nobody : SessionMember
nobody = record {
  member = record { conn_id = identity_of server 0; name = []; ip = []; port = 0; flags = 0 };
  conn = 0;
}

abbrev first_client : SessionMember
unfolding joined step loop handle greet dispatch join register_to_wait finish flush_data flush_ready
    flush_synced init bytes_eq has_name
first_client = elim joined.clients [ [] ↦ nobody | c ∷ cs ↦ c ]

punch_pairs_example :
    (dispatch (start joined) (message 82 punch_ready) (identity_of joined 82) punch_ready
      ≡ some (half_ready (start joined) side1))
    × (dispatch
          (half_ready (start joined) side1)
          (message 82 punch_ready)
          (identity_of joined 82)
          punch_ready
        ≡ some (half_ready (start joined) side1))
    × (dispatch
          (half_ready (start joined) side1)
          (message 71 punch_ready)
          (identity_of joined 71)
          punch_ready
        ≡ some (emit (start joined) (broadcast joined.clients punch_go)))
unfolding joined step loop handle greet dispatch join register_to_wait finish flush_data flush_ready
    flush_synced init bytes_eq has_name side_of
punch_pairs_example =
    punch_pairs (start joined) (message 82 punch_ready) (message 71 punch_ready)
      (identity_of joined 82) (identity_of joined 71) side1 refl refl refl refl

synced_exact_example :
    (loads (start joined) (82 ∷ 71 ∷ [])).send_battle_synced ≡ covered joined.clients (82 ∷ 71 ∷ [])
synced_exact_example = synced_exact (start joined) 82 (71 ∷ [])
