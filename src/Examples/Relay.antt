-- ===== src/Examples/Relay.antt =====
-- Runs of the model of src/relay/ggpo_udp_relay.cxx.
use sf4_netplay_launcher.Prelude.{ℕ, ◌≡◌, refl, some, [], ◌∷◌, ◌++◌, Bytes, bytes_eq, inl, arith}
use sf4_netplay_launcher.Prelude.Int.{pos}
use sf4_netplay_launcher.GgpoTransport.{registration_packet}
use sf4_netplay_launcher.UdpRelay.{
  SockaddrIn, Slot, slot0, slot1, find_slot_for_registration, both_slots_active,
  find_slot_by_endpoint, first_inactive, find_slot_by_ip,
}
use sf4_netplay_launcher.UdpRelay.Token.{is_hex_token, token_matches}
use sf4_netplay_launcher.UdpRelay.Packet.{resp_registered, resp_waiting, is_reg_legacy}
use sf4_netplay_launcher.UdpRelay.Loop.{
  Relay, Config, Datagram, readable, reply, registered_at, init, handle, run,
}
use sf4_netplay_launcher.UdpRelay.Generations.{Inv, run-Inv}
use sf4_netplay_launcher.UdpRelay.Strangers.{Untouched, handle-Untouched}
use sf4_netplay_launcher.UdpRelay.Traffic.{AllFair, handle-AllFair}
use sf4_netplay_launcher.UdpRelay.Rematch.{rematch_pairs}
use sf4_netplay_launcher.UdpRelay.Registration.{sent_pair, IsPaired, slot_number, key_of}

abbrev eight : ℕ → Bytes
eight c = c ∷ c ∷ c ∷ c ∷ c ∷ c ∷ c ∷ c ∷ []

abbrev room_token : Bytes
room_token = ((eight b'0' ++ eight b'a') ++ eight b'f') ++ eight b'9'

-- The same token in capitals.
abbrev sent_token : Bytes
sent_token = ((eight b'0' ++ eight b'A') ++ eight b'F') ++ eight b'9'

abbrev other_token : Bytes
other_token = ((eight b'0' ++ eight b'a') ++ eight b'f') ++ eight b'8'

abbrev config : Config
config = record { room_token = room_token; idle_exit_sec = pos 900; htons = λ n. n }

abbrev host_a : SockaddrIn
host_a = record { s_addr = 1; sin_port = 1000 }

abbrev host_a_again : SockaddrIn
host_a_again = record { s_addr = 1; sin_port = 1001 }

abbrev host_b : SockaddrIn
host_b = record { s_addr = 2; sin_port = 2000 }

abbrev host_b_again : SockaddrIn
host_b_again = record { s_addr = 2; sin_port = 2002 }

abbrev magic : Bytes
magic = b'S' ∷ b'F' ∷ b'4' ∷ b'G' ∷ []

abbrev legacy : Bytes → SockaddrIn → Datagram
legacy token from = record { buf = magic ++ token; from = from }

-- Both slots taken by legacy clients.
abbrev full : Relay
full = record (init 0) {
  slots = record { first = registered_at host_a; second = registered_at host_b };
}

abbrev v3_datagram : Slot → SockaddrIn → Datagram
v3_datagram i from = record {
  buf = registration_packet sent_token (slot_number i) (pos 5) (pos 7);
  from = from;
}

sent_pair_example :
    let s = (handle config (init 0) (v3_datagram slot0 host_a)).0 in
    let (t, out) = handle config s (v3_datagram slot1 host_b) in
    IsPaired t (key_of 5 7) slot0 host_a host_b × (out ≡ reply resp_registered host_b)
unfolding is_hex_token init run
sent_pair_example =
    sent_pair config sent_token refl refl refl 5 7 (omega arith) (omega arith) (init 0) slot0 host_a
      host_b (run-Inv config 0 [])

rematch_pairs_example :
    let s = (handle config full (legacy room_token host_a_again)).0 in
    ((handle config full (legacy room_token host_a_again)).1 ≡ reply resp_waiting host_a_again)
    × (handle config s (legacy room_token host_a_again) ≡ (s, reply resp_waiting host_a_again))
    × (handle config s (legacy sent_token host_b_again) ≡ (
      record full {
        slots = record { first = registered_at host_a_again; second = registered_at host_b_again };
      },
      reply resp_registered host_b_again,
    ))
unfolding token_matches is_reg_legacy find_slot_for_registration bytes_eq both_slots_active
    find_slot_by_endpoint first_inactive find_slot_by_ip
rematch_pairs_example =
    rematch_pairs config full (legacy room_token host_a_again) (legacy sent_token host_b_again)
      slot0 (refl, inl refl) (refl, inl refl) refl refl refl refl

run-Inv_example : Inv (
    run config (init 0) (
      readable 10 (some (v3_datagram slot0 host_a))
      ∷ readable 20 (some (v3_datagram slot1 host_b))
      ∷ []))
run-Inv_example = run-Inv config 0 (
    readable 10 (some (v3_datagram slot0 host_a))
    ∷ readable 20 (some (v3_datagram slot1 host_b))
    ∷ [])

handle-Untouched_example : Untouched full (handle config full (legacy other_token host_a_again)).0
unfolding token_matches
handle-Untouched_example = handle-Untouched config full (legacy other_token host_a_again) refl

handle-AllFair_example :
    AllFair full
      (record { buf = 1 ∷ 2 ∷ []; from = host_a })
      (handle config full (record { buf = 1 ∷ 2 ∷ []; from = host_a })).1
handle-AllFair_example = handle-AllFair config full (record { buf = 1 ∷ 2 ∷ []; from = host_a })
